-- ===== src/Http/Sessions.antt =====
-- api/handler/auth.go: the four handlers of a session, with the table of refresh tokens.
pub mod Opening
pub mod Closing
pub mod Again
use vaulthook.Prelude.{
  ℕ, ◌*◌, ℤ, pos, Bool, true, false, not, Option, none, some, List, [], ◌∷◌, Text, codes,
}
use vaulthook.Auth.{
  AuthError, invalid_token, invalid_credentials, token_not_found, token_key_missing, token_expired,
  Outcome, done, denied, Claims, Token, Service, login, delete, refresh_token,
  validate_access_token, second,
}
use vaulthook.Http.{
  Cookie, new_access_cookie, new_refresh_cookie, expired_access_cookie, expired_refresh_cookie,
  Reply, http_error, write_header,
}
use vaulthook.Http.Body.{Request, Decoder, Parsed, parsed, malformed, decode_body}

-- `AccessTokenTTL` in minutes and `RefreshTokenTTL` in hours.
abbrev pub access_token_minutes : ℕ
access_token_minutes = 10

abbrev pub refresh_token_hours : ℕ
refresh_token_hours = 24

abbrev pub seconds_per_minute : ℕ
seconds_per_minute = 60

abbrev pub seconds_per_hour : ℕ
seconds_per_hour = 3600

-- `NewAuthService`, on the secret, the user and the surroundings that the service is given.
abbrev pub new_auth_service : ℕ → ℕ → Service → Service
new_auth_service minutes hours s = record s {
  access_token_ttl = minutes * (60 * second);
  refresh_token_ttl = hours * (3600 * second);
}

-- err.Error() of the service's own errors; the texts of the libraries are a parameter.
abbrev pub error_text : (AuthError → Text) → AuthError → Text
error_text library invalid_token = codes "[Auth] invalid token"
error_text library invalid_credentials = codes "[Auth] invalid email or password"
error_text library token_not_found = codes "[Auth] token not found"
error_text library token_key_missing = codes "[Auth] missing key in token claims"
error_text library e = library e

pub record LoginRequestBody : Type 0 where
  pub email : Text
  pub password : Text

-- The two cookies of a session.
abbrev pub session_cookies : Bool → Text × Text → Reply
session_cookies is_development (access, refresh) = record {
  status = 200;
  cookies =
      new_access_cookie access (pos (access_token_minutes * seconds_per_minute))
        (not is_development)
      ∷ new_refresh_cookie refresh (pos (refresh_token_hours * seconds_per_hour))
          (not is_development)
      ∷ [];
  body = [];
}

abbrev pub login_status : AuthError → ℕ
login_status invalid_credentials = 401
login_status _ = 500

-- The end of `login`, from the answer of the service.
abbrev pub login_reply : Bool → (AuthError → Text) → Outcome (Text × Text) → Reply
login_reply is_development library (denied e) = http_error (error_text library e) (login_status e)
login_reply is_development library (done pair) = session_cookies is_development pair

module _ (s : Service) (is_development : Bool) (library : AuthError → Text) where
  -- `login`
  unfoldable pub login_handler :
      Decoder LoginRequestBody → Request → List Token → Reply × List Token
  unfolding decode_body login
  login_handler json r rows = elim (decode_body json r) [
    | malformed status text ↦ (http_error text status, rows)
    | parsed b ↦
        let (answer, rows') = login s b.email b.password rows in
        (login_reply is_development library answer, rows')
  ]

  abbrev pub logged_out : Outcome (List Token) → List Token → Reply × List Token
  logged_out (denied e) rows = (http_error (codes "error occurred logging out") 500, rows)
  logged_out (done rows') rows = (
    record {
      status = 200;
      cookies =
          expired_access_cookie (not is_development)
          ∷ expired_refresh_cookie (not is_development)
          ∷ [];
      body = [];
    },
    rows',
  )

  -- `logout`, from the value of the cookie refresh_token.
  unfoldable pub logout_handler : Option Text → List Token → Reply × List Token
  unfolding delete
  logout_handler none rows = (http_error (codes "missing refresh token cookie") 400, rows)
  logout_handler (some t) rows = logged_out (delete s.delete_fault t rows) rows

  abbrev pub refresh_status : AuthError → ℕ
  refresh_status token_expired = 401
  refresh_status invalid_token = 401
  refresh_status token_not_found = 401
  refresh_status token_key_missing = 401
  refresh_status _ = 500

  abbrev pub refresh_reply : Outcome (Text × Text) → Reply
  refresh_reply (denied e) = http_error (error_text library e) (refresh_status e)
  refresh_reply (done pair) = session_cookies is_development pair

  -- `refreshToken`
  unfoldable pub refresh_handler : Option Text → List Token → Reply × List Token
  unfolding refresh_token
  refresh_handler none rows = (http_error (codes "http: named cookie not present") 400, rows)
  refresh_handler (some t) rows =
      let (answer, rows') = refresh_token s t rows in (refresh_reply answer, rows')

  abbrev pub me_status : Outcome Claims → ℕ
  me_status (denied e) = 401
  me_status (done c) = 200

  -- `me`, from the value of the cookie access_token.
  unfoldable pub me_handler : Option Text → Reply
  unfolding validate_access_token
  me_handler none = write_header 401
  me_handler (some t) = write_header (me_status (validate_access_token s t))
