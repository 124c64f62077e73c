-- ===== src/Http/Sessions/Opening.antt =====
-- What a login through the handler gives a browser (api/handler/auth.go, login).
use vaulthook.Prelude.{
  ℕ, ◌+◌, ◌*◌, ◌≤◌, ◌≡◌, ◌≢◌, refl, sym, ap, ap₂, ◌∙◌, subst, ℤ, pos, negsuc, Bool, not, Option,
  none, some, List, [], ◌∷◌, Text, arith, inl, inr, ◌⊎◌,
}
use vaulthook.Auth.{
  AuthError, Outcome, done, denied, Claims, Token, Service, second, jwt_middleware,
  validate_access_token, admitted,
}
use vaulthook.Auth.Login.{LoggedIn, turned_away, opened, login-LoggedIn, Issued, Issued-passes}
use vaulthook.Http.{Cookie, new_access_cookie, new_refresh_cookie, Reply, write_header}
use vaulthook.Http.Body.{Request, Decoder, Parsed, parsed, malformed, decode_body}
use vaulthook.Http.Body.Judged.{decode_body-Judged, Judged-declines, DeclinesBody}
use vaulthook.Http.Sessions.{
  LoginRequestBody, login_handler, login_reply, login_status, me_handler, me_status,
  new_auth_service, access_token_minutes, refresh_token_hours,
}

-- The service at another time.
abbrev pub at_time : ℕ → Service → Service
at_time t s = record s { now = t }

pub Parsed-cases :
    {A : Type 0} (p : Parsed A)
    → ((n : ℕ) × (t : Text) × (p ≡ malformed n t)) ⊎ ((a : A) × (p ≡ parsed a))
Parsed-cases (malformed n t) = inl (n, t, refl)
Parsed-cases (parsed a) = inr (a, refl)

abbrev IsSome : {A : Type 0} → Option A → Type 0
IsSome none = ⊥
IsSome (some a) = Unit

some-ne : {A : Type 0} {a : A} → some a ≢ none
some-ne h = subst IsSome h tt

abbrev value_of : Option Cookie → Text
value_of none = []
value_of (some c) = c.value

abbrev age_of : Option Cookie → ℤ
age_of none = pos 0
age_of (some c) = c.max_age

abbrev natural : ℤ → ℕ
natural (pos n) = n
natural (negsuc n) = 0

-- The two ends of a login over HTTP.
module _ (s : Service) (is_development : Bool) (json : Decoder LoginRequestBody) (r : Request)
    (rows : List Token) where
  pub data Login : Reply × List Token → Type 0 where
    rejected :
        (status : ℕ) (text : Text)
        → status ≢ 200
        → Login (record { status = status; cookies = []; body = text }, rows)
    accepted :
        (access refresh : Text)
        → decode_body json r ≡ parsed (record { email = s.user_email; password = s.user_password })
        → Issued s.jwt s.user_email (s.now + access_token_minutes * 60 * second) access
        → Issued s.jwt s.user_email (s.now + refresh_token_hours * 3600 * second) refresh
        → Login (
          record {
            status = 200;
            cookies =
                new_access_cookie access (pos (access_token_minutes * 60)) (not is_development)
                ∷ new_refresh_cookie refresh (pos (refresh_token_hours * 3600)) (not is_development)
                ∷ [];
            body = [];
          },
          record { token = refresh; expires_at = s.now + s.refresh_token_ttl; created_at = s.now }
              ∷ rows,
        )

pub login_status-ne : (e : AuthError) → login_status e ≢ 200
login_status-ne e = ground arith

module _ (base : Service) (is_development : Bool) (library : AuthError → Text)
    (json : Decoder LoginRequestBody) (r : Request) (rows : List Token) where
  abbrev service : Service
  service = new_auth_service access_token_minutes refresh_token_hours base

  abbrev reply_of : Outcome (Text × Text) × List Token → Reply × List Token
  reply_of (answer, rows') = (login_reply is_development library answer, rows')

  reply-Login :
      (b : LoginRequestBody)
      → decode_body json r ≡ parsed b
      → (x : Outcome (Text × Text) × List Token) → LoggedIn service b.email b.password rows x
      → Login service is_development json r rows (reply_of x)
  reply-Login b d _ (turned_away e) = rejected _ _ (login_status-ne e)
  reply-Login b d _ (opened access refresh email password issued stored) =
      accepted access refresh
        (d ∙ ap₂ (λ e p. parsed (record { email = e; password = p })) email password)
        (subst (λ e. Issued service.jwt e (service.now + service.access_token_ttl) access) email
          issued)
        (subst (λ e. Issued service.jwt e (service.now + service.refresh_token_ttl) refresh) email
          stored)

  -- Whatever is posted to the login endpoint of a service with the program's lifetimes: a reply other
  -- than 200 sets no cookie and leaves the table of tokens alone. With 200 the body held the user's
  -- email and password, the refresh token was stored, and both cookies were set with their tokens'
  -- lifetimes, for which they are signed.
  pub login_handler-Login :
      Login service is_development json r rows
        (login_handler service is_development library json r rows)
  unfolding login_handler
  login_handler-Login = elim (Parsed-cases (decode_body json r)) [
    | inl (n, t, d) ↦
        simp (d, login_handler)
          (rejected n t
            (subst DeclinesBody d (Judged-declines json r _ (decode_body-Judged json r))))
    | inr (b, d) ↦
        simp (d, login_handler) (reply-Login b d _ (login-LoggedIn service b.email b.password rows))
  ]

  abbrev pub first_cookie : List Cookie → Option Cookie
  first_cookie [] = none
  first_cookie (c ∷ cs) = some c

  abbrev pub Passes : ℕ → Cookie → Type 0
  Passes t cookie =
      (jwt_middleware (at_time t service) (some cookie.value) ≡ none)
      × (me_handler (at_time t service) is_development library (some cookie.value)
          ≡ write_header 200)

  admitted_status :
      (c : Outcome Claims) → admitted c ≡ none → me_status service is_development library c ≡ 200
  admitted_status (done c) h = refl
  admitted_status (denied e) h = absurd (some-ne h)

  Login-Passes :
      (t age : ℕ) (cookie : Cookie)
      → t + second ≤ service.now + age * second
      → cookie.max_age ≡ pos age
      → (x : Reply × List Token) → Login service is_development json r rows x
      → first_cookie x.0.cookies ≡ some cookie
      → Passes t cookie
  unfolding me_handler jwt_middleware validate_access_token
  Login-Passes t age cookie h m _ (rejected status text n) e = absurd (some-ne (sym e))
  Login-Passes t age cookie h m _ (accepted access refresh d issued stored) e =
      let same = ap value_of e in
      let lasts : access_token_minutes * 60 ≡ age = ap natural (ap age_of e ∙ m) in
      let passes : jwt_middleware (at_time t service) (some access) ≡ none =
        Issued-passes (at_time t service) service.user_email access
          (service.now + service.access_token_ttl) issued (omega arith) in
      let passes' : jwt_middleware (at_time t service) (some cookie.value) ≡ none =
        ap (λ v. jwt_middleware (at_time t service) (some v)) (sym same) ∙ passes in
      (
        passes',
        ap write_header
            (admitted_status (validate_access_token (at_time t service) cookie.value) passes'),
      )

  -- As long as a browser keeps the first cookie of a login's reply, less the last second, the cookie
  -- opens the protected routes and the session endpoint answers 200.
  pub login_handler-Passes :
      (t age : ℕ) (cookie : Cookie)
      → first_cookie (login_handler service is_development library json r rows).0.cookies
        ≡ some cookie
      → cookie.max_age ≡ pos age
      → t + second ≤ service.now + age * second
      → Passes t cookie
  login_handler-Passes t age cookie e m h = Login-Passes t age cookie h m _ login_handler-Login e
