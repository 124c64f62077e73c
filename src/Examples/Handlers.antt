-- ===== src/Examples/Handlers.antt =====
-- The theorems on the handlers of sessions at concrete inputs. The examples' decoder reads one body.
use vaulthook.Prelude.{◌≡◌, refl, ◌∷◌, [], ◌++◌, true, false, none, some, Text, codes, arith, pos}
use vaulthook.Auth.{
  Claims, Service, AuthError, login, issue, create, delete, generate_access_token,
  generate_refresh_token, jwt_middleware,
}
use vaulthook.Http.{Cookie, http_error, write_header, new_access_cookie}
use vaulthook.Http.Sessions.Again.{login_handler-again}
use vaulthook.Http.Body.{Request, Decoder, Decoded, value, failure, eof, DecodeError, decode_body}
use vaulthook.Http.Sessions.{
  LoginRequestBody, login_handler, logout_handler, refresh_handler, me_handler, new_auth_service,
  access_token_minutes, refresh_token_hours,
}
use vaulthook.Http.Sessions.Opening.{login_handler-Passes, at_time}
use vaulthook.Http.Sessions.Closing.{logout_handler-closes}
use vaulthook.Examples.Sessions.{jwt, user, write, service, sessions, stale}

abbrev credentials : LoginRequestBody
credentials = record { email = user; password = codes "pw" }

abbrev empty_body : DecodeError
empty_body = record { kind = eof; text = codes "EOF" }

abbrev read_body : Text → Decoded LoginRequestBody
read_body [] = failure empty_body
read_body (c ∷ cs) = value credentials

abbrev decoder : Decoder LoginRequestBody
decoder = record {
  first = read_body;
  second_is_eof = λ _. true;
  print = λ n. n ∷ [];
  quote = λ s. s;
}

abbrev request : Request
request = record { content_type = []; body = codes "{}" }

abbrev first : Service
first = new_auth_service access_token_minutes refresh_token_hours service

abbrev library_text : AuthError → Text
library_text _ = codes "error"

abbrev access : Claims
access = record {
  sub = codes "access token | " ++ user;
  email = some user;
  exp = 1700000600;
  iat = 1700000000;
}

abbrev cookie : Cookie
cookie = new_access_cookie (write access) (pos 600) true

login_handler-Passes_example :
    (jwt_middleware (at_time 1700000500000000000 first) (some cookie.value) ≡ none)
    × (me_handler (at_time 1700000500000000000 first) false library_text (some cookie.value)
        ≡ write_header 200)
unfolding login_handler decode_body login issue create generate_access_token generate_refresh_token
    jwt
login_handler-Passes_example =
    login_handler-Passes service false library_text decoder request sessions 1700000500000000000 600
      cookie refl refl (omega arith)

closes : (logout_handler service false library_text (some stale) sessions).0.status ≡ 200
unfolding logout_handler delete
closes = refl

logout_handler-closes_example :
    refresh_handler service false library_text
      (some stale)
      (logout_handler service false library_text (some stale) sessions).1
    ≡ (
      http_error (codes "[Auth] token not found") 401,
      (logout_handler service false library_text (some stale) sessions).1,
    )
logout_handler-closes_example =
    logout_handler-closes service service false library_text stale sessions closes refl

opens : (login_handler first false library_text decoder request sessions).0.status ≡ 200
unfolding login_handler decode_body login issue create generate_access_token generate_refresh_token
    jwt
opens = refl

login_handler-again_example :
    login_handler
      (at_time 1700000000900000000 first)
      false
      library_text
      decoder
      request
      (login_handler first false library_text decoder request sessions).1
    ≡ (
      http_error (codes "error") 500,
      (login_handler first false library_text decoder request sessions).1,
    )
login_handler-again_example =
    login_handler-again service 1700000000900000000 (omega arith) false library_text decoder request
      sessions opens
