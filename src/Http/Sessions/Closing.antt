-- ===== src/Http/Sessions/Closing.antt =====
-- The end of a session (api/handler/auth.go, logout and refreshToken).
use vaulthook.Prelude.{◌≡◌, ap, Bool, false, none, some, List, Text, codes, Option, arith}
use vaulthook.Model.{Fault}
use vaulthook.Auth.{AuthError, Outcome, Token, has_token, Service, delete}
use vaulthook.Auth.Session.{has_token-keep, unknown-refused}
use vaulthook.Http.{http_error}
use vaulthook.Http.Sessions.{logged_out, logout_handler, refresh_handler, refresh_reply}

module _ (s s' : Service) (is_development : Bool) (library : AuthError → Text) (t : Text)
    (rows : List Token) where
  abbrev left : List Token
  left = (logout_handler s is_development library (some t) rows).1

  deleted-gone :
      (fault : Option Fault)
      → (logged_out s is_development library (delete fault t rows) rows).0.status ≡ 200
      → has_token t (logged_out s is_development library (delete fault t rows) rows).1 ≡ false
  unfolding delete
  deleted-gone (some e) h = absurd (omega arith)
  deleted-gone none h = has_token-keep t rows

  logout-gone :
      (logout_handler s is_development library (some t) rows).0.status ≡ 200
      → has_token t left ≡ false
  unfolding logout_handler
  logout-gone h = deleted-gone s.delete_fault h

  -- A refresh with the token of a session that a logout has closed with 200 answers 401 and leaves the
  -- table of tokens as it is, whatever the time and the configuration, if its lookup has no fault.
  pub logout_handler-closes :
      (logout_handler s is_development library (some t) rows).0.status ≡ 200
      → s'.exists_fault ≡ none
      → refresh_handler s' is_development library (some t) left
        ≡ (http_error (codes "[Auth] token not found") 401, left)
  unfolding refresh_handler
  logout_handler-closes h e =
      ap
        (λ (x : Outcome (Text × Text) × List Token).
          (refresh_reply s' is_development library x.0, x.1))
        (unknown-refused s' t left e (logout-gone h))
