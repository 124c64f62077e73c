-- ===== src/Examples/Sessions.antt =====
-- The theorems on sessions and resources at concrete inputs. The examples' tokens are the claims
-- written one after the other.
use vaulthook.Prelude.{
  ℕ, zero, suc, ◌*◌, ◌≡◌, ◌<◌, refl, ap, ◌∷◌, [], ◌++◌, true, false, Option, none, some, List,
  length, take, drop, arith, Text, codes, ltb, if◌then◌else◌,
}
use vaulthook.Crypto.Roundtrip.{take-append-length, drop-append-length}
use vaulthook.Auth.{
  Claims, Verdict, valid, expired, malformed, Jwt, Service, Token, denied, token_not_found,
  refresh_token, done, login, issue, create, generate_access_token, generate_refresh_token, second,
}
use vaulthook.Auth.Session.{remains, refresh_token-remains, refresh_token-once}
use vaulthook.Auth.{has_token}
use vaulthook.Auth.Login.{Passes, login-Passes}

abbrev write_email : Option Text → Text → Text
write_email none sub = 0 ∷ sub
write_email (some e) sub = suc (length e) ∷ e ++ sub

abbrev pub write : Claims → Text
write c = c.exp ∷ c.iat ∷ write_email c.email c.sub

unfoldable pub read_claims : ℕ → ℕ → Text → Verdict
read_claims exp iat [] = malformed
read_claims exp iat (zero ∷ sub) = valid (record { sub = sub; email = none; exp = exp; iat = iat })
read_claims exp iat (suc n ∷ rest) =
    valid (record { sub = drop n rest; email = some (take n rest); exp = exp; iat = iat })

unfoldable pub parse : ℕ → Text → Verdict
unfolding read_claims
parse now (exp ∷ iat ∷ rest) = if ltb now (exp * second) then read_claims exp iat rest else expired
parse now _ = malformed

read_claims-write_email :
    (exp iat : ℕ) (email : Option Text) (sub : Text)
    → read_claims exp iat (write_email email sub)
      ≡ valid (record { sub = sub; email = email; exp = exp; iat = iat })
unfolding read_claims
read_claims-write_email exp iat none sub = refl
read_claims-write_email exp iat (some e) sub =
    rw (take-append-length e sub, drop-append-length e sub)

abbrev some_text : Option Text → Text
some_text none = []
some_text (some t) = t

pub parse-write :
    (c : Claims) (t : Text) (now : ℕ)
    → some (write c) ≡ some t
    → now < c.exp * second
    → parse now t ≡ valid c
unfolding parse
parse-write c t now e h =
    let early : ltb now (c.exp * second) ≡ true = ground arith in
    rw (← ap some_text e) (rw early (read_claims-write_email c.exp c.iat c.email c.sub))

unfoldable pub jwt : Jwt
unfolding parse
jwt = record { sign = λ c. some (write c); parse = parse; parse_sign = parse-write }

abbrev pub user : Text
user = codes "a@b.c"

abbrev pub service : Service
service = record {
  jwt = jwt;
  user_email = user;
  user_password = codes "pw";
  access_token_ttl = 600 * second;
  refresh_token_ttl = 86400 * second;
  now = 1700000000 * second;
  create_fault = none;
  delete_fault = none;
  exists_fault = none;
}

abbrev pub stale : Text
stale = 1600000000 ∷ 1500000000 ∷ 0 ∷ []

abbrev pub sessions : List Token
sessions = record { token = stale; expires_at = 0; created_at = 0 } ∷ []

refresh_token-remains_example :
    has_token stale (refresh_token service stale sessions).1
    ≡ remains stale (refresh_token service stale sessions).0
refresh_token-remains_example = refresh_token-remains service stale sessions refl refl

stale_goes : remains stale (refresh_token service stale sessions).0 ≡ false
unfolding refresh_token jwt
stale_goes = refl

refresh_token-once_example :
    refresh_token service stale (refresh_token service stale sessions).1
    ≡ (denied token_not_found, (refresh_token service stale sessions).1)
refresh_token-once_example =
    refresh_token-once service service stale sessions refl refl refl stale_goes

abbrev access_claims : Claims
access_claims = record {
  sub = codes "access token | " ++ user;
  email = some user;
  exp = 1700000600;
  iat = 1700000000;
}

abbrev refresh_claims : Claims
refresh_claims = record {
  sub = codes "refresh token | " ++ user;
  email = some user;
  exp = 1700086400;
  iat = 1700000000;
}

opens :
    (login service user (codes "pw") sessions).0 ≡ done (write access_claims, write refresh_claims)
unfolding login issue create generate_access_token generate_refresh_token jwt
opens = refl

login-Passes_example :
    Passes service user
      (codes "pw")
      (write access_claims)
      (write refresh_claims)
      (1700000500 * second)
      (1700080000 * second)
login-Passes_example =
    login-Passes service user (codes "pw") (write access_claims) (write refresh_claims) sessions
      (1700000500 * second) (1700080000 * second) opens (omega arith) (omega arith)
