-- ===== src/Auth.antt =====
-- internal/auth: the table of refresh tokens (refresh_token.go), login, rotation and validation
-- (service.go), and the middleware (middleware.go). The JWT library is a parameter: signing with the
-- service's secret, and parsing at a time, with the law that a signed token is valid before it
-- expires. Texts are lists of code points and times nanoseconds, those of claims seconds.
pub mod Session
pub mod Login
use vaulthook.Prelude.{
  ℕ, ◌+◌, ◌*◌, ◌/◌, ◌<◌, ◌≡◌, Bool, true, false, Option, none, some, List, [], ◌∷◌, ◌++◌, Text,
  codes, ltb, length, text_eq, any, keep, not, ◌||◌, if◌then◌else◌,
}
use vaulthook.Model.{Fault, pg_error}

abbrev pub second : ℕ
second = 1000000000

-- The claims that the service signs and reads; `email` is none where it is missing or no text.
pub record Claims : Type 0 where
  pub sub : Text
  pub email : Option Text
  pub exp : ℕ
  pub iat : ℕ

-- What jwt.Parse says of a text at a time.
pub data Verdict : Type 0 where
  valid : Claims → Verdict
  expired malformed : Verdict

pub record Jwt : Type 0 where
  pub sign : Claims → Option Text
  pub parse : ℕ → Text → Verdict
  pub parse_sign :
      (c : Claims) (t : Text) (now : ℕ)
      → sign c ≡ some t
      → now < c.exp * second
      → parse now t ≡ valid c

pub data AuthError : Type 0 where
  invalid_token invalid_credentials token_not_found token_key_missing token_expired : AuthError
  unsigned duplicate_token : AuthError
  database : Fault → AuthError

pub data Outcome {ℓ} (A : Type ℓ) : Type ℓ where
  done : A → Outcome A
  denied : AuthError → Outcome A

-- The rows of refresh_tokens.
pub record Token : Type 0 where
  pub token : Text
  pub expires_at : ℕ
  pub created_at : ℕ

abbrev pub has_token : Text → List Token → Bool
has_token t rows = any (λ r. text_eq r.token t) rows

-- The configuration, the clock, and the faults of the three statements.
pub record Service : Type 0 where
  pub jwt : Jwt
  pub user_email : Text
  pub user_password : Text
  pub access_token_ttl : ℕ
  pub refresh_token_ttl : ℕ
  pub now : ℕ
  pub create_fault : Option Fault
  pub delete_fault : Option Fault
  pub exists_fault : Option Fault

-- The database's error for a text that does not fit the column, VARCHAR(255).
abbrev pub token_too_long : Fault
token_too_long = pg_error "value too long for type character varying(255)"

-- `Create`; the column is UNIQUE.
unfoldable pub create : Option Fault → Token → List Token → Outcome (List Token)
create (some e) row rows = denied (database e)
create none row rows =
    if ltb 255 (length row.token)
    then denied (database token_too_long)
    else if has_token row.token rows
    then denied duplicate_token
    else done (row ∷ rows)

-- `Delete`
unfoldable pub delete : Option Fault → Text → List Token → Outcome (List Token)
delete (some e) t rows = denied (database e)
delete none t rows = done (keep (λ r. not (text_eq r.token t)) rows)

-- `Exists`
unfoldable pub token_exists : Option Fault → Text → List Token → Outcome Bool
token_exists (some e) t rows = denied (database e)
token_exists none t rows = done (has_token t rows)

-- `GenerateAccessToken` and `GenerateRefreshToken`, from their expiry and issue.
unfoldable pub generate_access_token : Jwt → Text → ℕ → ℕ → Option Text
generate_access_token jwt email exp iat = jwt.sign (record {
  sub = codes "access token | " ++ email;
  email = some email;
  exp = exp / second;
  iat = iat / second;
})

unfoldable pub generate_refresh_token : Jwt → Text → ℕ → ℕ → Option Text
generate_refresh_token jwt email exp iat = jwt.sign (record {
  sub = codes "refresh token | " ++ email;
  email = some email;
  exp = exp / second;
  iat = iat / second;
})

-- The end of `Login` and of `RefreshToken`: both tokens are signed, the refresh token is stored.
abbrev pub persist :
    Text → Text → Outcome (List Token) → List Token → Outcome (Text × Text) × List Token
persist access refresh (denied e) rows = (denied e, rows)
persist access refresh (done rows') rows = (done (access, refresh), rows')

unfoldable pub issue : Service → Text → List Token → Outcome (Text × Text) × List Token
unfolding generate_access_token generate_refresh_token create
issue s email rows = elim (generate_access_token s.jwt email (s.now + s.access_token_ttl) s.now) [
  | none ↦ (denied unsigned, rows)
  | some access ↦ elim (generate_refresh_token s.jwt email (s.now + s.refresh_token_ttl) s.now) [
    | none ↦ (denied unsigned, rows)
    | some refresh ↦
        let row : Token = record {
          token = refresh;
          expires_at = s.now + s.refresh_token_ttl;
          created_at = s.now;
        } in
        persist access refresh (create s.create_fault row rows) rows
  ]
]

-- `Login`
unfoldable pub login : Service → Text → Text → List Token → Outcome (Text × Text) × List Token
unfolding issue
login s email password rows =
    if not (text_eq email s.user_email) || not (text_eq password s.user_password)
    then (denied invalid_credentials, rows)
    else issue s email rows

-- `ValidateAccessToken`
abbrev pub verdict : Verdict → Outcome Claims
verdict (valid c) = done c
verdict expired = denied token_expired
verdict malformed = denied invalid_token

unfoldable pub validate_access_token : Service → Text → Outcome Claims
validate_access_token s t = verdict (s.jwt.parse s.now t)

-- `validateRefreshToken`
abbrev pub validate_if : Service → Text → Outcome Bool → Outcome Claims
validate_if s t (denied e) = denied e
validate_if s t (done false) = denied token_not_found
validate_if s t (done true) = verdict (s.jwt.parse s.now t)

unfoldable pub validate_refresh_token : Service → Text → List Token → Outcome Claims
unfolding token_exists
validate_refresh_token s t rows = validate_if s t (token_exists s.exists_fault t rows)

-- The table after a deletion whose error is only logged.
abbrev pub deleted : Outcome (List Token) → List Token → List Token
deleted (denied e) rows = rows
deleted (done rows') rows = rows'

abbrev pub reissue :
    Service → Text → Outcome (List Token) → List Token → Outcome (Text × Text) × List Token
reissue s email (denied e) rows = (denied e, rows)
reissue s email (done rows') rows = issue s email rows'

-- `RefreshToken`, from the result of the validation.
abbrev pub rotate :
    Service → Text → Outcome Claims → List Token → Outcome (Text × Text) × List Token
rotate s t (denied token_not_found) rows = (denied token_not_found, rows)
rotate s t (denied e) rows = (denied e, deleted (delete s.delete_fault t rows) rows)
rotate s t (done claims) rows = elim claims.email [
  | none ↦ (denied token_key_missing, rows)
  | some email ↦ reissue s email (delete s.delete_fault t rows) rows
]

unfoldable pub refresh_token : Service → Text → List Token → Outcome (Text × Text) × List Token
unfolding validate_refresh_token delete issue
refresh_token s t rows = rotate s t (validate_refresh_token s t rows) rows

-- `Jwt`: the status of a refusal, or none where the next handler is called.
abbrev pub admitted : Outcome Claims → Option ℕ
admitted (done c) = none
admitted (denied e) = some 401

unfoldable pub jwt_middleware : Service → Option Text → Option ℕ
unfolding validate_access_token
jwt_middleware s none = some 401
jwt_middleware s (some cookie) = admitted (validate_access_token s cookie)
