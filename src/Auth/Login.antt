-- ===== src/Auth/Login.antt =====
-- Login and the middleware (internal/auth/service.go and middleware.go).
use vaulthook.Prelude.{
  ℕ, ◌+◌, ◌*◌, ◌/◌, ◌<◌, ◌≡◌, refl, ap, sym, Bool, true, false, false≢true, Option, none, some,
  List, ◌∷◌, Text, ltb, length, subst, [], text_eq, text_eq_sound, not, ◌||◌, Bool-cases,
  Option-cases, inl, inr, ◌⊎◌,
}
use vaulthook.Model.{Fault}
use vaulthook.Auth.{
  Claims, Jwt, AuthError, database, token_too_long, invalid_credentials, unsigned, duplicate_token,
  Outcome, done, denied, Token, has_token, Service, create, issue, login, validate_access_token,
  verdict, jwt_middleware, second, generate_access_token, generate_refresh_token, admitted,
}

-- The text is a signed token of the user that expires in the second of the given time.
abbrev pub Issued : Jwt → Text → ℕ → Text → Type 0
Issued jwt email exp t =
    (c : Claims) × (jwt.sign c ≡ some t) × (c.email ≡ some email) × (c.exp ≡ exp / second)

generate_access_token-Issued :
    (jwt : Jwt) (email t : Text) (exp iat : ℕ)
    → generate_access_token jwt email exp iat ≡ some t
    → Issued jwt email exp t
unfolding generate_access_token
generate_access_token-Issued jwt email t exp iat e = (_, e, refl, refl)

generate_refresh_token-Issued :
    (jwt : Jwt) (email t : Text) (exp iat : ℕ)
    → generate_refresh_token jwt email exp iat ≡ some t
    → Issued jwt email exp t
unfolding generate_refresh_token
generate_refresh_token-Issued jwt email t exp iat e = (_, e, refl, refl)

-- The two ends of a login. Refused, it leaves the table alone. Opened, the email and the password are
-- the user's, both tokens are the user's for their times, and the refresh token is stored.
module _ (s : Service) (email password : Text) (rows : List Token) where
  pub data LoggedIn : Outcome (Text × Text) × List Token → Type 0 where
    turned_away : (e : AuthError) → LoggedIn (denied e, rows)
    opened :
        (access refresh : Text)
        → email ≡ s.user_email
        → password ≡ s.user_password
        → Issued s.jwt email (s.now + s.access_token_ttl) access
        → Issued s.jwt email (s.now + s.refresh_token_ttl) refresh
        → LoggedIn (
          done (access, refresh),
          record { token = refresh; expires_at = s.now + s.refresh_token_ttl; created_at = s.now }
              ∷ rows,
        )

not_or : (a b : Bool) → (not a || not b) ≡ false → (a ≡ true) × (b ≡ true)
not_or true true h = (refl, refl)
not_or true false h = absurd (false≢true (sym h))
not_or false b h = absurd (false≢true (sym h))

create-cases :
    (fault : Option Fault) (row : Token) (rows : List Token)
    → ((e : AuthError) × (create fault row rows ≡ denied e))
      ⊎ (create fault row rows ≡ done (row ∷ rows))
unfolding create
create-cases (some e) row rows = inl (_, refl)
create-cases none row rows = elim (Bool-cases (ltb 255 (length row.token))) [
  | inl long ↦ inl (database token_too_long, rw long)
  | inr short ↦ elim (Bool-cases (has_token row.token rows)) [
    | inl h ↦ inl (duplicate_token, rw (short, h))
    | inr h ↦ inr (rw (short, h))
  ]
]

issue-LoggedIn :
    (s : Service) (email password : Text) (rows : List Token)
    → email ≡ s.user_email
    → password ≡ s.user_password
    → LoggedIn s email password rows (issue s email rows)
unfolding issue
issue-LoggedIn s email password rows he hp =
    elim (Option-cases (generate_access_token s.jwt email (s.now + s.access_token_ttl) s.now)) [
      | inl a ↦ simp (a, issue) (turned_away unsigned)
      | inr (access, a) ↦
          elim (Option-cases
            (generate_refresh_token s.jwt email (s.now + s.refresh_token_ttl) s.now)) [
              | inl r ↦ simp (a, r, issue) (turned_away unsigned)
              | inr (refresh, r) ↦
                  let row : Token = record {
                    token = refresh;
                    expires_at = s.now + s.refresh_token_ttl;
                    created_at = s.now;
                  } in
                  elim (create-cases s.create_fault row rows) [
                    | inl (e, c) ↦ simp (a, r, c, issue) (turned_away e)
                    | inr c ↦
                        simp (a, r, c, issue)
                          (opened access refresh he hp
                            (generate_access_token-Issued s.jwt email access _ s.now a)
                            (generate_refresh_token-Issued s.jwt email refresh _ s.now r))
                  ]
            ]
    ]

-- Every login either refuses and leaves the table of tokens alone, or the email and password are the
-- configured user's, both tokens are signed for the user until their times to live are over, and one
-- row with the refresh token is added.
pub login-LoggedIn :
    (s : Service) (email password : Text) (rows : List Token)
    → LoggedIn s email password rows (login s email password rows)
unfolding login
login-LoggedIn s email password rows =
    elim (Bool-cases (not (text_eq email s.user_email) || not (text_eq password s.user_password))) [
      | inl bad ↦ simp (bad, login) (turned_away invalid_credentials)
      | inr good ↦
          let (e, p) = not_or _ _ good in
          simp (good, login)
            (issue-LoggedIn s email password rows (text_eq_sound email s.user_email e)
              (text_eq_sound password s.user_password p))
    ]

-- A token that was issued for a user until some time passes the middleware at every moment before the
-- second of that time, whichever of the two tokens of a login it is.
pub Issued-passes :
    (s : Service) (email t : Text) (exp : ℕ)
    → Issued s.jwt email exp t
    → s.now < exp / second * second
    → jwt_middleware s (some t) ≡ none
unfolding jwt_middleware validate_access_token
Issued-passes s email t exp (c, signed, _, until) h =
    let early : s.now < c.exp * second = rw until h in
    ap (λ v. admitted (verdict v)) (s.jwt.parse_sign c t s.now signed early)

abbrev pub at_time : ℕ → Service → Service
at_time t s = record s { now = t }

-- What a login that has handed out two tokens says of them, at the times t and u.
pub record Passes (s : Service) (email password access refresh : Text) (t u : ℕ) : Type 0 where
  pub email_is : email ≡ s.user_email
  pub password_is : password ≡ s.user_password
  pub access_passes : jwt_middleware (at_time t s) (some access) ≡ none
  pub refresh_passes : jwt_middleware (at_time u s) (some refresh) ≡ none

abbrev Answer : Type 0
Answer = Outcome (Text × Text) × List Token

LoggedIn-Passes :
    (s : Service) (email password access refresh : Text) (rows : List Token) (t u : ℕ)
    → (x : Answer) → LoggedIn s email password rows x
    → x.0 ≡ done (access, refresh)
    → t < (s.now + s.access_token_ttl) / second * second
    → u < (s.now + s.refresh_token_ttl) / second * second
    → Passes s email password access refresh t u
LoggedIn-Passes s email password access refresh rows t u _ (turned_away e) h tl ul =
    absurd (subst IsDone (sym h) tt)
  where
    IsDone : Outcome (Text × Text) → Type 0
    IsDone (done pair) = Unit
    IsDone (denied e) = ⊥
LoggedIn-Passes s email password access refresh rows t u _ (opened a r e p ia ir) h tl ul =
    let same_access : a ≡ access = ap (λ (x : Text × Text). x.0) (ap pair_of h) in
    let same_refresh : r ≡ refresh = ap (λ (x : Text × Text). x.1) (ap pair_of h) in
    record {
      email_is = e;
      password_is = p;
      access_passes =
          subst (λ x. jwt_middleware (at_time t s) (some x) ≡ none) same_access
            (Issued-passes (at_time t s) email a (s.now + s.access_token_ttl) ia tl);
      refresh_passes =
          subst (λ x. jwt_middleware (at_time u s) (some x) ≡ none) same_refresh
            (Issued-passes (at_time u s) email r (s.now + s.refresh_token_ttl) ir ul);
    }
  where
    pair_of : Outcome (Text × Text) → Text × Text
    pair_of (done pair) = pair
    pair_of (denied e) = ([], [])

-- Both tokens that a login hands out pass the middleware: the access token at every moment before the
-- second in which its time to live ends, and so does the refresh token until the end of its own, much
-- longer one, although it is no access token. A login hands out tokens only for the configured email
-- and password.
pub login-Passes :
    (s : Service) (email password access refresh : Text) (rows : List Token) (t u : ℕ)
    → (login s email password rows).0 ≡ done (access, refresh)
    → t < (s.now + s.access_token_ttl) / second * second
    → u < (s.now + s.refresh_token_ttl) / second * second
    → Passes s email password access refresh t u
login-Passes s email password access refresh rows t u =
    LoggedIn-Passes s email password access refresh rows t u (login s email password rows)
      (login-LoggedIn s email password rows)
