-- ===== src/Auth/Session.antt =====
-- The rotation of refresh tokens (internal/auth/service.go, RefreshToken).
use vaulthook.Prelude.{
  ◌+◌, ◌≡◌, ◌≢◌, refl, ◌∙◌, subst, Bool, true, false, Option, none, some, List, [], ◌∷◌, Text, ltb,
  length, text_eq, keep, not, Bool-cases, Option-cases, inl, inr, ◌⊎◌, arith,
}
use vaulthook.Model.{Fault}
use vaulthook.Auth.{
  Claims, Verdict, valid, expired, malformed, AuthError, token_key_missing, token_not_found,
  invalid_token, invalid_credentials, token_expired, unsigned, duplicate_token, database, Outcome,
  done, denied, Token, has_token, Service, create, delete, token_exists, issue, rotate,
  refresh_token, validate_refresh_token, verdict, generate_access_token, generate_refresh_token,
  persist,
}

-- Whether the presented token is in the table after a refresh, from the outcome of the refresh.
abbrev pub remains : Text → Outcome (Text × Text) → Bool
remains t (denied token_key_missing) = true
remains t (denied _) = false
remains t (done (access, refresh)) = text_eq refresh t

Outcome-cases :
    {A : Type 0} (r : Outcome A) → ((e : AuthError) × (r ≡ denied e)) ⊎ ((a : A) × (r ≡ done a))
Outcome-cases (denied e) = inl (e, refl)
Outcome-cases (done a) = inr (a, refl)

pub has_token-keep :
    (t : Text) (rows : List Token) → has_token t (keep (λ r. not (text_eq r.token t)) rows) ≡ false
has_token-keep t [] = refl
has_token-keep t (r ∷ rows) = elim (Bool-cases (text_eq r.token t)) [
  | inl e ↦ rw e (has_token-keep t rows)
  | inr e ↦ rw (e, e, has_token-keep t rows)
]

create-has_token :
    (fault : Option Fault) (row : Token) (t access : Text) (rows : List Token)
    → has_token t rows ≡ false
    → let r = persist access row.token (create fault row rows) rows in
      has_token t r.1 ≡ remains t r.0
unfolding create
create-has_token (some e) row t access rows h = h
create-has_token none row t access rows h = elim (Bool-cases (ltb 255 (length row.token))) [
  | inl long ↦ rw long h
  | inr short ↦ elim (Bool-cases (has_token row.token rows)) [
    | inl e ↦ rw (short, e) h
    | inr e ↦ rw (short, e) (ground arith)
  ]
]

issue-has_token :
    (s : Service) (email t : Text) (rows : List Token)
    → has_token t rows ≡ false
    → has_token t (issue s email rows).1 ≡ remains t (issue s email rows).0
unfolding issue
issue-has_token s email t rows h =
    elim (Option-cases (generate_access_token s.jwt email (s.now + s.access_token_ttl) s.now)) [
      | inl a ↦ simp (a, issue) h
      | inr (access, a) ↦
          elim (Option-cases
            (generate_refresh_token s.jwt email (s.now + s.refresh_token_ttl) s.now)) [
              | inl r ↦ simp (a, r, issue) h
              | inr (refresh, r) ↦
                  simp (a, r, issue) (create-has_token s.create_fault _ t access rows h)
            ]
    ]

-- A refusal of the validation other than a missing token: the token goes.
rotate-denied :
    (s : Service) (t : Text) (e : AuthError) (rows : List Token)
    → s.delete_fault ≡ none
    → e ≢ token_not_found
    → e ≢ token_key_missing
    → has_token t (rotate s t (denied e) rows).1 ≡ remains t (rotate s t (denied e) rows).0
unfolding delete
rotate-denied s t token_not_found rows d ne nk = absurd (ne refl)
rotate-denied s t token_key_missing rows d ne nk = absurd (nk refl)
rotate-denied s t invalid_token rows d ne nk = simp d (has_token-keep t rows)
rotate-denied s t invalid_credentials rows d ne nk = simp d (has_token-keep t rows)
rotate-denied s t token_expired rows d ne nk = simp d (has_token-keep t rows)
rotate-denied s t unsigned rows d ne nk = simp d (has_token-keep t rows)
rotate-denied s t duplicate_token rows d ne nk = simp d (has_token-keep t rows)
rotate-denied s t (database f) rows d ne nk = simp d (has_token-keep t rows)

expired-ne : (token_expired ≢ token_not_found) × (token_expired ≢ token_key_missing)
expired-ne = (λ h. subst IsExpired h tt, λ h. subst IsExpired h tt)
  where
    IsExpired : AuthError → Type 0
    IsExpired token_expired = Unit
    IsExpired _ = ⊥

invalid-ne : (invalid_token ≢ token_not_found) × (invalid_token ≢ token_key_missing)
invalid-ne = (λ h. subst IsInvalid h tt, λ h. subst IsInvalid h tt)
  where
    IsInvalid : AuthError → Type 0
    IsInvalid invalid_token = Unit
    IsInvalid _ = ⊥

rotate-done :
    (s : Service) (t : Text) (c : Claims) (rows : List Token)
    → s.delete_fault ≡ none
    → has_token t rows ≡ true
    → has_token t (rotate s t (done c) rows).1 ≡ remains t (rotate s t (done c) rows).0
unfolding delete
rotate-done s t c rows d h = elim (Option-cases c.email) [
  | inl m ↦ simp m h
  | inr (email, m) ↦ simp (m, d) (issue-has_token s email t _ (has_token-keep t rows))
]

rotate-verdict :
    (s : Service) (t : Text) (v : Verdict) (rows : List Token)
    → s.delete_fault ≡ none
    → has_token t rows ≡ true
    → has_token t (rotate s t (verdict v) rows).1 ≡ remains t (rotate s t (verdict v) rows).0
rotate-verdict s t (valid c) rows d h = rotate-done s t c rows d h
rotate-verdict s t expired rows d h =
    rotate-denied s t token_expired rows d expired-ne.0 expired-ne.1
rotate-verdict s t malformed rows d h =
    rotate-denied s t invalid_token rows d invalid-ne.0 invalid-ne.1

-- When the lookup and the deletion have no fault, a refresh takes the presented token out of the
-- table on every outcome, refusals and failures after the deletion included, with two exceptions:
-- its claims have no email, or the new refresh token is the same text again.
pub refresh_token-remains :
    (s : Service) (t : Text) (rows : List Token)
    → s.exists_fault ≡ none
    → s.delete_fault ≡ none
    → has_token t (refresh_token s t rows).1 ≡ remains t (refresh_token s t rows).0
unfolding refresh_token validate_refresh_token token_exists
refresh_token-remains s t rows e d = elim (Bool-cases (has_token t rows)) [
  | inl h ↦
      simp (e, h, refresh_token, validate_refresh_token)
        (rotate-verdict s t (s.jwt.parse s.now t) rows d h)
  | inr h ↦ simp (e, h, refresh_token, validate_refresh_token) refl
]

pub unknown-refused :
    (s : Service) (t : Text) (rows : List Token)
    → s.exists_fault ≡ none
    → has_token t rows ≡ false
    → refresh_token s t rows ≡ (denied token_not_found, rows)
unfolding refresh_token validate_refresh_token token_exists
unknown-refused s t rows e h = simp (e, h, refresh_token, validate_refresh_token)

-- A token that a refresh took out of the table is refused from then on as unknown, whatever the
-- service's clock and configuration, and the table stays as it is.
pub refresh_token-once :
    (s s' : Service) (t : Text) (rows : List Token)
    → s.exists_fault ≡ none
    → s.delete_fault ≡ none
    → s'.exists_fault ≡ none
    → remains t (refresh_token s t rows).0 ≡ false
    → refresh_token s' t (refresh_token s t rows).1
      ≡ (denied token_not_found, (refresh_token s t rows).1)
refresh_token-once s s' t rows e d e' gone =
    unknown-refused s' t (refresh_token s t rows).1 e' (refresh_token-remains s t rows e d ∙ gone)
