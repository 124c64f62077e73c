-- ===== src/Http/Sessions/Again.antt =====
-- A second login in the same second of the clock (api/handler/auth.go, login).
use vaulthook.Prelude.{
  ℕ, false, ltb, length, ◌+◌, ◌/◌, ◌≡◌, refl, subst, Bool, not, ◌||◌, none, some, List, ◌∷◌, Text,
  text_eq, text_eq_self, Option, Option-cases, Bool-cases, inl, inr, arith,
}
use vaulthook.Model.{Fault}
use vaulthook.Auth.{
  AuthError, token_too_long, unsigned, duplicate_token, database, Outcome, done, denied, Token,
  has_token, Service, login, issue, create, second, persist, generate_access_token,
  generate_refresh_token,
}
use vaulthook.Http.{Reply, http_error}
use vaulthook.Http.Body.{Request, Decoder, decode_body}
use vaulthook.Http.Body.Judged.{decode_body-Judged, Judged-declines, DeclinesBody}
use vaulthook.Http.Sessions.{
  LoginRequestBody, login_handler, login_reply, new_auth_service, access_token_minutes,
  refresh_token_hours,
}
use vaulthook.Http.Sessions.Opening.{at_time, Parsed-cases, login_status-ne}

abbrev access_of : Service → Text → Option Text
access_of s email = generate_access_token s.jwt email (s.now + s.access_token_ttl) s.now

abbrev refresh_of : Service → Text → Option Text
refresh_of s email = generate_refresh_token s.jwt email (s.now + s.refresh_token_ttl) s.now

-- What `issue` has found when it gives tokens.
module _ (s : Service) (email : Text) (rows : List Token) where
  data Issue : Outcome (Text × Text) × List Token → Type 0 where
    refused : (e : AuthError) → Issue (denied e, rows)
    stored :
        (access refresh : Text)
        → access_of s email ≡ some access
        → refresh_of s email ≡ some refresh
        → s.create_fault ≡ none
        → ltb 255 (length refresh) ≡ false
        → Issue (
          done (access, refresh),
          record { token = refresh; expires_at = s.now + s.refresh_token_ttl; created_at = s.now }
              ∷ rows,
        )

  persist-Issue :
      (access refresh : Text) (fault : Option Fault)
      → access_of s email ≡ some access
      → refresh_of s email ≡ some refresh
      → s.create_fault ≡ fault
      → let row : Token = record {
        token = refresh;
        expires_at = s.now + s.refresh_token_ttl;
        created_at = s.now;
      } in
        Issue (persist access refresh (create fault row rows) rows)
  unfolding create
  persist-Issue access refresh (some e) a r f = refused (database e)
  persist-Issue access refresh none a r f = elim (Bool-cases (ltb 255 (length refresh))) [
    | inl long ↦ rw long (refused (database token_too_long))
    | inr short ↦ elim (Bool-cases (has_token refresh rows)) [
      | inl h ↦ rw (short, h) (refused duplicate_token)
      | inr h ↦ rw (short, h) (stored access refresh a r f short)
    ]
  ]

  issue-Issue : Issue (issue s email rows)
  unfolding issue
  issue-Issue = elim (Option-cases (access_of s email)) [
    | inl a ↦ simp (a, issue) (refused unsigned)
    | inr (access, a) ↦ elim (Option-cases (refresh_of s email)) [
      | inl r ↦ simp (a, r, issue) (refused unsigned)
      | inr (refresh, r) ↦ simp (a, r, issue) (persist-Issue access refresh s.create_fault a r refl)
    ]
  ]

-- The same service later in the same second: it signs the same texts.
module _ (base : Service) (t : ℕ) (early : t / second ≡ base.now / second) where
  abbrev first : Service
  first = new_auth_service access_token_minutes refresh_token_hours base

  abbrev again : Service
  again = at_time t first

  same_access : (email : Text) → access_of again email ≡ access_of first email
  unfolding generate_access_token
  same_access email =
      let ends : (t + first.access_token_ttl) / second
          ≡ (first.now + first.access_token_ttl) / second =
        omega (arith, early) in
      rw (ends, early)

  same_refresh : (email : Text) → refresh_of again email ≡ refresh_of first email
  unfolding generate_refresh_token
  same_refresh email =
      let ends : (t + first.refresh_token_ttl) / second
          ≡ (first.now + first.refresh_token_ttl) / second =
        omega (arith, early) in
      rw (ends, early)

  abbrev Opened : Outcome (Text × Text) → Type 0
  Opened (done pair) = Unit
  Opened (denied e) = ⊥

  issue-again :
      (email : Text) (rows : List Token) (x : Outcome (Text × Text) × List Token)
      → Issue first email rows x
      → Opened x.0
      → issue again email x.1 ≡ (denied duplicate_token, x.1)
  unfolding issue create
  issue-again email rows _ (refused e) o = absurd o
  issue-again email rows _ (stored access refresh a r f short) o =
      simp
        (same_access email, same_refresh email, a, r, f, short, issue, create, text_eq_self refresh)

  login-again :
      (email password : Text) (rows : List Token)
      → Opened (login first email password rows).0
      → login again email password (login first email password rows).1
        ≡ (denied duplicate_token, (login first email password rows).1)
  unfolding login
  login-again email password rows o =
      elim (Bool-cases
        (not (text_eq email first.user_email) || not (text_eq password first.user_password))) [
          | inl bad ↦ absurd (simp (bad, login) at o)
          | inr good ↦
              simp (good, login)
                (issue-again email rows _ (issue-Issue first email rows) (simp (good, login) at o))
        ]

  module _ (is_development : Bool) (library : AuthError → Text) (json : Decoder LoginRequestBody)
      (r : Request) where
    abbrev post : Service → List Token → Reply × List Token
    post s rows = login_handler s is_development library json r rows

    reply-Opened :
        (x : Outcome (Text × Text)) → (login_reply is_development library x).status ≡ 200 → Opened x
    reply-Opened (done pair) h = tt
    reply-Opened (denied e) h = absurd (login_status-ne e h)

    -- After a login that answered 200, the same login in the same second of the clock answers 500 and
    -- leaves the table of tokens as it is, while the first session's token is still there: the service
    -- signs the same refresh token again, whose column is unique.
    pub login_handler-again :
        (rows : List Token)
        → (post first rows).0.status ≡ 200
        → post again (post first rows).1
          ≡ (http_error (library duplicate_token) 500, (post first rows).1)
    unfolding login_handler
    login_handler-again rows h = elim (Parsed-cases (decode_body json r)) [
      | inl (n, text, d) ↦ absurd (
          subst DeclinesBody d (Judged-declines json r _ (decode_body-Judged json r))
            (simp (d, login_handler) at h))
      | inr (b, d) ↦
          let o =
            reply-Opened (login first b.email b.password rows).0 (simp (d, login_handler) at h) in
          simp (d, login_handler, login-again b.email b.password rows o)
    ]
