-- ===== src/Providers/Service/Configured.antt =====
-- What a configuration leaves in the table and in the cache (providers/service.go, Configure).
use vaulthook.Prelude.{
  ℕ, ◌≡◌, ◌≤◌, ◌<◌, ◌⊎◌, refl, sym, ◌∙◌, ap, subst, ℤ, pos, negsuc, String, Option, none, some,
  List, [], ◌∷◌, Text, All, length, trim_space, str_eq, eq_refl, leb, leb→le, Bool-cases,
  Option-cases, inl, inr,
}
use vaulthook.Model.{Fault, no_rows, other, ok, err, Provider}
use vaulthook.Crypto.{Gcm, passed, nonce_size, encrypt_signing_key, decrypt_signing_key, ◌>>=◌}
use vaulthook.Crypto.Roundtrip.{decrypt-encrypt}
use vaulthook.Ingest.Signed.{Checked-cases, IsPassed}
use vaulthook.Database.{find_provider}
use vaulthook.Providers.Service.{
  Json, Store, Call, Configuration, ConfigureError, configured, rejected, invalid_id,
  missing_signing_secret, missing_destination, invalid_retry_count, invalid_req_second,
  encryption_failed, failed, cache_get, cache_set, with_config, set_row, configure_row, save,
  configure, within, max_retry_count, max_req_second,
}

-- A nonce that was read has 12 bytes.
abbrev pub IsNonce : Option Text → Type 0
IsNonce none = Unit
IsNonce (some n) = (length n ≡ nonce_size) × All (λ b. b < 256) n

encrypt-decrypts :
    (gcm : Gcm) (key plain sealed : Text) (nonce : Option Text)
    → IsNonce nonce
    → encrypt_signing_key gcm key nonce plain ≡ passed sealed
    → decrypt_signing_key gcm key sealed ≡ passed plain
unfolding encrypt_signing_key IsPassed
encrypt-decrypts gcm key plain sealed none h e = elim (Bool-cases (gcm.valid_key key)) [
  | inl v ↦ absurd (subst IsPassed (sym (rw v at e)) tt)
  | inr v ↦ absurd (subst IsPassed (sym (rw v at e)) tt)
]
encrypt-decrypts gcm key plain sealed (some n) h e = elim (Bool-cases (gcm.valid_key key)) [
  | inl v ↦
      ap (λ r. r >>= decrypt_signing_key gcm key) (sym e)
      ∙ decrypt-encrypt gcm key n plain v h.0 h.1
  | inr v ↦ absurd (subst IsPassed (sym (rw v at e)) tt)
]

within-bound : (bound n : ℕ) (z : ℤ) → within bound z ≡ some n → (z ≡ pos n) × (n ≤ bound)
within-bound bound n (pos k) e = elim (Bool-cases (leb k bound)) [
  | inl few ↦
      let same : k ≡ n = ap value (rw few at e) in
      (ap pos same, subst (λ (m : ℕ). m ≤ bound) same (leb→le _ _ few))
  | inr many ↦ absurd (subst IsSome (sym (rw many at e)) tt)
]
  where
    value : Option ℕ → ℕ
    value none = 0
    value (some m) = m

    IsSome : Option ℕ → Type 0
    IsSome none = ⊥
    IsSome (some m) = Unit
within-bound bound n (negsuc k) e = absurd (subst IsSome (sym e) tt)
  where
    IsSome : Option ℕ → Type 0
    IsSome none = ⊥
    IsSome (some m) = Unit

List-cases : (xs : Text) → (xs ≡ []) ⊎ ((h : ℕ) × (t : Text) × (xs ≡ h ∷ t))
List-cases [] = inl refl
List-cases (h ∷ t) = inr (h, t, refl)

module _ (json : Json) (gcm : Gcm) (master_key : Text) where
  -- The request is for a row of the table, its numbers are in their bounds, and the key decrypts to
  -- its secret without the spaces around it.
  pub record Accepted (c : Call) (st : Store) (i retries req : ℕ) (key : Text) (p : Provider)
      : Type 0 where
    pub id_is : c.id ≡ some i
    pub found : find_provider i st.rows ≡ some p
    pub retries_is : c.max_retry ≡ pos retries
    pub retries_bound : retries ≤ max_retry_count
    pub req_is : c.max_req_sec ≡ pos req
    pub req_bound : req ≤ max_req_second
    pub secret : decrypt_signing_key gcm master_key key ≡ passed (trim_space c.sec)

  pub data Configured (c : Call) (st : Store) : Configuration × Store → Type 0 where
    turned_down : (e : ConfigureError) → Configured c st (rejected e, st)
    uncached :
        (e : Fault) (i retries req : ℕ) (key : Text) (p : Provider)
        → Accepted c st i retries req key p
        → Configured c st (
          rejected (failed e),
          record st { rows = set_row i (with_config key c.des retries req) st.rows },
        )
    complete :
        (i retries req : ℕ) (key : Text) (p : Provider) (b : String)
        → Accepted c st i retries req key p
        → json.serialize (with_config key c.des retries req p) ≡ some b
        → Configured c st (
          configured (with_config key c.des retries req p),
          record {
            rows = set_row i (with_config key c.des retries req) st.rows;
            cache = (p.name, b) ∷ st.cache;
          },
        )

  cache_set-cases :
      (fault : Option Fault) (k : String) (p : Provider) (kvs : List (String × String))
      → ((e : Fault) × (cache_set json fault k p kvs ≡ err e))
        ⊎ ((b : String) × (cache_set json fault k p kvs ≡ ok ((k, b) ∷ kvs))
            × (json.serialize p ≡ some b))
  unfolding cache_set
  cache_set-cases fault k p kvs = elim (Option-cases (json.serialize p)) [
    | inl s ↦ inl (other "json: unsupported value", simp (s, cache_set))
    | inr (b, s) ↦ elim (Option-cases fault) [
      | inl f ↦ inr (b, simp (s, f, cache_set), s)
      | inr (e, f) ↦ inl (e, simp (s, f, cache_set))
    ]
  ]

  configure_row-cases :
      (fault : Option Fault) (i : ℕ) (f : Provider → Provider) (rows : List Provider)
      → ((e : Fault) × (configure_row fault i f rows ≡ err e))
        ⊎ ((p : Provider) × (configure_row fault i f rows ≡ ok (f p, set_row i f rows))
            × (find_provider i rows ≡ some p))
  unfolding configure_row
  configure_row-cases (some e) i f rows = inl (e, refl)
  configure_row-cases none i f rows = elim (Option-cases (find_provider i rows)) [
    | inl m ↦ inl (no_rows, simp (m, configure_row))
    | inr (p, m) ↦ inr (p, simp (m, configure_row), m)
  ]

  save-Configured :
      (c : Call) (st : Store) (i retries req : ℕ)
      → IsNonce c.nonce
      → c.id ≡ some i
      → (c.max_retry ≡ pos retries) × (retries ≤ max_retry_count)
      → (c.max_req_sec ≡ pos req) × (req ≤ max_req_second)
      → Configured c st (save json gcm master_key c i (trim_space c.sec) retries req st)
  unfolding save
  save-Configured c st i retries req nonce id few slow =
      elim (Checked-cases (encrypt_signing_key gcm master_key c.nonce (trim_space c.sec))) [
        | inl (e, k) ↦ simp (k, save) (turned_down encryption_failed)
        | inr (inl k) ↦ simp (k, save) (turned_down encryption_failed)
        | inr (inr (key, k)) ↦
            elim (configure_row-cases c.row_fault i (with_config key c.des retries req) st.rows) [
              | inl (e, r) ↦ simp (k, r, save) (turned_down (failed e))
              | inr (p, r, m) ↦
                  let taken : Accepted c st i retries req key p = record {
                    id_is = id;
                    found = m;
                    retries_is = few.0;
                    retries_bound = few.1;
                    req_is = slow.0;
                    req_bound = slow.1;
                    secret = encrypt-decrypts gcm master_key (trim_space c.sec) key c.nonce nonce k;
                  } in
                  elim (cache_set-cases c.cache_fault p.name (with_config key c.des retries req p)
                    st.cache) [
                      | inl (e, s) ↦ simp (k, r, s, save) (uncached e i retries req key p taken)
                      | inr (b, s, w) ↦
                          simp (k, r, s, save) (complete i retries req key p b taken w)
                    ]
            ]
      ]

  -- The cache gives what was set last under its key.
  pub cache_get-set :
      (k b : String) (p : Provider) (kvs : List (String × String))
      → json.serialize p ≡ some b
      → cache_get json none k ((k, b) ∷ kvs) ≡ ok p
  unfolding cache_get
  cache_get-set k b p kvs s = simp (eq_refl k) (json.unmarshal_serialize p b s)

  -- Every configuration, with a nonce of 12 bytes if one was read: it refuses and changes nothing; or
  -- the row of the id has the new settings and the cache could not be written, so that it has the old
  -- ones; or the row has them and what was written last to the cache under its name is its JSON. In the last two cases the numbers are
  -- within their bounds, and the stored key decrypts to the secret without the spaces around it.
  pub configure-Configured :
      (c : Call) (st : Store)
      → IsNonce c.nonce
      → Configured c st (configure json gcm master_key c st)
  unfolding configure
  configure-Configured c st nonce = elim (Option-cases c.id) [
    | inl i ↦ simp (i, configure) (turned_down invalid_id)
    | inr (i, id) ↦ elim (List-cases (trim_space c.sec)) [
      | inl t ↦ simp (id, t, configure) (turned_down missing_signing_secret)
      | inr (h, sec, t) ↦ elim (Bool-cases (str_eq c.des "")) [
        | inl d ↦ simp (id, t, d, configure) (turned_down missing_destination)
        | inr d ↦ elim (Option-cases (within max_retry_count c.max_retry)) [
          | inl r ↦ simp (id, t, d, r, configure) (turned_down invalid_retry_count)
          | inr (retries, r) ↦ elim (Option-cases (within max_req_second c.max_req_sec)) [
            | inl q ↦ simp (id, t, d, r, q, configure) (turned_down invalid_req_second)
            | inr (req, q) ↦
                simp (id, t, d, r, q, configure)
                  (subst (λ x. Configured c st (save json gcm master_key c i x retries req st)) t
                    (save-Configured c st i retries req nonce id
                      (within-bound max_retry_count retries c.max_retry r)
                      (within-bound max_req_second req c.max_req_sec q)))
          ]
        ]
      ]
    ]
  ]
