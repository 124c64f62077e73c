-- ===== src/Providers/Cache/Shown.antt =====
-- What the list of providers shows after a configuration (providers/service.go, Configure and GetAll).
use vaulthook.Prelude.{
  ℕ, ◌≡◌, refl, sym, ap, ap₂, ◌∙◌, subst, true, false, Option, none, some, List, [], ◌∷◌, ◌==◌,
  Text, trim_space, Bool-cases, inl, inr,
}
use vaulthook.Model.{Provider}
use vaulthook.Crypto.{Gcm, Checked, passed, refused, panicked, decrypt_signing_key}
use vaulthook.Ingest.Signed.{Checked-cases, IsPassed, passed-IsPassed}
use vaulthook.Database.{find_provider}
use vaulthook.Providers.Service.{
  Json, Store, Call, Configuration, configured, rejected, set_row, with_config, configure,
}
use vaulthook.Providers.Service.Configured.{
  Configured, turned_down, uncached, complete, IsNonce, configure-Configured,
}
use vaulthook.Providers.Cache.{shown, shown_secret, add_shown, show_all, list_providers, all_rows}

module _ (f : Provider → Provider) (same_id : (q : Provider) → (f q).id ≡ q.id) where
  pub find_provider-set_row :
      (i : ℕ) (q : Provider) (rows : List Provider)
      → find_provider i rows ≡ some q
      → find_provider i (set_row i f rows) ≡ some (f q)
  unfolding find_provider
  find_provider-set_row i q [] e = absurd (subst IsNone e tt)
    where
      IsNone : Option Provider → Type 0
      IsNone none = Unit
      IsNone (some p) = ⊥
  find_provider-set_row i q (x ∷ xs) e = elim (Bool-cases (x.id == i)) [
    | inl same ↦
        let same' : ((f x).id == i) ≡ true = ap (λ (n : ℕ). n == i) (same_id x) ∙ same in
        rw (same, same') (ap (λ (o : Option Provider). map_found o) (rw same at e))
    | inr other ↦ rw (other, other) (find_provider-set_row i q xs (rw other at e))
  ]
    where
      map_found : Option Provider → Option Provider
      map_found none = none
      map_found (some p) = some (f p)

module _ (gcm : Gcm) (master_key : Text) where
  -- What passes is shown with the same id.
  abbrev SameId : Provider → Checked Provider → Type 0
  SameId p (passed q) = q.id ≡ p.id
  SameId p (refused e) = Unit
  SameId p panicked = Unit

  shown-SameId : (p : Provider) → SameId p (shown gcm master_key p)
  unfolding shown
  shown-SameId p = elim (Bool-cases p.is_configured) [
    | inr e ↦ simp (e, shown) refl
    | inl e ↦ simp (e, shown) (secret_id (decrypt_signing_key gcm master_key p.signing_secret))
  ]
    where
      secret_id : (k : Checked Text) → SameId p (shown_secret gcm master_key p k)
      secret_id (passed key) = refl
      secret_id (refused x) = tt
      secret_id panicked = tt

  abbrev list_of : Checked (List Provider) → List Provider
  list_of (passed ps) = ps
  list_of _ = []

  abbrev found_in : Provider → Option Provider → Provider
  found_in x none = x
  found_in x (some p) = p

  -- The row that is found in the table is the row that is found in the list, as it is shown.
  show_all-find :
      (i : ℕ) (p : Provider) (rows ps : List Provider)
      → show_all gcm master_key rows ≡ passed ps
      → find_provider i rows ≡ some p
      → (p' : Provider) × (shown gcm master_key p ≡ passed p') × (find_provider i ps ≡ some p')
  unfolding show_all find_provider IsPassed
  show_all-find i p [] ps h e = absurd (subst IsNone e tt)
    where
      IsNone : Option Provider → Type 0
      IsNone none = Unit
      IsNone (some q) = ⊥
  show_all-find i p (x ∷ xs) ps h e = elim (Checked-cases (shown gcm master_key x)) [
    | inl (f, bad) ↦ absurd (
        passed-IsPassed _ ps
          (ap (λ r. add_shown gcm master_key r (show_all gcm master_key xs)) (sym bad) ∙ h))
    | inr (inl bad) ↦ absurd (
        passed-IsPassed _ ps
          (ap (λ r. add_shown gcm master_key r (show_all gcm master_key xs)) (sym bad) ∙ h))
    | inr (inr (x', good)) ↦ elim (Checked-cases (show_all gcm master_key xs)) [
      | inl (f, bad) ↦
          absurd (passed-IsPassed _ ps (ap₂ (add_shown gcm master_key) (sym good) (sym bad) ∙ h))
      | inr (inl bad) ↦
          absurd (passed-IsPassed _ ps (ap₂ (add_shown gcm master_key) (sym good) (sym bad) ∙ h))
      | inr (inr (xs', rest)) ↦
          let whole : x' ∷ xs' ≡ ps =
            ap list_of (ap₂ (add_shown gcm master_key) (sym good) (sym rest) ∙ h) in
          let same_id : x'.id ≡ x.id = subst (SameId x) good (shown-SameId x) in
          subst
            (λ l.
              (p' : Provider) × (shown gcm master_key p ≡ passed p')
              × (find_provider i l ≡ some p'))
            whole
            (elim (Bool-cases (x.id == i)) [
              | inl same ↦
                  let same' : (x'.id == i) ≡ true = ap (λ (n : ℕ). n == i) same_id ∙ same in
                  let this : x ≡ p = ap (λ (o : Option Provider). found_in x o) (rw same at e) in
                  (x', ap (shown gcm master_key) (sym this) ∙ good, rw same' refl)
              | inr other ↦
                  let other' : (x'.id == i) ≡ false = ap (λ (n : ℕ). n == i) same_id ∙ other in
                  let (p', shows, found) = show_all-find i p xs xs' rest (rw other at e) in
                  (p', shows, rw other' found)
            ])
    ]
  ]

  abbrev Answered : Configuration → Type 0
  Answered (configured p) = Unit
  Answered (rejected e) = ⊥

  abbrev provider_of : Provider → Configuration → Provider
  provider_of q (configured p) = p
  provider_of q (rejected e) = q

  module _ (json : Json) (c : Call) (st : Store) where
    -- What the list shows of a provider that was configured.
    abbrev pub in_clear : Provider → Provider
    in_clear p = record p { signing_secret = trim_space c.sec }

    Configured-shown :
        (x : Configuration × Store)
        → Configured json gcm master_key c st x
        → (i : ℕ) (p : Provider) (ps : List Provider) → c.id ≡ some i
        → x.0 ≡ configured p
        → list_providers gcm master_key none x.1.rows ≡ passed ps
        → find_provider i ps ≡ some (in_clear p)
    unfolding list_providers all_rows shown
    Configured-shown _ (turned_down e) i p ps id done listed = absurd (subst Answered (sym done) tt)
    Configured-shown _ (uncached e j retries req key q a) i p ps id done listed =
        absurd (subst Answered (sym done) tt)
    Configured-shown _ (complete j retries req key q b a w) i p ps id done listed =
        let new = with_config key c.des retries req q in
        let this : new ≡ p = ap (provider_of q) done in
        let index : j ≡ i = ap number (sym a.id_is ∙ id) in
        let (p', shows, found) = show_all-find j new _ ps listed (
          find_provider-set_row (with_config key c.des retries req) (λ v. refl) j q st.rows
            a.found) in
        let plain : passed (in_clear new) ≡ passed p' =
          ap (shown_secret gcm master_key new) (sym a.secret) ∙ shows in
        subst (λ n. find_provider n ps ≡ some (in_clear p)) index
          (found ∙ ap some (ap (clear_of new) (sym plain)) ∙ ap (λ v. some (in_clear v)) this)
      where
        number : Option ℕ → ℕ
        number none = 0
        number (some n) = n

        clear_of : Provider → Checked Provider → Provider
        clear_of d (passed v) = v
        clear_of d _ = d

    -- After a configuration that reports success, a list of all providers that comes back shows, under
    -- the configured id, the answered settings with the signing secret in clear, without the spaces
    -- around it. A nonce that was read has 12 bytes.
    pub configure-shown :
        (i : ℕ) (p : Provider) (ps : List Provider)
        → IsNonce c.nonce
        → c.id ≡ some i
        → (configure json gcm master_key c st).0 ≡ configured p
        → list_providers gcm master_key none (configure json gcm master_key c st).1.rows ≡ passed ps
        → find_provider i ps ≡ some (in_clear p)
    configure-shown i p ps nonce id done listed =
        Configured-shown _ (configure-Configured json gcm master_key c st nonce) i p ps id done
          listed
