-- ===== src/Providers/Cache/InSync.antt =====
-- The cache against the table under a configuration (providers/service.go, Configure).
use vaulthook.Prelude.{
  ℕ, ◌≡◌, ◌≢◌, refl, sym, ap, ◌∙◌, subst, false, String, Option, none, some, List, [], ◌∷◌, All,
  ◌==◌, ==_iff, arith, Text, Bool-cases, inl, inr, if◌then◌else◌,
}
use vaulthook.Model.{Provider}
use vaulthook.Crypto.{Gcm}
use vaulthook.Database.{find_provider}
use vaulthook.Providers.Service.{
  Json, Store, Call, Configuration, configured, rejected, cache_get, set_row, with_config,
  configure,
}
use vaulthook.Providers.Service.Configured.{
  Configured, turned_down, uncached, complete, IsNonce, configure-Configured, cache_get-set,
}
use vaulthook.Providers.Cache.Loaded.{UniqueNames, IsCached, str_ne}

-- No two rows have an id in common.
abbrev pub UniqueRows : List Provider → Type 0
UniqueRows [] = Unit
UniqueRows (p ∷ ps) = All (λ q. q.id ≢ p.id) ps × UniqueRows ps

abbrev value_or : Provider → Option Provider → Provider
value_or x none = x
value_or x (some q) = q

-- What a predicate says of all rows it says of the row that is found.
find_provider-All :
    (P : Provider → Type 0) (i : ℕ) (p : Provider) (rows : List Provider)
    → find_provider i rows ≡ some p
    → All P rows
    → P p
unfolding find_provider
find_provider-All P i p [] e h = absurd (some-not-none e)
  where
    IsSome : Option Provider → Type 0
    IsSome none = ⊥
    IsSome (some q) = Unit

    some-not-none : none ≡ some p → ⊥
    some-not-none q = subst IsSome (sym q) tt
find_provider-All P i p (x ∷ xs) e h = elim (Bool-cases (x.id == i)) [
  | inl same ↦ subst P (ap (value_or x) (rw same at e)) h.0
  | inr other ↦ find_provider-All P i p xs (rw other at e) h.1
]

module _ (json : Json) where
  -- The cache gives every row of the table under the row's name.
  abbrev pub InSync : Store → Type 0
  InSync st = All (IsCached json st.cache) st.rows

  -- A row of another name is cached as before.
  still :
      (q : Provider) (name b : String) (cache : List (String × String))
      → q.name ≢ name
      → IsCached json cache q
      → IsCached json ((name, b) ∷ cache) q
  unfolding cache_get
  still q name b cache ne h = rw (str_ne q.name name ne) h

  module _ (f : Provider → Provider) (same_name : (q : Provider) → (f q).name ≡ q.name) where
    unmoved :
        (i : ℕ) (name b : String) (cache : List (String × String)) (rows : List Provider)
        → All (λ q. q.id ≢ i) rows
        → All (λ q. q.name ≢ name) rows
        → All (IsCached json cache) rows
        → All (IsCached json ((name, b) ∷ cache)) (set_row i f rows)
    unmoved i name b cache [] d n h = tt
    unmoved i name b cache (q ∷ qs) d n h =
        let other : (q.id == i) ≡ false = ground (arith, d.0) in
        (
          subst (IsCached json ((name, b) ∷ cache)) (ap (λ c. if c then f q else q) (sym other))
              (still q name b cache n.0 h.0),
          unmoved i name b cache qs d.1 n.1 h.1,
        )

    moved :
        (i : ℕ) (p : Provider) (b : String) (cache : List (String × String)) (rows : List Provider)
        → UniqueRows rows
        → UniqueNames rows
        → All (IsCached json cache) rows
        → find_provider i rows ≡ some p
        → IsCached json ((p.name, b) ∷ cache) (f p)
        → All (IsCached json ((p.name, b) ∷ cache)) (set_row i f rows)
    unfolding find_provider
    moved i p b cache [] u n h e new = tt
    moved i p b cache (x ∷ xs) u n h e new = elim (Bool-cases (x.id == i)) [
      | inl same ↦
          let this : x ≡ p = ap (λ (o : Option Provider). value_or x o) (rw same at e) in
          let set : f p ≡ (if x.id == i then f x else x) =
            ap f (sym this) ∙ ap (λ c. if c then f x else x) (sym same) in
          (
            subst (IsCached json ((p.name, b) ∷ cache)) set new,
            unmoved i p.name b cache xs
                (subst (λ j. All (λ q. q.id ≢ j) xs) ((==_iff x.id i).0 same) u.0)
                (subst (λ (s : String). All (λ q. q.name ≢ s) xs)
                  (ap (λ (q : Provider). q.name) this) n.0)
                h.1,
          )
      | inr other ↦
          let later : find_provider i xs ≡ some p = rw other at e in
          let ne = find_provider-All (λ q. q.name ≢ x.name) i p xs later n.0 in
          (
            subst (IsCached json ((p.name, b) ∷ cache)) (ap (λ c. if c then f x else x) (sym other))
                (still x p.name b cache (λ q. ne (sym q)) h.0),
            moved i p b cache xs u.1 n.1 h.1 later new,
          )
    ]

  abbrev Answered : Configuration → Type 0
  Answered (configured p) = Unit
  Answered (rejected e) = ⊥

  module _ (gcm : Gcm) (master_key : Text) (c : Call) (st : Store) where
    Configured-InSync :
        (x : Configuration × Store)
        → Configured json gcm master_key c st x
        → InSync st
        → UniqueRows st.rows
        → UniqueNames st.rows
        → (p : Provider) → x.0 ≡ configured p
        → InSync x.1
    Configured-InSync _ (turned_down e) h u n p done = h
    Configured-InSync _ (uncached e i retries req key q a) h u n p done =
        absurd (subst Answered (sym done) tt)
    Configured-InSync _ (complete i retries req key q b a w) h u n p done =
        moved (with_config key c.des retries req) (λ v. refl) i q b st.cache st.rows u n h a.found
          (cache_get-set json gcm master_key q.name b (with_config key c.des retries req q) st.cache
            w)

    -- A configuration that reports success keeps the cache in step with the table: if the cache gave
    -- every row under its name before, it does so afterwards. The rows' ids and names are unique, and
    -- a nonce that was read has 12 bytes.
    pub configure-InSync :
        (p : Provider)
        → IsNonce c.nonce
        → InSync st
        → UniqueRows st.rows
        → UniqueNames st.rows
        → (configure json gcm master_key c st).0 ≡ configured p
        → InSync (configure json gcm master_key c st).1
    configure-InSync p nonce h u n done =
        Configured-InSync _ (configure-Configured json gcm master_key c st nonce) h u n p done
