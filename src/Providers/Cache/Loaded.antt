-- ===== src/Providers/Cache/Loaded.antt =====
-- What a load leaves in the cache (providers/cache.go, RefreshCache).
use vaulthook.Prelude.{
  ◌≡◌, ◌≢◌, refl, sym, ap, ap₂, ◌∙◌, subst, false, String, Option, none, some, List, [], ◌∷◌, All,
  Memᴰ, str_eq, eq_refl, eq_iff, Bool-cases, Option-cases, inl, inr, ◌⊎◌,
}
use vaulthook.Model.{Fault, Result, ok, err, Provider}
use vaulthook.Providers.Service.{Json, cache_get, find_key, decoded}
use vaulthook.Providers.Cache.{refresh_cache, mset, set_all, kv_pairs, all_rows, add_pair, stored}

-- No two rows have a name in common.
abbrev pub UniqueNames : List Provider → Type 0
UniqueNames [] = Unit
UniqueNames (p ∷ ps) = All (λ q. q.name ≢ p.name) ps × UniqueNames ps

pub str_ne : (a b : String) → a ≢ b → str_eq a b ≡ false
str_ne a b ne = elim (Bool-cases (str_eq a b)) [
  | inl e ↦ absurd (ne ((eq_iff a b).0 e))
  | inr e ↦ e
]

module _ (json : Json) where
  -- The pairs of a load, one for each row.
  data Pairs : List Provider → List (String × String) → Type 0 where
    no_pair : Pairs [] []
    pair :
        (p : Provider) (ps : List Provider) (b : String) (kvs : List (String × String))
        → json.serialize p ≡ some b
        → Pairs ps kvs
        → Pairs (p ∷ ps) ((p.name, b) ∷ kvs)

  -- Why the pairs cannot be built.
  abbrev pub Unwritable : List Provider → Type 0
  Unwritable rows = (p : Provider) × Memᴰ p rows × (json.serialize p ≡ none)

  kv_pairs-cases :
      (rows : List Provider)
      → ((e : Fault) × (kv_pairs json rows ≡ err e) × Unwritable rows)
        ⊎ ((kvs : List (String × String)) × (kv_pairs json rows ≡ ok kvs) × Pairs rows kvs)
  unfolding kv_pairs
  kv_pairs-cases [] = inr ([], refl, no_pair)
  kv_pairs-cases (p ∷ ps) = elim (Option-cases (json.serialize p)) [
    | inl s ↦ inl (_, ap (λ o. add_pair p.name o (kv_pairs json ps)) s, (p, Memᴰ.head refl, s))
    | inr (b, s) ↦ elim (kv_pairs-cases ps) [
      | inl (e, bad, (q, m, none_is)) ↦
          inl (e, ap₂ (λ o r. add_pair p.name o r) s bad, (q, Memᴰ.tail m, none_is))
      | inr (kvs, good, pairs) ↦
          inr ((p.name, b) ∷ kvs, ap₂ (λ o r. add_pair p.name o r) s good, pair p ps b kvs s pairs)
    ]
  ]

  -- A key that no row has keeps its value.
  find_key-other :
      (k : String) (rows : List Provider) (kvs cache : List (String × String))
      → Pairs rows kvs
      → All (λ q. q.name ≢ k) rows
      → find_key k (set_all kvs cache) ≡ find_key k cache
  unfolding set_all
  find_key-other k _ _ cache no_pair h = refl
  find_key-other k _ _ cache (pair p ps b kvs s pairs) h =
      let other_key : str_eq k p.name ≡ false = str_ne k p.name (λ e. h.0 (sym e)) in
      find_key-other k ps kvs ((p.name, b) ∷ cache) pairs h.1 ∙ rw other_key

  abbrev pub IsCached : List (String × String) → Provider → Type 0
  IsCached cache p = cache_get json none p.name cache ≡ ok p

  All-IsCached :
      (rows : List Provider) (kvs cache : List (String × String))
      → Pairs rows kvs
      → UniqueNames rows
      → All (IsCached (set_all kvs cache)) rows
  unfolding set_all cache_get
  All-IsCached _ _ cache no_pair u = tt
  All-IsCached _ _ cache (pair p ps b kvs s pairs) u =
      let here : find_key p.name (set_all kvs ((p.name, b) ∷ cache)) ≡ some b =
        find_key-other p.name ps kvs ((p.name, b) ∷ cache) pairs u.0 ∙ rw (eq_refl p.name) in
      (
        ap (decoded json) here ∙ json.unmarshal_serialize p b s,
        All-IsCached ps kvs ((p.name, b) ∷ cache) pairs u.1,
      )

  -- Why a load can fail.
  pub data Hindered (row_fault cache_fault : Option Fault) : List Provider → Type 0 where
    unreadable : (rows : List Provider) → row_fault ≢ none → Hindered row_fault cache_fault rows
    unwritable : (rows : List Provider) → Unwritable rows → Hindered row_fault cache_fault rows
    no_providers : Hindered row_fault cache_fault []
    unreachable : (rows : List Provider) → cache_fault ≢ none → Hindered row_fault cache_fault rows

  pub data Loaded (row_fault cache_fault : Option Fault) (rows : List Provider)
      : Result (List (String × String)) → Type 0 where
    hindered :
        (e : Fault)
        → Hindered row_fault cache_fault rows
        → Loaded row_fault cache_fault rows (err e)
    loaded :
        (cache : List (String × String))
        → All (IsCached cache) rows
        → Loaded row_fault cache_fault rows (ok cache)

  abbrev IsSome : Option Fault → Type 0
  IsSome none = ⊥
  IsSome (some e) = Unit

  some-ne : (e : Fault) → some e ≢ none
  some-ne e h = subst IsSome h tt

  load-Loaded :
      (fault : Option Fault) (rows : List Provider) (kvs cache : List (String × String))
      → Pairs rows kvs
      → UniqueNames rows
      → Loaded none fault rows (stored fault (ok kvs) cache)
  unfolding mset
  load-Loaded fault _ _ cache no_pair u = hindered _ no_providers
  load-Loaded (some e) _ _ cache (pair p ps b kvs s pairs) u =
      hindered e (unreachable _ (some-ne e))
  load-Loaded none _ _ cache (pair p ps b kvs s pairs) u =
      loaded _ (All-IsCached (p ∷ ps) ((p.name, b) ∷ kvs) cache (pair p ps b kvs s pairs) u)

  -- A refresh of the cache from a table whose names are unique either fails, because the table cannot
  -- be read, a row cannot be written as JSON, there is no row or Redis cannot be written, or it leaves
  -- a cache that gives every row of the table under the row's name.
  pub refresh_cache-Loaded :
      (row_fault cache_fault : Option Fault) (rows : List Provider) (cache : List (String × String))
      → UniqueNames rows
      → Loaded row_fault cache_fault rows (refresh_cache json row_fault cache_fault rows cache)
  unfolding refresh_cache all_rows
  refresh_cache-Loaded (some e) cache_fault rows cache u = hindered e (unreadable rows (some-ne e))
  refresh_cache-Loaded none cache_fault rows cache u = elim (kv_pairs-cases rows) [
    | inl (e, bad, why) ↦ simp (bad, refresh_cache) (hindered e (unwritable rows why))
    | inr (kvs, good, pairs) ↦
        simp (good, refresh_cache) (load-Loaded cache_fault rows kvs cache pairs u)
  ]
