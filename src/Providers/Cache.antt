-- ===== src/Providers/Cache.antt =====
-- providers/cache.go: `InitProviderCache` and `RefreshCache`, which load the cache in Redis from the
-- table; providers/repository.go and service.go: the lists of providers.
pub mod Loaded
pub mod InSync
pub mod Shown
use vaulthook.Prelude.{Bool, true, false, String, Option, none, some, List, [], ◌∷◌, Text}
use vaulthook.Model.{Fault, other, Result, ok, err, Provider}
use vaulthook.Crypto.{Gcm, Checked, passed, refused, panicked, decrypt_signing_key}
use vaulthook.Providers.Service.{Json}

-- `getAll` of the repository.
unfoldable pub all_rows : Option Fault → List Provider → Result (List Provider)
all_rows (some e) rows = err e
all_rows none rows = ok rows

-- The arguments of MSET, in the order of the rows.
abbrev pub add_pair :
    String → Option String → Result (List (String × String)) → Result (List (String × String))
add_pair name none rest = err (other "[Providers] error marshaling provider")
add_pair name (some b) (err e) = err e
add_pair name (some b) (ok kvs) = ok ((name, b) ∷ kvs)

pub kv_pairs : Json → List Provider → Result (List (String × String))
kv_pairs json [] = ok []
kv_pairs json (p ∷ ps) = add_pair p.name (json.serialize p) (kv_pairs json ps)

-- `Mset`: the pairs are set in their order, all or none.
pub set_all : List (String × String) → List (String × String) → List (String × String)
set_all [] cache = cache
set_all (kv ∷ kvs) cache = set_all kvs (kv ∷ cache)

unfoldable pub mset :
    Option Fault → List (String × String) → List (String × String) → Result (List (String × String))
unfolding set_all
mset (some e) kvs cache = err e
mset none kvs cache = ok (set_all kvs cache)

abbrev pub stored :
    Option Fault
    → Result (List (String × String))
    → List (String × String)
    → Result (List (String × String))
stored fault (err e) cache = err e
stored fault (ok []) cache = err (other "[Providers] no providers found in database")
stored fault (ok (kv ∷ kvs)) cache = mset fault (kv ∷ kvs) cache

abbrev load :
    Json
    → Option Fault
    → Result (List Provider)
    → List (String × String)
    → Result (List (String × String))
load json fault (err e) cache = err e
load json fault (ok rows) cache = stored fault (kv_pairs json rows) cache

-- `RefreshCache`: the cache after it, or the error that left the cache as it was.
unfoldable pub refresh_cache :
    Json
    → Option Fault
    → Option Fault
    → List Provider
    → List (String × String)
    → Result (List (String × String))
unfolding all_rows kv_pairs mset
refresh_cache json row_fault cache_fault rows cache =
    load json cache_fault (all_rows row_fault rows) cache

-- `InitProviderCache`: the function under `once.Do` runs at the first call alone, and a later call
-- returns no error. The flag says whether it has run.
unfoldable pub init_provider_cache :
    Json
    → Option Fault
    → Option Fault
    → List Provider
    → Bool × List (String × String)
    → Result (List (String × String)) × Bool
unfolding refresh_cache
init_provider_cache json row_fault cache_fault rows (true, cache) = (ok cache, true)
init_provider_cache json row_fault cache_fault rows (false, cache) =
    (refresh_cache json row_fault cache_fault rows cache, true)

module _ (gcm : Gcm) (master_key : Text) where
  abbrev pub shown_secret : Provider → Checked Text → Checked Provider
  shown_secret p (refused e) = refused e
  shown_secret p panicked = panicked
  shown_secret p (passed key) = passed (record p { signing_secret = key })

  -- One turn of the loop of `GetAll`.
  unfoldable pub shown : Provider → Checked Provider
  shown p = elim p.is_configured [
    | false ↦ passed p
    | true ↦ shown_secret p (decrypt_signing_key gcm master_key p.signing_secret)
  ]

  abbrev pub add_shown : Checked Provider → Checked (List Provider) → Checked (List Provider)
  add_shown (refused e) rest = refused e
  add_shown panicked rest = panicked
  add_shown (passed p) (refused e) = refused e
  add_shown (passed p) panicked = panicked
  add_shown (passed p) (passed ps) = passed (p ∷ ps)

  unfoldable pub show_all : List Provider → Checked (List Provider)
  unfolding shown
  show_all [] = passed []
  show_all (p ∷ ps) = add_shown (shown p) (show_all ps)

  abbrev pub shown_rows : Result (List Provider) → Checked (List Provider)
  shown_rows (err e) = refused e
  shown_rows (ok rows) = show_all rows

  -- `GetAll` of the service: every configured provider with its key decrypted.
  unfoldable pub list_providers : Option Fault → List Provider → Checked (List Provider)
  unfolding all_rows show_all
  list_providers fault rows = shown_rows (all_rows fault rows)
