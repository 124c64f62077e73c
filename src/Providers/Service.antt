-- ===== src/Providers/Service.antt =====
-- providers/service.go, repository.go and cache.go: the configuration of a provider, which is written
-- to the table and to the cache in Redis that the receivers and the workers read. JSON, uuid.Parse
-- and the cipher are parameters; the cache's key is the provider's name.
pub mod Configured
use vaulthook.Prelude.{
  ℕ, ◌≡◌, ℤ, pos, negsuc, String, Bool, true, false, Option, none, some, List, [], ◌∷◌, map, Text,
  trim_space, str_eq, leb, ◌==◌, if◌then◌else◌,
}
use vaulthook.Model.{Fault, no_rows, other, Result, ok, err, Provider}
use vaulthook.Crypto.{Gcm, Checked, passed, refused, panicked, encrypt_signing_key}
use vaulthook.Database.{find_provider}

-- json.Marshal and json.Unmarshal of a provider.
pub record Json : Type 0 where
  pub serialize : Provider → Option String
  pub unmarshal : String → Result Provider
  pub unmarshal_serialize : (p : Provider) (s : String) → serialize p ≡ some s → unmarshal s ≡ ok p

pub record Store : Type 0 where
  pub rows : List Provider
  pub cache : List (String × String)

abbrev pub find_key : String → List (String × String) → Option String
find_key k [] = none
find_key k ((l, v) ∷ kvs) = if str_eq k l then some v else find_key k kvs

-- `ProviderCache.Get`
abbrev pub decoded : Json → Option String → Result Provider
decoded json none = err (other "redis: nil")
decoded json (some s) = json.unmarshal s

unfoldable pub cache_get : Json → Option Fault → String → List (String × String) → Result Provider
cache_get json (some e) k kvs = err e
cache_get json none k kvs = decoded json (find_key k kvs)

-- `ProviderCache.Set`
unfoldable pub cache_set :
    Json
    → Option Fault
    → String
    → Provider
    → List (String × String)
    → Result (List (String × String))
cache_set json fault k p kvs = elim (json.serialize p) [
  | none ↦ err (other "json: unsupported value")
  | some b ↦ elim fault [ none ↦ ok ((k, b) ∷ kvs) | some e ↦ err e ]
]

-- The columns that `configure` of the repository sets.
abbrev pub with_config : Text → String → ℕ → ℕ → Provider → Provider
with_config sec des max_retry max_req_sec p = record p {
  signing_secret = sec;
  destination_url = des;
  max_retries = max_retry;
  max_req_second = max_req_sec;
  is_configured = true;
}

abbrev pub set_row : ℕ → (Provider → Provider) → List Provider → List Provider
set_row i f rows = map (λ p. if p.id == i then f p else p) rows

-- `ProviderRepo.configure`: no row of the id is pgx.ErrNoRows.
unfoldable pub configure_row :
    Option Fault → ℕ → (Provider → Provider) → List Provider → Result (Provider × List Provider)
configure_row (some e) i f rows = err e
configure_row none i f rows = elim (find_provider i rows) [
  | none ↦ err no_rows
  | some p ↦ ok (f p, set_row i f rows)
]

pub data ConfigureError : Type 0 where
  invalid_id missing_signing_secret missing_destination invalid_retry_count : ConfigureError
  invalid_req_second encryption_failed : ConfigureError
  failed : Fault → ConfigureError

pub data Configuration : Type 0 where
  configured : Provider → Configuration
  rejected : ConfigureError → Configuration

-- The request, and what the libraries and the two stores answer.
pub record Call : Type 0 where
  pub id : Option ℕ  -- uuid.Parse
  pub sec : Text
  pub des : String
  pub max_retry : ℤ
  pub max_req_sec : ℤ
  pub nonce : Option Text
  pub row_fault : Option Fault
  pub cache_fault : Option Fault

abbrev pub max_retry_count : ℕ
max_retry_count = 20

abbrev pub max_req_second : ℕ
max_req_second = 1000

-- A number from 0 to a bound.
abbrev pub within : ℕ → ℤ → Option ℕ
within bound (pos n) = if leb n bound then some n else none
within bound (negsuc n) = none

-- The update of the cache, after that of the table.
abbrev pub cached : Provider → Result (List (String × String)) → Store → Configuration × Store
cached p (err e) st = (rejected (failed e), st)
cached p (ok kvs) st = (configured p, record st { cache = kvs })

module _ (json : Json) (gcm : Gcm) (master_key : Text) where
  -- The end of `Configure`, with what the checks let through.
  abbrev pub saved : Call → Result (Provider × List Provider) → Store → Configuration × Store
  saved c (err e) st = (rejected (failed e), st)
  saved c (ok (p, rows)) st =
      cached p (cache_set json c.cache_fault p.name p st.cache) (record st { rows = rows })

  unfoldable pub save : Call → ℕ → Text → ℕ → ℕ → Store → Configuration × Store
  unfolding configure_row
  save c i sec retries req st = elim (encrypt_signing_key gcm master_key c.nonce sec) [
    | refused e ↦ (rejected encryption_failed, st)
    | panicked ↦ (rejected encryption_failed, st)
    | passed key ↦
        saved c (configure_row c.row_fault i (with_config key c.des retries req) st.rows) st
  ]

  -- `Configure`
  unfoldable pub configure : Call → Store → Configuration × Store
  unfolding save trim_space
  configure c st = elim c.id [
    | none ↦ (rejected invalid_id, st)
    | some i ↦ elim (trim_space c.sec) [
      | [] ↦ (rejected missing_signing_secret, st)
      | h ∷ sec ↦
          if str_eq c.des ""
          then (rejected missing_destination, st)
          else elim (within max_retry_count c.max_retry) [
            | none ↦ (rejected invalid_retry_count, st)
            | some retries ↦ elim (within max_req_second c.max_req_sec) [
              | none ↦ (rejected invalid_req_second, st)
              | some req ↦ save c i (h ∷ sec) retries req st
            ]
          ]
    ]
  ]
