-- ===== src/Config/Connections.antt =====
-- The singletons of the process: NewPG of internal/config/db.go, NewLogger of
-- internal/config/logger.go, InitRedisCache and NewCache of internal/cache/cache.go. The libraries'
-- calls are parameters, and so is the decimal text of a number.
use vaulthook.Prelude.{
  ℕ, ℤ, ◌++◌, String, Bool, true, false, Option, none, some, List, [], ◌∷◌, str_eq, Text, codes,
  if◌then◌else◌,
}
use vaulthook.Model.{Fault, Result, ok, err, other}
use vaulthook.Config.{Config}

-- A variable that a function under `once.Do` sets.
pub record Once (A : Type 0) : Type 0 where
  pub has_run : Bool
  pub value : Option A

abbrev pub unused : {A : Type 0} → Once A
unused = record { has_run = false; value = none }

-- The variable after `once.Do` and the error of the function that ran, if one did.
unfoldable pub do_once : {A : Type 0} → Result A → Once A → (Option A × Option Fault) × Once A
do_once init o = if o.has_run then ((o.value, none), o) else elim init [
  | err e ↦ ((o.value, some e), record o { has_run = true })
  | ok a ↦ ((some a, none), record { has_run = true; value = some a })
]

pub record Postgres : Type 0 where
  pub conn_string : Text
  pub max_conns : ℕ

pub record Logger : Type 0 where
  pub level : ℤ
  pub git_revision : String
  pub go_version : String

pub record Redis : Type 0 where
  pub url : String

-- The build information of the binary: the Go version, and the settings.
pub record BuildInfo : Type 0 where
  pub go_version : String
  pub settings : List (String × String)

-- ParseConfig and NewWithConfig of pgxpool, ReadBuildInfo, ParseURL and Ping of Redis, by their
-- errors, and %d.
pub record Libraries : Type 0 where
  pub parse_config : Text → Option Fault
  pub new_with_config : Option Fault
  pub read_build_info : Option BuildInfo
  pub parse_url : String → Option Fault
  pub ping_redis : Option Fault
  pub decimal : ℤ → Text

-- The value of the first setting of the key, or the empty text.
unfoldable pub find_revision : List (String × String) → String
find_revision [] = ""
find_revision (s ∷ rest) = if str_eq s.0 "vcs.revision" then s.1 else find_revision rest

abbrev pub fails_or : {A : Type 0} → Option Fault → Result A → Result A
fails_or none rest = rest
fails_or (some e) rest = err e

module _ (lib : Libraries) (c : Config) where
  abbrev pub conn_string : Text
  conn_string =
      codes c.db_type
      ++ codes "://"
      ++ codes c.db_user
      ++ codes ":"
      ++ codes c.db_password
      ++ codes "@"
      ++ codes c.db_host
      ++ codes ":"
      ++ lib.decimal c.db_port
      ++ codes "/"
      ++ codes c.db_name
      ++ codes "?timezone=UTC"

  -- `NewPG`; the messages that wrap an error are left out.
  unfoldable pub new_pg : ℕ → Once Postgres → (Option Postgres × Option Fault) × Once Postgres
  unfolding do_once
  new_pg max_conns o =
      do_once
        (fails_or (lib.parse_config conn_string) (
          fails_or lib.new_with_config
            (ok (record { conn_string = conn_string; max_conns = max_conns }))))
        o

  abbrev pub logger_of : Option BuildInfo → Result Logger
  logger_of none = err (other "unable to read buildInfo")
  logger_of (some info) = ok (record {
    level = c.log_level;
    git_revision = find_revision info.settings;
    go_version = info.go_version;
  })

  -- `NewLogger`: no value stands for the logger that is not set up.
  unfoldable pub new_logger : Once Logger → (Option Logger × Option Fault) × Once Logger
  unfolding do_once find_revision
  new_logger o = do_once (logger_of lib.read_build_info) o

  -- `NewCache`
  unfoldable pub new_cache : Result Redis
  new_cache =
      fails_or (lib.parse_url c.redis_url)
        (fails_or lib.ping_redis (ok (record { url = c.redis_url })))

  -- `InitRedisCache`, with the cache that `GetCache` gives afterwards.
  unfoldable pub init_redis_cache : Once Redis → (Option Redis × Option Fault) × Once Redis
  unfolding do_once new_cache
  init_redis_cache o = do_once new_cache o
