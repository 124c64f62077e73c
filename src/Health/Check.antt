-- ===== src/Health/Check.antt =====
-- health/health.go and api/handler/health.go: the health check and its reply. The pings, the clock, the
-- runtime's counters, the file system and the build's settings are a parameter. Times are nanoseconds.
pub mod Status
use vaulthook.Prelude.{
  ℕ, ◌+◌, ◌-◌, ◌*◌, ◌/◌, ◌%◌, ◌^◌, ◌≡◌, String, Bool, true, false, not, ◌||◌, Option, none, some,
  List, [], ◌∷◌, Text, str_eq, if◌then◌else◌,
}
use vaulthook.Auth.{second}
use vaulthook.Http.{Reply, write_header}

abbrev pub healthy : String
healthy = "healthy"

abbrev pub unhealthy : String
unhealthy = "unhealthy"

abbrev pub bytes_per_mb : ℕ
bytes_per_mb = 1024 * 1024

pub record DependencyCheck : Type 0 where
  pub status : String
  pub latency_ms : ℕ

pub record ResourceStats : Type 0 where
  pub alloc_mb : ℕ
  pub total_alloc_mb : ℕ
  pub sys_mb : ℕ
  pub num_goroutine : ℕ
  pub num_gc : ℕ
  pub disk_free_mb : ℕ

pub record HealthCheck : Type 0 where
  pub status : String
  pub uptime_seconds : ℕ
  pub version : String
  pub timestamp : String
  pub checks : List (String × DependencyCheck)
  pub resources : ResourceStats

-- The answer of a ping, with the time before and after it.
pub record Ping : Type 0 where
  pub answers : Bool
  pub start : ℕ
  pub end : ℕ

pub record Surroundings : Type 0 where
  pub start_time : ℕ
  pub now : ℕ
  pub timestamp : String
  pub settings : Option (List (String × String))  -- debug.ReadBuildInfo
  pub alloc : ℕ
  pub total_alloc : ℕ
  pub sys : ℕ
  pub num_goroutine : ℕ
  pub num_gc : ℕ
  pub disk : Option (ℕ × ℕ)  -- the free blocks and their size
  pub postgres : Ping
  pub redis : Ping
  pub redis_first : Bool  -- which goroutine takes the lock first

abbrev pub checked : Bool → ℕ → DependencyCheck
checked answers latency = record {
  status = if answers then healthy else unhealthy;
  latency_ms = latency;
}

-- `checkDB` and `checkRedis`
abbrev pub check_dependency : Ping → DependencyCheck
check_dependency p = checked p.answers ((p.end - p.start) / 1000000)

-- `getUpTime`
abbrev pub get_up_time : Surroundings → ℕ
get_up_time s = (s.now - s.start_time) / second

abbrev find_setting : List (String × String) → String
find_setting [] = "unknown"
find_setting ((k, v) ∷ rest) = if str_eq k "vcs.revision" then v else find_setting rest

-- `getVersion`
abbrev pub get_version : Surroundings → String
get_version s = elim s.settings [ none ↦ "unknown" | some settings ↦ find_setting settings ]

-- The product of two uint64 wraps.
abbrev disk_free : Option (ℕ × ℕ) → ℕ
disk_free none = 0
disk_free (some (bavail, bsize)) = bavail * bsize % 2 ^ 64 / bytes_per_mb

-- `getResources`
unfoldable pub get_resources : Surroundings → ResourceStats
get_resources s = record {
  alloc_mb = s.alloc / bytes_per_mb;
  total_alloc_mb = s.total_alloc / bytes_per_mb;
  sys_mb = s.sys / bytes_per_mb;
  num_goroutine = s.num_goroutine;
  num_gc = s.num_gc;
  disk_free_mb = disk_free s.disk;
}

-- A write to the map of checks, under the mutex.
abbrev pub put :
    String → DependencyCheck → List (String × DependencyCheck) → List (String × DependencyCheck)
put k c checks = (k, c) ∷ checks

-- The status under a key; a missing key gives the zero value.
abbrev pub status_of : String → List (String × DependencyCheck) → String
status_of k [] = ""
status_of k ((l, c) ∷ rest) = if str_eq k l then c.status else status_of k rest

-- The two goroutines, in the order in which they take the lock.
abbrev pub run_checks : Bool → DependencyCheck → DependencyCheck → List (String × DependencyCheck)
run_checks true postgres redis = put "postgres" postgres (put "redis" redis [])
run_checks false postgres redis = put "redis" redis (put "postgres" postgres [])

abbrev pub overall : List (String × DependencyCheck) → String
overall checks =
    if not (str_eq (status_of "postgres" checks) healthy)
      || not (str_eq (status_of "redis" checks) healthy)
    then unhealthy
    else healthy

-- `GetHealthCheck`
unfoldable pub get_health_check : Surroundings → HealthCheck
unfolding get_resources
get_health_check s =
    let checks =
      run_checks s.redis_first (check_dependency s.postgres) (check_dependency s.redis) in
    record {
      status = overall checks;
      uptime_seconds = get_up_time s;
      version = get_version s;
      timestamp = s.timestamp;
      checks = checks;
      resources = get_resources s;
    }

-- `getHealth`
abbrev pub health_status : HealthCheck → ℕ
health_status check = if str_eq check.status healthy then 200 else 503

unfoldable pub get_health : (HealthCheck → Option Text) → Surroundings → Reply
unfolding get_health_check
get_health marshal s = elim (marshal (get_health_check s)) [
  | none ↦ write_header 500
  | some body ↦ record { status = health_status (get_health_check s); cookies = []; body = body }
]
