-- ===== src/App.antt =====
-- The start of the program: cmd/api/main.go, New and Run of internal/app/app.go, start of
-- internal/worker/pool.go. A start changes the variables of the process, and ends in an App or in a
-- panic.
pub mod Started
use vaulthook.Prelude.{
  ℕ, zero, suc, ℤ, String, Bool, true, false, Option, none, some, List, [], ◌∷◌, ◌++◌, Text,
  if◌then◌else◌,
}
use vaulthook.Model.{Fault, Result, ok, err, Provider}
use vaulthook.Config.{Environment, Panic, Loaded, loaded, panics, Config, init_config}
use vaulthook.Health.Resources.{Resources, compute_resources}
use vaulthook.Providers.Service.{Json}
use vaulthook.Providers.Cache.{init_provider_cache}
use vaulthook.Worker.Repository.{BatchSizes}
use vaulthook.Worker.Pool.{Workers}
use vaulthook.Worker.Start.{total_queue_workers, total_retry_workers}
use vaulthook.Config.Connections.{
  Once, unused, Postgres, Logger, Redis, Libraries, new_pg, new_logger, init_redis_cache,
}

-- What runs in a goroutine of its own.
pub data Job : Type 0 where
  event_loop queue_worker retry_worker replay_worker cleanup_worker : Job

-- The variables of the process: the singletons with their sync.Once, the providers' cache in Redis,
-- the batch sizes, the goroutines, and whether the contexts of the application and of the workers are
-- canceled.
pub record Process : Type 0 where
  pub pg : Once Postgres
  pub logger : Once Logger
  pub redis : Once Redis
  pub limiter : Once Redis
  pub provider_once : Bool
  pub cached : List (String × String)
  pub sizes : BatchSizes
  pub jobs : List Job
  pub app_canceled : Bool
  pub workers_canceled : Bool

pub data Crash : Type 0 where
  bad_config : Panic → Crash
  failed : Fault → Crash

-- What is around the program at its start.
pub record World : Type 0 where
  pub environment : Environment
  pub num_cpu : ℕ
  pub libraries : Libraries
  pub ping_fault : Option Fault  -- of the database
  pub json : Json
  pub row_fault : Option Fault
  pub cache_fault : Option Fault
  pub rows : List Provider

-- A step of the start: its value, or a panic, with the process after it.
pub data Out (A : Type 0) : Type 0 where
  done : A → Process → Out A
  crash : Crash → Process → Out A

abbrev pub Boot : Type 0 → Type 0
Boot A = Process → Out A

abbrev pub then_do : {A B : Type 0} → Out A → (A → Boot B) → Out B
then_do (done a p) k = k a p
then_do (crash c p) k = crash c p

infixl 5 ◌>>=◌
abbrev pub ◌>>=◌ : {A B : Type 0} → Boot A → (A → Boot B) → Boot B
(m >>= k) p = then_do (m p) k

-- The workers' loops of `start`, `for range` over each slice.
abbrev pub repeat : ℕ → Job → List Job
repeat zero j = []
repeat (suc n) j = j ∷ repeat n j

unfoldable pub pool_start : Workers → List Job
pool_start n =
    repeat n.queue_workers queue_worker
    ++ repeat n.retry_workers retry_worker
    ++ replay_worker ∷ cleanup_worker ∷ []

abbrev pub go : List Job → Boot (Unit {0})
go jobs p = done tt (record p { jobs = p.jobs ++ jobs })

abbrev pub pool_size : Workers
pool_size = record { queue_workers = total_queue_workers; retry_workers = total_retry_workers }

-- What New returns, as far as a later step uses it.
pub record App : Type 0 where
  pub config : Config
  pub pg : Option Postgres

-- `if err != nil { panic(err) }`
abbrev pub or_panic : {A : Type 0} → Option Fault → A → Boot A
or_panic none a p = done a p
or_panic (some e) a p = crash (failed e) p

abbrev pub cached_or_panic : Result (List (String × String)) → Boot (Unit {0})
cached_or_panic (ok cached) p = done tt (record p { cached = cached })
cached_or_panic (err e) p = crash (failed e) p

abbrev pub config_or_panic : Loaded Config → Boot Config
config_or_panic (loaded c) p = done c p
config_or_panic (panics e) p = crash (bad_config e) p

-- `InitRateLimiter` with `GetCache`
unfoldable pub init_rate_limiter : Option Redis → Once Redis → Once Redis
init_rate_limiter (some r) o = if o.has_run then o else record { has_run = true; value = some r }
init_rate_limiter none o = record o { has_run = true }

module _ (w : World) where
  -- `SetWorkerBatchSizes`
  abbrev pub set_worker_batch_sizes : Resources → Boot (Unit {0})
  set_worker_batch_sizes r p =
      done tt
        (record p { sizes = record { queue_batch = r.queue_batch; retry_batch = r.retry_batch } })

  abbrev pub connected : Config → ℕ → Boot (Option Postgres)
  connected c conns p =
      let ((pg, fault), o) = new_pg w.libraries c conns p.pg in
      or_panic fault pg (record p { pg = o })

  abbrev pub logging : Config → Boot (Option Logger)
  logging c p =
      let ((l, fault), o) = new_logger w.libraries c p.logger in
      or_panic fault l (record p { logger = o })

  abbrev pub redis_ready : Config → Boot (Option Redis)
  redis_ready c p =
      let ((cache, fault), o) = init_redis_cache w.libraries c p.redis in
      or_panic fault cache (record p { redis = o })

  abbrev pub providers_cached : Boot (Unit {0})
  providers_cached p =
      let (cached, ran) =
        init_provider_cache w.json w.row_fault w.cache_fault w.rows (p.provider_once, p.cached) in
      cached_or_panic cached (record p { provider_once = ran })

  abbrev pub limited : Option Redis → Boot (Unit {0})
  limited r p = done tt (record p { limiter = init_rate_limiter r p.limiter })

  -- `New`, without the routes.
  unfoldable pub new : Boot App
  unfolding pool_start init_config compute_resources new_pg new_logger init_redis_cache
      init_provider_cache init_rate_limiter
  new = do
    c ← config_or_panic (init_config w.environment)
    let resources = compute_resources w.num_cpu
    _ ← set_worker_batch_sizes resources
    pg ← connected c resources.db_max_conns
    _ ← or_panic w.ping_fault tt
    _ ← logging c
    r ← redis_ready c
    _ ← providers_cached
    _ ← limited r
    _ ← go (event_loop ∷ [])
    _ ← go (pool_start pool_size)
    λ p. done (record { config = c; pg = pg }) p

-- How the process ends.
pub data End : Type 0 where
  returned : End
  exited : ℕ → End

-- `Run`, by what ListenAndServe returns: Fatal exits the process with status 1, and deferred calls do
-- not run then.
unfoldable pub run : Option Fault → Process → End × Process
run none p = (returned, record p { app_canceled = true; workers_canceled = true })
run (some e) p = (exited 1, p)
