-- ===== src/App/Started.antt =====
-- How a start of the program ends (internal/app/app.go, New).
use vaulthook.Prelude.{
  ◌≡◌, refl, ◌⊎◌, inl, inr, false, none, some, List, [], ◌∷◌, All, String, subst, Option-cases,
}
use vaulthook.Model.{Fault, ok, err, Result-cases, other}
use vaulthook.Config.{Panic, Loaded, loaded, panics, Config, init_config}
use vaulthook.Config.Connections.{
  unused, conn_string, do_once, new_pg, new_logger, new_cache, init_redis_cache,
}
use vaulthook.Health.Resources.{compute_resources}
use vaulthook.Providers.Cache.{refresh_cache, init_provider_cache}
use vaulthook.Providers.Cache.Loaded.{Loaded as Loads, UniqueNames, IsCached, refresh_cache-Loaded}
use vaulthook.App.{
  event_loop, queue_worker, retry_worker, replay_worker, cleanup_worker, Process, Crash, bad_config,
  failed, World, Out, done, crash, pool_start, App, new, init_rate_limiter,
}

-- The variables of a new process; Redis holds what earlier processes have left in it.
abbrev pub fresh : List (String × String) → Process
fresh held = record {
  pg = unused;
  logger = unused;
  redis = unused;
  limiter = unused;
  provider_once = false;
  cached = held;
  sizes = record { queue_batch = 50; retry_batch = 25 };
  jobs = [];
  app_canceled = false;
  workers_canceled = false;
}

module _ (w : World) (held : List (String × String)) where
  -- Whose failure a panic reports.
  pub data Blamed : Crash → Type 0 where
    environment : (e : Panic) → init_config w.environment ≡ panics e → Blamed (bad_config e)
    connection :
        (c : Config) (e : Fault)
        → w.libraries.parse_config (conn_string w.libraries c) ≡ some e
        → Blamed (failed e)
    pool : (e : Fault) → w.libraries.new_with_config ≡ some e → Blamed (failed e)
    ping : (e : Fault) → w.ping_fault ≡ some e → Blamed (failed e)
    build_info :
        w.libraries.read_build_info ≡ none → Blamed (failed (other "unable to read buildInfo"))
    redis_url :
        (c : Config) (e : Fault) → w.libraries.parse_url c.redis_url ≡ some e → Blamed (failed e)
    redis : (e : Fault) → w.libraries.ping_redis ≡ some e → Blamed (failed e)
    providers :
        (e : Fault)
        → refresh_cache w.json w.row_fault w.cache_fault w.rows held ≡ err e
        → Blamed (failed e)

  -- All is connected, and all goroutines run.
  pub record IsUp (a : App) (p : Process) : Type 0 where
    pub config : init_config w.environment ≡ loaded a.config
    pub pg :
        a.pg
        ≡ some (record {
          conn_string = conn_string w.libraries a.config;
          max_conns = (compute_resources w.num_cpu).db_max_conns;
        })
    pub answers : w.ping_fault ≡ none
    pub redis : p.redis.value ≡ some (record { url = a.config.redis_url })
    pub limiter : p.limiter.value ≡ p.redis.value
    pub cached : All (IsCached w.json p.cached) w.rows
    pub jobs : p.jobs ≡ (
        event_loop ∷ queue_worker ∷ queue_worker ∷ queue_worker ∷ queue_worker ∷ queue_worker
        ∷ queue_worker ∷ queue_worker ∷ queue_worker ∷ retry_worker ∷ retry_worker ∷ retry_worker
        ∷ retry_worker ∷ replay_worker ∷ cleanup_worker ∷ [])

  pub data Starts : Out App → Type 0 where
    up : (a : App) (p : Process) → IsUp a p → Starts (done a p)
    down : (c : Crash) (p : Process) → Blamed c → p.jobs ≡ [] → Starts (crash c p)

  load-cached :
      (cached : List (String × String))
      → refresh_cache w.json w.row_fault w.cache_fault w.rows held ≡ ok cached
      → UniqueNames w.rows
      → All (IsCached w.json cached) w.rows
  load-cached cached l u = loaded_rows cached (
      subst (Loads w.json w.row_fault w.cache_fault w.rows) l
        (refresh_cache-Loaded w.json w.row_fault w.cache_fault w.rows held u))
    where
      loaded_rows :
          (cached : List (String × String))
          → Loads w.json w.row_fault w.cache_fault w.rows (ok cached)
          → All (IsCached w.json cached) w.rows
      loaded_rows _ (Loads.loaded cached all) = all

  Loaded-cases :
      {A : Type 0} (r : Loaded A) → ((e : Panic) × (r ≡ panics e)) ⊎ ((a : A) × (r ≡ loaded a))
  Loaded-cases (loaded a) = inr (a, refl)
  Loaded-cases (panics e) = inl (e, refl)

  -- With a database to connect to.
  connected-Starts :
      (c : Config)
      → init_config w.environment ≡ loaded c
      → w.libraries.parse_config (conn_string w.libraries c) ≡ none
      → w.libraries.new_with_config ≡ none
      → UniqueNames w.rows
      → Starts (new w (fresh held))
  unfolding pool_start new new_pg do_once new_logger init_redis_cache new_cache init_provider_cache
      init_rate_limiter
  connected-Starts c h k n u = elim (Option-cases w.ping_fault) [
    | inr (e, g) ↦ simp (h, k, n, g, new) (down _ _ (Blamed.ping e g) refl)
    | inl g ↦ elim (Option-cases w.libraries.read_build_info) [
      | inl b ↦ simp (h, k, n, g, b, new) (down _ _ (Blamed.build_info b) refl)
      | inr (info, b) ↦ elim (Option-cases (w.libraries.parse_url c.redis_url)) [
        | inr (e, ur) ↦
            simp (h, k, n, g, b, new) (simp (ur, new) (down _ _ (Blamed.redis_url c e ur) refl))
        | inl ur ↦ elim (Option-cases w.libraries.ping_redis) [
          | inr (e, r) ↦
              simp (h, k, n, g, b, new) (simp (ur, r, new) (down _ _ (Blamed.redis e r) refl))
          | inl r ↦
              elim (Result-cases (refresh_cache w.json w.row_fault w.cache_fault w.rows held)) [
                | inl (e, l) ↦
                    simp (h, k, n, g, b, new)
                      (simp (ur, r, new) (simp (l, new) (down _ _ (Blamed.providers e l) refl)))
                | inr (cached, l) ↦
                    simp (h, k, n, g, b, new)
                      (simp (ur, r, new)
                        (simp (l, new)
                          (up _ _ (record {
                            config = h;
                            pg = refl;
                            answers = g;
                            redis = refl;
                            limiter = refl;
                            cached = load-cached cached l u;
                            jobs = refl;
                          }))))
              ]
        ]
      ]
    ]
  ]

  -- A new process, whatever earlier ones have left in Redis, either comes up or panics,
  -- when the names of the providers in the table are unique. If it panics, the panic reports what failed: the
  -- environment, the connection string, the pool, the database's answer, the build information, the URL
  -- of Redis, its answer, or the loading of the providers; and no goroutine has been started. If it comes
  -- up, it has the configuration of its environment, a pool of as many connections as computed for
  -- its CPUs, Redis for the cache and the rate limiter, and every provider of the table in the cache under its
  -- name; and the event loop, eight queue workers, four retry workers, the
  -- replay worker and the cleanup worker are running, and no other goroutine.
  pub new-Starts : UniqueNames w.rows → Starts (new w (fresh held))
  unfolding new new_pg do_once
  new-Starts u = elim (Loaded-cases (init_config w.environment)) [
    | inl (e, h) ↦ simp (h, new) (down _ _ (Blamed.environment e h) refl)
    | inr (c, h) ↦ elim (Option-cases (w.libraries.parse_config (conn_string w.libraries c))) [
      | inr (e, k) ↦ simp (h, k, new) (down _ _ (Blamed.connection c e k) refl)
      | inl k ↦ elim (Option-cases w.libraries.new_with_config) [
        | inr (e, n) ↦ simp (h, k, n, new) (down _ _ (Blamed.pool e n) refl)
        | inl n ↦ connected-Starts c h k n u
      ]
    ]
  ]
