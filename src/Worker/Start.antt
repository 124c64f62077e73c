-- ===== src/Worker/Start.antt =====
-- worker/service.go: the loops that wake a worker (`start`, `startRetry`, `startReplay`), and
-- worker/pool.go: the workers of the pool.
pub mod Clock
pub mod Steps
pub mod Purges
use vaulthook.Prelude.{ℕ, ◌+◌, Bool, true, false, List, [], ◌∷◌, ◌++◌, if◌then◌else◌}
use vaulthook.Model.{Webhook}
use vaulthook.Database.{Db}
use vaulthook.Worker.Repository.{Kind, queue, retry, replay}
use vaulthook.Worker.Run.{Round, Ran, run}
use vaulthook.Worker.Cleanup.{Faults, run_cleanup, max_rows}

-- A call of `run`: its rounds, and the time at which it is over.
pub record Shift : Type 0 where
  pub rounds : List Round
  pub over : ℕ

-- What `select` picks: the signal of `Notify`, the ticker, or the end of the context.
pub data Wake : Type 0 where
  signalled ticked : Shift → Wake
  canceled : Wake

-- The table, the events sent to the feed, and whether the loop has returned.
pub record Worked : Type 0 where
  pub db : Db
  pub sent : List Webhook
  pub returned : Bool

-- `start` alone has a case for the signal.
abbrev pub listens : Kind → Bool
listens queue = true
listens retry = false
listens replay = false

abbrev pub after_shift : Kind → Shift → Db → Db
after_shift kind s db = record (run kind s.rounds db).db { now = s.over }

-- `start`, `startRetry` and `startReplay`.
unfoldable pub start : Kind → List Wake → Db → Worked
start kind [] db = record { db = db; sent = []; returned = false }
start kind (canceled ∷ wakes) db = record { db = db; sent = []; returned = true }
start kind (ticked s ∷ wakes) db =
    let rest = start kind wakes (after_shift kind s db) in
    record rest { sent = (run kind s.rounds db).sent ++ rest.sent }
start kind (signalled s ∷ wakes) db =
    let rest = start kind wakes (after_shift kind s db) in
    let passed_by = start kind wakes db in
    if listens kind
    then record rest { sent = (run kind s.rounds db).sent ++ rest.sent }
    else passed_by

-- What wakes the cleanup worker: its ticker, at a time, or the end of the context.
pub data CleanupWake : Type 0 where
  hourly : ℕ → Faults → CleanupWake
  over : CleanupWake

-- `startCleanup`: the table, and whether the loop has returned.
unfoldable pub start_cleanup : List CleanupWake → Db → Db × Bool
start_cleanup [] db = (db, false)
start_cleanup (over ∷ wakes) db = (db, true)
start_cleanup (hourly t faults ∷ wakes) db =
    start_cleanup wakes (run_cleanup max_rows faults (record db { now = t }))

-- `TotalQueueWorkers` and `TotalRetryWorkers`
abbrev pub total_queue_workers : ℕ
total_queue_workers = 8

abbrev pub total_retry_workers : ℕ
total_retry_workers = 4
