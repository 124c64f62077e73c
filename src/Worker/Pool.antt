-- ===== src/Worker/Pool.antt =====
-- worker/pool.go: the workers of the pool beside each other, and beside the receivers, the dashboard
-- and the purge. `run` of each worker (worker/service.go) is cut at its transactions: the claim of a
-- batch, and the update that ends the round. Between the two the batch is in the worker's hands.
pub mod Hands
pub mod Untouched
pub mod Exclusive
pub mod Claiming
pub mod Reached
pub mod Rounds
pub mod Capacity
use vaulthook.Prelude.{
  ℕ, zero, suc, ◌+◌, ◌≤◌, ◌≡◌, String, Bool, true, false, Option, none, some, List, [], ◌∷◌, ◌++◌,
  ltb, count, All, if◌then◌else◌,
}
use vaulthook.Model.{Fault, Result, ok, err, Provider, Webhook, CreateWebhookParams}
use vaulthook.Database.{Db}
use vaulthook.Worker.Forward.{Env, forward_event}
use vaulthook.Worker.Repository.{
  Kind, queue, retry, replay, BatchSizes, get_events, update_events, has_id,
}
use vaulthook.Worker.Cleanup.{Faults, run_cleanup}
use vaulthook.Events.Repository.{insert_webhook, replay_event}

-- `TotalQueueWorkers` and `TotalRetryWorkers`, which app.go assigns.
pub record Workers : Type 0 where
  pub queue_workers : ℕ
  pub retry_workers : ℕ

-- How many workers `NewWorkerPool` makes of each kind.
unfoldable pub workers : Workers → Kind → ℕ
workers n queue = n.queue_workers
workers n retry = n.retry_workers
workers n replay = 1

-- A batch that a worker has claimed and not yet updated, and the time of the claim.
pub record Held : Type 0 where
  pub kind : Kind
  pub hooks : List Webhook
  pub since : ℕ

-- The table, and the batches in the workers' hands.
pub record Pool : Type 0 where
  pub db : Db
  pub held : List Held

-- `NewWorkerPool`: all workers are idle.
abbrev pub new_worker_pool : Db → Pool
new_worker_pool db = record { db = db; held = [] }

abbrev pub same_kind : Kind → Kind → Bool
same_kind queue queue = true
same_kind retry retry = true
same_kind replay replay = true
same_kind _ _ = false

-- How many workers of a kind have a batch.
abbrev pub busy : Kind → List Held → ℕ
busy kind hs = count (λ h. same_kind h.kind kind) hs

-- All the events in the workers' hands.
abbrev pub in_hand : List Held → List Webhook
in_hand [] = []
in_hand (h ∷ hs) = h.hooks ++ in_hand hs

-- The first half of a round: the batch of `getNext`, if it had no error.
abbrev pub hold : Kind → Result (List Webhook) × Db → Pool → Pool
hold kind (ok hooks, db) p = record {
  db = db;
  held = record { kind = kind; hooks = hooks; since = p.db.now } ∷ p.held;
}
hold kind (err e, db) p = record p { db = db }

-- One batch of those in hand, and the others.
unfoldable pub pick : ℕ → List Held → Option (Held × List Held)
pick n [] = none
pick zero (h ∷ hs) = some (h, hs)
pick (suc n) (h ∷ hs) = elim (pick n hs) [ none ↦ none | some (g, gs) ↦ some (g, h ∷ gs) ]

-- The other half of a round: `forwardEvent` and `updateEvent`. A process that ends before the update
-- is a fault of it.
abbrev pub put : Option (Held × List Held) → (Webhook → Env) → Option Fault → Pool → Pool
put none env fault p = p
put (some (h, hs)) env fault p = record {
  db = (update_events h.kind (forward_event env h.hooks) fault p.db).1;
  held = hs;
}

abbrev pub get_events_timeout : ℕ
get_events_timeout = 5000000000

abbrev pub forward_event_timeout : ℕ
forward_event_timeout = 10000000000

abbrev pub update_events_timeout : ℕ
update_events_timeout = 5000000000

-- The longest time that `run` spends on a batch: the deadlines of its three contexts.
abbrev pub batch_time : ℕ
batch_time = get_events_timeout + forward_event_timeout + update_events_timeout

module _ (jsonb : String → Option String) (n : Workers) (sizes : BatchSizes) where
  -- An idle worker of the kind claims a batch.
  unfoldable pub take_batch : Kind → (ℕ → Bool) → Option Fault → Pool → Pool
  unfolding workers
  take_batch kind locked fault p =
      if ltb (busy kind p.held) (workers n kind)
      then hold kind (get_events kind sizes locked fault p.db) p
      else p

  -- What happens next: a worker claims a batch or ends its round, or another part of the gateway
  -- changes the table, or time passes.
  pub data Act : Type 0 where
    takes : Kind → (ℕ → Bool) → Option Fault → Act
    ends : ℕ → (Webhook → Env) → Option Fault → Act
    receives : Option Fault → ℕ → CreateWebhookParams → Act
    replays : Option Fault → ℕ → Act
    purges : ℕ → Faults → Act
    configures : List Provider → Act
    waits : ℕ → Act

  unfoldable pub act : Act → Pool → Pool
  unfolding take_batch pick
  act (takes kind locked fault) p = take_batch kind locked fault p
  act (ends k env fault) p = put (pick k p.held) env fault p
  act (receives fault i params) p = record p { db = (insert_webhook jsonb fault i params p.db).1 }
  act (replays fault i) p = record p { db = (replay_event fault i p.db).1 }
  act (purges max_rows faults) p = record p { db = run_cleanup max_rows faults p.db }
  act (configures providers) p = record p { db = record p.db { providers = providers } }
  act (waits d) p = record p { db = record p.db { now = p.db.now + d } }

  unfoldable pub acts : List Act → Pool → Pool
  unfolding act
  acts [] p = p
  acts (a ∷ rest) p = acts rest (act a p)

  -- The surroundings of the pool: rounds keep to their deadlines, ids of new events are new, and
  -- nobody asks for the replay of an event that a worker has in hand.
  abbrev pub Fits : Act → Pool → Type 0
  Fits (waits d) p = All (λ h. p.db.now + d ≤ h.since + batch_time) p.held
  Fits (receives fault i params) p = has_id i (in_hand p.held) ≡ false
  Fits (replays fault i) p = has_id i (in_hand p.held) ≡ false
  Fits _ p = Unit

  abbrev pub AllFit : List Act → Pool → Type 0
  AllFit [] p = Unit
  AllFit (a ∷ rest) p = Fits a p × AllFit rest (act a p)
