-- ===== src/Worker/Run.antt =====
-- worker/service.go: `getNext` and the loop `run`, which claims a batch, forwards it, writes the
-- results and sends the updated events to the live feed, until a claim reports that nothing is left.
pub mod Cycle
pub mod Drain
pub mod Settle
pub mod Delivery
pub mod Retries
use vaulthook.Prelude.{ℕ, Bool, true, false, Option, none, some, List, [], ◌∷◌, ◌++◌}
use vaulthook.Model.{Fault, no_rows, Result, ok, err, Webhook}
use vaulthook.Database.{Db}
use vaulthook.Worker.Forward.{Env, forward_event}
use vaulthook.Worker.Repository.{Kind, BatchSizes, get_events, update_events}

-- What `getNext` returns: a batch, ErrNoHooksToWork, or another error.
pub data Next : Type 0 where
  batch : List Webhook → Next
  no_hooks_to_work : Next
  broken : Fault → Next

unfoldable pub get_next : Result (List Webhook) → Next
get_next (ok hooks) = batch hooks
get_next (err no_rows) = no_hooks_to_work
get_next (err e) = broken e

-- One round of the loop: the clock, the rows that other workers hold, the faults of the two database
-- calls, and the surroundings of each attempt.
pub record Round : Type 0 where
  pub now : ℕ
  pub sizes : BatchSizes
  pub locked : ℕ → Bool
  pub fetch_fault : Option Fault
  pub save_fault : Option Fault
  pub env : Webhook → Env

-- The table, the events sent to the feed, and whether the loop has ended.
pub record Ran : Type 0 where
  pub db : Db
  pub sent : List Webhook
  pub ended : Bool

-- The updated events go to the feed if `updateEvent` had no error.
abbrev pub sendable : List Webhook × Option Fault → List Webhook
sendable (ws, none) = ws
sendable (ws, some e) = []

-- The body of the loop on a batch.
unfoldable pub process : Kind → Round → List Webhook → Db → List Webhook × Db
process kind r hooks db =
    let (result, db') = update_events kind (forward_event r.env hooks) r.save_fault db in
    (sendable result, db')

-- `run` over the given rounds; the loop ends at a round whose claim brings no batch.
unfoldable pub run : Kind → List Round → Db → Ran
unfolding get_next process
run kind [] db = record { db = db; sent = []; ended = false }
run kind (r ∷ rs) db =
    let (result, db') =
      get_events kind r.sizes r.locked r.fetch_fault (record db { now = r.now }) in
    elim (get_next result) [
      | no_hooks_to_work ↦ record { db = db'; sent = []; ended = true }
      | broken e ↦ record { db = db'; sent = []; ended = true }
      | batch hooks ↦
          let (sent, db'') = process kind r hooks db' in
          let rest = run kind rs db'' in record rest { sent = sent ++ rest.sent }
    ]
