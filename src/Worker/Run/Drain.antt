-- ===== src/Worker/Run/Drain.antt =====
-- The rounds of a queue worker against its backlog (worker/service.go, run).
use vaulthook.Prelude.{
  ℕ, ◌-◌, ◌*◌, ◌≡◌, ◌≤◌, refl, sym, ap, ◌∙◌, false, Option, none, some, List, [], ◌∷◌, ◌++◌, length,
  map, All, arith, inl, inr,
}
use vaulthook.Model.{DeliveryStatus, Webhook}
use vaulthook.Database.{Db}
use vaulthook.Worker.Forward.{
  UpdateWebhook, Env, Response, forward_one, forward_event, handle_response,
}
use vaulthook.Worker.Forward.Attempts.{forward_one-Attempt}
use vaulthook.Worker.Repository.{Kind, queue, selected, claimed, get_events}
use vaulthook.Worker.Repository.Backlog.{
  backlog, Finishes, backlog-get_events, backlog-update_events,
}
use vaulthook.Worker.Run.{Round, Ran, process, run}
use vaulthook.System.{Step}
use vaulthook.System.Keys.{IsConsistent}
use vaulthook.System.Unique.{Step-IsConsistent}

abbrev status_of : UpdateWebhook → Option DeliveryStatus
status_of u = u.delivery_status

answer-Finishes :
    (now : ℕ) (res : Response) (u : UpdateWebhook)
    → u.delivery_status ≡ none
    → Finishes (handle_response now res u)
unfolding handle_response
answer-Finishes now res u e h = ground arith

forward_one-Finishes : (env : Env) (hook : Webhook) → Finishes (forward_one env hook)
forward_one-Finishes env hook h = elim (forward_one-Attempt env hook) [
  | inl (res, prov, _, _, _, _, _, answered) ↦
      answer-Finishes env.now res _ refl (sym (ap status_of answered) ∙ h)
  | inr (_, _, _, u) ↦ let bad = u.status in cc
]

forward_event-Finishes :
    (env : Webhook → Env) (hooks : List Webhook) → All Finishes (forward_event env hooks)
unfolding forward_event
forward_event-Finishes env [] = tt
forward_event-Finishes env (w ∷ ws) =
    (forward_one-Finishes (env w) w, forward_event-Finishes env ws)

-- A round of a queue worker that takes n events at most, while no other worker holds a row and the
-- claim has no fault.
pub record IsAlone (n : ℕ) (r : Round) : Type 0 where
  pub batch : r.sizes.queue_batch ≡ n
  pub free : (i : ℕ) → r.locked i ≡ false
  pub fetched : r.fetch_fault ≡ none

backlog-process :
    (r : Round) (hooks : List Webhook) (db : Db) → backlog (process queue r hooks db).1 ≤ backlog db
unfolding process
backlog-process r hooks db =
    backlog-update_events queue (forward_event r.env hooks) r.save_fault db
      (forward_event-Finishes r.env hooks)

process-IsConsistent :
    (r : Round) (hooks : List Webhook) (db : Db)
    → IsConsistent db
    → IsConsistent (process queue r hooks db).1
unfolding process
process-IsConsistent r hooks db c =
    Step-IsConsistent some (Step.finish queue (forward_event r.env hooks) r.save_fault db) c

abbrev claimed_db : Round → Db → Db
claimed_db r db = (get_events queue r.sizes r.locked none (record db { now = r.now })).1

claimed-IsConsistent : (r : Round) (db : Db) → IsConsistent db → IsConsistent (claimed_db r db)
claimed-IsConsistent r db c =
    Step-IsConsistent some (Step.claim queue r.sizes r.locked none (record db { now = r.now }))
      (record { ids = c.ids; events = c.events })

abbrev pub at_round : Round → Db → Db
at_round r db = record db { now = r.now }

-- The events that a round claims, as it gets them.
abbrev pub batch_of_round : Kind → Round → Db → List Webhook
batch_of_round kind r db =
    map (claimed kind (at_round r db)) (selected kind r.sizes r.locked (at_round r db))

pub run-cons :
    (kind : Kind) (r : Round) (rs : List Round) (db : Db)
    → r.fetch_fault ≡ none
    → let hooks = batch_of_round kind r db in
      let db' = (get_events kind r.sizes r.locked none (at_round r db)).1 in
      let (sent, db'') = process kind r hooks db' in
      run kind (r ∷ rs) db
      ≡ (let rest = run kind rs db'' in record rest { sent = sent ++ rest.sent })
unfolding run get_events
run-cons kind r rs db fetched = rw fetched

-- While it works alone and its claims have no fault, a queue worker takes a whole batch off the
-- backlog in every round, whatever the destinations answer and whether the results can be saved: the
-- events that are still queued after some rounds are at most those of the beginning less a batch for
-- each round, and none is left when the rounds have as many places as there were queued events. The
-- table's keys are unique at the beginning.
pub run-drains :
    (n : ℕ) (rounds : List Round) (db : Db)
    → IsConsistent db
    → All (IsAlone n) rounds
    → backlog (run queue rounds db).db ≤ backlog db - length rounds * n
unfolding run
run-drains n [] db c h = omega arith
run-drains n (r ∷ rs) db c h =
    let alone = h.0 in
    let hooks = batch_of_round queue r db in
    let after = (process queue r hooks (claimed_db r db)).1 in
    let taken = backlog-get_events r.sizes r.locked (at_round r db) c.ids alone.free in
    let less = backlog-process r hooks (claimed_db r db) in
    let later =
      run-drains n rs after
        (process-IsConsistent r hooks (claimed_db r db) (claimed-IsConsistent r db c)) h.1 in
    let step = ap (λ (x : Ran). backlog x.db) (run-cons queue r rs db alone.fetched) in
    rw step (omega (arith, taken, less, later, alone.batch))
