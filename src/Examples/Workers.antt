-- ===== src/Examples/Workers.antt =====
-- The theorems on the workers at concrete inputs.
use vaulthook.Prelude.Sort.{insert_by, sort_by}
use vaulthook.Providers.Headers.{set_forward_headers}
use vaulthook.Prelude.{
  false≢true, ap, sym, Option, ◌≢◌, ℕ, ◌+◌, ◌*◌, ◌≡◌, ◌≤◌, refl, ◌∷◌, [], Bool, true, false, none,
  some, length, ◌-◌, All, Rows, arith,
}
use vaulthook.Model.{ok, Webhook, DeliveryStatus, failed, queued}
use vaulthook.Database.{UniqueIds}
use vaulthook.Worker.Limiter.{Bucket, allow_all}
use vaulthook.Worker.Limiter.Bounds.{allow_all_bound, last_time}
use vaulthook.Worker.Forward.{
  forward_headers, set_rate_limited_update_values, deliver, throttle, handle_response, forward_one,
  Env, Response,
}
use vaulthook.Worker.Forward.Attempts.{Attempt, forward_one-Attempt}
use vaulthook.Worker.Forward.Outcome.{answer_update, answer_update-fate, fate, FateUpdate}
use vaulthook.Worker.Repository.{queue, get_events, batch_limit, is_eligible, selected, before}
use vaulthook.Worker.Repository.Claims.{TakenUp, batch_length, get_events-TakenUp}
use vaulthook.Worker.Run.{Round, run}
use vaulthook.Worker.Run.Cycle.{run-ended}
use vaulthook.Worker.Cleanup.{run_cleanup, retention}
use vaulthook.Worker.Cleanup.Retention.{run_cleanup-limits, no_faults}
use vaulthook.Worker.Run.Drain.{IsAlone, batch_of_round, run-drains}
use vaulthook.Worker.Run.Settle.OneRound.{attempt}
use vaulthook.Worker.Run.Settle.Outcomes.{Outcomes, run-Outcomes}
use vaulthook.Worker.Repository.Backlog.{backlog}
use vaulthook.Examples.Tables.{shop_db-IsConsistent}
use vaulthook.Examples.{noon, shop, event, shop_db, sizes}

allow_all_bound_example :
    1000 * (allow_all 5 (100 ∷ 100 ∷ 900 ∷ []) none).0
    ≤ 1000 * 5 + (last_time 100 (100 ∷ 900 ∷ []) - 100) * 5
allow_all_bound_example = allow_all_bound 5 100 (100 ∷ 900 ∷ []) (omega arith, (omega arith, tt))

abbrev old_bucket : Bucket
old_bucket = record { level = 4000; last_leak = 1000 }

-- A destination that answers with the code, and asks for a wait of 7 seconds.
abbrev answering : ℕ → Response
answering code = record { status_code = code; status = "status"; retry_after = "7" }

abbrev pub env : Env
env = record {
  now = noon;
  cache_get = λ _. ok shop;
  allow = λ _. ok true;
  new_request = λ _. ok tt;
  unmarshal = λ _. ok [];
  send = λ _. ok (answering 429);
}

abbrev hook : Webhook
hook = event 11 "a" queued

forward_one-Attempt_example : Attempt env hook
forward_one-Attempt_example = forward_one-Attempt env hook

answer_update-fate_example : FateUpdate (fate 503) (answer_update env hook shop (answering 503))
answer_update-fate_example = answer_update-fate env hook shop (answering 503)

abbrev unlocked : ℕ → Bool
unlocked _ = false

shop_db_ids : UniqueIds shop_db.events
shop_db_ids = ((ground arith, (ground arith, tt)), ((ground arith, tt), (tt, tt)))

get_events-TakenUp_example :
    Rows
      (TakenUp queue unlocked shop_db)
      shop_db.events
      (get_events queue sizes unlocked none shop_db).1.events
    × (batch_length (get_events queue sizes unlocked none shop_db).0 ≤ batch_limit sizes queue)
get_events-TakenUp_example = get_events-TakenUp queue sizes unlocked none shop_db shop_db_ids

abbrev pub round : Round
round = record {
  now = noon;
  sizes = sizes;
  locked = unlocked;
  fetch_fault = none;
  save_fault = none;
  env = λ _. env;
}

run-ended_example : (run queue (round ∷ round ∷ round ∷ []) shop_db).ended ≡ false
run-ended_example = run-ended queue (round ∷ round ∷ round ∷ []) shop_db (refl, (refl, (refl, tt)))

abbrev alone : IsAlone 2 round
alone = record { batch = refl; free = λ _. refl; fetched = refl }

run-drains_example : backlog (run queue (round ∷ round ∷ []) shop_db).db ≤ backlog shop_db - 2 * 2
run-drains_example =
    run-drains 2 (round ∷ round ∷ []) shop_db shop_db-IsConsistent (alone, (alone, tt))

abbrev is_failed_text : Option DeliveryStatus → Bool
is_failed_text (some failed) = true
is_failed_text _ = false

all_limited :
    All (λ w. (attempt round w).delivery_status ≢ none) (batch_of_round queue round shop_db)
unfolding selected is_eligible before sort_by insert_by forward_one throttle deliver forward_headers
    handle_response set_rate_limited_update_values set_forward_headers
all_limited = (
  (λ h. false≢true (sym (ap is_failed_text h))),
  ((λ h. false≢true (sym (ap is_failed_text h))), tt),
)

run-Outcomes_example : Outcomes queue round shop_db
run-Outcomes_example = run-Outcomes queue round shop_db shop_db-IsConsistent refl refl all_limited

run_cleanup-limits_example :
    (length (run_cleanup 2 no_faults shop_db).events ≤ 2)
    × All (λ w. shop_db.now ≤ w.received_at + retention) (run_cleanup 2 no_faults shop_db).events
run_cleanup-limits_example = run_cleanup-limits 2 shop_db
