-- ===== src/Worker/Run/Cycle.antt =====
-- What the loop of a worker does over its rounds (worker/service.go).
use vaulthook.Prelude.{◌≡◌, refl, ap₂, false, none, List, [], ◌∷◌, map, All}
use vaulthook.Model.{Webhook}
use vaulthook.Database.{Db}
use vaulthook.Worker.Forward.{Env, forward_event}
use vaulthook.Worker.Forward.Outcome.{forward_one-id}
use vaulthook.Worker.Repository.{Kind, get_events}
use vaulthook.Worker.Run.{Round, run}

-- Every event of a batch gets exactly one update, in the order of the batch.
forward_event-ids :
    (env : Webhook → Env) (hooks : List Webhook)
    → map (λ u. u.id) (forward_event env hooks) ≡ map (λ w. w.id) hooks
unfolding forward_event
forward_event-ids env [] = refl
forward_event-ids env (w ∷ ws) = ap₂ ◌∷◌ (forward_one-id (env w) w) (forward_event-ids env ws)

-- As long as the claims have no fault, the loop never ends, also when no event is left: a claim of
-- nothing is an empty batch and no error, so that the worker asks the database again at once.
pub run-ended :
    (kind : Kind) (rounds : List Round) (db : Db)
    → All (λ r. r.fetch_fault ≡ none) rounds
    → (run kind rounds db).ended ≡ false
unfolding run get_events
run-ended kind [] db h = refl
run-ended kind (r ∷ rs) db h = rw h.0 (run-ended kind rs _ h.1)
