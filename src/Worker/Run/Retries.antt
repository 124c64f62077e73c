-- ===== src/Worker/Run/Retries.antt =====
-- How often the retry worker tries an event (worker/service.go, worker/repository.go): the tries that
-- an event has left, and the rounds that claim it.
pub mod Changes
pub mod Uses
pub mod Bounded
use vaulthook.Prelude.{
  ℕ, suc, ◌+◌, ◌-◌, ◌≤◌, ◌≡◌, ◌≢◌, refl, sym, ap, ◌∙◌, subst, Bool, true, false, Option, none, some,
  List, [], ◌∷◌, map, ltb, arith, not, ◌==◌, ==_iff, any, any-mem, mem-any, All, Memᴰ, Bool-cases,
  Option-cases, inl, inr, if◌then◌else◌, false≢true,
}
use vaulthook.Model.{Fault, Result, ok, err, Provider, Webhook}
use vaulthook.Database.{Db, UniqueIds, UniqueIds-eq, find_provider}
use vaulthook.Worker.Forward.{forward_event}
use vaulthook.Worker.Repository.{
  Kind, retry, is_failed, is_unfinished, has_retries_left, is_due, is_eligible, selected, has_id,
  claimed, claim, get_events, update_events,
}
use vaulthook.Worker.Repository.Claims.{selected-mem}
use vaulthook.Worker.Run.{Round, Ran, process, run}
use vaulthook.Worker.Run.Drain.{at_round, batch_of_round, run-cons}
use vaulthook.Worker.Pool.Untouched.{Untouched, map-mem, claim-id, update_events-Untouched}
use vaulthook.Worker.Pool.Exclusive.{forward_event-ne}

abbrev pub retries_of : Option Provider → ℕ
retries_of none = 0
retries_of (some p) = p.max_retries

-- The tries that an event has left while it is failed.
abbrev pub left : List Provider → Webhook → ℕ
left ps w =
    if is_failed w.delivery_status
    then retries_of (find_provider w.provider_id ps) - w.retry_count
    else 0

-- The row of the id, if there is one, is not waiting to be processed, and has so many tries at most.
abbrev pub Allows : ℕ → ℕ → Db → Type 0
Allows i b db =
    (w : Webhook)
    → Memᴰ w db.events
    → w.id ≡ i
    → (is_unfinished w.delivery_status ≡ false) × (left db.providers w ≤ b)

abbrev pub hooks_of : Result (List Webhook) → List Webhook
hooks_of (ok ws) = ws
hooks_of (err e) = []

-- Whether the round claims the event, and in how many of the rounds that follow each other it is
-- claimed.
abbrev pub tried : ℕ → Round → Db → Bool
tried i r db =
    has_id i (hooks_of (get_events retry r.sizes r.locked r.fetch_fault (at_round r db)).0)

unfoldable pub tries : ℕ → List Round → Db → ℕ
tries i [] db = 0
tries i (r ∷ rs) db =
    let later = tries i rs (run retry (r ∷ []) db).db in if tried i r db then later + 1 else later
