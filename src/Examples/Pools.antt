-- ===== src/Examples/Pools.antt =====
-- The theorems on the worker pool and on the simulated destination at concrete inputs, and a run of
-- the pool in which an event that is in hand is replayed.
use vaulthook.Prelude.{
  ℕ, ◌+◌, ◌*◌, ◌≡◌, ◌≤◌, refl, Bool, true, false, none, some, List, [], ◌∷◌, map, arith, length,
  pos, ltb,
}
use vaulthook.Prelude.Sort.{insert_by, sort_by}
use vaulthook.Events.Repository.{replay_event}
use vaulthook.Model.{Webhook}
use vaulthook.Database.{UniqueIds}
use vaulthook.Worker.Repository.{
  BatchSizes, queue, retry, replay, get_events, selected, is_eligible, before,
}
use vaulthook.Worker.Pool.{
  Workers, new_worker_pool, in_hand, Act, takes, ends, replays, waits, act, acts, take_batch,
  workers, AllFit,
}
use vaulthook.Worker.Pool.Reached.{acts-exclusive}
use vaulthook.Worker.Pool.Capacity.{acts-capacity}
use vaulthook.Mock.{outage, Hit, ControlBody, control_handler, new_sim}
use vaulthook.Mock.Heals.{answers, Recovers, control-Recovers}
use vaulthook.Examples.Tables.{shop_db-IsConsistent}
use vaulthook.Examples.Workers.{env}
use vaulthook.Examples.{shop_db}

abbrev pub two_and_one : Workers
two_and_one = record { queue_workers = 2; retry_workers = 1 }

abbrev singly : BatchSizes
singly = record { queue_batch = 1; retry_batch = 10 }

abbrev free : ℕ → Bool
free _ = false

-- Two queue workers claim, ten seconds pass, the first to claim ends its round, and a
-- retry worker and the replay worker look for work.
abbrev happenings : List (Act some two_and_one singly)
happenings =
    takes queue free none
    ∷ takes queue free none
    ∷ waits 10000000000
    ∷ takes retry free none
    ∷ ends 1 (λ _. env) none
    ∷ takes replay free none
    ∷ []

fitting : AllFit some two_and_one singly happenings (new_worker_pool shop_db)
unfolding acts act take_batch workers get_events selected is_eligible before sort_by insert_by
fitting = (tt, (tt, ((omega arith, (omega arith, tt)), (tt, (tt, (tt, tt))))))

acts-exclusive_example :
    UniqueIds (in_hand (acts some two_and_one singly happenings (new_worker_pool shop_db)).held)
acts-exclusive_example =
    acts-exclusive some two_and_one singly happenings shop_db shop_db-IsConsistent fitting

acts-capacity_example :
    length (in_hand (acts some two_and_one singly happenings (new_worker_pool shop_db)).held)
    ≤ 2 * singly.queue_batch + 1 * singly.retry_batch + 1
acts-capacity_example = acts-capacity two_and_one singly some happenings shop_db

-- An event that a queue worker has in hand is replayed: the replay worker takes it up as well.
abbrev replayed_in_hand : List (Act some two_and_one singly)
replayed_in_hand = takes queue free none ∷ replays none 11 ∷ takes replay free none ∷ []

in_two_hands :
    map
      (λ (w : Webhook). w.id)
      (in_hand (acts some two_and_one singly replayed_in_hand (new_worker_pool shop_db)).held)
    ≡ 11 ∷ 11 ∷ []
unfolding acts act take_batch workers get_events selected is_eligible before sort_by insert_by
    replay_event
in_two_hands = refl

abbrev post : Hit ℕ
post = record { is_post = true; chance = 40; delay = 7; choice = 1; hijackable = true }

abbrev two_failures : ControlBody ltb 0
two_failures = record { mode = outage; fail_count = pos 2; fail_rate = 0 }

control-Recovers_example : Recovers ltb 0 outage 2 (
    answers ltb 0
      (post ∷ post ∷ post ∷ [])
      (control_handler ltb 0 (some two_failures) (new_sim ltb 0 50)).1)
control-Recovers_example =
    control-Recovers ltb 0 two_failures 1 (post ∷ post ∷ post ∷ []) (new_sim ltb 0 50) refl refl
      ((refl, refl), ((refl, refl), ((refl, refl), tt)))
