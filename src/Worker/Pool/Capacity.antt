-- ===== src/Worker/Pool/Capacity.antt =====
-- How much the pool has in hand at most (worker/pool.go, worker/repository.go).
use vaulthook.Prelude.{
  ℕ, ◌+◌, ◌*◌, ◌≤◌, ◌<◌, String, Bool, Option, none, some, List, [], ◌∷◌, arith, ltb, ltb→lt, All,
  length, length-append, Bool-cases, Option-cases, inl, inr,
}
use vaulthook.Model.{Fault, Webhook}
use vaulthook.Database.{Db}
use vaulthook.Worker.Forward.{Env}
use vaulthook.Worker.Repository.{Kind, queue, retry, replay, BatchSizes, batch_limit, get_events}
use vaulthook.Worker.Repository.Claims.{get_events-batch_limit}
use vaulthook.Worker.Pool.{
  Workers, Held, Pool, new_worker_pool, busy, workers, in_hand, pick, put, take_batch, Act, takes,
  ends, receives, replays, purges, configures, waits, act, acts,
}
use vaulthook.Worker.Pool.Hands.{pick-Split, Split-All, Split-busy}
use native.Mathlib.Nat.{suc-mul, mul-le-mul_right}

-- A batch is within the limit of its kind.
abbrev IsLimited : BatchSizes → Held → Type 0
IsLimited sizes h = length h.hooks ≤ batch_limit sizes h.kind

-- What the busy workers of each kind can have in hand.
abbrev capacity : BatchSizes → ℕ → ℕ → ℕ → ℕ
capacity sizes q r s = q * sizes.queue_batch + r * sizes.retry_batch + s

abbrev IsUnderCapacity : BatchSizes → List Held → Type 0
IsUnderCapacity sizes hs =
    length (in_hand hs) ≤ capacity sizes (busy queue hs) (busy retry hs) (busy replay hs)

in_hand-cons :
    (sizes : BatchSizes) (kind : Kind) (hooks : List Webhook) (since : ℕ) (hs : List Held)
    → length hooks ≤ batch_limit sizes kind
    → IsUnderCapacity sizes hs
    → IsUnderCapacity sizes (record { kind = kind; hooks = hooks; since = since } ∷ hs)
in_hand-cons sizes queue hooks since hs a rest =
    omega
      (arith, length-append hooks (in_hand hs), a, rest, suc-mul (busy queue hs) sizes.queue_batch)
in_hand-cons sizes retry hooks since hs a rest =
    omega
      (arith, length-append hooks (in_hand hs), a, rest, suc-mul (busy retry hs) sizes.retry_batch)
in_hand-cons sizes replay hooks since hs a rest =
    omega (arith, length-append hooks (in_hand hs), a, rest)

in_hand-busy :
    (sizes : BatchSizes) (hs : List Held) → All (IsLimited sizes) hs → IsUnderCapacity sizes hs
in_hand-busy sizes [] a = omega arith
in_hand-busy sizes (h ∷ hs) a =
    in_hand-cons sizes h.kind h.hooks h.since hs a.0 (in_hand-busy sizes hs a.1)

module _ (n : Workers) (sizes : BatchSizes) where
  -- Each busy worker has one batch, and each batch is within its limit.
  record IsWithin (hs : List Held) : Type 0 where
    busy_workers : (kind : Kind) → busy kind hs ≤ workers n kind
    limited : All (IsLimited sizes) hs

  busy-cons :
      (kind other : Kind) (hooks : List Webhook) (since : ℕ) (hs : List Held)
      → busy kind hs < workers n kind
      → busy other hs ≤ workers n other
      → busy other (record { kind = kind; hooks = hooks; since = since } ∷ hs) ≤ workers n other
  unfolding workers
  busy-cons queue queue hooks since hs free few = omega (arith, free)
  busy-cons queue retry hooks since hs free few = few
  busy-cons queue replay hooks since hs free few = few
  busy-cons retry queue hooks since hs free few = few
  busy-cons retry retry hooks since hs free few = omega (arith, free)
  busy-cons retry replay hooks since hs free few = few
  busy-cons replay queue hooks since hs free few = few
  busy-cons replay retry hooks since hs free few = few
  busy-cons replay replay hooks since hs free few = omega (arith, free)

  take_batch-IsWithin :
      (jsonb : String → Option String) (kind : Kind) (locked : ℕ → Bool) (fault : Option Fault)
      (p : Pool)
      → IsWithin p.held
      → IsWithin (take_batch jsonb n sizes kind locked fault p).held
  unfolding take_batch get_events
  take_batch-IsWithin jsonb kind locked (some f) p x =
      elim (Bool-cases (ltb (busy kind p.held) (workers n kind))) [
        | inr e ↦ simp e x
        | inl e ↦ simp e x
      ]
  take_batch-IsWithin jsonb kind locked none p x =
      elim (Bool-cases (ltb (busy kind p.held) (workers n kind))) [
        | inr e ↦ simp e x
        | inl e ↦ simp e (record {
          busy_workers =
              λ other. busy-cons kind other _ _ p.held (ltb→lt _ _ e) (x.busy_workers other);
          limited = (get_events-batch_limit kind sizes locked none p.db, x.limited);
        })
      ]

  put-IsWithin :
      (k : ℕ) (env : Webhook → Env) (fault : Option Fault) (p : Pool)
      → IsWithin p.held
      → IsWithin (put (pick k p.held) env fault p).held
  put-IsWithin k env fault p x = elim (Option-cases (pick k p.held)) [
    | inl nobody ↦ simp nobody x
    | inr ((h, hs), picked) ↦
        let split = pick-Split k p.held h hs picked in
        simp picked (record {
          busy_workers = λ kind. omega (arith, Split-busy kind split, x.busy_workers kind);
          limited = (Split-All (IsLimited sizes) split x.limited).1;
        })
  ]

  module _ (jsonb : String → Option String) where
    act-IsWithin :
        (a : Act jsonb n sizes) (p : Pool) → IsWithin p.held → IsWithin (act jsonb n sizes a p).held
    unfolding act
    act-IsWithin (takes kind locked fault) p x = take_batch-IsWithin jsonb kind locked fault p x
    act-IsWithin (ends k env fault) p x = put-IsWithin k env fault p x
    act-IsWithin (receives fault i params) p x = x
    act-IsWithin (replays fault i) p x = x
    act-IsWithin (purges max_rows faults) p x = x
    act-IsWithin (configures providers) p x = x
    act-IsWithin (waits d) p x = x

    acts-IsWithin :
        (happens : List (Act jsonb n sizes)) (p : Pool)
        → IsWithin p.held
        → IsWithin (acts jsonb n sizes happens p).held
    unfolding acts
    acts-IsWithin [] p x = x
    acts-IsWithin (a ∷ rest) p x = acts-IsWithin rest (act jsonb n sizes a p) (act-IsWithin a p x)

    -- Whatever happens to a pool that starts with idle workers, and in whatever order, it never has
    -- more events in hand than a full batch for each of its queue workers and of its retry workers, and
    -- one event for the replay worker.
    pub acts-capacity :
        (happens : List (Act jsonb n sizes)) (db : Db)
        → length (in_hand (acts jsonb n sizes happens (new_worker_pool db)).held)
          ≤ n.queue_workers * sizes.queue_batch + n.retry_workers * sizes.retry_batch + 1
    unfolding workers
    acts-capacity happens db =
        let idle : IsWithin [] = record { busy_workers = λ kind. omega arith; limited = tt } in
        let x = acts-IsWithin happens (new_worker_pool db) idle in
        let hs = (acts jsonb n sizes happens (new_worker_pool db)).held in
        omega (
          arith,
          in_hand-busy sizes hs x.limited,
          mul-le-mul_right sizes.queue_batch (x.busy_workers queue),
          mul-le-mul_right sizes.retry_batch (x.busy_workers retry),
          x.busy_workers replay,
        )
