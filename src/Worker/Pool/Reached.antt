-- ===== src/Worker/Pool/Reached.antt =====
-- What the pool reaches (worker/pool.go): the invariant of `Exclusive` along all that can happen.
use vaulthook.Prelude.{
  ℕ, ◌+◌, ◌≡◌, refl, sym, subst, String, Bool, true, false, Option, none, some, List, [], ◌∷◌,
  arith, ◌==◌, ltb, ltb→lt, any, All, Memᴰ, Bool-cases, Option-cases, inl, inr, if◌then◌else◌,
}
use vaulthook.Model.{Fault, Webhook, CreateWebhookParams}
use vaulthook.Database.{Db, UniqueIds, same_event, find_provider}
use vaulthook.Worker.Repository.{Kind, BatchSizes, get_events}
use vaulthook.Worker.Cleanup.{Faults, run_cleanup, unless_fault}
use vaulthook.Events.Repository.{insert_row, insert_webhook, replay_event}
use vaulthook.System.{Step}
use vaulthook.System.Keys.{IsConsistent}
use vaulthook.System.Unique.{Step-IsConsistent}
use vaulthook.Worker.Pool.{
  Workers, Pool, new_worker_pool, busy, workers, in_hand, take_batch, Act, takes, ends, receives,
  replays, purges, configures, waits, act, acts, Fits, AllFit,
}
use vaulthook.Worker.Pool.Hands.{mem-All}
use vaulthook.Worker.Pool.Claiming.{InTime}
use vaulthook.Worker.Pool.Untouched.{Untouched}
use vaulthook.Worker.Pool.Untouched.Others.{
  insert_webhook-Untouched, replay_event-Untouched, run_cleanup-Untouched,
}
use vaulthook.Worker.Pool.Exclusive.{
  IsExclusive, IsExclusive-Untouched, not_in_hand-ne, hold-IsExclusive, put-IsExclusive,
}

insert_row-now : (w : Webhook) (db : Db) → (insert_row w db).1.now ≡ db.now
unfolding insert_row
insert_row-now w db = elim (Option-cases (find_provider w.provider_id db.providers)) [
  | inl missing ↦ rw (missing, insert_row) refl
  | inr (p, found) ↦ elim (Bool-cases (any (λ v. same_event w v) db.events)) [
    | inl dup ↦ rw (found, dup, insert_row) refl
    | inr new ↦ elim (Bool-cases (any (λ v. v.id == w.id) db.events)) [
      | inl dup ↦ rw (found, new, dup, insert_row) refl
      | inr fresh ↦ rw (found, new, fresh, insert_row) refl
    ]
  ]
]

insert_webhook-now :
    (jsonb : String → Option String) (fault : Option Fault) (i : ℕ) (p : CreateWebhookParams)
    (db : Db)
    → (insert_webhook jsonb fault i p db).1.now ≡ db.now
unfolding insert_webhook
insert_webhook-now jsonb (some e) i p db = refl
insert_webhook-now jsonb none i p db = elim (Option-cases (jsonb p.headers)) [
  | inl bad ↦ rw (bad, insert_webhook) refl
  | inr (h, good) ↦ elim (Option-cases (jsonb p.payload)) [
    | inl bad ↦ rw (good, bad, insert_webhook) refl
    | inr (b, fine) ↦ rw (good, fine, insert_webhook) (insert_row-now _ db)
  ]
]

replay_event-now :
    (fault : Option Fault) (i : ℕ) (db : Db) → (replay_event fault i db).1.now ≡ db.now
unfolding replay_event
replay_event-now (some e) i db = refl
replay_event-now none i db = refl

unless_fault-now :
    (fault : Option Fault) (t : ℕ) (a b : Db)
    → a.now ≡ t
    → b.now ≡ t
    → (unless_fault fault a b).now ≡ t
unless_fault-now (some e) t a b p q = p
unless_fault-now none t a b p q = q

if-now : (c : Bool) (t : ℕ) (a b : Db) → a.now ≡ t → b.now ≡ t → (if c then a else b).now ≡ t
if-now true t a b p q = p
if-now false t a b p q = q

pub run_cleanup-now :
    (max_rows : ℕ) (faults : Faults) (db : Db) → (run_cleanup max_rows faults db).now ≡ db.now
unfolding run_cleanup
run_cleanup-now max_rows faults db = unless_fault-now faults.age db.now _ _ refl (
    unless_fault-now faults.count db.now _ _ refl
      (if-now _ db.now _ _ refl (unless_fault-now faults.evict db.now _ _ refl refl)))

module _ (jsonb : String → Option String) (n : Workers) (sizes : BatchSizes) where
  -- A transaction that leaves the events in hand alone, at the same time of the clock.
  aside :
      (p : Pool) (db : Db)
      → IsExclusive p
      → Step jsonb p.db db
      → db.now ≡ p.db.now
      → ((v : Webhook) → Memᴰ v (in_hand p.held) → Untouched v.id p.db db)
      → IsExclusive (record p { db = db })
  aside p db x s clock same =
      IsExclusive-Untouched p db x (Step-IsConsistent jsonb s x.keys)
        (subst (λ t. All (InTime t) p.held) (sym clock) x.in_time) (mem-All _ (in_hand p.held) same)

  take_batch-IsExclusive :
      (kind : Kind) (locked : ℕ → Bool) (fault : Option Fault) (p : Pool)
      → IsExclusive p
      → IsExclusive (take_batch jsonb n sizes kind locked fault p)
  unfolding take_batch get_events
  take_batch-IsExclusive kind locked (some f) p x =
      elim (Bool-cases (ltb (busy kind p.held) (workers n kind))) [
        | inr e ↦ simp e x
        | inl e ↦ simp e x
      ]
  take_batch-IsExclusive kind locked none p x =
      elim (Bool-cases (ltb (busy kind p.held) (workers n kind))) [
        | inr e ↦ simp e x
        | inl e ↦ simp e (hold-IsExclusive n sizes kind locked p x (ltb→lt _ _ e))
      ]

  act-IsExclusive :
      (a : Act jsonb n sizes) (p : Pool)
      → IsExclusive p
      → Fits jsonb n sizes a p
      → IsExclusive (act jsonb n sizes a p)
  unfolding act
  act-IsExclusive (takes kind locked fault) p x fits = take_batch-IsExclusive kind locked fault p x
  act-IsExclusive (ends k env fault) p x fits = put-IsExclusive n sizes k env fault p x
  act-IsExclusive (receives fault i params) p x fits =
      aside p (insert_webhook jsonb fault i params p.db).1 x (Step.receive fault i params p.db)
        (insert_webhook-now jsonb fault i params p.db)
        (λ v m.
          insert_webhook-Untouched jsonb fault i params p.db v.id
            (not_in_hand-ne i (in_hand p.held) v fits m))
  act-IsExclusive (replays fault i) p x fits =
      aside p (replay_event fault i p.db).1 x (Step.replay fault i p.db)
        (replay_event-now fault i p.db)
        (λ v m.
          replay_event-Untouched fault i p.db v.id (not_in_hand-ne i (in_hand p.held) v fits m))
  act-IsExclusive (purges max_rows faults) p x fits =
      aside p (run_cleanup max_rows faults p.db) x (Step.purge max_rows faults p.db)
        (run_cleanup-now max_rows faults p.db)
        (λ v m. run_cleanup-Untouched max_rows faults p.db v.id)
  act-IsExclusive (configures providers) p x fits =
      aside p (record p.db { providers = providers }) x (Step.configure providers p.db) refl
        (λ v m w l e. l)
  act-IsExclusive (waits d) p x fits =
      IsExclusive-Untouched p (record p.db { now = p.db.now + d }) x
        (Step-IsConsistent jsonb (Step.tick d p.db) x.keys) fits
        (mem-All _ (in_hand p.held) (λ v m w l e. l))

  acts-IsExclusive :
      (happens : List (Act jsonb n sizes)) (p : Pool)
      → IsExclusive p
      → AllFit jsonb n sizes happens p
      → IsExclusive (acts jsonb n sizes happens p)
  unfolding acts
  acts-IsExclusive [] p x fit = x
  acts-IsExclusive (a ∷ rest) p x fit =
      acts-IsExclusive rest (act jsonb n sizes a p) (act-IsExclusive a p x fit.0) fit.1

  -- Claims of all the pool's workers, ends of their rounds with any outcome, received events, replays,
  -- purges, changes of providers and the passing of time, in any order and number: from a pool of idle
  -- workers on a table with unique keys, no event is ever in the hands of two workers, nor twice in a
  -- batch. Each round ends within the deadlines of its contexts, an event that is received has a new id,
  -- and nobody asks for the replay of an event that a worker has in hand.
  pub acts-exclusive :
      (happens : List (Act jsonb n sizes)) (db : Db)
      → IsConsistent db
      → AllFit jsonb n sizes happens (new_worker_pool db)
      → UniqueIds (in_hand (acts jsonb n sizes happens (new_worker_pool db)).held)
  acts-exclusive happens db c fit =
      let idle : IsExclusive (new_worker_pool db) = record {
        keys = c;
        exclusive = tt;
        in_time = tt;
        marked = tt;
        one_replay = omega arith;
      } in
      (acts-IsExclusive happens (new_worker_pool db) idle fit).exclusive
