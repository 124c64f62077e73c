-- ===== src/Worker/Pool/Untouched/Others.antt =====
-- Which statements of the receivers, the dashboard and the purge leave the row of an event as it is
-- (events/repository.go, worker/cleanup.go).
use vaulthook.Prelude.{
  ℕ, ◌-◌, ◌≡◌, ◌≢◌, refl, sym, ap, ◌∙◌, String, Bool, true, false, Option, none, some, List, ◌∷◌,
  arith, not, ◌==◌, keep, keep-mem, any, Memᴰ, length, Bool-cases, Option-cases, inl, inr,
  if◌then◌else◌,
}
use vaulthook.Model.{Fault, Webhook, CreateWebhookParams}
use vaulthook.Database.{Db, same_event, find_provider}
use vaulthook.Worker.Cleanup.{Faults, run_cleanup, is_old, unless_fault, evict}
use vaulthook.Events.Repository.{insert_row, insert_webhook, replayed, replay_event}
use vaulthook.Worker.Pool.Untouched.{Untouched, map-Untouched}

insert_row-Untouched :
    (v : Webhook) (db : Db) (i : ℕ) → v.id ≢ i → Untouched i db (insert_row v db).1
unfolding insert_row
insert_row-Untouched v db i ne = elim (Option-cases (find_provider v.provider_id db.providers)) [
  | inl missing ↦ rw (missing, insert_row) (λ w m e. m)
  | inr (p, found) ↦ elim (Bool-cases (any (λ x. same_event v x) db.events)) [
    | inl dup ↦ rw (found, dup, insert_row) (λ w m e. m)
    | inr new ↦ elim (Bool-cases (any (λ x. x.id == v.id) db.events)) [
      | inl dup ↦ rw (found, new, dup, insert_row) (λ w m e. m)
      | inr fresh ↦ rw (found, new, fresh, insert_row) (λ w m e. beside v w db.events i ne m e)
    ]
  ]
]
  where
    beside :
        (v w : Webhook) (ws : List Webhook) (i : ℕ)
        → v.id ≢ i
        → Memᴰ w (v ∷ ws)
        → w.id ≡ i
        → Memᴰ w ws
    beside v w ws i ne (Memᴰ.head p) e = absurd (ne (ap (λ (x : Webhook). x.id) (sym p) ∙ e))
    beside v w ws i ne (Memᴰ.tail m) e = m

-- The insertion of another event.
pub insert_webhook-Untouched :
    (jsonb : String → Option String) (fault : Option Fault) (new_id : ℕ) (p : CreateWebhookParams)
    (db : Db) (i : ℕ)
    → new_id ≢ i
    → Untouched i db (insert_webhook jsonb fault new_id p db).1
unfolding insert_webhook
insert_webhook-Untouched jsonb (some e) new_id p db i ne = λ w m k. m
insert_webhook-Untouched jsonb none new_id p db i ne = elim (Option-cases (jsonb p.headers)) [
  | inl bad ↦ rw (bad, insert_webhook) (λ w m e. m)
  | inr (h, good) ↦ elim (Option-cases (jsonb p.payload)) [
    | inl bad ↦ rw (good, bad, insert_webhook) (λ w m e. m)
    | inr (b, fine) ↦ rw (good, fine, insert_webhook) (insert_row-Untouched _ db i ne)
  ]
]

replayed-id : (now j : ℕ) (w : Webhook) → (replayed now j w).id ≡ w.id
replayed-id now j w = ground arith

replayed_other : (now j i : ℕ) (w : Webhook) → j ≢ i → w.id ≡ i → replayed now j w ≡ w
replayed_other now j i w ne e =
    let other : (w.id == j) ≡ false = ground (arith, ne, e) in rw other refl

-- The replay of another event.
pub replay_event-Untouched :
    (fault : Option Fault) (j : ℕ) (db : Db) (i : ℕ)
    → j ≢ i
    → Untouched i db (replay_event fault j db).1
unfolding replay_event
replay_event-Untouched (some e) j db i ne = λ w m k. m
replay_event-Untouched none j db i ne =
    map-Untouched i _ (replayed-id db.now j) db (λ w m e. replayed_other db.now j i w ne e)

keep-Untouched :
    (p : Webhook → Bool) (db : Db) (i : ℕ)
    → Untouched i db (record db { events = keep p db.events })
keep-Untouched p db i w m e = (keep-mem p w db.events m).0

unless_fault-Untouched :
    (fault : Option Fault) (a b c : Db) (i : ℕ)
    → Untouched i a b
    → Untouched i a c
    → Untouched i a (unless_fault fault b c)
unless_fault-Untouched (some e) a b c i h k = h
unless_fault-Untouched none a b c i h k = k

if-Untouched :
    (t : Bool) (a b c : Db) (i : ℕ)
    → Untouched i a b
    → Untouched i a c
    → Untouched i a (if t then b else c)
if-Untouched true a b c i h k = h
if-Untouched false a b c i h k = k

-- The purge takes rows away, and changes none.
pub run_cleanup-Untouched :
    (max_rows : ℕ) (faults : Faults) (db : Db) (i : ℕ)
    → Untouched i db (run_cleanup max_rows faults db)
unfolding run_cleanup evict
run_cleanup-Untouched max_rows faults db i =
    let young : Db = record db { events = keep (λ w. not (is_old db.now w)) db.events } in
    let kept = keep-Untouched (λ w. not (is_old db.now w)) db i in
    let evicted : Db = record young {
      events = evict (length young.events - max_rows) young.events;
    } in
    let left : Untouched i db evicted = λ w m e. kept w (keep-Untouched _ young i w m e) e in
    unless_fault-Untouched faults.age db _ _ i (λ w m e. m)
      (unless_fault-Untouched faults.count db _ _ i kept
        (if-Untouched _ db _ _ i kept (unless_fault-Untouched faults.evict db _ _ i kept left)))
