-- ===== src/System/Unique.antt =====
-- The primary key and the unique index of the events table, under all steps of the gateway.
use vaulthook.Prelude.{
  ℕ, ◌≡◌, ◌≢◌, String, Bool, true, false, Option, none, some, List, [], ◌∷◌, arith, not, ◌==◌, keep,
  any, All, Bool-cases, Option-cases, inl, inr, subst, false≢true, sym, if◌then◌else◌,
}
use vaulthook.Model.{
  Fault, Result, ok, err, Result-cases, DeliveryStatus, Webhook, CreateWebhookParams,
}
use vaulthook.Database.{Db, same_event, find_event, find_provider}
use vaulthook.Worker.Forward.{UpdateWebhook}
use vaulthook.Worker.Repository.{
  Kind, BatchSizes, selected, claim, updated, get_events, update_one, update_all, update_events,
  prepend,
}
use vaulthook.Worker.Cleanup.{Faults, run_cleanup, is_old, unless_fault}
use vaulthook.Events.Repository.{insert_row, insert_webhook, replayed, replay_event}
use vaulthook.System.{Step, Reach}
use vaulthook.System.Keys.{
  SameKey, UniqueIds-map, UniqueEvents-map, UniqueIds-keep, UniqueEvents-keep, IsConsistent,
}

claim-SameKey :
    (kind : Kind) (db : Db) (rows : List Webhook) (w : Webhook) → SameKey (claim kind db rows w) w
claim-SameKey kind db rows w = ground arith

get_events-IsConsistent :
    (kind : Kind) (sizes : BatchSizes) (locked : ℕ → Bool) (fault : Option Fault) (db : Db)
    → IsConsistent db
    → IsConsistent (get_events kind sizes locked fault db).1
unfolding get_events
get_events-IsConsistent kind sizes locked (some e) db c = c
get_events-IsConsistent kind sizes locked none db c =
    let same = claim-SameKey kind db (selected kind sizes locked db) in
    record {
      ids = UniqueIds-map _ same db.events c.ids;
      events = UniqueEvents-map _ same db.events c.events;
    }

-- The table after a batch of updates, or none if the database refused one.
abbrev AllConsistent : Result (List (Option Webhook) × Db) → Type 0
AllConsistent (ok (rows, db)) = IsConsistent db
AllConsistent (err e) = Unit

abbrev OneConsistent : Result (Option Webhook × Db) → Type 0
OneConsistent (ok (row, db)) = IsConsistent db
OneConsistent (err e) = Unit

set_row-SameKey :
    (kind : Kind) (now : ℕ) (s : DeliveryStatus) (u : UpdateWebhook) (w : Webhook)
    → SameKey (if w.id == u.id then updated kind now s u w else w) w
set_row-SameKey kind now s u w = ground arith

update_one-IsConsistent :
    (kind : Kind) (u : UpdateWebhook) (db : Db)
    → IsConsistent db
    → OneConsistent (update_one kind u db)
unfolding update_one
update_one-IsConsistent kind u db c = elim (Option-cases u.delivery_status) [
  | inl bad ↦ rw (bad, update_one) tt
  | inr (s, good) ↦ elim (Option-cases (find_event u.id db.events)) [
    | inl missing ↦ rw (good, missing, update_one) c
    | inr (w, found) ↦
        let same = set_row-SameKey kind db.now s u in
        rw (good, found, update_one)
          (record {
            ids = UniqueIds-map _ same db.events c.ids;
            events = UniqueEvents-map _ same db.events c.events;
          })
  ]
]

prepend-AllConsistent :
    (w : Option Webhook) (r : Result (List (Option Webhook) × Db))
    → AllConsistent r
    → AllConsistent (prepend w r)
prepend-AllConsistent w (ok (rows, db)) h = h
prepend-AllConsistent w (err e) h = tt

update_all-IsConsistent :
    (kind : Kind) (us : List UpdateWebhook) (db : Db)
    → IsConsistent db
    → AllConsistent (update_all kind us db)
unfolding update_all
update_all-IsConsistent kind [] db c = c
update_all-IsConsistent kind (u ∷ us) db c = elim (Result-cases (update_one kind u db)) [
  | inl (e, bad) ↦ rw (bad, update_all) tt
  | inr ((w, db'), good) ↦
      let c' = subst OneConsistent good (update_one-IsConsistent kind u db c) in
      rw (good, update_all) (prepend-AllConsistent w _ (update_all-IsConsistent kind us db' c'))
]

update_events-IsConsistent :
    (kind : Kind) (us : List UpdateWebhook) (fault : Option Fault) (db : Db)
    → IsConsistent db
    → IsConsistent (update_events kind us fault db).1
unfolding update_events
update_events-IsConsistent kind [] fault db c = c
update_events-IsConsistent kind (u ∷ us) (some e) db c = c
update_events-IsConsistent kind (u ∷ us) none db c =
    elim (Result-cases (update_all kind (u ∷ us) db)) [
      | inl (e, bad) ↦ rw (bad, update_events) c
      | inr ((rows, db'), good) ↦
          rw (good, update_events)
            (subst AllConsistent good (update_all-IsConsistent kind (u ∷ us) db c))
    ]

any-All : (p : Webhook → Bool) (ws : List Webhook) → any p ws ≡ false → All (λ v. p v ≡ false) ws
any-All p [] h = tt
any-All p (w ∷ ws) h = elim (Bool-cases (p w)) [
  | inl e ↦ absurd (false≢true (sym (rw e at h)))
  | inr e ↦ (e, any-All p ws (rw e at h))
]

All-ne-id : (i : ℕ) (ws : List Webhook) → All (λ v. (v.id == i) ≡ false) ws → All (λ v. v.id ≢ i) ws
All-ne-id i [] h = tt
All-ne-id i (w ∷ ws) h = (λ e. ground arith, All-ne-id i ws h.1)

insert_row-IsConsistent :
    (w : Webhook) (db : Db) → IsConsistent db → IsConsistent (insert_row w db).1
unfolding insert_row
insert_row-IsConsistent w db c = elim (Option-cases (find_provider w.provider_id db.providers)) [
  | inl missing ↦ rw (missing, insert_row) c
  | inr (p, found) ↦ elim (Bool-cases (any (λ v. same_event w v) db.events)) [
    | inl dup ↦ rw (found, dup, insert_row) c
    | inr new ↦ elim (Bool-cases (any (λ v. v.id == w.id) db.events)) [
      | inl dup ↦ rw (found, new, dup, insert_row) c
      | inr fresh ↦
          rw (found, new, fresh, insert_row)
            (record {
              ids = (All-ne-id w.id db.events (any-All _ db.events fresh), c.ids);
              events = (any-All _ db.events new, c.events);
            })
    ]
  ]
]

insert_webhook-IsConsistent :
    (jsonb : String → Option String) (fault : Option Fault) (new_id : ℕ) (p : CreateWebhookParams)
    (db : Db)
    → IsConsistent db
    → IsConsistent (insert_webhook jsonb fault new_id p db).1
unfolding insert_webhook
insert_webhook-IsConsistent jsonb (some e) new_id p db c = c
insert_webhook-IsConsistent jsonb none new_id p db c = elim (Option-cases (jsonb p.headers)) [
  | inl bad ↦ rw (bad, insert_webhook) c
  | inr (h, good) ↦ elim (Option-cases (jsonb p.payload)) [
    | inl bad ↦ rw (good, bad, insert_webhook) c
    | inr (b, fine) ↦ rw (good, fine, insert_webhook) (insert_row-IsConsistent _ db c)
  ]
]

replayed-SameKey : (now i : ℕ) (w : Webhook) → SameKey (replayed now i w) w
replayed-SameKey now i w = ground arith

replay_event-IsConsistent :
    (fault : Option Fault) (i : ℕ) (db : Db)
    → IsConsistent db
    → IsConsistent (replay_event fault i db).1
unfolding replay_event
replay_event-IsConsistent (some e) i db c = c
replay_event-IsConsistent none i db c = record {
  ids = UniqueIds-map _ (replayed-SameKey db.now i) db.events c.ids;
  events = UniqueEvents-map _ (replayed-SameKey db.now i) db.events c.events;
}

keep-IsConsistent :
    (p : Webhook → Bool) (db : Db)
    → IsConsistent db
    → IsConsistent (record db { events = keep p db.events })
keep-IsConsistent p db c = record {
  ids = UniqueIds-keep p db.events c.ids;
  events = UniqueEvents-keep p db.events c.events;
}

unless_fault-IsConsistent :
    (fault : Option Fault) (a b : Db)
    → IsConsistent a
    → IsConsistent b
    → IsConsistent (unless_fault fault a b)
unless_fault-IsConsistent (some e) a b p q = p
unless_fault-IsConsistent none a b p q = q

if-IsConsistent :
    (t : Bool) (a b : Db) → IsConsistent a → IsConsistent b → IsConsistent (if t then a else b)
if-IsConsistent true a b p q = p
if-IsConsistent false a b p q = q

run_cleanup-IsConsistent :
    (max_rows : ℕ) (faults : Faults) (db : Db)
    → IsConsistent db
    → IsConsistent (run_cleanup max_rows faults db)
unfolding run_cleanup
run_cleanup-IsConsistent max_rows faults db c =
    let young = keep-IsConsistent (λ w. not (is_old db.now w)) db c in
    unless_fault-IsConsistent faults.age db _ c (
      unless_fault-IsConsistent faults.count _ _ young (
        if-IsConsistent _ _ _ young
          (unless_fault-IsConsistent faults.evict _ _ young (keep-IsConsistent _ _ young))))

-- Every step of the gateway keeps the ids of the events unique, and the pairs of provider and event
-- id: whatever is interleaved, no event is stored twice.
pub Step-IsConsistent :
    (jsonb : String → Option String) {a b : Db} → Step jsonb a b → IsConsistent a → IsConsistent b
Step-IsConsistent jsonb (Step.claim k s l f a) c = get_events-IsConsistent k s l f a c
Step-IsConsistent jsonb (Step.finish k us f a) c = update_events-IsConsistent k us f a c
Step-IsConsistent jsonb (Step.receive f i p a) c = insert_webhook-IsConsistent jsonb f i p a c
Step-IsConsistent jsonb (Step.replay f i a) c = replay_event-IsConsistent f i a c
Step-IsConsistent jsonb (Step.purge m fs a) c = run_cleanup-IsConsistent m fs a c
Step-IsConsistent jsonb (Step.configure ps a) c = record { ids = c.ids; events = c.events }
Step-IsConsistent jsonb (Step.tick d a) c = record { ids = c.ids; events = c.events }

-- Claims, results, received events, replays, purges, changes of providers and the clock, in any order
-- and number: from a table in which no two rows share an id, or a provider and an event id, only such
-- tables are reached.
pub Reach-IsConsistent :
    (jsonb : String → Option String) {a b : Db} → Reach jsonb a b → IsConsistent a → IsConsistent b
Reach-IsConsistent jsonb Reach.here c = c
Reach-IsConsistent jsonb (Reach.next r s) c =
    Step-IsConsistent jsonb s (Reach-IsConsistent jsonb r c)
