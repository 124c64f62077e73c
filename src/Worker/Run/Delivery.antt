-- ===== src/Worker/Run/Delivery.antt =====
-- From the receiver's INSERT (events/repository.go) to the delivery (worker/service.go).
use vaulthook.Prelude.{
  ℕ, zero, suc, ◌≤◌, ◌≡◌, ◌≢◌, refl, sym, ap, subst, String, Bool, false, Option, none, some, List,
  [], ◌∷◌, not, ◌&&◌, arith, length, length-keep, take, keep, keep-keep, mem-keep, Memᴰ, All,
  All-mem, Bool-cases, inl, inr, length-sort_by,
}
use vaulthook.Prelude.Sort.{insert_by, sort_by}
use vaulthook.Model.{
  Fault, Result, ok, Webhook, CreateWebhookParams, delivered, queued, hook_exists,
}
use vaulthook.Database.{Db}
use vaulthook.Events.Repository.{insert_webhook}
use vaulthook.Events.Repository.Insertion.{Insertion, made, insert_webhook-Insertion}
use vaulthook.Worker.Forward.Accepted.{Accepts, Accepts-delivered}
use vaulthook.Worker.Repository.{queue, is_eligible, before, selected, claimed}
use vaulthook.Worker.Repository.Backlog.{waits, backlog}
use vaulthook.Worker.Run.{Round, run}
use vaulthook.Worker.Run.Drain.{at_round, batch_of_round}
use vaulthook.Worker.Run.Settle.{mem-map, status_or_failed}
use vaulthook.Worker.Run.Settle.OneRound.{attempt, after_attempt, Settled, run-settles}
use vaulthook.System.{Step}
use vaulthook.System.Keys.{IsConsistent}
use vaulthook.System.Unique.{Step-IsConsistent}

-- What is in a list is in it sorted.
module _ (earlier : Webhook → Webhook → Bool) where
  mem-insert_by :
      (a x : Webhook) (ys : List Webhook) → Memᴰ a (x ∷ ys) → Memᴰ a (insert_by earlier x ys)
  unfolding insert_by
  mem-insert_by a x [] m = m
  mem-insert_by a x (y ∷ ys) (Memᴰ.head e) = elim (Bool-cases (earlier y x)) [
    | inl c ↦ rw c (Memᴰ.tail (mem-insert_by a x ys (Memᴰ.head e)))
    | inr c ↦ rw c (Memᴰ.head e)
  ]
  mem-insert_by a x (y ∷ ys) (Memᴰ.tail m) = elim (Bool-cases (earlier y x)) [
    | inr c ↦ rw c (Memᴰ.tail m)
    | inl c ↦ rw c (elim m [
      | Memᴰ.head e ↦ Memᴰ.head e
      | Memᴰ.tail n ↦ Memᴰ.tail (mem-insert_by a x ys (Memᴰ.tail n))
    ])
  ]

  mem-sort_by : (a : Webhook) (xs : List Webhook) → Memᴰ a xs → Memᴰ a (sort_by earlier xs)
  unfolding sort_by
  mem-sort_by a [] m = elim m [ ]
  mem-sort_by a (x ∷ xs) (Memᴰ.head e) = mem-insert_by a x (sort_by earlier xs) (Memᴰ.head e)
  mem-sort_by a (x ∷ xs) (Memᴰ.tail m) =
      mem-insert_by a x (sort_by earlier xs) (Memᴰ.tail (mem-sort_by a xs m))

take-all : (n : ℕ) (ws : List Webhook) → length ws ≤ n → take n ws ≡ ws
take-all zero [] h = refl
take-all zero (w ∷ ws) h = absurd (omega arith)
take-all (suc n) [] h = refl
take-all (suc n) (w ∷ ws) h = ap (λ vs. w ∷ vs) (take-all n ws (omega (arith, h)))

-- A queued event that nobody has locked is claimed if the backlog fits the batch.
queued-selected :
    (r : Round) (db : Db) (w : Webhook)
    → Memᴰ w db.events
    → w.delivery_status ≡ queued
    → r.locked w.id ≡ false
    → backlog db ≤ r.sizes.queue_batch
    → Memᴰ w (selected queue r.sizes r.locked (at_round r db))
unfolding selected is_eligible
queued-selected r db w m q free few =
    let p = λ (v : Webhook). waits v && not (r.locked v.id) in
    let rows = keep p db.events in
    let fits : length (sort_by (before queue) rows) ≤ r.sizes.queue_batch = omega (
      arith,
      length-sort_by (before queue) rows,
      length-keep (λ v. not (r.locked v.id)) (keep waits db.events),
      ap length (keep-keep waits (λ v. not (r.locked v.id)) db.events),
      few,
    ) in
    subst (λ vs. Memᴰ w vs) (sym (take-all r.sizes.queue_batch _ fits))
      (mem-sort_by (before queue) w rows (mem-keep p w db.events m (rw (q, free))))

-- The event of an INSERT is in the table, queued.
Insertion-queued :
    (db db1 : Db) (p : CreateWebhookParams) (w : Webhook)
    → Insertion db p (ok w, db1)
    → Memᴰ w db1.events × (w.delivery_status ≡ queued)
Insertion-queued db _ p _ (made w a b q) = (Memᴰ.head refl, q)

-- The event as a queue worker gets it in the round.
abbrev pub as_claimed : Round → Db → Webhook → Webhook
as_claimed r db w = claimed queue (at_round r db) w

-- The event is delivered: its row in the table says so, and the row went to the live feed.
pub record Delivered (w : Webhook) (r : Round) (db : Db) : Type 0 where
  pub row : Webhook
  pub id : row.id ≡ w.id
  pub status : row.delivery_status ≡ delivered
  pub in_table : Memᴰ row (run queue (r ∷ []) db).db.events
  pub shown : Memᴰ row (run queue (r ∷ []) db).sent

queued-Delivered :
    (r : Round) (db : Db) (w : Webhook)
    → Memᴰ w db.events
    → w.delivery_status ≡ queued
    → r.locked w.id ≡ false
    → backlog db ≤ r.sizes.queue_batch
    → Accepts (r.env (as_claimed r db w)) (as_claimed r db w)
    → Settled queue r db
    → Delivered w r db
queued-Delivered r db w m q free few takes s =
    let v = as_claimed r db w in
    let chosen = queued-selected r db w m q free few in
    let mine : Memᴰ v (batch_of_round queue r db) =
      mem-map (claimed queue (at_round r db)) w _ chosen in
    let row = after_attempt queue r r.now v in
    record {
      row = row;
      id = refl;
      status = ap status_or_failed (Accepts-delivered (r.env v) v takes);
      in_table = All-mem _ v _ s.saved mine;
      shown =
          subst (λ vs. Memᴰ row vs) (sym s.sent) (mem-map (after_attempt queue r r.now) v _ mine);
    }

-- From the INSERT to the delivery: once the receiver's INSERT has returned an event, the next round of
-- a queue worker delivers it if the destination takes it, and the live feed gets the delivered row. The
-- round's database calls have no fault, no one else has locked the event, the queued events fit a
-- batch, and each attempt of the batch gives a status that the enum has. The table's keys are unique,
-- and the driver does not return the code's own conflict error.
pub insert_webhook-Delivered :
    (jsonb : String → Option String) (fault : Option Fault) (new_id : ℕ) (p : CreateWebhookParams)
    (db db1 : Db) (w : Webhook) (r : Round)
    → IsConsistent db
    → fault ≢ some hook_exists
    → insert_webhook jsonb fault new_id p db ≡ (ok w, db1)
    → r.fetch_fault ≡ none
    → r.save_fault ≡ none
    → r.locked w.id ≡ false
    → backlog db1 ≤ r.sizes.queue_batch
    → Accepts (r.env (as_claimed r db1 w)) (as_claimed r db1 w)
    → All (λ v. (attempt r v).delivery_status ≢ none) (batch_of_round queue r db1)
    → Delivered w r db1
insert_webhook-Delivered jsonb fault new_id p db db1 w r c driver inserted fetched saved free few
      takes known =
    let (m, q) =
      Insertion-queued db db1 p w (
        subst (Insertion db p) inserted
          (insert_webhook-Insertion jsonb fault new_id p db driver)) in
    let c1 : IsConsistent db1 =
      subst (λ (x : Result Webhook × Db). IsConsistent x.1) inserted
        (Step-IsConsistent jsonb (Step.receive fault new_id p db) c) in
    queued-Delivered r db1 w m q free few takes (run-settles queue r db1 c1 fetched saved known)
