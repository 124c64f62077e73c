-- ===== src/Worker/Repository/Backlog.antt =====
-- How claims and results change the number of queued events (worker/repository.go).
use vaulthook.Prelude.{
  ℕ, zero, suc, ◌-◌, ◌≡◌, ◌≢◌, ◌≤◌, refl, sym, ap, ◌∙◌, subst, Bool, true, false, Option, none,
  some, List, [], ◌∷◌, map, not, ◌&&◌, ◌==◌, arith, length, take, keep, All, count, keep-ext,
  keep-all, keep-keep, count-map, count-map_le, count-sort_by, length-sort_by, Bool-cases,
  Option-cases, inl, inr, if◌then◌else◌,
}
use vaulthook.Prelude.Sort.{insert_by, sort_by}
use vaulthook.Model.{Fault, Result, ok, err, Result-cases, DeliveryStatus, queued, Webhook}
use vaulthook.Database.{Db, UniqueIds, find_event}
use vaulthook.System.Keys.{UniqueIds-keep}
use vaulthook.Worker.Forward.{UpdateWebhook}
use vaulthook.Worker.Repository.{
  Kind, queue, BatchSizes, is_queued, is_eligible, before, selected, has_id, claim, get_events,
  updated, update_one, prepend, update_all, update_events,
}

abbrev pub waits : Webhook → Bool
waits w = is_queued w.delivery_status

-- The number of events that no worker has claimed yet.
abbrev pub backlog : Db → ℕ
backlog db = count waits db.events

module _ (before : Webhook → Webhook → Bool) where
  All-insert_by :
      (P : Webhook → Type 0) (w : Webhook) (ws : List Webhook)
      → P w
      → All P ws
      → All P (insert_by before w ws)
  unfolding insert_by
  All-insert_by P w [] p h = (p, tt)
  All-insert_by P w (v ∷ vs) p h = elim (Bool-cases (before v w)) [
    | inl e ↦ rw e (h.0, All-insert_by P w vs p h.1)
    | inr e ↦ rw e (p, h)
  ]

  UniqueIds-insert_by :
      (w : Webhook) (ws : List Webhook)
      → All (λ v. v.id ≢ w.id) ws
      → UniqueIds ws
      → UniqueIds (insert_by before w ws)
  unfolding insert_by
  UniqueIds-insert_by w [] h u = (tt, tt)
  UniqueIds-insert_by w (v ∷ vs) h u = elim (Bool-cases (before v w)) [
    | inl e ↦ rw e (
      All-insert_by (λ x. x.id ≢ v.id) w vs (λ p. h.0 (sym p)) u.0,
      UniqueIds-insert_by w vs h.1 u.1,
    )
    | inr e ↦ rw e (h, u)
  ]

  All-sort_by : (P : Webhook → Type 0) (ws : List Webhook) → All P ws → All P (sort_by before ws)
  unfolding sort_by
  All-sort_by P [] h = tt
  All-sort_by P (w ∷ ws) h = All-insert_by P w (sort_by before ws) h.0 (All-sort_by P ws h.1)

  pub UniqueIds-sort_by : (ws : List Webhook) → UniqueIds ws → UniqueIds (sort_by before ws)
  unfolding sort_by
  UniqueIds-sort_by [] u = tt
  UniqueIds-sort_by (w ∷ ws) u =
      UniqueIds-insert_by w (sort_by before ws) (All-sort_by (λ v. v.id ≢ w.id) ws u.0)
        (UniqueIds-sort_by ws u.1)

All-pointwise :
    (P Q : Webhook → Type 0) (ws : List Webhook) → ((w : Webhook) → P w → Q w) → All P ws → All Q ws
All-pointwise P Q [] f h = tt
All-pointwise P Q (w ∷ ws) f h = (f w h.0, All-pointwise P Q ws f h.1)

-- Of a list without a repeated id, those outside the first n are all but n.
count-outside :
    (n : ℕ) (ws : List Webhook)
    → UniqueIds ws
    → count (λ w. not (has_id w.id (take n ws))) ws ≡ length ws - n
count-outside zero ws u = ap length (keep-all _ ws (all_outside ws)) ∙ omega arith
  where
    all_outside : (ws : List Webhook) → All (λ w. not (has_id w.id []) ≡ true) ws
    all_outside [] = tt
    all_outside (w ∷ ws) = (refl, all_outside ws)
count-outside (suc n) [] u = omega arith
count-outside (suc n) (x ∷ xs) u =
    let same : (x.id == x.id) ≡ true = ground arith in
    let rest =
      keep-ext (λ w. not (has_id w.id (x ∷ take n xs))) (λ w. not (has_id w.id (take n xs))) xs
        (All-pointwise (λ w. w.id ≢ x.id) _ xs (λ w ne. ground (arith, ne)) u.0) in
    rw (same, rest) (omega (arith, count-outside n xs u.1))

-- Among the rows that meet the WHERE clause, the LIMIT leaves all but as many as a batch has.
count-waits-claim :
    (sizes : BatchSizes) (locked : ℕ → Bool) (db : Db)
    → UniqueIds db.events
    → ((i : ℕ) → locked i ≡ false)
    → count waits (map (claim queue db (selected queue sizes locked db)) db.events)
      ≡ backlog db - sizes.queue_batch
unfolding selected is_eligible
count-waits-claim sizes locked db u free =
    let rows = selected queue sizes locked db in
    let waiting = keep waits db.events in
    let sorted = sort_by (before queue) waiting in
    let fresh = λ (w : Webhook). not (has_id w.id (take sizes.queue_batch sorted)) in
    let found : keep (λ w. waits w && not (locked w.id)) db.events ≡ waiting =
      keep-ext (λ w. waits w && not (locked w.id)) waits db.events
        (pointwise db.events λ w. ground (arith, free w.id)) in
    let chosen : rows ≡ take sizes.queue_batch sorted =
      ap (λ l. take sizes.queue_batch (sort_by (before queue) l)) found in
    let left : keep (λ w. waits (claim queue db rows w)) db.events
        ≡ keep (λ w. waits w && fresh w) db.events =
      keep-ext _ _ db.events (pointwise db.events λ w. rw chosen (ground arith)) in
    count-map waits (claim queue db rows) db.events
    ∙ ap length left
    ∙ ap length (keep-keep waits fresh db.events)
    ∙ sym (count-sort_by fresh (before queue) waiting)
    ∙ count-outside sizes.queue_batch sorted
        (UniqueIds-sort_by (before queue) waiting (UniqueIds-keep waits db.events u))
    ∙ ap (λ n. n - sizes.queue_batch) (length-sort_by (before queue) waiting)
  where
    pointwise : {P : Webhook → Type 0} (ws : List Webhook) → ((w : Webhook) → P w) → All P ws
    pointwise [] h = tt
    pointwise (w ∷ ws) h = (h w, pointwise ws h)

-- A claim of the queue with no other worker on the table takes a whole batch off the backlog.
pub backlog-get_events :
    (sizes : BatchSizes) (locked : ℕ → Bool) (db : Db)
    → UniqueIds db.events
    → ((i : ℕ) → locked i ≡ false)
    → backlog (get_events queue sizes locked none db).1 ≡ backlog db - sizes.queue_batch
unfolding get_events
backlog-get_events sizes locked db u free = count-waits-claim sizes locked db u free

-- An update that does not queue its event again.
abbrev pub Finishes : UpdateWebhook → Type 0
Finishes u = u.delivery_status ≢ some queued

abbrev LessQueued : Db → Result (Option Webhook × Db) → Type 0
LessQueued db (ok (row, db')) = backlog db' ≤ backlog db
LessQueued db (err e) = Unit

abbrev AllLessQueued : Db → Result (List (Option Webhook) × Db) → Type 0
AllLessQueued db (ok (rows, db')) = backlog db' ≤ backlog db
AllLessQueued db (err e) = Unit

is_queued_only : (status : DeliveryStatus) → is_queued status ≡ true → status ≡ queued
is_queued_only status h = ground arith

backlog-update_one :
    (kind : Kind) (u : UpdateWebhook) (db : Db) → Finishes u → LessQueued db (update_one kind u db)
unfolding update_one
backlog-update_one kind u db f = elim (Option-cases u.delivery_status) [
  | inl bad ↦ rw (bad, update_one) tt
  | inr (status, good) ↦ elim (Option-cases (find_event u.id db.events)) [
    | inl gone ↦ rw (good, gone, update_one) (omega arith)
    | inr (w, found) ↦
        rw (good, found, update_one)
          (count-map_le waits (λ v. if v.id == u.id then updated kind db.now status u v else v)
            (λ v. set_waits status (λ e. f (good ∙ ap some e)) v) db.events)
  ]
]
  where
    set_waits :
        (status : DeliveryStatus)
        → status ≢ queued
        → (v : Webhook) → waits (if v.id == u.id then updated kind db.now status u v else v) ≡ true
        → waits v ≡ true
    set_waits status ne v h = elim (Bool-cases (v.id == u.id)) [
      | inl e ↦ absurd (ne (is_queued_only status (rw e at h)))
      | inr e ↦ rw e at h
    ]

prepend-AllLessQueued :
    (w : Option Webhook) (db db' : Db) (r : Result (List (Option Webhook) × Db))
    → backlog db' ≤ backlog db
    → AllLessQueued db' r
    → AllLessQueued db (prepend w r)
prepend-AllLessQueued w db db' (ok (rows, db'')) h k = omega arith
prepend-AllLessQueued w db db' (err e) h k = tt

backlog-update_all :
    (kind : Kind) (us : List UpdateWebhook) (db : Db)
    → All Finishes us
    → AllLessQueued db (update_all kind us db)
unfolding update_all
backlog-update_all kind [] db f = omega arith
backlog-update_all kind (u ∷ us) db f = elim (Result-cases (update_one kind u db)) [
  | inl (e, bad) ↦ rw (bad, update_all) tt
  | inr ((w, db'), good) ↦
      let less = subst (LessQueued db) good (backlog-update_one kind u db f.0) in
      rw (good, update_all)
        (prepend-AllLessQueued w db db' _ less (backlog-update_all kind us db' f.1))
]

-- Updates that queue nothing again leave the backlog no larger, whether they are saved or not.
pub backlog-update_events :
    (kind : Kind) (us : List UpdateWebhook) (fault : Option Fault) (db : Db)
    → All Finishes us
    → backlog (update_events kind us fault db).1 ≤ backlog db
unfolding update_events
backlog-update_events kind [] fault db f = omega arith
backlog-update_events kind (u ∷ us) (some e) db f = omega arith
backlog-update_events kind (u ∷ us) none db f = elim (Result-cases (update_all kind (u ∷ us) db)) [
  | inl (e, bad) ↦ rw (bad, update_events) (omega arith)
  | inr ((rows, db'), good) ↦
      rw (good, update_events)
        (subst (AllLessQueued db) good (backlog-update_all kind (u ∷ us) db f))
]
