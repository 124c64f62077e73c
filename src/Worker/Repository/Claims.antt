-- ===== src/Worker/Repository/Claims.antt =====
-- What a claim of `GetEvents` takes, and what it leaves (worker/repository.go).
use mathlib.Core.List.{Memᴰ}
use vaulthook.Prelude.{
  ℕ, ◌+◌, ◌≤◌, ◌<◌, ◌≡◌, ◌≢◌, ◌∙◌, ◌||◌, false≢true, ◌⊎◌, inl, inr, refl, subst, Bool, true, false,
  Option, none, some, List, arith, not, ◌==◌, ==_iff, ◌&&◌, ltb, length, take, keep, Rows, Rows-map,
  Rows-refl, sort_by, length-take, length-map, sort_by-mem, keep-mem, take-mem, any-mem, Bool-cases,
}
use vaulthook.Model.{
  Fault, Result, ok, DeliveryStatus, queued, processing, delivered, retrying, failed, replaying,
  Provider, Webhook,
}
use vaulthook.Database.{Db, UniqueIds, UniqueIds-eq, find_provider}
use vaulthook.Worker.Repository.{
  Kind, queue, retry, replay, is_queued, is_failed, is_replaying, is_unfinished, minute, BatchSizes,
  batch_limit, is_due, has_retries_left, is_eligible, before, selected, has_id, claimed, claim,
  get_events,
}

and_true : (a b : Bool) → (a && b) ≡ true → (a ≡ true) × (b ≡ true)
and_true a b h = ground arith

not-true : (a : Bool) → not a ≡ true → a ≡ false
not-true a h = ground arith

-- A selected row is in the table, meets the WHERE clause and is not locked.
pub selected-mem :
    (kind : Kind) (sizes : BatchSizes) (locked : ℕ → Bool) (db : Db) (w : Webhook)
    → Memᴰ w (selected kind sizes locked db)
    → Memᴰ w db.events × (is_eligible kind db w ≡ true) × (locked w.id ≡ false)
unfolding selected
selected-mem kind sizes locked db w m =
    let p = λ (v : Webhook). is_eligible kind db v && not (locked v.id) in
    let (row, passed) =
      keep-mem p w db.events (sort_by-mem (before kind) w (keep p db.events) (take-mem _ w _ m)) in
    let (eligible, free) = and_true _ _ passed in (row, eligible, not-true _ free)

-- A row before and after a claim: it is as it was, or it met the kind's WHERE clause, was not locked,
-- and has the kind's status now.
abbrev pub ClaimStep : Kind → (ℕ → Bool) → Db → Webhook → Webhook → Type 0
ClaimStep kind locked db w w' =
    (w' ≡ w) ⊎ ((is_eligible kind db w ≡ true) × (locked w.id ≡ false) × (w' ≡ claimed kind db w))

pub claim-ClaimStep :
    (kind : Kind) (sizes : BatchSizes) (locked : ℕ → Bool) (db : Db) (w : Webhook)
    → UniqueIds db.events
    → Memᴰ w db.events
    → ClaimStep kind locked db w (claim kind db (selected kind sizes locked db) w)
claim-ClaimStep kind sizes locked db w u m =
    elim (Bool-cases (has_id w.id (selected kind sizes locked db))) [
      | inr e ↦ inl (rw e)
      | inl e ↦
          let (v, n, same) = any-mem (λ (v : Webhook). v.id == w.id) _ e in
          let (row, eligible, free) = selected-mem kind sizes locked db v n in
          let v-eq = UniqueIds-eq v w db.events u row m ((==_iff _ _).0 same) in
          inr (
            subst (λ x. is_eligible kind db x ≡ true) v-eq eligible,
            subst (λ x. locked x.id ≡ false) v-eq free,
            rw e,
          )
    ]

-- What a worker of each kind may take up: a queued event; one to replay; or an event that failed, is
-- due and has retries left, or that has been queued, in process or to replay for more than a minute.
abbrev pub MayClaim : Kind → Db → Webhook → Type 0
MayClaim queue db w = w.delivery_status ≡ queued
MayClaim replay db w = w.delivery_status ≡ replaying
MayClaim retry db w =
    ((w.delivery_status ≡ failed)
      × ((t : ℕ) × (w.next_retry_at ≡ some t) × (t ≤ db.now))
      × ((p : Provider) × (find_provider w.provider_id db.providers ≡ some p)
          × (w.retry_count < p.max_retries)))
    ⊎ ((w.delivery_status ≢ delivered)
        × (w.delivery_status ≢ retrying)
        × (w.delivery_status ≢ failed)
        × (w.updated_at + 60000000000 < db.now))

-- The status of an event that a worker holds.
abbrev pub held_status : Kind → DeliveryStatus
held_status queue = processing
held_status retry = retrying
held_status replay = replaying

-- A row before and after a claim: it is as it was, or it was taken up, and all columns but the status
-- and the update time are as they were.
abbrev pub TakenUp : Kind → (ℕ → Bool) → Db → Webhook → Webhook → Type 0
TakenUp kind locked db w w' =
    (w' ≡ w)
    ⊎ (MayClaim kind db w
        × (locked w.id ≡ false)
        × (w' ≡ record w { delivery_status = held_status kind; updated_at = db.now }))

is_queued-eq : (s : DeliveryStatus) → is_queued s ≡ true → s ≡ queued
is_queued-eq s h = ground arith

is_replaying-eq : (s : DeliveryStatus) → is_replaying s ≡ true → s ≡ replaying
is_replaying-eq s h = ground arith

is_failed-eq : (s : DeliveryStatus) → is_failed s ≡ true → s ≡ failed
is_failed-eq s h = ground arith

is_unfinished-ne :
    (s : DeliveryStatus) → is_unfinished s ≡ true → (s ≢ delivered) × (s ≢ retrying) × (s ≢ failed)
is_unfinished-ne s h = (λ e. ground arith, λ e. ground arith, λ e. ground arith)

is_due-some : (now : ℕ) (o : Option ℕ) → is_due now o ≡ true → (t : ℕ) × (o ≡ some t) × (t ≤ now)
is_due-some now none h = absurd (false≢true h)
is_due-some now (some t) h = (t, refl, ground arith)

has_retries_left-some :
    (n : ℕ) (o : Option Provider)
    → has_retries_left n o ≡ true
    → (p : Provider) × (o ≡ some p) × (n < p.max_retries)
has_retries_left-some n none h = absurd (false≢true h)
has_retries_left-some n (some p) h = (p, refl, ground arith)

or_true : (a b : Bool) → (a || b) ≡ true → (a ≡ true) ⊎ (b ≡ true)
or_true true b h = inl refl
or_true false b h = inr h

is_eligible-MayClaim :
    (kind : Kind) (db : Db) (w : Webhook) → is_eligible kind db w ≡ true → MayClaim kind db w
unfolding is_eligible
is_eligible-MayClaim queue db w h = is_queued-eq w.delivery_status h
is_eligible-MayClaim replay db w h = is_replaying-eq w.delivery_status h
is_eligible-MayClaim retry db w h =
    let s = w.delivery_status in
    let left_over = has_retries_left w.retry_count (find_provider w.provider_id db.providers) in
    let ready = is_failed s && is_due db.now w.next_retry_at && left_over in
    let stuck = is_unfinished s && ltb (w.updated_at + minute) db.now in
    elim (or_true ready stuck h) [
      | inl due ↦
          let (early, left) =
            and_true (is_failed s && is_due db.now w.next_retry_at) left_over due in
          let (failed_now, due_now) =
            and_true (is_failed s) (is_due db.now w.next_retry_at) early in
          inl (
            is_failed-eq w.delivery_status failed_now,
            is_due-some db.now w.next_retry_at due_now,
            has_retries_left-some w.retry_count _ left,
          )
      | inr stale ↦
          let (unfinished, old) =
            and_true (is_unfinished s) (ltb (w.updated_at + minute) db.now) stale in
          let (a, b, c) = is_unfinished-ne w.delivery_status unfinished in
          inr (a, b, c, ground (arith, old))
    ]

held :
    (kind : Kind) (db : Db) (w : Webhook)
    → claimed kind db w ≡ record w { delivery_status = held_status kind; updated_at = db.now }
held queue db w = refl
held retry db w = refl
held replay db w = refl

ClaimStep-TakenUp :
    (kind : Kind) (locked : ℕ → Bool) (db : Db) (w w' : Webhook)
    → ClaimStep kind locked db w w'
    → TakenUp kind locked db w w'
ClaimStep-TakenUp kind locked db w w' (inl same) = inl same
ClaimStep-TakenUp kind locked db w w' (inr (eligible, free, e)) =
    inr (is_eligible-MayClaim kind db w eligible, free, e ∙ held kind db w)

get_events-Rows :
    (kind : Kind) (sizes : BatchSizes) (locked : ℕ → Bool) (fault : Option Fault) (db : Db)
    → UniqueIds db.events
    → Rows (TakenUp kind locked db) db.events (get_events kind sizes locked fault db).1.events
unfolding get_events
get_events-Rows kind sizes locked (some e) db u = Rows-refl _ db.events (λ w. inl refl)
get_events-Rows kind sizes locked none db u =
    Rows-map _ (claim kind db (selected kind sizes locked db)) db.events
      (λ w m. ClaimStep-TakenUp kind locked db w _ (claim-ClaimStep kind sizes locked db w u m))

abbrev pub batch_length : Result (List Webhook) → ℕ
batch_length (ok ws) = length ws
batch_length _ = 0

-- A batch never has more events than the kind's batch size.
pub get_events-batch_limit :
    (kind : Kind) (sizes : BatchSizes) (locked : ℕ → Bool) (fault : Option Fault) (db : Db)
    → batch_length (get_events kind sizes locked fault db).0 ≤ batch_limit sizes kind
unfolding get_events selected
get_events-batch_limit kind sizes locked (some e) db = omega arith
get_events-batch_limit kind sizes locked none db =
    let p = λ (v : Webhook). is_eligible kind db v && not (locked v.id) in
    let sorted = sort_by (before kind) (keep p db.events) in
    omega (
      arith,
      length-map (claimed kind db) (take (batch_limit sizes kind) sorted),
      length-take (batch_limit sizes kind) sorted,
    )

-- With unique ids, a claim of any kind changes a row of the table only if no other transaction held
-- it and the kind may take it up: a queue worker a queued event, the replay worker one to replay, and
-- a retry worker one that failed, is due and has retries left, or one that has been queued, in process
-- or to replay for more than a minute. Of a changed row only the status, to the kind's own, and the
-- update time change. The batch that the claim returns is never longer than the kind's batch size.
pub get_events-TakenUp :
    (kind : Kind) (sizes : BatchSizes) (locked : ℕ → Bool) (fault : Option Fault) (db : Db)
    → UniqueIds db.events
    → Rows (TakenUp kind locked db) db.events (get_events kind sizes locked fault db).1.events
      × (batch_length (get_events kind sizes locked fault db).0 ≤ batch_limit sizes kind)
get_events-TakenUp kind sizes locked fault db u = (
  get_events-Rows kind sizes locked fault db u,
  get_events-batch_limit kind sizes locked fault db,
)

-- An event that was delivered, one that failed with no retry to come or with its retries used up, and
-- one that a retry worker holds.
abbrev pub has_settled : Db → Webhook → Bool
has_settled db w = settled_status w.delivery_status
  where
    settled_status : DeliveryStatus → Bool
    settled_status delivered = true
    settled_status retrying = true
    settled_status failed = not (
        is_due db.now w.next_retry_at
        && has_retries_left w.retry_count (find_provider w.provider_id db.providers))
    settled_status _ = false

-- No claim of any kind takes up an event that was delivered, that failed and is not due or has no
-- retries left, or that a retry worker has claimed.
pub has_settled-not_eligible :
    (kind : Kind) (db : Db) (w : Webhook) → has_settled db w ≡ true → is_eligible kind db w ≡ false
unfolding is_eligible
has_settled-not_eligible queue db w h = ground arith
has_settled-not_eligible retry db w h = ground arith
has_settled-not_eligible replay db w h = ground arith
