-- ===== src/Worker/Repository.antt =====
-- worker/repository.go: `GetEvents` and `UpdateEvents` of the three kinds of workers. A statement changes the whole table at once, as its transaction does; the rows that
-- other transactions hold are the argument `locked` (SKIP LOCKED).
pub mod Claims
pub mod Backlog
use vaulthook.Prelude.{
  ℕ, ◌+◌, Bool, true, false, Option, none, some, List, [], ◌∷◌, map, not, ltb, leb, ◌==◌, ◌&&◌,
  ◌||◌, take, keep, any, sort_by, if◌then◌else◌,
}
use vaulthook.Model.{
  Fault, Result, ok, err, pg_error, no_rows, DeliveryStatus, queued, processing, retrying, failed,
  replaying, Provider, Webhook,
}
use vaulthook.Database.{Db, find_event, find_provider}
use vaulthook.Worker.Forward.{UpdateWebhook}

pub data Kind : Type 0 where
  queue retry replay : Kind

-- `QueueWorkerBatch` and `RetryWorkerBatch`, which app.go assigns, and `ReplayWorkerBatch`.
pub record BatchSizes : Type 0 where
  pub queue_batch : ℕ
  pub retry_batch : ℕ

abbrev pub batch_limit : BatchSizes → Kind → ℕ
batch_limit b queue = b.queue_batch
batch_limit b retry = b.retry_batch
batch_limit b replay = 1

abbrev pub minute : ℕ
minute = 60000000000

abbrev pub is_queued : DeliveryStatus → Bool
is_queued queued = true
is_queued _ = false

abbrev pub is_failed : DeliveryStatus → Bool
is_failed failed = true
is_failed _ = false

abbrev pub is_replaying : DeliveryStatus → Bool
is_replaying replaying = true
is_replaying _ = false

-- processing, queued or replaying
abbrev pub is_unfinished : DeliveryStatus → Bool
is_unfinished processing = true
is_unfinished queued = true
is_unfinished replaying = true
is_unfinished _ = false

-- `next_retry_at <= NOW()`, which NULL does not satisfy
abbrev pub is_due : ℕ → Option ℕ → Bool
is_due now none = false
is_due now (some t) = leb t now

-- `retry_count < (SELECT max_retries …)`, where no provider gives NULL
abbrev pub has_retries_left : ℕ → Option Provider → Bool
has_retries_left n none = false
has_retries_left n (some p) = ltb n p.max_retries

-- The WHERE clauses of the three inner SELECTs.
unfoldable pub is_eligible : Kind → Db → Webhook → Bool
is_eligible queue db w = is_queued w.delivery_status
is_eligible retry db w =
    (is_failed w.delivery_status
      && is_due db.now w.next_retry_at
      && has_retries_left w.retry_count (find_provider w.provider_id db.providers))
    || (is_unfinished w.delivery_status && ltb (w.updated_at + minute) db.now)
is_eligible replay db w = is_replaying w.delivery_status

-- The ORDER BY clauses: by time and then by id; NULL comes last.
abbrev pub before_time : ℕ → ℕ → ℕ → ℕ → Bool
before_time s i t j = ltb s t || (s == t && leb i j)

abbrev pub before_retry : Option ℕ → ℕ → Option ℕ → ℕ → Bool
before_retry none i none j = leb i j
before_retry none i (some t) j = false
before_retry (some s) i none j = true
before_retry (some s) i (some t) j = before_time s i t j

unfoldable pub before : Kind → Webhook → Webhook → Bool
before queue v w = before_time v.received_at v.id w.received_at w.id
before retry v w = before_retry v.next_retry_at v.id w.next_retry_at w.id
before replay v w = before_time v.received_at v.id w.received_at w.id

-- The status that the outer UPDATE sets.
abbrev pub claim_status : Kind → DeliveryStatus
claim_status queue = processing
claim_status retry = retrying
claim_status replay = replaying

-- The rows of the inner SELECT.
unfoldable pub selected : Kind → BatchSizes → (ℕ → Bool) → Db → List Webhook
unfolding is_eligible before
selected kind sizes locked db =
    take (batch_limit sizes kind)
      (sort_by (before kind) (keep (λ w. is_eligible kind db w && not (locked w.id)) db.events))

abbrev pub has_id : ℕ → List Webhook → Bool
has_id i ws = any (λ v. v.id == i) ws

-- The row with its new status; the table's trigger sets updated_at.
abbrev pub claimed : Kind → Db → Webhook → Webhook
claimed kind db w = record w { delivery_status = claim_status kind; updated_at = db.now }

-- The outer UPDATE on one row, for the rows that the inner SELECT gave.
abbrev pub claim : Kind → Db → List Webhook → Webhook → Webhook
claim kind db rows w = if has_id w.id rows then claimed kind db w else w

-- `GetEvents`: a failure of the transaction leaves the table as it was. The rows that RETURNING
-- gives are the selected ones as they are after the update.
unfoldable pub get_events :
    Kind → BatchSizes → (ℕ → Bool) → Option Fault → Db → Result (List Webhook) × Db
unfolding selected
get_events kind sizes locked (some e) db = (err e, db)
get_events kind sizes locked none db =
    let rows = selected kind sizes locked db in
    (ok (map (claimed kind db) rows), record db { events = map (claim kind db rows) db.events })

-- `retry_count + 1` for the retry worker alone.
abbrev pub next_count : Kind → ℕ → ℕ
next_count retry n = n + 1
next_count _ n = n

-- The SET list of `UpdateEvents` with a status that the enum has. forwarded_to is NOT NULL, and the
-- pointer is never nil.
abbrev pub updated : Kind → ℕ → DeliveryStatus → UpdateWebhook → Webhook → Webhook
updated kind now status u w = record w {
  next_retry_at = u.next_retry_at;
  delivery_status = status;
  response_code = u.response_code;
  last_error = u.last_error;
  forwarded_to = elim u.forwarded_to [ none ↦ w.forwarded_to | some t ↦ t ];
  retry_count = next_count kind w.retry_count;
  updated_at = now;
}

-- One UPDATE … WHERE id = $6 RETURNING *: the row that it returns, if there is one. The empty status
-- is no value of the enum, which is an error of the database.
unfoldable pub update_one : Kind → UpdateWebhook → Db → Result (Option Webhook × Db)
unfolding find_event
update_one kind u db = elim u.delivery_status [
  | none ↦ err (pg_error "invalid input value for enum delivery_status")
  | some status ↦ elim (find_event u.id db.events) [
    | none ↦ ok (none, db)
    | some w ↦
        let set = λ (v : Webhook). if v.id == u.id then updated kind db.now status u v else v in
        ok (some (updated kind db.now status u w), record db { events = map set db.events })
  ]
]

abbrev pub prepend :
    Option Webhook → Result (List (Option Webhook) × Db) → Result (List (Option Webhook) × Db)
prepend w (ok (ws, db)) = ok (w ∷ ws, db)
prepend w (err e) = err e

-- The queries of the batch in order. They are one implicit transaction: an error of the database
-- undoes them all.
unfoldable pub update_all : Kind → List UpdateWebhook → Db → Result (List (Option Webhook) × Db)
unfolding update_one
update_all kind [] db = ok ([], db)
update_all kind (u ∷ us) db = elim (update_one kind u db) [
  | err e ↦ err e
  | ok (w, db') ↦ prepend w (update_all kind us db')
]

-- The loop of `Scan`: it stops at the first query that returned no row.
unfoldable pub scan_all : List (Option Webhook) → List Webhook × Option Fault
scan_all [] = ([], none)
scan_all (none ∷ rows) = ([], some no_rows)
scan_all (some w ∷ rows) = let (ws, fault) = scan_all rows in (w ∷ ws, fault)

-- `UpdateEvents`: the rows that were read, the error, and the table. A fault of the connection leaves
-- the table as it was.
unfoldable pub update_events :
    Kind → List UpdateWebhook → Option Fault → Db → (List Webhook × Option Fault) × Db
unfolding update_all scan_all
update_events kind [] fault db = (([], none), db)
update_events kind (u ∷ us) (some e) db = (([], some e), db)
update_events kind (u ∷ us) none db = elim (update_all kind (u ∷ us) db) [
  | err e ↦ (([], some e), db)
  | ok (rows, db') ↦ (scan_all rows, db')
]
