-- ===== src/Worker/Run/Settle/Outcomes.antt =====
-- The columns that a round writes of each event that it claimed (worker/service.go, run).
use vaulthook.Prelude.{
  ℕ, ◌+◌, ◌≡◌, ◌≢◌, refl, sym, subst, Option, none, some, String, List, [], ◌∷◌, map, All, Memᴰ,
  Rows,
}
use vaulthook.Model.{DeliveryStatus, Webhook}
use vaulthook.Database.{Db}
use vaulthook.Worker.Forward.{UpdateWebhook}
use vaulthook.Worker.Repository.{Kind, queue, retry, replay, next_count}
use vaulthook.Worker.Run.{Round, run}
use vaulthook.Worker.Run.Drain.{batch_of_round}
use vaulthook.Worker.Run.Settle.{status_or_failed}
use vaulthook.Worker.Run.Settle.OneRound.{attempt, after_attempt, run-settles}
use vaulthook.System.Keys.{IsConsistent}

-- The tries of an event after a round of a worker; only a retry counts as one.
abbrev pub tries_after : Kind → ℕ → ℕ
tries_after retry n = n + 1
tries_after queue n = n
tries_after replay n = n

-- COALESCE: without a new destination the row keeps its own.
abbrev pub or_else : Option String → String → String
or_else none d = d
or_else (some t) d = t

-- A row after a round, against the claimed row and the update of its attempt, column by column.
pub record HasOutcome (kind : Kind) (now : ℕ) (u : UpdateWebhook) (w w' : Webhook) : Type 0 where
  pub delivery_status : u.delivery_status ≡ some w'.delivery_status
  pub response_code : w'.response_code ≡ u.response_code
  pub next_retry_at : w'.next_retry_at ≡ u.next_retry_at
  pub last_error : w'.last_error ≡ u.last_error
  pub forwarded_to : w'.forwarded_to ≡ or_else u.forwarded_to w.forwarded_to
  pub retry_count : w'.retry_count ≡ tries_after kind w.retry_count
  pub updated_at : w'.updated_at ≡ now
  pub id : w'.id ≡ w.id
  pub provider_id : w'.provider_id ≡ w.provider_id
  pub provider : w'.provider ≡ w.provider
  pub event_id : w'.event_id ≡ w.event_id
  pub event_type : w'.event_type ≡ w.event_type
  pub headers : w'.headers ≡ w.headers
  pub payload : w'.payload ≡ w.payload
  pub received_at : w'.received_at ≡ w.received_at
  pub created_at : w'.created_at ≡ w.created_at

next_count_lem : (kind : Kind) (n : ℕ) → next_count kind n ≡ tries_after kind n
next_count_lem queue n = refl
next_count_lem retry n = refl
next_count_lem replay n = refl

status_lem : (o : Option DeliveryStatus) → o ≢ none → o ≡ some (status_or_failed o)
status_lem none h = absurd (h refl)
status_lem (some s) h = refl

target_lem : (o : Option String) (d : String) → elim o [ none ↦ d | some t ↦ t ] ≡ or_else o d
target_lem none d = refl
target_lem (some t) d = refl

after_attempt-HasOutcome :
    (kind : Kind) (r : Round) (w : Webhook)
    → (attempt r w).delivery_status ≢ none
    → HasOutcome kind r.now (attempt r w) w (after_attempt kind r r.now w)
after_attempt-HasOutcome kind r w known = record {
  delivery_status = status_lem (attempt r w).delivery_status known;
  response_code = refl;
  next_retry_at = refl;
  last_error = refl;
  forwarded_to = target_lem (attempt r w).forwarded_to w.forwarded_to;
  retry_count = next_count_lem kind w.retry_count;
  updated_at = refl;
  id = refl;
  provider_id = refl;
  provider = refl;
  event_id = refl;
  event_type = refl;
  headers = refl;
  payload = refl;
  received_at = refl;
  created_at = refl;
}

all-HasOutcome :
    (kind : Kind) (r : Round) (ws : List Webhook)
    → All (λ w. (attempt r w).delivery_status ≢ none) ws
    → Rows
        (λ w w'. HasOutcome kind r.now (attempt r w) w w')
        ws
        (map (after_attempt kind r r.now) ws)
all-HasOutcome kind r [] h = tt
all-HasOutcome kind r (w ∷ ws) h =
    (after_attempt-HasOutcome kind r w h.0, all-HasOutcome kind r ws h.1)

All-under :
    (f : Webhook → Webhook) (P : Webhook → Type 0) (ws : List Webhook)
    → All (λ w. P (f w)) ws
    → All P (map f ws)
All-under f P [] h = tt
All-under f P (w ∷ ws) h = (h.0, All-under f P ws h.1)

-- The rows that a round sends to the feed, in the order of the batch, and where they are.
pub record Outcomes (kind : Kind) (r : Round) (db : Db) : Type 0 where
  pub sent :
      Rows
        (λ w w'. HasOutcome kind r.now (attempt r w) w w')
        (batch_of_round kind r db)
        (run kind (r ∷ []) db).sent
  pub saved : All (λ w. Memᴰ w (run kind (r ∷ []) db).db.events) (run kind (r ∷ []) db).sent

-- When neither database call of a round has a fault and every attempt gives a status that the enum
-- has, each claimed event gets the outcome of its attempt: the rows that the round sends to the feed
-- are the claimed rows, in their order, each with the status, the response code, the error, the next
-- retry and the destination of its attempt, with one more try if a retry worker made it, and with the
-- other columns as they were; and each of these rows is in the table afterwards. The table's keys are
-- unique at the beginning.
pub run-Outcomes :
    (kind : Kind) (r : Round) (db : Db)
    → IsConsistent db
    → r.fetch_fault ≡ none
    → r.save_fault ≡ none
    → All (λ w. (attempt r w).delivery_status ≢ none) (batch_of_round kind r db)
    → Outcomes kind r db
run-Outcomes kind r db c fetched saved known =
    let s = run-settles kind r db c fetched saved known in
    let hooks = batch_of_round kind r db in
    let table = (run kind (r ∷ []) db).db.events in
    record {
      sent =
          subst (Rows (λ w w'. HasOutcome kind r.now (attempt r w) w w') hooks) (sym s.sent)
            (all-HasOutcome kind r hooks known);
      saved =
          subst (All (λ w. Memᴰ w table)) (sym s.sent)
            (All-under (after_attempt kind r r.now) (λ w. Memᴰ w table) hooks s.saved);
    }
