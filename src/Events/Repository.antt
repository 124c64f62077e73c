-- ===== src/Events/Repository.antt =====
-- events/repository.go: the statements that insert, replay, look for and count events. JSONB columns
-- hold a document as PostgreSQL prints it back, which the parameter `jsonb` gives; `none` is its
-- refusal of a text that is no JSON. The searches are in Search.
pub mod Insertion
use vaulthook.Prelude.{
  ℕ, ◌+◌, ◌-◌, ◌<◌, String, Bool, true, false, Option, none, some, List, [], ◌∷◌, map, ltb, leb,
  ◌==◌, ◌&&◌, ◌||◌, length, take, keep, any, sort_by, if◌then◌else◌,
}
use vaulthook.Model.{
  Fault, Result, ok, err, pg_error, hook_exists, DeliveryStatus, queued, processing, delivered,
  retrying, failed, replaying, Provider, Webhook, CreateWebhookParams,
}
use vaulthook.Database.{Db, same_event, same_event_id, find_provider}

-- The row that INSERT makes, with the columns' defaults.
abbrev pub inserted : ℕ → ℕ → CreateWebhookParams → String → String → Webhook
inserted new_id now p headers payload = record {
  id = new_id;
  provider_id = p.provider_id;
  provider = p.provider;
  event_id = p.event_id;
  event_type = p.event_type;
  headers = headers;
  payload = payload;
  delivery_status = queued;
  forwarded_to = p.forwarded_to;
  response_code = none;
  retry_count = 0;
  next_retry_at = none;
  last_error = none;
  received_at = p.received_at;
  updated_at = now;
  created_at = now;
}

-- ON CONFLICT (provider_id, event_id) DO NOTHING, the primary key and the foreign key.
unfoldable pub insert_row : Webhook → Db → Result Webhook × Db
unfolding find_provider
insert_row w db = elim (find_provider w.provider_id db.providers) [
  | none ↦ (err (pg_error "foreign key violation"), db)
  | some _ ↦
      if any (λ v. same_event w v) db.events
      then (err hook_exists, db)
      else if any (λ v. v.id == w.id) db.events
      then (err (pg_error "duplicate key value"), db)
      else (ok w, record db { events = w ∷ db.events })
]

module _ (jsonb : String → Option String) where
  -- `InsertWebhook`: the id is gen_random_uuid()'s; a fault of the connection changes nothing.
  unfoldable pub insert_webhook : Option Fault → ℕ → CreateWebhookParams → Db → Result Webhook × Db
  unfolding insert_row
  insert_webhook (some e) new_id p db = (err e, db)
  insert_webhook none new_id p db = elim (jsonb p.headers) [
    | none ↦ (err (pg_error "invalid input syntax for type json"), db)
    | some headers ↦ elim (jsonb p.payload) [
      | none ↦ (err (pg_error "invalid input syntax for type json"), db)
      | some payload ↦ insert_row (inserted new_id db.now p headers payload) db
    ]
  ]

-- `replayEvent`: the row of the id, whatever its status, is to be replayed.
abbrev pub replayed : ℕ → ℕ → Webhook → Webhook
replayed now i w =
    if w.id == i then record w { delivery_status = replaying; updated_at = now } else w

unfoldable pub replay_event : Option Fault → ℕ → Db → Result (Unit {0}) × Db
replay_event (some e) i db = (err e, db)
replay_event none i db = (ok tt, record db { events = map (replayed db.now i) db.events })

-- `Exists`
unfoldable pub exists_event : Option Fault → ℕ → String → Db → Result Bool
exists_event (some e) prov_id ev_id db = err e
exists_event none prov_id ev_id db =
    ok (any (λ v. v.provider_id == prov_id && same_event_id (some ev_id) v.event_id) db.events)

-- ORDER BY created_at DESC; PostgreSQL leaves the order of equal times open, here it is the table's.
abbrev pub newest_first : Webhook → Webhook → Bool
newest_first v w = leb w.created_at v.created_at

-- `getAll`: the newest 25 events, or the newest 5 before a cursor.
unfoldable pub get_all : Option Fault → Option ℕ → Db → Result (List Webhook)
get_all (some e) cursor db = err e
get_all none none db = ok (take 25 (sort_by newest_first db.events))
get_all none (some t) db =
    ok (take 5 (sort_by newest_first (keep (λ w. ltb w.created_at t) db.events)))

abbrev pub week : ℕ
week = 604800000000000

pub record Stats : Type 0 where
  pub delivered : ℕ
  pub failed : ℕ
  pub retrying : ℕ
  pub queued : ℕ

abbrev count_status : (DeliveryStatus → Bool) → List Webhook → ℕ
count_status p ws = length (keep (λ w. p w.delivery_status) ws)

-- `created_at > NOW() - INTERVAL '7 days'`
abbrev pub is_recent : ℕ → Webhook → Bool
is_recent now w = ltb now (w.created_at + week)

-- `getStats`
unfoldable pub get_stats : Option Fault → Db → Result Stats
get_stats (some e) db = err e
get_stats none db =
    let ws = keep (is_recent db.now) db.events in
    ok (record {
      delivered = count_status (λ s. elim s [ DeliveryStatus.delivered ↦ true | _ ↦ false ]) ws;
      failed = count_status (λ s. elim s [ DeliveryStatus.failed ↦ true | _ ↦ false ]) ws;
      retrying = count_status (λ s. elim s [ DeliveryStatus.retrying ↦ true | _ ↦ false ]) ws;
      queued = count_status (λ s. elim s [ DeliveryStatus.queued ↦ true | _ ↦ false ]) ws;
    })
