-- ===== src/Examples.antt =====
-- The concrete tables, requests and services on which the theorems' examples run.
pub mod Workers
pub mod Tables
pub mod Searches
pub mod Receivers
pub mod Sessions
pub mod Settings
pub mod Handlers
pub mod Dashboard
pub mod Pools
pub mod Boots
pub mod Deliveries
use vaulthook.Prelude.{ℕ, ◌+◌, ◌∷◌, [], String, Bool, true, false, Option, none, some, List, Text}
use vaulthook.Model.{Result, ok, Provider, Webhook, DeliveryStatus, queued, failed, retrying}
use vaulthook.Database.{Db}
use vaulthook.Worker.Repository.{BatchSizes}

-- 2023-11-14T22:13:20Z
abbrev pub noon : ℕ
noon = 1700000000000000000

abbrev pub shop : Provider
shop = record {
  id = 1;
  name = "Shopify";
  signing_secret = [];
  destination_url = "http://shop/in";
  max_retries = 3;
  max_req_second = 5;
  is_configured = true;
  created_at = 0;
}

abbrev pub event : ℕ → String → DeliveryStatus → Webhook
event i ev_id status = record {
  id = i;
  provider_id = 1;
  provider = "Shopify";
  event_id = some ev_id;
  event_type = "orders/create";
  headers = "{}";
  payload = "{}";
  delivery_status = status;
  forwarded_to = "http://shop/in";
  response_code = none;
  retry_count = 0;
  next_retry_at = none;
  last_error = none;
  received_at = noon + i;
  updated_at = noon;
  created_at = noon + i;
}

abbrev pub shop_db : Db
shop_db = record {
  now = noon + 1000;
  providers = shop ∷ [];
  events = event 11 "a" queued ∷ event 12 "b" queued ∷ event 13 "c" retrying ∷ [];
}

abbrev pub sizes : BatchSizes
sizes = record { queue_batch = 2; retry_batch = 10 }

-- A json column that keeps its text.
abbrev pub same_text : String → Option String
same_text s = some s
