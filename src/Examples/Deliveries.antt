-- ===== src/Examples/Deliveries.antt =====
-- A received event that is delivered, at concrete inputs.
use vaulthook.Prelude.Sort.{insert_by, sort_by}
use vaulthook.Prelude.{
  ◌≡◌, ◌≢◌, refl, sym, ap, Bool, true, false, Option, none, some, [], ◌∷◌, All, arith, false≢true,
  ℕ, List, ◌≤◌, ◌-◌, Memᴰ, ◌+◌,
}
use vaulthook.Model.{ok, Webhook, CreateWebhookParams, DeliveryStatus, delivered, queued, failed}
use vaulthook.Database.{Db, find_provider, find_event}
use vaulthook.Events.Repository.{insert_webhook, insert_row}
use vaulthook.Providers.Headers.{set_forward_headers}
use vaulthook.Worker.Forward.{
  Env, forward_one, forward_headers, throttle, deliver, handle_response, set_success_update_values,
  set_retryable_update_values, forward_event, add_seconds,
}
use vaulthook.Worker.Forward.Outcome.{fate}
use vaulthook.Worker.Forward.Accepted.{Accepts}
use vaulthook.Worker.Repository.{
  queue, selected, is_eligible, before, get_events, update_events, update_all, update_one, scan_all,
}
use vaulthook.Worker.Run.{Round, run, process}
use vaulthook.Worker.Run.Retries.{tries}
use vaulthook.Worker.Run.Retries.Bounded.{tries-bounded}
use vaulthook.Worker.Run.Drain.{batch_of_round}
use vaulthook.Worker.Run.Settle.OneRound.{attempt}
use vaulthook.Worker.Run.Delivery.{Delivered, as_claimed, insert_webhook-Delivered}
use vaulthook.System.Keys.{IsConsistent}
use vaulthook.Examples.{noon, shop, same_text}
use vaulthook.Examples.Workers.{env, round}

-- An empty table, and one order for it.
abbrev new_db : Db
new_db = record { now = noon; providers = shop ∷ []; events = [] }

abbrev order : CreateWebhookParams
order = record {
  provider_id = 1;
  provider = "Shopify";
  event_id = some "a";
  event_type = "orders/create";
  headers = "{}";
  payload = "{}";
  forwarded_to = "http://shop/in";
  received_at = noon;
}

abbrev row : Webhook
row = record {
  id = 7;
  provider_id = 1;
  provider = "Shopify";
  event_id = some "a";
  event_type = "orders/create";
  headers = "{}";
  payload = "{}";
  delivery_status = queued;
  forwarded_to = "http://shop/in";
  response_code = none;
  retry_count = 0;
  next_retry_at = none;
  last_error = none;
  received_at = noon;
  updated_at = noon;
  created_at = noon;
}

abbrev with_row : Db
with_row = record new_db { events = row ∷ [] }

inserted_row : insert_webhook same_text none 7 order new_db ≡ (ok row, with_row)
unfolding insert_webhook insert_row find_provider
inserted_row = refl

-- A destination that answers 200.
abbrev kind_env : Env
kind_env = record env {
  send = λ _. ok (record { status_code = 200; status = "200 OK"; retry_after = "" });
}

abbrev kind_round : Round
kind_round = record round { env = λ _. kind_env }

taken : Accepts kind_env (as_claimed kind_round with_row row)
unfolding forward_headers set_forward_headers fate
taken = record {
  prov = shop;
  header = [];
  res = record { status_code = 200; status = "200 OK"; retry_after = "" };
  cached = refl;
  allowed = refl;
  requested = refl;
  parsed = refl;
  sent = refl;
  success = refl;
}

abbrev is_delivered : Option DeliveryStatus → Bool
is_delivered (some delivered) = true
is_delivered _ = false

all_known :
    All
      (λ w. (attempt kind_round w).delivery_status ≢ none)
      (batch_of_round queue kind_round with_row)
unfolding selected is_eligible before sort_by insert_by forward_one throttle deliver forward_headers
    handle_response set_success_update_values set_forward_headers
all_known = ((λ h. false≢true (sym (ap is_delivered h))), tt)

new_db-IsConsistent : IsConsistent new_db
new_db-IsConsistent = record { ids = tt; events = tt }

insert_webhook-Delivered_example : Delivered row kind_round with_row
insert_webhook-Delivered_example =
    insert_webhook-Delivered same_text none 7 order new_db with_row row kind_round
      new_db-IsConsistent (λ h. ground arith) inserted_row refl refl refl (omega arith) taken
      all_known

-- An event that failed and is due, with three retries left.
abbrev failed_row : Webhook
failed_row = record row { delivery_status = failed; next_retry_at = some 0 }

abbrev with_failed : Db
with_failed = record new_db { events = failed_row ∷ [] }

-- A round at a time, with a destination that answers 500.
abbrev bad_round : ℕ → Round
bad_round t = record round {
  now = t;
  env = λ _. record env {
    now = t;
    send = λ _. ok (record { status_code = 500; status = "500"; retry_after = "" });
  };
}

abbrev five_rounds : List Round
five_rounds =
    bad_round (noon + 60000000000)
    ∷ bad_round (noon + 120000000000)
    ∷ bad_round (noon + 180000000000)
    ∷ bad_round (noon + 240000000000)
    ∷ bad_round (noon + 300000000000)
    ∷ []

tries-bounded_example : tries 7 five_rounds with_failed ≤ 3 - 0
unfolding find_provider
tries-bounded_example =
    tries-bounded five_rounds with_failed failed_row shop
      (record { ids = (tt, tt); events = (tt, tt) }) (Memᴰ.head refl) refl refl

-- It is tried three times in the five rounds, and then no more.
three_tries : tries 7 five_rounds with_failed ≡ 3
unfolding tries get_events selected is_eligible before sort_by insert_by run process update_events
    update_all update_one scan_all find_event forward_event forward_one throttle deliver
    forward_headers handle_response set_retryable_update_values set_forward_headers find_provider
    add_seconds
three_tries = refl
