-- ===== src/Worker/Forward.antt =====
-- worker/service.go: one delivery attempt for each event of a batch (`forwardEvent`), and the
-- functions that turn its outcome into an update of the event's row.
pub mod Outcome
pub mod Attempts
pub mod Accepted
use vaulthook.Prelude.{
  ℕ, ◌+◌, ◌-◌, ◌*◌, ◌%◌, ◌^◌, String, Bool, true, false, Option, none, some, List, [], ◌∷◌, map,
  ltb, leb, ◌==◌, ◌&&◌, ◌||◌, str_eq, if◌then◌else◌, codes, atoi,
}
use vaulthook.Model.{Result, ok, err, message, DeliveryStatus, delivered, failed, Provider, Webhook}
use vaulthook.Providers.Headers.{
  Header, Parsed, set_forward_headers, stripe_allowed, github_allowed, shopify_allowed,
}

-- `updateWebhook` of repository.go. Pointers are options; the status is `none` while the Go field
-- still has its zero value, the empty text.
pub record UpdateWebhook : Type 0 where
  pub id : ℕ
  pub prov_name : String
  pub next_retry_at : Option ℕ
  pub delivery_status : Option DeliveryStatus
  pub response_code : Option ℕ
  pub last_error : Option String
  pub forwarded_to : Option String

pub record Request : Type 0 where
  pub url : String
  pub body : String
  pub header : Header

pub record Response : Type 0 where
  pub status_code : ℕ
  pub status : String
  pub retry_after : String  -- `Header.Get("Retry-After")`

-- What an attempt asks of its surroundings: the clock, the provider cache, the rate limiter,
-- http.NewRequest, json.Unmarshal and the HTTP client.
pub record Env : Type 0 where
  pub now : ℕ
  pub cache_get : String → Result Provider
  pub allow : Provider → Result Bool
  pub new_request : String → Result (Unit {0})
  pub unmarshal : String → Result Parsed
  pub send : Request → Result Response

abbrev pub retry_interval_seconds : ℕ
retry_interval_seconds = 30

abbrev pub rate_limited_text : String
rate_limited_text = "[Worker] rate limited"

-- `now.Add(time.Duration(secs) * time.Second)`: the product is an int64 of nanoseconds that wraps,
-- so that many seconds can mean a time in the past. A time before 1970 is read as 0.
unfoldable pub add_seconds : ℕ → ℕ → ℕ
add_seconds now secs =
    let d = secs * 1000000000 % 2 ^ 64 in if ltb d (2 ^ 63) then now + d else now - (2 ^ 64 - d)

unfoldable pub set_default_update_values : ℕ → String → UpdateWebhook → UpdateWebhook
set_default_update_values now e u = record u {
  delivery_status = some failed;
  last_error = some e;
  next_retry_at = some (add_seconds now retry_interval_seconds);
  response_code = none;
}

unfoldable pub set_success_update_values : ℕ → UpdateWebhook → UpdateWebhook
set_success_update_values code u = record u {
  delivery_status = some delivered;
  response_code = some code;
  last_error = none;
  next_retry_at = none;
}

unfoldable pub set_failure_update_values : ℕ → String → UpdateWebhook → UpdateWebhook
set_failure_update_values code e u = record u {
  delivery_status = some failed;
  response_code = some code;
  last_error = some e;
  next_retry_at = none;
}

unfoldable pub set_retryable_update_values : ℕ → ℕ → String → UpdateWebhook → UpdateWebhook
set_retryable_update_values now code e u = record u {
  delivery_status = some failed;
  response_code = some code;
  last_error = some e;
  next_retry_at = some (add_seconds now retry_interval_seconds);
}

-- The seconds of a Retry-After header, or the configured interval where it is no positive number.
unfoldable pub retry_seconds : String → ℕ
retry_seconds retry_after = elim (atoi (codes retry_after)) [
  | none ↦ retry_interval_seconds
  | some secs ↦ if ltb 0 secs then secs else retry_interval_seconds
]

unfoldable pub set_rate_limited_update_values :
    ℕ → ℕ → String → String → UpdateWebhook → UpdateWebhook
set_rate_limited_update_values now code e retry_after u = record u {
  delivery_status = some failed;
  response_code = some code;
  last_error = some e;
  next_retry_at = some (add_seconds now (retry_seconds retry_after));
}

-- The switch over the status code; a code that no case names leaves the update as it is.
unfoldable pub handle_response : ℕ → Response → UpdateWebhook → UpdateWebhook
unfolding set_success_update_values set_failure_update_values set_retryable_update_values
    set_rate_limited_update_values
handle_response now res u =
    let code = res.status_code in
    if leb 200 code && ltb code 300
    then set_success_update_values code u
    else if code == 429 || code == 503
    then set_rate_limited_update_values now code rate_limited_text res.retry_after u
    else if leb 400 code && ltb code 500
    then set_failure_update_values code res.status u
    else if leb 500 code
    then set_retryable_update_values now code res.status u
    else u

-- The switch over the provider's name.
unfoldable pub forward_headers : Env → Webhook → Result Header
forward_headers env hook =
    if str_eq hook.provider "Stripe"
    then set_forward_headers env.unmarshal stripe_allowed hook.headers []
    else if str_eq hook.provider "Github"
    then set_forward_headers env.unmarshal github_allowed hook.headers []
    else if str_eq hook.provider "Shopify"
    then set_forward_headers env.unmarshal shopify_allowed hook.headers []
    else ok []

-- From the request to the response.
unfoldable pub deliver : Env → Provider → Webhook → UpdateWebhook → UpdateWebhook
unfolding set_default_update_values handle_response
deliver env prov hook u = elim (env.new_request prov.destination_url) [
  | err e ↦ set_default_update_values env.now (message e) u
  | ok _ ↦ elim (forward_headers env hook) [
    | err e ↦ set_default_update_values env.now (message e) u
    | ok h ↦
        elim (env.send (record { url = prov.destination_url; body = hook.payload; header = h })) [
          | err e ↦ set_default_update_values env.now (message e) u
          | ok res ↦ handle_response env.now res u
        ]
  ]
]

-- The permission of the rate limiter.
unfoldable pub throttle : Env → Provider → Webhook → UpdateWebhook → UpdateWebhook
unfolding set_default_update_values set_rate_limited_update_values
throttle env prov hook u = elim (env.allow prov) [
  | err e ↦ set_default_update_values env.now (message e) u
  | ok true ↦ deliver env prov hook u
  | ok false ↦ set_rate_limited_update_values env.now 429 rate_limited_text "" u
]

-- The body of the goroutine. `updates.forwardedTo` points into `hook`, so it follows the new
-- destination that is written there.
unfoldable pub forward_one : Env → Webhook → UpdateWebhook
unfolding set_default_update_values
forward_one env hook =
    let u : UpdateWebhook = record {
      id = hook.id;
      prov_name = hook.provider;
      next_retry_at = none;
      delivery_status = none;
      response_code = none;
      last_error = none;
      forwarded_to = some hook.forwarded_to;
    } in
    elim (env.cache_get hook.provider) [
      | err e ↦ set_default_update_values env.now (message e) u
      | ok prov ↦
          let hook' =
            if str_eq prov.destination_url hook.forwarded_to
            then hook
            else record hook { forwarded_to = prov.destination_url } in
          throttle env prov hook' (record u { forwarded_to = some hook'.forwarded_to })
    ]

-- One goroutine for each event, each with its own slot of the result.
unfoldable pub forward_event : (Webhook → Env) → List Webhook → List UpdateWebhook
unfolding forward_one
forward_event env hooks = map (λ hook. forward_one (env hook) hook) hooks
