-- ===== src/Ingest.antt =====
-- The receivers of webhooks: api/handler/{stripe,github,shopify}.go with the services of
-- providers/{stripe,github,shopify}. A request is checked against the provider's secret, looked up,
-- stored, and only then announced to the live feed and the workers.
pub mod Accept
pub mod Signed
pub mod Replies
use vaulthook.Prelude.{
  ℕ, ◌+◌, ◌≡◌, String, Bool, true, false, Option, none, some, List, [], ◌∷◌, ◌++◌, Text, codes,
  text_eq, hex_encode, str_eq, ltb, if◌then◌else◌,
}
use vaulthook.Model.{
  Fault, Result, ok, err, decryption, invalid_signature, hook_exists, pg_error, no_rows,
  invalid_uuid, encryption, ProviderName, github, stripe, shopify, provider_text, Provider, Webhook,
  CreateWebhookParams,
}
use vaulthook.Crypto.{Gcm, Checked, passed, refused, panicked, decrypt_signing_key, ◌>>=◌}
use vaulthook.Database.{Db}
use vaulthook.Events.Feed.{Feed, send}
use vaulthook.Events.Repository.{exists_event, insert_webhook}

-- What the handlers change: the tables, the live feed, and the workers' signal channel.
pub record Gateway : Type 0 where
  pub db : Db
  pub feed : Feed
  pub signals : ℕ
  pub signal_capacity : ℕ  -- TotalQueueWorkers

-- `Pool.Notify`
unfoldable pub notify : Gateway → Gateway
notify g = if ltb g.signals g.signal_capacity then record g { signals = g.signals + 1 } else g

-- The request, and the libraries and services around it. `read_body` is none where the body is too
-- large or cannot be read; `hmac_sha256` is crypto/hmac over SHA-256, `construct_event` is
-- Stripe's webhook.ConstructEvent, and `new_id` the id that the database generates.
pub record Env : Type 0 where
  pub read_body : Option String
  pub header : String → String
  pub headers_json : Option String
  pub received_at : ℕ
  pub cache_get : String → Result Provider
  pub gcm : Gcm
  pub master_key : Text
  pub hmac_sha256 : Text → String → Text
  pub base64_decode : Text → Option Text
  pub construct_event : String → String → Text → Result (String × String)
  pub exists_fault : Option Fault
  pub insert_fault : Option Fault
  pub new_id : ℕ
  pub jsonb : String → Option String

-- The status, and the id of a body that says "queued"; or the connection that a panic cuts.
pub data Reply : Type 0 where
  reply : ℕ → Reply
  queued_reply : String → Reply
  aborted : Reply

abbrev pub from_result {ℓ} : {A : Type ℓ} → Result A → Checked A
from_result (ok a) = passed a
from_result (err e) = refused e

-- The provider's decrypted secret, as each `ValidateSecret` begins.
unfoldable pub secret_of : Env → ProviderName → Checked Text
secret_of env name = from_result (env.cache_get (provider_text name)) >>= λ prov.
    decrypt_signing_key env.gcm env.master_key prov.signing_secret

abbrev pub require : Bool → Checked (Unit {0})
require true = passed tt
require false = refused invalid_signature

-- github: `hmac.Equal` compares the bytes of two texts.
unfoldable pub github_validate_secret : Env → String → String → Checked (Unit {0})
unfolding secret_of
github_validate_secret env signature payload = secret_of env github >>= λ secret.
    require
      (text_eq (codes "sha256=" ++ hex_encode (env.hmac_sha256 secret payload)) (codes signature))

-- shopify: the signature is Base64.
unfoldable pub shopify_validate_secret : Env → String → String → Checked (Unit {0})
unfolding secret_of
shopify_validate_secret env signature payload = secret_of env shopify >>= λ secret.
    elim (env.base64_decode (codes signature)) [
      | none ↦ refused invalid_signature
      | some sig ↦ require (text_eq sig (env.hmac_sha256 secret payload))
    ]

-- stripe: the event's id and type
unfoldable pub stripe_validate_secret : Env → String → String → Checked (String × String)
unfolding secret_of
stripe_validate_secret env signature payload =
    secret_of env stripe >>= λ secret. from_result (env.construct_event payload signature secret)

-- `Exists` of a service, with the provider that the cache gave.
unfoldable pub exists : Env → Result Provider → String → Db → Result Bool
exists env cached ev_id db = elim cached [
  | err e ↦ err e
  | ok prov ↦ exists_event env.exists_fault prov.id ev_id db
]

abbrev pub webhook_params :
    Env → ProviderName → Provider → String → String → String → String → CreateWebhookParams
webhook_params env name prov id event headers payload = record {
  provider_id = prov.id;
  provider = provider_text name;
  event_id = some id;
  event_type = event;
  headers = headers;
  payload = payload;
  forwarded_to = prov.destination_url;
  received_at = env.received_at;
}

-- `InsertWebhook` of a service, in the same way.
unfoldable pub insert :
    Env
    → ProviderName
    → Result Provider
    → String
    → String
    → String
    → String
    → Db
    → Result Webhook × Db
insert env name cached id event headers payload db = elim cached [
  | err e ↦ (err e, db)
  | ok prov ↦
      insert_webhook env.jsonb env.insert_fault env.new_id
        (webhook_params env name prov id event headers payload) db
]

-- What a handler asks of its provider's service.
pub record ProviderService : Type 0 where
  pub exists : String → Db → Result Bool
  pub insert_webhook : String → String → String → String → Db → Result Webhook × Db

abbrev pub stripe_exists : Env → String → Db → Result Bool
stripe_exists env = exists env (env.cache_get "Stripe")

abbrev pub stripe_insert_webhook :
    Env → String → String → String → String → Db → Result Webhook × Db
stripe_insert_webhook env = insert env stripe (env.cache_get "Stripe")

abbrev pub github_exists : Env → String → Db → Result Bool
github_exists env = exists env (env.cache_get "Github")

abbrev pub github_insert_webhook :
    Env → String → String → String → String → Db → Result Webhook × Db
github_insert_webhook env = insert env github (env.cache_get "Github")

abbrev pub shopify_exists : Env → String → Db → Result Bool
shopify_exists env = exists env (env.cache_get "Shopify")

abbrev pub shopify_insert_webhook :
    Env → String → String → String → String → Db → Result Webhook × Db
shopify_insert_webhook env = insert env shopify (env.cache_get "Shopify")

abbrev pub service : Env → ProviderName → ProviderService
service env stripe = record {
  exists = stripe_exists env;
  insert_webhook = stripe_insert_webhook env;
}
service env github = record {
  exists = github_exists env;
  insert_webhook = github_insert_webhook env;
}
service env shopify = record {
  exists = shopify_exists env;
  insert_webhook = shopify_insert_webhook env;
}

-- The end of each handler: insert, and on success tell the feed, then the workers, then the sender.
abbrev pub announce : String → Result Webhook × Db → Gateway → Reply × Gateway
announce id (err hook_exists, db) g = (reply 200, record g { db = db })
announce id (err e, db) g = (reply 500, record g { db = db })
announce id (ok w, db) g = (queued_reply id, notify (record g { db = db; feed = send w g.feed }))

unfoldable pub store :
    ProviderService → String → String → String → String → Gateway → Reply × Gateway
unfolding notify
store s id event headers payload g = announce id (s.insert_webhook id event headers payload g.db) g

-- The stripe and github handlers marshal the headers just before.
unfoldable pub store_headers :
    Env → ProviderService → String → String → String → Gateway → Reply × Gateway
unfolding store
store_headers env s id event payload g = elim env.headers_json [
  | none ↦ (reply 400, g)
  | some headers ↦ store s id event headers payload g
]

-- The duplicate check of each handler, before the rest of it.
unfoldable pub unless_exists :
    ProviderService → String → Gateway → (Gateway → Reply × Gateway) → Reply × Gateway
unless_exists s ev_id g rest = elim (s.exists ev_id g.db) [
  | err e ↦ (reply 500, g)
  | ok true ↦ (reply 200, g)
  | ok false ↦ rest g
]

-- The status for a failed validation: a secret that cannot be decrypted, a database error, any other.
abbrev pub validation_status : Fault → ℕ
validation_status decryption = 500
validation_status (pg_error m) = 500
validation_status _ = 400

-- Shopify's handler takes only a wrong signature for the sender's fault.
abbrev pub shopify_validation_status : Fault → ℕ
shopify_validation_status decryption = 500
shopify_validation_status invalid_signature = 400
shopify_validation_status _ = 500

unfoldable pub stripe_receive : Env → Gateway → Reply × Gateway
unfolding stripe_validate_secret unless_exists store_headers
stripe_receive env g = elim env.read_body [
  | none ↦ (reply 503, g)
  | some payload ↦ elim (stripe_validate_secret env (env.header "Stripe-Signature") payload) [
    | refused e ↦ (reply (validation_status e), g)
    | panicked ↦ (aborted, g)
    | passed event ↦
        unless_exists (service env stripe) event.0 g
          λ g. store_headers env (service env stripe) event.0 event.1 payload g
  ]
]

unfoldable pub github_receive : Env → Gateway → Reply × Gateway
unfolding github_validate_secret unless_exists store_headers
github_receive env g = elim env.read_body [
  | none ↦ (reply 503, g)
  | some payload ↦
      let hid = env.header "X-Github-Hook-Id" in
      let event = env.header "X-Github-Event" in
      if str_eq hid ""
      then (reply 400, g)
      else if str_eq event ""
      then (reply 400, g)
      else elim (github_validate_secret env (env.header "X-Hub-Signature-256") payload) [
        | refused e ↦ (reply (validation_status e), g)
        | panicked ↦ (aborted, g)
        | passed _ ↦
            unless_exists (service env github) (env.header "X-Github-Delivery") g
              λ g. store_headers env (service env github) hid event payload g
      ]
]

unfoldable pub shopify_receive : Env → Gateway → Reply × Gateway
unfolding shopify_validate_secret unless_exists store
shopify_receive env g = elim env.read_body [
  | none ↦ (reply 503, g)
  | some payload ↦
      let hid = env.header "X-Shopify-Webhook-Id" in
      let event = env.header "X-Shopify-Topic" in
      if str_eq hid "" then (reply 400, g) else elim env.headers_json [
        | none ↦ (reply 500, g)
        | some headers ↦
            if str_eq event ""
            then (reply 400, g)
            else elim (shopify_validate_secret env (env.header "X-Shopify-Hmac-Sha256") payload) [
              | refused e ↦ (reply (shopify_validation_status e), g)
              | panicked ↦ (aborted, g)
              | passed _ ↦
                  unless_exists (service env shopify) hid g
                    λ g. store (service env shopify) hid event headers payload g
            ]
      ]
]
