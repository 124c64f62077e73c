-- ===== src/Ingest/Accept.antt =====
-- What a reply of a receiver means: internal/api/handler/{stripe,github,shopify}.go.
use vaulthook.Prelude.{
  ℕ, ◌≡◌, ◌≢◌, refl, arith, String, true, false, some, ◌∷◌, Option-cases, inl, inr,
}
use vaulthook.Model.{
  Fault, Result, ok, err, no_rows, invalid_uuid, encryption, other, decryption, invalid_signature,
  hook_exists, pg_error, Provider, Webhook, queued, Result-cases, ProviderName, stripe, github,
  shopify, provider_text,
}
use vaulthook.Database.{Db}
use vaulthook.Events.Repository.{exists_event}
use vaulthook.Events.Repository.Insertion.{
  Stored, Insertion, refuse, clash, made, insert_webhook-Insertion, exists_event-Stored,
}
use vaulthook.Events.Feed.{send}
use vaulthook.Ingest.{
  Gateway, Env, Reply, reply, queued_reply, aborted, announce, store, store_headers, unless_exists,
  exists, insert, service, notify, webhook_params, validation_status, shopify_validation_status,
}

-- What the reply to a request tells its sender. `Known` and `Fresh` are what the check of the secret
-- established of the body and of an event id.
-- Each service asks the cache for its own provider.
service-exists :
    (env : Env) (name : ProviderName) (id : String) (db : Db)
    → (service env name).exists id db ≡ exists env (env.cache_get (provider_text name)) id db
service-exists env stripe id db = refl
service-exists env github id db = refl
service-exists env shopify id db = refl

service-insert :
    (env : Env) (name : ProviderName) (id event headers payload : String) (db : Db)
    → (service env name).insert_webhook id event headers payload db
      ≡ insert env name (env.cache_get (provider_text name)) id event headers payload db
service-insert env stripe id event headers payload db = refl
service-insert env github id event headers payload db = refl
service-insert env shopify id event headers payload db = refl

module _ (env : Env) (name : ProviderName) (Known Fresh : String → String → Type 0)
    (g : Gateway) where
  pub data Answered : Reply × Gateway → Type 0 where
    declined : (code : ℕ) → code ≢ 200 → Answered (reply code, g)
    cut : Answered (aborted, g)
    known :
        (payload id : String) (prov : Provider)
        → env.read_body ≡ some payload
        → Known payload id
        → env.cache_get (provider_text name) ≡ ok prov
        → Stored prov.id (some id) g.db.events
        → Answered (reply 200, g)
    fresh :
        (payload id : String) (prov : Provider) (w : Webhook)
        → env.read_body ≡ some payload
        → Fresh payload id
        → env.cache_get (provider_text name) ≡ ok prov
        → w.provider_id ≡ prov.id
        → w.event_id ≡ some id
        → w.delivery_status ≡ queued
        → Answered (
          queued_reply id,
          notify (record g { db = record g.db { events = w ∷ g.db.events }; feed = send w g.feed }),
        )

announce-err :
    (id : String) (e : Fault) (db : Db) (g : Gateway)
    → e ≢ hook_exists
    → announce id (err e, db) g ≡ (reply 500, record g { db = db })
announce-err id no_rows db g h = refl
announce-err id hook_exists db g h = absurd (h refl)
announce-err id invalid_uuid db g h = refl
announce-err id decryption db g h = refl
announce-err id encryption db g h = refl
announce-err id invalid_signature db g h = refl
announce-err id (pg_error m) db g h = refl
announce-err id (other m) db g h = refl

pub validation_status-ne : (e : Fault) → validation_status e ≢ 200
validation_status-ne no_rows = omega arith
validation_status-ne hook_exists = omega arith
validation_status-ne invalid_uuid = omega arith
validation_status-ne decryption = omega arith
validation_status-ne encryption = omega arith
validation_status-ne invalid_signature = omega arith
validation_status-ne (pg_error m) = omega arith
validation_status-ne (other m) = omega arith

pub shopify_validation_status-ne : (e : Fault) → shopify_validation_status e ≢ 200
shopify_validation_status-ne no_rows = omega arith
shopify_validation_status-ne hook_exists = omega arith
shopify_validation_status-ne invalid_uuid = omega arith
shopify_validation_status-ne decryption = omega arith
shopify_validation_status-ne encryption = omega arith
shopify_validation_status-ne invalid_signature = omega arith
shopify_validation_status-ne (pg_error m) = omega arith
shopify_validation_status-ne (other m) = omega arith

module _ (env : Env) (name : ProviderName) (Known Fresh : String → String → Type 0)
    (g : Gateway) where
  announce-Answered :
      (payload id event headers : String) (prov : Provider) (r : Result Webhook × Db)
      → env.read_body ≡ some payload
      → Known payload id
      → Fresh payload id
      → env.cache_get (provider_text name) ≡ ok prov
      → Insertion g.db (webhook_params env name prov id event headers payload) r
      → Answered env name Known Fresh g (announce id r g)
  announce-Answered payload id event headers prov r body k f c (refuse e ne) =
      rw (announce-err id e g.db g ne) (declined 500 (omega arith))
  announce-Answered payload id event headers prov r body k f c (clash s) =
      known payload id prov body k c s
  announce-Answered payload id event headers prov r body k f c (made w p i q) =
      fresh payload id prov w body f c p i q

  pub store-Answered :
      (payload id event headers : String) (prov : Provider)
      → env.insert_fault ≢ some hook_exists
      → env.read_body ≡ some payload
      → Known payload id
      → Fresh payload id
      → env.cache_get (provider_text name) ≡ ok prov
      → Answered env name Known Fresh g (store (service env name) id event headers payload g)
  unfolding store insert
  store-Answered payload id event headers prov driver body k f c =
      rw (service-insert env name id event headers payload g.db, c, insert)
        (announce-Answered payload id event headers prov _ body k f c
          (insert_webhook-Insertion env.jsonb env.insert_fault env.new_id _ g.db driver))

  pub store_headers-Answered :
      (payload id event : String) (prov : Provider)
      → env.insert_fault ≢ some hook_exists
      → env.read_body ≡ some payload
      → Known payload id
      → Fresh payload id
      → env.cache_get (provider_text name) ≡ ok prov
      → Answered env name Known Fresh g (store_headers env (service env name) id event payload g)
  unfolding store_headers
  store_headers-Answered payload id event prov driver body k f c =
      elim (Option-cases env.headers_json) [
        | inl j ↦ simp (j, store_headers) (declined 400 (omega arith))
        | inr (hs, j) ↦
            simp (j, store_headers) (store-Answered payload id event hs prov driver body k f c)
      ]

  -- The duplicate check, then the rest of a handler, which may rely on the provider being there.
  pub unless_exists-Answered :
      (payload id : String) (rest : Gateway → Reply × Gateway)
      → env.read_body ≡ some payload
      → Known payload id
      → ((prov : Provider)
          → env.cache_get (provider_text name) ≡ ok prov
          → Answered env name Known Fresh g (rest g))
      → Answered env name Known Fresh g (unless_exists (service env name) id g rest)
  unfolding unless_exists exists
  unless_exists-Answered payload id rest body k go =
      elim (Result-cases (env.cache_get (provider_text name))) [
        | inl (e, c) ↦
            rw (service-exists env name id g.db, c, exists, unless_exists)
              (declined 500 (omega arith))
        | inr (prov, c) ↦ elim (Result-cases (exists_event env.exists_fault prov.id id g.db)) [
          | inl (e, f) ↦
              rw (service-exists env name id g.db, c, f, exists, unless_exists)
                (declined 500 (omega arith))
          | inr (true, f) ↦
              rw (service-exists env name id g.db, c, f, exists, unless_exists)
                (known payload id prov body k c
                  (exists_event-Stored env.exists_fault prov.id id g.db f))
          | inr (false, f) ↦
              rw (service-exists env name id g.db, c, f, exists, unless_exists) (go prov c)
        ]
      ]
