-- ===== src/Http/ProviderHandler/Replied.antt =====
-- What a reply of the configuration endpoint says of the stores (api/handler/provider.go, configure).
use vaulthook.Prelude.{ℕ, true, ◌≡◌, ◌≢◌, String, Option, none, some, List, [], Text}
use vaulthook.Model.{Provider, ok}
use vaulthook.Crypto.{Gcm}
use vaulthook.Providers.Service.{
  Json, Store, Configuration, ConfigureError, set_row, with_config, cache_get,
}
use vaulthook.Providers.Service.Configured.{Configured, Accepted}
use vaulthook.Database.{find_provider}
use vaulthook.Http.{Reply, http_error}
use vaulthook.Http.Body.{Request, Decoder, parsed, decode_body}
use vaulthook.Http.ProviderHandler.{ConfigureRequestBody, Context, call_of, configure_reply}

module _ (json : Json) (gcm : Gcm) (master_key : Text) (text_of : ConfigureError → Text)
    (decoder : Decoder ConfigureRequestBody) (marshal : Provider → Option Text) (c : Context)
    (r : Request) (st : Store) where
  -- The row and the cache after a change that a request has brought about.
  pub record Changed (b : ConfigureRequestBody) (rows : List Provider) : Type 0 where
    pub decoded : decode_body decoder r ≡ parsed b
    pub i : ℕ
    pub retries : ℕ
    pub req : ℕ
    pub key : Text
    pub p : Provider
    pub accepted : Accepted json gcm master_key (call_of c b) st i retries req key p
    pub row : rows ≡ set_row i (with_config key b.destination_url retries req) st.rows

  pub data Replied : Reply × Store → Type 0 where
    unchanged : (reply : Reply) → reply.status ≢ 200 → Replied (reply, st)
    stale_cache :
        (text : Text) (b : ConfigureRequestBody) (rows : List Provider)
        → Changed b rows
        → Replied (http_error text 500, record st { rows = rows })
    unprinted :
        (text : Text) (b : ConfigureRequestBody) (rows : List Provider)
        (kvs : List (String × String))
        → Changed b rows
        → Replied (http_error text 500, record { rows = rows; cache = kvs })
    saved :
        (p : Provider) (body : Text) (b : ConfigureRequestBody) (rows : List Provider)
        (kvs : List (String × String)) (changed : Changed b rows)
        → p ≡ record changed.p {
          signing_secret = changed.key;
          destination_url = b.destination_url;
          max_retries = changed.retries;
          max_req_second = changed.req;
          is_configured = true;
        }
        → find_provider changed.i rows ≡ some p
        → marshal p ≡ some body
        → cache_get json none p.name kvs ≡ ok p
        → Replied (
          record { status = 200; cookies = []; body = body },
          record { rows = rows; cache = kvs },
        )

  abbrev answered : Configuration × Store → Reply × Store
  answered (answer, st') = (configure_reply json gcm master_key text_of marshal answer, st')
