-- ===== src/Http/ProviderHandler.antt =====
-- api/handler/provider.go: the list of providers and their configuration.
pub mod Replied
use vaulthook.Prelude.{ℕ, ℤ, String, Option, none, some, List, [], ◌++◌, Text, codes}
use vaulthook.Model.{Fault, Provider}
use vaulthook.Crypto.{Gcm, Checked, passed, refused, panicked}
use vaulthook.Providers.Service.{
  Json, Store, Call, Configuration, configured, rejected, ConfigureError, missing_signing_secret,
  missing_destination, invalid_retry_count, invalid_req_second, configure,
}
use vaulthook.Providers.Cache.{list_providers}
use vaulthook.Http.{Reply, http_error, json_reply}
use vaulthook.Http.Body.{Request, Decoder, Parsed, parsed, malformed, decode_body}

pub record ConfigureRequestBody : Type 0 where
  pub signing_secret : Text
  pub destination_url : String
  pub max_retries : ℤ
  pub max_req_second : ℤ

-- What the surroundings give to one request: uuid.Parse of the path's id, the nonce, and the faults
-- of the two stores.
pub record Context : Type 0 where
  pub id : Option ℕ
  pub nonce : Option Text
  pub row_fault : Option Fault
  pub cache_fault : Option Fault

abbrev pub call_of : Context → ConfigureRequestBody → Call
call_of c b = record {
  id = c.id;
  sec = b.signing_secret;
  des = b.destination_url;
  max_retry = b.max_retries;
  max_req_sec = b.max_req_second;
  nonce = c.nonce;
  row_fault = c.row_fault;
  cache_fault = c.cache_fault;
}

-- The errors that errors.Is names are the client's.
abbrev pub configure_status : ConfigureError → ℕ
configure_status missing_signing_secret = 400
configure_status missing_destination = 400
configure_status invalid_retry_count = 400
configure_status invalid_req_second = 400
configure_status _ = 500

module _ (json : Json) (gcm : Gcm) (master_key : Text) (text_of : ConfigureError → Text) where
  abbrev pub configure_reply : (Provider → Option Text) → Configuration → Reply
  configure_reply marshal (rejected e) = http_error (text_of e) (configure_status e)
  configure_reply marshal (configured p) =
      json_reply (http_error (codes "json: unsupported value") 500) (marshal p)

  -- `configure`
  unfoldable pub configure_handler :
      Decoder ConfigureRequestBody
      → (Provider → Option Text)
      → Context
      → Request
      → Store
      → Reply × Store
  unfolding decode_body configure
  configure_handler decoder marshal c r st = elim (decode_body decoder r) [
    | malformed status text ↦ (http_error text status, st)
    | parsed b ↦
        let (answer, st') = configure json gcm master_key (call_of c b) st in
        (configure_reply marshal answer, st')
  ]

-- `getAll`; a panic of the decryption ends the request without a reply of the handler.
abbrev pub list_reply : (List Provider → Option Text) → Checked (List Provider) → Option Reply
list_reply marshal (refused e) =
    some (http_error (codes "error retrieving all providers from database") 500)
list_reply marshal panicked = none
list_reply marshal (passed ps) =
    some (json_reply (http_error (codes "error marshaling providers") 500) (marshal ps))

unfoldable pub providers_handler :
    Gcm → Text → (List Provider → Option Text) → Option Fault → List Provider → Option Reply
unfolding list_providers
providers_handler gcm master_key marshal fault rows =
    list_reply marshal (list_providers gcm master_key fault rows)
