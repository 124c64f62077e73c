-- ===== src/Model.antt =====
-- The shared data types of internal/model: webhook.go, provider.go, delivery.go, stat.go, and the
-- delivery_status type of the events table (migrations/). A uuid is a number, a point in time is a
-- number of nanoseconds, JSON documents and URLs are texts. `Result` is a Go call that returns a
-- value or an error, and `Fault` stands for the errors that the code tells apart.
use vaulthook.Prelude.{ℕ, String, Bool, Option, Text, ◌≡◌, refl, ◌⊎◌, inl, inr}

-- The errors that the code compares by errors.Is or errors.As, and any other with its message.
pub data Fault : Type 0 where
  no_rows : Fault
  hook_exists : Fault
  invalid_uuid : Fault
  decryption : Fault
  encryption : Fault
  invalid_signature : Fault
  pg_error : String → Fault
  other : String → Fault

pub data Result {ℓ} (A : Type ℓ) : Type ℓ where
  ok : A → Result A
  err : Fault → Result A

infixl 5 ◌>>=◌
abbrev pub ◌>>=◌ {ℓ κ} : {A : Type ℓ} {B : Type κ} → Result A → (A → Result B) → Result B
ok a >>= f = f a
err e >>= f = err e

-- err.Error(), where the code keeps the text.
abbrev pub message : Fault → String
message no_rows = "no rows in result set"
message hook_exists = "webhook already exists"
message invalid_uuid = "invalid uuid received"
message decryption = "error decrypting provider signing key"
message encryption = "error encrypting provider signing key"
message invalid_signature = "invalid webhook signature"
message (pg_error m) = m
message (other m) = m

-- The delivery_status enum of the table; model/delivery.go names all of them but `replaying`.
pub data DeliveryStatus : Type 0 where
  queued processing delivered retrying failed replaying : DeliveryStatus

pub DeliveryStatus-discrete : Discrete DeliveryStatus
DeliveryStatus-discrete = hlevel

-- provider.go
pub data ProviderName : Type 0 where
  github stripe shopify : ProviderName

abbrev pub provider_text : ProviderName → String
provider_text github = "Github"
provider_text stripe = "Stripe"
provider_text shopify = "Shopify"

pub record Provider : Type 0 where
  pub id : ℕ
  pub name : String
  pub signing_secret : Text
  pub destination_url : String
  pub max_retries : ℕ
  pub max_req_second : ℕ
  pub is_configured : Bool
  pub created_at : ℕ

-- webhook.go
pub record Webhook : Type 0 where
  pub id : ℕ
  pub provider_id : ℕ
  pub provider : String
  pub event_id : Option String
  pub event_type : String
  pub headers : String
  pub payload : String
  pub delivery_status : DeliveryStatus
  pub forwarded_to : String
  pub response_code : Option ℕ
  pub retry_count : ℕ
  pub next_retry_at : Option ℕ
  pub last_error : Option String
  pub received_at : ℕ
  pub updated_at : ℕ
  pub created_at : ℕ

pub record CreateWebhookParams : Type 0 where
  pub provider_id : ℕ
  pub provider : String
  pub event_id : Option String
  pub event_type : String
  pub headers : String
  pub payload : String
  pub forwarded_to : String
  pub received_at : ℕ

-- To split on the result of a call and keep the equation.
pub Result-cases {ℓ} :
    {A : Type ℓ} (r : Result A) → ((e : Fault) × (r ≡ err e)) ⊎ ((a : A) × (r ≡ ok a))
Result-cases (ok a) = inr (a, refl)
Result-cases (err e) = inl (e, refl)
