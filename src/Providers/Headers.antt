-- ===== src/Providers/Headers.antt =====
-- `SetForwardHeaders` of providers/stripe, providers/github and providers/shopify: from the JSON of
-- the received headers, those of a fixed list of names are added to the outgoing request.
pub mod Allowed
use vaulthook.Prelude.{
  String, Bool, List, [], ◌∷◌, ◌++◌, Text, codes, text_eq, canonical_header_key, any, if◌then◌else◌,
}
use vaulthook.Model.{Result, ok, ◌>>=◌}

-- The header of the outgoing request, in the order of the calls of `Add`.
abbrev pub Header : Type 0
Header = List (Text × String)

-- A JSON object of string lists, decoded into `map[string][]string`.
abbrev pub Parsed : Type 0
Parsed = List (Text × List String)

-- `r.Header.Add(k, v)` for each v
unfoldable pub add_values : Text → List String → Header → Header
add_values k [] h = h
add_values k (v ∷ vs) h = add_values k vs (h ++ (canonical_header_key k, v) ∷ [])

abbrev pub is_allowed : List Text → Text → Bool
is_allowed allowed k = any (text_eq (canonical_header_key k)) allowed

unfoldable pub add_allowed : List Text → Parsed → Header → Header
unfolding add_values
add_allowed allowed [] h = h
add_allowed allowed ((k, vals) ∷ parsed) h =
    add_allowed allowed parsed (if is_allowed allowed k then add_values k vals h else h)

-- json.Unmarshal is a parameter.
module _ (unmarshal : String → Result Parsed) where
  unfoldable pub set_forward_headers : List Text → String → Header → Result Header
  unfolding add_allowed
  set_forward_headers allowed headers h =
      unmarshal headers >>= λ parsed. ok (add_allowed allowed parsed h)

abbrev pub stripe_allowed : List Text
stripe_allowed =
    codes "Content-Type"
    ∷ codes "Stripe-Signature"
    ∷ codes "User-Agent"
    ∷ codes "Cache-Control"
    ∷ []

abbrev pub github_allowed : List Text
github_allowed =
    codes "Content-Type"
    ∷ codes "X-Hub-Signature-256"
    ∷ codes "X-Hub-Signature"
    ∷ codes "X-Github-Event"
    ∷ codes "X-Github-Delivery"
    ∷ codes "X-Github-Hook-Id"
    ∷ codes "User-Agent"
    ∷ []

abbrev pub shopify_allowed : List Text
shopify_allowed =
    codes "Content-Type"
    ∷ codes "User-Agent"
    ∷ codes "X-Shopify-Topic"
    ∷ codes "X-Shopify-Hmac-Sha256"
    ∷ codes "X-Shopify-Shop-Domain"
    ∷ codes "X-Shopify-Api-Version"
    ∷ codes "X-Shopify-Webhook-Id"
    ∷ codes "X-Shopify-Triggered-At"
    ∷ codes "X-Shopify-Event-Id"
    ∷ []
