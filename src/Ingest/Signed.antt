-- ===== src/Ingest/Signed.antt =====
-- What a validated secret establishes: providers/{stripe,github,shopify}/service.go, ValidateSecret.
use vaulthook.Prelude.{
  ◌≡◌, refl, sym, ◌∙◌, ap, subst, String, Bool, true, false, some, ◌++◌, Text, codes, text_eq_sound,
  hex_encode, Option-cases, inl, inr, ◌⊎◌,
}
use vaulthook.Model.{Fault, ok, Result-cases, stripe, shopify, github}
use vaulthook.Crypto.{Checked, passed, refused, panicked}
use vaulthook.Ingest.{
  Env, require, secret_of, github_validate_secret, shopify_validate_secret, stripe_validate_secret,
}

-- To split on the result of a validation and keep the equation.
pub Checked-cases :
    {A : Type 0} (r : Checked A)
    → ((e : Fault) × (r ≡ refused e)) ⊎ (r ≡ panicked) ⊎ ((a : A) × (r ≡ passed a))
Checked-cases (refused e) = inl (e, refl)
Checked-cases panicked = inr (inl refl)
Checked-cases (passed a) = inr (inr (a, refl))

unfoldable pub IsPassed : {A : Type 0} → Checked A → Type 0
IsPassed (passed a) = Unit
IsPassed _ = ⊥

pub passed-IsPassed : {A : Type 0} (r : Checked A) (a : A) → r ≡ passed a → IsPassed r
unfolding IsPassed
passed-IsPassed r a e = subst IsPassed (sym e) tt

require-true : (b : Bool) → IsPassed (require b) → b ≡ true
unfolding IsPassed
require-true true h = refl
require-true false h = absurd h

-- github: the header is "sha256=" and the hexadecimal HMAC of the body under the provider's secret.
abbrev pub GithubSigned : Env → String → Type 0
GithubSigned env payload =
    (secret : Text) × (secret_of env github ≡ passed secret)
    × (codes (env.header "X-Hub-Signature-256")
        ≡ codes "sha256=" ++ hex_encode (env.hmac_sha256 secret payload))

pub github_validate_secret-Signed :
    (env : Env) (payload : String)
    → IsPassed (github_validate_secret env (env.header "X-Hub-Signature-256") payload)
    → GithubSigned env payload
unfolding github_validate_secret IsPassed
github_validate_secret-Signed env payload h = elim (Checked-cases (secret_of env github)) [
  | inl (e, r) ↦ absurd (rw r at h)
  | inr (inl r) ↦ absurd (rw r at h)
  | inr (inr (secret, r)) ↦ (secret, r, sym (text_eq_sound _ _ (require-true _ (rw r at h))))
]

-- shopify: the header is the Base64 of the HMAC, and the id is the header's.
abbrev pub ShopifySigned : Env → String → String → Type 0
ShopifySigned env payload id =
    (id ≡ env.header "X-Shopify-Webhook-Id")
    × (secret : Text) × (secret_of env shopify ≡ passed secret)
    × (env.base64_decode (codes (env.header "X-Shopify-Hmac-Sha256"))
        ≡ some (env.hmac_sha256 secret payload))

pub shopify_validate_secret-Signed :
    (env : Env) (payload : String)
    → IsPassed (shopify_validate_secret env (env.header "X-Shopify-Hmac-Sha256") payload)
    → ShopifySigned env payload (env.header "X-Shopify-Webhook-Id")
unfolding shopify_validate_secret IsPassed
shopify_validate_secret-Signed env payload h = elim (Checked-cases (secret_of env shopify)) [
  | inl (e, r) ↦ absurd (rw r at h)
  | inr (inl r) ↦ absurd (rw r at h)
  | inr (inr (secret, r)) ↦
      elim (Option-cases (env.base64_decode (codes (env.header "X-Shopify-Hmac-Sha256")))) [
        | inl d ↦ absurd (rw (r, d) at h)
        | inr (sig, d) ↦
            (refl, secret, r, d ∙ ap some (text_eq_sound _ _ (require-true _ (rw (r, d) at h))))
      ]
]

-- stripe: Stripe's library made an event with the id of the body, its header and the secret.
abbrev pub StripeSigned : Env → String → String → Type 0
StripeSigned env payload id =
    (secret : Text) × (secret_of env stripe ≡ passed secret)
    × (event : String) × (env.construct_event payload (env.header "Stripe-Signature") secret
        ≡ ok (id, event))

passed-inj : (a b : String × String) → passed a ≡ passed b → a ≡ b
passed-inj a b e = ap value e
  where
    value : Checked (String × String) → String × String
    value (passed c) = c
    value _ = a

pub stripe_validate_secret-Signed :
    (env : Env) (payload id event : String)
    → stripe_validate_secret env (env.header "Stripe-Signature") payload ≡ passed (id, event)
    → StripeSigned env payload id
unfolding stripe_validate_secret IsPassed
stripe_validate_secret-Signed env payload id event h = elim (Checked-cases (secret_of env stripe)) [
  | inl (e, r) ↦ absurd (subst IsPassed (sym (rw r at h)) tt)
  | inr (inl r) ↦ absurd (subst IsPassed (sym (rw r at h)) tt)
  | inr (inr (secret, r)) ↦
      elim (Result-cases (env.construct_event payload (env.header "Stripe-Signature") secret)) [
        | inl (e, d) ↦ absurd (subst IsPassed (sym (rw (r, d) at h)) tt)
        | inr (ev, d) ↦ (secret, r, event, d ∙ ap ok (passed-inj ev (id, event) (rw (r, d) at h)))
      ]
]
