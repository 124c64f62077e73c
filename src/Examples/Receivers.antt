-- ===== src/Examples/Receivers.antt =====
-- The theorems on encryption and on the receivers of webhooks at concrete inputs. The cipher of the
-- examples writes each number of the text as so many ones and a zero.
use vaulthook.Prelude.{
  ℕ, zero, suc, ◌+◌, ◌≡◌, ◌≢◌, ◌<◌, refl, ◌∙◌, ap, ◌∷◌, [], true, Option, none, some, All, arith,
  subst, Text, codes, ◌⊎◌, str_eq, if◌then◌else◌,
}
use vaulthook.Model.{Fault, hook_exists, ok, github, stripe, shopify}
use vaulthook.Crypto.{Gcm, passed, encrypt_signing_key, decrypt_signing_key, ◌>>=◌}
use vaulthook.Crypto.Roundtrip.{decrypt-encrypt}
use vaulthook.Events.Feed.{new_feed}
use vaulthook.Ingest.{Env, Gateway, stripe_receive, github_receive, shopify_receive}
use vaulthook.Ingest.Accept.{Answered}
use vaulthook.Ingest.Signed.{GithubSigned, StripeSigned, ShopifySigned}
use vaulthook.Ingest.Replies.{
  github_receive-Answered, stripe_receive-Answered, shopify_receive-Answered,
}
use vaulthook.Examples.{noon, shop, shop_db, same_text}

ones : ℕ → Text → Text
ones zero rest = 0 ∷ rest
ones (suc n) rest = 1 ∷ ones n rest

unfoldable pub write_all : Text → Text
unfolding ones
write_all [] = []
write_all (n ∷ ns) = ones n (write_all ns)

unfoldable pub read_all : ℕ → Text → Text
read_all n [] = []
read_all n (zero ∷ rest) = n ∷ read_all 0 rest
read_all n (suc b ∷ rest) = read_all (suc n) rest

read_all-ones : (n k : ℕ) (rest : Text) → read_all k (ones n rest) ≡ (k + n) ∷ read_all 0 rest
unfolding read_all ones
read_all-ones zero k rest = let e : k + 0 ≡ k = omega arith in rw e
read_all-ones (suc n) k rest =
    read_all-ones n (suc k) rest ∙ (let e : suc k + n ≡ k + suc n = omega arith in rw e)

pub read_all-write_all : (ns : Text) → read_all 0 (write_all ns) ≡ ns
unfolding read_all write_all
read_all-write_all [] = refl
read_all-write_all (n ∷ ns) =
    let e : 0 + n ≡ n = omega arith in
    read_all-ones n 0 (write_all ns) ∙ rw e (ap (λ (l : Text). n ∷ l) (read_all-write_all ns))

ones-bytes : (n : ℕ) (rest : Text) → All (λ b. b < 256) rest → All (λ b. b < 256) (ones n rest)
unfolding ones
ones-bytes zero rest h = (omega arith, h)
ones-bytes (suc n) rest h = (omega arith, ones-bytes n rest h)

pub write_all-bytes : (ns : Text) → All (λ b. b < 256) (write_all ns)
unfolding write_all
write_all-bytes [] = tt
write_all-bytes (n ∷ ns) = ones-bytes n (write_all ns) (write_all-bytes ns)

unfoldable pub cipher : Gcm
unfolding read_all write_all
cipher = record {
  valid_key = λ key. true;
  seal = λ key nonce plain. write_all plain;
  unseal = λ key nonce c. some (read_all 0 c);
  unseal_seal = λ key nonce plain. ap some (read_all-write_all plain);
  seal_bytes = λ key nonce plain. write_all-bytes plain;
}

abbrev pub nonce : Text
nonce = 1 ∷ 2 ∷ 3 ∷ 4 ∷ 5 ∷ 6 ∷ 7 ∷ 8 ∷ 9 ∷ 10 ∷ 11 ∷ 12 ∷ []

pub nonce_bytes : All (λ b. b < 256) nonce
nonce_bytes = ground arith

abbrev few_bytes : Text
few_bytes = 200 ∷ 201 ∷ []

decrypt-encrypt_example :
    (encrypt_signing_key cipher [] (some nonce) (codes "whsec") >>= decrypt_signing_key cipher [])
    ≡ passed (codes "whsec")
unfolding cipher
decrypt-encrypt_example = decrypt-encrypt cipher [] nonce (codes "whsec") refl refl nonce_bytes

-- A request that every receiver takes: each header's text is the same, and every HMAC is empty.
abbrev env : Env
env = record {
  read_body = some "{}";
  header = λ name. if str_eq name "X-Hub-Signature-256" then "sha256=" else "id-1";
  headers_json = some "{}";
  received_at = noon;
  cache_get = λ _. ok shop;
  gcm = cipher;
  master_key = [];
  hmac_sha256 = λ _ _. [];
  base64_decode = λ _. some [];
  construct_event = λ _ _ _. ok ("evt_1", "charge.succeeded");
  exists_fault = none;
  insert_fault = none;
  new_id = 20;
  jsonb = same_text;
}

abbrev gateway : Gateway
gateway = record { db = shop_db; feed = new_feed; signals = 0; signal_capacity = 4 }

no_conflict : env.insert_fault ≢ some hook_exists
no_conflict h = subst IsNone h tt
  where
    IsNone : Option Fault → Type 0
    IsNone none = Unit
    IsNone (some e) = ⊥

github_receive-Answered_example :
    Answered env github
      (λ payload id.
        GithubSigned env payload
        × ((id ≡ env.header "X-Github-Delivery") ⊎ (id ≡ env.header "X-Github-Hook-Id")))
      (λ payload id. GithubSigned env payload × (id ≡ env.header "X-Github-Hook-Id"))
      gateway
      (github_receive env gateway)
github_receive-Answered_example = github_receive-Answered env no_conflict gateway

stripe_receive-Answered_example :
    Answered env stripe (StripeSigned env) (StripeSigned env) gateway (stripe_receive env gateway)
stripe_receive-Answered_example = stripe_receive-Answered env no_conflict gateway

shopify_receive-Answered_example :
    Answered env shopify
      (ShopifySigned env)
      (ShopifySigned env)
      gateway
      (shopify_receive env gateway)
shopify_receive-Answered_example = shopify_receive-Answered env no_conflict gateway
