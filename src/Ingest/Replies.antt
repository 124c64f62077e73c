-- ===== src/Ingest/Replies.antt =====
-- The receivers of webhooks, on every request: api/handler/{stripe,github,shopify}.go.
use vaulthook.Prelude.{◌≡◌, ◌≢◌, refl, arith, some, str_eq, Bool-cases, Option-cases, inl, inr, ◌⊎◌}
use vaulthook.Model.{hook_exists, stripe, shopify, github}
use vaulthook.Ingest.{
  Gateway, Env, service, store, store_headers, stripe_receive, github_receive, shopify_receive,
  github_validate_secret, shopify_validate_secret, stripe_validate_secret,
}
use vaulthook.Ingest.Accept.{
  Answered, declined, cut, store-Answered, store_headers-Answered, unless_exists-Answered,
  validation_status-ne, shopify_validation_status-ne,
}
use vaulthook.Ingest.Signed.{
  Checked-cases, passed-IsPassed, GithubSigned, ShopifySigned, StripeSigned,
  github_validate_secret-Signed, shopify_validate_secret-Signed, stripe_validate_secret-Signed,
}

module _ (env : Env) (driver : env.insert_fault ≢ some hook_exists) (g : Gateway) where
  -- Whatever a sender posts to the GitHub receiver: a reply other than 200 and "queued" leaves the
  -- tables, the feed and the workers' signal alone; 200 alone means that the event of the delivery or
  -- of the hook id is in the table; "queued" means that the body carried the HMAC of the provider's
  -- secret, and that one queued row with the hook's id was added, sent to the feed and signalled. The
  -- driver never returns the code's own conflict error for an INSERT.
  pub github_receive-Answered :
      Answered env github
        (λ payload id.
          GithubSigned env payload
          × ((id ≡ env.header "X-Github-Delivery") ⊎ (id ≡ env.header "X-Github-Hook-Id")))
        (λ payload id. GithubSigned env payload × (id ≡ env.header "X-Github-Hook-Id"))
        g
        (github_receive env g)
  unfolding github_receive
  github_receive-Answered = elim (Option-cases env.read_body) [
    | inl b ↦ simp (b, github_receive) (declined 503 (omega arith))
    | inr (payload, b) ↦ elim (Bool-cases (str_eq (env.header "X-Github-Hook-Id") "")) [
      | inl h ↦ simp (b, h, github_receive) (declined 400 (omega arith))
      | inr h ↦ elim (Bool-cases (str_eq (env.header "X-Github-Event") "")) [
        | inl v ↦ simp (b, h, v, github_receive) (declined 400 (omega arith))
        | inr v ↦
            elim (Checked-cases
              (github_validate_secret env (env.header "X-Hub-Signature-256") payload)) [
                | inl (e, r) ↦
                    simp (b, h, v, r, github_receive) (declined _ (validation_status-ne e))
                | inr (inl r) ↦ simp (b, h, v, r, github_receive) cut
                | inr (inr (u, r)) ↦
                    let signed =
                      github_validate_secret-Signed env payload (passed-IsPassed _ u r) in
                    simp (b, h, v, r, github_receive)
                      (unless_exists-Answered env github _ _ g payload
                        (env.header "X-Github-Delivery")
                        (store_headers env (service env github) (env.header "X-Github-Hook-Id")
                          (env.header "X-Github-Event") payload)
                        b (signed, inl refl)
                        λ prov.
                          store_headers-Answered env github _ _ g payload
                            (env.header "X-Github-Hook-Id") (env.header "X-Github-Event") prov
                            driver b (signed, inr refl) (signed, refl))
              ]
      ]
    ]
  ]

  -- The Stripe receiver in the same way; the event and its id are what Stripe's library made of the
  -- body, the signature header and the provider's secret.
  pub stripe_receive-Answered :
      Answered env stripe (StripeSigned env) (StripeSigned env) g (stripe_receive env g)
  unfolding stripe_receive
  stripe_receive-Answered = elim (Option-cases env.read_body) [
    | inl b ↦ simp (b, stripe_receive) (declined 503 (omega arith))
    | inr (payload, b) ↦
        elim (Checked-cases (stripe_validate_secret env (env.header "Stripe-Signature") payload)) [
          | inl (e, r) ↦ simp (b, r, stripe_receive) (declined _ (validation_status-ne e))
          | inr (inl r) ↦ simp (b, r, stripe_receive) cut
          | inr (inr ((id, event), r)) ↦
              let signed = stripe_validate_secret-Signed env payload id event r in
              simp (b, r, stripe_receive)
                (unless_exists-Answered env stripe _ _ g payload id
                  (store_headers env (service env stripe) id event payload) b signed
                  λ prov.
                    store_headers-Answered env stripe _ _ g payload id event prov driver b signed
                      signed)
        ]
  ]

  -- The Shopify receiver in the same way, by the Base64 HMAC header and the id of its header.
  pub shopify_receive-Answered :
      Answered env shopify (ShopifySigned env) (ShopifySigned env) g (shopify_receive env g)
  unfolding shopify_receive
  shopify_receive-Answered = elim (Option-cases env.read_body) [
    | inl b ↦ simp (b, shopify_receive) (declined 503 (omega arith))
    | inr (payload, b) ↦ elim (Bool-cases (str_eq (env.header "X-Shopify-Webhook-Id") "")) [
      | inl h ↦ simp (b, h, shopify_receive) (declined 400 (omega arith))
      | inr h ↦ elim (Option-cases env.headers_json) [
        | inl j ↦ simp (b, h, j, shopify_receive) (declined 500 (omega arith))
        | inr (hs, j) ↦ elim (Bool-cases (str_eq (env.header "X-Shopify-Topic") "")) [
          | inl v ↦ simp (b, h, j, v, shopify_receive) (declined 400 (omega arith))
          | inr v ↦
              elim (Checked-cases
                (shopify_validate_secret env (env.header "X-Shopify-Hmac-Sha256") payload)) [
                  | inl (e, r) ↦
                      simp (b, h, j, v, r, shopify_receive)
                        (declined _ (shopify_validation_status-ne e))
                  | inr (inl r) ↦ simp (b, h, j, v, r, shopify_receive) cut
                  | inr (inr (u, r)) ↦
                      let signed =
                        shopify_validate_secret-Signed env payload (passed-IsPassed _ u r) in
                      simp (b, h, j, v, r, shopify_receive)
                        (unless_exists-Answered env shopify _ _ g payload
                          (env.header "X-Shopify-Webhook-Id")
                          (store (service env shopify) (env.header "X-Shopify-Webhook-Id")
                            (env.header "X-Shopify-Topic") hs payload)
                          b signed
                          λ prov.
                            store-Answered env shopify _ _ g payload
                              (env.header "X-Shopify-Webhook-Id") (env.header "X-Shopify-Topic") hs
                              prov driver b signed signed)
                ]
        ]
      ]
    ]
  ]
