-- ===== src/Worker/Forward/Outcome.antt =====
-- What the update of a delivery attempt says of the attempt (worker/service.go).
use vaulthook.Prelude.{
  ℕ, ◌+◌, ◌*◌, ◌/◌, ◌≤◌, ◌<◌, ◌≡◌, ◌≢◌, ◌⊎◌, ◌==◌, inl, inr, refl, none, some, arith, str_eq,
  eq_iff, if◌then◌else◌, Bool-cases, ap, sym, ltb,
}
use vaulthook.Model.{delivered, failed, Provider, Webhook}
use vaulthook.Providers.Headers.{Header}
use vaulthook.Worker.Forward.{
  UpdateWebhook, Request, Response, Env, add_seconds, retry_seconds, handle_response,
  forward_headers, deliver, throttle, forward_one,
}

-- The request that an attempt for an event sends to a provider's destination.
abbrev pub request_to : Provider → Webhook → Header → Request
request_to prov hook h = record { url = prov.destination_url; body = hook.payload; header = h }

-- The update of an answered attempt is decided by the code, whatever the update held before.
abbrev pub answer_update : Env → Webhook → Provider → Response → UpdateWebhook
answer_update env hook prov res = handle_response env.now res (record {
  id = hook.id;
  prov_name = hook.provider;
  next_retry_at = none;
  delivery_status = none;
  response_code = none;
  last_error = none;
  forwarded_to = some prov.destination_url;
})

abbrev pub blank : Webhook → UpdateWebhook
blank hook = record {
  id = hook.id;
  prov_name = hook.provider;
  next_retry_at = none;
  delivery_status = none;
  response_code = none;
  last_error = none;
  forwarded_to = some hook.forwarded_to;
}

abbrev pub retargeted : Provider → Webhook → Webhook
retargeted prov hook =
    if str_eq prov.destination_url hook.forwarded_to
    then hook
    else record hook { forwarded_to = prov.destination_url }

-- The stored destination ends up as the provider's, whether it had to be written or not.
retargeted-eq :
    (prov : Provider) (hook : Webhook)
    → retargeted prov hook ≡ record hook { forwarded_to = prov.destination_url }
retargeted-eq prov hook = elim (Bool-cases (str_eq prov.destination_url hook.forwarded_to)) [
  | inl e ↦ rw e (ap (λ s. record hook { forwarded_to = s }) (sym ((eq_iff _ _).0 e)))
  | inr e ↦ rw e
]

abbrev pub aimed : Provider → Webhook → UpdateWebhook
aimed prov hook = record (blank hook) { forwarded_to = some (retargeted prov hook).forwarded_to }

-- The headers and the request do not depend on the stored destination.
pub retargeted-headers :
    (env : Env) (prov : Provider) (hook : Webhook)
    → forward_headers env (retargeted prov hook) ≡ forward_headers env hook
unfolding forward_headers
retargeted-headers env prov hook = ap (forward_headers env) (retargeted-eq prov hook)

pub retargeted-send :
    (env : Env) (prov : Provider) (hook : Webhook) (h : Header)
    → env.send (request_to prov (retargeted prov hook) h) ≡ env.send (request_to prov hook h)
retargeted-send env prov hook h = ap (λ w. env.send (request_to prov w h)) (retargeted-eq prov hook)

pub retargeted-answer :
    (env : Env) (prov : Provider) (hook : Webhook) (res : Response)
    → handle_response env.now res (aimed prov hook) ≡ answer_update env hook prov res
retargeted-answer env prov hook res =
    ap
      (λ (w : Webhook).
        handle_response env.now res (record (blank hook) { forwarded_to = some w.forwarded_to }))
      (retargeted-eq prov hook)

handle_response-id :
    (now : ℕ) (res : Response) (u : UpdateWebhook) → (handle_response now res u).id ≡ u.id
unfolding handle_response
handle_response-id now res u = ground arith

deliver-id :
    (env : Env) (prov : Provider) (hook : Webhook) (u : UpdateWebhook)
    → (deliver env prov hook u).id ≡ u.id
unfolding deliver
deliver-id env prov hook u = grind (arith, handle_response-id)

-- An update is for the row of its event.
pub forward_one-id : (env : Env) (hook : Webhook) → (forward_one env hook).id ≡ hook.id
unfolding forward_one throttle
forward_one-id env hook = grind (arith, deliver-id)

-- The classes of status codes that decide an answered event's fate.
pub data Fate : Type 0 where
  done give_up again : Fate
  unclear : Fate

-- By the hundreds: 2xx is done, 4xx but 429 is given up, 429 and 5xx or more come again, and the code
-- names no class for 1xx and 3xx.
unfoldable pub fate : ℕ → Fate
fate code =
    if code == 429
    then again
    else if code / 100 == 2
    then done
    else if code / 100 == 4
    then give_up
    else if ltb code 500
    then unclear
    else again

abbrev pub FateUpdate : Fate → UpdateWebhook → Type 0
FateUpdate done u =
    (u.delivery_status ≡ some delivered) × (u.next_retry_at ≡ none) × (u.last_error ≡ none)
FateUpdate give_up u =
    (u.delivery_status ≡ some failed) × (u.next_retry_at ≡ none) × (u.last_error ≢ none)
FateUpdate again u =
    (u.delivery_status ≡ some failed) × (u.next_retry_at ≢ none) × (u.last_error ≢ none)
FateUpdate unclear u = (u.delivery_status ≡ none) × (u.next_retry_at ≡ none) × (u.last_error ≡ none)

handle_response-fate :
    (now : ℕ) (res : Response) (u : UpdateWebhook)
    → u.delivery_status ≡ none
    → u.next_retry_at ≡ none
    → u.last_error ≡ none
    → FateUpdate (fate res.status_code) (handle_response now res u)
unfolding handle_response fate
handle_response-fate now res u p q r = ground arith

-- The update of an answered attempt is the one that its code's class calls for: 2xx is delivered for
-- good, 4xx but 429 failed for good, 429 and 5xx or more failed with a retry, and 1xx and 3xx leave
-- the update without a status.
pub answer_update-fate :
    (env : Env) (hook : Webhook) (prov : Provider) (res : Response)
    → FateUpdate (fate res.status_code) (answer_update env hook prov res)
answer_update-fate env hook prov res = handle_response-fate env.now res _ refl refl refl

-- A wait of at most 9223372036 seconds ends that many seconds after now.
add_seconds-exact :
    (now secs : ℕ) → secs ≤ 9223372036 → add_seconds now secs ≡ now + secs * 1000000000
unfolding add_seconds
add_seconds-exact now secs h = ground arith

-- A longer wait, up to 18446744073 seconds, is over before it began: the product of seconds and
-- nanoseconds wraps to a negative duration, and the retry is due at once.
pub add_seconds_wraps :
    (now secs : ℕ) → 0 < now → 9223372036 < secs → secs ≤ 18446744073 → add_seconds now secs < now
unfolding add_seconds
add_seconds_wraps now secs p l h = ground arith

-- For 429 and 503, a Retry-After of more than 0 seconds is the wait, and without one it is 30 seconds.
answer_update-retry_after :
    (env : Env) (hook : Webhook) (prov : Provider) (res : Response)
    → (res.status_code ≡ 429) ⊎ (res.status_code ≡ 503)
    → (answer_update env hook prov res).next_retry_at
      ≡ some (add_seconds env.now (retry_seconds res.retry_after))
unfolding handle_response
answer_update-retry_after env hook prov res h = ground arith
