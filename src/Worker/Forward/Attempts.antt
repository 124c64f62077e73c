-- ===== src/Worker/Forward/Attempts.antt =====
-- Every attempt to forward an event is answered or hindered (worker/service.go, forwardEvent).
use vaulthook.Prelude.{
  ℕ, ◌≡◌, ◌⊎◌, inl, inr, refl, String, true, false, Option, none, some, sym, ◌∙◌, atoi,
}
use vaulthook.Model.{Fault, ok, err, message, Result-cases, failed, Provider, Webhook}
use vaulthook.Providers.Headers.{Header}
use vaulthook.Worker.Forward.{
  UpdateWebhook, Response, Env, add_seconds, retry_seconds, handle_response, forward_headers,
  deliver, throttle, forward_one, set_default_update_values, set_rate_limited_update_values,
  rate_limited_text,
}
use vaulthook.Worker.Forward.Outcome.{
  request_to, answer_update, blank, retargeted, aimed, retargeted-headers, retargeted-send,
  retargeted-answer,
}

-- Why an allowed attempt gets no answer, with the error's text.
pub data Undelivered (env : Env) (prov : Provider) (hook : Webhook) : String → Type 0 where
  no_request :
      (e : Fault)
      → env.new_request prov.destination_url ≡ err e
      → Undelivered env prov hook (message e)
  bad_headers :
      (e : Fault) → forward_headers env hook ≡ err e → Undelivered env prov hook (message e)
  no_answer :
      (h : Header) (e : Fault)
      → forward_headers env hook ≡ ok h
      → env.send (request_to prov hook h) ≡ err e
      → Undelivered env prov hook (message e)

-- Why an attempt gets no answer, with the response code and the error that its update has.
pub data Hindrance (env : Env) (hook : Webhook) : Option ℕ → String → Type 0 where
  unknown : (e : Fault) → env.cache_get hook.provider ≡ err e → Hindrance env hook none (message e)
  no_permission :
      (prov : Provider) (e : Fault)
      → env.cache_get hook.provider ≡ ok prov
      → env.allow prov ≡ err e
      → Hindrance env hook none (message e)
  limited :
      (prov : Provider)
      → env.cache_get hook.provider ≡ ok prov
      → env.allow prov ≡ ok false
      → Hindrance env hook (some 429) rate_limited_text
  undelivered :
      (prov : Provider) (text : String)
      → env.cache_get hook.provider ≡ ok prov
      → env.allow prov ≡ ok true
      → Undelivered env prov hook text
      → Hindrance env hook none text

-- What an attempt that got no answer leaves.
pub record Unanswered (now : ℕ) (code : Option ℕ) (text : String) (u : UpdateWebhook) : Type 0 where
  pub status : u.delivery_status ≡ some failed
  pub due : u.next_retry_at ≡ some (add_seconds now 30)
  pub code_is : u.response_code ≡ code
  pub error_is : u.last_error ≡ some text

-- Each attempt is either answered, and its update is the one for the answer, or something hindered it,
-- and it is a failure that says what, due again after the retry interval.
abbrev pub Attempt : Env → Webhook → Type 0
Attempt env hook =
    ((res : Response) × (prov : Provider) × (h : Header) × (env.cache_get hook.provider ≡ ok prov)
      × (env.allow prov ≡ ok true)
      × (forward_headers env hook ≡ ok h)
      × (env.send (request_to prov hook h) ≡ ok res)
      × (forward_one env hook ≡ answer_update env hook prov res))
    ⊎ ((code : Option ℕ) × (text : String) × Hindrance env hook code text
        × Unanswered env.now code text (forward_one env hook))

set_default-Unanswered :
    (now : ℕ) (e : String) (u : UpdateWebhook)
    → Unanswered now none e (set_default_update_values now e u)
unfolding set_default_update_values
set_default-Unanswered now e u = record {
  status = refl;
  due = refl;
  code_is = refl;
  error_is = refl;
}

retry_seconds-nil : retry_seconds "" ≡ 30
unfolding retry_seconds atoi
retry_seconds-nil = refl

set_rate_limited-Unanswered :
    (now : ℕ) (code : ℕ) (e : String) (u : UpdateWebhook)
    → Unanswered now (some code) e (set_rate_limited_update_values now code e "" u)
unfolding set_rate_limited_update_values
set_rate_limited-Unanswered now code e u =
    rw retry_seconds-nil (record { status = refl; due = refl; code_is = refl; error_is = refl })

deliver-Attempt :
    (env : Env) (prov : Provider) (hook : Webhook) (u : UpdateWebhook)
    → ((res : Response) × (h : Header) × (forward_headers env hook ≡ ok h)
        × (env.send (request_to prov hook h) ≡ ok res)
        × (deliver env prov hook u ≡ handle_response env.now res u))
      ⊎ ((text : String) × Undelivered env prov hook text
          × Unanswered env.now none text (deliver env prov hook u))
unfolding deliver
deliver-Attempt env prov hook u = elim (Result-cases (env.new_request prov.destination_url)) [
  | inl (e, bad) ↦
      inr (_, no_request e bad, rw (bad, deliver) (set_default-Unanswered env.now (message e) u))
  | inr (_, good) ↦ elim (Result-cases (forward_headers env hook)) [
    | inl (e, bad) ↦ inr (
      _,
      bad_headers e bad,
      rw (good, bad, deliver) (set_default-Unanswered env.now (message e) u),
    )
    | inr (h, parsed) ↦ elim (Result-cases (env.send (request_to prov hook h))) [
      | inl (e, bad) ↦ inr (
        _,
        no_answer h e parsed bad,
        rw (good, parsed, bad, deliver) (set_default-Unanswered env.now (message e) u),
      )
      | inr (res, sent) ↦ inl (res, h, parsed, sent, rw (good, parsed, sent, deliver))
    ]
  ]
]

throttle-Attempt :
    (env : Env) (prov : Provider) (hook hook' : Webhook) (u : UpdateWebhook)
    → env.cache_get hook.provider ≡ ok prov
    → ((env.allow prov ≡ ok true) × (throttle env prov hook' u ≡ deliver env prov hook' u))
      ⊎ ((code : Option ℕ) × (text : String) × Hindrance env hook code text
          × Unanswered env.now code text (throttle env prov hook' u))
unfolding throttle
throttle-Attempt env prov hook hook' u cached = elim (Result-cases (env.allow prov)) [
  | inl (e, bad) ↦ inr (
    _,
    _,
    no_permission prov e cached bad,
    rw (bad, throttle) (set_default-Unanswered env.now (message e) u),
  )
  | inr (true, allowed) ↦ inl (allowed, rw (allowed, throttle))
  | inr (false, full) ↦ inr (
    _,
    _,
    limited prov cached full,
    rw (full, throttle) (set_rate_limited-Unanswered env.now 429 rate_limited_text u),
  )
]

Undelivered-retargeted :
    (env : Env) (prov : Provider) (hook : Webhook) (text : String)
    → Undelivered env prov (retargeted prov hook) text
    → Undelivered env prov hook text
Undelivered-retargeted env prov hook _ (no_request e bad) = no_request e bad
Undelivered-retargeted env prov hook _ (bad_headers e bad) =
    bad_headers e (sym (retargeted-headers env prov hook) ∙ bad)
Undelivered-retargeted env prov hook _ (no_answer h e parsed bad) =
    no_answer h e (sym (retargeted-headers env prov hook) ∙ parsed)
      (sym (retargeted-send env prov hook h) ∙ bad)

-- Every attempt to forward an event is of one of two kinds. Either the provider was found in the
-- cache, the rate limiter allowed the request, the headers were read and the destination answered the
-- event's payload, and then the update is the one for that answer. Or one of these failed, and then
-- the update is a failure that is due again in 30 seconds, with the text of the very error that
-- stopped the attempt and without a response code, except that a request that the rate limiter
-- refused gets the code 429.
pub forward_one-Attempt : (env : Env) (hook : Webhook) → Attempt env hook
unfolding forward_one
forward_one-Attempt env hook = elim (Result-cases (env.cache_get hook.provider)) [
  | inl (e, bad) ↦ inr (
    _,
    _,
    unknown e bad,
    rw (bad, forward_one) (set_default-Unanswered env.now (message e) (blank hook)),
  )
  | inr (prov, cached) ↦
      elim (throttle-Attempt env prov hook (retargeted prov hook) (aimed prov hook) cached) [
        | inr (code, text, why, u) ↦ inr (code, text, why, rw (cached, forward_one) u)
        | inl (allowed, passed) ↦
            elim (deliver-Attempt env prov (retargeted prov hook) (aimed prov hook)) [
              | inr (text, why, u) ↦ inr (
                none,
                text,
                undelivered prov text cached allowed
                    (Undelivered-retargeted env prov hook text why),
                rw (cached, forward_one) (rw passed u),
              )
              | inl (res, h, parsed, sent, e) ↦ inl (
                res,
                prov,
                h,
                cached,
                allowed,
                sym (retargeted-headers env prov hook) ∙ parsed,
                sym (retargeted-send env prov hook h) ∙ sent,
                rw (cached, forward_one) passed ∙ e ∙ retargeted-answer env prov hook res,
              )
            ]
      ]
]
