-- ===== src/Worker/Forward/Accepted.antt =====
-- An attempt that the destination takes (worker/service.go, forwardEvent).
use vaulthook.Prelude.{◌≡◌, ap, ◌∙◌, subst, true, some}
use vaulthook.Model.{ok, delivered, Provider, Webhook}
use vaulthook.Providers.Headers.{Header}
use vaulthook.Worker.Forward.{
  UpdateWebhook, Env, Response, handle_response, forward_headers, deliver, throttle, forward_one,
}
use vaulthook.Worker.Forward.Outcome.{
  request_to, answer_update, retargeted, aimed, retargeted-headers, retargeted-send,
  retargeted-answer, fate, done, FateUpdate, answer_update-fate,
}

-- The destination takes the event: the provider is in the cache, the limiter lets the request pass, the
-- request can be made, and the answer is one of success.
pub record Accepts (env : Env) (hook : Webhook) : Type 0 where
  pub prov : Provider
  pub header : Header
  pub res : Response
  pub cached : env.cache_get hook.provider ≡ ok prov
  pub allowed : env.allow prov ≡ ok true
  pub requested : env.new_request prov.destination_url ≡ ok tt
  pub parsed : forward_headers env hook ≡ ok header
  pub sent : env.send (request_to prov hook header) ≡ ok res
  pub success : fate res.status_code ≡ done

deliver-accepted :
    (env : Env) (prov : Provider) (hook : Webhook) (u : UpdateWebhook) (h : Header) (res : Response)
    → env.new_request prov.destination_url ≡ ok tt
    → forward_headers env hook ≡ ok h
    → env.send (request_to prov hook h) ≡ ok res
    → deliver env prov hook u ≡ handle_response env.now res u
unfolding deliver
deliver-accepted env prov hook u h res r p s = rw (r, p, s, deliver)

Accepts-answer :
    (env : Env) (hook : Webhook) (a : Accepts env hook)
    → forward_one env hook ≡ answer_update env hook a.prov a.res
unfolding forward_one throttle
Accepts-answer env hook a =
    let now = retargeted a.prov hook in
    let sent =
      deliver-accepted env a.prov now (aimed a.prov hook) a.header a.res a.requested
        (retargeted-headers env a.prov hook ∙ a.parsed)
        (retargeted-send env a.prov hook a.header ∙ a.sent) in
    rw (a.cached, forward_one)
      (rw (a.allowed, throttle) (sent ∙ retargeted-answer env a.prov hook a.res))

-- The update of an attempt that the destination takes says delivered.
pub Accepts-delivered :
    (env : Env) (hook : Webhook)
    → Accepts env hook
    → (forward_one env hook).delivery_status ≡ some delivered
Accepts-delivered env hook a =
    let good : FateUpdate done (answer_update env hook a.prov a.res) =
      subst (λ f. FateUpdate f (answer_update env hook a.prov a.res)) a.success
        (answer_update-fate env hook a.prov a.res) in
    ap (λ (u : UpdateWebhook). u.delivery_status) (Accepts-answer env hook a) ∙ good.0
