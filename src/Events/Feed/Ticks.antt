-- ===== src/Events/Feed/Ticks.antt =====
-- What a tick of the live feed sends and counts (events/service.go, the ticker of Start and flush).
use vaulthook.Prelude.{◌+◌, ◌≤◌, ◌<◌, min, Rows, ◌≡◌, List, [], ◌∷◌, ◌++◌, length, ◌⊎◌}
use vaulthook.Model.{Webhook}
use vaulthook.Events.Feed.{Subscriber, Feed}

abbrev pub pending : Feed → List Webhook
pending s = s.buffer ++ s.broadcast

-- A subscriber before and after a batch is offered: the batch is the last one of its channel, or the
-- channel was full and is as it was.
pub record Offered (batch : List Webhook) (sub sub' : Subscriber) : Type 0 where
  pub key : sub'.key ≡ sub.key
  pub waiting :
      ((length sub.waiting < 100) × (sub'.waiting ≡ sub.waiting ++ batch ∷ []))
      ⊎ ((100 ≤ length sub.waiting) × (sub'.waiting ≡ sub.waiting))

-- What a tick makes of the pending events: `older` is what it leaves out, `newest` what it sends.
pub record Ticked (s s' : Feed) : Type 0 where
  pub older : List Webhook
  pub newest : List Webhook
  pub split : older ++ newest ≡ pending s
  pub emptied : pending s' ≡ []
  pub newest_length : length newest ≡ min 200 (length (pending s))
  pub counted : s'.dropped ≡ s.dropped + length older
  pub offered :
      ((pending s ≡ []) × (s'.subscribers ≡ s.subscribers))
      ⊎ Rows (Offered newest) s.subscribers s'.subscribers
