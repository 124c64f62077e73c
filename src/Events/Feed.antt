-- ===== src/Events/Feed.antt =====
-- events/service.go: the live feed. `Send` puts an event into a bounded channel; the loop of `Start`
-- moves events to a buffer, and on each tick of its clock drains the channel and flushes the buffer as
-- one batch to every subscriber's channel. `select` picks any ready case: the loop is the relation
-- `FeedStep`, in any order.
pub mod Conserve
pub mod Ticks
use vaulthook.Prelude.{
  ℕ, ◌+◌, ◌-◌, Bool, true, false, List, [], ◌∷◌, ◌++◌, map, ltb, ◌==◌, not, length, drop, keep,
  if◌then◌else◌,
}
use vaulthook.Model.{Webhook}

abbrev pub max_batch_size : ℕ
max_batch_size = 200

abbrev pub max_buffer_size : ℕ
max_buffer_size = 10000

abbrev pub max_hooks_per_channel : ℕ
max_hooks_per_channel = 100

-- A subscriber's channel, by an identity, with the batches that wait in it.
pub record Subscriber : Type 0 where
  pub key : ℕ
  pub waiting : List (List Webhook)

pub record Feed : Type 0 where
  pub buffer : List Webhook
  pub broadcast : List Webhook
  pub subscribers : List Subscriber
  pub dropped : ℕ  -- int64
  pub next_key : ℕ

-- `NewEventService`
abbrev pub new_feed : Feed
new_feed = record { buffer = []; broadcast = []; subscribers = []; dropped = 0; next_key = 0 }

-- `Send`: an event that finds the channel full is not in the feed.
unfoldable pub send : Webhook → Feed → Feed
send event s =
    if ltb (length s.broadcast) max_buffer_size
    then record s { broadcast = s.broadcast ++ event ∷ [] }
    else s

-- The case of `Start` that receives one event.
take_first : List Webhook → Feed → Feed
take_first [] s = s
take_first (event ∷ rest) s = record s { buffer = s.buffer ++ event ∷ []; broadcast = rest }

unfoldable pub take_one : Feed → Feed
unfolding take_first
take_one s = take_first s.broadcast s

-- `drainBroadcast`: receive until the channel is empty.
drain_from : List Webhook → List Webhook → List Webhook
drain_from buffer [] = buffer
drain_from buffer (event ∷ rest) = drain_from (buffer ++ event ∷ []) rest

unfoldable pub drain_broadcast : Feed → Feed
unfolding drain_from
drain_broadcast s = record s { buffer = drain_from s.buffer s.broadcast; broadcast = [] }

-- One subscriber of the flush: a full channel misses the batch.
unfoldable pub offer : List Webhook → Subscriber → Subscriber
offer batch sub =
    if ltb (length sub.waiting) max_hooks_per_channel
    then record sub { waiting = sub.waiting ++ batch ∷ [] }
    else sub

-- The batch of a flush: the newest events, at most `max_batch_size`.
unfoldable pub batch_of : List Webhook → List Webhook
batch_of buffer =
    if ltb max_batch_size (length buffer)
    then drop (length buffer - max_batch_size) buffer
    else buffer

-- `flush`
unfoldable pub flush : Feed → Feed
unfolding offer batch_of
flush s = if length s.buffer == 0 then s else record s {
  buffer = [];
  dropped = s.dropped + (length s.buffer - max_batch_size);
  subscribers = map (offer (batch_of s.buffer)) s.subscribers;
}

-- The case of `Start` for a tick of the clock.
unfoldable pub tick : Feed → Feed
tick s = flush (drain_broadcast s)

-- `Subscribe`, and the function that it returns.
unfoldable pub subscribe : Feed → ℕ × Feed
subscribe s = (
  s.next_key,
  record s {
    subscribers = record { key = s.next_key; waiting = [] } ∷ s.subscribers;
    next_key = s.next_key + 1;
  },
)

unfoldable pub unsubscribe : ℕ → Feed → Feed
unsubscribe k s = record s { subscribers = keep (λ sub. not (sub.key == k)) s.subscribers }

-- `Dropped`: the count since the last call, which is reset.
unfoldable pub take_dropped : Feed → ℕ × Feed
take_dropped s = (s.dropped, record s { dropped = 0 })

-- A subscriber receives the oldest batch of its channel.
abbrev pub receive_batch : ℕ → Subscriber → Subscriber
receive_batch k sub = if sub.key == k then record sub { waiting = drop 1 sub.waiting } else sub

unfoldable pub receive : ℕ → Feed → Feed
receive k s = record s { subscribers = map (receive_batch k) s.subscribers }

pub data FeedStep : Feed → Feed → Type 0 where
  sends : (event : Webhook) (s : Feed) → FeedStep s (send event s)
  takes : (s : Feed) → FeedStep s (take_one s)
  ticks : (s : Feed) → FeedStep s (tick s)
  subscribes : (s : Feed) → FeedStep s (subscribe s).1
  unsubscribes : (k : ℕ) (s : Feed) → FeedStep s (unsubscribe k s)
  asks_dropped : (s : Feed) → FeedStep s (take_dropped s).1
  receives : (k : ℕ) (s : Feed) → FeedStep s (receive k s)

pub data FeedReach (s : Feed) : Feed → Type 0 where
  here : FeedReach s s
  next : {t u : Feed} → FeedReach s t → FeedStep t u → FeedReach s u
