-- ===== src/Events/Feed/Conserve.antt =====
-- The bounds of the live feed: its channel, its batches and its subscribers' channels (events/service.go).
use vaulthook.Prelude.{
  ℕ, ◌-◌, ◌≤◌, ◌≡◌, List, [], ◌∷◌, ◌++◌, map, arith, ltb, ◌==◌, length, take, drop, All, All-keep,
  length-append, length-drop, take-append-drop, Bool-cases, inl, inr,
}
use vaulthook.Model.{Webhook}
use vaulthook.Events.Feed.{
  max_batch_size, max_buffer_size, max_hooks_per_channel, Subscriber, Feed, new_feed, send,
  take_first, take_one, drain_broadcast, offer, batch_of, flush, tick, subscribe, unsubscribe,
  take_dropped, receive_batch, receive, FeedStep, FeedReach,
}

pub batch_of-drop :
    (buffer : List Webhook) → batch_of buffer ≡ drop (length buffer - max_batch_size) buffer
unfolding batch_of
batch_of-drop buffer = elim (Bool-cases (ltb max_batch_size (length buffer))) [
  | inl e ↦ rw e
  | inr e ↦ let few : length buffer - max_batch_size ≡ 0 = ground arith in rw (e, few)
]

-- A batch has at most 200 events, the newest of the buffer: the events that it leaves out stand before
-- it.
pub batch_of-newest :
    (buffer : List Webhook)
    → (take (length buffer - max_batch_size) buffer ++ batch_of buffer ≡ buffer)
      × (length (batch_of buffer) ≤ max_batch_size)
batch_of-newest buffer = rw (batch_of-drop buffer) (
  take-append-drop (length buffer - max_batch_size) buffer,
  omega (arith, length-drop (length buffer - max_batch_size) buffer),
)

-- The bounds of the feed: its channel, its subscribers' channels, and every batch in them.
abbrev pub IsBatch : List Webhook → Type 0
IsBatch batch = length batch ≤ max_batch_size

abbrev pub IsServed : Subscriber → Type 0
IsServed sub = (length sub.waiting ≤ max_hooks_per_channel) × All IsBatch sub.waiting

pub record IsBounded (s : Feed) : Type 0 where
  pub channel : length s.broadcast ≤ max_buffer_size
  pub served : All IsServed s.subscribers

All-append-one :
    (batches : List (List Webhook)) (b : List Webhook)
    → All IsBatch batches
    → IsBatch b
    → All IsBatch (batches ++ b ∷ [])
All-append-one [] b h k = (k, tt)
All-append-one (x ∷ xs) b h k = (h.0, All-append-one xs b h.1 k)

All-drop-one : (batches : List (List Webhook)) → All IsBatch batches → All IsBatch (drop 1 batches)
All-drop-one [] h = h
All-drop-one (b ∷ bs) h = h.1

All-map :
    (f : Subscriber → Subscriber) (subs : List Subscriber)
    → ((sub : Subscriber) → IsServed sub → IsServed (f sub))
    → All IsServed subs
    → All IsServed (map f subs)
All-map f [] k h = tt
All-map f (x ∷ xs) k h = (k x h.0, All-map f xs k h.1)

offer-IsServed :
    (batch : List Webhook) (sub : Subscriber)
    → IsBatch batch
    → IsServed sub
    → IsServed (offer batch sub)
unfolding offer
offer-IsServed batch sub b h = elim (Bool-cases (ltb (length sub.waiting) max_hooks_per_channel)) [
  | inl e ↦
      rw (e, offer)
        (
          ground (arith, length-append sub.waiting (batch ∷ [])),
          All-append-one sub.waiting batch h.1 b,
        )
  | inr e ↦ rw (e, offer) h
]

receive_batch-IsServed : (k : ℕ) (sub : Subscriber) → IsServed sub → IsServed (receive_batch k sub)
receive_batch-IsServed k sub h = elim (Bool-cases (sub.key == k)) [
  | inl e ↦ rw e (omega (arith, h.0, length-drop 1 sub.waiting), All-drop-one sub.waiting h.1)
  | inr e ↦ rw e h
]

flush-IsBounded : (s : Feed) → IsBounded s → IsBounded (flush s)
unfolding flush
flush-IsBounded s h = elim (Bool-cases (length s.buffer == 0)) [
  | inl e ↦ rw (e, flush) h
  | inr e ↦
      rw (e, flush)
        (record {
          channel = h.channel;
          served =
              All-map (offer (batch_of s.buffer)) s.subscribers
                (λ sub k. offer-IsServed _ sub (batch_of-newest s.buffer).1 k) h.served;
        })
]

send-IsBounded : (event : Webhook) (s : Feed) → IsBounded s → IsBounded (send event s)
unfolding send
send-IsBounded event s h = elim (Bool-cases (ltb (length s.broadcast) max_buffer_size)) [
  | inl e ↦
      rw (e, send)
        (record {
          channel = ground (arith, length-append s.broadcast (event ∷ []));
          served = h.served;
        })
  | inr e ↦ rw (e, send) h
]

take_first-IsBounded :
    (channel : List Webhook) (s : Feed)
    → length channel ≤ max_buffer_size
    → IsBounded s
    → IsBounded (take_first channel s)
unfolding take_first
take_first-IsBounded [] s n h = h
take_first-IsBounded (event ∷ rest) s n h = record { channel = omega arith; served = h.served }

-- Every step of the feed keeps its bounds: at most 10000 events in the channel, at most 100 batches
-- for a subscriber, and at most 200 events in a batch.
pub FeedStep-IsBounded : {s t : Feed} → FeedStep s t → IsBounded s → IsBounded t
unfolding take_one tick drain_broadcast subscribe unsubscribe take_dropped receive
FeedStep-IsBounded (FeedStep.sends event s) h = send-IsBounded event s h
FeedStep-IsBounded (FeedStep.takes s) h = take_first-IsBounded s.broadcast s h.channel h
FeedStep-IsBounded (FeedStep.ticks s) h =
    flush-IsBounded (drain_broadcast s) (record { channel = omega arith; served = h.served })
FeedStep-IsBounded (FeedStep.subscribes s) h = record {
  channel = h.channel;
  served = ((omega arith, tt), h.served);
}
FeedStep-IsBounded (FeedStep.unsubscribes k s) h = record {
  channel = h.channel;
  served = All-keep IsServed _ s.subscribers h.served;
}
FeedStep-IsBounded (FeedStep.asks_dropped s) h = record { channel = h.channel; served = h.served }
FeedStep-IsBounded (FeedStep.receives k s) h = record {
  channel = h.channel;
  served = All-map (receive_batch k) s.subscribers (receive_batch-IsServed k) h.served;
}

-- From a new feed, in any order of its operations, at most 10000 events wait in the channel, at most
-- 100 batches for a subscriber, and no batch has more than 200 events.
pub FeedReach-IsBounded : {s : Feed} → FeedReach new_feed s → IsBounded s
FeedReach-IsBounded FeedReach.here = record { channel = omega arith; served = tt }
FeedReach-IsBounded (FeedReach.next r step) = FeedStep-IsBounded step (FeedReach-IsBounded r)
