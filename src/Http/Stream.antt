-- ===== src/Http/Stream.antt =====
-- api/handler/events.go: the server-sent stream of a browser, over the live feed. A write and a flush
-- may fail; json.Marshal of a batch is a parameter, as is what the other parts do to the feed between
-- two turns of the loop.
pub mod Account
use vaulthook.Prelude.{
  ℕ, Bool, true, false, Option, none, some, List, [], ◌∷◌, ◌++◌, Text, codes, ltb, ◌==◌,
  if◌then◌else◌,
}
use vaulthook.Model.{Webhook}
use vaulthook.Events.Feed.{Feed, Subscriber, subscribe, unsubscribe, receive, take_dropped}

pub data Frame : Type 0 where
  connected heartbeat : Frame
  batch_data : Text → Frame
  overflow : ℕ → Frame

-- The text of a frame; `print` is what fmt writes for %d.
unfoldable pub frame_text : (ℕ → Text) → Frame → Text
frame_text print connected = codes "event: connected\ndata: {}\n\n"
frame_text print heartbeat = codes ": heartbeat\n\n"
frame_text print (batch_data d) = codes "data: " ++ d ++ codes "\n\n"
frame_text print (overflow n) =
    codes "event: overflow\ndata: {\"count\":" ++ print n ++ codes "}\n\n"

-- Whether the write of a frame succeeds, and the flush after it.
pub record Wire : Type 0 where
  pub writes : Bool
  pub flushes : Bool

-- The frames that were written, and whether the connection goes on.
pub record Sent : Type 0 where
  pub frames : List Frame
  pub goes_on : Bool

abbrev pub send_frame : Wire → Frame → Sent
send_frame w f =
    if w.writes
    then record { frames = f ∷ []; goes_on = w.flushes }
    else record { frames = []; goes_on = false }

-- `announceConnected`: errors are only logged.
abbrev pub announce_connected : Wire → List Frame
announce_connected w = (send_frame w connected).frames

-- `sendHeartbeat`
abbrev pub send_heartbeat : Wire → Sent
send_heartbeat w = send_frame w heartbeat

-- The overflow frame of `streamBatch`, after the data.
abbrev pub send_overflow : Wire → List Frame → ℕ × Feed → Sent × Feed
send_overflow w frames (dropped, feed) =
    if ltb 0 dropped
    then (let sent = send_frame w (overflow dropped) in
        (record sent { frames = frames ++ sent.frames }, feed))
    else (record { frames = frames; goes_on = true }, feed)

module _ (marshal : List Webhook → Option Text) where
  -- `streamBatch`, with the wire of its two frames.
  unfoldable pub stream_batch : Wire → Wire → List Webhook → Feed → Sent × Feed
  unfolding take_dropped
  stream_batch w1 w2 batch feed = elim (marshal batch) [
    | none ↦ (record { frames = []; goes_on = true }, feed)
    | some d ↦
        let sent = send_frame w1 (batch_data d) in
        if sent.goes_on then send_overflow w2 sent.frames (take_dropped feed) else (sent, feed)
  ]

  -- What `select` finds ready in one turn of the loop; between two turns the other parts move the feed.
  pub data Turn : Type 0 where
    client_gone : Turn
    ticks : Wire → Turn
    has_batch : Wire → Wire → Turn
    elsewhere : (Feed → Feed) → Turn

  pub record Streamed : Type 0 where
    pub frames : List Frame
    pub closed : Bool
    pub feed : Feed

  first_of : List (List Webhook) → Option (List Webhook)
  first_of [] = none
  first_of (b ∷ bs) = some b

  -- The oldest batch in the channel of a subscriber.
  pub oldest_batch : ℕ → List Subscriber → Option (List Webhook)
  unfolding first_of
  oldest_batch k [] = none
  oldest_batch k (sub ∷ subs) =
      let rest = oldest_batch k subs in if sub.key == k then first_of sub.waiting else rest

  abbrev pub after : Sent → Feed → Streamed → Streamed
  after sent feed rest =
      if sent.goes_on
      then record rest { frames = sent.frames ++ rest.frames }
      else record { frames = sent.frames; closed = true; feed = feed }

  -- The loop of `SSE`; a turn on an empty channel waits.
  unfoldable pub stream_loop : ℕ → List Turn → Feed → Streamed
  unfolding stream_batch oldest_batch receive
  stream_loop k [] feed = record { frames = []; closed = false; feed = feed }
  stream_loop k (client_gone ∷ turns) feed = record { frames = []; closed = true; feed = feed }
  stream_loop k (ticks w ∷ turns) feed = after (send_heartbeat w) feed (stream_loop k turns feed)
  stream_loop k (elsewhere f ∷ turns) feed = stream_loop k turns (f feed)
  stream_loop k (has_batch w1 w2 ∷ turns) feed = elim (oldest_batch k feed.subscribers) [
    | none ↦ stream_loop k turns feed
    | some batch ↦
        let (sent, feed') = stream_batch w1 w2 batch (receive k feed) in
        after sent feed' (stream_loop k turns feed')
  ]

  abbrev pub left : ℕ → Streamed → Streamed
  left k ran = if ran.closed then record ran { feed = unsubscribe k ran.feed } else ran

  -- `SSE`: the subscription, the first frame, the loop, and the deferred call.
  unfoldable pub sse : Wire → List Turn → Feed → Streamed
  unfolding stream_loop subscribe unsubscribe
  sse w turns feed =
      let (k, feed') = subscribe feed in
      let ran = left k (stream_loop k turns feed') in
      record ran { frames = announce_connected w ++ ran.frames }
