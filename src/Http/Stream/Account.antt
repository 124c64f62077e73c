-- ===== src/Http/Stream/Account.antt =====
-- The overflow that a browser's stream reports (api/handler/events.go, the loop of SSE and streamBatch).
use vaulthook.Prelude.{
  ℕ, ◌+◌, ◌≡◌, ◌≤◌, refl, sym, ◌∙◌, subst, arith, Bool, true, false, false≢true, Option, List, [],
  ◌∷◌, ◌++◌, All, Text, ltb, Bool-cases, Option-cases, inl, inr, ◌⊎◌,
}
use vaulthook.Model.{Webhook}
use vaulthook.Events.Feed.{Feed, receive, take_dropped}
use vaulthook.Http.Stream.{
  Frame, connected, heartbeat, batch_data, overflow, Wire, Sent, send_heartbeat, send_overflow,
  stream_batch, Turn, client_gone, ticks, has_batch, elsewhere, Streamed, oldest_batch, after,
  stream_loop,
}

-- The events that the overflow frames count.
abbrev pub reported : List Frame → ℕ
reported [] = 0
reported (overflow n ∷ fs) = n + reported fs
reported (f ∷ fs) = reported fs

reported-append : (fs gs : List Frame) → reported (fs ++ gs) ≡ reported fs + reported gs
reported-append [] gs = omega arith
reported-append (connected ∷ fs) gs = reported-append fs gs
reported-append (heartbeat ∷ fs) gs = reported-append fs gs
reported-append (batch_data d ∷ fs) gs = reported-append fs gs
reported-append (overflow n ∷ fs) gs = omega (arith, reported-append fs gs)

-- What the frames report and what is left in the counter, against the counter before: no more, and
-- while the connection goes on no less.
pub record Accounts (before : ℕ) (frames : List Frame) (goes_on : Bool) (rest : ℕ) : Type 0 where
  pub no_more : reported frames + rest ≤ before
  pub no_less : (goes_on ≡ false) ⊎ (before ≤ reported frames + rest)

abbrev SentAccounts : ℕ → Sent × Feed → Type 0
SentAccounts before (sent, feed) = Accounts before sent.frames sent.goes_on feed.dropped

overflow-Accounts :
    (w : Wire) (d : Text) (n : ℕ) (feed : Feed)
    → feed.dropped ≡ 0
    → SentAccounts n (send_overflow w (batch_data d ∷ []) (n, feed))
overflow-Accounts w d n feed z = elim (Bool-cases (ltb 0 n)) [
  | inl e ↦ elim (Bool-cases w.writes) [
    | inl v ↦ rw (e, v) (record { no_more = omega arith; no_less = inr (omega arith) })
    | inr v ↦ rw (e, v) (record { no_more = omega arith; no_less = inl refl })
  ]
  | inr e ↦ rw e (record { no_more = ground arith; no_less = inr (ground arith) })
]

module _ (marshal : List Webhook → Option Text) where
  stream_batch-Accounts :
      (w1 w2 : Wire) (batch : List Webhook) (feed : Feed)
      → SentAccounts feed.dropped (stream_batch marshal w1 w2 batch feed)
  unfolding stream_batch take_dropped
  stream_batch-Accounts w1 w2 batch feed = elim (Option-cases (marshal batch)) [
    | inl m ↦ simp (m, stream_batch) (record { no_more = omega arith; no_less = inr (omega arith) })
    | inr (d, m) ↦ elim (Bool-cases w1.writes) [
      | inl v ↦ elim (Bool-cases w1.flushes) [
        | inl f ↦ simp (m, v, f, stream_batch) (overflow-Accounts w2 d feed.dropped _ refl)
        | inr f ↦
            simp (m, v, f, stream_batch) (record { no_more = omega arith; no_less = inl refl })
      ]
      | inr v ↦ simp (m, v, stream_batch) (record { no_more = omega arith; no_less = inl refl })
    ]
  ]

  -- Between two turns, no other part of the program changes the counter: no flush leaves events out,
  -- and no other stream asks for the count.
  abbrev pub IsOwn : Turn marshal → Type 0
  IsOwn (elsewhere f) = (feed : Feed) → (f feed).dropped ≡ feed.dropped
  IsOwn _ = Unit

  abbrev RunAccounts : ℕ → Streamed marshal → Type 0
  RunAccounts before ran =
      (reported ran.frames + ran.feed.dropped ≤ before)
      × ((ran.closed ≡ true) ⊎ (before ≤ reported ran.frames + ran.feed.dropped))

  after-RunAccounts :
      (before : ℕ) (sent : Sent) (feed : Feed) (rest : Streamed marshal)
      → SentAccounts before (sent, feed)
      → RunAccounts feed.dropped rest
      → RunAccounts before (after marshal sent feed rest)
  after-RunAccounts before sent feed rest a r = elim (Bool-cases sent.goes_on) [
    | inr shut ↦ rw shut (a.no_more, inl refl)
    | inl on ↦
        let joined = reported-append sent.frames rest.frames in
        rw on (
          omega (arith, joined, a.no_more, r.0),
          elim a.no_less [
            | inl shut ↦ absurd (false≢true (sym shut ∙ on))
            | inr le ↦ elim r.1 [ inl e ↦ inl e | inr le' ↦ inr (omega (arith, joined, le, le')) ]
          ],
        )
  ]

  heartbeat-Accounts : (w : Wire) (feed : Feed) → SentAccounts feed.dropped (send_heartbeat w, feed)
  heartbeat-Accounts w feed = elim (Bool-cases w.writes) [
    | inl v ↦ rw v (record { no_more = omega arith; no_less = inr (omega arith) })
    | inr v ↦ rw v (record { no_more = omega arith; no_less = inl refl })
  ]

  loop-RunAccounts :
      (k : ℕ) (turns : List (Turn marshal)) (feed : Feed)
      → All IsOwn turns
      → RunAccounts feed.dropped (stream_loop marshal k turns feed)
  unfolding stream_loop receive
  loop-RunAccounts k [] feed own = (omega arith, inr (omega arith))
  loop-RunAccounts k (client_gone ∷ turns) feed own = (omega arith, inl refl)
  loop-RunAccounts k (elsewhere f ∷ turns) feed own =
      subst (λ n. RunAccounts n (stream_loop marshal k turns (f feed))) (own.0 feed)
        (loop-RunAccounts k turns (f feed) own.1)
  loop-RunAccounts k (ticks w ∷ turns) feed own =
      after-RunAccounts feed.dropped (send_heartbeat w) feed (stream_loop marshal k turns feed)
        (heartbeat-Accounts w feed) (loop-RunAccounts k turns feed own.1)
  loop-RunAccounts k (has_batch w1 w2 ∷ turns) feed own =
      elim (Option-cases (oldest_batch marshal k feed.subscribers)) [
        | inl none_waits ↦ simp (none_waits, stream_loop) (loop-RunAccounts k turns feed own.1)
        | inr (batch, waits) ↦
            let (sent, feed') = stream_batch marshal w1 w2 batch (receive k feed) in
            simp (waits, stream_loop)
              (after-RunAccounts feed.dropped sent feed' (stream_loop marshal k turns feed')
                (stream_batch-Accounts w1 w2 batch (receive k feed))
                (loop-RunAccounts k turns feed' own.1))
      ]

  -- The loop of a browser's stream, from any state of the feed, while no other part changes the
  -- counter of dropped events: the overflow frames never count more events than were dropped, and as
  -- long as the connection is open none is forgotten and none is counted twice. What the frames count
  -- and what is left in the counter are together what was dropped, whatever batches wait or come in
  -- between, whichever writes and flushes fail and whatever cannot be marshalled.
  pub stream_loop-accounts :
      (k : ℕ) (turns : List (Turn marshal)) (feed : Feed)
      → All IsOwn turns
      → let ran = stream_loop marshal k turns feed in
        (reported ran.frames + ran.feed.dropped ≤ feed.dropped)
        × ((ran.closed ≡ true) ⊎ (reported ran.frames + ran.feed.dropped ≡ feed.dropped))
  stream_loop-accounts k turns feed own =
      let (less, more) = loop-RunAccounts k turns feed own in
      (less, elim more [ inl e ↦ inl e | inr le ↦ inr (omega (arith, less, le)) ])
