-- ===== src/Mock/Tally.antt =====
-- The statistics and the failure window of the simulated destination (cmd/api-mock/main.go).
use vaulthook.Prelude.{
  ◌+◌, ◌≤◌, ◌≡◌, Bool, true, false, none, some, List, [], ◌∷◌, arith, ltb, Bool-cases, inl, inr,
}
use vaulthook.Mock.{
  Mode, success, outage, slow_recover, fatal, chaos, flaky, unnamed, has_window, ModeStats,
  record_outcome, Sim, Hit, should_fail, answer_in, failing, uni_webhook_handler, control_handler,
  new_sim, Request, hit, control, serve_one, serve_all,
}

-- Each request was counted once, as a success or as a failure.
abbrev pub IsTallied : ModeStats → Type 0
IsTallied t = t.requests ≡ t.successes + t.failures

-- The counters agree, and the window is not overrun.
pub record IsSound {F : Type 0} (s : Sim F) : Type 0 where
  pub tallied : IsTallied s.stats
  pub window : s.fail_counter ≤ s.fail_count

record_outcome-IsTallied :
    (passed : Bool) (t : ModeStats) → IsTallied t → IsTallied (record_outcome passed t)
unfolding record_outcome
record_outcome-IsTallied true t h = omega (arith, h)
record_outcome-IsTallied false t h = omega (arith, h)

module _ {F : Type 0} where
  counted-IsSound :
      (passed : Bool) (s : Sim F)
      → IsSound s
      → IsSound (record s { stats = record_outcome passed s.stats })
  counted-IsSound passed s x = record {
    tallied = record_outcome-IsTallied passed s.stats x.tallied;
    window = x.window;
  }

  should_fail-IsSound : (s : Sim F) → IsSound s → IsSound (should_fail s).1
  unfolding should_fail
  should_fail-IsSound s x = elim (Bool-cases (ltb s.fail_counter s.fail_count)) [
    | inl e ↦ simp (e, should_fail) (record { tallied = x.tallied; window = ground (arith, e) })
    | inr e ↦ simp (e, should_fail) x
  ]

  answer_in-IsSound :
      (m : Mode) (fails : Bool) (h : Hit F) (s : Sim F)
      → IsSound s
      → IsSound (answer_in m fails h s).1
  unfolding answer_in
  answer_in-IsSound outage true h s x = counted-IsSound false s x
  answer_in-IsSound outage false h s x = counted-IsSound true s x
  answer_in-IsSound slow_recover true h s x = counted-IsSound true s x
  answer_in-IsSound slow_recover false h s x = counted-IsSound true s x
  answer_in-IsSound fatal true h s x = counted-IsSound false s x
  answer_in-IsSound fatal false h s x = counted-IsSound true s x
  answer_in-IsSound chaos true h s x = counted-IsSound false s x
  answer_in-IsSound chaos false h s x = counted-IsSound true s x
  answer_in-IsSound flaky true h s x = counted-IsSound false s x
  answer_in-IsSound flaky false h s x = counted-IsSound true s x
  answer_in-IsSound success true h s x = counted-IsSound true s x
  answer_in-IsSound success false h s x = counted-IsSound true s x
  answer_in-IsSound (unnamed m) true h s x = counted-IsSound true s x
  answer_in-IsSound (unnamed m) false h s x = counted-IsSound true s x

module _ {F : Type 0} (less : F → F → Bool) (nought : F) where
  failing-IsSound : (h : Hit F) (s : Sim F) → IsSound s → IsSound (failing less nought h s).1
  unfolding failing
  failing-IsSound h s x = elim (Bool-cases (has_window s.current_mode)) [
    | inl e ↦ simp (e, failing) (should_fail-IsSound s x)
    | inr e ↦ simp (e, failing) x
  ]

  uni_webhook_handler-IsSound :
      (h : Hit F) (s : Sim F) → IsSound s → IsSound (uni_webhook_handler less nought h s).1
  unfolding uni_webhook_handler
  uni_webhook_handler-IsSound h s x = elim (Bool-cases h.is_post) [
    | inl e ↦ simp (e, uni_webhook_handler) (answer_in-IsSound _ _ h _ (failing-IsSound h s x))
    | inr e ↦ simp (e, uni_webhook_handler) x
  ]

  serve_one-IsSound :
      (r : Request less nought) (s : Sim F) → IsSound s → IsSound (serve_one less nought r s)
  unfolding serve_one control_handler
  serve_one-IsSound (hit h) s x = uni_webhook_handler-IsSound h s x
  serve_one-IsSound (control none) s x = x
  serve_one-IsSound (control (some b)) s x = record { tallied = omega arith; window = omega arith }

  serve_all-keeps :
      (rs : List (Request less nought)) (s : Sim F)
      → IsSound s
      → IsSound (serve_all less nought rs s)
  unfolding serve_all
  serve_all-keeps [] s x = x
  serve_all-keeps (r ∷ rs) s x =
      serve_all-keeps rs (serve_one less nought r s) (serve_one-IsSound r s x)

  -- Whatever webhooks and control requests the simulator gets from its start, in any order: it has
  -- counted each answered webhook once, as a success or as a failure, and the failures counted in the
  -- window are no more than asked for.
  pub serve_all-IsSound :
      (rs : List (Request less nought)) (half : F)
      → IsSound (serve_all less nought rs (new_sim less nought half))
  serve_all-IsSound rs half =
      serve_all-keeps rs (new_sim less nought half)
        (record { tallied = omega arith; window = omega arith })
