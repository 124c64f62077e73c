-- ===== src/Mock/Heals.antt =====
-- The failure window of the simulated destination (cmd/api-mock/main.go).
use vaulthook.Prelude.{
  ℕ, zero, suc, ◌+◌, ◌≡◌, refl, sym, ap, ◌∙◌, subst, pos, Bool, true, false, none, some, List, [],
  ◌∷◌, arith, ◌==◌, leb, ltb, ◌&&◌, take, drop, All, false≢true, if◌then◌else◌,
}
use vaulthook.Mock.{
  Mode, success, outage, slow_recover, fatal, chaos, flaky, unnamed, has_window, Sim, Hit, Answer,
  answer, trickle, closed, fatal_code, should_fail, answer_in, send_slowly, slow_body,
  new_fail_count, failing, uni_webhook_handler, ControlBody, control_handler,
}

-- How a destination in the mode fails.
abbrev pub is_down : Mode → Answer → Bool
is_down outage (answer code (some t) body) = code == 503 && leb 5 t
is_down slow_recover (trickle code body ms) = code == 200 && leb 10000 ms
is_down fatal (answer code none body) = leb 400 code && ltb code 500
is_down chaos closed = true
is_down _ _ = false

-- A reply that the sender takes for a delivery.
abbrev pub is_up : Answer → Bool
is_up (answer code none body) = code == 200
is_up _ = false

-- A webhook on a connection that can be closed.
abbrev pub IsPost : {F : Type 0} → Hit F → Type 0
IsPost h = (h.is_post ≡ true) × (h.hijackable ≡ true)

module _ {F : Type 0} (less : F → F → Bool) (nought : F) where
  -- The answers to a number of webhooks.
  unfoldable pub answers : List (Hit F) → Sim F → List Answer
  answers [] s = []
  answers (h ∷ hs) s = let (a, s') = uni_webhook_handler less nought h s in a ∷ answers hs s'

  failing-window :
      (m : Mode) (h : Hit F) (s : Sim F)
      → has_window m ≡ true
      → s.current_mode ≡ m
      → failing less nought h s ≡ should_fail s
  unfolding failing
  failing-window m h s w e = simp (e, w, failing) refl

  handler_as :
      (m : Mode) (fails : Bool) (h : Hit F) (s s' : Sim F)
      → s.current_mode ≡ m
      → h.is_post ≡ true
      → failing less nought h s ≡ (fails, s')
      → uni_webhook_handler less nought h s ≡ answer_in m fails h s'
  unfolding uni_webhook_handler
  handler_as m fails h s s' e post f =
      let out = λ (p : Bool × Sim F). answer_in s.current_mode p.0 h p.1 in
      let posted : uni_webhook_handler less nought h s ≡ out (failing less nought h s) =
        ap
          (λ b.
            if b
            then out (failing less nought h s)
            else (answer 405 none "Method Not Allowed\n", s))
          post in
      posted ∙ ap out f ∙ ap (λ k. answer_in k fails h s') e

  -- The answer and the variables of a request that fails in the window, and of one after it.
  record Fails (m : Mode) (s : Sim F) (out : Answer × Sim F) : Type 0 where
    down : is_down m out.0 ≡ true
    mode : out.1.current_mode ≡ m
    count : out.1.fail_count ≡ s.fail_count
    counter : out.1.fail_counter ≡ s.fail_counter

  record Heals (m : Mode) (s : Sim F) (out : Answer × Sim F) : Type 0 where
    up : is_up out.0 ≡ true
    mode : out.1.current_mode ≡ m
    count : out.1.fail_count ≡ s.fail_count
    counter : out.1.fail_counter ≡ s.fail_counter

  fatal_code-range : (n : ℕ) → leb 400 (fatal_code n) && ltb (fatal_code n) 500 ≡ true
  fatal_code-range zero = refl
  fatal_code-range (suc zero) = refl
  fatal_code-range (suc (suc n)) = refl

  slow_enough : leb 10000 (send_slowly slow_body).1 ≡ true
  unfolding send_slowly
  slow_enough = refl

  answer_in-Fails :
      (m : Mode) (h : Hit F) (s : Sim F)
      → has_window m ≡ true
      → h.hijackable ≡ true
      → s.current_mode ≡ m
      → Fails m s (answer_in m true h s)
  unfolding answer_in
  answer_in-Fails outage h s w hij e = record {
    down = ground arith;
    mode = e;
    count = refl;
    counter = refl;
  }
  answer_in-Fails slow_recover h s w hij e = record {
    down = slow_enough;
    mode = e;
    count = refl;
    counter = refl;
  }
  answer_in-Fails fatal h s w hij e = record {
    down = fatal_code-range h.choice;
    mode = e;
    count = refl;
    counter = refl;
  }
  answer_in-Fails chaos h s w hij e = record {
    down = rw hij refl;
    mode = e;
    count = refl;
    counter = refl;
  }
  answer_in-Fails success h s w hij e = absurd (false≢true w)
  answer_in-Fails flaky h s w hij e = absurd (false≢true w)
  answer_in-Fails (unnamed x) h s w hij e = absurd (false≢true w)

  answer_in-Heals :
      (m : Mode) (h : Hit F) (s : Sim F)
      → has_window m ≡ true
      → s.current_mode ≡ m
      → Heals m s (answer_in m false h s)
  unfolding answer_in
  answer_in-Heals outage h s w e = record { up = refl; mode = e; count = refl; counter = refl }
  answer_in-Heals slow_recover h s w e = record {
    up = refl;
    mode = e;
    count = refl;
    counter = refl;
  }
  answer_in-Heals fatal h s w e = record { up = refl; mode = e; count = refl; counter = refl }
  answer_in-Heals chaos h s w e = record { up = refl; mode = e; count = refl; counter = refl }
  answer_in-Heals success h s w e = absurd (false≢true w)
  answer_in-Heals flaky h s w e = absurd (false≢true w)
  answer_in-Heals (unnamed x) h s w e = absurd (false≢true w)

  -- With so many failures left in the window, so many answers are failures, and all others are
  -- deliveries.
  abbrev pub Recovers : Mode → ℕ → List Answer → Type 0
  Recovers m left replies =
      All (λ a. is_down m a ≡ true) (take left replies)
      × All (λ a. is_up a ≡ true) (drop left replies)

  module _ (m : Mode) (w : has_window m ≡ true) where
    answers-Recovers :
        (left : ℕ) (hs : List (Hit F)) (s : Sim F)
        → All IsPost hs
        → s.current_mode ≡ m
        → s.fail_count ≡ s.fail_counter + left
        → Recovers m left (answers hs s)
    unfolding answers should_fail
    answers-Recovers zero [] s posts e n = (tt, tt)
    answers-Recovers (suc left) [] s posts e n = (tt, tt)
    answers-Recovers zero (h ∷ hs) s posts e n =
        let over : ltb s.fail_counter s.fail_count ≡ false = ground (arith, n) in
        let quiet : should_fail s ≡ (false, s) = simp (over, should_fail) refl in
        let out = handler_as m false h s s e posts.0.0 (failing-window m h s w e ∙ quiet) in
        let healed = subst (Heals m s) (sym out) (answer_in-Heals m h s w e) in
        let rest =
          answers-Recovers zero hs (uni_webhook_handler less nought h s).1 posts.1 healed.mode
            (healed.count ∙ n ∙ ap (λ c. c + zero) (sym healed.counter)) in
        (tt, (healed.up, rest.1))
    answers-Recovers (suc left) (h ∷ hs) s posts e n =
        let moved : Sim F = record s { fail_counter = s.fail_counter + 1 } in
        let under : ltb s.fail_counter s.fail_count ≡ true = ground (arith, n) in
        let loud : should_fail s ≡ (true, moved) = simp (under, should_fail) refl in
        let out = handler_as m true h s moved e posts.0.0 (failing-window m h s w e ∙ loud) in
        let failed = subst (Fails m moved) (sym out) (answer_in-Fails m h moved w posts.0.1 e) in
        let rest =
          answers-Recovers left hs (uni_webhook_handler less nought h s).1 posts.1 failed.mode
            (omega (arith, failed.count, failed.counter, n)) in
        ((failed.down, rest.0), rest.1)

  -- A control request for outage, slow_recover, fatal or chaos with a positive number of failures is
  -- obeyed to the letter: whatever the simulator did before, of the webhooks that follow exactly the
  -- first so many fail in the way of the mode, and all others get status 200. slow_recover takes more
  -- than 10 seconds for its body then. The webhooks are POST requests on connections that can be closed.
  pub control-Recovers :
      (b : ControlBody less nought) (k : ℕ) (hs : List (Hit F)) (s : Sim F)
      → has_window b.mode ≡ true
      → b.fail_count ≡ pos (suc k)
      → All IsPost hs
      → Recovers b.mode (suc k) (answers hs (control_handler less nought (some b) s).1)
  unfolding control_handler
  control-Recovers b k hs s w n posts =
      answers-Recovers b.mode w (suc k) hs (control_handler less nought (some b) s).1 posts refl
        (ap (λ c. new_fail_count less nought b.mode c s.fail_count) n ∙ omega arith)
