-- ===== src/Mock.antt =====
-- cmd/api-mock/main.go: the simulated destination of webhooks, with its modes, its failure window and
-- its statistics. Random numbers are arguments of each request, and float64 is a parameter with the
-- comparison that the program uses.
pub mod Tally
pub mod Heals
use vaulthook.Prelude.{
  ℕ, zero, suc, ◌+◌, ◌*◌, ℤ, pos, String, Bool, true, false, Option, none, some, List, [], ◌∷◌, ltb,
  length, Text, codes, if◌then◌else◌,
}

-- Any other text is a mode too.
pub data Mode : Type 0 where
  success outage slow_recover fatal chaos flaky : Mode
  unnamed : String → Mode

-- `ModeStats`
pub record ModeStats : Type 0 where
  pub requests : ℕ
  pub successes : ℕ
  pub failures : ℕ

-- `ModeStats.record` and `ModeStats.reset`
unfoldable pub record_outcome : Bool → ModeStats → ModeStats
record_outcome true s = record s { requests = s.requests + 1; successes = s.successes + 1 }
record_outcome false s = record s { requests = s.requests + 1; failures = s.failures + 1 }

abbrev pub no_stats : ModeStats
no_stats = record { requests = 0; successes = 0; failures = 0 }

-- The variables of the process.
pub record Sim (F : Type 0) : Type 0 where
  pub current_mode : Mode
  pub fail_count : ℕ
  pub fail_counter : ℕ
  pub flaky_fail_rate : F
  pub stats : ModeStats

-- A request, and what rng gives for it: Float64, Intn(25) and Intn(3). The last field is whether the
-- connection can be hijacked.
pub record Hit (F : Type 0) : Type 0 where
  pub is_post : Bool
  pub chance : F
  pub delay : ℕ
  pub choice : ℕ
  pub hijackable : Bool

-- What the sender sees: a reply with its Retry-After, a body that comes one character at a time over so
-- many milliseconds, or a closed connection.
pub data Answer : Type 0 where
  answer : ℕ → Option ℕ → String → Answer
  trickle : ℕ → Text → ℕ → Answer
  closed : Answer

-- fatalCodes and fatalMessages
abbrev pub fatal_code : ℕ → ℕ
fatal_code zero = 400
fatal_code (suc zero) = 401
fatal_code (suc (suc n)) = 404

abbrev pub fatal_message : ℕ → String
fatal_message zero = "{\"error\":\"bad_request\",\"message\":\"invalid payload schema\"}\n"
fatal_message (suc zero) =
    "{\"error\":\"unauthorized\",\"message\":\"invalid or revoked credentials\"}\n"
fatal_message (suc (suc n)) = "{\"error\":\"not_found\",\"message\":\"endpoint does not exist\"}\n"

-- The modes that ask `shouldFail`.
abbrev pub has_window : Mode → Bool
has_window outage = true
has_window slow_recover = true
has_window fatal = true
has_window chaos = true
has_window _ = false

abbrev pub is_flaky : Mode → Bool
is_flaky flaky = true
is_flaky _ = false

-- The loop over the body of slow_recover: each character is flushed, and 300 ms pass.
pub send_slowly : Text → Text × ℕ
send_slowly [] = ([], 0)
send_slowly (c ∷ cs) = let (sent, ms) = send_slowly cs in (c ∷ sent, 300 + ms)

abbrev pub slow_body : Text
slow_body = codes "{\"received\":true,\"note\":\"trickle_complete\"}"

module _ {F : Type 0} where
  abbrev pub counted : Bool → Sim F → Sim F
  counted passed s = record s { stats = record_outcome passed s.stats }

  -- `shouldFail`
  unfoldable pub should_fail : Sim F → Bool × Sim F
  should_fail s =
      if ltb s.fail_counter s.fail_count
      then (true, record s { fail_counter = s.fail_counter + 1 })
      else (false, s)

  -- `sendJSON`
  abbrev pub send_json : ℕ → String → Sim F → Answer × Sim F
  send_json code payload s = (answer code none payload, counted (ltb code 300) s)

  -- The switch on the mode.
  unfoldable pub answer_in : Mode → Bool → Hit F → Sim F → Answer × Sim F
  unfolding record_outcome
  answer_in outage true h s = (
    answer 503 (some (5 + h.delay))
        "<html><body><h1>503 Service Temporarily Unavailable</h1></body></html>\n",
    counted false s,
  )
  answer_in outage false h s = send_json 200 "{\"received\":true,\"recovered\":true}\n" s
  answer_in slow_recover true h s =
      let (sent, ms) = send_slowly slow_body in (trickle 200 sent ms, counted true s)
  answer_in slow_recover false h s = send_json 200 "{\"received\":true}\n" s
  answer_in fatal true h s =
      (answer (fatal_code h.choice) none (fatal_message h.choice), counted false s)
  answer_in fatal false h s = send_json 200 "{\"received\":true}\n" s
  answer_in chaos true h s = (if h.hijackable then closed else answer 200 none "", counted false s)
  answer_in chaos false h s = send_json 200 "{\"received\":true,\"recovered\":true}\n" s
  answer_in flaky true h s =
      (answer (fatal_code h.choice) none (fatal_message h.choice), counted false s)
  answer_in flaky false h s = send_json 200 "{\"received\":true}\n" s
  answer_in success failing h s = send_json 200 "{\"received\":true}\n" s
  answer_in (unnamed m) failing h s = send_json 200 "{\"received\":true}\n" s

module _ {F : Type 0} (less : F → F → Bool) (nought : F) where
  -- Whether this request fails, with the counter moved on.
  unfoldable pub failing : Hit F → Sim F → Bool × Sim F
  unfolding should_fail
  failing h s =
      if has_window s.current_mode
      then should_fail s
      else (if is_flaky s.current_mode then less h.chance s.flaky_fail_rate else false, s)

  -- `uniWebhookHandler`
  unfoldable pub uni_webhook_handler : Hit F → Sim F → Answer × Sim F
  unfolding failing answer_in
  uni_webhook_handler h s =
      let (fails, s') = failing h s in
      if h.is_post
      then answer_in s.current_mode fails h s'
      else (answer 405 none "Method Not Allowed\n", s)

  -- The body of a control request.
  pub record ControlBody : Type 0 where
    pub mode : Mode
    pub fail_count : ℤ
    pub fail_rate : F

  -- `failCount` after a control request: its number if that is positive.
  abbrev pub new_fail_count : Mode → ℤ → ℕ → ℕ
  new_fail_count m (pos (suc k)) old = suc k
  new_fail_count fatal n old = 50000
  new_fail_count m n old = old

  -- `controlHandler` for a request that is no GET: the status.
  unfoldable pub control_handler : Option ControlBody → Sim F → ℕ × Sim F
  control_handler none s = (400, s)
  control_handler (some b) s = (
    200,
    record {
      current_mode = b.mode;
      fail_count = new_fail_count b.mode b.fail_count s.fail_count;
      fail_counter = 0;
      flaky_fail_rate = if less nought b.fail_rate then b.fail_rate else s.flaky_fail_rate;
      stats = no_stats;
    },
  )

  -- The variables at the start.
  abbrev pub new_sim : F → Sim F
  new_sim half = record {
    current_mode = success;
    fail_count = 0;
    fail_counter = 0;
    flaky_fail_rate = half;
    stats = no_stats;
  }

  -- A request to one of the two addresses that change something.
  pub data Request : Type 0 where
    hit : Hit F → Request
    control : Option ControlBody → Request

  unfoldable pub serve_one : Request → Sim F → Sim F
  unfolding uni_webhook_handler control_handler
  serve_one (hit h) s = (uni_webhook_handler h s).1
  serve_one (control b) s = (control_handler b s).1

  unfoldable pub serve_all : List Request → Sim F → Sim F
  unfolding serve_one
  serve_all [] s = s
  serve_all (r ∷ rs) s = serve_all rs (serve_one r s)

-- What `controlHandler` prints for a GET: the mode, the number of failures, and the progress.
abbrev pub control_get : {F : Type 0} → Sim F → Mode × ℕ × (ℕ × ℕ)
control_get s = (s.current_mode, s.fail_count, (s.fail_counter, s.fail_count))

-- What `/stats` prints: the mode, the progress, and the counters.
abbrev pub stats_reply : {F : Type 0} → Sim F → Mode × (ℕ × ℕ) × ModeStats
stats_reply s = (s.current_mode, (s.fail_counter, s.fail_count), s.stats)
