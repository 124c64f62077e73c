-- ===== src/Worker/Limiter/Bounds.antt =====
-- The requests that the leaky bucket of worker/limiter.go allows over many runs.
use vaulthook.Prelude.{
  ℕ, suc, ◌+◌, ◌-◌, ◌*◌, ◌≤◌, ◌≡◌, Bool, false, Option, none, some, List, [], ◌∷◌, arith, refl, sym,
  ◌∙◌, inl, inr, leb, leb→le, Bool-cases, if◌then◌else◌,
}
use vaulthook.Worker.Limiter.{Bucket, read_bucket, leak, allow_script, expire, expiry_ms, allow_all}

-- The times never go back, from a first one on.
abbrev pub IsMonotone : ℕ → List ℕ → Type 0
IsMonotone t [] = Unit
IsMonotone t (now ∷ times) = (t ≤ now) × IsMonotone now times

abbrev pub last_time : ℕ → List ℕ → ℕ
last_time t [] = t
last_time t (now ∷ times) = last_time now times

allow_script-level :
    (max_req now : ℕ) (b : Bucket)
    → b.last_leak ≤ now
    → b.level ≤ max_req * 1000
    → (allow_script max_req now (some b)).1.level ≤ max_req * 1000
unfolding allow_script
allow_script-level max_req now b t h = grind arith

-- One run pays for an allowed request out of the room in the bucket and what leaked.
allow_script-budget :
    (max_req now : ℕ) (b : Bucket)
    → b.last_leak ≤ now
    → (if (allow_script max_req now (some b)).0 then 1000 else 0) + b.level
      ≤ (allow_script max_req now (some b)).1.level + (now - b.last_leak) * max_req
unfolding allow_script
allow_script-budget max_req now b t = grind arith

le-last_time : (t : ℕ) (times : List ℕ) → IsMonotone t times → t ≤ last_time t times
le-last_time t [] h = omega arith
le-last_time t (now ∷ times) h = omega (arith, h.0, le-last_time now times h.1)

-- Leaking over two adjoining spans is leaking over their union.
spans_add : (a b c m : ℕ) → a ≤ b → b ≤ c → (b - a) * m + (c - b) * m ≡ (c - a) * m
spans_add a b c m h k = grind arith

-- The level after the runs.
abbrev pub last_level : Option Bucket → ℕ
last_level none = 0
last_level (some b) = b.level

allow_script-last_leak :
    (max_req now : ℕ) (stored : Option Bucket) → (allow_script max_req now stored).1.last_leak ≡ now
unfolding allow_script
allow_script-last_leak max_req now stored = ground arith

abbrev count_if : Bool → ℕ → ℕ
count_if b n = if b then suc n else n

thousand_count : (b : Bool) (n : ℕ) → 1000 * count_if b n ≡ (if b then 1000 else 0) + 1000 * n
thousand_count b n = ground arith

leak-expired :
    (max_req now : ℕ) (b : Bucket)
    → b.level ≤ max_req * 1000
    → b.last_leak + expiry_ms ≤ now
    → leak max_req now b ≡ 0
unfolding leak
leak-expired max_req now b h e = grind arith

leak-fresh : (max_req now : ℕ) → leak max_req now (read_bucket none now) ≡ 0
unfolding leak
leak-fresh max_req now = grind arith

allow_script-same_level :
    (max_req now : ℕ) (a b : Option Bucket)
    → leak max_req now (read_bucket a now) ≡ leak max_req now (read_bucket b now)
    → allow_script max_req now a ≡ allow_script max_req now b
unfolding allow_script
allow_script-same_level max_req now a b e = rw e

-- At a time not before its last run, a bucket whose level is within one second's limit answers as if
-- it never expired: a minute after its last run, when it is forgotten, it has leaked empty.
pub allow_script-expire :
    (max_req now : ℕ) (b : Bucket)
    → b.last_leak ≤ now
    → b.level ≤ max_req * 1000
    → allow_script max_req now (expire now (some b)) ≡ allow_script max_req now (some b)
unfolding expire
allow_script-expire max_req now b t h = elim (Bool-cases (leb (b.last_leak + expiry_ms) now)) [
  | inl old ↦ rw old (
      allow_script-same_level max_req now none (some b)
        (leak-fresh max_req now ∙ sym (leak-expired max_req now b h (leb→le _ _ old))))
  | inr new ↦ rw new
]

allow_all-level :
    (max_req : ℕ) (times : List ℕ) (b : Bucket)
    → IsMonotone b.last_leak times
    → b.level ≤ max_req * 1000
    → last_level (allow_all max_req times (some b)).1 ≤ max_req * 1000
unfolding allow_all
allow_all-level max_req [] b t h = h
allow_all-level max_req (now ∷ times) b t h = rw (allow_script-expire max_req now b t.0 h) (
    allow_all-level max_req times (allow_script max_req now (some b)).1
      (rw allow_script-last_leak t.1) (allow_script-level max_req now b t.0 h))

add_spans :
    (allowed : Bool) (n level level' final m t now end : ℕ)
    → (if allowed then 1000 else 0) + level ≤ level' + (now - t) * m
    → 1000 * n + level' ≤ final + (end - now) * m
    → t ≤ now
    → now ≤ end
    → 1000 * count_if allowed n + level ≤ final + (end - t) * m
add_spans allowed n level level' final m t now end h k p q =
    omega (arith, spans_add t now end m p q, thousand_count allowed n)

allow_all-budget :
    (max_req : ℕ) (times : List ℕ) (b : Bucket)
    → IsMonotone b.last_leak times
    → b.level ≤ max_req * 1000
    → 1000 * (allow_all max_req times (some b)).0 + b.level
      ≤ last_level (allow_all max_req times (some b)).1
        + (last_time b.last_leak times - b.last_leak) * max_req
unfolding allow_all
allow_all-budget max_req [] b t h = omega arith
allow_all-budget max_req (now ∷ times) b t h =
    let b' = (allow_script max_req now (some b)).1 in
    let e = allow_script-last_leak max_req now (some b) in
    rw (allow_script-expire max_req now b t.0 h) (
      add_spans (allow_script max_req now (some b)).0 _ b.level b'.level _ max_req b.last_leak now
        (last_time now times) (allow_script-budget max_req now b t.0)
        (rw e at
          (allow_all-budget max_req times b' (rw e t.1) (allow_script-level max_req now b t.0 h)))
        t.0 (le-last_time now times t.1))

not_yet_expired : (t : ℕ) → leb (t + expiry_ms) t ≡ false
not_yet_expired t = ground arith

-- The first run on an absent key reads an empty bucket that leaked just now.
allow_all-fresh :
    (max_req t : ℕ) (times : List ℕ)
    → allow_all max_req (t ∷ times) none ≡ allow_all max_req (t ∷ times) (some (read_bucket none t))
unfolding allow_all expire
allow_all-fresh max_req t times =
    rw (allow_script-same_level max_req t none (some (read_bucket none t)) refl, not_yet_expired t)

-- From an absent bucket, over any runs at times that never go back, the allowed requests are at most
-- one second's limit and the limit's share of the time between the first run and the last.
pub allow_all_bound :
    (max_req t : ℕ) (times : List ℕ)
    → IsMonotone t times
    → 1000 * (allow_all max_req (t ∷ times) none).0
      ≤ 1000 * max_req + (last_time t times - t) * max_req
allow_all_bound max_req t times h =
    let fresh = read_bucket none t in
    let runs : IsMonotone t (t ∷ times) = (omega arith, h) in
    rw (allow_all-fresh max_req t times) (
      omega (
        arith,
        allow_all-budget max_req (t ∷ times) fresh runs (omega arith),
        allow_all-level max_req (t ∷ times) fresh runs (omega arith),
      ))
