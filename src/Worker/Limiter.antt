-- ===== src/Worker/Limiter.antt =====
-- worker/limiter.go: the leaky bucket of `RateLimiter.Allow` and its Lua script.
-- The script works on Unix seconds with three decimals; here time is in milliseconds and the level
-- is in thousandths of a request, so that every product of the script is a whole number.
pub mod Bounds
use vaulthook.Prelude.{
  ℕ, suc, ◌+◌, ◌-◌, ◌*◌, String, Bool, true, false, Option, none, some, List, [], ◌∷◌, leb,
  if◌then◌else◌,
}
use vaulthook.Model.{Fault, Result, ok, err, other, Provider}

-- The hash at the bucket's key.
pub record Bucket : Type 0 where
  pub level : ℕ
  pub last_leak : ℕ

-- `HGET` of both fields, with the defaults of an absent key.
abbrev pub read_bucket : Option Bucket → ℕ → Bucket
read_bucket none now = record { level = 0; last_leak = now }
read_bucket (some b) now = b

-- `level - elapsed * maxReq`, then 0 if that is negative. A clock that went back makes `elapsed`
-- negative, and the level rises.
unfoldable pub leak : ℕ → ℕ → Bucket → ℕ
leak max_req now b = b.level + (b.last_leak - now) * max_req - (now - b.last_leak) * max_req

-- One run of the script: the reply, and the hash that `HSET` leaves.
unfoldable pub allow_script : ℕ → ℕ → Option Bucket → Bool × Bucket
unfolding leak
allow_script max_req now stored =
    let level = leak max_req now (read_bucket stored now) in
    if leb (level + 1000) (max_req * 1000)
    then (true, record { level = level + 1000; last_leak = now })
    else (false, record { level = level; last_leak = now })

-- `EXPIRE key 60`: the hash is gone when 60 seconds have passed since the last run.
abbrev pub expiry_ms : ℕ
expiry_ms = 60000

unfoldable pub expire : ℕ → Option Bucket → Option Bucket
expire now none = none
expire now (some b) = if leb (b.last_leak + expiry_ms) now then none else some b

-- `Allow`: the client may be missing, and the script's run may fail.
pub data Redis : Type 0 where
  missing : Redis
  timeout : Redis
  failure : String → Redis
  running : Redis

unfoldable pub allow : Redis → Provider → ℕ → Option Bucket → Result Bool × Option Bucket
unfolding allow_script expire
allow redis prov now stored = if leb prov.max_req_second 0 then (ok false, stored) else elim redis [
  | missing ↦ (err (other "[limiter] redis client not configured"), stored)
  | timeout ↦ (err (other "[limiter] redis timeout occurred"), stored)
  | failure e ↦ (err (other e), stored)
  | running ↦
      let (allowed, b) = allow_script prov.max_req_second now (expire now stored) in
      (ok allowed, some b)
]

-- A sequence of runs at the given times, with one limit: how many were allowed, and the last hash.
-- Between two runs the key may expire.
unfoldable pub allow_all : ℕ → List ℕ → Option Bucket → ℕ × Option Bucket
unfolding allow_script expire
allow_all max_req [] stored = (0, stored)
allow_all max_req (now ∷ times) stored =
    let (allowed, b) = allow_script max_req now (expire now stored) in
    let (count, last) = allow_all max_req times (some b) in
    ((if allowed then suc count else count), last)
