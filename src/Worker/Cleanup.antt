-- ===== src/Worker/Cleanup.antt =====
-- worker/cleanup.go: the hourly purge of old and excessive events.
pub mod Retention
use vaulthook.Prelude.{
  ℕ, ◌+◌, ◌-◌, ◌≤◌, ◌≡◌, Bool, true, false, Option, none, some, List, [], ◌∷◌, arith, not, ltb, leb,
  ◌==◌, length, take, drop, keep, any, sort_by, if◌then◌else◌,
}
use vaulthook.Model.{Fault, Webhook}
use vaulthook.Database.{Db}
use vaulthook.Worker.Repository.{has_id}

abbrev pub max_rows : ℕ
max_rows = 500000

abbrev pub retention : ℕ
retention = 604800000000000

-- `received_at < NOW() - INTERVAL '7 days'`
abbrev pub is_old : ℕ → Webhook → Bool
is_old now w = ltb (w.received_at + retention) now

-- ORDER BY received_at ASC
abbrev pub oldest_first : Webhook → Webhook → Bool
oldest_first v w = leb v.received_at w.received_at

-- DELETE … WHERE id IN (SELECT id … ORDER BY received_at ASC LIMIT excess)
unfoldable pub evict : ℕ → List Webhook → List Webhook
evict excess ws =
    let doomed = take excess (sort_by oldest_first ws) in keep (λ w. not (has_id w.id doomed)) ws

-- The faults of the three statements.
pub record Faults : Type 0 where
  pub age : Option Fault
  pub count : Option Fault
  pub evict : Option Fault

abbrev pub unless_fault {ℓ} : {A : Type ℓ} → Option Fault → A → A → A
unless_fault (some e) failed done = failed
unless_fault none failed done = done

-- `runCleanup`: a fault ends the run with what was done so far.
unfoldable pub run_cleanup : ℕ → Faults → Db → Db
unfolding evict
run_cleanup max_rows faults db =
    let young = record db { events = keep (λ w. not (is_old db.now w)) db.events } in
    let count = length young.events in
    let evicted = record young { events = evict (count - max_rows) young.events } in
    unless_fault faults.age db (
      unless_fault faults.count young
        (if leb count max_rows then young else unless_fault faults.evict young evicted))
