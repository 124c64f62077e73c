-- ===== src/Worker/Start/Purges.antt =====
-- The cleanup worker's loop as steps of the whole gateway (worker/cleanup.go, startCleanup).
use vaulthook.Prelude.{ℕ, ◌≤◌, sym, subst, String, Option, List, [], ◌∷◌}
use vaulthook.Database.{Db}
use vaulthook.System.{Step, Reach}
use vaulthook.Worker.Cleanup.{run_cleanup, max_rows}
use vaulthook.Worker.Start.{CleanupWake, hourly, over, start_cleanup}
use vaulthook.Worker.Start.Steps.{join, wait}
use vaulthook.Worker.Pool.Reached.{run_cleanup-now}

-- The ticker does not go back.
abbrev pub Hourly : ℕ → List CleanupWake → Type 0
Hourly t [] = Unit
Hourly t (over ∷ wakes) = Unit
Hourly t (hourly u faults ∷ wakes) = (t ≤ u) × Hourly u wakes

-- All that the cleanup worker does to the table are steps of the gateway: purges and the clock. The
-- ticker does not go back.
pub start_cleanup-Reach :
    (jsonb : String → Option String) (wakes : List CleanupWake) (db : Db)
    → Hourly db.now wakes
    → Reach jsonb db (start_cleanup wakes db).0
unfolding start_cleanup
start_cleanup-Reach jsonb [] db h = Reach.here
start_cleanup-Reach jsonb (over ∷ wakes) db h = Reach.here
start_cleanup-Reach jsonb (hourly t faults ∷ wakes) db h =
    let at_tick = record db { now = t } in
    let purged = run_cleanup max_rows faults at_tick in
    join jsonb (Reach.next (wait jsonb t db h.0) (Step.purge max_rows faults at_tick)) (
      start_cleanup-Reach jsonb wakes purged
        (subst (λ u. Hourly u wakes) (sym (run_cleanup-now max_rows faults at_tick)) h.1))
