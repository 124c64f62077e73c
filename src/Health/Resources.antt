-- ===== src/Health/Resources.antt =====
-- health/resources.go: `ComputeResources` from the number of CPUs. The products stay far below the
-- bound of an int for every number of CPUs that there is; they are exact here.
use vaulthook.Prelude.{ℕ, ◌-◌, ◌*◌, ◌/◌, max, ltb, if◌then◌else◌}

pub record Resources : Type 0 where
  pub queue_workers : ℕ
  pub retry_workers : ℕ
  pub queue_batch : ℕ
  pub retry_batch : ℕ
  pub db_max_conns : ℕ

abbrev pub min_reserved_conns : ℕ
min_reserved_conns = 4

unfoldable pub clamp : ℕ → ℕ → ℕ → ℕ
clamp val lo hi = if ltb val lo then lo else if ltb hi val then hi else val

unfoldable pub compute_resources : ℕ → Resources
unfolding clamp
compute_resources num_cpu =
    let db_max_conns = max (num_cpu * 2) 10 in
    let budget = max (db_max_conns - min_reserved_conns) 4 in
    let queue_workers = max 2 (budget * 2 / 3) in
    record {
      queue_workers = queue_workers;
      retry_workers = max 1 (budget - queue_workers);
      queue_batch = clamp (num_cpu * 6) 20 100;
      retry_batch = clamp (num_cpu * 3) 10 50;
      db_max_conns = db_max_conns;
    }
