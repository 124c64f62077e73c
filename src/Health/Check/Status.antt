-- ===== src/Health/Check/Status.antt =====
-- What the status of the health check says (api/handler/health.go, getHealth).
use vaulthook.Prelude.{
  ℕ, String, ◌≡◌, ◌≢◌, refl, ap, ◌∙◌, Bool, true, false, ◌&&◌, if◌then◌else◌, str_eq, Option, none,
  Text, Option-cases, inl, inr,
}
use vaulthook.Health.Check.{
  HealthCheck, Surroundings, healthy, unhealthy, get_health, get_health_check, run_checks, checked,
  overall,
}

abbrev pub expected : Bool → String
expected true = healthy
expected false = unhealthy

-- The status of both checks, whichever goroutine comes first.
overall-run_checks :
    (redis_first p r : Bool) (a b : ℕ)
    → overall (run_checks redis_first (checked p a) (checked r b)) ≡ expected (p && r)
overall-run_checks true true true a b = refl
overall-run_checks true true false a b = refl
overall-run_checks true false true a b = refl
overall-run_checks true false false a b = refl
overall-run_checks false true true a b = refl
overall-run_checks false true false a b = refl
overall-run_checks false false true a b = refl
overall-run_checks false false false a b = refl

get_health_check-status :
    (s : Surroundings)
    → (get_health_check s).status ≡ expected (s.postgres.answers && s.redis.answers)
unfolding get_health_check
get_health_check-status s = overall-run_checks s.redis_first s.postgres.answers s.redis.answers _ _

abbrev pub health_code : Bool → ℕ
health_code true = 200
health_code false = 503

abbrev code_of : String → ℕ
code_of status = if str_eq status healthy then 200 else 503

health_status-expected : (b : Bool) → code_of (expected b) ≡ health_code b
health_status-expected true = refl
health_status-expected false = refl

-- Whichever of the two goroutines finishes first, the health endpoint answers 200 exactly when both
-- PostgreSQL and Redis answer their pings, and 503 otherwise, if the check can be marshalled.
pub get_health-status :
    (marshal : HealthCheck → Option Text) (s : Surroundings)
    → marshal (get_health_check s) ≢ none
    → (get_health marshal s).status ≡ health_code (s.postgres.answers && s.redis.answers)
unfolding get_health
get_health-status marshal s printed = elim (Option-cases (marshal (get_health_check s))) [
  | inl m ↦ absurd (printed m)
  | inr (body, m) ↦
      simp (m, get_health)
        (ap code_of (get_health_check-status s)
          ∙ health_status-expected (s.postgres.answers && s.redis.answers))
]
