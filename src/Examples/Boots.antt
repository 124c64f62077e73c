-- ===== src/Examples/Boots.antt =====
-- The start of the program at concrete inputs.
use vaulthook.Prelude.{String, ◌≡◌, refl, List, [], ◌∷◌, none, some, Bool, true, false, codes}
use vaulthook.Model.{pg_error}
use vaulthook.Config.Connections.{Libraries, new_pg, do_once}
use vaulthook.App.{World, Job, Out, done, crash, new}
use vaulthook.App.Started.{Starts, fresh, new-Starts}
use vaulthook.Examples.{shop}
use vaulthook.Examples.Settings.{json}
use vaulthook.Examples.Dashboard.{environment}

abbrev libraries : Libraries
libraries = record {
  parse_config = λ _. none;
  new_with_config = none;
  read_build_info =
      some (record { go_version = "go1.25"; settings = ("vcs.revision", "1a2b3c") ∷ [] });
  parse_url = λ _. none;
  ping_redis = none;
  decimal = λ _. codes "5432";
}

abbrev world : World
world = record {
  environment = environment;
  num_cpu = 4;
  libraries = libraries;
  ping_fault = none;
  json = json;
  row_fault = none;
  cache_fault = none;
  rows = shop ∷ [];
}

-- A pair that an earlier process has left in Redis.
abbrev left_over : List (String × String)
left_over = ("Shopify", "{}") ∷ []

new-Starts_example : Starts world left_over (new world (fresh left_over))
new-Starts_example = new-Starts world left_over (tt, tt)

-- The goroutines of a start.
abbrev jobs_of : {A : Type 0} → Out A → List Job
jobs_of (done a p) = p.jobs
jobs_of (crash c p) = p.jobs

abbrev has_crashed : {A : Type 0} → Out A → Bool
has_crashed (done a p) = false
has_crashed (crash c p) = true

abbrev silent : World
silent = record world { ping_fault = some (pg_error "timeout") }

-- A database that does not answer.
silent_crashes : has_crashed (new silent (fresh [])) ≡ true
unfolding new new_pg do_once
silent_crashes = refl

silent_idle : jobs_of (new silent (fresh [])) ≡ []
unfolding new new_pg do_once
silent_idle = refl
