-- ===== src/Worker/Start/Steps.antt =====
-- A worker's loops as steps of the whole gateway (worker/service.go).
use vaulthook.Prelude.{
  ℕ, ◌+◌, ◌-◌, ◌≡◌, ◌≤◌, refl, sym, ◌∙◌, subst, arith, String, Option, List, [], ◌∷◌, Bool-cases,
  inl, inr, ◌⊎◌,
}
use vaulthook.Model.{Fault, Webhook}
use vaulthook.Database.{Db}
use vaulthook.System.{Step, Reach}
use vaulthook.Worker.Forward.{forward_event}
use vaulthook.Worker.Repository.{Kind, get_events, update_events}
use vaulthook.Worker.Run.{Round, Next, batch, no_hooks_to_work, broken, get_next, process, run}
use vaulthook.Worker.Start.{Shift, Wake, signalled, ticked, canceled, listens, after_shift, start}
use vaulthook.Worker.Start.Clock.{update_events-now, get_events-now}

-- The rounds follow each other on the clock, from one time to another.
abbrev pub Timely : ℕ → ℕ → List Round → Type 0
Timely t over [] = t ≤ over
Timely t over (r ∷ rs) = (t ≤ r.now) × Timely r.now over rs

Timely-over : (t over : ℕ) (rs : List Round) → Timely t over rs → t ≤ over
Timely-over t over [] h = h
Timely-over t over (r ∷ rs) h = omega (arith, h.0, Timely-over r.now over rs h.1)

module _ (jsonb : String → Option String) where
  abbrev pub join : {a b c : Db} → Reach jsonb a b → Reach jsonb b c → Reach jsonb a c
  join p Reach.here = p
  join p (Reach.next q s) = Reach.next (join p q) s

  -- The clock moves on to a later time.
  pub wait : (t : ℕ) (db : Db) → db.now ≤ t → Reach jsonb db (record db { now = t })
  wait t db h =
      let moved : db.now + (t - db.now) ≡ t = omega arith in
      subst (λ n. Reach jsonb db (record db { now = n })) moved
        (Reach.next Reach.here (Step.tick (t - db.now) db))

  -- What a run does: it goes by steps of the gateway, and ends in time.
  record Runs (over : ℕ) (db db' : Db) : Type 0 where
    reach : Reach jsonb db db'
    in_time : db'.now ≤ over

  Next-cases :
      (n : Next)
      → ((hooks : List Webhook) × (n ≡ batch hooks))
        ⊎ ((n ≡ no_hooks_to_work) ⊎ ((e : Fault) × (n ≡ broken e)))
  Next-cases (batch hooks) = inl (hooks, refl)
  Next-cases no_hooks_to_work = inr (inl refl)
  Next-cases (broken e) = inr (inr (e, refl))

  claim-Runs :
      (kind : Kind) (r : Round) (over : ℕ) (db : Db)
      → db.now ≤ r.now
      → r.now ≤ over
      → Runs over db (get_events kind r.sizes r.locked r.fetch_fault (record db { now = r.now })).1
  claim-Runs kind r over db early late =
      let clock = get_events-now kind r r.fetch_fault (record db { now = r.now }) in
      record {
        reach =
            Reach.next (wait r.now db early)
              (Step.claim kind r.sizes r.locked r.fetch_fault (record db { now = r.now }));
        in_time = omega (arith, clock, late);
      }

  run-Runs :
      (kind : Kind) (rounds : List Round) (over : ℕ) (db : Db)
      → Timely db.now over rounds
      → Runs over db (run kind rounds db).db
  unfolding run process
  run-Runs kind [] over db h = record { reach = Reach.here; in_time = h }
  run-Runs kind (r ∷ rs) over db h =
      let at_start = record db { now = r.now } in
      let (result, db') = get_events kind r.sizes r.locked r.fetch_fault at_start in
      let first = claim-Runs kind r over db h.0 (Timely-over r.now over rs h.1) in
      elim (Next-cases (get_next result)) [
        | inr (inl e) ↦ simp (e, run) first
        | inr (inr (f, e)) ↦ simp (e, run) first
        | inl (hooks, e) ↦
            let updates = forward_event r.env hooks in
            let db'' = (update_events kind updates r.save_fault db').1 in
            let clock : db''.now ≡ r.now =
              update_events-now kind updates r.save_fault db'
              ∙ get_events-now kind r r.fetch_fault at_start in
            let rest = run-Runs kind rs over db'' (subst (λ t. Timely t over rs) (sym clock) h.1) in
            simp (e, run)
              (record {
                reach =
                    join (Reach.next first.reach (Step.finish kind updates r.save_fault db'))
                      rest.reach;
                in_time = rest.in_time;
              })
      ]

  -- The shifts follow each other on the clock, and so do the rounds of each.
  abbrev pub InTurn : ℕ → List Wake → Type 0
  InTurn t [] = Unit
  InTurn t (canceled ∷ wakes) = Unit
  InTurn t (ticked s ∷ wakes) = Timely t s.over s.rounds × InTurn s.over wakes
  InTurn t (signalled s ∷ wakes) = Timely t s.over s.rounds × InTurn s.over wakes

  shift-Reach :
      (kind : Kind) (s : Shift) (db : Db)
      → Timely db.now s.over s.rounds
      → Reach jsonb db (after_shift kind s db)
  shift-Reach kind s db h =
      let ran = run-Runs kind s.rounds s.over db h in
      join ran.reach (wait s.over (run kind s.rounds db).db ran.in_time)

  Timely-earlier : (t t' over : ℕ) (rs : List Round) → t' ≤ t → Timely t over rs → Timely t' over rs
  Timely-earlier t t' over [] le h = omega arith
  Timely-earlier t t' over (r ∷ rs) le h = (omega (arith, le, h.0), h.1)

  InTurn-earlier : (t t' : ℕ) (wakes : List Wake) → t' ≤ t → InTurn t wakes → InTurn t' wakes
  InTurn-earlier t t' [] le h = tt
  InTurn-earlier t t' (canceled ∷ wakes) le h = tt
  InTurn-earlier t t' (ticked s ∷ wakes) le h = (Timely-earlier t t' s.over s.rounds le h.0, h.1)
  InTurn-earlier t t' (signalled s ∷ wakes) le h = (Timely-earlier t t' s.over s.rounds le h.0, h.1)

  -- Whatever wakes a worker of any kind, and however its shifts end, all that it does to the table are
  -- steps of the gateway: claims, results and the clock. So what holds of every table that the gateway
  -- reaches holds under its workers' loops. The clock of the shifts does not go back.
  pub start-Reach :
      (kind : Kind) (wakes : List Wake) (db : Db)
      → InTurn db.now wakes
      → Reach jsonb db (start kind wakes db).db
  unfolding start
  start-Reach kind [] db h = Reach.here
  start-Reach kind (canceled ∷ wakes) db h = Reach.here
  start-Reach kind (ticked s ∷ wakes) db h =
      join (shift-Reach kind s db h.0) (start-Reach kind wakes (after_shift kind s db) h.1)
  start-Reach kind (signalled s ∷ wakes) db h =
      let worked =
        join (shift-Reach kind s db h.0) (start-Reach kind wakes (after_shift kind s db) h.1) in
      let late = Timely-over db.now s.over s.rounds h.0 in
      let asleep = start-Reach kind wakes db (InTurn-earlier s.over db.now wakes late h.1) in
      elim (Bool-cases (listens kind)) [ inl e ↦ rw e worked | inr e ↦ rw e asleep ]
