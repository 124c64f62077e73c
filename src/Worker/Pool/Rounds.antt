-- ===== src/Worker/Pool/Rounds.antt =====
-- The halves of a round in the pool against the loop `run` (worker/service.go).
use vaulthook.Prelude.{
  ◌<◌, ◌≡◌, refl, ap, ◌∙◌, String, true, false, Option, none, some, List, [], ◌∷◌, ◌++◌, lt→ltb,
  Option-cases, inl, inr,
}
use vaulthook.Model.{
  Fault, err, no_rows, hook_exists, invalid_uuid, decryption, encryption, invalid_signature,
  pg_error, other, Webhook,
}
use vaulthook.Database.{Db}
use vaulthook.Worker.Repository.{Kind, get_events}
use vaulthook.Worker.Run.{Round, Ran, no_hooks_to_work, broken, batch, get_next, process, run}
use vaulthook.Worker.Pool.{
  Workers, Pool, busy, workers, pick, take_batch, Act, takes, ends, act, acts,
}

-- A claim that fails ends the loop.
ended_db :
    (e : Fault) (db : Db) (k : List Webhook → Ran)
    → (elim (get_next (err e)) as (λ x. Ran) [
      | no_hooks_to_work ↦ record { db = db; sent = []; ended = true }
      | broken f ↦ record { db = db; sent = []; ended = true }
      | batch hooks ↦ k hooks
    ]).db
      ≡ db
unfolding get_next
ended_db no_rows db k = refl
ended_db hook_exists db k = refl
ended_db invalid_uuid db k = refl
ended_db decryption db k = refl
ended_db encryption db k = refl
ended_db invalid_signature db k = refl
ended_db (pg_error m) db k = refl
ended_db (other m) db k = refl

-- A round of the loop with the given fault of its claim.
abbrev round_with : Kind → Round → Db → Option Fault → Ran
round_with kind r db fault =
    let (result, db') = get_events kind r.sizes r.locked fault (record db { now = r.now }) in
    elim (get_next result) [
      | no_hooks_to_work ↦ record { db = db'; sent = []; ended = true }
      | broken e ↦ record { db = db'; sent = []; ended = true }
      | batch hooks ↦
          let (sent, db'') = process kind r hooks db' in
          record { db = db''; sent = sent ++ []; ended = false }
    ]

pub run-broken :
    (kind : Kind) (r : Round) (db : Db) (e : Fault)
    → r.fetch_fault ≡ some e
    → (run kind (r ∷ []) db).db ≡ record db { now = r.now }
unfolding run get_events
run-broken kind r db e f =
    let same : (run kind (r ∷ []) db).db ≡ (round_with kind r db r.fetch_fault).db = refl in
    same
    ∙ ap (λ fault. (round_with kind r db fault).db) f
    ∙ ended_db e (record db { now = r.now }) _

-- The pool at the time of a round.
abbrev pub pool_at : Round → Pool → Pool
pool_at r p = record p { db = record p.db { now = r.now } }

-- A round that could not claim ends with the claim.
abbrev pub halves :
    (jsonb : String → Option String) (n : Workers)
    → Kind
    → (r : Round) → Option Fault
    → List (Act jsonb n r.sizes)
halves jsonb n kind r none = takes kind r.locked none ∷ ends 0 r.env r.save_fault ∷ []
halves jsonb n kind r (some e) = takes kind r.locked (some e) ∷ []

module _ (jsonb : String → Option String) (n : Workers) where
  -- In a pool with an idle worker of the kind, whatever the others have in hand, the two halves of a
  -- round one after the other do what a round of `run` does: the same table, and the others keep their
  -- batches. A claim that fails is all of its round.
  pub run-halves :
      (kind : Kind) (r : Round) (p : Pool)
      → busy kind p.held < workers n kind
      → acts jsonb n r.sizes (halves jsonb n kind r r.fetch_fault) (pool_at r p)
        ≡ record p { db = (run kind (r ∷ []) p.db).db }
  unfolding acts act take_batch get_events pick run process
  run-halves kind r p free =
      let idle = lt→ltb _ _ free in
      elim (Option-cases r.fetch_fault) [
        | inl f ↦ simp (f, idle, acts, run) refl
        | inr (e, f) ↦ simp (f, idle, acts, run-broken kind r p.db e f) refl
      ]
