-- ===== src/Worker/Run/Retries/Bounded.antt =====
-- The retry worker gives up (worker/service.go, run).
use vaulthook.Prelude.{
  ℕ, ◌+◌, ◌-◌, ◌≤◌, ◌≡◌, refl, sym, ap, ◌∙◌, subst, true, false, none, some, List, [], ◌∷◌, arith,
  Memᴰ, Bool-cases, Option-cases, inl, inr,
}
use vaulthook.Model.{Fault, failed, Provider, Webhook}
use vaulthook.Database.{Db, UniqueIds-eq, find_provider}
use vaulthook.Worker.Forward.{forward_event}
use vaulthook.Worker.Repository.{retry, is_unfinished, has_id, selected, get_events}
use vaulthook.Worker.Run.{Round, run}
use vaulthook.Worker.Run.Drain.{at_round, batch_of_round}
use vaulthook.Worker.Run.Retries.{left, Allows, hooks_of, tried, tries}
use vaulthook.Worker.Run.Retries.Uses.{
  claimed_db, settled_db, run-settled_db, has_id-claimed, tried-Allows, untried-Allows,
}
use vaulthook.Worker.Pool.Rounds.{run-broken}
use vaulthook.System.{Step}
use vaulthook.System.Keys.{IsConsistent}
use vaulthook.System.Unique.{Step-IsConsistent}

settled_db-IsConsistent : (r : Round) (db : Db) → IsConsistent db → IsConsistent (settled_db r db)
settled_db-IsConsistent r db c =
    let claimed =
      Step-IsConsistent some (Step.claim retry r.sizes r.locked none (at_round r db))
        (record { ids = c.ids; events = c.events }) in
    Step-IsConsistent some
      (Step.finish retry (forward_event r.env (batch_of_round retry r db)) r.save_fault
        (claimed_db r db))
      claimed

-- What a round that could claim, and one that could not, say of the event.
tried-fetched :
    (i : ℕ) (r : Round) (db : Db)
    → r.fetch_fault ≡ none
    → tried i r db ≡ has_id i (selected retry r.sizes r.locked (at_round r db))
unfolding get_events
tried-fetched i r db f =
    ap (λ fault. has_id i (hooks_of (get_events retry r.sizes r.locked fault (at_round r db)).0)) f
    ∙ has_id-claimed (at_round r db) i (selected retry r.sizes r.locked (at_round r db))

tried-broken :
    (i : ℕ) (r : Round) (db : Db) (e : Fault) → r.fetch_fault ≡ some e → tried i r db ≡ false
unfolding get_events
tried-broken i r db e f =
    ap (λ fault. has_id i (hooks_of (get_events retry r.sizes r.locked fault (at_round r db)).0)) f

tries-untried :
    (i : ℕ) (r : Round) (rs : List Round) (db db' : Db)
    → tried i r db ≡ false
    → (run retry (r ∷ []) db).db ≡ db'
    → tries i (r ∷ rs) db ≡ tries i rs db'
unfolding tries
tries-untried i r rs db db' t e = simp t (ap (tries i rs) e)

tries-tried :
    (i : ℕ) (r : Round) (rs : List Round) (db db' : Db)
    → tried i r db ≡ true
    → (run retry (r ∷ []) db).db ≡ db'
    → tries i (r ∷ rs) db ≡ tries i rs db' + 1
unfolding tries
tries-tried i r rs db db' t e = simp t (ap (λ d. tries i rs d + 1) e)

tries-Allows :
    (i : ℕ) (rs : List Round) (db : Db) (b : ℕ)
    → IsConsistent db
    → Allows i b db
    → tries i rs db ≤ b
unfolding tries
tries-Allows i [] db b c a = omega arith
tries-Allows i (r ∷ rs) db b c a = elim (Option-cases r.fetch_fault) [
  | inr (e, f) ↦
      let later : Db = record db { now = r.now } in
      let rest =
        tries-Allows i rs later b (record { ids = c.ids; events = c.events }) (λ w m k. a w m k) in
      omega (
        arith,
        tries-untried i r rs db later (tried-broken i r db e f) (run-broken retry r db e f),
        rest,
      )
  | inl f ↦
      let ran = run-settled_db r db f in
      let settled = settled_db-IsConsistent r db c in
      let which = tried-fetched i r db f in
      elim (Bool-cases (has_id i (selected retry r.sizes r.locked (at_round r db)))) [
        | inr h ↦
            let rest =
              tries-Allows i rs (settled_db r db) b settled (untried-Allows i r db c.ids b a h) in
            omega (arith, tries-untried i r rs db (settled_db r db) (which ∙ h) ran, rest)
        | inl h ↦
            let (one, allowed) = tried-Allows i r db c.ids b a h in
            let rest = tries-Allows i rs (settled_db r db) (b - 1) settled allowed in
            omega (arith, tries-tried i r rs db (settled_db r db) (which ∙ h) ran, rest, one)
      ]
]

-- However many rounds the retry worker makes, whatever the destination answers, and whatever faults
-- its calls of the database have: a failed event is claimed in at most as many rounds as its
-- provider's max_retries leave it. The table's keys are unique, and nothing but the rounds changes it.
pub tries-bounded :
    (rs : List Round) (db : Db) (w : Webhook) (p : Provider)
    → IsConsistent db
    → Memᴰ w db.events
    → w.delivery_status ≡ failed
    → find_provider w.provider_id db.providers ≡ some p
    → tries w.id rs db ≤ p.max_retries - w.retry_count
tries-bounded rs db w p c m fail found =
    tries-Allows w.id rs db (p.max_retries - w.retry_count) c (λ v n e.
      let one = UniqueIds-eq w v db.events c.ids m n (sym e) in
      subst
        (λ (x : Webhook).
          (is_unfinished x.delivery_status ≡ false)
          × (left db.providers x ≤ p.max_retries - w.retry_count))
        one (rw fail refl, rw (fail, found) (omega arith)))
