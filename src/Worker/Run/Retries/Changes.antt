-- ===== src/Worker/Run/Retries/Changes.antt =====
-- What the updates of a retry worker do to the rows (worker/repository.go, UpdateEvents).
use vaulthook.Prelude.{
  ℕ, ◌+◌, ◌≤◌, ◌≡◌, ◌⊎◌, refl, sym, ap, ◌∙◌, subst, Bool, false, Option, none, some, List, [], ◌∷◌,
  arith, ◌==◌, All, Memᴰ, Bool-cases, Option-cases, inl, inr, if◌then◌else◌,
}
use vaulthook.Model.{Fault, Result, ok, err, Result-cases, DeliveryStatus, Webhook}
use vaulthook.Database.{Db, find_event}
use vaulthook.Worker.Forward.{
  UpdateWebhook, Env, Response, handle_response, forward_one, forward_event,
}
use vaulthook.Worker.Forward.Attempts.{forward_one-Attempt}
use vaulthook.Worker.Repository.{
  retry, is_unfinished, updated, update_one, update_all, update_events, prepend,
}
use vaulthook.Worker.Pool.Untouched.{map-mem}

-- The status of an update, if it has one, is the end of an attempt.
abbrev ends_unfinished : Option DeliveryStatus → Bool
ends_unfinished none = false
ends_unfinished (some s) = is_unfinished s

abbrev pub Finished : UpdateWebhook → Type 0
Finished u = ends_unfinished u.delivery_status ≡ false

answer-Finished :
    (now : ℕ) (res : Response) (u : UpdateWebhook)
    → u.delivery_status ≡ none
    → Finished (handle_response now res u)
unfolding handle_response
answer-Finished now res u e = ground arith

forward_one-Finished : (env : Env) (hook : Webhook) → Finished (forward_one env hook)
forward_one-Finished env hook = elim (forward_one-Attempt env hook) [
  | inl (res, prov, _, _, _, _, _, answered) ↦
      subst Finished (sym answered) (answer-Finished env.now res _ refl)
  | inr (_, _, _, u) ↦ ap ends_unfinished u.status
]

pub forward_event-Finished :
    (env : Webhook → Env) (hooks : List Webhook) → All Finished (forward_event env hooks)
unfolding forward_event
forward_event-Finished env [] = tt
forward_event-Finished env (w ∷ ws) =
    (forward_one-Finished (env w) w, forward_event-Finished env ws)

-- A row before and after: it is as it was, or it was tried once more at least.
pub record Later (w w' : Webhook) : Type 0 where
  pub id : w'.id ≡ w.id
  pub provider_id : w'.provider_id ≡ w.provider_id
  pub moved :
      (w' ≡ w) ⊎ ((w.retry_count + 1 ≤ w'.retry_count) × (is_unfinished w'.delivery_status ≡ false))

-- The providers stay, and each row comes from one of before.
pub record Changed (db db' : Db) : Type 0 where
  pub providers : db'.providers ≡ db.providers
  pub rows : (w' : Webhook) → Memᴰ w' db'.events → (w : Webhook) × Memᴰ w db.events × Later w w'

pub same : (w : Webhook) → Later w w
same w = record { id = refl; provider_id = refl; moved = inl refl }

Later-trans : (u v w : Webhook) → Later u v → Later v w → Later u w
Later-trans u v w p q = record {
  id = q.id ∙ p.id;
  provider_id = q.provider_id ∙ p.provider_id;
  moved = elim q.moved [
    | inl e ↦
        subst
          (λ x.
            (x ≡ u)
            ⊎ ((u.retry_count + 1 ≤ x.retry_count) × (is_unfinished x.delivery_status ≡ false)))
          (sym e) p.moved
    | inr (more, over) ↦ elim p.moved [
      | inl e ↦ inr (subst (λ (x : Webhook). x.retry_count + 1 ≤ w.retry_count) e more, over)
      | inr (first, _) ↦ inr (omega (arith, first, more), over)
    ]
  ];
}

unchanged : (db : Db) → Changed db db
unchanged db = record { providers = refl; rows = λ w m. (w, m, same w) }

Changed-trans : (a b c : Db) → Changed a b → Changed b c → Changed a c
Changed-trans a b c p q = record {
  providers = q.providers ∙ p.providers;
  rows = λ w m.
      let (v, n, l) = q.rows w m in let (u, o, k) = p.rows v n in (u, o, Later-trans u v w k l);
}

set-Later :
    (now : ℕ) (s : DeliveryStatus) (u : UpdateWebhook) (v : Webhook)
    → is_unfinished s ≡ false
    → Later v (if v.id == u.id then updated retry now s u v else v)
set-Later now s u v over = elim (Bool-cases (v.id == u.id)) [
  | inr e ↦ simp e (same v)
  | inl e ↦ simp e (record { id = refl; provider_id = refl; moved = inr (omega arith, over) })
]

abbrev OneChanged : Db → Result (Option Webhook × Db) → Type 0
OneChanged db (ok (row, db')) = Changed db db'
OneChanged db (err e) = Unit

abbrev AllChanged : Db → Result (List (Option Webhook) × Db) → Type 0
AllChanged db (ok (rows, db')) = Changed db db'
AllChanged db (err e) = Unit

update_one-Changed :
    (u : UpdateWebhook) (db : Db) → Finished u → OneChanged db (update_one retry u db)
unfolding update_one
update_one-Changed u db f = elim (Option-cases u.delivery_status) [
  | inl bad ↦ rw (bad, update_one) tt
  | inr (s, good) ↦ elim (Option-cases (find_event u.id db.events)) [
    | inl missing ↦ rw (good, missing, update_one) (unchanged db)
    | inr (w, found) ↦
        let set = λ (v : Webhook). if v.id == u.id then updated retry db.now s u v else v in
        let over : is_unfinished s ≡ false = ap ends_unfinished (sym good) ∙ f in
        rw (good, found, update_one)
          (record {
            providers = refl;
            rows = λ w' m.
                let (v, n, e) = map-mem set w' db.events m in
                (v, n, subst (λ x. Later v x) (sym e) (set-Later db.now s u v over));
          })
  ]
]

prepend-AllChanged :
    (a b : Db) (row : Option Webhook) (r : Result (List (Option Webhook) × Db))
    → Changed a b
    → AllChanged b r
    → AllChanged a (prepend row r)
prepend-AllChanged a b row (ok (rows, db)) p q = Changed-trans a b db p q
prepend-AllChanged a b row (err e) p q = tt

update_all-Changed :
    (us : List UpdateWebhook) (db : Db) → All Finished us → AllChanged db (update_all retry us db)
unfolding update_all
update_all-Changed [] db f = unchanged db
update_all-Changed (u ∷ us) db f = elim (Result-cases (update_one retry u db)) [
  | inl (e, bad) ↦ rw (bad, update_all) tt
  | inr ((row, db'), good) ↦
      let one = subst (OneChanged db) good (update_one-Changed u db f.0) in
      rw (good, update_all) (prepend-AllChanged db db' row _ one (update_all-Changed us db' f.1))
]

-- The updates of finished attempts leave each row, or count a try and end it.
pub update_events-Changed :
    (us : List UpdateWebhook) (fault : Option Fault) (db : Db)
    → All Finished us
    → Changed db (update_events retry us fault db).1
unfolding update_events
update_events-Changed [] fault db f = unchanged db
update_events-Changed (u ∷ us) (some e) db f = unchanged db
update_events-Changed (u ∷ us) none db f = elim (Result-cases (update_all retry (u ∷ us) db)) [
  | inl (e, bad) ↦ rw (bad, update_events) (unchanged db)
  | inr ((rows, db'), good) ↦
      rw (good, update_events) (subst (AllChanged db) good (update_all-Changed (u ∷ us) db f))
]
