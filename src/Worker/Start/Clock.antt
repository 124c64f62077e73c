-- ===== src/Worker/Start/Clock.antt =====
-- The clock under the statements of a worker (worker/repository.go).
use vaulthook.Prelude.{
  ℕ, ◌≡◌, refl, ◌∙◌, subst, Option, none, some, List, [], ◌∷◌, Option-cases, inl, inr,
}
use vaulthook.Model.{Fault, Result, ok, err, Result-cases, Webhook}
use vaulthook.Database.{Db, find_event}
use vaulthook.Worker.Forward.{UpdateWebhook}
use vaulthook.Worker.Repository.{Kind, get_events, update_one, update_all, update_events, prepend}
use vaulthook.Worker.Run.{Round}

abbrev OneKeeps : ℕ → Result (Option Webhook × Db) → Type 0
OneKeeps t (ok (row, db)) = db.now ≡ t
OneKeeps t (err e) = Unit

abbrev AllKeep : ℕ → Result (List (Option Webhook) × Db) → Type 0
AllKeep t (ok (rows, db)) = db.now ≡ t
AllKeep t (err e) = Unit

update_one-now :
    (kind : Kind) (u : UpdateWebhook) (db : Db) → OneKeeps db.now (update_one kind u db)
unfolding update_one
update_one-now kind u db = elim (Option-cases u.delivery_status) [
  | inl bad ↦ rw (bad, update_one) tt
  | inr (status, good) ↦ elim (Option-cases (find_event u.id db.events)) [
    | inl gone ↦ rw (good, gone, update_one) refl
    | inr (w, found) ↦ rw (good, found, update_one) refl
  ]
]

prepend-keeps :
    (t : ℕ) (w : Option Webhook) (r : Result (List (Option Webhook) × Db))
    → AllKeep t r
    → AllKeep t (prepend w r)
prepend-keeps t w (ok (rows, db)) h = h
prepend-keeps t w (err e) h = tt

update_all-now :
    (kind : Kind) (us : List UpdateWebhook) (t : ℕ) (db : Db)
    → db.now ≡ t
    → AllKeep t (update_all kind us db)
unfolding update_all
update_all-now kind [] t db e = e
update_all-now kind (u ∷ us) t db e = elim (Result-cases (update_one kind u db)) [
  | inl (f, bad) ↦ rw (bad, update_all) tt
  | inr ((w, db'), good) ↦
      let same : db'.now ≡ db.now = subst (OneKeeps db.now) good (update_one-now kind u db) in
      rw (good, update_all) (prepend-keeps t w _ (update_all-now kind us t db' (same ∙ e)))
]

pub update_events-now :
    (kind : Kind) (us : List UpdateWebhook) (fault : Option Fault) (db : Db)
    → (update_events kind us fault db).1.now ≡ db.now
unfolding update_events
update_events-now kind [] fault db = refl
update_events-now kind (u ∷ us) (some e) db = refl
update_events-now kind (u ∷ us) none db = elim (Result-cases (update_all kind (u ∷ us) db)) [
  | inl (e, bad) ↦ rw (bad, update_events) refl
  | inr ((rows, db'), good) ↦
      rw (good, update_events)
        (subst (AllKeep db.now) good (update_all-now kind (u ∷ us) db.now db refl))
]

pub get_events-now :
    (kind : Kind) (r : Round) (fault : Option Fault) (db : Db)
    → (get_events kind r.sizes r.locked fault db).1.now ≡ db.now
unfolding get_events
get_events-now kind r (some e) db = refl
get_events-now kind r none db = refl
