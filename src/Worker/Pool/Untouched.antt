-- ===== src/Worker/Pool/Untouched.antt =====
-- Which claims and updates leave the row of an event as it is (worker/repository.go).
pub mod Others
use vaulthook.Prelude.{
  ℕ, ◌-◌, ◌≡◌, ◌≢◌, refl, sym, ap, ◌∙◌, subst, String, Bool, true, false, Option, none, some, List,
  [], ◌∷◌, map, arith, not, ◌==◌, keep, keep-mem, any, All, Memᴰ, length, Bool-cases, Option-cases,
  inl, inr, false≢true, if◌then◌else◌,
}
use vaulthook.Model.{
  Fault, Result, ok, err, Result-cases, DeliveryStatus, Webhook, CreateWebhookParams,
}
use vaulthook.Database.{Db, UniqueIds, same_event, find_event, find_provider}
use vaulthook.Worker.Forward.{UpdateWebhook}
use vaulthook.Worker.Repository.{
  Kind, BatchSizes, selected, claim, updated, is_eligible, get_events, update_one, update_all,
  update_events, prepend,
}
use vaulthook.Worker.Repository.Claims.{claim-ClaimStep}
use vaulthook.Worker.Cleanup.{Faults, run_cleanup, is_old, unless_fault, evict}
use vaulthook.Events.Repository.{insert_row, insert_webhook, replayed, replay_event}

-- A row of the id that is in the table afterwards was there before, as it is.
abbrev pub Untouched : ℕ → Db → Db → Type 0
Untouched i db db' = (w : Webhook) → Memᴰ w db'.events → w.id ≡ i → Memᴰ w db.events

pub map-mem :
    (f : Webhook → Webhook) (w : Webhook) (ws : List Webhook)
    → Memᴰ w (map f ws)
    → (v : Webhook) × Memᴰ v ws × (w ≡ f v)
map-mem f w [] m = elim m [ ]
map-mem f w (x ∷ xs) (Memᴰ.head e) = (x, Memᴰ.head refl, e)
map-mem f w (x ∷ xs) (Memᴰ.tail m) = let (v, n, e) = map-mem f w xs m in (v, Memᴰ.tail n, e)

-- A change of rows by a function that leaves the rows of the id alone.
module _ (i : ℕ) (f : Webhook → Webhook) (same_id : (w : Webhook) → (f w).id ≡ w.id) where
  pub map-Untouched :
      (db : Db)
      → ((w : Webhook) → Memᴰ w db.events → w.id ≡ i → f w ≡ w)
      → Untouched i db (record db { events = map f db.events })
  map-Untouched db alone w m e =
      let (v, n, from) = map-mem f w db.events m in
      let mine : v.id ≡ i = sym (same_id v) ∙ ap (λ (x : Webhook). x.id) (sym from) ∙ e in
      subst (λ x. Memᴰ x db.events) (sym (from ∙ alone v n mine)) n

pub claim-id :
    (kind : Kind) (db : Db) (rows : List Webhook) (w : Webhook) → (claim kind db rows w).id ≡ w.id
claim-id kind db rows w = ground arith

-- A claim leaves the rows alone that it finds not eligible.
pub get_events-Untouched :
    (kind : Kind) (sizes : BatchSizes) (locked : ℕ → Bool) (fault : Option Fault) (db : Db) (i : ℕ)
    → UniqueIds db.events
    → ((w : Webhook) → Memᴰ w db.events → w.id ≡ i → is_eligible kind db w ≡ false)
    → Untouched i db (get_events kind sizes locked fault db).1
unfolding get_events
get_events-Untouched kind sizes locked (some e) db i u bar = λ w m h. m
get_events-Untouched kind sizes locked none db i u bar =
    let rows = selected kind sizes locked db in
    map-Untouched i (claim kind db rows) (claim-id kind db rows) db (λ w m e.
      elim (claim-ClaimStep kind sizes locked db w u m) [
        | inl same ↦ same
        | inr (eligible, _, _) ↦ absurd (false≢true (sym (bar w m e) ∙ eligible))
      ])

set_row-id :
    (kind : Kind) (now : ℕ) (s : DeliveryStatus) (u : UpdateWebhook) (w : Webhook)
    → (if w.id == u.id then updated kind now s u w else w).id ≡ w.id
set_row-id kind now s u w = ground arith

set_row_other :
    (kind : Kind) (now : ℕ) (s : DeliveryStatus) (u : UpdateWebhook) (w : Webhook) (i : ℕ)
    → u.id ≢ i
    → w.id ≡ i
    → (if w.id == u.id then updated kind now s u w else w) ≡ w
set_row_other kind now s u w i ne e =
    let other : (w.id == u.id) ≡ false = ground (arith, ne, e) in rw other refl

abbrev OneUntouched : ℕ → Db → Result (Option Webhook × Db) → Type 0
OneUntouched i db (ok (row, db')) = Untouched i db db'
OneUntouched i db (err e) = Unit

abbrev AllUntouched : ℕ → Db → Result (List (Option Webhook) × Db) → Type 0
AllUntouched i db (ok (rows, db')) = Untouched i db db'
AllUntouched i db (err e) = Unit

update_one-Untouched :
    (kind : Kind) (u : UpdateWebhook) (db : Db) (i : ℕ)
    → u.id ≢ i
    → OneUntouched i db (update_one kind u db)
unfolding update_one
update_one-Untouched kind u db i ne = elim (Option-cases u.delivery_status) [
  | inl bad ↦ rw (bad, update_one) tt
  | inr (s, good) ↦ elim (Option-cases (find_event u.id db.events)) [
    | inl missing ↦ rw (good, missing, update_one) (λ w m e. m)
    | inr (v, found) ↦
        rw (good, found, update_one)
          (map-Untouched i _ (set_row-id kind db.now s u) db
            (λ w m e. set_row_other kind db.now s u w i ne e))
  ]
]

prepend-Untouched :
    (i : ℕ) (a b : Db) (row : Option Webhook) (r : Result (List (Option Webhook) × Db))
    → Untouched i a b
    → AllUntouched i b r
    → AllUntouched i a (prepend row r)
prepend-Untouched i a b row (ok (rows, db)) h k = λ w m e. h w (k w m e) e
prepend-Untouched i a b row (err e) h k = tt

update_all-Untouched :
    (kind : Kind) (us : List UpdateWebhook) (db : Db) (i : ℕ)
    → All (λ u. u.id ≢ i) us
    → AllUntouched i db (update_all kind us db)
unfolding update_all
update_all-Untouched kind [] db i h = λ w m e. m
update_all-Untouched kind (u ∷ us) db i h = elim (Result-cases (update_one kind u db)) [
  | inl (e, bad) ↦ rw (bad, update_all) tt
  | inr ((v, db'), good) ↦
      let one = subst (OneUntouched i db) good (update_one-Untouched kind u db i h.0) in
      rw (good, update_all)
        (prepend-Untouched i db db' v _ one (update_all-Untouched kind us db' i h.1))
]

-- Updates of other events.
pub update_events-Untouched :
    (kind : Kind) (us : List UpdateWebhook) (fault : Option Fault) (db : Db) (i : ℕ)
    → All (λ u. u.id ≢ i) us
    → Untouched i db (update_events kind us fault db).1
unfolding update_events
update_events-Untouched kind [] fault db i h = λ w m e. m
update_events-Untouched kind (u ∷ us) (some f) db i h = λ w m e. m
update_events-Untouched kind (u ∷ us) none db i h =
    elim (Result-cases (update_all kind (u ∷ us) db)) [
      | inl (e, bad) ↦ rw (bad, update_events) (λ w m e. m)
      | inr ((rows, db'), good) ↦
          rw (good, update_events)
            (subst (AllUntouched i db) good (update_all-Untouched kind (u ∷ us) db i h))
    ]
