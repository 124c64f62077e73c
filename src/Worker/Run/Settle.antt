-- ===== src/Worker/Run/Settle.antt =====
-- What one round leaves of the events that it claimed (worker/service.go, run).
pub mod OneRound
pub mod Outcomes
use vaulthook.Prelude.{
  ℕ, ◌≡◌, ◌≢◌, refl, sym, ap, ap₂, ◌∙◌, subst, Bool, true, false, Option, none, some, List, [], ◌∷◌,
  ◌++◌, map, not, ◌==◌, ==_iff, arith, Memᴰ, All, All-mem, take, keep, any, sort_by, Bool-cases,
  Option-cases, inl, inr, if◌then◌else◌, take-mem, sort_by-mem, keep-mem,
}
use vaulthook.Model.{Result, ok, err, DeliveryStatus, failed, Webhook}
use vaulthook.Database.{Db, UniqueIds, UniqueIds-eq, find_event}
use vaulthook.Worker.Forward.{UpdateWebhook, Env, forward_one, forward_event}
use vaulthook.Worker.Forward.Outcome.{forward_one-id}
use vaulthook.Worker.Repository.{
  Kind, selected, claimed, claim, updated, update_one, prepend, update_all, scan_all, update_events,
  get_events, has_id,
}
use vaulthook.Worker.Run.{Round, Ran, process, run, sendable}
use vaulthook.Worker.Run.Drain.{at_round, batch_of_round, run-cons}

-- An id that is in the table is found.
find_event-mem :
    (w : Webhook) (ws : List Webhook) → UniqueIds ws → Memᴰ w ws → find_event w.id ws ≡ some w
unfolding find_event
find_event-mem w [] u m = elim m [ ]
find_event-mem w (x ∷ xs) u (Memᴰ.head e) =
    let same : (x.id == w.id) ≡ true = (==_iff x.id w.id).1 (ap (λ (v : Webhook). v.id) (sym e)) in
    rw same (ap some (sym e))
find_event-mem w (x ∷ xs) u (Memᴰ.tail m) =
    let ne = All-mem (λ v. v.id ≢ x.id) w xs u.0 m in
    let other : (x.id == w.id) ≡ false = ground (arith, ne) in rw other (find_event-mem w xs u.1 m)

pub mem-map :
    (f : Webhook → Webhook) (w : Webhook) (ws : List Webhook) → Memᴰ w ws → Memᴰ (f w) (map f ws)
mem-map f w [] m = elim m [ ]
mem-map f w (x ∷ xs) (Memᴰ.head e) = Memᴰ.head (ap f e)
mem-map f w (x ∷ xs) (Memᴰ.tail m) = Memᴰ.tail (mem-map f w xs m)

-- The row of an event after its update, and the status of one that names none.
abbrev pub status_or_failed : Option DeliveryStatus → DeliveryStatus
status_or_failed none = failed
status_or_failed (some s) = s

update_one-found :
    (kind : Kind) (u : UpdateWebhook) (db : Db) (status : DeliveryStatus) (w : Webhook)
    → u.delivery_status ≡ some status
    → find_event u.id db.events ≡ some w
    → update_one kind u db
      ≡ ok (
        some (updated kind db.now status u w),
        record db {
          events = map (λ v. if v.id == u.id then updated kind db.now status u v else v) db.events;
        },
      )
unfolding update_one
update_one-found kind u db status w good found = rw (good, found, update_one)

update_all-cons :
    (kind : Kind) (u : UpdateWebhook) (us : List UpdateWebhook) (db db1 db2 : Db)
    (row : Option Webhook) (rows : List (Option Webhook))
    → update_one kind u db ≡ ok (row, db1)
    → update_all kind us db1 ≡ ok (rows, db2)
    → update_all kind (u ∷ us) db ≡ ok (row ∷ rows, db2)
unfolding update_all
update_all-cons kind u us db db1 db2 row rows first rest = rw (first, update_all) (rw rest)

abbrev pub settled : Kind → (Webhook → UpdateWebhook) → ℕ → Webhook → Webhook
settled kind f now w = updated kind now (status_or_failed (f w).delivery_status) (f w) w

module _ (kind : Kind) (f : Webhook → UpdateWebhook)
    (same_id : (w : Webhook) → (f w).id ≡ w.id) where
  abbrev set_row : ℕ → Webhook → Webhook → Webhook
  set_row now w v =
      if v.id == (f w).id
      then updated kind now (status_or_failed (f w).delivery_status) (f w) v
      else v

  update_one-mem :
      (w : Webhook) (db : Db)
      → (f w).delivery_status ≢ none
      → UniqueIds db.events
      → Memᴰ w db.events
      → update_one kind (f w) db
        ≡ ok (
          some (settled kind f db.now w),
          record db { events = map (set_row db.now w) db.events },
        )
  update_one-mem w db known u m = elim (Option-cases (f w).delivery_status) [
    | inl bad ↦ absurd (known bad)
    | inr (status, good) ↦
        let found : find_event (f w).id db.events ≡ some w =
          ap (λ i. find_event i db.events) (same_id w) ∙ find_event-mem w db.events u m in
        update_one-found kind (f w) db status w good found
        ∙ ap
            (λ (st : DeliveryStatus). ok (
              some (updated kind db.now st (f w) w),
              record db {
                events =
                    map (λ v. if v.id == (f w).id then updated kind db.now st (f w) v else v)
                      db.events;
              },
            ))
            (sym (ap status_or_failed good))
  ]

  set_row-id : (now : ℕ) (w v : Webhook) → (set_row now w v).id ≡ v.id
  set_row-id now w v = ground arith

  set_row_other : (now : ℕ) (w v : Webhook) → v.id ≢ w.id → set_row now w v ≡ v
  set_row_other now w v ne =
      let other : (v.id == (f w).id) ≡ false = ground (arith, same_id w, ne) in rw other

  set_row_self : (now : ℕ) (w : Webhook) → set_row now w w ≡ settled kind f now w
  set_row_self now w = let this : (w.id == (f w).id) ≡ true = ground (arith, same_id w) in rw this

  All-ids-map :
      (now : ℕ) (w : Webhook) (i : ℕ) (vs : List Webhook)
      → All (λ v. v.id ≢ i) vs
      → All (λ v. v.id ≢ i) (map (set_row now w) vs)
  All-ids-map now w i [] h = tt
  All-ids-map now w i (v ∷ vs) h =
      (λ e. h.0 (sym (set_row-id now w v) ∙ e), All-ids-map now w i vs h.1)

  UniqueIds-set :
      (now : ℕ) (w : Webhook) (vs : List Webhook)
      → UniqueIds vs
      → UniqueIds (map (set_row now w) vs)
  UniqueIds-set now w [] u = tt
  UniqueIds-set now w (v ∷ vs) u =
      (rw (set_row-id now w v) (All-ids-map now w v.id vs u.0), UniqueIds-set now w vs u.1)

  -- A row of another id stays in the table.
  stays :
      (now : ℕ) (w v : Webhook) (rows : List Webhook)
      → v.id ≢ w.id
      → Memᴰ v rows
      → Memᴰ v (map (set_row now w) rows)
  stays now w v rows ne m =
      subst (λ x. Memᴰ x (map (set_row now w) rows)) (set_row_other now w v ne)
        (mem-map (set_row now w) v rows m)

  All-stay :
      (now : ℕ) (w : Webhook) (rows vs : List Webhook)
      → All (λ v. v.id ≢ w.id) vs
      → All (λ v. Memᴰ v rows) vs
      → All (λ v. Memᴰ v (map (set_row now w) rows)) vs
  All-stay now w rows [] ne m = tt
  All-stay now w rows (v ∷ vs) ne m = (stays now w v rows ne.0 m.0, All-stay now w rows vs ne.1 m.1)

  -- What a batch of updates does to a table that holds its events: each gets its row, and the others
  -- keep theirs.
  pub record Saved (hooks : List Webhook) (db db' : Db) : Type 0 where
    pub done :
        update_all kind (map f hooks) db ≡ ok (map (λ w. some (settled kind f db.now w)) hooks, db')
    pub rows : All (λ w. Memᴰ (settled kind f db.now w) db'.events) hooks
    pub others : (v : Webhook) → All (λ w. w.id ≢ v.id) hooks → Memᴰ v db.events → Memᴰ v db'.events

  pub update_all-Saved :
      (hooks : List Webhook) (db : Db)
      → All (λ w. (f w).delivery_status ≢ none) hooks
      → UniqueIds hooks
      → UniqueIds db.events
      → All (λ w. Memᴰ w db.events) hooks
      → (db' : Db) × Saved hooks db db'
  unfolding update_all
  update_all-Saved [] db known distinct u m =
      (db, record { done = refl; rows = tt; others = λ v a n. n })
  update_all-Saved (w ∷ ws) db known distinct u m =
      let db1 : Db = record db { events = map (set_row db.now w) db.events } in
      let first = update_one-mem w db known.0 u m.0 in
      let (db2, rest) =
        update_all-Saved ws db1 known.1 distinct.1 (UniqueIds-set db.now w db.events u)
          (All-stay db.now w db.events ws distinct.0 m.1) in
      let mine : Memᴰ (settled kind f db.now w) db1.events =
        subst (λ x. Memᴰ x db1.events) (set_row_self db.now w)
          (mem-map (set_row db.now w) w db.events m.0) in
      (
        db2,
        record {
          done = update_all-cons kind (f w) (map f ws) db db1 db2 _ _ first rest.done;
          rows = (rest.others (settled kind f db.now w) distinct.0 mine, rest.rows);
          others = λ v a n. rest.others v a.1 (stays db.now w v db.events (λ e. a.0 (sym e)) n);
        },
      )
