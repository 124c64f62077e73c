-- ===== src/Worker/Run/Settle/OneRound.antt =====
-- One round of a worker from the claim to the saved results (worker/service.go, run).
use vaulthook.Prelude.{
  ℕ, zero, suc, ◌&&◌, mem-any, ◌≡◌, ◌≢◌, refl, sym, ap, ◌∙◌, subst, Bool, true, Option, none, some,
  List, [], ◌∷◌, ◌++◌, map, not, ◌==◌, arith, Memᴰ, All, take, keep, sort_by, if◌then◌else◌,
  take-mem, sort_by-mem, keep-mem,
}
use vaulthook.Model.{Fault, Result, ok, err, Webhook}
use vaulthook.Database.{Db, UniqueIds}
use vaulthook.Worker.Forward.{UpdateWebhook, forward_one, forward_event}
use vaulthook.Worker.Forward.Outcome.{forward_one-id}
use vaulthook.Worker.Repository.{
  Kind, BatchSizes, selected, claimed, claim, update_all, scan_all, update_events, get_events,
  has_id, is_eligible, before, batch_limit,
}
use vaulthook.System.Keys.{UniqueIds-keep, UniqueIds-map, IsConsistent}
use vaulthook.System.{Step}
use vaulthook.System.Unique.{Step-IsConsistent}
use vaulthook.Worker.Repository.Backlog.{UniqueIds-sort_by}
use vaulthook.Worker.Run.{Round, Ran, process, run, sendable}
use vaulthook.Worker.Run.Drain.{at_round, batch_of_round, run-cons}
use vaulthook.Worker.Run.Settle.{settled, mem-map, Saved, update_all-Saved}

-- The update that a round makes of an event.
abbrev pub attempt : Round → Webhook → UpdateWebhook
attempt r w = forward_one (r.env w) w

pub attempt-id : (r : Round) (w : Webhook) → (attempt r w).id ≡ w.id
attempt-id r w = forward_one-id (r.env w) w

scan_all_found :
    (f : Webhook → Webhook) (ws : List Webhook)
    → scan_all (map (λ w. some (f w)) ws) ≡ (map f ws, none)
unfolding scan_all
scan_all_found f [] = refl
scan_all_found f (w ∷ ws) = rw (scan_all_found f ws)

abbrev pub after_attempt : Kind → Round → ℕ → Webhook → Webhook
after_attempt kind r now w = settled kind (attempt r) now w

abbrev table_of : Db → Result (List (Option Webhook) × Db) → Db
table_of db (ok (rows, db')) = db'
table_of db (err e) = db

abbrev rows_of : Result (List (Option Webhook) × Db) → List (Option Webhook)
rows_of (ok (rows, db)) = rows
rows_of (err e) = []

update_events-done :
    (kind : Kind) (us : List UpdateWebhook) (rows : List (Option Webhook)) (db db' : Db)
    → update_all kind us db ≡ ok (rows, db')
    → update_events kind us none db ≡ (scan_all rows, db')
unfolding update_events update_all
update_events-done kind [] rows db db' e =
    ap (λ (r : Result (List (Option Webhook) × Db)). (scan_all (rows_of r), table_of db r)) e
update_events-done kind (u ∷ us) rows db db' e = rw (e, update_events)

process-Saved :
    (kind : Kind) (r : Round) (hooks : List Webhook) (db db' : Db)
    → r.save_fault ≡ none
    → Saved kind (attempt r) (attempt-id r) hooks db db'
    → process kind r hooks db ≡ (map (after_attempt kind r db.now) hooks, db')
unfolding process forward_event
process-Saved kind r hooks db db' saved s =
    let updates = map (attempt r) hooks in
    let rows = map (λ w. some (after_attempt kind r db.now w)) hooks in
    ap
      (λ fault.
        (sendable (update_events kind updates fault db).0, (update_events kind updates fault db).1))
      saved
    ∙ ap (λ (x : (List Webhook × Option Fault) × Db). (sendable x.0, x.1))
        (update_events-done kind updates rows db db' s.done)
    ∙ ap (λ (x : List Webhook × Option Fault). (sendable x, db'))
        (scan_all_found (after_attempt kind r db.now) hooks)

-- The rows that a claim selects are rows of the table, each once.
selected-mem :
    (kind : Kind) (r : Round) (db : Db) (w : Webhook)
    → Memᴰ w (selected kind r.sizes r.locked db)
    → Memᴰ w db.events
unfolding selected
selected-mem kind r db w m =
    let rows = keep (λ v. is_eligible kind db v && not (r.locked v.id)) db.events in
    (keep-mem _ w db.events (
      sort_by-mem (before kind) w rows
        (take-mem (batch_limit r.sizes kind) w (sort_by (before kind) rows) m))).0

All-take : (P : Webhook → Type 0) (n : ℕ) (ws : List Webhook) → All P ws → All P (take n ws)
All-take P zero ws h = tt
All-take P (suc n) [] h = tt
All-take P (suc n) (w ∷ ws) h = (h.0, All-take P n ws h.1)

UniqueIds-take : (n : ℕ) (ws : List Webhook) → UniqueIds ws → UniqueIds (take n ws)
UniqueIds-take zero ws u = tt
UniqueIds-take (suc n) [] u = tt
UniqueIds-take (suc n) (w ∷ ws) u = (All-take (λ v. v.id ≢ w.id) n ws u.0, UniqueIds-take n ws u.1)

pub selected-UniqueIds :
    (kind : Kind) (sizes : BatchSizes) (locked : ℕ → Bool) (db : Db)
    → UniqueIds db.events
    → UniqueIds (selected kind sizes locked db)
unfolding selected
selected-UniqueIds kind sizes locked db u = UniqueIds-take _ _ (
    UniqueIds-sort_by (before kind) _
      (UniqueIds-keep (λ w. is_eligible kind db w && not (locked w.id)) db.events u))

abbrev claimed_db : Kind → Round → Db → Db
claimed_db kind r db = (get_events kind r.sizes r.locked none (at_round r db)).1

-- A selected row is in the table after the claim, with its new status.
claimed-mem :
    (kind : Kind) (r : Round) (db : Db) (w : Webhook)
    → Memᴰ w (selected kind r.sizes r.locked (at_round r db))
    → Memᴰ (claimed kind (at_round r db) w) (claimed_db kind r db).events
unfolding get_events
claimed-mem kind r db w m =
    let rows = selected kind r.sizes r.locked (at_round r db) in
    let chosen : has_id w.id rows ≡ true = mem-any (λ v. v.id == w.id) w rows m (ground arith) in
    let moved =
      mem-map (claim kind (at_round r db) rows) w db.events
        (selected-mem kind r (at_round r db) w m) in
    subst (λ v. Memᴰ v (map (claim kind (at_round r db) rows) db.events))
      (ap (λ b. if b then claimed kind (at_round r db) w else w) chosen) moved

-- The table is consistent after the claim.
claimed-IsConsistent :
    (kind : Kind) (r : Round) (db : Db) → IsConsistent db → IsConsistent (claimed_db kind r db)
claimed-IsConsistent kind r db c =
    Step-IsConsistent some (Step.claim kind r.sizes r.locked none (at_round r db))
      (record { ids = c.ids; events = c.events })

claimed_all-mem :
    (kind : Kind) (r : Round) (db : Db) (ws : List Webhook)
    → All (λ w. Memᴰ w (selected kind r.sizes r.locked (at_round r db))) ws
    → All (λ w. Memᴰ w (claimed_db kind r db).events) (map (claimed kind (at_round r db)) ws)
claimed_all-mem kind r db [] h = tt
claimed_all-mem kind r db (w ∷ ws) h =
    (claimed-mem kind r db w h.0, claimed_all-mem kind r db ws h.1)

All-self :
    (ws vs : List Webhook) → ((w : Webhook) → Memᴰ w ws → Memᴰ w vs) → All (λ w. Memᴰ w vs) ws
All-self [] vs h = tt
All-self (w ∷ ws) vs h = (h w (Memᴰ.head refl), All-self ws vs (λ v m. h v (Memᴰ.tail m)))

batch-UniqueIds :
    (kind : Kind) (r : Round) (db : Db) → IsConsistent db → UniqueIds (batch_of_round kind r db)
batch-UniqueIds kind r db c =
    UniqueIds-map (claimed kind (at_round r db))
      (λ w. record { id = refl; provider_id = refl; event_id = refl })
      (selected kind r.sizes r.locked (at_round r db))
      (selected-UniqueIds kind r.sizes r.locked (at_round r db) c.ids)

-- What a round has done with the events that it claimed: it sent the updated rows to the feed, and
-- they are in the table.
pub record Settled (kind : Kind) (r : Round) (db : Db) : Type 0 where
  pub sent :
      (run kind (r ∷ []) db).sent ≡ map (after_attempt kind r r.now) (batch_of_round kind r db)
  pub saved :
      All
        (λ w. Memᴰ (after_attempt kind r r.now w) (run kind (r ∷ []) db).db.events)
        (batch_of_round kind r db)

append_nil : (ws : List Webhook) → ws ++ [] ≡ ws
append_nil [] = refl
append_nil (w ∷ ws) = ap (λ vs. w ∷ vs) (append_nil ws)

-- A round without faults has sent and saved the settled rows.
pub run-settles :
    (kind : Kind) (r : Round) (db : Db)
    → IsConsistent db
    → r.fetch_fault ≡ none
    → r.save_fault ≡ none
    → All (λ w. (attempt r w).delivery_status ≢ none) (batch_of_round kind r db)
    → Settled kind r db
unfolding run get_events
run-settles kind r db c fetched saved known =
    let hooks = batch_of_round kind r db in
    let before = claimed_db kind r db in
    let rows = selected kind r.sizes r.locked (at_round r db) in
    let (after, s) =
      update_all-Saved kind (attempt r) (attempt-id r) hooks before known
        (batch-UniqueIds kind r db c) (claimed-IsConsistent kind r db c).ids
        (claimed_all-mem kind r db rows (All-self rows rows (λ w m. m))) in
    let ran =
      run-cons kind r [] db fetched
      ∙ ap (λ (p : List Webhook × Db). record (run kind [] p.1) { sent = p.0 ++ [] })
          (process-Saved kind r hooks before after saved s) in
    record {
      sent = ap (λ (x : Ran). x.sent) ran ∙ append_nil _;
      saved =
          subst (λ (x : Ran). All (λ w. Memᴰ (after_attempt kind r r.now w) x.db.events) hooks)
            (sym ran) s.rows;
    }
