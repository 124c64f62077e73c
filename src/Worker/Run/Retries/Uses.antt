-- ===== src/Worker/Run/Retries/Uses.antt =====
-- What a round of the retry worker uses up of the tries of an event (worker/service.go, run).
use vaulthook.Prelude.{
  ℕ, ◌+◌, ◌-◌, ◌≤◌, ◌≡◌, ◌≢◌, refl, sym, ap, ◌∙◌, subst, true, false, Option, none, some, List, [],
  ◌∷◌, map, arith, ◌==◌, ==_iff, any-mem, All, Bool-cases, inl, inr, false≢true,
}
use vaulthook.Model.{Provider, Webhook}
use vaulthook.Database.{Db, UniqueIds, UniqueIds-eq, find_provider}
use vaulthook.Worker.Forward.{forward_event}
use vaulthook.Worker.Repository.{
  retry, is_failed, is_unfinished, has_retries_left, is_eligible, selected, has_id, claimed, claim,
  get_events, update_events,
}
use vaulthook.Worker.Repository.Claims.{selected-mem}
use vaulthook.Worker.Run.{Round, Ran, process, run}
use vaulthook.Worker.Run.Drain.{at_round, batch_of_round, run-cons}
use vaulthook.Worker.Pool.Untouched.{map-mem, claim-id, update_events-Untouched}
use vaulthook.Worker.Pool.Exclusive.{forward_event-ne}
use vaulthook.Worker.Run.Retries.Changes.{
  Later, Changed, forward_event-Finished, update_events-Changed,
}
use vaulthook.Worker.Run.Retries.{retries_of, left, Allows}

eligible-failed :
    (db : Db) (w : Webhook)
    → is_unfinished w.delivery_status ≡ false
    → is_eligible retry db w ≡ true
    → is_failed w.delivery_status ≡ true
unfolding is_eligible
eligible-failed db w over h = ground arith

eligible-has_retries_left :
    (db : Db) (w : Webhook)
    → is_unfinished w.delivery_status ≡ false
    → is_eligible retry db w ≡ true
    → has_retries_left w.retry_count (find_provider w.provider_id db.providers) ≡ true
unfolding is_eligible
eligible-has_retries_left db w over h = ground arith

has_retries_left-below :
    (n : ℕ) (prov : Option Provider) → has_retries_left n prov ≡ true → 1 ≤ retries_of prov - n
has_retries_left-below n none h = absurd (false≢true h)
has_retries_left-below n (some p) h = ground arith

left-eligible :
    (db : Db) (w : Webhook)
    → is_unfinished w.delivery_status ≡ false
    → is_eligible retry db w ≡ true
    → 1 ≤ left db.providers w
left-eligible db w over h =
    simp (eligible-failed db w over h)
      (has_retries_left-below w.retry_count _ (eligible-has_retries_left db w over h))

left-moved :
    (ps qs : List Provider) (w w' : Webhook)
    → qs ≡ ps
    → w'.provider_id ≡ w.provider_id
    → w.retry_count + 1 ≤ w'.retry_count
    → is_failed w.delivery_status ≡ true
    → left qs w' ≤ left ps w - 1
left-moved ps qs w w' same_ps same_id more fail = elim (Bool-cases (is_failed w'.delivery_status)) [
  | inr e ↦ rw e (omega arith)
  | inl e ↦ rw (e, fail, same_ps, same_id) (omega (arith, more))
]

pub has_id-claimed :
    (db : Db) (i : ℕ) (ws : List Webhook) → has_id i (map (claimed retry db) ws) ≡ has_id i ws
has_id-claimed db i [] = refl
has_id-claimed db i (w ∷ ws) = elim (Bool-cases (w.id == i)) [
  | inl e ↦ simp e refl
  | inr e ↦ simp e (has_id-claimed db i ws)
]

-- The table as the claim of a round leaves it.
abbrev pub claimed_db : Round → Db → Db
claimed_db r db = (get_events retry r.sizes r.locked none (at_round r db)).1

abbrev pub settled_db : Round → Db → Db
settled_db r db =
    (update_events retry (forward_event r.env (batch_of_round retry r db)) r.save_fault
      (claimed_db r db)).1

pub run-settled_db :
    (r : Round) (db : Db) → r.fetch_fault ≡ none → (run retry (r ∷ []) db).db ≡ settled_db r db
unfolding process run
run-settled_db r db f = ap (λ (x : Ran). x.db) (run-cons retry r [] db f)

claim-chosen :
    (at : Db) (rows : List Webhook) (w : Webhook)
    → has_id w.id rows ≡ true
    → claim retry at rows w ≡ claimed retry at w
claim-chosen at rows w h = rw h refl

claim-passed :
    (at : Db) (rows : List Webhook) (w : Webhook)
    → has_id w.id rows ≡ false
    → claim retry at rows w ≡ w
claim-passed at rows w h = rw h refl

-- A row after a try.
tried-row :
    (ps qs : List Provider) (at : Db) (b : ℕ) (v w w' : Webhook)
    → qs ≡ ps
    → is_failed v.delivery_status ≡ true
    → left ps v ≤ b
    → w ≡ claimed retry at v
    → Later w w'
    → (is_unfinished w'.delivery_status ≡ false) × (left qs w' ≤ b - 1)
tried-row ps qs at b v w w' same_ps fail few is later = elim later.moved [
  | inl e ↦
      subst (λ (x : Webhook). (is_unfinished x.delivery_status ≡ false) × (left qs x ≤ b - 1))
        (sym (e ∙ is)) (refl, omega arith)
  | inr (more, over) ↦
      let count : w.retry_count ≡ v.retry_count = ap (λ (x : Webhook). x.retry_count) is in
      let less =
        left-moved ps qs v w' same_ps (later.provider_id ∙ ap (λ (x : Webhook). x.provider_id) is)
          (omega (arith, more, count)) fail in
      (over, omega (arith, less, few))
]

no_id-ne :
    (at : Db) (i : ℕ) (ws : List Webhook)
    → has_id i ws ≡ false
    → All (λ v. i ≢ v.id) (map (claimed retry at) ws)
no_id-ne at i [] h = tt
no_id-ne at i (w ∷ ws) h = elim (Bool-cases (w.id == i)) [
  | inl e ↦ absurd (false≢true (sym (rw e at h)))
  | inr e ↦ (λ k. ground (arith, e, k), no_id-ne at i ws (rw e at h))
]

module _ (i : ℕ) (r : Round) (db : Db) (u : UniqueIds db.events) (b : ℕ) (a : Allows i b db) where
  abbrev pub rows : List Webhook
  rows = selected retry r.sizes r.locked (at_round r db)

  changed : Changed (claimed_db r db) (settled_db r db)
  changed =
      update_events-Changed (forward_event r.env (batch_of_round retry r db)) r.save_fault
        (claimed_db r db) (forward_event-Finished r.env (batch_of_round retry r db))

  -- A try uses one up.
  pub tried-Allows : has_id i rows ≡ true → (1 ≤ b) × Allows i (b - 1) (settled_db r db)
  unfolding get_events
  tried-Allows h =
      let (v, m, e) = any-mem (λ (x : Webhook). x.id == i) rows h in
      let (row, eligible, free) = selected-mem retry r.sizes r.locked (at_round r db) v m in
      let mine : v.id ≡ i = (==_iff v.id i).0 e in
      let (over, few) = a v row mine in
      let one = left-eligible (at_round r db) v over eligible in
      (
        omega (arith, one, few),
        λ w'' n k.
            let (w', o, later) = changed.rows w'' n in
            let (w, l, from) = map-mem (claim retry (at_round r db) rows) w' db.events o in
            let id : w.id ≡ i =
              sym (claim-id retry (at_round r db) rows w)
              ∙ ap (λ (x : Webhook). x.id) (sym from)
              ∙ sym later.id
              ∙ k in
            let one_row : w ≡ v = UniqueIds-eq w v db.events u l row (id ∙ sym mine) in
            let chosen : has_id w.id rows ≡ true = subst (λ j. has_id j rows ≡ true) (sym id) h in
            let is : w' ≡ claimed retry (at_round r db) v =
              from
              ∙ claim-chosen (at_round r db) rows w chosen
              ∙ ap (claimed retry (at_round r db)) one_row in
            tried-row db.providers (settled_db r db).providers (at_round r db) b v w' w''
              changed.providers (eligible-failed (at_round r db) v over eligible) few is later,
      )

  -- Otherwise the row stays.
  pub untried-Allows : has_id i rows ≡ false → Allows i b (settled_db r db)
  unfolding get_events
  untried-Allows h w n k =
      let us = forward_event r.env (batch_of_round retry r db) in
      let others =
        forward_event-ne r.env (batch_of_round retry r db) i (no_id-ne (at_round r db) i rows h) in
      let m = update_events-Untouched retry us r.save_fault (claimed_db r db) i others w n k in
      let (v, l, from) = map-mem (claim retry (at_round r db) rows) w db.events m in
      let id : v.id ≡ i =
        sym (claim-id retry (at_round r db) rows v) ∙ ap (λ (x : Webhook). x.id) (sym from) ∙ k in
      let passed : has_id v.id rows ≡ false = subst (λ j. has_id j rows ≡ false) (sym id) h in
      let is : w ≡ v = from ∙ claim-passed (at_round r db) rows v passed in
      let (over, few) = a v l id in
      (
        subst (λ (x : Webhook). is_unfinished x.delivery_status ≡ false) (sym is) over,
        subst (λ ps. left ps w ≤ b) (sym changed.providers)
            (subst (λ x. left db.providers x ≤ b) (sym is) few),
      )
