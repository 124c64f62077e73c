-- ===== src/Worker/Pool/Claiming.antt =====
-- A claim beside the batches that other workers have in hand (worker/repository.go, GetEvents).
use vaulthook.Prelude.{
  ℕ, ◌+◌, ◌≤◌, ◌≡◌, refl, sym, ap, ◌∙◌, Bool, false, Option, List, map, arith, ◌==◌, ==_iff,
  mem-any, All, All-mem, Memᴰ, false≢true,
}
use vaulthook.Model.{Fault, Webhook}
use vaulthook.Database.{Db, UniqueIds}
use vaulthook.Worker.Repository.{
  Kind, queue, retry, replay, BatchSizes, claim_status, is_eligible, selected, claimed, claim,
  get_events,
}
use vaulthook.Worker.Repository.Claims.{selected-mem}
use vaulthook.Worker.Pool.{Held, same_kind, batch_time}
use vaulthook.Worker.Pool.Hands.{Apart, mem-All}
use vaulthook.Worker.Pool.Untouched.{Untouched, map-mem, claim-id, get_events-Untouched}

-- The row of an event in hand shows by whom and when it was claimed.
abbrev pub Marked : Held → Db → Webhook → Type 0
Marked h db v =
    (w : Webhook)
    → Memᴰ w db.events
    → w.id ≡ v.id
    → (w.delivery_status ≡ claim_status h.kind) × (w.updated_at ≡ h.since)

abbrev pub IsMarked : Db → Held → Type 0
IsMarked db h = All (Marked h db) h.hooks

abbrev pub InTime : ℕ → Held → Type 0
InTime now h = now ≤ h.since + batch_time

pub Marked-Untouched :
    (h : Held) (v : Webhook) (db db' : Db) → Untouched v.id db db' → Marked h db v → Marked h db' v
Marked-Untouched h v db db' same mark w m e = mark w (same w m e) e

mark-not_eligible :
    (kind other : Kind) (since : ℕ) (db : Db) (w : Webhook)
    → db.now ≤ since + batch_time
    → w.delivery_status ≡ claim_status other
    → w.updated_at ≡ since
    → (kind ≡ replay → same_kind other replay ≡ false)
    → is_eligible kind db w ≡ false
unfolding is_eligible
mark-not_eligible queue queue since db w t s u one = rw s refl
mark-not_eligible queue retry since db w t s u one = rw s refl
mark-not_eligible queue replay since db w t s u one = rw s refl
mark-not_eligible retry queue since db w t s u one = rw s (ground (arith, t, u))
mark-not_eligible retry retry since db w t s u one = rw s refl
mark-not_eligible retry replay since db w t s u one = rw s (ground (arith, t, u))
mark-not_eligible replay queue since db w t s u one = rw s refl
mark-not_eligible replay retry since db w t s u one = rw s refl
mark-not_eligible replay replay since db w t s u one = absurd (false≢true (sym (one refl)))

module _ (kind : Kind) (sizes : BatchSizes) (locked : ℕ → Bool) (db : Db)
    (u : UniqueIds db.events) where
  abbrev rows : List Webhook
  rows = selected kind sizes locked db

  abbrev batch : List Webhook
  batch = map (claimed kind db) rows

  -- Within the deadlines of its claim an event is not eligible for another claim, unless a replay
  -- worker has it and a replay worker asks.
  module _ (h : Held) (marks : IsMarked db h) (t : InTime db.now h)
      (one : kind ≡ replay → same_kind h.kind replay ≡ false) where
    in_hand-not_eligible :
        (v w : Webhook)
        → Memᴰ v h.hooks
        → Memᴰ w db.events
        → w.id ≡ v.id
        → is_eligible kind db w ≡ false
    in_hand-not_eligible v w n m e =
        let (s, a) = All-mem (Marked h db) v h.hooks marks n w m e in
        mark-not_eligible kind h.kind h.since db w t s a one

    pub claim-Apart : Apart batch h.hooks
    claim-Apart = mem-All _ batch (λ b m. mem-All _ h.hooks (λ v n e.
        let (s, k, from) = map-mem (claimed kind db) b rows m in
        let (row, eligible, free) = selected-mem kind sizes locked db s k in
        let same : s.id ≡ v.id = sym (e ∙ ap (λ (x : Webhook). x.id) from) in
        false≢true (sym (in_hand-not_eligible v s n row same) ∙ eligible)))

    pub claim-IsMarked :
        (fault : Option Fault) → IsMarked (get_events kind sizes locked fault db).1 h
    claim-IsMarked fault = mem-All _ h.hooks (λ v n.
        let same =
          get_events-Untouched kind sizes locked fault db v.id u
            (λ w m e. in_hand-not_eligible v w n m e) in
        Marked-Untouched h v db (get_events kind sizes locked fault db).1 same
          (All-mem (Marked h db) v h.hooks marks n))

  abbrev taken : Held
  taken = record { kind = kind; hooks = batch; since = db.now }

  chosen-claimed :
      (s x : Webhook) → Memᴰ s rows → s.id ≡ x.id → claim kind db rows x ≡ claimed kind db x
  chosen-claimed s x k e =
      let found = mem-any (λ (y : Webhook). y.id == x.id) s rows k ((==_iff s.id x.id).1 e) in
      rw found refl

  -- The rows of the new batch are marked.
  pub batch-IsMarked : IsMarked (record db { events = map (claim kind db rows) db.events }) taken
  batch-IsMarked = mem-All _ batch (λ v n w m e.
      let (s, k, from_s) = map-mem (claimed kind db) v rows n in
      let (x, l, from_x) = map-mem (claim kind db rows) w db.events m in
      let same : s.id ≡ x.id =
        sym (ap (λ (y : Webhook). y.id) from_s)
        ∙ sym e
        ∙ ap (λ (y : Webhook). y.id) from_x
        ∙ claim-id kind db rows x in
      let now : w ≡ claimed kind db x = from_x ∙ chosen-claimed s x k same in
      (ap (λ (y : Webhook). y.delivery_status) now, ap (λ (y : Webhook). y.updated_at) now))
