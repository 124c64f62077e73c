-- ===== src/Worker/Pool/Exclusive.antt =====
-- No event is in the hands of two workers of the pool (worker/pool.go, worker/service.go).
use vaulthook.Prelude.{
  ℕ, suc, ◌≤◌, ◌<◌, ◌≡◌, ◌≢◌, refl, sym, ap, ◌∙◌, subst, Bool, false, Option, none, some, List, [],
  ◌∷◌, map, arith, ◌==◌, ==_iff, mem-any, All, All-mem, Memᴰ, Bool-cases, Option-cases, inl, inr,
  false≢true,
}
use vaulthook.Model.{Fault, Webhook}
use vaulthook.Database.{Db, UniqueIds}
use vaulthook.Worker.Forward.{UpdateWebhook, Env, forward_event}
use vaulthook.Worker.Forward.Outcome.{forward_one-id}
use vaulthook.Worker.Repository.{
  Kind, queue, retry, replay, BatchSizes, selected, has_id, claimed, get_events, update_events,
}
use vaulthook.Worker.Run.Settle.OneRound.{selected-UniqueIds}
use vaulthook.Worker.Start.Clock.{update_events-now}
use vaulthook.System.{Step}
use vaulthook.System.Keys.{IsConsistent, UniqueIds-map}
use vaulthook.System.Unique.{Step-IsConsistent}
use vaulthook.Worker.Pool.{Workers, Held, Pool, busy, workers, same_kind, in_hand, pick, put, hold}
use vaulthook.Worker.Pool.Hands.{
  Apart, Apart-append, All-left, All-right, mem-All, UniqueIds-append, pick-Split, Split-All,
  Split-busy, Split-UniqueIds,
}
use vaulthook.Worker.Pool.Claiming.{
  Marked, IsMarked, InTime, Marked-Untouched, claim-Apart, claim-IsMarked, batch-IsMarked,
}
use vaulthook.Worker.Pool.Untouched.{Untouched, update_events-Untouched}

-- The table's keys are unique, no event is in two workers' hands, the batches are within their
-- deadlines and marked in the table, and one replay worker at most has one.
pub record IsExclusive (p : Pool) : Type 0 where
  pub keys : IsConsistent p.db
  pub exclusive : UniqueIds (in_hand p.held)
  pub in_time : All (InTime p.db.now) p.held
  pub marked : All (IsMarked p.db) p.held
  pub one_replay : busy replay p.held ≤ 1

-- Another part of the gateway changes the table and leaves the events in hand alone.
pub IsExclusive-Untouched :
    (p : Pool) (db : Db)
    → IsExclusive p
    → IsConsistent db
    → All (InTime db.now) p.held
    → All (λ v. Untouched v.id p.db db) (in_hand p.held)
    → IsExclusive (record p { db = db })
IsExclusive-Untouched p db x keys t same = record {
  keys = keys;
  exclusive = x.exclusive;
  in_time = t;
  marked = still p.held x.marked same;
  one_replay = x.one_replay;
}
  where
    still :
        (hs : List Held)
        → All (IsMarked p.db) hs
        → All (λ v. Untouched v.id p.db db) (in_hand hs)
        → All (IsMarked db) hs
    still [] m k = tt
    still (h ∷ hs) m k =
        let mine = All-left (λ v. Untouched v.id p.db db) h.hooks (in_hand hs) k in
        let theirs = All-right (λ v. Untouched v.id p.db db) h.hooks (in_hand hs) k in
        (
          mem-All (Marked h db) h.hooks (λ v n.
              Marked-Untouched h v p.db db (All-mem (λ x. Untouched x.id p.db db) v h.hooks mine n)
                (All-mem (Marked h p.db) v h.hooks m.0 n)),
          still hs m.1 theirs,
        )

-- An id that no event in hand has.
pub not_in_hand-ne :
    (i : ℕ) (ws : List Webhook) (v : Webhook) → has_id i ws ≡ false → Memᴰ v ws → i ≢ v.id
not_in_hand-ne i ws v free m e =
    let there = mem-any (λ (w : Webhook). w.id == i) v ws m ((==_iff v.id i).1 (sym e)) in
    false≢true (sym free ∙ there)

pub forward_event-ne :
    (env : Webhook → Env) (hooks : List Webhook) (i : ℕ)
    → All (λ v. i ≢ v.id) hooks
    → All (λ (u : UpdateWebhook). u.id ≢ i) (forward_event env hooks)
unfolding forward_event
forward_event-ne env [] i h = tt
forward_event-ne env (w ∷ ws) i h =
    (λ e. h.0 (sym e ∙ forward_one-id (env w) w), forward_event-ne env ws i h.1)

no_replay :
    (hs : List Held) (h : Held) → busy replay hs < 1 → Memᴰ h hs → same_kind h.kind replay ≡ false
no_replay [] h few m = elim m [ ]
no_replay (g ∷ hs) h few (Memᴰ.head same) = elim (Bool-cases (same_kind g.kind replay)) [
  | inl e ↦ let bad : suc (busy replay hs) < 1 = rw e at few in absurd (omega arith)
  | inr e ↦ ap (λ (x : Held). same_kind x.kind replay) same ∙ e
]
no_replay (g ∷ hs) h few (Memᴰ.tail m) = elim (Bool-cases (same_kind g.kind replay)) [
  | inl e ↦ let bad : suc (busy replay hs) < 1 = rw e at few in absurd (omega arith)
  | inr e ↦ no_replay hs h (rw e at few) m
]

-- Apart from each batch is apart from all that is in hand.
Apart-in_hand :
    (vs : List Webhook) (hs : List Held) → All (λ h. Apart vs h.hooks) hs → Apart vs (in_hand hs)
Apart-in_hand vs [] a = mem-All _ vs (λ v m. tt)
Apart-in_hand vs (h ∷ hs) a = Apart-append vs h.hooks (in_hand hs) a.0 (Apart-in_hand vs hs a.1)

one_replay_more :
    (n : Workers) (kind : Kind) (hooks : List Webhook) (since : ℕ) (hs : List Held)
    → busy kind hs < workers n kind
    → busy replay hs ≤ 1
    → busy replay (record { kind = kind; hooks = hooks; since = since } ∷ hs) ≤ 1
unfolding workers
one_replay_more n queue hooks since hs free one = one
one_replay_more n retry hooks since hs free one = one
one_replay_more n replay hooks since hs free one = omega (arith, free)

module _ (n : Workers) (sizes : BatchSizes) where
  -- A worker claims a batch.
  pub hold-IsExclusive :
      (kind : Kind) (locked : ℕ → Bool) (p : Pool)
      → IsExclusive p
      → busy kind p.held < workers n kind
      → IsExclusive (hold kind (get_events kind sizes locked none p.db) p)
  unfolding get_events workers
  hold-IsExclusive kind locked p x free =
      let one = λ (h : Held) (m : Memᴰ h p.held) (is : kind ≡ replay).
        no_replay p.held h (subst (λ k. busy k p.held < workers n k) is free) m in
      let apart =
        mem-All (λ h. Apart (map (claimed kind p.db) (selected kind sizes locked p.db)) h.hooks)
          p.held
          (λ h m.
            claim-Apart kind sizes locked p.db x.keys.ids h
              (All-mem (IsMarked p.db) h p.held x.marked m)
              (All-mem (InTime p.db.now) h p.held x.in_time m) (one h m)) in
      record {
        keys = Step-IsConsistent some (Step.claim kind sizes locked none p.db) x.keys;
        exclusive =
            UniqueIds-append _ (in_hand p.held)
              (UniqueIds-map (claimed kind p.db)
                (λ w. record { id = refl; provider_id = refl; event_id = refl })
                (selected kind sizes locked p.db)
                (selected-UniqueIds kind sizes locked p.db x.keys.ids))
              x.exclusive (Apart-in_hand _ p.held apart);
        in_time = (omega arith, x.in_time);
        marked = (
          batch-IsMarked kind sizes locked p.db x.keys.ids,
          mem-All _ p.held (λ h m.
              claim-IsMarked kind sizes locked p.db x.keys.ids h
                (All-mem (IsMarked p.db) h p.held x.marked m)
                (All-mem (InTime p.db.now) h p.held x.in_time m) (one h m) none),
        );
        one_replay = one_replay_more n kind _ _ p.held free x.one_replay;
      }

  -- A worker ends its round.
  pub put-IsExclusive :
      (k : ℕ) (env : Webhook → Env) (fault : Option Fault) (p : Pool)
      → IsExclusive p
      → IsExclusive (put (pick k p.held) env fault p)
  put-IsExclusive k env fault p x = elim (Option-cases (pick k p.held)) [
    | inl nobody ↦ simp nobody x
    | inr ((h, hs), picked) ↦
        let split = pick-Split k p.held h hs picked in
        let (unique, apart) = Split-UniqueIds split x.exclusive in
        let others : IsExclusive (record { db = p.db; held = hs }) = record {
          keys = x.keys;
          exclusive = unique;
          in_time = (Split-All (InTime p.db.now) split x.in_time).1;
          marked = (Split-All (IsMarked p.db) split x.marked).1;
          one_replay = omega (arith, Split-busy replay split, x.one_replay);
        } in
        let us = forward_event env h.hooks in
        let clock = update_events-now h.kind us fault p.db in
        simp picked (
          IsExclusive-Untouched (record { db = p.db; held = hs })
            (update_events h.kind us fault p.db).1 others
            (Step-IsConsistent some (Step.finish h.kind us fault p.db) x.keys)
            (subst (λ t. All (InTime t) hs) (sym clock) others.in_time)
            (mem-All _ (in_hand hs) (λ v m. update_events-Untouched h.kind us fault p.db v.id (
              forward_event-ne env h.hooks v.id (
                mem-All _ h.hooks (λ w l.
                  All-mem (λ y. y.id ≢ w.id) v (in_hand hs)
                    (All-mem (λ y. All (λ z. z.id ≢ y.id) (in_hand hs)) w h.hooks apart l) m))))))
  ]
