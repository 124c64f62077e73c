-- ===== src/System/Keys.antt =====
-- The primary key and the unique index of the events table, under changes of rows and deletions.
use vaulthook.Prelude.{
  ◌≡◌, ◌≢◌, Bool, false, List, [], ◌∷◌, map, keep, All, All-keep, Bool-cases, inl, inr,
}
use vaulthook.Model.{Webhook}
use vaulthook.Database.{Db, UniqueIds, UniqueEvents, same_event}

-- Two rows have the same key columns.
pub record SameKey (v w : Webhook) : Type 0 where
  pub id : v.id ≡ w.id
  pub provider_id : v.provider_id ≡ w.provider_id
  pub event_id : v.event_id ≡ w.event_id

-- A change of rows that leaves the key columns alone keeps both constraints.
module _ (f : Webhook → Webhook) (same : (w : Webhook) → SameKey (f w) w) where
  All-ne-map :
      (w : Webhook) (ws : List Webhook)
      → All (λ v. v.id ≢ w.id) ws
      → All (λ v. v.id ≢ (f w).id) (map f ws)
  All-ne-map w [] h = tt
  All-ne-map w (x ∷ xs) h = (rw ((same x).id, (same w).id) h.0, All-ne-map w xs h.1)

  pub UniqueIds-map : (ws : List Webhook) → UniqueIds ws → UniqueIds (map f ws)
  UniqueIds-map [] u = tt
  UniqueIds-map (w ∷ ws) u = (All-ne-map w ws u.0, UniqueIds-map ws u.1)

  All-same_event-map :
      (w : Webhook) (ws : List Webhook)
      → All (λ v. same_event w v ≡ false) ws
      → All (λ v. same_event (f w) v ≡ false) (map f ws)
  All-same_event-map w [] h = tt
  All-same_event-map w (x ∷ xs) h = (
    rw ((same x).provider_id, (same x).event_id, (same w).provider_id, (same w).event_id) h.0,
    All-same_event-map w xs h.1,
  )

  pub UniqueEvents-map : (ws : List Webhook) → UniqueEvents ws → UniqueEvents (map f ws)
  UniqueEvents-map [] u = tt
  UniqueEvents-map (w ∷ ws) u = (All-same_event-map w ws u.0, UniqueEvents-map ws u.1)

pub UniqueIds-keep : (p : Webhook → Bool) (ws : List Webhook) → UniqueIds ws → UniqueIds (keep p ws)
UniqueIds-keep p [] u = tt
UniqueIds-keep p (w ∷ ws) u = elim (Bool-cases (p w)) [
  | inl e ↦ rw e (All-keep (λ v. v.id ≢ w.id) p ws u.0, UniqueIds-keep p ws u.1)
  | inr e ↦ rw e (UniqueIds-keep p ws u.1)
]

pub UniqueEvents-keep :
    (p : Webhook → Bool) (ws : List Webhook) → UniqueEvents ws → UniqueEvents (keep p ws)
UniqueEvents-keep p [] u = tt
UniqueEvents-keep p (w ∷ ws) u = elim (Bool-cases (p w)) [
  | inl e ↦ rw e (All-keep (λ v. same_event w v ≡ false) p ws u.0, UniqueEvents-keep p ws u.1)
  | inr e ↦ rw e (UniqueEvents-keep p ws u.1)
]

-- Both constraints.
pub record IsConsistent (db : Db) : Type 0 where
  pub ids : UniqueIds db.events
  pub events : UniqueEvents db.events
