-- ===== src/Events/Repository/Insertion.antt =====
-- The three outcomes of an INSERT (events/repository.go, InsertWebhook).
use vaulthook.Prelude.{
  ℕ, ◌≡◌, ◌≢◌, refl, sym, ap, subst, String, Bool, true, false, Option, none, some, List, ◌∷◌,
  eq_iff, any, ◌&&◌, ◌==◌, ==_iff, Bool-cases, Option-cases, inl, inr, any-mem, false≢true,
}
use mathlib.Core.List.{Memᴰ}
use vaulthook.Model.{
  Fault, Result, ok, err, hook_exists, pg_error, Webhook, CreateWebhookParams, queued,
}
use vaulthook.Database.{Db, same_event_id, same_event, find_provider}
use vaulthook.Events.Repository.{exists_event, insert_webhook, insert_row, inserted}

-- A row of the provider with the event id is in the table.
pub record Stored (prov_id : ℕ) (ev_id : Option String) (events : List Webhook) : Type 0 where
  pub row : Webhook
  pub in_table : Memᴰ row events
  pub provider_id : row.provider_id ≡ prov_id
  pub event_id : row.event_id ≡ ev_id

same_event_id_sound : (a b : Option String) → same_event_id a b ≡ true → b ≡ a
same_event_id_sound none b h = absurd (false≢true h)
same_event_id_sound (some a) none h = absurd (false≢true h)
same_event_id_sound (some a) (some b) h = ap some (sym ((eq_iff a b).0 h))

both : (a b : Bool) → (a && b) ≡ true → (a ≡ true) × (b ≡ true)
both true b h = (refl, h)
both false b h = absurd (false≢true h)

any-same_event-Stored :
    (w : Webhook) (events : List Webhook)
    → any (λ v. same_event w v) events ≡ true
    → Stored w.provider_id w.event_id events
any-same_event-Stored w events h =
    let (v, m, e) = any-mem (λ v. same_event w v) events h in
    let (p, i) = both _ _ e in
    record {
      row = v;
      in_table = m;
      provider_id = sym ((==_iff w.provider_id v.provider_id).0 p);
      event_id = same_event_id_sound w.event_id v.event_id i;
    }

-- What `Exists` finds is in the table.
pub exists_event-Stored :
    (fault : Option Fault) (prov_id : ℕ) (ev_id : String) (db : Db)
    → exists_event fault prov_id ev_id db ≡ ok true
    → Stored prov_id (some ev_id) db.events
unfolding exists_event
exists_event-Stored (some e) prov_id ev_id db h = absurd (err_not_ok h)
  where
    IsErr : Result Bool → Type 0
    IsErr (err e) = Unit
    IsErr (ok b) = ⊥

    err_not_ok : {b : Bool} → err e ≡ ok b → ⊥
    err_not_ok p = subst IsErr p tt
exists_event-Stored none prov_id ev_id db h =
    let q = λ (v : Webhook). v.provider_id == prov_id && same_event_id (some ev_id) v.event_id in
    let (v, m, e) = any-mem q db.events (ap found h) in
    let (p, i) = both _ _ e in
    record {
      row = v;
      in_table = m;
      provider_id = (==_iff v.provider_id prov_id).0 p;
      event_id = same_event_id_sound (some ev_id) v.event_id i;
    }
  where
    found : Result Bool → Bool
    found (ok b) = b
    found (err e) = false

pub data Insertion (db : Db) (p : CreateWebhookParams) : Result Webhook × Db → Type 0 where
  refuse : (e : Fault) → e ≢ hook_exists → Insertion db p (err e, db)
  clash : Stored p.provider_id p.event_id db.events → Insertion db p (err hook_exists, db)
  made :
      (w : Webhook)
      → w.provider_id ≡ p.provider_id
      → w.event_id ≡ p.event_id
      → w.delivery_status ≡ queued
      → Insertion db p (ok w, record db { events = w ∷ db.events })

pg_error-ne : (m : String) → pg_error m ≢ hook_exists
pg_error-ne m h = subst IsPg h tt
  where
    IsPg : Fault → Type 0
    IsPg (pg_error m) = Unit
    IsPg _ = ⊥

insert_row-Insertion :
    (db : Db) (p : CreateWebhookParams) (new_id : ℕ) (headers payload : String)
    → Insertion db p (insert_row (inserted new_id db.now p headers payload) db)
unfolding insert_row
insert_row-Insertion db p new_id headers payload =
    let w = inserted new_id db.now p headers payload in
    elim (Option-cases (find_provider p.provider_id db.providers)) [
      | inl e ↦ rw (e, insert_row) (refuse _ (pg_error-ne _))
      | inr (_, e) ↦ elim (Bool-cases (any (λ v. same_event w v) db.events)) [
        | inl same ↦ rw (e, same, insert_row) (clash (any-same_event-Stored w db.events same))
        | inr other ↦ elim (Bool-cases (any (λ v. v.id == new_id) db.events)) [
          | inl taken ↦ rw (e, other, taken, insert_row) (refuse _ (pg_error-ne _))
          | inr free ↦ rw (e, other, free, insert_row) (made w refl refl refl)
        ]
      ]
    ]

-- An INSERT is refused and changes nothing; or finds the event in the table and changes nothing; or
-- puts one queued row with the provider and the event id of the request at the head of the table.
pub insert_webhook-Insertion :
    (jsonb : String → Option String) (fault : Option Fault) (new_id : ℕ) (p : CreateWebhookParams)
    (db : Db)
    → fault ≢ some hook_exists
    → Insertion db p (insert_webhook jsonb fault new_id p db)
unfolding insert_webhook
insert_webhook-Insertion jsonb (some e) new_id p db h = refuse e λ q. h (ap some q)
insert_webhook-Insertion jsonb none new_id p db h = elim (Option-cases (jsonb p.headers)) [
  | inl e ↦ rw (e, insert_webhook) (refuse _ (pg_error-ne _))
  | inr (hs, e) ↦ elim (Option-cases (jsonb p.payload)) [
    | inl f ↦ rw (e, f, insert_webhook) (refuse _ (pg_error-ne _))
    | inr (pl, f) ↦ rw (e, f, insert_webhook) (insert_row-Insertion db p new_id hs pl)
  ]
]
