-- ===== src/System/Stuck.antt =====
-- An event that a retry worker holds when its process ends (worker/repository.go, GetEvents).
use vaulthook.Prelude.{
  ℕ, ◌≡◌, ◌≢◌, sym, ◌∙◌, String, Bool, Option, none, some, List, [], ◌∷◌, map, Memᴰ, ap, any, arith,
  ◌==◌, ==_iff, All, Bool-cases, Option-cases, inl, inr, subst, if◌then◌else◌, false≢true,
}
use vaulthook.Model.{
  Fault, Result, ok, err, Result-cases, DeliveryStatus, retrying, Webhook, CreateWebhookParams,
}
use vaulthook.Database.{Db, find_event, find_provider, same_event}
use vaulthook.Worker.Forward.{UpdateWebhook}
use vaulthook.Worker.Repository.{
  Kind, BatchSizes, updated, get_events, update_one, update_all, update_events, prepend,
}
use vaulthook.Worker.Repository.Claims.{has_settled-not_eligible, claim-ClaimStep}
use vaulthook.Events.Repository.{insert_row, insert_webhook, replayed, replay_event}
use vaulthook.System.{Step, Bystep, Bypath}
use vaulthook.System.Keys.{IsConsistent}
use vaulthook.System.Unique.{Step-IsConsistent}

-- A row that a map leaves alone is still there.
kept_by_map :
    (f : Webhook → Webhook) (w : Webhook) (ws : List Webhook)
    → Memᴰ w ws
    → f w ≡ w
    → Memᴰ w (map f ws)
kept_by_map f w [] m e = elim m [ ]
kept_by_map f w (x ∷ xs) (Memᴰ.head p) e = Memᴰ.head (sym e ∙ ap f p)
kept_by_map f w (x ∷ xs) (Memᴰ.tail m) e = Memᴰ.tail (kept_by_map f w xs m e)

-- Every step that leaves an event alone is a step of the gateway.
Bystep-Step :
    (jsonb : String → Option String) (i : ℕ) {a b : Db} → Bystep jsonb i a b → Step jsonb a b
Bystep-Step jsonb i (Bystep.claim k s l f a) = Step.claim k s l f a
Bystep-Step jsonb i (Bystep.finish k us f a h) = Step.finish k us f a
Bystep-Step jsonb i (Bystep.receive f n p a) = Step.receive f n p a
Bystep-Step jsonb i (Bystep.replay f j a h) = Step.replay f j a
Bystep-Step jsonb i (Bystep.configure ps a) = Step.configure ps a
Bystep-Step jsonb i (Bystep.tick d a) = Step.tick d a

retrying-kept_by_claim :
    (kind : Kind) (sizes : BatchSizes) (locked : ℕ → Bool) (fault : Option Fault) (db : Db)
    (w : Webhook)
    → IsConsistent db
    → w.delivery_status ≡ retrying
    → Memᴰ w db.events
    → Memᴰ w (get_events kind sizes locked fault db).1.events
unfolding get_events
retrying-kept_by_claim kind sizes locked (some e) db w c r m = m
retrying-kept_by_claim kind sizes locked none db w c r m =
    kept_by_map _ w db.events m (elim (claim-ClaimStep kind sizes locked db w c.ids m) [
      | inl same ↦ same
      | inr (eligible, _, _) ↦
          absurd (false≢true (sym (has_settled-not_eligible kind db w (rw r)) ∙ eligible))
    ])

set_ne :
    (kind : Kind) (now : ℕ) (s : DeliveryStatus) (u : UpdateWebhook) (w : Webhook)
    → u.id ≢ w.id
    → (if w.id == u.id then updated kind now s u w else w) ≡ w
set_ne kind now s u w h = ground (arith, ==_iff w.id u.id)

abbrev AllHold : Webhook → Result (List (Option Webhook) × Db) → Type 0
AllHold w (ok (rows, db)) = Memᴰ w db.events
AllHold w (err e) = Unit

abbrev OneHolds : Webhook → Result (Option Webhook × Db) → Type 0
OneHolds w (ok (row, db)) = Memᴰ w db.events
OneHolds w (err e) = Unit

kept_by_update_one :
    (kind : Kind) (u : UpdateWebhook) (db : Db) (w : Webhook)
    → u.id ≢ w.id
    → Memᴰ w db.events
    → OneHolds w (update_one kind u db)
unfolding update_one
kept_by_update_one kind u db w h m = elim (Option-cases u.delivery_status) [
  | inl bad ↦ rw (bad, update_one) tt
  | inr (s, good) ↦ elim (Option-cases (find_event u.id db.events)) [
    | inl missing ↦ rw (good, missing, update_one) m
    | inr (v, found) ↦
        rw (good, found, update_one) (kept_by_map _ w db.events m (set_ne kind db.now s u w h))
  ]
]

prepend-AllHold :
    (w : Webhook) (v : Option Webhook) (r : Result (List (Option Webhook) × Db))
    → AllHold w r
    → AllHold w (prepend v r)
prepend-AllHold w v (ok (rows, db)) h = h
prepend-AllHold w v (err e) h = tt

kept_by_update_all :
    (kind : Kind) (us : List UpdateWebhook) (db : Db) (w : Webhook)
    → All (λ u. u.id ≢ w.id) us
    → Memᴰ w db.events
    → AllHold w (update_all kind us db)
unfolding update_all
kept_by_update_all kind [] db w h m = m
kept_by_update_all kind (u ∷ us) db w h m = elim (Result-cases (update_one kind u db)) [
  | inl (e, bad) ↦ rw (bad, update_all) tt
  | inr ((v, db'), good) ↦
      let m' = subst (OneHolds w) good (kept_by_update_one kind u db w h.0 m) in
      rw (good, update_all) (prepend-AllHold w v _ (kept_by_update_all kind us db' w h.1 m'))
]

kept_by_update_events :
    (kind : Kind) (us : List UpdateWebhook) (fault : Option Fault) (db : Db) (w : Webhook)
    → All (λ u. u.id ≢ w.id) us
    → Memᴰ w db.events
    → Memᴰ w (update_events kind us fault db).1.events
unfolding update_events
kept_by_update_events kind [] fault db w h m = m
kept_by_update_events kind (u ∷ us) (some e) db w h m = m
kept_by_update_events kind (u ∷ us) none db w h m =
    elim (Result-cases (update_all kind (u ∷ us) db)) [
      | inl (e, bad) ↦ rw (bad, update_events) m
      | inr ((rows, db'), good) ↦
          rw (good, update_events)
            (subst (AllHold w) good (kept_by_update_all kind (u ∷ us) db w h m))
    ]

kept_by_insert_row :
    (v : Webhook) (db : Db) (w : Webhook) → Memᴰ w db.events → Memᴰ w (insert_row v db).1.events
unfolding insert_row
kept_by_insert_row v db w m = elim (Option-cases (find_provider v.provider_id db.providers)) [
  | inl missing ↦ rw (missing, insert_row) m
  | inr (p, found) ↦ elim (Bool-cases (any (λ x. same_event v x) db.events)) [
    | inl dup ↦ rw (found, dup, insert_row) m
    | inr new ↦ elim (Bool-cases (any (λ x. x.id == v.id) db.events)) [
      | inl dup ↦ rw (found, new, dup, insert_row) m
      | inr fresh ↦ rw (found, new, fresh, insert_row) (Memᴰ.tail m)
    ]
  ]
]

kept_by_insert_webhook :
    (jsonb : String → Option String) (fault : Option Fault) (new_id : ℕ) (p : CreateWebhookParams)
    (db : Db) (w : Webhook)
    → Memᴰ w db.events
    → Memᴰ w (insert_webhook jsonb fault new_id p db).1.events
unfolding insert_webhook
kept_by_insert_webhook jsonb (some e) new_id p db w m = m
kept_by_insert_webhook jsonb none new_id p db w m = elim (Option-cases (jsonb p.headers)) [
  | inl bad ↦ rw (bad, insert_webhook) m
  | inr (h, good) ↦ elim (Option-cases (jsonb p.payload)) [
    | inl bad ↦ rw (good, bad, insert_webhook) m
    | inr (b, fine) ↦ rw (good, fine, insert_webhook) (kept_by_insert_row _ db w m)
  ]
]

kept_by_replay_event :
    (fault : Option Fault) (j : ℕ) (db : Db) (w : Webhook)
    → w.id ≢ j
    → Memᴰ w db.events
    → Memᴰ w (replay_event fault j db).1.events
unfolding replay_event
kept_by_replay_event (some e) j db w h m = m
kept_by_replay_event none j db w h m =
    kept_by_map (replayed db.now j) w db.events m (ground (arith, ==_iff w.id j))

Bystep-retrying :
    (jsonb : String → Option String) (w : Webhook) {a b : Db}
    → Bystep jsonb w.id a b
    → IsConsistent a
    → w.delivery_status ≡ retrying
    → Memᴰ w a.events
    → Memᴰ w b.events
Bystep-retrying jsonb w (Bystep.claim k z l f a) c r m = retrying-kept_by_claim k z l f a w c r m
Bystep-retrying jsonb w (Bystep.finish k us f a h) c r m = kept_by_update_events k us f a w h m
Bystep-retrying jsonb w (Bystep.receive f n p a) c r m = kept_by_insert_webhook jsonb f n p a w m
Bystep-retrying jsonb w (Bystep.replay f j a h) c r m = kept_by_replay_event f j a w h m
Bystep-retrying jsonb w (Bystep.configure ps a) c r m = m
Bystep-retrying jsonb w (Bystep.tick d a) c r m = m

Bypath-IsConsistent :
    (jsonb : String → Option String) (i : ℕ) {a b : Db}
    → Bypath jsonb i a b
    → IsConsistent a
    → IsConsistent b
Bypath-IsConsistent jsonb i Bypath.here c = c
Bypath-IsConsistent jsonb i (Bypath.next p s) c =
    Step-IsConsistent jsonb (Bystep-Step jsonb i s) (Bypath-IsConsistent jsonb i p c)

-- In a table whose keys are unique, a row in the status retrying, as a retry worker's claim leaves it,
-- stays as it is, however much time passes and whatever the workers claim, as long as no result is
-- written for it, nobody asks for its replay and no purge runs: no worker takes it up again.
pub retrying-stuck :
    (jsonb : String → Option String) (w : Webhook) {a b : Db}
    → Bypath jsonb w.id a b
    → IsConsistent a
    → w.delivery_status ≡ retrying
    → Memᴰ w a.events
    → Memᴰ w b.events
retrying-stuck jsonb w Bypath.here c r m = m
retrying-stuck jsonb w (Bypath.next p s) c r m =
    Bystep-retrying jsonb w s (Bypath-IsConsistent jsonb w.id p c) r
      (retrying-stuck jsonb w p c r m)
