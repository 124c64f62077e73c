-- ===== src/System.antt =====
-- The events table as all parts of the gateway change it: the steps of the workers, the receivers,
-- the dashboard, the purge and the clock, in any order (an interleaving of transactions).
pub mod Keys
pub mod Unique
pub mod Stuck
use vaulthook.Prelude.{ℕ, ◌+◌, ◌≢◌, String, Bool, Option, List, All}
use vaulthook.Model.{Fault, Provider, Webhook, CreateWebhookParams}
use vaulthook.Database.{Db}
use vaulthook.Worker.Forward.{UpdateWebhook}
use vaulthook.Worker.Repository.{Kind, BatchSizes, get_events, update_events}
use vaulthook.Worker.Cleanup.{Faults, run_cleanup}
use vaulthook.Events.Repository.{insert_webhook, replay_event}

module _ (jsonb : String → Option String) where
  pub data Step : Db → Db → Type 0 where
    claim :
        (kind : Kind) (sizes : BatchSizes) (locked : ℕ → Bool) (fault : Option Fault) (db : Db)
        → Step db (get_events kind sizes locked fault db).1
    finish :
        (kind : Kind) (updates : List UpdateWebhook) (fault : Option Fault) (db : Db)
        → Step db (update_events kind updates fault db).1
    receive :
        (fault : Option Fault) (new_id : ℕ) (p : CreateWebhookParams) (db : Db)
        → Step db (insert_webhook jsonb fault new_id p db).1
    replay : (fault : Option Fault) (i : ℕ) (db : Db) → Step db (replay_event fault i db).1
    purge : (max_rows : ℕ) (faults : Faults) (db : Db) → Step db (run_cleanup max_rows faults db)
    configure :
        (providers : List Provider) (db : Db) → Step db (record db { providers = providers })
    tick : (d : ℕ) (db : Db) → Step db (record db { now = db.now + d })

  pub data Reach (db : Db) : Db → Type 0 where
    here : Reach db db
    next : {db' db'' : Db} → Reach db db' → Step db' db'' → Reach db db''

  -- The steps that leave the event of an id alone: no result is written for it, nobody asks for its
  -- replay, and the purge does not run.
  pub data Bystep (i : ℕ) : Db → Db → Type 0 where
    claim :
        (kind : Kind) (sizes : BatchSizes) (locked : ℕ → Bool) (fault : Option Fault) (db : Db)
        → Bystep i db (get_events kind sizes locked fault db).1
    finish :
        (kind : Kind) (updates : List UpdateWebhook) (fault : Option Fault) (db : Db)
        → All (λ u. u.id ≢ i) updates
        → Bystep i db (update_events kind updates fault db).1
    receive :
        (fault : Option Fault) (new_id : ℕ) (p : CreateWebhookParams) (db : Db)
        → Bystep i db (insert_webhook jsonb fault new_id p db).1
    replay :
        (fault : Option Fault) (j : ℕ) (db : Db) → i ≢ j → Bystep i db (replay_event fault j db).1
    configure :
        (providers : List Provider) (db : Db) → Bystep i db (record db { providers = providers })
    tick : (d : ℕ) (db : Db) → Bystep i db (record db { now = db.now + d })

  pub data Bypath (i : ℕ) (db : Db) : Db → Type 0 where
    here : Bypath i db db
    next : {db' db'' : Db} → Bypath i db db' → Bystep i db' db'' → Bypath i db db''
