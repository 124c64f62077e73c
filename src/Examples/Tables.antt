-- ===== src/Examples/Tables.antt =====
-- The theorems on the events table, its other clients and the live feed at concrete inputs.
use vaulthook.Prelude.{◌≢◌, refl, ◌∷◌, [], false, none, List, arith, Memᴰ, subst}
use vaulthook.Model.{Webhook, queued, retrying}
use vaulthook.Database.{Db}
use vaulthook.Worker.Repository.{queue, get_events}
use vaulthook.Events.Repository.{replay_event}
use vaulthook.Events.Feed.{Feed, new_feed, FeedReach, FeedStep, tick, send, subscribe}
use vaulthook.Events.Feed.Conserve.{IsBounded, FeedReach-IsBounded}
use vaulthook.Events.Feed.Ticks.{pending}
use vaulthook.System.{Step, Reach, Bystep, Bypath}
use vaulthook.System.Keys.{IsConsistent}
use vaulthook.System.Unique.{Reach-IsConsistent}
use vaulthook.System.Stuck.{retrying-stuck}
use vaulthook.Examples.{event, shop_db, sizes, same_text}

pub shop_db-IsConsistent : IsConsistent shop_db
shop_db-IsConsistent = record {
  ids = ((ground arith, (ground arith, tt)), ((ground arith, tt), (tt, tt)));
  events = ((refl, (refl, tt)), ((refl, tt), (tt, tt)));
}

abbrev claimed_db : Db
claimed_db = (get_events queue sizes (λ _. false) none shop_db).1

abbrev replayed_db : Db
replayed_db = (replay_event none 11 claimed_db).1

Reach-IsConsistent_example : IsConsistent replayed_db
Reach-IsConsistent_example =
    Reach-IsConsistent same_text {a = shop_db} {b = replayed_db}
      (Reach.next (Reach.next Reach.here (Step.claim queue sizes (λ _. false) none shop_db))
        (Step.replay none 11 claimed_db))
      shop_db-IsConsistent

retrying-stuck_example : Memᴰ (event 13 "c" retrying) replayed_db.events
retrying-stuck_example =
    retrying-stuck same_text (event 13 "c" retrying) {a = shop_db} {b = replayed_db}
      (Bypath.next (Bypath.next Bypath.here (Bystep.claim queue sizes (λ _. false) none shop_db))
        (Bystep.replay none 11 claimed_db (ground arith)))
      shop_db-IsConsistent refl (Memᴰ.tail (Memᴰ.tail (Memᴰ.head refl)))

abbrev two_events : List Webhook
two_events = event 11 "a" queued ∷ event 12 "b" queued ∷ []

-- A feed with one subscriber and two events, one of them still in the channel.
abbrev pub feed : Feed
feed = record {
  buffer = event 11 "a" queued ∷ [];
  broadcast = event 12 "b" queued ∷ [];
  subscribers = record { key = 0; waiting = [] } ∷ [];
  dropped = 7;
  next_key = 1;
}

feed_pending : pending feed ≢ []
feed_pending h = subst IsCons h tt
  where
    IsCons : List Webhook → Type 0
    IsCons [] = ⊥
    IsCons (w ∷ ws) = Unit

abbrev sent_feed : Feed
sent_feed = send (event 11 "a" queued) (subscribe new_feed).1

FeedReach-IsBounded_example : IsBounded (tick sent_feed)
FeedReach-IsBounded_example = FeedReach-IsBounded {s = tick sent_feed} (
    FeedReach.next
      (FeedReach.next (FeedReach.next FeedReach.here (FeedStep.subscribes new_feed))
        (FeedStep.sends (event 11 "a" queued) (subscribe new_feed).1))
      (FeedStep.ticks sent_feed))
