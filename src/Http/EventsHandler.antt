-- ===== src/Http/EventsHandler.antt =====
-- api/handler/events.go: the lists, the search, the counts and the replay of events. JSON, time.Parse
-- and uuid.Parse are parameters, and so are the text of a uuid and ILIKE; `getStats` and `getAll` answer failures without a body.
use vaulthook.Prelude.{
  ℕ, Bool, String, Option, none, some, List, Text, codes, str_eq, if◌then◌else◌,
}
use vaulthook.Model.{Fault, Result, ok, err, Webhook}
use vaulthook.Database.{Db}
use vaulthook.Events.Repository.{get_all, get_stats, replay_event, Stats}
use vaulthook.Search.{SearchRequest, SearchError, validate}
use vaulthook.Search.Pages.{SearchResponse, search}
use vaulthook.Http.{Reply, http_error, write_header, json_reply}

abbrev pub server_error : Reply
server_error = http_error (codes "internal server error") 500

abbrev search_reply : (SearchResponse → Option Text) → Result SearchResponse → Reply
search_reply marshal (err e) = server_error
search_reply marshal (ok found) = json_reply server_error (marshal found)

module _ (uuid_text : ℕ → String) (ilike : String → String → Bool)
    (order_by : List Webhook → List Webhook) (parse_time : String → Option ℕ) where
  -- `search`, from the decoded body; `text_of` are the texts of the errors of `Validate`.
  unfoldable pub search_handler :
      (SearchError → Text)
      → (SearchResponse → Option Text)
      → Option SearchRequest
      → Option Fault
      → Db
      → Reply
  unfolding validate search
  search_handler text_of marshal none fault db = http_error (codes "invalid request body") 400
  search_handler text_of marshal (some opts) fault db = elim (validate parse_time opts) [
    | some e ↦ http_error (text_of e) 400
    | none ↦ search_reply marshal (search uuid_text ilike order_by parse_time fault opts db)
  ]

abbrev pub events_reply : (List Webhook → Option Text) → Result (List Webhook) → Reply
events_reply marshal (err e) = write_header 500
events_reply marshal (ok evs) = json_reply (write_header 500) (marshal evs)

-- `getAll`, from the query's parameter, empty where it is missing.
unfoldable pub events_handler :
    (String → Option ℕ) → (List Webhook → Option Text) → String → Option Fault → Db → Reply
unfolding get_all
events_handler parse_time marshal cursor fault db =
    if str_eq cursor ""
    then events_reply marshal (get_all fault none db)
    else elim (parse_time cursor) [
      | none ↦ http_error (codes "invalid cursor") 400
      | some t ↦ events_reply marshal (get_all fault (some t) db)
    ]

abbrev stats_reply : (Stats → Option Text) → Result Stats → Reply
stats_reply marshal (err e) = write_header 500
stats_reply marshal (ok stats) = json_reply (write_header 500) (marshal stats)

-- `getStats`
unfoldable pub stats_handler : (Stats → Option Text) → Option Fault → Db → Reply
unfolding get_stats
stats_handler marshal fault db = stats_reply marshal (get_stats fault db)

abbrev replay_reply : (Fault → Text) → Result (Unit {0}) × Db → Reply × Db
replay_reply text_of (err e, db) = (http_error (text_of e) 500, db)
replay_reply text_of (ok _, db) = (write_header 200, db)

-- `replayEvent`, with `ReplayEvent` of the service, from uuid.Parse of the path's id.
unfoldable pub replay_handler : (Fault → Text) → Option ℕ → Option Fault → Db → Reply × Db
unfolding replay_event
replay_handler text_of none fault db = (write_header 400, db)
replay_handler text_of (some i) fault db = replay_reply text_of (replay_event fault i db)
