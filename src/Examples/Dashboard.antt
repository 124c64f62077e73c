-- ===== src/Examples/Dashboard.antt =====
-- The theorems on the dashboard's endpoints, the cache of providers and the workers' loops at concrete
-- inputs.
use vaulthook.Prelude.{
  ℕ, ◌+◌, ◌≡◌, ◌≢◌, ◌≤◌, ◌⊎◌, refl, subst, ◌∷◌, [], Bool, true, false, Option, none, some, List,
  Text, codes, arith, pos,
}
use vaulthook.Model.{Webhook, Provider}
use vaulthook.Auth.{jwt_middleware}
use vaulthook.Providers.Service.{ConfigureError}
use vaulthook.Providers.Cache.{refresh_cache}
use vaulthook.Providers.Cache.Loaded.{Loaded, refresh_cache-Loaded}
use vaulthook.Http.{Reply, http_error, write_header}
use vaulthook.Http.Body.{Request, Decoder, value}
use vaulthook.Http.ProviderHandler.{ConfigureRequestBody, Context}
use vaulthook.Http.ProviderHandler.Replied.{Replied}
use vaulthook.Http.Routes.{Call, Endpoint, patch, serve}
use vaulthook.Http.Routes.Guarded.{providers_path, serve-guarded}
use vaulthook.Http.Stream.{Wire, Turn, ticks, has_batch, elsewhere, stream_loop, stream_batch}
use vaulthook.Events.Feed.{Feed, send, take_dropped, receive}
use vaulthook.Http.Stream.Account.{stream_loop-accounts, reported}
use vaulthook.Health.Check.{Surroundings, Ping, HealthCheck, get_health, get_health_check}
use vaulthook.Health.Check.Status.{get_health-status}
use vaulthook.Config.{Environment, init_config}
use vaulthook.Config.Ready.{Ends, Ready, init_config-Ends}
use vaulthook.Model.{queued}
use vaulthook.Examples.{event, noon, shop}
use vaulthook.Examples.Settings.{json}
use vaulthook.Examples.Sessions.{service}
use vaulthook.Examples.Tables.{feed}
use vaulthook.Examples.Receivers.{nonce}

refresh_cache-Loaded_example :
    Loaded json none none (shop ∷ []) (refresh_cache json none none (shop ∷ []) [])
refresh_cache-Loaded_example = refresh_cache-Loaded json none none (shop ∷ []) [] (tt, tt)

abbrev settings : ConfigureRequestBody
settings = record {
  signing_secret = codes " whsec ";
  destination_url = "http://shop/new";
  max_retries = pos 5;
  max_req_second = pos 10;
}

abbrev decoder : Decoder ConfigureRequestBody
decoder = record {
  first = λ _. value settings;
  second_is_eof = λ _. true;
  print = λ n. n ∷ [];
  quote = λ s. s;
}

abbrev context : Context
context = record { id = some 1; nonce = some nonce; row_fault = none; cache_fault = none }

abbrev request : Request
request = record { content_type = []; body = codes "{}" }

abbrev text_of : ConfigureError → Text
text_of _ = codes "error"

abbrev printed : Provider → Option Text
printed p = some (codes "{}")

-- A handler that counts its calls.
abbrev handle : Endpoint → ℕ → Reply × ℕ
handle e n = (write_header 200, n + 1)

abbrev not_found : Reply
not_found = http_error (codes "404 page not found") 404

abbrev call : Call
call = record { method = patch; path = "api" ∷ "providers" ∷ "1" ∷ []; access_cookie = none }

shut_out : jwt_middleware service none ≢ none
unfolding jwt_middleware
shut_out h = subst IsSome h tt
  where
    IsSome : Option ℕ → Type 0
    IsSome none = ⊥
    IsSome (some n) = Unit

serve-guarded_example :
    (serve handle not_found [] service call 0 ≡ (not_found, 0))
    ⊎ (serve handle not_found [] service call 0 ≡ (http_error [] 401, 0))
serve-guarded_example =
    serve-guarded handle not_found [] service call 0 (providers_path ("1" ∷ [])) shut_out

abbrev marshal : List Webhook → Option Text
marshal _ = some (codes "[]")

abbrev wire : Wire
wire = record { writes = true; flushes = true }

-- A batch waits for the stream, 7 events have been dropped, and an event comes in between.
abbrev streaming : Feed
streaming = record feed {
  subscribers = record { key = 0; waiting = (event 11 "a" queued ∷ []) ∷ [] } ∷ [];
}

abbrev turns : List (Turn marshal)
turns = ticks wire ∷ elsewhere (send (event 13 "c" queued)) ∷ has_batch wire wire ∷ ticks wire ∷ []

send-dropped : (f : Feed) → (send (event 13 "c" queued) f).dropped ≡ f.dropped
unfolding send
send-dropped f = ground arith

stream_loop-accounts_example :
    let ran = stream_loop marshal 0 turns streaming in
    (reported ran.frames + ran.feed.dropped ≤ streaming.dropped)
    × ((ran.closed ≡ true) ⊎ (reported ran.frames + ran.feed.dropped ≡ streaming.dropped))
stream_loop-accounts_example =
    stream_loop-accounts marshal 0 turns streaming (tt, (send-dropped, (tt, (tt, tt))))

-- The stream has reported all of them.
reports_seven : reported (stream_loop marshal 0 turns streaming).frames ≡ 7
unfolding stream_loop stream_batch send take_dropped receive
reports_seven = refl

abbrev ping : Bool → Ping
ping b = record { answers = b; start = noon; end = noon + 3000000 }

abbrev surroundings : Surroundings
surroundings = record {
  start_time = noon;
  now = noon + 5000000000;
  timestamp = "2023-11-14T22:13:20Z";
  settings = some (("vcs.revision", "abc") ∷ []);
  alloc = 5000000;
  total_alloc = 9000000;
  sys = 20000000;
  num_goroutine = 20;
  num_gc = 3;
  disk = some (1000000, 4096);
  postgres = ping true;
  redis = ping false;
  redis_first = true;
}

abbrev print_check : HealthCheck → Option Text
print_check c = some (codes c.status)

get_health-status_example : (get_health print_check surroundings).status ≡ 503
get_health-status_example = get_health-status print_check surroundings printed_check
  where
    IsSome : Option Text → Type 0
    IsSome none = ⊥
    IsSome (some t) = Unit

    printed_check : print_check (get_health_check surroundings) ≢ none
    printed_check h = subst IsSome h tt

abbrev pub environment : Environment
environment = record {
  getenv = λ name. "1";
  parse_bool = λ s. some true;
  parse_int = λ s. some (pos 1);
  parse_level = λ s. some (pos 1);
}

init_config-Ends_example : Ends environment (Ready environment) (init_config environment)
init_config-Ends_example = init_config-Ends environment
