-- ===== src/Http/Routes.antt =====
-- The routes of internal/app/app.go and of `RegisterRoutes` of the handlers, and the middleware in
-- front of them. The router itself is a parameter: it matches the path, cleaned and without a slash at
-- its end, against the registered patterns. The handlers are a parameter, a function for each endpoint, and so is the text of the middleware's refusal.
pub mod Guarded
use vaulthook.Prelude.{
  ℕ, String, Bool, true, false, Option, none, some, List, [], ◌∷◌, ◌++◌, map, Text, str_eq, ◌&&◌,
  if◌then◌else◌,
}
use vaulthook.Auth.{Service, jwt_middleware}
use vaulthook.Http.{Reply, http_error}

pub data Method : Type 0 where
  get post patch other_method : Method

abbrev same_method : Method → Method → Bool
same_method get get = true
same_method post post = true
same_method patch patch = true
same_method _ _ = false

pub data Endpoint : Type 0 where
  to_login to_logout to_refresh to_me to_stripe to_shopify to_github to_health : Endpoint
  to_providers to_configure to_events to_search to_replay to_stats to_stream : Endpoint

-- A pattern's segment: a text, or a parameter in braces.
pub data Segment : Type 0 where
  literal : String → Segment
  parameter : Segment

pub record Route : Type 0 where
  pub method : Method
  pub pattern : List Segment
  pub guarded : Bool
  pub endpoint : Endpoint

-- What a handler registers, relative to the router that it is given.
pub record Registered : Type 0 where
  pub on : Method
  pub path : List Segment
  pub to : Endpoint

abbrev register : Method → List Segment → Endpoint → Registered
register m p e = record { on = m; path = p; to = e }

-- `RegisterRoutes` of the seven handlers.
abbrev pub auth_routes : List Registered
auth_routes =
    register post (literal "login" ∷ []) to_login
    ∷ register post (literal "logout" ∷ []) to_logout
    ∷ register post (literal "refresh" ∷ []) to_refresh
    ∷ register get (literal "me" ∷ []) to_me
    ∷ []

abbrev pub stripe_routes : List Registered
stripe_routes = register post (literal "webhooks" ∷ literal "stripe" ∷ []) to_stripe ∷ []

abbrev pub shopify_routes : List Registered
shopify_routes = register post (literal "webhooks" ∷ literal "shopify" ∷ []) to_shopify ∷ []

abbrev pub github_routes : List Registered
github_routes = register post (literal "webhooks" ∷ literal "github" ∷ []) to_github ∷ []

abbrev pub health_routes : List Registered
health_routes = register get (literal "health" ∷ []) to_health ∷ []

abbrev pub provider_routes : List Registered
provider_routes =
    register get (literal "providers" ∷ []) to_providers
    ∷ register patch (literal "providers" ∷ parameter ∷ []) to_configure
    ∷ []

abbrev pub event_routes : List Registered
event_routes =
    register get (literal "events" ∷ []) to_events
    ∷ register post (literal "events" ∷ []) to_search
    ∷ register post (literal "events" ∷ parameter ∷ literal "replay" ∷ []) to_replay
    ∷ register get (literal "events" ∷ literal "stats" ∷ []) to_stats
    ∷ []

-- `router.Route("/api", …)`, outside or inside the group with `auth.Jwt`.
abbrev under_api : Bool → Registered → Route
under_api guarded r = record {
  method = r.on;
  pattern = literal "api" ∷ r.path;
  guarded = guarded;
  endpoint = r.to;
}

-- The public endpoints.
abbrev pub public_routes : List Route
public_routes =
    map (under_api false)
      (auth_routes ++ stripe_routes ++ shopify_routes ++ github_routes ++ health_routes)

-- The endpoints behind `auth.Jwt`; the stream is registered for itself, without the timeout.
abbrev pub stream_route : Registered
stream_route = register get (literal "events" ∷ literal "stream" ∷ []) to_stream

abbrev pub guarded_routes : List Route
guarded_routes =
    map (under_api true) (provider_routes ++ event_routes) ++ under_api true stream_route ∷ []

abbrev same_segment : Segment → String → Bool
same_segment (literal s) t = str_eq s t
same_segment parameter t = true

pub matches : List Segment → List String → Bool
matches [] [] = true
matches [] (t ∷ ts) = false
matches (s ∷ ss) [] = false
matches (s ∷ ss) (t ∷ ts) = same_segment s t && matches ss ts

pub find_route : List Route → Method → List String → Option Route
unfolding matches
find_route [] m path = none
find_route (r ∷ rs) m path =
    let rest = find_route rs m path in
    if same_method r.method m && matches r.pattern path then some r else rest

-- A request: its method, its path and the cookie access_token, beside what the handlers read.
pub record Call : Type 0 where
  pub method : Method
  pub path : List String
  pub access_cookie : Option Text

module _ {W : Type 0} (handle : Endpoint → W → Reply × W) (unmatched : Reply) (refusal : Text) where
  abbrev pub behind : Route → Option ℕ → W → Reply × W
  behind r none w = handle r.endpoint w
  behind r (some status) w =
      if r.guarded then (http_error refusal status, w) else handle r.endpoint w

  -- `ServeHTTP` of the router that `New` assembles.
  unfoldable pub serve : Service → Call → W → Reply × W
  unfolding find_route jwt_middleware
  serve s c w = elim (find_route (public_routes ++ guarded_routes) c.method c.path) [
    | none ↦ (unmatched, w)
    | some r ↦ behind r (jwt_middleware s c.access_cookie) w
  ]
