-- ===== src/Http/Routes/Guarded.antt =====
-- Which requests reach a handler of the dashboard (internal/app/app.go, New).
use vaulthook.Prelude.{
  ◌≡◌, ◌≢◌, refl, ◌∙◌, String, true, false, Option, none, some, List, [], ◌∷◌, ◌++◌, Text, All,
  ◌&&◌, Bool-cases, inl, inr, ◌⊎◌,
}
use vaulthook.Auth.{
  Service, Outcome, done, denied, Claims, jwt_middleware, validate_access_token, admitted,
}
use vaulthook.Http.{Reply, http_error}
use vaulthook.Http.Routes.{
  Method, Endpoint, Route, same_method, matches, find_route, public_routes, guarded_routes, Call,
  serve,
}

-- Routes that do not match the path are passed over.
find_route-skip :
    (m : Method) (path : List String) (ps rs : List Route)
    → All (λ r. matches r.pattern path ≡ false) ps
    → find_route (ps ++ rs) m path ≡ find_route rs m path
unfolding find_route
find_route-skip m path [] rs h = refl
find_route-skip m path (p ∷ ps) rs h = elim (Bool-cases (same_method p.method m)) [
  | inl e ↦ rw (e, h.0) (find_route-skip m path ps rs h.1)
  | inr e ↦ rw e (find_route-skip m path ps rs h.1)
]

find_route-All :
    (P : Route → Type 0) (m : Method) (path : List String) (rs : List Route)
    → All P rs
    → (find_route rs m path ≡ none) ⊎ ((r : Route) × (find_route rs m path ≡ some r) × P r)
unfolding find_route
find_route-All P m path [] h = inl refl
find_route-All P m path (r ∷ rs) h =
    elim (Bool-cases (same_method r.method m && matches r.pattern path)) [
      | inl e ↦ inr (r, (rw e), h.0)
      | inr e ↦ rw e (find_route-All P m path rs h.1)
    ]

-- The two parts of the interface that only a session opens.
pub data IsDashboard : List String → Type 0 where
  providers_path : (rest : List String) → IsDashboard ("api" ∷ "providers" ∷ rest)
  events_path : (rest : List String) → IsDashboard ("api" ∷ "events" ∷ rest)

no_public_route :
    (path : List String)
    → IsDashboard path
    → All (λ r. matches r.pattern path ≡ false) public_routes
unfolding matches
no_public_route _ (providers_path rest) =
    (refl, (refl, (refl, (refl, (refl, (refl, (refl, (refl, tt))))))))
no_public_route _ (events_path rest) =
    (refl, (refl, (refl, (refl, (refl, (refl, (refl, (refl, tt))))))))

all_guarded : All (λ r. r.guarded ≡ true) guarded_routes
all_guarded = (refl, (refl, (refl, (refl, (refl, (refl, (refl, tt)))))))

refused_status :
    (s : Service) (cookie : Option Text)
    → jwt_middleware s cookie ≢ none
    → jwt_middleware s cookie ≡ some 401
unfolding jwt_middleware
refused_status s none h = refl
refused_status s (some t) h = status (validate_access_token s t) h
  where
    status : (o : Outcome Claims) → admitted o ≢ none → admitted o ≡ some 401
    status (done c) h = absurd (h refl)
    status (denied e) h = refl

module _ {W : Type 0} (handle : Endpoint → W → Reply × W) (unmatched : Reply) (refusal : Text) where
  -- A request to any path below /api/providers or /api/events, with any method, whose cookie the
  -- middleware does not admit changes nothing and reaches no handler: it is answered with 401, or as
  -- the router answers a path or a method without a route.
  pub serve-guarded :
      (s : Service) (c : Call) (w : W)
      → IsDashboard c.path
      → jwt_middleware s c.access_cookie ≢ none
      → (serve handle unmatched refusal s c w ≡ (unmatched, w))
        ⊎ (serve handle unmatched refusal s c w ≡ (http_error refusal 401, w))
  unfolding serve
  serve-guarded s c w dashboard shut =
      let skip =
        find_route-skip c.method c.path public_routes guarded_routes
          (no_public_route c.path dashboard) in
      elim (find_route-All (λ r. r.guarded ≡ true) c.method c.path guarded_routes all_guarded) [
        | inl missing ↦ inl (simp (skip ∙ missing, serve))
        | inr (r, found, guard) ↦
            inr (simp (skip ∙ found, refused_status s c.access_cookie shut, guard, serve))
      ]
