-- ===== src/Api/Routes.antt =====
-- src/api.js: the routes that are registered do not collide.
use yhub.Base.{
  ℕ, ◌+◌, Bool, true, false, false≢true, not, ◌&&◌, Option, none, some, List, [], ◌∷◌, ◌++◌, Text,
  codes, text_eq, eq_of_text_eq, text_eq_refl, ◌==◌, ==_iff, length, some_of-append, every, decimal,
  ◌>>=◌, ◌≡◌, refl, arith, sym, ap, subst, ◌∙◌, Bool-cases, Option-cases, inl, inr,
}
use mathlib.Core.Option.{some-injective}
use yhub.Cors.{ResolvedCors}
use yhub.Cors.Config.{Config, resolve_cors}
use yhub.Api.Registering.{
  EndpointDef, Route, Scope, resolution, path_params, route_of, is_segment, no_methods, is_method,
  has_text, guard, key_of, route_key, param_offset_of, register_endpoint, register_endpoints,
  register_api,
}

bind-some :
    {A B : Type 0} (o : Option A) (f : A → Option B) (b : B)
    → (o >>= f) ≡ some b
    → (a : A) × (o ≡ some a) × (f a ≡ some b)
bind-some none f b h = ground (arith, h)
bind-some (some a) f b h = (a, refl, h)

abbrev FreshIf : List Text → Option Route → Type 0
FreshIf registered none = Unit {0}
FreshIf registered (some route) = has_text (key_of route) registered ≡ false

guard-FreshIf :
    (registered : List Text) (c : Bool) (o : Option Route)
    → (c ≡ true → FreshIf registered o)
    → FreshIf registered (guard c o)
guard-FreshIf registered true o h = h refl
guard-FreshIf registered false o h = tt

route_of-FreshIf :
    (def : EndpointDef) (registered : List Text) (name version : Text) (scope : Scope)
    (cors : Option ResolvedCors) (params : List Text)
    → FreshIf registered (route_of def registered name version scope cors params)
unfolding route_of
route_of-FreshIf def registered name version scope cors params =
    guard-FreshIf registered (is_segment name && is_segment version && def.valid_purpose) _ (λ a.
      guard-FreshIf registered
        (not (has_text (route_key name version (param_offset_of scope + length params)) registered))
        _
        (λ b.
          guard-FreshIf registered (not (no_methods def.methods) && every is_method def.methods) _
            (λ c. ground (arith, b))))

-- A route is registered under a key that is new.
register_endpoint-FreshIf :
    (server : Option Config) (def : EndpointDef) (registered : List Text)
    → FreshIf registered (register_endpoint server def registered)
unfolding register_endpoint
register_endpoint-FreshIf server def registered = elim (Option-cases def.name) [
  | inl e ↦ simp (register_endpoint, e) tt
  | inr (name, e) ↦ elim (Option-cases def.version) [
    | inl f ↦ simp (register_endpoint, e, f) tt
    | inr (version, f) ↦ elim (Option-cases def.scope) [
      | inl g ↦ simp (register_endpoint, e, f, g) tt
      | inr (scope, g) ↦ elim (Option-cases (resolution (resolve_cors server def.cors))) [
        | inl h ↦ simp (register_endpoint, e, f, g, h) tt
        | inr (cors, h) ↦ elim (Option-cases (path_params def.path)) [
          | inl k ↦ simp (register_endpoint, e, f, g, h, k) tt
          | inr (params, k) ↦
              simp (register_endpoint, e, f, g, h, k)
                (route_of-FreshIf def registered name version scope cors params)
        ]
      ]
    ]
  ]
]

-- The keys of routes are not among some keys.
abbrev pub avoids : List Text → List Route → Bool
avoids registered = every (λ route. not (has_text (key_of route) registered))

abbrev pub depth : Route → ℕ
depth route = route.param_offset + length route.params

-- The same pattern, up to the names of parameters.
abbrev pub collides : Text → Text → ℕ → Route → Bool
collides name version n route =
    text_eq name route.name && text_eq version route.version && n == depth route

abbrev pub distinct : List Route → Bool
distinct [] = true
distinct (route ∷ routes) =
    every (λ s. not (collides route.name route.version (depth route) s)) routes && distinct routes

collides-key :
    (name version : Text) (n : ℕ) (route : Route)
    → text_eq (key_of route) (route_key name version n) ≡ false
    → collides name version n route ≡ false
collides-key name version n route h = elim (Bool-cases (collides name version n route)) [
  | inr c ↦ c
  | inl c ↦
      let a = eq_of_text_eq name route.name (ground (arith, c)) in
      let b = eq_of_text_eq version route.version (ground (arith, c)) in
      let d = (==_iff n (depth route)).0 (ground (arith, c)) in
      elim (false≢true (
        sym h
        ∙ ap (text_eq (key_of route)) (
            ap (λ x. route_key x version n) a
            ∙ ap (λ x. route_key route.name x n) b
            ∙ ap (route_key route.name route.version) d)
        ∙ text_eq_refl (key_of route))) [ ]
]

avoids-append :
    (registered : List Text) (key : Text) (routes : List Route)
    → avoids (registered ++ key ∷ []) routes ≡ true
    → (avoids registered routes ≡ true) × (every (λ s. not (text_eq (key_of s) key)) routes ≡ true)
avoids-append registered key [] h = (refl, refl)
avoids-append registered key (route ∷ routes) h =
    let (a, b) = avoids-append registered key routes (ground (arith, h)) in
    let split = some_of-append (text_eq (key_of route)) registered (key ∷ []) in
    (ground (arith, h, split, a), ground (arith, h, split, b))

apart :
    (route : Route) (routes : List Route)
    → every (λ s. not (text_eq (key_of s) (key_of route))) routes ≡ true
    → every (λ s. not (collides route.name route.version (depth route) s)) routes ≡ true
apart route [] h = refl
apart route (s ∷ routes) h =
    ground (arith, h, collides-key route.name route.version (depth route) s, apart route routes)

websocket_key : codes "ws/v1/2" ≡ route_key (codes "ws") (codes "v1") 2
unfolding route_key decimal
websocket_key = refl

register_endpoints-distinct :
    (server : Option Config) (defs : List EndpointDef) (registered : List Text)
    (routes : List Route)
    → register_endpoints server defs registered ≡ some routes
    → (avoids registered routes ≡ true) × (distinct routes ≡ true)
unfolding register_endpoints
register_endpoints-distinct server [] registered routes h =
    subst (λ rs. (avoids registered rs ≡ true) × (distinct rs ≡ true)) (some-injective _ _ h)
      (refl, refl)
register_endpoints-distinct server (def ∷ defs) registered routes h =
    let (route, e1, h1) = bind-some (register_endpoint server def registered) _ routes h in
    let (rest, e2, h2) =
      bind-some (register_endpoints server defs (registered ++ key_of route ∷ [])) _ routes h1 in
    let (away, ih) =
      register_endpoints-distinct server defs (registered ++ key_of route ∷ []) rest e2 in
    let (a, b) = avoids-append registered (key_of route) rest away in
    let fresh = subst (FreshIf registered) e1 (register_endpoint-FreshIf server def registered) in
    subst (λ rs. (avoids registered rs ≡ true) × (distinct rs ≡ true)) (some-injective _ _ h2)
      (ground (arith, fresh, a), ground (arith, apart route rest b, ih))

-- None has the pattern of a key that was there before.
not-collides :
    (name version : Text) (n : ℕ) (routes : List Route)
    → avoids (route_key name version n ∷ []) routes ≡ true
    → every (λ s. not (collides name version n s)) routes ≡ true
not-collides name version n [] h = refl
not-collides name version n (s ∷ routes) h =
    ground (arith, h, collides-key name version n s, not-collides name version n routes)

-- Where the registration does not throw, no two routes have one name, one version and one number of
-- parameters, so that no two share a pattern, whatever their scopes and paths are; and none has those
-- of the websocket endpoint.
pub register_api-distinct :
    (server : Option Config) (defs : List EndpointDef) (routes : List Route)
    → register_api server defs ≡ some routes
    → (distinct routes ≡ true)
      × (every (λ s. not (collides (codes "ws") (codes "v1") 2 s)) routes ≡ true)
unfolding register_api
register_api-distinct server defs routes h =
    let (a, d) = register_endpoints-distinct server defs (codes "ws/v1/2" ∷ []) routes h in
    (
      d,
      not-collides (codes "ws") (codes "v1") 2 routes
          (subst (λ k. avoids (k ∷ []) routes ≡ true) websocket_key a),
    )
