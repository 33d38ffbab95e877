-- ===== src/Cors/Written.antt =====
-- src/cors.js: the headers that a configuration which was resolved writes.
use yhub.Base.{
  ◌+◌, Bool, false, not, ◌&&◌, Option, none, some, List, [], ◌∷◌, Text, codes, some_of, text_eq,
  eq_of_text_eq, length, ltb, ◌≡◌, refl, arith, ap, ◌∙◌, subst, Bool-cases, inl, inr,
}
use yhub.Cors.{
  OriginPattern, ResolvedCors, Header, skips, write_origin, allowed_origin, listed_origin,
  has_origin, has_pattern, matches_pattern,
}
use yhub.Cors.Config.{Config, EndpointCors, resolved, resolve_cors}
use yhub.Cors.Shape.{IsScheme, IsWildcard, AllOrigins, AllWildcards, PatternsBounded, OriginsExact}
use yhub.Cors.Sound.{IsSound, SoundIf, resolve_cors-SoundIf}

scheme-star : (o rest : Text) → IsScheme o rest → text_eq (codes "*") o ≡ false
unfolding text_eq
scheme-star o rest h = ap (text_eq (codes "*")) h.written ∙ ground (arith, h.letter_lower)

exact-star : (os : List Text) → AllOrigins os → some_of (text_eq (codes "*")) os ≡ false
exact-star [] h = refl
exact-star (o ∷ os) (a, h) = simp (scheme-star o a.host a.scheme) (exact-star os h)

bounded-star : (p : OriginPattern) → IsWildcard p → matches_pattern (codes "*") p ≡ false
unfolding matches_pattern
bounded-star p h = elim (Bool-cases (ltb (length p.prefix + length p.suffix) 1)) [
  | inl l ↦ ground (arith, ap length h.suffix_eq, l)
  | inr l ↦ simp (l) refl
]

patterns-star :
    (ps : List OriginPattern) → AllWildcards ps → some_of (matches_pattern (codes "*")) ps ≡ false
patterns-star [] h = refl
patterns-star (p ∷ ps) (a, h) = simp (bounded-star p a) (patterns-star ps h)

has_origin-star : (os : Option (List Text)) → OriginsExact os → has_origin (codes "*") os ≡ false
has_origin-star none h = refl
has_origin-star (some os) h = exact-star os h

has_pattern-star :
    (ps : Option (List OriginPattern)) → PatternsBounded ps → has_pattern (codes "*") ps ≡ false
has_pattern-star none h = refl
has_pattern-star (some ps) h = patterns-star ps h

listed_origin-star : (c : ResolvedCors) → IsSound c → listed_origin c (codes "*") ≡ false
unfolding listed_origin
listed_origin-star c h =
    ground (arith, has_origin-star c.origins h.exact, has_pattern-star c.origin_patterns h.bounded)

abbrev pub writes_star : List Header → Bool
writes_star =
    some_of (λ h. text_eq h.0 (codes "Access-Control-Allow-Origin") && text_eq h.1 (codes "*"))

abbrev pub writes_credentials : List Header → Bool
writes_credentials = some_of (λ h. text_eq h.0 (codes "Access-Control-Allow-Credentials"))

abbrev pub ExclusiveIf : Option (List Header) → Type 0
ExclusiveIf none = Unit {0}
ExclusiveIf (some headers) = (writes_star headers && writes_credentials headers) ≡ false

write_origin-ExclusiveIf :
    (c : ResolvedCors) (origin : Text) (skip : Option (List Text))
    → IsSound c
    → ExclusiveIf (write_origin c origin skip)
unfolding write_origin allowed_origin text_eq
write_origin-ExclusiveIf c origin skip h = elim (Bool-cases c.origin_all) [
  | inl a ↦ simp (write_origin, allowed_origin, a, h.no_star_credentials a) refl
  | inr a ↦ elim (Bool-cases (text_eq origin [])) [
    | inl e ↦ simp (write_origin, allowed_origin, a, e) tt
    | inr e ↦ elim (Bool-cases (listed_origin c origin)) [
      | inr l ↦ simp (write_origin, allowed_origin, a, e, l) tt
      | inl l ↦ elim (Bool-cases (text_eq origin (codes "*"))) [
        | inl s ↦ ground (
          arith,
          l,
          ap (listed_origin c) (eq_of_text_eq origin (codes "*") s),
          listed_origin-star c h,
        )
        | inr s ↦
            simp (write_origin, allowed_origin, a, e, l, s)
              (elim (Bool-cases
                (c.credentials && not (skips skip (codes "access-control-allow-credentials")))) [
                  | inl k ↦ simp (k) refl
                  | inr k ↦ simp (k) refl
                ])
      ]
    ]
  ]
]

-- Whatever the configurations of the server and of the endpoint are that a configuration was resolved
-- from: the headers that it writes for an origin, if any, never hold `*` as the allowed origin
-- together with the one that allows credentials.
pub resolve_cors-ExclusiveIf :
    (server : Option Config) (endpoint : EndpointCors) (c : ResolvedCors)
    → resolve_cors server endpoint ≡ resolved c
    → (origin : Text) (skip : Option (List Text)) → ExclusiveIf (write_origin c origin skip)
resolve_cors-ExclusiveIf server endpoint c e origin skip =
    write_origin-ExclusiveIf c origin skip (subst SoundIf e (resolve_cors-SoundIf server endpoint))
