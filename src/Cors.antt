-- ===== src/Cors.antt =====
-- src/cors.js: what a resolved configuration says of a request, and the headers that it writes.
pub mod Wildcards
pub mod Gate
pub mod Config
pub mod Lower
pub mod Bounded
pub mod Shape
pub mod Allowlist
pub mod Sound
pub mod Merging
pub mod Written
use yhub.Base.{
  ℕ, ◌+◌, ◌<◌, Bool, true, false, not, ◌&&◌, ◌||◌, Option, none, some, is_some, List, [], ◌∷◌, ◌++◌,
  Text, codes, if◌then◌else◌, ltb, leb, length, some_of, text_eq, strip_prefix,
}

-- A wildcard entry, split at the star.
pub record OriginPattern : Type 0 where
  pub prefix : Text
  pub suffix : Text

pub record ResolvedCors : Type 0 where
  pub origin_all : Bool
  pub origins : Option (List Text)
  pub origin_patterns : Option (List OriginPattern)
  pub credentials : Bool
  pub trust_same_origin : Bool
  pub allow_headers : Option Text
  pub expose_headers : Option Text
  pub max_age : Text

-- `toLowerCase` on the characters of a header, which are ASCII.
unfoldable pub lower_char : ℕ → ℕ
lower_char c = if leb 65 c && leb c 90 then c + 32 else c

unfoldable pub to_lower_case : Text → Text
unfolding lower_char
to_lower_case [] = []
to_lower_case (c ∷ s) = lower_char c ∷ to_lower_case s

unfoldable pub starts_with : Text → Text → Bool
starts_with p s = is_some (strip_prefix p s)

unfoldable pub ends_with : Text → Text → Bool
ends_with e [] = text_eq e []
ends_with e (c ∷ s) = text_eq e (c ∷ s) || ends_with e s

unfoldable pub matches_pattern : Text → OriginPattern → Bool
unfolding starts_with ends_with
matches_pattern o p =
    ltb (length p.prefix + length p.suffix) (length o)
    && starts_with p.prefix o
    && ends_with p.suffix o

abbrev pub has_origin : Text → Option (List Text) → Bool
has_origin o none = false
has_origin o (some origins) = some_of (text_eq o) origins

abbrev pub has_pattern : Text → Option (List OriginPattern) → Bool
has_pattern o none = false
has_pattern o (some ps) = some_of (matches_pattern o) ps

unfoldable pub listed_origin : ResolvedCors → Text → Bool
unfolding to_lower_case matches_pattern
listed_origin cors origin =
    has_origin (to_lower_case origin) cors.origins
    || has_pattern (to_lower_case origin) cors.origin_patterns

-- `allowedOrigin`
unfoldable pub allowed_origin : ResolvedCors → Text → Option Text
unfolding listed_origin
allowed_origin cors origin =
    if cors.origin_all
    then some (codes "*")
    else if text_eq origin []
    then none
    else if listed_origin cors origin
    then some origin
    else none

-- What follows `://` in an origin with a scheme.
unfoldable pub after_scheme : Text → Option Text
after_scheme [] = none
after_scheme (c ∷ s) =
    let rest = after_scheme s in
    elim (strip_prefix (codes "://") (c ∷ s)) [ some host ↦ some host | none ↦ rest ]

-- A scheme of one character or more.
unfoldable pub same_host : Text → Text → Bool
unfolding after_scheme to_lower_case
same_host origin host =
    not (starts_with (codes "://") origin) && not (text_eq host []) && elim (after_scheme origin) [
      | none ↦ false
      | some h ↦ text_eq (to_lower_case h) (to_lower_case host)
    ]

abbrev pub allows : Option ResolvedCors → Text → Bool
allows none origin = false
allows (some cors) origin = is_some (allowed_origin cors origin)

abbrev pub distrusts : Option ResolvedCors → Bool
distrusts none = false
distrusts (some cors) = not cors.trust_same_origin

unfoldable pub foreign_site : Text → Bool
foreign_site site =
    not (text_eq site [])
    && not (text_eq site (codes "same-origin"))
    && not (text_eq site (codes "none"))

-- `originAllowed`
unfoldable pub origin_allowed : Option ResolvedCors → Text → Text → Text → Bool
unfolding foreign_site same_host
origin_allowed cors origin host site =
    if text_eq origin []
    then true
    else if allows cors origin
    then true
    else if distrusts cors
    then false
    else if foreign_site site
    then false
    else same_host origin host

-- A header that is written.
abbrev pub Header : Type 0
Header = Text × Text

abbrev pub skips : Option (List Text) → Text → Bool
skips none name = false
skips (some names) name = some_of (text_eq name) names

-- `writeOrigin`: none where the origin is not allowed.
unfoldable pub write_origin : ResolvedCors → Text → Option (List Text) → Option (List Header)
unfolding allowed_origin
write_origin cors origin skip = elim (allowed_origin cors origin) [
  | none ↦ none
  | some allowed ↦ some (
      (codes "Access-Control-Allow-Origin", allowed)
      ∷ (if cors.credentials && not (skips skip (codes "access-control-allow-credentials"))
          then (codes "Access-Control-Allow-Credentials", codes "true") ∷ []
          else []))
]

abbrev pub vary : List Header
vary = (codes "Vary", codes "Origin") ∷ []

abbrev pub exposed : ResolvedCors → Option (List Text) → List Header
exposed cors skip = elim cors.expose_headers [
  | none ↦ []
  | some names ↦
      if skips skip (codes "access-control-expose-headers")
      then []
      else (codes "Access-Control-Expose-Headers", names) ∷ []
]

-- `writeCorsResponse`: the headers in their order.
unfoldable pub write_cors_response : Option ResolvedCors → Text → Option (List Text) → List Header
unfolding write_origin
write_cors_response none origin skip = vary
write_cors_response (some cors) origin skip =
    (if cors.origin_all then [] else vary)
    ++ (if skips skip (codes "access-control-allow-origin")
        then []
        else elim (write_origin cors origin skip) [
          | none ↦ []
          | some headers ↦ headers ++ exposed cors skip
        ])

abbrev pub allow_headers_of : ResolvedCors → List Header
allow_headers_of cors = elim cors.allow_headers [
  | none ↦ []
  | some names ↦ (codes "Access-Control-Allow-Headers", names) ∷ []
]

-- `writeCorsPreflight`: whether the origin is allowed, and the headers.
unfoldable pub write_cors_preflight : Option ResolvedCors → Text → Text → Bool × List Header
unfolding write_origin
write_cors_preflight none origin methods = (false, [])
write_cors_preflight (some cors) origin methods =
    let start = if cors.origin_all then [] else vary in
    elim (write_origin cors origin none) [
      | none ↦ (false, start)
      | some headers ↦ (
        true,
        start
            ++ (headers
                ++ ((codes "Access-Control-Allow-Methods", methods)
                    ∷ (allow_headers_of cors
                        ++ (codes "Access-Control-Max-Age", cors.max_age) ∷ []))),
      )
    ]
