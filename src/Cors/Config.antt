-- ===== src/Cors/Config.antt =====
-- src/cors.js: `resolveCors`, which validates and merges the configurations of the server and of an
-- endpoint. An exception is `throws`, whatever its message. Origins are taken to be ASCII, as the
-- header is that they are compared with.
mod Fields
mod Patterns
unfoldable pub use Fields.*
unfoldable pub use Patterns.*
use yhub.Base.{
  ℕ, Bool, true, false, not, ◌&&◌, ◌||◌, Option, none, some, is_some, List, [], ◌∷◌, ◌++◌, Text,
  codes, if◌then◌else◌, ltb, leb, ◌==◌, length, some_of, every, text_eq, strip_prefix, decimal,
  is_digit,
}
use yhub.Cors.{OriginPattern, ResolvedCors, to_lower_case, ends_with}

pub data Resolution : Type 0 where
  throws : Resolution
  disabled : Resolution
  resolved : ResolvedCors → Resolution

abbrev pub origin_list : Value → List Text
origin_list (str t) = t ∷ []
origin_list (arr entries) = texts entries
origin_list _ = []

-- `(headers ?? standard).join(', ') || null`
unfoldable pub join : List Text → Text
join [] = []
join (t ∷ []) = t
join (t ∷ u ∷ ts) = t ++ codes ", " ++ join (u ∷ ts)

abbrev pub not_empty : Text → Option Text
not_empty [] = none
not_empty (c ∷ s) = some (c ∷ s)

abbrev pub joined : Option (List Text) → List Text → Option Text
joined none standard = not_empty (join standard)
joined (some headers) standard = not_empty (join headers)

abbrev pub seconds : Value → ℕ
seconds (whole n) = n
seconds _ = 3600

abbrev pub some_patterns : List OriginPattern → Option (List OriginPattern)
some_patterns [] = none
some_patterns (p ∷ ps) = some (p ∷ ps)

-- The record that `resolveCors` returns.
unfoldable pub resolved_cors : Config → Bool → Option Allowlist → ResolvedCors
unfolding get_field join
resolved_cors cors origin_all list = record {
  origin_all = origin_all;
  origins = elim list [ none ↦ none | some l ↦ some l.exact ];
  origin_patterns = elim list [ none ↦ none | some l ↦ some_patterns l.patterns ];
  credentials = is_true (get_field (codes "credentials") cors);
  trust_same_origin = not (is_false (get_field (codes "trustSameOrigin") cors));
  allow_headers =
      joined (header_list (get_field (codes "allowHeaders") cors))
        (codes "Content-Type" ∷ codes "Authorization" ∷ []);
  expose_headers = joined (header_list (get_field (codes "exposeHeaders") cors)) [];
  max_age = decimal (seconds (get_field (codes "maxAge") cors));
}

abbrev pub is_empty : List Text → Bool
is_empty [] = true
is_empty (t ∷ ts) = false

-- `resolveCors` from the merged configuration on.
unfoldable pub resolve_config : Config → Resolution
unfolding is_cors conflicts is_star add_origins resolved_cors
resolve_config cors =
    let origin = get_field (codes "origin") cors in
    if not (is_cors cors)
    then throws
    else if conflicts cors
    then throws
    else if is_star origin
    then resolved (resolved_cors cors true none)
    else if is_empty (origin_list origin)
    then throws
    else elim (add_origins (origin_list origin) (record { exact = []; patterns = [] })) [
      | none ↦ throws
      | some list ↦ resolved (resolved_cors cors false (some list))
    ]

abbrev pub own_fields : Option Config → Config
own_fields none = []
own_fields (some cors) = cors

-- `resolveCors`
unfoldable pub resolve_cors : Option Config → EndpointCors → Resolution
unfolding merge_fields resolve_config
resolve_cors server null_cors = disabled
resolve_cors server not_object = throws
resolve_cors none absent = disabled
resolve_cors (some cors) absent = resolve_config cors
resolve_cors server (fields overrides) = elim (merge_fields (own_fields server) overrides) [
  | none ↦ throws
  | some cors ↦ resolve_config cors
]
