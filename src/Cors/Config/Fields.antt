-- ===== src/Cors/Config/Fields.antt =====
-- src/cors.js: the fields of a configuration, their merge and their checks in `resolveCors`.
use yhub.Base.{
  ℕ, Bool, true, false, not, ◌&&◌, ◌||◌, Option, none, some, is_some, List, [], ◌∷◌, Text, codes,
  if◌then◌else◌, some_of, every, text_eq,
}
use yhub.Cors.{to_lower_case}

-- The value of a field, as `typeof` tells them apart; an entry of an array that is not a string is none.
pub data Value : Type 0 where
  undefined : Value
  null : Value
  bool : Bool → Value
  whole : ℕ → Value
  -- A number that is negative or not an integer.
  other_number : Value
  str : Text → Value
  arr : List (Option Text) → Value
  other : Value

-- The own fields of an object, a name once.
abbrev pub Config : Type 0
Config = List (Text × Value)

-- The `cors` of an endpoint.
pub data EndpointCors : Type 0 where
  absent : EndpointCors
  null_cors : EndpointCors
  not_object : EndpointCors
  fields : Config → EndpointCors

-- `corsFields`
unfoldable pub cors_fields : List Text
cors_fields =
    codes "origin"
    ∷ codes "credentials"
    ∷ codes "trustSameOrigin"
    ∷ codes "allowHeaders"
    ∷ codes "exposeHeaders"
    ∷ codes "maxAge"
    ∷ []

unfoldable pub is_known : Text × Value → Bool
unfolding cors_fields
is_known (name, value) = some_of (text_eq name) cors_fields

unfoldable pub get_field : Text → Config → Value
get_field name [] = undefined
get_field name ((n, value) ∷ cors) =
    let rest = get_field name cors in if text_eq name n then value else rest

unfoldable pub set_field : Text → Value → Config → Config
set_field name value [] = (name, value) ∷ []
set_field name value ((n, old) ∷ cors) =
    let rest = set_field name value cors in
    if text_eq name n then (n, value) ∷ cors else (n, old) ∷ rest

abbrev pub is_undefined : Value → Bool
is_undefined undefined = true
is_undefined _ = false

-- The loop over the fields of the override: none where it throws.
unfoldable pub merge_fields : Config → Config → Option Config
unfolding is_known set_field
merge_fields merged [] = some merged
merge_fields merged ((name, value) ∷ overrides) =
    let set = merge_fields (set_field name value merged) overrides in
    let kept = merge_fields merged overrides in
    if not (is_known (name, value)) then none else if is_undefined value then kept else set

abbrev pub all_texts : List (Option Text) → Bool
all_texts = every is_some

abbrev pub texts : List (Option Text) → List Text
texts [] = []
texts (none ∷ entries) = texts entries
texts (some t ∷ entries) = t ∷ texts entries

abbrev pub is_origin : Value → Bool
is_origin (str t) = true
is_origin (arr entries) = all_texts entries
is_origin _ = false

abbrev pub is_headers : Value → Bool
is_headers undefined = true
is_headers (arr entries) = all_texts entries
is_headers _ = false

abbrev pub is_flag : Value → Bool
is_flag undefined = true
is_flag (bool b) = true
is_flag _ = false

abbrev pub is_max_age : Value → Bool
is_max_age undefined = true
is_max_age (whole n) = true
is_max_age _ = false

-- The targeted checks and then `$cors`, which adds to them that the two flags are booleans.
unfoldable pub is_cors : Config → Bool
unfolding is_known get_field
is_cors cors =
    every is_known cors
    && is_origin (get_field (codes "origin") cors)
    && is_headers (get_field (codes "allowHeaders") cors)
    && is_headers (get_field (codes "exposeHeaders") cors)
    && is_max_age (get_field (codes "maxAge") cors)
    && is_flag (get_field (codes "credentials") cors)
    && is_flag (get_field (codes "trustSameOrigin") cors)

abbrev pub header_list : Value → Option (List Text)
header_list (arr entries) = some (texts entries)
header_list _ = none

abbrev pub includes_star : Option (List Text) → Bool
includes_star none = false
includes_star (some headers) = some_of (text_eq (codes "*")) headers

unfoldable pub names_authorization : Option (List Text) → Bool
unfolding to_lower_case
names_authorization none = false
names_authorization (some headers) =
    some_of (λ header. text_eq (to_lower_case header) (codes "authorization")) headers

abbrev pub is_true : Value → Bool
is_true (bool b) = b
is_true _ = false

abbrev pub is_false : Value → Bool
is_false (bool b) = not b
is_false _ = false

unfoldable pub is_star : Value → Bool
is_star (str t) = text_eq t (codes "*")
is_star _ = false

-- The pairs of settings that browsers reject.
unfoldable pub conflicts : Config → Bool
unfolding get_field names_authorization is_star
conflicts cors =
    let credentials = is_true (get_field (codes "credentials") cors) in
    let allow = header_list (get_field (codes "allowHeaders") cors) in
    let expose = header_list (get_field (codes "exposeHeaders") cors) in
    (is_star (get_field (codes "origin") cors) && credentials)
    || (credentials && (includes_star allow || includes_star expose))
    || (includes_star allow && not (names_authorization allow))
