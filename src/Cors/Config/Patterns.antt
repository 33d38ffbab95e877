-- ===== src/Cors/Config/Patterns.antt =====
-- src/cors.js: the expressions that origins match, and the loop over the allowlist.
use yhub.Base.{
  ℕ, Bool, false, not, ◌&&◌, ◌||◌, Option, none, some, List, [], ◌∷◌, ◌++◌, Text, codes,
  if◌then◌else◌, ltb, leb, ◌==◌, length, some_of, every, text_eq, strip_prefix, is_digit,
}
use yhub.Cors.{OriginPattern, to_lower_case, ends_with}

-- `\s`
unfoldable pub is_space : ℕ → Bool
is_space c =
    (leb 9 c && leb c 13)
    || c == 32
    || c == 160
    || c == 5760
    || (leb 8192 c && leb c 8202)
    || c == 8232
    || c == 8233
    || c == 8239
    || c == 8287
    || c == 12288
    || c == 65279

-- `[A-Za-z]` and `[A-Za-z0-9+.-]`
unfoldable pub is_letter : ℕ → Bool
is_letter c = (leb b'A' c && leb c b'Z') || (leb b'a' c && leb c b'z')

unfoldable pub is_scheme : ℕ → Bool
unfolding is_letter is_digit
is_scheme c = is_letter c || is_digit c || c == b'+' || c == b'.' || c == b'-'

-- `[/?#]`
unfoldable pub ends_host : ℕ → Bool
ends_host c = c == b'/' || c == b'?' || c == b'#'

-- What follows `[A-Za-z0-9+.-]*:\/\/`: no character of the class is a colon.
unfoldable pub after_scheme_chars : Text → Option Text
unfolding is_scheme
after_scheme_chars [] = none
after_scheme_chars (c ∷ s) =
    let rest = after_scheme_chars s in
    if is_scheme c then rest else strip_prefix (codes "://") (c ∷ s)

unfoldable pub host_of : Text → Option Text
unfolding is_letter after_scheme_chars
host_of [] = none
host_of (c ∷ s) = if is_letter c then after_scheme_chars s else none

unfoldable pub is_host_char : ℕ → Bool
unfolding ends_host is_space
is_host_char c = not (ends_host c || is_space c)

abbrev pub is_host : Text → Bool
is_host host = not (text_eq host []) && every is_host_char host

-- `originRegex`
unfoldable pub is_plain_origin : Text → Bool
unfolding host_of is_host_char
is_plain_origin origin = elim (host_of origin) [ none ↦ false | some host ↦ is_host host ]

unfoldable pub is_wild_char : ℕ → Bool
unfolding ends_host is_space
is_wild_char c = not (ends_host c || c == b'*' || is_space c)

unfoldable pub is_label_char : ℕ → Bool
unfolding is_wild_char
is_label_char c = is_wild_char c && not (c == b'.') && not (c == b':')

-- `[^/?#*.:\s]*\.[^/?#*\s]+`: no character of the first class is a dot.
unfoldable pub is_label_rest : Text → Bool
unfolding is_label_char
is_label_rest [] = false
is_label_rest (c ∷ s) =
    let rest = is_label_rest s in
    if is_label_char c then rest else c == b'.' && not (text_eq s []) && every is_wild_char s

-- `[^/?#*.:\s]+\.[^/?#*\s]+`
unfoldable pub is_labels : Text → Bool
unfolding is_label_rest
is_labels [] = false
is_labels (c ∷ s) = is_label_char c && is_label_rest s

-- `wildcardRegex`
unfoldable pub is_wildcard_origin : Text → Bool
unfolding host_of is_labels
is_wildcard_origin origin = elim (host_of origin) [
  | none ↦ false
  | some host ↦ elim (strip_prefix (codes "*.") host) [ none ↦ false | some s ↦ is_labels s ]
]

unfoldable pub has_port : Text → Text → Text → Bool
unfolding ends_with ends_host
has_port scheme port origin = elim (strip_prefix scheme origin) [
  | none ↦ false
  | some host ↦
      ltb (length port) (length host) && ends_with port host && every (λ c. not (ends_host c)) host
]

-- `defaultPortRegex`, on the lowered text for its flag `i`
unfoldable pub has_default_port : Text → Bool
unfolding has_port to_lower_case
has_default_port origin =
    has_port (codes "https://") (codes ":443") (to_lower_case origin)
    || has_port (codes "http://") (codes ":80") (to_lower_case origin)

-- The text in front of the first star, and the one behind it.
unfoldable pub split_star : Text → Option (Text × Text)
split_star [] = none
split_star (c ∷ s) =
    let rest = split_star s in
    if c == b'*'
    then some ([], s)
    else elim rest [ none ↦ none | some (front, end) ↦ some (c ∷ front, end) ]

pub record Allowlist : Type 0 where
  pub exact : List Text
  pub patterns : List OriginPattern

-- `Set.add`
abbrev pub add_text : Text → List Text → List Text
add_text t ts = if some_of (text_eq t) ts then ts else ts ++ t ∷ []

-- An entry of the allowlist: none where it throws.
unfoldable pub add_origin : Text → Allowlist → Option Allowlist
unfolding split_star is_wildcard_origin is_plain_origin has_default_port to_lower_case
add_origin origin list =
    if text_eq origin (codes "null") || text_eq origin [] || text_eq origin (codes "*")
    then none
    else if has_default_port origin
    then none
    else elim (split_star origin) [
      | none ↦
          if is_plain_origin origin
          then some (record list { exact = add_text (to_lower_case origin) list.exact })
          else none
      | some (front, end) ↦
          if is_wildcard_origin origin
          then some (record list {
            patterns =
                list.patterns
                ++ record { prefix = to_lower_case front; suffix = to_lower_case end } ∷ [];
          })
          else none
    ]

unfoldable pub add_origins : List Text → Allowlist → Option Allowlist
unfolding add_origin
add_origins [] list = some list
add_origins (origin ∷ origins) list = elim (add_origin origin list) [
  | none ↦ none
  | some list' ↦ add_origins origins list'
]
