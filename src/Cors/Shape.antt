-- ===== src/Cors/Shape.antt =====
-- src/cors.js: the shape of an entry of an allowlist, told without the expressions that the code tests
-- it with.
pub mod Entries
use yhub.Base.{
  ℕ, Bool, true, false, not, ◌&&◌, ◌||◌, Option, none, some, List, [], ◌∷◌, ◌++◌, Text, codes,
  every, some_of, text_eq, eq_of_text_eq, leb, ◌==◌, strip_prefix-eq_some, is_digit, ◌≡◌, refl,
  arith, sym, ap, ◌∙◌, subst, Bool-cases, Option-cases, inl, inr, every-append, append_assoc,
}
use yhub.Cors.{OriginPattern, to_lower_case, lower_char}
use yhub.Cors.Config.{
  is_space, is_scheme, is_letter, ends_host, after_scheme_chars, host_of, is_host_char,
  is_plain_origin, is_wild_char, is_label_char, is_label_rest, is_labels,
}
use yhub.Cors.Bounded.{IsBounded, AllBounded, is_exact}

abbrev pub is_upper : ℕ → Bool
is_upper c = leb b'A' c && leb c b'Z'

abbrev pub is_lower_letter : ℕ → Bool
is_lower_letter c = leb b'a' c && leb c b'z'

-- No letter is a capital.
abbrev pub is_lower : Text → Bool
is_lower = every (λ c. not (is_upper c))

abbrev pub is_scheme_char : ℕ → Bool
is_scheme_char c =
    is_lower_letter c || (leb b'0' c && leb c b'9') || c == b'+' || c == b'.' || c == b'-'

-- None of the characters is in the text.
abbrev pub free_of : Text → Text → Bool
free_of chars = every (λ c. not (some_of (λ d. c == d) chars))

-- A text that is a lower-case scheme with `://`, and what follows.
pub record IsScheme (text rest : Text) : Type 0 where
  pub letter : ℕ
  pub others : Text
  pub written : text ≡ letter ∷ (others ++ (codes "://" ++ rest))
  pub letter_lower : is_lower_letter letter ≡ true
  pub others_chars : every is_scheme_char others ≡ true

-- A lower-case `scheme://host`, the host with any port.
pub record IsOrigin (o : Text) : Type 0 where
  pub host : Text
  pub scheme : IsScheme o host
  pub host_some : ¬ (host ≡ [])
  pub host_chars : free_of (codes "/?# ") host ≡ true
  pub host_lower : is_lower host ≡ true

-- A lower-case scheme with `://` in front of the star; behind it a dot, a label, a dot and more.
pub record IsWildcard (p : OriginPattern) : Type 0 where
  pub label : Text
  pub rest : Text
  pub scheme : IsScheme p.prefix []
  pub suffix_eq : p.suffix ≡ b'.' ∷ (label ++ b'.' ∷ rest)
  pub label_some : ¬ (label ≡ [])
  pub label_chars : free_of (codes "/?#*.: ") label ≡ true
  pub rest_some : ¬ (rest ≡ [])
  pub rest_chars : free_of (codes "/?#* ") rest ≡ true
  pub suffix_lower : is_lower p.suffix ≡ true

abbrev pub AllOrigins : List Text → Type 0
AllOrigins [] = Unit {0}
AllOrigins (o ∷ os) = IsOrigin o × AllOrigins os

abbrev pub AllWildcards : List OriginPattern → Type 0
AllWildcards [] = Unit {0}
AllWildcards (p ∷ ps) = IsWildcard p × AllWildcards ps

abbrev pub OriginsExact : Option (List Text) → Type 0
OriginsExact none = Unit {0}
OriginsExact (some os) = AllOrigins os

abbrev pub PatternsBounded : Option (List OriginPattern) → Type 0
PatternsBounded none = Unit {0}
PatternsBounded (some ps) = AllWildcards ps
