-- ===== src/Cors/Lower.antt =====
-- src/cors.js: the expressions that an origin matches do not tell its case.
use yhub.Base.{
  ℕ, Bool, true, false, not, ◌&&◌, Option, none, some, [], ◌∷◌, Text, codes, leb, ◌==◌, every,
  text_eq, strip_prefix, is_digit, ◌≡◌, refl, arith, Bool-cases, Option-cases, inl, inr,
}
use yhub.Cors.{lower_char, to_lower_case}
use yhub.Cors.Config.{
  is_space, is_letter, is_scheme, ends_host, after_scheme_chars, host_of, is_host, is_host_char,
  is_plain_origin, is_wild_char, is_label_char, is_label_rest, is_labels,
}

abbrev is_upper : ℕ → Bool
is_upper c = leb 65 c && leb c 90

lower_char-letter : (c d : ℕ) → is_letter d ≡ false → (lower_char c == d) ≡ (c == d)
unfolding lower_char is_letter
lower_char-letter c d h = ground arith

is_letter-lower_char : (c : ℕ) → is_letter (lower_char c) ≡ is_letter c
unfolding lower_char is_letter
is_letter-lower_char c = ground arith

is_scheme-lower_char : (c : ℕ) → is_scheme (lower_char c) ≡ is_scheme c
unfolding lower_char is_scheme is_letter is_digit
is_scheme-lower_char c = ground arith

is_space-lower_char : (c : ℕ) → is_space (lower_char c) ≡ is_space c
unfolding lower_char is_space
is_space-lower_char c = ground arith

ends_host-lower_char : (c : ℕ) → ends_host (lower_char c) ≡ ends_host c
unfolding lower_char ends_host
ends_host-lower_char c = ground arith

is_wild_char-lower_char : (c : ℕ) → is_wild_char (lower_char c) ≡ is_wild_char c
unfolding is_wild_char is_letter
is_wild_char-lower_char c =
    simp (ends_host-lower_char c, is_space-lower_char c, lower_char-letter c b'*' refl) refl

is_label_char-lower_char : (c : ℕ) → is_label_char (lower_char c) ≡ is_label_char c
unfolding is_label_char is_letter
is_label_char-lower_char c =
    simp (is_wild_char-lower_char c, lower_char-letter c b'.' refl, lower_char-letter c b':' refl)
      refl

every-lower :
    (p : ℕ → Bool)
    → ((c : ℕ) → p (lower_char c) ≡ p c)
    → (s : Text) → every p (to_lower_case s) ≡ every p s
unfolding to_lower_case
every-lower p f [] = refl
every-lower p f (c ∷ s) = ground (arith, f c, every-lower p f s)

lower-empty : (s : Text) → text_eq (to_lower_case s) [] ≡ text_eq s []
unfolding to_lower_case text_eq
lower-empty [] = refl
lower-empty (c ∷ s) = refl

pub is_label_rest-lower : (s : Text) → is_label_rest (to_lower_case s) ≡ is_label_rest s
unfolding to_lower_case is_label_rest is_letter
is_label_rest-lower [] = refl
is_label_rest-lower (c ∷ s) =
    simp
      (
        is_wild_char-lower_char c,
        is_label_rest-lower s,
        lower_char-letter c b'.' refl,
        lower_char-letter c b':' refl,
        lower-empty s,
        every-lower is_wild_char is_wild_char-lower_char s,
      )
      refl

pub is_labels-lower : (s : Text) → is_labels (to_lower_case s) ≡ is_labels s
unfolding to_lower_case is_labels
is_labels-lower [] = refl
is_labels-lower (c ∷ s) = simp (is_label_char-lower_char c, is_label_rest-lower s) refl

abbrev pub lowered : Option Text → Option Text
lowered none = none
lowered (some s) = some (to_lower_case s)

-- None of the prefix is a letter.
strip_prefix-lower :
    (p s : Text)
    → every (λ c. not (is_letter c)) p ≡ true
    → strip_prefix p (to_lower_case s) ≡ lowered (strip_prefix p s)
unfolding strip_prefix to_lower_case
strip_prefix-lower [] s h = refl
strip_prefix-lower (d ∷ p) [] h = refl
strip_prefix-lower (d ∷ p) (c ∷ s) h = ground (arith, lower_char-letter c d, strip_prefix-lower p s)

after_scheme_chars-lower :
    (s : Text) → after_scheme_chars (to_lower_case s) ≡ lowered (after_scheme_chars s)
unfolding after_scheme_chars to_lower_case is_letter
after_scheme_chars-lower [] = refl
after_scheme_chars-lower (c ∷ s) = elim (Bool-cases (is_scheme c)) [
  | inl e ↦ simp (is_scheme-lower_char c, e) (after_scheme_chars-lower s)
  | inr e ↦ simp (is_scheme-lower_char c, e) (strip_prefix-lower (codes "://") (c ∷ s) refl)
]

pub host_of-lower : (s : Text) → host_of (to_lower_case s) ≡ lowered (host_of s)
unfolding host_of to_lower_case
host_of-lower [] = refl
host_of-lower (c ∷ s) = elim (Bool-cases (is_letter c)) [
  | inl e ↦ simp (is_letter-lower_char c, e) (after_scheme_chars-lower s)
  | inr e ↦ simp (is_letter-lower_char c, e) refl
]

is_host_char-lower_char : (c : ℕ) → is_host_char (lower_char c) ≡ is_host_char c
unfolding is_host_char
is_host_char-lower_char c = simp (ends_host-lower_char c, is_space-lower_char c) refl

is_host-lower : (s : Text) → is_host (to_lower_case s) ≡ is_host s
is_host-lower s = simp (lower-empty s, every-lower is_host_char is_host_char-lower_char s) refl

pub is_plain_origin-lower : (s : Text) → is_plain_origin (to_lower_case s) ≡ is_plain_origin s
unfolding is_plain_origin
is_plain_origin-lower s = elim (Option-cases (host_of s)) [
  | inl e ↦ simp (is_plain_origin, host_of-lower s, e) refl
  | inr (host, e) ↦ simp (is_plain_origin, host_of-lower s, e) (is_host-lower host)
]

lower_char-lower_char : (c : ℕ) → lower_char (lower_char c) ≡ lower_char c
unfolding lower_char
lower_char-lower_char c = ground arith

pub to_lower_case-to_lower_case : (s : Text) → to_lower_case (to_lower_case s) ≡ to_lower_case s
unfolding to_lower_case
to_lower_case-to_lower_case [] = refl
to_lower_case-to_lower_case (c ∷ s) =
    ground (arith, lower_char-lower_char c, to_lower_case-to_lower_case s)
