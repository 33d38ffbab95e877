-- ===== src/Cors/Shape/Entries.antt =====
-- src/cors.js: the entries of an allowlist have their shape.
use yhub.Base.{
  ℕ, Bool, true, false, not, some, List, [], ◌∷◌, ◌++◌, Text, codes, every, some_of, text_eq,
  eq_of_text_eq, ◌==◌, strip_prefix-eq_some, is_digit, ◌≡◌, refl, arith, sym, ap, ◌∙◌, subst,
  Bool-cases, Option-cases, inl, inr, every-append, append_assoc,
}
use yhub.Cors.{OriginPattern, to_lower_case, lower_char}
use yhub.Cors.Config.{
  is_space, is_scheme, is_letter, ends_host, after_scheme_chars, host_of, is_host_char,
  is_plain_origin, is_wild_char, is_label_char, is_label_rest, is_labels,
}
use yhub.Cors.Bounded.{IsBounded, AllBounded, is_exact}
use yhub.Cors.Shape.{
  is_upper, is_lower_letter, is_lower, is_scheme_char, free_of, IsScheme, IsOrigin, IsWildcard,
  AllOrigins, AllWildcards,
}

not_upper-lower_char : (c : ℕ) → is_upper (lower_char c) ≡ false
unfolding lower_char
not_upper-lower_char c = ground arith

is_lower-to_lower_case : (s : Text) → is_lower (to_lower_case s) ≡ true
unfolding to_lower_case
is_lower-to_lower_case [] = refl
is_lower-to_lower_case (c ∷ s) = simp (not_upper-lower_char c) (is_lower-to_lower_case s)

lowered-is_lower : (s : Text) → to_lower_case s ≡ s → is_lower s ≡ true
lowered-is_lower s h = subst (λ t. is_lower t ≡ true) h (is_lower-to_lower_case s)

is_letter-lower : (c : ℕ) → is_letter c ≡ true → is_upper c ≡ false → is_lower_letter c ≡ true
unfolding is_letter
is_letter-lower c h k = ground (arith, h, k)

is_scheme-lower : (c : ℕ) → is_scheme c ≡ true → is_upper c ≡ false → is_scheme_char c ≡ true
unfolding is_scheme is_letter is_digit
is_scheme-lower c h k = ground (arith, h, k)

-- The characters of a scheme in front of `://`.
after_scheme_chars-split :
    (s rest : Text)
    → after_scheme_chars s ≡ some rest
    → is_lower s ≡ true
    → (others : Text) × (s ≡ others ++ (codes "://" ++ rest)) × (every is_scheme_char others ≡ true)
unfolding after_scheme_chars
after_scheme_chars-split [] rest h l = cc
after_scheme_chars-split (c ∷ s) rest h l = elim (Bool-cases (is_scheme c)) [
  | inr e ↦ ([], strip_prefix-eq_some (codes "://") (c ∷ s) rest (ground (arith, h, e)), refl)
  | inl e ↦
      let (others, k, a) =
        after_scheme_chars-split s rest (ground (arith, h, e)) (ground (arith, l)) in
      (c ∷ others, ap (λ t. c ∷ t) k, simp (is_scheme-lower c e (ground (arith, l))) a)
]

host_of-IsScheme : (s rest : Text) → host_of s ≡ some rest → is_lower s ≡ true → IsScheme s rest
unfolding host_of
host_of-IsScheme [] rest h l = cc
host_of-IsScheme (c ∷ s) rest h l = elim (Bool-cases (is_letter c)) [
  | inr e ↦ ground (arith, h, e)
  | inl e ↦
      let (others, k, a) =
        after_scheme_chars-split s rest (ground (arith, h, e)) (ground (arith, l)) in
      record {
        letter = c;
        others = others;
        written = ap (λ t. c ∷ t) k;
        letter_lower = is_letter-lower c e (ground (arith, l));
        others_chars = a;
      }
]

every-free_of :
    (p : ℕ → Bool) (chars : Text)
    → ((c : ℕ) → p c ≡ true → some_of (λ d. c == d) chars ≡ false)
    → (s : Text) → every p s ≡ true
    → free_of chars s ≡ true
every-free_of p chars f [] h = refl
every-free_of p chars f (c ∷ s) h =
    simp (f c (ground (arith, h))) (every-free_of p chars f s (ground (arith, h)))

is_host_char-free : (c : ℕ) → is_host_char c ≡ true → some_of (λ d. c == d) (codes "/?# ") ≡ false
unfolding is_host_char ends_host is_space
is_host_char-free c h = ground (arith, h)

is_wild_char-free : (c : ℕ) → is_wild_char c ≡ true → some_of (λ d. c == d) (codes "/?#* ") ≡ false
unfolding is_wild_char ends_host is_space
is_wild_char-free c h = ground (arith, h)

is_label_char-free :
    (c : ℕ) → is_label_char c ≡ true → some_of (λ d. c == d) (codes "/?#*.: ") ≡ false
unfolding is_label_char is_wild_char ends_host is_space
is_label_char-free c h = ground (arith, h)

cons-some : (c : ℕ) (s : Text) → ¬ ((c ∷ s) ≡ [])
cons-some c s h = cc

not_empty-some : (s : Text) → text_eq s [] ≡ false → ¬ (s ≡ [])
unfolding text_eq
not_empty-some [] h k = ground arith
not_empty-some (c ∷ s) h k = cc

lower-after : (s t : Text) → is_lower (s ++ t) ≡ true → is_lower t ≡ true
lower-after s t h = ground (arith, every-append (λ c. not (is_upper c)) s t, h)

-- The characters of a label, the dot behind them and the rest.
is_label_rest-split :
    (s : Text)
    → is_label_rest s ≡ true
    → (label rest : Text) × (s ≡ label ++ b'.' ∷ rest)
      × (every is_label_char label ≡ true)
      × (text_eq rest [] ≡ false)
      × (every is_wild_char rest ≡ true)
unfolding is_label_rest
is_label_rest-split [] h = cc
is_label_rest-split (c ∷ s) h = elim (Bool-cases (is_label_char c)) [
  | inl e ↦
      let (label, rest, k, a, b, d) = is_label_rest-split s (ground (arith, h, e)) in
      (c ∷ label, rest, ap (λ t. c ∷ t) k, simp (e) a, b, d)
  | inr e ↦ (
    [],
    s,
    ap (λ x. x ∷ s) (ground (arith, h, e)),
    refl,
    ground (arith, h, e),
    ground (arith, h, e),
  )
]

is_labels-parts :
    (c : ℕ) (s : Text)
    → is_labels (c ∷ s) ≡ true
    → (is_label_char c ≡ true) × (is_label_rest s ≡ true)
unfolding is_labels
is_labels-parts c s h = (ground (arith, h), ground (arith, h))

is_labels-split :
    (s : Text)
    → is_labels s ≡ true
    → (label rest : Text) × (s ≡ label ++ b'.' ∷ rest)
      × (every is_label_char label ≡ true)
      × (text_eq rest [] ≡ false)
      × (every is_wild_char rest ≡ true)
      × ¬ (label ≡ [])
unfolding is_labels
is_labels-split [] h = cc
is_labels-split (c ∷ s) h =
    let (label, rest, k, a, b, d) = is_label_rest-split s (is_labels-parts c s h).1 in
    (
      c ∷ label,
      rest,
      ap (λ t. c ∷ t) k,
      simp ((is_labels-parts c s h).0) a,
      b,
      d,
      cons-some c label,
    )

IsBounded-IsWildcard : (p : OriginPattern) → IsBounded p → IsWildcard p
IsBounded-IsWildcard p h =
    let (s, e, k) = h.labels in
    let (label, rest, eq, a, b, d, n) = is_labels-split s k in
    record {
      label = label;
      rest = rest;
      scheme = host_of-IsScheme p.prefix [] h.scheme (lowered-is_lower p.prefix h.prefix_lower);
      suffix_eq = e ∙ ap (λ t. b'.' ∷ t) eq;
      label_some = n;
      label_chars = every-free_of is_label_char (codes "/?#*.: ") is_label_char-free label a;
      rest_some = not_empty-some rest b;
      rest_chars = every-free_of is_wild_char (codes "/?#* ") is_wild_char-free rest d;
      suffix_lower = lowered-is_lower p.suffix h.suffix_lower;
    }

is_exact-IsOrigin : (o : Text) → is_exact o ≡ true → IsOrigin o
unfolding is_plain_origin
is_exact-IsOrigin o h = elim (Option-cases (host_of o)) [
  | inl e ↦ ground (arith, h, e)
  | inr (host, e) ↦
      let low = lowered-is_lower o (eq_of_text_eq (to_lower_case o) o (ground (arith, h))) in
      let scheme = host_of-IsScheme o host e low in
      record {
        host = host;
        scheme = scheme;
        host_some = not_empty-some host (ground (arith, h, e));
        host_chars =
            every-free_of is_host_char (codes "/?# ") is_host_char-free host (ground (arith, h, e));
        host_lower = lower-after (scheme.letter ∷ (scheme.others ++ codes "://")) host (
            ap is_lower (
              ap (λ t. scheme.letter ∷ t) (append_assoc scheme.others (codes "://") host)
              ∙ sym scheme.written)
            ∙ low);
      }
]

pub is_exact-AllOrigins : (os : List Text) → every is_exact os ≡ true → AllOrigins os
is_exact-AllOrigins [] h = tt
is_exact-AllOrigins (o ∷ os) h =
    (is_exact-IsOrigin o (ground (arith, h)), is_exact-AllOrigins os (ground (arith, h)))

pub AllBounded-AllWildcards : (ps : List OriginPattern) → AllBounded ps → AllWildcards ps
AllBounded-AllWildcards [] h = tt
AllBounded-AllWildcards (p ∷ ps) (a, h) = (IsBounded-IsWildcard p a, AllBounded-AllWildcards ps h)
