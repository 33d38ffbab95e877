-- ===== src/Cors/Wildcards.antt =====
-- src/cors.js: what a wildcard entry matches.
use yhub.Base.{
  ◌+◌, ◌<◌, true, [], ◌∷◌, ◌++◌, Text, length, length-append, text_eq, text_eq_iff, text_eq_refl,
  strip_prefix, strip_prefix-append, ◌≡◌, ◌↔◌, refl, arith, Bool-cases, inl, inr, sym, ap, subst,
  ◌∙◌, append_assoc,
}
use yhub.Cors.{OriginPattern, starts_with, ends_with, matches_pattern}

-- The text in front of the end.
ends_with-front : (e s : Text) → ends_with e s ≡ true → (front : Text) × (s ≡ front ++ e)
unfolding ends_with
ends_with-front e [] h = ([], sym ((text_eq_iff e []).0 h))
ends_with-front e (c ∷ s) h = elim (Bool-cases (text_eq e (c ∷ s))) [
  | inl k ↦ ([], sym ((text_eq_iff e (c ∷ s)).0 k))
  | inr k ↦ let (front, eq) = ends_with-front e s (ground arith) in (c ∷ front, ap (λ t. c ∷ t) eq)
]

ends_with-append : (front e : Text) → ends_with e (front ++ e) ≡ true
unfolding ends_with text_eq
ends_with-append [] [] = refl
ends_with-append [] (c ∷ e) = ground (arith, text_eq_refl (c ∷ e))
ends_with-append (c ∷ front) e = ground (arith, ends_with-append front e)

-- What lies between a beginning and an end that do not meet.
between :
    (p front e : Text)
    → starts_with p (front ++ e) ≡ true
    → length p < length front
    → (mid : Text) × (0 < length mid) × (front ≡ p ++ mid)
unfolding starts_with strip_prefix
between [] front e h n = (front, n, refl)
between (c ∷ p) [] e h n = ground arith
between (c ∷ p) (d ∷ front) e h n =
    let (mid, k, eq) = between p front e (ground arith) (omega arith) in (mid, k, ground arith)

starts_with-append : (p s : Text) → starts_with p (p ++ s) ≡ true
unfolding starts_with
starts_with-append p s = rw (strip_prefix-append p s) refl

-- The three tests on an origin, taken apart.
spread :
    (p e o : Text)
    → length p + length e < length o
    → starts_with p o ≡ true
    → ends_with e o ≡ true
    → (mid : Text) × (0 < length mid) × (o ≡ p ++ (mid ++ e))
spread p e o long start end =
    let (front, eq) = ends_with-front e o end in
    let (mid, k, split) =
      between p front e (subst (λ s. starts_with p s ≡ true) eq start)
        (omega (arith, ap length eq, length-append front e)) in
    (mid, k, eq ∙ (ap (λ f. f ++ e) split ∙ append_assoc p mid e))

joined_long : (p mid e : Text) → 0 < length mid → length p + length e < length (p ++ (mid ++ e))
joined_long p mid e k = omega (arith, length-append p (mid ++ e), length-append mid e)

joined_end : (p mid e : Text) → ends_with e (p ++ (mid ++ e)) ≡ true
joined_end p mid e = rw (sym (append_assoc p mid e)) (ends_with-append (p ++ mid) e)

-- A wildcard entry matches a text exactly where the star stands for one or more characters between
-- its prefix and its suffix.
pub matches_pattern_iff :
    (o : Text) (p : OriginPattern)
    → (matches_pattern o p ≡ true)
      ↔ ((mid : Text) × (0 < length mid) × (o ≡ p.prefix ++ (mid ++ p.suffix)))
unfolding matches_pattern
matches_pattern_iff o p = (
  λ h. spread p.prefix p.suffix o (ground arith) (ground arith) (ground arith),
  λ (mid, k, eq). rw eq (
      ground (
        arith,
        joined_long p.prefix mid p.suffix k,
        starts_with-append p.prefix (mid ++ p.suffix),
        joined_end p.prefix mid p.suffix,
      )),
)
