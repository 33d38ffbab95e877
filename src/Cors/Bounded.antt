-- ===== src/Cors/Bounded.antt =====
-- src/cors.js: what the expression for wildcards says of an entry.
use yhub.Base.{
  Bool, true, ◌&&◌, some, List, [], ◌∷◌, ◌++◌, Text, codes, text_eq, strip_prefix,
  strip_prefix-eq_some, is_digit, ◌≡◌, refl, arith, ap, ◌∙◌, Bool-cases, Option-cases, inl, inr,
}
use yhub.Cors.{OriginPattern, to_lower_case}
use yhub.Cors.Lower.{lowered, is_labels-lower, host_of-lower, to_lower_case-to_lower_case}
use yhub.Cors.Config.{
  is_scheme, is_letter, after_scheme_chars, host_of, is_plain_origin, is_wildcard_origin, is_labels,
  split_star,
}

-- What an entry with a star is tested to be, in lower case.
pub record IsBounded (p : OriginPattern) : Type 0 where
  pub scheme : host_of p.prefix ≡ some []
  pub labels : (s : Text) × (p.suffix ≡ b'.' ∷ s) × (is_labels s ≡ true)
  pub prefix_lower : to_lower_case p.prefix ≡ p.prefix
  pub suffix_lower : to_lower_case p.suffix ≡ p.suffix

abbrev pub AllBounded : List OriginPattern → Type 0
AllBounded [] = Unit {0}
AllBounded (p ∷ ps) = IsBounded p × AllBounded ps

abbrev pub is_exact : Text → Bool
is_exact o = is_plain_origin o && text_eq (to_lower_case o) o

split_star-prefixed : (t : Text) → split_star (codes "://" ++ b'*' ∷ t) ≡ some (codes "://", t)
unfolding split_star
split_star-prefixed t = refl

-- The text in front of the star where the host begins with it.
split_star-after :
    (s t : Text)
    → after_scheme_chars s ≡ some (b'*' ∷ t)
    → (front : Text) × (split_star s ≡ some (front, t)) × (after_scheme_chars front ≡ some [])
unfolding after_scheme_chars split_star is_scheme is_letter is_digit strip_prefix
split_star-after [] t h = cc
split_star-after (c ∷ s) t h = elim (Bool-cases (is_scheme c)) [
  | inl e ↦
      let (front, k, a) = split_star-after s t (ground (arith, h, e)) in
      (c ∷ front, ground (arith, k, e), ground (arith, a, e))
  | inr e ↦ (
    codes "://",
    ap split_star (strip_prefix-eq_some (codes "://") (c ∷ s) (b'*' ∷ t) (ground (arith, h, e)))
        ∙ split_star-prefixed t,
    refl,
  )
]

split_star-host :
    (s t : Text)
    → host_of s ≡ some (b'*' ∷ t)
    → (front : Text) × (split_star s ≡ some (front, t)) × (host_of front ≡ some [])
unfolding host_of split_star is_letter
split_star-host [] t h = cc
split_star-host (c ∷ s) t h = elim (Bool-cases (is_letter c)) [
  | inl e ↦
      let (front, k, a) = split_star-after s t (ground (arith, h, e)) in
      (c ∷ front, ground (arith, k, e), ground (arith, a, e))
  | inr e ↦ ground (arith, h, e)
]

-- What the expression for wildcards says of the two sides of the star.
pub split_star-wildcard :
    (s : Text)
    → is_wildcard_origin s ≡ true
    → (front end : Text) × (split_star s ≡ some (front, b'.' ∷ end))
      × (host_of front ≡ some [])
      × (is_labels end ≡ true)
unfolding is_wildcard_origin
split_star-wildcard s h = elim (Option-cases (host_of s)) [
  | inl e ↦ ground (arith, h, e)
  | inr (host, e) ↦ elim (Option-cases (strip_prefix (codes "*.") host)) [
    | inl k ↦ ground (arith, h, e, k)
    | inr (end, k) ↦
        let (front, a, b) =
          split_star-host s (b'.' ∷ end)
            (e ∙ ap some (strip_prefix-eq_some (codes "*.") host end k)) in
        (front, end, a, b, ground (arith, h, e, k))
  ]
]

pub lowered-IsBounded :
    (front end : Text)
    → host_of front ≡ some []
    → is_labels end ≡ true
    → IsBounded (record { prefix = to_lower_case front; suffix = to_lower_case (b'.' ∷ end) })
unfolding to_lower_case
lowered-IsBounded front end h k = record {
  scheme = host_of-lower front ∙ ap lowered h;
  labels = (to_lower_case end, refl, is_labels-lower end ∙ k);
  prefix_lower = to_lower_case-to_lower_case front;
  suffix_lower = to_lower_case-to_lower_case (b'.' ∷ end);
}
