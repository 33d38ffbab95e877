-- ===== src/Cors/Allowlist.antt =====
-- src/cors.js: what the loop over an allowlist keeps.
use yhub.Base.{
  true, ◌||◌, Option, none, some, List, [], ◌∷◌, ◌++◌, Text, codes, if◌then◌else◌, every, some_of,
  text_eq, text_eq_refl, ◌≡◌, arith, sym, ◌∙◌, subst, Bool-cases, Option-cases, inl, inr,
  every-append,
}
use mathlib.Core.Option.{some-injective}
use yhub.Cors.{OriginPattern, to_lower_case}
use yhub.Cors.Lower.{is_plain_origin-lower, to_lower_case-to_lower_case}
use yhub.Cors.Config.{
  is_plain_origin, is_wildcard_origin, has_default_port, split_star, Allowlist, add_text,
  add_origin, add_origins,
}
use yhub.Cors.Bounded.{IsBounded, AllBounded, is_exact, split_star-wildcard, lowered-IsBounded}

AllBounded-append :
    (ps qs : List OriginPattern) → AllBounded ps → AllBounded qs → AllBounded (ps ++ qs)
AllBounded-append [] qs h k = k
AllBounded-append (p ∷ ps) qs (a, h) k = (a, AllBounded-append ps qs h k)

-- An allowlist of entries that are in order.
pub record IsAllowlist (l : Allowlist) : Type 0 where
  pub exact : every is_exact l.exact ≡ true
  pub patterns : AllBounded l.patterns

abbrev pub AllowlistIf : Option Allowlist → Type 0
AllowlistIf none = Unit {0}
AllowlistIf (some l) = IsAllowlist l

lower-is_exact : (o : Text) → is_plain_origin o ≡ true → is_exact (to_lower_case o) ≡ true
lower-is_exact o h =
    simp (is_plain_origin-lower o, h, to_lower_case-to_lower_case o)
      (text_eq_refl (to_lower_case o))

add_text-exact :
    (o : Text) (os : List Text)
    → is_plain_origin o ≡ true
    → every is_exact os ≡ true
    → every is_exact (add_text (to_lower_case o) os) ≡ true
add_text-exact o os h k = elim (Bool-cases (some_of (text_eq (to_lower_case o)) os)) [
  | inl e ↦ simp (e) k
  | inr e ↦
      simp (e)
        (ground (arith, every-append is_exact os (to_lower_case o ∷ []), lower-is_exact o h, k))
]

add_plain-AllowlistIf :
    (o : Text) (l : Allowlist)
    → IsAllowlist l
    → AllowlistIf (
        if is_plain_origin o
        then some (record l { exact = add_text (to_lower_case o) l.exact })
        else none)
add_plain-AllowlistIf o l h = elim (Bool-cases (is_plain_origin o)) [
  | inl e ↦ simp (e) (record { exact = add_text-exact o l.exact e h.exact; patterns = h.patterns })
  | inr e ↦ simp (e) tt
]

add_wildcard-AllowlistIf :
    (o front end : Text) (l : Allowlist)
    → split_star o ≡ some (front, end)
    → IsAllowlist l
    → AllowlistIf (
        if is_wildcard_origin o
        then some (record l {
          patterns =
              l.patterns
              ++ record { prefix = to_lower_case front; suffix = to_lower_case end } ∷ [];
        })
        else none)
add_wildcard-AllowlistIf o front end l s h = elim (Bool-cases (is_wildcard_origin o)) [
  | inl e ↦
      let (f, d, k, a, b) = split_star-wildcard o e in
      let same = some-injective _ _ (sym s ∙ k) in
      simp (e) (record {
        exact = h.exact;
        patterns = AllBounded-append l.patterns _ h.patterns (
          subst
              (λ (x : Text × Text).
                IsBounded (record { prefix = to_lower_case x.0; suffix = to_lower_case x.1 }))
              (sym same) (lowered-IsBounded f d a b),
          tt,
        );
      })
  | inr e ↦ simp (e) tt
]

add_origin-AllowlistIf : (o : Text) (l : Allowlist) → IsAllowlist l → AllowlistIf (add_origin o l)
unfolding add_origin
add_origin-AllowlistIf o l h =
    elim (Bool-cases (text_eq o (codes "null") || text_eq o [] || text_eq o (codes "*"))) [
      | inl e ↦ simp (e) tt
      | inr e ↦ elim (Bool-cases (has_default_port o)) [
        | inl d ↦ simp (e, d) tt
        | inr d ↦ elim (Option-cases (split_star o)) [
          | inl k ↦ simp (e, d, k) (add_plain-AllowlistIf o l h)
          | inr ((front, end), k) ↦ simp (e, d, k) (add_wildcard-AllowlistIf o front end l k h)
        ]
      ]
    ]

pub add_origins-AllowlistIf :
    (os : List Text) (l : Allowlist) → IsAllowlist l → AllowlistIf (add_origins os l)
unfolding add_origins
add_origins-AllowlistIf [] l h = h
add_origins-AllowlistIf (o ∷ os) l h = elim (Option-cases (add_origin o l)) [
  | inl e ↦ simp (add_origins, e) tt
  | inr (l', e) ↦
      simp (add_origins, e)
        (add_origins-AllowlistIf os l' (subst AllowlistIf e (add_origin-AllowlistIf o l h)))
]
