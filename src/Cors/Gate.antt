-- ===== src/Cors/Gate.antt =====
-- src/cors.js: the gate of origins and the headers agree.
use yhub.Base.{
  Bool, true, false, not, Option, none, some, is_some, List, [], Text, codes, if◌then◌else◌,
  some_of, text_eq, ◌≡◌, refl, arith, Option-cases, Bool-cases, inl, inr, append-nil,
}
use yhub.Cors.{
  ResolvedCors, allowed_origin, write_origin, write_cors_preflight, write_cors_response,
  origin_allowed, Header, vary, skips,
}

preflight-allowed :
    (cors : ResolvedCors) (origin methods : Text)
    → (write_cors_preflight (some cors) origin methods).0 ≡ is_some (allowed_origin cors origin)
unfolding write_cors_preflight write_origin
preflight-allowed cors origin methods = elim (Option-cases (allowed_origin cors origin)) [
  | inl n ↦ rw (n, write_cors_preflight) refl
  | inr (a, e) ↦ rw (e, write_cors_preflight) refl
]

-- Whether a header is one of cors.
abbrev is_vary : Header → Bool
is_vary h = text_eq h.0 (codes "Vary")

only_vary : (b : Bool) → some_of (λ h. not (is_vary h)) (if b then [] else vary) ≡ false
unfolding text_eq
only_vary true = refl
only_vary false = refl

denied_preflight :
    (cors : ResolvedCors) (origin methods : Text)
    → allowed_origin cors origin ≡ none
    → (write_cors_preflight (some cors) origin methods).1 ≡ (if cors.origin_all then [] else vary)
unfolding write_cors_preflight write_origin
denied_preflight cors origin methods n = rw (n, write_cors_preflight) refl

denied_response :
    (cors : ResolvedCors) (origin : Text) (skip : Option (List Text))
    → allowed_origin cors origin ≡ none
    → some_of (λ h. not (is_vary h)) (write_cors_response (some cors) origin skip) ≡ false
unfolding write_cors_response write_origin
denied_response cors origin skip n =
    elim (Bool-cases (skips skip (codes "access-control-allow-origin"))) [
      | inl e ↦
          rw (e, write_cors_response)
            (rw (append-nil (if cors.origin_all then [] else vary)) (only_vary cors.origin_all))
      | inr e ↦
          rw (e, write_cors_response)
            (rw (n, write_cors_response)
              (rw (append-nil (if cors.origin_all then [] else vary)) (only_vary cors.origin_all)))
    ]

gate_open :
    (cors : ResolvedCors) (origin host site a : Text)
    → allowed_origin cors origin ≡ some a
    → origin_allowed (some cors) origin host site ≡ true
unfolding origin_allowed
gate_open cors origin host site a e = elim (Bool-cases (text_eq origin [])) [
  | inl k ↦ rw (k, origin_allowed) refl
  | inr k ↦ rw (k, origin_allowed) (rw (e, origin_allowed) refl)
]

no_cors :
    (origin methods host site : Text) (skip : Option (List Text))
    → ((write_cors_preflight none origin methods).0 ≡ true
        → origin_allowed none origin host site ≡ true)
      × ((write_cors_preflight none origin methods).0 ≡ false
          → (some_of (λ h. not (is_vary h)) (write_cors_preflight none origin methods).1 ≡ false)
            × (some_of (λ h. not (is_vary h)) (write_cors_response none origin skip) ≡ false))
unfolding write_cors_preflight write_cors_response
no_cors origin methods host site skip = (λ h. cc, λ h. (refl, only_vary false))

-- An origin whose preflight succeeds passes `originAllowed`, whatever its host and site; one whose
-- preflight fails gets no header but `Vary`, neither on the preflight nor on a response.
pub origin_allowed-preflight :
    (cors : Option ResolvedCors) (origin methods host site : Text) (skip : Option (List Text))
    → ((write_cors_preflight cors origin methods).0 ≡ true
        → origin_allowed cors origin host site ≡ true)
      × ((write_cors_preflight cors origin methods).0 ≡ false
          → (some_of (λ h. not (is_vary h)) (write_cors_preflight cors origin methods).1 ≡ false)
            × (some_of (λ h. not (is_vary h)) (write_cors_response cors origin skip) ≡ false))
origin_allowed-preflight none origin methods host site skip = no_cors origin methods host site skip
origin_allowed-preflight (some cors) origin methods host site skip =
    elim (Option-cases (allowed_origin cors origin)) [
      | inl n ↦ (
        λ h. ground (arith, preflight-allowed cors origin methods),
        λ h. (
          rw (denied_preflight cors origin methods n) (only_vary cors.origin_all),
          denied_response cors origin skip n,
        ),
      )
      | inr (a, e) ↦ (
        λ h. gate_open cors origin host site a e,
        λ h. ground (arith, preflight-allowed cors origin methods),
      )
    ]
