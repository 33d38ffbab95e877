-- ===== src/Cors/Sound.antt =====
-- src/cors.js: what a configuration that was resolved is known to be.
use yhub.Base.{
  true, false, not, Option, none, some, is_some, List, [], ◌∷◌, codes, ◌≡◌, refl, arith, Bool-cases,
  Option-cases, inl, inr,
}
use yhub.Cors.{OriginPattern, ResolvedCors}
use yhub.Cors.Config.{
  Config, EndpointCors, absent, null_cors, not_object, fields, Resolution, throws, disabled,
  resolved, Allowlist, origin_list, some_patterns, resolved_cors, is_cors, conflicts, is_star,
  get_field, is_empty, own_fields, merge_fields, resolve_config, resolve_cors,
}
use yhub.Cors.Shape.{AllWildcards, PatternsBounded, OriginsExact}
use yhub.Cors.Shape.Entries.{is_exact-AllOrigins, AllBounded-AllWildcards}
use yhub.Cors.Allowlist.{IsAllowlist, AllowlistIf, add_origins-AllowlistIf}

-- A configuration that a browser takes, with origins that it can send.
pub record IsSound (c : ResolvedCors) : Type 0 where
  pub no_star_credentials : c.origin_all ≡ true → c.credentials ≡ false
  pub exact : OriginsExact c.origins
  pub bounded : PatternsBounded c.origin_patterns
  pub listed : is_some c.origins ≡ not c.origin_all

abbrev pub SoundIf : Resolution → Type 0
SoundIf throws = Unit {0}
SoundIf disabled = Unit {0}
SoundIf (resolved c) = IsSound c

some_patterns-PatternsBounded :
    (ps : List OriginPattern) → AllWildcards ps → PatternsBounded (some_patterns ps)
some_patterns-PatternsBounded [] h = tt
some_patterns-PatternsBounded (p ∷ ps) h = h

star-IsSound :
    (cors : Config)
    → conflicts cors ≡ false
    → is_star (get_field (codes "origin") cors) ≡ true
    → IsSound (resolved_cors cors true none)
unfolding conflicts resolved_cors
star-IsSound cors c e = record {
  no_star_credentials = λ h. ground (arith, c, e);
  exact = tt;
  bounded = tt;
  listed = refl;
}

list-IsSound :
    (cors : Config) (l : Allowlist) → IsAllowlist l → IsSound (resolved_cors cors false (some l))
unfolding resolved_cors
list-IsSound cors l h = record {
  no_star_credentials = λ e. cc;
  exact = is_exact-AllOrigins l.exact h.exact;
  bounded =
      some_patterns-PatternsBounded l.patterns (AllBounded-AllWildcards l.patterns h.patterns);
  listed = refl;
}

list-SoundIf :
    (cors : Config) (l : Option Allowlist)
    → AllowlistIf l
    → SoundIf
        (elim l [ none ↦ throws | some list ↦ resolved (resolved_cors cors false (some list)) ])
list-SoundIf cors none h = tt
list-SoundIf cors (some l) h = list-IsSound cors l h

resolve_config-SoundIf : (cors : Config) → SoundIf (resolve_config cors)
unfolding resolve_config
resolve_config-SoundIf cors = elim (Bool-cases (is_cors cors)) [
  | inr e ↦ simp (e) tt
  | inl e ↦ elim (Bool-cases (conflicts cors)) [
    | inl c ↦ simp (e, c) tt
    | inr c ↦ elim (Bool-cases (is_star (get_field (codes "origin") cors))) [
      | inl k ↦ simp (e) (simp (c) (simp (k) (star-IsSound cors c k)))
      | inr k ↦ elim (Bool-cases (is_empty (origin_list (get_field (codes "origin") cors)))) [
        | inl m ↦ simp (e) (simp (c) (simp (k, m) tt))
        | inr m ↦ simp (e) (
            simp (c) (
              simp (k, m)
                (list-SoundIf cors _ (
                  add_origins-AllowlistIf (origin_list (get_field (codes "origin") cors)) _
                    (record { exact = refl; patterns = tt })))))
      ]
    ]
  ]
]

-- Whatever the configurations of the server and of the endpoint are: a configuration that they
-- resolve to never combines `*` with credentials; it lists origins just where it does not allow all of
-- them; each origin in its list is a lower-case `scheme://host` whose host is not empty and has no
-- slash, question mark, hash or space; and each wildcard has a lower-case scheme with `://` in front of
-- the star and nothing else, and behind it a dot, a label that is not empty and has no dot, colon or
-- star, a second dot, and at least one more character, also without capitals, slashes, question marks,
-- hashes, stars and spaces.
pub resolve_cors-SoundIf :
    (server : Option Config) (endpoint : EndpointCors) → SoundIf (resolve_cors server endpoint)
unfolding resolve_cors
resolve_cors-SoundIf server null_cors = tt
resolve_cors-SoundIf server not_object = tt
resolve_cors-SoundIf none absent = tt
resolve_cors-SoundIf (some cors) absent = resolve_config-SoundIf cors
resolve_cors-SoundIf server (fields overrides) =
    elim (Option-cases (merge_fields (own_fields server) overrides)) [
      | inl e ↦ simp (resolve_cors, e) tt
      | inr (cors, e) ↦ simp (resolve_cors, e) (resolve_config-SoundIf cors)
    ]
