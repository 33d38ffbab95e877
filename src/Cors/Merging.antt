-- ===== src/Cors/Merging.antt =====
-- src/cors.js: what an endpoint's configuration takes from the server's.
use yhub.Base.{
  Bool, true, false, not, ◌&&◌, ◌||◌, Option, none, some, [], ◌∷◌, Text, if◌then◌else◌, every,
  text_eq, text_eq_refl, eq_of_text_eq, ◌≡◌, refl, arith, sym, ap, ◌∙◌, subst, Bool-cases,
  Option-cases, inl, inr,
}
use mathlib.Core.Option.{some-injective}
use yhub.Cors.Config.{
  is_cors, Config, EndpointCors, absent, null_cors, not_object, Value, undefined, fields, throws,
  is_known, get_field, set_field, is_undefined, merge_fields, own_fields, resolve_config,
  resolve_cors,
}

abbrev pub has_name : Text → Config → Bool
has_name name [] = false
has_name name ((n, value) ∷ cors) = text_eq name n || has_name name cors

-- The own fields of an object have different names.
abbrev pub is_object : Config → Bool
is_object [] = true
is_object ((n, value) ∷ cors) = not (has_name n cors) && is_object cors

get_field-none :
    (name : Text) (cors : Config) → has_name name cors ≡ false → get_field name cors ≡ undefined
unfolding get_field
get_field-none name [] h = refl
get_field-none name ((n, value) ∷ cors) h = ground (arith, h, get_field-none name cors)

get_field-set_field :
    (f n : Text) (value : Value) (cors : Config)
    → get_field f (set_field n value cors) ≡ (if text_eq f n then value else get_field f cors)
unfolding get_field set_field
get_field-set_field f n value [] = refl
get_field-set_field f n value ((m, old) ∷ cors) = elim (Bool-cases (text_eq n m)) [
  | inl e ↦ simp (eq_of_text_eq n m e, text_eq_refl m) (ground arith)
  | inr e ↦ elim (Bool-cases (text_eq f n)) [
    | inl k ↦ ground (
      arith,
      e,
      k,
      get_field-set_field f n value cors,
      ap (λ x. text_eq x m) (eq_of_text_eq f n k),
    )
    | inr k ↦ ground (arith, e, k, get_field-set_field f n value cors)
  ]
]

-- What an override gives in place of an inherited value.
abbrev pub over : Value → Value → Value
over override inherited = if is_undefined override then inherited else override

over-undefined :
    (override inherited : Value) → override ≡ undefined → over override inherited ≡ inherited
over-undefined override inherited e = simp (e) refl

absent_later :
    (name n : Text) (value : Value) (overrides : Config)
    → text_eq name n ≡ true
    → is_object ((n, value) ∷ overrides) ≡ true
    → get_field name overrides ≡ undefined
absent_later name n value overrides t h =
    get_field-none name overrides
      (ap (λ x. has_name x overrides) (eq_of_text_eq name n t) ∙ ground (arith, h))

-- A field of the merged configuration is the endpoint's where it is set and not `undefined`, and the
-- server's otherwise, if the endpoint's object has each name once and the merge does not throw.
pub merge_fields-some :
    (name : Text) (server overrides cors : Config)
    → is_object overrides ≡ true
    → merge_fields server overrides ≡ some cors
    → get_field name cors ≡ over (get_field name overrides) (get_field name server)
unfolding merge_fields get_field
merge_fields-some name server [] cors h e = ap (get_field name) (sym (some-injective _ _ e))
merge_fields-some name server ((n, value) ∷ overrides) cors h e =
    elim (Bool-cases (is_known (n, value))) [
      | inr k ↦ ground (arith, e, k)
      | inl k ↦ elim (Bool-cases (is_undefined value)) [
        | inl u ↦
            let ih =
              merge_fields-some name server overrides cors (ground (arith, h))
                (ground (arith, e, k, u)) in
            elim (Bool-cases (text_eq name n)) [
              | inl t ↦
                  let gone = absent_later name n value overrides t h in
                  simp (t) (ih ∙ over-undefined _ _ gone ∙ ground (arith, u))
              | inr t ↦ simp (t) ih
            ]
        | inr u ↦
            let ih =
              merge_fields-some name (set_field n value server) overrides cors (ground (arith, h))
                (ground (arith, e, k, u)) in
            let set = get_field-set_field name n value server in
            elim (Bool-cases (text_eq name n)) [
              | inl t ↦
                  let gone = absent_later name n value overrides t h in
                  simp (t) (ih ∙ over-undefined _ _ gone ∙ ground (arith, u, t, set))
              | inr t ↦
                  simp (t) (ih ∙ ap (over (get_field name overrides)) (ground (arith, t, set)))
            ]
      ]
    ]

is_known-name : (n m : Text) (v w : Value) → text_eq n m ≡ true → is_known (n, v) ≡ is_known (m, w)
unfolding is_known
is_known-name n m v w e = ap (λ x. is_known (x, v)) (eq_of_text_eq n m e)

set_field-known :
    (n : Text) (value : Value) (cors : Config)
    → is_known (n, value) ≡ true
    → every is_known (set_field n value cors) ≡ every is_known cors
unfolding set_field
set_field-known n value [] h = ground (arith, h)
set_field-known n value ((m, old) ∷ cors) h = elim (Bool-cases (text_eq n m)) [
  | inl e ↦
      simp (e) (ap (λ b. b && every is_known cors) (is_known-name m m value old (text_eq_refl m)))
  | inr e ↦ simp (e) (ap (λ b. is_known (m, old) && b) (set_field-known n value cors h))
]

-- The fields of the merged configuration are known just where those of both objects are.
abbrev KnownIf : Bool → Option Config → Type 0
KnownIf known none = known ≡ false
KnownIf known (some cors) = every is_known cors ≡ known

merge_fields-KnownIf :
    (server overrides : Config)
    → KnownIf (every is_known overrides && every is_known server) (merge_fields server overrides)
unfolding merge_fields
merge_fields-KnownIf server [] = refl
merge_fields-KnownIf server ((n, value) ∷ overrides) = elim (Bool-cases (is_known (n, value))) [
  | inr k ↦ simp (merge_fields, k) refl
  | inl k ↦ elim (Bool-cases (is_undefined value)) [
    | inl u ↦ simp (merge_fields, k, u) (merge_fields-KnownIf server overrides)
    | inr u ↦
        simp (merge_fields, k, u)
          (subst
            (λ b.
              KnownIf (every is_known overrides && b)
                (merge_fields (set_field n value server) overrides))
            (set_field-known n value server k)
            (merge_fields-KnownIf (set_field n value server) overrides))
  ]
]

resolve_config-unknown :
    (cors : Config) → every is_known cors ≡ false → resolve_config cors ≡ throws
unfolding resolve_config is_cors
resolve_config-unknown cors h = simp (resolve_config, is_cors, h) refl

fields-unknown :
    (server : Option Config) (overrides : Config)
    → (every is_known overrides && every is_known (own_fields server)) ≡ false
    → resolve_cors server (fields overrides) ≡ throws
unfolding resolve_cors
fields-unknown server overrides h =
    let known = merge_fields-KnownIf (own_fields server) overrides in
    elim (Option-cases (merge_fields (own_fields server) overrides)) [
      | inl e ↦ simp (resolve_cors, e) refl
      | inr (cors, e) ↦
          simp (resolve_cors, e)
            (resolve_config-unknown cors (
              subst (KnownIf (every is_known overrides && every is_known (own_fields server))) e
                known
              ∙ h))
    ]

-- The fields that an endpoint gives itself.
abbrev pub given_fields : EndpointCors → Config
given_fields (fields overrides) = overrides
given_fields _ = []

-- An endpoint that gives an object, or nothing.
abbrev pub inherits : EndpointCors → Bool
inherits (fields overrides) = true
inherits absent = true
inherits _ = false

-- A field that is not one of a configuration is refused, whether the server's object or the endpoint's
-- has it, where the endpoint gives an object or has no configuration of its own. An endpoint whose
-- configuration is null, or is not an object, is left out.
pub resolve_cors-unknown :
    (server : Option Config) (endpoint : EndpointCors)
    → inherits endpoint ≡ true
    → (every is_known (given_fields endpoint) && every is_known (own_fields server)) ≡ false
    → resolve_cors server endpoint ≡ throws
unfolding resolve_cors
resolve_cors-unknown server (fields overrides) i h = fields-unknown server overrides h
resolve_cors-unknown none absent i h = cc
resolve_cors-unknown (some cors) absent i h = resolve_config-unknown cors h
resolve_cors-unknown server null_cors i h = cc
resolve_cors-unknown server not_object i h = cc
