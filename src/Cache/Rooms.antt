-- ===== src/Cache/Rooms.antt =====
-- src/stream.js: dropping the responses of a room.
use yhub.Base.{
  true, not, ◌&&◌, none, some, is_some, List, [], ◌∷◌, ◌++◌, Text, codes, text_eq, eq_of_text_eq,
  strip_prefix, strip_prefix-append, append-nil, if◌then◌else◌, keep, every, ◌≡◌, refl, arith, sym,
  ap, ◌∙◌, Bool-ext, Bool-cases, Option-cases, inl, inr, append_assoc, every-append, every_imp,
  is_digit, ℕ, Bool, ◌==◌,
}
use mathlib.Core.Option.{some-injective}
use yhub.Room.{Room, IsEncodable, room_eq, room_eq_iff}
use yhub.Naming.{cache_prefix}
use yhub.Naming.Streams.{Components, components}
use yhub.Uri.Alphabet.{is_key_char, is_key_char-safe}
use yhub.Uri.{uri_encode, is_plain}
use yhub.Cache.{Responses, get, Globs, is_literal, encode_args, cache_key, delete_cached_responses}

abbrev pub has_prefix : Text → Text → Bool
has_prefix p key = is_some (strip_prefix p key)

is_key_char-literal : (c : ℕ) → is_key_char c ≡ true → is_literal c ≡ true
unfolding is_key_char is_plain is_digit
is_key_char-literal c h = ground (arith, h)

literal-append :
    (s t : Text)
    → every is_literal s ≡ true
    → every is_literal t ≡ true
    → every is_literal (s ++ t) ≡ true
literal-append s t h k = rw (every-append is_literal s t, h, k) refl

literal-head :
    (c : ℕ) (p : Text)
    → every is_literal (c ∷ p) ≡ true
    → (is_literal c ≡ true) × (every is_literal p ≡ true)
literal-head c p h = (ground (arith, h), ground (arith, h))

module _ (globs : Globs) where
  -- A pattern without special characters but the star at its end is a prefix.
  literal-prefix :
      (p key : Text)
      → every is_literal p ≡ true
      → globs.matches (p ++ b'*' ∷ []) key ≡ has_prefix p key
  unfolding strip_prefix
  literal-prefix [] key h = globs.matches_star key
  literal-prefix (c ∷ p) [] h = globs.matches_literal_end c _ (literal-head c p h).0
  literal-prefix (c ∷ p) (d ∷ key) h =
      let (a, b) = literal-head c p h in
      globs.matches_literal c d _ key a
      ∙ ap (λ x. c == d && x) (literal-prefix p key b)
      ∙ ground arith

-- A component, its separator and more, in front of another such text.
component-prefix :
    (s t p q : Text)
    → every is_key_char s ≡ true
    → every is_key_char t ≡ true
    → has_prefix (s ++ b':' ∷ p) (t ++ b':' ∷ q) ≡ (text_eq s t && has_prefix p q)
unfolding strip_prefix text_eq
component-prefix [] [] p q h k = ground arith
component-prefix [] (d ∷ t) p q h k = ground (arith, k, is_key_char-safe d)
component-prefix (c ∷ s) [] p q h k = ground (arith, h, is_key_char-safe c)
component-prefix (c ∷ s) (d ∷ t) p q h k = ground (arith, h, k, component-prefix s t p q)

-- A prefix that both share.
shared-prefix : (s p q : Text) → has_prefix (s ++ p) (s ++ q) ≡ has_prefix p q
unfolding strip_prefix
shared-prefix [] p q = refl
shared-prefix (c ∷ s) p q = ground (arith, shared-prefix s p q)

get-keep :
    (key : Text) (q : Text → Bool) (cache : Responses)
    → get key (keep (λ e. not (q e.0)) cache) ≡ (if q key then none else get key cache)
unfolding get
get-keep key q [] = elim (Bool-cases (q key)) [ inl e ↦ simp (e) refl | inr e ↦ simp (e) refl ]
get-keep key q ((k, response) ∷ cache) = elim (Bool-cases (text_eq k key)) [
  | inl e ↦ ground (arith, e, ap q (eq_of_text_eq k key e), get-keep key q cache)
  | inr e ↦ ground (arith, e, get-keep key q cache)
]

-- The text of a key, from its components on.
key_text : Text → Text → Text → Text → Text → Text
key_text prefix o d b rest =
    prefix ++ (codes ":cache:" ++ (o ++ b':' ∷ (d ++ b':' ∷ (b ++ b':' ∷ rest))))

key_text-append :
    (prefix o d b rest : Text)
    → (prefix ++ codes ":cache:" ++ (o ++ b':' ∷ (d ++ b':' ∷ b)) ++ b':' ∷ []) ++ rest
      ≡ key_text prefix o d b rest
unfolding key_text
key_text-append prefix o d b rest = simp (append_assoc) refl

module _ (a b : Room) (prefix : Text) (ca : Components a) (cb : Components b) where
  prefix_of :
      (room : Room) (c : Components room) (p : Text)
      → cache_prefix room prefix ≡ some p
      → p
        ≡ (prefix ++ codes ":cache:" ++ (c.org ++ b':' ∷ (c.docid ++ b':' ∷ c.branch)) ++ b':' ∷ [])
  unfolding cache_prefix
  prefix_of room c p e = some-injective _ _ (sym (simp (cache_prefix, c.encodes) at e))

  -- The prefix of a room has only literal characters where the prefix of redis has.
  prefix-literal :
      (room : Room) (c : Components room) (p : Text)
      → every is_literal prefix ≡ true
      → cache_prefix room prefix ≡ some p
      → every is_literal p ≡ true
  prefix-literal room c p l e =
      let key = every_imp is_key_char is_literal is_key_char-literal in
      let named =
        literal-append c.org (b':' ∷ (c.docid ++ b':' ∷ c.branch)) (key c.org c.org_chars) (
          literal-append c.docid (b':' ∷ c.branch) (key c.docid c.docid_chars)
            (key c.branch c.branch_chars)) in
      ap (every is_literal) (prefix_of room c p e)
      ∙ literal-append (prefix ++ codes ":cache:" ++ (c.org ++ b':' ∷ (c.docid ++ b':' ∷ c.branch)))
          (b':' ∷ [])
          (literal-append (prefix ++ codes ":cache:") (c.org ++ b':' ∷ (c.docid ++ b':' ∷ c.branch))
            (literal-append prefix (codes ":cache:") l refl) named)
          refl

  -- The components that both keys have in front.
  prefix-components :
      (rest : Text)
      → has_prefix
          (key_text prefix ca.org ca.docid ca.branch [])
          (key_text prefix cb.org cb.docid cb.branch rest)
        ≡ (text_eq ca.org cb.org && (text_eq ca.docid cb.docid && text_eq ca.branch cb.branch))
  unfolding key_text strip_prefix
  prefix-components rest =
      let a2 = ca.branch ++ b':' ∷ [] in
      let b2 = cb.branch ++ b':' ∷ rest in
      let a1 = ca.docid ++ b':' ∷ a2 in
      let b1 = cb.docid ++ b':' ∷ b2 in
      shared-prefix prefix (codes ":cache:" ++ (ca.org ++ b':' ∷ a1))
        (codes ":cache:" ++ (cb.org ++ b':' ∷ b1))
      ∙ shared-prefix (codes ":cache:") (ca.org ++ b':' ∷ a1) (cb.org ++ b':' ∷ b1)
      ∙ component-prefix ca.org cb.org a1 b1 ca.org_chars cb.org_chars
      ∙ ap (λ x. text_eq ca.org cb.org && x)
          (component-prefix ca.docid cb.docid a2 b2 ca.docid_chars cb.docid_chars
            ∙ ap (λ x. text_eq ca.docid cb.docid && x)
                (component-prefix ca.branch cb.branch [] rest ca.branch_chars cb.branch_chars
                  ∙ ground arith))

  components-eq :
      (text_eq ca.org cb.org && (text_eq ca.docid cb.docid && text_eq ca.branch cb.branch)) ≡ true
      → a ≡ b
  components-eq h = ground (
    arith,
    h,
    ca.decodes,
    cb.decodes,
    eq_of_text_eq ca.org cb.org,
    eq_of_text_eq ca.docid cb.docid,
    eq_of_text_eq ca.branch cb.branch,
  )

  -- A key of `b` begins with the prefix of `a` just where they are one room.
  prefix-room :
      (p q rest : Text)
      → cache_prefix a prefix ≡ some p
      → cache_prefix b prefix ≡ some q
      → has_prefix p (q ++ rest) ≡ room_eq a b
  prefix-room p q rest ea eb =
      let pa =
        prefix_of a ca p ea
        ∙ sym (append-nil _)
        ∙ key_text-append prefix ca.org ca.docid ca.branch [] in
      let qb =
        ap (λ x. x ++ rest) (prefix_of b cb q eb)
        ∙ key_text-append prefix cb.org cb.docid cb.branch rest in
      Bool-ext (has_prefix p (q ++ rest)) (room_eq a b)
        (λ h. (room_eq_iff a b).1 (
          components-eq (
            sym (prefix-components rest)
            ∙ ap (λ x. has_prefix x (key_text prefix cb.org cb.docid cb.branch rest)) (sym pa)
            ∙ ap (has_prefix p) (sym qb)
            ∙ h)))
        (λ h.
          let pq =
            some-injective p q
              (sym ea ∙ ap (λ r. cache_prefix r prefix) ((room_eq_iff a b).0 h) ∙ eb) in
          ap (λ x. has_prefix x (q ++ rest)) pq ∙ ap is_some (strip_prefix-append q rest))

-- A key begins with the prefix of its room.
key-prefix :
    (room : Room) (prefix endpoint : Text) (args : List Text) (key : Text)
    → cache_key room prefix endpoint args ≡ some key
    → (q : Text) × (rest : Text) × (cache_prefix room prefix ≡ some q) × (key ≡ q ++ rest)
unfolding cache_key
key-prefix room prefix endpoint args key e = elim (Option-cases (cache_prefix room prefix)) [
  | inl n ↦ ground (arith, e, n)
  | inr (q, n) ↦ elim (Option-cases (uri_encode endpoint)) [
    | inl u ↦ ground (arith, e, n, u)
    | inr (t, u) ↦ elim (Option-cases (encode_args args)) [
      | inl v ↦ ground (arith, e, n, u, v)
      | inr (as', v) ↦ (q, t ++ b':' ∷ as', n, ground (arith, e, n, u, v))
    ]
  ]
]

-- Dropping the responses of a room drops every response under a key of this room, whatever the
-- endpoint and its arguments, and leaves what is under a key of any other room as it is, where the
-- names of both rooms have no lone surrogates and the prefix that redis is configured with has no
-- special characters of redis' patterns. SCAN is taken to find the keys that match its pattern, in
-- which other characters stand for themselves and a star at the end for any text.
pub delete_cached_responses-get :
    (globs : Globs) (a b : Room) (prefix endpoint : Text) (args : List Text)
    (cache left : Responses) (key : Text)
    → every is_literal prefix ≡ true
    → IsEncodable a
    → IsEncodable b
    → delete_cached_responses globs a prefix cache ≡ some left
    → cache_key b prefix endpoint args ≡ some key
    → get key left ≡ (if room_eq a b then none else get key cache)
unfolding delete_cached_responses
delete_cached_responses-get globs a b prefix endpoint args cache left key l ha hb d k =
    let (q, rest, eb, kq) = key-prefix b prefix endpoint args key k in
    let ca = components a ha in
    let cb = components b hb in
    elim (Option-cases (cache_prefix a prefix)) [
      | inl n ↦ ground (arith, d, n)
      | inr (p, ea) ↦
          let kept = some-injective _ _ (sym (simp (delete_cached_responses, ea) at d)) in
          let found = globs.matches (p ++ b'*' ∷ []) in
          let same =
            literal-prefix globs p key (prefix-literal a b prefix ca cb a ca p l ea)
            ∙ ap (has_prefix p) kq
            ∙ prefix-room a b prefix ca cb p q rest ea eb in
          ap (get key) kept
          ∙ get-keep key found cache
          ∙ ap (λ x. if x then none else get key cache) same
    ]
