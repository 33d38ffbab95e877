-- ===== src/Naming/Live.antt =====
-- src/stream.js: the keys that are read as room streams, told from the other keys of the prefix.
use yhub.Base.{
  ℕ, Bool, true, false, Option, some, [], ◌∷◌, ◌++◌, Text, codes, ◌==◌, is_some, text_eq,
  text_eq_iff, strip_prefix, strip_prefix-eq_some, ◌≡◌, refl, arith, ap, append_assoc, append-nil,
  Bool-cases, Option-cases, inl, inr,
}
use yhub.Naming.{
  is_dot, first_some, greedy, Groups, room_branch, room_docid, room_org, match_room, decode_groups,
  decode_room_name,
}

-- Whether a key is the stream of a room under this prefix.
abbrev pub is_room_key : Text → Text → Bool
is_room_key prefix key = is_some (decode_room_name key prefix)

-- What a group took, and what its continuation was given.
greedy_split {ℓ} :
    {B : Type ℓ} (cls : ℕ → Bool) (rest : Text → Text → Option B) (taken s : Text) (b : B)
    → greedy cls rest taken s ≡ some b
    → (xs : Text) × (ys : Text) × (s ≡ xs ++ ys) × (rest (taken ++ xs) ys ≡ some b)
unfolding greedy first_some
greedy_split cls rest taken [] b h = ([], [], refl, ground (arith, append-nil taken))
greedy_split cls rest taken (c ∷ cs) b h = elim (Bool-cases (cls c)) [
  | inr e ↦ ([], c ∷ cs, refl, ground (arith, append-nil taken))
  | inl e ↦ elim (Option-cases (greedy cls rest (taken ++ c ∷ []) cs)) [
    | inl n ↦ ([], c ∷ cs, refl, ground (arith, append-nil taken))
    | inr (b', k) ↦
        let (xs, ys, split, given) = greedy_split cls rest (taken ++ c ∷ []) cs b (ground arith) in
        (c ∷ xs, ys, rw split, rw append_assoc at given)
  ]
]

room_branch-prefix :
    (prefix org taken s : Text) (g : Groups)
    → room_branch prefix org taken s ≡ some g
    → g.0 ≡ prefix
unfolding room_branch
room_branch-prefix prefix org taken s g h = ground arith

room_docid-prefix :
    (prefix taken s : Text) (g : Groups) → room_docid prefix taken s ≡ some g → g.0 ≡ prefix
unfolding room_docid
room_docid-prefix prefix taken s g h = elim (Option-cases (strip_prefix (b':' ∷ []) s)) [
  | inl e ↦ ground arith
  | inr (r, e) ↦
      let (xs, ys, _, given) =
        greedy_split is_dot (room_branch prefix taken) [] r g (ground arith) in
      room_branch-prefix prefix taken xs ys g given
]

-- The first group of a match is followed by `:room:`.
room_org-prefix :
    (taken s : Text) (g : Groups)
    → room_org taken s ≡ some g
    → (g.0 ≡ taken) × (r : Text) × (s ≡ codes ":room:" ++ r)
unfolding room_org
room_org-prefix taken s g h = elim (Option-cases (strip_prefix (codes ":room:") s)) [
  | inl e ↦ ground arith
  | inr (r, e) ↦
      let (xs, ys, _, given) = greedy_split is_dot (room_docid taken) [] r g (ground arith) in
      (room_docid-prefix taken xs ys g given, r, strip_prefix-eq_some (codes ":room:") s r e)
]

-- A key that is read as a room has the prefix in front of `:room:`.
pub is_room_key-prefix :
    (prefix key : Text)
    → is_room_key prefix key ≡ true
    → (r : Text) × (key ≡ prefix ++ (codes ":room:" ++ r))
unfolding decode_room_name match_room decode_groups
is_room_key-prefix prefix key h = elim (Option-cases (greedy is_dot room_org [] key)) [
  | inl e ↦ ground arith
  | inr (g, e) ↦
      let (xs, ys, split, given) = greedy_split is_dot room_org [] key g e in
      let (same, r, rest) = room_org-prefix xs ys g given in
      (r, ground (arith, text_eq_iff g.0 prefix))
]

append_cancel : (p a b : Text) → p ++ a ≡ p ++ b → a ≡ b
append_cancel [] a b h = h
append_cancel (c ∷ p) a b h = append_cancel p a b (cc)

-- The character behind the separator that follows the prefix.
abbrev second : Text → ℕ
second [] = 0
second (c ∷ []) = 0
second (c ∷ d ∷ s) = d

-- Keys of one prefix whose kinds begin with different letters are different.
kinds_apart :
    (prefix a b : Text)
    → (second a == second b) ≡ false
    → text_eq (prefix ++ a) (prefix ++ b) ≡ false
kinds_apart prefix a b n = elim (Bool-cases (text_eq (prefix ++ a) (prefix ++ b))) [
  | inr e ↦ e
  | inl e ↦
      ground (
        arith,
        ap second (append_cancel prefix a b ((text_eq_iff (prefix ++ a) (prefix ++ b)).0 e)),
      )
]

-- The worker queue is no room's stream.
pub worker-not_room :
    (prefix key : Text)
    → is_room_key prefix key ≡ true
    → text_eq key (prefix ++ codes ":worker") ≡ false
worker-not_room prefix key h =
    let (r, k) = is_room_key-prefix prefix key h in
    rw k (kinds_apart prefix (codes ":room:" ++ r) (codes ":worker") refl)

-- No quarantined stream is read as a room's stream, or is the worker queue.
pub quarantine-not_room :
    (prefix rest : Text)
    → (is_room_key prefix (prefix ++ (codes ":quarantine_room:" ++ rest)) ≡ false)
      × (text_eq (prefix ++ (codes ":quarantine_room:" ++ rest)) (prefix ++ codes ":worker")
          ≡ false)
quarantine-not_room prefix rest =
    let key : Text = prefix ++ (codes ":quarantine_room:" ++ rest) in
    (
      elim (Bool-cases (is_room_key prefix key)) [
        | inr e ↦ e
        | inl e ↦
            let (r, k) = is_room_key-prefix prefix key e in
            absurd (
              omega (
                arith,
                ap second (
                    append_cancel prefix (codes ":quarantine_room:" ++ rest) (codes ":room:" ++ r)
                      k),
              ))
      ],
      kinds_apart prefix (codes ":quarantine_room:" ++ rest) (codes ":worker") refl,
    )
