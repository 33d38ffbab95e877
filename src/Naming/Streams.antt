-- ===== src/Naming/Streams.antt =====
-- src/stream.js: a room's stream name is read back as the room, and no two rooms share one.
use yhub.Base.{
  ℕ, ◌≤◌, true, none, some, [], ◌∷◌, ◌++◌, Text, codes, ◌==◌, if◌then◌else◌, every, every_imp,
  count_of-append, ◌≡◌, refl, arith, ap, append_assoc, Option-cases, inl, inr, strip_prefix,
  text_eq, text_eq_refl, strip_prefix-eq_some,
}
use yhub.Uri.RoundTrip.{uri_decode-uri_encode}
use yhub.Uri.Alphabet.{is_key_char, is_key_char-safe, uri_encode-alphabet}
use yhub.Room.{Room, IsEncodable}
use yhub.Naming.{
  is_dot, room_branch, room_docid, room_org, match_room, encode_components, encode_room_name,
  decode_components, decode_groups, decode_room_name,
}
use yhub.Naming.Greedy.{colons, greedy-none, greedy-last}

key_char-dot : (c : ℕ) → is_key_char c ≡ true → is_dot c ≡ true
unfolding is_dot
key_char-dot c h = ground (arith, is_key_char-safe c h)

dots : (s : Text) → every is_key_char s ≡ true → every is_dot s ≡ true
dots = every_imp is_key_char is_dot key_char-dot

pub no_colons : (s : Text) → every is_key_char s ≡ true → colons s ≡ 0
no_colons [] h = refl
no_colons (c ∷ s) h = ground (arith, is_key_char-safe c, no_colons s)

strip-colon-none : (s : Text) → colons s ≤ 0 → strip_prefix (b':' ∷ []) s ≡ none
unfolding strip_prefix
strip-colon-none [] h = refl
strip-colon-none (c ∷ s) h = ground arith

room_branch-none :
    (prefix org taken s : Text) → colons s ≤ 0 → room_branch prefix org taken s ≡ none
unfolding room_branch
room_branch-none prefix org taken s h = rw (strip-colon-none s h)

room_docid-none : (prefix taken s : Text) → colons s ≤ 1 → room_docid prefix taken s ≡ none
unfolding room_docid strip_prefix
room_docid-none prefix taken [] h = refl
room_docid-none prefix taken (c ∷ cs) h =
    ground
      (arith, greedy-none is_dot (room_branch prefix taken) 0 (room_branch-none prefix taken) [] cs)

room_org-none : (taken s : Text) → colons s ≤ 3 → room_org taken s ≡ none
unfolding room_org
room_org-none taken s h = elim (Option-cases (strip_prefix (codes ":room:") s)) [
  | inl e ↦ rw e
  | inr (r, e) ↦ rw e (
      greedy-none is_dot (room_docid taken) 1 (room_docid-none taken) [] r
        (omega (arith, ap colons (strip_prefix-eq_some (codes ":room:") s r e))))
]

room_branch-key :
    (prefix o d b : Text)
    → every is_key_char b ≡ true
    → room_branch prefix o d (b':' ∷ b) ≡ some (prefix, o, d, b)
unfolding room_branch strip_prefix
room_branch-key prefix o d b hb = rw (dots b hb)

room_docid-key :
    (prefix o d b : Text)
    → every is_key_char d ≡ true
    → every is_key_char b ≡ true
    → room_docid prefix o (b':' ∷ (d ++ b':' ∷ b)) ≡ some (prefix, o, d, b)
unfolding room_docid strip_prefix
room_docid-key prefix o d b hd hb =
    greedy-last is_dot (room_branch prefix o) 0 (room_branch-none prefix o) [] d b':' b
      (prefix, o, d, b) (dots d hd) (omega (arith, no_colons b hb))
      (room_branch-key prefix o d b hb)

room_org-key :
    (prefix o d b : Text)
    → every is_key_char o ≡ true
    → every is_key_char d ≡ true
    → every is_key_char b ≡ true
    → room_org prefix (codes ":room:" ++ (o ++ b':' ∷ (d ++ b':' ∷ b))) ≡ some (prefix, o, d, b)
unfolding room_org strip_prefix
room_org-key prefix o d b ho hd hb =
    greedy-last is_dot (room_docid prefix) 1 (room_docid-none prefix) [] o b':' (d ++ b':' ∷ b)
      (prefix, o, d, b) (dots o ho)
      (omega (arith, no_colons b hb, no_colons d hd, count_of-append (λ c. c == b':') d (b':' ∷ b)))
      (room_docid-key prefix o d b hd hb)

components_colons :
    (o d b : Text)
    → every is_key_char o ≡ true
    → every is_key_char d ≡ true
    → every is_key_char b ≡ true
    → colons (o ++ b':' ∷ (d ++ b':' ∷ b)) ≡ 2
components_colons o d b ho hd hb = omega (
  arith,
  no_colons o ho,
  no_colons d hd,
  no_colons b hb,
  count_of-append (λ c. c == b':') d (b':' ∷ b),
  count_of-append (λ c. c == b':') o (b':' ∷ (d ++ b':' ∷ b)),
)

-- The expression splits a key at its three true separators, whatever the prefix and the components
-- contain.
match_room-key :
    (prefix o d b : Text)
    → every is_dot prefix ≡ true
    → every is_key_char o ≡ true
    → every is_key_char d ≡ true
    → every is_key_char b ≡ true
    → match_room (prefix ++ codes ":room:" ++ (o ++ b':' ∷ (d ++ b':' ∷ b)))
      ≡ some (prefix, o, d, b)
unfolding match_room
match_room-key prefix o d b hp ho hd hb =
    rw (append_assoc prefix (codes ":room:") (o ++ b':' ∷ (d ++ b':' ∷ b))) (
      greedy-last is_dot room_org 3 room_org-none [] prefix b':'
        (codes "room:" ++ (o ++ b':' ∷ (d ++ b':' ∷ b))) (prefix, o, d, b) hp
        (omega (arith, components_colons o d b ho hd hb)) (room_org-key prefix o d b ho hd hb))

-- The encoded components of a room, and what they decode to.
pub record Components (room : Room) : Type 0 where
  pub org : Text
  pub docid : Text
  pub branch : Text
  pub encodes : encode_components room ≡ some (org ++ b':' ∷ (docid ++ b':' ∷ branch))
  pub decodes : decode_components org docid branch ≡ some room
  pub org_chars : every is_key_char org ≡ true
  pub docid_chars : every is_key_char docid ≡ true
  pub branch_chars : every is_key_char branch ≡ true

pub components : (room : Room) → IsEncodable room → Components room
unfolding encode_components decode_components
components room h =
    let (o, oe, od) = uri_decode-uri_encode room.org h.org in
    let (d, de, dd) = uri_decode-uri_encode room.docid h.docid in
    let (b, be, bd) = uri_decode-uri_encode room.branch h.branch in
    record {
      org = o;
      docid = d;
      branch = b;
      encodes = rw (oe, de, be);
      decodes = rw (od, dd, bd);
      org_chars = uri_encode-alphabet room.org o h.org oe;
      docid_chars = uri_encode-alphabet room.docid d h.docid de;
      branch_chars = uri_encode-alphabet room.branch b h.branch be;
    }

-- For a room whose components have no lone surrogate and a prefix without line terminators, the
-- stream name exists, and `decodeRoomName` reads it back under any expected prefix: it gives the
-- room if that is the prefix, and throws otherwise.
pub decode-encode_room_name :
    (room : Room) (prefix expected : Text)
    → IsEncodable room
    → every is_dot prefix ≡ true
    → (key : Text) × (encode_room_name room prefix ≡ some key)
      × (decode_room_name key expected ≡ (if text_eq prefix expected then some room else none))
unfolding encode_room_name decode_room_name decode_groups
decode-encode_room_name room prefix expected h hp =
    let c : Components room = components room h in
    (
      prefix ++ codes ":room:" ++ (c.org ++ b':' ∷ (c.docid ++ b':' ∷ c.branch)),
      rw c.encodes,
      rw (match_room-key prefix c.org c.docid c.branch hp c.org_chars c.docid_chars c.branch_chars)
          (ground (arith, c.decodes)),
    )

-- Two rooms without lone surrogates that have one stream name under one prefix without line
-- terminators are the same room.
pub encode_room_name-injective :
    (a b : Room) (prefix key : Text)
    → IsEncodable a
    → IsEncodable b
    → every is_dot prefix ≡ true
    → encode_room_name a prefix ≡ some key
    → encode_room_name b prefix ≡ some key
    → a ≡ b
encode_room_name-injective a b prefix key ha hb hp ea eb =
    let (ka, ka_eq, a_back) = decode-encode_room_name a prefix prefix ha hp in
    let (kb, kb_eq, b_back) = decode-encode_room_name b prefix prefix hb hp in
    ground (arith, ka_eq, a_back, kb_eq, b_back, text_eq_refl prefix)
