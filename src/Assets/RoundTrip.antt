-- ===== src/Assets/RoundTrip.antt =====
-- src/types.js: `assetIdFromString` reads back what `assetIdToString` writes.
use yhub.Base.{
  ℕ, true, false, not, some, List, ◌∷◌, ◌++◌, Text, codes, ◌==◌, text_eq, split, split-none,
  split-first, every, every_imp, ◌≡◌, refl, arith,
}
use yhub.Uri.{encode_uri_component, decode_uri_component, IsUnicode}
use yhub.Uri.RoundTrip.{decode-encode_uri_component}
use yhub.Uri.Alphabet.{is_component_char, encode_uri_component-alphabet, is_component_char-slash}
use yhub.Room.{Room, IsEncodable}
use yhub.Assets.{
  AssetId, ydoc_id, contentmap_id, contentids_id, id_room, id_t, room_path, part, decode_room,
  read_ydoc, read_other, read_parts, asset_id_to_string, asset_id_from_string,
}

abbrev NoSlash : Text → Type 0
NoSlash s = every (λ d. not (d == b'/')) s ≡ true

-- One encoded component of a path.
record Part (s : Text) : Type 0 where
  encoded : Text
  encodes : encode_uri_component s ≡ some encoded
  decodes : decode_uri_component encoded ≡ some s
  no_slash : NoSlash encoded

slash-free : (c : ℕ) → is_component_char c ≡ true → not (c == b'/') ≡ true
slash-free c h = ground (arith, is_component_char-slash c h)

part_of : (s : Text) → IsUnicode s → Part s
part_of s h =
    let (r, e, back) = decode-encode_uri_component s h in
    record {
      encoded = r;
      encodes = e;
      decodes = back;
      no_slash =
          every_imp is_component_char (λ c. not (c == b'/')) slash-free r
            (encode_uri_component-alphabet s r h e);
    }

abbrev IsEncodableId : AssetId → Type 0
IsEncodableId id = IsEncodable (id_room id) × IsUnicode (id_t id)

module _ (room : Room) (h : IsEncodable room) where
  o : Part room.org
  o = part_of room.org h.org

  d : Part room.docid
  d = part_of room.docid h.docid

  b : Part room.branch
  b = part_of room.branch h.branch

  abbrev joined : Text → Text
  joined rest = o.encoded ++ b'/' ∷ (d.encoded ++ b'/' ∷ (b.encoded ++ b'/' ∷ rest))

  room_path-joined : (rest : Text) → room_path room rest ≡ some (joined rest)
  unfolding room_path
  room_path-joined rest = rw (o.encodes, d.encodes, b.encodes)

  split-joined :
      (type rest : Text)
      → NoSlash type
      → split b'/' (type ++ b'/' ∷ joined rest)
        ≡ type ∷ o.encoded ∷ d.encoded ∷ b.encoded ∷ split b'/' rest
  split-joined type rest n = rw (
    split-first b'/' type (joined rest) n,
    split-first b'/' o.encoded (d.encoded ++ b'/' ∷ (b.encoded ++ b'/' ∷ rest)) o.no_slash,
    split-first b'/' d.encoded (b.encoded ++ b'/' ∷ rest) d.no_slash,
    split-first b'/' b.encoded rest b.no_slash,
  )

  decode_room-parts :
      (type : Text) (rest : List Text)
      → decode_room (type ∷ o.encoded ∷ d.encoded ∷ b.encoded ∷ rest) ≡ some room
  unfolding decode_room part
  decode_room-parts type rest = rw (o.decodes, d.decodes, b.decodes)

-- For an asset id whose texts have no lone surrogate, `assetIdToString` gives a text, and
-- `assetIdFromString` reads it back as the id.
pub asset_id_from_string-to_string :
    (id : AssetId)
    → IsEncodableId id
    → (s : Text) × (asset_id_to_string id ≡ some s) × (asset_id_from_string s ≡ some id)
unfolding asset_id_to_string asset_id_from_string part read_parts read_ydoc read_other text_eq
asset_id_from_string-to_string (ydoc_id room t true) (h, u) =
    let e : Part t = part_of t u in
    (
      codes "id:ydoc:v1" ++ b'/' ∷ joined room h (codes "1" ++ b'/' ∷ e.encoded),
      rw (e.encodes, room_path-joined room h (codes "1" ++ b'/' ∷ e.encoded)),
      rw (
        split-joined room h (codes "id:ydoc:v1") (codes "1" ++ b'/' ∷ e.encoded) refl,
        split-first b'/' (codes "1") e.encoded refl,
        split-none b'/' e.encoded e.no_slash,
        decode_room-parts room h,
        e.decodes,
      ),
    )
asset_id_from_string-to_string (ydoc_id room t false) (h, u) =
    let e : Part t = part_of t u in
    (
      codes "id:ydoc:v1" ++ b'/' ∷ joined room h (codes "0" ++ b'/' ∷ e.encoded),
      rw (e.encodes, room_path-joined room h (codes "0" ++ b'/' ∷ e.encoded)),
      rw (
        split-joined room h (codes "id:ydoc:v1") (codes "0" ++ b'/' ∷ e.encoded) refl,
        split-first b'/' (codes "0") e.encoded refl,
        split-none b'/' e.encoded e.no_slash,
        decode_room-parts room h,
        e.decodes,
      ),
    )
asset_id_from_string-to_string (contentmap_id room t) (h, u) =
    let e : Part t = part_of t u in
    (
      codes "id:contentmap:v1" ++ b'/' ∷ joined room h e.encoded,
      rw (e.encodes, room_path-joined room h e.encoded),
      rw (
        split-joined room h (codes "id:contentmap:v1") e.encoded refl,
        split-none b'/' e.encoded e.no_slash,
        decode_room-parts room h,
        e.decodes,
      ),
    )
asset_id_from_string-to_string (contentids_id room t) (h, u) =
    let e : Part t = part_of t u in
    (
      codes "id:contentids:v1" ++ b'/' ∷ joined room h e.encoded,
      rw (e.encodes, room_path-joined room h e.encoded),
      rw (
        split-joined room h (codes "id:contentids:v1") e.encoded refl,
        split-none b'/' e.encoded e.no_slash,
        decode_room-parts room h,
        e.decodes,
      ),
    )
