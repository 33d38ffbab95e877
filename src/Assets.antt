-- ===== src/Assets.antt =====
-- `$assetId` and `$asset` of src/types.js, and the text form of an asset id.
pub mod RoundTrip
use yhub.Base.{
  ℕ, zero, suc, Bool, true, false, Option, none, some, List, [], ◌∷◌, ◌++◌, Text, codes, ◌==◌,
  if◌then◌else◌, ◌>>=◌, text_eq, split,
}
use yhub.Uri.{encode_uri_component, decode_uri_component}
use yhub.Message.{Bytes}
use yhub.Room.{Room}

pub data AssetId : Type 0 where
  ydoc_id : (room : Room) (t : Text) (gc : Bool) → AssetId
  contentmap_id : (room : Room) (t : Text) → AssetId
  contentids_id : (room : Room) (t : Text) → AssetId

pub data Asset : Type 0 where
  ydoc : (update : Bytes) → Asset
  contentmap : (contentmap : Bytes) → Asset
  contentids : (contentids : Bytes) → Asset
  retrievable : (plugin : Text) → Asset

unfoldable pub is_reference : Asset → Bool
is_reference (retrievable plugin) = true
is_reference (ydoc update) = false
is_reference (contentmap bytes) = false
is_reference (contentids bytes) = false

abbrev pub id_room : AssetId → Room
id_room (ydoc_id room t gc) = room
id_room (contentmap_id room t) = room
id_room (contentids_id room t) = room

abbrev pub id_t : AssetId → Text
id_t (ydoc_id room t gc) = t
id_t (contentmap_id room t) = t
id_t (contentids_id room t) = t

-- The components of a path, joined by `/`.
abbrev slashed : Text → Text → Text
slashed a b = a ++ b'/' ∷ b

room_path : Room → Text → Option Text
room_path room end = encode_uri_component room.org >>= λ o. encode_uri_component room.docid >>= λ d.
    encode_uri_component room.branch >>= λ b. some (slashed o (slashed d (slashed b end)))

-- `assetIdToString`
unfoldable pub asset_id_to_string : AssetId → Option Text
unfolding room_path
asset_id_to_string (ydoc_id room t gc) = encode_uri_component t >>= λ e.
    room_path room (slashed (if gc then codes "1" else codes "0") e) >>= λ p.
    some (slashed (codes "id:ydoc:v1") p)
asset_id_to_string (contentmap_id room t) = encode_uri_component t >>= λ e.
    room_path room e >>= λ p. some (slashed (codes "id:contentmap:v1") p)
asset_id_to_string (contentids_id room t) = encode_uri_component t >>= λ e.
    room_path room e >>= λ p. some (slashed (codes "id:contentids:v1") p)

-- `decodeURIComponent(parts[i])`; a missing part is the text `undefined`.
part : List Text → ℕ → Text
part [] i = codes "undefined"
part (p ∷ ps) zero = p
part (p ∷ ps) (suc i) = part ps i

decode_room : List Text → Option Room
unfolding part
decode_room parts = decode_uri_component (part parts 1) >>= λ o.
    decode_uri_component (part parts 2) >>= λ d.
    decode_uri_component (part parts 3) >>= λ b. some (record { org = o; docid = d; branch = b })

-- The cases of `assetIdFromString`.
read_ydoc : List Text → Option AssetId
unfolding decode_room part
read_ydoc parts = decode_room parts >>= λ room. decode_uri_component (part parts 5) >>= λ t.
    some (ydoc_id room t (text_eq (part parts 4) (codes "1")))

read_other : (Room → Text → AssetId) → List Text → Option AssetId
unfolding decode_room part
read_other id parts =
    decode_room parts >>= λ room. decode_uri_component (part parts 4) >>= λ t. some (id room t)

read_parts : Text → List Text → Option AssetId
unfolding read_ydoc read_other
read_parts type parts =
    if text_eq type (codes "id:ydoc:v1")
    then read_ydoc parts
    else if text_eq type (codes "id:contentmap:v1")
    then read_other contentmap_id parts
    else if text_eq type (codes "id:contentids:v1")
    then read_other contentids_id parts
    else none

-- `assetIdFromString`; an unknown type throws.
unfoldable pub asset_id_from_string : Text → Option AssetId
unfolding read_parts part
asset_id_from_string s = let parts = split b'/' s in read_parts (part parts 0) parts
