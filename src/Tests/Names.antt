-- ===== src/Tests/Names.antt =====
-- Clocks, keys and asset ids.
use yhub.Base.{
  true, false, ◌&&◌, ◌||◌, none, some, [], ◌∷◌, Text, codes, if◌then◌else◌, text_eq, ◌≡◌, refl,
  every, ltb, ◌==◌, is_digit, hex_digit, decimal, strip_prefix, ◌⊎◌, arith,
}
use yhub.Clock.{is_smaller_redis_clock, clock_text, inline_clock, max_redis_clock}
use yhub.Clock.Order.{max_redis_clock_bounds}
use yhub.Clock.Printed.{is_smaller-clock_text, is_smaller-inline_clock}
use yhub.Uri.{
  uri_encode, uri_decode, encode_uri_component, decode_uri_component, escape_extra, encode_char,
  percent, is_surrogate,
}
use yhub.Uri.Alphabet.{is_key_char, uri_encode-alphabet}
use yhub.Room.{Room, IsEncodable}
use yhub.Naming.{
  decode_quarantine_name, match_quarantine, quarantine_qid, colon_group, not_colon, nonempty,
  first_some, is_dot, encode_room_name, decode_room_name, match_room, greedy, room_org, room_docid,
  room_branch, decode_groups, decode_components,
}
use yhub.Naming.Streams.{decode-encode_room_name, encode_room_name-injective}
use yhub.Assets.{ydoc_id, asset_id_to_string, asset_id_from_string}
use yhub.Assets.RoundTrip.{asset_id_from_string-to_string}

numeric_order : is_smaller_redis_clock (codes "9-10") (codes "10-2") ≡ true
unfolding is_smaller_redis_clock
numeric_order = refl

default_sequence : is_smaller_redis_clock (codes "7") (codes "7-1") ≡ true
unfolding is_smaller_redis_clock
default_sequence = refl

printed : clock_text 1700 3 ≡ codes "1700-3"
unfolding clock_text decimal
printed = refl

inline_printed : inline_clock 1700 ≡ codes "1700-I"
unfolding inline_clock decimal
inline_printed = refl

-- A name with the separator, a glob character and a character of three bytes.
abbrev odd_room : Room
odd_room = record { org = codes "a:b"; docid = codes "draft*"; branch = 0x20ac ∷ [] }

abbrev odd_key : Text
odd_key = codes "p:room:a%3Ab:draft%2A:%E2%82%AC"

odd_room_key : encode_room_name odd_room (codes "p") ≡ some odd_key
unfolding encode_room_name uri_encode encode_uri_component escape_extra encode_char is_digit percent
odd_room_key = refl

odd_key_room : decode_room_name odd_key (codes "p") ≡ some odd_room
unfolding decode_room_name match_room greedy is_dot room_org strip_prefix room_docid room_branch
    decode_groups text_eq decode_components uri_decode decode_uri_component hex_digit
odd_key_room = refl

odd_room-IsEncodable : IsEncodable odd_room
unfolding is_surrogate
odd_room-IsEncodable = record { org = ground arith; docid = ground arith; branch = ground arith }

decode-encode_room_name_example :
    (key : Text) × (encode_room_name odd_room (codes "p:room:x:y:z") ≡ some key)
    × (decode_room_name key (codes "p:room:x:y:z")
        ≡ (if text_eq (codes "p:room:x:y:z") (codes "p:room:x:y:z") then some odd_room else none))
unfolding is_dot
decode-encode_room_name_example =
    decode-encode_room_name odd_room (codes "p:room:x:y:z") (codes "p:room:x:y:z")
      odd_room-IsEncodable refl

odd_room-same : odd_room ≡ odd_room
unfolding is_dot
odd_room-same =
    encode_room_name-injective odd_room odd_room (codes "p") odd_key odd_room-IsEncodable
      odd_room-IsEncodable refl odd_room_key odd_room_key

draft-key_chars : every is_key_char (codes "draft%2A") ≡ true
unfolding uri_encode encode_uri_component escape_extra encode_char is_digit percent
draft-key_chars =
    uri_encode-alphabet (codes "draft*") (codes "draft%2A") odd_room-IsEncodable.docid refl

asset_id_from_string-to_string_example :
    (s : Text) × (asset_id_to_string (ydoc_id odd_room (codes "17-I") true) ≡ some s)
    × (asset_id_from_string s ≡ some (ydoc_id odd_room (codes "17-I") true))
unfolding is_surrogate
asset_id_from_string-to_string_example =
    asset_id_from_string-to_string (ydoc_id odd_room (codes "17-I") true)
      (odd_room-IsEncodable, ground arith)

max_redis_clock_instance :
    ((max_redis_clock (codes "9-1") (codes "10-0") ≡ codes "9-1")
      ⊎ (max_redis_clock (codes "9-1") (codes "10-0") ≡ codes "10-0"))
    × (is_smaller_redis_clock (max_redis_clock (codes "9-1") (codes "10-0")) (codes "9-1") ≡ false)
    × (is_smaller_redis_clock (max_redis_clock (codes "9-1") (codes "10-0")) (codes "10-0") ≡ false)
max_redis_clock_instance = max_redis_clock_bounds (codes "9-1") (codes "10-0")

is_smaller-clock_text_example :
    is_smaller_redis_clock (clock_text 1700 3) (clock_text 1700 4)
    ≡ (ltb 1700 1700 || (1700 == 1700 && ltb 3 4))
is_smaller-clock_text_example = is_smaller-clock_text 1700 3 1700 4

is_smaller-inline_clock_example :
    (is_smaller_redis_clock (inline_clock 1700) (clock_text 1700 4) ≡ ltb 1700 1700)
    × (is_smaller_redis_clock (clock_text 1700 4) (inline_clock 1700) ≡ ltb 1700 1700)
is_smaller-inline_clock_example = is_smaller-inline_clock 1700 1700 4

quarantined :
    match_quarantine (codes "p:quarantine_room:a:b%3A:main:q1")
    ≡ some (codes "a", codes "b%3A", codes "main", codes "q1")
unfolding match_quarantine quarantine_qid colon_group not_colon nonempty greedy first_some is_dot
    strip_prefix text_eq
quarantined = refl

empty_component : decode_quarantine_name (codes "p:quarantine_room:a:b::q1") ≡ none
unfolding decode_quarantine_name match_quarantine quarantine_qid colon_group not_colon nonempty
    greedy first_some is_dot strip_prefix text_eq
empty_component = refl
