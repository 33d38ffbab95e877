-- ===== src/Tests/Caches.antt =====
-- src/stream.js: cached responses of two rooms, one of which begins like the other.
use yhub.Base.{
  ℕ, Bool, true, false, ◌&&◌, ◌||◌, ◌==◌, some_of, List, none, some, [], ◌∷◌, Text, codes,
  if◌then◌else◌, text_eq, is_digit, ◌≡◌, refl, arith,
}
use yhub.Uri.{uri_encode, encode_uri_component, escape_extra, encode_char, percent, is_surrogate}
use yhub.Room.{Room, IsEncodable, room_eq}
use yhub.Naming.{encode_components, cache_prefix}
use yhub.Cache.{Responses, Globs, is_literal, get, encode_args, cache_key, delete_cached_responses}
use yhub.Cache.Rooms.{delete_cached_responses-get}

abbrev short_room : Room
short_room = record { org = codes "o"; docid = codes "a"; branch = codes "main" }

abbrev long_room : Room
long_room = record { org = codes "o"; docid = codes "a:b"; branch = codes "main" }

short_room-IsEncodable : IsEncodable short_room
unfolding is_surrogate
short_room-IsEncodable = record { org = ground arith; docid = ground arith; branch = ground arith }

long_room-IsEncodable : IsEncodable long_room
unfolding is_surrogate
long_room-IsEncodable = record { org = ground arith; docid = ground arith; branch = ground arith }

abbrev short_key : Text
short_key = codes "p:cache:o:a:main:activity:1:x%2A"

abbrev long_key : Text
long_key = codes "p:cache:o:a%3Ab:main:activity:1"

abbrev responses : Responses
responses = (short_key, 1 ∷ []) ∷ (long_key, 2 ∷ []) ∷ []

short_key_of :
    cache_key short_room (codes "p") (codes "activity") (codes "1" ∷ codes "x*" ∷ [])
    ≡ some short_key
unfolding cache_key encode_args cache_prefix encode_components uri_encode encode_uri_component
    escape_extra encode_char is_digit percent
short_key_of = refl

long_key_of : cache_key long_room (codes "p") (codes "activity") (codes "1" ∷ []) ≡ some long_key
unfolding cache_key encode_args cache_prefix encode_components uri_encode encode_uri_component
    escape_extra encode_char is_digit percent
long_key_of = refl

-- Patterns with stars, question marks and literal characters.
suffixes : Text → List Text
suffixes [] = [] ∷ []
suffixes (c ∷ s) = (c ∷ s) ∷ suffixes s

at_head : (ℕ → Bool) → (Text → Bool) → Text → Bool
at_head p next [] = false
at_head p next (c ∷ s) = p c && next s

glob : Text → Text → Bool
glob [] key = text_eq key []
glob (c ∷ pattern') key =
    let next = glob pattern' in
    if c == b'*' then some_of next (suffixes key) else at_head (λ d. c == b'?' || c == d) next key

glob-star : (key : Text) → glob (b'*' ∷ []) key ≡ true
unfolding glob suffixes text_eq
glob-star [] = refl
glob-star (c ∷ key) = ground (arith, glob-star key)

glob-literal :
    (c d : ℕ) (pattern' key : Text)
    → is_literal c ≡ true
    → glob (c ∷ pattern') (d ∷ key) ≡ (c == d && glob pattern' key)
unfolding glob at_head
glob-literal c d pattern' key h = ground (arith, h)

glob-literal_end : (c : ℕ) (pattern' : Text) → is_literal c ≡ true → glob (c ∷ pattern') [] ≡ false
unfolding glob at_head
glob-literal_end c pattern' h = ground (arith, h)

abbrev globs : Globs
globs = record {
  matches = glob;
  matches_literal = glob-literal;
  matches_literal_end = glob-literal_end;
  matches_star = glob-star;
}

dropped :
    delete_cached_responses globs short_room (codes "p") responses ≡ some ((long_key, 2 ∷ []) ∷ [])
unfolding delete_cached_responses glob suffixes at_head text_eq cache_prefix encode_components
    uri_encode encode_uri_component escape_extra encode_char is_digit percent
dropped = refl

delete_cached_responses-get_example :
    get long_key ((long_key, 2 ∷ []) ∷ [])
    ≡ (if room_eq short_room long_room then none else get long_key responses)
delete_cached_responses-get_example =
    delete_cached_responses-get globs short_room long_room (codes "p") (codes "activity")
      (codes "1" ∷ []) responses ((long_key, 2 ∷ []) ∷ []) long_key refl short_room-IsEncodable
      long_room-IsEncodable dropped long_key_of
