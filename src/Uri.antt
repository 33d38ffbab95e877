-- ===== src/Uri.antt =====
-- `encodeURIComponent` and `decodeURIComponent`, as src/stream.js and src/types.js use them, and
-- the stricter `uriEncode` of src/stream.js. A text is the list of its Unicode code points; a
-- surrogate that stands alone is a code of its own, on which `encodeURIComponent` throws. A throw
-- is `none`.
pub mod RoundTrip
pub mod Alphabet
use yhub.Base.{
  ℕ, zero, suc, ◌+◌, ◌-◌, ◌*◌, ◌/◌, ◌%◌, Bool, true, false, ◌&&◌, ◌||◌, Option, none, some, List,
  [], ◌∷◌, ◌++◌, Text, ltb, leb, ◌==◌, if◌then◌else◌, ◌>>=◌, is_digit, hex_digit, not, ◌<◌, ◌≡◌,
}

unfoldable pub is_surrogate : ℕ → Bool
is_surrogate c = leb 0xd800 c && leb c 0xdfff

unfoldable pub is_letter : ℕ → Bool
is_letter c = (leb b'A' c && leb c b'Z') || (leb b'a' c && leb c b'z')

-- The marks that `encodeURIComponent` leaves alone and `uriEncode` escapes: `!'()*`.
unfoldable pub is_extra : ℕ → Bool
is_extra c = c == b'!' || c == 39 || c == b'(' || c == b')' || c == b'*'

-- The characters that `uriEncode` leaves alone.
unfoldable pub is_plain : ℕ → Bool
unfolding is_letter
is_plain c = is_letter c || is_digit c || c == b'-' || c == b'_' || c == b'.' || c == b'~'

-- The bytes of a code point in UTF-8.
unfoldable pub utf8 : ℕ → List ℕ
utf8 c =
    if ltb c 0x80
    then c ∷ []
    else if ltb c 0x800
    then (0xc0 + c / 64) ∷ (0x80 + c % 64) ∷ []
    else if ltb c 0x10000
    then (0xe0 + c / 4096) ∷ (0x80 + c / 64 % 64) ∷ (0x80 + c % 64) ∷ []
    else (0xf0 + c / 262144) ∷ (0x80 + c / 4096 % 64) ∷ (0x80 + c / 64 % 64) ∷ (0x80 + c % 64) ∷ []

-- `n.toString(16).toUpperCase()` of one hexadecimal digit.
unfoldable pub hex_char : ℕ → ℕ
hex_char n = if ltb n 10 then b'0' + n else b'A' + (n - 10)

-- `%XX`
unfoldable pub percent : ℕ → Text
unfolding hex_char
percent b = b'%' ∷ hex_char (b / 16) ∷ hex_char (b % 16) ∷ []

unfoldable pub percents : List ℕ → Text
percents [] = []
percents (b ∷ bs) = percent b ++ percents bs

unfoldable pub encode_char : ℕ → Text
unfolding is_plain is_extra utf8 percents
encode_char c = if is_plain c || is_extra c then c ∷ [] else percents (utf8 c)

unfoldable pub encode_uri_component : Text → Option Text
unfolding is_surrogate
encode_uri_component [] = some []
encode_uri_component (c ∷ cs) =
    let rest = encode_uri_component cs in
    if is_surrogate c then none else rest >>= λ r. some (encode_char c ++ r)

-- `.replace(/[!'()*]/g, c => '%' + …)`
unfoldable pub escape_extra : Text → Text
escape_extra [] = []
escape_extra (c ∷ cs) = if is_extra c then percent c ++ escape_extra cs else c ∷ escape_extra cs

unfoldable pub uri_encode : Text → Option Text
uri_encode s = encode_uri_component s >>= λ r. some (escape_extra r)

-- What `decodeURIComponent` reads: a character as it is, or the byte of an escape.
pub data Token : Type 0 where
  plain : ℕ → Token
  byte : ℕ → Token

unfoldable pub escape_byte : ℕ → ℕ → Option ℕ
escape_byte d e = hex_digit d >>= λ hi. hex_digit e >>= λ lo. some (hi * 16 + lo)

unfoldable pub tokens : Text → Option (List Token)
unfolding escape_byte
tokens [] = some []
tokens (c ∷ []) = if c == b'%' then none else some (plain c ∷ [])
tokens (c ∷ d ∷ []) = if c == b'%' || d == b'%' then none else some (plain c ∷ plain d ∷ [])
tokens (c ∷ d ∷ e ∷ cs) = elim (c == b'%') [
  | true ↦ escape_byte d e >>= λ b. tokens cs >>= λ ts. some (byte b ∷ ts)
  | false ↦ tokens (d ∷ e ∷ cs) >>= λ ts. some (plain c ∷ ts)
]

-- A code point of which `left` continuation bytes are still to come: the bits so far, and the
-- least code point that needs this many bytes.
pub record Pending : Type 0 where
  pub left : ℕ
  pub least : ℕ
  pub bits : ℕ

abbrev pub idle : Pending
idle = record { left = 0; least = 0; bits = 0 }

-- The first byte of a code point.
unfoldable pub lead : ℕ → Option (Pending × Text)
lead b =
    if ltb b 0x80
    then some (idle, b ∷ [])
    else if leb 0xc0 b && ltb b 0xe0
    then some (record { left = 1; least = 0x80; bits = b - 0xc0 }, [])
    else if leb 0xe0 b && ltb b 0xf0
    then some (record { left = 2; least = 0x800; bits = b - 0xe0 }, [])
    else if leb 0xf0 b && ltb b 0xf8
    then some (record { left = 3; least = 0x10000; bits = b - 0xf0 }, [])
    else none

-- A byte behind it: overlong forms, surrogates and codes above 0x10ffff throw.
unfoldable pub continue : Pending → ℕ → Option (Pending × Text)
unfolding is_surrogate
continue p b =
    if leb 0x80 b && ltb b 0xc0
    then if p.left == 1
      then if leb p.least v && leb v 0x10ffff && not (is_surrogate v)
        then some (idle, v ∷ [])
        else none
      else some (record p { left = p.left - 1; bits = v }, [])
    else none
  where
    v : ℕ
    v = p.bits * 64 + (b - 0x80)

unfoldable pub read_token : Pending → Token → Option (Pending × Text)
unfolding lead continue
read_token p (plain c) = if p.left == 0 then some (idle, c ∷ []) else none
read_token p (byte b) = if p.left == 0 then lead b else continue p b

unfoldable pub assemble : Pending → List Token → Option Text
unfolding read_token
assemble p [] = if p.left == 0 then some [] else none
assemble p (t ∷ ts) = read_token p t >>= λ (q, out). assemble q ts >>= λ s. some (out ++ s)

unfoldable pub decode_uri_component : Text → Option Text
unfolding tokens assemble
decode_uri_component s = tokens s >>= λ ts. assemble idle ts

unfoldable pub uri_decode : Text → Option Text
uri_decode s = decode_uri_component s

-- The texts that `encodeURIComponent` accepts: code points, and no surrogate that stands alone.
abbrev pub IsUnicode : Text → Type 0
IsUnicode [] = Unit
IsUnicode (c ∷ cs) = (c < 0x110000) × (is_surrogate c ≡ false) × IsUnicode cs
