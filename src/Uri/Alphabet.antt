-- ===== src/Uri/Alphabet.antt =====
-- src/stream.js: the characters that `uriEncode` can produce.
use yhub.Base.{
  ℕ, ◌<◌, Bool, true, false, ◌||◌, some, List, [], ◌∷◌, Text, ◌==◌, is_digit, every, every-append,
  ◌≡◌, refl, arith, Bool-cases, inl, inr, Option-cases, every_imp,
}
use yhub.Uri.RoundTrip.{Bytes, utf8-Bytes}
use yhub.Uri.{
  is_plain, is_extra, utf8, hex_char, percent, percents, encode_char, encode_uri_component,
  escape_extra, uri_encode, IsUnicode,
}

-- A character of a redis key component: nothing that redis globs or the key's separator use.
unfoldable pub is_key_char : ℕ → Bool
is_key_char c = is_plain c || c == b'%'

unfoldable pub is_component_char : ℕ → Bool
is_component_char c = is_plain c || is_extra c || c == b'%'

percent-key : (b : ℕ) → b < 256 → every is_key_char (percent b) ≡ true
unfolding percent hex_char is_key_char is_plain is_digit
percent-key b h = ground arith

component-key : (c : ℕ) → is_key_char c ≡ true → is_component_char c ≡ true
unfolding is_key_char is_component_char
component-key c h = ground arith

extra-lt : (c : ℕ) → is_extra c ≡ true → c < 256
unfolding is_extra
extra-lt c h = ground arith

percent-component : (b : ℕ) → b < 256 → every is_component_char (percent b) ≡ true
percent-component b h =
    every_imp is_key_char is_component_char component-key (percent b) (percent-key b h)

percents-component : (bs : List ℕ) → Bytes bs → every is_component_char (percents bs) ≡ true
unfolding percents
percents-component [] h = refl
percents-component (b ∷ bs) (hb, h) = rw (
  every-append is_component_char (percent b) (percents bs),
  percent-component b hb,
  percents-component bs h,
)

encode_char-component : (c : ℕ) → c < 0x110000 → every is_component_char (encode_char c) ≡ true
unfolding encode_char is_component_char
encode_char-component c h = elim (Bool-cases (is_plain c || is_extra c)) [
  | inl p ↦ rw p (ground arith)
  | inr p ↦ rw p (percents-component (utf8 c) (utf8-Bytes c h))
]

-- What `encodeURIComponent` can produce.
pub encode_uri_component-alphabet :
    (s r : Text) → IsUnicode s → encode_uri_component s ≡ some r → every is_component_char r ≡ true
unfolding encode_uri_component
encode_uri_component-alphabet [] r h e = ground arith
encode_uri_component-alphabet (c ∷ s) r (hc, hs, h) e =
    elim (Option-cases (encode_uri_component s)) [
      | inl n ↦ ground arith
      | inr (r', e') ↦ ground (
        arith,
        every-append is_component_char (encode_char c) r',
        encode_char-component c hc,
        encode_uri_component-alphabet s r' h e',
      )
    ]

escape_extra-alphabet :
    (r : Text) → every is_component_char r ≡ true → every is_key_char (escape_extra r) ≡ true
unfolding escape_extra is_component_char is_key_char
escape_extra-alphabet [] h = refl
escape_extra-alphabet (c ∷ r) h = elim (Bool-cases (is_extra c)) [
  | inl x ↦
      rw (x, escape_extra)
        (rw (every-append is_key_char (percent c) (escape_extra r))
          (ground (arith, percent-key c (extra-lt c x), escape_extra-alphabet r)))
  | inr x ↦ rw (x, escape_extra) (ground (arith, escape_extra-alphabet r))
]

-- Whatever `uriEncode` gives for a text of code points has letters, digits and `-_.~%` alone, so
-- neither the separator of the keys nor a glob character of redis.
pub uri_encode-alphabet :
    (s r : Text) → IsUnicode s → uri_encode s ≡ some r → every is_key_char r ≡ true
unfolding uri_encode
uri_encode-alphabet s r h e = elim (Option-cases (encode_uri_component s)) [
  | inl n ↦ ground arith
  | inr (r', e') ↦ ground (arith, escape_extra-alphabet r', encode_uri_component-alphabet s r' h e')
]

-- A character of an encoded component is not the key's separator, none of redis' glob characters,
-- and no line terminator.
pub is_key_char-safe :
    (c : ℕ)
    → is_key_char c ≡ true
    → ((c == b':') ≡ false)
      × ((c == b'*') ≡ false)
      × ((c == b'?') ≡ false)
      × ((c == b'[') ≡ false)
      × ((c == b']') ≡ false)
      × ((c == b'^') ≡ false)
      × ((c == 92) ≡ false)
      × ((c == 10) ≡ false)
      × ((c == 13) ≡ false)
      × ((c == 0x2028) ≡ false)
      × ((c == 0x2029) ≡ false)
unfolding is_key_char is_plain is_digit
is_key_char-safe c h = ground arith

pub is_component_char-slash : (c : ℕ) → is_component_char c ≡ true → (c == b'/') ≡ false
unfolding is_component_char is_plain is_extra is_digit
is_component_char-slash c h = ground arith
