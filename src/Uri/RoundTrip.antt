-- ===== src/Uri/RoundTrip.antt =====
-- src/stream.js and src/types.js: decoding gives back what was encoded.
use yhub.Base.{
  ℕ, ◌/◌, ◌%◌, ◌<◌, true, false, ◌||◌, some, List, [], ◌∷◌, ◌++◌, map, Text, ltb, ◌==◌,
  if◌then◌else◌, ◌>>=◌, is_digit, hex_digit, ◌≡◌, refl, arith, ◌∙◌, sym, append_assoc, Bool-cases,
  inl, inr,
}
use yhub.Uri.{
  is_surrogate, is_plain, is_extra, utf8, hex_char, percent, percents, encode_char,
  encode_uri_component, escape_extra, uri_encode, Token, plain, byte, escape_byte, tokens, idle,
  lead, continue, assemble, decode_uri_component, uri_decode, IsUnicode,
}

escape_byte-hex : (b : ℕ) → b < 256 → escape_byte (hex_char (b / 16)) (hex_char (b % 16)) ≡ some b
unfolding escape_byte hex_digit hex_char is_digit
escape_byte-hex b h = ground arith

tokens-percent :
    (b : ℕ) (r : Text) → b < 256 → tokens (percent b ++ r) ≡ (tokens r >>= λ ts. some (byte b ∷ ts))
unfolding tokens percent
tokens-percent b r h = rw (escape_byte-hex b h)

tokens-plain :
    (c : ℕ) (r : Text)
    → (c == b'%') ≡ false
    → tokens (c ∷ r) ≡ (tokens r >>= λ ts. some (plain c ∷ ts))
unfolding tokens
tokens-plain c [] h = rw h
tokens-plain c (d ∷ []) h = ground arith
tokens-plain c (d ∷ e ∷ r) h = rw (h, tokens)

abbrev pub Bytes : List ℕ → Type 0
Bytes [] = Unit
Bytes (b ∷ bs) = (b < 256) × Bytes bs

tokens-percents :
    (bs : List ℕ) (r : Text) (ts : List Token)
    → Bytes bs
    → tokens r ≡ some ts
    → tokens (percents bs ++ r) ≡ some (map byte bs ++ ts)
unfolding percents
tokens-percents [] r ts h e = e
tokens-percents (b ∷ bs) r ts (hb, h) e = rw (
  append_assoc (percent b) (percents bs) r,
  tokens-percent b (percents bs ++ r) hb,
  tokens-percents bs r ts h e,
)

pub utf8-Bytes : (c : ℕ) → c < 0x110000 → Bytes (utf8 c)
unfolding utf8
utf8-Bytes c h = ground arith

assemble-utf8 :
    (c : ℕ) (ts : List Token)
    → c < 0x110000
    → is_surrogate c ≡ false
    → assemble idle (map byte (utf8 c) ++ ts) ≡ (assemble idle ts >>= λ s. some (c ∷ s))
unfolding utf8 assemble lead continue is_surrogate
assemble-utf8 c ts h k = ground arith

escape_extra-append : (a b : Text) → escape_extra (a ++ b) ≡ escape_extra a ++ escape_extra b
unfolding escape_extra
escape_extra-append [] b = refl
escape_extra-append (c ∷ a) b = elim (Bool-cases (is_extra c)) [
  | inl x ↦
      rw (x, escape_extra)
        (rw (escape_extra-append a b)
          (sym (append_assoc (percent c) (escape_extra a) (escape_extra b))))
  | inr x ↦ rw (x, escape_extra) (rw (escape_extra-append a b))
]

escape_extra-percents : (bs : List ℕ) → Bytes bs → escape_extra (percents bs) ≡ percents bs
unfolding escape_extra percents percent is_extra hex_char
escape_extra-percents [] h = refl
escape_extra-percents (b ∷ bs) (hb, h) = ground (arith, escape_extra-percents bs h)

-- The tokens of an encoded character.
char_tokens : ℕ → List Token
char_tokens c = if is_plain c then plain c ∷ [] else map byte (utf8 c)

extra_char :
    (c : ℕ) → is_extra c ≡ true → (escape_extra (c ∷ []) ≡ percents (utf8 c)) × (c < 0x110000)
unfolding escape_extra utf8 percents is_extra
extra_char c h = ground arith

plain_char :
    (c : ℕ) → is_plain c ≡ true → (is_extra c ≡ false) × ((c == b'%') ≡ false) × (ltb c 0x80 ≡ true)
unfolding is_plain is_extra is_digit
plain_char c h = ground arith

tokens-encoded :
    (c : ℕ) (r : Text) (ts : List Token)
    → c < 0x110000
    → tokens r ≡ some ts
    → tokens (escape_extra (encode_char c) ++ r) ≡ some (char_tokens c ++ ts)
unfolding encode_char char_tokens tokens escape_extra
tokens-encoded c r ts h e = elim (Bool-cases (is_plain c)) [
  | inl p ↦ rw p (rw (plain_char c p).0 (rw (tokens-plain c r (plain_char c p).1, e)))
  | inr p ↦ elim (Bool-cases (is_extra c)) [
    | inl x ↦ rw (p, x) (rw (extra_char c x).0 (tokens-percents (utf8 c) r ts (utf8-Bytes c h) e))
    | inr x ↦
        rw (p, x)
          (rw (escape_extra-percents (utf8 c) (utf8-Bytes c h))
            (tokens-percents (utf8 c) r ts (utf8-Bytes c h) e))
  ]
]

assemble-char_tokens :
    (c : ℕ) (ts : List Token)
    → c < 0x110000
    → is_surrogate c ≡ false
    → assemble idle (char_tokens c ++ ts) ≡ (assemble idle ts >>= λ s. some (c ∷ s))
unfolding char_tokens assemble
assemble-char_tokens c ts h k = elim (Bool-cases (is_plain c)) [
  | inl p ↦ rw p
  | inr p ↦ rw p (assemble-utf8 c ts h k)
]

-- What `uriEncode` and `decodeURIComponent` do with one text, step by step.
record Encoded (s : Text) : Type 0 where
  component : Text
  encodes : encode_uri_component s ≡ some component
  read : List Token
  reads : tokens (escape_extra component) ≡ some read
  assembles : assemble idle read ≡ some s

encoded : (s : Text) → IsUnicode s → Encoded s
unfolding encode_uri_component escape_extra tokens assemble
encoded [] h = record { component = []; encodes = refl; read = []; reads = refl; assembles = refl }
encoded (c ∷ s) (hc, hs, h) =
    let r : Encoded s = encoded s h in
    record {
      component = encode_char c ++ r.component;
      encodes = rw (hs, r.encodes);
      read = char_tokens c ++ r.read;
      reads =
          rw (escape_extra-append (encode_char c) r.component)
            (tokens-encoded c (escape_extra r.component) r.read hc r.reads);
      assembles = assemble-char_tokens c r.read hc hs ∙ rw r.assembles;
    }

-- A text of code points is encoded, and decoding gives it back.
pub uri_decode-uri_encode :
    (s : Text) → IsUnicode s → (r : Text) × (uri_encode s ≡ some r) × (uri_decode r ≡ some s)
unfolding uri_encode uri_decode decode_uri_component
uri_decode-uri_encode s h =
    let e : Encoded s = encoded s h in
    (escape_extra e.component, rw e.encodes, rw e.reads e.assembles)

component_tokens : ℕ → List Token
component_tokens c = if is_plain c || is_extra c then plain c ∷ [] else map byte (utf8 c)

kept_char :
    (c : ℕ) → (is_plain c || is_extra c) ≡ true → ((c == b'%') ≡ false) × (ltb c 0x80 ≡ true)
unfolding is_plain is_extra is_digit
kept_char c h = ground arith

tokens-component :
    (c : ℕ) (r : Text) (ts : List Token)
    → c < 0x110000
    → tokens r ≡ some ts
    → tokens (encode_char c ++ r) ≡ some (component_tokens c ++ ts)
unfolding encode_char component_tokens tokens
tokens-component c r ts h e = elim (Bool-cases (is_plain c || is_extra c)) [
  | inl p ↦ rw p (rw (tokens-plain c r (kept_char c p).0, e))
  | inr p ↦ rw p (tokens-percents (utf8 c) r ts (utf8-Bytes c h) e)
]

assemble-component_tokens :
    (c : ℕ) (ts : List Token)
    → c < 0x110000
    → is_surrogate c ≡ false
    → assemble idle (component_tokens c ++ ts) ≡ (assemble idle ts >>= λ s. some (c ∷ s))
unfolding component_tokens assemble
assemble-component_tokens c ts h k = elim (Bool-cases (is_plain c || is_extra c)) [
  | inl p ↦ rw p
  | inr p ↦ rw p (assemble-utf8 c ts h k)
]

component_encoded :
    (s : Text)
    → IsUnicode s
    → (r : Text) × (ts : List Token) × (encode_uri_component s ≡ some r)
      × (tokens r ≡ some ts)
      × (assemble idle ts ≡ some s)
unfolding encode_uri_component tokens assemble
component_encoded [] h = ([], [], refl, refl, refl)
component_encoded (c ∷ s) (hc, hs, h) =
    let (r, ts, e, reads, back) = component_encoded s h in
    (
      encode_char c ++ r,
      component_tokens c ++ ts,
      rw (hs, e),
      tokens-component c r ts hc reads,
      assemble-component_tokens c ts hc hs ∙ rw back,
    )

-- `decodeURIComponent` gives back what `encodeURIComponent` was given.
pub decode-encode_uri_component :
    (s : Text)
    → IsUnicode s
    → (r : Text) × (encode_uri_component s ≡ some r) × (decode_uri_component r ≡ some s)
unfolding decode_uri_component
decode-encode_uri_component s h =
    let (r, ts, e, reads, back) = component_encoded s h in (r, e, rw reads back)
