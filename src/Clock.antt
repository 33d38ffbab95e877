-- ===== src/Clock.antt =====
-- The redis clocks of src/stream.js: texts `ms-seq`, compared number by number. A clock stays the
-- text that the source passes around, since `unsafePersistDoc` of src/index.js makes clocks that
-- are not two numbers. `parseInt` yields an Option, with `none` for NaN.
pub mod Order
pub mod Printed
use yhub.Base.{
  ℕ, zero, suc, ◌+◌, ◌-◌, ◌*◌, Bool, true, false, ◌&&◌, ◌||◌, Option, none, some, List, [], ◌∷◌,
  ◌++◌, Text, codes, is_digit, decimal, ltb, leb, ◌==◌, if◌then◌else◌, or_else, digits_value,
  hex_digit,
}

-- The part of a text before the first `c`, and the part behind it, if there is a `c`.
unfoldable pub before : ℕ → Text → Text
before c [] = []
before c (d ∷ ds) = if d == c then [] else d ∷ before c ds

unfoldable pub after : ℕ → Text → Option Text
after c [] = none
after c (d ∷ ds) = if d == c then some ds else after c ds

-- What `Number.parseInt` skips: the white space of the language.
is_space : ℕ → Bool
is_space c =
    (leb 9 c && leb c 13)
    || c == 32
    || c == 160
    || c == 0x1680
    || (leb 0x2000 c && leb c 0x200a)
    || c == 0x2028
    || c == 0x2029
    || c == 0x202f
    || c == 0x205f
    || c == 0x3000
    || c == 0xfeff

trim_start : Text → Text
trim_start [] = []
trim_start (c ∷ cs) = if is_space c then trim_start cs else c ∷ cs

-- The digits at the front of a text.
unfoldable pub leading_digits : Text → Text
leading_digits [] = []
leading_digits (c ∷ cs) = if is_digit c then c ∷ leading_digits cs else []

hex_number : Option ℕ → Text → Option ℕ
hex_number acc [] = acc
hex_number acc (c ∷ cs) = elim (hex_digit c) [
  | none ↦ acc
  | some d ↦ hex_number (some (or_else acc 0 * 16 + d)) cs
]

-- The value of the digits in front, NaN if there is none.
decimal_number : Text → Option ℕ
unfolding leading_digits is_digit digits_value
decimal_number [] = none
decimal_number (c ∷ cs) =
    if is_digit c then some (digits_value 0 (leading_digits (c ∷ cs))) else none

-- `0x` in front makes `parseInt` read hexadecimal digits.
magnitude : Text → Option ℕ
unfolding hex_number hex_digit decimal_number
magnitude [] = none
magnitude (c ∷ []) = decimal_number (c ∷ [])
magnitude (c ∷ d ∷ cs) =
    if c == b'0' && (d == b'x' || d == b'X')
    then hex_number none cs
    else decimal_number (c ∷ d ∷ cs)

skip_plus : Text → Text
skip_plus [] = []
skip_plus (c ∷ cs) = if c == b'+' then cs else c ∷ cs

-- `number.parseInt`. What it is given here was split at `-`, so there is no sign `-` to read.
unfoldable pub parse_int : Text → Option ℕ
unfolding magnitude skip_plus trim_start is_space
parse_int s = magnitude (skip_plus (trim_start s))

-- `<` and `===` on numbers that may be NaN.
abbrev pub number_lt : Option ℕ → Option ℕ → Bool
number_lt none b = false
number_lt (some a) none = false
number_lt (some a) (some b) = ltb a b

abbrev pub number_eq : Option ℕ → Option ℕ → Bool
number_eq none b = false
number_eq (some a) none = false
number_eq (some a) (some b) = a == b

-- The destructuring `[a1, a2 = '0'] = a.split('-')`.
unfoldable pub first_part : Text → Text
unfolding before
first_part a = before b'-' a

unfoldable pub second_part : Text → Text
unfolding before after
second_part a = elim (after b'-' a) [ none ↦ codes "0" | some r ↦ before b'-' r ]

-- Whether `a < b`.
unfoldable pub is_smaller_redis_clock : Text → Text → Bool
unfolding parse_int first_part second_part
is_smaller_redis_clock a b =
    number_lt a1n b1n || (number_eq a1n b1n && number_lt (parse_int (second_part a)) b2n)
  where
    a1n : Option ℕ
    a1n = parse_int (first_part a)

    b1n : Option ℕ
    b1n = parse_int (first_part b)

    b2n : Option ℕ
    b2n = parse_int (second_part b)

unfoldable pub max_redis_clock : Text → Text → Text
max_redis_clock a b = if is_smaller_redis_clock a b then b else a

unfoldable pub min_redis_clock : Text → Text → Text
min_redis_clock a b = if is_smaller_redis_clock a b then a else b

-- The clock '0', before every entry of a stream.
abbrev pub zero_clock : Text
zero_clock = codes "0"

-- A clock as redis and `Date` print it.
unfoldable pub clock_text : ℕ → ℕ → Text
clock_text ms seq = decimal ms ++ b'-' ∷ decimal seq

-- The clock `${ms}-I` of `unsafePersistDoc`.
unfoldable pub inline_clock : ℕ → Text
inline_clock ms = decimal ms ++ codes "-I"
