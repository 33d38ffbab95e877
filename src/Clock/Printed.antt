-- ===== src/Clock/Printed.antt =====
-- src/stream.js: clocks in the form in which redis prints them, and the inline clocks that
-- `unsafePersistDoc` of src/index.js makes.
use yhub.Base.{
  ℕ, true, ◌&&◌, ◌||◌, ◌≡◌, refl, none, some, [], ◌∷◌, ◌++◌, Text, arith, ltb, ◌==◌, is_digit,
  every, decimal, digits_value, decimal_digits, decimal_cons, digits_value-decimal, ap, ◌∙◌,
}
use yhub.Clock.{
  before, after, leading_digits, parse_int, first_part, second_part, is_smaller_redis_clock,
  clock_text, inline_clock,
}
use yhub.Clock.Order.{IsClock}

before-digits : (s r : Text) → every is_digit s ≡ true → before b'-' (s ++ b'-' ∷ r) ≡ s
unfolding before is_digit
before-digits [] r h = refl
before-digits (c ∷ s) r h = ground (arith, before-digits s r)

after-digits : (s r : Text) → every is_digit s ≡ true → after b'-' (s ++ b'-' ∷ r) ≡ some r
unfolding after is_digit
after-digits [] r h = refl
after-digits (c ∷ s) r h = ground (arith, after-digits s r)

before-all_digits : (s : Text) → every is_digit s ≡ true → before b'-' s ≡ s
unfolding before is_digit
before-all_digits [] h = refl
before-all_digits (c ∷ s) h = ground (arith, before-all_digits s)

leading_digits-all : (s : Text) → every is_digit s ≡ true → leading_digits s ≡ s
unfolding leading_digits
leading_digits-all [] h = refl
leading_digits-all (c ∷ s) h = ground (arith, leading_digits-all s)

leading_digits-dash : (s r : Text) → every is_digit s ≡ true → leading_digits (s ++ b'-' ∷ r) ≡ s
unfolding leading_digits is_digit
leading_digits-dash [] r h = refl
leading_digits-dash (c ∷ s) r h = ground (arith, leading_digits-dash s r)

-- A text of digits is read as their value, unless it is empty.
parse_int-digits :
    (c : ℕ) (s : Text)
    → every is_digit (c ∷ s) ≡ true
    → parse_int (c ∷ s) ≡ some (digits_value 0 (c ∷ s))
unfolding parse_int is_digit
parse_int-digits c [] h = ground (arith, leading_digits-all (c ∷ []))
parse_int-digits c (d ∷ s) h = ground (arith, leading_digits-all (c ∷ d ∷ s))

parse_int-decimal : (n : ℕ) → parse_int (decimal n) ≡ some n
parse_int-decimal n =
    let (c, s, e) = decimal_cons n in
    rw e (
      parse_int-digits c s (rw e at (decimal_digits n))
      ∙ ap some (rw e at (digits_value-decimal n)))

first_part-clock_text : (ms seq : ℕ) → first_part (clock_text ms seq) ≡ decimal ms
unfolding first_part clock_text
first_part-clock_text ms seq = before-digits (decimal ms) (decimal seq) (decimal_digits ms)

second_part-clock_text : (ms seq : ℕ) → second_part (clock_text ms seq) ≡ decimal seq
unfolding second_part clock_text
second_part-clock_text ms seq =
    rw (after-digits (decimal ms) (decimal seq) (decimal_digits ms), second_part)
      (before-all_digits (decimal seq) (decimal_digits seq))

first_part-inline : (ms : ℕ) → first_part (inline_clock ms) ≡ decimal ms
unfolding first_part inline_clock
first_part-inline ms = before-digits (decimal ms) (b'I' ∷ []) (decimal_digits ms)

second_part-inline : (ms : ℕ) → second_part (inline_clock ms) ≡ b'I' ∷ []
unfolding second_part inline_clock before
second_part-inline ms = rw (after-digits (decimal ms) (b'I' ∷ []) (decimal_digits ms), second_part)

-- On the clocks that redis prints, `isSmallerRedisClock` is the lexicographic order of the
-- milliseconds and the sequence number.
pub is_smaller-clock_text :
    (ms seq ms' seq' : ℕ)
    → is_smaller_redis_clock (clock_text ms seq) (clock_text ms' seq')
      ≡ (ltb ms ms' || (ms == ms' && ltb seq seq'))
unfolding is_smaller_redis_clock
is_smaller-clock_text ms seq ms' seq' =
    simp (first_part-clock_text, second_part-clock_text, parse_int-decimal)

ruleset read_clocks = (
  first_part-clock_text, second_part-clock_text, first_part-inline, second_part-inline,
  parse_int-decimal,
)

-- A clock `ms-I` of `unsafePersistDoc` is compared with a clock that redis printed by the
-- milliseconds alone, in both directions: within one millisecond neither is smaller than the other.
pub is_smaller-inline_clock :
    (ms ms' seq : ℕ)
    → (is_smaller_redis_clock (inline_clock ms) (clock_text ms' seq) ≡ ltb ms ms')
      × (is_smaller_redis_clock (clock_text ms' seq) (inline_clock ms) ≡ ltb ms' ms)
unfolding is_smaller_redis_clock parse_int
is_smaller-inline_clock ms ms' seq =
    (simp read_clocks (ground arith), simp read_clocks (ground arith))

after-none : (s : Text) → every is_digit s ≡ true → after b'-' s ≡ none
unfolding after is_digit
after-none [] h = refl
after-none (c ∷ s) h = ground (arith, after-none s)

first_part-decimal : (n : ℕ) → first_part (decimal n) ≡ decimal n
unfolding first_part
first_part-decimal n = before-all_digits (decimal n) (decimal_digits n)

second_part-decimal : (n : ℕ) → second_part (decimal n) ≡ b'0' ∷ []
unfolding second_part before
second_part-decimal n = rw (after-none (decimal n) (decimal_digits n), second_part)

-- A number of milliseconds alone is the first clock of its millisecond.
pub is_smaller-decimal :
    (ms seq n : ℕ) → is_smaller_redis_clock (clock_text ms seq) (decimal n) ≡ ltb ms n
unfolding is_smaller_redis_clock parse_int
is_smaller-decimal ms seq n =
    simp (read_clocks, first_part-decimal, second_part-decimal) (ground arith)

pub clock_text-IsClock : (ms seq : ℕ) → IsClock (clock_text ms seq)
clock_text-IsClock ms seq = (
  ms,
  seq,
  simp (first_part-clock_text, parse_int-decimal),
  simp (second_part-clock_text, parse_int-decimal),
)

-- A digit run ends at the dash of a printed clock.
pub leading_digits-clock_text :
    (ms : ℕ) (r : Text) → leading_digits (decimal ms ++ b'-' ∷ r) ≡ decimal ms
leading_digits-clock_text ms r = leading_digits-dash (decimal ms) r (decimal_digits ms)
