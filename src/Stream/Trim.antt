-- ===== src/Stream/Trim.antt =====
-- src/stream.js: which entries `trimMessages` drops, and what an inline clock does to it.
use yhub.Base.{
  ℕ, ◌+◌, ◌-◌, ◌*◌, ◌<◌, true, not, ◌&&◌, none, some, [], ◌∷◌, ◌++◌, Text, if◌then◌else◌, ltb, leb,
  is_digit, every, decimal, decimal_cons, decimal_digits, digits_value-decimal, ◌≡◌, refl, arith,
  ap,
}
use yhub.Clock.{is_smaller_redis_clock, clock_text, inline_clock}
use yhub.Clock.Printed.{is_smaller-clock_text, is_smaller-decimal, leading_digits-clock_text}
use yhub.Stream.{inc_digits, after_digits, inc_stream_id, minid_ts, trim_id}

after_digits-dash : (s r : Text) → every is_digit s ≡ true → after_digits (s ++ b'-' ∷ r) ≡ b'-' ∷ r
unfolding after_digits is_digit
after_digits-dash [] r h = refl
after_digits-dash (c ∷ s) r h = ground (arith, after_digits-dash s r)

minid_ts-dash : (ms : ℕ) (r : Text) → minid_ts (decimal ms ++ b'-' ∷ r) ≡ some ms
unfolding minid_ts
minid_ts-dash ms r =
    let (c, s, e) = decimal_cons ms in
    rw (leading_digits-clock_text ms r, minid_ts)
      (rw (e, minid_ts) (ap some (rw e at (digits_value-decimal ms))))

inc_stream_id-dash :
    (ms : ℕ) (r : Text)
    → inc_stream_id (decimal ms ++ b'-' ∷ r) ≡ inc_digits (decimal ms) (b'-' ∷ r)
unfolding inc_stream_id
inc_stream_id-dash ms r =
    let (c, s, e) = decimal_cons ms in
    rw (leading_digits-clock_text ms r, after_digits-dash (decimal ms) r (decimal_digits ms)) (rw e)

-- The id that a printed clock is trimmed by.
trim_id-clock_text :
    (seconds ms seq max_age : ℕ)
    → trim_id seconds (clock_text ms seq) max_age ≡ (
        if ltb (ms + max_age) (seconds * 1000)
        then some (clock_text ms (seq + 1))
        else if leb max_age (seconds * 1000)
        then some (decimal (seconds * 1000 - max_age))
        else none)
unfolding trim_id clock_text inc_digits
trim_id-clock_text seconds ms seq max_age = rw (
  minid_ts-dash ms (decimal seq),
  inc_stream_id-dash ms (decimal seq),
  decimal_digits seq,
  digits_value-decimal seq,
)

-- Where `trimMessages` is called with a clock that redis printed and computes an id for XTRIM, the
-- entries with a printed clock below this id are exactly those that do not come after the given
-- clock and are older than `max_age`.
pub trim_id-exact :
    (seconds ms seq max_age : ℕ) (id : Text) (ms' seq' : ℕ)
    → trim_id seconds (clock_text ms seq) max_age ≡ some id
    → is_smaller_redis_clock (clock_text ms' seq') id ≡ (
        not (is_smaller_redis_clock (clock_text ms seq) (clock_text ms' seq'))
        && ltb (ms' + max_age) (seconds * 1000))
trim_id-exact seconds ms seq max_age id ms' seq' h = rw (is_smaller-clock_text ms seq ms' seq') (
    ground (
      arith,
      trim_id-clock_text seconds ms seq max_age,
      is_smaller-clock_text ms' seq' ms (seq + 1),
      is_smaller-decimal ms' seq' (seconds * 1000 - max_age),
    ))

-- On a clock of `unsafePersistDoc` that is older than `max_age` the script raises an error.
pub trim_id-inline_clock :
    (seconds ms max_age : ℕ)
    → ms + max_age < seconds * 1000
    → trim_id seconds (inline_clock ms) max_age ≡ none
unfolding trim_id inline_clock inc_digits is_digit
trim_id-inline_clock seconds ms max_age h =
    rw (minid_ts-dash ms (b'I' ∷ []), inc_stream_id-dash ms (b'I' ∷ [])) (ground arith)
