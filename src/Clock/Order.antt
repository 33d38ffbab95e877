-- ===== src/Clock/Order.antt =====
-- src/stream.js: what the comparison of clocks guarantees for any two texts, whether or not they
-- are clocks.
use yhub.Base.{
  ℕ, Bool, true, false, ◌&&◌, ◌||◌, ◌≡◌, Option, some, Text, arith, refl, ◌⊎◌, inl, inr, Bool-cases,
}
use yhub.Clock.{
  number_lt, number_eq, parse_int, first_part, second_part, is_smaller_redis_clock, max_redis_clock,
  min_redis_clock,
}

-- The comparison on what the texts are read as.
abbrev pub smaller : Option ℕ → Option ℕ → Option ℕ → Option ℕ → Bool
smaller a1 a2 b1 b2 = number_lt a1 b1 || (number_eq a1 b1 && number_lt a2 b2)

smaller_irrefl : (a1 a2 : Option ℕ) → smaller a1 a2 a1 a2 ≡ false
smaller_irrefl a1 a2 = ground arith

smaller_trans :
    (a1 a2 b1 b2 c1 c2 : Option ℕ)
    → smaller a1 a2 b1 b2 ≡ true
    → smaller b1 b2 c1 c2 ≡ true
    → smaller a1 a2 c1 c2 ≡ true
smaller_trans a1 a2 b1 b2 c1 c2 h k = ground arith

-- No text is smaller than itself.
pub is_smaller_irrefl : (a : Text) → is_smaller_redis_clock a a ≡ false
unfolding is_smaller_redis_clock
is_smaller_irrefl a = smaller_irrefl (parse_int (first_part a)) (parse_int (second_part a))

pub is_smaller_trans :
    (a b c : Text)
    → is_smaller_redis_clock a b ≡ true
    → is_smaller_redis_clock b c ≡ true
    → is_smaller_redis_clock a c ≡ true
unfolding is_smaller_redis_clock
is_smaller_trans a b c =
    smaller_trans (parse_int (first_part a)) (parse_int (second_part a)) (parse_int (first_part b))
      (parse_int (second_part b)) (parse_int (first_part c)) (parse_int (second_part c))

is_smaller_asymm :
    (a b : Text) → is_smaller_redis_clock a b ≡ true → is_smaller_redis_clock b a ≡ false
is_smaller_asymm a b h = ground (arith, is_smaller_trans a b a h, is_smaller_irrefl a)

-- `maxRedisClock` of any two texts is one of the two, and is not smaller than either of them.
pub max_redis_clock_bounds :
    (a b : Text)
    → ((max_redis_clock a b ≡ a) ⊎ (max_redis_clock a b ≡ b))
      × (is_smaller_redis_clock (max_redis_clock a b) a ≡ false)
      × (is_smaller_redis_clock (max_redis_clock a b) b ≡ false)
unfolding max_redis_clock
max_redis_clock_bounds a b = elim (Bool-cases (is_smaller_redis_clock a b)) [
  | inl h ↦ rw h (inr refl, is_smaller_asymm a b h, is_smaller_irrefl b)
  | inr h ↦ rw h (inl refl, is_smaller_irrefl a, h)
]

-- The minimum of two texts is one of them, and neither is smaller than it.
pub min_redis_clock_bounds :
    (a b : Text)
    → ((min_redis_clock a b ≡ a) ⊎ (min_redis_clock a b ≡ b))
      × (is_smaller_redis_clock a (min_redis_clock a b) ≡ false)
      × (is_smaller_redis_clock b (min_redis_clock a b) ≡ false)
unfolding min_redis_clock
min_redis_clock_bounds a b = elim (Bool-cases (is_smaller_redis_clock a b)) [
  | inl h ↦ rw h (inl refl, is_smaller_irrefl a, is_smaller_asymm a b h)
  | inr h ↦ rw h (inr refl, h, is_smaller_irrefl b)
]

-- A clock that reads as two numbers: what redis makes, and '0'.
abbrev pub IsClock : Text → Type 0
IsClock a =
    (ms : ℕ) × (seq : ℕ) × (parse_int (first_part a) ≡ some ms)
    × (parse_int (second_part a) ≡ some seq)

-- `b` does not come before `a`.
abbrev pub NotBefore : Text → Text → Type 0
NotBefore a b = is_smaller_redis_clock b a ≡ false

lex_trans :
    (a1 a2 b1 b2 c1 c2 : ℕ)
    → smaller (some b1) (some b2) (some a1) (some a2) ≡ false
    → smaller (some c1) (some c2) (some b1) (some b2) ≡ false
    → smaller (some c1) (some c2) (some a1) (some a2) ≡ false
lex_trans a1 a2 b1 b2 c1 c2 h k = ground arith

-- On such clocks, the order is total: not to come before is transitive.
pub NotBefore-trans :
    (a b c : Text)
    → IsClock a
    → IsClock b
    → IsClock c
    → NotBefore a b
    → NotBefore b c
    → NotBefore a c
unfolding is_smaller_redis_clock
NotBefore-trans a b c (ams, aseq, a1, a2) (bms, bseq, b1, b2) (cms, cseq, c1, c2) h k =
    rw (c1, c2, a1, a2)
      (lex_trans ams aseq bms bseq cms cseq (rw (a1, a2, b1, b2) at h) (rw (b1, b2, c1, c2) at k))

pub max-IsClock : (a b : Text) → IsClock a → IsClock b → IsClock (max_redis_clock a b)
unfolding max_redis_clock
max-IsClock a b ca cb = elim (Bool-cases (is_smaller_redis_clock a b)) [
  | inl h ↦ rw h cb
  | inr h ↦ rw h ca
]
