-- ===== src/Base/Texts.antt =====
-- A text of the program as the list of its codes, with its equality test, and decimal numbers in
-- text.
use Prim.Native.Nat.{ℕ, zero, suc, ◌+◌, ◌-◌, ◌*◌, ◌/◌, ◌%◌, ◌<◌}
use Prim.Native.Char.{code}
use Prim.Native.String.{String}
use mathlib.Core.Path.{◌≡◌, refl}
use mathlib.Core.Logic.{◌↔◌, inl, inr}
use mathlib.Core.Bool.{Bool, true, false, not, ◌&&◌}
use mathlib.Core.Option.{Option, none, some}
use mathlib.Core.List.{List, [], ◌∷◌, ◌++◌}
use native.Mathlib.Omega.{arith}
use yhub.Base.Test.{ltb, leb, ◌==◌, if◌then◌else◌, Bool-cases}
use yhub.Base.Lists.{every, every-append}

abbrev pub Text : Type 0
Text = List ℕ

abbrev pub codes : String → Text
codes String.[] = []
codes (String.◌∷◌ c s) = code c ∷ codes s

unfoldable pub text_eq : Text → Text → Bool
text_eq [] [] = true
text_eq [] (d ∷ ds) = false
text_eq (c ∷ cs) [] = false
text_eq (c ∷ cs) (d ∷ ds) = c == d && text_eq cs ds

pub text_eq_refl : (s : Text) → text_eq s s ≡ true
unfolding text_eq
text_eq_refl [] = refl
text_eq_refl (c ∷ cs) = ground (arith, text_eq_refl cs)

pub eq_of_text_eq : (s t : Text) → text_eq s t ≡ true → s ≡ t
unfolding text_eq
eq_of_text_eq [] [] h = refl
eq_of_text_eq [] (d ∷ ds) h = cc
eq_of_text_eq (c ∷ cs) [] h = cc
eq_of_text_eq (c ∷ cs) (d ∷ ds) h = ground (arith, eq_of_text_eq cs ds)

pub text_eq_iff : (s t : Text) → (text_eq s t ≡ true) ↔ (s ≡ t)
text_eq_iff s t = (eq_of_text_eq s t, λ e. rw e (text_eq_refl t))

-- The digits of a number, as a template string prints it; the fuel is above the number.
decimal_within : ℕ → ℕ → Text
decimal_within zero n = []
decimal_within (suc f) n =
    let rest = decimal_within f (n / 10) in
    if ltb n 10 then (b'0' + n) ∷ [] else rest ++ (b'0' + n % 10) ∷ []

unfoldable pub decimal : ℕ → Text
unfolding decimal_within
decimal n = decimal_within (suc n) n

unfoldable pub is_digit : ℕ → Bool
is_digit c = leb b'0' c && leb c b'9'

-- The value of a hexadecimal digit.
unfoldable pub hex_digit : ℕ → Option ℕ
unfolding is_digit
hex_digit c =
    if is_digit c
    then some (c - b'0')
    else if leb b'a' c && leb c b'f'
    then some (c - b'a' + 10)
    else if leb b'A' c && leb c b'F'
    then some (c - b'A' + 10)
    else none

-- `s.startsWith(p)`, with what follows the prefix.
unfoldable pub strip_prefix : Text → Text → Option Text
strip_prefix [] s = some s
strip_prefix (c ∷ p) [] = none
strip_prefix (c ∷ p) (d ∷ s) = if c == d then strip_prefix p s else none

-- `s.split(c)`
push_front : ℕ → List Text → List Text
push_front d [] = (d ∷ []) ∷ []
push_front d (part ∷ parts) = (d ∷ part) ∷ parts

unfoldable pub split : ℕ → Text → List Text
unfolding push_front
split c [] = [] ∷ []
split c (d ∷ s) = let rest = split c s in if d == c then [] ∷ rest else push_front d rest

-- The value of a text of digits, after a number that has been read.
unfoldable pub digits_value : ℕ → Text → ℕ
digits_value a [] = a
digits_value a (c ∷ cs) = digits_value (a * 10 + (c - b'0')) cs

digits_value-append :
    (a c : ℕ) (s : Text) → digits_value a (s ++ c ∷ []) ≡ digits_value a s * 10 + (c - b'0')
unfolding digits_value
digits_value-append a c [] = refl
digits_value-append a c (d ∷ s) = digits_value-append (a * 10 + (d - b'0')) c s

decimal_within_value : (f n : ℕ) → n < f → digits_value 0 (decimal_within f n) ≡ n
unfolding decimal_within digits_value
decimal_within_value zero n h = elim h [ ]
decimal_within_value (suc f) n h = ground (
  arith,
  decimal_within_value f (n / 10),
  digits_value-append 0 (b'0' + n % 10) (decimal_within f (n / 10)),
)

-- Reading a printed number gives it back.
pub digits_value-decimal : (n : ℕ) → digits_value 0 (decimal n) ≡ n
unfolding decimal
digits_value-decimal n = decimal_within_value (suc n) n (omega arith)

decimal_within_digits : (f n : ℕ) → every is_digit (decimal_within f n) ≡ true
unfolding decimal_within is_digit
decimal_within_digits zero n = refl
decimal_within_digits (suc f) n = ground (
  arith,
  decimal_within_digits f (n / 10),
  every-append is_digit (decimal_within f (n / 10)) ((b'0' + n % 10) ∷ []),
)

pub decimal_digits : (n : ℕ) → every is_digit (decimal n) ≡ true
unfolding decimal
decimal_digits n = decimal_within_digits (suc n) n

snoc_cons : (s : Text) (c : ℕ) → (d : ℕ) × (r : Text) × (s ++ c ∷ [] ≡ d ∷ r)
snoc_cons [] c = (c, [], refl)
snoc_cons (d ∷ s) c = (d, s ++ c ∷ [], refl)

-- A printed number has a first digit.
pub decimal_cons : (n : ℕ) → (d : ℕ) × (r : Text) × (decimal n ≡ d ∷ r)
unfolding decimal decimal_within
decimal_cons n = elim (Bool-cases (ltb n 10)) [
  | inl small ↦ (b'0' + n, [], rw small)
  | inr big ↦ rw big (snoc_cons (decimal_within n (n / 10)) (b'0' + n % 10))
]

pub strip_prefix-eq_some : (p s r : Text) → strip_prefix p s ≡ some r → s ≡ p ++ r
unfolding strip_prefix
strip_prefix-eq_some [] s r h = ground arith
strip_prefix-eq_some (c ∷ p) [] r h = cc
strip_prefix-eq_some (c ∷ p) (d ∷ s) r h = ground (arith, strip_prefix-eq_some p s r)

pub strip_prefix-append : (p s : Text) → strip_prefix p (p ++ s) ≡ some s
unfolding strip_prefix
strip_prefix-append [] s = refl
strip_prefix-append (c ∷ p) s = ground (arith, strip_prefix-append p s)

pub text_eq_comm : (s t : Text) → text_eq s t ≡ text_eq t s
unfolding text_eq
text_eq_comm [] [] = refl
text_eq_comm [] (d ∷ ds) = refl
text_eq_comm (c ∷ cs) [] = refl
text_eq_comm (c ∷ cs) (d ∷ ds) = ground (arith, text_eq_comm cs ds)

-- A text without the separator is one part, and ends at the first separator behind it.
pub split-none : (c : ℕ) (s : Text) → every (λ d. not (d == c)) s ≡ true → split c s ≡ s ∷ []
unfolding split
split-none c [] h = refl
split-none c (d ∷ s) h = ground (arith, split-none c s)

pub split-first :
    (c : ℕ) (s r : Text) → every (λ d. not (d == c)) s ≡ true → split c (s ++ c ∷ r) ≡ s ∷ split c r
unfolding split
split-first c [] r h = ground arith
split-first c (d ∷ s) r h = ground (arith, split-first c s r)
