-- ===== src/Persistence/Latest.antt =====
-- src/persistence.js: the last clock of a room is the greatest of its versions' clocks.
use yhub.Base.{
  Bool, true, false, ◌||◌, List, [], ◌∷◌, Text, map, ◌≡◌, refl, arith, Bool-cases, inl, inr,
  some_of, text_eq, text_eq_iff, is_digit, digits_value,
}
use yhub.Clock.{
  is_smaller_redis_clock, zero_clock, first_part, second_part, before, after, parse_int,
  leading_digits,
}
use yhub.Clock.Order.{IsClock, NotBefore, NotBefore-trans, is_smaller_irrefl, is_smaller_trans}
use yhub.Persistence.{Row, insert_clock, sort_clocks, last_or, last_clock_of}

abbrev pub AllClocks : List Text → Type 0
AllClocks [] = Unit
AllClocks (c ∷ cs) = IsClock c × AllClocks cs

-- `a` comes after none of the clocks.
abbrev Below : Text → List Text → Type 0
Below a [] = Unit
Below a (c ∷ cs) = NotBefore a c × Below a cs

abbrev Ordered : List Text → Type 0
Ordered [] = Unit
Ordered (c ∷ cs) = Below c cs × Ordered cs

Below-trans :
    (a b : Text) (cs : List Text)
    → IsClock a
    → IsClock b
    → AllClocks cs
    → NotBefore a b
    → Below b cs
    → Below a cs
Below-trans a b [] ca cb cc h k = tt
Below-trans a b (c ∷ cs) ca cb (cc, ccs) h (k, ks) =
    (NotBefore-trans a b c ca cb cc h k, Below-trans a b cs ca cb ccs h ks)

Below-insert :
    (a b : Text) (cs : List Text) → NotBefore a b → Below a cs → Below a (insert_clock b cs)
unfolding insert_clock
Below-insert a b [] h k = (h, tt)
Below-insert a b (c ∷ cs) h (k, ks) = elim (Bool-cases (is_smaller_redis_clock b c)) [
  | inl e ↦ rw e (h, (k, ks))
  | inr e ↦ rw e (k, Below-insert a b cs h ks)
]

smaller_below : (a b : Text) → is_smaller_redis_clock a b ≡ true → NotBefore a b
smaller_below a b h = ground (arith, is_smaller_trans a b a h, is_smaller_irrefl a)

AllClocks-insert :
    (a : Text) (cs : List Text) → IsClock a → AllClocks cs → AllClocks (insert_clock a cs)
unfolding insert_clock
AllClocks-insert a [] ca cc = (ca, tt)
AllClocks-insert a (c ∷ cs) ca (cc, ccs) = elim (Bool-cases (is_smaller_redis_clock a c)) [
  | inl e ↦ rw e (ca, (cc, ccs))
  | inr e ↦ rw e (cc, AllClocks-insert a cs ca ccs)
]

Ordered-insert :
    (a : Text) (cs : List Text)
    → IsClock a
    → AllClocks cs
    → Ordered cs
    → Ordered (insert_clock a cs)
unfolding insert_clock
Ordered-insert a [] ca cc o = (tt, tt)
Ordered-insert a (c ∷ cs) ca (cc, ccs) (o, os) = elim (Bool-cases (is_smaller_redis_clock a c)) [
  | inl e ↦
      rw e ((smaller_below a c e, Below-trans a c cs ca cc ccs (smaller_below a c e) o), (o, os))
  | inr e ↦ rw e (Below-insert c a cs e o, Ordered-insert a cs ca ccs os)
]

AllClocks-sort : (cs : List Text) → AllClocks cs → AllClocks (sort_clocks cs)
unfolding sort_clocks
AllClocks-sort [] h = tt
AllClocks-sort (c ∷ cs) (h, hs) = AllClocks-insert c (sort_clocks cs) h (AllClocks-sort cs hs)

Ordered-sort : (cs : List Text) → AllClocks cs → Ordered (sort_clocks cs)
unfolding sort_clocks
Ordered-sort [] h = tt
Ordered-sort (c ∷ cs) (h, hs) =
    Ordered-insert c (sort_clocks cs) h (AllClocks-sort cs hs) (Ordered-sort cs hs)

-- Whether a clock is in a list.
abbrev pub listed_clock : Text → List Text → Bool
listed_clock c = some_of (text_eq c)

listed-insert :
    (c a : Text) (cs : List Text)
    → listed_clock c (insert_clock a cs) ≡ (text_eq c a || listed_clock c cs)
unfolding insert_clock
listed-insert c a [] = refl
listed-insert c a (b ∷ bs) = ground (arith, listed-insert c a bs)

listed-sort : (c : Text) (cs : List Text) → listed_clock c (sort_clocks cs) ≡ listed_clock c cs
unfolding sort_clocks
listed-sort c [] = refl
listed-sort c (b ∷ bs) = ground (arith, listed-insert c b (sort_clocks bs), listed-sort c bs)

last_above : (d : Text) (cs : List Text) → Below d cs → Ordered cs → NotBefore d (last_or d cs)
unfolding last_or
last_above d [] h o = is_smaller_irrefl d
last_above d (c ∷ []) (h, hs) (o, os) = h
last_above d (c ∷ b ∷ cs) (h, (k, ks)) ((o1, o), (o2, os)) = last_above d (b ∷ cs) (k, ks) (o2, os)

last-Ordered :
    (c d : Text) (cs : List Text)
    → Ordered cs
    → listed_clock c cs ≡ true
    → NotBefore c (last_or d cs)
unfolding last_or
last-Ordered c d (b ∷ cs) (o, os) h = elim (Bool-cases (text_eq c b)) [
  | inl e ↦ rw ((text_eq_iff c b).0 e) (last_above b cs o os)
  | inr e ↦ last-Ordered c b cs os (ground arith)
]
last-Ordered c d [] o h = cc

abbrev pub clocks : List Row → List Text
clocks = map (λ (row : Row). row.t)

-- No version comes after the last clock.
pub last_clock_of-greatest :
    (rows : List Row) (row : Row)
    → AllClocks (clocks rows)
    → listed_clock row.t (clocks rows) ≡ true
    → is_smaller_redis_clock (last_clock_of rows) row.t ≡ false
unfolding last_clock_of
last_clock_of-greatest rows row h e =
    last-Ordered row.t zero_clock (sort_clocks (clocks rows)) (Ordered-sort (clocks rows) h)
      (rw (listed-sort row.t (clocks rows)) e)

last_or-IsClock : (d : Text) (cs : List Text) → IsClock d → AllClocks cs → IsClock (last_or d cs)
unfolding last_or
last_or-IsClock d [] h k = h
last_or-IsClock d (c ∷ cs) h (k, ks) = last_or-IsClock c cs k ks

zero_clock-IsClock : IsClock zero_clock
unfolding first_part second_part before after parse_int leading_digits is_digit digits_value
zero_clock-IsClock = (0, 0, refl, refl)

pub last_clock_of-IsClock :
    (rows : List Row) → AllClocks (clocks rows) → IsClock (last_clock_of rows)
unfolding last_clock_of
last_clock_of-IsClock rows h =
    last_or-IsClock zero_clock (sort_clocks (clocks rows)) zero_clock-IsClock
      (AllClocks-sort (clocks rows) h)
