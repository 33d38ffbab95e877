-- ===== src/Subscriptions/Complete.antt =====
-- src/stream.js: a subscriber misses no message of its stream.
use yhub.Base.{
  ℕ, Bool, true, false, false≢true, List, [], ◌∷◌, ◌++◌, Text, text_eq_refl, keep, ◌≡◌, refl, arith,
  sym, ap, ◌∙◌, ◌⊎◌, subst, Bool-cases, inl, inr,
}
use mathlib.Core.List.{Mem, mem-append_left, mem-append_right, not-mem-nil, Memᴰ}
use mathlib.Core.Logic.{∥∥₁_map}
use yhub.Stream.Messages.{Stamped}
use yhub.Subscriptions.{Subscriber, StreamMessages, newer, notify, give}
use yhub.Subscriptions.Order.{up_to, before, up_to-smaller}

module _ (p : Stamped → Bool) where
  keep-memberᴰ : (x : Stamped) (ms : List Stamped) → p x ≡ true → Memᴰ x ms → Memᴰ x (keep p ms)
  keep-memberᴰ x [] h r = elim r [ ]
  keep-memberᴰ x (m ∷ ms) h (Memᴰ.head e) = elim (Bool-cases (p m)) [
    | inl k ↦ simp (k) (Memᴰ.head e)
    | inr k ↦ elim (false≢true (sym k ∙ ap p (sym e) ∙ h)) [ ]
  ]
  keep-memberᴰ x (m ∷ ms) h (Memᴰ.tail r) = elim (Bool-cases (p m)) [
    | inl k ↦ simp (k) (Memᴰ.tail (keep-memberᴰ x ms h r))
    | inr k ↦ simp (k) (keep-memberᴰ x ms h r)
  ]

  keep-member : (x : Stamped) (ms : List Stamped) → p x ≡ true → Mem x ms → Mem x (keep p ms)
  keep-member x ms h r = ∥∥₁_map r (keep-memberᴰ x ms h)

-- The messages of a stream: all that it has ever held.
module _ (log : List Stamped) where
  -- Each message later than `start` and not later than `clock` is there.
  abbrev pub Caught : Text → Text → List Stamped → Type 0
  Caught start clock received =
      (x : Stamped) → Mem x log → before start x ≡ true → before clock x ≡ false → Mem x received

  -- A reply holds all messages later than the clock that it was asked with, up to its last one.
  abbrev pub IsComplete : Text → StreamMessages → Type 0
  IsComplete clock m = Caught clock m.last_clock m.messages

  -- Replies of which each is asked for with the end of the one before, or with a clock that the entry
  -- was set back to for another subscriber.
  abbrev pub AllComplete : Text → List StreamMessages → Type 0
  AllComplete clock [] = Unit {0}
  AllComplete clock (m ∷ ms) =
      ((asked : Text) × (up_to clock asked ≡ true) × IsComplete asked m)
      × AllComplete m.last_clock ms

abbrev pub end_clock : Text → List StreamMessages → Text
end_clock clock [] = clock
end_clock clock (m ∷ ms) = end_clock m.last_clock ms

-- A subscriber that stays in the entry of its stream.
abbrev pub follow : (ℕ → List Stamped → Bool) → List StreamMessages → Subscriber → Subscriber
follow takes [] s = s
follow takes (m ∷ ms) s = follow takes ms (give takes m s)

module _ (log : List Stamped) (start : Text) (takes : ℕ → List Stamped → Bool) where
  -- Where the messages up to the end of a reply are: received before, or new.
  abbrev pub Found : Text → List Stamped → List Stamped → Type 0
  Found last received new =
      (x : Stamped)
      → Mem x log
      → before start x ≡ true
      → before last x ≡ false
      → Mem x received ⊎ Mem x new

  newer-Found :
      (clock : Text) (m : StreamMessages) (s : Subscriber)
      → Caught log start clock s.received
      → Caught log start s.last_received_clock s.received
      → IsComplete log clock m
      → Found m.last_clock s.received (newer s.last_received_clock m.messages)
  newer-Found clock m s h k c x i a b = elim (Bool-cases (before clock x)) [
    | inr e ↦ inl (h x i a e)
    | inl e ↦ elim (Bool-cases (before s.last_received_clock x)) [
      | inr f ↦ inl (k x i a f)
      | inl f ↦ inr (keep-member (before s.last_received_clock) x m.messages f (c x i e b))
    ]
  ]

  -- A subscriber that has caught up with a clock and with its own.
  abbrev pub IsCaught : Text → Subscriber → Type 0
  IsCaught clock s =
      Caught log start clock s.received × Caught log start s.last_received_clock s.received

  -- What has caught up with a clock has caught up with an earlier one.
  set_back :
      (clock asked : Text) (received : List Stamped)
      → up_to clock asked ≡ true
      → Caught log start clock received
      → Caught log start asked received
  set_back clock asked received u h x i a b = elim (Bool-cases (before clock x)) [
    | inr e ↦ h x i a e
    | inl e ↦ elim (false≢true (sym b ∙ up_to-smaller asked clock x.redis_clock u e)) [ ]
  ]

  notify-IsCaught :
      (new : List Stamped) (last : Text) (s : Subscriber)
      → takes s.id new ≡ true
      → Found last s.received new
      → Caught log start s.last_received_clock s.received
      → IsCaught last (notify takes new last s)
  unfolding notify
  notify-IsCaught [] last s t f k =
      (λ x i a b. elim (f x i a b) [ inl r ↦ r | inr n ↦ elim (not-mem-nil n) [ ] ], k)
  notify-IsCaught (n ∷ new) last s t f k =
      let all : Caught log start last (s.received ++ n ∷ new) = λ x i a b. elim (f x i a b) [
        | inl r ↦ mem-append_left (n ∷ new) r
        | inr r ↦ mem-append_right s.received r
      ] in
      simp (notify, t) (all, all)

  notify-id :
      (new : List Stamped) (last : Text) (s : Subscriber) → (notify takes new last s).id ≡ s.id
  unfolding notify
  notify-id [] last s = refl
  notify-id (n ∷ new) last s = elim (Bool-cases (takes s.id (n ∷ new))) [
    | inl t ↦ simp (notify, t) refl
    | inr t ↦ simp (notify, t) refl
  ]

  follow-IsCaught :
      (clock : Text) (ms : List StreamMessages) (s : Subscriber)
      → ((new : List Stamped) → takes s.id new ≡ true)
      → AllComplete log clock ms
      → IsCaught clock s
      → IsCaught (end_clock clock ms) (follow takes ms s)
  unfolding give
  follow-IsCaught clock [] s t c h = h
  follow-IsCaught clock (m ∷ ms) s t ((asked, u, c), cs) (h, k) =
      let new = newer s.last_received_clock m.messages in
      follow-IsCaught m.last_clock ms (give takes m s)
        (λ n. subst (λ i. takes i n ≡ true) (sym (notify-id new m.last_clock s)) (t n)) cs
        (notify-IsCaught new m.last_clock s (t new)
          (newer-Found asked m s (set_back clock asked s.received u h) k c) k)

-- A subscriber starts later than the clock of its entry in `subs`, or at it.
starts-Caught :
    (log : List Stamped) (start clock : Text) → up_to start clock ≡ true → Caught log start clock []
starts-Caught log start clock u x i a b =
    elim (false≢true (sym b ∙ up_to-smaller clock start x.redis_clock u a)) [ ]

-- A new subscriber in an entry whose clock is at its own or before it: where its `onStreamMessage`
-- returns, and each reply holds all messages of the stream later than the clock that it was asked
-- with, up to its last entry, it receives every message of the stream that is later than its own
-- clock, up to the end of the last reply. The entry may be set back to an earlier clock before each
-- reply, as it is for another subscriber.
pub follow-Caught :
    (log : List Stamped) (takes : ℕ → List Stamped → Bool) (id : ℕ) (start clock : Text)
    (ms : List StreamMessages)
    → up_to start clock ≡ true
    → ((new : List Stamped) → takes id new ≡ true)
    → AllComplete log clock ms
    → Caught log start
        (end_clock clock ms)
        (follow takes ms (record {
          id = id;
          last_received_clock = start;
          is_closed = false;
          received = [];
        })).received
follow-Caught log takes id start clock ms u t c =
    (follow-IsCaught log start takes clock ms _ t c (
      starts-Caught log start clock u,
      starts-Caught log start start (ground (arith, text_eq_refl start)),
    )).0
