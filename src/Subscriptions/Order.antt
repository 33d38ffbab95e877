-- ===== src/Subscriptions/Order.antt =====
-- src/stream.js: what a subscriber gets is in order, and nothing comes twice.
use yhub.Base.{
  ℕ, Bool, true, false, ◌&&◌, ◌||◌, List, [], ◌∷◌, ◌++◌, Text, text_eq, eq_of_text_eq, keep, every,
  every-append, every_imp, ◌≡◌, refl, arith, sym, subst, Bool-cases, inl, inr,
}
use yhub.Clock.{is_smaller_redis_clock}
use yhub.Clock.Order.{is_smaller_trans}
use yhub.Stream.Messages.{Stamped}
use yhub.Subscriptions.{
  Subscriber, StreamMessages, Subscriptions, has, newer, notify, give, give_each, deliver,
  deliver_all, subscribe, unsubscribe, update_subs,
}

-- A clock that is not behind another: the same text, or smaller.
abbrev pub up_to : Text → Text → Bool
up_to c a = text_eq a c || is_smaller_redis_clock a c

abbrev pub before : Text → Stamped → Bool
before c m = is_smaller_redis_clock c m.redis_clock

abbrev pub within : Text → Stamped → Bool
within c m = up_to c m.redis_clock

-- Messages in the order of their clocks, each one once.
abbrev pub ascending : List Stamped → Bool
ascending [] = true
ascending (m ∷ ms) = every (before m.redis_clock) ms && ascending ms

-- What a subscriber has received, up to its clock.
abbrev pub is_ordered : Subscriber → Bool
is_ordered s = ascending s.received && every (within s.last_received_clock) s.received

-- What XREAD replies: the entries in order, up to the last one.
abbrev pub is_reply : StreamMessages → Bool
is_reply m = ascending m.messages && every (within m.last_clock) m.messages

pub up_to-smaller :
    (a c b : Text)
    → up_to c a ≡ true
    → is_smaller_redis_clock c b ≡ true
    → is_smaller_redis_clock a b ≡ true
up_to-smaller a c b h k = elim (Bool-cases (text_eq a c)) [
  | inl e ↦ subst (λ x. is_smaller_redis_clock x b ≡ true) (sym (eq_of_text_eq a c e)) k
  | inr e ↦ is_smaller_trans a c b (ground (arith, e, h)) k
]

every-keep :
    (p q : Stamped → Bool) (ms : List Stamped) → every p ms ≡ true → every p (keep q ms) ≡ true
every-keep p q [] h = refl
every-keep p q (m ∷ ms) h = ground (arith, h, every-keep p q ms)

every-kept : (p : Stamped → Bool) (ms : List Stamped) → every p (keep p ms) ≡ true
every-kept p [] = refl
every-kept p (m ∷ ms) = ground (arith, every-kept p ms)

ascending-keep :
    (q : Stamped → Bool) (ms : List Stamped) → ascending ms ≡ true → ascending (keep q ms) ≡ true
ascending-keep q [] h = refl
ascending-keep q (m ∷ ms) h =
    ground (arith, h, ascending-keep q ms, every-keep (before m.redis_clock) q ms)

-- Two ascending lists with a clock between them.
ascending-append :
    (c : Text) (ms ns : List Stamped)
    → ascending ms ≡ true
    → every (within c) ms ≡ true
    → ascending ns ≡ true
    → every (before c) ns ≡ true
    → ascending (ms ++ ns) ≡ true
ascending-append c [] ns a b d e = d
ascending-append c (m ∷ ms) ns a b d e = ground (
  arith,
  a,
  b,
  ascending-append c ms ns,
  every-append (before m.redis_clock) ms ns,
  every_imp (before c) (before m.redis_clock)
      (λ n. up_to-smaller m.redis_clock c n.redis_clock (ground (arith, b))) ns e,
)

smaller-up_to :
    (a c b : Text)
    → is_smaller_redis_clock a b ≡ true
    → up_to c b ≡ true
    → is_smaller_redis_clock a c ≡ true
smaller-up_to a c b h k = elim (Bool-cases (text_eq b c)) [
  | inl e ↦ subst (λ x. is_smaller_redis_clock a x ≡ true) (eq_of_text_eq b c e) h
  | inr e ↦ is_smaller_trans a b c h (ground (arith, e, k))
]

-- What is up to a clock is up to every later one.
within-later :
    (c d : Text) (ms : List Stamped)
    → is_smaller_redis_clock c d ≡ true
    → every (within c) ms ≡ true
    → every (within d) ms ≡ true
within-later c d ms h k =
    every_imp (within c) (within d) (λ m w. ground (arith, up_to-smaller m.redis_clock c d w h)) ms
      k

module _ (takes : ℕ → List Stamped → Bool) where
  notify-is_ordered :
      (ms : List Stamped) (last : Text) (s : Subscriber)
      → ascending ms ≡ true
      → every (before s.last_received_clock) ms ≡ true
      → every (within last) ms ≡ true
      → is_ordered s ≡ true
      → is_ordered (notify takes ms last s) ≡ true
  unfolding notify
  notify-is_ordered [] last s a b w h = h
  notify-is_ordered (m ∷ ms) last s a b w h = elim (Bool-cases (takes s.id (m ∷ ms))) [
    | inr t ↦ simp (notify, t) h
    | inl t ↦
        simp (notify, t)
          (ground (
            arith,
            ascending-append s.last_received_clock s.received (m ∷ ms) (ground (arith, h))
                (ground (arith, h)) a b,
            every-append (within last) s.received (m ∷ ms),
            w,
            within-later s.last_received_clock last s.received
                (smaller-up_to s.last_received_clock last m.redis_clock (ground (arith, b))
                  (ground (arith, w)))
                (ground (arith, h)),
          ))
  ]

  give-is_ordered :
      (m : StreamMessages) (s : Subscriber)
      → is_reply m ≡ true
      → is_ordered s ≡ true
      → is_ordered (give takes m s) ≡ true
  unfolding give
  give-is_ordered m s r h =
      notify-is_ordered (newer s.last_received_clock m.messages) m.last_clock s
        (ascending-keep (before s.last_received_clock) m.messages (ground (arith, r)))
        (every-kept (before s.last_received_clock) m.messages)
        (every-keep (within m.last_clock) (before s.last_received_clock) m.messages
          (ground (arith, r)))
        h

  give_each-is_ordered :
      (ids : List ℕ) (m : StreamMessages) (ss : List Subscriber)
      → is_reply m ≡ true
      → every is_ordered ss ≡ true
      → every is_ordered (give_each takes ids m ss) ≡ true
  unfolding give_each
  give_each-is_ordered ids m [] r h = refl
  give_each-is_ordered ids m (s ∷ ss) r h = elim (Bool-cases (has s.id ids)) [
    | inl e ↦ simp (e) (
        ground (
          arith,
          give-is_ordered m s r (ground (arith, h)),
          give_each-is_ordered ids m ss r (ground (arith, h)),
        ))
    | inr e ↦ simp (e) (ground (arith, h, give_each-is_ordered ids m ss r (ground (arith, h))))
  ]

  deliver_all-is_ordered :
      (ms : List StreamMessages) (state : Subscriptions)
      → every is_reply ms ≡ true
      → every is_ordered state.subscribers ≡ true
      → every is_ordered (deliver_all takes ms state).subscribers ≡ true
  unfolding deliver_all deliver
  deliver_all-is_ordered [] state r h = h
  deliver_all-is_ordered (m ∷ ms) state r h =
      deliver_all-is_ordered ms _ (ground (arith, r))
        (give_each-is_ordered _ m state.subscribers (ground (arith, r)) h)

  -- The states of the subscriptions, from none on: a round of the loop is `update_subs` and then the
  -- delivery of what XREAD replied; the others may come in between.
  pub data Reach : Subscriptions → Type 0 where
    created : Reach (record { subs = []; sub_updates = []; subscribers = [] })
    subscribing :
        {state : Subscriptions}
        → Reach state
        → (name : Text) (id : ℕ) (clock : Text) → Reach (subscribe name id clock state)
    unsubscribing :
        {state : Subscriptions}
        → Reach state
        → (name : Text) (id : ℕ) → Reach (unsubscribe name id state)
    updating : {state : Subscriptions} → Reach state → Reach (update_subs state)
    delivering :
        {state : Subscriptions}
        → Reach state
        → (ms : List StreamMessages) → every is_reply ms ≡ true
        → Reach (deliver_all takes ms state)

  subscribe-is_ordered :
      (name : Text) (id : ℕ) (clock : Text) (state : Subscriptions)
      → every is_ordered state.subscribers ≡ true
      → every is_ordered (subscribe name id clock state).subscribers ≡ true
  unfolding subscribe
  subscribe-is_ordered name id clock state h = ground (
    arith,
    h,
    every-append is_ordered state.subscribers
        (record { id = id; last_received_clock = clock; is_closed = false; received = [] } ∷ []),
  )

  -- In every order of subscriptions, their ends and rounds of the loop, where each reply of XREAD has
  -- its entries in the order of their clocks: every subscriber has received messages of strictly
  -- growing clocks, so none twice, and none later than its `lastReceivedClock`.
  pub Reach-is_ordered :
      (state : Subscriptions) → Reach state → every is_ordered state.subscribers ≡ true
  unfolding unsubscribe update_subs
  Reach-is_ordered _ created = refl
  Reach-is_ordered _ (subscribing {state} r name id clock) =
      subscribe-is_ordered name id clock state (Reach-is_ordered state r)
  Reach-is_ordered _ (unsubscribing {state} r name id) = Reach-is_ordered state r
  Reach-is_ordered _ (updating {state} r) = Reach-is_ordered state r
  Reach-is_ordered _ (delivering {state} r ms h) =
      deliver_all-is_ordered ms state h (Reach-is_ordered state r)
