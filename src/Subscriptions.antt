-- ===== src/Subscriptions.antt =====
-- src/stream.js: `subscribe`, `unsubscribe` and the loop of `_runSub`. A subscriber is shared by the
-- sets that hold it, so the sets hold its number. `takes` is whether its `onStreamMessage` returns; where
-- it throws, its `closeWithError` is called, which takes it out of the sets by `unsubscribe`.
pub mod Order
pub mod Complete
use yhub.Base.{
  ℕ, Bool, true, false, not, ◌||◌, List, [], ◌∷◌, ◌++◌, Text, text_eq, if◌then◌else◌, keep, some_of,
  ◌==◌,
}
use yhub.Clock.{is_smaller_redis_clock, min_redis_clock}
use yhub.Stream.Messages.{Stamped}

pub record Subscriber : Type 0 where
  pub id : ℕ
  pub last_received_clock : Text
  pub is_closed : Bool
  -- What `onStreamMessage` was given, by the calls that returned.
  pub received : List Stamped

-- An entry of `subs` or of `subUpdates`.
pub record Sub : Type 0 where
  pub stream_name : Text
  pub last_received_clock : Text
  pub subs : List ℕ

-- An element of what `getMessages` returns.
pub record StreamMessages : Type 0 where
  pub stream_name : Text
  pub messages : List Stamped
  pub last_clock : Text

pub record Subscriptions : Type 0 where
  pub subs : List Sub
  pub sub_updates : List Sub
  pub subscribers : List Subscriber

abbrev pub has : ℕ → List ℕ → Bool
has id ids = some_of (λ i. i == id) ids

-- `Set.add`
abbrev pub add_id : ℕ → List ℕ → List ℕ
add_id id ids = if has id ids then ids else ids ++ id ∷ []

abbrev pub add_ids : List ℕ → List ℕ → List ℕ
add_ids [] ids = ids
add_ids (i ∷ is) ids = add_ids is (add_id i ids)

-- `subscribe` in `subUpdates`
unfoldable pub add_update : Text → Text → ℕ → List Sub → List Sub
unfolding min_redis_clock
add_update name clock id [] =
    record { stream_name = name; last_received_clock = min_redis_clock clock clock; subs = id ∷ [] }
    ∷ []
add_update name clock id (s ∷ updates) =
    let rest = add_update name clock id updates in
    if text_eq s.stream_name name
    then record s {
      last_received_clock = min_redis_clock s.last_received_clock clock;
      subs = add_id id s.subs;
    }
      ∷ updates
    else s ∷ rest

abbrev pub with_subs : Sub → List ℕ → List Sub → List Sub
with_subs s [] rest = rest
with_subs s (i ∷ is) rest = record s { subs = i ∷ is } ∷ rest

-- `unsubscribe` in one of the two maps: an entry without subscribers is deleted.
unfoldable pub remove_id : Text → ℕ → List Sub → List Sub
remove_id name id [] = []
remove_id name id (s ∷ subs) =
    let rest = remove_id name id subs in
    if text_eq s.stream_name name
    then with_subs s (keep (λ i. not (i == id)) s.subs) subs
    else s ∷ rest

-- An entry of `subUpdates` is merged into `subs`.
unfoldable pub merge_update : Sub → List Sub → List Sub
merge_update update [] = record update { subs = add_ids update.subs [] } ∷ []
merge_update update (s ∷ subs) =
    let rest = merge_update update subs in
    if text_eq s.stream_name update.stream_name
    then record s {
      last_received_clock =
          if is_smaller_redis_clock update.last_received_clock s.last_received_clock
          then update.last_received_clock
          else s.last_received_clock;
      subs = add_ids update.subs s.subs;
    }
      ∷ subs
    else s ∷ rest

unfoldable pub merge_updates : List Sub → List Sub → List Sub
unfolding merge_update
merge_updates [] subs = subs
merge_updates (u ∷ updates) subs = merge_updates updates (merge_update u subs)

-- The messages behind a clock.
abbrev pub newer : Text → List Stamped → List Stamped
newer clock ms = keep (λ m. is_smaller_redis_clock clock m.redis_clock) ms

module _ (takes : ℕ → List Stamped → Bool) where
  -- `onStreamMessage` with messages that are new to the subscriber, if there are any.
  unfoldable pub notify : List Stamped → Text → Subscriber → Subscriber
  notify [] last_clock s = s
  notify (m ∷ ms) last_clock s =
      if takes s.id (m ∷ ms)
      then record s { received = s.received ++ m ∷ ms; last_received_clock = last_clock }
      else record s { is_closed = true }

  unfoldable pub give : StreamMessages → Subscriber → Subscriber
  unfolding notify
  give m s = notify (newer s.last_received_clock m.messages) m.last_clock s

  unfoldable pub give_each : List ℕ → StreamMessages → List Subscriber → List Subscriber
  unfolding give
  give_each ids m [] = []
  give_each ids m (s ∷ subscribers) =
      let rest = give_each ids m subscribers in (if has s.id ids then give m s else s) ∷ rest

  -- The entry of a stream moves to the clock of what was read.
  unfoldable pub advance : StreamMessages → List Sub → List Sub
  advance m [] = []
  advance m (s ∷ subs) =
      let rest = advance m subs in
      if text_eq s.stream_name m.stream_name
      then record s { last_received_clock = m.last_clock } ∷ subs
      else s ∷ rest

  abbrev pub subscribed_to : Text → List Sub → List ℕ
  subscribed_to name [] = []
  subscribed_to name (s ∷ subs) =
      if text_eq s.stream_name name then s.subs else subscribed_to name subs

  unfoldable pub deliver : StreamMessages → Subscriptions → Subscriptions
  unfolding give_each advance
  deliver m state = record state {
    subs = advance m state.subs;
    subscribers = give_each (subscribed_to m.stream_name state.subs) m state.subscribers;
  }

  unfoldable pub deliver_all : List StreamMessages → Subscriptions → Subscriptions
  unfolding deliver
  deliver_all [] state = state
  deliver_all (m ∷ ms) state = deliver_all ms (deliver m state)

-- A new subscriber is subscribed with the clock that it has.
unfoldable pub subscribe : Text → ℕ → Text → Subscriptions → Subscriptions
unfolding add_update
subscribe name id clock state = record state {
  sub_updates = add_update name clock id state.sub_updates;
  subscribers =
      state.subscribers
      ++ record { id = id; last_received_clock = clock; is_closed = false; received = [] } ∷ [];
}

unfoldable pub unsubscribe : Text → ℕ → Subscriptions → Subscriptions
unfolding remove_id
unsubscribe name id state = record state {
  subs = remove_id name id state.subs;
  sub_updates = remove_id name id state.sub_updates;
}

-- The start of a round of the loop.
unfoldable pub update_subs : Subscriptions → Subscriptions
unfolding merge_updates
update_subs state = record state {
  subs = merge_updates state.sub_updates state.subs;
  sub_updates = [];
}
