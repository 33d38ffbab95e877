-- ===== src/Server/Invariant.antt =====
-- src/server.js: a connection in every order of events.
use yhub.Base.{
  Bool, true, false, Option, none, some, is_some, List, Text, if◌then◌else◌, ltb, length, ◌≡◌, refl,
  arith, ◌∙◌,
}
use yhub.Json.{Fields}
use yhub.Message.{Bytes}
use yhub.Hub.Merging.{DocTable}
use yhub.Server.{AccessType, Environment, subscribed, access_asked, User, destroy}
use yhub.Server.Connection.{
  unopened, loading, computing, rechecking, finished, Conn, new_user, some_check,
  send_awareness_state, sync, on_computed, on_loaded, on_close, fail, Event, opened, loaded,
  computed, rechecked, access, streamed, message, add_failed, closed, handle, Reach, created, later,
}
use yhub.Server.Closing.{IsUser, perform-IsUser, close-IsUser, destroy-IsUser}
use yhub.Server.Streaming.{
  if-IsUser, send_data-IsUser, close_doc_deleted-IsUser, on_stream-IsUser, on_access-IsUser,
}
use yhub.Server.Writing.{on_message-IsUser}

new_user-IsUser :
    (auth_info : Fields) (userid : Text) (granted : Option AccessType)
    (customs : List (Text × Text))
    → IsUser (new_user auth_info userid granted customs)
unfolding new_user
new_user-IsUser auth_info userid granted customs = record {
  closed_destroyed = refl;
  ended_once = omega arith;
  unsubscribed_once = refl;
  silent = λ w. (refl, refl);
}

module _ (env : Environment) where
  close_event-IsUser :
      (b : Bool) (user : User)
      → user.is_closed ≡ b
      → IsUser user
      → IsUser (destroy env (record user { is_closed = true }))
  unfolding destroy
  close_event-IsUser true user c h = simp (h.closed_destroyed ∙ c) (record {
    closed_destroyed = refl;
    ended_once = ground (arith, h.ended_once, c);
    unsubscribed_once = ground (arith, h.unsubscribed_once, c);
    silent = h.silent;
  })
  close_event-IsUser false user c h = simp (h.closed_destroyed ∙ c) (
      destroy-IsUser env (record user { is_closed = true }) (h.closed_destroyed ∙ c) refl
        (ground (arith, h.ended_once, c)) (ground (arith, h.unsubscribed_once, c)) h.silent)

  on_close-IsUser : (user : User) → IsUser user → IsUser (on_close env user)
  unfolding on_close
  on_close-IsUser user h = close_event-IsUser user.is_closed user refl h

  fail-IsUser : (user : User) → IsUser user → IsUser (fail env user)
  unfolding fail
  fail-IsUser user h = close-IsUser env 1011 user h

  connected-IsUser : (user : User) → IsUser user → IsUser (record user { connected = true })
  connected-IsUser user h = record {
    closed_destroyed = h.closed_destroyed;
    ended_once = h.ended_once;
    unsubscribed_once = h.unsubscribed_once;
    silent = h.silent;
  }

  clock-IsUser :
      (clock : Text) (user : User)
      → IsUser user
      → IsUser (record user { last_received_clock = clock })
  clock-IsUser clock user h = record {
    closed_destroyed = h.closed_destroyed;
    ended_once = h.ended_once;
    unsubscribed_once = h.unsubscribed_once;
    silent = h.silent;
  }

  send_awareness_state-IsUser :
      (aw : Option Bytes) (user : User) → IsUser user → IsUser (send_awareness_state env aw user)
  send_awareness_state-IsUser none user h = h
  send_awareness_state-IsUser (some aw) user h =
      if-IsUser (ltb 3 (length aw)) _ _ (λ l. send_data-IsUser env aw user h) (λ l. h)

  sync-IsUser :
      (d : DocTable) (ydoc sv : Bytes) (user : User)
      → IsUser user
      → IsUser (sync env d ydoc sv user)
  unfolding sync
  sync-IsUser d ydoc sv user h =
      if-IsUser user.is_closed _ _ (λ c. h)
        (λ c.
          perform-IsUser (subscribed d.last_clock) _ refl refl (λ w. refl)
            (clock-IsUser d.last_clock _ (
              send_awareness_state-IsUser d.awareness _
                (send_data-IsUser env _ _ (send_data-IsUser env _ user h)))))

  abbrev pub UserOf : Conn → Type 0
  UserOf c = IsUser c.1

  if-UserOf : (b : Bool) (c d : Conn) → UserOf c → UserOf d → UserOf (if b then c else d)
  if-UserOf true c d h k = h
  if-UserOf false c d h k = k

  on_loaded-UserOf :
      (empty : Bytes) (d : DocTable) (user : User)
      → IsUser user
      → UserOf (on_loaded env empty d user)
  unfolding on_loaded
  on_loaded-UserOf empty d user h =
      if-UserOf (is_some d.tombstone) _ _ (close_doc_deleted-IsUser env user h) h

  on_computed-UserOf :
      (d : DocTable) (ydoc sv : Bytes) (user : User)
      → IsUser user
      → UserOf (on_computed env d ydoc sv user)
  unfolding on_computed
  on_computed-UserOf d ydoc sv user h =
      if-UserOf (some_check env user d.auth_checks) _ _
        (perform-IsUser access_asked user refl refl (λ w. refl) h) (sync-IsUser d ydoc sv user h)

  handle-UserOf : (empty : Bytes) (e : Event) (c : Conn) → UserOf c → UserOf (handle env empty e c)
  unfolding handle
  handle-UserOf empty opened (unopened, user) h = connected-IsUser user h
  handle-UserOf empty opened (loading, user) h = h
  handle-UserOf empty opened (computing d ydoc, user) h = h
  handle-UserOf empty opened (rechecking d ydoc sv, user) h = h
  handle-UserOf empty opened (finished, user) h = h
  handle-UserOf empty (loaded none) (unopened, user) h = h
  handle-UserOf empty (loaded none) (loading, user) h = fail-IsUser user h
  handle-UserOf empty (loaded none) (computing d ydoc, user) h = h
  handle-UserOf empty (loaded none) (rechecking d ydoc sv, user) h = h
  handle-UserOf empty (loaded none) (finished, user) h = h
  handle-UserOf empty (loaded (some d)) (unopened, user) h = h
  handle-UserOf empty (loaded (some d)) (loading, user) h = on_loaded-UserOf empty d user h
  handle-UserOf empty (loaded (some d)) (computing d' ydoc, user) h = h
  handle-UserOf empty (loaded (some d)) (rechecking d' ydoc sv, user) h = h
  handle-UserOf empty (loaded (some d)) (finished, user) h = h
  handle-UserOf empty (computed none) (unopened, user) h = h
  handle-UserOf empty (computed none) (loading, user) h = h
  handle-UserOf empty (computed none) (computing d ydoc, user) h = fail-IsUser user h
  handle-UserOf empty (computed none) (rechecking d ydoc sv, user) h = h
  handle-UserOf empty (computed none) (finished, user) h = h
  handle-UserOf empty (computed (some sv)) (unopened, user) h = h
  handle-UserOf empty (computed (some sv)) (loading, user) h = h
  handle-UserOf empty (computed (some sv)) (computing d ydoc, user) h =
      on_computed-UserOf d ydoc sv user h
  handle-UserOf empty (computed (some sv)) (rechecking d ydoc sv', user) h = h
  handle-UserOf empty (computed (some sv)) (finished, user) h = h
  handle-UserOf empty (rechecked answer) (unopened, user) h = h
  handle-UserOf empty (rechecked answer) (loading, user) h = h
  handle-UserOf empty (rechecked answer) (computing d ydoc, user) h = h
  handle-UserOf empty (rechecked answer) (rechecking d ydoc sv, user) h =
      sync-IsUser d ydoc sv _ (on_access-IsUser env answer user h)
  handle-UserOf empty (rechecked answer) (finished, user) h = h
  handle-UserOf empty (access answer) (phase, user) h = on_access-IsUser env answer user h
  handle-UserOf empty (streamed ms) (phase, user) h = on_stream-IsUser env ms user h
  handle-UserOf empty (message bytes) (phase, user) h = on_message-IsUser env bytes user h
  handle-UserOf empty add_failed (phase, user) h = fail-IsUser user h
  handle-UserOf empty closed (phase, user) h = on_close-IsUser user h

  Reach-UserOf :
      {empty : Bytes} {user : User} {c : Conn} → IsUser user → Reach env empty user c → UserOf c
  Reach-UserOf h created = h
  Reach-UserOf {empty} h (later r e) = handle-UserOf empty e _ (Reach-UserOf h r)

-- In every connection that comes about from an upgrade on, in any order of events: it is destroyed
-- just where it is closed; the socket is ended at most once; the stream is unsubscribed from once
-- where the connection is closed and never before; and a client without write access never adds a
-- message to the stream, not even the departure of its awareness.
pub Reach-IsUser :
    (env : Environment) (empty : Bytes) (auth_info : Fields) (userid : Text)
    (granted : Option AccessType) (customs : List (Text × Text)) (c : Conn)
    → Reach env empty (new_user auth_info userid granted customs) c
    → IsUser c.1
Reach-IsUser env empty auth_info userid granted customs c r =
    Reach-UserOf env (new_user-IsUser auth_info userid granted customs) r
