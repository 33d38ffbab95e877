-- ===== src/Server/Connection.antt =====
-- src/server.js: the upgrade of a request, and a connection from 'open' to 'close'. `open` waits four
-- times; what it waits for is its phase, and other events may come in between.
use yhub.Base.{
  ℕ, Bool, true, false, not, ◌||◌, Option, none, some, is_some, List, [], ◌∷◌, Text, codes,
  if◌then◌else◌, ltb, length, or_else,
}
use yhub.Json.{Fields}
use yhub.Message.{Bytes, Message, auth_check}
use yhub.Protocol.{encode_sync_step1, encode_sync_step2}
use yhub.Cors.{ResolvedCors, origin_allowed}
use yhub.Hub.Merging.{DocTable}
use yhub.Server.{
  AccessType, has_read_access, has_write_access, Environment, User, perform, subscribed,
  access_asked, close_doc_deleted, close_with_error, close, destroy, send_data, matches_user,
  on_stream, on_access,
}
use yhub.Server.Receiving.{on_message}

-- What `upgrade` answers.
pub data Answer : Type 0 where
  forbidden : Answer
  -- The status and the message of an error of the api.
  api_error : ℕ → Text → Answer
  unauthorized : Answer
  -- The client is gone, and nothing is written.
  gone : Answer
  upgraded : User → Answer

-- What the auth plugin makes of a request: it throws, an error of the api or another, or reads who
-- it is and what they may do.
pub data Auth : Type 0 where
  api_throws : (status : ℕ) (message : Text) → Auth
  other_throws : Auth
  read : (auth_info : Fields) (userid : Text) (access : Option AccessType) → Auth

unfoldable pub new_user : Fields → Text → Option AccessType → List (Text × Text) → User
unfolding has_write_access
new_user auth_info userid access customs = record {
  connected = false;
  has_write_access = has_write_access access;
  auth_info = auth_info;
  userid = userid;
  custom_attributions = customs;
  awareness_id = none;
  awareness_last_clock = 0;
  is_closed = false;
  is_destroyed = false;
  last_received_clock = codes "0";
  effects = [];
}

abbrev pub unless_gone : Bool → Answer → Answer
unless_gone aborted answer = if aborted then gone else answer

-- `upgrade` from the plugin on.
unfoldable pub answer : List (Text × Text) → Auth → Bool → Answer
unfolding new_user has_read_access
answer customs (api_throws status message) aborted = unless_gone aborted (api_error status message)
answer customs other_throws aborted = unless_gone aborted unauthorized
answer customs (read auth_info userid access) aborted =
    if not (has_read_access access)
    then forbidden
    else unless_gone aborted (upgraded (new_user auth_info userid access customs))

-- `upgrade`, with the origin, the host and the site of the request; `aborted` is whether the client
-- has gone when the plugin answers.
unfoldable pub upgrade :
    Option ResolvedCors → Text → Text → Text → List (Text × Text) → Auth → Bool → Answer
unfolding answer origin_allowed
upgrade cors origin host site customs auth aborted =
    if not (origin_allowed cors origin host site) then forbidden else answer customs auth aborted

-- What `open` waits for.
pub data Phase : Type 0 where
  unopened : Phase
  loading : Phase
  computing : DocTable → Bytes → Phase
  rechecking : DocTable → Bytes → Bytes → Phase
  finished : Phase

abbrev pub Conn : Type 0
Conn = Phase × User

-- `doctable.gcDoc || doctable.nongcDoc || …` with the update of an empty document.
abbrev pub ydoc_of : Bytes → DocTable → Bytes
ydoc_of empty d = or_else d.gc_doc (or_else d.nongc_doc empty)

module _ (env : Environment) where
  open env use {varints}

  abbrev pub some_check : User → List Message → Bool
  some_check user [] = false
  some_check user (auth_check users force ∷ ms) = matches_user env user users || some_check user ms
  some_check user (m ∷ ms) = some_check user ms

  abbrev pub send_awareness_state : Option Bytes → User → User
  send_awareness_state none user = user
  send_awareness_state (some aw) user = if ltb 3 (length aw) then send_data env aw user else user

  -- `open` behind all that it waits for.
  unfoldable pub sync : DocTable → Bytes → Bytes → User → User
  unfolding send_data encode_sync_step1 encode_sync_step2
  sync d ydoc sv user =
      if user.is_closed
      then user
      else perform (subscribed d.last_clock)
          (record (send_awareness_state d.awareness (
            send_data env (encode_sync_step2 varints ydoc)
              (send_data env (encode_sync_step1 varints sv) user))) {
                last_received_clock = d.last_clock;
              })

  -- `open` from the state vector on.
  unfoldable pub on_computed : DocTable → Bytes → Bytes → User → Conn
  unfolding sync
  on_computed d ydoc sv user =
      if some_check user d.auth_checks
      then (rechecking d ydoc sv, perform access_asked user)
      else (finished, sync d ydoc sv user)

  -- `open` from the document on.
  unfoldable pub on_loaded : Bytes → DocTable → User → Conn
  unfolding close_doc_deleted
  on_loaded empty d user =
      if is_some d.tombstone
      then (finished, close_doc_deleted env user)
      else (computing d (ydoc_of empty d), user)

  unfoldable pub on_close : User → User
  unfolding destroy
  on_close user = destroy env (record user { is_closed = true })

  unfoldable pub fail : User → User
  unfolding close
  fail user = close_with_error env 1011 user

-- What a connection sees. None is a promise that was rejected.
pub data Event : Type 0 where
  opened : Event
  loaded : Option DocTable → Event
  computed : Option Bytes → Event
  -- The answer that `open` waits for, and one that it does not.
  rechecked : Option (Option AccessType) → Event
  access : Option (Option AccessType) → Event
  streamed : List Message → Event
  message : Bytes → Event
  -- `addMessage` was rejected.
  add_failed : Event
  closed : Event

module _ (env : Environment) (empty_update : Bytes) where
  -- What `open` waits for only comes while it waits for it.
  unfoldable pub handle : Event → Conn → Conn
  unfolding on_loaded on_computed sync on_close fail on_stream on_message on_access
  handle opened (unopened, user) = (loading, record user { connected = true })
  handle (loaded none) (loading, user) = (finished, fail env user)
  handle (loaded (some d)) (loading, user) = on_loaded env empty_update d user
  handle (computed none) (computing d ydoc, user) = (finished, fail env user)
  handle (computed (some sv)) (computing d ydoc, user) = on_computed env d ydoc sv user
  handle (rechecked answer) (rechecking d ydoc sv, user) =
      (finished, sync env d ydoc sv (on_access env answer user))
  handle (access answer) (phase, user) = (phase, on_access env answer user)
  handle (streamed ms) (phase, user) = (phase, on_stream env ms user)
  handle (message bytes) (phase, user) = (phase, on_message env bytes user)
  handle add_failed (phase, user) = (phase, fail env user)
  handle closed (phase, user) = (phase, on_close env user)
  handle e c = c

  -- The connections that come about from an upgrade on.
  pub data Reach (user : User) : Conn → Type 0 where
    created : Reach user (unopened, user)
    later : {c : Conn} → Reach user c → (e : Event) → Reach user (handle e c)
