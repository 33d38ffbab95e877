-- ===== src/Server.antt =====
-- src/server.js: a websocket connection, `WSUser`, and the handlers of its events. What it does to
-- the socket and to the stream is a list of effects. The effects so far and the message decide what
-- `ws.send` answers; the events come in any order.
pub mod Receiving
pub mod Connection
pub mod Closing
pub mod Streaming
pub mod Writing
pub mod Invariant
pub mod Quiet
pub mod Frames
pub mod Deleted
pub mod Upgrade
use yhub.Base.{
  ℕ, zero, suc, ◌<◌, Bool, true, false, not, ◌&&◌, ◌||◌, Option, none, some, is_some, List, [], ◌∷◌,
  ◌++◌, Text, codes, if◌then◌else◌, ltb, ◌==◌, length, some_of, text_eq, decimal, map,
}
use yhub.Json.{Json, null, bool, num, str, arr, obj, Items, nil, cons, Fields, end, field}
use yhub.Message.{Bytes, Message, ydoc_update, awareness, prune, auth_check, tombstone}
use yhub.Protocol.{
  Varints, encode_sync_update, encode_awareness_user_disconnected, message_sync_step1,
  message_sync_step2, message_sync_update,
}

-- `$accessType` of src/types.js; no access is none.
pub data AccessType : Type 0 where
  r : AccessType
  rw : AccessType

unfoldable pub has_read_access : Option AccessType → Bool
has_read_access none = false
has_read_access (some r) = true
has_read_access (some rw) = true

unfoldable pub has_write_access : Option AccessType → Bool
has_write_access none = false
has_write_access (some r) = false
has_write_access (some rw) = true

abbrev pub same : Bool → Bool → Bool
same true b = b
same false b = not b

-- A property of an object; none is `undefined`.
abbrev pub get_property : Text → Fields → Option Json
get_property name end = none
get_property name (field n v rest) = if text_eq name n then some v else get_property name rest

-- The matchers that are primitive values are compared with the `userid`, which is a string.
abbrev pub is_userid : Text → Json → Bool
is_userid userid (str t) = text_eq t userid
is_userid userid _ = false

abbrev pub every_field : (Text → Json → Bool) → Fields → Bool
every_field p end = true
every_field p (field n v rest) = p n v && every_field p rest

-- The indices of an array are its keys.
abbrev pub every_item : ℕ → (Text → Json → Bool) → Items → Bool
every_item i p nil = true
every_item i p (cons v rest) = p (decimal i) v && every_item (suc i) p rest

module _ (equality_deep : Json → Option Json → Bool) where
  -- `matchesAuthInfo`
  unfoldable pub matches_auth_info : Json → Text → Fields → Bool
  matches_auth_info (arr items) userid auth_info =
      every_item 0 (λ k v. equality_deep v (get_property k auth_info)) items
  matches_auth_info (obj fields) userid auth_info =
      every_field (λ k v. equality_deep v (get_property k auth_info)) fields
  matches_auth_info matcher userid auth_info = is_userid userid matcher

pub data Effect : Type 0 where
  sent : Bytes → Effect
  ended : ℕ → Effect
  socket_closed : Effect
  subscribed : Text → Effect
  unsubscribed : Effect
  -- `addMessage` to the stream of the room.
  added : Message → Effect
  -- `getAccessType` of the auth plugin, for a check anew.
  access_asked : Effect

pub record Attribute : Type 0 where
  pub name : Text
  pub value : Json

-- What a connection uses of Yjs, of the socket and of the clock. None is an exception.
pub record Environment : Type 1 where
  pub varints : Varints
  pub equality_deep : Json → Option Json → Bool
  pub merge_updates : List Bytes → Option Bytes
  pub merge_awareness_updates : List Bytes → Option Bytes
  pub ContentIds : Type 0
  pub content_ids_from_update : Bytes → Option ContentIds
  pub content_map_from_content_ids : ContentIds → List Attribute → List Attribute → Bytes
  pub unix_time : List Effect → ℕ
  -- What `ws.send` returns; 2 is a message that was dropped.
  pub send : List Effect → Bytes → ℕ

pub record User : Type 0 where
  -- Whether `ws` is set.
  pub connected : Bool
  pub has_write_access : Bool
  pub auth_info : Fields
  pub userid : Text
  pub custom_attributions : List (Text × Text)
  pub awareness_id : Option ℕ
  pub awareness_last_clock : ℕ
  pub is_closed : Bool
  pub is_destroyed : Bool
  pub last_received_clock : Text
  pub effects : List Effect

abbrev pub perform : Effect → User → User
perform e user = record user { effects = user.effects ++ e ∷ [] }

unfoldable pub updates_in : List Message → List Bytes
updates_in [] = []
updates_in (m ∷ ms) = let rest = updates_in ms in elim m [ ydoc_update u c ↦ u ∷ rest | _ ↦ rest ]

unfoldable pub awareness_in : List Message → List Bytes
awareness_in [] = []
awareness_in (m ∷ ms) = let rest = awareness_in ms in elim m [ awareness u ↦ u ∷ rest | _ ↦ rest ]

-- `wsCloseAuthRevoked` and `wsCloseDocDeleted`
abbrev pub ws_close_auth_revoked : ℕ
ws_close_auth_revoked = 4401

abbrev pub ws_close_doc_deleted : ℕ
ws_close_doc_deleted = 4404

module _ (env : Environment) where
  open env use {varints, send}

  -- The departure of the client's awareness, by its id; the id 0 is falsy.
  unfoldable pub depart : Option ℕ → User → User
  depart none user = user
  depart (some zero) user = user
  depart (some (suc id)) user =
      perform
        (added (
          awareness
            (encode_awareness_user_disconnected varints (suc id) user.awareness_last_clock)))
        user

  abbrev pub close_socket : Bool → User → User
  close_socket true user = perform socket_closed user
  close_socket false user = user

  -- `WSUser.destroy`, by whether it has been called.
  abbrev pub destroy_unless : Bool → User → User
  destroy_unless true user = user
  destroy_unless false user =
      let gone =
        depart user.awareness_id (perform unsubscribed (record user { is_destroyed = true })) in
      close_socket (not gone.is_closed && gone.connected) gone

  unfoldable pub destroy : User → User
  unfolding depart
  destroy user = destroy_unless user.is_destroyed user

  abbrev pub end_socket : Bool → ℕ → User → User
  end_socket true code user = perform (ended code) user
  end_socket false code user = user

  abbrev pub mark_closed : Bool → ℕ → User → User
  mark_closed true code user = user
  mark_closed false code user = record (end_socket user.connected code user) { is_closed = true }

  -- `WSUser.close`. The handler 'close' that `ws.end` calls finds the connection as it is after it.
  unfoldable pub close : ℕ → User → User
  unfolding destroy
  close code user = destroy (mark_closed user.is_closed code user)

  unfoldable pub close_doc_deleted : User → User
  unfolding close
  close_doc_deleted user = close ws_close_doc_deleted (record user { awareness_id = none })

  abbrev pub close_with_error : ℕ → User → User
  close_with_error code user = close code user

  -- `WSUser.sendData`
  unfoldable pub send_data : Bytes → User → User
  unfolding close
  send_data m user =
      if user.is_closed
      then user
      else if not user.connected
      then user
      else if send user.effects m == 2
      then close_with_error 1013 (perform (sent m) user)
      else perform (sent m) user

  abbrev pub matches_user : User → Option (List Json) → Bool
  matches_user user none = true
  matches_user user (some users) =
      some_of (λ u. matches_auth_info env.equality_deep u user.userid user.auth_info) users

  -- A message of the stream, as far as it is not merged with others.
  unfoldable pub on_directive : Message → User → User
  unfolding close_doc_deleted close matches_auth_info
  on_directive tombstone user = close_doc_deleted user
  on_directive (auth_check users force_disconnect) user =
      if matches_user user users
      then if force_disconnect then close ws_close_auth_revoked user else perform access_asked user
      else user
  on_directive _ user = user

  unfoldable pub on_directives : List Message → User → User
  unfolding on_directive
  on_directives [] user = user
  on_directives (m ∷ ms) user = on_directives ms (on_directive m user)

  -- Whether it returns, and the connection.
  unfoldable pub send_awareness : List Bytes → User → Bool × User
  unfolding send_data
  send_awareness [] user = (true, user)
  send_awareness (u ∷ us) user = elim (env.merge_awareness_updates (u ∷ us)) [
    | none ↦ (false, user)
    | some m ↦ (true, send_data m user)
  ]

  unfoldable pub send_updates : List Bytes → List Bytes → User → Bool × User
  unfolding send_data send_awareness
  send_updates [] awarenesses user = send_awareness awarenesses user
  send_updates (u ∷ us) awarenesses user = elim (env.merge_updates (u ∷ us)) [
    | none ↦ (false, user)
    | some m ↦ send_awareness awarenesses (send_data (encode_sync_update varints m) user)
  ]

  -- `WSUser.onStreamMessage`
  unfoldable pub on_stream_message : List Message → User → Bool × User
  unfolding on_directives updates_in awareness_in send_updates
  on_stream_message ms user = send_updates (updates_in ms) (awareness_in ms) (on_directives ms user)

  -- Its caller in src/stream.js closes the connection where it throws.
  unfoldable pub on_stream : List Message → User → User
  unfolding on_stream_message close
  on_stream ms user =
      let (returned, user') = on_stream_message ms user in
      if returned then user' else close_with_error 1011 user'

  -- `WSUser.recheckAuth` from the plugin's answer on; none is an error of it.
  unfoldable pub on_access : Option (Option AccessType) → User → User
  unfolding close has_read_access has_write_access
  on_access none user = close 1013 user
  on_access (some access) user =
      if user.is_destroyed
      then user
      else if has_read_access access && same (has_write_access access) user.has_write_access
      then user
      else close ws_close_auth_revoked user
