-- ===== src/Server/Receiving.antt =====
-- src/server.js: the messages of a client.
use yhub.Base.{
  ℕ, Bool, not, ◌&&◌, ◌||◌, Option, none, some, List, ◌∷◌, ◌++◌, map, Text, codes, if◌then◌else◌,
  ltb, ◌==◌, length,
}
use yhub.Json.{num, str}
use yhub.Message.{Bytes, ydoc_update, awareness}
use yhub.Protocol.{message_sync, message_awareness, message_sync_step2, message_sync_update}
use yhub.Server.{Environment, User, Attribute, perform, added, close_with_error, close}

module _ (env : Environment) where
  open env use {varints}
  open varints use {read_var_uint, read_var_uint8_array}

  -- The attributes of what a user inserts, or deletes.
  abbrev pub attributes : Text → Text → ℕ → Text → List (Text × Text) → List Attribute
  attributes kind kind_at now userid customs =
      record { name = kind; value = str userid }
      ∷ record { name = kind_at; value = num now }
      ∷ map (λ kv. record { name = kind ++ codes ":" ++ kv.0; value = str kv.1 }) customs

  -- `createContentMapFromParams`
  unfoldable pub create_content_map_from_params :
      env.ContentIds → Text → List (Text × Text) → ℕ → Bytes
  create_content_map_from_params ids userid customs now =
      env.content_map_from_content_ids ids
        (attributes (codes "insert") (codes "insertAt") now userid customs)
        (attributes (codes "delete") (codes "deleteAt") now userid customs)

  -- `handleErr`
  unfoldable pub handle_err : User → User
  unfolding close
  handle_err user = close_with_error env 1011 user

  unfoldable pub add_update : Bytes → User → User
  unfolding create_content_map_from_params handle_err
  add_update update user =
      if not (ltb 3 (length update)) then user else elim (env.content_ids_from_update update) [
        | none ↦ handle_err user
        | some ids ↦
            perform
              (added (
                ydoc_update update (
                  create_content_map_from_params ids user.userid user.custom_attributions
                    (env.unix_time user.effects))))
              user
      ]

  abbrev pub carries_update : ℕ → Bool
  carries_update kind = kind == message_sync_update || kind == message_sync_step2

  -- A message of the kind 0, behind its kind.
  unfoldable pub on_sync : Bytes → User → User
  unfolding add_update
  on_sync rest user = elim (read_var_uint rest) [
    | none ↦ handle_err user
    | some (kind, body) ↦
        if carries_update kind
        then elim (read_var_uint8_array body) [
          | none ↦ handle_err user
          | some (update, _) ↦ add_update update user
        ]
        else user
  ]

  -- Whether the client may take the awareness id, which it has or has none.
  abbrev pub takes_id : ℕ → ℕ → Option ℕ → Bool
  takes_id alen id none = alen == 1
  takes_id alen id (some own) = alen == 1 && own == id

  -- The awareness clock is read behind the id, and the id is set where this throws, too.
  unfoldable pub take_awareness : Bytes → ℕ → Bytes → User → User
  unfolding handle_err
  take_awareness update id body user =
      let user' = record user { awareness_id = some id } in
      elim (read_var_uint body) [
        | none ↦ handle_err user'
        | some (clock, _) ↦
            perform (added (awareness update)) (record user' { awareness_last_clock = clock })
      ]

  unfoldable pub add_awareness : Bytes → User → User
  unfolding take_awareness
  add_awareness update user = elim (read_var_uint update) [
    | none ↦ handle_err user
    | some (alen, body) ↦ elim (read_var_uint body) [
      | none ↦ handle_err user
      | some (id, clocks) ↦
          if takes_id alen id user.awareness_id
          then take_awareness update id clocks user
          else perform (added (awareness update)) user
    ]
  ]

  unfoldable pub on_awareness : Bytes → User → User
  unfolding add_awareness
  on_awareness rest user = elim (read_var_uint8_array rest) [
    | none ↦ handle_err user
    | some (update, _) ↦ add_awareness update user
  ]

  unfoldable pub on_kind : ℕ → Bytes → User → User
  unfolding on_sync on_awareness
  on_kind kind rest user =
      if kind == message_sync
      then on_sync rest user
      else if kind == message_awareness
      then on_awareness rest user
      else user

  -- The handler 'message'.
  unfoldable pub on_message : Bytes → User → User
  unfolding on_kind
  on_message bytes user = if not user.has_write_access then user else elim (read_var_uint bytes) [
    | none ↦ handle_err user
    | some (kind, rest) ↦ on_kind kind rest user
  ]
