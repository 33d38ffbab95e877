-- ===== src/Server/Frames.antt =====
-- src/server.js and src/protocol.js: the messages that the protocol writes, as the server reads them.
use yhub.Base.{
  ℕ, ◌<◌, ◌≤◌, Bool, true, false, not, Option, none, some, [], ◌∷◌, ◌++◌, append-nil, codes, length,
  ltb, if◌then◌else◌, arith, subst, Bool-cases, Option-cases, ◌⊎◌, inl, inr, ◌≡◌, refl, sym, ap,
  ◌∙◌,
}
use mathlib.Core.Option.{some-injective}
use yhub.Message.{Bytes, ydoc_update, awareness}
use yhub.Protocol.{
  encode_sync, encode_sync_step1, encode_sync_step2, encode_sync_update, write_awareness_update,
}
use yhub.Server.{Environment, User, close, added}
use yhub.Server.Receiving.{
  add_update, attributes, create_content_map_from_params, handle_err, take_awareness, takes_id,
  on_sync, carries_update, add_awareness, on_awareness, on_kind, on_message,
}

if-not : (b : Bool) (u v : User) → (if not b then v else u) ≡ (if b then u else v)
if-not true u v = refl
if-not false u v = refl

if-same : (b : Bool) (u : User) → (if b then u else u) ≡ u
if-same true u = refl
if-same false u = refl

module _ (env : Environment) where
  open env use {varints}

  abbrev allowed : (User → User) → User → User
  allowed f user = if user.has_write_access then f user else user

  -- An array at the end of a message.
  read_last :
      (body : Bytes)
      → varints.read_var_uint8_array (varints.write_var_uint8_array body) ≡ some (body, [])
  read_last body =
      ap varints.read_var_uint8_array (sym (append-nil (varints.write_var_uint8_array body)))
      ∙ varints.read_write_var_uint8_array body []

  on_sync-frame :
      (kind : ℕ) (body : Bytes) (user : User)
      → on_sync env (varints.write_var_uint kind ++ varints.write_var_uint8_array body) user
        ≡ (if carries_update env kind then add_update env body user else user)
  unfolding on_sync
  on_sync-frame kind body user =
      simp
        (
          on_sync,
          varints.read_write_var_uint kind (varints.write_var_uint8_array body),
          read_last body,
        )
        refl

  on_message-frame :
      (kind : ℕ) (body : Bytes) (user : User)
      → on_message env (encode_sync varints kind body) user
        ≡ allowed (λ u. if carries_update env kind then add_update env body u else u) user
  unfolding on_message on_kind
  on_message-frame kind body user =
      simp
        (
          on_message,
          varints.read_write_var_uint 0
              (varints.write_var_uint kind ++ varints.write_var_uint8_array body),
        )
        (if-not user.has_write_access _ user
          ∙ ap (λ u. if user.has_write_access then u else user) (on_sync-frame kind body user))

  on_message-awareness :
      (body : Bytes) (user : User)
      → on_message env (write_awareness_update varints body) user
        ≡ allowed (add_awareness env body) user
  unfolding on_message on_kind on_awareness write_awareness_update
  on_message-awareness body user =
      simp (on_message, varints.read_write_var_uint 1 (varints.write_var_uint8_array body))
        (if-not user.has_write_access _ user
          ∙ ap (λ u. if user.has_write_access then u else user)
              (simp (on_awareness, read_last body) refl))

  -- The content map of an update, with the client as its author and the time of the server.
  abbrev pub content_map_of : env.ContentIds → User → Bytes
  content_map_of ids user =
      env.content_map_from_content_ids ids
        (attributes env (codes "insert") (codes "insertAt") (env.unix_time user.effects) user.userid
          user.custom_attributions)
        (attributes env (codes "delete") (codes "deleteAt") (env.unix_time user.effects) user.userid
          user.custom_attributions)

  -- What becomes of a connection with an update.
  pub data UpdateDone (update : Bytes) (user : User) : User → Type 0 where
    read_only : user.has_write_access ≡ false → UpdateDone update user user
    too_short : user.has_write_access ≡ true → length update ≤ 3 → UpdateDone update user user
    unreadable :
        user.has_write_access ≡ true
        → 3 < length update
        → env.content_ids_from_update update ≡ none
        → UpdateDone update user (close env 1011 user)
    stored :
        {ids : env.ContentIds}
        → user.has_write_access ≡ true
        → 3 < length update
        → env.content_ids_from_update update ≡ some ids
        → UpdateDone update user (record user {
          effects = user.effects ++ added (ydoc_update update (content_map_of ids user)) ∷ [];
        })

  -- The awareness of `alen` clients, the first of which has the id and the clock.
  abbrev pub awareness_body : ℕ → ℕ → ℕ → Bytes → Bytes
  awareness_body alen id clock states =
      varints.write_var_uint alen
      ++ (varints.write_var_uint id ++ (varints.write_var_uint clock ++ states))

  -- What becomes of a connection with an awareness message.
  pub data AwarenessDone (alen id clock : ℕ) (states : Bytes) (user : User) : User → Type 0 where
    ignored : user.has_write_access ≡ false → AwarenessDone alen id clock states user user
    taken :
        user.has_write_access ≡ true
        → (alen ≡ 1) × ((user.awareness_id ≡ none) ⊎ (user.awareness_id ≡ some id))
        → AwarenessDone alen id clock states user (record user {
          awareness_id = some id;
          awareness_last_clock = clock;
          effects = user.effects ++ added (awareness (awareness_body alen id clock states)) ∷ [];
        })
    passed_on :
        user.has_write_access ≡ true
        → ¬ ((alen ≡ 1) × ((user.awareness_id ≡ none) ⊎ (user.awareness_id ≡ some id)))
        → AwarenessDone alen id clock states user (record user {
          effects = user.effects ++ added (awareness (awareness_body alen id clock states)) ∷ [];
        })

  add_update-UpdateDone :
      (update : Bytes) (user : User)
      → user.has_write_access ≡ true
      → UpdateDone update user (add_update env update user)
  unfolding add_update create_content_map_from_params handle_err
  add_update-UpdateDone update user w = elim (Bool-cases (ltb 3 (length update))) [
    | inr e ↦ simp (add_update, e) (too_short w (ground (arith, e)))
    | inl e ↦ elim (Option-cases (env.content_ids_from_update update)) [
      | inl n ↦ simp (add_update, e, n) (unreadable w (ground (arith, e)) n)
      | inr (ids, n) ↦ simp (add_update, e, n) (stored w (ground (arith, e)) n)
    ]
  ]

  allowed-UpdateDone :
      (update : Bytes) (user : User) → UpdateDone update user (allowed (add_update env update) user)
  allowed-UpdateDone update user = elim (Bool-cases user.has_write_access) [
    | inr e ↦ simp (e) (read_only e)
    | inl e ↦ simp (e) (add_update-UpdateDone update user e)
  ]

  takes_id-true :
      (alen id : ℕ) (own : Option ℕ)
      → takes_id env alen id own ≡ true
      → (alen ≡ 1) × ((own ≡ none) ⊎ (own ≡ some id))
  takes_id-true alen id none h = (ground (arith, h), inl refl)
  takes_id-true alen id (some n) h = (ground (arith, h), inr (ground (arith, h)))

  takes_id-false :
      (alen id : ℕ) (own : Option ℕ)
      → takes_id env alen id own ≡ false
      → ¬ ((alen ≡ 1) × ((own ≡ none) ⊎ (own ≡ some id)))
  takes_id-false alen id none h (a, b) = ground (arith, h, a)
  takes_id-false alen id (some n) h (a, inl b) = cc
  takes_id-false alen id (some n) h (a, inr b) = ground (arith, h, a, some-injective n id b)

  add_awareness-AwarenessDone :
      (alen id clock : ℕ) (states : Bytes) (user : User)
      → user.has_write_access ≡ true
      → AwarenessDone alen id clock states user
          (add_awareness env (awareness_body alen id clock states) user)
  unfolding add_awareness take_awareness
  add_awareness-AwarenessDone alen id clock states user w =
      let clocks = varints.write_var_uint clock ++ states in
      let r1 = varints.read_write_var_uint alen (varints.write_var_uint id ++ clocks) in
      let r2 = varints.read_write_var_uint id clocks in
      let r3 = varints.read_write_var_uint clock states in
      elim (Bool-cases (takes_id env alen id user.awareness_id)) [
        | inl e ↦
            simp (add_awareness, r1, r2, e)
              (simp (take_awareness, r3) (taken w (takes_id-true alen id _ e)))
        | inr e ↦ simp (add_awareness, r1, r2, e) (passed_on w (takes_id-false alen id _ e))
      ]

  allowed-AwarenessDone :
      (alen id clock : ℕ) (states : Bytes) (user : User)
      → AwarenessDone alen id clock states user
          (allowed (add_awareness env (awareness_body alen id clock states)) user)
  allowed-AwarenessDone alen id clock states user = elim (Bool-cases user.has_write_access) [
    | inr e ↦ simp (e) (ignored e)
    | inl e ↦ simp (e) (add_awareness-AwarenessDone alen id clock states user e)
  ]

  -- What a client writes with the protocol, in four frames. An update and the second step of a sync do
  -- the same: without write access, or with three bytes or less, nothing; where its content cannot be
  -- read, the connection is closed with 1011; otherwise it is added to the stream as it was sent, with
  -- the client as the author of what it inserts and deletes. The awareness of a number of clients, the
  -- first with an id and a clock, is added as it was sent where the client has write access; the id
  -- and the clock are kept where it is of one client and the connection has this id or none. The first
  -- step of a sync changes nothing.
  pub on_message-encode :
      (body : Bytes) (alen id clock : ℕ) (states : Bytes) (user : User)
      → UpdateDone body user (on_message env (encode_sync_update varints body) user)
        × UpdateDone body user (on_message env (encode_sync_step2 varints body) user)
        × AwarenessDone alen id clock states user (
            on_message env
              (write_awareness_update varints (awareness_body alen id clock states))
              user)
        × (on_message env (encode_sync_step1 varints body) user ≡ user)
  unfolding encode_sync_update encode_sync_step2 encode_sync_step1
  on_message-encode body alen id clock states user = (
    subst (UpdateDone body user) (sym (on_message-frame 2 body user))
        (allowed-UpdateDone body user),
    subst (UpdateDone body user) (sym (on_message-frame 1 body user))
        (allowed-UpdateDone body user),
    subst (AwarenessDone alen id clock states user)
        (sym (on_message-awareness (awareness_body alen id clock states) user))
        (allowed-AwarenessDone alen id clock states user),
    on_message-frame 0 body user ∙ if-same user.has_write_access user,
  )
