-- ===== src/Server/Writing.antt =====
-- src/server.js: the messages of a client keep a connection in order.
use yhub.Base.{ℕ, true, not, some, ltb, length, ◌==◌, ◌≡◌, refl, arith, Option-cases, inl, inr}
use yhub.Message.{Bytes, Message, awareness}
use yhub.Server.{Environment, added, User, perform}
use yhub.Server.Receiving.{
  handle_err, add_update, on_sync, carries_update, take_awareness, takes_id, add_awareness,
  on_awareness, on_kind, on_message,
}
use yhub.Server.Closing.{IsUser, perform-IsUser, close-IsUser}
use yhub.Server.Streaming.{if-IsUser}

module _ (env : Environment) where
  handle_err-IsUser : (user : User) → IsUser user → IsUser (handle_err env user)
  unfolding handle_err
  handle_err-IsUser user h = close-IsUser env 1011 user h

  -- A client with write access may add a message.
  add-IsUser :
      (m : Message) (user : User)
      → user.has_write_access ≡ true
      → IsUser user
      → IsUser (perform (added m) user)
  add-IsUser m user w h = perform-IsUser (added m) user refl refl (λ n. ground (arith, w, n)) h

  add_update-IsUser :
      (update : Bytes) (user : User)
      → user.has_write_access ≡ true
      → IsUser user
      → IsUser (add_update env update user)
  unfolding add_update
  add_update-IsUser update user w h =
      if-IsUser (not (ltb 3 (length update))) _ _ (λ l. h)
        (λ l. elim (Option-cases (env.content_ids_from_update update)) [
          | inl e ↦ simp (e) (handle_err-IsUser user h)
          | inr (ids, e) ↦ simp (e) (add-IsUser _ user w h)
        ])

  on_sync-IsUser :
      (rest : Bytes) (user : User)
      → user.has_write_access ≡ true
      → IsUser user
      → IsUser (on_sync env rest user)
  unfolding on_sync
  on_sync-IsUser rest user w h = elim (Option-cases (env.varints.read_var_uint rest)) [
    | inl e ↦ simp (on_sync, e) (handle_err-IsUser user h)
    | inr ((kind, body), e) ↦
        simp (on_sync, e)
          (if-IsUser (carries_update env kind) _ _
            (λ c. elim (Option-cases (env.varints.read_var_uint8_array body)) [
              | inl k ↦ simp (k) (handle_err-IsUser user h)
              | inr ((update, left), k) ↦ simp (k) (add_update-IsUser update user w h)
            ])
            (λ c. h))
  ]

  -- The awareness of a client with write access.
  own_awareness-IsUser :
      (id : ℕ) (user : User)
      → user.has_write_access ≡ true
      → IsUser user
      → IsUser (record user { awareness_id = some id })
  own_awareness-IsUser id user w h = record {
    closed_destroyed = h.closed_destroyed;
    ended_once = h.ended_once;
    unsubscribed_once = h.unsubscribed_once;
    silent = λ n. ground (arith, w, n);
  }

  own_clock-IsUser :
      (clock : ℕ) (user : User)
      → IsUser user
      → IsUser (record user { awareness_last_clock = clock })
  own_clock-IsUser clock user h = record {
    closed_destroyed = h.closed_destroyed;
    ended_once = h.ended_once;
    unsubscribed_once = h.unsubscribed_once;
    silent = h.silent;
  }

  take_awareness-IsUser :
      (update : Bytes) (id : ℕ) (body : Bytes) (user : User)
      → user.has_write_access ≡ true
      → IsUser user
      → IsUser (take_awareness env update id body user)
  unfolding take_awareness
  take_awareness-IsUser update id body user w h =
      let own = own_awareness-IsUser id user w h in
      elim (Option-cases (env.varints.read_var_uint body)) [
        | inl e ↦
            simp (take_awareness, e)
              (handle_err-IsUser (record user { awareness_id = some id }) own)
        | inr ((clock, left), e) ↦
            simp (take_awareness, e)
              (add-IsUser (awareness update)
                (record user { awareness_id = some id; awareness_last_clock = clock }) w
                (own_clock-IsUser clock (record user { awareness_id = some id }) own))
      ]

  add_awareness-IsUser :
      (update : Bytes) (user : User)
      → user.has_write_access ≡ true
      → IsUser user
      → IsUser (add_awareness env update user)
  unfolding add_awareness
  add_awareness-IsUser update user w h = elim (Option-cases (env.varints.read_var_uint update)) [
    | inl e ↦ simp (add_awareness, e) (handle_err-IsUser user h)
    | inr ((alen, body), e) ↦ elim (Option-cases (env.varints.read_var_uint body)) [
      | inl k ↦ simp (add_awareness, e, k) (handle_err-IsUser user h)
      | inr ((id, clocks), k) ↦
          simp (add_awareness, e, k)
            (if-IsUser (takes_id env alen id user.awareness_id) _ _
              (λ t. take_awareness-IsUser update id clocks user w h)
              (λ t. add-IsUser (awareness update) user w h))
    ]
  ]

  on_awareness-IsUser :
      (rest : Bytes) (user : User)
      → user.has_write_access ≡ true
      → IsUser user
      → IsUser (on_awareness env rest user)
  unfolding on_awareness
  on_awareness-IsUser rest user w h = elim (Option-cases (env.varints.read_var_uint8_array rest)) [
    | inl e ↦ simp (on_awareness, e) (handle_err-IsUser user h)
    | inr ((update, left), e) ↦ simp (on_awareness, e) (add_awareness-IsUser update user w h)
  ]

  on_kind-IsUser :
      (kind : ℕ) (rest : Bytes) (user : User)
      → user.has_write_access ≡ true
      → IsUser user
      → IsUser (on_kind env kind rest user)
  unfolding on_kind
  on_kind-IsUser kind rest user w h =
      if-IsUser (kind == 0) _ _ (λ s. on_sync-IsUser rest user w h)
        (λ s. if-IsUser (kind == 1) _ _ (λ a. on_awareness-IsUser rest user w h) (λ a. h))

  pub on_message-IsUser :
      (bytes : Bytes) (user : User) → IsUser user → IsUser (on_message env bytes user)
  unfolding on_message
  on_message-IsUser bytes user h =
      if-IsUser (not user.has_write_access) _ _ (λ n. h)
        (λ n. elim (Option-cases (env.varints.read_var_uint bytes)) [
          | inl e ↦ simp (e) (handle_err-IsUser user h)
          | inr ((kind, rest), e) ↦ simp (e) (on_kind-IsUser kind rest user (ground (arith, n)) h)
        ])
