-- ===== src/Server/Streaming.antt =====
-- src/server.js: what comes from the stream and from the auth plugin keeps a connection in order.
use yhub.Base.{
  Bool, true, false, not, ◌&&◌, Option, none, some, List, [], ◌∷◌, if◌then◌else◌, ◌==◌, ◌≡◌, refl,
  Option-cases, inl, inr,
}
use yhub.Message.{Bytes, Message, auth_check, tombstone, ydoc_update, awareness, prune}
use yhub.Server.{
  AccessType, has_read_access, has_write_access, same, Environment, sent, access_asked, User,
  perform, close_doc_deleted, send_data, matches_user, on_directive, on_directives, updates_in,
  awareness_in, send_awareness, send_updates, on_stream_message, on_stream, on_access,
}
use yhub.Server.Closing.{IsUser, perform-IsUser, close-IsUser}

-- A test that keeps what both of its branches keep.
pub if-IsUser :
    (b : Bool) (u v : User)
    → (b ≡ true → IsUser u)
    → (b ≡ false → IsUser v)
    → IsUser (if b then u else v)
if-IsUser true u v h k = h refl
if-IsUser false u v h k = k refl

module _ (env : Environment) where
  send-IsUser : (m : Bytes) (user : User) → IsUser user → IsUser (perform (sent m) user)
  send-IsUser m user h = perform-IsUser (sent m) user refl refl (λ w. refl) h

  pub send_data-IsUser : (m : Bytes) (user : User) → IsUser user → IsUser (send_data env m user)
  unfolding send_data
  send_data-IsUser m user h =
      if-IsUser (user.is_closed) _ _ (λ c. h)
        (λ c.
          if-IsUser (not user.connected) _ _ (λ k. h)
            (λ k.
              if-IsUser (env.send user.effects m == 2) _ _
                (λ d. close-IsUser env 1013 _ (send-IsUser m user h)) (λ d. send-IsUser m user h)))

  pub close_doc_deleted-IsUser : (user : User) → IsUser user → IsUser (close_doc_deleted env user)
  unfolding close_doc_deleted
  close_doc_deleted-IsUser user h =
      close-IsUser env _ (record user { awareness_id = none })
        (record {
          closed_destroyed = h.closed_destroyed;
          ended_once = h.ended_once;
          unsubscribed_once = h.unsubscribed_once;
          silent = λ w. (refl, (h.silent w).1);
        })

  on_directive-IsUser : (m : Message) (user : User) → IsUser user → IsUser (on_directive env m user)
  unfolding on_directive
  on_directive-IsUser tombstone user h = close_doc_deleted-IsUser user h
  on_directive-IsUser (auth_check users force) user h =
      if-IsUser (matches_user env user users) _ _
        (λ m.
          if-IsUser force _ _ (λ f. close-IsUser env _ user h)
            (λ f. perform-IsUser access_asked user refl refl (λ w. refl) h))
        (λ m. h)
  on_directive-IsUser (ydoc_update u c) user h = h
  on_directive-IsUser (awareness u) user h = h
  on_directive-IsUser (prune p) user h = h

  on_directives-IsUser :
      (ms : List Message) (user : User) → IsUser user → IsUser (on_directives env ms user)
  unfolding on_directives
  on_directives-IsUser [] user h = h
  on_directives-IsUser (m ∷ ms) user h = on_directives-IsUser ms _ (on_directive-IsUser m user h)

  send_awareness-IsUser :
      (us : List Bytes) (user : User) → IsUser user → IsUser (send_awareness env us user).1
  unfolding send_awareness
  send_awareness-IsUser [] user h = h
  send_awareness-IsUser (u ∷ us) user h =
      elim (Option-cases (env.merge_awareness_updates (u ∷ us))) [
        | inl e ↦ simp (send_awareness, e) h
        | inr (m, e) ↦ simp (send_awareness, e) (send_data-IsUser m user h)
      ]

  send_updates-IsUser :
      (us as' : List Bytes) (user : User) → IsUser user → IsUser (send_updates env us as' user).1
  unfolding send_updates
  send_updates-IsUser [] as' user h = send_awareness-IsUser as' user h
  send_updates-IsUser (u ∷ us) as' user h = elim (Option-cases (env.merge_updates (u ∷ us))) [
    | inl e ↦ simp (send_updates, e) h
    | inr (m, e) ↦ simp (send_updates, e) (send_awareness-IsUser as' _ (send_data-IsUser _ user h))
  ]

  pub on_stream-IsUser :
      (ms : List Message) (user : User) → IsUser user → IsUser (on_stream env ms user)
  unfolding on_stream on_stream_message
  on_stream-IsUser ms user h =
      let k =
        send_updates-IsUser (updates_in ms) (awareness_in ms) _ (on_directives-IsUser ms user h) in
      if-IsUser (on_stream_message env ms user).0 _ _ (λ r. k) (λ r. close-IsUser env 1011 _ k)

  pub on_access-IsUser :
      (answer : Option (Option AccessType)) (user : User)
      → IsUser user
      → IsUser (on_access env answer user)
  unfolding on_access
  on_access-IsUser none user h = close-IsUser env 1013 user h
  on_access-IsUser (some granted) user h =
      if-IsUser user.is_destroyed _ _ (λ d. h)
        (λ d.
          if-IsUser
            (has_read_access granted && same (has_write_access granted) user.has_write_access) _ _
            (λ a. h) (λ a. close-IsUser env _ user h))
