-- ===== src/Server/Quiet.antt =====
-- src/server.js: what a closed connection still does.
use yhub.Base.{
  ℕ, Bool, true, false, ◌&&◌, Option, none, some, is_some, List, [], ◌∷◌, append-nil, keep,
  keep-append, if◌then◌else◌, ◌≡◌, refl, ◌∙◌, Option-cases, inl, inr,
}
use yhub.Message.{Bytes, Message, auth_check, tombstone, ydoc_update, awareness, prune}
use yhub.Hub.Merging.{DocTable}
use yhub.Server.{
  AccessType, has_read_access, has_write_access, same, Environment, Effect, access_asked, User,
  perform, destroy, destroy_unless, mark_closed, close, close_doc_deleted, ws_close_doc_deleted,
  send_data, matches_user, on_directive, on_directives, updates_in, awareness_in, send_awareness,
  send_updates, on_stream_message, on_stream, on_access,
}
use yhub.Server.Connection.{
  unopened, loading, computing, rechecking, finished, Conn, some_check, sync, on_computed,
  on_loaded, on_close, fail, Event, opened, loaded, computed, rechecked, access, streamed, message,
  add_failed, closed, handle,
}

-- All effects but the question to the auth plugin.
abbrev pub is_visible : Effect → Bool
is_visible access_asked = false
is_visible _ = true

abbrev pub visible : User → List Effect
visible user = keep is_visible user.effects

abbrev pub IsGone : User → Type 0
IsGone user = (user.is_closed ≡ true) × (user.is_destroyed ≡ true)

-- A closed connection that has done nothing more.
pub record Quiet (user user' : User) : Type 0 where
  pub gone : IsGone user'
  pub same_effects : visible user' ≡ visible user

Quiet-trans : (u v w : User) → Quiet u v → Quiet v w → Quiet u w
Quiet-trans u v w h k = record { gone = k.gone; same_effects = k.same_effects ∙ h.same_effects }

Quiet-refl : (user : User) → IsGone user → Quiet user user
Quiet-refl user g = record { gone = g; same_effects = refl }

if-Quiet :
    (b : Bool) (user u v : User) → Quiet user u → Quiet user v → Quiet user (if b then u else v)
if-Quiet true user u v h k = h
if-Quiet false user u v h k = k

ask-Quiet : (user : User) → IsGone user → Quiet user (perform access_asked user)
ask-Quiet user g = record {
  gone = g;
  same_effects =
      keep-append is_visible user.effects (access_asked ∷ []) ∙ append-nil (visible user);
}

closed-Quiet :
    (b : Bool) (user v : User) → b ≡ true → IsGone user → Quiet user (if b then user else v)
closed-Quiet true user v e g = Quiet-refl user g
closed-Quiet false user v e g = cc

module _ (env : Environment) where
  mark_closed-gone :
      (b : Bool) (code : ℕ) (user : User)
      → b ≡ true
      → user.is_destroyed ≡ true
      → (mark_closed env b code user).is_destroyed ≡ true
  mark_closed-gone true code user e d = d
  mark_closed-gone false code user e d = cc

  mark_closed-Quiet :
      (b c : Bool) (code : ℕ) (user : User)
      → b ≡ true
      → c ≡ true
      → IsGone user
      → Quiet user (destroy_unless env c (mark_closed env b code user))
  mark_closed-Quiet true true code user e k g = Quiet-refl user g
  mark_closed-Quiet true false code user e k g = cc
  mark_closed-Quiet false c code user e k g = cc

  close-Quiet : (code : ℕ) (user : User) → IsGone user → Quiet user (close env code user)
  unfolding close destroy
  close-Quiet code user g =
      simp (mark_closed-gone user.is_closed code user g.0 g.1)
        (mark_closed-Quiet user.is_closed true code user g.0 refl g)

  send_data-Quiet : (m : Bytes) (user : User) → IsGone user → Quiet user (send_data env m user)
  unfolding send_data
  send_data-Quiet m user g = closed-Quiet user.is_closed user _ g.0 g

  close_doc_deleted-Quiet : (user : User) → IsGone user → Quiet user (close_doc_deleted env user)
  unfolding close_doc_deleted
  close_doc_deleted-Quiet user g =
      let k = close-Quiet ws_close_doc_deleted (record user { awareness_id = none }) g in
      record { gone = k.gone; same_effects = k.same_effects }

  on_directive-Quiet :
      (m : Message) (user : User) → IsGone user → Quiet user (on_directive env m user)
  unfolding on_directive
  on_directive-Quiet tombstone user g = close_doc_deleted-Quiet user g
  on_directive-Quiet (auth_check users force) user g =
      if-Quiet (matches_user env user users) user _ _
        (if-Quiet force user _ _ (close-Quiet _ user g) (ask-Quiet user g)) (Quiet-refl user g)
  on_directive-Quiet (ydoc_update u c) user g = Quiet-refl user g
  on_directive-Quiet (awareness u) user g = Quiet-refl user g
  on_directive-Quiet (prune p) user g = Quiet-refl user g

  on_directives-Quiet :
      (ms : List Message) (user : User) → IsGone user → Quiet user (on_directives env ms user)
  unfolding on_directives
  on_directives-Quiet [] user g = Quiet-refl user g
  on_directives-Quiet (m ∷ ms) user g =
      let h = on_directive-Quiet m user g in
      Quiet-trans user _ _ h (on_directives-Quiet ms _ h.gone)

  send_awareness-Quiet :
      (us : List Bytes) (user : User) → IsGone user → Quiet user (send_awareness env us user).1
  unfolding send_awareness
  send_awareness-Quiet [] user g = Quiet-refl user g
  send_awareness-Quiet (u ∷ us) user g =
      elim (Option-cases (env.merge_awareness_updates (u ∷ us))) [
        | inl e ↦ simp (send_awareness, e) (Quiet-refl user g)
        | inr (m, e) ↦ simp (send_awareness, e) (send_data-Quiet m user g)
      ]

  send_updates-Quiet :
      (us as' : List Bytes) (user : User)
      → IsGone user
      → Quiet user (send_updates env us as' user).1
  unfolding send_updates
  send_updates-Quiet [] as' user g = send_awareness-Quiet as' user g
  send_updates-Quiet (u ∷ us) as' user g = elim (Option-cases (env.merge_updates (u ∷ us))) [
    | inl e ↦ simp (send_updates, e) (Quiet-refl user g)
    | inr (m, e) ↦
        let h = send_data-Quiet _ user g in
        simp (send_updates, e) (Quiet-trans user _ _ h (send_awareness-Quiet as' _ h.gone))
  ]

  pub on_stream-Quiet :
      (ms : List Message) (user : User) → IsGone user → Quiet user (on_stream env ms user)
  unfolding on_stream on_stream_message
  on_stream-Quiet ms user g =
      let h = on_directives-Quiet ms user g in
      let k =
        Quiet-trans user _ _ h (send_updates-Quiet (updates_in ms) (awareness_in ms) _ h.gone) in
      if-Quiet (on_stream_message env ms user).0 user _ _ k
        (Quiet-trans user _ _ k (close-Quiet 1011 _ k.gone))

  on_access-Quiet :
      (answer : Option (Option AccessType)) (user : User)
      → IsGone user
      → Quiet user (on_access env answer user)
  unfolding on_access
  on_access-Quiet none user g = close-Quiet 1013 user g
  on_access-Quiet (some granted) user g = if-Quiet user.is_destroyed user _ _ (Quiet-refl user g) (
      if-Quiet (has_read_access granted && same (has_write_access granted) user.has_write_access)
        user _ _ (Quiet-refl user g) (close-Quiet _ user g))

  fail-Quiet : (user : User) → IsGone user → Quiet user (fail env user)
  unfolding fail
  fail-Quiet user g = close-Quiet 1011 user g

  on_close-Quiet : (user : User) → IsGone user → Quiet user (on_close env user)
  unfolding on_close destroy
  on_close-Quiet user g = simp (g.1) (record { gone = (refl, refl); same_effects = refl })

  sync-Quiet :
      (d : DocTable) (ydoc sv : Bytes) (user : User)
      → IsGone user
      → Quiet user (sync env d ydoc sv user)
  unfolding sync
  sync-Quiet d ydoc sv user g = closed-Quiet user.is_closed user _ g.0 g

  if-QuietConn :
      (b : Bool) (user : User) (c d : Conn)
      → Quiet user c.1
      → Quiet user d.1
      → Quiet user (if b then c else d).1
  if-QuietConn true user c d h k = h
  if-QuietConn false user c d h k = k

  on_loaded-Quiet :
      (empty : Bytes) (d : DocTable) (user : User)
      → IsGone user
      → Quiet user (on_loaded env empty d user).1
  unfolding on_loaded
  on_loaded-Quiet empty d user g =
      if-QuietConn (is_some d.tombstone) user _ _ (close_doc_deleted-Quiet user g)
        (Quiet-refl user g)

  on_computed-Quiet :
      (d : DocTable) (ydoc sv : Bytes) (user : User)
      → IsGone user
      → Quiet user (on_computed env d ydoc sv user).1
  unfolding on_computed
  on_computed-Quiet d ydoc sv user g =
      if-QuietConn (some_check env user d.auth_checks) user _ _ (ask-Quiet user g)
        (sync-Quiet d ydoc sv user g)

  connected-Quiet : (user : User) → IsGone user → Quiet user (record user { connected = true })
  connected-Quiet user g = record { gone = g; same_effects = refl }

  -- A message that a client has sent before the end of its connection may still be read.
  abbrev pub is_message : Event → Bool
  is_message (message bytes) = true
  is_message _ = false

  -- A connection that is closed and destroyed stays so, and no event but a message of its client makes
  -- it do anything but ask the auth plugin: it sends nothing, ends nothing, adds nothing to the stream
  -- and does not subscribe.
  pub handle-Quiet :
      (empty : Bytes) (e : Event) (c : Conn)
      → IsGone c.1
      → is_message e ≡ false
      → Quiet c.1 (handle env empty e c).1
  unfolding handle
  handle-Quiet empty opened (unopened, user) g m = connected-Quiet user g
  handle-Quiet empty opened (loading, user) g m = Quiet-refl user g
  handle-Quiet empty opened (computing d ydoc, user) g m = Quiet-refl user g
  handle-Quiet empty opened (rechecking d ydoc sv, user) g m = Quiet-refl user g
  handle-Quiet empty opened (finished, user) g m = Quiet-refl user g
  handle-Quiet empty (loaded none) (unopened, user) g m = Quiet-refl user g
  handle-Quiet empty (loaded none) (loading, user) g m = fail-Quiet user g
  handle-Quiet empty (loaded none) (computing d ydoc, user) g m = Quiet-refl user g
  handle-Quiet empty (loaded none) (rechecking d ydoc sv, user) g m = Quiet-refl user g
  handle-Quiet empty (loaded none) (finished, user) g m = Quiet-refl user g
  handle-Quiet empty (loaded (some d)) (unopened, user) g m = Quiet-refl user g
  handle-Quiet empty (loaded (some d)) (loading, user) g m = on_loaded-Quiet empty d user g
  handle-Quiet empty (loaded (some d)) (computing d' ydoc, user) g m = Quiet-refl user g
  handle-Quiet empty (loaded (some d)) (rechecking d' ydoc sv, user) g m = Quiet-refl user g
  handle-Quiet empty (loaded (some d)) (finished, user) g m = Quiet-refl user g
  handle-Quiet empty (computed none) (unopened, user) g m = Quiet-refl user g
  handle-Quiet empty (computed none) (loading, user) g m = Quiet-refl user g
  handle-Quiet empty (computed none) (computing d ydoc, user) g m = fail-Quiet user g
  handle-Quiet empty (computed none) (rechecking d ydoc sv, user) g m = Quiet-refl user g
  handle-Quiet empty (computed none) (finished, user) g m = Quiet-refl user g
  handle-Quiet empty (computed (some sv)) (unopened, user) g m = Quiet-refl user g
  handle-Quiet empty (computed (some sv)) (loading, user) g m = Quiet-refl user g
  handle-Quiet empty (computed (some sv)) (computing d ydoc, user) g m =
      on_computed-Quiet d ydoc sv user g
  handle-Quiet empty (computed (some sv)) (rechecking d ydoc sv', user) g m = Quiet-refl user g
  handle-Quiet empty (computed (some sv)) (finished, user) g m = Quiet-refl user g
  handle-Quiet empty (rechecked answer) (unopened, user) g m = Quiet-refl user g
  handle-Quiet empty (rechecked answer) (loading, user) g m = Quiet-refl user g
  handle-Quiet empty (rechecked answer) (computing d ydoc, user) g m = Quiet-refl user g
  handle-Quiet empty (rechecked answer) (rechecking d ydoc sv, user) g m =
      let h = on_access-Quiet answer user g in
      Quiet-trans user _ _ h (sync-Quiet d ydoc sv _ h.gone)
  handle-Quiet empty (rechecked answer) (finished, user) g m = Quiet-refl user g
  handle-Quiet empty (access answer) (phase, user) g m = on_access-Quiet answer user g
  handle-Quiet empty (streamed ms) (phase, user) g m = on_stream-Quiet ms user g
  handle-Quiet empty (message bytes) (phase, user) g m = cc
  handle-Quiet empty add_failed (phase, user) g m = fail-Quiet user g
  handle-Quiet empty closed (phase, user) g m = on_close-Quiet user g
