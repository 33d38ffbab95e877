-- ===== src/Server/Deleted.antt =====
-- src/server.js: the end of a connection whose document is deleted.
use yhub.Base.{
  true, false, none, List, [], ◌∷◌, ◌++◌, append_assoc, keep-append, ap, ◌∙◌, ◌≡◌, refl, sym, subst,
}
use yhub.Message.{Message, tombstone}
use yhub.Server.{
  Environment, ended, unsubscribed, User, destroy, close, close_doc_deleted, ws_close_doc_deleted,
  depart, on_directive, on_directives, updates_in, awareness_in, on_stream_message, on_stream,
}
use yhub.Server.Quiet.{is_visible, visible, IsGone, Quiet, on_stream-Quiet}

-- A connection that has been ended with the code of a deleted document, without a departure.
abbrev pub deleted : User → User
deleted user = record user {
  awareness_id = none;
  is_closed = true;
  is_destroyed = true;
  effects = (user.effects ++ ended ws_close_doc_deleted ∷ []) ++ unsubscribed ∷ [];
}

module _ (env : Environment) where
  close_doc_deleted-open :
      (user : User)
      → user.connected ≡ true
      → user.is_closed ≡ false
      → user.is_destroyed ≡ false
      → close_doc_deleted env user ≡ deleted user
  unfolding close_doc_deleted close destroy depart
  close_doc_deleted-open user k c d = simp (k, c, d) refl

  visible-deleted :
      (user : User) → visible (deleted user) ≡ visible user ++ ended 4404 ∷ unsubscribed ∷ []
  visible-deleted user =
      keep-append is_visible (user.effects ++ ended ws_close_doc_deleted ∷ []) (unsubscribed ∷ [])
      ∙ ap (λ es. es ++ unsubscribed ∷ [])
          (keep-append is_visible user.effects (ended ws_close_doc_deleted ∷ []))
      ∙ append_assoc (visible user) (ended 4404 ∷ []) (unsubscribed ∷ [])

  deleted-Quiet :
      (ms : List Message) (user : User)
      → user.connected ≡ true
      → user.is_closed ≡ false
      → user.is_destroyed ≡ false
      → Quiet (deleted user) (on_stream env (tombstone ∷ ms) user)
  unfolding on_stream on_stream_message on_directives on_directive updates_in awareness_in
  deleted-Quiet ms user k c d =
      subst (λ u. Quiet (deleted user) (on_stream env ms u))
        (sym (close_doc_deleted-open user k c d))
        (on_stream-Quiet env ms (deleted user) (refl, refl))

  -- A tombstone at the front of what an open connection gets from the stream, whatever follows it: the
  -- connection is closed and destroyed, and its effects are extended by two, the end of the socket with
  -- the code 4404 and the end of its subscription, in this order, but for questions to the auth plugin.
  -- So nothing is added to the stream, not even the departure of the client's awareness, and nothing
  -- is sent any more.
  pub on_stream-tombstone :
      (ms : List Message) (user : User)
      → user.connected ≡ true
      → user.is_closed ≡ false
      → user.is_destroyed ≡ false
      → IsGone (on_stream env (tombstone ∷ ms) user)
        × (visible (on_stream env (tombstone ∷ ms) user)
            ≡ visible user ++ ended 4404 ∷ unsubscribed ∷ [])
  on_stream-tombstone ms user k c d =
      let h = deleted-Quiet ms user k c d in (h.gone, h.same_effects ∙ visible-deleted user)
