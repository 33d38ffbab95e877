-- ===== src/Server/Closing.antt =====
-- src/server.js: a connection is closed once, and what a closed one does.
use yhub.Base.{
  ℕ, zero, suc, ◌+◌, ◌≤◌, Bool, true, false, Option, none, some, [], ◌∷◌, if◌then◌else◌, count_of,
  count_of-append, ◌≡◌, refl, arith, sym, ◌∙◌,
}
use mathlib.Core.Option.{none-ne-some}
use yhub.Server.{
  Environment, Effect, sent, ended, unsubscribed, added, User, perform, depart, destroy_unless,
  destroy, end_socket, mark_closed, close,
}

abbrev pub is_ended : Effect → Bool
is_ended (ended code) = true
is_ended _ = false

abbrev pub is_unsubscribed : Effect → Bool
is_unsubscribed unsubscribed = true
is_unsubscribed _ = false

abbrev pub is_added : Effect → Bool
is_added (added m) = true
is_added _ = false

abbrev pub is_sent : Effect → Bool
is_sent (sent m) = true
is_sent _ = false

abbrev pub times : (Effect → Bool) → User → ℕ
times p user = count_of p user.effects

-- A connection that is closed and destroyed at once, with what it did by then.
pub record IsUser (user : User) : Type 0 where
  pub closed_destroyed : user.is_destroyed ≡ user.is_closed
  pub ended_once : times is_ended user ≤ (if user.is_closed then 1 else 0)
  pub unsubscribed_once : times is_unsubscribed user ≡ (if user.is_closed then 1 else 0)
  pub silent :
      user.has_write_access ≡ false → (user.awareness_id ≡ none) × (times is_added user ≡ 0)

pub times-perform :
    (p : Effect → Bool) (e : Effect) (user : User)
    → times p (perform e user) ≡ times p user + (if p e then 1 else 0)
times-perform p e user = ground (arith, count_of-append p user.effects (e ∷ []))

-- An effect that leaves the connection open.
pub perform-IsUser :
    (e : Effect) (user : User)
    → is_ended e ≡ false
    → is_unsubscribed e ≡ false
    → (user.has_write_access ≡ false → is_added e ≡ false)
    → IsUser user
    → IsUser (perform e user)
perform-IsUser e user a b c h = record {
  closed_destroyed = h.closed_destroyed;
  ended_once = ground (arith, h.ended_once, a, times-perform is_ended e user);
  unsubscribed_once = ground (arith, h.unsubscribed_once, b, times-perform is_unsubscribed e user);
  silent =
      λ w. ((h.silent w).0, ground (arith, (h.silent w).1, c w, times-perform is_added e user));
}

module _ (env : Environment) where
  depart-closed : (id : Option ℕ) (user : User) → (depart env id user).is_closed ≡ user.is_closed
  unfolding depart
  depart-closed none user = refl
  depart-closed (some zero) user = refl
  depart-closed (some (suc id)) user = refl

  depart-IsUser :
      (id : Option ℕ) (user : User)
      → IsUser user
      → (user.has_write_access ≡ false → id ≡ none)
      → IsUser (depart env id user)
  unfolding depart
  depart-IsUser none user h s = h
  depart-IsUser (some zero) user h s = h
  depart-IsUser (some (suc id)) user h s =
      perform-IsUser _ user refl refl (λ w. elim (none-ne-some (suc id) (sym (s w))) [ ]) h

  -- `destroy` on a connection that has just been closed.
  pub destroy-IsUser :
      (user : User)
      → user.is_destroyed ≡ false
      → user.is_closed ≡ true
      → times is_ended user ≤ 1
      → times is_unsubscribed user ≡ 0
      → (user.has_write_access ≡ false → (user.awareness_id ≡ none) × (times is_added user ≡ 0))
      → IsUser (destroy_unless env false user)
  destroy-IsUser user d c e u s =
      let gone = perform unsubscribed (record user { is_destroyed = true }) in
      let h : IsUser gone = record {
        closed_destroyed = sym c;
        ended_once = ground (arith, c, e, times-perform is_ended unsubscribed user);
        unsubscribed_once = ground (arith, c, u, times-perform is_unsubscribed unsubscribed user);
        silent = λ w. ((s w).0, ground (arith, (s w).1, times-perform is_added unsubscribed user));
      } in
      simp (depart-closed user.awareness_id gone ∙ c)
        (depart-IsUser user.awareness_id gone h (λ w. (s w).0))

  end_socket-IsUser :
      (b : Bool) (code : ℕ) (user : User)
      → IsUser user
      → user.is_closed ≡ false
      → IsUser (destroy_unless env false (record (end_socket env b code user) { is_closed = true }))
  end_socket-IsUser false code user h c =
      destroy-IsUser (record user { is_closed = true }) (h.closed_destroyed ∙ c) refl
        (ground (arith, h.ended_once, c)) (ground (arith, h.unsubscribed_once, c)) h.silent
  end_socket-IsUser true code user h c =
      destroy-IsUser (record (perform (ended code) user) { is_closed = true })
        (h.closed_destroyed ∙ c) refl
        (ground (arith, h.ended_once, c, times-perform is_ended (ended code) user))
        (ground (arith, h.unsubscribed_once, c, times-perform is_unsubscribed (ended code) user))
        (λ w. (
          (h.silent w).0,
          ground (arith, (h.silent w).1, times-perform is_added (ended code) user),
        ))

  end_socket-destroyed :
      (b : Bool) (code : ℕ) (user : User)
      → (end_socket env b code user).is_destroyed ≡ user.is_destroyed
  end_socket-destroyed true code user = refl
  end_socket-destroyed false code user = refl

  mark_closed-IsUser :
      (b : Bool) (code : ℕ) (user : User)
      → user.is_closed ≡ b
      → IsUser user
      → IsUser (destroy env (mark_closed env b code user))
  unfolding destroy
  mark_closed-IsUser true code user c h = simp (h.closed_destroyed ∙ c) h
  mark_closed-IsUser false code user c h =
      simp (end_socket-destroyed user.connected code user ∙ h.closed_destroyed ∙ c)
        (end_socket-IsUser user.connected code user h c)

  -- Whatever closes a connection.
  pub close-IsUser : (code : ℕ) (user : User) → IsUser user → IsUser (close env code user)
  unfolding close
  close-IsUser code user h = mark_closed-IsUser user.is_closed code user refl h
