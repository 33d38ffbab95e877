-- ===== src/Server/Upgrade.antt =====
-- src/server.js: who gets a connection.
use yhub.Base.{Bool, true, false, Option, List, Text, ◌≡◌, refl, Bool-cases, inl, inr}
use yhub.Cors.{ResolvedCors, origin_allowed}
use yhub.Server.{has_read_access, has_write_access, User}
use yhub.Server.Connection.{
  Answer, upgraded, Auth, api_throws, other_throws, read, new_user, answer, upgrade,
}

-- Who has been read, with the access that was read.
abbrev pub HasAccess : Auth → User → Type 0
HasAccess (api_throws status message) user = ⊥
HasAccess other_throws user = ⊥
HasAccess (read auth_info userid granted) user =
    (has_read_access granted ≡ true)
    × (user.has_write_access ≡ has_write_access granted)
    × (user.userid ≡ userid)
    × (user.is_closed ≡ false)

-- What must hold of a connection that is made.
abbrev pub UpgradedIf : Option ResolvedCors → Text → Text → Text → Auth → Answer → Type 0
UpgradedIf cors origin host site auth (upgraded user) =
    (origin_allowed cors origin host site ≡ true) × HasAccess auth user
UpgradedIf cors origin host site auth _ = Unit {0}

answer-UpgradedIf :
    (cors : Option ResolvedCors) (origin host site : Text) (customs : List (Text × Text))
    (auth : Auth) (aborted : Bool)
    → origin_allowed cors origin host site ≡ true
    → UpgradedIf cors origin host site auth (answer customs auth aborted)
unfolding answer new_user
answer-UpgradedIf cors origin host site customs (api_throws status message) true e = tt
answer-UpgradedIf cors origin host site customs (api_throws status message) false e = tt
answer-UpgradedIf cors origin host site customs other_throws true e = tt
answer-UpgradedIf cors origin host site customs other_throws false e = tt
answer-UpgradedIf cors origin host site customs (read auth_info userid granted) aborted e =
    elim (Bool-cases (has_read_access granted)) [
      | inr a ↦ simp (a) tt
      | inl a ↦ elim (Bool-cases aborted) [
        | inl b ↦ simp (a, b) tt
        | inr b ↦ simp (a, b) (e, (refl, refl, refl, refl))
      ]
    ]

-- A connection is only made for a request whose origin is allowed, of a client that the auth plugin
-- has read and who has read access; it starts open, under the client's own id, and with write access
-- just where the plugin grants it. A plugin that throws yields no connection.
pub upgrade-UpgradedIf :
    (cors : Option ResolvedCors) (origin host site : Text) (customs : List (Text × Text))
    (auth : Auth) (aborted : Bool)
    → UpgradedIf cors origin host site auth (upgrade cors origin host site customs auth aborted)
unfolding upgrade
upgrade-UpgradedIf cors origin host site customs auth aborted =
    elim (Bool-cases (origin_allowed cors origin host site)) [
      | inr e ↦ simp (e) tt
      | inl e ↦ simp (e) (answer-UpgradedIf cors origin host site customs auth aborted e)
    ]
