-- ===== src/Hub/Deletion.antt =====
-- src/index.js: `deleteDoc` and `restoreDoc`.
use yhub.Base.{
  ℕ, Bool, true, false, not, ◌||◌, Option, none, some, is_some, List, [], ◌∷◌, Text, keep, ◌≡◌,
  refl, arith, Option-cases, inl, inr, ap, ◌∙◌,
}
use yhub.Message.{AnyCodec}
use yhub.Room.{Room, room_eq, room_eq_iff}
use yhub.Naming.{encode_room_name}
use yhub.Redis.{Redis}
use yhub.Stream.{worker_stream_name}
use yhub.Persistence.{
  Tables, Tombstone, find_tombstone, upsert_tombstone, store_tombstone, delete_tombstone,
  retrieve_tombstone, store_tombstone_purged, purge_doc, versions,
}
use yhub.Persistence.Plugins.{Plugin}
use yhub.Persistence.Tombstones.{retrieve_tombstone-store, retrieve_tombstone-purged, stamped}
use yhub.Persistence.Replacing.{purge_doc-versions}
use yhub.Yjs.{Yjs}
use yhub.Hub.{after_record, delete_doc, restore_doc, purge_world, is_hard}

-- Deleting the only record of a room takes it away again.
keep-upsert :
    (room : Room) (new : Tombstone) (ds : List Tombstone)
    → new.room ≡ room
    → find_tombstone room ds ≡ none
    → keep (λ (d : Tombstone). not (room_eq d.room room)) (upsert_tombstone new ds) ≡ ds
unfolding find_tombstone upsert_tombstone
keep-upsert room new [] e h = ground (arith, room_eq_iff new.room room)
keep-upsert room new (d ∷ ds) e h =
    ground (arith, keep-upsert room new ds e, room_eq_iff d.room new.room, room_eq_iff d.room room)

delete-store_tombstone :
    (room : Room) (at : ℕ) (hard : Bool) (by : Option Text) (db : Tables)
    → retrieve_tombstone room db ≡ none
    → delete_tombstone room (store_tombstone room at hard by db) ≡ db
unfolding delete_tombstone store_tombstone retrieve_tombstone
delete-store_tombstone room at hard by db h =
    ap (λ ds. record db { tombstones = ds }) (keep-upsert room _ db.tombstones refl h)

-- The record that a first deletion makes.
abbrev first_record : Room → ℕ → Bool → Option Text → Tombstone
first_record room at hard by = record {
  room = room;
  deleted_at = at;
  hard = hard;
  purged_at = none;
  by = by;
}

retrieve-first :
    (room : Room) (at : ℕ) (hard : Bool) (by : Option Text) (db : Tables)
    → retrieve_tombstone room db ≡ none
    → retrieve_tombstone room (store_tombstone room at hard by db)
      ≡ some (first_record room at hard by)
retrieve-first room at hard by db h =
    rw (retrieve_tombstone-store room room at hard by db, (room_eq_iff room room).1 refl, h) refl

module _ {W : Type 0} (prefix : Text) (r : Redis (worker_stream_name prefix)) (codec : AnyCodec)
    (y : Yjs) (plugins : List (Plugin W)) (min_message_lifetime : ℕ) where
  open r use {Db}

  abbrev State : Type 0
  State = Db × (W × Tables)

  abbrev deleting :
      Room
      → Bool
      → Option Text
      → ℕ
      → ℕ
      → List Text
      → List Text
      → State
      → Option (Option Tombstone) × State
  deleting = delete_doc prefix r codec y plugins min_message_lifetime

  abbrev restoring : Room → State → Bool × State
  restoring = restore_doc prefix r codec y plugins min_message_lifetime

  -- The files and the tables behind a deletion that is not hard.
  soft_files :
      (room : Room) (key : Text) (by : Option Text) (now purged : ℕ) (found backlog : List Text)
      (s : State)
      → encode_room_name room prefix ≡ some key
      → retrieve_tombstone room s.1.1 ≡ none
      → (deleting room false by now purged found backlog s).1.1
        ≡ (s.1.0, store_tombstone room now false by s.1.1)
  unfolding delete_doc is_hard
  soft_files room key by now purged found backlog (db, (w, tables)) name h =
      rw (name, delete_doc) (rw (retrieve-first room now false by tables h, after_record) refl)

  restored :
      (room : Room) (d : Tombstone) (s : State)
      → retrieve_tombstone room s.1.1 ≡ some d
      → (d.hard || is_some d.purged_at) ≡ false
      → restoring room s ≡ (true, (s.0, (s.1.0, delete_tombstone room s.1.1)))
  unfolding restore_doc
  restored room d (db, (w, tables)) e h = rw (e, restore_doc) (rw h refl)

  -- For a room without a deletion, a soft `deleteDoc` followed by `restoreDoc`, which does not
  -- throw, leaves the tables and the files of the plugins as they were.
  pub restore_doc-delete_doc :
      (room : Room) (key : Text) (by : Option Text) (now purged : ℕ) (found backlog : List Text)
      (s : State)
      → encode_room_name room prefix ≡ some key
      → retrieve_tombstone room s.1.1 ≡ none
      → ((restoring room (deleting room false by now purged found backlog s).1).0 ≡ true)
        × ((restoring room (deleting room false by now purged found backlog s).1).1.1 ≡ s.1)
  restore_doc-delete_doc room key by now purged found backlog s name h =
      let files = soft_files room key by now purged found backlog s name h in
      let back =
        restored room (first_record room now false by)
          (deleting room false by now purged found backlog s).1
          (ap (λ f. retrieve_tombstone room f.1) files ∙ retrieve-first room now false by s.1.1 h)
          refl in
      (
        ap (λ p. p.0) back,
        ap (λ p. p.1.1) back
            ∙ ap (λ f. (f.0, delete_tombstone room f.1)) files
            ∙ ap (λ t. (s.1.0, t)) (delete-store_tombstone room now false by s.1.1 h),
      )

  hard_record :
      (room : Room) (now : ℕ) (by : Option Text) (db : Tables)
      → (d : Tombstone) × (retrieve_tombstone room (store_tombstone room now true by db) ≡ some d)
        × (d.hard ≡ true)
  hard_record room now by db = elim (Option-cases (retrieve_tombstone room db)) [
    | inl n ↦ (first_record room now true by, retrieve-first room now true by db n, refl)
    | inr (d, e) ↦ (
      record d { hard = d.hard || true },
      rw (retrieve_tombstone-store room room now true by db, (room_eq_iff room room).1 refl, e)
          refl,
      ground arith,
    )
  ]

  -- The tables behind a hard deletion are those that are recorded, purged.
  hard_files :
      (room : Room) (key : Text) (by : Option Text) (now purged : ℕ) (found backlog : List Text)
      (s : State)
      → encode_room_name room prefix ≡ some key
      → (deleting room true by now purged found backlog s).1.1.1
        ≡ store_tombstone_purged room purged
            (purge_doc plugins room (s.1.0, store_tombstone room now true by s.1.1)).1
  unfolding delete_doc purge_world is_hard
  hard_files room key by now purged found backlog (db, (w, tables)) name =
      let (d, e, hard) = hard_record room now by tables in
      rw (name, delete_doc) (rw (e, after_record) (rw hard refl))

  purged-docs :
      (room : Room) (now : ℕ) (db : Tables) → (store_tombstone_purged room now db).docs ≡ db.docs
  unfolding store_tombstone_purged
  purged-docs room now db = refl

  -- The record behind a purge that leaves the records as they are.
  purged_record :
      (room : Room) (now : ℕ) (before after : Tables) (d : Tombstone)
      → after.tombstones ≡ before.tombstones
      → retrieve_tombstone room before ≡ some d
      → retrieve_tombstone room (store_tombstone_purged room now after)
        ≡ some (record d { purged_at = some now })
  unfolding retrieve_tombstone
  purged_record room now before after d kept e =
      retrieve_tombstone-purged room room now after
      ∙ rw ((room_eq_iff room room).1 refl) (ap (stamped now) (ap (find_tombstone room) kept ∙ e))

  refused :
      (room : Room) (d : Tombstone) (s : State)
      → retrieve_tombstone room s.1.1 ≡ some d
      → d.hard ≡ true
      → restoring room s ≡ (false, s)
  unfolding restore_doc
  refused room d (db, (w, tables)) e h = rw (e, restore_doc) (rw h refl)

  -- After a hard `deleteDoc` of a room that has a stream name, the room has no version, its record
  -- is hard and has the time of the purge, and `restoreDoc` throws and changes nothing.
  pub restore_doc-hard :
      (room : Room) (key : Text) (by : Option Text) (now purged : ℕ) (found backlog : List Text)
      (s : State)
      → encode_room_name room prefix ≡ some key
      → (versions room (deleting room true by now purged found backlog s).1.1.1.docs ≡ [])
        × ((d : Tombstone) × (retrieve_tombstone room
                (deleting room true by now purged found backlog s).1.1.1
              ≡ some d)
            × (d.hard ≡ true)
            × (d.purged_at ≡ some purged))
        × (restoring room (deleting room true by now purged found backlog s).1
            ≡ (false, (deleting room true by now purged found backlog s).1))
  restore_doc-hard room key by now purged found backlog s name =
      let files = hard_files room key by now purged found backlog s name in
      let (none_left, _, kept) =
        purge_doc-versions plugins room s.1.0 (store_tombstone room now true by s.1.1) in
      let (d, e, hard) = hard_record room now by s.1.1 in
      let record_after =
        ap (retrieve_tombstone room) files
        ∙ purged_record room purged (store_tombstone room now true by s.1.1)
            (purge_doc plugins room (s.1.0, store_tombstone room now true by s.1.1)).1 d kept e in
      (
        ap (λ t. versions room t.docs) files
            ∙ (ap (versions room) (purged-docs room purged _) ∙ none_left),
        (record d { purged_at = some purged }, record_after, hard, refl),
        refused room (record d { purged_at = some purged })
            (deleting room true by now purged found backlog s).1 record_after hard,
      )
