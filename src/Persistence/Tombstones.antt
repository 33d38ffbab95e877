-- ===== src/Persistence/Tombstones.antt =====
-- src/persistence.js: the deletion records.
use yhub.Base.{
  ℕ, Bool, true, not, ◌&&◌, ◌||◌, Option, none, some, List, [], ◌∷◌, Text, if◌then◌else◌, keep, ◌≡◌,
  arith,
}
use yhub.Room.{Room, room_eq, room_eq_iff}
use yhub.Persistence.{
  Tombstone, Tables, Content, find_tombstone, upsert_tombstone, store_tombstone, mark_purged,
  store_tombstone_purged, delete_tombstone, retrieve_tombstone, hard_deleted, insert_row, stored,
  store,
}
use yhub.Persistence.Plugins.{Plugin}

-- What a deletion leaves as the record of its room.
abbrev pub merged : Option Tombstone → Tombstone → Tombstone
merged none new = new
merged (some d) new = record d { hard = d.hard || new.hard }

find-upsert :
    (room : Room) (new : Tombstone) (ds : List Tombstone)
    → find_tombstone room (upsert_tombstone new ds) ≡ (
        if room_eq new.room room
        then some (merged (find_tombstone room ds) new)
        else find_tombstone room ds)
unfolding find_tombstone upsert_tombstone
find-upsert room new [] = ground arith
find-upsert room new (d ∷ ds) = ground (
  arith,
  find-upsert room new ds,
  room_eq_iff d.room new.room,
  room_eq_iff d.room room,
  room_eq_iff new.room room,
)

-- After `storeTombstone`, the room's record is the given one if it had none, and otherwise its
-- earlier record, hard if either is, with its time, author and purge kept; any other room has the
-- record that it had.
pub retrieve_tombstone-store :
    (room other : Room) (at : ℕ) (hard : Bool) (by : Option Text) (db : Tables)
    → retrieve_tombstone other (store_tombstone room at hard by db) ≡ (
        if room_eq room other
        then some (
            merged
              (retrieve_tombstone other db)
              (record { room = room; deleted_at = at; hard = hard; purged_at = none; by = by }))
        else retrieve_tombstone other db)
unfolding retrieve_tombstone store_tombstone
retrieve_tombstone-store room other at hard by db = find-upsert other _ db.tombstones

hard_deleted-upsert :
    (room : Room) (new : Tombstone) (ds : List Tombstone)
    → hard_deleted room (upsert_tombstone new ds)
      ≡ (hard_deleted room ds || (room_eq new.room room && new.hard))
unfolding hard_deleted upsert_tombstone
hard_deleted-upsert room new [] = ground arith
hard_deleted-upsert room new (d ∷ ds) = ground (
  arith,
  hard_deleted-upsert room new ds,
  room_eq_iff d.room new.room,
  room_eq_iff d.room room,
  room_eq_iff new.room room,
)

-- A record with the time of its purge.
abbrev pub stamped : ℕ → Option Tombstone → Option Tombstone
stamped at none = none
stamped at (some d) = some (record d { purged_at = some at })

find-mark_purged :
    (room other : Room) (at : ℕ) (ds : List Tombstone)
    → find_tombstone other (mark_purged room at ds) ≡ (
        if room_eq room other
        then stamped at (find_tombstone other ds)
        else find_tombstone other ds)
unfolding find_tombstone mark_purged
find-mark_purged room other at [] = ground arith
find-mark_purged room other at (d ∷ ds) = ground (
  arith,
  find-mark_purged room other at ds,
  room_eq_iff d.room room,
  room_eq_iff d.room other,
  room_eq_iff room other,
)

pub retrieve_tombstone-purged :
    (room other : Room) (at : ℕ) (db : Tables)
    → retrieve_tombstone other (store_tombstone_purged room at db) ≡ (
        if room_eq room other
        then stamped at (retrieve_tombstone other db)
        else retrieve_tombstone other db)
unfolding retrieve_tombstone store_tombstone_purged
retrieve_tombstone-purged room other at db = find-mark_purged room other at db.tombstones

find-delete :
    (room other : Room) (ds : List Tombstone)
    → find_tombstone other (keep (λ (d : Tombstone). not (room_eq d.room room)) ds)
      ≡ (if room_eq room other then none else find_tombstone other ds)
unfolding find_tombstone
find-delete room other [] = ground arith
find-delete room other (d ∷ ds) = ground (
  arith,
  find-delete room other ds,
  room_eq_iff d.room room,
  room_eq_iff d.room other,
  room_eq_iff room other,
)

pub retrieve_tombstone-delete :
    (room other : Room) (db : Tables)
    → retrieve_tombstone other (delete_tombstone room db)
      ≡ (if room_eq room other then none else retrieve_tombstone other db)
unfolding retrieve_tombstone delete_tombstone
retrieve_tombstone-delete room other db = find-delete room other db.tombstones

module _ {W : Type 0} (plugins : List (Plugin W)) where
  -- After a hard deletion of a room is recorded, storing a version of the room leaves both tables
  -- as they are, for every content, clock, list of plugins and state of the tables before.
  pub store-hard_deleted :
      (room : Room) (at : ℕ) (by : Option Text) (c : Content) (w : W) (db : Tables)
      → (store plugins room c (w, store_tombstone room at true by db)).1
        ≡ store_tombstone room at true by db
  unfolding store stored store_tombstone insert_row
  store-hard_deleted room at by c w db = ground (
    arith,
    hard_deleted-upsert room
        (record { room = room; deleted_at = at; hard = true; purged_at = none; by = by })
        db.tombstones,
    room_eq_iff room room,
  )
