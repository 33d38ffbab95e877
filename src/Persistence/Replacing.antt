-- ===== src/Persistence/Replacing.antt =====
-- src/persistence.js and src/index.js: a compaction stores one version and deletes those that it
-- read; a purge deletes all.
use yhub.Base.{
  Bool, true, false, not, ◌||◌, List, [], ◌∷◌, ◌++◌, keep, keep-append, some_of, some_of-append,
  ◌≡◌, refl, arith, Bool-cases, inl, inr, text_eq_iff,
}
use yhub.Room.{Room, room_eq, room_eq_iff}
use yhub.Persistence.{
  Row, Tables, Include, Reference, same_version, insert_row, hard_deleted, versions, delete_rows,
  delete_references, retrieve_assets, purge_doc,
}
use yhub.Persistence.Plugins.{Plugin}
use yhub.Persistence.Versions.{
  wants, named, named-listed, versions-delete_rows, versions-delete_rows_other,
}

-- No two rows have one key.
abbrev pub Distinct : List Row → Type 0
Distinct [] = Unit
Distinct (row ∷ rows) = (some_of (same_version row) rows ≡ false) × Distinct rows

same_version_comm : (a b : Row) → same_version a b ≡ same_version b a
unfolding same_version
same_version_comm a b = ground (
  arith,
  room_eq_iff a.room b.room,
  room_eq_iff b.room a.room,
  text_eq_iff a.t b.t,
  text_eq_iff b.t a.t,
)

Distinct-snoc :
    (rows : List Row) (row : Row)
    → some_of (same_version row) rows ≡ false
    → Distinct rows
    → Distinct (rows ++ row ∷ [])
Distinct-snoc [] row h d = (refl, tt)
Distinct-snoc (other ∷ rows) row h (d, ds) = (
  rw (some_of-append (same_version other) rows (row ∷ []))
      (ground (arith, same_version_comm other row)),
  Distinct-snoc rows row (ground arith) ds,
)

-- If no two rows have the same room and clock, this still holds after `store` inserts a row.
pub insert_row-Distinct :
    (row : Row) (db : Tables) → Distinct db.docs → Distinct (insert_row row db).docs
unfolding insert_row
insert_row-Distinct row db d =
    elim (Bool-cases (hard_deleted row.room db.tombstones || some_of (same_version row) db.docs)) [
      | inl e ↦ rw (e, insert_row) d
      | inr e ↦ rw (e, insert_row) (Distinct-snoc db.docs row (ground arith) d)
    ]

versions_fresh :
    (row : Row) (room : Room) (rows : List Row)
    → some_of (same_version row) rows ≡ false
    → some_of (same_version row) (versions room rows) ≡ false
versions_fresh row room [] h = refl
versions_fresh row room (other ∷ rows) h = ground (arith, versions_fresh row room rows)

-- If a new version is stored in a room that is not hard-deleted, under a clock that no row of the
-- room has, and then the references that were read before from at least one column are deleted,
-- then the new version is the only one of its room.
pub versions-replace :
    (row : Row) (want : Include) (only : Bool) (db : Tables)
    → wants want ≡ true
    → hard_deleted row.room db.tombstones ≡ false
    → some_of (same_version row) db.docs ≡ false
    → versions row.room
        (delete_rows (retrieve_assets row.room want only db).assets (insert_row row db)).docs
      ≡ row ∷ []
unfolding insert_row delete_rows
versions-replace row want only db h alive fresh =
    rw (alive, fresh, insert_row)
      (rw
        (
          keep-append (λ (r : Row). not (named r refs)) db.docs (row ∷ []),
          keep-append (λ (r : Row). room_eq r.room row.room)
              (keep (λ (r : Row). not (named r refs)) db.docs)
              (keep (λ (r : Row). not (named r refs)) (row ∷ [])),
        )
        (rw (versions-delete_rows row.room want only db h) (
          ground (
            arith,
            named-listed row.room want only db h row,
            versions_fresh row row.room db.docs fresh,
            room_eq_iff row.room row.room,
          ))))
  where
    refs : List Reference
    refs = (retrieve_assets row.room want only db).assets

delete_rows-tombstones :
    (refs : List Reference) (db : Tables) → (delete_rows refs db).tombstones ≡ db.tombstones
unfolding delete_rows
delete_rows-tombstones refs db = refl

abbrev every_column : Include
every_column = record { gc = true; nongc = true; contentmap = true; contentids = true }

module _ {W : Type 0} (plugins : List (Plugin W)) where
  -- `purgeDoc` of the persistence leaves no version of its room, and changes neither the versions
  -- of another room nor the tombstones, whatever the plugins do.
  pub purge_doc-versions :
      (room : Room) (w : W) (db : Tables)
      → (versions room (purge_doc plugins room (w, db)).1.docs ≡ [])
        × ((other : Room)
            → room_eq room other ≡ false
            → versions other (purge_doc plugins room (w, db)).1.docs ≡ versions other db.docs)
        × ((purge_doc plugins room (w, db)).1.tombstones ≡ db.tombstones)
  unfolding purge_doc delete_references
  purge_doc-versions room w db = (
    versions-delete_rows room every_column true db refl,
    versions-delete_rows_other room every_column true db refl,
    delete_rows-tombstones (retrieve_assets room every_column true db).assets db,
  )
