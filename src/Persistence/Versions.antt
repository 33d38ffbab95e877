-- ===== src/Persistence/Versions.antt =====
-- src/persistence.js: which rows of `yhub_ydoc_v1` the operations write and delete.
use yhub.Base.{
  Bool, true, false, not, ◌||◌, List, [], ◌∷◌, keep, some_of, some_of-append, ◌≡◌, refl, arith,
  text_eq_refl,
}
use yhub.Room.{Room, room_eq, room_eq_iff}
use yhub.Persistence.{
  Row, Tables, Include, Reference, same_version, column_reference, row_references, references_of,
  versions, names_row, delete_rows, retrieve_assets,
}

-- At least one column is asked for.
abbrev pub wants : Include → Bool
wants want = want.gc || want.nongc || want.contentmap || want.contentids

abbrev pub named : Row → List Reference → Bool
named row = some_of (names_row row)

-- The references of a row name this version, and no other.
named-row_references :
    (row other : Row) (want : Include) (only : Bool)
    → wants want ≡ true
    → named row (row_references want only other) ≡ same_version row other
unfolding row_references column_reference names_row same_version
named-row_references row other want only h = ground arith

named-references_of :
    (row : Row) (want : Include) (only : Bool) (rows : List Row)
    → wants want ≡ true
    → named row (references_of want only rows) ≡ some_of (same_version row) rows
unfolding references_of
named-references_of row want only [] h = refl
named-references_of row want only (other ∷ rows) h = rw (
  some_of-append (names_row row) (row_references want only other) (references_of want only rows),
  named-row_references row other want only h,
  named-references_of row want only rows h,
)

same_version_refl : (row : Row) → same_version row row ≡ true
unfolding same_version
same_version_refl row = ground (arith, room_eq_iff row.room row.room, text_eq_refl row.t)

-- Every row of the room is taken by the test.
abbrev Covers : (Row → Bool) → Room → List Row → Type 0
Covers q room [] = Unit
Covers q room (row ∷ rows) = (room_eq row.room room ≡ true → q row ≡ true) × Covers q room rows

Covers-imp :
    (p q : Row → Bool) (room : Room) (rows : List Row)
    → ((row : Row) → p row ≡ true → q row ≡ true)
    → Covers p room rows
    → Covers q room rows
Covers-imp p q room [] f h = tt
Covers-imp p q room (row ∷ rows) f (h, hs) = (λ e. f row (h e), Covers-imp p q room rows f hs)

-- The versions of a room cover it.
Covers-versions :
    (room : Room) (rows : List Row)
    → Covers (λ row. some_of (same_version row) (versions room rows)) room rows
Covers-versions room [] = tt
Covers-versions room (row ∷ rows) = (
  λ e. rw e (ground (arith, same_version_refl row)),
  Covers-imp (λ r. some_of (same_version r) (versions room rows))
      (λ r. some_of (same_version r) (versions room (row ∷ rows))) room rows (λ r h. ground arith)
      (Covers-versions room rows),
)

versions-keep_none :
    (q : Row → Bool) (room : Room) (rows : List Row)
    → Covers q room rows
    → versions room (keep (λ row. not (q row)) rows) ≡ []
versions-keep_none q room [] h = refl
versions-keep_none q room (row ∷ rows) (h, hs) =
    ground (arith, h, versions-keep_none q room rows hs)

-- A version of a room belongs to the room.
versions-room :
    (row : Row) (room : Room) (rows : List Row)
    → some_of (same_version row) (versions room rows) ≡ true
    → room_eq row.room room ≡ true
unfolding same_version
versions-room row room [] h = cc
versions-room row room (other ∷ rows) h = ground (
  arith,
  versions-room row room rows,
  room_eq_iff other.room row.room,
  room_eq_iff other.room room,
  room_eq_iff row.room room,
)

versions-keep_other :
    (q : Row → Bool) (room other : Room) (rows : List Row)
    → ((row : Row) → q row ≡ true → room_eq row.room room ≡ true)
    → room_eq room other ≡ false
    → versions other (keep (λ row. not (q row)) rows) ≡ versions other rows
versions-keep_other q room other [] f n = refl
versions-keep_other q room other (row ∷ rows) f n = ground (
  arith,
  f row,
  versions-keep_other q room other rows f n,
  room_eq_iff row.room room,
  room_eq_iff row.room other,
  room_eq_iff room other,
)

-- The references of a room's versions name exactly the rows of the room.
module _ (room : Room) (want : Include) (only : Bool) (db : Tables) (h : wants want ≡ true) where
  abbrev pub listed : List Reference
  listed = (retrieve_assets room want only db).assets

  -- What is listed names the versions of the room.
  pub named-listed :
      (row : Row) → named row listed ≡ some_of (same_version row) (versions room db.docs)
  unfolding retrieve_assets
  named-listed row = named-references_of row want only (versions room db.docs) h

  -- Deleting what was listed removes every version of the room.
  pub versions-delete_rows : versions room (delete_rows listed db).docs ≡ []
  unfolding delete_rows
  versions-delete_rows =
      versions-keep_none (λ row. named row listed) room db.docs
        (Covers-imp (λ row. some_of (same_version row) (versions room db.docs))
          (λ row. named row listed) room db.docs (λ row e. rw (named-listed row) e)
          (Covers-versions room db.docs))

  -- And no version of another room.
  pub versions-delete_rows_other :
      (other : Room)
      → room_eq room other ≡ false
      → versions other (delete_rows listed db).docs ≡ versions other db.docs
  unfolding delete_rows
  versions-delete_rows_other other n =
      versions-keep_other (λ row. named row listed) room other db.docs
        (λ row e. versions-room row room db.docs (rw (named-listed row) at e)) n
