-- ===== src/Tests/Tables.antt =====
-- The tables of src/persistence.js on a few rows.
use yhub.Base.{
  ℕ, true, false, none, some, List, [], ◌∷◌, some_of, codes, ◌≡◌, refl, if◌then◌else◌, text_eq,
  decimal,
}
use yhub.Clock.{clock_text}
use yhub.Room.{Room, room_eq}
use yhub.Assets.{Asset, ydoc, contentmap, contentids, retrievable}
use yhub.Persistence.{
  Column, Row, Tables, Content, Include, versions, insert_row, hard_deleted, same_version,
  delete_rows, retrieve_assets, retrieve_tombstone, store_tombstone, store, purge_doc,
}
use yhub.Persistence.Plugins.{Plugin}
use yhub.Persistence.Tombstones.{merged, retrieve_tombstone-store, store-hard_deleted}
use yhub.Persistence.Replacing.{Distinct, versions-replace, purge_doc-versions, insert_row-Distinct}

abbrev room : Room
room = record { org = codes "o"; docid = codes "d"; branch = codes "main" }

abbrev neighbour : Room
neighbour = record { org = codes "o"; docid = codes "d"; branch = codes "dev" }

abbrev inlined : Asset → Column
inlined a = record { asset = a; is_ref = false }

abbrev version : Room → ℕ → Row
version r ms = record {
  room = r;
  t = clock_text ms 0;
  created = some ms;
  gc_doc = inlined (ydoc (1 ∷ []));
  nongc_doc = inlined (ydoc (1 ∷ []));
  contentmap = inlined (contentmap []);
  contentids = inlined (contentids []);
}

abbrev tables : Tables
tables = record {
  docs = version room 5 ∷ version neighbour 6 ∷ version room 9 ∷ [];
  tombstones = [];
}

tables-Distinct : Distinct tables.docs
unfolding same_version room_eq text_eq clock_text decimal
tables-Distinct = (refl, (refl, (refl, tt)))

insert_row-Distinct_rows : Distinct (insert_row (version room 12) tables).docs
insert_row-Distinct_rows = insert_row-Distinct (version room 12) tables tables-Distinct

abbrev all_columns : Include
all_columns = record { gc = true; nongc = true; contentmap = true; contentids = true }

is_alive : hard_deleted (version room 12).room tables.tombstones ≡ false
unfolding hard_deleted
is_alive = refl

is_new : some_of (same_version (version room 12)) tables.docs ≡ false
unfolding same_version room_eq text_eq clock_text decimal
is_new = refl

versions-replace_example :
    versions room
      (delete_rows
        (retrieve_assets room all_columns true tables).assets
        (insert_row (version room 12) tables)).docs
    ≡ version room 12 ∷ []
versions-replace_example =
    versions-replace (version room 12) all_columns true tables refl is_alive is_new

-- A plugin that keeps every asset, numbered, outside the database.
abbrev keep_all : Plugin (List Asset)
keep_all = record {
  store = some (λ id a w. (some (retrievable (codes "box")), a ∷ w));
  retrieve = none;
  delete = some (λ id a w. []);
}

abbrev content : Content
content = record {
  last_clock = clock_text 20 0;
  gc_doc = 1 ∷ [];
  nongc_doc = 2 ∷ [];
  contentmap = [];
  contentids = [];
}

store-hard_deleted_example :
    (store (keep_all ∷ []) room content ([], store_tombstone room 15 true none tables)).1
    ≡ store_tombstone room 15 true none tables
store-hard_deleted_example = store-hard_deleted (keep_all ∷ []) room 15 none content [] tables

retrieve_tombstone-store_example :
    retrieve_tombstone room (store_tombstone room 15 true none tables) ≡ (
      if room_eq room room
      then some (
          merged
            (retrieve_tombstone room tables)
            (record { room = room; deleted_at = 15; hard = true; purged_at = none; by = none }))
      else retrieve_tombstone room tables)
retrieve_tombstone-store_example = retrieve_tombstone-store room room 15 true none tables

purge_doc-versions_example :
    (versions room (purge_doc (keep_all ∷ []) room ([], tables)).1.docs ≡ [])
    × ((other : Room)
        → room_eq room other ≡ false
        → versions other (purge_doc (keep_all ∷ []) room ([], tables)).1.docs
          ≡ versions other tables.docs)
    × ((purge_doc (keep_all ∷ []) room ([], tables)).1.tombstones ≡ tables.tombstones)
purge_doc-versions_example = purge_doc-versions (keep_all ∷ []) room [] tables
