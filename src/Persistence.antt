-- ===== src/Persistence.antt =====
-- src/persistence.js over its two tables. The statements of SQL are functions on the rows. The
-- plugins, and the store `W` outside postgres that they work on, are parameters.
pub mod Plugins
pub mod Tombstones
pub mod Versions
pub mod Replacing
pub mod Documents
pub mod Latest
use yhub.Base.{
  ℕ, zero, suc, Bool, true, false, not, ◌&&◌, ◌||◌, Option, none, some, List, [], ◌∷◌, ◌++◌, Text,
  codes, ◌==◌, if◌then◌else◌, text_eq, keep, some_of, map, ltb, or_else,
}
use yhub.Clock.{is_smaller_redis_clock, first_part, parse_int, zero_clock}
use yhub.Message.{Bytes}
use yhub.Room.{Room, room_eq}
use yhub.Assets.{
  AssetId, Asset, ydoc, contentmap, contentids, retrievable, ydoc_id, contentmap_id, contentids_id,
  id_room, id_t, is_reference,
}
use Plugins.{Plugin, plugin_store, plugin_retrieve, plugin_delete}

-- A column of `yhub_ydoc_v1` with its `_is_reference` marker.
pub record Column : Type 0 where
  pub asset : Asset
  pub is_ref : Bool

-- A row of `yhub_ydoc_v1`; `created` is NaN for a `t` that does not begin with digits.
pub record Row : Type 0 where
  pub room : Room
  pub t : Text
  pub created : Option ℕ
  pub gc_doc : Column
  pub nongc_doc : Column
  pub contentmap : Column
  pub contentids : Column

-- A row of `yhub_ydoc_tombstones_v1`.
pub record Tombstone : Type 0 where
  pub room : Room
  pub deleted_at : ℕ
  pub hard : Bool
  pub purged_at : Option ℕ
  pub by : Option Text

pub record Tables : Type 0 where
  pub docs : List Row
  pub tombstones : List Tombstone

-- The content that `store` is given.
pub record Content : Type 0 where
  pub last_clock : Text
  pub gc_doc : Bytes
  pub nongc_doc : Bytes
  pub contentmap : Bytes
  pub contentids : Bytes

-- The flags of `includeContent` that choose columns.
pub record Include : Type 0 where
  pub gc : Bool
  pub nongc : Bool
  pub contentmap : Bool
  pub contentids : Bool

-- What `retrieveAssets` says of a stored asset: null where it was left in the database.
pub record Reference : Type 0 where
  pub asset_id : AssetId
  pub asset : Option Asset

-- The primary key of `yhub_ydoc_v1`.
unfoldable pub same_version : Row → Row → Bool
same_version a b = room_eq b.room a.room && text_eq b.t a.t

unfoldable pub hard_deleted : Room → List Tombstone → Bool
hard_deleted room ds = some_of (λ (d : Tombstone). room_eq d.room room && d.hard) ds

-- INSERT … SELECT … WHERE NOT EXISTS (…) ON CONFLICT DO NOTHING
unfoldable pub insert_row : Row → Tables → Tables
unfolding hard_deleted same_version
insert_row row db =
    if hard_deleted row.room db.tombstones || some_of (same_version row) db.docs
    then db
    else record db { docs = db.docs ++ row ∷ [] }

abbrev pub column_of : Asset → Column
column_of a = record { asset = a; is_ref = is_reference a }

-- A column that is wanted; the ones marked as inline data may be left in the database.
unfoldable pub column_reference : Bool → Bool → AssetId → Column → List Reference
column_reference wanted only id c =
    if wanted
    then record { asset_id = id; asset = if only && not c.is_ref then none else some c.asset } ∷ []
    else []

-- The assets of a row, in the order of `assetColumns`.
unfoldable pub row_references : Include → Bool → Row → List Reference
unfolding column_reference
row_references want only row =
    column_reference want.gc only (ydoc_id row.room row.t true) row.gc_doc
    ++ (column_reference want.nongc only (ydoc_id row.room row.t false) row.nongc_doc
        ++ (column_reference want.contentmap only (contentmap_id row.room row.t) row.contentmap
            ++ column_reference want.contentids only (contentids_id row.room row.t) row.contentids))

unfoldable pub references_of : Include → Bool → List Row → List Reference
unfolding row_references
references_of want only [] = []
references_of want only (row ∷ rows) = row_references want only row ++ references_of want only rows

-- The rows of a room in each table.
abbrev pub versions : Room → List Row → List Row
versions room = keep (λ (row : Row). room_eq row.room room)

unfoldable pub find_tombstone : Room → List Tombstone → Option Tombstone
find_tombstone room [] = none
find_tombstone room (d ∷ ds) = if room_eq d.room room then some d else find_tombstone room ds

-- `sort` by the source's comparison, and `array.last`.
unfoldable pub insert_clock : Text → List Text → List Text
insert_clock a [] = a ∷ []
insert_clock a (b ∷ bs) =
    let rest = insert_clock a bs in if is_smaller_redis_clock a b then a ∷ b ∷ bs else b ∷ rest

unfoldable pub sort_clocks : List Text → List Text
unfolding insert_clock
sort_clocks [] = []
sort_clocks (c ∷ cs) = insert_clock c (sort_clocks cs)

unfoldable pub last_or : Text → List Text → Text
last_or d [] = d
last_or d (c ∷ cs) = last_or c cs

unfoldable pub last_clock_of : List Row → Text
unfolding sort_clocks last_or
last_clock_of rows = last_or zero_clock (sort_clocks (map (λ (row : Row). row.t) rows))

pub record Retrieved : Type 0 where
  pub last_clock : Text
  pub tombstone : Option Tombstone
  pub assets : List Reference

-- `retrieveAssets`: a tombstone without versions is the one row of the outer join without a `t`.
unfoldable pub retrieve_assets : Room → Include → Bool → Tables → Retrieved
unfolding references_of find_tombstone last_clock_of
retrieve_assets room want only db = record {
  last_clock = last_clock_of (versions room db.docs);
  tombstone = find_tombstone room db.tombstones;
  assets = references_of want only (versions room db.docs);
}

-- Whether a reference names a row.
unfoldable pub names_row : Row → Reference → Bool
names_row row ref = room_eq (id_room ref.asset_id) row.room && text_eq (id_t ref.asset_id) row.t

-- DELETE … WHERE org = … AND docid = … AND branch = … AND t = ANY(…), for each room that is named.
unfoldable pub delete_rows : List Reference → Tables → Tables
unfolding names_row
delete_rows refs db = record db {
  docs = keep (λ (row : Row). not (some_of (names_row row) refs)) db.docs;
}

unfoldable pub retrieve_tombstone : Room → Tables → Option Tombstone
unfolding find_tombstone
retrieve_tombstone room db = find_tombstone room db.tombstones

-- The filters of `retrieveTombstones`; one that is not given selects everything.
unfoldable pub by_purged : Option Bool → Option ℕ → Bool
by_purged none at = true
by_purged (some true) (some n) = true
by_purged (some true) none = false
by_purged (some false) (some n) = false
by_purged (some false) none = true

unfoldable pub by_time : Option ℕ → ℕ → Bool
by_time none at = true
by_time (some limit) at = ltb at limit

unfoldable pub retrieve_tombstones : Text → Option Bool → Option ℕ → Tables → List Tombstone
unfolding by_purged by_time
retrieve_tombstones org purged before db =
    keep
      (λ (d : Tombstone).
        text_eq d.room.org org && by_purged purged d.purged_at && by_time before d.deleted_at)
      db.tombstones

-- INSERT … ON CONFLICT DO UPDATE SET hard = hard OR …
unfoldable pub upsert_tombstone : Tombstone → List Tombstone → List Tombstone
upsert_tombstone new [] = new ∷ []
upsert_tombstone new (d ∷ ds) =
    if room_eq d.room new.room
    then record d { hard = d.hard || new.hard } ∷ ds
    else d ∷ upsert_tombstone new ds

unfoldable pub store_tombstone : Room → ℕ → Bool → Option Text → Tables → Tables
unfolding upsert_tombstone
store_tombstone room deleted_at hard by db = record db {
  tombstones =
      upsert_tombstone
        (record { room = room; deleted_at = deleted_at; hard = hard; purged_at = none; by = by })
        db.tombstones;
}

unfoldable pub mark_purged : Room → ℕ → List Tombstone → List Tombstone
mark_purged room at [] = []
mark_purged room at (d ∷ ds) =
    (if room_eq d.room room then record d { purged_at = some at } else d) ∷ mark_purged room at ds

unfoldable pub store_tombstone_purged : Room → ℕ → Tables → Tables
unfolding mark_purged
store_tombstone_purged room at db = record db { tombstones = mark_purged room at db.tombstones }

unfoldable pub delete_tombstone : Room → Tables → Tables
delete_tombstone room db = record db {
  tombstones = keep (λ (d : Tombstone). not (room_eq d.room room)) db.tombstones;
}

module _ {W : Type 0} (plugins : List (Plugin W)) where
  -- The four assets go through the plugins, and their columns into one row.
  unfoldable pub stored : Room → Content → W → Row × W
  unfolding is_reference
  stored room c w =
      let (gc, w1) = plugin_store plugins (ydoc_id room c.last_clock true) (ydoc c.gc_doc) w in
      let (nongc, w2) =
        plugin_store plugins (ydoc_id room c.last_clock false) (ydoc c.nongc_doc) w1 in
      let (map_, w3) =
        plugin_store plugins (contentmap_id room c.last_clock) (contentmap c.contentmap) w2 in
      let (ids, w4) =
        plugin_store plugins (contentids_id room c.last_clock) (contentids c.contentids) w3 in
      (
        record {
          room = room;
          t = c.last_clock;
          created = parse_int (first_part c.last_clock);
          gc_doc = column_of gc;
          nongc_doc = column_of nongc;
          contentmap = column_of map_;
          contentids = column_of ids;
        },
        w4,
      )

  unfoldable pub store : Room → Content → W × Tables → W × Tables
  unfolding stored insert_row
  store room c (w, db) = let (row, w') = stored room c w in (w', insert_row row db)

  unfoldable pub delete_assets : List Reference → W → W
  delete_assets [] w = w
  delete_assets (ref ∷ refs) w = delete_assets refs (plugin_delete plugins ref.asset_id ref.asset w)

  -- `deleteReferences`
  unfoldable pub delete_references : List Reference → W × Tables → W × Tables
  unfolding delete_assets delete_rows
  delete_references refs (w, db) = (delete_assets refs w, delete_rows refs db)

  -- `purgeDoc` of the class: every version of a room.
  unfoldable pub purge_doc : Room → W × Tables → W × Tables
  unfolding delete_references retrieve_assets
  purge_doc room (w, db) =
      delete_references
        (retrieve_assets room
          (record { gc = true; nongc = true; contentmap = true; contentids = true }) true db).assets
        (w, db)
