-- ===== src/Persistence/Documents.antt =====
-- src/persistence.js: `retrieveDoc`.
use yhub.Base.{Bool, false, Option, none, some, List, [], ◌∷◌, Text, if◌then◌else◌}
use yhub.Message.{Bytes}
use yhub.Room.{Room}
use yhub.Assets.{
  AssetId, Asset, ydoc, contentmap, contentids, retrievable, ydoc_id, contentmap_id, contentids_id,
}
use yhub.Persistence.{Tables, Tombstone, Include, Reference, retrieve_assets}
use yhub.Persistence.Plugins.{Plugin, plugin_retrieve}

-- The four lists that are filled.
pub record Contents : Type 0 where
  pub gc_updates : List Bytes
  pub nongc_updates : List Bytes
  pub contentmaps : List Bytes
  pub contentidss : List Bytes

pub record PersistedDoc : Type 0 where
  pub last_clock : Text
  pub tombstone : Option Tombstone
  pub gc_doc : Option (List Bytes)
  pub nongc_doc : Option (List Bytes)
  pub contentmap : Option (List Bytes)
  pub contentids : Option (List Bytes)
  pub references : Option (List Reference)

unfoldable pub is_gc : AssetId → Bool
is_gc (ydoc_id room t gc) = gc
is_gc (contentmap_id room t) = false
is_gc (contentids_id room t) = false

unfoldable pub add_content : AssetId → Asset → Contents → Contents
unfolding is_gc
add_content id (ydoc update) c =
    if is_gc id
    then record c { gc_updates = update ∷ c.gc_updates }
    else record c { nongc_updates = update ∷ c.nongc_updates }
add_content id (contentmap bytes) c = record c { contentmaps = bytes ∷ c.contentmaps }
add_content id (contentids bytes) c = record c { contentidss = bytes ∷ c.contentidss }
add_content id (retrievable plugin) c = c

abbrev pub when {ℓ} : {A : Type ℓ} → Bool → A → Option A
when b a = if b then some a else none

module _ {W : Type 0} (plugins : List (Plugin W)) where
  -- An asset that no plugin has is passed over.
  unfoldable pub resolve : Reference → W → Option Asset
  resolve ref w = elim ref.asset [
    | none ↦ none
    | some asset ↦ plugin_retrieve plugins ref.asset_id asset w
  ]

  unfoldable pub collect : List Reference → W → Contents
  unfolding add_content resolve
  collect [] w = record { gc_updates = []; nongc_updates = []; contentmaps = []; contentidss = [] }
  collect (ref ∷ refs) w =
      let rest = collect refs w in
      elim (resolve ref w) [ none ↦ rest | some asset ↦ add_content ref.asset_id asset rest ]

  unfoldable pub retrieve_doc : Room → Include → Bool → W → Tables → PersistedDoc
  unfolding retrieve_assets collect
  retrieve_doc room want references w db =
      let found = retrieve_assets room want false db in
      let c = collect found.assets w in
      record {
        last_clock = found.last_clock;
        tombstone = found.tombstone;
        gc_doc = when want.gc c.gc_updates;
        nongc_doc = when want.nongc c.nongc_updates;
        contentmap = when want.contentmap c.contentmaps;
        contentids = when want.contentids c.contentidss;
        references = when references found.assets;
      }
