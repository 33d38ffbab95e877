-- ===== src/Hub.antt =====
-- src/index.js: the tasks of the worker and the deletion of documents, over the stream and the
-- persistence. Time, the keys that SCAN finds and what other processes do between two requests are
-- parameters.
pub mod Merging
pub mod Progress
pub mod Tasks
pub mod Deletion
use yhub.Base.{
  ℕ, Bool, true, false, not, ◌&&◌, ◌||◌, Option, none, some, is_some, List, [], ◌∷◌, ◌++◌, Text,
  if◌then◌else◌, ◌>>=◌,
}
use yhub.Clock.{is_smaller_redis_clock, max_redis_clock, inline_clock}
use yhub.Message.{Bytes, Message, ydoc_update, awareness, prune, auth_check, tombstone, AnyCodec}
use yhub.Room.{Room}
use yhub.Naming.{encode_room_name, encode_quarantine_name, cache_prefix}
use yhub.Redis.{Redis}
use yhub.Stream.{worker_stream_name, add_message, trim_messages, clear_messages}
use yhub.Stream.Messages.{Stamped, Reading, get_messages}
use yhub.Persistence.{
  Tables, Tombstone, Include, Reference, Content, store, delete_references, purge_doc,
  retrieve_tombstone, store_tombstone, store_tombstone_purged, delete_tombstone,
}
use yhub.Persistence.Plugins.{Plugin}
use yhub.Persistence.Documents.{PersistedDoc, retrieve_doc}
use yhub.Yjs.{Yjs}
use Merging.{DocTable, Request, get_doc}

-- Whether there is a hard deletion.
unfoldable pub is_hard : Option Tombstone → Bool
is_hard none = false
is_hard (some d) = d.hard

abbrev pub no_columns : Include
no_columns = record { gc = false; nongc = false; contentmap = false; contentids = false }

-- What a compaction asks for.
abbrev pub everything : Request
everything = record {
  want = record { gc = true; nongc = true; contentmap = true; contentids = true };
  references = true;
  awareness = false;
  gc_on_merge = true;
}

-- What `pruneDoc` asks for.
abbrev pub map_only : Request
map_only = record {
  want = record no_columns { contentmap = true };
  references = false;
  awareness = false;
  gc_on_merge = true;
}

-- Only updates and prune directives change the document.
unfoldable pub changes_doc : Message → Bool
changes_doc (ydoc_update update contentmap) = true
changes_doc (prune set) = true
changes_doc _ = false

unfoldable pub last_update_clock : Text → List Stamped → Text
unfolding changes_doc
last_update_clock clock [] = clock
last_update_clock clock (m ∷ ms) =
    last_update_clock (if changes_doc m.message then max_redis_clock clock m.redis_clock else clock)
      ms

-- What `store` takes of a document; it fails on one without all four contents.
unfoldable pub content_of : DocTable → Option Content
content_of d = do
  gc ← d.gc_doc
  nongc ← d.nongc_doc
  cm ← d.contentmap
  ids ← d.contentids
  some (record {
    last_clock = d.last_clock;
    gc_doc = gc;
    nongc_doc = nongc;
    contentmap = cm;
    contentids = ids;
  })

-- No references are no rows to delete.
abbrev pub references_or_none : Option (List Reference) → List Reference
references_or_none none = []
references_or_none (some refs) = refs

module _ {W : Type 0} (prefix : Text) (r : Redis (worker_stream_name prefix)) (codec : AnyCodec)
    (y : Yjs) (plugins : List (Plugin W)) (min_message_lifetime : ℕ) where
  open r use {Db, view, del}

  -- The server of redis, the store of the plugins, and the tables.
  abbrev pub World : Type 0
  World = Db × (W × Tables)

  abbrev pub read_stream : Text → Db → Reading
  read_stream key db = get_messages codec ((view db).stream key)

  -- `trimMessages` under the name of a stream: whether it completes, and the state.
  unfoldable pub trim_world : Text → Text → ℕ → Text → World → Bool × World
  unfolding trim_messages
  trim_world key minid max_age task (db, rest) =
      let (done, db') = trim_messages prefix r key minid max_age task db in (done, (db', rest))

  -- The end of a compaction: the new version is stored, the ones that it was made of are deleted,
  -- and the stream is trimmed, where there is something new.
  unfoldable pub replace_versions : Room → Text → Text → DocTable → World → Bool × World
  unfolding trim_world content_of store delete_references
  replace_versions room key task d (db, files) = elim (content_of d) [
    | none ↦ (false, (db, files))
    | some c ↦ trim_world key d.last_clock min_message_lifetime task (
      db,
      delete_references plugins (references_or_none d.references) (store plugins room c files),
    )
  ]

  unfoldable pub finish : Room → Text → Text → DocTable → World → Bool × World
  unfolding replace_versions
  finish room key task d s =
      if not (is_smaller_redis_clock d.last_persisted_clock d.last_clock)
      then trim_world key d.last_clock min_message_lifetime task s
      else replace_versions room key task d s

  -- The part of `_runTask` for new content. The merge works on what was read of the stream before,
  -- and on the versions in the state that it begins with; `merging` is what others do during it.
  unfoldable pub compact_doc : Room → Text → Text → Reading → (World → World) → World → Bool × World
  unfolding finish get_doc
  compact_doc room key task read merging (db, (w, tables)) =
      elim (get_doc y plugins room everything read w tables) [
        | none ↦ (false, (db, (w, tables)))
        | some d ↦ finish room key task d (merging (db, (w, tables)))
      ]

  -- The look at the room before a merge: there is nothing to persist.
  unfoldable pub trims_only : Room → Text → World → Bool
  unfolding is_hard last_update_clock retrieve_doc
  trims_only room key (db, (w, tables)) =
      let persisted = retrieve_doc plugins room no_columns false w tables in
      is_hard persisted.tombstone
      || not (
          is_smaller_redis_clock persisted.last_clock
            (last_update_clock persisted.last_clock (read_stream key db).messages))

  -- `_runTask`: whether it completes, and the state. `waiting` is what others do between its
  -- first look at the room and the merge.
  unfoldable pub run_named :
      Room → Text → Text → (World → World) → (World → World) → World → Bool × World
  unfolding compact_doc trims_only
  run_named room key task waiting merging (db, (w, tables)) =
      let read = read_stream key db in
      let persisted = retrieve_doc plugins room no_columns false w tables in
      if trims_only room key (db, (w, tables))
      then trim_world key (max_redis_clock persisted.last_clock read.last_clock)
          (if is_hard persisted.tombstone then 0 else min_message_lifetime) task (db, (w, tables))
      else compact_doc room key task read merging (waiting (db, (w, tables)))

  unfoldable pub run_task : Room → Text → (World → World) → (World → World) → World → Bool × World
  unfolding run_named
  run_task room task waiting merging s = elim (encode_room_name room prefix) [
    | none ↦ (false, s)
    | some key ↦ run_named room key task waiting merging s
  ]

  -- `restoreDoc`: an erased document is not restored.
  unfoldable pub restore_doc : Room → World → Bool × World
  unfolding retrieve_tombstone delete_tombstone
  restore_doc room (db, (w, tables)) = elim (retrieve_tombstone room tables) [
    | none ↦ (true, (db, (w, tables)))
    | some d ↦
        if d.hard || is_some d.purged_at
        then (false, (db, (w, tables)))
        else (true, (db, (w, delete_tombstone room tables)))
  ]

  -- `unsafePersistDoc` at a time in milliseconds, with the content ids and the content map that are
  -- made of the update.
  unfoldable pub unsafe_persist_doc : Room → ℕ → Bytes → Bytes → Bytes → World → World
  unfolding store inline_clock
  unsafe_persist_doc room ms update ids cm (db, files) = (
    db,
    store plugins room
        (record {
          last_clock = inline_clock ms;
          gc_doc = update;
          nongc_doc = update;
          contentmap = cm;
          contentids = ids;
        })
        files,
  )

  -- DEL of each key that was found.
  unfoldable pub delete_keys : List Text → Db → Db
  delete_keys [] db = db
  delete_keys (k ∷ ks) db = delete_keys ks (del k db)

  -- What follows the record of a deletion in `deleteDoc`: `found` are the cache keys and `backlog`
  -- the quarantined streams of the room that SCAN finds.
  unfoldable pub spread_deletion : Room → Text → Bool → List Text → Db → Db
  unfolding add_message clear_messages delete_keys
  spread_deletion room key hard found db = delete_keys found (
      add_message prefix r key (codec.encode_any tombstone)
        (if hard then clear_messages prefix r key db else db))

  -- `purgeDoc` of the module.
  unfoldable pub purge_world : Room → ℕ → List Text → World → World
  unfolding purge_doc delete_keys store_tombstone_purged
  purge_world room now backlog (db, files) =
      let (w, tables) = purge_doc plugins room files in
      (delete_keys backlog db, (w, store_tombstone_purged room now tables))

  -- `deleteDoc` from the record of the deletion on.
  unfoldable pub after_record :
      Room → Text → Option Tombstone → ℕ → List Text → List Text → World → Option Tombstone × World
  unfolding is_hard spread_deletion purge_world retrieve_tombstone
  after_record room key entry now found backlog (db, files) =
      let db' = spread_deletion room key (is_hard entry) found db in
      if is_hard entry
      then (let s = purge_world room now backlog (db', files) in (retrieve_tombstone room s.1.1, s))
      else (entry, (db', files))

  -- `deleteDoc`: what is returned, and the state, by the times of the record and of the purge. The hub throws behind the record of the deletion
  -- where the room has no stream name.
  unfoldable pub delete_doc :
      Room
      → Bool
      → Option Text
      → ℕ
      → ℕ
      → List Text
      → List Text
      → World
      → Option (Option Tombstone) × World
  unfolding store_tombstone after_record retrieve_tombstone
  delete_doc room hard by now purged found backlog (db, (w, tables)) =
      let recorded = store_tombstone room now hard by tables in
      elim (encode_room_name room prefix) [
        | none ↦ (none, (db, (w, recorded)))
        | some key ↦
            let (entry, s) =
              after_record room key (retrieve_tombstone room recorded) purged found backlog
                (db, (w, recorded)) in
            (some entry, s)
      ]

  unfoldable pub distribute : Text → Option Bytes → Db → Db
  unfolding add_message
  distribute key none db = db
  distribute key (some set) db = add_message prefix r key (codec.encode_any (prune set)) db

  -- `pruneDoc`: the filters are in the function that computes the set to prune; it throws on a
  -- deleted document.
  unfoldable pub prune_doc : Room → (Bytes → Option Bytes) → World → Bool × World
  unfolding get_doc distribute
  prune_doc room compute_prune_set (db, (w, tables)) = elim (encode_room_name room prefix) [
    | none ↦ (false, (db, (w, tables)))
    | some key ↦ elim (get_doc y plugins room map_only (read_stream key db) w tables) [
      | none ↦ (false, (db, (w, tables)))
      | some d ↦
          if is_some d.tombstone
          then (false, (db, (w, tables)))
          else (true, (distribute key (d.contentmap >>= compute_prune_set) db, (w, tables)))
    ]
  ]
