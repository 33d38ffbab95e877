-- ===== src/Yjs.antt =====
-- What src/index.js and src/persistence.js use of `@y/y`, and what src/index.js uses of the compute
-- pool: sets and maps of content ids, their encodings, and the merging of updates.
use yhub.Base.{Bool, Option, List}
use yhub.Message.{Bytes}

pub record Yjs : Type 1 where
  pub IdSet : Type 0
  pub IdMap : Type 0
  -- Content ids and content maps are pairs of the inserted and the deleted content.
  pub decode_content_ids : Bytes → IdSet × IdSet
  pub encode_content_ids : IdSet × IdSet → Bytes
  pub decode_content_map : Bytes → IdMap × IdMap
  pub encode_content_map : IdMap × IdMap → Bytes
  pub merge_content_ids : List (IdSet × IdSet) → IdSet × IdSet
  pub merge_content_maps : List (IdMap × IdMap) → IdMap × IdMap
  pub exclude_content_map : IdMap × IdMap → IdSet × IdSet → IdMap × IdMap
  pub content_ids_from_content_map : IdMap × IdMap → IdSet × IdSet
  -- `insertIntoIdSet`: the destination behind it.
  pub insert_into_id_set : IdSet → IdSet → IdSet
  pub decode_id_set : Bytes → IdSet
  pub encode_id_set : IdSet → Bytes
  pub merge_id_sets : List IdSet → IdSet
  pub diff_id_set : IdSet → IdSet → IdSet
  pub diff_id_map : IdMap → IdSet → IdMap
  pub merge_awareness_updates : List Bytes → Bytes
  -- `computePool.mergeUpdates`, which may be rejected.
  pub merge_updates : Bool → List Bytes → Option Bytes → Option Bytes
