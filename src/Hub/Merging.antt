-- ===== src/Hub/Merging.antt =====
-- src/index.js: `getDoc`.
use yhub.Base.{
  Bool, true, false, Option, none, some, List, [], ◌∷◌, ◌++◌, Text, if◌then◌else◌, map, ◌>>=◌,
}
use yhub.Clock.{is_smaller_redis_clock, max_redis_clock}
use yhub.Message.{Bytes, Message, ydoc_update, awareness, prune, auth_check}
use yhub.Room.{Room}
use yhub.Persistence.{Tables, Tombstone, Include, Reference}
use yhub.Persistence.Plugins.{Plugin}
use yhub.Persistence.Documents.{PersistedDoc, retrieve_doc, when}
use yhub.Stream.Messages.{Stamped, Reading}
use yhub.Yjs.{Yjs}

-- `DocTable` of src/types.js.
pub record DocTable : Type 0 where
  pub gc_doc : Option Bytes
  pub nongc_doc : Option Bytes
  pub contentmap : Option Bytes
  pub contentids : Option Bytes
  pub last_clock : Text
  pub last_persisted_clock : Text
  pub tombstone : Option Tombstone
  pub references : Option (List Reference)
  pub awareness : Option Bytes
  pub auth_checks : List Message

-- The flags of `includeContent` and `gcOnMerge`.
pub record Request : Type 0 where
  pub want : Include
  pub references : Bool
  pub awareness : Bool
  pub gc_on_merge : Bool

-- The messages of a kind.
unfoldable pub awareness_updates : List Stamped → List Bytes
awareness_updates [] = []
awareness_updates (m ∷ ms) =
    let rest = awareness_updates ms in elim m.message [ awareness u ↦ u ∷ rest | _ ↦ rest ]

unfoldable pub prune_updates : List Stamped → List Bytes
prune_updates [] = []
prune_updates (m ∷ ms) =
    let rest = prune_updates ms in elim m.message [ prune u ↦ u ∷ rest | _ ↦ rest ]

unfoldable pub auth_checks_of : List Stamped → List Message
auth_checks_of [] = []
auth_checks_of (m ∷ ms) =
    let rest = auth_checks_of ms in
    elim m.message [ auth_check users force ↦ auth_check users force ∷ rest | _ ↦ rest ]

-- `xs?.push(x)`
abbrev pub pushed {ℓ} : {A : Type ℓ} → Option (List A) → A → Option (List A)
pushed none x = none
pushed (some xs) x = some (xs ++ x ∷ [])

module _ (y : Yjs) where
  -- The lists that `getDoc` adds the messages to.
  pub record Gathered : Type 0 where
    pub gc_doc : Option (List Bytes)
    pub nongc_doc : Option (List Bytes)
    pub contentmap : Option (List (y.IdMap × y.IdMap))
    pub contentids : List (y.IdSet × y.IdSet)
    pub merged : y.IdSet × y.IdSet

  -- An update: what is known of it already is not attributed again.
  unfoldable pub add_update : Bytes → Bytes → Gathered → Gathered
  add_update update bytes g =
      let mapped = y.exclude_content_map (y.decode_content_map bytes) g.merged in
      let ids = y.content_ids_from_content_map mapped in
      record {
        gc_doc = pushed g.gc_doc update;
        nongc_doc = pushed g.nongc_doc update;
        contentmap = pushed g.contentmap mapped;
        contentids = g.contentids ++ ids ∷ [];
        merged = (y.insert_into_id_set g.merged.0 ids.0, y.insert_into_id_set g.merged.1 ids.1);
      }

  -- Only update messages that are newer than the persisted clock are added.
  unfoldable pub add_stamped : Text → Stamped → Gathered → Gathered
  unfolding add_update
  add_stamped persisted m g = elim m.message [
    | ydoc_update update bytes ↦
        if is_smaller_redis_clock persisted m.redis_clock then add_update update bytes g else g
    | _ ↦ g
  ]

  unfoldable pub gather : Text → List Stamped → Gathered → Gathered
  unfolding add_stamped
  gather persisted [] g = g
  gather persisted (m ∷ ms) g = gather persisted ms (add_stamped persisted m g)

  unfoldable pub start : PersistedDoc → List (y.IdSet × y.IdSet) → Gathered
  start doc ids = record {
    gc_doc = doc.gc_doc;
    nongc_doc = doc.nongc_doc;
    contentmap = elim doc.contentmap [ none ↦ none | some ms ↦ some (map y.decode_content_map ms) ];
    contentids = ids;
    merged = y.merge_content_ids ids;
  }

  abbrev pub prune_set : List Bytes → Option y.IdSet
  prune_set [] = none
  prune_set (b ∷ bs) = some (y.merge_id_sets (map y.decode_id_set (b ∷ bs)))

  unfoldable pub pruned_map : Option y.IdSet → y.IdMap × y.IdMap → y.IdMap × y.IdMap
  pruned_map none c = c
  pruned_map (some set) c = (y.diff_id_map c.0 set, y.diff_id_map c.1 set)

  unfoldable pub pruned_ids : Option y.IdSet → y.IdSet × y.IdSet → y.IdSet × y.IdSet
  pruned_ids none c = c
  pruned_ids (some set) c = (y.diff_id_set c.0 set, y.diff_id_set c.1 set)

  -- A document that was asked for is merged; `none` where the compute pool rejects.
  unfoldable pub merged_doc : Bool → Option (List Bytes) → Option Bytes → Option (Option Bytes)
  merged_doc gc none set = some none
  merged_doc gc (some updates) set = do merged ← y.merge_updates gc updates set; some (some merged)

  unfoldable pub gathered : PersistedDoc → Reading → List Bytes → Gathered
  unfolding gather start
  gathered doc read ids =
      gather doc.last_clock read.messages (start doc (map y.decode_content_ids ids))

  abbrev pub encoded_set : Option y.IdSet → Option Bytes
  encoded_set none = none
  encoded_set (some set) = some (y.encode_id_set set)

  -- What `getDoc` returns, with both documents merged.
  unfoldable pub doc_table :
      Request → PersistedDoc → Reading → Gathered → Option Bytes → Option Bytes → DocTable
  unfolding awareness_updates prune_updates auth_checks_of pruned_map pruned_ids
  doc_table req doc read g gc nongc = record {
    gc_doc = gc;
    nongc_doc = nongc;
    contentmap = elim g.contentmap [
      | none ↦ none
      | some maps ↦ some (
          y.encode_content_map
            (pruned_map (prune_set (prune_updates read.messages)) (y.merge_content_maps maps)))
    ];
    contentids = when req.want.contentids (
        y.encode_content_ids (
          pruned_ids (prune_set (prune_updates read.messages)) (y.merge_content_ids g.contentids)));
    last_clock = max_redis_clock doc.last_clock read.last_clock;
    last_persisted_clock = doc.last_clock;
    tombstone = doc.tombstone;
    references = doc.references;
    awareness = when req.awareness (y.merge_awareness_updates (awareness_updates read.messages));
    auth_checks = auth_checks_of read.messages;
  }

  -- The nongc document is merged without collecting, and with the directives to prune.
  unfoldable pub merge_gathered : Request → PersistedDoc → Reading → Gathered → Option DocTable
  unfolding merged_doc doc_table prune_updates
  merge_gathered req doc read g = do
    gc ← merged_doc req.gc_on_merge g.gc_doc none
    nongc ← merged_doc false g.nongc_doc (encoded_set (prune_set (prune_updates read.messages)))
    some (doc_table req doc read g gc nongc)

  -- `getDoc` on what was retrieved of the persistence, with the content ids in any case, and on
  -- what was read of the stream.
  unfoldable pub merge_doc : Request → PersistedDoc → Reading → Option DocTable
  unfolding gathered merge_gathered
  merge_doc req doc read = do
    ids ← doc.contentids
    merge_gathered req doc read (gathered doc read ids)

  module _ {W : Type 0} (plugins : List (Plugin W)) where
    unfoldable pub get_doc : Room → Request → Reading → W → Tables → Option DocTable
    unfolding merge_doc retrieve_doc
    get_doc room req read w db =
        merge_doc req
          (retrieve_doc plugins room (record req.want { contentids = true }) req.references w db)
          read
