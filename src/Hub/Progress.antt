-- ===== src/Hub/Progress.antt =====
-- src/index.js: what a compaction leaves of the versions of its room.
use yhub.Base.{
  ℕ, true, false, none, some, List, [], ◌∷◌, Text, ◌≡◌, refl, arith, Bool-cases, Option-cases, ◌⊎◌,
  inl, inr, some_of, text_eq, text_eq_iff, sym, subst,
}
use yhub.Clock.{is_smaller_redis_clock, max_redis_clock}
use yhub.Clock.Order.{IsClock, NotBefore-trans, max-IsClock}
use yhub.Message.{AnyCodec}
use yhub.Room.{Room}
use yhub.Redis.{Redis}
use yhub.Stream.{worker_stream_name}
use yhub.Stream.Messages.{Reading}
use yhub.Persistence.{
  Row, Tables, Content, store, stored, delete_references, retrieve_assets, versions, same_version,
  hard_deleted, last_clock_of,
}
use yhub.Persistence.Plugins.{Plugin}
use yhub.Persistence.Documents.{PersistedDoc, retrieve_doc}
use yhub.Persistence.Latest.{
  AllClocks, clocks, listed_clock, last_clock_of-greatest, last_clock_of-IsClock,
}
use yhub.Persistence.Replacing.{versions-replace}
use yhub.Yjs.{Yjs}
use yhub.Hub.{content_of, everything, compact_doc, finish, replace_versions, trim_world}
use yhub.Hub.Merging.{
  DocTable, Request, merge_doc, merge_gathered, doc_table, gathered, prune_set, prune_updates,
  encoded_set, get_doc, merged_doc, Gathered,
}

-- The versions of the room are the same, or there is one that is newer than every one before.
abbrev pub Progress : Room → Tables → Tables → Type 0
Progress room before after =
    (versions room after.docs ≡ versions room before.docs)
    ⊎ ((row : Row) × (versions room after.docs ≡ row ∷ [])
        × ((old : Row)
            → listed_clock old.t (clocks (versions room before.docs)) ≡ true
            → is_smaller_redis_clock old.t row.t ≡ true))

same_version-listed :
    (row : Row) (rows : List Row)
    → some_of (same_version row) rows ≡ listed_clock row.t (clocks (versions row.room rows))
unfolding same_version
same_version-listed row [] = refl
same_version-listed row (other ∷ rows) =
    ground
      (arith, same_version-listed row rows, text_eq_iff other.t row.t, text_eq_iff row.t other.t)

content_of-last_clock :
    (d : DocTable) (c : Content) → content_of d ≡ some c → c.last_clock ≡ d.last_clock
unfolding content_of
content_of-last_clock d c h = elim (Option-cases d.gc_doc) [
  | inl n ↦ ground arith
  | inr (a, e) ↦ elim (Option-cases d.nongc_doc) [
    | inl n ↦ ground arith
    | inr (a', e') ↦ elim (Option-cases d.contentmap) [
      | inl n ↦ ground arith
      | inr (a'', e'') ↦ ground arith
    ]
  ]
]

module _ (y : Yjs) where
  -- What a merge takes over of the persistence and the stream.
  merge_gathered-fields :
      (req : Request) (doc : PersistedDoc) (read : Reading) (g : Gathered y) (d : DocTable)
      → merge_gathered y req doc read g ≡ some d
      → (d.last_persisted_clock ≡ doc.last_clock)
        × (d.last_clock ≡ max_redis_clock doc.last_clock read.last_clock)
        × (d.references ≡ doc.references)
  unfolding merge_gathered doc_table
  merge_gathered-fields req doc read g d h =
      elim (Option-cases (merged_doc y req.gc_on_merge g.gc_doc none)) [
        | inl n ↦ ground arith
        | inr (gc, e) ↦
            elim (Option-cases (
              merged_doc y false g.nongc_doc
                (encoded_set y (prune_set y (prune_updates read.messages))))) [
                  | inl n ↦ ground arith
                  | inr (nongc, e') ↦ ground arith
                ]
      ]

  merge_doc-fields :
      (req : Request) (doc : PersistedDoc) (read : Reading) (d : DocTable)
      → merge_doc y req doc read ≡ some d
      → (d.last_persisted_clock ≡ doc.last_clock)
        × (d.last_clock ≡ max_redis_clock doc.last_clock read.last_clock)
        × (d.references ≡ doc.references)
  unfolding merge_doc
  merge_doc-fields req doc read d h = elim (Option-cases doc.contentids) [
    | inl n ↦ ground arith
    | inr (ids, e) ↦ merge_gathered-fields req doc read (gathered y doc read ids) d (ground arith)
  ]

-- A clock that comes after the last one comes after every clock of the versions.
newer_than_all :
    (rows : List Row) (new : Text)
    → AllClocks (clocks rows)
    → IsClock new
    → is_smaller_redis_clock (last_clock_of rows) new ≡ true
    → (old : Row) → IsClock old.t
    → listed_clock old.t (clocks rows) ≡ true
    → is_smaller_redis_clock old.t new ≡ true
newer_than_all rows new h hn newer old ho listed =
    elim (Bool-cases (is_smaller_redis_clock old.t new)) [
      | inl e ↦ e
      | inr e ↦ ground (
        arith,
        NotBefore-trans new old.t (last_clock_of rows) hn ho (last_clock_of-IsClock rows h) e
            (last_clock_of-greatest rows old h listed),
      )
    ]

AllClocks-listed : (c : Text) (cs : List Text) → AllClocks cs → listed_clock c cs ≡ true → IsClock c
AllClocks-listed c [] h e = cc
AllClocks-listed c (d ∷ cs) (h, hs) e = elim (Bool-cases (text_eq c d)) [
  | inl k ↦ rw ((text_eq_iff c d).0 k) h
  | inr k ↦ AllClocks-listed c cs hs (ground arith)
]

-- A new clock is not the clock of a version.
fresh :
    (row : Row) (rows : List Row)
    → AllClocks (clocks (versions row.room rows))
    → is_smaller_redis_clock (last_clock_of (versions row.room rows)) row.t ≡ true
    → some_of (same_version row) rows ≡ false
fresh row rows h newer =
    ground
      (arith, same_version-listed row rows, last_clock_of-greatest (versions row.room rows) row h)

module _ {W : Type 0} (prefix : Text) (r : Redis (worker_stream_name prefix)) (codec : AnyCodec)
    (y : Yjs) (plugins : List (Plugin W)) (min_message_lifetime : ℕ) where
  open r use {Db}

  abbrev State : Type 0
  State = Db × (W × Tables)

  replaced :
      (room : Room) (c : Content) (files : W × Tables)
      → AllClocks (clocks (versions room files.1.docs))
      → IsClock c.last_clock
      → hard_deleted room files.1.tombstones ≡ false
      → is_smaller_redis_clock (last_clock_of (versions room files.1.docs)) c.last_clock ≡ true
      → Progress room files.1
          (delete_references plugins
            (retrieve_assets room everything.want false files.1).assets
            (store plugins room c files)).1
  unfolding delete_references store stored
  replaced room c (w, db) h hc alive newer =
      let row : Row = (stored plugins room c w).0 in
      inr (
        row,
        versions-replace row everything.want false db refl alive (fresh row db.docs h newer),
        λ old listed.
            newer_than_all (versions room db.docs) c.last_clock h hc newer old
              (AllClocks-listed old.t (clocks (versions room db.docs)) h listed) listed,
      )

  -- A compaction that merges into a document `d` of the versions in the tables.
  finish-Progress :
      (room : Room) (key task : Text) (d : DocTable) (s : State)
      → AllClocks (clocks (versions room s.1.1.docs))
      → hard_deleted room s.1.1.tombstones ≡ false
      → d.last_persisted_clock ≡ last_clock_of (versions room s.1.1.docs)
      → IsClock d.last_clock
      → d.references ≡ some (retrieve_assets room everything.want false s.1.1).assets
      → Progress room s.1.1
          (finish prefix r codec y plugins min_message_lifetime room key task d s).1.1.1
  unfolding finish replace_versions trim_world
  finish-Progress room key task d (db, files) h alive persisted hc refs =
      elim (Bool-cases (is_smaller_redis_clock d.last_persisted_clock d.last_clock)) [
        | inr e ↦ rw e (inl refl)
        | inl e ↦ elim (Option-cases (content_of d)) [
          | inl n ↦ rw (e, n, replace_versions) (inl refl)
          | inr (c, k) ↦
              let same : c.last_clock ≡ d.last_clock = content_of-last_clock d c k in
              rw (e, k, refs, replace_versions)
                (replaced room c files h (subst IsClock (sym same) hc) alive
                  (ground (arith, same, persisted, e)))
        ]
      ]

  -- Where every version of a room has a clock of two numbers, and so has what was read of its
  -- stream, where the room is not hard-deleted and where no other process changes the tables during
  -- the merge: after the part of `_runTask` for new content, whether it completes or throws, the
  -- versions of the room are as before, or there is only one, and its clock is greater than each
  -- clock before.
  pub compact_doc-Progress :
      (room : Room) (key task : Text) (read : Reading) (merging : State → State) (s : State)
      → ((s' : State) → (merging s').1.1 ≡ s'.1.1)
      → AllClocks (clocks (versions room s.1.1.docs))
      → hard_deleted room s.1.1.tombstones ≡ false
      → IsClock read.last_clock
      → Progress room s.1.1
          (compact_doc prefix r codec y plugins min_message_lifetime room key task read merging
            s).1.1.1
  unfolding compact_doc get_doc retrieve_doc retrieve_assets
  compact_doc-Progress room key task read merging (db, (w, tables)) quiet h alive hc =
      elim (Option-cases (get_doc y plugins room everything read w tables)) [
        | inl n ↦ rw (n, compact_doc) (inl refl)
        | inr (d, e) ↦
            let (persisted, last, refs) =
              merge_doc-fields y everything
                (retrieve_doc plugins room everything.want true w tables) read d e in
            let same : (merging (db, (w, tables))).1.1 ≡ tables = quiet (db, (w, tables)) in
            rw (e, compact_doc)
              (subst
                (λ before.
                  Progress room before
                    (finish prefix r codec y plugins min_message_lifetime room key task d
                      (merging (db, (w, tables)))).1.1.1)
                same
                (finish-Progress room key task d (merging (db, (w, tables))) (rw same h)
                  (rw same alive) (rw same persisted)
                  (rw last
                    (max-IsClock _ _ (last_clock_of-IsClock (versions room tables.docs) h) hc))
                  (rw same refs)))
      ]
