-- ===== src/Hub/Tasks.antt =====
-- src/index.js: what `_runTask` leaves of the versions of its room.
use yhub.Base.{
  ℕ, true, false, some, List, Text, ◌≡◌, refl, arith, Bool-cases, Option-cases, inl, inr, subst,
}
use yhub.Clock.Order.{IsClock}
use yhub.Message.{AnyCodec}
use yhub.Room.{Room}
use yhub.Redis.{Redis}
use yhub.Stream.{worker_stream_name}
use yhub.Persistence.{Tables, retrieve_assets, versions, hard_deleted, retrieve_tombstone}
use yhub.Persistence.Plugins.{Plugin}
use yhub.Persistence.Documents.{retrieve_doc}
use yhub.Persistence.Latest.{AllClocks, clocks}
use yhub.Yjs.{Yjs}
use yhub.Naming.{encode_room_name}
use yhub.Hub.{run_task, run_named, trims_only, read_stream, is_hard, compact_doc, trim_world}
use yhub.Hub.Progress.{Progress, compact_doc-Progress}

module _ {W : Type 0} (prefix : Text) (r : Redis (worker_stream_name prefix)) (codec : AnyCodec)
    (y : Yjs) (plugins : List (Plugin W)) (min_message_lifetime : ℕ) where
  open r use {Db}

  abbrev State : Type 0
  State = Db × (W × Tables)

  -- Where every version of a room has a clock of two numbers, and so has what there is on its
  -- stream, where the room is not hard-deleted and where no other process changes the tables during
  -- the task: after `_runTask`, whether it completes or throws, the versions of the room are as
  -- before, or there is only one, and its clock is greater than each clock before.
  pub run_task-Progress :
      (room : Room) (key task : Text) (waiting merging : State → State) (s : State)
      → encode_room_name room prefix ≡ some key
      → ((s' : State) → (waiting s').1.1 ≡ s'.1.1)
      → ((s' : State) → (merging s').1.1 ≡ s'.1.1)
      → AllClocks (clocks (versions room s.1.1.docs))
      → hard_deleted room s.1.1.tombstones ≡ false
      → IsClock (read_stream prefix r codec y plugins min_message_lifetime key s.0).last_clock
      → Progress room s.1.1
          (run_task prefix r codec y plugins min_message_lifetime room task waiting merging s).1.1.1
  unfolding run_task run_named trim_world
  run_task-Progress room key task waiting merging (db, (w, tables)) name still quiet h alive hc =
      elim (Bool-cases
        (trims_only prefix r codec y plugins min_message_lifetime room key (db, (w, tables)))) [
          | inl e ↦ rw (name, run_task) (rw (e, run_named) (inl refl))
          | inr e ↦
              let same : (waiting (db, (w, tables))).1.1 ≡ tables = still (db, (w, tables)) in
              rw (name, run_task)
                (rw (e, run_named)
                  (subst
                    (λ before.
                      Progress room before
                        (compact_doc prefix r codec y plugins min_message_lifetime room key task
                          (read_stream prefix r codec y plugins min_message_lifetime key db) merging
                          (waiting (db, (w, tables)))).1.1.1)
                    same
                    (compact_doc-Progress prefix r codec y plugins min_message_lifetime room key
                      task (read_stream prefix r codec y plugins min_message_lifetime key db)
                      merging (waiting (db, (w, tables))) quiet (rw same h) (rw same alive) hc)))
        ]

  hard_trims :
      (room : Room) (key : Text) (s : State)
      → is_hard (retrieve_tombstone room s.1.1) ≡ true
      → trims_only prefix r codec y plugins min_message_lifetime room key s ≡ true
  unfolding trims_only retrieve_tombstone retrieve_doc retrieve_assets
  hard_trims room key (db, (w, tables)) h = ground arith

  -- On a room with a hard deletion, `_runTask` leaves the tables and the files of the plugins as
  -- they are.
  pub run_task-hard :
      (room : Room) (task : Text) (waiting merging : State → State) (s : State)
      → is_hard (retrieve_tombstone room s.1.1) ≡ true
      → (run_task prefix r codec y plugins min_message_lifetime room task waiting merging s).1.1
        ≡ s.1
  unfolding run_task run_named trim_world
  run_task-hard room task waiting merging (db, (w, tables)) h =
      elim (Option-cases (encode_room_name room prefix)) [
        | inl n ↦ rw (n, run_task) refl
        | inr (key, e) ↦
            rw (e, run_task) (rw (hard_trims room key (db, (w, tables)) h, run_named) refl)
      ]
