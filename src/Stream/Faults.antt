-- ===== src/Stream/Faults.antt =====
-- src/stream.js and src/index.js: two courses of events on which a room loses its task or a
-- message.
use yhub.Base.{ℕ, ◌+◌, ◌*◌, ◌<◌, Bool, true, false, none, Text, text_eq, ◌≡◌, ◌∙◌}
use yhub.Redis.{Redis, has}
use yhub.Stream.{worker_stream_name, trim_id, trim_stream, trim_messages}
use yhub.Stream.Tasks.{tasks_of, due, OneTask, Owns}
use yhub.Clock.{inline_clock}
use yhub.Stream.Trim.{trim_id-inline_clock}
use yhub.Stream.Keeps.{view-acknowledge}
use yhub.Stream.Lacks.{worker-ne, acknowledge-Lacks, acked-due}

module _ (prefix : Text) (r : Redis (worker_stream_name prefix)) (is_live : Text → Bool)
    (live_keys : (k : Text)
      → is_live k ≡ true
      → text_eq k (worker_stream_name prefix) ≡ false) where
  open r use {Db, view}

  abbrev worker : Text
  worker = worker_stream_name prefix

  -- The state in which the script `trimMessages` has acknowledged its task and begins to trim.
  abbrev pub acknowledged : Text → Db → Db
  acknowledged task s = r.xdel task (r.xack task s).1

  trim_stream-raises :
      (key minid : Text) (max_age : ℕ) (s : Db)
      → trim_id (r.seconds s) minid max_age ≡ none
      → trim_stream prefix r key minid max_age s ≡ (false, s)
  unfolding trim_stream
  trim_stream-raises key minid max_age s h = rw (h, trim_stream)

  trim_messages-raises :
      (key minid : Text) (max_age : ℕ) (task : Text) (s : Db)
      → has task (view s).pending ≡ true
      → trim_id (r.seconds (acknowledged task s)) minid max_age ≡ none
      → trim_messages prefix r key minid max_age task s ≡ (false, acknowledged task s)
  unfolding trim_messages
  trim_messages-raises key minid max_age task s acked h =
      rw (r.xack_reply task s ∙ acked, trim_messages)
        (trim_stream-raises key minid max_age (acknowledged task s) h)

  -- Let the worker queue not be a live stream. Where the queue and the streams agree, the task of a
  -- live stream is pending, and the range to trim is given by a clock `ms-I` of `unsafePersistDoc`
  -- that is older than `max_age` by the clock of the server, the script `trimMessages` raises an
  -- error after it has acknowledged the task: the stream keeps its entries and is still due, and it
  -- has no task any more.
  pub trim_messages-inline_clock :
      (key : Text) (ms max_age : ℕ) (task : Text) (s : Db)
      → is_live key ≡ true
      → Owns key task ((view s).stream worker)
      → OneTask prefix is_live (view s)
      → has task (view s).pending ≡ true
      → ms + max_age < r.seconds (acknowledged task s) * 1000
      → ((trim_messages prefix r key (inline_clock ms) max_age task s).0 ≡ false)
        × (tasks_of prefix key
              (view (trim_messages prefix r key (inline_clock ms) max_age task s).1)
            ≡ 0)
        × (due prefix key (view (trim_messages prefix r key (inline_clock ms) max_age task s).1)
            ≡ true)
        × ((view (trim_messages prefix r key (inline_clock ms) max_age task s).1).stream key
            ≡ (view s).stream key)
  trim_messages-inline_clock key ms max_age task s live own h acked old =
      let raises =
        trim_messages-raises key (inline_clock ms) max_age task s acked
          (trim_id-inline_clock (r.seconds (acknowledged task s)) ms max_age old) in
      let lacks = acknowledge-Lacks prefix is_live live_keys key task (view s) live own acked h in
      let shown = view-acknowledge prefix r is_live live_keys task s in
      (
        rw raises,
        rw raises (rw shown lacks.no_task),
        rw raises
            (rw shown (acked-due prefix is_live live_keys key task (view s) live own acked h)),
        rw raises (rw shown (rw (worker-ne prefix is_live live_keys key live))),
      )
