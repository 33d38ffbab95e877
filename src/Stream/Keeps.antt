-- ===== src/Stream/Keeps.antt =====
-- src/stream.js: each script and transaction keeps one compact task for each stream that is due.
use yhub.Base.{
  ℕ, Bool, true, false, not, ◌&&◌, Text, text_eq, text_eq_refl, ◌≡◌, arith, Bool-cases,
  Option-cases, inl, inr, ◌∙◌, ap, false≢true,
}
use yhub.Message.{Bytes}
use yhub.Redis.{Redis, m, nop, compact, has, after_xreadgroup, after_xack, after_xdel}
use yhub.Stream.{
  worker_stream_name, compaction_disabled_set_name, trim_id, enqueue, add_message, settle,
  trim_stream, trim_messages, is_empty, enable_compaction, quarantine_transaction, quarantine,
  clear_messages,
}
use yhub.Stream.Tasks.{due, OneTask, after_enqueue, Owns}
use yhub.Stream.Lacks.{
  Lacks, OneTask-Lacks, Lacks-OneTask, enqueue-OneTask, enqueue-xadd-OneTask, xadd-OneTask,
  del-Lacks, xtrim-Lacks, xtrim-OneTask, acknowledge-Lacks, acked-due, acknowledge-idle, srem-Lacks,
  srem-idle, rename-OneTask, orphan-OneTask,
}

module _ (prefix : Text) (r : Redis (worker_stream_name prefix)) (is_live : Text → Bool)
    (live_keys : (k : Text)
      → is_live k ≡ true
      → text_eq k (worker_stream_name prefix) ≡ false) where
  open r use {Db, view}

  abbrev worker : Text
  worker = worker_stream_name prefix

  abbrev disabled : Text
  disabled = compaction_disabled_set_name prefix

  abbrev Kept : Db → Type 0
  Kept s = OneTask prefix is_live (view s)

  view-enqueue :
      (key : Text) (s : Db)
      → view (enqueue prefix r key s) ≡ after_enqueue prefix key (r.next_id worker s) (view s)
  unfolding enqueue
  view-enqueue key s =
      r.view-xreadgroup (r.xadd worker (compact key) s)
      ∙ ap after_xreadgroup (r.view-xadd worker (compact key) s)

  -- Let the worker queue not be a live stream. Say that a stream is due where it exists and its
  -- compaction is not disabled. If every live stream has exactly one compact task in the worker
  -- queue while it is due and none otherwise, and every task is leased, then this still holds after
  -- the script `addMessage` on a live stream.
  pub add_message-OneTask :
      (key : Text) (bytes : Bytes) (s : Db)
      → is_live key ≡ true
      → Kept s
      → Kept (add_message prefix r key bytes s)
  unfolding add_message
  add_message-OneTask key bytes s live h =
      elim (Bool-cases (
        not ((view s).exists key)
        && not ((view s).is_member (compaction_disabled_set_name prefix) key))) [
          | inl new ↦
              rw (new, add_message)
                (rw (r.view-xadd key (m bytes) (enqueue prefix r key s)) (
                  rw (view-enqueue key s) (
                    enqueue-xadd-OneTask prefix is_live live_keys key _ _ (m bytes) (view s) live
                      (ground arith)
                      (OneTask-Lacks prefix is_live live_keys key (view s) live (ground arith) h))))
          | inr old ↦
              rw (old, add_message)
                (rw (r.view-xadd key (m bytes) s) (
                  xadd-OneTask prefix is_live live_keys key _ (m bytes) (view s) live (ground arith)
                    h))
        ]

  settle-OneTask :
      (key : Text) (s : Db)
      → is_live key ≡ true
      → due prefix key (view s) ≡ true
      → Lacks prefix is_live live_keys key (view s)
      → Kept (settle prefix r key s)
  unfolding settle
  settle-OneTask key s live is_due h = elim (Bool-cases (is_empty ((view s).stream key))) [
    | inl e ↦
        rw (e, settle)
          (rw (r.view-del key s (live_keys key live))
            (del-Lacks prefix is_live live_keys key (view s) live h))
    | inr e ↦
        rw (e, settle)
          (rw (view-enqueue key s)
            (enqueue-OneTask prefix is_live live_keys key _ (view s) is_due h))
  ]

  pub view-acknowledge :
      (t : Text) (s : Db)
      → view (r.xdel t (r.xack t s).1) ≡ after_xdel worker t (after_xack t (view s))
  view-acknowledge t s = r.view-xdel t (r.xack t s).1 ∙ ap (after_xdel worker t) (r.view-xack t s)

  trim_stream-OneTask :
      (key minid : Text) (max_age : ℕ) (s : Db)
      → is_live key ≡ true
      → due prefix key (view s) ≡ true
      → Lacks prefix is_live live_keys key (view s)
      → (trim_stream prefix r key minid max_age s).0 ≡ true
      → Kept (trim_stream prefix r key minid max_age s).1
  unfolding trim_stream
  trim_stream-OneTask key minid max_age s live is_due h done =
      elim (Option-cases (trim_id (r.seconds s) minid max_age)) [
        | inl e ↦ absurd (false≢true (rw (e, trim_stream) at done))
        | inr (id, e) ↦
            rw (e, trim_stream)
              (settle-OneTask key (r.xtrim_minid key id s) live
                (rw (r.view-xtrim_minid key id s (live_keys key live)) is_due)
                (rw (r.view-xtrim_minid key id s (live_keys key live))
                  (xtrim-Lacks prefix is_live live_keys _ key (view s) live h)))
      ]

  -- Let the worker queue not be a live stream. If every live stream has one compact task exactly
  -- while it is due, and every task is leased, then this still holds after the script
  -- `trimMessages` of a live stream, whether or not another worker has acknowledged its task
  -- before, provided that the task, if it is there, is one of this stream and that the script does
  -- not raise an error.
  pub trim_messages-OneTask :
      (key minid : Text) (max_age : ℕ) (task : Text) (s : Db)
      → is_live key ≡ true
      → Owns key task ((view s).stream worker)
      → Kept s
      → (trim_messages prefix r key minid max_age task s).0 ≡ true
      → Kept (trim_messages prefix r key minid max_age task s).1
  unfolding trim_messages
  trim_messages-OneTask key minid max_age task s live own h done =
      elim (Bool-cases (has task (view s).pending)) [
        | inl acked ↦
            let e : (r.xack task s).0 ≡ true = r.xack_reply task s ∙ acked in
            rw (e, trim_messages)
              (trim_stream-OneTask key minid max_age (r.xdel task (r.xack task s).1) live
                (rw (view-acknowledge task s)
                  (acked-due prefix is_live live_keys key task (view s) live own acked h))
                (rw (view-acknowledge task s)
                  (acknowledge-Lacks prefix is_live live_keys key task (view s) live own acked h))
                (rw (e, trim_messages) at done))
        | inr missed ↦
            rw (r.xack_reply task s ∙ missed, trim_messages)
              (rw (view-acknowledge task s)
                (acknowledge-idle prefix is_live live_keys key task (view s) missed h))
      ]

  -- If every live stream has one compact task exactly while it is due, and every task is leased,
  -- then this still holds after `clearMessages` of a live stream.
  pub clear_messages-OneTask :
      (key : Text) (s : Db) → is_live key ≡ true → Kept s → Kept (clear_messages prefix r key s)
  unfolding clear_messages
  clear_messages-OneTask key s live h =
      rw (r.view-xtrim_all key s (live_keys key live))
        (xtrim-OneTask prefix is_live live_keys (λ i. true) key (view s) live h)

  srem-member :
      (key : Text) (s : Db) → (view (r.srem disabled key s).1).is_member disabled key ≡ false
  srem-member key s =
      rw (r.view-srem disabled key s) (ground (arith, text_eq_refl disabled, text_eq_refl key))

  -- Let the worker queue not be a live stream. If every live stream has one compact task exactly
  -- while it is due, and every task is leased, then this still holds after the script
  -- `enableCompaction` of a live stream, whether or not its compaction was disabled.
  pub enable_compaction-OneTask :
      (key : Text) (s : Db) → is_live key ≡ true → Kept s → Kept (enable_compaction prefix r key s)
  unfolding enable_compaction
  enable_compaction-OneTask key s live h = elim (Bool-cases ((view s).is_member disabled key)) [
    | inl off ↦
        let e : (r.srem disabled key s).0 ≡ true = r.srem_reply disabled key s ∙ off in
        elim (Bool-cases ((view (r.srem disabled key s).1).exists key)) [
          | inl there ↦
              rw (e, there, enable_compaction)
                (rw (view-enqueue key (r.srem disabled key s).1) (
                  enqueue-OneTask prefix is_live live_keys key _ (view (r.srem disabled key s).1)
                    (ground (arith, srem-member key s))
                    (rw (r.view-srem disabled key s)
                      (srem-Lacks prefix is_live live_keys key (view s) off h live))))
          | inr gone ↦
              rw (e, gone, enable_compaction)
                (Lacks-OneTask prefix is_live live_keys key _ (ground arith) (
                  rw (r.view-srem disabled key s)
                    (srem-Lacks prefix is_live live_keys key (view s) off h live)))
        ]
    | inr on ↦
        rw (r.srem_reply disabled key s ∙ on, enable_compaction)
          (rw (r.view-srem disabled key s) (srem-idle prefix is_live live_keys key (view s) on h))
  ]

  -- Let the worker queue not be a live stream. If every live stream has one compact task exactly
  -- while it is due, and every task is leased, then this still holds after `quarantine` moves a
  -- live stream to a key that is not live and is not the worker queue, or finds no stream to move,
  -- where nothing comes between its two requests.
  pub quarantine-OneTask :
      (live quar : Text) (s : Db)
      → is_live live ≡ true
      → is_live quar ≡ false
      → text_eq quar worker ≡ false
      → Kept s
      → Kept (quarantine prefix r live quar s).1
  unfolding quarantine quarantine_transaction
  quarantine-OneTask live quar s hl hq qw h = elim (Bool-cases ((view s).exists live)) [
    | inl there ↦
        rw (r.rename_reply live quar s ∙ there, quarantine)
          (rw (r.view-xadd live nop (r.rename live quar s).1) (
            rw (r.view-rename live quar s (live_keys live hl) qw, there)
              (rename-OneTask prefix is_live live_keys live quar (view s) hl hq qw there h _)))
    | inr gone ↦
        rw (r.rename_reply live quar s ∙ gone, quarantine)
          (rw (r.view-del live (r.xadd live nop (r.rename live quar s).1) (live_keys live hl)) (
            rw (r.view-xadd live nop (r.rename live quar s).1) (
              rw (r.view-rename live quar s (live_keys live hl) qw, gone)
                (orphan-OneTask prefix is_live live_keys live _ (view s) hl gone h))))
  ]
