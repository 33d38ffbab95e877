-- ===== src/Stream/Lacks.antt =====
-- src/stream.js: how each redis command moves the rule of Tasks, on the view of the server.
use yhub.Base.{
  Bool, true, false, ◌||◌, Text, if◌then◌else◌, text_eq, text_eq_refl, text_eq_iff, text_eq_comm,
  ◌≡◌, arith, ◌∙◌, sym,
}
use yhub.Redis.{
  View, Payload, nop, has, after_xadd, after_xack, after_xdel, after_xtrim, after_del, after_rename,
  after_srem,
}
use yhub.Stream.{worker_stream_name, compaction_disabled_set_name}
use yhub.Stream.Tasks.{
  tasks_of, due, AllLeased, OneTask, after_enqueue, Owns, drop_id-none, count-drop_id_other,
  count-drop_id_own, enqueue-AllLeased, tasks_of-enqueue, acknowledge-AllLeased,
}

module _ (prefix : Text) (is_live : Text → Bool)
    (live_keys : (k : Text)
      → is_live k ≡ true
      → text_eq k (worker_stream_name prefix) ≡ false) where
  abbrev worker : Text
  worker = worker_stream_name prefix

  abbrev disabled : Text
  disabled = compaction_disabled_set_name prefix

  pub worker-ne : (k : Text) → is_live k ≡ true → text_eq worker k ≡ false
  worker-ne k h = text_eq_comm worker k ∙ live_keys k h

  pub xadd-AllLeased :
      (key id : Text) (p : Payload) (v : View)
      → is_live key ≡ true
      → AllLeased prefix v
      → AllLeased prefix (after_xadd worker key id p v)
  xadd-AllLeased key id p v live h = record {
    delivered = rw (live_keys key live) h.delivered;
    pending = λ t. rw (live_keys key live) (h.pending t);
  }

  -- The rule for all streams but one, which has no task.
  pub record Lacks (key : Text) (v : View) : Type 0 where
    pub leased : AllLeased prefix v
    pub no_task : tasks_of prefix key v ≡ 0
    pub counted :
        (j : Text)
        → is_live j ≡ true
        → text_eq key j ≡ false
        → tasks_of prefix j v ≡ (if due prefix j v then 1 else 0)

  pub OneTask-Lacks :
      (key : Text) (v : View)
      → is_live key ≡ true
      → due prefix key v ≡ false
      → OneTask prefix is_live v
      → Lacks key v
  OneTask-Lacks key v live idle h = record {
    leased = h.leased;
    no_task = ground (arith, h.counted key live);
    counted = λ j jl _. h.counted j jl;
  }

  pub Lacks-OneTask :
      (key : Text) (v : View) → due prefix key v ≡ false → Lacks key v → OneTask prefix is_live v
  Lacks-OneTask key v idle h = record {
    leased = h.leased;
    counted = λ j jl. ground (arith, h.counted j jl, h.no_task, text_eq_iff key j);
  }

  pub enqueue-OneTask :
      (key id : Text) (v : View)
      → due prefix key v ≡ true
      → Lacks key v
      → OneTask prefix is_live (after_enqueue prefix key id v)
  enqueue-OneTask key id v is_due h = record {
    leased = enqueue-AllLeased prefix key id v h.leased;
    counted = λ j jl.
        rw (tasks_of-enqueue prefix key id j v, worker-ne j jl)
          (ground (arith, h.counted j jl, h.no_task, text_eq_iff key j));
  }

  -- A first entry behind a new task.
  pub enqueue-xadd-OneTask :
      (key id id' : Text) (p : Payload) (v : View)
      → is_live key ≡ true
      → v.is_member (compaction_disabled_set_name prefix) key ≡ false
      → Lacks key v
      → OneTask prefix is_live (after_xadd worker key id' p (after_enqueue prefix key id v))
  enqueue-xadd-OneTask key id id' p v live enabled h = record {
    leased =
        xadd-AllLeased key id' p (after_enqueue prefix key id v) live
          (enqueue-AllLeased prefix key id v h.leased);
    counted = λ j jl.
        rw (live_keys key live, tasks_of-enqueue prefix key id j v, worker-ne j jl)
          (ground (arith, h.counted j jl, h.no_task, text_eq_iff key j));
  }

  -- An entry for a stream that has its task, or may have none.
  pub xadd-OneTask :
      (key id : Text) (p : Payload) (v : View)
      → is_live key ≡ true
      → (v.exists key || v.is_member (compaction_disabled_set_name prefix) key) ≡ true
      → OneTask prefix is_live v
      → OneTask prefix is_live (after_xadd worker key id p v)
  xadd-OneTask key id p v live there h = record {
    leased = xadd-AllLeased key id p v live h.leased;
    counted = λ j jl. rw (live_keys key live) (ground (arith, h.counted j jl, text_eq_iff key j));
  }

  pub del-Lacks :
      (key : Text) (v : View)
      → is_live key ≡ true
      → Lacks key v
      → OneTask prefix is_live (after_del key v)
  del-Lacks key v live h = record {
    leased = record {
      delivered = h.leased.delivered;
      pending = λ t. rw (live_keys key live) (h.leased.pending t);
    };
    counted = λ j jl.
        rw (live_keys key live) (ground (arith, h.counted j jl, h.no_task, text_eq_iff key j));
  }

  pub xtrim-Lacks :
      (drops : Text → Bool) (key : Text) (v : View)
      → is_live key ≡ true
      → Lacks key v
      → Lacks key (after_xtrim drops key v)
  xtrim-Lacks drops key v live h = record {
    leased = record {
      delivered = h.leased.delivered;
      pending = λ t. rw (live_keys key live) (h.leased.pending t);
    };
    no_task = rw (live_keys key live) h.no_task;
    counted = λ j jl n. rw (live_keys key live) (h.counted j jl n);
  }

  pub xtrim-OneTask :
      (drops : Text → Bool) (key : Text) (v : View)
      → is_live key ≡ true
      → OneTask prefix is_live v
      → OneTask prefix is_live (after_xtrim drops key v)
  xtrim-OneTask drops key v live h = record {
    leased = record {
      delivered = h.leased.delivered;
      pending = λ t. rw (live_keys key live) (h.leased.pending t);
    };
    counted = λ j jl. rw (live_keys key live) (h.counted j jl);
  }

  -- Acknowledging the stream's task leaves it without one.
  pub acknowledge-Lacks :
      (key t : Text) (v : View)
      → is_live key ≡ true
      → Owns key t (v.stream worker)
      → has t v.pending ≡ true
      → OneTask prefix is_live v
      → Lacks key (after_xdel worker t (after_xack t v))
  acknowledge-Lacks key t v live own acked h = record {
    leased = acknowledge-AllLeased prefix t v h.leased;
    no_task = rw (text_eq_refl worker) (
        ground (
          arith,
          h.counted key live,
          h.leased.pending t,
          count-drop_id_own key t (v.stream worker) own,
        ));
    counted = λ j jl n.
        rw (text_eq_refl worker)
          (count-drop_id_other key t j (v.stream worker) own n ∙ h.counted j jl);
  }

  pub acked-due :
      (key t : Text) (v : View)
      → is_live key ≡ true
      → Owns key t (v.stream worker)
      → has t v.pending ≡ true
      → OneTask prefix is_live v
      → due prefix key v ≡ true
  acked-due key t v live own acked h =
      ground (
        arith,
        h.counted key live,
        h.leased.pending t,
        count-drop_id_own key t (v.stream worker) own,
      )

  pub acknowledge-idle :
      (key t : Text) (v : View)
      → has t v.pending ≡ false
      → OneTask prefix is_live v
      → OneTask prefix is_live (after_xdel worker t (after_xack t v))
  acknowledge-idle key t v missed h = record {
    leased = acknowledge-AllLeased prefix t v h.leased;
    counted = λ j jl.
        rw
          (
            text_eq_refl worker,
            drop_id-none t (v.stream worker) (sym (h.leased.pending t) ∙ missed),
          )
          (h.counted j jl);
  }

  pub srem-Lacks :
      (key : Text) (v : View)
      → v.is_member disabled key ≡ true
      → OneTask prefix is_live v
      → is_live key ≡ true
      → Lacks key (after_srem disabled key v)
  srem-Lacks key v off h live = record {
    leased = record { delivered = h.leased.delivered; pending = h.leased.pending };
    no_task = ground (arith, h.counted key live);
    counted = λ j jl n. ground (arith, h.counted j jl, text_eq_refl disabled);
  }

  pub srem-idle :
      (key : Text) (v : View)
      → v.is_member disabled key ≡ false
      → OneTask prefix is_live v
      → OneTask prefix is_live (after_srem disabled key v)
  srem-idle key v on h = record {
    leased = record { delivered = h.leased.delivered; pending = h.leased.pending };
    counted = λ j jl. ground (arith, h.counted j jl, text_eq_refl disabled, text_eq_iff key j);
  }

  pub rename-OneTask :
      (live quar : Text) (v : View)
      → is_live live ≡ true
      → is_live quar ≡ false
      → text_eq quar worker ≡ false
      → v.exists live ≡ true
      → OneTask prefix is_live v
      → (id : Text)
      → OneTask prefix is_live (after_xadd worker live id nop (after_rename live quar v))
  rename-OneTask live quar v hl hq qw there h id = record {
    leased = record {
      delivered = rw (live_keys live hl) h.leased.delivered;
      pending = λ t. rw (live_keys live hl, qw) (h.leased.pending t);
    };
    counted = λ j jl.
        rw (live_keys live hl, qw)
          (ground (arith, h.counted j jl, text_eq_iff live j, text_eq_iff quar j));
  }

  -- A stream that did not exist, and is deleted behind the entry that the transaction left.
  pub orphan-OneTask :
      (live id : Text) (v : View)
      → is_live live ≡ true
      → v.exists live ≡ false
      → OneTask prefix is_live v
      → OneTask prefix is_live (after_del live (after_xadd worker live id nop v))
  orphan-OneTask live id v hl gone h = record {
    leased = record {
      delivered = rw (live_keys live hl) h.leased.delivered;
      pending = λ t. rw (live_keys live hl) (h.leased.pending t);
    };
    counted = λ j jl. rw (live_keys live hl) (ground (arith, h.counted j jl, text_eq_iff live j));
  }
