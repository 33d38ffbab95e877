-- ===== src/Stream/Tasks.antt =====
-- src/stream.js: the rule that ties the worker queue to the streams. A room's stream has one
-- compact task while it exists and compaction is not disabled, and none otherwise; every task is
-- leased to a consumer.
use yhub.Base.{
  ℕ, ◌+◌, ◌<◌, Bool, true, false, not, ◌&&◌, List, [], ◌∷◌, Text, if◌then◌else◌, text_eq,
  text_eq_refl, text_eq_iff, keep, some_of, some_of-append, count_of, count_of-append,
  count_of-keep-le, ◌≡◌, refl, arith,
}
use yhub.Redis.{
  View, Entry, Payload, m, nop, compact, has, without, after_xadd, after_xreadgroup, after_xack,
  after_xdel,
}
use yhub.Stream.{worker_stream_name, compaction_disabled_set_name, is_compact, is_compact_payload}

-- The tasks of a stream that are in the worker queue.
abbrev pub tasks_of : Text → Text → View → ℕ
tasks_of prefix k v = count_of (is_compact k) (v.stream (worker_stream_name prefix))

abbrev pub due : Text → Text → View → Bool
due prefix k v = v.exists k && not (v.is_member (compaction_disabled_set_name prefix) k)

-- Every task of the queue is delivered, and pending until it is acknowledged.
pub record AllLeased (prefix : Text) (v : View) : Type 0 where
  pub delivered : v.undelivered ≡ []
  pub pending :
      (t : Text)
      → has t v.pending ≡ some_of (λ e. text_eq t e.id) (v.stream (worker_stream_name prefix))

pub record OneTask (prefix : Text) (is_live : Text → Bool) (v : View) : Type 0 where
  pub leased : AllLeased prefix v
  pub counted :
      (k : Text) → is_live k ≡ true → tasks_of prefix k v ≡ (if due prefix k v then 1 else 0)

-- `enqueue` as the view shows it.
abbrev pub after_enqueue : Text → Text → Text → View → View
after_enqueue prefix key id v =
    after_xreadgroup
      (after_xadd (worker_stream_name prefix) (worker_stream_name prefix) id (compact key) v)

-- Entries without the id of an acknowledged task.
abbrev pub drop_id : Text → List Entry → List Entry
drop_id t = keep (λ (e : Entry). not (text_eq t e.id))

abbrev pub has_id : Text → List Entry → Bool
has_id t = some_of (λ (e : Entry). text_eq t e.id)

-- The entry with this id, if it is there, is the compact task of the stream `key`.
abbrev pub Owns : Text → Text → List Entry → Type 0
Owns key t [] = Unit
Owns key t (e ∷ es) = (text_eq t e.id ≡ true → is_compact key e ≡ true) × Owns key t es

has-without :
    (u t : Text) (ids : List Text) → has u (without t ids) ≡ (not (text_eq t u) && has u ids)
has-without u t [] = ground arith
has-without u t (i ∷ ids) =
    ground (arith, has-without u t ids, text_eq_iff u i, text_eq_iff t i, text_eq_iff t u)

has_id-drop_id :
    (u t : Text) (es : List Entry) → has_id u (drop_id t es) ≡ (not (text_eq t u) && has_id u es)
has_id-drop_id u t [] = ground arith
has_id-drop_id u t (e ∷ es) =
    ground (arith, has_id-drop_id u t es, text_eq_iff u e.id, text_eq_iff t e.id, text_eq_iff t u)

pub drop_id-none : (t : Text) (es : List Entry) → has_id t es ≡ false → drop_id t es ≡ es
drop_id-none t [] h = refl
drop_id-none t (e ∷ es) h = ground (arith, drop_id-none t es)

-- An entry is the task of one stream at most.
is_compact-one :
    (k j : Text) (e : Entry) → is_compact k e ≡ true → text_eq k j ≡ false → is_compact j e ≡ false
is_compact-one k j e h n = is_compact_payload-one e.payload h
  where
    is_compact_payload-one :
        (p : Payload) → is_compact_payload k p ≡ true → is_compact_payload j p ≡ false
    is_compact_payload-one (m bytes) h = refl
    is_compact_payload-one nop h = refl
    is_compact_payload-one (compact i) h =
        ground (arith, text_eq_iff i k, text_eq_iff i j, text_eq_iff k j)

pub count-drop_id_other :
    (key t j : Text) (es : List Entry)
    → Owns key t es
    → text_eq key j ≡ false
    → count_of (is_compact j) (drop_id t es) ≡ count_of (is_compact j) es
count-drop_id_other key t j [] own n = refl
count-drop_id_other key t j (e ∷ es) (own, owns) n =
    ground (arith, own, is_compact-one key j e, count-drop_id_other key t j es owns n)

pub count-drop_id_own :
    (key t : Text) (es : List Entry)
    → Owns key t es
    → has_id t es ≡ true
    → count_of (is_compact key) (drop_id t es) < count_of (is_compact key) es
count-drop_id_own key t [] own h = cc
count-drop_id_own key t (e ∷ es) (own, owns) h = ground (
  arith,
  own,
  count_of-keep-le (is_compact key) (λ (f : Entry). not (text_eq t f.id)) es,
  count-drop_id_own key t es owns,
)

module _ (prefix : Text) where
  abbrev worker : Text
  worker = worker_stream_name prefix

  pub enqueue-AllLeased :
      (key id : Text) (v : View)
      → AllLeased prefix v
      → AllLeased prefix (after_enqueue prefix key id v)
  enqueue-AllLeased key id v h = record {
    delivered = ground (arith, h.delivered, text_eq_refl worker);
    pending = λ t. rw (
      text_eq_refl worker,
      h.delivered,
      some_of-append (text_eq t) v.pending (id ∷ []),
      some_of-append (λ (e : Entry). text_eq t e.id) (v.stream worker)
          (record { id = id; payload = compact key } ∷ []),
      h.pending t,
    );
  }

  pub tasks_of-enqueue :
      (key id j : Text) (v : View)
      → tasks_of prefix j (after_enqueue prefix key id v)
        ≡ tasks_of prefix j v + (if text_eq key j then 1 else 0)
  tasks_of-enqueue key id j v = rw (
    text_eq_refl worker,
    count_of-append (is_compact j) (v.stream worker)
        (record { id = id; payload = compact key } ∷ []),
  )

  -- Acknowledging a task and deleting its entry.
  pub acknowledge-AllLeased :
      (t : Text) (v : View)
      → AllLeased prefix v
      → AllLeased prefix (after_xdel worker t (after_xack t v))
  acknowledge-AllLeased t v h = record {
    delivered = rw h.delivered;
    pending = λ u. rw (
      has-without u t v.pending,
      text_eq_refl worker,
      has_id-drop_id u t (v.stream worker),
      h.pending u,
    );
  }
