-- ===== src/Stream.antt =====
-- src/stream.js: the lua scripts and transactions by which the class `Stream` changes redis, on
-- the stream names of Naming. A script runs at once; what it did stays done when it raises an error.
pub mod Tasks
pub mod Lacks
pub mod Keeps
pub mod Trim
pub mod Faults
pub mod Messages
use yhub.Base.{
  ℕ, zero, suc, ◌+◌, ◌-◌, ◌*◌, Bool, true, false, not, ◌&&◌, ◌||◌, Option, none, some, List, [],
  ◌∷◌, ◌++◌, Text, codes, if◌then◌else◌, text_eq, ltb, leb, ◌==◌, ◌>>=◌, is_digit, digits_value,
  decimal, every,
}
use yhub.Clock.{leading_digits}
use yhub.Message.{Bytes, Message, AnyCodec, auth_check}
use yhub.Redis.{Redis, View, Entry, Payload, m, nop, compact}

-- `this.workerStreamName` and `this.compactionDisabledSetName`.
abbrev pub worker_stream_name : Text → Text
worker_stream_name prefix = prefix ++ codes ":worker"

abbrev pub compaction_disabled_set_name : Text → Text
compaction_disabled_set_name prefix = prefix ++ codes ":compaction_disabled"

-- `string.match(id, "^(%d+)-?(%d*)$")` and the next id; `none` where the match fails, on which the
-- script raises an error.
unfoldable pub inc_digits : Text → Text → Option Text
inc_digits ts [] = some (ts ++ codes "-1")
inc_digits ts (c ∷ seq) =
    if c == b'-' && every is_digit seq
    then some (ts ++ b'-' ∷ decimal (digits_value 0 seq + 1))
    else none

unfoldable pub after_digits : Text → Text
after_digits [] = []
after_digits (c ∷ cs) = if is_digit c then after_digits cs else c ∷ cs

at_digits : Text → (Text → Option Text) → Option Text
at_digits [] f = none
at_digits (c ∷ ds) f = f (c ∷ ds)

unfoldable pub inc_stream_id : Text → Option Text
unfolding inc_digits after_digits at_digits leading_digits
inc_stream_id id = at_digits (leading_digits id) (λ ts. inc_digits ts (after_digits id))

-- `tonumber(string.match(minid, "^(%d+)"))`; comparing a missing number raises an error.
unfoldable pub minid_ts : Text → Option ℕ
unfolding leading_digits
minid_ts id = elim (leading_digits id) [ [] ↦ none | c ∷ ds ↦ some (digits_value 0 (c ∷ ds)) ]

-- The id below which the stream is trimmed: nothing younger than `max_age`, nothing above `minid`.
-- XTRIM raises an error on a negative number.
unfoldable pub trim_id : ℕ → Text → ℕ → Option Text
unfolding inc_stream_id minid_ts
trim_id seconds minid max_age = minid_ts minid >>= λ ts.
    if ltb (ts + max_age) (seconds * 1000)
    then inc_stream_id minid
    else if leb max_age (seconds * 1000)
    then some (decimal (seconds * 1000 - max_age))
    else none

-- Whether an entry of the worker stream is the compact task of a stream.
abbrev pub is_compact_payload : Text → Payload → Bool
is_compact_payload key (compact k) = text_eq k key
is_compact_payload key nop = false
is_compact_payload key (m bytes) = false

abbrev pub is_compact : Text → Entry → Bool
is_compact key e = is_compact_payload key e.payload

abbrev pub is_empty : List Entry → Bool
is_empty [] = true
is_empty (e ∷ es) = false

module _ (prefix : Text) (r : Redis (worker_stream_name prefix)) where
  open r use {
    Db, view, xadd, xreadgroup, xack, xdel, xtrim_minid, xtrim_all, del, rename, sadd, srem,
  }

  -- XADD of a compact task, and its delivery to the consumer "pending".
  unfoldable pub enqueue : Text → Db → Db
  enqueue key s = xreadgroup (xadd (worker_stream_name prefix) (compact key) s)

  abbrev is_disabled : Text → Db → Bool
  is_disabled key s = (view s).is_member (compaction_disabled_set_name prefix) key

  -- The script `addMessage`.
  unfoldable pub add_message : Text → Bytes → Db → Db
  unfolding enqueue
  add_message key bytes s =
      xadd key (m bytes)
        (if not ((view s).exists key) && not (is_disabled key s) then enqueue key s else s)

  -- The end of `trimMessages`: an empty stream goes, and one with entries gets its next task.
  unfoldable pub settle : Text → Db → Db
  unfolding enqueue
  settle key s = if is_empty ((view s).stream key) then del key s else enqueue key s

  -- The acknowledged part of `trimMessages`: whether the script completes, and the state.
  unfoldable pub trim_stream : Text → Text → ℕ → Db → Bool × Db
  unfolding trim_id settle
  trim_stream key minid max_age s = elim (trim_id (r.seconds s) minid max_age) [
    | none ↦ (false, s)
    | some id ↦ (true, settle key (xtrim_minid key id s))
  ]

  -- The script `trimMessages`.
  unfoldable pub trim_messages : Text → Text → ℕ → Text → Db → Bool × Db
  unfolding trim_stream
  trim_messages key minid max_age task s =
      let (acked, s1) = xack task s in
      let s2 = xdel task s1 in if acked then trim_stream key minid max_age s2 else (true, s2)

  unfoldable pub cancel : Text → List Entry → Db → Db
  cancel key [] s = s
  cancel key (e ∷ es) s = cancel key es (if is_compact key e then xdel e.id (xack e.id s).1 else s)

  -- The script `disableCompaction`.
  unfoldable pub disable_compaction : Text → Db → Db
  unfolding cancel
  disable_compaction key s =
      let s1 = sadd (compaction_disabled_set_name prefix) key s in
      cancel key ((view s1).stream (worker_stream_name prefix)) s1

  -- The script `enableCompaction`.
  unfoldable pub enable_compaction : Text → Db → Db
  unfolding enqueue
  enable_compaction key s =
      let (removed, s1) = srem (compaction_disabled_set_name prefix) key s in
      if removed && (view s1).exists key then enqueue key s1 else s1

  -- The transaction of `quarantine`: whether RENAME found a stream, and the state behind the XADD,
  -- which runs in either case.
  unfoldable pub quarantine_transaction : Text → Text → Db → Bool × Db
  quarantine_transaction live quar s =
      let (found, s1) = rename live quar s in (found, xadd live nop s1)

  -- `quarantine` with nothing between its two requests: whether there was something to quarantine.
  unfoldable pub quarantine : Text → Text → Db → Bool × Db
  unfolding quarantine_transaction
  quarantine live quar s =
      let (found, s1) = quarantine_transaction live quar s in
      if found then (true, s1) else (false, del live s1)

  module _ (codec : AnyCodec) where
    -- An `auth:check:v1` message is not injected again.
    is_auth_check : Message → Bool
    is_auth_check (auth_check users force) = true
    is_auth_check _ = false

    unfoldable pub inject : Text → Payload → Db → Db
    unfolding add_message is_auth_check
    inject live (m bytes) s =
        if is_auth_check (codec.decode_any bytes) then s else add_message live bytes s
    inject live _ s = s

    unfoldable pub reinject : Text → List Entry → Db → Db
    unfolding inject
    reinject live [] s = s
    reinject live (e ∷ es) s = reinject live es (inject live e.payload s)

    -- `unquarantine`: the entries are added to the live stream, and the quarantined one goes.
    unfoldable pub unquarantine : Text → Text → Db → Db
    unfolding reinject
    unquarantine live quar s = del quar (reinject live ((view s).stream quar) s)

  -- `clearMessages`
  unfoldable pub clear_messages : Text → Db → Db
  clear_messages key s = xtrim_all key s
