-- ===== src/Redis.antt =====
-- The redis server, which src/stream.js calls and does not implement. A command is a field of the
-- parameter `Redis`, and its law says what the redis manual says of the reply and of the state, as
-- far as the scripts of src/stream.js look at it: that is `View`. A command on a stream leaves the
-- other keys alone, and a stream without entries stays in place until DEL.
pub mod Memory
use yhub.Base.{
  ℕ, Bool, true, false, not, Option, none, some, List, [], ◌∷◌, ◌++◌, Text, if◌then◌else◌, keep,
  some_of, text_eq, ◌≡◌, every, map,
}
use yhub.Clock.{is_smaller_redis_clock}
use yhub.Message.{Bytes}

-- The one field of an entry that the program adds: `m`, `nop` or `compact`.
pub data Payload : Type 0 where
  m : Bytes → Payload
  nop : Payload
  compact : Text → Payload

pub record Entry : Type 0 where
  pub id : Text
  pub payload : Payload

-- What can be seen of the server. The worker group exists on one stream, and `undelivered` and
-- `pending` are its ids.
pub record View : Type 0 where
  pub exists : Text → Bool
  pub stream : Text → List Entry
  pub is_member : Text → Text → Bool
  pub undelivered : List Text
  pub pending : List Text

abbrev pub has : Text → List Text → Bool
has t ids = some_of (text_eq t) ids

abbrev pub without : Text → List Text → List Text
without t ids = keep (λ i. not (text_eq t i)) ids

abbrev pub first : List Text → List Text
first [] = []
first (i ∷ ids) = i ∷ []

abbrev pub others : List Text → List Text
others [] = []
others (i ∷ ids) = ids

-- A value at one key, and the old ones elsewhere.
abbrev pub put {ℓ} : {A : Type ℓ} → Text → A → (Text → A) → Text → A
put k a f j = if text_eq k j then a else f j

abbrev pub after_xadd : Text → Text → Text → Payload → View → View
after_xadd worker k id p v = record v {
  exists = put k true v.exists;
  stream = put k (v.stream k ++ record { id = id; payload = p } ∷ []) v.stream;
  undelivered = if text_eq k worker then v.undelivered ++ id ∷ [] else v.undelivered;
}

abbrev pub after_xreadgroup : View → View
after_xreadgroup v = record v {
  undelivered = others v.undelivered;
  pending = v.pending ++ first v.undelivered;
}

abbrev pub after_xack : Text → View → View
after_xack t v = record v { pending = without t v.pending }

abbrev pub after_xdel : Text → Text → View → View
after_xdel worker t v = record v {
  stream = put worker (keep (λ e. not (text_eq t e.id)) (v.stream worker)) v.stream;
  undelivered = without t v.undelivered;
}

abbrev pub after_xtrim : (Text → Bool) → Text → View → View
after_xtrim drops k v = record v {
  stream = put k (keep (λ e. not (drops e.id)) (v.stream k)) v.stream;
}

abbrev pub after_del : Text → View → View
after_del k v = record v { exists = put k false v.exists; stream = put k [] v.stream }

abbrev pub after_rename : Text → Text → View → View
after_rename k j v = record v {
  exists = put j true (put k false v.exists);
  stream = put j (v.stream k) (put k [] v.stream);
}

abbrev pub after_sadd : Text → Text → View → View
after_sadd set k v = record v { is_member = put set (put k true (v.is_member set)) v.is_member }

abbrev pub after_srem : Text → Text → View → View
after_srem set k v = record v { is_member = put set (put k false (v.is_member set)) v.is_member }

pub record Redis (worker : Text) : Type 1 where
  pub Db : Type 0
  pub view : Db → View
  -- TIME: the seconds.
  pub seconds : Db → ℕ
  -- The id that XADD `*` assigns.
  pub next_id : Text → Db → Text
  pub xadd : Text → Payload → Db → Db
  -- XREADGROUP GROUP … COUNT 1 STREAMS worker >
  pub xreadgroup : Db → Db
  -- XACK: whether the id was pending.
  pub xack : Text → Db → Bool × Db
  -- XDEL on the worker stream.
  pub xdel : Text → Db → Db
  pub xtrim_minid : Text → Text → Db → Db
  pub xtrim_all : Text → Db → Db
  pub del : Text → Db → Db
  -- RENAME: an error on a missing key.
  pub rename : Text → Text → Db → Bool × Db
  pub sadd : Text → Text → Db → Db
  -- SREM: whether it was a member.
  pub srem : Text → Text → Db → Bool × Db
  pub view-xadd :
      (k : Text) (p : Payload) (s : Db)
      → view (xadd k p s) ≡ after_xadd worker k (next_id k s) p (view s)
  pub view-xreadgroup : (s : Db) → view (xreadgroup s) ≡ after_xreadgroup (view s)
  pub xack_reply : (t : Text) (s : Db) → (xack t s).0 ≡ has t (view s).pending
  pub view-xack : (t : Text) (s : Db) → view (xack t s).1 ≡ after_xack t (view s)
  pub view-xdel : (t : Text) (s : Db) → view (xdel t s) ≡ after_xdel worker t (view s)
  -- MINID drops the entries whose id is smaller.
  pub view-xtrim_minid :
      (k minid : Text) (s : Db)
      → text_eq k worker ≡ false
      → view (xtrim_minid k minid s) ≡ after_xtrim (λ i. is_smaller_redis_clock i minid) k (view s)
  -- MAXLEN 0
  pub view-xtrim_all :
      (k : Text) (s : Db)
      → text_eq k worker ≡ false
      → view (xtrim_all k s) ≡ after_xtrim (λ i. true) k (view s)
  pub view-del :
      (k : Text) (s : Db) → text_eq k worker ≡ false → view (del k s) ≡ after_del k (view s)
  pub rename_reply : (k j : Text) (s : Db) → (rename k j s).0 ≡ (view s).exists k
  pub view-rename :
      (k j : Text) (s : Db)
      → text_eq k worker ≡ false
      → text_eq j worker ≡ false
      → view (rename k j s).1 ≡ (if (view s).exists k then after_rename k j (view s) else view s)
  pub view-sadd : (set k : Text) (s : Db) → view (sadd set k s) ≡ after_sadd set k (view s)
  pub srem_reply : (set k : Text) (s : Db) → (srem set k s).0 ≡ (view s).is_member set k
  pub view-srem : (set k : Text) (s : Db) → view (srem set k s).1 ≡ after_srem set k (view s)
