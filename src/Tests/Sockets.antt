-- ===== src/Tests/Sockets.antt =====
-- src/server.js: connections in an environment in which numbers are one byte and arrays have their
-- length in front of them.
use yhub.Base.{
  ℕ, zero, suc, true, false, Option, some, none, [], ◌∷◌, ◌++◌, length, text_eq, codes, ltb,
  if◌then◌else◌, ◌≡◌, refl,
}
use yhub.Json.{end, field, str}
use yhub.Message.{Bytes, awareness, tombstone}
use yhub.Protocol.{
  Varints, encode_sync_step1, encode_sync_step2, encode_sync_update, write_awareness_update,
}
use yhub.Hub.Merging.{DocTable}
use yhub.Server.{
  rw, Environment, sent, subscribed, ended, unsubscribed, User, close, destroy, depart, send_data,
  on_stream, has_write_access,
}
use yhub.Server.Receiving.{on_message}
use yhub.Server.Connection.{
  Phase, finished, read, new_user, upgrade, upgraded, sync, opened, streamed, closed, handle, Conn,
  created, later,
}
use yhub.Server.Closing.{IsUser}
use yhub.Server.Invariant.{Reach-IsUser}
use yhub.Server.Quiet.{visible, IsGone, Quiet, handle-Quiet}
use yhub.Server.Frames.{UpdateDone, AwarenessDone, awareness_body, on_message-encode}
use yhub.Server.Upgrade.{UpgradedIf, upgrade-UpgradedIf}
use yhub.Server.Deleted.{deleted, on_stream-tombstone}

abbrev read_number : Bytes → Option (ℕ × Bytes)
read_number [] = none
read_number (c ∷ s) = some (c, s)

abbrev read_from : ℕ → Bytes → Option (Bytes × Bytes)
read_from zero s = some ([], s)
read_from (suc n) [] = none
read_from (suc n) (c ∷ s) =
    let rest = read_from n s in elim rest [ none ↦ none | some (b, left) ↦ some (c ∷ b, left) ]

abbrev read_array : Bytes → Option (Bytes × Bytes)
read_array [] = none
read_array (n ∷ s) = read_from n s

read_from-length : (b rest : Bytes) → read_from (length b) (b ++ rest) ≡ some (b, rest)
read_from-length [] rest = refl
read_from-length (c ∷ b) rest = simp (read_from-length b rest) refl

abbrev varints : Varints
varints = record {
  write_var_uint = λ n. n ∷ [];
  write_var_uint8_array = λ b. length b ∷ b;
  write_var_string = λ s. length s ∷ s;
  read_var_uint = read_number;
  read_var_uint8_array = read_array;
  read_write_var_uint = λ n rest. refl;
  read_write_var_uint8_array = λ b rest. read_from-length b rest;
}

-- A socket that drops every message of three bytes or more.
abbrev env : Environment
env = record {
  varints = varints;
  equality_deep = λ a b. false;
  merge_updates = λ us. some [];
  merge_awareness_updates = λ us. some [];
  ContentIds = Bytes;
  content_ids_from_update = λ b. some b;
  content_map_from_content_ids = λ ids ins del. ids;
  unix_time = λ es. 0;
  send = λ es m. if ltb 2 (length m) then 2 else 1;
}

abbrev writer : User
unfolding new_user has_write_access
writer = new_user (field (codes "userid") (str (codes "u")) end) (codes "u") (some rw) []

abbrev online : User
unfolding writer
online = record writer { connected = true }

abbrev table : DocTable
table = record {
  gc_doc = some (1 ∷ []);
  nongc_doc = none;
  contentmap = none;
  contentids = none;
  last_clock = codes "5-0";
  last_persisted_clock = codes "0";
  tombstone = none;
  references = none;
  awareness = none;
  auth_checks = [];
}

-- The socket drops the first message of the initial sync, which closes the connection, and it is
-- subscribed all the same.
subscribed_behind :
    (sync env table (1 ∷ []) (1 ∷ []) online).effects
    ≡ sent (0 ∷ 0 ∷ 1 ∷ 1 ∷ []) ∷ ended 1013 ∷ unsubscribed ∷ subscribed (codes "5-0") ∷ []
unfolding sync send_data close destroy depart encode_sync_step1 encode_sync_step2 online writer
    new_user
subscribed_behind = refl

upgrades :
    upgrade none [] [] [] []
      (read (field (codes "userid") (str (codes "u")) end) (codes "u") (some rw))
      false
    ≡ upgraded writer
unfolding upgrade writer text_eq
upgrades = refl

upgrade-UpgradedIf_example :
    UpgradedIf none [] [] []
      (read end (codes "u") (some rw))
      (upgrade none [] [] [] [] (read end (codes "u") (some rw)) false)
upgrade-UpgradedIf_example =
    upgrade-UpgradedIf none [] [] [] [] (read end (codes "u") (some rw)) false

abbrev ended_conn : Conn
unfolding handle writer
ended_conn = handle env [] closed (handle env [] opened (Phase.unopened, writer))

Reach-IsUser_example : IsUser ended_conn.1
unfolding ended_conn writer
Reach-IsUser_example =
    Reach-IsUser env [] (field (codes "userid") (str (codes "u")) end) (codes "u") (some rw) []
      ended_conn (later (later created opened) closed)

handle-Quiet_example :
    Quiet (deleted online) (handle env [] (streamed (tombstone ∷ [])) (finished, deleted online)).1
unfolding online writer
handle-Quiet_example =
    handle-Quiet env [] (streamed (tombstone ∷ [])) (finished, deleted online) (refl, refl) refl

on_stream-tombstone_example :
    IsGone (on_stream env (tombstone ∷ awareness [] ∷ []) online)
    × (visible (on_stream env (tombstone ∷ awareness [] ∷ []) online)
        ≡ ended 4404 ∷ unsubscribed ∷ [])
unfolding online writer
on_stream-tombstone_example = on_stream-tombstone env (awareness [] ∷ []) online refl refl refl

on_message-encode_example :
    UpdateDone env
      (9 ∷ 9 ∷ 9 ∷ 9 ∷ [])
      online
      (on_message env (encode_sync_update varints (9 ∷ 9 ∷ 9 ∷ 9 ∷ [])) online)
    × UpdateDone env
        (9 ∷ 9 ∷ 9 ∷ 9 ∷ [])
        online
        (on_message env (encode_sync_step2 varints (9 ∷ 9 ∷ 9 ∷ 9 ∷ [])) online)
    × AwarenessDone env 1 7 3 [] online
        (on_message env (write_awareness_update varints (awareness_body env 1 7 3 [])) online)
    × (on_message env (encode_sync_step1 varints (9 ∷ 9 ∷ 9 ∷ 9 ∷ [])) online ≡ online)
on_message-encode_example = on_message-encode env (9 ∷ 9 ∷ 9 ∷ 9 ∷ []) 1 7 3 [] online
