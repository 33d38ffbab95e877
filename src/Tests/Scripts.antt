-- ===== src/Tests/Scripts.antt =====
-- The scripts of the stream on a server in memory.
use yhub.Base.{
  ◌+◌, ◌*◌, ◌<◌, true, false, not, ◌&&◌, some, Text, codes, text_eq, text_eq_refl, ◌≡◌, refl, arith,
  ltb, decimal, is_digit, strip_prefix, hex_digit, digits_value,
}
use yhub.Clock.{leading_digits, clock_text, inline_clock, is_smaller_redis_clock}
use yhub.Redis.{Redis, has}
use yhub.Redis.Memory.{Memory, memory, empty_view}
use yhub.Uri.{uri_decode, decode_uri_component}
use yhub.Naming.{
  is_dot, decode_room_name, match_room, greedy, room_org, room_docid, room_branch, decode_groups,
  decode_components,
}
use yhub.Naming.Live.{is_room_key, worker-not_room, quarantine-not_room}
use yhub.Stream.{
  worker_stream_name, enqueue, add_message, trim_id, minid_ts, inc_stream_id, inc_digits,
  after_digits, trim_stream, trim_messages, enable_compaction, quarantine,
}
use yhub.Stream.Tasks.{OneTask, Owns, tasks_of, due}
use yhub.Stream.Keeps.{
  add_message-OneTask, trim_messages-OneTask, enable_compaction-OneTask, quarantine-OneTask,
}
use yhub.Stream.Trim.{trim_id-exact}
use yhub.Stream.Faults.{acknowledged, trim_messages-inline_clock}

abbrev p : Text
p = codes "p"

abbrev server : Redis (worker_stream_name p)
server = memory (worker_stream_name p)

abbrev idle_server : Memory
idle_server = record { view = empty_view; seconds = 1000 }

abbrev key : Text
key = codes "p:room:a:b:main"

key_is_live : is_room_key p key ≡ true
unfolding decode_room_name match_room greedy is_dot room_org strip_prefix room_docid room_branch
    decode_groups text_eq decode_components uri_decode decode_uri_component hex_digit
key_is_live = refl

idle-OneTask : OneTask p (is_room_key p) idle_server.view
idle-OneTask = record {
  leased = record { delivered = refl; pending = λ t. refl };
  counted = λ k h. refl;
}

-- A room with one message and its task.
abbrev busy : Memory
busy = add_message p server key (codes "x") idle_server

add_message-OneTask_example :
    OneTask p (is_room_key p) (server.view (add_message p server key (codes "x") idle_server))
add_message-OneTask_example =
    add_message-OneTask p server (is_room_key p) (worker-not_room p) key (codes "x") idle_server
      key_is_live idle-OneTask

abbrev task : Text
task = clock_text 1000000 0

busy-Owns : Owns key task ((server.view busy).stream (worker_stream_name p))
unfolding add_message text_eq
busy-Owns = (λ e. refl, tt)

trims : (trim_messages p server key (clock_text 1000000 0) 60000 task busy).0 ≡ true
unfolding trim_messages trim_stream trim_id add_message text_eq clock_text decimal minid_ts
    leading_digits is_digit digits_value
trims = refl

trim_messages-OneTask_example :
    OneTask p
      (is_room_key p)
      (server.view (trim_messages p server key (clock_text 1000000 0) 60000 task busy).1)
trim_messages-OneTask_example =
    trim_messages-OneTask p server (is_room_key p) (worker-not_room p) key (clock_text 1000000 0)
      60000 task busy key_is_live busy-Owns add_message-OneTask_example trims

-- Compaction of every room is disabled.
abbrev off_server : Memory
off_server = record { view = record empty_view { is_member = λ set k. true }; seconds = 1000 }

off-OneTask : OneTask p (is_room_key p) off_server.view
off-OneTask = record {
  leased = record { delivered = refl; pending = λ t. refl };
  counted = λ k h. refl;
}

abbrev paused : Memory
paused = add_message p server key (codes "x") off_server

paused-OneTask : OneTask p (is_room_key p) (server.view paused)
paused-OneTask =
    add_message-OneTask p server (is_room_key p) (worker-not_room p) key (codes "x") off_server
      key_is_live off-OneTask

enable_compaction-OneTask_example :
    OneTask p (is_room_key p) (server.view (enable_compaction p server key paused))
enable_compaction-OneTask_example =
    enable_compaction-OneTask p server (is_room_key p) (worker-not_room p) key paused key_is_live
      paused-OneTask

enabled_task : tasks_of p key (server.view (enable_compaction p server key paused)) ≡ 1
unfolding enable_compaction add_message enqueue text_eq
enabled_task = refl

abbrev quar : Text
quar = codes "p:quarantine_room:a:b:main:q1"

quarantine-OneTask_example :
    OneTask p (is_room_key p) (server.view (quarantine p server key quar busy).1)
quarantine-OneTask_example =
    quarantine-OneTask p server (is_room_key p) (worker-not_room p) key quar busy key_is_live
      (quarantine-not_room p (codes "a:b:main:q1")).0
      (quarantine-not_room p (codes "a:b:main:q1")).1 add_message-OneTask_example

trimmed_below : trim_id 1000 (clock_text 900000 7) 60000 ≡ some (clock_text 900000 8)
unfolding trim_id clock_text decimal minid_ts inc_stream_id inc_digits leading_digits after_digits
    is_digit digits_value
trimmed_below = refl

task_is_pending : has task (server.view busy).pending ≡ true
unfolding add_message enqueue text_eq
task_is_pending = ground (arith, text_eq_refl task)

past :
    900000 + 60000
    < server.seconds (acknowledged p server (is_room_key p) (worker-not_room p) task busy) * 1000
unfolding add_message enqueue
past = omega arith

trim_id-exact_example : is_smaller_redis_clock (clock_text 900000 7) (clock_text 900000 8) ≡ (
    not (is_smaller_redis_clock (clock_text 900000 7) (clock_text 900000 7))
    && ltb (900000 + 60000) (1000 * 1000))
trim_id-exact_example =
    trim_id-exact 1000 900000 7 60000 (clock_text 900000 8) 900000 7 trimmed_below

trim_messages-inline_clock_example :
    ((trim_messages p server key (inline_clock 900000) 60000 task busy).0 ≡ false)
    × (tasks_of p key
          (server.view (trim_messages p server key (inline_clock 900000) 60000 task busy).1)
        ≡ 0)
    × (due p key (server.view (trim_messages p server key (inline_clock 900000) 60000 task busy).1)
        ≡ true)
    × ((server.view (trim_messages p server key (inline_clock 900000) 60000 task busy).1).stream key
        ≡ (server.view busy).stream key)
trim_messages-inline_clock_example =
    trim_messages-inline_clock p server (is_room_key p) (worker-not_room p) key 900000 60000 task
      busy key_is_live busy-Owns add_message-OneTask_example task_is_pending past
