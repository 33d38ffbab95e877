-- ===== src/Tests/Hubs.antt =====
-- Tasks and deletions of src/index.js on a server in memory, with sets of content ids as lists.
use yhub.Base.{
  ℕ, true, false, none, some, List, [], ◌∷◌, ◌++◌, Text, codes, ◌≡◌, refl, map, text_eq,
}
use yhub.Clock.{clock_text}
use yhub.Clock.Order.{IsClock}
use yhub.Clock.Printed.{clock_text-IsClock}
use yhub.Message.{ydoc_update, AnyCodec}
use yhub.Room.{Room, room_eq}
use yhub.Naming.{encode_room_name, encode_components}
use yhub.Uri.{uri_encode, encode_uri_component, encode_char, escape_extra}
use yhub.Redis.{Redis}
use yhub.Redis.Memory.{Memory, memory, empty_view}
use yhub.Stream.{worker_stream_name, add_message}
use yhub.Stream.Messages.{get_messages}
use yhub.Assets.{Asset, ydoc, contentmap, contentids}
use yhub.Persistence.{
  Column, Row, Tables, Tombstone, versions, hard_deleted, retrieve_tombstone, store_tombstone,
}
use yhub.Persistence.Latest.{AllClocks, clocks}
use yhub.Yjs.{Yjs}
use yhub.Hub.{run_task, delete_doc, restore_doc, read_stream, is_hard}
use yhub.Hub.Progress.{Progress}
use yhub.Hub.Tasks.{run_task-Progress, run_task-hard}
use yhub.Hub.Deletion.{restore_doc-delete_doc, restore_doc-hard}

abbrev p : Text
p = codes "p"

abbrev server : Redis (worker_stream_name p)
server = memory (worker_stream_name p)

-- Every message is an update.
abbrev updates : AnyCodec
updates = record { encode_any = λ msg. []; decode_any = λ b. ydoc_update b b }

abbrev joined : List (List ℕ) → List ℕ
joined [] = []
joined (x ∷ xs) = x ++ joined xs

abbrev lists : Yjs
lists = record {
  IdSet = List ℕ;
  IdMap = List ℕ;
  decode_content_ids = λ b. (b, []);
  encode_content_ids = λ c. c.0;
  decode_content_map = λ b. (b, []);
  encode_content_map = λ c. c.0;
  merge_content_ids = λ cs. (joined (map (λ c. c.0) cs), []);
  merge_content_maps = λ cs. (joined (map (λ c. c.0) cs), []);
  exclude_content_map = λ c ids. c;
  content_ids_from_content_map = λ c. c;
  insert_into_id_set = λ a b. a ++ b;
  decode_id_set = λ b. b;
  encode_id_set = λ s. s;
  merge_id_sets = joined;
  diff_id_set = λ a b. a;
  diff_id_map = λ a b. a;
  merge_awareness_updates = joined;
  merge_updates = λ gc us prune. some (joined us);
}

abbrev room : Room
room = record { org = codes "o"; docid = codes "d"; branch = codes "b" }

abbrev key : Text
key = codes "p:room:o:d:b"

has_name : encode_room_name room p ≡ some key
unfolding encode_room_name encode_components uri_encode encode_uri_component escape_extra
    encode_char
has_name = refl

abbrev inlined : Asset → Column
inlined a = record { asset = a; is_ref = false }

abbrev version : Row
version = record {
  room = room;
  t = clock_text 5 0;
  created = some 5;
  gc_doc = inlined (ydoc (1 ∷ []));
  nongc_doc = inlined (ydoc (1 ∷ []));
  contentmap = inlined (contentmap []);
  contentids = inlined (contentids []);
}

abbrev tables : Tables
tables = record { docs = version ∷ []; tombstones = [] }

abbrev busy : Memory
busy = add_message p server key (codes "x") (record { view = empty_view; seconds = 1000 })

abbrev State : Type 0
State = Memory × (Unit × Tables)

abbrev state : State
state = (busy, (tt, tables))

abbrev task : Text
task = clock_text 1000000 0

has_version : versions room tables.docs ≡ version ∷ []
unfolding room_eq text_eq
has_version = refl

all_clocks : AllClocks (clocks (versions room tables.docs))
unfolding room_eq text_eq
all_clocks = (clock_text-IsClock 5 0, tt)

stream-IsClock :
    IsClock (read_stream {W = Unit} p server updates lists [] 60000 key busy).last_clock
unfolding add_message text_eq get_messages
stream-IsClock = clock_text-IsClock 1000000 0

is_alive : hard_deleted room tables.tombstones ≡ false
unfolding hard_deleted
is_alive = refl

run_task-Progress_example :
    Progress room tables
      (run_task p server updates lists [] 60000 room task (λ s. s) (λ s. s) state).1.1.1
run_task-Progress_example =
    run_task-Progress p server updates lists [] 60000 room key task (λ s. s) (λ s. s) state has_name
      (λ s. refl) (λ s. refl) all_clocks is_alive stream-IsClock

abbrev erased : Tables
erased = store_tombstone room 9 true none tables

is_erased : is_hard (retrieve_tombstone room erased) ≡ true
unfolding is_hard retrieve_tombstone store_tombstone room_eq text_eq
is_erased = refl

run_task-hard_example :
    (run_task p server updates lists [] 60000 room task (λ s. s) (λ s. s) (busy, (tt, erased))).1.1
    ≡ (tt, erased)
run_task-hard_example =
    run_task-hard p server updates lists [] 60000 room task (λ s. s) (λ s. s) (busy, (tt, erased))
      is_erased

not_deleted : retrieve_tombstone room tables ≡ none
unfolding retrieve_tombstone
not_deleted = refl

restore_doc-delete_doc_example :
    ((restore_doc p server updates lists [] 60000 room
        (delete_doc p server updates lists [] 60000 room false none 9 10 [] [] state).1).0
      ≡ true)
    × ((restore_doc p server updates lists [] 60000 room
          (delete_doc p server updates lists [] 60000 room false none 9 10 [] [] state).1).1.1
        ≡ state.1)
restore_doc-delete_doc_example =
    restore_doc-delete_doc p server updates lists [] 60000 room key none 9 10 [] [] state has_name
      not_deleted

restore_doc-hard_example :
    (versions room
        (delete_doc p server updates lists [] 60000 room true none 9 10 [] [] state).1.1.1.docs
      ≡ [])
    × ((d : Tombstone) × (retrieve_tombstone room
            (delete_doc p server updates lists [] 60000 room true none 9 10 [] [] state).1.1.1
          ≡ some d)
        × (d.hard ≡ true)
        × (d.purged_at ≡ some 10))
    × (restore_doc p server updates lists [] 60000 room
          (delete_doc p server updates lists [] 60000 room true none 9 10 [] [] state).1
        ≡ (false, (delete_doc p server updates lists [] 60000 room true none 9 10 [] [] state).1))
restore_doc-hard_example =
    restore_doc-hard p server updates lists [] 60000 room key none 9 10 [] [] state has_name
