-- ===== src/Protocol.antt =====
-- src/protocol.js: the messages between the server and a client. The variable-length numbers and
-- arrays of lib0 are a parameter, with the law that reading undoes writing.
use yhub.Base.{ℕ, suc, Option, some, ◌++◌, Text, codes, ◌≡◌}
use yhub.Message.{Bytes}

-- lib0/encoding and lib0/decoding. A reader gives what it read and the rest; none where it throws.
pub record Varints : Type 0 where
  pub write_var_uint : ℕ → Bytes
  pub write_var_uint8_array : Bytes → Bytes
  pub write_var_string : Text → Bytes
  pub read_var_uint : Bytes → Option (ℕ × Bytes)
  pub read_var_uint8_array : Bytes → Option (Bytes × Bytes)
  pub read_write_var_uint :
      (n : ℕ) (rest : Bytes) → read_var_uint (write_var_uint n ++ rest) ≡ some (n, rest)
  pub read_write_var_uint8_array :
      (b rest : Bytes) → read_var_uint8_array (write_var_uint8_array b ++ rest) ≡ some (b, rest)

abbrev pub message_sync : ℕ
message_sync = 0

abbrev pub message_awareness : ℕ
message_awareness = 1

abbrev pub message_sync_step1 : ℕ
message_sync_step1 = 0

abbrev pub message_sync_step2 : ℕ
message_sync_step2 = 1

abbrev pub message_sync_update : ℕ
message_sync_update = 2

module _ (v : Varints) where
  open v use {write_var_uint, write_var_uint8_array, write_var_string}

  -- A message of the sync protocol.
  abbrev pub encode_sync : ℕ → Bytes → Bytes
  encode_sync kind body =
      write_var_uint message_sync ++ (write_var_uint kind ++ write_var_uint8_array body)

  unfoldable pub encode_sync_step1 : Bytes → Bytes
  encode_sync_step1 sv = encode_sync message_sync_step1 sv

  unfoldable pub encode_sync_step2 : Bytes → Bytes
  encode_sync_step2 diff = encode_sync message_sync_step2 diff

  unfoldable pub encode_sync_update : Bytes → Bytes
  encode_sync_update update = encode_sync message_sync_update update

  unfoldable pub write_awareness_update : Bytes → Bytes
  write_awareness_update update = write_var_uint message_awareness ++ write_var_uint8_array update

  -- One change: the client's state is `null`, at the clock behind its last one.
  unfoldable pub encode_awareness_user_disconnected : ℕ → ℕ → Bytes
  encode_awareness_user_disconnected clientid last_clock =
      write_var_uint 1
      ++ (write_var_uint clientid
          ++ (write_var_uint (suc last_clock) ++ write_var_string (codes "null")))
