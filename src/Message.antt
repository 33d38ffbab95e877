-- ===== src/Message.antt =====
-- `$message` of src/types.js, the messages of a room's stream, and their encoding by lib0, which is
-- a parameter.
use yhub.Base.{Bool, Option, List, Text}
use yhub.Json.{Json}

-- Binary data, byte by byte.
abbrev pub Bytes : Type 0
Bytes = Text

pub data Message : Type 0 where
  ydoc_update : (update contentmap : Bytes) → Message
  awareness : (update : Bytes) → Message
  prune : (prune : Bytes) → Message
  auth_check : (users : Option (List Json)) (force_disconnect : Bool) → Message
  tombstone : Message

-- `encodeAny` and `decodeAny` of lib0/buffer on messages.
pub record AnyCodec : Type 0 where
  pub encode_any : Message → Bytes
  pub decode_any : Bytes → Message
