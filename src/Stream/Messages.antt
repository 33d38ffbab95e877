-- ===== src/Stream/Messages.antt =====
-- src/stream.js: `getMessages` of one room from the clock '0' on.
use yhub.Base.{List, [], ◌∷◌, Text}
use yhub.Message.{Message, AnyCodec}
use yhub.Redis.{Entry, m, nop, compact}
use yhub.Clock.{zero_clock}

-- A message with the `redisClock` of its entry.
pub record Stamped : Type 0 where
  pub message : Message
  pub redis_clock : Text

-- What is read of a stream.
pub record Reading : Type 0 where
  pub messages : List Stamped
  pub last_clock : Text

module _ (codec : AnyCodec) where
  -- Entries without a message are passed over.
  unfoldable pub decode_entry : Entry → List Stamped → List Stamped
  decode_entry e rest = elim e.payload [
    | m bytes ↦ record { message = codec.decode_any bytes; redis_clock = e.id } ∷ rest
    | nop ↦ rest
    | compact key ↦ rest
  ]

  unfoldable pub decode_entries : List Entry → List Stamped
  unfolding decode_entry
  decode_entries [] = []
  decode_entries (e ∷ es) = decode_entry e (decode_entries es)

  unfoldable pub last_id : Text → List Entry → Text
  last_id d [] = d
  last_id d (e ∷ es) = last_id e.id es

  -- A stream without entries, or no stream, is not in the reply, for which the callers put the clock
  -- '0'.
  unfoldable pub get_messages : List Entry → Reading
  unfolding decode_entries last_id
  get_messages es = record { messages = decode_entries es; last_clock = last_id zero_clock es }
