-- ===== src/Cache/Hits.antt =====
-- src/stream.js: a response that was given is given again.
use yhub.Base.{Option}
use yhub.Room.{Room}
