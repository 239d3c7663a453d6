-- ===== src/Runtime/StreamEnd.antt =====
-- crates/rustern-core/src/runtime/cursor_service.rs: why a stream has ended, and what a poll answers.
use rustern.Common.{ℕ, Option}

pub data StreamEnd : Type 0 where
  eof : Option ℕ → StreamEnd
  cancelled : StreamEnd

-- `Poll` of a stream.
pub data Poll (A : Type 0) : Type 0 where
  item : A → Poll A
  finished pending : Poll A
