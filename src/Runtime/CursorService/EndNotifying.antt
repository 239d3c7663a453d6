-- ===== src/Runtime/CursorService/EndNotifying.antt =====
-- crates/rustern-core/src/runtime/cursor_service.rs: the stream that reports its end.
use rustern.Common.{Bool, false, List, ◌∷◌, none, if◌then◌else◌}
use rustern.Runtime.StreamEnd.{StreamEnd, eof, cancelled, Poll, item, finished, pending}

-- `done_tx` is whether the sender is still there; `sent` is what it has sent, the last one first.
pub record EndNotifyingStream : Type 0 where
  pub done_tx : Bool
  pub sent : List StreamEnd

unfoldable pub finish : StreamEnd → EndNotifyingStream → EndNotifyingStream
finish reason s = if s.done_tx then record s { done_tx = false; sent = reason ∷ s.sent } else s

unfoldable pub reason : Bool → StreamEnd
reason is_cancelled = if is_cancelled then cancelled else eof none

-- What `poll_next` does to the stream, at what the inner stream answers: the answer is passed on.
unfoldable pub poll_next : {A : Type 0} → Bool → Poll A → EndNotifyingStream → EndNotifyingStream
unfolding finish reason
poll_next is_cancelled (item x) s = s
poll_next is_cancelled finished s = finish (reason is_cancelled) s
poll_next is_cancelled pending s = s

unfoldable pub drop : Bool → EndNotifyingStream → EndNotifyingStream
unfolding finish reason
drop is_cancelled s = finish (reason is_cancelled) s
