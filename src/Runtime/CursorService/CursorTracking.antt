-- ===== src/Runtime/CursorService/CursorTracking.antt =====
-- crates/rustern-core/src/runtime/cursor_service.rs: the stream that reports its lines and its end.
-- `done_tx` and `sent` are as in `EndNotifyingStream`.
use rustern.Common.{ℕ, Bool, false, List, [], ◌∷◌, ◌++◌, Option, some, if◌then◌else◌, ok, err}
use rustern.Source.{SourceKey, Item}
use rustern.Runtime.CursorStore.{CursorUpdate}
use rustern.Runtime.StreamEnd.{StreamEnd, eof, cancelled, Poll, item, finished, pending}

pub record CursorTrackingStream : Type 0 where
  pub key : SourceKey
  pub last_line_ts : Option ℕ
  pub done_tx : Bool
  pub sent : List StreamEnd
  pub updates : List CursorUpdate

unfoldable pub finish : StreamEnd → CursorTrackingStream → CursorTrackingStream
finish reason s = if s.done_tx then record s { done_tx = false; sent = reason ∷ s.sent } else s

unfoldable pub reason : Bool → CursorTrackingStream → StreamEnd
reason is_cancelled s = if is_cancelled then cancelled else eof s.last_line_ts

unfoldable pub poll_next :
    {J : Type 0} → Bool → Poll (Item J) → CursorTrackingStream → CursorTrackingStream
unfolding finish reason
poll_next is_cancelled (item (ok event)) s = record s {
  last_line_ts = some event.timestamp;
  updates = s.updates ++ (record { key = s.key; timestamp = event.timestamp } ∷ []);
}
poll_next is_cancelled (item (err e)) s = s
poll_next is_cancelled finished s = finish (reason is_cancelled s) s
poll_next is_cancelled pending s = s

unfoldable pub drop : Bool → CursorTrackingStream → CursorTrackingStream
unfolding finish reason
drop is_cancelled s = finish (reason is_cancelled s) s
