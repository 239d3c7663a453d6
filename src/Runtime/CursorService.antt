-- ===== src/Runtime/CursorService.antt =====
-- crates/rustern-core/src/runtime/cursor_service.rs: the streams that report their lines and their
-- end, and the request that reopens a stream.
pub mod EndNotifying
pub mod CursorTracking
pub mod Lifetime
use rustern.Common.{
  ℕ, zero, suc, ◌+◌, ◌≡◌, Bool, true, false, ◌&&◌, List, [], ◌∷◌, ◌++◌, Option, none, some,
  if◌then◌else◌, leb, Result, ok, err, is_some,
}
use rustern.Source.{SourceKey, LogEvent, LogSourceError, Item}
use rustern.Source.PodLog.{PodLogRequest}
use rustern.Runtime.CursorService.EndNotifying.{EndNotifyingStream}
use rustern.Runtime.CursorService.CursorTracking.{CursorTrackingStream}
use rustern.Runtime.CursorStore.{
  ReconnectCursorStore, CursorUpdate, get_cursor, remove_cursor, pod_log_request_for_reopen,
}

abbrev pub cursor_flush_retries : ℕ
cursor_flush_retries = 16

pub data TrackedStream : Type 0 where
  notifying : EndNotifyingStream → TrackedStream
  tracking : CursorTrackingStream → TrackedStream

-- The two stores of the service: whether it is enabled, and the cursors.
pub record CursorService : Type 0 where
  pub store : ReconnectCursorStore
  pub enabled : Bool

unfoldable pub should_reconnect : CursorService → Bool
should_reconnect service = service.enabled

unfoldable pub track : SourceKey → CursorService → TrackedStream
track key service =
    if service.enabled
    then tracking
        (record { key = key; last_line_ts = none; done_tx = true; sent = []; updates = [] })
    else notifying (record { done_tx = true; sent = [] })

reached : ℕ → Option ℕ → Bool
reached expected none = false
reached expected (some got) = leb expected got

-- The `for` with `n` turns left, at turn `i`; `read i` is what the store answers then.
flush_turns : (ℕ → Option ℕ) → ℕ → ℕ → ℕ → Bool
unfolding reached
flush_turns read expected i zero = false
flush_turns read expected i (suc n) =
    let rest = flush_turns read expected (suc i) n in
    if reached expected (read i) then true else rest

-- Whether the flush was confirmed; nothing is waited for without a target.
unfoldable pub wait_cursor_flushed : (ℕ → Option ℕ) → Option ℕ → Bool
unfolding flush_turns
wait_cursor_flushed read none = true
wait_cursor_flushed read (some expected) = flush_turns read expected 0 cursor_flush_retries

-- How often the wait yields with `n` turns left, at turn `i`.
flush_yields : (ℕ → Option ℕ) → ℕ → ℕ → ℕ → ℕ
unfolding reached
flush_yields read expected i zero = 0
flush_yields read expected i (suc n) =
    let rest = suc (flush_yields read expected (suc i) n) in
    if reached expected (read i) then 0 else rest

flush_waits : (ℕ → Option ℕ) → Option ℕ → ℕ
unfolding flush_yields
flush_waits read none = 0
flush_waits read (some expected) = flush_yields read expected 0 cursor_flush_retries

module _ (hash : SourceKey → ℕ) {T : Type 0} (to_timestamp : ℕ → Option T) where
  -- `stores i` is the store after the request has yielded `i` times: the processor runs meanwhile.
  unfoldable pub reopen_request :
      (ℕ → ReconnectCursorStore)
      → SourceKey
      → PodLogRequest T
      → Bool
      → Option ℕ
      → Bool
      → PodLogRequest T
  unfolding get_cursor pod_log_request_for_reopen flush_waits
  reopen_request stores key base reopen flush_target enabled =
      let waits = flush_waits (λ i. get_cursor hash key (stores i)) flush_target in
      let last = get_cursor hash key (stores (if reopen && enabled then waits else 0)) in
      pod_log_request_for_reopen to_timestamp base last (reopen && enabled)

unfoldable pub forget : (SourceKey → ℕ) → SourceKey → CursorService → CursorService
unfolding remove_cursor
forget hash key service = record service { store = remove_cursor hash key service.store }
