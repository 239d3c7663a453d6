-- ===== src/Runtime/CursorStore.antt =====
-- crates/rustern-core/src/runtime/cursor_store.rs: the last timestamp of each stream, and the
-- request that reopens a stream.
use rustern.Common.{
  ℕ, ◌-◌, ◌≡◌, refl, ◌∙◌, ap, Bool, List, [], ◌∷◌, Option, none, some, ◌==◌, ltb, if◌then◌else◌,
}
use mathlib.Core.Option
use rustern.Source.{SourceKey, key_eq}
use rustern.Source.PodLog.{PodLogRequest}
use rustern.Runtime.Shards.{Shards, IsSharded, get, insert, remove, get-insert, insert-IsSharded}

pub record CursorUpdate : Type 0 where
  pub key : SourceKey
  pub timestamp : ℕ

abbrev pub ReconnectCursorStore : Type 0
ReconnectCursorStore = Shards SourceKey ℕ

abbrev pub new : ReconnectCursorStore
new = [] ∷ [] ∷ [] ∷ [] ∷ [] ∷ [] ∷ [] ∷ [] ∷ [] ∷ [] ∷ [] ∷ [] ∷ [] ∷ [] ∷ [] ∷ [] ∷ []

-- What the `select!` of the processor takes next: the cancelled token comes first, then the channel.
pub data ProcessorEvent : Type 0 where
  cancelled closed : ProcessorEvent
  update : CursorUpdate → ProcessorEvent

-- The timestamp of the last update of a key before the processor stops.
unfoldable pub last_update : SourceKey → List ProcessorEvent → Option ℕ → Option ℕ
last_update key [] last = last
last_update key (cancelled ∷ events) last = last
last_update key (closed ∷ events) last = last
last_update key (update u ∷ events) last =
    last_update key events (if u.key == key then some u.timestamp else last)

module _ (hash : SourceKey → ℕ) where
  -- `ReconnectCursorStore::get`, `record` and `remove`.
  unfoldable pub get_cursor : SourceKey → ReconnectCursorStore → Option ℕ
  get_cursor key store = get hash key store

  unfoldable pub record_cursor : SourceKey → ℕ → ReconnectCursorStore → ReconnectCursorStore
  record_cursor key timestamp store = insert hash key timestamp store

  unfoldable pub remove_cursor : SourceKey → ReconnectCursorStore → ReconnectCursorStore
  remove_cursor key store = remove hash key store

  unfoldable pub run_cursor_update_processor :
      List ProcessorEvent → ReconnectCursorStore → ReconnectCursorStore
  run_cursor_update_processor [] store = store
  run_cursor_update_processor (cancelled ∷ events) store = store
  run_cursor_update_processor (closed ∷ events) store = store
  run_cursor_update_processor (update u ∷ events) store =
      run_cursor_update_processor events (record_cursor u.key u.timestamp store)

  -- After the processor has stopped, each key has the timestamp of its last update, or the one that
  -- it had before, and the store is intact.
  pub get_cursor-processor :
      (events : List ProcessorEvent) (store : ReconnectCursorStore) (key : SourceKey)
      → IsSharded store
      → (get_cursor key (run_cursor_update_processor events store)
          ≡ last_update key events (get_cursor key store))
        × IsSharded (run_cursor_update_processor events store)
  unfolding run_cursor_update_processor last_update get_cursor record_cursor
  get_cursor-processor [] store key h = (refl, h)
  get_cursor-processor (cancelled ∷ events) store key h = (refl, h)
  get_cursor-processor (closed ∷ events) store key h = (refl, h)
  get_cursor-processor (update u ∷ events) store key h =
      let kept = insert-IsSharded hash u.key u.timestamp store h in
      let (rest, sharded) =
        get_cursor-processor events (insert hash u.key u.timestamp store) key kept in
      (rest ∙ ap (last_update key events) (get-insert hash u.key key u.timestamp store h), sharded)

-- Nanoseconds in the overlap of one second.
abbrev pub cursor_reconnect_overlap : ℕ
cursor_reconnect_overlap = 1_000_000_000

-- `checked_sub_signed`: no instant stands before the earliest one.
unfoldable pub checked_sub_signed : ℕ → ℕ → Option ℕ
checked_sub_signed t d = if ltb t d then none else some (t - d)

module _ {T : Type 0} (to_timestamp : ℕ → Option T) where
  -- `to_timestamp` prints an instant of chrono and parses it as the timestamp type of the API.
  unfoldable pub overlap_since_time : ℕ → Option T
  unfolding checked_sub_signed
  overlap_since_time last_timestamp =
      to_timestamp
        (Option.get_or (checked_sub_signed last_timestamp cursor_reconnect_overlap) last_timestamp)

  resume_at : PodLogRequest T → Option T → PodLogRequest T
  resume_at base none = base
  resume_at base (some since_time) = record base {
    tail = none;
    since_seconds = none;
    since_time = some since_time;
  }

  unfoldable pub pod_log_request_for_reopen_with_overlap :
      PodLogRequest T → Option ℕ → Bool → (ℕ → Option T) → PodLogRequest T
  unfolding resume_at
  pod_log_request_for_reopen_with_overlap base last_timestamp reopen overlap =
      if reopen then resume_at base (Option.bind last_timestamp overlap) else base

  unfoldable pub pod_log_request_for_reopen : PodLogRequest T → Option ℕ → Bool → PodLogRequest T
  unfolding pod_log_request_for_reopen_with_overlap overlap_since_time
  pod_log_request_for_reopen base last_timestamp reopen =
      pod_log_request_for_reopen_with_overlap base last_timestamp reopen overlap_since_time
