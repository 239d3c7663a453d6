-- ===== src/Runtime/Attach.antt =====
-- crates/rustern-core/src/runtime/attach.rs: the task that opens the log of one stream, and reopens it.
pub mod Limits
use rustern.Common.{
  ℕ, suc, ◌+◌, ◌≡◌, Bool, true, false, not, ◌&&◌, ◌||◌, List, [], ◌∷◌, ◌++◌, Option, none, some,
  if◌then◌else◌, ltb, leb, Text,
}
use rustern.Source.{SourceKey, SourceKind, SourceMeta}
use rustern.Source.PodLog.{PodLogRequest}
use rustern.Source.PodMeta.{PodLocator, PodMetaSnapshot}
use rustern.Pipeline.External.{External}
use rustern.Pipeline.Stages.{ColorAssignOpts, apply_palette_to_meta}
use rustern.Runtime.CursorStore.{ReconnectCursorStore}
use rustern.Runtime.StreamEnd.{StreamEnd, eof, cancelled}
use rustern.Runtime.CursorService.{CursorService, reopen_request, should_reconnect}
use rustern.Runtime.PodMetaCache.{PodMetaCache, lookup_meta}

abbrev pub max_reopen_start_retries : ℕ
max_reopen_start_retries = 5

-- What one turn of the loop meets, in the order in which the code asks for it; `stores i` is the cursor
-- store when the request has yielded `i` times.
pub record Turn : Type 0 where
  pub is_cancelled : Bool
  pub service : CursorService
  pub stores : ℕ → ReconnectCursorStore
  pub permit : Bool
  pub opened : Bool
  pub mux_open : Bool
  pub ended : Option StreamEnd
  pub is_cancelled_late : Bool
  pub slept : Bool

-- The variables of the loop, and what the task has done: the requests that it opened, the streams
-- that it gave to the multiplexer, the attempts that it has waited for, and whether it told of the
-- limit and cancelled the run.
pub record AttachTask (T : Type 0) : Type 0 where
  pub reopen : Bool
  pub reopen_start_failures : ℕ
  pub flush_target : Option ℕ
  pub opens : List (PodLogRequest T)
  pub added : ℕ
  pub waits : List ℕ
  pub limit_notified : Bool
  pub root_cancelled : Bool

pub data Flow (S : Type 0) : Type 0 where
  return continue : S → Flow S

abbrev pub start_task : {T : Type 0} → AttachTask T
start_task = record {
  reopen = false;
  reopen_start_failures = 0;
  flush_target = none;
  opens = [];
  added = 0;
  waits = [];
  limit_notified = false;
  root_cancelled = false;
}

module _ {T : Type 0} where
  -- `done_rx.await`.
  on_end : Bool → Option StreamEnd → AttachTask T → Flow (AttachTask T)
  on_end reconnect none s = return s
  on_end reconnect (some cancelled) s = return s
  on_end reconnect (some (eof last_line_ts)) s =
      if reconnect
      then continue (record s { flush_target = last_line_ts; reopen = true })
      else return s

  on_opened : Bool → Turn → AttachTask T → Flow (AttachTask T)
  unfolding on_end
  on_opened reconnect t s =
      if t.mux_open
      then on_end reconnect t.ended (record s { reopen_start_failures = 0; added = suc s.added })
      else return (record s { reopen_start_failures = 0 })

  on_open_error : Bool → Turn → AttachTask T → Flow (AttachTask T)
  on_open_error reconnect t s =
      if s.reopen
        && reconnect
        && not t.is_cancelled_late
        && ltb s.reopen_start_failures max_reopen_start_retries
      then (let waited = record s {
        reopen_start_failures = suc s.reopen_start_failures;
        waits = s.waits ++ (s.reopen_start_failures ∷ []);
      } in
          if t.slept then continue waited else return waited)
      else return s

  on_limit : Bool → Bool → AttachTask T → AttachTask T
  on_limit follow has_notifier s =
      if follow then record s { limit_notified = has_notifier; root_cancelled = true } else s

  proceed : (AttachTask T → AttachTask T) → Flow (AttachTask T) → AttachTask T
  proceed rest (return s) = s
  proceed rest (continue s) = rest s

module _ (hash : SourceKey → ℕ) {T : Type 0} (to_timestamp : ℕ → Option T) where
  -- `has_notifier` is whether there is a `follow_limit_notifier`.
  unfoldable pub attach_turn :
      SourceKey → PodLogRequest T → Bool → Turn → AttachTask T → Flow (AttachTask T)
  unfolding on_opened on_open_error on_limit reopen_request should_reconnect
  attach_turn key pod_log has_notifier t s =
      let request =
        reopen_request hash to_timestamp t.stores key pod_log s.reopen s.flush_target
          t.service.enabled in
      let asked = record s { flush_target = none } in
      let tried = record s { flush_target = none; opens = s.opens ++ (request ∷ []) } in
      if t.is_cancelled
      then return s
      else if not t.permit
      then return (on_limit pod_log.follow has_notifier asked)
      else if t.opened
      then on_opened (should_reconnect t.service) t tried
      else on_open_error (should_reconnect t.service) t tried

  -- The loop over the turns that come; after the last one the task still waits.
  unfoldable pub attach_pod_log_stream :
      SourceKey → PodLogRequest T → Bool → List Turn → AttachTask T → AttachTask T
  unfolding attach_turn proceed
  attach_pod_log_stream key pod_log has_notifier [] s = s
  attach_pod_log_stream key pod_log has_notifier (t ∷ ts) s =
      proceed (λ s'. attach_pod_log_stream key pod_log has_notifier ts s')
        (attach_turn key pod_log has_notifier t s)

-- The metadata of the stream that is attached.
unfoldable pub source_meta_for_key :
    (x : External) (hash : PodLocator → ℕ) (same : PodMetaSnapshot → PodMetaSnapshot → Bool)
    → Text
    → PodMetaCache
    → SourceKey
    → ColorAssignOpts
    → SourceMeta
unfolding lookup_meta apply_palette_to_meta
source_meta_for_key x hash same context cache key color_opts =
    let snap = lookup_meta hash same key cache in
    apply_palette_to_meta x
      (record {
        context = context;
        namespace = key.namespace;
        pod = key.pod;
        container = key.container;
        kind = SourceKind.pod_log;
        node = snap.node;
        labels = snap.labels;
        uid = key.uid;
        palette_index = none;
        container_palette_index = none;
      })
      color_opts

-- `Semaphore::new(max.max(1))`.
unfoldable pub log_request_permits : ℕ → ℕ
log_request_permits max = if leb 1 max then max else 1
