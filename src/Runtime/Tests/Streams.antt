-- ===== src/Runtime/Tests/Streams.antt =====
-- Polls, updates, turns and rows to run the streams of crates/rustern-core/src/runtime on.
use rustern.Common.{
  ℕ, ◌+◌, ◌%◌, ◌≤◌, ◌≡◌, refl, Bool, true, false, List, [], ◌∷◌, ◌++◌, none, some, arith, codes,
  length, if◌then◌else◌, ok, err, map,
}
use rustern.Source.{SourceKey, SourceKind, LogEvent, LogSourceError, Item}
use rustern.Source.PodLog.{PodLogRequest}
use rustern.Discovery.Tests.{web_key}
use rustern.Runtime.Shards.{IsSharded}
use rustern.Runtime.StreamEnd.{StreamEnd, item, finished, pending}
use rustern.Runtime.CursorStore.{
  new, ProcessorEvent, get_cursor, run_cursor_update_processor, last_update, get_cursor-processor,
}
use rustern.Runtime.CursorService.{wait_cursor_flushed}
use rustern.Runtime.CursorService.Lifetime.{
  Polls, track_life, end_token, last_line, tracked, track_life-sent, track_life-flushed,
}
use rustern.Runtime.Stats.{RunStats, u64_values}
use rustern.Runtime.Forward
use rustern.Runtime.Forward.{Forwarder, ForwardInput, forward_to_render, Counted}
use rustern.Runtime.Forward.Counts.{forward-Counted}
use rustern.Runtime.Mux
use rustern.Runtime.Mux.{Mux, MuxInput, mux_multiplex_loop, mux_drop_count}
use rustern.Runtime.Mux.Drops.{mux-conservation}
use rustern.Runtime.Attach.{Turn, AttachTask, start_task, attach_pod_log_stream}
use rustern.Runtime.Attach.Limits.{attach-failures}

abbrev pub app : SourceKey
app = web_key (codes "app")

abbrev pub event_at : ℕ → LogEvent (Unit {0})
event_at t = record {
  source = record {
    context = codes "dev";
    namespace = codes "shop";
    pod = codes "web-0";
    container = codes "app";
    kind = SourceKind.pod_log;
    node = none;
    labels = [];
    uid = codes "u1";
    palette_index = none;
    container_palette_index = none;
  };
  timestamp = t;
  message = codes "hello";
  structured = none;
  level = none;
  palette_index = none;
  container_palette_index = none;
}

-- Two lines with a wait and an error between them, and the end.
abbrev polls : Polls (Item (Unit {0}))
polls =
    (false, item (ok (event_at 70)))
    ∷ (false, pending)
    ∷ (false, item (err LogSourceError.eof))
    ∷ (false, item (ok (event_at 90)))
    ∷ (false, finished)
    ∷ []

track_life-sent_example : (track_life polls true (tracked app none true [] [])).sent ≡ (
    (if end_token polls true then StreamEnd.cancelled else StreamEnd.eof (last_line polls none))
    ∷ [])
track_life-sent_example = track_life-sent polls true app

last_line_at_90 : last_line polls none ≡ some 90
unfolding last_line
last_line_at_90 = refl

track_life-flushed_example :
    (get_cursor
        (λ k. 3)
        app
        (run_cursor_update_processor
          (λ k. 3)
          (map ProcessorEvent.update (track_life polls true (tracked app none true [] [])).updates)
          new)
      ≡ some 90)
    × (wait_cursor_flushed
          (λ i.
            get_cursor
              (λ k. 3)
              app
              (run_cursor_update_processor
                (λ k. 3)
                (map ProcessorEvent.update
                  (track_life polls true (tracked app none true [] [])).updates)
                new))
          (some 90)
        ≡ true)
track_life-flushed_example =
    track_life-flushed (λ k. 3) polls true app 90 new refl refl last_line_at_90

abbrev three_updates : List ProcessorEvent
three_updates =
    ProcessorEvent.update (record { key = app; timestamp = 5 })
    ∷ ProcessorEvent.update (record { key = web_key (codes "proxy"); timestamp = 8 })
    ∷ ProcessorEvent.cancelled
    ∷ []

get_cursor-processor_example :
    (get_cursor (λ k. 3) app (run_cursor_update_processor (λ k. 3) three_updates new)
      ≡ last_update app three_updates (get_cursor (λ k. 3) app new))
    × IsSharded (run_cursor_update_processor (λ k. 3) three_updates new)
get_cursor-processor_example = get_cursor-processor (λ k. 3) three_updates new app refl

abbrev follow : PodLogRequest ℕ
follow = record {
  follow = true;
  tail = none;
  since_seconds = none;
  since_time = none;
  previous = false;
}

abbrev fresh_stats : RunStats
fresh_stats = record {
  active_streams = 0;
  forwarded_lines = 0;
  dropped_lines = 0;
  mux_dropped_lines = 0;
  source_errors = 0;
  lossy = true;
  mux_lossy = true;
}

abbrev forwarder : Forwarder (Unit {0})
forwarder = record {
  rendered = [];
  dropped_total = 0;
  stats = some fresh_stats;
  source_stats = some fresh_stats;
}

-- A line taken, a line refused, an error, and the end.
abbrev inputs : List (ForwardInput (Unit {0}))
inputs =
    Forward.line (event_at 1) Forward.accepted
    ∷ Forward.line (event_at 2) Forward.refused
    ∷ Forward.failed (LogSourceError.api (codes "gone"))
    ∷ Forward.finished
    ∷ []

forward-Counted_example :
    ((forward_to_render true inputs forwarder).rendered
      ≡ [] ++ Forward.accepted_lines (Forward.handled true inputs))
    × Counted
        (forward_to_render true inputs forwarder)
        (0 + length (Forward.accepted_lines (Forward.handled true inputs)))
        (0 + Forward.refused_lines (Forward.handled true inputs))
        (0 + Forward.refused_lines (Forward.handled true inputs))
        (0 + Forward.api_errors (Forward.handled true inputs))
forward-Counted_example =
    forward-Counted true inputs forwarder 0 0 0 0
      (record { of_forwarded = refl; of_dropped = refl; of_total = refl; of_errors = refl })

abbrev mux : Mux (Unit {0})
mux = record { streams = []; sent = []; mux_dropped = 0; stats = none }

abbrev mux_inputs : List (MuxInput (Unit {0}))
mux_inputs =
    Mux.add app
    ∷ Mux.row app (ok (event_at 1)) Mux.accepted
    ∷ Mux.row app (ok (event_at 2)) Mux.refused
    ∷ Mux.ended app
    ∷ []

mux-conservation_example :
    ((mux_multiplex_loop Mux.lossy mux_inputs mux).sent
      ≡ [] ++ Mux.taken (Mux.handled Mux.lossy mux_inputs))
    × (length (Mux.rows (Mux.handled Mux.lossy mux_inputs))
        ≡ length (Mux.taken (Mux.handled Mux.lossy mux_inputs))
          + Mux.refused_rows (Mux.handled Mux.lossy mux_inputs))
    × (mux_drop_count (mux_multiplex_loop Mux.lossy mux_inputs mux)
        ≡ (0 + Mux.refused_rows (Mux.handled Mux.lossy mux_inputs)) % u64_values)
mux-conservation_example =
    mux-conservation Mux.lossy mux_inputs mux 0 (unfold mux_drop_count in refl)

abbrev turn_with : Bool → Bool → Turn
turn_with reconnect opened = record {
  is_cancelled = false;
  service = record { store = new; enabled = reconnect };
  stores = λ i. new;
  permit = true;
  opened = opened;
  mux_open = true;
  ended = some (StreamEnd.eof none);
  is_cancelled_late = false;
  slept = true;
}

abbrev reopening : AttachTask ℕ
reopening = record start_task { reopen = true }

abbrev failing : List Turn
failing = turn_with true false ∷ turn_with true false ∷ turn_with true false ∷ []

attach-failures_example :
    length (attach_pod_log_stream (λ k. 3) (λ t. some t) app follow true failing reopening).opens
      + 0
    ≤ 0 + 6
attach-failures_example =
    attach-failures (λ k. 3) (λ t. some t) app follow true failing reopening
      (refl, (refl, (refl, tt))) (omega arith)
