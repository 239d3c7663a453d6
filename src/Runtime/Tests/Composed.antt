-- ===== src/Runtime/Tests/Composed.antt =====
-- Turns of the tasks of crates/rustern-core/src/runtime/mux_forward_core.rs.
use rustern.Common.{
  true, ◌<◌, ◌≡◌, refl, is_some, arith, false, ◌||◌, List, [], ◌∷◌, ◌++◌, none, some, codes, err,
  any, All,
}
use rustern.Source.{LogSourceError, LogEvent}
use rustern.Pipeline.Meaning.{exit_condition}
use rustern.Pipeline.Stages.{Row, Parsed}
use rustern.Pipeline.Tests.{crates, line_of, stages}
use rustern.Runtime.Config.{RuntimeFwdConfig}
use rustern.Runtime.Mux
use rustern.Runtime.Forward
use rustern.Runtime.Stats.{u64_values}
use rustern.Runtime.Forward.Offered.{had_errors, is_api, api_count}
use rustern.Runtime.Core.{Turn, cancel, multiplex, forward, MuxForwardCore, spawn, run_core}
use rustern.Runtime.Core.Order.{inputs}
use rustern.Runtime.Core.Lossless.{Takes, Lossless, run_core-Lossless}
use rustern.Runtime.Core.Stopped.{Stopped, is_multiplex, is_forward, run_core-Stopped}
use rustern.Runtime.Run.{pipe_ended, ended, pipe_join_err, limit_hit, run_end, exit_code}
use rustern.Runtime.Run.Ending.{code}
use rustern.Runtime.Run.Process.{exit_code-core}
use rustern.Runtime.Tests.Streams.{app}

abbrev waiting : RuntimeFwdConfig
waiting = record {
  buffer_size = 0;
  lossy = false;
  stats = some (record { interval = 5 });
  max_log_requests = 4;
}

-- Two lines, one of them excluded, and an error; the token is cancelled while the last line waits.
abbrev turns : List (Turn (Parsed crates))
turns =
    multiplex (Mux.add app)
    ∷ multiplex (Mux.row app (line_of (codes "{}")) Mux.accepted)
    ∷ forward 2 Forward.accepted
    ∷ multiplex (Mux.row app (line_of (codes "plain")) Mux.accepted)
    ∷ multiplex (Mux.row app (err (LogSourceError.api (codes "gone"))) Mux.accepted)
    ∷ forward 2 Forward.accepted
    ∷ multiplex (Mux.row app (line_of (codes "late")) Mux.accepted)
    ∷ cancel
    ∷ forward 1 Forward.accepted
    ∷ []

abbrev composed : MuxForwardCore crates
composed = run_core crates waiting stages turns (spawn crates waiting none)

All-taken : All Takes turns
All-taken = (tt, (tt, (refl, (tt, (tt, (refl, (tt, (tt, (refl, tt)))))))))

run_core-Lossless_example :
    ((rest : List (Row crates)) × (composed.pulled ++ composed.mux.sent ++ rest
        ≡ Mux.taken (inputs turns)))
    × ((lost : List (LogEvent (Parsed crates))) × Lossless crates stages composed lost)
run_core-Lossless_example = run_core-Lossless crates stages waiting none turns refl All-taken

one_error : api_count (Mux.taken (inputs turns)) < u64_values
unfolding api_count is_api Mux.taken inputs
one_error = omega arith

exit_code-core_example :
    exit_code
      (run_end {K = Unit {0}} {J = Unit {0}}
        (pipe_ended none)
        (ended none)
        composed.exit_watch.triggered
        (had_errors composed.forwarder.source_stats))
      1
    ≡ code
        (is_some (pipe_join_err (pipe_ended none) (ended none))
          || limit_hit (pipe_ended none)
          || any (exit_condition crates stages) composed.pulled)
        (any is_api composed.pulled)
        1
exit_code-core_example =
    exit_code-core crates (Unit {0}) (Unit {0}) waiting stages turns (pipe_ended none) (ended none)
      1 one_error

-- The core with a row in its channel that no task has polled for, when the token is cancelled.
abbrev stopping : MuxForwardCore crates
stopping = record (spawn crates waiting none) {
  mux = record {
    streams = app ∷ [];
    sent = line_of (codes "late") ∷ [];
    mux_dropped = 0;
    stats = none;
  };
  exit_watch = record { triggered = false; cancelled = true };
}

run_core-Stopped_example :
    Stopped crates stopping
      (run_core crates waiting stages turns stopping)
      (any is_multiplex turns)
      (any is_forward turns)
run_core-Stopped_example = run_core-Stopped crates waiting stages turns stopping refl
