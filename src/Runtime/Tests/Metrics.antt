-- ===== src/Runtime/Tests/Metrics.antt =====
-- Interleaved calls and turns to run the metrics of crates/rustern-core/src/runtime/forward.rs on.
use rustern.Common.{◌+◌, List, [], ◌∷◌, ◌≡◌, refl, true, false, some, arith}
use rustern.Runtime.Stats.{RunStats, with_mux_policy}
use rustern.Runtime.Tests.Streams.{event_at}
use rustern.Runtime.Forward.Reports
use rustern.Runtime.Forward.Reports.{Metrics, Reported, run-Reported}
use rustern.Runtime.Forward.Warnings.{
  Tasks, Act, enter, proceed, run, latest, IsSpaced, Throttled, run-Throttled,
}

abbrev no_drops : Tasks
no_drops = record { throttle = record { last_warn_ms = 0; warned = [] }; calls = []; ended = [] }

-- Two tasks see the same last warning; one warns, the other fails, looks again, and stays silent.
abbrev race : List Act
race = enter 6000 ∷ enter 6001 ∷ proceed 0 ∷ proceed 0 ∷ proceed 0 ∷ []

no_drops-Throttled : Throttled no_drops
unfolding latest IsSpaced
no_drops-Throttled = record { of_last = refl; of_warned = tt; of_calls = tt; of_ended = tt }

race_warned : (run race no_drops).throttle.warned ≡ 6001 ∷ []
unfolding run
race_warned = refl

race_ended : (run race no_drops).ended ≡ 6000 ∷ 6001 ∷ []
unfolding run
race_ended = refl

run-Throttled_example : Throttled (run race no_drops)
run-Throttled_example = run-Throttled race no_drops no_drops-Throttled

abbrev quiet : RunStats
quiet = with_mux_policy true false

abbrev fresh : Metrics (Unit {0})
fresh = record {
  forwarder = record {
    rendered = [];
    dropped_total = 0;
    stats = some quiet;
    source_stats = some quiet;
  };
  windows = [];
  summaries = [];
}

-- Two drops around a summary, a line, and a window in between.
abbrev busy : List (Reports.Act (Unit {0}))
busy =
    Reports.drop
    ∷ Reports.summary
    ∷ Reports.forward (event_at 5)
    ∷ Reports.window
    ∷ Reports.drop
    ∷ []

fresh-Reported : Reported fresh 0 0 0
unfolding Reports.windowed Reports.current Reports.sum with_mux_policy
fresh-Reported = record { of_stats = refl; of_forwarded = refl; of_dropped = refl; of_total = refl }

run-Reported_example :
    Reported
      (Reports.run busy fresh)
      (0 + Reports.forwards busy)
      (0 + Reports.drops busy)
      (0 + Reports.drops busy)
unfolding Reports.forwards Reports.drops
run-Reported_example =
    run-Reported busy fresh 0 0 0 fresh-Reported (omega arith) (omega arith) (omega arith)
