-- ===== src/Runtime/Forward.antt =====
-- crates/rustern-core/src/runtime/forward.rs: from the pipeline to the renderer.
pub mod Counts
pub mod Warnings
pub mod Reports
pub mod Offered
use rustern.Common.{
  ℕ, zero, suc, ◌+◌, ◌%◌, ◌≤◌, ◌≡◌, refl, ◌∙◌, sym, ap, Bool, true, false, List, [], ◌∷◌, ◌++◌,
  Option, none, some, if◌then◌else◌, Result, ok, err, arith, length,
}
use rustern.Source.{LogEvent, LogSourceError, Item}
use rustern.Runtime.Stats.{
  u64_values, fetch_add, RunStats, record_source_api_error, record_forwarded_line,
  record_dropped_line, fetch_add-count,
}

-- What the render channel answers to a line. A line is refused by `try_send` if the channel is full,
-- and by the `select!` around `send` if the token is cancelled while it waits.
pub data Answer : Type 0 where
  accepted refused closed : Answer

-- What the `select!` of the loop takes next; a line comes with the channel's answer to it.
pub data ForwardInput (J : Type 0) : Type 0 where
  cancelled finished : ForwardInput J
  line : LogEvent J → Answer → ForwardInput J
  failed : LogSourceError → ForwardInput J

-- `LossyMetrics`: the drops since the last summary, the counters that the stats report reads, if
-- there is one, and the counters that the exit code reads. The source has one object for both; they
-- share no field here, since only `source_errors` of the second is written. `rendered` is what the
-- channel has taken.
pub record Forwarder (J : Type 0) : Type 0 where
  pub rendered : List (LogEvent J)
  pub dropped_total : ℕ
  pub stats : Option RunStats
  pub source_stats : Option RunStats

abbrev map_stats : (RunStats → RunStats) → Option RunStats → Option RunStats
map_stats f none = none
map_stats f (some s) = some (f s)

unfoldable pub record_drop : {J : Type 0} → Forwarder J → Forwarder J
unfolding fetch_add record_dropped_line
record_drop f = record f {
  dropped_total = fetch_add f.dropped_total 1;
  stats = map_stats record_dropped_line f.stats;
}

-- A counter has counted `n` so far.
abbrev pub HasCounted : Option RunStats → (RunStats → ℕ) → ℕ → Type 0
HasCounted none counter n = Unit {0}
HasCounted (some s) counter n = counter s ≡ n % u64_values

module _ {J : Type 0} where
  take_line : LogEvent J → Forwarder J → Forwarder J
  unfolding record_forwarded_line
  take_line ev f = record f {
    rendered = f.rendered ++ (ev ∷ []);
    stats = map_stats record_forwarded_line f.stats;
  }

  note_error : LogSourceError → Forwarder J → Forwarder J
  unfolding record_source_api_error
  note_error (LogSourceError.api e) f = record f {
    source_stats = map_stats record_source_api_error f.source_stats;
  }
  note_error LogSourceError.eof f = f
  note_error LogSourceError.cancelled f = f

  unfoldable pub forward_to_render : Bool → List (ForwardInput J) → Forwarder J → Forwarder J
  unfolding take_line record_drop note_error
  forward_to_render lossy [] f = f
  forward_to_render lossy (cancelled ∷ ins) f = f
  forward_to_render lossy (finished ∷ ins) f = f
  forward_to_render lossy (failed e ∷ ins) f = forward_to_render lossy ins (note_error e f)
  forward_to_render lossy (line ev accepted ∷ ins) f = forward_to_render lossy ins (take_line ev f)
  forward_to_render lossy (line ev closed ∷ ins) f = f
  forward_to_render true (line ev refused ∷ ins) f = forward_to_render true ins (record_drop f)
  forward_to_render false (line ev refused ∷ ins) f = f

  -- The inputs that the loop handles without ending.
  unfoldable pub handled : Bool → List (ForwardInput J) → List (ForwardInput J)
  handled lossy [] = []
  handled lossy (cancelled ∷ ins) = []
  handled lossy (finished ∷ ins) = []
  handled lossy (failed e ∷ ins) = failed e ∷ handled lossy ins
  handled lossy (line ev accepted ∷ ins) = line ev accepted ∷ handled lossy ins
  handled lossy (line ev closed ∷ ins) = []
  handled true (line ev refused ∷ ins) = line ev refused ∷ handled true ins
  handled false (line ev refused ∷ ins) = []

  unfoldable pub accepted_lines : List (ForwardInput J) → List (LogEvent J)
  accepted_lines [] = []
  accepted_lines (line ev accepted ∷ ins) = ev ∷ accepted_lines ins
  accepted_lines (_ ∷ ins) = accepted_lines ins

  unfoldable pub refused_lines : List (ForwardInput J) → ℕ
  refused_lines [] = 0
  refused_lines (line ev refused ∷ ins) = suc (refused_lines ins)
  refused_lines (_ ∷ ins) = refused_lines ins

  unfoldable pub api_errors : List (ForwardInput J) → ℕ
  api_errors [] = 0
  api_errors (failed (LogSourceError.api e) ∷ ins) = suc (api_errors ins)
  api_errors (_ ∷ ins) = api_errors ins

  pub record Counted (f : Forwarder J) (forwarded dropped total errors : ℕ) : Type 0 where
    pub of_forwarded : HasCounted f.stats (λ s. s.forwarded_lines) forwarded
    pub of_dropped : HasCounted f.stats (λ s. s.dropped_lines) dropped
    pub of_total : f.dropped_total ≡ total % u64_values
    pub of_errors : HasCounted f.source_stats (λ s. s.source_errors) errors
