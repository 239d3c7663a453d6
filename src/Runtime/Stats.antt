-- ===== src/Runtime/Stats.antt =====
-- crates/rustern-core/src/runtime/forward.rs: the counters of a run.
use rustern.Common.{ℕ, suc, ◌+◌, ◌%◌, ◌≡◌, Bool, true, false, ltb, arith, List, [], ◌∷◌, ◌++◌}
use rustern.Common.{Text, codes, join}

-- `AtomicU64` wraps around at 2 ^ 64.
abbrev pub u64_values : ℕ
u64_values = 18_446_744_073_709_551_616

unfoldable pub fetch_add : ℕ → ℕ → ℕ
fetch_add counter delta = (counter + delta) % u64_values

pub record RunStats : Type 0 where
  pub active_streams : ℕ
  pub forwarded_lines : ℕ
  pub dropped_lines : ℕ
  pub mux_dropped_lines : ℕ
  pub source_errors : ℕ
  pub lossy : Bool
  pub mux_lossy : Bool

pub record RunStatsSnapshot : Type 0 where
  pub active_streams : ℕ
  pub forwarded_lines : ℕ
  pub dropped_lines : ℕ
  pub mux_dropped_lines : ℕ

unfoldable pub with_mux_policy : Bool → Bool → RunStats
with_mux_policy lossy mux_lossy = record {
  active_streams = 0;
  forwarded_lines = 0;
  dropped_lines = 0;
  mux_dropped_lines = 0;
  source_errors = 0;
  lossy = lossy;
  mux_lossy = mux_lossy;
}

unfoldable pub record_source_api_error : RunStats → RunStats
unfolding fetch_add
record_source_api_error s = record s { source_errors = fetch_add s.source_errors 1 }

unfoldable pub had_source_errors : RunStats → Bool
had_source_errors s = ltb 0 s.source_errors

-- `active_streams as u64`.
unfoldable pub set_active_streams : ℕ → RunStats → RunStats
set_active_streams n s = record s { active_streams = n % u64_values }

unfoldable pub record_forwarded_line : RunStats → RunStats
unfolding fetch_add
record_forwarded_line s = record s { forwarded_lines = fetch_add s.forwarded_lines 1 }

unfoldable pub record_dropped_line : RunStats → RunStats
unfolding fetch_add
record_dropped_line s = record s { dropped_lines = fetch_add s.dropped_lines 1 }

unfoldable pub record_mux_dropped_line : RunStats → RunStats
unfolding fetch_add
record_mux_dropped_line s = record s { mux_dropped_lines = fetch_add s.mux_dropped_lines 1 }

unfoldable pub snapshot_and_reset : RunStats → RunStatsSnapshot × RunStats
snapshot_and_reset s = (
  record {
    active_streams = s.active_streams;
    forwarded_lines = s.forwarded_lines;
    dropped_lines = s.dropped_lines;
    mux_dropped_lines = s.mux_dropped_lines;
  },
  record s { forwarded_lines = 0; dropped_lines = 0; mux_dropped_lines = 0 },
)

when : Bool → Text → List Text
when true t = t ∷ []
when false t = []

-- `show` and `interval` are what `format!` prints for a number and for the interval.
unfoldable pub format_snapshot : (ℕ → Text) → RunStatsSnapshot → Text → Bool → Bool → Text
unfolding when join
format_snapshot show snapshot interval lossy mux_lossy =
    codes "stats: "
    ++ join (codes ", ") (
        (codes "active streams=" ++ show snapshot.active_streams)
        ∷ (codes "forwarded lines=" ++ (show snapshot.forwarded_lines ++ (codes "/" ++ interval)))
        ∷ (when lossy
              (codes "dropped lines=" ++ (show snapshot.dropped_lines ++ (codes "/" ++ interval)))
            ++ when mux_lossy (
                codes "mux dropped lines="
                ++ (show snapshot.mux_dropped_lines ++ (codes "/" ++ interval)))))

-- One count more, modulo the width of the counter.
pub fetch_add-count : (n : ℕ) → fetch_add (n % u64_values) 1 ≡ suc n % u64_values
unfolding fetch_add
fetch_add-count n = omega arith
