-- ===== src/Runtime/Forward/Reports.antt =====
-- crates/rustern-core/src/runtime/forward.rs: the two reporters, `RunStats::stderr_reporter` and
-- `LossyMetrics::cumulative_reporter`, while lines are forwarded and dropped.
use rustern.Common.{
  ℕ, suc, ◌+◌, ◌<◌, ◌≡◌, refl, ◌∙◌, true, List, [], ◌∷◌, Option, none, some, arith, ltb,
  if◌then◌else◌, is_some, Bool-cases, inl, inr,
}
use rustern.Source.{LogEvent}
use rustern.Runtime.Stats.{
  u64_values, fetch_add, RunStats, RunStatsSnapshot, snapshot_and_reset, record_forwarded_line,
  record_dropped_line,
}
use rustern.Runtime.Forward.{Forwarder, map_stats, take_line, record_drop}
use rustern.Runtime.Forward.Counts.{add_nothing, move_suc}

-- What the tasks do to the metrics: a line is forwarded or dropped, and a reporter ticks.
pub data Act (J : Type 0) : Type 0 where
  forward : LogEvent J → Act J
  drop window summary : Act J

-- The windows that `stderr_reporter` has taken to print them, and the totals that `cumulative_reporter` has logged.
pub record Metrics (J : Type 0) : Type 0 where
  pub forwarder : Forwarder J
  pub windows : List RunStatsSnapshot
  pub summaries : List ℕ

reset : Option RunStats → Option RunStats
unfolding snapshot_and_reset
reset o = map_stats (λ s. (snapshot_and_reset s).1) o

take_window : Option RunStats → List RunStatsSnapshot → List RunStatsSnapshot
unfolding snapshot_and_reset
take_window none ws = ws
take_window (some s) ws = (snapshot_and_reset s).0 ∷ ws

module _ {J : Type 0} where
  -- A turn of `stderr_reporter`, which runs only where there are stats; a failed write ends its turns.
  unfoldable pub stderr_reporter : Metrics J → Metrics J
  unfolding reset take_window
  stderr_reporter m = record m {
    forwarder = record m.forwarder { stats = reset m.forwarder.stats };
    windows = take_window m.forwarder.stats m.windows;
  }

  -- A turn of `cumulative_reporter`.
  unfoldable pub cumulative_reporter : Metrics J → Metrics J
  cumulative_reporter m =
      let total = m.forwarder.dropped_total in
      record m {
        forwarder = record m.forwarder { dropped_total = 0 };
        summaries = if ltb 0 total then total ∷ m.summaries else m.summaries;
      }

  unfoldable pub act : Act J → Metrics J → Metrics J
  unfolding take_line record_drop stderr_reporter cumulative_reporter
  act (forward ev) m = record m { forwarder = take_line ev m.forwarder }
  act drop m = record m { forwarder = record_drop m.forwarder }
  act window m = stderr_reporter m
  act summary m = cumulative_reporter m

  unfoldable pub run : List (Act J) → Metrics J → Metrics J
  unfolding act
  run [] m = m
  run (a ∷ acts) m = run acts (act a m)

  unfoldable pub forwards : List (Act J) → ℕ
  forwards [] = 0
  forwards (forward ev ∷ acts) = suc (forwards acts)
  forwards (_ ∷ acts) = forwards acts

  unfoldable pub drops : List (Act J) → ℕ
  drops [] = 0
  drops (drop ∷ acts) = suc (drops acts)
  drops (_ ∷ acts) = drops acts

unfoldable pub sum : List ℕ → ℕ
sum [] = 0
sum (n ∷ ns) = n + sum ns

-- A counter of the stats in all windows, and what it has counted since the last of them.
unfoldable pub windowed : (RunStatsSnapshot → ℕ) → List RunStatsSnapshot → ℕ
windowed f [] = 0
windowed f (w ∷ ws) = f w + windowed f ws

unfoldable pub current : (RunStats → ℕ) → Option RunStats → ℕ
current f none = 0
current f (some s) = f s

-- All lines counted so far: those of the windows or summaries and those that wait for the next one.
pub record Reported {J : Type 0} (m : Metrics J) (forwarded dropped total : ℕ) : Type 0 where
  pub of_stats : is_some m.forwarder.stats ≡ true
  pub of_forwarded :
      windowed (λ w. w.forwarded_lines) m.windows
        + current (λ s. s.forwarded_lines) m.forwarder.stats
      ≡ forwarded
  pub of_dropped :
      windowed (λ w. w.dropped_lines) m.windows + current (λ s. s.dropped_lines) m.forwarder.stats
      ≡ dropped
  pub of_total : sum m.summaries + m.forwarder.dropped_total ≡ total

map_stats-is_some :
    (f : RunStats → RunStats) (o : Option RunStats) → is_some (map_stats f o) ≡ is_some o
map_stats-is_some f none = refl
map_stats-is_some f (some s) = refl

-- A counter of a number of windows that is one higher.
counted :
    (f : RunStats → ℕ) (g : RunStats → RunStats) (before n : ℕ) (o : Option RunStats)
    → ((s : RunStats) → f (g s) ≡ fetch_add (f s) 1)
    → is_some o ≡ true
    → before + current f o ≡ n
    → suc n < u64_values
    → before + current f (map_stats g o) ≡ suc n
unfolding current fetch_add
counted f g before n none h o e b = absurd (ground (arith, o))
counted f g before n (some s) h o e b = omega (arith, h s)

uncounted :
    (f : RunStats → ℕ) (g : RunStats → RunStats) (before : ℕ) (o : Option RunStats)
    → ((s : RunStats) → f (g s) ≡ f s)
    → before + current f (map_stats g o) ≡ before + current f o
unfolding current
uncounted f g before none h = refl
uncounted f g before (some s) h = omega (arith, h s)

window_moved :
    (f : RunStats → ℕ) (g : RunStatsSnapshot → ℕ) (ws : List RunStatsSnapshot) (o : Option RunStats)
    → ((s : RunStats) → g (snapshot_and_reset s).0 ≡ f s)
    → ((s : RunStats) → f (snapshot_and_reset s).1 ≡ 0)
    → windowed g (take_window o ws) + current f (reset o) ≡ windowed g ws + current f o
unfolding windowed take_window current reset
window_moved f g ws none h k = refl
window_moved f g ws (some s) h k = omega (arith, h s, k s)

summed : (total : ℕ) (ns : List ℕ) → sum (if ltb 0 total then total ∷ ns else ns) ≡ total + sum ns
unfolding sum
summed total ns = elim (Bool-cases (ltb 0 total)) [
  | inl y ↦ rw y refl
  | inr n ↦ rw n (ground (arith, n))
]

module _ {J : Type 0} where
  forward-Reported :
      (ev : LogEvent J) (m : Metrics J) (f d t : ℕ)
      → Reported m f d t
      → suc f < u64_values
      → Reported (act (forward ev) m) (suc f) d t
  unfolding act take_line record_forwarded_line
  forward-Reported ev m f d t r b = record {
    of_stats = map_stats-is_some record_forwarded_line m.forwarder.stats ∙ r.of_stats;
    of_forwarded =
        counted (λ s. s.forwarded_lines) record_forwarded_line _ f m.forwarder.stats (λ s. refl)
          r.of_stats r.of_forwarded b;
    of_dropped =
        uncounted (λ s. s.dropped_lines) record_forwarded_line _ m.forwarder.stats (λ s. refl)
        ∙ r.of_dropped;
    of_total = r.of_total;
  }

  drop-Reported :
      (m : Metrics J) (f d t : ℕ)
      → Reported m f d t
      → suc d < u64_values
      → suc t < u64_values
      → Reported (act drop m) f (suc d) (suc t)
  unfolding act record_drop record_dropped_line fetch_add
  drop-Reported m f d t r b c = record {
    of_stats = map_stats-is_some record_dropped_line m.forwarder.stats ∙ r.of_stats;
    of_forwarded =
        uncounted (λ s. s.forwarded_lines) record_dropped_line _ m.forwarder.stats (λ s. refl)
        ∙ r.of_forwarded;
    of_dropped =
        counted (λ s. s.dropped_lines) record_dropped_line _ d m.forwarder.stats (λ s. refl)
          r.of_stats r.of_dropped b;
    of_total = omega (arith, r.of_total);
  }

  window-Reported : (m : Metrics J) (f d t : ℕ) → Reported m f d t → Reported (act window m) f d t
  unfolding act stderr_reporter reset snapshot_and_reset
  window-Reported m f d t r = record {
    of_stats = map_stats-is_some (λ s. (snapshot_and_reset s).1) m.forwarder.stats ∙ r.of_stats;
    of_forwarded =
        window_moved (λ s. s.forwarded_lines) (λ w. w.forwarded_lines) m.windows m.forwarder.stats
          (λ s. refl) (λ s. refl)
        ∙ r.of_forwarded;
    of_dropped =
        window_moved (λ s. s.dropped_lines) (λ w. w.dropped_lines) m.windows m.forwarder.stats
          (λ s. refl) (λ s. refl)
        ∙ r.of_dropped;
    of_total = r.of_total;
  }

  summary-Reported : (m : Metrics J) (f d t : ℕ) → Reported m f d t → Reported (act summary m) f d t
  unfolding act cumulative_reporter
  summary-Reported m f d t r = record {
    of_stats = r.of_stats;
    of_forwarded = r.of_forwarded;
    of_dropped = r.of_dropped;
    of_total = omega (arith, r.of_total, summed m.forwarder.dropped_total m.summaries);
  }

  -- Where there are stats, whenever the reporters tick, if each count stays below 2 ^ 64: each forwarded
  -- line and each dropped line is counted once, in a window that the stats report has taken or in the
  -- counter that the next one takes, and each dropped line also once in the summaries or in the total that
  -- the next one takes. What a counter still holds after the last tick is not reported.
  pub run-Reported :
      (acts : List (Act J)) (m : Metrics J) (f d t : ℕ)
      → Reported m f d t
      → f + forwards acts < u64_values
      → d + drops acts < u64_values
      → t + drops acts < u64_values
      → Reported (run acts m) (f + forwards acts) (d + drops acts) (t + drops acts)
  unfolding run forwards drops
  run-Reported [] m f d t r a b c = rw (add_nothing f) (rw (add_nothing d) (rw (add_nothing t) r))
  run-Reported (forward ev ∷ acts) m f d t r a b c = rw (move_suc f (forwards acts)) (
      run-Reported acts _ (suc f) d t (forward-Reported ev m f d t r (omega arith)) (omega arith) b
        c)
  run-Reported (drop ∷ acts) m f d t r a b c = rw (move_suc d (drops acts)) (
      rw (move_suc t (drops acts)) (
        run-Reported acts _ f (suc d) (suc t) (drop-Reported m f d t r (omega arith) (omega arith))
          a (omega arith) (omega arith)))
  run-Reported (window ∷ acts) m f d t r a b c =
      run-Reported acts _ f d t (window-Reported m f d t r) a b c
  run-Reported (summary ∷ acts) m f d t r a b c =
      run-Reported acts _ f d t (summary-Reported m f d t r) a b c
