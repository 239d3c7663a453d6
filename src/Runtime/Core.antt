-- ===== src/Runtime/Core.antt =====
-- crates/rustern-core/src/runtime/mux_forward_core.rs: the tasks from the multiplexer to the renderer,
-- turn by turn. They share one token, which the exit watch and the run cancel.
pub mod Pulls
pub mod Flow
pub mod Order
pub mod Lossless
pub mod Stopped
use rustern.Common.{
  ℕ, zero, suc, Bool, true, false, ◌&&◌, List, [], ◌∷◌, ◌++◌, Option, none, some, ok, err, is_empty,
  if◌then◌else◌,
}
use mathlib.Core.Option
use rustern.Pipeline.External.{External}
use rustern.Pipeline.Stages.{Row, Parsed, ExitWatchState}
use rustern.Pipeline.Spec.{PipelineStages, apply_pipeline}
use rustern.Runtime.Config.{RuntimeStatsConfig, RuntimeFwdConfig, resolved_mux_policy}
use rustern.Runtime.Stats.{RunStats, with_mux_policy}
use rustern.Runtime.Mux
use rustern.Runtime.Mux.{BackpressurePolicy, Mux, MuxInput, mux_multiplex_loop}
use rustern.Runtime.Forward
use rustern.Runtime.Forward.{Forwarder, ForwardInput, forward_to_render}

-- `RunStats::from_fwd`.
unfoldable pub from_fwd : RuntimeFwdConfig → RunStats
unfolding with_mux_policy resolved_mux_policy
from_fwd cfg = with_mux_policy cfg.lossy (is_lossy (resolved_mux_policy cfg))
  where
    is_lossy : BackpressurePolicy → Bool
    is_lossy Mux.lossy = true
    is_lossy Mux.blocking = false

-- A turn: something outside of these tasks cancels the token, the multiplexer takes an input, or the
-- forwarder polls the pipeline, which may read so many rows before it has to wait, and the render channel
-- answers.
pub data Turn (J : Type 0) : Type 0 where
  cancel : Turn J
  multiplex : MuxInput J → Turn J
  forward : ℕ → Forward.Answer → Turn J

module _ (x : External) where
  -- `sent` of the multiplexer is the raw channel: what it has taken and the pipeline has not read. `pulled`
  -- is what the pipeline has read. The token is that of the exit watch.
  pub record MuxForwardCore : Type 0 where
    pub mux : Mux (Parsed x)
    pub mux_done : Bool
    pub pulled : List (Row x)
    pub exit_watch : ExitWatchState
    pub forwarder : Forwarder (Parsed x)
    pub forward_done : Bool

  -- The metrics that `MuxForwardCore::spawn` makes; the counters are read only where the
  -- configuration asks for the report of the stats.
  unfoldable pub spawn : RuntimeFwdConfig → Option RunStats → MuxForwardCore
  unfolding from_fwd
  spawn cfg stats =
      let stats = Option.get_or stats (from_fwd cfg) in
      let counter_stats = Option.map (λ (c : RuntimeStatsConfig). stats) cfg.stats in
      record {
        mux = record { streams = []; sent = []; mux_dropped = 0; stats = counter_stats };
        mux_done = false;
        pulled = [];
        exit_watch = record { triggered = false; cancelled = false };
        forwarder = record {
          rendered = [];
          dropped_total = 0;
          stats = counter_stats;
          source_stats = some stats;
        };
        forward_done = false;
      }

  -- A turn of the multiplexer: the token comes first.
  unfoldable pub multiplex_turn :
      RuntimeFwdConfig → MuxInput (Parsed x) → MuxForwardCore → MuxForwardCore
  unfolding resolved_mux_policy
  multiplex_turn cfg i core =
      let ins = (if core.exit_watch.cancelled then Mux.cancelled else i) ∷ [] in
      if core.mux_done then core else record core {
        mux = mux_multiplex_loop (resolved_mux_policy cfg) ins core.mux;
        mux_done = is_empty (Mux.handled (resolved_mux_policy cfg) ins);
      }

  pulled_row :
      (MuxForwardCore → Option (Row x) × MuxForwardCore)
      → MuxForwardCore
      → Option (Row x)
      → Option (Row x) × MuxForwardCore
  pulled_row next core none = next core
  pulled_row next core (some row) = (some row, core)

  pull_from :
      PipelineStages x
      → (MuxForwardCore → Option (Row x) × MuxForwardCore)
      → MuxForwardCore
      → List (Row x)
      → Option (Row x) × MuxForwardCore
  unfolding pulled_row
  pull_from st next core [] = (none, core)
  pull_from st next core (r ∷ rows) =
      let (shown, w) = apply_pipeline x st (some r, core.exit_watch) in
      pulled_row next
        (record core {
          mux = record core.mux { sent = rows };
          pulled = core.pulled ++ (r ∷ []);
          exit_watch = w;
        })
        shown

  -- `source_stream.next()`: the pipeline reads rows up to the first that it shows; a filter that drops a
  -- row reads on, without a look at the token.
  unfoldable pub pull : PipelineStages x → ℕ → MuxForwardCore → Option (Row x) × MuxForwardCore
  unfolding pull_from
  pull st zero core = (none, core)
  pull st (suc n) core = pull_from st (λ c. pull st n c) core core.mux.sent

  -- What becomes of an item: without `--lossy` the token comes before the render channel once more.
  offer_row : RuntimeFwdConfig → Forward.Answer → ExitWatchState → Row x → ForwardInput (Parsed x)
  offer_row cfg answer w (ok ev) =
      Forward.line ev
        (if cfg.lossy then answer else if w.cancelled then Forward.refused else answer)
  offer_row cfg answer w (err e) = Forward.failed e

  -- The pipeline ends with the raw channel, once the multiplexer has dropped its end of it.
  handle : RuntimeFwdConfig → Forward.Answer → Option (Row x) × MuxForwardCore → MuxForwardCore
  unfolding offer_row
  handle cfg answer (none, core) = record core {
    forward_done = core.mux_done && is_empty core.mux.sent;
  }
  handle cfg answer (some row, core) =
      let ins = offer_row cfg answer core.exit_watch row ∷ [] in
      record core {
        forwarder = forward_to_render cfg.lossy ins core.forwarder;
        forward_done = is_empty (Forward.handled cfg.lossy ins);
      }

  -- A turn of the forwarder: the token comes first.
  unfoldable pub forward_turn :
      RuntimeFwdConfig → PipelineStages x → ℕ → Forward.Answer → MuxForwardCore → MuxForwardCore
  unfolding pull handle
  forward_turn cfg st n answer core =
      if core.forward_done
      then core
      else if core.exit_watch.cancelled
      then record core { forward_done = true }
      else handle cfg answer (pull st n core)

  unfoldable pub turn :
      RuntimeFwdConfig → PipelineStages x → Turn (Parsed x) → MuxForwardCore → MuxForwardCore
  unfolding multiplex_turn forward_turn
  turn cfg st cancel core = record core { exit_watch = record core.exit_watch { cancelled = true } }
  turn cfg st (multiplex i) core = multiplex_turn cfg i core
  turn cfg st (forward n answer) core = forward_turn cfg st n answer core

  unfoldable pub run_core :
      RuntimeFwdConfig → PipelineStages x → List (Turn (Parsed x)) → MuxForwardCore → MuxForwardCore
  unfolding turn
  run_core cfg st [] core = core
  run_core cfg st (t ∷ turns) core = run_core cfg st turns (turn cfg st t core)
