-- ===== src/Runtime/Run/Process.antt =====
-- crates/rustern-core/src/runtime/run.rs, runtime/mux_forward_core.rs and src/main.rs: the code of the
-- process, from what the pipeline has read.
use rustern.Common.{ℕ, ◌<◌, ◌≡◌, ◌∙◌, ap, ◌||◌, List, ◌++◌, any, none, is_some, arith}
use mathlib.Core.List.{append_assoc}
use rustern.Pipeline.External.{External}
use rustern.Pipeline.Stages.{Parsed}
use rustern.Pipeline.Spec.{PipelineStages}
use rustern.Pipeline.Meaning.{exit_condition}
use rustern.Runtime.Config.{RuntimeFwdConfig}
use rustern.Runtime.Stats.{u64_values}
use rustern.Runtime.Forward.Offered.{
  had_errors, had_errors-IsErrors, is_api, api_count, api_count-append, any-api_count,
}
use rustern.Runtime.Core.{Turn, spawn, run_core}
use rustern.Runtime.Core.Order.{inputs, run_core-order}
use rustern.Runtime.Mux
use rustern.Runtime.Core.Flow.{run_core-Flowing, spawn-Flowing}
use rustern.Runtime.Run.{Join, Stop, pipe_join_err, limit_hit, run_end, exit_code}
use rustern.Runtime.Run.Ending.{code, exit_code-run_end}

module _ (x : External) where
  -- The pipeline reads no more errors than come.
  few_read :
      (cfg : RuntimeFwdConfig) (st : PipelineStages x) (turns : List (Turn (Parsed x)))
      → api_count (Mux.taken (inputs turns)) < u64_values
      → api_count (run_core x cfg st turns (spawn x cfg none)).pulled < u64_values
  unfolding spawn
  few_read cfg st turns b =
      let core = run_core x cfg st turns (spawn x cfg none) in
      let (rest, e) = run_core-order x cfg st turns (spawn x cfg none) in
      omega (
        arith,
        ap (λ l. api_count l) e,
        api_count-append core.pulled (core.mux.sent ++ rest),
        ap (λ l. api_count l) (append_assoc core.pulled core.mux.sent rest),
      )

  -- Whatever the turns of the tasks, under either policy, if fewer than 2 ^ 64 API errors come: the
  -- code of the process is 1 if the pipeline task failed, the limit of streams was met or a
  -- row that the pipeline has read meets an exit condition, then 2 if a row that it has read is an API
  -- error, and then that of the signal: 130, 143, or 0 without one.
  pub exit_code-core :
      (K J : Type 0) (cfg : RuntimeFwdConfig) (st : PipelineStages x)
      (turns : List (Turn (Parsed x))) (stop : Stop) (late : Join) (reason : ℕ)
      → api_count (Mux.taken (inputs turns)) < u64_values
      → exit_code
          (run_end {K = K} {J = J} stop late
            (run_core x cfg st turns (spawn x cfg none)).exit_watch.triggered
            (had_errors (run_core x cfg st turns (spawn x cfg none)).forwarder.source_stats))
          reason
        ≡ code
            (is_some (pipe_join_err stop late)
              || limit_hit stop
              || any (exit_condition x st) (run_core x cfg st turns (spawn x cfg none)).pulled)
            (any is_api (run_core x cfg st turns (spawn x cfg none)).pulled)
            reason
  exit_code-core K J cfg st turns stop late reason b =
      let core = run_core x cfg st turns (spawn x cfg none) in
      let f = run_core-Flowing x st cfg turns (spawn x cfg none) (spawn-Flowing x st cfg) in
      let errors : had_errors core.forwarder.source_stats ≡ any is_api core.pulled =
        had_errors-IsErrors core.forwarder.source_stats (api_count core.pulled) f.of_errors
          (few_read cfg st turns b)
        ∙ any-api_count core.pulled in
      exit_code-run_end K J stop late core.exit_watch.triggered
        (had_errors core.forwarder.source_stats) reason
      ∙ rw (f.of_watch, errors)
