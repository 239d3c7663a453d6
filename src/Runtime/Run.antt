-- ===== src/Runtime/Run.antt =====
-- crates/rustern-core/src/runtime/run.rs and src/main.rs: how a run is prepared, how it ends, and the
-- code that the process exits with.
pub mod Preparation
pub mod Process
pub mod Ending
pub mod Tests
use rustern.Common.{
  ℕ, Bool, true, false, not, ◌&&◌, ◌||◌, List, [], ◌∷◌, ◌++◌, length, nat_beq, Option, none, some,
  is_some, or_else, Text, codes, if◌then◌else◌, Result, ok, err, ◌>>=◌, map_err,
}
use rustern.Kube.{Pod}
use rustern.Pipeline.External.{External}
use rustern.Pipeline.Stages.{ExitWatchState}
use rustern.Pipeline.Build.{PipelineSpec, from_run_config}
use rustern.Discovery.PodList.{PodWatchPlanConfig, PodWatchPlan, build}
use rustern.Discovery.Resource.{ResourceKind}
use rustern.Discovery.WorkloadSelector.{Client}
use rustern.Discovery.WorkloadSelector.Namespaces.{resolve_label_selector_for_namespaces}
use rustern.Render.{LineFormatter}
use rustern.Render.Printing.{Printer}
use rustern.Render.Setup.{build_line_formatter}
use rustern.Runtime.Attach.{log_request_permits}
use rustern.Runtime.Config.{
  CoreRunConfig, RunError, pod_list, kube, other, exit_on_triggered, RunOutcome,
}
use rustern.Runtime.ListPods.{Page, ListError, api, list_pods_paginated}
use rustern.Runtime.WatchAdmission.{WatchAdmissionPolicy, try_new}

-- `Api::all` and `Api::namespaced`.
pub data ApiScope : Type 0 where
  all_pods : ApiScope
  namespaced : Text → ApiScope

unfoldable pub plan_config : {T Tz : Type 0} → CoreRunConfig T Tz → PodWatchPlanConfig
plan_config cfg = record {
  query = cfg.query;
  selector = cfg.selector;
  field_selector = cfg.field_selector;
  node = cfg.node;
  namespaces = cfg.namespaces;
  all_namespaces = cfg.all_namespaces;
}

unfoldable pub api_scope : Bool → List Text → ApiScope
api_scope true namespaces = all_pods
api_scope false (ns ∷ []) = namespaced ns
api_scope false _ = all_pods

-- What a run has before its tasks start.
pub record Prepared {x : External} (p : Printer x) : Type 0 where
  pub plan : PodWatchPlan x.Regex
  pub scope : ApiScope
  pub pipeline : PipelineSpec x
  pub admission : WatchAdmissionPolicy x.Regex
  pub permits : ℕ
  pub formatter : LineFormatter p
  pub no_follow_pods : Option (List Pod)

-- The text of a regex error, the check of a user's pattern, `validate_filter`, the client, and one page
-- of the list of the pods in a scope, by the labels, the fields and the token.
module _ {x : External} (p : Printer x) {E J : Type 0} (show_regex : p.RegexError → Text)
    (compile_user : Text → Result (Unit {0}) Text) (validate_filter : Text → Result x.Filter J)
    (client : Client E)
    (list : ApiScope → Option Text → Option Text → Option Text → Result (Page Pod) E) where
  abbrev pub Fault : Type 0
  Fault = RunError (ListError E) J

  unfoldable pub compile : Text → Result x.Regex Text
  compile s = map_err show_regex (p.regex_new s)

  -- The selector of a workload, for the plan.
  resolve_selector : ResourceKind → Text → List Text → Bool → Result Text (ListError E)
  resolve_selector kind name namespaces all_namespaces =
      map_err api (resolve_label_selector_for_namespaces client kind name namespaces all_namespaces)

  list_unless_following : Bool → ApiScope → PodWatchPlan x.Regex → Result (Option (List Pod)) Fault
  list_unless_following true scope plan = ok none
  list_unless_following false scope plan =
      map_err kube (list_pods_paginated (list scope plan.label_selector plan.field_selector) none)
      >>= λ pods. ok (some pods)

  watch_plan : {T : Type 0} → CoreRunConfig T p.Tz → Result (PodWatchPlan x.Regex) Fault
  unfolding compile resolve_selector
  watch_plan cfg = map_err pod_list (build compile_user compile resolve_selector (plan_config cfg))

  admission_of :
      {T : Type 0}
      → Text
      → CoreRunConfig T p.Tz
      → PodWatchPlan x.Regex
      → Result (WatchAdmissionPolicy x.Regex) Fault
  unfolding compile
  admission_of context_name cfg plan =
      map_err (λ e. other (codes "invalid watch admission regex: " ++ e))
        (try_new compile context_name plan.pod_regex cfg.exclude_pod cfg.namespaces
          cfg.all_namespaces cfg.container cfg.exclude_container cfg.container_discovery
          cfg.pod_condition)

  formatter_of : {T : Type 0} → CoreRunConfig T p.Tz → Result (LineFormatter p) Fault
  formatter_of cfg =
      map_err (λ e. other (codes "invalid highlight/include regex: " ++ show_regex e))
        (build_line_formatter p cfg.formatter cfg.include cfg.highlight)

  unfoldable pub prepare :
      {T : Type 0} → Text → CoreRunConfig T p.Tz → ExitWatchState → Result (Prepared p) Fault
  unfolding compile list_unless_following watch_plan admission_of formatter_of
  prepare context_name cfg exit_watch = watch_plan cfg >>= λ plan.
      from_run_config x compile validate_filter cfg exit_watch >>= λ pipeline.
      admission_of context_name cfg plan >>= λ admission. formatter_of cfg >>= λ formatter.
      list_unless_following cfg.pod_log.follow (api_scope cfg.all_namespaces cfg.namespaces) plan
      >>= λ pods. ok (record {
        plan = plan;
        scope = api_scope cfg.all_namespaces cfg.namespaces;
        pipeline = pipeline;
        admission = admission;
        permits = log_request_permits cfg.fwd.max_log_requests;
        formatter = formatter;
        no_follow_pods = pods;
      })

-- `JoinError` of tokio: its text, and whether the task was aborted.
pub record JoinError : Type 0 where
  pub text : Text
  pub is_cancelled : Bool

-- How a task answers `shutdown_join_bounded`: it has ended, in time or after the abort, or never.
pub data Join : Type 0 where
  ended ended_in_time ended_after_abort : Option JoinError → Join
  never : Join

unfoldable pub shutdown_join_bounded : Join → Option JoinError
shutdown_join_bounded (ended e) = e
shutdown_join_bounded (ended_in_time e) = e
shutdown_join_bounded (ended_after_abort e) = e
shutdown_join_bounded never = none

-- What ends the wait: with follow, a notice of the limit, or its channel closed; without, the end of the
-- pipeline; and with either the cancelled token.
pub data Stop : Type 0 where
  limit_notice limit_closed token_cancelled : Stop
  pipe_ended : Option JoinError → Stop

unless_aborted : Option JoinError → Option JoinError
unless_aborted none = none
unless_aborted (some e) = if e.is_cancelled then none else some e

-- `pipe_join_err`: the pipeline is joined once.
unfoldable pub pipe_join_err : Stop → Join → Option JoinError
unfolding unless_aborted shutdown_join_bounded
pipe_join_err (pipe_ended e) late = e
pipe_join_err limit_notice late = unless_aborted (shutdown_join_bounded late)
pipe_join_err limit_closed late = unless_aborted (shutdown_join_bounded late)
pipe_join_err token_cancelled late = unless_aborted (shutdown_join_bounded late)

unfoldable pub limit_hit : Stop → Bool
limit_hit limit_notice = true
limit_hit limit_closed = false
limit_hit token_cancelled = false
limit_hit (pipe_ended e) = false

-- src/main.rs: the code of a run that ended well.
ok_code : ℕ → Bool → ℕ
ok_code reason true = 2
ok_code reason false = if nat_beq reason 1 then 130 else if nat_beq reason 2 then 143 else 0

module _ {K J : Type 0} where
  outcome : Option JoinError → Bool → Bool → Bool → Result RunOutcome (RunError K J)
  outcome (some e) limit triggered errors =
      err (other (codes "pipeline forward task failed: " ++ e.text))
  outcome none true triggered errors =
      err (other (codes "max concurrent log streams reached (--max-log-requests)"))
  outcome none false true errors = err exit_on_triggered
  outcome none false false errors = ok (record { had_source_errors = errors })

  -- The end of `run_with_client`: why it stopped waiting, how the pipeline joined, whether an exit
  -- condition was met, and whether a source reported an error.
  unfoldable pub run_end : Stop → Join → Bool → Bool → Result RunOutcome (RunError K J)
  unfolding outcome pipe_join_err limit_hit
  run_end stop late triggered errors =
      outcome (pipe_join_err stop late) (limit_hit stop) triggered errors

  -- src/main.rs: the code of the process, by the result of the run and the shutdown reason.
  unfoldable pub exit_code : Result RunOutcome (RunError K J) → ℕ → ℕ
  unfolding ok_code
  exit_code (err e) reason = 1
  exit_code (ok o) reason = ok_code reason o.had_source_errors
