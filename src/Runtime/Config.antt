-- ===== src/Runtime/Config.antt =====
-- crates/rustern-core/src/runtime/config.rs: the configuration of a run, its errors and its outcome.
use rustern.Common.{ℕ, Bool, List, Option, Text, max}
use rustern.Source.PodLog.{PodLogRequest}
use rustern.Pipeline.StageOrder.{FilterOn}
use rustern.Pipeline.Stages.{QueryMode, ExitOnLevel}
use rustern.Discovery.ContainerKeys.{ContainerDiscoverOpts}
use rustern.Discovery.PodCondition.{PodConditionFilter}
use rustern.Discovery.Context.{ContextSelector, ContextError}
use rustern.Discovery.PodList.{PodListError}
use rustern.Discovery.Resource.{QueryParseError}
use rustern.Display.{FormatterChoice}
use rustern.Runtime.Mux.{BackpressurePolicy, from_lossy}

-- The interval is in nanoseconds.
pub record RuntimeStatsConfig : Type 0 where
  pub interval : ℕ

pub record RuntimeFwdConfig : Type 0 where
  pub buffer_size : ℕ
  pub lossy : Bool
  pub stats : Option RuntimeStatsConfig
  pub max_log_requests : ℕ

unfoldable pub render_channel_capacity : RuntimeFwdConfig → ℕ
render_channel_capacity cfg = max cfg.buffer_size 1

unfoldable pub resolved_mux_policy : RuntimeFwdConfig → BackpressurePolicy
unfolding from_lossy
resolved_mux_policy cfg = from_lossy cfg.lossy

-- `T` is the timestamp of the log API and `Tz` a time zone. The token that all tasks share is not a
-- field here: whether it is cancelled is an input of the tasks.
pub record CoreRunConfig (T Tz : Type 0) : Type 0 where
  pub context : ContextSelector
  pub query : Text
  pub namespaces : List Text
  pub all_namespaces : Bool
  pub selector : Option Text
  pub field_selector : Option Text
  pub node : Option Text
  pub exclude_pod : List Text
  pub container : Text
  pub exclude_container : List Text
  pub container_discovery : ContainerDiscoverOpts
  pub pod_condition : Option PodConditionFilter
  pub pod_log : PodLogRequest T
  pub cursor_reconnect : Bool
  pub include : List Text
  pub exclude : List Text
  pub highlight : List Text
  pub only_log_lines : Bool
  pub filter_on : FilterOn
  pub json_query : Option Text
  pub json_query_mode : QueryMode
  pub level_key : Option Text
  pub exit_on : List Text
  pub exit_on_level : Option ExitOnLevel
  pub formatter : FormatterChoice Tz
  pub diff_container : Bool
  pub fwd : RuntimeFwdConfig

-- `K` is `kube::Error`, and `J` the error of a jaq filter.
pub data RunError (K J : Type 0) : Type 0 where
  context : ContextError → RunError K J
  query : QueryParseError → RunError K J
  pod_list : PodListError K → RunError K J
  container_regex : Text → RunError K J
  jq : J → RunError K J
  kube : K → RunError K J
  other : Text → RunError K J
  exit_on_triggered : RunError K J

pub record RunOutcome : Type 0 where
  pub had_source_errors : Bool
