-- ===== src/Cli.antt =====
-- src/cli/args.rs and src/cli/validate.rs: the flags, and their validation.
pub mod Validate
pub mod RunConfig
pub mod Since
pub mod Validated
pub mod Main
pub mod Tests
use rustern.Common.{
  ℕ, ℤ, pos, negsuc, is_negative, Bool, true, false, not, ◌&&◌, ◌||◌, List, [], ◌∷◌, ◌++◌, Option,
  none, some, zero, is_some, Text, codes, nat_beq, ltb, leb, is_empty, trim, if◌then◌else◌, Result,
  ok, err, ◌>>=◌, ◌>>◌, fail_if, map_err,
}
use mathlib.Core.Option
use rustern.Display.{TimestampZone, ZoneError, parse_arg}
use rustern.Pipeline.External.{External}
use rustern.RegexLimits.{compile_user_regex}
use rustern.Pipeline.Stages.{ExitOnLevel, ExitOnLevelError, parse}
use rustern.Discovery.PodCondition.{PodConditionFilter, ParsePodConditionError, parse_pod_condition}
use rustern.Discovery.Context.{
  ContextSelector, ContextError, Kubeconfig, resolve_kubeconfig, default_namespace,
}
use rustern.Discovery.RunResolution.{
  RunResolutionInput, RunResolutionError, resolve_pod_query, resolve_namespaces,
}

pub data ContainerStateArg : Type 0 where
  all running waiting terminated : ContainerStateArg

pub data FilterOnArg : Type 0 where
  original transformed : FilterOnArg

pub data JqModeArg : Type 0 where
  filter replace append : JqModeArg

pub data FormatArg : Type 0 where
  default_ json ext_json pp_ext_json raw : FormatArg

pub data TimestampArg : Type 0 where
  omit default_ short epoch : TimestampArg

pub data ColorArg : Type 0 where
  never always auto : ColorArg

-- The flags as clap has parsed them.
pub record Cli : Type 0 where
  pub query : Option Text
  pub kubeconfig : Option Text
  pub context : Option Text
  pub namespaces : List Text
  pub all_namespaces : Bool
  pub selector : Option Text
  pub field_selector : Option Text
  pub node : Option Text
  pub exclude_pod : List Text
  pub container : Text
  pub exclude_container : List Text
  pub init_containers : Option Bool
  pub no_init_containers : Bool
  pub ephemeral_containers : Option Bool
  pub no_ephemeral_containers : Bool
  pub container_states : List ContainerStateArg
  pub follow_short : Bool
  pub no_follow : Bool
  pub tail : Option ℤ
  pub condition : Option Text
  pub since : Option Text
  pub since_time : Option Text
  pub previous : Bool
  pub cursor_reconnect : Bool
  pub include : List Text
  pub exclude : List Text
  pub highlight : List Text
  pub only_log_lines : Bool
  pub filter_on : FilterOnArg
  pub json_query : Option Text
  pub jq_mode : JqModeArg
  pub level_key : Option Text
  pub exit_on : List Text
  pub exit_on_level : Option Text
  pub format : FormatArg
  pub timestamps : Option TimestampArg
  pub timezone : Option Text
  pub color : ColorArg
  pub pod_colors : Option Bool
  pub no_pod_colors : Bool
  pub container_colors : Option Bool
  pub no_container_colors : Bool
  pub diff_container : Bool
  pub buffer_size : ℕ
  pub lossy : Bool
  pub stats : Bool
  pub stats_interval : ℕ
  pub max_log_requests : Option ℕ

-- What the flags are checked with: `regex` and jaq with the texts of their errors, `humantime` (the
-- seconds of a duration), the parsers of the standard library, of the timestamp and of the zone,
-- the terminal, and the file system and the environment, which do not change in between.
pub record Host (x : External) : Type 1 where
  pub T : Type 0
  pub Tz : Type 0
  pub regex_new : Text → Result x.Regex Text
  pub validate_filter : Text → Result x.Filter Text
  pub parse_duration : Text → Option ℕ
  pub parse_i64 : Text → Option ℤ
  pub parse_timestamp : Text → Option T
  pub tz_from_str : Text → Option Tz
  pub is_terminal : Bool
  pub path_join : Text → Text → Text
  pub read_from : Text → Result Kubeconfig Text
  pub kubeconfig_var : Option Text
  pub home_var : Option Text

-- An error is a message, or the error that is shown as the message.
pub data CliError : Type 0 where
  message : Text → CliError
  zone : ZoneError → CliError
  level : ExitOnLevelError → CliError
  condition : ParsePodConditionError → CliError
  resolution : RunResolutionError ContextError → CliError

unfoldable pub context_selector : Cli → ContextSelector
context_selector cli = record { kubeconfig_path = cli.kubeconfig; context_name = cli.context }

unfoldable pub follow : Cli → Bool
follow cli = cli.follow_short || not cli.no_follow

-- src/run_defaults.rs
unfoldable pub run_resolution_input : Cli → RunResolutionInput
run_resolution_input cli = record {
  query = cli.query;
  selector = cli.selector;
  field_selector = cli.field_selector;
  node = cli.node;
  all_namespaces = cli.all_namespaces;
  namespace_flags = cli.namespaces;
}

abbrev pub i64_max : ℕ
i64_max = 9_223_372_036_854_775_807

seconds_of : ℕ → Result ℤ CliError
seconds_of secs =
    if leb secs i64_max then ok (pos secs) else err (message (codes "--since duration too large"))

whole_seconds : Text → Option ℤ → Result ℤ CliError
whole_seconds s none = err (message (codes "invalid --since (expected duration or seconds): " ++ s))
whole_seconds s (some n) =
    if is_negative n then err (message (codes "--since must be >= 0")) else ok n

duration_or_seconds : Text → Option ℕ → Option ℤ → Result ℤ CliError
unfolding seconds_of whole_seconds
duration_or_seconds s (some secs) n = seconds_of secs
duration_or_seconds s none n = whole_seconds s n

-- `Option` with a check inside.
unfoldable pub check_some :
    {A : Type 0} → (A → Result (Unit {0}) CliError) → Option A → Result (Unit {0}) CliError
check_some f none = ok tt
check_some f (some a) = f a

unfoldable pub drop_ok : {A : Type 0} → Result A CliError → Result (Unit {0}) CliError
drop_ok (ok a) = ok tt
drop_ok (err e) = err e

is_true : Option Bool → Bool
is_true none = false
is_true (some b) = b

is_zero : Option ℤ → Bool
is_zero (some (pos zero)) = true
is_zero _ = false

module _ {x : External} (host : Host x) where
  unfoldable pub parse_since : Text → Result ℤ CliError
  unfolding duration_or_seconds
  parse_since s =
      let s = trim s in
      if is_empty s
      then err (message (codes "empty --since"))
      else duration_or_seconds s (host.parse_duration s) (host.parse_i64 s)

  timestamp : Text → Option host.T → Result host.T CliError
  timestamp s none = err (message (codes "invalid --since-time (expected RFC3339): " ++ s))
  timestamp s (some t) = ok t

  unfoldable pub parse_since_time : Text → Result host.T CliError
  unfolding timestamp
  parse_since_time s =
      let s = trim s in
      if is_empty s
      then err (message (codes "empty --since-time"))
      else timestamp s (host.parse_timestamp s)

  unfoldable pub parse_zone : Text → Result (TimestampZone host.Tz) CliError
  parse_zone s = map_err zone (parse_arg host.tz_from_str s)

  unfoldable pub parse_level : Text → Result ExitOnLevel CliError
  parse_level s = map_err level (parse s)

  unfoldable pub parse_condition : Text → Result PodConditionFilter CliError
  parse_condition s = map_err condition (parse_pod_condition s)

  unfoldable pub compile_flag : Text → Text → Result (Unit {0}) CliError
  compile_flag label p = drop_ok (map_err message (compile_user_regex host.regex_new label p))

  -- `for p in patterns { compile_user_regex(label, p)?; }`
  unfoldable pub compile_flags : Text → List Text → Result (Unit {0}) CliError
  compile_flags label [] = ok tt
  compile_flags label (p ∷ ps) = compile_flag label p >> compile_flags label ps

  -- The namespace of the active context.
  unfoldable pub context_namespace : Cli → Result Text ContextError
  context_namespace cli =
      resolve_kubeconfig host.path_join host.read_from (context_selector cli) host.kubeconfig_var
        host.home_var
      >>= λ cfg. default_namespace cfg (context_selector cli)

  unfoldable pub resolved_pod_query : Cli → Result Text CliError
  resolved_pod_query cli = map_err resolution (resolve_pod_query (run_resolution_input cli))

  unfoldable pub resolved_namespaces : Cli → Result (List Text) CliError
  resolved_namespaces cli =
      map_err resolution (resolve_namespaces (context_namespace cli) (run_resolution_input cli))
