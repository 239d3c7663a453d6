-- ===== src/Cli/RunConfig.antt =====
-- src/run_config/mod.rs: the configuration of a run from the flags.
use rustern.Common.{
  ℤ, Bool, true, false, ◌&&◌, List, [], ◌∷◌, any, Option, none, some, Text, if◌then◌else◌, Result,
  ok, ◌>>=◌, map_err,
}
use mathlib.Core.Option
use rustern.Common.Sets.{insert}
use rustern.Display.{TimestampStyle, TimestampZone, FormatterChoice}
use rustern.Pipeline.External.{External}
use rustern.Pipeline.StageOrder.{FilterOn}
use rustern.Pipeline.Stages.{QueryMode, filter_mode, ExitOnLevel}
use rustern.Discovery.ContainerKeys.{
  ContainerLifecycleBucket, ContainerStatePolicy, subset, bucket_eq,
}
use rustern.Discovery.PodCondition.{PodConditionFilter}
use rustern.Discovery.RunResolution.{RunResolutionOutput, resolve_run_input}
use rustern.Runtime.Config.{CoreRunConfig}
use rustern.Cli.{
  Cli, Host, CliError, resolution, ContainerStateArg, FilterOnArg, JqModeArg, FormatArg,
  TimestampArg, ColorArg, context_selector, follow, run_resolution_input, parse_since,
  parse_since_time, parse_zone, parse_level, parse_condition, context_namespace,
}

-- `if no { false } else { flag.unwrap_or(default) }`
unless : Bool → Bool → Bool
unless true v = false
unless false v = v

unfoldable pub resolved_init_include : Cli → Bool
unfolding unless
resolved_init_include cli = unless cli.no_init_containers (Option.get_or cli.init_containers true)

unfoldable pub resolved_ephemeral_include : Cli → Bool
unfolding unless
resolved_ephemeral_include cli =
    unless cli.no_ephemeral_containers (Option.get_or cli.ephemeral_containers true)

unfoldable pub resolved_pod_colors : Cli → Bool
unfolding unless
resolved_pod_colors cli = unless cli.no_pod_colors (Option.get_or cli.pod_colors true)

unfoldable pub resolved_container_colors : Cli → Bool
unfolding unless resolved_pod_colors
resolved_container_colors cli =
    unless cli.no_container_colors (Option.get_or cli.container_colors (resolved_pod_colors cli))

is_all : ContainerStateArg → Bool
is_all ContainerStateArg.all = true
is_all _ = false

insert_state : ContainerStateArg → List ContainerLifecycleBucket → List ContainerLifecycleBucket
insert_state ContainerStateArg.running hs = insert ContainerLifecycleBucket.running hs
insert_state ContainerStateArg.waiting hs = insert ContainerLifecycleBucket.waiting hs
insert_state ContainerStateArg.terminated hs = insert ContainerLifecycleBucket.terminated hs
insert_state ContainerStateArg.all hs = hs

insert_states :
    List ContainerStateArg → List ContainerLifecycleBucket → List ContainerLifecycleBucket
unfolding insert_state
insert_states [] hs = hs
insert_states (s ∷ states) hs = insert_states states (insert_state s hs)

unfoldable pub resolved_container_state_policy : List ContainerStateArg → ContainerStatePolicy
unfolding is_all insert_states
resolved_container_state_policy [] = ContainerStatePolicy.all
resolved_container_state_policy (s ∷ states) =
    if any is_all (s ∷ states)
    then ContainerStatePolicy.all
    else subset (insert_states (s ∷ states) [])

unfoldable pub timestamp_style : Option TimestampArg → TimestampStyle
timestamp_style none = TimestampStyle.omit
timestamp_style (some TimestampArg.omit) = TimestampStyle.omit
timestamp_style (some TimestampArg.default_) = TimestampStyle.rfc3339
timestamp_style (some TimestampArg.short) = TimestampStyle.stern_short
timestamp_style (some TimestampArg.epoch) = TimestampStyle.epoch_seconds

color_enabled : Bool → ColorArg → Bool
color_enabled is_terminal ColorArg.never = false
color_enabled is_terminal ColorArg.always = true
color_enabled is_terminal ColorArg.auto = is_terminal

filter_on : FilterOnArg → FilterOn
filter_on FilterOnArg.original = FilterOn.original
filter_on FilterOnArg.transformed = FilterOn.transformed

unfoldable pub query_mode : JqModeArg → QueryMode
query_mode JqModeArg.filter = filter_mode
query_mode JqModeArg.replace = QueryMode.replace
query_mode JqModeArg.append = QueryMode.append

-- `.as_deref().map(f).transpose()?`
unfoldable pub transpose : {A B E : Type 0} → (A → Result B E) → Option A → Result (Option B) E
transpose f none = ok none
transpose f (some a) = f a >>= λ b. ok (some b)

module _ {x : External} (host : Host x) where
  formatter_of : Cli → TimestampZone host.Tz → Bool → FormatArg → FormatterChoice host.Tz
  formatter_of cli zone all_namespaces FormatArg.default_ =
      FormatterChoice.default_ (timestamp_style cli.timestamps) zone
        (color_enabled host.is_terminal cli.color) (resolved_pod_colors cli)
        (resolved_container_colors cli)
  formatter_of cli zone all_namespaces FormatArg.json = FormatterChoice.json
  formatter_of cli zone all_namespaces FormatArg.ext_json = FormatterChoice.ext_json all_namespaces
  formatter_of cli zone all_namespaces FormatArg.pp_ext_json =
      FormatterChoice.pp_ext_json all_namespaces
  formatter_of cli zone all_namespaces FormatArg.raw = FormatterChoice.raw

  -- The configuration, once the values are parsed.
  unfoldable pub config_of :
      Cli
      → Option ℤ
      → Option host.T
      → TimestampZone host.Tz
      → RunResolutionOutput
      → Option PodConditionFilter
      → Option ExitOnLevel
      → CoreRunConfig host.T host.Tz
  unfolding formatter_of color_enabled filter_on query_mode
  config_of cli since since_time zone out pod_condition exit_on_level = record {
    context = context_selector cli;
    query = out.resolved_query;
    namespaces = out.resolved_namespaces;
    all_namespaces = out.all_namespaces;
    selector = cli.selector;
    field_selector = cli.field_selector;
    node = cli.node;
    exclude_pod = cli.exclude_pod;
    container = cli.container;
    exclude_container = cli.exclude_container;
    container_discovery = record {
      include_init_containers = resolved_init_include cli;
      include_ephemeral_containers = resolved_ephemeral_include cli;
      state_policy = resolved_container_state_policy cli.container_states;
    };
    pod_condition = pod_condition;
    pod_log = record {
      follow = follow cli;
      tail = cli.tail;
      since_seconds = since;
      since_time = since_time;
      previous = cli.previous;
    };
    cursor_reconnect = cli.cursor_reconnect && follow cli;
    include = cli.include;
    exclude = cli.exclude;
    highlight = cli.highlight;
    only_log_lines = cli.only_log_lines;
    filter_on = filter_on cli.filter_on;
    json_query = cli.json_query;
    json_query_mode = query_mode cli.jq_mode;
    level_key = cli.level_key;
    exit_on = cli.exit_on;
    exit_on_level = exit_on_level;
    formatter = formatter_of cli zone out.all_namespaces cli.format;
    diff_container = cli.diff_container;
    fwd = record {
      buffer_size = cli.buffer_size;
      lossy = cli.lossy;
      stats = if cli.stats then some (record { interval = cli.stats_interval }) else none;
      max_log_requests = Option.get_or cli.max_log_requests (if follow cli then 50 else 5);
    };
  }

  unfoldable pub zone_of : Option Text → Result (TimestampZone host.Tz) CliError
  zone_of none = ok TimestampZone.local
  zone_of (some z) = parse_zone host z

  unfoldable pub resolved_run : Cli → Result RunResolutionOutput CliError
  resolved_run cli =
      map_err resolution (resolve_run_input (context_namespace host cli) (run_resolution_input cli))

  unfoldable pub core_run_config : Cli → Result (CoreRunConfig host.T host.Tz) CliError
  unfolding config_of zone_of
  core_run_config cli = transpose (parse_since host) cli.since >>= λ since.
      transpose (parse_since_time host) cli.since_time >>= λ since_time.
      zone_of cli.timezone >>= λ zone. resolved_run cli >>= λ out.
      transpose (parse_condition host) cli.condition >>= λ pod_condition.
      transpose (parse_level host) cli.exit_on_level >>= λ exit_on_level.
      ok (config_of cli since since_time zone out pod_condition exit_on_level)
