-- ===== src/Cli/Tests.antt =====
-- Flags and a host to run src/cli and src/run_config on.
use rustern.Common.{
  Option, ◌⊎◌, All, ℤ, pos, ◌≡◌, refl, arith, true, false, [], ◌∷◌, none, some, Text, codes,
  is_negative, is_empty, trim, eq_ignore_ascii_case, byte_len, text_beq, any, split, ap, ok, err,
  Result,
}
use rustern.Pipeline.Tests.{crates}
use rustern.Pipeline.Build.{PipelineSpec, from_run_config}
use rustern.Runtime.Config.{CoreRunConfig, RunOutcome, RunError}
use rustern.Runtime.WatchAdmission.{WatchAdmissionPolicy, try_new, Compiles}
use rustern.Cli.Main.{interrupt, main, Fails, Succeeds, main-code}
use rustern.Cli.{
  Cli, Host, FilterOnArg, JqModeArg, FormatArg, ColorArg, parse_since, parse_zone, parse_level,
  check_some, drop_ok, compile_flags, compile_flag, resolved_pod_query, resolved_namespaces,
  run_resolution_input, context_namespace, follow,
}
use rustern.Cli.Since.{IsI64, IsSeconds, parse_since-IsSeconds}
use rustern.Cli.Validate.{
  validate, validate_values, validate_conflicts, validate_patterns, validate_scope, fail,
  is_below_zero, is_no_request,
}
use rustern.Display.{parse_arg}
use rustern.RegexLimits.{compile_user_regex}
use rustern.Pipeline.Stages.{parse}
use rustern.Discovery.RunResolution.{
  resolve_pod_query, resolve_namespaces, deduped_explicit_namespaces,
}
use rustern.Cli.RunConfig.{core_run_config}
use rustern.Cli.Validated.{core_run_config-of_validate}

-- No text is a duration, and every text is the number 60.
abbrev host : Host crates
host = record {
  T = Unit {0};
  Tz = Unit {0};
  regex_new = λ s. ok s;
  validate_filter = λ s. ok tt;
  parse_duration = λ s. none;
  parse_i64 = λ s. some (pos 60);
  parse_timestamp = λ s. none;
  tz_from_str = λ s. none;
  is_terminal = true;
  path_join = λ a b. a;
  read_from = λ path. err [];
  kubeconfig_var = none;
  home_var = none;
}

abbrev flags : Cli
flags = record {
  query = some (codes "web");
  kubeconfig = none;
  context = none;
  namespaces = codes "shop" ∷ [];
  all_namespaces = false;
  selector = none;
  field_selector = none;
  node = none;
  exclude_pod = [];
  container = codes ".*";
  exclude_container = [];
  init_containers = none;
  no_init_containers = true;
  ephemeral_containers = none;
  no_ephemeral_containers = false;
  container_states = [];
  follow_short = false;
  no_follow = false;
  tail = some (pos 10);
  condition = none;
  since = some (codes "60");
  since_time = none;
  previous = false;
  cursor_reconnect = true;
  include = codes "error" ∷ [];
  exclude = [];
  highlight = [];
  only_log_lines = false;
  filter_on = FilterOnArg.original;
  json_query = some (codes ".level");
  jq_mode = JqModeArg.filter;
  level_key = none;
  exit_on = [];
  exit_on_level = some (codes "warn");
  format = FormatArg.default_;
  timestamps = none;
  timezone = some (codes "UTC");
  color = ColorArg.auto;
  pod_colors = none;
  no_pod_colors = false;
  container_colors = none;
  no_container_colors = false;
  diff_container = false;
  buffer_size = 4096;
  lossy = false;
  stats = false;
  stats_interval = 30;
  max_log_requests = none;
}

flags_are_valid : validate host flags ≡ ok tt
unfolding validate validate_values validate_conflicts validate_patterns validate_scope check_some
    drop_ok parse_since is_empty trim parse_zone parse_arg eq_ignore_ascii_case compile_flags
    compile_flag compile_user_regex byte_len is_negative parse_level parse resolved_pod_query
    resolved_namespaces resolve_pod_query resolve_namespaces deduped_explicit_namespaces
    run_resolution_input context_namespace text_beq any split follow fail is_below_zero
    is_no_request
flags_are_valid = refl

core_run_config-of_validate_example :
    (cfg : CoreRunConfig (Unit {0}) (Unit {0})) × (core_run_config host flags ≡ ok cfg)
    × (spec : PipelineSpec crates) × (from_run_config crates {K = Unit {0}} host.regex_new
          host.validate_filter cfg
          (record { triggered = false; cancelled = false })
        ≡ ok spec)
    × ((context_name : Text) (pod_regex : Option crates.Regex)
        → (policy : WatchAdmissionPolicy crates.Regex) × (try_new host.regex_new context_name
              pod_regex cfg.exclude_pod cfg.namespaces cfg.all_namespaces cfg.container
              cfg.exclude_container cfg.container_discovery cfg.pod_condition
            ≡ ok policy))
    × All (Compiles host.regex_new) cfg.highlight
core_run_config-of_validate_example =
    core_run_config-of_validate host {K = Unit {0}} flags
      (record { triggered = false; cancelled = false }) flags_are_valid

host_numbers : (s : Text) (n : ℤ) → host.parse_i64 s ≡ some n → IsI64 n
host_numbers s n h =
    let e : pos 60 ≡ n = ap (λ o. elim o [ some m ↦ m | none ↦ n ]) h in rw (← e) (omega arith)

parse_since-IsSeconds_example : IsSeconds (parse_since host (codes " 60"))
parse_since-IsSeconds_example = parse_since-IsSeconds host host_numbers (codes " 60")

-- A run that a source spoils.
abbrev spoiled :
    CoreRunConfig (Unit {0}) (Unit {0}) → Result RunOutcome (RunError (Unit {0}) (Unit {0}))
spoiled cfg = ok (record { had_source_errors = true })

main-code_example :
    ((main host flags (ok tt) spoiled (some interrupt) ≡ 1) × Fails host flags (ok tt) spoiled)
    ⊎ Succeeds host flags
        (ok tt)
        spoiled
        (some interrupt)
        (main host flags (ok tt) spoiled (some interrupt))
main-code_example = main-code host flags (ok tt) spoiled (some interrupt)
