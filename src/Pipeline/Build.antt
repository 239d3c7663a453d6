-- ===== src/Pipeline/Build.antt =====
-- crates/rustern-core/src/runtime/spec.rs: how the stages are compiled from the configuration, and the
-- builder of the tests and benches.
use rustern.Common.{
  ◌≡◌, refl, Bool, false, List, [], ◌∷◌, ◌++◌, Option, none, some, Text, codes, Result, ok, ◌>>=◌,
  map_err,
}
use rustern.Display.{FormatterChoice, default_, json, raw, ext_json, pp_ext_json}
use rustern.Pipeline.External.{External}
use rustern.Pipeline.StageOrder.{FilterOn, original}
use rustern.Pipeline.Stages.{ExitOnLevel, ExitWatchState, ColorAssignOpts, QueryMode}
use rustern.Pipeline.Spec.{PipelineStages, needs_json_annotation}
use rustern.Runtime.Config.{CoreRunConfig, RunError, other}

unfoldable pub color_assign_opts : {Tz : Type 0} → FormatterChoice Tz → Bool → ColorAssignOpts
color_assign_opts (default_ style zone color pod_colors container_colors) diff_container = record {
  pod_colors = pod_colors;
  container_colors = container_colors;
  diff_container = diff_container;
}
color_assign_opts json diff_container = record {
  pod_colors = false;
  container_colors = false;
  diff_container = false;
}
color_assign_opts raw diff_container = record {
  pod_colors = false;
  container_colors = false;
  diff_container = false;
}
color_assign_opts (ext_json a) diff_container = record {
  pod_colors = false;
  container_colors = false;
  diff_container = false;
}
color_assign_opts (pp_ext_json a) diff_container = record {
  pod_colors = false;
  container_colors = false;
  diff_container = false;
}

unfoldable pub compile_list :
    {R : Type 0} → (Text → Result R Text) → List Text → Result (List R) Text
compile_list regex_new [] = ok []
compile_list regex_new (s ∷ patterns) =
    regex_new s >>= λ re. compile_list regex_new patterns >>= λ res. ok (re ∷ res)

invalid : {K J : Type 0} → Text → Text → RunError K J
invalid label e = other (codes "invalid " ++ (label ++ (codes " regex: " ++ e)))

unfoldable pub compile_query :
    {K J F : Type 0}
    → (Text → Result F J)
    → Option Text
    → QueryMode
    → Result (Option (F × QueryMode)) (RunError K J)
compile_query validate_filter none mode = ok none
compile_query validate_filter (some expr) mode =
    map_err RunError.jq (validate_filter expr) >>= λ f. ok (some (f, mode))

module _ (x : External) where
  open x use {Regex, Filter}

  -- The stages, and the watch that they share with the run.
  pub record PipelineSpec : Type 0 where
    pub stages : PipelineStages x
    pub exit_watch : ExitWatchState

  pub record PipelineSpecBuilder : Type 0 where
    pub includes : List Regex
    pub excludes : List Regex
    pub filter_on : FilterOn
    pub jq : Option (Filter × QueryMode)
    pub level_key : Option Text
    pub color_assign : ColorAssignOpts
    pub exit_on : List Regex
    pub exit_on_level : Option ExitOnLevel

  unfoldable pub new : PipelineSpecBuilder
  new = record {
    includes = [];
    excludes = [];
    filter_on = original;
    jq = none;
    level_key = none;
    color_assign = record { pod_colors = false; container_colors = false; diff_container = false };
    exit_on = [];
    exit_on_level = none;
  }

  unfoldable pub with_includes : List Regex → PipelineSpecBuilder → PipelineSpecBuilder
  with_includes patterns b = record b { includes = patterns }

  unfoldable pub with_excludes : List Regex → PipelineSpecBuilder → PipelineSpecBuilder
  with_excludes patterns b = record b { excludes = patterns }

  unfoldable pub with_filter_on : FilterOn → PipelineSpecBuilder → PipelineSpecBuilder
  with_filter_on filter_on b = record b { filter_on = filter_on }

  unfoldable pub with_jq : Option (Filter × QueryMode) → PipelineSpecBuilder → PipelineSpecBuilder
  with_jq jq b = record b { jq = jq }

  unfoldable pub with_level_key : Option Text → PipelineSpecBuilder → PipelineSpecBuilder
  with_level_key level_key b = record b { level_key = level_key }

  unfoldable pub with_color_assign : ColorAssignOpts → PipelineSpecBuilder → PipelineSpecBuilder
  with_color_assign opts b = record b { color_assign = opts }

  unfoldable pub with_exit_on : List Regex → PipelineSpecBuilder → PipelineSpecBuilder
  with_exit_on patterns b = record b { exit_on = patterns }

  unfoldable pub with_exit_on_level : Option ExitOnLevel → PipelineSpecBuilder → PipelineSpecBuilder
  with_exit_on_level level b = record b { exit_on_level = level }

  unfoldable pub build_spec : PipelineSpecBuilder → ExitWatchState → PipelineSpec
  build_spec b exit_watch = record {
    stages = record {
      includes = b.includes;
      excludes = b.excludes;
      filter_on = b.filter_on;
      jq = b.jq;
      level_key = b.level_key;
      color_opts = b.color_assign;
      exit_on = b.exit_on;
      exit_on_level = b.exit_on_level;
      needs_json_annotation = needs_json_annotation x b.jq b.level_key;
    };
    exit_watch = exit_watch;
  }

  unfoldable pub triggered : PipelineSpec → Bool
  triggered spec = spec.exit_watch.triggered

  -- `Regex::new` with the text of its error, and `validate_filter`.
  unfoldable pub from_run_config :
      {K J T Tz : Type 0}
      → (Text → Result Regex Text)
      → (Text → Result Filter J)
      → CoreRunConfig T Tz
      → ExitWatchState
      → Result PipelineSpec (RunError K J)
  unfolding compile_list invalid compile_query
  from_run_config regex_new validate_filter cfg exit_watch =
      map_err (invalid (codes "--include")) (compile_list regex_new cfg.include) >>= λ includes.
      map_err (invalid (codes "--exclude")) (compile_list regex_new cfg.exclude) >>= λ excludes.
      compile_query validate_filter cfg.json_query cfg.json_query_mode >>= λ jq.
      map_err (invalid (codes "--exit-on")) (compile_list regex_new cfg.exit_on) >>= λ exit_on.
      ok (record {
        stages = record {
          includes = includes;
          excludes = excludes;
          filter_on = cfg.filter_on;
          jq = jq;
          level_key = cfg.level_key;
          color_opts = color_assign_opts cfg.formatter cfg.diff_container;
          exit_on = exit_on;
          exit_on_level = cfg.exit_on_level;
          needs_json_annotation = needs_json_annotation x jq cfg.level_key;
        };
        exit_watch = exit_watch;
      })

  -- The builder with the compiled parts of a configuration.
  abbrev pub builder_of :
      {T Tz : Type 0}
      → CoreRunConfig T Tz
      → List Regex
      → List Regex
      → Option (Filter × QueryMode)
      → List Regex
      → PipelineSpecBuilder
  builder_of cfg includes excludes jq exit_on = with_includes includes (
      with_excludes excludes (
        with_filter_on cfg.filter_on (
          with_jq jq (
            with_level_key cfg.level_key (
              with_color_assign (color_assign_opts cfg.formatter cfg.diff_container)
                (with_exit_on exit_on (with_exit_on_level cfg.exit_on_level new)))))))

  -- Where all patterns and the filter of a configuration compile, the run has the spec that the
  -- builder makes of the compiled parts, with the same watch.
  pub from_run_config-build_spec :
      {K J T Tz : Type 0} (regex_new : Text → Result Regex Text)
      (validate_filter : Text → Result Filter J) (cfg : CoreRunConfig T Tz)
      (exit_watch : ExitWatchState) (includes excludes exit_on : List Regex)
      (query : Option (Filter × QueryMode))
      → compile_list regex_new cfg.include ≡ ok includes
      → compile_list regex_new cfg.exclude ≡ ok excludes
      → compile_query {K = K} validate_filter cfg.json_query cfg.json_query_mode ≡ ok query
      → compile_list regex_new cfg.exit_on ≡ ok exit_on
      → from_run_config {K = K} regex_new validate_filter cfg exit_watch
        ≡ ok (build_spec (builder_of cfg includes excludes query exit_on) exit_watch)
  unfolding from_run_config build_spec new with_includes with_excludes with_filter_on with_jq
      with_level_key with_color_assign with_exit_on with_exit_on_level
  from_run_config-build_spec regex_new validate_filter cfg exit_watch includes excludes exit_on
        query i e q o =
      rw (i, e, q, o) refl
