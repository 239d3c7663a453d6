-- ===== src/Pipeline/Spec.antt =====
-- crates/rustern-core/src/runtime/spec.rs: the stages put together. One item goes through all of
-- them before the next is pulled, and the watches share one state.
use rustern.Common.{
  Bool, true, false, not, ◌&&◌, ◌||◌, List, [], ◌∷◌, Option, none, some, Text, is_empty, push,
  is_some, if◌then◌else◌,
}
use mathlib.Core.Option
use rustern.Pipeline.External.{External}
use rustern.Pipeline.StageOrder.{FilterOn, PipelineStageOrder, resolve}
use rustern.Pipeline.Stages.{
  Row, ExitOnLevel, ExitWatchState, fire, ColorAssignOpts, QueryMode, include_exclude,
  exit_watch_message, exit_watch_level, json_annotate, level_classify, jq_evaluate, color_assign,
}

unfoldable pub needs_color_assign : ColorAssignOpts → Bool
needs_color_assign opts = opts.pod_colors || opts.container_colors

module _ (x : External) where
  open x use {Regex, Filter}

  pub record PipelineStages : Type 0 where
    pub includes : List Regex
    pub excludes : List Regex
    pub filter_on : FilterOn
    pub jq : Option (Filter × QueryMode)
    pub level_key : Option Text
    pub color_opts : ColorAssignOpts
    pub exit_on : List Regex
    pub exit_on_level : Option ExitOnLevel
    pub needs_json_annotation : Bool

  unfoldable pub needs_json_annotation : Option (Filter × QueryMode) → Option Text → Bool
  needs_json_annotation jq level_key = is_some jq || is_some level_key

  unfoldable pub needs_include_exclude : List Regex → List Regex → Bool
  needs_include_exclude includes excludes = not (is_empty includes) || not (is_empty excludes)

  -- An item on its way, if no stage has dropped it, and the state of the watches.
  abbrev pub Flow : Type 0
  Flow = Option (Row x) × ExitWatchState

  -- The stream combinators `map`, `filter` and `filter_map`, and `map` with a watch.
  unfoldable pub map_stage : (Row x → Row x) → Flow → Flow
  map_stage f (o, w) = (Option.map f o, w)

  unfoldable pub filter_map_stage : (Row x → Option (Row x)) → Flow → Flow
  filter_map_stage f (o, w) = (Option.bind o f, w)

  unfoldable pub filter_stage : (Row x → Bool) → Flow → Flow
  filter_stage p (none, w) = (none, w)
  filter_stage p (some r, w) = (if p r then some r else none, w)

  unfoldable pub watch_stage : (Row x → Bool) → Flow → Flow
  watch_stage p (none, w) = (none, w)
  watch_stage p (some r, w) = (some r, if p r then fire w else w)

  -- `if test { s = stage(s) }`.
  abbrev pub stage_if : Bool → (Flow → Flow) → Flow → Flow
  stage_if true stage s = stage s
  stage_if false stage s = s

  unfoldable pub classify_stage : Option Text → Flow → Flow
  classify_stage none s = s
  classify_stage (some key) s = map_stage (level_classify x (some key)) s

  unfoldable pub level_watch_stage : Option ExitOnLevel → Flow → Flow
  level_watch_stage none s = s
  level_watch_stage (some min_level) s = watch_stage (exit_watch_level x min_level) s

  unfoldable pub jq_stage : Option (Filter × QueryMode) → Flow → Flow
  jq_stage none s = s
  jq_stage (some (f, mode)) s = filter_map_stage (jq_evaluate x f mode) s

  -- The stages above `json_annotate`.
  unfoldable pub raw_stages : PipelineStages → PipelineStageOrder → Flow → Flow
  raw_stages st order s0 =
      let early = order.exit_on_message_before_filters in
      let message_watch = watch_stage (exit_watch_message x st.exit_on) in
      let include_stage = filter_stage (include_exclude x st.includes st.excludes) in
      let needed = needs_include_exclude st.includes st.excludes in
      let s1 = stage_if early message_watch s0 in
      let s2 = stage_if (order.include_before_container && needed) include_stage s1 in
      stage_if (not early && not (is_empty st.exit_on)) message_watch s2

  -- From `json_annotate` to the level watch.
  unfoldable pub level_stages : PipelineStages → Flow → Flow
  level_stages st s3 =
      let s4 = stage_if st.needs_json_annotation (map_stage (json_annotate x (is_some st.jq))) s3 in
      let s5 = classify_stage st.level_key s4 in level_watch_stage st.exit_on_level s5

  -- The stages below the level watch.
  unfoldable pub display_stages : PipelineStages → PipelineStageOrder → Flow → Flow
  display_stages st order s6 =
      let include_stage = filter_stage (include_exclude x st.includes st.excludes) in
      let needed = needs_include_exclude st.includes st.excludes in
      let s7 =
        stage_if (order.include_after_classify_before_transform && needed) include_stage s6 in
      let s8 = jq_stage st.jq s7 in
      let s9 = stage_if (order.include_after_transform && needed) include_stage s8 in
      stage_if (needs_color_assign st.color_opts) (map_stage (color_assign x st.color_opts)) s9

  unfoldable pub apply_pipeline : PipelineStages → Flow → Flow
  apply_pipeline st s =
      let order = resolve st.filter_on (not (is_empty st.exit_on)) (is_some st.exit_on_level) in
      display_stages st order (level_stages st (raw_stages st order s))

  -- `PipelineSpec::apply` on the items that the multiplexer sent: the rows that come out, and the
  -- state of the watches after the last of them.
  unfoldable pub apply :
      PipelineStages → ExitWatchState → List (Row x) → List (Row x) × ExitWatchState
  apply st w [] = ([], w)
  apply st w (r ∷ rows) =
      let (o, w') = apply_pipeline st (some r, w) in
      let (out, w'') = apply st w' rows in (push o out, w'')
