-- ===== src/Pipeline/Meaning.antt =====
-- What the assembled pipeline of runtime/spec.rs does to an item, described with no order of
-- stages: which rows come out, and when the exit watches fire.
use rustern.Common.{Bool, true, false, ◌||◌, Option, none, some, Text, is_some, if◌then◌else◌}
use mathlib.Core.Option
use rustern.Pipeline.External.{External}
use rustern.Pipeline.StageOrder.{FilterOn, original, transformed}
use rustern.Pipeline.Stages.{
  Row, ExitOnLevel, QueryMode, include_exclude, exit_watch_message, exit_watch_level, json_annotate,
  level_classify, jq_evaluate, color_assign,
}
use rustern.Pipeline.Spec.{PipelineStages, needs_color_assign}

module _ (x : External) where
  open x use {Regex, Filter}

  -- The item as the level watch sees it.
  unfoldable pub classify_row : Option Text → Row x → Row x
  classify_row none r = r
  classify_row (some key) r = level_classify x (some key) r

  unfoldable pub annotate_row : Bool → Bool → Row x → Row x
  annotate_row true use_jaq_val r = json_annotate x use_jaq_val r
  annotate_row false use_jaq_val r = r

  unfoldable pub classified : PipelineStages x → Row x → Row x
  unfolding classify_row annotate_row
  classified st r =
      classify_row st.level_key (annotate_row st.needs_json_annotation (is_some st.jq) r)

  unfoldable pub level_hit : Option ExitOnLevel → Row x → Bool
  level_hit none r = false
  level_hit (some min_level) r = exit_watch_level x min_level r

  -- Whether an item must end the run.
  unfoldable pub exit_condition : PipelineStages x → Row x → Bool
  unfolding classified level_hit
  exit_condition st r =
      exit_watch_message x st.exit_on r || level_hit st.exit_on_level (classified st r)

  unfoldable pub evaluated : Option (Filter × QueryMode) → Row x → Option (Row x)
  evaluated none r = some r
  evaluated (some (f, mode)) r = jq_evaluate x f mode r

  unfoldable pub keep_if : Bool → Option (Row x) → Option (Row x)
  keep_if true o = o
  keep_if false o = none

  unfoldable pub filtered : PipelineStages x → Option (Row x) → Option (Row x)
  filtered st none = none
  filtered st (some r) = keep_if (include_exclude x st.includes st.excludes r) (some r)

  unfoldable pub colored : PipelineStages x → Row x → Row x
  colored st r = if needs_color_assign st.color_opts then color_assign x st.color_opts r else r

  unfoldable pub shown_by : FilterOn → PipelineStages x → Row x → Option (Row x)
  shown_by original st r =
      keep_if (include_exclude x st.includes st.excludes r) (evaluated st.jq (classified st r))
  shown_by transformed st r = filtered st (evaluated st.jq (classified st r))

  -- The row that an item becomes, if it is shown: nothing here reads the exit options.
  unfoldable pub display : PipelineStages x → Row x → Option (Row x)
  unfolding shown_by filtered evaluated colored classified keep_if
  display st r = Option.map (colored st) (shown_by st.filter_on st r)
