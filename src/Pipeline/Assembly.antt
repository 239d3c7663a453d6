-- ===== src/Pipeline/Assembly.antt =====
-- The assembled pipeline of runtime/spec.rs does what Meaning says, for every order of its stages.
mod Shown
use rustern.Common.{
  ◌≡◌, refl, ◌∙◌, ap, Bool, true, false, not, ◌&&◌, ◌||◌, Option, none, some, arith, Text, is_empty,
  is_some, if◌then◌else◌,
}
use mathlib.Core.Option
use rustern.Pipeline.External.{External}
use rustern.Pipeline.StageOrder.{FilterOn, original, transformed, resolve, PipelineStageOrder}
use rustern.Pipeline.Stages.{
  Row, ExitOnLevel, ExitWatchState, fire, QueryMode, include_exclude, exit_watch_message,
  json_annotate, color_assign,
}
use rustern.Pipeline.Spec.{
  PipelineStages, apply_pipeline, needs_include_exclude, needs_color_assign, raw_stages,
  level_stages, stage_if, display_stages, classify_stage, level_watch_stage, jq_stage, filter_stage,
  map_stage, filter_map_stage, watch_stage,
}
use rustern.Pipeline.Meaning.{
  classify_row, annotate_row, classified, level_hit, exit_condition, evaluated, keep_if, filtered,
  colored, shown_by, display,
}
use rustern.Pipeline.Filters.{
  include_exclude-none, exit_watch_message-none, fire_idem, include_exclude-classified,
}
use rustern.Pipeline.Assembly.Shown.{display_stages-shown}

module _ (x : External) where
  abbrev seen : Bool → ExitWatchState → ExitWatchState
  seen b w = if b then fire w else w

  -- Before the annotation: the item as it was, unless the filter stands here and drops it.
  raw_stages-order :
      (st : PipelineStages x) (f : FilterOn) (level : Bool) (r : Row x) (w : ExitWatchState)
      → raw_stages x st (resolve f (not (is_empty st.exit_on)) level) (some r, w) ≡ (
        keep_if x
            (not (resolve f (not (is_empty st.exit_on)) level).include_before_container
              || include_exclude x st.includes st.excludes r)
            (some r),
        seen (exit_watch_message x st.exit_on r) w,
      )
  unfolding raw_stages resolve watch_stage filter_stage keep_if
  raw_stages-order st f level r w = ground (
    arith,
    include_exclude-none x st.includes st.excludes r,
    exit_watch_message-none x st.exit_on r,
  )

  annotate_stage_lem :
      (b c : Bool) (r : Row x) (w : ExitWatchState)
      → (if b then map_stage x (json_annotate x c) (some r, w) else (some r, w))
        ≡ (some (annotate_row x b c r), w)
  unfolding annotate_row map_stage
  annotate_stage_lem true c r w = refl
  annotate_stage_lem false c r w = refl

  classify_stage_lem :
      (key : Option Text) (r : Row x) (w : ExitWatchState)
      → classify_stage x key (some r, w) ≡ (some (classify_row x key r), w)
  unfolding classify_stage classify_row map_stage
  classify_stage_lem none r w = refl
  classify_stage_lem (some key) r w = refl

  level_watch_stage_lem :
      (level : Option ExitOnLevel) (r : Row x) (w : ExitWatchState)
      → level_watch_stage x level (some r, w) ≡ (some r, seen (level_hit x level r) w)
  unfolding level_watch_stage level_hit watch_stage
  level_watch_stage_lem none r w = refl
  level_watch_stage_lem (some level) r w = refl

  level_stages-classified :
      (st : PipelineStages x) (r : Row x) (w : ExitWatchState)
      → level_stages x st (some r, w)
        ≡ (some (classified x st r), seen (level_hit x st.exit_on_level (classified x st r)) w)
  unfolding level_stages classified
  level_stages-classified st r w =
      ap (λ s. level_watch_stage x st.exit_on_level (classify_stage x st.level_key s))
        (annotate_split st.needs_json_annotation)
      ∙ ap (level_watch_stage x st.exit_on_level) (classify_stage_lem st.level_key _ w)
      ∙ level_watch_stage_lem st.exit_on_level _ w
    where
      annotate_split :
          (b : Bool)
          → stage_if x b (map_stage x (json_annotate x (is_some st.jq))) (some r, w)
            ≡ (some (annotate_row x b (is_some st.jq) r), w)
      annotate_split true = annotate_stage_lem true (is_some st.jq) r w
      annotate_split false = annotate_stage_lem false (is_some st.jq) r w

  level_stages-none :
      (st : PipelineStages x) (w : ExitWatchState) → level_stages x st (none, w) ≡ (none, w)
  unfolding level_stages
  level_stages-none st w =
      ap (λ s. level_watch_stage x st.exit_on_level (classify_stage x st.level_key s))
        (annotate_none st.needs_json_annotation)
      ∙ ap (level_watch_stage x st.exit_on_level) (classify_none st.level_key)
      ∙ level_none st.exit_on_level
    where
      annotate_none :
          (b : Bool)
          → stage_if x b (map_stage x (json_annotate x (is_some st.jq))) (none, w) ≡ (none, w)
      annotate_none true = unfold map_stage in refl
      annotate_none false = refl

      classify_none : (key : Option Text) → classify_stage x key (none, w) ≡ (none, w)
      classify_none none = unfold classify_stage in refl
      classify_none (some key) = unfold classify_stage map_stage in refl

      level_none : (level : Option ExitOnLevel) → level_watch_stage x level (none, w) ≡ (none, w)
      level_none none = unfold level_watch_stage in refl
      level_none (some level) = unfold level_watch_stage watch_stage in refl

  -- The filter stands above the level watch only where there is none.
  level_hit-dropped :
      (f : FilterOn) (level : Option ExitOnLevel) (early kept : Bool) (r : Row x)
      → (not (resolve f early (is_some level)).include_before_container || kept) ≡ false
      → level_hit x level r ≡ false
  unfolding resolve level_hit
  level_hit-dropped f none early kept r h = refl
  level_hit-dropped original (some level) early kept r h = ground arith
  level_hit-dropped transformed (some level) early kept r h = ground arith

  seen-seen : (a b : Bool) (w : ExitWatchState) → seen b (seen a w) ≡ seen (a || b) w
  seen-seen a b w = ground (arith, fire_idem x w)

  level_stages-keep_if :
      (st : PipelineStages x) (kept hit : Bool) (r : Row x) (w : ExitWatchState)
      → (kept ≡ false → level_hit x st.exit_on_level (classified x st r) ≡ false)
      → level_stages x st (keep_if x kept (some r), seen hit w) ≡ (
        keep_if x kept (some (classified x st r)),
        seen (hit || level_hit x st.exit_on_level (classified x st r)) w,
      )
  unfolding keep_if
  level_stages-keep_if st true hit r w h =
      level_stages-classified st r (seen hit w)
      ∙ ap (λ v. (some (classified x st r), v)) (seen-seen hit _ w)
  level_stages-keep_if st false hit r w h =
      level_stages-none st (seen hit w) ∙ ap (λ v. (none, v)) (rw (h refl) (ground arith))

  -- What reaches the stages below the watches, and the watches then.
  watched_stages_lem :
      (st : PipelineStages x) (f : FilterOn) (r : Row x) (w : ExitWatchState)
      → level_stages x st (
          raw_stages x st
            (resolve f (not (is_empty st.exit_on)) (is_some st.exit_on_level))
            (some r, w))
        ≡ (
          keep_if x
              (not
                  (resolve f
                    (not (is_empty st.exit_on))
                    (is_some st.exit_on_level)).include_before_container
                || include_exclude x st.includes st.excludes r)
              (some (classified x st r)),
          seen (exit_condition x st r) w,
        )
  unfolding exit_condition
  watched_stages_lem st f r w =
      ap (level_stages x st) (raw_stages-order st f (is_some st.exit_on_level) r w)
      ∙ level_stages-keep_if st _ _ r w (level_hit-dropped f st.exit_on_level _ _ _)

  -- What comes out of the assembled pipeline, and what the watches have seen, whatever the order
  -- that the options ask for.
  pub apply_pipeline-display :
      (st : PipelineStages x) (r : Row x) (w : ExitWatchState)
      → apply_pipeline x st (some r, w)
        ≡ (display x st r, (if exit_condition x st r then fire w else w))
  unfolding apply_pipeline display
  apply_pipeline-display st r w =
      ap
        (display_stages x st
          (resolve st.filter_on (not (is_empty st.exit_on)) (is_some st.exit_on_level)))
        (watched_stages_lem st st.filter_on r w)
      ∙ display_stages-shown x st st.filter_on _ _ r _
