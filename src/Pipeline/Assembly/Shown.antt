-- ===== src/Pipeline/Assembly/Shown.antt =====
-- The stages of runtime/spec.rs below the watches: the filter, the jq query, and the colours.
use rustern.Common.{
  ◌≡◌, refl, ◌∙◌, ap, Bool, true, false, not, ◌&&◌, ◌||◌, Option, none, some, arith, if◌then◌else◌,
}
use mathlib.Core.Option
use rustern.Pipeline.External.{External}
use rustern.Pipeline.StageOrder.{FilterOn, original, transformed, resolve, PipelineStageOrder}
use rustern.Pipeline.Stages.{Row, ExitWatchState, QueryMode, include_exclude, color_assign}
use rustern.Pipeline.Spec.{
  PipelineStages, needs_include_exclude, needs_color_assign, stage_if, display_stages, jq_stage,
  filter_stage, map_stage, filter_map_stage,
}
use rustern.Pipeline.Meaning.{classified, evaluated, keep_if, filtered, colored, shown_by}
use rustern.Pipeline.Filters.{include_exclude-none, include_exclude-classified}

module _ (x : External) where
  open x use {Filter}

  abbrev filtered_if : PipelineStages x → Bool → Option (Row x) → Option (Row x)
  filtered_if st b o = if b then filtered x st o else o

  include_stage_lem :
      (st : PipelineStages x) (b : Bool) (o : Option (Row x)) (w : ExitWatchState)
      → stage_if x
          (b && needs_include_exclude x st.includes st.excludes)
          (filter_stage x (include_exclude x st.includes st.excludes))
          (o, w)
        ≡ (filtered_if st b o, w)
  unfolding filter_stage filtered keep_if
  include_stage_lem st b none w = ground arith
  include_stage_lem st b (some r) w =
      ground (arith, include_exclude-none x st.includes st.excludes r)

  jq_stage_lem :
      (jq : Option (Filter × QueryMode)) (o : Option (Row x)) (w : ExitWatchState)
      → jq_stage x jq (o, w) ≡ (Option.bind o (evaluated x jq), w)
  unfolding jq_stage evaluated filter_map_stage Option.bind
  jq_stage_lem none none w = refl
  jq_stage_lem none (some r) w = refl
  jq_stage_lem (some (f, mode)) none w = refl
  jq_stage_lem (some (f, mode)) (some r) w = refl

  color_stage_lem :
      (st : PipelineStages x) (o : Option (Row x)) (w : ExitWatchState)
      → stage_if x
          (needs_color_assign st.color_opts)
          (map_stage x (color_assign x st.color_opts))
          (o, w)
        ≡ (Option.map (colored x st) o, w)
  unfolding colored map_stage
  color_stage_lem st none w = ground arith
  color_stage_lem st (some r) w = ground arith

  -- The stages below the watches: filter, jq, filter, colours, with the watches left alone.
  display_stages_lem :
      (st : PipelineStages x) (order : PipelineStageOrder) (o : Option (Row x)) (w : ExitWatchState)
      → display_stages x st order (o, w) ≡ (
        Option.map (colored x st) (
            filtered_if st order.include_after_transform (
              Option.bind
                (filtered_if st order.include_after_classify_before_transform o)
                (evaluated x st.jq))),
        w,
      )
  unfolding display_stages
  display_stages_lem st order o w = rw (
    include_stage_lem st order.include_after_classify_before_transform o w,
    jq_stage_lem,
    include_stage_lem,
    color_stage_lem,
  )

  -- The filter reads the same where it stands, so each of its places gives the same rows.
  filters-shown_by :
      (st : PipelineStages x) (f : FilterOn) (early level : Bool) (r : Row x)
      → filtered_if st (resolve f early level).include_after_transform (
          Option.bind
            (filtered_if st (resolve f early level).include_after_classify_before_transform (
              keep_if x
                (not (resolve f early level).include_before_container
                  || include_exclude x st.includes st.excludes r)
                (some (classified x st r))))
            (evaluated x st.jq))
        ≡ shown_by x f st r
  unfolding resolve shown_by filtered keep_if Option.bind
  filters-shown_by st transformed early level r = refl
  filters-shown_by st original early true r = rw (include_exclude-classified x st r) (ground arith)
  filters-shown_by st original early false r = ground arith

  pub display_stages-shown :
      (st : PipelineStages x) (f : FilterOn) (early level : Bool) (r : Row x) (w : ExitWatchState)
      → display_stages x st (resolve f early level) (
        keep_if x
            (not (resolve f early level).include_before_container
              || include_exclude x st.includes st.excludes r)
            (some (classified x st r)),
        w,
      )
        ≡ (Option.map (colored x st) (shown_by x f st r), w)
  display_stages-shown st f early level r w =
      display_stages_lem st (resolve f early level) _ w
      ∙ ap (λ o. (Option.map (colored x st) o, w)) (filters-shown_by st f early level r)
