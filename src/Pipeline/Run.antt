-- ===== src/Pipeline/Run.antt =====
-- `PipelineSpec::apply` of runtime/spec.rs over a whole stream.
use rustern.Common.{
  ◌≡◌, refl, ◌∙◌, sym, ap, true, ◌||◌, inl, inr, List, [], ◌∷◌, Option, none, some, arith, any,
  filter_map, push, if◌then◌else◌, ok, err,
}
use mathlib.Core.Option
use mathlib.Core.Path.{fun_ext}
use rustern.Source.{LogSourceError}
use rustern.Pipeline.External.{External}
use rustern.Pipeline.StageOrder.{FilterOn, original, transformed}
use rustern.Pipeline.Stages.{Row, ExitWatchState, fire}
use rustern.Pipeline.Spec.{PipelineStages, apply}
use rustern.Pipeline.Meaning.{display, exit_condition, shown_by, classified, filtered, colored}
use rustern.Pipeline.Rows.{display-error, display-IsLine}
use rustern.Pipeline.Assembly.{apply_pipeline-display}

fire-triggered : (w : ExitWatchState) → (fire w).triggered ≡ true
unfolding fire
fire-triggered w = ground arith

module _ (x : External) where
  -- The rows that come out are the displayed forms of the items, in their order.
  pub apply-rows :
      (st : PipelineStages x) (w : ExitWatchState) (rows : List (Row x))
      → (apply x st w rows).0 ≡ filter_map (display x st) rows
  unfolding apply filter_map
  apply-rows st w [] = refl
  apply-rows st w (r ∷ rows) = rw (apply_pipeline-display x st r w) (
      ap (push (display x st r)) (apply-rows st (if exit_condition x st r then fire w else w) rows))

  -- The run is to end with the exit status of `--exit-on` exactly when some item of the raw stream
  -- meets the exit condition, or the watches had fired before: the filters, the jq query and the
  -- place of the stages have no say.
  pub apply-triggered :
      (st : PipelineStages x) (w : ExitWatchState) (rows : List (Row x))
      → (apply x st w rows).1.triggered ≡ (w.triggered || any (exit_condition x st) rows)
  unfolding apply any
  apply-triggered st w [] = ground arith
  apply-triggered st w (r ∷ rows) = rw (apply_pipeline-display x st r w) (
      apply-triggered st (if exit_condition x st r then fire w else w) rows
      ∙ ground (arith, fire-triggered w))

  abbrev without_exit : PipelineStages x → PipelineStages x
  without_exit st = record st { exit_on = []; exit_on_level = none }

  filtered-without_exit :
      (st : PipelineStages x) (o : Option (Row x))
      → filtered x st o ≡ filtered x (without_exit st) o
  unfolding filtered
  filtered-without_exit st none = refl
  filtered-without_exit st (some r) = refl

  shown_by-without_exit :
      (st : PipelineStages x) (f : FilterOn) (r : Row x)
      → shown_by x f st r ≡ shown_by x f (without_exit st) r
  unfolding shown_by classified
  shown_by-without_exit st original r = refl
  shown_by-without_exit st transformed r = filtered-without_exit st _

  display-without_exit : (st : PipelineStages x) → display x st ≡ display x (without_exit st)
  unfolding display colored
  display-without_exit st =
      fun_ext λ r. ap (Option.map (colored x st)) (shown_by-without_exit st st.filter_on r)

  -- The exit options change no row of the output, though they move the stages.
  pub apply-exit_options :
      (st : PipelineStages x) (w w' : ExitWatchState) (rows : List (Row x))
      → (apply x st w rows).0
        ≡ (apply x (record st { exit_on = []; exit_on_level = none }) w' rows).0
  apply-exit_options st w w' rows =
      apply-rows st w rows
      ∙ ap (λ f. filter_map f rows) (display-without_exit st)
      ∙ sym (apply-rows (without_exit st) w' rows)

  abbrev pub source_error : Row x → Option LogSourceError
  source_error (ok ev) = none
  source_error (err e) = some e

  push-source_error :
      (st : PipelineStages x) (r : Row x) (out : List (Row x))
      → filter_map source_error (push (display x st r) out)
        ≡ push (source_error r) (filter_map source_error out)
  unfolding filter_map
  push-source_error st (err e) out = rw (display-error x st e)
  push-source_error st (ok ev) out = elim (display-IsLine x st ev) [
    | inl gone ↦ rw gone
    | inr (ev', shown) ↦ rw shown
  ]

  -- Errors of the sources come through in their order; no stage hides one or adds one.
  pub apply-errors :
      (st : PipelineStages x) (w : ExitWatchState) (rows : List (Row x))
      → filter_map source_error (apply x st w rows).0 ≡ filter_map source_error rows
  unfolding filter_map apply
  apply-errors st w [] = refl
  apply-errors st w (r ∷ rows) = rw (apply_pipeline-display x st r w) (
      push-source_error st r _
      ∙ ap (push (source_error r))
          (apply-errors st (if exit_condition x st r then fire w else w) rows))
