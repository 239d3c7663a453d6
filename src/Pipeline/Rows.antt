-- ===== src/Pipeline/Rows.antt =====
-- Lines and source errors under the stages: an error passes every stage, and of a line a stage
-- makes a line or nothing.
use rustern.Common.{
  ◌≡◌, refl, Bool, true, false, ◌⊎◌, inl, inr, Option, none, some, arith, Text, List, any, is_some,
  Bool-cases, Option-cases, ok, err,
}
use mathlib.Core.Option
use rustern.Source.{LogSourceError}
use rustern.Pipeline.External.{External}
use rustern.Pipeline.StageOrder.{FilterOn, original, transformed}
use rustern.Pipeline.Stages.{
  Row, Event, QueryMode, replace, append, filter_mode, include_exclude, json_annotate,
  level_classify, jq_evaluate, color_assign, to_jaq_val, run_filter, val_is_truthy, unparsed,
  rewrite_event,
}
use rustern.Pipeline.Spec.{PipelineStages, needs_color_assign}
use rustern.Pipeline.Meaning.{
  display, shown_by, classified, classify_row, annotate_row, evaluated, filtered, colored, keep_if,
}

module _ (x : External) where
  open x use {Filter, Val}

  -- A line, or nothing.
  abbrev pub IsLine : Option (Row x) → Type 0
  IsLine o = (o ≡ none) ⊎ ((ev : Event x) × (o ≡ some (ok ev)))

  classified-error :
      (key : Option Text) (b c : Bool) (e : LogSourceError)
      → classify_row x key (annotate_row x b c (err e)) ≡ err e
  unfolding classify_row annotate_row json_annotate level_classify
  classified-error none true c e = refl
  classified-error none false c e = refl
  classified-error (some key) true c e = refl
  classified-error (some key) false c e = refl

  classified-line :
      (key : Option Text) (b c : Bool) (ev : Event x)
      → (ev' : Event x) × (classify_row x key (annotate_row x b c (ok ev)) ≡ ok ev')
  unfolding classify_row annotate_row json_annotate level_classify
  classified-line none true c ev = (_, refl)
  classified-line none false c ev = (_, refl)
  classified-line (some key) true c ev = (_, refl)
  classified-line (some key) false c ev = (_, refl)

  evaluated-error :
      (jq : Option (Filter × QueryMode)) (e : LogSourceError)
      → evaluated x jq (err e) ≡ some (err e)
  unfolding evaluated jq_evaluate
  evaluated-error none e = refl
  evaluated-error (some (f, mode)) e = refl

  unparsed-IsLine : (mode : QueryMode) (ev : Event x) → IsLine (unparsed x mode ev)
  unfolding unparsed
  unparsed-IsLine filter_mode ev = inl refl
  unparsed-IsLine replace ev = inr (ev, refl)
  unparsed-IsLine append ev = inr (ev, refl)

  rewrite_event-IsLine :
      (mode : QueryMode) (ev : Event x) (outputs : List Val)
      → IsLine (rewrite_event x mode ev outputs)
  unfolding rewrite_event
  rewrite_event-IsLine filter_mode ev outputs = elim (Bool-cases (any (val_is_truthy x) outputs)) [
    | inl e ↦ rw e (inr (ev, refl))
    | inr e ↦ rw e (inl refl)
  ]
  rewrite_event-IsLine replace ev outputs = inr (_, refl)
  rewrite_event-IsLine append ev outputs = inr (_, refl)

  jq_evaluate-IsLine :
      (f : Filter) (mode : QueryMode) (ev : Event x) → IsLine (jq_evaluate x f mode (ok ev))
  unfolding jq_evaluate
  jq_evaluate-IsLine f mode ev = elim (Option-cases ev.structured) [
    | inl e ↦ rw (e, jq_evaluate) (unparsed-IsLine mode ev)
    | inr (parsed, e) ↦ elim (Option-cases (to_jaq_val x parsed)) [
      | inl e' ↦ rw (e, jq_evaluate, e') (inr (ev, refl))
      | inr (v, e') ↦ rw (e, jq_evaluate, e') (rewrite_event-IsLine mode ev (run_filter x f v))
    ]
  ]

  evaluated-IsLine :
      (jq : Option (Filter × QueryMode)) (ev : Event x) → IsLine (evaluated x jq (ok ev))
  unfolding evaluated
  evaluated-IsLine none ev = inr (ev, refl)
  evaluated-IsLine (some (f, mode)) ev = jq_evaluate-IsLine f mode ev

  keep_if-IsLine : (b : Bool) (o : Option (Row x)) → IsLine o → IsLine (keep_if x b o)
  unfolding keep_if
  keep_if-IsLine true o l = l
  keep_if-IsLine false o l = inl refl

  filtered-IsLine :
      (st : PipelineStages x) (o : Option (Row x)) → IsLine o → IsLine (filtered x st o)
  unfolding filtered
  filtered-IsLine st o (inl e) = rw e (inl refl)
  filtered-IsLine st o (inr (ev, e)) = rw e (keep_if-IsLine _ _ (inr (ev, refl)))

  shown_by-IsLine :
      (st : PipelineStages x) (f : FilterOn) (ev : Event x) → IsLine (shown_by x f st (ok ev))
  unfolding shown_by classified
  shown_by-IsLine st original ev =
      let (ev', e) = classified-line st.level_key st.needs_json_annotation (is_some st.jq) ev in
      rw e (keep_if-IsLine _ _ (evaluated-IsLine st.jq ev'))
  shown_by-IsLine st transformed ev =
      let (ev', e) = classified-line st.level_key st.needs_json_annotation (is_some st.jq) ev in
      rw e (filtered-IsLine st _ (evaluated-IsLine st.jq ev'))

  shown_by-error :
      (st : PipelineStages x) (f : FilterOn) (e : LogSourceError)
      → shown_by x f st (err e) ≡ some (err e)
  unfolding shown_by classified filtered keep_if include_exclude
  shown_by-error st original e =
      rw (classified-error st.level_key st.needs_json_annotation _ e) (evaluated-error st.jq e)
  shown_by-error st transformed e =
      rw (classified-error st.level_key st.needs_json_annotation _ e, evaluated-error st.jq e)

  colored-IsLine :
      (st : PipelineStages x) (o : Option (Row x)) → IsLine o → IsLine (Option.map (colored x st) o)
  unfolding colored color_assign
  colored-IsLine st o (inl e) = rw e (inl refl)
  colored-IsLine st o (inr (ev, e)) =
      rw e (colored_some (Bool-cases (needs_color_assign st.color_opts)))
    where
      colored_some :
          (needs_color_assign st.color_opts ≡ true) ⊎ (needs_color_assign st.color_opts ≡ false)
          → IsLine (some (colored x st (ok ev)))
      colored_some (inl h) = rw h (inr (_, refl))
      colored_some (inr h) = rw h (inr (ev, refl))

  -- An error of a source keeps its place: nothing drops or changes it.
  pub display-error :
      (st : PipelineStages x) (e : LogSourceError) → display x st (err e) ≡ some (err e)
  unfolding display colored color_assign
  display-error st e = rw (shown_by-error st st.filter_on e) (ground arith)

  -- Of a line the pipeline makes a line or nothing.
  pub display-IsLine : (st : PipelineStages x) (ev : Event x) → IsLine (display x st (ok ev))
  unfolding display
  display-IsLine st ev = colored-IsLine st _ (shown_by-IsLine st st.filter_on ev)
