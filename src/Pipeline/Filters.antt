-- ===== src/Pipeline/Filters.antt =====
-- The include/exclude filter of runtime/spec.rs reads only the message, which the annotation and
-- the level classification leave alone; a watch with no pattern sees nothing.
use rustern.Common.{
  ◌≡◌, refl, ◌∙◌, Bool, true, false, List, [], Option, none, some, arith, Text, is_empty, any, ok,
  err,
}
use rustern.Pipeline.External.{External}
use rustern.Pipeline.Stages.{
  Row, ExitWatchState, fire, include_exclude, exit_watch_message, json_annotate, level_classify,
  annotate_event-message, classify_event-message,
}
use rustern.Pipeline.Spec.{PipelineStages, needs_include_exclude}
use rustern.Pipeline.Meaning.{classify_row, annotate_row, classified}

module _ (x : External) where
  open x use {Regex, Filter}

  -- Neither of the two stages touches the message, so the filter reads the same before and after.
  pub include_exclude-json_annotate :
      (is es : List Regex) (b : Bool) (r : Row x)
      → include_exclude x is es (json_annotate x b r) ≡ include_exclude x is es r
  unfolding json_annotate include_exclude
  include_exclude-json_annotate is es b (err e) = refl
  include_exclude-json_annotate is es b (ok ev) = rw annotate_event-message

  pub include_exclude-level_classify :
      (is es : List Regex) (key : Option Text) (r : Row x)
      → include_exclude x is es (level_classify x key r) ≡ include_exclude x is es r
  unfolding include_exclude level_classify
  include_exclude-level_classify is es key (err e) = refl
  include_exclude-level_classify is es key (ok ev) = rw classify_event-message

  pub include_exclude-none :
      (is es : List Regex) (r : Row x)
      → needs_include_exclude x is es ≡ false
      → include_exclude x is es r ≡ true
  unfolding include_exclude needs_include_exclude is_empty any
  include_exclude-none [] [] (err e) h = refl
  include_exclude-none [] [] (ok ev) h = refl
  include_exclude-none _ _ _ h = ground arith

  pub exit_watch_message-none :
      (ps : List Regex) (r : Row x) → is_empty ps ≡ true → exit_watch_message x ps r ≡ false
  unfolding exit_watch_message any is_empty
  exit_watch_message-none [] (err e) h = refl
  exit_watch_message-none [] (ok ev) h = refl
  exit_watch_message-none _ _ h = ground arith

  pub fire_idem : (w : ExitWatchState) → fire (fire w) ≡ fire w
  unfolding fire
  fire_idem w = ground arith

  pub include_exclude-classify_row :
      (is es : List Regex) (key : Option Text) (r : Row x)
      → include_exclude x is es (classify_row x key r) ≡ include_exclude x is es r
  unfolding classify_row
  include_exclude-classify_row is es none r = refl
  include_exclude-classify_row is es (some key) r =
      include_exclude-level_classify is es (some key) r

  pub include_exclude-annotate_row :
      (is es : List Regex) (b c : Bool) (r : Row x)
      → include_exclude x is es (annotate_row x b c r) ≡ include_exclude x is es r
  unfolding annotate_row
  include_exclude-annotate_row is es false c r = refl
  include_exclude-annotate_row is es true c r = include_exclude-json_annotate is es c r

  pub include_exclude-classified :
      (st : PipelineStages x) (r : Row x)
      → include_exclude x st.includes st.excludes (classified x st r)
        ≡ include_exclude x st.includes st.excludes r
  unfolding classified
  include_exclude-classified st r =
      include_exclude-classify_row st.includes st.excludes st.level_key _
      ∙ include_exclude-annotate_row st.includes st.excludes _ _ r
