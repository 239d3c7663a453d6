-- ===== src/Pipeline/Stages.antt =====
-- The stages of crates/rustern-core/src/pipeline, one source file after the other: what each does to
-- one item, over the crates that it calls.
pub mod Level
pub mod Json
unfoldable pub use Level.*
unfoldable pub use Json.*
use rustern.Common.{
  ℕ, ◌%◌, ◌≡◌, Bool, true, false, not, ◌||◌, List, [], ◌∷◌, ◌++◌, map, Option, none, some, arith,
  Text, codes, leb, nat_beq, is_empty, any, filter, trim, trim_start, starts_with_char,
  to_ascii_lowercase, eq_ignore_ascii_case, split, join, text_beq, if◌then◌else◌, Result, ok, err,
}
use mathlib.Core.Option
use rustern.Source.{LogEvent, LogLevel, other, Item, SourceMeta}
use rustern.Pipeline.External.{External}

-- color_assign.rs

pub record ColorAssignOpts : Type 0 where
  pub pod_colors : Bool
  pub container_colors : Bool
  pub diff_container : Bool

unfoldable pub container_palette_key : SourceMeta → ColorAssignOpts → Text
container_palette_key meta opts = if opts.diff_container then meta.container else meta.pod

-- jq_evaluate.rs

pub data QueryMode : Type 0 where
  replace append filter_mode : QueryMode

module _ (x : External) where
  open x use {
    Regex, is_match, Value, parse_value, pointer, value_as_str, Val, parse_val, val_of_value, obj,
    utf8_str, val_text, is_null, as_bool, show_val, Filter, run, hash,
  }

  -- The structured form, an event and an item over these crates.
  abbrev pub Event : Type 0
  Event = LogEvent (Parsed x)

  abbrev pub Row : Type 0
  Row = Item (Parsed x)

  -- include_exclude.rs: the test of the filter.
  unfoldable pub include_exclude : List Regex → List Regex → Row → Bool
  include_exclude includes excludes (err e) = true
  include_exclude includes excludes (ok ev) =
      if not (is_empty includes)
      then any (λ re. is_match re ev.message) includes
      else not (any (λ re. is_match re ev.message) excludes)

  -- exit_watch.rs: when the two watches fire.
  unfoldable pub exit_watch_message : List Regex → Row → Bool
  exit_watch_message patterns (err e) = false
  exit_watch_message patterns (ok ev) = any (λ re. is_match re ev.message) patterns

  level_reaches : ℕ → Option LogLevel → Bool
  level_reaches threshold none = false
  level_reaches threshold (some lv) = leb threshold (event_level_rank lv)

  unfoldable pub exit_watch_level : ExitOnLevel → Row → Bool
  unfolding level_reaches
  exit_watch_level min_level (err e) = false
  exit_watch_level min_level (ok ev) = level_reaches (rank min_level) ev.level

  -- json_annotate.rs
  unfoldable pub annotate_event : Bool → Event → Event
  annotate_event use_jaq_val ev =
      if not (starts_with_char (trim_start ev.message) b'{')
      then ev
      else if use_jaq_val
      then elim (parse_val ev.message) [
        | some v ↦ record ev { structured = some (jaq v) }
        | none ↦ ev
      ]
      else elim (parse_value ev.message) [
        | some v ↦ record ev { structured = some (serde v) }
        | none ↦ ev
      ]

  pub annotate_event-message : (b : Bool) (ev : Event) → (annotate_event b ev).message ≡ ev.message
  unfolding annotate_event
  annotate_event-message b ev = ground arith

  unfoldable pub json_annotate : Bool → Row → Row
  json_annotate use_jaq_val (err e) = err e
  json_annotate use_jaq_val (ok ev) = ok (annotate_event use_jaq_val ev)

  -- level_classify.rs
  classify_parsed : Text → Event → Option (Parsed x) → Event
  classify_parsed key ev none = ev
  classify_parsed key ev (some parsed) =
      elim (level_str_at_dot_path_with_serde_pointer x parsed key
        (some (json_pointer_from_dot_path key)) (some (jaq_dot_path_keys x key))) [
          | none ↦ ev
          | some lv ↦ record ev { level = some (classify_str lv) }
        ]

  unfoldable pub classify_event : Option Text → Event → Event
  unfolding classify_parsed
  classify_event none ev = ev
  classify_event (some key) ev = classify_parsed key ev ev.structured

  pub classify_event-message :
      (key : Option Text) (ev : Event) → (classify_event key ev).message ≡ ev.message
  unfolding classify_event
  classify_event-message key ev = ground arith

  unfoldable pub level_classify : Option Text → Row → Row
  level_classify level_key (err e) = err e
  level_classify level_key (ok ev) = ok (classify_event level_key ev)

  -- jq_evaluate.rs
  unfoldable pub val_is_truthy : Val → Bool
  val_is_truthy v = not (is_null v || elim (as_bool v) [ some false ↦ true | _ ↦ false ])

  unfoldable pub format_outputs_joined : List Val → Text
  format_outputs_joined outputs = join (codes "\n") (map show_val outputs)

  keep_some : List (Option Val) → List Val
  keep_some [] = []
  keep_some (none ∷ rs) = keep_some rs
  keep_some (some v ∷ rs) = v ∷ keep_some rs

  -- It returns `Ok` always.
  unfoldable pub run_filter : Filter → Val → List Val
  unfolding keep_some
  run_filter f v = keep_some (run f v)

  unfoldable pub rewrite_event : QueryMode → Event → List Val → Option Row
  rewrite_event filter_mode ev outputs = if any val_is_truthy outputs then some (ok ev) else none
  rewrite_event replace ev outputs =
      some (ok (record ev { structured = none; message = format_outputs_joined outputs }))
  rewrite_event append ev outputs = some (
      ok (record ev {
        structured = none;
        message = ev.message ++ (codes " | " ++ format_outputs_joined outputs);
      }))

  unfoldable pub unparsed : QueryMode → Event → Option Row
  unparsed filter_mode ev = none
  unparsed replace ev = some (ok ev)
  unparsed append ev = some (ok ev)

  unfoldable pub jq_evaluate : Filter → QueryMode → Row → Option Row
  unfolding rewrite_event unparsed
  jq_evaluate f mode (err e) = some (err e)
  jq_evaluate f mode (ok ev) = elim ev.structured [
    | none ↦ unparsed mode ev
    | some parsed ↦ elim (to_jaq_val x parsed) [
      | none ↦ some (ok ev)
      | some value ↦ rewrite_event mode ev (run_filter f value)
    ]
  ]

  -- color_assign.rs
  unfoldable pub stable_palette_index : Text → ℕ
  stable_palette_index key = hash key % 16

  unfoldable pub apply_palette_to_meta : SourceMeta → ColorAssignOpts → SourceMeta
  apply_palette_to_meta meta opts = record meta {
    palette_index =
        if opts.pod_colors then some (stable_palette_index meta.pod) else meta.palette_index;
    container_palette_index =
        if opts.container_colors
        then some (stable_palette_index (container_palette_key meta opts))
        else meta.container_palette_index;
  }

  fill : Bool → Option ℕ → Text → Option ℕ
  fill false old key = old
  fill true none key = some (stable_palette_index key)
  fill true (some i) key = some i

  unfoldable pub color_assign : ColorAssignOpts → Row → Row
  unfolding fill
  color_assign opts (err e) = err e
  color_assign opts (ok ev) = ok (record ev {
    palette_index = fill opts.pod_colors ev.palette_index ev.source.pod;
    container_palette_index =
        fill opts.container_colors ev.container_palette_index
          (container_palette_key ev.source opts);
  })
