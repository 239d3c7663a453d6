-- ===== src/Pipeline/Tests.antt =====
-- Crates, stages and log lines to run the pipeline of runtime/spec.rs on.
use rustern.Common.{
  ◌≡◌, refl, Bool, true, false, ◌||◌, List, [], ◌∷◌, Option, none, some, Text, codes, text_beq, any,
  filter_map, is_empty, trim, to_ascii_lowercase, ok, err,
}
use rustern.Source.{SourceKind, SourceMeta, LogSourceError}
use rustern.Pipeline.External.{External}
use rustern.Pipeline.StageOrder.{transformed}
use rustern.Pipeline.Stages.{
  Row, ExitOnLevel, ExitWatchState, filter_mode, parse, classify_exit_level,
}
use rustern.Pipeline.Spec.{PipelineStages, apply}
use rustern.Pipeline.Meaning.{display, exit_condition}
use rustern.Pipeline.Run.{
  apply-rows, apply-triggered, apply-exit_options, apply-errors, source_error,
}

-- A regex matches its own text; an object has the one key `level`, and its value is `error`.
abbrev pub crates : External
crates = record {
  Regex = Text;
  is_match = text_beq;
  Value = Text;
  parse_value = λ t. some t;
  pointer = λ v p. if_level (text_beq p (codes "/level"));
  value_as_str = λ v. some v;
  Val = Text;
  parse_val = λ t. some t;
  val_of_value = λ v. some v;
  obj = λ v. some (λ k. if_level (text_beq k (codes "level")));
  utf8_str = λ t. t;
  val_text = λ v. some v;
  is_null = λ v. is_empty v;
  as_bool = λ v. none;
  show_val = λ v. v;
  Filter = Unit {0};
  run = λ f v. some v ∷ [];
  hash = λ t. 35;
}
  where
    if_level : Bool → Option Text
    if_level true = some (codes "error")
    if_level false = none

abbrev pub web_meta : SourceMeta
web_meta = record {
  context = codes "dev";
  namespace = codes "shop";
  pod = codes "web-0";
  container = codes "app";
  kind = SourceKind.pod_log;
  node = none;
  labels = [];
  uid = codes "u1";
  palette_index = none;
  container_palette_index = none;
}

abbrev pub line_of : Text → Row crates
line_of message = ok (record {
  source = web_meta;
  timestamp = 7;
  message = message;
  structured = none;
  level = none;
  palette_index = none;
  container_palette_index = none;
})

-- An object whose level is an error, a plain line, and an error of the source.
abbrev pub three_rows : List (Row crates)
three_rows =
    line_of (codes "{}") ∷ line_of (codes "plain") ∷ err (LogSourceError.api (codes "gone")) ∷ []

-- Excludes `plain`, and exits at warnings.
abbrev pub stages : PipelineStages crates
stages = record {
  includes = [];
  excludes = codes "plain" ∷ [];
  filter_on = transformed;
  jq = some (tt, filter_mode);
  level_key = some (codes "level");
  color_opts = record { pod_colors = true; container_colors = true; diff_container = false };
  exit_on = codes "stop" ∷ [];
  exit_on_level = some ExitOnLevel.warn;
  needs_json_annotation = true;
}

abbrev pub idle : ExitWatchState
idle = record { triggered = false; cancelled = false }

abbrev fired : ExitWatchState
fired = record { triggered = true; cancelled = true }

apply-rows_example :
    (apply crates stages idle three_rows).0 ≡ filter_map (display crates stages) three_rows
apply-rows_example = apply-rows crates stages idle three_rows

apply-triggered_example :
    (apply crates stages idle three_rows).1.triggered
    ≡ (false || any (exit_condition crates stages) three_rows)
apply-triggered_example = apply-triggered crates stages idle three_rows

apply-exit_options_example :
    (apply crates stages idle three_rows).0
    ≡ (apply crates (record stages { exit_on = []; exit_on_level = none }) fired three_rows).0
apply-exit_options_example = apply-exit_options crates stages idle fired three_rows

apply-errors_example :
    filter_map (source_error crates) (apply crates stages idle three_rows).0
    ≡ filter_map (source_error crates) three_rows
apply-errors_example = apply-errors crates stages idle three_rows

parse_warning : parse (codes " Warning ") ≡ ok ExitOnLevel.warn
unfolding parse classify_exit_level trim to_ascii_lowercase text_beq
parse_warning = refl
