-- ===== src/Pipeline/Stages/Json.antt =====
-- crates/rustern-core/src/source/parsed_json.rs: the structured form of a message, and dotted paths.
use rustern.Common.{
  ℕ, true, false, not, List, [], ◌∷◌, ◌++◌, map, Option, none, some, Text, codes, nat_beq, is_empty,
  filter, split, join, if◌then◌else◌,
}
use mathlib.Core.Option
use rustern.Pipeline.External.{External}

pub data ParsedJson (Value Val : Type 0) : Type 0 where
  serde : Value → ParsedJson Value Val
  jaq : Val → ParsedJson Value Val

escape_slash : ℕ → Text
escape_slash c = if nat_beq c b'/' then codes "~1" else c ∷ []

replace_slash : Text → Text
unfolding escape_slash
replace_slash [] = []
replace_slash (c ∷ s) = escape_slash c ++ replace_slash s

unfoldable pub json_pointer_from_dot_path : Text → Text
unfolding replace_slash
json_pointer_from_dot_path path =
    if is_empty path
    then []
    else codes "/" ++ join (codes "/") (map replace_slash (split b'.' path))

module _ (x : External) where
  open x use {
    Regex, is_match, Value, parse_value, pointer, value_as_str, Val, parse_val, val_of_value, obj,
    utf8_str, val_text, is_null, as_bool, show_val, Filter, run, hash,
  }

  abbrev pub Parsed : Type 0
  Parsed = ParsedJson Value Val

  unfoldable pub jaq_dot_path_keys : Text → List Val
  jaq_dot_path_keys path =
      map utf8_str (filter (λ segment. not (is_empty segment)) (split b'.' path))

  unfoldable pub val_dot_path_with_keys : Val → List Val → Option Val
  val_dot_path_with_keys v [] = some v
  val_dot_path_with_keys v (key ∷ keys) = elim (obj v) [
    | none ↦ none
    | some get ↦ elim (get key) [ none ↦ none | some w ↦ val_dot_path_with_keys w keys ]
  ]

  unfoldable pub walk_segments : Val → List Text → Option Val
  walk_segments v [] = some v
  walk_segments v (segment ∷ rest) = elim (is_empty segment) [
    | true ↦ walk_segments v rest
    | false ↦ elim (obj v) [
      | none ↦ none
      | some get ↦ elim (get (utf8_str segment)) [ none ↦ none | some w ↦ walk_segments w rest ]
    ]
  ]

  unfoldable pub val_dot_path : Val → Text → Option Val
  unfolding walk_segments
  val_dot_path v path = walk_segments v (split b'.' path)

  -- `level_str_at_dot_path_with_serde_pointer`
  unfoldable pub level_str_at_dot_path_with_serde_pointer :
      Parsed → Text → Option Text → Option (List Val) → Option Text
  level_str_at_dot_path_with_serde_pointer (serde v) dot_path (some ptr) keys =
      Option.bind (pointer v ptr) value_as_str
  level_str_at_dot_path_with_serde_pointer (serde v) dot_path none keys =
      Option.bind (pointer v (json_pointer_from_dot_path dot_path)) value_as_str
  level_str_at_dot_path_with_serde_pointer (jaq v) dot_path ptr (some keys) =
      Option.bind (val_dot_path_with_keys v keys) val_text
  level_str_at_dot_path_with_serde_pointer (jaq v) dot_path ptr none =
      Option.bind (val_dot_path v dot_path) val_text

  -- `level_str_at_dot_path`
  unfoldable pub level_str_at_dot_path : Parsed → Text → Option Text
  level_str_at_dot_path p dot_path = level_str_at_dot_path_with_serde_pointer p dot_path none none

  unfoldable pub to_jaq_val : Parsed → Option Val
  to_jaq_val (jaq v) = some v
  to_jaq_val (serde v) = val_of_value v
