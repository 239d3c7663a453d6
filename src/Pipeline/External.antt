-- ===== src/Pipeline/External.antt =====
-- What the pipeline calls of other crates: `regex`, `serde_json`, `jaq` and `seahash`.
use rustern.Common.{ℕ, Bool, List, Option, Text}

pub record External : Type 1 where
  -- regex
  pub Regex : Type 0
  pub is_match : Regex → Text → Bool
  -- serde_json: `from_str`, `Value::pointer`, `Value::as_str`
  pub Value : Type 0
  pub parse_value : Text → Option Value
  pub pointer : Value → Text → Option Value
  pub value_as_str : Value → Option Text
  -- jaq_json: `from_str::<Val>`, `from_value`, the map of an object, `Val::utf8_str`, the text of a
  -- string value in UTF-8, the test for `Null` and `Bool(false)`, and `Display`
  pub Val : Type 0
  pub parse_val : Text → Option Val
  pub val_of_value : Value → Option Val
  pub obj : Val → Option (Val → Option Val)
  pub utf8_str : Text → Val
  pub val_text : Val → Option Text
  pub is_null : Val → Bool
  pub as_bool : Val → Option Bool
  pub show_val : Val → Text
  -- jaq_core: a compiled filter, and its results, where `none` is an error
  pub Filter : Type 0
  pub run : Filter → Val → List (Option Val)
  -- seahash of a string
  pub hash : Text → ℕ
