-- ===== src/Render/Printing.antt =====
-- What the renderer calls of other crates: `chrono`, `owo_colors`, `regex` and `serde_json`.
use rustern.Common.{ℕ, List, Option, Text, Result}
use rustern.Pipeline.External.{External}

-- A position in a text counts code points. A call that can panic or fail in its `expect` gives `none`.
pub record Printer (x : External) : Type 1 where
  -- chrono: `timestamp` of an instant, printed; `naive_utc().format(p)`, written by `write_to`;
  -- `format(p)` in UTC, in the local zone and in a zone; `to_rfc3339_opts(Nanos, false)` in the local
  -- zone and in a zone; `to_rfc3339` in UTC
  pub Tz : Type 0
  pub epoch_seconds : ℕ → Text
  pub naive_format : Text → ℕ → Option Text
  pub utc_format : Text → ℕ → Text
  pub local_format : Text → ℕ → Text
  pub zone_format : Tz → Text → ℕ → Text
  pub local_rfc3339 : ℕ → Text
  pub zone_rfc3339 : Tz → ℕ → Text
  pub to_rfc3339 : ℕ → Text
  -- owo_colors: `truecolor` and `red().bold()`, displayed
  pub truecolor : ℕ × ℕ × ℕ → Text → Text
  pub red_bold : Text → Text
  -- regex: `Regex::new`, and the start and the end of each match of `find_iter`
  pub RegexError : Type 0
  pub regex_new : Text → Result x.Regex RegexError
  pub find_iter : x.Regex → Text → List (ℕ × ℕ)
  -- serde_json: `Value::Null`, a string, a map of strings, and `to_string` and `to_string_pretty` of
  -- a struct by its fields
  pub null : x.Value
  pub string_value : Text → x.Value
  pub map_value : List (Text × Text) → x.Value
  pub to_string : List (Text × x.Value) → Option Text
  pub to_string_pretty : List (Text × x.Value) → Option Text
