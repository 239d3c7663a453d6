-- ===== src/Render/Setup.antt =====
-- crates/rustern-core/src/render/setup.rs: the formatter of a run.
use rustern.Common.{true, false, List, Option, none, some, Text, Result, ok, ◌>>=◌}
use rustern.Display.{FormatterChoice, default_, json, raw, ext_json, pp_ext_json}
use rustern.Pipeline.External.{External}
use rustern.Render.{LineFormatter, format_default, format_raw}
use rustern.Render.Json.{format_json, format_ext_json}
use rustern.Render.Highlight.{format_highlighted, compile_stern_highlight_regex}
use rustern.Render.Printing.{Printer}

module _ {x : External} (p : Printer x) where
  open x use {Regex}
  open p use {Tz, RegexError}

  unfoldable pub line_formatter : FormatterChoice Tz → LineFormatter p
  line_formatter (default_ style zone color_enabled pod_colors container_colors) =
      format_default p (record {
        timestamp_style = style;
        timestamp_zone = zone;
        color_enabled = color_enabled;
        pod_colors = pod_colors;
        container_colors = container_colors;
      })
  line_formatter json = format_json p
  line_formatter (ext_json all_namespaces) =
      format_ext_json p (record { all_namespaces = all_namespaces; pretty = false })
  line_formatter (pp_ext_json all_namespaces) =
      format_ext_json p (record { all_namespaces = all_namespaces; pretty = true })
  line_formatter raw = format_raw p

  with_highlight : LineFormatter p → Option Regex → LineFormatter p
  with_highlight inner (some re) = format_highlighted p inner re
  with_highlight inner none = inner

  unfoldable pub wrap_formatter_with_stern_highlight :
      FormatterChoice Tz
      → List Text
      → List Text
      → LineFormatter p
      → Result (LineFormatter p) RegexError
  unfolding with_highlight
  wrap_formatter_with_stern_highlight (default_ style zone c pc cc) include highlight inner =
      compile_stern_highlight_regex p include highlight >>= λ re. ok (with_highlight inner re)
  wrap_formatter_with_stern_highlight json include highlight inner = ok inner
  wrap_formatter_with_stern_highlight raw include highlight inner = ok inner
  wrap_formatter_with_stern_highlight (ext_json a) include highlight inner = ok inner
  wrap_formatter_with_stern_highlight (pp_ext_json a) include highlight inner = ok inner

  unfoldable pub build_line_formatter :
      FormatterChoice Tz → List Text → List Text → Result (LineFormatter p) RegexError
  build_line_formatter formatter include highlight =
      wrap_formatter_with_stern_highlight formatter include highlight (line_formatter formatter)
