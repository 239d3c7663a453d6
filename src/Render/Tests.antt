-- ===== src/Render/Tests.antt =====
-- A printer and a writer to run crates/rustern-core/src/render on.
use rustern.Common.{
  ℕ, ◌≡◌, ◌≢◌, refl, arith, List, [], ◌∷◌, ◌++◌, length, none, some, Text, codes, trim, filter_map,
  is_empty, ok,
}
use rustern.Pipeline.Tests.{crates, web_meta}
use rustern.Render.{Event, format_raw}
use rustern.Render.Printing.{Printer}
use rustern.Render.Highlight.{highlight_branches, highlight_default_line}
use rustern.Render.Highlight.Shown.{AreMatches, IsCut, highlight_default_line-IsCut}
use rustern.Render.Task.{Sink, RenderCommand, line, shutdown, render_task}
use rustern.Render.Task.Batches.{concat, render_commands, render_task-batches}
use rustern.Render.Task.Delivered.{Reliable, render_task-delivered}

-- An escape character stands on either side of what is coloured.
unfoldable pub escape : Text → Text
escape s = 27 ∷ (s ++ (27 ∷ []))

-- A regex matches the first character of a text.
unfoldable pub first_char : Text → List (ℕ × ℕ)
first_char [] = []
first_char (c ∷ s) = (0, 1) ∷ []

abbrev pub printer : Printer crates
printer = record {
  Tz = Unit {0};
  epoch_seconds = λ t. codes "0";
  naive_format = λ f t. some f;
  utc_format = λ f t. f;
  local_format = λ f t. f;
  zone_format = λ tz f t. f;
  local_rfc3339 = λ t. [];
  zone_rfc3339 = λ tz t. [];
  to_rfc3339 = λ t. [];
  truecolor = λ c s. escape s;
  red_bold = escape;
  RegexError = Unit {0};
  regex_new = λ s. ok s;
  find_iter = λ re s. first_char s;
  null = [];
  string_value = λ s. s;
  map_value = λ m. [];
  to_string = λ fields. some [];
  to_string_pretty = λ fields. some [];
}

first_char-AreMatches : (s : Text) → AreMatches (length s) 0 (first_char s)
unfolding first_char
first_char-AreMatches [] = omega arith
first_char-AreMatches (c ∷ s) = (omega arith, omega arith, omega arith)

abbrev web_event : Event printer
web_event = record {
  source = web_meta;
  timestamp = 7;
  message = codes "up";
  structured = none;
  level = none;
  palette_index = some 9;
  container_palette_index = none;
}

-- The writer keeps what it has taken and what has left its buffer.
abbrev sink : Sink (Unit {0})
sink = record {
  W = Text × Text;
  write_all = λ (a, b) t. ok (a ++ t, b);
  flush = λ (a, b). ok (a, a);
}

abbrev reliable : Reliable sink
reliable = record {
  written = λ w. w.0;
  delivered = λ w. w.1;
  writes = λ (a, b) t. ((a ++ t, b), refl, refl);
  flushes = λ (a, b). ((a, a), refl, refl, refl);
}

highlight_default_line-IsCut_example :
    IsCut printer
      (codes "up")
      ((0, 1) ∷ [])
      (highlight_default_line printer (codes "up") (codes "u"))
unfolding first_char
highlight_default_line-IsCut_example =
    highlight_default_line-IsCut printer (codes "up") (codes "u")
      (first_char-AreMatches (codes "up"))

two_branches : highlight_branches (codes "u" ∷ []) (codes "down" ∷ []) ≢ []
unfolding highlight_branches filter_map trim is_empty
two_branches e = ground (arith, e)

abbrev batches : List (List (RenderCommand printer))
batches = (line web_event ∷ RenderCommand.flush ∷ []) ∷ (shutdown ∷ line web_event ∷ []) ∷ []

render_task-batches_example :
    render_task printer sink (format_raw printer) batches ([], [])
    ≡ render_commands printer sink (format_raw printer) (concat batches) ([], [])
render_task-batches_example =
    render_task-batches printer sink (format_raw printer) batches ([], []) (ground arith)

render_task-delivered_example :
    (w : Text × Text) × (render_task printer sink (format_raw printer) batches ([], []) ≡ ok w)
    × (w.1 ≡ codes "up\n")
unfolding format_raw
render_task-delivered_example =
    render_task-delivered printer sink reliable (format_raw printer)
      (λ ev. ev.message ++ codes "\n") (λ ev. refl) batches ([], []) (ground arith)
