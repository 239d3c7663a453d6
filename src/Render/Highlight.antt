-- ===== src/Render/Highlight.antt =====
-- crates/rustern-core/src/render/highlight.rs: bold red for what the patterns match.
pub mod Shown
pub mod Branches
use rustern.Common.{
  ℕ, zero, suc, ◌-◌, Bool, true, List, [], ◌∷◌, ◌++◌, map, length, filter_map, not, Option, none,
  some, Text, codes, leb, ◌&&◌, is_empty, trim, join, byte_len, if◌then◌else◌, Result, ok, err,
  ◌>>=◌,
}
use mathlib.Core.Option
use rustern.Common.Sorting.{sort}
use rustern.Pipeline.External.{External}
use rustern.Render.{Event, LineFormatter}
use rustern.Render.Printing.{Printer}

unfoldable pub take : {A : Type 0} → ℕ → List A → List A
take zero l = []
take (suc i) [] = []
take (suc i) (a ∷ l) = a ∷ take i l

unfoldable pub drop : {A : Type 0} → ℕ → List A → List A
drop zero l = l
drop (suc i) [] = []
drop (suc i) (a ∷ l) = drop i l

-- `&text[start..end]`, which panics out of range.
unfoldable pub slice : Text → ℕ → ℕ → Option Text
unfolding take drop
slice text start end =
    if leb start end && leb end (length text)
    then some (take (end - start) (drop start text))
    else none

-- `b.len()` of the first is at least that of the second.
abbrev pub longer : Text → Text → Bool
longer a b = leb (byte_len b) (byte_len a)

trimmed_pattern : Text → Option Text
trimmed_pattern s = let t = trim s in if is_empty t then none else some t

unfoldable pub highlight_branches : List Text → List Text → List Text
unfolding trimmed_pattern
highlight_branches includes highlights =
    filter_map trimmed_pattern includes ++ filter_map trimmed_pattern highlights

module _ {x : External} (p : Printer x) where
  open x use {Regex}
  open p use {RegexError}

  -- The matches that are left, the end of the last one, and what is written.
  highlight_from : Text → List (ℕ × ℕ) → ℕ → Text → Option Text
  unfolding slice
  highlight_from text [] last out = Option.map (λ t. out ++ t) (slice text last (length text))
  highlight_from text ((start, end) ∷ ms) last out = Option.bind (slice text last start) λ before.
      Option.bind (slice text start end)
        λ found. highlight_from text ms end (out ++ (before ++ p.red_bold found))

  -- `none` is a panic, and `some none` a text in which nothing matches.
  unfoldable pub highlight_matches : Text → List (ℕ × ℕ) → Option (Option Text)
  unfolding highlight_from
  highlight_matches text [] = some none
  highlight_matches text (m ∷ ms) = Option.map some (highlight_from text (m ∷ ms) 0 [])

  unfoldable pub highlight_default_line : Text → Regex → Option (Option Text)
  unfolding highlight_matches
  highlight_default_line text re = highlight_matches text (p.find_iter re text)

  -- `SternHighlightLineFormatter`
  unfoldable pub format_highlighted : LineFormatter p → Regex → LineFormatter p
  unfolding highlight_default_line
  format_highlighted inner re event buf = Option.bind (inner event buf) λ line.
      Option.map (λ highlighted. Option.get_or highlighted line) (highlight_default_line line re)

  compile_branches : List Text → Result (Option Regex) RegexError
  compile_branches branches =
      if is_empty branches
      then ok none
      else p.regex_new (codes "(" ++ (join (codes "|") (sort longer branches) ++ codes ")"))
        >>= λ re. ok (some re)

  unfoldable pub compile_stern_highlight_regex :
      List Text → List Text → Result (Option Regex) RegexError
  unfolding highlight_branches compile_branches
  compile_stern_highlight_regex includes highlights =
      compile_branches (highlight_branches includes highlights)
