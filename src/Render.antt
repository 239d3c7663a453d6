-- ===== src/Render.antt =====
-- crates/rustern-core/src/render: what is written for a row. The formatters append to a buffer; `none`
-- is a panic.
pub mod Printing
pub mod Json
pub mod Highlight
pub mod Task
pub mod Setup
pub mod Fields
pub mod Tests
use rustern.Common.{
  ℕ, zero, suc, ◌%◌, Bool, true, false, List, [], ◌∷◌, ◌++◌, map, length, push, Option, none, some,
  Text, codes, is_empty, nat_beq, reverse, if◌then◌else◌,
}
use mathlib.Core.Option
use rustern.Source.{LogEvent}
use rustern.Display.{
  TimestampStyle, omit, rfc3339, stern_short, epoch_seconds, TimestampZone, utc, local, iana,
}
use rustern.Pipeline.External.{External}
use rustern.Pipeline.Stages.{Parsed}
use rustern.Render.Printing.{Printer}

-- `PALETTE`
abbrev pub palette : List (ℕ × ℕ × ℕ)
palette =
    (255, 99, 71)
    ∷ (60, 179, 113)
    ∷ (100, 149, 237)
    ∷ (218, 112, 214)
    ∷ (255, 165, 0)
    ∷ (123, 104, 238)
    ∷ (32, 178, 170)
    ∷ (255, 192, 203)
    ∷ []

unfoldable pub get_elem? {ℓ} : {A : Type ℓ} → List A → ℕ → Option A
get_elem? [] i = none
get_elem? (a ∷ l) zero = some a
get_elem? (a ∷ l) (suc i) = get_elem? l i

module _ {x : External} (p : Printer x) where
  open p use {Tz}

  abbrev pub Event : Type 0
  Event = LogEvent (Parsed x)

  -- `LineFormatter::format_into`, from the buffer to the buffer.
  abbrev pub LineFormatter : Type 0
  LineFormatter = Event → Text → Option Text

  -- default_renderer.rs

  pub record DefaultLineFormatter : Type 0 where
    pub timestamp_style : TimestampStyle
    pub timestamp_zone : TimestampZone Tz
    pub color_enabled : Bool
    pub pod_colors : Bool
    pub container_colors : Bool

  push_str : Text → Option Text → Option (Text × Bool)
  push_str buf s = Option.map (λ t. (buf ++ t, true)) s

  -- The buffer, and whether a prefix was written.
  unfoldable pub push_wall_prefix :
      Text → ℕ → TimestampStyle → TimestampZone Tz → Option (Text × Bool)
  unfolding push_str
  push_wall_prefix buf t omit zone = some (buf, false)
  push_wall_prefix buf t epoch_seconds zone = push_str buf (some (p.epoch_seconds t))
  push_wall_prefix buf t rfc3339 utc =
      push_str buf (p.naive_format (codes "%Y-%m-%dT%H:%M:%S%.9f+00:00") t)
  push_wall_prefix buf t rfc3339 local = push_str buf (some (p.local_rfc3339 t))
  push_wall_prefix buf t rfc3339 (iana tz) = push_str buf (some (p.zone_rfc3339 tz t))
  push_wall_prefix buf t stern_short utc =
      push_str buf (some (p.utc_format (codes "%m-%d %H:%M:%S") t))
  push_wall_prefix buf t stern_short local =
      push_str buf (some (p.local_format (codes "%m-%d %H:%M:%S") t))
  push_wall_prefix buf t stern_short (iana tz) =
      push_str buf (some (p.zone_format tz (codes "%m-%d %H:%M:%S") t))

  push_in_color : Text → Text → Option (ℕ × ℕ × ℕ) → Option Text
  push_in_color slice text color = Option.map (λ c. slice ++ p.truecolor c text) color

  unfoldable pub push_colored : Text → Text → Option ℕ → Bool → Option Text
  unfolding push_in_color get_elem?
  push_colored slice text (some idx) true =
      push_in_color slice text (get_elem? palette (idx % length palette))
  push_colored slice text none true = some (slice ++ text)
  push_colored slice text idx false = some (slice ++ text)

  unfoldable pub end_prefix : Text × Bool → Text
  end_prefix (line, wrote) = if wrote then line ++ codes " " else line

  -- What follows the prefix.
  format_body : DefaultLineFormatter → Event → Text × Bool → Option Text
  unfolding push_colored end_prefix
  format_body f event prefix =
      Option.bind
        (push_colored (end_prefix prefix) event.source.pod
          (if f.pod_colors then event.palette_index else none) f.color_enabled)
        λ line.
          Option.bind
            (push_colored (line ++ codes "/") event.source.container
              (if f.container_colors then event.container_palette_index else none) f.color_enabled)
            λ line. some (line ++ (codes " | " ++ (event.message ++ codes "\n")))

  unfoldable pub format_default : DefaultLineFormatter → LineFormatter
  unfolding push_wall_prefix format_body
  format_default f event line =
      Option.bind (push_wall_prefix line event.timestamp f.timestamp_style f.timestamp_zone)
        (format_body f event)

  -- raw_renderer.rs

  unfoldable pub format_raw : LineFormatter
  format_raw event buf = some (buf ++ (event.message ++ codes "\n"))
