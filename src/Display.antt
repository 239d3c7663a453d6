-- ===== src/Display.antt =====
-- crates/rustern-core/src/format_display.rs and the formatter of runtime/config.rs: how lines are to
-- be shown. `Tz` is the type of time zones of chrono_tz.
use rustern.Common.{
  Bool, Text, codes, trim, is_empty, eq_ignore_ascii_case, if◌then◌else◌, Option, none, some,
  Result, ok, err,
}

pub data TimestampStyle : Type 0 where
  omit rfc3339 stern_short epoch_seconds : TimestampStyle

pub data TimestampZone (Tz : Type 0) : Type 0 where
  utc local : TimestampZone Tz
  iana : Tz → TimestampZone Tz

-- The errors are the two messages.
pub data ZoneError : Type 0 where
  empty : ZoneError
  invalid : Text → ZoneError

pub data FormatterChoice (Tz : Type 0) : Type 0 where
  default_ : TimestampStyle → TimestampZone Tz → Bool → Bool → Bool → FormatterChoice Tz
  json raw : FormatterChoice Tz
  ext_json pp_ext_json : Bool → FormatterChoice Tz

-- `Tz::from_str` of chrono_tz.
module _ {Tz : Type 0} (tz_from_str : Text → Option Tz) where
  iana_zone : Text → Option Tz → Result (TimestampZone Tz) ZoneError
  iana_zone t none = err (invalid t)
  iana_zone t (some tz) = ok (iana tz)

  -- `TimestampZone::parse_arg`
  unfoldable pub parse_arg : Text → Result (TimestampZone Tz) ZoneError
  unfolding iana_zone
  parse_arg s =
      let t = trim s in
      if is_empty t
      then err empty
      else if eq_ignore_ascii_case t (codes "utc")
      then ok utc
      else if eq_ignore_ascii_case t (codes "local")
      then ok local
      else iana_zone t (tz_from_str t)
