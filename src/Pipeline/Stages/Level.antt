-- ===== src/Pipeline/Stages/Level.antt =====
-- The words for levels in crates/rustern-core/src/pipeline/exit_watch.rs and level_classify.rs, and
-- the state of the exit watches.
use rustern.Common.{
  ℕ, Bool, true, ◌||◌, [], Text, codes, trim, to_ascii_lowercase, eq_ignore_ascii_case, text_beq,
  if◌then◌else◌, Result, ok, err,
}
use rustern.Source.{LogLevel, other}

-- exit_watch.rs

pub data ExitOnLevel : Type 0 where
  trace debug info warn error : ExitOnLevel

-- `ExitOnLevel::parse`; the errors are the two messages.
pub data ExitOnLevelError : Type 0 where
  empty : ExitOnLevelError
  invalid : Text → ExitOnLevelError

unfoldable pub classify_exit_level : Text → Result ExitOnLevel ExitOnLevelError
classify_exit_level s =
    if text_beq s (codes "trace")
    then ok ExitOnLevel.trace
    else if text_beq s (codes "debug")
    then ok ExitOnLevel.debug
    else if text_beq s (codes "info")
    then ok ExitOnLevel.info
    else if text_beq s (codes "warn") || text_beq s (codes "warning")
    then ok ExitOnLevel.warn
    else if text_beq s (codes "error") || text_beq s (codes "err") || text_beq s (codes "fatal")
    then ok ExitOnLevel.error
    else if text_beq s []
    then err empty
    else err (invalid s)

unfoldable pub parse : Text → Result ExitOnLevel ExitOnLevelError
unfolding classify_exit_level
parse raw = classify_exit_level (to_ascii_lowercase (trim raw))

unfoldable pub rank : ExitOnLevel → ℕ
rank ExitOnLevel.trace = 0
rank ExitOnLevel.debug = 1
rank ExitOnLevel.info = 2
rank ExitOnLevel.warn = 3
rank ExitOnLevel.error = 4

other_level_rank : Text → ℕ
other_level_rank s =
    if eq_ignore_ascii_case s (codes "error")
      || eq_ignore_ascii_case s (codes "err")
      || eq_ignore_ascii_case s (codes "fatal")
    then 4
    else if eq_ignore_ascii_case s (codes "warn") || eq_ignore_ascii_case s (codes "warning")
    then 3
    else if eq_ignore_ascii_case s (codes "info")
    then 2
    else if eq_ignore_ascii_case s (codes "debug")
    then 1
    else if eq_ignore_ascii_case s (codes "trace")
    then 0
    else 2

unfoldable pub event_level_rank : LogLevel → ℕ
unfolding other_level_rank
event_level_rank LogLevel.trace = 0
event_level_rank LogLevel.debug = 1
event_level_rank LogLevel.info = 2
event_level_rank LogLevel.warn = 3
event_level_rank LogLevel.error = 4
event_level_rank (other s) = other_level_rank s

-- `ExitWatchState`: the flag, and whether the token is cancelled.
pub record ExitWatchState : Type 0 where
  pub triggered : Bool
  pub cancelled : Bool

unfoldable pub fire : ExitWatchState → ExitWatchState
fire w = if w.triggered then w else record { triggered = true; cancelled = true }

-- level_classify.rs

unfoldable pub classify_str : Text → LogLevel
classify_str s =
    if eq_ignore_ascii_case s (codes "error")
      || eq_ignore_ascii_case s (codes "err")
      || eq_ignore_ascii_case s (codes "fatal")
    then LogLevel.error
    else if eq_ignore_ascii_case s (codes "warn") || eq_ignore_ascii_case s (codes "warning")
    then LogLevel.warn
    else if eq_ignore_ascii_case s (codes "info")
    then LogLevel.info
    else if eq_ignore_ascii_case s (codes "debug")
    then LogLevel.debug
    else if eq_ignore_ascii_case s (codes "trace")
    then LogLevel.trace
    else other s
