-- ===== src/Cli/Since.antt =====
-- src/cli/validate.rs: the range of `--since`.
use rustern.Common.{
  ℕ, ℤ, pos, negsuc, is_negative, ◌≤◌, ◌≡◌, refl, false, Option, none, some, Text, is_empty, trim,
  leb, Result, ok, err, Bool-cases, inl, inr, leb→le,
}
use rustern.Pipeline.External.{External}
use rustern.Cli.{
  Host, CliError, i64_max, seconds_of, whole_seconds, duration_or_seconds, parse_since,
}

-- A number that fits `i64`.
abbrev pub IsI64 : ℤ → Type 0
IsI64 (pos n) = n ≤ i64_max
IsI64 (negsuc n) = n ≤ i64_max

-- A number of seconds that fits `i64`.
abbrev pub IsSeconds : Result ℤ CliError → Type 0
IsSeconds (err e) = Unit {0}
IsSeconds (ok n) = (is_negative n ≡ false) × IsI64 n

seconds_of-IsSeconds : (secs : ℕ) → IsSeconds (seconds_of secs)
unfolding seconds_of is_negative
seconds_of-IsSeconds secs = elim (Bool-cases (leb secs i64_max)) [
  | inl e ↦ rw e (refl, leb→le secs i64_max e)
  | inr n ↦ rw n tt
]

whole_seconds-IsSeconds :
    (s : Text) (o : Option ℤ) → ((n : ℤ) → o ≡ some n → IsI64 n) → IsSeconds (whole_seconds s o)
unfolding whole_seconds is_negative
whole_seconds-IsSeconds s none h = tt
whole_seconds-IsSeconds s (some (pos n)) h = (refl, h (pos n) refl)
whole_seconds-IsSeconds s (some (negsuc n)) h = tt

duration_or_seconds-IsSeconds :
    (s : Text) (d : Option ℕ) (o : Option ℤ)
    → ((n : ℤ) → o ≡ some n → IsI64 n)
    → IsSeconds (duration_or_seconds s d o)
unfolding duration_or_seconds
duration_or_seconds-IsSeconds s none o h = whole_seconds-IsSeconds s o h
duration_or_seconds-IsSeconds s (some secs) o h = seconds_of-IsSeconds secs

-- What `--since` is read as is never negative and fits `i64`, if the parser of the standard library
-- yields numbers of `i64`.
pub parse_since-IsSeconds :
    {x : External} (host : Host x)
    → ((s : Text) (n : ℤ) → host.parse_i64 s ≡ some n → IsI64 n)
    → (s : Text) → IsSeconds (parse_since host s)
unfolding parse_since
parse_since-IsSeconds host h s = elim (Bool-cases (is_empty (trim s))) [
  | inl e ↦ rw e tt
  | inr n ↦ rw n (
      duration_or_seconds-IsSeconds (trim s) (host.parse_duration (trim s))
        (host.parse_i64 (trim s)) (h (trim s)))
]
