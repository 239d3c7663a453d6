-- ===== src/Source/LogLine.antt =====
-- crates/rustern-core/src/source/pod_log.rs: a line of the log API, its timestamp and its text. A line
-- is a list of bytes; a timestamp is in nanoseconds.
pub mod Times
pub mod Stream
use rustern.Common.{
  ℕ, zero, suc, ◌+◌, ◌≤◌, ◌<◌, ◌≡◌, refl, Bool, true, false, not, ◌&&◌, List, [], ◌∷◌, ◌++◌,
  reverse, Option, none, some, arith, Text, if◌then◌else◌, nat_beq, split_once, Option-cases, inl,
  inr, leb, ap,
}
use mathlib.Core.Option

abbrev pub Bytes : Type 0
Bytes = List ℕ

-- `if raw.last() == Some(&b) { raw = &raw[..raw.len() - 1] }`, on the line read backwards.
drop_first_if : ℕ → Bytes → Bytes
drop_first_if b [] = []
drop_first_if b (x ∷ xs) = if nat_beq x b then xs else x ∷ xs

unfoldable pub trim_line_end : Bytes → Bytes
unfolding drop_first_if
trim_line_end raw = reverse (drop_first_if b'\r' (drop_first_if b'\n' (reverse raw)))

-- The `LogLineTimestampResolver`: the last timestamp.
abbrev pub Resolver : Type 0
Resolver = Option ℕ

-- `microsecond` is in nanoseconds; `unix_epoch` and `max_utc` are the instants of chrono.
abbrev pub microsecond : ℕ
microsecond = 1000

resolve_rest : (Resolver → Option (List ℕ)) → Option (ℕ × Resolver) → Option (List ℕ)
resolve_rest rest none = none
resolve_rest rest (some (ts, last)) = Option.map (λ tss. ts ∷ tss) (rest last)

module _ (unix_epoch max_utc : ℕ) where
  -- `DateTime + Duration`, which panics past the last instant: `none`.
  unfoldable pub add_duration : ℕ → ℕ → Option ℕ
  add_duration t d = if leb (t + d) max_utc then some (t + d) else none

  next_ts : Resolver → Option ℕ → Option ℕ
  unfolding add_duration
  next_ts last (some ts) = some ts
  next_ts (some prev) none = add_duration prev microsecond
  next_ts none none = some unix_epoch

  -- The timestamp and the resolver after it, or a panic.
  unfoldable pub resolve : Option ℕ → Resolver → Option (ℕ × Resolver)
  unfolding next_ts
  resolve parsed last = Option.map (λ ts. (ts, some ts)) (next_ts last parsed)

  -- The timestamps of the lines of a stream, or a panic.
  unfoldable pub resolve_all : List (Option ℕ) → Resolver → Option (List ℕ)
  unfolding resolve resolve_rest
  resolve_all [] last = some []
  resolve_all (parsed ∷ lines) last =
      resolve_rest (λ last'. resolve_all lines last') (resolve parsed last)

-- `from_utf8` and `from_utf8_lossy` of the standard library, and `parse_from_rfc3339` of chrono.
module _ (from_utf8 : Bytes → Option Text) (from_utf8_lossy : Bytes → Text)
    (parse_rfc3339 : Text → Option ℕ) where
  decode : Bytes → Text
  decode raw = Option.get_or (from_utf8 raw) (from_utf8_lossy raw)

  with_time : Bytes → Bytes → Option ℕ → Option ℕ × Text
  unfolding decode
  with_time raw msg none = (none, decode raw)
  with_time raw msg (some ts) = (some ts, decode msg)

  with_prefix : Bytes → Option (Bytes × Bytes) → Option ℕ × Text
  unfolding decode with_time
  with_prefix raw none = (none, decode raw)
  with_prefix raw (some (ts_s, msg)) =
      with_time raw msg (Option.bind (from_utf8 ts_s) parse_rfc3339)

  unfoldable pub split_log_line : Bytes → Option ℕ × Text
  unfolding with_prefix
  split_log_line raw = let raw = trim_line_end raw in with_prefix raw (split_once b' ' raw)

-- The timestamps that the lines are to have: a dated line its own; another one a microsecond more than
-- the line before it, and the epoch if it is the first.
abbrev pub IsTimed : ℕ → List (Option ℕ) → Resolver → List ℕ → Type 0
IsTimed epoch [] last tss = tss ≡ []
IsTimed epoch (parsed ∷ lines) last [] = true ≡ false
IsTimed epoch (some t ∷ lines) last (ts ∷ tss) = (ts ≡ t) × IsTimed epoch lines (some ts) tss
IsTimed epoch (none ∷ lines) (some prev) (ts ∷ tss) =
    (ts ≡ prev + microsecond) × IsTimed epoch lines (some ts) tss
IsTimed epoch (none ∷ lines) none (ts ∷ tss) = (ts ≡ epoch) × IsTimed epoch lines (some ts) tss

-- No timestamp is within `room` of the last instant.
abbrev pub HasRoom : ℕ → ℕ → Option ℕ → Type 0
HasRoom max room none = Unit {0}
HasRoom max room (some t) = t + room ≤ max
