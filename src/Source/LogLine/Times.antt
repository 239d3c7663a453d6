-- ===== src/Source/LogLine/Times.antt =====
-- crates/rustern-core/src/source/pod_log.rs: the timestamps of a stream, and the parts of a line.
use rustern.Common.{
  ℕ, ◌+◌, ◌≤◌, ◌≡◌, refl, ◌∙◌, ap, true, false, List, [], ◌∷◌, ◌++◌, reverse, Option, none, some,
  arith, Text, nat_beq, split_once, leb, All, length, starts_with_char, any, ◌*◌, split_once-first,
}
use mathlib.Core.List.{reverse-append, reverse-reverse}
use mathlib.Core.Option
use rustern.Source.LogLine.{
  Bytes, drop_first_if, trim_line_end, Resolver, microsecond, add_duration, next_ts, resolve,
  resolve_rest, resolve_all, decode, with_time, with_prefix, split_log_line, IsTimed, HasRoom,
}

HasRoom-le :
    (max room less : ℕ) (o : Option ℕ) → less ≤ room → HasRoom max room o → HasRoom max less o
HasRoom-le max room less none l h = tt
HasRoom-le max room less (some t) l h = omega arith

All-HasRoom-le :
    (max room less : ℕ) (os : List (Option ℕ))
    → less ≤ room
    → All (HasRoom max room) os
    → All (HasRoom max less) os
All-HasRoom-le max room less [] l h = tt
All-HasRoom-le max room less (o ∷ os) l h =
    (HasRoom-le max room less o l h.0, All-HasRoom-le max room less os l h.1)

-- What the lines after the first make of its timestamp.
resolve_rest-some :
    (rest : Resolver → Option (List ℕ)) (ts : ℕ) (tss : List ℕ)
    → rest (some ts) ≡ some tss
    → resolve_rest rest (some (ts, some ts)) ≡ some (ts ∷ tss)
unfolding resolve_rest
resolve_rest-some rest ts tss h = ap (Option.map (λ l. ts ∷ l)) h

module _ (unix_epoch max_utc : ℕ) where
  -- A stream whose timestamps stay a microsecond for each line away from the last instant never panics:
  -- each line gets its own timestamp, or a microsecond more than the line before it.
  pub resolve_all-IsTimed :
      (lines : List (Option ℕ)) (last : Resolver)
      → unix_epoch + microsecond * length lines ≤ max_utc
      → All (HasRoom max_utc (microsecond * length lines)) lines
      → HasRoom max_utc (microsecond * length lines) last
      → (tss : List ℕ) × (resolve_all unix_epoch max_utc lines last ≡ some tss)
        × IsTimed unix_epoch lines last tss
  unfolding resolve_all resolve next_ts add_duration resolve_rest
  resolve_all-IsTimed [] last e r h = ([], refl, refl)
  resolve_all-IsTimed (some t ∷ lines) last e r h =
      let (tss, p, i) =
        resolve_all-IsTimed lines (some t) (omega arith)
          (All-HasRoom-le max_utc (microsecond * length (some t ∷ lines))
            (microsecond * length lines) lines (omega arith) r.1)
          (HasRoom-le max_utc (microsecond * length (some t ∷ lines)) (microsecond * length lines)
            (some t) (omega arith) r.0) in
      (t ∷ tss, resolve_rest-some (resolve_all unix_epoch max_utc lines) t tss p, (refl, i))
  resolve_all-IsTimed (none ∷ lines) none e r h =
      let (tss, p, i) =
        resolve_all-IsTimed lines (some unix_epoch) (omega arith)
          (All-HasRoom-le max_utc (microsecond * length (none ∷ lines)) (microsecond * length lines)
            lines (omega arith) r.1)
          (omega arith) in
      (
        unix_epoch ∷ tss,
        resolve_rest-some (resolve_all unix_epoch max_utc lines) unix_epoch tss p,
        (refl, i),
      )
  resolve_all-IsTimed (none ∷ lines) (some prev) e r h =
      let (tss, p, i) =
        resolve_all-IsTimed lines (some (prev + microsecond)) (omega arith)
          (All-HasRoom-le max_utc (microsecond * length (none ∷ lines)) (microsecond * length lines)
            lines (omega arith) r.1)
          (omega arith) in
      let fits : leb (prev + microsecond) max_utc ≡ true = ground arith in
      (
        (prev + microsecond) ∷ tss,
        rw fits
            (resolve_rest-some (resolve_all unix_epoch max_utc lines) (prev + microsecond) tss p),
        (refl, i),
      )

drop_first_if-none : (b : ℕ) (xs : Bytes) → starts_with_char xs b ≡ false → drop_first_if b xs ≡ xs
unfolding drop_first_if starts_with_char
drop_first_if-none b [] h = refl
drop_first_if-none b (x ∷ xs) h = rw h refl

trim_line_end-line :
    (line : Bytes)
    → starts_with_char (reverse line) b'\r' ≡ false
    → trim_line_end (line ++ (b'\n' ∷ [])) ≡ line
unfolding trim_line_end drop_first_if
trim_line_end-line line h =
    ap (λ r. reverse (drop_first_if b'\r' (drop_first_if b'\n' r)))
      (reverse-append line (b'\n' ∷ []))
    ∙ ap reverse (drop_first_if-none b'\r' (reverse line) h)
    ∙ reverse-reverse line

module _ (from_utf8 : Bytes → Option Text) (from_utf8_lossy : Bytes → Text)
    (parse_rfc3339 : Text → Option ℕ) where
  -- A line that the API writes as a timestamp without a space, a space, a message and a line feed is
  -- split into that time and that message, if the message does not end in a carriage return.
  pub split_log_line-dated :
      (ts_s msg : Bytes) (stamp text : Text) (t : ℕ)
      → any (nat_beq b' ') ts_s ≡ false
      → from_utf8 ts_s ≡ some stamp
      → parse_rfc3339 stamp ≡ some t
      → from_utf8 msg ≡ some text
      → starts_with_char (reverse (ts_s ++ (b' ' ∷ msg))) b'\r' ≡ false
      → split_log_line from_utf8 from_utf8_lossy parse_rfc3339
          (ts_s ++ (b' ' ∷ msg) ++ (b'\n' ∷ []))
        ≡ (some t, text)
  unfolding split_log_line with_prefix with_time decode Option.bind
  split_log_line-dated ts_s msg stamp text t sp u p m cr =
      let line = ts_s ++ (b' ' ∷ msg) in
      ap (λ raw. with_prefix from_utf8 from_utf8_lossy parse_rfc3339 raw (split_once b' ' raw))
        (trim_line_end-line line cr)
      ∙ ap (with_prefix from_utf8 from_utf8_lossy parse_rfc3339 line)
          (split_once-first b' ' ts_s msg sp)
      ∙ ap (with_time from_utf8 from_utf8_lossy parse_rfc3339 line msg)
          (ap (λ o. Option.bind o parse_rfc3339) u ∙ p)
      ∙ ap (λ o. (some t, Option.get_or o (from_utf8_lossy msg))) m
