-- ===== src/Source/Tests.antt =====
-- Lines, answers and delays to run source/pod_log.rs and source/retry.rs on.
use rustern.Common.{
  ℕ, ◌≡◌, refl, false, List, [], ◌∷◌, ◌++◌, Option, none, some, arith, Text, codes, text_beq, ok,
  err, Result, any, nat_beq, starts_with_char, if◌then◌else◌, split_once,
}
use mathlib.Core.Option
use rustern.Source.{SourceMeta, pod_log}
use rustern.Source.LogLine.{Bytes, split_log_line, trim_line_end, IsTimed}
use rustern.Source.LogLine.Times.{split_log_line-dated}
use rustern.Source.LogLine.Stream.{
  Read, read, lines_read, read_error, stamps, log_events, events, log_events-lines,
}
use rustern.Source.Retry.{KubeError, other, RetryError, log_stream_with_retry}
use rustern.Source.Retry.Answers.{DecidesAt, log_stream_with_retry-DecidesAt}

abbrev decode_all : Bytes → Option Text
decode_all b = some b

abbrev parse_date : Text → Option ℕ
parse_date t = if text_beq t (codes "2024Z") then some 1704 else none

date_parsed : parse_date (codes "2024Z") ≡ some 1704
unfolding text_beq
date_parsed = refl

date_unbroken : any (nat_beq 32) (codes "2024Z") ≡ false
unfolding any
date_unbroken = refl

split_log_line-dated_example :
    split_log_line decode_all
      (λ b. b)
      parse_date
      (codes "2024Z" ++ (32 ∷ codes "hi there") ++ (10 ∷ []))
    ≡ (some 1704, codes "hi there")
split_log_line-dated_example =
    split_log_line-dated decode_all (λ b. b) parse_date (codes "2024Z") (codes "hi there")
      (codes "2024Z") (codes "hi there") 1704 date_unbroken refl date_parsed refl
      (unfold starts_with_char in refl)

abbrev web_meta : SourceMeta
web_meta = record {
  context = codes "dev";
  namespace = codes "shop";
  pod = codes "web-1";
  container = codes "app";
  kind = pod_log;
  node = none;
  labels = [];
  uid = codes "u1";
  palette_index = some 3;
  container_palette_index = none;
}

-- An undated line, a dated one, a failed read, and a line after it.
abbrev four_reads : List Read
four_reads =
    read (ok (codes "boot" ++ (10 ∷ [])))
    ∷ read (ok (codes "2024Z hi" ++ (10 ∷ [])))
    ∷ read (err (codes "reset"))
    ∷ read (ok (codes "late"))
    ∷ []

log_events-lines_example :
    (tss : List ℕ) × (log_events {J = ℕ} decode_all
        (λ b. b)
        parse_date
        500
        100000
        web_meta
        four_reads
        false
        none
      ≡ some (
          events decode_all (λ b. b) parse_date 500 100000 web_meta (lines_read four_reads) tss
          ++ read_error four_reads))
    × IsTimed 500 (stamps decode_all (λ b. b) parse_date four_reads) none tss
unfolding lines_read split_log_line text_beq split_once trim_line_end Option.bind
log_events-lines_example =
    log_events-lines decode_all (λ b. b) parse_date 500 100000 web_meta four_reads (omega arith)
      (omega arith, (omega arith, tt))

-- The API fails twice and then answers.
abbrev third_time : ℕ → Result ℕ (KubeError Text)
third_time n = if nat_beq n 2 then ok 77 else err (other (codes "reset"))

log_stream_with_retry-DecidesAt_example :
    (n : ℕ) × (r : Result ℕ (RetryError Text)) × (log_stream_with_retry third_time 3 3 0 ≡ some r)
    × DecidesAt third_time 3 0 n r
log_stream_with_retry-DecidesAt_example =
    log_stream_with_retry-DecidesAt third_time 3 3 0 (omega arith) (omega arith)
