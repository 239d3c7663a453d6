-- ===== src/Runtime/Forward/Counts.antt =====
-- crates/rustern-core/src/runtime/forward.rs: every line that the loop takes is rendered or counted as
-- dropped.
use rustern.Common.{
  ℕ, suc, ◌+◌, ◌≡◌, refl, ◌∙◌, sym, ap, Bool, true, false, List, [], ◌∷◌, ◌++◌, Option, none, some,
  arith, length,
}
use mathlib.Core.List.{append-nil, append_assoc}
use rustern.Source.{LogEvent, LogSourceError}
use rustern.Runtime.Stats.{
  fetch_add, RunStats, record_source_api_error, record_forwarded_line, record_dropped_line,
  fetch_add-count,
}
use rustern.Runtime.Forward.{
  accepted, refused, closed, ForwardInput, cancelled, finished, line, failed, Forwarder, map_stats,
  record_drop, take_line, note_error, forward_to_render, handled, accepted_lines, refused_lines,
  api_errors, HasCounted, Counted,
}

HasCounted-more :
    (o : Option RunStats) (f : RunStats → RunStats) (counter : RunStats → ℕ) (n : ℕ)
    → ((s : RunStats) → counter (f s) ≡ fetch_add (counter s) 1)
    → HasCounted o counter n
    → HasCounted (map_stats f o) counter (suc n)
HasCounted-more none f counter n h c = tt
HasCounted-more (some s) f counter n h c = h s ∙ ap (λ m. fetch_add m 1) c ∙ fetch_add-count n

HasCounted-same :
    (o : Option RunStats) (f : RunStats → RunStats) (counter : RunStats → ℕ) (n : ℕ)
    → ((s : RunStats) → counter (f s) ≡ counter s)
    → HasCounted o counter n
    → HasCounted (map_stats f o) counter n
HasCounted-same none f counter n h c = tt
HasCounted-same (some s) f counter n h c = h s ∙ c

pub add_nothing : (a : ℕ) → a + 0 ≡ a
add_nothing a = omega arith

pub move_suc : (a n : ℕ) → a + suc n ≡ suc a + n
move_suc a n = omega arith

module _ {J : Type 0} where
  Counted-now :
      (f : Forwarder J) (a d t e : ℕ)
      → Counted f a d t e
      → Counted f (a + 0) (d + 0) (t + 0) (e + 0)
  Counted-now f a d t e c =
      rw (add_nothing a) (rw (add_nothing d) (rw (add_nothing t) (rw (add_nothing e) c)))

  take_line-Counted :
      (ev : LogEvent J) (f : Forwarder J) (a d t e : ℕ)
      → Counted f a d t e
      → Counted (take_line ev f) (suc a) d t e
  unfolding take_line record_forwarded_line
  take_line-Counted ev f a d t e c = record {
    of_forwarded =
        HasCounted-more f.stats record_forwarded_line (λ s. s.forwarded_lines) a (λ s. refl)
          c.of_forwarded;
    of_dropped =
        HasCounted-same f.stats record_forwarded_line (λ s. s.dropped_lines) d (λ s. refl)
          c.of_dropped;
    of_total = c.of_total;
    of_errors = c.of_errors;
  }

  record_drop-Counted :
      (f : Forwarder J) (a d t e : ℕ)
      → Counted f a d t e
      → Counted (record_drop f) a (suc d) (suc t) e
  unfolding record_drop record_dropped_line
  record_drop-Counted f a d t e c = record {
    of_forwarded =
        HasCounted-same f.stats record_dropped_line (λ s. s.forwarded_lines) a (λ s. refl)
          c.of_forwarded;
    of_dropped =
        HasCounted-more f.stats record_dropped_line (λ s. s.dropped_lines) d (λ s. refl)
          c.of_dropped;
    of_total = ap (λ m. fetch_add m 1) c.of_total ∙ fetch_add-count t;
    of_errors = c.of_errors;
  }

  api_error-Counted :
      (f : Forwarder J) (a d t e : ℕ)
      → Counted f a d t e
      → Counted
          (record f { source_stats = map_stats record_source_api_error f.source_stats })
          a
          d
          t
          (suc e)
  unfolding record_source_api_error
  api_error-Counted f a d t e c = record {
    of_forwarded = c.of_forwarded;
    of_dropped = c.of_dropped;
    of_total = c.of_total;
    of_errors =
        HasCounted-more f.source_stats record_source_api_error (λ s. s.source_errors) e (λ s. refl)
          c.of_errors;
  }

  -- The renderer gets, in their order, the lines that the channel accepted; each other line that the
  -- loop handled is a drop; and each API error is counted. The counters count modulo 2 ^ 64.
  pub forward-Counted :
      (lossy : Bool) (ins : List (ForwardInput J)) (f : Forwarder J) (a d t e : ℕ)
      → Counted f a d t e
      → ((forward_to_render lossy ins f).rendered
          ≡ f.rendered ++ accepted_lines (handled lossy ins))
        × Counted
            (forward_to_render lossy ins f)
            (a + length (accepted_lines (handled lossy ins)))
            (d + refused_lines (handled lossy ins))
            (t + refused_lines (handled lossy ins))
            (e + api_errors (handled lossy ins))
  unfolding forward_to_render handled accepted_lines refused_lines api_errors note_error
  forward-Counted lossy [] f a d t e c = (sym (append-nil f.rendered), Counted-now f a d t e c)
  forward-Counted lossy (cancelled ∷ ins) f a d t e c =
      (sym (append-nil f.rendered), Counted-now f a d t e c)
  forward-Counted lossy (finished ∷ ins) f a d t e c =
      (sym (append-nil f.rendered), Counted-now f a d t e c)
  forward-Counted lossy (failed (LogSourceError.api m) ∷ ins) f a d t e c =
      rw (move_suc e (api_errors (handled lossy ins))) (
        forward-Counted lossy ins
          (record f { source_stats = map_stats record_source_api_error f.source_stats }) a d t
          (suc e) (api_error-Counted f a d t e c))
  forward-Counted lossy (failed LogSourceError.eof ∷ ins) f a d t e c =
      forward-Counted lossy ins f a d t e c
  forward-Counted lossy (failed LogSourceError.cancelled ∷ ins) f a d t e c =
      forward-Counted lossy ins f a d t e c
  forward-Counted lossy (line ev accepted ∷ ins) f a d t e c =
      let (r, k) =
        forward-Counted lossy ins (take_line ev f) (suc a) d t e
          (take_line-Counted ev f a d t e c) in
      (
        r ∙ append_assoc f.rendered (ev ∷ []) (accepted_lines (handled lossy ins)),
        rw (move_suc a (length (accepted_lines (handled lossy ins)))) k,
      )
  forward-Counted lossy (line ev closed ∷ ins) f a d t e c =
      (sym (append-nil f.rendered), Counted-now f a d t e c)
  forward-Counted true (line ev refused ∷ ins) f a d t e c =
      rw (move_suc d (refused_lines (handled true ins))) (
        rw (move_suc t (refused_lines (handled true ins))) (
          forward-Counted true ins (record_drop f) a (suc d) (suc t) e
            (record_drop-Counted f a d t e c)))
  forward-Counted false (line ev refused ∷ ins) f a d t e c =
      (sym (append-nil f.rendered), Counted-now f a d t e c)
