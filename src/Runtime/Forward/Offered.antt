-- ===== src/Runtime/Forward/Offered.antt =====
-- crates/rustern-core/src/runtime/forward.rs: the loop over the rows that the pipeline yields.
use rustern.Common.{
  ℕ, suc, ◌+◌, ◌%◌, ◌<◌, ◌≡◌, refl, ◌∙◌, ap, Bool, true, false, List, [], ◌∷◌, ◌++◌, Option, none,
  some, ok, err, any, ltb, arith, if◌then◌else◌,
}
use rustern.Source.{LogEvent, LogSourceError, Item}
use rustern.Runtime.Stats.{
  u64_values, RunStats, record_source_api_error, had_source_errors, fetch_add, fetch_add-count,
}
use rustern.Runtime.Forward.Counts.{add_nothing}
use rustern.Runtime.Forward.{
  map_stats, Answer, accepted, refused, closed, line, failed, Forwarder, take_line, record_drop,
  note_error, forward_to_render,
}

abbrev pub line_of : {J : Type 0} → Item J → Option (LogEvent J)
line_of (ok ev) = some ev
line_of (err e) = none

module _ {J : Type 0} where
  -- A line is never counted as an error of a source.
  pub line-source_stats :
      (lossy : Bool) (ev : LogEvent J) (answer : Answer) (f : Forwarder J)
      → (forward_to_render lossy (line ev answer ∷ []) f).source_stats ≡ f.source_stats
  unfolding forward_to_render take_line record_drop
  line-source_stats lossy ev accepted f = refl
  line-source_stats lossy ev closed f = refl
  line-source_stats true ev refused f = refl
  line-source_stats false ev refused f = refl

  -- One line without `--lossy`.
  pub taken-rendered :
      (ev : LogEvent J) (f : Forwarder J)
      → (forward_to_render false (line ev accepted ∷ []) f).rendered ≡ f.rendered ++ (ev ∷ [])
  unfolding forward_to_render take_line
  taken-rendered ev f = refl

  pub refused-rendered :
      (ev : LogEvent J) (f : Forwarder J)
      → (forward_to_render false (line ev refused ∷ []) f).rendered ≡ f.rendered
  unfolding forward_to_render
  refused-rendered ev f = refl

  pub failed-rendered :
      (lossy : Bool) (e : LogSourceError) (f : Forwarder J)
      → (forward_to_render lossy (failed e ∷ []) f).rendered ≡ f.rendered
  unfolding forward_to_render note_error
  failed-rendered lossy (LogSourceError.api m) f = refl
  failed-rendered lossy LogSourceError.eof f = refl
  failed-rendered lossy LogSourceError.cancelled f = refl

-- The source errors that the stats have counted.
unfoldable pub IsErrors : Option RunStats → ℕ → Type 0
IsErrors none n = true ≡ false
IsErrors (some s) n = s.source_errors ≡ n % u64_values

IsErrors-more :
    (o : Option RunStats) (n : ℕ)
    → IsErrors o n
    → IsErrors (map_stats record_source_api_error o) (suc n)
unfolding IsErrors record_source_api_error
IsErrors-more none n h = h
IsErrors-more (some s) n h = ap (λ m. fetch_add m 1) h ∙ fetch_add-count n

-- `had_source_errors` of the stats, if there are any.
unfoldable pub had_errors : Option RunStats → Bool
unfolding had_source_errors
had_errors none = false
had_errors (some s) = had_source_errors s

pub had_errors-IsErrors :
    (o : Option RunStats) (n : ℕ) → IsErrors o n → n < u64_values → had_errors o ≡ ltb 0 n
unfolding IsErrors had_errors had_source_errors
had_errors-IsErrors none n h b = absurd (ground (arith, h))
had_errors-IsErrors (some s) n h b = let e : s.source_errors ≡ n = omega (arith, h) in rw e refl

module _ {J : Type 0} where
  unfoldable pub is_api : Item J → Bool
  is_api (ok ev) = false
  is_api (err (LogSourceError.api m)) = true
  is_api (err LogSourceError.eof) = false
  is_api (err LogSourceError.cancelled) = false

  unfoldable pub api_count : List (Item J) → ℕ
  unfolding is_api
  api_count [] = 0
  api_count (r ∷ rows) = if is_api r then suc (api_count rows) else api_count rows

  pub failed-IsErrors :
      (lossy : Bool) (e : LogSourceError) (f : Forwarder J) (n : ℕ)
      → IsErrors f.source_stats n
      → IsErrors
          (forward_to_render lossy (failed e ∷ []) f).source_stats
          (n + api_count (err e ∷ []))
  unfolding forward_to_render note_error api_count is_api
  failed-IsErrors lossy (LogSourceError.api m) f n h =
      let more : n + 1 ≡ suc n = omega arith in rw more (IsErrors-more f.source_stats n h)
  failed-IsErrors lossy LogSourceError.eof f n h = rw (add_nothing n) h
  failed-IsErrors lossy LogSourceError.cancelled f n h = rw (add_nothing n) h

  pub api_count-append :
      (rows new : List (Item J)) → api_count (rows ++ new) ≡ api_count rows + api_count new
  unfolding api_count is_api
  api_count-append [] new = omega arith
  api_count-append (ok ev ∷ rows) new = api_count-append rows new
  api_count-append (err (LogSourceError.api m) ∷ rows) new =
      omega (arith, api_count-append rows new)
  api_count-append (err LogSourceError.eof ∷ rows) new = api_count-append rows new
  api_count-append (err LogSourceError.cancelled ∷ rows) new = api_count-append rows new

  pub any-api_count : (rows : List (Item J)) → ltb 0 (api_count rows) ≡ any is_api rows
  unfolding api_count any is_api
  any-api_count [] = refl
  any-api_count (ok ev ∷ rows) = any-api_count rows
  any-api_count (err (LogSourceError.api m) ∷ rows) = ground arith
  any-api_count (err LogSourceError.eof ∷ rows) = any-api_count rows
  any-api_count (err LogSourceError.cancelled ∷ rows) = any-api_count rows
