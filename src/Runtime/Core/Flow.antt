-- ===== src/Runtime/Core/Flow.antt =====
-- crates/rustern-core/src/runtime/mux_forward_core.rs: what the tasks have made, at every moment, of
-- the rows that the pipeline has read.
use rustern.Common.{
  ℕ, suc, ◌+◌, ◌≡◌, refl, sym, ap, ◌∙◌, false, List, [], ◌∷◌, ◌++◌, map, Option, none, some, any,
  any-append, filter_map, push, arith, ok, err, if_both,
}
use rustern.Source.{LogSourceError}
use rustern.Pipeline.External.{External}
use rustern.Pipeline.Stages.{Row, Parsed, ExitWatchState}
use rustern.Pipeline.Spec.{PipelineStages, apply}
use rustern.Pipeline.Meaning.{display, exit_condition}
use rustern.Pipeline.Run.{apply-rows, apply-errors, source_error}
use rustern.Runtime.Config.{RuntimeFwdConfig}
use rustern.Runtime.Stats.{with_mux_policy}
use rustern.Runtime.Forward
use rustern.Runtime.Forward.{forward_to_render}
use rustern.Runtime.Forward.Counts.{add_nothing}
use rustern.Runtime.Forward.Offered.{
  IsErrors, is_api, api_count, line-source_stats, failed-IsErrors, api_count-append,
}
use rustern.Runtime.Core.{
  Turn, cancel, multiplex, forward, MuxForwardCore, from_fwd, spawn, multiplex_turn, pull,
  offer_row, handle, forward_turn, turn, run_core,
}
use rustern.Runtime.Core.Pulls.{Pulls, pull-Pulls}

push-append {ℓ} :
    {B : Type ℓ} (o : Option B) {l : List B} (m n : List B) → l ≡ m ++ n → push o l ≡ push o m ++ n
push-append none m n e = e
push-append (some b) m n e = ap (λ t. b ∷ t) e

pub filter_map-append {ℓ κ} :
    {A : Type ℓ} {B : Type κ} (f : A → Option B) (xs ys : List A)
    → filter_map f (xs ++ ys) ≡ filter_map f xs ++ filter_map f ys
unfolding filter_map
filter_map-append f [] ys = refl
filter_map-append f (x ∷ xs) ys =
    push-append (f x) (filter_map f xs) (filter_map f ys) (filter_map-append f xs ys)

module _ (x : External) where
  -- Only the errors of the sources count.
  api_count-source_error :
      (rows : List (Row x))
      → api_count rows
        ≡ api_count {J = Parsed x}
            (map (λ (e : LogSourceError). err e) (filter_map (source_error x) rows))
  unfolding api_count is_api filter_map
  api_count-source_error [] = refl
  api_count-source_error (ok ev ∷ rows) = api_count-source_error rows
  api_count-source_error (err (LogSourceError.api m) ∷ rows) =
      ap (λ n. suc n) (api_count-source_error rows)
  api_count-source_error (err LogSourceError.eof ∷ rows) = api_count-source_error rows
  api_count-source_error (err LogSourceError.cancelled ∷ rows) = api_count-source_error rows

  api_count-apply :
      (st : PipelineStages x) (w : ExitWatchState) (rows : List (Row x))
      → api_count (apply x st w rows).0 ≡ api_count rows
  api_count-apply st w rows =
      api_count-source_error (apply x st w rows).0
      ∙ ap (λ es. api_count {J = Parsed x} (map (λ (e : LogSourceError). err e) es))
          (apply-errors x st w rows)
      ∙ sym (api_count-source_error rows)

module _ (x : External) (st : PipelineStages x) where
  api_count-display :
      (rows : List (Row x)) → api_count (filter_map (display x st) rows) ≡ api_count rows
  api_count-display rows =
      let w : ExitWatchState = record { triggered = false; cancelled = false } in
      sym (ap (λ l. api_count l) (apply-rows x st w rows)) ∙ api_count-apply x st w rows

  -- The exit watch has been triggered exactly if a row that the pipeline has read meets the exit
  -- condition, and the stats of the run have counted the API errors that it has read.
  pub record Flowing (core : MuxForwardCore x) : Type 0 where
    pub of_watch : core.exit_watch.triggered ≡ any (exit_condition x st) core.pulled
    pub of_errors : IsErrors core.forwarder.source_stats (api_count core.pulled)

  module _ (cfg : RuntimeFwdConfig) (answer : Forward.Answer) where
    watched :
        (core : MuxForwardCore x) (out : Option (Row x) × MuxForwardCore x) (new : List (Row x))
        → Pulls x st core out new
        → Flowing core
        → out.1.exit_watch.triggered ≡ any (exit_condition x st) out.1.pulled
    watched core out new p f =
        rw p.of_pulled
          (ground (arith, p.of_watch, f.of_watch, any-append (exit_condition x st) core.pulled new))

    counted :
        (core : MuxForwardCore x) (out : Option (Row x) × MuxForwardCore x) (new : List (Row x))
        → Pulls x st core out new
        → api_count out.1.pulled ≡ api_count core.pulled + api_count (push out.0 [])
    counted core out new p =
        ap (λ l. api_count l) p.of_pulled
        ∙ api_count-append core.pulled new
        ∙ ap (λ n. api_count core.pulled + n)
            (sym (api_count-display new) ∙ ap (λ l. api_count l) p.of_shown)

    handle-Flowing :
        (core : MuxForwardCore x) (o : Option (Row x)) (c : MuxForwardCore x) (new : List (Row x))
        → Pulls x st core (o, c) new
        → Flowing core
        → Flowing (handle x cfg answer (o, c))
    unfolding handle offer_row api_count is_api
    handle-Flowing core none c new p f = record {
      of_watch = watched core (none, c) new p f;
      of_errors =
          rw (p.of_forwarder, counted core (none, c) new p, add_nothing (api_count core.pulled))
            f.of_errors;
    }
    handle-Flowing core (some (ok ev)) c new p f = record {
      of_watch = watched core (some (ok ev), c) new p f;
      of_errors =
          rw
            (
              line-source_stats cfg.lossy ev _ c.forwarder,
              p.of_forwarder,
              counted core (some (ok ev), c) new p,
              add_nothing (api_count core.pulled),
            )
            f.of_errors;
    }
    handle-Flowing core (some (err e)) c new p f = record {
      of_watch = watched core (some (err e), c) new p f;
      of_errors =
          rw (counted core (some (err e), c) new p, p.of_forwarder)
            (failed-IsErrors cfg.lossy e core.forwarder (api_count core.pulled) f.of_errors);
    }

    forward_turn-Flowing :
        (n : ℕ) (core : MuxForwardCore x)
        → Flowing core
        → Flowing (forward_turn x cfg st n answer core)
    unfolding forward_turn
    forward_turn-Flowing n core f =
        if_both Flowing core.forward_done (λ d. f)
          λ d.
            if_both Flowing core.exit_watch.cancelled
              (λ k. record { of_watch = f.of_watch; of_errors = f.of_errors })
              λ k.
                let (new, p) = pull-Pulls x st n core in
                handle-Flowing core (pull x st n core).0 (pull x st n core).1 new p f

  turn-Flowing :
      (cfg : RuntimeFwdConfig) (t : Turn (Parsed x)) (core : MuxForwardCore x)
      → Flowing core
      → Flowing (turn x cfg st t core)
  unfolding turn multiplex_turn
  turn-Flowing cfg cancel core f = record { of_watch = f.of_watch; of_errors = f.of_errors }
  turn-Flowing cfg (multiplex i) core f =
      if_both Flowing core.mux_done (λ d. f)
        λ d. record { of_watch = f.of_watch; of_errors = f.of_errors }
  turn-Flowing cfg (forward n answer) core f = forward_turn-Flowing cfg answer n core f

  pub run_core-Flowing :
      (cfg : RuntimeFwdConfig) (turns : List (Turn (Parsed x))) (core : MuxForwardCore x)
      → Flowing core
      → Flowing (run_core x cfg st turns core)
  unfolding run_core
  run_core-Flowing cfg [] core f = f
  run_core-Flowing cfg (t ∷ turns) core f =
      run_core-Flowing cfg turns (turn x cfg st t core) (turn-Flowing cfg t core f)

  pub spawn-Flowing : (cfg : RuntimeFwdConfig) → Flowing (spawn x cfg none)
  unfolding spawn from_fwd with_mux_policy IsErrors api_count any
  spawn-Flowing cfg = record { of_watch = refl; of_errors = refl }
