-- ===== src/Runtime/Core/Stopped.antt =====
-- crates/rustern-core/src/runtime/mux_forward_core.rs: what the tasks do once the shared token is cancelled.
use rustern.Common.{
  ◌≡◌, refl, sym, ap, ◌∙◌, Bool, true, false, ◌||◌, List, [], ◌∷◌, any, if_both, arith, is_empty,
}
use rustern.Pipeline.External.{External}
use rustern.Pipeline.Stages.{Parsed}
use rustern.Pipeline.Spec.{PipelineStages}
use rustern.Runtime.Config.{RuntimeFwdConfig}
use rustern.Runtime.Mux
use rustern.Runtime.Mux.{mux_multiplex_loop, leave}
use rustern.Runtime.Core.{
  Turn, cancel, multiplex, forward, MuxForwardCore, multiplex_turn, forward_turn, turn, run_core,
}

-- Whose turn it is.
unfoldable pub is_multiplex : {J : Type 0} → Turn J → Bool
is_multiplex (multiplex i) = true
is_multiplex cancel = false
is_multiplex (forward n answer) = false

unfoldable pub is_forward : {J : Type 0} → Turn J → Bool
is_forward (forward n answer) = true
is_forward cancel = false
is_forward (multiplex i) = false

module _ (x : External) where
  -- From `core` to `after` no row is read, sent or rendered, the exit watch is not triggered, and the two
  -- tasks end if they have a turn.
  pub record Stopped (core after : MuxForwardCore x) (mux_turn forward_turn : Bool) : Type 0 where
    pub of_pulled : after.pulled ≡ core.pulled
    pub of_sent : after.mux.sent ≡ core.mux.sent
    pub of_forwarder : after.forwarder ≡ core.forwarder
    pub of_watch : after.exit_watch ≡ core.exit_watch
    pub of_mux : after.mux_done ≡ (core.mux_done || mux_turn)
    pub of_forward : after.forward_done ≡ (core.forward_done || forward_turn)

  turn-Stopped :
      (cfg : RuntimeFwdConfig) (st : PipelineStages x) (t : Turn (Parsed x))
      (core : MuxForwardCore x)
      → core.exit_watch.cancelled ≡ true
      → Stopped core (turn x cfg st t core) (is_multiplex t) (is_forward t)
  unfolding turn multiplex_turn forward_turn mux_multiplex_loop Mux.handled leave is_multiplex
      is_forward is_empty
  turn-Stopped cfg st cancel core h = record {
    of_pulled = refl;
    of_sent = refl;
    of_forwarder = refl;
    of_watch = ap (λ c. record core.exit_watch { cancelled = c }) (sym h);
    of_mux = ground arith;
    of_forward = ground arith;
  }
  turn-Stopped cfg st (multiplex i) core h =
      if_both (λ after. Stopped core after true false) core.mux_done
        (λ d. record {
          of_pulled = refl;
          of_sent = refl;
          of_forwarder = refl;
          of_watch = refl;
          of_mux = ground (arith, d);
          of_forward = ground arith;
        })
        λ d. record {
          of_pulled = refl;
          of_sent = rw h refl;
          of_forwarder = refl;
          of_watch = refl;
          of_mux = rw (h, d) refl;
          of_forward = ground arith;
        }
  turn-Stopped cfg st (forward n answer) core h =
      if_both (λ after. Stopped core after false true) core.forward_done
        (λ d. record {
          of_pulled = refl;
          of_sent = refl;
          of_forwarder = refl;
          of_watch = refl;
          of_mux = ground arith;
          of_forward = ground (arith, d);
        })
        λ d. rw h (record {
          of_pulled = refl;
          of_sent = refl;
          of_forwarder = refl;
          of_watch = refl;
          of_mux = ground arith;
          of_forward = rw d refl;
        })

  -- Once the token is cancelled, no later turn reads, sends or renders a row, or triggers the exit watch, and
  -- the multiplexer and the forwarder have each ended if they had before or have a turn.
  pub run_core-Stopped :
      (cfg : RuntimeFwdConfig) (st : PipelineStages x) (turns : List (Turn (Parsed x)))
      (core : MuxForwardCore x)
      → core.exit_watch.cancelled ≡ true
      → Stopped core (run_core x cfg st turns core) (any is_multiplex turns) (any is_forward turns)
  unfolding run_core any
  run_core-Stopped cfg st [] core h = record {
    of_pulled = refl;
    of_sent = refl;
    of_forwarder = refl;
    of_watch = refl;
    of_mux = ground arith;
    of_forward = ground arith;
  }
  run_core-Stopped cfg st (t ∷ turns) core h =
      let a = turn-Stopped cfg st t core h in
      let still = ap (λ w. w.cancelled) a.of_watch ∙ h in
      let b = run_core-Stopped cfg st turns (turn x cfg st t core) still in
      record {
        of_pulled = b.of_pulled ∙ a.of_pulled;
        of_sent = b.of_sent ∙ a.of_sent;
        of_forwarder = b.of_forwarder ∙ a.of_forwarder;
        of_watch = b.of_watch ∙ a.of_watch;
        of_mux = ground (arith, a.of_mux, b.of_mux);
        of_forward = ground (arith, a.of_forward, b.of_forward);
      }
