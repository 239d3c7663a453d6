-- ===== src/Runtime/Core/Lossless.antt =====
-- crates/rustern-core/src/runtime/mux_forward_core.rs: without `--lossy`, what reaches the renderer.
use rustern.Common.{
  ℕ, ◌≤◌, ◌≡◌, refl, sym, ap, ◌∙◌, Bool, true, false, List, [], ◌∷◌, ◌++◌, Option, none, some,
  filter_map, push, length, is_empty, arith, ok, err, All, if_both,
}
use mathlib.Core.List.{append-nil}
use rustern.Source.{LogEvent}
use rustern.Pipeline.External.{External}
use rustern.Pipeline.Stages.{Row, Parsed}
use rustern.Pipeline.Spec.{PipelineStages}
use rustern.Pipeline.Meaning.{display}
use rustern.Runtime.Config.{RuntimeFwdConfig}
use rustern.Runtime.Stats.{RunStats}
use rustern.Runtime.Mux
use rustern.Runtime.Mux.{MuxInput}
use rustern.Runtime.Forward
use rustern.Runtime.Forward.{forward_to_render}
use rustern.Runtime.Forward.Offered.{line_of, taken-rendered, refused-rendered, failed-rendered}
use rustern.Runtime.Core.{
  Turn, cancel, multiplex, forward, MuxForwardCore, spawn, multiplex_turn, pull, offer_row, handle,
  forward_turn, turn, run_core,
}
use rustern.Runtime.Core.Pulls.{Pulls, pull-Pulls}
use rustern.Runtime.Core.Flow.{filter_map-append}
use rustern.Runtime.Core.Order.{inputs, run_core-order}

-- The render channel takes the lines that it is offered.
abbrev pub Takes : {J : Type 0} → Turn J → Type 0
Takes (forward n answer) = answer ≡ Forward.accepted
Takes cancel = Unit {0}
Takes (multiplex i) = Unit {0}

module _ (x : External) (st : PipelineStages x) where
  -- The lines that the pipeline shows of the rows.
  unfoldable pub shown_lines : List (Row x) → List (LogEvent (Parsed x))
  shown_lines rows = filter_map line_of (filter_map (display x st) rows)

  -- Of the lines that the pipeline has shown all have reached the renderer, in their order, but for at
  -- most the last one, if the token was cancelled when the forwarder had it; and a forwarder that has
  -- ended without a cancellation has left no row in the raw channel.
  pub record Lossless (core : MuxForwardCore x) (lost : List (LogEvent (Parsed x))) : Type 0 where
    pub of_rendered : core.forwarder.rendered ++ lost ≡ shown_lines core.pulled
    pub at_most : length lost ≤ 1
    pub of_lost : core.exit_watch.cancelled ≡ false → lost ≡ []
    pub of_going : core.forward_done ≡ false → lost ≡ []
    pub of_end :
        core.forward_done ≡ true
        → core.exit_watch.cancelled ≡ false
        → (core.mux_done ≡ true) × (core.mux.sent ≡ [])

  abbrev Kept : MuxForwardCore x → Type 0
  Kept core = (lost : List (LogEvent (Parsed x))) × Lossless core lost

  -- The lines after a poll.
  shown-pull :
      (core : MuxForwardCore x) (out : Option (Row x) × MuxForwardCore x) (new : List (Row x))
      → Pulls x st core out new
      → core.forwarder.rendered ≡ shown_lines core.pulled
      → shown_lines out.1.pulled ≡ out.1.forwarder.rendered ++ filter_map line_of (push out.0 [])
  unfolding shown_lines
  shown-pull core out new p e =
      ap shown_lines p.of_pulled
      ∙ ap (filter_map line_of) (filter_map-append (display x st) core.pulled new)
      ∙ filter_map-append line_of (filter_map (display x st) core.pulled)
          (filter_map (display x st) new)
      ∙ ap (λ l. l ++ filter_map line_of (filter_map (display x st) new))
          (sym e ∙ sym (ap (λ f. f.rendered) p.of_forwarder))
      ∙ ap (λ l. out.1.forwarder.rendered ++ filter_map line_of l) p.of_shown

  is_empty-nil : {A : Type 0} (l : List A) → is_empty l ≡ true → l ≡ []
  unfolding is_empty
  is_empty-nil [] h = refl
  is_empty-nil (a ∷ l) h = absurd (ground (arith, h))

  -- The core after a line has been offered.
  abbrev Offered : Bool → MuxForwardCore x → LogEvent (Parsed x) → Forward.Answer → Type 0
  unfolding Forward.handled is_empty
  Offered is_lossy c ev answer = Kept (record c {
    forwarder = forward_to_render is_lossy (Forward.line ev answer ∷ []) c.forwarder;
    forward_done = is_empty (Forward.handled is_lossy (Forward.line ev answer ∷ []));
  })

  refused-Kept :
      (is_lossy : Bool) (c : MuxForwardCore x) (ev : LogEvent (Parsed x))
      → is_lossy ≡ false
      → c.exit_watch.cancelled ≡ true
      → shown_lines c.pulled ≡ c.forwarder.rendered ++ (ev ∷ [])
      → Offered is_lossy c ev Forward.refused
  unfolding Forward.handled is_empty
  refused-Kept true c ev h k lines = absurd (ground (arith, h))
  refused-Kept false c ev h k lines = (
    ev ∷ [],
    record {
      of_rendered = ap (λ l. l ++ (ev ∷ [])) (refused-rendered ev c.forwarder) ∙ sym lines;
      at_most = omega arith;
      of_lost = λ u. absurd (ground (arith, k, u));
      of_going = λ d. absurd (ground (arith, d));
      of_end = λ d u. absurd (ground (arith, k, u));
    },
  )

  taken-Kept :
      (is_lossy : Bool) (c : MuxForwardCore x) (ev : LogEvent (Parsed x))
      → is_lossy ≡ false
      → shown_lines c.pulled ≡ c.forwarder.rendered ++ (ev ∷ [])
      → Offered is_lossy c ev Forward.accepted
  unfolding Forward.handled is_empty
  taken-Kept true c ev h lines = absurd (ground (arith, h))
  taken-Kept false c ev h lines = (
    [],
    record {
      of_rendered = append-nil _ ∙ taken-rendered ev c.forwarder ∙ sym lines;
      at_most = omega arith;
      of_lost = λ u. refl;
      of_going = λ d. refl;
      of_end = λ d u. absurd (ground (arith, d));
    },
  )

  handle-Kept :
      (cfg : RuntimeFwdConfig) (core : MuxForwardCore x) (o : Option (Row x)) (c : MuxForwardCore x)
      (new : List (Row x))
      → cfg.lossy ≡ false
      → Pulls x st core (o, c) new
      → core.forwarder.rendered ≡ shown_lines core.pulled
      → Kept (handle x cfg Forward.accepted (o, c))
  unfolding handle offer_row filter_map Forward.handled is_empty
  handle-Kept cfg core none c new h p e =
      let lines = shown-pull core (none, c) new p e in
      (
        [],
        record {
          of_rendered = sym lines;
          at_most = omega arith;
          of_lost = λ k. refl;
          of_going = λ d. refl;
          of_end = λ d k. (ground (arith, d), is_empty-nil c.mux.sent (ground (arith, d)));
        },
      )
  handle-Kept cfg core (some (err er)) c new h p e =
      let lines = shown-pull core (some (err er), c) new p e in
      (
        [],
        record {
          of_rendered = ap (λ l. l ++ []) (failed-rendered cfg.lossy er c.forwarder) ∙ sym lines;
          at_most = omega arith;
          of_lost = λ k. refl;
          of_going = λ d. refl;
          of_end = λ d k. absurd (ground (arith, d));
        },
      )
  handle-Kept cfg core (some (ok ev)) c new h p e =
      let lines = shown-pull core (some (ok ev), c) new p e in
      if_both (Offered cfg.lossy c ev) cfg.lossy (λ l. absurd (ground (arith, h, l)))
        λ l.
          if_both (Offered cfg.lossy c ev) c.exit_watch.cancelled
            (λ k. refused-Kept cfg.lossy c ev h k lines) (λ k. taken-Kept cfg.lossy c ev h lines)

  forward_turn-Kept :
      (cfg : RuntimeFwdConfig) (n : ℕ) (core : MuxForwardCore x)
      → cfg.lossy ≡ false
      → Kept core
      → Kept (forward_turn x cfg st n Forward.accepted core)
  unfolding forward_turn
  forward_turn-Kept cfg n core h (lost, s) =
      if_both Kept core.forward_done (λ d. (lost, s))
        λ d.
          if_both Kept core.exit_watch.cancelled
            (λ k. (
              lost,
              record {
                of_rendered = s.of_rendered;
                at_most = s.at_most;
                of_lost = s.of_lost;
                of_going = λ e. s.of_going d;
                of_end = λ e u. absurd (ground (arith, k, u));
              },
            ))
            λ k.
              let (new, p) = pull-Pulls x st n core in
              handle-Kept cfg core (pull x st n core).0 (pull x st n core).1 new h p (
                sym (append-nil core.forwarder.rendered)
                ∙ ap (λ l. core.forwarder.rendered ++ l) (sym (s.of_going d))
                ∙ s.of_rendered)

  turn-Kept :
      (cfg : RuntimeFwdConfig) (t : Turn (Parsed x)) (core : MuxForwardCore x)
      → cfg.lossy ≡ false
      → Takes t
      → Kept core
      → Kept (turn x cfg st t core)
  unfolding turn multiplex_turn
  turn-Kept cfg cancel core h a (lost, s) = (
    lost,
    record {
      of_rendered = s.of_rendered;
      at_most = s.at_most;
      of_lost = λ k. absurd (ground (arith, k));
      of_going = s.of_going;
      of_end = λ e u. absurd (ground (arith, u));
    },
  )
  turn-Kept cfg (multiplex i) core h a (lost, s) =
      if_both Kept core.mux_done (λ d. (lost, s))
        λ d. (
          lost,
          record {
            of_rendered = s.of_rendered;
            at_most = s.at_most;
            of_lost = s.of_lost;
            of_going = s.of_going;
            of_end = λ e u. absurd (ground (arith, (s.of_end e u).0, d));
          },
        )
  turn-Kept cfg (forward n answer) core h a k = rw a (forward_turn-Kept cfg n core h k)

  keeps :
      (cfg : RuntimeFwdConfig) (turns : List (Turn (Parsed x))) (core : MuxForwardCore x)
      → cfg.lossy ≡ false
      → All Takes turns
      → Kept core
      → Kept (run_core x cfg st turns core)
  unfolding run_core
  keeps cfg [] core h a k = k
  keeps cfg (t ∷ turns) core h a k =
      keeps cfg turns (turn x cfg st t core) h a.1 (turn-Kept cfg t core h a.0 k)

  -- Without `--lossy`, and if the render channel takes the lines that it is offered, at every moment: the
  -- rows that the pipeline has read and those in the raw channel are, in their order, the first of the rows
  -- that the channel takes from the multiplexer; of the lines that the pipeline shows of what it has read
  -- all have been rendered, in their order, but for at most the last one, which is lost only if the token is
  -- cancelled; and a forwarder that ends without a cancellation has left no row in the channel.
  pub run_core-Lossless :
      (cfg : RuntimeFwdConfig) (stats : Option RunStats) (turns : List (Turn (Parsed x)))
      → cfg.lossy ≡ false
      → All Takes turns
      → ((rest : List (Row x)) × ((run_core x cfg st turns (spawn x cfg stats)).pulled
              ++ (run_core x cfg st turns (spawn x cfg stats)).mux.sent
              ++ rest
            ≡ Mux.taken (inputs turns)))
        × ((lost : List (LogEvent (Parsed x))) × Lossless
              (run_core x cfg st turns (spawn x cfg stats))
              lost)
  unfolding shown_lines spawn filter_map
  run_core-Lossless cfg stats turns h a = (
    run_core-order x cfg st turns (spawn x cfg stats),
    keeps cfg turns (spawn x cfg stats) h a fresh,
  )
    where
      fresh : Kept (spawn x cfg stats)
      fresh = (
        [],
        record {
          of_rendered = refl;
          at_most = omega arith;
          of_lost = λ k. refl;
          of_going = λ d. refl;
          of_end = λ d k. absurd (ground (arith, d));
        },
      )
