-- ===== src/Runtime/Core/Order.antt =====
-- crates/rustern-core/src/runtime/mux_forward_core.rs: what the pipeline has read, and what waits in
-- the raw channel, are the first rows that the channel took.
use rustern.Common.{
  ℕ, ◌≡◌, refl, sym, ap, ◌∙◌, true, false, List, [], ◌∷◌, ◌++◌, Option, none, some, arith, is_empty,
  if_both, Bool-cases, inl, inr,
}
use mathlib.Core.List.{append-nil, append_assoc}
use rustern.Pipeline.External.{External}
use rustern.Pipeline.Stages.{Row, Parsed}
use rustern.Pipeline.Spec.{PipelineStages}
use rustern.Runtime.Config.{RuntimeFwdConfig, resolved_mux_policy}
use rustern.Runtime.Mux.{
  BackpressurePolicy, blocking, lossy, accepted, refused, closed, MuxInput, cancelled, no_senders,
  add, remove_stream, ended, row, handled, taken, mux_multiplex_loop,
}
use rustern.Runtime.Mux.Order.{mux-sent}
use rustern.Runtime.Forward
use rustern.Runtime.Core.{
  Turn, cancel, multiplex, forward, MuxForwardCore, multiplex_turn, pull, handle, forward_turn,
  turn, run_core,
}
use rustern.Runtime.Core.Pulls.{Pulls, pull-Pulls}

-- What the multiplexer is given.
unfoldable pub inputs : {J : Type 0} → List (Turn J) → List (MuxInput J)
inputs [] = []
inputs (cancel ∷ turns) = inputs turns
inputs (multiplex i ∷ turns) = i ∷ inputs turns
inputs (forward n answer ∷ turns) = inputs turns

module _ {J : Type 0} where
  -- An input that the multiplexer handles without ending.
  handled-one :
      (policy : BackpressurePolicy) (i : MuxInput J)
      → is_empty (handled policy (i ∷ [])) ≡ false
      → handled policy (i ∷ []) ≡ i ∷ []
  unfolding handled is_empty
  handled-one policy cancelled h = ground (arith, h)
  handled-one policy no_senders h = ground (arith, h)
  handled-one policy (add key) h = refl
  handled-one policy (remove_stream key) h = refl
  handled-one policy (ended key) h = refl
  handled-one policy (row key item accepted) h = refl
  handled-one policy (row key item closed) h = ground (arith, h)
  handled-one blocking (row key item refused) h = ground (arith, h)
  handled-one lossy (row key item refused) h = refl

  handled-none :
      (policy : BackpressurePolicy) (ins : List (MuxInput J))
      → is_empty (handled policy ins) ≡ true
      → taken (handled policy ins) ≡ []
  unfolding taken is_empty
  handled-none policy ins h = of_empty (handled policy ins) h
    where
      of_empty : (l : List (MuxInput J)) → is_empty l ≡ true → taken l ≡ []
      of_empty [] e = refl
      of_empty (i ∷ l) e = ground (arith, e)

  taken-cons :
      (i : MuxInput J) (ins : List (MuxInput J)) → taken (i ∷ ins) ≡ taken (i ∷ []) ++ taken ins
  unfolding taken
  taken-cons cancelled ins = refl
  taken-cons no_senders ins = refl
  taken-cons (add key) ins = refl
  taken-cons (remove_stream key) ins = refl
  taken-cons (ended key) ins = refl
  taken-cons (row key item accepted) ins = refl
  taken-cons (row key item closed) ins = refl
  taken-cons (row key item refused) ins = refl

module _ (x : External) (cfg : RuntimeFwdConfig) (st : PipelineStages x) where
  -- The rows that the channel has taken so far.
  abbrev so_far : MuxForwardCore x → List (Row x)
  so_far core = core.pulled ++ core.mux.sent

  pub record Kept (core after : MuxForwardCore x) : Type 0 where
    pub of_rows : so_far after ≡ so_far core
    pub of_mux : after.mux_done ≡ core.mux_done

  pulled-Kept :
      (answer : Forward.Answer) (core : MuxForwardCore x) (o : Option (Row x))
      (c : MuxForwardCore x) (new : List (Row x))
      → Pulls x st core (o, c) new
      → Kept core (handle x cfg answer (o, c))
  unfolding handle
  pulled-Kept answer core o c new p = by_row o
    where
      rows : so_far c ≡ so_far core
      rows =
          ap (λ l. l ++ c.mux.sent) p.of_pulled
          ∙ append_assoc core.pulled new c.mux.sent
          ∙ ap (λ l. core.pulled ++ l) (sym p.of_sent)

      by_row : (o' : Option (Row x)) → Kept core (handle x cfg answer (o', c))
      by_row none = record { of_rows = rows; of_mux = p.of_mux }
      by_row (some r) = record { of_rows = rows; of_mux = p.of_mux }

  forward_turn-Kept :
      (n : ℕ) (answer : Forward.Answer) (core : MuxForwardCore x)
      → Kept core (forward_turn x cfg st n answer core)
  unfolding forward_turn
  forward_turn-Kept n answer core =
      if_both (Kept core) core.forward_done (λ d. record { of_rows = refl; of_mux = refl })
        λ d.
          if_both (Kept core) core.exit_watch.cancelled
            (λ k. record { of_rows = refl; of_mux = refl })
            λ k.
              let (new, p) = pull-Pulls x st n core in
              pulled-Kept answer core (pull x st n core).0 (pull x st n core).1 new p

  turn-Kept :
      (t : Turn (Parsed x)) (core : MuxForwardCore x)
      → core.mux_done ≡ true
      → Kept core (turn x cfg st t core)
  unfolding turn multiplex_turn
  turn-Kept cancel core d = record { of_rows = refl; of_mux = refl }
  turn-Kept (multiplex i) core d =
      if_both (Kept core) core.mux_done (λ e. record { of_rows = refl; of_mux = refl })
        (λ e. absurd (ground (arith, d, e)))
  turn-Kept (forward n answer) core d = forward_turn-Kept n answer core

  -- Once the multiplexer has ended, the channel takes nothing more.
  settled :
      (turns : List (Turn (Parsed x))) (core : MuxForwardCore x)
      → core.mux_done ≡ true
      → so_far (run_core x cfg st turns core) ≡ so_far core
  unfolding run_core
  settled [] core d = refl
  settled (t ∷ turns) core d =
      let k = turn-Kept t core d in settled turns _ (k.of_mux ∙ d) ∙ k.of_rows

  abbrev Prefix : List (Turn (Parsed x)) → MuxForwardCore x → List (Row x) → Type 0
  Prefix turns core rows =
      (rest : List (Row x)) × (so_far (run_core x cfg st turns core) ++ rest ≡ rows)

  -- The turn of a multiplexer that takes these inputs.
  abbrev taking : MuxForwardCore x → List (MuxInput (Parsed x)) → MuxForwardCore x
  taking core ins = record core {
    mux = mux_multiplex_loop (resolved_mux_policy cfg) ins core.mux;
    mux_done = is_empty (handled (resolved_mux_policy cfg) ins);
  }

  taking-so_far :
      (core : MuxForwardCore x) (ins : List (MuxInput (Parsed x)))
      → so_far (taking core ins) ≡ so_far core ++ taken (handled (resolved_mux_policy cfg) ins)
  taking-so_far core ins =
      ap (λ l. core.pulled ++ l) (mux-sent (resolved_mux_policy cfg) ins core.mux)
      ∙ sym (append_assoc core.pulled core.mux.sent _)

  ended_now :
      (turns : List (Turn (Parsed x))) (core : MuxForwardCore x) (ins : List (MuxInput (Parsed x)))
      (rows : List (Row x))
      → is_empty (handled (resolved_mux_policy cfg) ins) ≡ true
      → Prefix turns (taking core ins) (so_far core ++ rows)
  ended_now turns core ins rows e = (
    rows,
    ap (λ l. l ++ rows)
        (settled turns (taking core ins) e
          ∙ taking-so_far core ins
          ∙ ap (λ l. so_far core ++ l) (handled-none (resolved_mux_policy cfg) ins e)
          ∙ append-nil (so_far core)),
  )

  took :
      (turns : List (Turn (Parsed x))) (core : MuxForwardCore x) (i : MuxInput (Parsed x))
      → Prefix turns (taking core (i ∷ [])) (so_far (taking core (i ∷ [])) ++ taken (inputs turns))
      → Prefix turns (taking core (i ∷ [])) (so_far core ++ taken (i ∷ inputs turns))
  took turns core i (rest, q) =
      elim (Bool-cases (is_empty (handled (resolved_mux_policy cfg) (i ∷ [])))) [
        | inl e ↦ ended_now turns core (i ∷ []) _ e
        | inr e ↦ (
          rest,
          q
              ∙ ap (λ l. l ++ taken (inputs turns))
                  (taking-so_far core (i ∷ [])
                    ∙ ap (λ l. so_far core ++ taken l) (handled-one (resolved_mux_policy cfg) i e))
              ∙ append_assoc (so_far core) (taken (i ∷ [])) (taken (inputs turns))
              ∙ ap (λ l. so_far core ++ l) (sym (taken-cons i (inputs turns))),
        )
      ]

  -- Whatever the turns, the rows read and waiting are a first part of the rows that the channel is to
  -- take.
  pub run_core-order :
      (turns : List (Turn (Parsed x))) (core : MuxForwardCore x)
      → Prefix turns core (so_far core ++ taken (inputs turns))
  unfolding run_core turn multiplex_turn inputs is_empty
  run_core-order [] core = ([], unfold taken in refl)
  run_core-order (cancel ∷ turns) core = run_core-order turns _
  run_core-order (forward n answer ∷ turns) core =
      let k = forward_turn-Kept n answer core in
      let (rest, e) = run_core-order turns (forward_turn x cfg st n answer core) in
      (rest, e ∙ ap (λ l. l ++ taken (inputs turns)) k.of_rows)
  run_core-order (multiplex i ∷ turns) core =
      if_both (λ c. Prefix turns c (so_far core ++ taken (i ∷ inputs turns))) core.mux_done
        (λ d. (
          taken (i ∷ inputs turns),
          ap (λ l. l ++ taken (i ∷ inputs turns)) (settled turns core d),
        ))
        λ d.
          if_both
            (λ j. Prefix turns (taking core (j ∷ [])) (so_far core ++ taken (i ∷ inputs turns)))
            core.exit_watch.cancelled
            (λ k. ended_now turns core (cancelled ∷ []) _ (unfold handled in refl))
            λ k. took turns core i (run_core-order turns (taking core (i ∷ [])))
