-- ===== src/Runtime/Core/Pulls.antt =====
-- crates/rustern-core/src/runtime/mux_forward_core.rs: what a poll of the pipeline reads.
use rustern.Common.{
  ℕ, zero, suc, ◌≡◌, refl, sym, ap, ◌∙◌, Bool, true, ◌||◌, List, [], ◌∷◌, ◌++◌, Option, none, some,
  any, filter_map, push, arith, if◌then◌else◌, Option-cases, inl, inr,
}
use mathlib.Core.List.{append-nil, append_assoc}
use rustern.Pipeline.External.{External}
use rustern.Pipeline.Stages.{Row, ExitWatchState, fire}
use rustern.Pipeline.Spec.{PipelineStages}
use rustern.Pipeline.Meaning.{display, exit_condition}
use rustern.Pipeline.Assembly.{apply_pipeline-display}
use rustern.Runtime.Core.{MuxForwardCore, pulled_row, pull_from, pull}

module _ (x : External) (st : PipelineStages x) where
  -- A poll has read `new` from the raw channel: the row that it yields is the only one of them that is
  -- shown, and the exit watch has seen them all.
  pub record Pulls (core : MuxForwardCore x) (out : Option (Row x) × MuxForwardCore x)
      (new : List (Row x)) : Type 0 where
    pub of_pulled : out.1.pulled ≡ core.pulled ++ new
    pub of_sent : core.mux.sent ≡ new ++ out.1.mux.sent
    pub of_shown : filter_map (display x st) new ≡ push out.0 []
    pub of_watch :
        out.1.exit_watch.triggered ≡ (core.exit_watch.triggered || any (exit_condition x st) new)
    pub of_token : core.exit_watch.cancelled ≡ true → out.1.exit_watch.cancelled ≡ true
    pub of_forwarder : out.1.forwarder ≡ core.forwarder
    pub of_mux : out.1.mux_done ≡ core.mux_done
    pub of_done : out.1.forward_done ≡ core.forward_done

  fired-triggered :
      (b : Bool) (w : ExitWatchState) → (if b then fire w else w).triggered ≡ (w.triggered || b)
  unfolding fire
  fired-triggered b w = ground arith

  fired-cancelled :
      (b : Bool) (w : ExitWatchState)
      → w.cancelled ≡ true
      → (if b then fire w else w).cancelled ≡ true
  unfolding fire
  fired-cancelled b w h = ground arith

  nothing-Pulls : (core : MuxForwardCore x) → Pulls core (none, core) []
  unfolding filter_map any
  nothing-Pulls core = record {
    of_pulled = sym (append-nil core.pulled);
    of_sent = refl;
    of_shown = refl;
    of_watch = ground arith;
    of_token = λ h. h;
    of_forwarder = refl;
    of_mux = refl;
    of_done = refl;
  }

  -- The core after the pipeline has read a row.
  abbrev after : MuxForwardCore x → Row x → List (Row x) → MuxForwardCore x
  after core r rows = record core {
    mux = record core.mux { sent = rows };
    pulled = core.pulled ++ (r ∷ []);
    exit_watch = if exit_condition x st r then fire core.exit_watch else core.exit_watch;
  }

  dropped-Pulls :
      (core : MuxForwardCore x) (r : Row x) (rows new : List (Row x))
      (out : Option (Row x) × MuxForwardCore x)
      → core.mux.sent ≡ r ∷ rows
      → display x st r ≡ none
      → Pulls (after core r rows) out new
      → Pulls core out (r ∷ new)
  unfolding filter_map any
  dropped-Pulls core r rows new out s d p = record {
    of_pulled = p.of_pulled ∙ append_assoc core.pulled (r ∷ []) new;
    of_sent = s ∙ ap (λ l. r ∷ l) p.of_sent;
    of_shown = rw d p.of_shown;
    of_watch = ground (arith, p.of_watch, fired-triggered (exit_condition x st r) core.exit_watch);
    of_token = λ h. p.of_token (fired-cancelled (exit_condition x st r) core.exit_watch h);
    of_forwarder = p.of_forwarder;
    of_mux = p.of_mux;
    of_done = p.of_done;
  }

  shown-Pulls :
      (core : MuxForwardCore x) (r row : Row x) (rows : List (Row x))
      → core.mux.sent ≡ r ∷ rows
      → display x st r ≡ some row
      → Pulls core (some row, after core r rows) (r ∷ [])
  unfolding filter_map any
  shown-Pulls core r row rows s d = record {
    of_pulled = refl;
    of_sent = s;
    of_shown = rw d refl;
    of_watch = ground (arith, fired-triggered (exit_condition x st r) core.exit_watch);
    of_token = fired-cancelled (exit_condition x st r) core.exit_watch;
    of_forwarder = refl;
    of_mux = refl;
    of_done = refl;
  }

  abbrev PullsSome : MuxForwardCore x → Option (Row x) × MuxForwardCore x → Type 0
  PullsSome core out = (new : List (Row x)) × Pulls core out new

  pull_from-Pulls :
      (next : MuxForwardCore x → Option (Row x) × MuxForwardCore x) (core : MuxForwardCore x)
      (rows : List (Row x))
      → ((c : MuxForwardCore x) → PullsSome c (next c))
      → core.mux.sent ≡ rows
      → PullsSome core (pull_from x st next core rows)
  unfolding pull_from pulled_row
  pull_from-Pulls next core [] n s = ([], nothing-Pulls core)
  pull_from-Pulls next core (r ∷ rows) n s =
      rw (apply_pipeline-display x st r core.exit_watch) (elim (Option-cases (display x st r)) [
        | inl d ↦
            let (new, p) = n (after core r rows) in
            rw d (r ∷ new, dropped-Pulls core r rows new _ s d p)
        | inr (row, d) ↦ rw d (r ∷ [], shown-Pulls core r row rows s d)
      ])

  pub pull-Pulls : (n : ℕ) (core : MuxForwardCore x) → PullsSome core (pull x st n core)
  unfolding pull
  pull-Pulls zero core = ([], nothing-Pulls core)
  pull-Pulls (suc n) core =
      pull_from-Pulls (λ c. pull x st n c) core core.mux.sent (pull-Pulls n) refl
