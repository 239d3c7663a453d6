-- ===== src/Runtime/Forward/Warnings.antt =====
-- crates/rustern-core/src/runtime/forward.rs: the warning of `LossyMetrics::record_drop`, which several
-- tasks may call at the same time.
use rustern.Common.{
  ℕ, zero, suc, ◌+◌, ◌-◌, ◌≤◌, ◌≡◌, refl, List, [], ◌∷◌, arith, nat_beq, leb, if◌then◌else◌, ◌<◌,
  inl, inr, Bool-cases, All, Option, none, some,
}
use mathlib.Core.Option

-- `warn_interval`, in milliseconds.
abbrev pub warn_ms : ℕ
warn_ms = 5000

-- `last_warn_ms`, and the times of the warnings, the latest first.
pub record Throttle : Type 0 where
  pub last_warn_ms : ℕ
  pub warned : List ℕ

-- A call between two turns of its loop: the time that it read, and the last warning as it knows it.
pub record Call : Type 0 where
  pub now_ms : ℕ
  pub last : ℕ

-- The call after its turn; `none` once its loop has ended.
pub data Turn : Type 0 where
  done : Throttle → Turn
  again : Throttle → Call → Turn

-- `load` of the last warning.
unfoldable pub load : ℕ → Throttle → Call
load now_ms t = record { now_ms = now_ms; last = t.last_warn_ms }

-- The `compare_exchange` of one turn, which is atomic.
unfoldable pub compare_exchange : Call → Throttle → Turn
compare_exchange c t =
    if nat_beq t.last_warn_ms c.last
    then done (record { last_warn_ms = c.now_ms; warned = c.now_ms ∷ t.warned })
    else again t (record c { last = t.last_warn_ms })

-- One turn of the loop, with its test.
unfoldable pub turn : Call → Throttle → Turn
unfolding compare_exchange
turn c t = if leb warn_ms (c.now_ms - c.last) then compare_exchange c t else done t

-- The metrics with the calls that are under way, and the times of those that have ended.
pub record Tasks : Type 0 where
  pub throttle : Throttle
  pub calls : List Call
  pub ended : List ℕ

-- A task enters `record_drop` at a time, or the call at an index takes its next turn.
pub data Act : Type 0 where
  enter proceed : ℕ → Act

-- The call at an index, and the others.
pick : ℕ → List Call → Option (Call × List Call)
pick n [] = none
pick zero (c ∷ cs) = some (c, cs)
pick (suc n) (c ∷ cs) = Option.map (λ (r : Call × List Call). (r.0, c ∷ r.1)) (pick n cs)

after_turn : List Call → ℕ → List ℕ → Turn → Tasks
after_turn others now_ms ended (done t) = record {
  throttle = t;
  calls = others;
  ended = now_ms ∷ ended;
}
after_turn others now_ms ended (again t c) = record {
  throttle = t;
  calls = c ∷ others;
  ended = ended;
}

proceed_picked : Tasks → Option (Call × List Call) → Tasks
unfolding turn after_turn
proceed_picked s none = s
proceed_picked s (some (c, others)) = after_turn others c.now_ms s.ended (turn c s.throttle)

unfoldable pub act : Act → Tasks → Tasks
unfolding load pick proceed_picked
act (enter now_ms) s = record s { calls = load now_ms s.throttle ∷ s.calls }
act (proceed i) s = proceed_picked s (pick i s.calls)

unfoldable pub run : List Act → Tasks → Tasks
unfolding act
run [] s = s
run (a ∷ acts) s = run acts (act a s)

-- The last warning, or the start.
unfoldable pub latest : List ℕ → ℕ
latest [] = 0
latest (w ∷ ws) = w

unfoldable pub IsSpaced : List ℕ → Type 0
unfolding latest
IsSpaced [] = Unit {0}
IsSpaced (w ∷ ws) = (latest ws + warn_ms ≤ w) × IsSpaced ws

-- Two warnings are at least the interval apart, and no drop whose call has ended lies the interval or
-- more after the last of them.
pub record Throttled (s : Tasks) : Type 0 where
  pub of_last : s.throttle.last_warn_ms ≡ latest s.throttle.warned
  pub of_warned : IsSpaced s.throttle.warned
  pub of_calls : All (λ (c : Call). c.last ≤ s.throttle.last_warn_ms) s.calls
  pub of_ended : All (λ (n : ℕ). n < s.throttle.last_warn_ms + warn_ms) s.ended

Picked : (Call → Type 0) → Option (Call × List Call) → Type 0
Picked P none = Unit {0}
Picked P (some (c, others)) = P c × All P others

map-Picked :
    (P : Call → Type 0) (c : Call) (o : Option (Call × List Call))
    → P c
    → Picked P o
    → Picked P (Option.map (λ (r : Call × List Call). (r.0, c ∷ r.1)) o)
unfolding Picked
map-Picked P c none p h = tt
map-Picked P c (some (d, others)) p h = (h.0, (p, h.1))

pick-Picked : (P : Call → Type 0) (i : ℕ) (cs : List Call) → All P cs → Picked P (pick i cs)
unfolding pick Picked
pick-Picked P n [] h = tt
pick-Picked P zero (c ∷ cs) h = h
pick-Picked P (suc n) (c ∷ cs) h = map-Picked P c (pick n cs) h.0 (pick-Picked P n cs h.1)

All-map :
    {A : Type 0} (P Q : A → Type 0) (xs : List A) → ((x : A) → P x → Q x) → All P xs → All Q xs
All-map P Q [] f h = tt
All-map P Q (x ∷ xs) f h = (f x h.0, All-map P Q xs f h.1)

-- The turn of a call that knows no later warning than there is.
turn-Throttled :
    (s : Tasks) (c : Call) (others : List Call)
    → Throttled s
    → c.last ≤ s.throttle.last_warn_ms
    → All (λ (d : Call). d.last ≤ s.throttle.last_warn_ms) others
    → Throttled (after_turn others c.now_ms s.ended (turn c s.throttle))
unfolding turn compare_exchange after_turn IsSpaced latest
turn-Throttled s c others h known ks = elim (Bool-cases (leb warn_ms (c.now_ms - c.last))) [
  | inr n ↦ rw n (record {
    of_last = h.of_last;
    of_warned = h.of_warned;
    of_calls = ks;
    of_ended = (ground arith, h.of_ended);
  })
  | inl y ↦ rw y (elim (Bool-cases (nat_beq s.throttle.last_warn_ms c.last)) [
    | inr n ↦ rw n (record {
      of_last = h.of_last;
      of_warned = h.of_warned;
      of_calls = (omega arith, ks);
      of_ended = h.of_ended;
    })
    | inl e ↦
        let same : s.throttle.last_warn_ms ≡ c.last = ground arith in
        let later : c.last + warn_ms ≤ c.now_ms = ground arith in
        rw e (record {
          of_last = refl;
          of_warned = (omega (arith, h.of_last), h.of_warned);
          of_calls = All-map _ _ others (λ d k. omega arith) ks;
          of_ended = (omega arith, All-map _ _ s.ended (λ d k. omega arith) h.of_ended);
        })
  ])
]

proceed_picked-Throttled :
    (s : Tasks) (o : Option (Call × List Call))
    → Throttled s
    → Picked (λ (c : Call). c.last ≤ s.throttle.last_warn_ms) o
    → Throttled (proceed_picked s o)
unfolding proceed_picked Picked
proceed_picked-Throttled s none h p = h
proceed_picked-Throttled s (some (c, others)) h p = turn-Throttled s c others h p.0 p.1

act-Throttled : (a : Act) (s : Tasks) → Throttled s → Throttled (act a s)
unfolding act load
act-Throttled (enter now_ms) s h = record {
  of_last = h.of_last;
  of_warned = h.of_warned;
  of_calls = (omega arith, h.of_calls);
  of_ended = h.of_ended;
}
act-Throttled (proceed i) s h =
    proceed_picked-Throttled s (pick i s.calls) h
      (pick-Picked (λ (c : Call). c.last ≤ s.throttle.last_warn_ms) i s.calls h.of_calls)

-- However the calls of the tasks interleave, whatever times they read: two warnings stay at least five
-- seconds apart, the first one from the start, and the drop of each call that has ended lies before
-- the end of the five seconds after the last warning.
pub run-Throttled : (acts : List Act) (s : Tasks) → Throttled s → Throttled (run acts s)
unfolding run
run-Throttled [] s h = h
run-Throttled (a ∷ acts) s h = run-Throttled acts (act a s) (act-Throttled a s h)
