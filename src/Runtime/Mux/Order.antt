-- ===== src/Runtime/Mux/Order.antt =====
-- crates/rustern-core/src/runtime/mux.rs: the order of the rows in the channel.
use rustern.Common.{
  ◌≡◌, refl, ◌∙◌, sym, ap, List, [], ◌∷◌, ◌++◌, Option, none, some, Bool-cases, inl, inr,
}
use mathlib.Core.List.{append-nil, append_assoc}
use rustern.Common.Sets.{contains}
use rustern.Source.{SourceKey, key_eq}
use rustern.Runtime.Stats.{RunStats}
use rustern.Runtime.Mux.{
  BackpressurePolicy, blocking, lossy, accepted, refused, closed, MuxInput, cancelled, no_senders,
  add, remove_stream, ended, row, Mux, record_mux_drop, add_stream, drop_stream, leave, send_row,
  mux_multiplex_loop, handled, taken,
}

module _ {J : Type 0} where
  drop_stream-sent : (key : SourceKey) (m : Mux J) → (drop_stream key m).sent ≡ m.sent
  unfolding drop_stream
  drop_stream-sent key m = elim (Bool-cases (contains key m.streams)) [
    | inl e ↦ rw e refl
    | inr n ↦ rw n refl
  ]

  record_mux_drop-sent : (m : Mux J) (o : Option RunStats) → (record_mux_drop m o).sent ≡ m.sent
  unfolding record_mux_drop
  record_mux_drop-sent m none = refl
  record_mux_drop-sent m (some s) = refl

  -- The channel takes, in the order in which the streams yield them, the accepted rows and no other.
  pub mux-sent :
      (policy : BackpressurePolicy) (ins : List (MuxInput J)) (m : Mux J)
      → (mux_multiplex_loop policy ins m).sent ≡ m.sent ++ taken (handled policy ins)
  unfolding mux_multiplex_loop handled taken leave add_stream send_row
  mux-sent policy [] m = sym (append-nil m.sent)
  mux-sent policy (cancelled ∷ ins) m = sym (append-nil m.sent)
  mux-sent policy (no_senders ∷ ins) m = sym (append-nil m.sent)
  mux-sent policy (add key ∷ ins) m = mux-sent policy ins (add_stream key m)
  mux-sent policy (remove_stream key ∷ ins) m =
      mux-sent policy ins (drop_stream key m)
      ∙ ap (λ s. s ++ taken (handled policy ins)) (drop_stream-sent key m)
  mux-sent policy (ended key ∷ ins) m = mux-sent policy ins _
  mux-sent policy (row key item accepted ∷ ins) m =
      mux-sent policy ins (send_row item m)
      ∙ append_assoc m.sent (item ∷ []) (taken (handled policy ins))
  mux-sent policy (row key item closed ∷ ins) m = sym (append-nil m.sent)
  mux-sent blocking (row key item refused ∷ ins) m = sym (append-nil m.sent)
  mux-sent lossy (row key item refused ∷ ins) m =
      mux-sent lossy ins (record_mux_drop m m.stats)
      ∙ ap (λ s. s ++ taken (handled lossy ins)) (record_mux_drop-sent m m.stats)
