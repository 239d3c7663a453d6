-- ===== src/Runtime/Mux/Drops.antt =====
-- crates/rustern-core/src/runtime/mux.rs: under the lossy policy each row is sent or counted.
use rustern.Common.{
  ℕ, suc, ◌+◌, ◌%◌, ◌≡◌, refl, ◌∙◌, ap, List, [], ◌∷◌, ◌++◌, Option, none, some, arith, length,
  Bool-cases, inl, inr,
}
use rustern.Common.Sets.{contains, insert, remove}
use rustern.Source.{SourceKey, Item, key_eq}
use rustern.Runtime.Stats.{
  u64_values, fetch_add, RunStats, set_active_streams, record_mux_dropped_line, fetch_add-count,
}
use rustern.Runtime.Mux.{
  BackpressurePolicy, blocking, lossy, accepted, refused, closed, MuxInput, cancelled, no_senders,
  add, remove_stream, ended, row, Mux, record_mux_drop, set_active, add_stream, drop_stream, leave,
  send_row, mux_multiplex_loop, handled, rows, taken, refused_rows, drops_of, mux_drop_count,
}
use rustern.Runtime.Mux.Order.{mux-sent}

module _ {J : Type 0} where
  drops-set_active :
      (m : Mux J) (o : Option RunStats) (n : ℕ) → drops_of m (set_active o n) ≡ drops_of m o
  unfolding drops_of set_active set_active_streams
  drops-set_active m none n = refl
  drops-set_active m (some s) n = refl

  drops-streams :
      (m : Mux J) (o p : Option RunStats) (streams : List SourceKey)
      → drops_of (record m { streams = streams; stats = p }) o ≡ drops_of m o
  unfolding drops_of
  drops-streams m none p streams = refl
  drops-streams m (some s) p streams = refl

  drops-drop_stream :
      (key : SourceKey) (m : Mux J) → mux_drop_count (drop_stream key m) ≡ mux_drop_count m
  unfolding mux_drop_count drop_stream
  drops-drop_stream key m = elim (Bool-cases (contains key m.streams)) [
    | inl e ↦ rw e (
        drops-streams m (set_active m.stats (length (remove key m.streams)))
          (set_active m.stats (length (remove key m.streams))) (remove key m.streams)
        ∙ drops-set_active m m.stats (length (remove key m.streams)))
    | inr n ↦ rw n refl
  ]

  drops-more :
      (streams : List SourceKey) (sent : List (Item J)) (n d : ℕ) (o : Option RunStats)
      → mux_drop_count (record { streams = streams; sent = sent; mux_dropped = n; stats = o })
        ≡ d % u64_values
      → mux_drop_count (
          record_mux_drop (record { streams = streams; sent = sent; mux_dropped = n; stats = o }) o)
        ≡ suc d % u64_values
  unfolding mux_drop_count drops_of record_mux_drop record_mux_dropped_line
  drops-more streams sent n d none h = ap (λ c. fetch_add c 1) h ∙ fetch_add-count d
  drops-more streams sent n d (some s) h = ap (λ c. fetch_add c 1) h ∙ fetch_add-count d

  drops-add_stream :
      (key : SourceKey) (m : Mux J) → mux_drop_count (add_stream key m) ≡ mux_drop_count m
  unfolding mux_drop_count add_stream
  drops-add_stream key m =
      let streams = insert key m.streams in
      drops-streams m (set_active m.stats (length streams)) (set_active m.stats (length streams))
        streams
      ∙ drops-set_active m m.stats (length streams)

  drops-leave : (m : Mux J) → mux_drop_count (leave m) ≡ mux_drop_count m
  unfolding mux_drop_count leave
  drops-leave m =
      drops-streams m (set_active m.stats 0) (set_active m.stats 0) m.streams
      ∙ drops-set_active m m.stats 0

  drops-ended :
      (key : SourceKey) (m : Mux J)
      → mux_drop_count (record m { streams = remove key m.streams }) ≡ mux_drop_count m
  unfolding mux_drop_count
  drops-ended key m = drops-streams m m.stats m.stats (remove key m.streams)

  drops-sent :
      (m : Mux J) (sent : List (Item J)) (o : Option RunStats)
      → drops_of (record m { sent = sent }) o ≡ drops_of m o
  unfolding drops_of
  drops-sent m sent none = refl
  drops-sent m sent (some s) = refl

  drops-send_row : (item : Item J) (m : Mux J) → mux_drop_count (send_row item m) ≡ mux_drop_count m
  unfolding mux_drop_count send_row
  drops-send_row item m = drops-sent m (m.sent ++ (item ∷ [])) m.stats

  mux-drops :
      (policy : BackpressurePolicy) (ins : List (MuxInput J)) (m : Mux J) (d : ℕ)
      → mux_drop_count m ≡ d % u64_values
      → mux_drop_count (mux_multiplex_loop policy ins m)
        ≡ (d + refused_rows (handled policy ins)) % u64_values
  unfolding mux_multiplex_loop handled refused_rows
  mux-drops policy [] m d h = omega (arith, h)
  mux-drops policy (cancelled ∷ ins) m d h = omega (arith, h, drops-leave m)
  mux-drops policy (no_senders ∷ ins) m d h = omega (arith, h, drops-leave m)
  mux-drops policy (add key ∷ ins) m d h =
      mux-drops policy ins (add_stream key m) d (drops-add_stream key m ∙ h)
  mux-drops policy (remove_stream key ∷ ins) m d h =
      mux-drops policy ins (drop_stream key m) d (drops-drop_stream key m ∙ h)
  mux-drops policy (ended key ∷ ins) m d h =
      mux-drops policy ins (record m { streams = remove key m.streams }) d (drops-ended key m ∙ h)
  mux-drops policy (row key item accepted ∷ ins) m d h =
      mux-drops policy ins (send_row item m) d (drops-send_row item m ∙ h)
  mux-drops policy (row key item closed ∷ ins) m d h = omega (arith, h, drops-leave m)
  mux-drops blocking (row key item refused ∷ ins) m d h = omega (arith, h, drops-leave m)
  mux-drops lossy (row key item refused ∷ ins) m d h =
      mux-drops lossy ins (record_mux_drop m m.stats) (suc d)
        (drops-more m.streams m.sent m.mux_dropped d m.stats h)
      ∙ omega arith

  rows-count :
      (policy : BackpressurePolicy) (ins : List (MuxInput J))
      → length (rows (handled policy ins))
        ≡ length (taken (handled policy ins)) + refused_rows (handled policy ins)
  unfolding handled rows taken refused_rows
  rows-count policy [] = omega arith
  rows-count policy (cancelled ∷ ins) = omega arith
  rows-count policy (no_senders ∷ ins) = omega arith
  rows-count policy (add key ∷ ins) = rows-count policy ins
  rows-count policy (remove_stream key ∷ ins) = rows-count policy ins
  rows-count policy (ended key ∷ ins) = rows-count policy ins
  rows-count policy (row key item accepted ∷ ins) = omega (arith, rows-count policy ins)
  rows-count policy (row key item closed ∷ ins) = omega arith
  rows-count blocking (row key item refused ∷ ins) = omega arith
  rows-count lossy (row key item refused ∷ ins) = omega (arith, rows-count lossy ins)

  -- Under either policy the rows that the loop has handled are those that the channel took, in their
  -- order, and those that the drop counter has counted modulo 2 ^ 64.
  pub mux-conservation :
      (policy : BackpressurePolicy) (ins : List (MuxInput J)) (m : Mux J) (d : ℕ)
      → mux_drop_count m ≡ d % u64_values
      → ((mux_multiplex_loop policy ins m).sent ≡ m.sent ++ taken (handled policy ins))
        × (length (rows (handled policy ins))
            ≡ length (taken (handled policy ins)) + refused_rows (handled policy ins))
        × (mux_drop_count (mux_multiplex_loop policy ins m)
            ≡ (d + refused_rows (handled policy ins)) % u64_values)
  mux-conservation policy ins m d h =
      (mux-sent policy ins m, rows-count policy ins, mux-drops policy ins m d h)
