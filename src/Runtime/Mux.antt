-- ===== src/Runtime/Mux.antt =====
-- crates/rustern-core/src/runtime/mux.rs: many streams into one channel.
pub mod Order
pub mod Drops
use rustern.Common.{
  ℕ, suc, ◌≡◌, Bool, true, false, List, [], ◌∷◌, ◌++◌, Option, none, some, if◌then◌else◌, length,
  is_empty,
}
use rustern.Common.Sets.{contains, insert, remove}
use rustern.Source.{SourceKey, Item, key_eq}
use rustern.Runtime.Stats.{RunStats, set_active_streams, record_mux_dropped_line, fetch_add}

pub data BackpressurePolicy : Type 0 where
  blocking lossy : BackpressurePolicy

unfoldable pub from_lossy : Bool → BackpressurePolicy
from_lossy is_lossy = if is_lossy then lossy else blocking

-- What the raw channel answers to a row. A row is refused by `try_send` if the channel is full, and by
-- the `select!` around `send` if the token is cancelled while it waits.
pub data Answer : Type 0 where
  accepted refused closed : Answer

-- What the `select!` of the loop takes next. A stream of `tokio_stream::StreamMap` that has ended
-- leaves the map when it is polled: `ended`. The map is polled only while it has a stream, so `row` and
-- `ended` come with a key that it has.
pub data MuxInput (J : Type 0) : Type 0 where
  cancelled no_senders : MuxInput J
  add remove_stream ended : SourceKey → MuxInput J
  row : SourceKey → Item J → Answer → MuxInput J

-- `streams` are the keys of the map; `sent` is what the channel has taken; `mux_dropped` is the counter
-- of `MuxMetrics` without stats. The stats of the metrics are those of the loop.
pub record Mux (J : Type 0) : Type 0 where
  pub streams : List SourceKey
  pub sent : List (Item J)
  pub mux_dropped : ℕ
  pub stats : Option RunStats

unfoldable pub record_mux_drop : {J : Type 0} → Mux J → Option RunStats → Mux J
unfolding record_mux_dropped_line fetch_add
record_mux_drop m (some s) = record m { stats = some (record_mux_dropped_line s) }
record_mux_drop m none = record m { mux_dropped = fetch_add m.mux_dropped 1 }

set_active : Option RunStats → ℕ → Option RunStats
unfolding set_active_streams
set_active none n = none
set_active (some s) n = some (set_active_streams n s)

module _ {J : Type 0} where
  unfoldable pub add_stream : SourceKey → Mux J → Mux J
  unfolding set_active
  add_stream key m =
      let streams = insert key m.streams in
      record m { streams = streams; stats = set_active m.stats (length streams) }

  unfoldable pub drop_stream : SourceKey → Mux J → Mux J
  unfolding set_active
  drop_stream key m =
      let streams = remove key m.streams in
      if contains key m.streams
      then record m { streams = streams; stats = set_active m.stats (length streams) }
      else m

  unfoldable pub leave : Mux J → Mux J
  unfolding set_active
  leave m = record m { stats = set_active m.stats 0 }

  send_row : Item J → Mux J → Mux J
  send_row item m = record m { sent = m.sent ++ (item ∷ []) }

  unfoldable pub mux_multiplex_loop : BackpressurePolicy → List (MuxInput J) → Mux J → Mux J
  unfolding add_stream drop_stream leave send_row record_mux_drop
  mux_multiplex_loop policy [] m = m
  mux_multiplex_loop policy (cancelled ∷ ins) m = leave m
  mux_multiplex_loop policy (no_senders ∷ ins) m = leave m
  mux_multiplex_loop policy (add key ∷ ins) m = mux_multiplex_loop policy ins (add_stream key m)
  mux_multiplex_loop policy (remove_stream key ∷ ins) m =
      mux_multiplex_loop policy ins (drop_stream key m)
  mux_multiplex_loop policy (ended key ∷ ins) m =
      mux_multiplex_loop policy ins (record m { streams = remove key m.streams })
  mux_multiplex_loop policy (row key item accepted ∷ ins) m =
      mux_multiplex_loop policy ins (send_row item m)
  mux_multiplex_loop policy (row key item closed ∷ ins) m = leave m
  mux_multiplex_loop blocking (row key item refused ∷ ins) m = leave m
  mux_multiplex_loop lossy (row key item refused ∷ ins) m =
      mux_multiplex_loop lossy ins (record_mux_drop m m.stats)

  -- The inputs that the loop handles without ending.
  unfoldable pub handled : BackpressurePolicy → List (MuxInput J) → List (MuxInput J)
  handled policy [] = []
  handled policy (cancelled ∷ ins) = []
  handled policy (no_senders ∷ ins) = []
  handled policy (add key ∷ ins) = add key ∷ handled policy ins
  handled policy (remove_stream key ∷ ins) = remove_stream key ∷ handled policy ins
  handled policy (ended key ∷ ins) = ended key ∷ handled policy ins
  handled policy (row key item accepted ∷ ins) = row key item accepted ∷ handled policy ins
  handled policy (row key item closed ∷ ins) = []
  handled blocking (row key item refused ∷ ins) = []
  handled lossy (row key item refused ∷ ins) = row key item refused ∷ handled lossy ins

  -- The rows that the streams have yielded, and those that the channel took.
  unfoldable pub rows : List (MuxInput J) → List (Item J)
  rows [] = []
  rows (row key item answer ∷ ins) = item ∷ rows ins
  rows (_ ∷ ins) = rows ins

  unfoldable pub taken : List (MuxInput J) → List (Item J)
  taken [] = []
  taken (row key item accepted ∷ ins) = item ∷ taken ins
  taken (_ ∷ ins) = taken ins

  unfoldable pub refused_rows : List (MuxInput J) → ℕ
  refused_rows [] = 0
  refused_rows (row key item refused ∷ ins) = suc (refused_rows ins)
  refused_rows (_ ∷ ins) = refused_rows ins

  drops_of : Mux J → Option RunStats → ℕ
  drops_of m none = m.mux_dropped
  drops_of m (some s) = s.mux_dropped_lines

  -- `MuxMetrics::mux_drop_count`.
  unfoldable pub mux_drop_count : Mux J → ℕ
  unfolding drops_of
  mux_drop_count m = drops_of m m.stats
