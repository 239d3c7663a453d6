-- ===== src/Render/Task.antt =====
-- crates/rustern-core/src/render/mod.rs: the task that writes the lines.
pub mod Batches
pub mod Delivered
use rustern.Common.{
  ◌≡◌, Bool, true, false, List, [], ◌∷◌, ◌++◌, Option, none, some, Text, if◌then◌else◌, Result, ok,
  err, ◌>>=◌, map_err,
}
use rustern.Pipeline.External.{External}
use rustern.Render.{Event, LineFormatter}
use rustern.Render.Printing.{Printer}

-- `write_all` and `flush` of the `BufWriter` of tokio around the writer; `E` is `io::Error`.
pub record Sink (E : Type 0) : Type 1 where
  pub W : Type 0
  pub write_all : W → Text → Result W E
  pub flush : W → Result W E

-- How the task ends early: with an error of the writer, or with a panic of the formatter.
pub data Halt (E : Type 0) : Type 0 where
  io : E → Halt E
  panic : Halt E

module _ {x : External} (p : Printer x) where
  pub data RenderCommand : Type 0 where
    line : Event p → RenderCommand
    flush shutdown : RenderCommand

module _ {x : External} (p : Printer x) {E : Type 0} (sink : Sink E)
    (formatter : LineFormatter p) where
  open sink use {W}

  unfoldable pub write_formatted : W → Option Text → Result W (Halt E)
  write_formatted buf none = err panic
  write_formatted buf (some line_buf) = map_err io (sink.write_all buf line_buf)

  unfoldable pub flush_sink : W → Result W (Halt E)
  flush_sink buf = map_err io (sink.flush buf)

  -- The `for` loop of a batch: whether it returned at a shutdown, and the writer.
  unfoldable pub render_batch : List (RenderCommand p) → W → Result (Bool × W) (Halt E)
  unfolding write_formatted flush_sink
  render_batch [] buf = ok (false, buf)
  render_batch (line ev ∷ batch) buf =
      write_formatted buf (formatter ev []) >>= λ buf. render_batch batch buf
  render_batch (RenderCommand.flush ∷ batch) buf = flush_sink buf >>= λ buf. render_batch batch buf
  render_batch (shutdown ∷ batch) buf = flush_sink buf >>= λ buf. ok (true, buf)

  after_batch : (W → Result W (Halt E)) → Bool × W → Result W (Halt E)
  after_batch rest (true, buf) = ok buf
  after_batch rest (false, buf) = rest buf

  -- The batches that `recv_many` yields one after the other; after them, or at an empty one, the
  -- channel is closed.
  unfoldable pub render_task : List (List (RenderCommand p)) → W → Result W (Halt E)
  unfolding flush_sink render_batch after_batch
  render_task [] buf = flush_sink buf
  render_task ([] ∷ batches) buf = flush_sink buf
  render_task ((cmd ∷ batch) ∷ batches) buf =
      render_batch (cmd ∷ batch) buf >>= λ r. after_batch (λ buf. render_task batches buf) r

-- What the `select!` of `flush_ticker` takes: a tick, with the answer of the channel to `try_send`, or
-- the cancelled token.
pub data Tick : Type 0 where
  tick : Bool → Tick
  cancelled : Tick

-- `flush_ticker`: the commands that the channel has taken.
unfoldable pub flush_ticker : {x : External} (p : Printer x) → List Tick → List (RenderCommand p)
flush_ticker p [] = []
flush_ticker p (cancelled ∷ ticks) = []
flush_ticker p (tick true ∷ ticks) = RenderCommand.flush ∷ flush_ticker p ticks
flush_ticker p (tick false ∷ ticks) = flush_ticker p ticks
