-- ===== src/Render/Task/Delivered.antt =====
-- crates/rustern-core/src/render/mod.rs: every line before the shutdown reaches the writer.
use rustern.Common.{◌≡◌, ◌≢◌, sym, ap, ◌∙◌, List, [], ◌∷◌, ◌++◌, map, All, some, Text, ok, map_err}
use mathlib.Core.List.{append_assoc, append-nil}
use rustern.Pipeline.External.{External}
use rustern.Render.{Event, LineFormatter}
use rustern.Render.Task.{
  Sink, Halt, RenderCommand, line, shutdown, write_formatted, flush_sink, render_task,
}
use rustern.Render.Task.Batches.{concat, render_commands, render_task-batches}
use rustern.Render.Printing.{Printer}

-- A writer that never fails: `written` is what the buffer and the writer have taken, and `delivered`
-- what has left the buffer.
pub record Reliable {E : Type 0} (sink : Sink E) : Type 0 where
  pub written : sink.W → Text
  pub delivered : sink.W → Text
  pub writes :
      (w : sink.W) (t : Text)
      → (w' : sink.W) × (sink.write_all w t ≡ ok w') × (written w' ≡ written w ++ t)
  pub flushes :
      (w : sink.W)
      → (w' : sink.W) × (sink.flush w ≡ ok w')
        × (written w' ≡ written w)
        × (delivered w' ≡ written w)

module _ {x : External} (p : Printer x) where
  -- The rows before the first shutdown.
  abbrev pub rows : List (RenderCommand p) → List (Event p)
  rows [] = []
  rows (line ev ∷ cmds) = ev ∷ rows cmds
  rows (RenderCommand.flush ∷ cmds) = rows cmds
  rows (shutdown ∷ cmds) = []

module _ {x : External} (p : Printer x) {E : Type 0} (sink : Sink E) (reliable : Reliable sink)
    (formatter : LineFormatter p) (text : Event p → Text)
    (formats : (ev : Event p) → formatter ev [] ≡ some (text ev)) where
  open sink use {W}
  open reliable use {written, delivered}

  delivered_commands :
      (cmds : List (RenderCommand p)) (buf : W)
      → (w : W) × (render_commands p sink formatter cmds buf ≡ ok w)
        × (delivered w ≡ written buf ++ concat (map text (rows p cmds)))
  unfolding flush_sink write_formatted
  delivered_commands [] buf =
      let (w, e, _, d) = reliable.flushes buf in
      (w, ap (map_err Halt.io) e, d ∙ sym (append-nil (written buf)))
  delivered_commands (line ev ∷ cmds) buf =
      let (w, e, h) = reliable.writes buf (text ev) in
      let (w', e', d) = delivered_commands cmds w in
      (
        w',
        rw (formats ev, e) e',
        d
            ∙ ap (λ t. t ++ concat (map text (rows p cmds))) h
            ∙ append_assoc (written buf) (text ev) (concat (map text (rows p cmds))),
      )
  delivered_commands (RenderCommand.flush ∷ cmds) buf =
      let (w, e, h, _) = reliable.flushes buf in
      let (w', e', d) = delivered_commands cmds w in
      (w', rw e e', d ∙ ap (λ t. t ++ concat (map text (rows p cmds))) h)
  delivered_commands (shutdown ∷ cmds) buf =
      let (w, e, _, d) = reliable.flushes buf in
      (w, ap (map_err Halt.io) e, d ∙ sym (append-nil (written buf)))

  -- With a writer that does not fail and a formatter that does not panic, the task ends well, and
  -- the lines of all rows before the shutdown, or before the end, have left its buffer in their order.
  pub render_task-delivered :
      (batches : List (List (RenderCommand p))) (buf : W)
      → All (λ batch. batch ≢ []) batches
      → (w : W) × (render_task p sink formatter batches buf ≡ ok w)
        × (delivered w ≡ written buf ++ concat (map text (rows p (concat batches))))
  render_task-delivered batches buf h =
      rw (render_task-batches p sink formatter batches buf h)
        (delivered_commands (concat batches) buf)
