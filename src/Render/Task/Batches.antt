-- ===== src/Render/Task/Batches.antt =====
-- crates/rustern-core/src/render/mod.rs: what the writer has got when the task ends.
use rustern.Common.{◌≡◌, ◌≢◌, refl, ap, ◌∙◌, true, List, [], ◌∷◌, ◌++◌, All, Result, ok, err, ◌>>=◌}
use mathlib.Core.Path.{fun_ext}
use rustern.Pipeline.External.{External}
use rustern.Render.{LineFormatter}
use rustern.Render.Task.{
  Sink, Halt, RenderCommand, line, shutdown, write_formatted, flush_sink, render_batch, after_batch,
  render_task,
}
use rustern.Render.Printing.{Printer}

abbrev pub concat {ℓ} : {A : Type ℓ} → List (List A) → List A
concat [] = []
concat (xs ∷ xss) = xs ++ concat xss

bind_assoc :
    {A B C E : Type 0} (r : Result A E) (f : A → Result B E) (g : B → Result C E)
    → ((r >>= f) >>= g) ≡ (r >>= λ a. f a >>= g)
bind_assoc (ok a) f g = refl
bind_assoc (err e) f g = refl

bind_ok : {A E : Type 0} (r : Result A E) → (r >>= ok) ≡ r
bind_ok (ok a) = refl
bind_ok (err e) = refl

module _ {x : External} (p : Printer x) {E : Type 0} (sink : Sink E)
    (formatter : LineFormatter p) where
  open sink use {W}

  -- The commands one by one: the reference for the loop in batches.
  abbrev pub render_commands : List (RenderCommand p) → W → Result W (Halt E)
  render_commands [] buf = flush_sink p sink formatter buf
  render_commands (line ev ∷ cmds) buf =
      write_formatted p sink formatter buf (formatter ev []) >>= λ buf. render_commands cmds buf
  render_commands (RenderCommand.flush ∷ cmds) buf =
      flush_sink p sink formatter buf >>= λ buf. render_commands cmds buf
  render_commands (shutdown ∷ cmds) buf = flush_sink p sink formatter buf

  then_rest :
      (batch rest : List (RenderCommand p)) (buf : W)
      → (render_batch p sink formatter batch buf >>= λ r.
          after_batch p sink formatter (λ buf. render_commands rest buf) r)
        ≡ render_commands (batch ++ rest) buf
  unfolding render_batch after_batch
  then_rest [] rest buf = refl
  then_rest (line ev ∷ batch) rest buf =
      bind_assoc (write_formatted p sink formatter buf (formatter ev []))
        (render_batch p sink formatter batch) _
      ∙ ap (λ k. write_formatted p sink formatter buf (formatter ev []) >>= k)
          (fun_ext (λ b. then_rest batch rest b))
  then_rest (RenderCommand.flush ∷ batch) rest buf =
      bind_assoc (flush_sink p sink formatter buf) (render_batch p sink formatter batch) _
      ∙ ap (λ k. flush_sink p sink formatter buf >>= k) (fun_ext (λ b. then_rest batch rest b))
  then_rest (shutdown ∷ batch) rest buf =
      bind_assoc (flush_sink p sink formatter buf) (λ b. ok (true, b)) _
      ∙ bind_ok (flush_sink p sink formatter buf)

  -- However the channel cuts the commands into batches, the task does what it would do with one command
  -- at a time, up to the shutdown, an error or the end.
  pub render_task-batches :
      (batches : List (List (RenderCommand p))) (buf : W)
      → All (λ batch. batch ≢ []) batches
      → render_task p sink formatter batches buf ≡ render_commands (concat batches) buf
  unfolding render_task
  render_task-batches [] buf h = refl
  render_task-batches ([] ∷ batches) buf h = absurd (h.0 refl)
  render_task-batches ((cmd ∷ batch) ∷ batches) buf h =
      ap
        (λ k.
          render_batch p sink formatter (cmd ∷ batch) buf >>= λ r. after_batch p sink formatter k r)
        (fun_ext λ b. render_task-batches batches b h.1)
      ∙ then_rest (cmd ∷ batch) (concat batches) buf
