-- ===== src/Runtime/Attach/Limits.antt =====
-- crates/rustern-core/src/runtime/attach.rs: how often a stream is opened.
use rustern.Common.{
  ℕ, suc, ◌+◌, ◌≤◌, ◌≡◌, refl, ◌∙◌, ap, Bool, true, false, not, ◌&&◌, List, [], ◌∷◌, ◌++◌, Option,
  none, some, ltb, arith, length, length-append, All, Bool-cases, inl, inr,
}
use rustern.Source.{SourceKey}
use rustern.Source.PodLog.{PodLogRequest}
use rustern.Runtime.StreamEnd.{StreamEnd, eof, cancelled}
use rustern.Runtime.CursorService.{reopen_request, should_reconnect}
use rustern.Runtime.Attach.{
  Turn, AttachTask, Flow, return, continue, max_reopen_start_retries, on_end, on_opened,
  on_open_error, on_limit, attach_turn, proceed, attach_pod_log_stream,
}

-- What a turn that opens nothing may do: end, or count one more failure, below the limit.
abbrev FailsOnce : {T : Type 0} → AttachTask T → Flow (AttachTask T) → Type 0
FailsOnce s (return r) = length r.opens ≤ suc (length s.opens)
FailsOnce s (continue r) =
    (r.reopen_start_failures ≡ suc s.reopen_start_failures)
    × (suc s.reopen_start_failures ≤ max_reopen_start_retries)
    × (length r.opens ≡ suc (length s.opens))

module _ {T : Type 0} where
  on_open_error-FailsOnce :
      (reconnect : Bool) (t : Turn) (s r : AttachTask T)
      → r.reopen_start_failures ≡ s.reopen_start_failures
      → length r.opens ≡ suc (length s.opens)
      → FailsOnce s (on_open_error reconnect t r)
  unfolding on_open_error
  on_open_error-FailsOnce reconnect t s r f o =
      elim (Bool-cases (
        r.reopen
        && reconnect
        && not t.is_cancelled_late
        && ltb r.reopen_start_failures max_reopen_start_retries)) [
          | inl e ↦ rw e (elim (Bool-cases t.slept) [
            | inl w ↦ rw w (ap suc f, ground arith, o)
            | inr n ↦ rw n (omega arith)
          ])
          | inr n ↦ rw n (omega arith)
        ]

  length-on_limit :
      (follow has_notifier : Bool) (s : AttachTask T)
      → length (on_limit follow has_notifier s).opens ≡ length s.opens
  unfolding on_limit
  length-on_limit true n s = refl
  length-on_limit false n s = refl

module _ (hash : SourceKey → ℕ) {T : Type 0} (to_timestamp : ℕ → Option T) where
  attach_turn-FailsOnce :
      (key : SourceKey) (pod_log : PodLogRequest T) (has_notifier : Bool) (t : Turn)
      (s : AttachTask T)
      → t.opened ≡ false
      → FailsOnce s (attach_turn hash to_timestamp key pod_log has_notifier t s)
  unfolding attach_turn
  attach_turn-FailsOnce key pod_log has_notifier t s f = elim (Bool-cases t.is_cancelled) [
    | inl e ↦ rw e (omega arith)
    | inr n ↦ rw n (elim (Bool-cases t.permit) [
      | inl p ↦ rw p (
          rw f (
            on_open_error-FailsOnce (should_reconnect t.service) t s _ refl
              (length-append s.opens _ ∙ omega arith)))
      | inr q ↦ rw q (
          omega
            (arith, length-on_limit pod_log.follow has_notifier (record s { flush_target = none })))
    ])
  ]

  attach_failures-step :
      (rest : AttachTask T → AttachTask T) (s : AttachTask T) (flow : Flow (AttachTask T))
      → FailsOnce s flow
      → ((r : AttachTask T)
          → r.reopen_start_failures ≤ max_reopen_start_retries
          → length (rest r).opens + r.reopen_start_failures ≤ length r.opens + 6)
      → s.reopen_start_failures ≤ max_reopen_start_retries
      → length (proceed rest flow).opens + s.reopen_start_failures ≤ length s.opens + 6
  unfolding proceed
  attach_failures-step rest s (return r) b ih h = omega arith
  attach_failures-step rest s (continue r) (e, m, o) ih h = omega (arith, ih r (omega arith))

  -- Of a run of turns in which nothing can be opened, at most five are tried again, those before the
  -- run included: a sixth failure in a row ends the task.
  pub attach-failures :
      (key : SourceKey) (pod_log : PodLogRequest T) (has_notifier : Bool) (ts : List Turn)
      (s : AttachTask T)
      → All (λ t. t.opened ≡ false) ts
      → s.reopen_start_failures ≤ max_reopen_start_retries
      → length (attach_pod_log_stream hash to_timestamp key pod_log has_notifier ts s).opens
          + s.reopen_start_failures
        ≤ length s.opens + 6
  unfolding attach_pod_log_stream
  attach-failures key pod_log has_notifier [] s fs h = omega arith
  attach-failures key pod_log has_notifier (t ∷ ts) s fs h =
      attach_failures-step
        (λ r. attach_pod_log_stream hash to_timestamp key pod_log has_notifier ts r) s
        (attach_turn hash to_timestamp key pod_log has_notifier t s)
        (attach_turn-FailsOnce key pod_log has_notifier t s fs.0)
        (λ r. attach-failures key pod_log has_notifier ts r fs.1) h

-- What a turn without reconnecting may do: end, with one stream more at most.
abbrev EndsOnce : {T : Type 0} → AttachTask T → Flow (AttachTask T) → Type 0
EndsOnce s (return r) = (length r.opens ≤ suc (length s.opens)) × (r.added ≤ suc s.added)
EndsOnce s (continue r) = true ≡ false

module _ {T : Type 0} where
  on_end-EndsOnce :
      (e : Option StreamEnd) (s r : AttachTask T)
      → length r.opens ≡ suc (length s.opens)
      → r.added ≡ suc s.added
      → EndsOnce s (on_end false e r)
  unfolding on_end
  on_end-EndsOnce none s r o a = (omega arith, omega arith)
  on_end-EndsOnce (some cancelled) s r o a = (omega arith, omega arith)
  on_end-EndsOnce (some (eof ts)) s r o a = (omega arith, omega arith)

  on_opened-EndsOnce :
      (reconnect : Bool) (t : Turn) (s r : AttachTask T)
      → length r.opens ≡ suc (length s.opens)
      → r.added ≡ s.added
      → reconnect ≡ false
      → EndsOnce s (on_opened reconnect t r)
  unfolding on_opened
  on_opened-EndsOnce reconnect t s r o a f = rw f (elim (Bool-cases t.mux_open) [
    | inl e ↦ rw e (
        on_end-EndsOnce t.ended s (record r { reopen_start_failures = 0; added = suc r.added }) o
          (ap suc a))
    | inr n ↦ rw n (omega arith, omega arith)
  ])

  on_open_error-EndsOnce :
      (reconnect : Bool) (t : Turn) (s r : AttachTask T)
      → length r.opens ≡ suc (length s.opens)
      → r.added ≡ s.added
      → reconnect ≡ false
      → EndsOnce s (on_open_error reconnect t r)
  unfolding on_open_error
  on_open_error-EndsOnce reconnect t s r o a f = rw f (elim (Bool-cases r.reopen) [
    | inl e ↦ rw e (omega arith, omega arith)
    | inr n ↦ rw n (omega arith, omega arith)
  ])

  on_limit-EndsOnce :
      (follow has_notifier : Bool) (s r : AttachTask T)
      → r.opens ≡ s.opens
      → r.added ≡ s.added
      → EndsOnce s (return (on_limit follow has_notifier r))
  unfolding on_limit
  on_limit-EndsOnce true n s r o a = (omega (arith, ap length o), omega arith)
  on_limit-EndsOnce false n s r o a = (omega (arith, ap length o), omega arith)

module _ (hash : SourceKey → ℕ) {T : Type 0} (to_timestamp : ℕ → Option T) where
  attach_turn-EndsOnce :
      (key : SourceKey) (pod_log : PodLogRequest T) (has_notifier : Bool) (t : Turn)
      (s : AttachTask T)
      → t.service.enabled ≡ false
      → EndsOnce s (attach_turn hash to_timestamp key pod_log has_notifier t s)
  unfolding attach_turn should_reconnect
  attach_turn-EndsOnce key pod_log has_notifier t s f =
      let request =
        reopen_request hash to_timestamp t.stores key pod_log s.reopen s.flush_target
          t.service.enabled in
      let tried = record s { flush_target = none; opens = s.opens ++ (request ∷ []) } in
      let longer : length tried.opens ≡ suc (length s.opens) =
        length-append s.opens (request ∷ []) ∙ omega arith in
      elim (Bool-cases t.is_cancelled) [
        | inl e ↦ rw e (omega arith, omega arith)
        | inr n ↦ rw n (elim (Bool-cases t.permit) [
          | inl p ↦ rw p (elim (Bool-cases t.opened) [
            | inl o ↦ rw o (on_opened-EndsOnce (should_reconnect t.service) t s tried longer refl f)
            | inr q ↦
                rw q (on_open_error-EndsOnce (should_reconnect t.service) t s tried longer refl f)
          ])
          | inr q ↦ rw q (
              on_limit-EndsOnce pod_log.follow has_notifier s (record s { flush_target = none })
                refl refl)
        ])
      ]

  attach_once-step :
      (rest : AttachTask T → AttachTask T) (s : AttachTask T) (flow : Flow (AttachTask T))
      → EndsOnce s flow
      → (length (proceed rest flow).opens ≤ suc (length s.opens))
        × ((proceed rest flow).added ≤ suc s.added)
  unfolding proceed
  attach_once-step rest s (return r) b = b
  attach_once-step rest s (continue r) b = absurd (ground arith)

  -- Without cursor reconnection a task opens its log at most once, and gives the multiplexer at most
  -- one stream.
  attach-once :
      (key : SourceKey) (pod_log : PodLogRequest T) (has_notifier : Bool) (ts : List Turn)
      (s : AttachTask T)
      → All (λ t. t.service.enabled ≡ false) ts
      → (length (attach_pod_log_stream hash to_timestamp key pod_log has_notifier ts s).opens
          ≤ suc (length s.opens))
        × ((attach_pod_log_stream hash to_timestamp key pod_log has_notifier ts s).added
            ≤ suc s.added)
  unfolding attach_pod_log_stream
  attach-once key pod_log has_notifier [] s fs = (omega arith, omega arith)
  attach-once key pod_log has_notifier (t ∷ ts) s fs =
      attach_once-step (λ r. attach_pod_log_stream hash to_timestamp key pod_log has_notifier ts r)
        s (attach_turn hash to_timestamp key pod_log has_notifier t s)
        (attach_turn-EndsOnce key pod_log has_notifier t s fs.0)
