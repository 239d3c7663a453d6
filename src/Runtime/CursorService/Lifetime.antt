-- ===== src/Runtime/CursorService/Lifetime.antt =====
-- crates/rustern-core/src/runtime/cursor_service.rs: the whole life of a tracked stream, from its
-- first poll to its drop.
use rustern.Common.{
  ℕ, suc, ◌≡◌, refl, ◌∙◌, ap, Bool, true, false, List, [], ◌∷◌, ◌++◌, Option, none, some,
  if◌then◌else◌, leb, ok, err, arith, map, or_else,
}
use rustern.Source.{SourceKey, key_beq_self, Item, key_eq}
use rustern.Runtime.Shards.{IsSharded}
use rustern.Runtime.CursorStore.{
  ReconnectCursorStore, CursorUpdate, ProcessorEvent, get_cursor, run_cursor_update_processor,
  last_update, get_cursor-processor,
}
use rustern.Runtime.CursorService.{wait_cursor_flushed, flush_turns, reached}
use rustern.Runtime.StreamEnd.{StreamEnd, Poll, item, finished, pending}
use rustern.Runtime.CursorService.EndNotifying
use rustern.Runtime.CursorService.EndNotifying.{EndNotifyingStream}
use rustern.Runtime.CursorService.CursorTracking
use rustern.Runtime.CursorService.CursorTracking.{CursorTrackingStream}

-- The token's state and the answer of the inner stream, poll by poll.
abbrev pub Polls : Type 0 → Type 0
Polls A = List (Bool × Poll A)

unfoldable pub notify_life : {A : Type 0} → Polls A → Bool → EndNotifyingStream → EndNotifyingStream
unfolding EndNotifying.poll_next EndNotifying.drop
notify_life [] at_drop s = EndNotifying.drop at_drop s
notify_life ((c, p) ∷ ps) at_drop s = notify_life ps at_drop (EndNotifying.poll_next c p s)

unfoldable pub track_life :
    {J : Type 0} → Polls (Item J) → Bool → CursorTrackingStream → CursorTrackingStream
unfolding CursorTracking.poll_next CursorTracking.drop
track_life [] at_drop s = CursorTracking.drop at_drop s
track_life ((c, p) ∷ ps) at_drop s = track_life ps at_drop (CursorTracking.poll_next c p s)

-- The token's state when the stream ends: at the first poll that finds the inner stream finished, or
-- at the drop.
unfoldable pub end_token : {A : Type 0} → Polls A → Bool → Bool
end_token [] at_drop = at_drop
end_token ((c, item x) ∷ ps) at_drop = end_token ps at_drop
end_token ((c, finished) ∷ ps) at_drop = c
end_token ((c, pending) ∷ ps) at_drop = end_token ps at_drop

-- The timestamp of the last line before the inner stream ends.
unfoldable pub last_line : {J : Type 0} → Polls (Item J) → Option ℕ → Option ℕ
last_line [] last = last
last_line ((c, item (ok event)) ∷ ps) last = last_line ps (some event.timestamp)
last_line ((c, item (err e)) ∷ ps) last = last_line ps last
last_line ((c, finished) ∷ ps) last = last
last_line ((c, pending) ∷ ps) last = last_line ps last

notify_life-done :
    {A : Type 0} (ps : Polls A) (at_drop : Bool) (sent : List StreamEnd)
    → (notify_life ps at_drop (record { done_tx = false; sent = sent })).sent ≡ sent
unfolding notify_life EndNotifying.poll_next EndNotifying.drop EndNotifying.finish
notify_life-done [] at_drop sent = refl
notify_life-done ((c, item x) ∷ ps) at_drop sent = notify_life-done ps at_drop sent
notify_life-done ((c, finished) ∷ ps) at_drop sent = notify_life-done ps at_drop sent
notify_life-done ((c, pending) ∷ ps) at_drop sent = notify_life-done ps at_drop sent

-- Without cursors a stream reports its end once: that it was cancelled, if the token was when it
-- ended, and else the end of the log, without a timestamp.
pub notify_life-sent :
    {A : Type 0} (ps : Polls A) (at_drop : Bool)
    → (notify_life ps at_drop (record { done_tx = true; sent = [] })).sent
      ≡ ((if end_token ps at_drop then StreamEnd.cancelled else StreamEnd.eof none) ∷ [])
unfolding notify_life end_token EndNotifying.poll_next EndNotifying.drop EndNotifying.finish
    EndNotifying.reason
notify_life-sent [] at_drop = refl
notify_life-sent ((c, item x) ∷ ps) at_drop = notify_life-sent ps at_drop
notify_life-sent ((c, finished) ∷ ps) at_drop = notify_life-done ps at_drop _
notify_life-sent ((c, pending) ∷ ps) at_drop = notify_life-sent ps at_drop

abbrev pub tracked :
    SourceKey → Option ℕ → Bool → List StreamEnd → List CursorUpdate → CursorTrackingStream
tracked key last d sent us = record {
  key = key;
  last_line_ts = last;
  done_tx = d;
  sent = sent;
  updates = us;
}

advance : SourceKey → ℕ → List CursorUpdate → List CursorUpdate
advance key t us = us ++ (record { key = key; timestamp = t } ∷ [])

track_life-done :
    {J : Type 0} (ps : Polls (Item J)) (at_drop : Bool) (key : SourceKey) (last : Option ℕ)
    (sent : List StreamEnd) (us : List CursorUpdate)
    → (track_life ps at_drop (tracked key last false sent us)).sent ≡ sent
unfolding track_life CursorTracking.poll_next CursorTracking.drop CursorTracking.finish advance
track_life-done [] at_drop key last sent us = refl
track_life-done ((c, item (ok e)) ∷ ps) at_drop key last sent us =
    track_life-done ps at_drop key (some e.timestamp) sent (advance key e.timestamp us)
track_life-done ((c, item (err e)) ∷ ps) at_drop key last sent us =
    track_life-done ps at_drop key last sent us
track_life-done ((c, finished) ∷ ps) at_drop key last sent us =
    track_life-done ps at_drop key last sent us
track_life-done ((c, pending) ∷ ps) at_drop key last sent us =
    track_life-done ps at_drop key last sent us

track_life-sent-from :
    {J : Type 0} (ps : Polls (Item J)) (at_drop : Bool) (key : SourceKey) (last : Option ℕ)
    (us : List CursorUpdate)
    → (track_life ps at_drop (tracked key last true [] us)).sent ≡ (
        (if end_token ps at_drop then StreamEnd.cancelled else StreamEnd.eof (last_line ps last))
        ∷ [])
unfolding track_life end_token last_line CursorTracking.poll_next CursorTracking.drop
    CursorTracking.finish CursorTracking.reason advance
track_life-sent-from [] at_drop key last us = refl
track_life-sent-from ((c, item (ok e)) ∷ ps) at_drop key last us =
    track_life-sent-from ps at_drop key (some e.timestamp) (advance key e.timestamp us)
track_life-sent-from ((c, item (err e)) ∷ ps) at_drop key last us =
    track_life-sent-from ps at_drop key last us
track_life-sent-from ((c, finished) ∷ ps) at_drop key last us =
    track_life-done ps at_drop key last _ us
track_life-sent-from ((c, pending) ∷ ps) at_drop key last us =
    track_life-sent-from ps at_drop key last us

-- With cursors a stream reports its end once, whatever is polled: that it was cancelled, if the token
-- was when it ended, and else the end of the log with the timestamp of its last line.
pub track_life-sent :
    {J : Type 0} (ps : Polls (Item J)) (at_drop : Bool) (key : SourceKey)
    → (track_life ps at_drop (tracked key none true [] [])).sent ≡ (
        (if end_token ps at_drop then StreamEnd.cancelled else StreamEnd.eof (last_line ps none))
        ∷ [])
track_life-sent ps at_drop key = track_life-sent-from ps at_drop key none []

-- A stream that is not polled again once it is finished.
abbrev pub IsFused : {A : Type 0} → Polls A → Type 0
IsFused [] = Unit {0}
IsFused ((c, item x) ∷ ps) = IsFused ps
IsFused ((c, finished) ∷ ps) = ps ≡ []
IsFused ((c, pending) ∷ ps) = IsFused ps

last_update-append :
    (key : SourceKey) (us vs : List CursorUpdate) (last : Option ℕ)
    → last_update key (map ProcessorEvent.update (us ++ vs)) last
      ≡ last_update key
          (map ProcessorEvent.update vs)
          (last_update key (map ProcessorEvent.update us) last)
unfolding last_update
last_update-append key [] vs last = refl
last_update-append key (u ∷ us) vs last = last_update-append key us vs _

track_life-last_update :
    {J : Type 0} (ps : Polls (Item J)) (at_drop : Bool) (key : SourceKey) (last before : Option ℕ)
    (us : List CursorUpdate)
    → IsFused ps
    → last_update key (map ProcessorEvent.update us) before ≡ or_else last before
    → last_update key
        (map ProcessorEvent.update (track_life ps at_drop (tracked key last true [] us)).updates)
        before
      ≡ or_else (last_line ps last) before
unfolding track_life last_line CursorTracking.poll_next CursorTracking.drop CursorTracking.finish
    CursorTracking.reason advance last_update
track_life-last_update [] at_drop key last before us f h = h
track_life-last_update ((c, item (ok e)) ∷ ps) at_drop key last before us f h =
    track_life-last_update ps at_drop key (some e.timestamp) before (advance key e.timestamp us) f
      (last_update-append key us _ before ∙ rw (key_beq_self key) refl)
track_life-last_update ((c, item (err e)) ∷ ps) at_drop key last before us f h =
    track_life-last_update ps at_drop key last before us f h
track_life-last_update ((c, finished) ∷ ps) at_drop key last before us f h = rw f h
track_life-last_update ((c, pending) ∷ ps) at_drop key last before us f h =
    track_life-last_update ps at_drop key last before us f h

flush_turns-now : (o : Option ℕ) (t n : ℕ) → o ≡ some t → flush_turns (λ i. o) t 0 (suc n) ≡ true
unfolding flush_turns reached
flush_turns-now o t n h = let self : leb t t ≡ true = ground arith in rw h (rw self refl)

-- Once the processor has taken the updates of a stream that had a line, the store has the timestamp
-- that the stream reports at its end, and the flush is confirmed.
pub track_life-flushed :
    (hash : SourceKey → ℕ) {J : Type 0} (ps : Polls (Item J)) (at_drop : Bool) (key : SourceKey)
    (t : ℕ) (store : ReconnectCursorStore)
    → IsSharded store
    → IsFused ps
    → last_line ps none ≡ some t
    → (get_cursor hash key (
          run_cursor_update_processor hash
            (map ProcessorEvent.update
              (track_life ps at_drop (tracked key none true [] [])).updates)
            store)
        ≡ some t)
      × (wait_cursor_flushed
            (λ i. get_cursor hash key (
              run_cursor_update_processor hash
                (map ProcessorEvent.update
                  (track_life ps at_drop (tracked key none true [] [])).updates)
                store))
            (some t)
          ≡ true)
unfolding wait_cursor_flushed
track_life-flushed hash ps at_drop key t store sh f e = (stored, flush_turns-now _ t 15 stored)
  where
    stored :
        get_cursor hash key (
          run_cursor_update_processor hash
            (map ProcessorEvent.update
              (track_life ps at_drop (tracked key none true [] [])).updates)
            store)
        ≡ some t
    stored =
        (get_cursor-processor hash _ store key sh).0
        ∙ track_life-last_update ps at_drop key none (get_cursor hash key store) [] f
            (unfold last_update in refl)
        ∙ ap (λ o. or_else o (get_cursor hash key store)) e
