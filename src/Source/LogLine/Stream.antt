-- ===== src/Source/LogLine/Stream.antt =====
-- crates/rustern-core/src/source/pod_log.rs: `PodLogSource::start`, and the stream that it unfolds from
-- the reader of a log.
use rustern.Common.{
  ℕ, ◌+◌, ◌*◌, ◌≤◌, ◌≡◌, refl, sym, ap, Bool, true, false, List, [], ◌∷◌, ◌++◌, map, Option, none,
  some, Text, Result, ok, err, All, length, arith, Option-cases, inl, inr,
}
use mathlib.Core.Option
use rustern.Source.{SourceMeta, LogEvent, LogSourceError, Item}
use rustern.Source.PodLog.{PodLogRequest, LogParams, build_log_params}
use rustern.Source.Retry.{KubeError, RetryError, log_stream_with_retry}
use rustern.Source.LogLine.{
  Bytes, Resolver, microsecond, resolve, resolve_rest, resolve_all, split_log_line, IsTimed,
  HasRoom,
}
use rustern.Source.LogLine.Times.{resolve_all-IsTimed}

-- The first timestamp and the rest, where the timestamps of all lines resolve.
unwrap_resolved :
    (rest : Resolver → Option (List ℕ)) (o : Option (ℕ × Resolver)) (tss : List ℕ)
    → resolve_rest rest o ≡ some tss
    → (ts : ℕ) × (last : Resolver) × (tss' : List ℕ) × (o ≡ some (ts, last))
      × (rest last ≡ some tss')
      × (tss ≡ ts ∷ tss')
unfolding resolve_rest
unwrap_resolved rest none tss h = absurd (ground (arith, h))
unwrap_resolved rest (some (ts, last)) tss h = elim (Option-cases (rest last)) [
  | inl e ↦ absurd (ground (arith, rw e at h))
  | inr (tss', e) ↦ (ts, last, tss', refl, e, sym (ap (λ o. Option.get_or o []) (rw e at h)))
]

-- What the `select!` of a poll takes: the token, or what `read_until` of futures put into the buffer.
pub data Read : Type 0 where
  cancelled : Read
  read : Result Bytes Text → Read

-- The lines that are read before the stream ends, and the error that ends it, if one does.
unfoldable pub lines_read : List Read → List Bytes
lines_read [] = []
lines_read (cancelled ∷ reads) = []
lines_read (read (err e) ∷ reads) = []
lines_read (read (ok []) ∷ reads) = []
lines_read (read (ok (b ∷ raw)) ∷ reads) = (b ∷ raw) ∷ lines_read reads

unfoldable pub read_error : {J : Type 0} → List Read → List (Item J)
read_error [] = []
read_error (cancelled ∷ reads) = []
read_error (read (err e) ∷ reads) = err (LogSourceError.api e) ∷ []
read_error (read (ok []) ∷ reads) = []
read_error (read (ok (b ∷ raw)) ∷ reads) = read_error reads

-- `PodLogSource::start` asks for the log with three attempts; `log_stream` is the answer of the API to each
-- of them, and the reader that it gives is what its reads are to yield.
unfoldable pub start :
    {T E : Type 0}
    → (Text → Text → LogParams T → ℕ → Result (List Read) (KubeError E))
    → SourceMeta
    → PodLogRequest T
    → Option (Result (List Read) (RetryError E))
unfolding log_stream_with_retry build_log_params
start log_stream meta req =
    log_stream_with_retry (log_stream meta.namespace meta.pod (build_log_params meta req)) 3 3 0

-- A poll ends the stream, or yields an item with the new `done` and resolver.
pub data Polled (J : Type 0) : Type 0 where
  ended : Polled J
  yielded : Item J → Bool → Resolver → Polled J

-- The functions of the standard library and of chrono.
module _ (from_utf8 : Bytes → Option Text) (from_utf8_lossy : Bytes → Text)
    (parse_rfc3339 : Text → Option ℕ) where
  abbrev stamp : Bytes → Option ℕ
  stamp raw = (split_log_line from_utf8 from_utf8_lossy parse_rfc3339 raw).0

  abbrev pub stamps : List Read → List (Option ℕ)
  unfolding lines_read
  stamps reads = map stamp (lines_read reads)

module _ {J : Type 0} (from_utf8 : Bytes → Option Text) (from_utf8_lossy : Bytes → Text)
    (parse_rfc3339 : Text → Option ℕ) (unix_epoch max_utc : ℕ) where
  unfoldable pub event_of : SourceMeta → Bytes → ℕ → LogEvent J
  event_of meta raw ts = record {
    source = meta;
    timestamp = ts;
    message = (split_log_line from_utf8 from_utf8_lossy parse_rfc3339 raw).1;
    structured = none;
    level = none;
    palette_index = meta.palette_index;
    container_palette_index = meta.container_palette_index;
  }

  -- One turn of the unfold; `none` is a panic.
  unfoldable pub poll : SourceMeta → Bool → Resolver → Read → Option (Polled J)
  unfolding resolve event_of
  poll meta true last r = some ended
  poll meta false last cancelled = some ended
  poll meta false last (read (ok [])) = some ended
  poll meta false last (read (ok (b ∷ raw))) =
      Option.map (λ (r : ℕ × Resolver). yielded (ok (event_of meta (b ∷ raw) r.0)) false r.1)
        (resolve unix_epoch max_utc (stamp from_utf8 from_utf8_lossy parse_rfc3339 (b ∷ raw)) last)
  poll meta false last (read (err e)) = some (yielded (err (LogSourceError.api e)) true last)

  after_poll :
      (Bool → Resolver → Option (List (Item J))) → Option (Polled J) → Option (List (Item J))
  after_poll rest none = none
  after_poll rest (some ended) = some []
  after_poll rest (some (yielded item done last)) =
      Option.map (λ items. item ∷ items) (rest done last)

  -- The items of the stream, as long as it is polled.
  unfoldable pub log_events : SourceMeta → List Read → Bool → Resolver → Option (List (Item J))
  unfolding poll after_poll
  log_events meta [] done last = some []
  log_events meta (r ∷ reads) done last =
      after_poll (λ done last. log_events meta reads done last) (poll meta done last r)

  unfoldable pub events : SourceMeta → List Bytes → List ℕ → List (Item J)
  events meta [] tss = []
  events meta (raw ∷ lines) [] = []
  events meta (raw ∷ lines) (ts ∷ tss) = ok (event_of meta raw ts) ∷ events meta lines tss

  nothing_after :
      (meta : SourceMeta) (reads : List Read) (last : Resolver)
      → log_events meta reads true last ≡ some []
  unfolding log_events
  nothing_after meta [] last = refl
  nothing_after meta (r ∷ reads) last = refl

  -- The stream of lines whose timestamps resolve has an event for each of them and then the error.
  log_events-resolved :
      (meta : SourceMeta) (reads : List Read) (last : Resolver) (tss : List ℕ)
      → resolve_all unix_epoch max_utc (stamps from_utf8 from_utf8_lossy parse_rfc3339 reads) last
        ≡ some tss
      → log_events meta reads false last
        ≡ some (events meta (lines_read reads) tss ++ read_error reads)
  unfolding log_events poll after_poll resolve_all events lines_read read_error
  log_events-resolved meta [] last tss h = refl
  log_events-resolved meta (cancelled ∷ reads) last tss h = refl
  log_events-resolved meta (read (ok []) ∷ reads) last tss h = refl
  log_events-resolved meta (read (err e) ∷ reads) last tss h =
      ap (Option.map (λ items. err (LogSourceError.api e) ∷ items)) (nothing_after meta reads last)
  log_events-resolved meta (read (ok (b ∷ raw)) ∷ reads) last tss h =
      let (ts, last', tss', r, q, e) =
        unwrap_resolved
          (λ l.
            resolve_all unix_epoch max_utc (stamps from_utf8 from_utf8_lossy parse_rfc3339 reads) l)
          (resolve unix_epoch max_utc (stamp from_utf8 from_utf8_lossy parse_rfc3339 (b ∷ raw))
            last)
          tss h in
      rw r (
        rw e (
          ap (Option.map (λ items. ok (event_of meta (b ∷ raw) ts) ∷ items))
            (log_events-resolved meta reads last' tss' q)))

  -- A stream whose timestamps stay a microsecond for each line away from the last instant never panics.
  -- It yields an event for each line that is read before the token is cancelled, the log ends or a read
  -- fails, with the text of the line, and the line's own timestamp, or a microsecond more than the
  -- line before it, or the epoch; after a failed read it yields that error, and then nothing.
  pub log_events-lines :
      (meta : SourceMeta) (reads : List Read)
      → unix_epoch + microsecond * length (stamps from_utf8 from_utf8_lossy parse_rfc3339 reads)
        ≤ max_utc
      → All
          (HasRoom max_utc
            (microsecond * length (stamps from_utf8 from_utf8_lossy parse_rfc3339 reads)))
          (stamps from_utf8 from_utf8_lossy parse_rfc3339 reads)
      → (tss : List ℕ) × (log_events meta reads false none
          ≡ some (events meta (lines_read reads) tss ++ read_error reads))
        × IsTimed unix_epoch (stamps from_utf8 from_utf8_lossy parse_rfc3339 reads) none tss
  log_events-lines meta reads e r =
      let (tss, p, t) =
        resolve_all-IsTimed unix_epoch max_utc
          (stamps from_utf8 from_utf8_lossy parse_rfc3339 reads) none e r tt in
      (tss, log_events-resolved meta reads none tss p, t)
