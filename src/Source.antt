-- ===== src/Source.antt =====
-- crates/rustern-core/src/source/mod.rs: the identity of a stream, a log event, and what a stream
-- yields. A time is the number of nanoseconds since the earliest instant that chrono represents.
pub mod PodLog
pub mod PodMeta
pub mod LogLine
pub mod Retry
pub mod Tests
use rustern.Common.{
  ℕ, ◌≡◌, ◌↔◌, Bool, true, ◌&&◌, List, Option, arith, Text, codes, text_beq, text_beq_iff, beq_self,
  Result, Eq, text_eq, ◌==◌,
}

pub record SourceKey : Type 0 where
  pub context : Text
  pub namespace : Text
  pub pod : Text
  pub container : Text
  pub uid : Text

-- The derived `PartialEq`.
unfoldable pub key_beq : SourceKey → SourceKey → Bool
key_beq a b =
    (a.context == b.context)
    && (a.namespace == b.namespace)
    && (a.pod == b.pod)
    && (a.container == b.container)
    && (a.uid == b.uid)

key_beq_sound : (a b : SourceKey) → key_beq a b ≡ true → a ≡ b
unfolding key_beq
key_beq_sound a b h = ground (
  arith,
  text_beq_iff a.context b.context,
  text_beq_iff a.namespace b.namespace,
  text_beq_iff a.pod b.pod,
  text_beq_iff a.container b.container,
  text_beq_iff a.uid b.uid,
)

pub key_beq_self : (a : SourceKey) → key_beq a a ≡ true
unfolding key_beq
key_beq_self a = ground (
  arith,
  beq_self a.context,
  beq_self a.namespace,
  beq_self a.pod,
  beq_self a.container,
  beq_self a.uid,
)

pub key_beq_iff : (a b : SourceKey) → (key_beq a b ≡ true) ↔ (a ≡ b)
key_beq_iff a b = (key_beq_sound a b, λ e. rw e (key_beq_self b))

instance abbrev pub key_eq : Eq SourceKey
key_eq = record { beq = key_beq; beq_iff = key_beq_iff }

pub data LogLevel : Type 0 where
  error warn info debug trace : LogLevel
  other : Text → LogLevel

-- `LogLevel::as_str`.
unfoldable pub as_str : LogLevel → Text
as_str error = codes "error"
as_str warn = codes "warn"
as_str info = codes "info"
as_str debug = codes "debug"
as_str trace = codes "trace"
as_str (other s) = s

pub data SourceKind : Type 0 where
  pod_log event file : SourceKind

pub record SourceMeta : Type 0 where
  pub context : Text
  pub namespace : Text
  pub pod : Text
  pub container : Text
  pub kind : SourceKind
  pub node : Option Text
  pub labels : List (Text × Text)
  pub uid : Text
  pub palette_index : Option ℕ
  pub container_palette_index : Option ℕ

-- `J` is the parsed form of a message.
pub record LogEvent (J : Type 0) : Type 0 where
  pub source : SourceMeta
  pub timestamp : ℕ
  pub message : Text
  pub structured : Option J
  pub level : Option LogLevel
  pub palette_index : Option ℕ
  pub container_palette_index : Option ℕ

pub data LogSourceError : Type 0 where
  eof cancelled : LogSourceError
  api : Text → LogSourceError

-- What a `BoxedLogStream` yields.
abbrev pub Item : Type 0 → Type 0
Item J = Result (LogEvent J) LogSourceError
