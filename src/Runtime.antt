-- ===== src/Runtime.antt =====
-- crates/rustern-core/src/runtime
pub mod Shards
pub mod PodMetaCache
pub mod WatchAdmission
pub mod CursorStore
pub mod StreamEnd
pub mod CursorService
pub mod Registry
pub mod Lifecycle
pub mod Attach
pub mod Stats
pub mod Forward
pub mod Mux
pub mod ListPods
pub mod Config
pub mod Run
pub mod Core
pub mod Tests
