-- ===== src/Pipeline.antt =====
-- crates/rustern-core/src/pipeline and runtime/spec.rs: what happens to each log event between the
-- multiplexer and the renderer.
pub mod External
pub mod StageOrder
pub mod Stages
pub mod Spec
pub mod Build
pub mod Meaning
pub mod Filters
pub mod Assembly
pub mod Rows
pub mod Run
pub mod Levels
pub mod Tests
