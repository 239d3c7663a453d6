-- ===== src/Discovery.antt =====
-- crates/rustern-core/src/discovery: which pods and streams a run follows.
pub mod PodReconcile
pub mod ContainerKeys
pub mod PodCondition
pub mod Resource
pub mod RunResolution
pub mod PodList
pub mod WorkloadSelector
pub mod ExecResolver
pub mod Context
pub mod ApiTests
pub mod Tests
