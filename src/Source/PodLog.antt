-- ===== src/Source/PodLog.antt =====
-- crates/rustern-core/src/source/pod_log.rs: the request for the log of a container. `T` is the
-- timestamp type of the API parameters.
use rustern.Common.{Bool, true, Option, none, some, Text, ℤ, is_some, if◌then◌else◌}
use rustern.Source.{SourceMeta}

pub record PodLogRequest (T : Type 0) : Type 0 where
  pub follow : Bool
  pub tail : Option ℤ
  pub since_seconds : Option ℤ
  pub since_time : Option T
  pub previous : Bool

-- The fields of `kube::api::LogParams` that are set.
pub record LogParams (T : Type 0) : Type 0 where
  pub container : Option Text
  pub follow : Bool
  pub timestamps : Bool
  pub tail_lines : Option ℤ
  pub since_seconds : Option ℤ
  pub since_time : Option T
  pub previous : Bool

unfoldable pub build_log_params : {T : Type 0} → SourceMeta → PodLogRequest T → LogParams T
build_log_params meta req = record {
  container = some meta.container;
  follow = req.follow;
  timestamps = true;
  tail_lines = req.tail;
  since_seconds = if is_some req.since_time then none else req.since_seconds;
  since_time = req.since_time;
  previous = req.previous;
}
