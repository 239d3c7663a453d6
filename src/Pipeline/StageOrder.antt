-- ===== src/Pipeline/StageOrder.antt =====
-- crates/rustern-core/src/pipeline/stage_order.rs: where `-i`/`-e` and the early `--exit-on` stand.
use rustern.Common.{ℕ, ◌+◌, ◌≡◌, Bool, true, false, not, arith}

pub data FilterOn : Type 0 where
  transformed original : FilterOn

pub record PipelineStageOrder : Type 0 where
  pub exit_on_message_before_filters : Bool
  pub include_before_container : Bool
  pub include_after_classify_before_transform : Bool
  pub include_after_transform : Bool

unfoldable pub resolve : FilterOn → Bool → Bool → PipelineStageOrder
resolve original has_exit_on_message has_exit_on_level = record {
  exit_on_message_before_filters = has_exit_on_message;
  include_before_container = not has_exit_on_level;
  include_after_classify_before_transform = has_exit_on_level;
  include_after_transform = false;
}
resolve transformed has_exit_on_message has_exit_on_level = record {
  exit_on_message_before_filters = false;
  include_before_container = false;
  include_after_classify_before_transform = false;
  include_after_transform = true;
}

abbrev count_true : Bool → ℕ
count_true true = 1
count_true false = 0

-- The include/exclude stage stands in exactly one of its three places.
pub include_once :
    (f : FilterOn) (m l : Bool)
    → count_true (resolve f m l).include_before_container
        + count_true (resolve f m l).include_after_classify_before_transform
        + count_true (resolve f m l).include_after_transform
      ≡ 1
unfolding resolve
include_once f m l = ground arith
