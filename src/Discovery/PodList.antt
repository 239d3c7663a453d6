-- ===== src/Discovery/PodList.antt =====
-- crates/rustern-core/src/discovery/pod_list.rs: what the list and the watch of the pods ask for.
pub mod Node
use rustern.Common.{
  ℕ, ◌≡◌, refl, ◌∙◌, ap, Bool, true, false, not, ◌&&◌, List, [], ◌∷◌, ◌++◌, Option, none, some,
  Text, codes, text_beq, text_eq, Eq, ◌==◌, is_empty, is_some, trim, join, push, if◌then◌else◌,
  Result, ok, err, ◌>>=◌, map_err, or_else, arith, Bool-cases, inl, inr,
}
use mathlib.Core.Option
use rustern.Discovery.Resource.{
  ResourceKind, pod, replication_controller, service, daemon_set, deployment, replica_set,
  stateful_set, job, Query, pod_name_regex, label_selector, QueryParseError, parse_query,
}

pub record PodWatchPlanConfig : Type 0 where
  pub query : Text
  pub selector : Option Text
  pub field_selector : Option Text
  pub node : Option Text
  pub namespaces : List Text
  pub all_namespaces : Bool

-- The fields of `ListParams` that are set, and those of the watch, which are the same two.
pub record PodWatchPlan (R : Type 0) : Type 0 where
  pub label_selector : Option Text
  pub field_selector : Option Text
  pub watch_labels : Option Text
  pub watch_fields : Option Text
  pub limit : ℕ
  pub pod_regex : Option R

pub data PodListError (K : Type 0) : Type 0 where
  query : QueryParseError → PodListError K
  regex : Text → PodListError K
  kube : K → PodListError K

-- `if !t.is_empty() { parts.push(...) }`.
part : Text → Text → List Text
part label t = if is_empty t then [] else (label ++ t) ∷ []

part_of : Text → Option Text → List Text
unfolding part
part_of label none = []
part_of label (some t) = part label (trim t)

joined : List Text → Option Text
joined [] = none
joined (p ∷ ps) = some (join (codes ",") (p ∷ ps))

unfoldable pub combined_field_selector : PodWatchPlanConfig → Option Text
unfolding part_of joined
combined_field_selector cfg =
    joined (part_of [] cfg.field_selector ++ part_of (codes "spec.nodeName=") cfg.node)

unfoldable pub merged_field_selector_for_pod_name : Text → PodWatchPlanConfig → Text
unfolding combined_field_selector
merged_field_selector_for_pod_name pod_name cfg =
    join (codes ",")
      ((codes "metadata.name=" ++ trim pod_name) ∷ push (combined_field_selector cfg) [])

is_pod : ResourceKind → Bool
is_pod pod = true
is_pod replication_controller = false
is_pod service = false
is_pod daemon_set = false
is_pod deployment = false
is_pod replica_set = false
is_pod stateful_set = false
is_pod job = false

-- `resolve` is `resolve_label_selector_for_namespaces`, which asks the API; `compile_user` and
-- `compile` are the two compilers of regexes.
module _ {R K : Type 0} (compile_user : Text → Result (Unit {0}) Text)
    (compile : Text → Result R Text)
    (resolve : ResourceKind → Text → List Text → Bool → Result Text K) where
  -- The labels and the fields of the list.
  list_selectors :
      PodWatchPlanConfig → Query → Option Text → Result (Option Text × Option Text) (PodListError K)
  unfolding combined_field_selector merged_field_selector_for_pod_name is_pod
  list_selectors cfg q (some sel) = ok (some sel, combined_field_selector cfg)
  list_selectors cfg (pod_name_regex re) none = ok (none, combined_field_selector cfg)
  list_selectors cfg (label_selector kind name) none =
      if is_pod kind
      then ok (none, some (merged_field_selector_for_pod_name name cfg))
      else map_err kube (resolve kind name cfg.namespaces cfg.all_namespaces) >>= λ labels.
          ok (some labels, combined_field_selector cfg)

  query_regex : Query → Result (Option R) (PodListError K)
  query_regex (pod_name_regex re) = map_err regex (compile re) >>= λ r. ok (some r)
  query_regex (label_selector kind name) = ok none

  plan_of : Option R → Option Text × Option Text → PodWatchPlan R
  plan_of pod_regex (labels, fields) = record {
    label_selector = labels;
    field_selector = fields;
    watch_labels = labels;
    watch_fields = fields;
    limit = 500;
    pod_regex = pod_regex;
  }

  query_source : PodWatchPlanConfig → Text
  query_source cfg =
      if is_some cfg.selector && (cfg.query == codes ".") then codes ".*" else cfg.query

  unfoldable pub build : PodWatchPlanConfig → Result (PodWatchPlan R) (PodListError K)
  unfolding list_selectors query_regex plan_of query_source parse_query
  build cfg = map_err query (parse_query compile_user (query_source cfg)) >>= λ q.
      query_regex q >>= λ pod_regex.
      list_selectors cfg q cfg.selector >>= λ selectors. ok (plan_of pod_regex selectors)
