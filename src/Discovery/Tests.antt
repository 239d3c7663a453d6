-- ===== src/Discovery/Tests.antt =====
-- Pods and keys to run crates/rustern-core/src/discovery on.
use rustern.Common.{◌≡◌, refl, false, not, ◌&&◌, List, [], ◌∷◌, none, some, Text, codes, All}
use rustern.Common.Sets.{contains, IsDistinct}
use rustern.Common.Sorting.{IsSorted}
use rustern.Kube.{Pod}
use rustern.Source.{SourceKey, key_eq, key_beq}
use rustern.Common.{text_beq}
use rustern.Discovery.PodReconcile.{
  dictionary_le, entry, reconcile, contains-reconcile, reconcile-IsSorted,
}
use rustern.Discovery.ContainerKeys.{
  ContainerDiscoverOpts, ContainerStatePolicy, keys_from_pod, IsKeyOf, keys_from_pod-IsKeyOf,
}
use rustern.Discovery.Resource.{ResourceKind, Query, parse_query, parse_query-names}
use rustern.Discovery.RunResolution.{RunResolutionInput}
use rustern.Common.{text_eq, trim, Result, ok, ◌++◌, is_empty}
use rustern.Discovery.PodList.{PodWatchPlanConfig, build}
use rustern.Discovery.PodList.Node.{IsPlanWith, build-IsPlanWith}
use rustern.Common.{Bool, true}

abbrev pub web_key : Text → SourceKey
web_key container = record {
  context = codes "dev";
  namespace = codes "shop";
  pod = codes "web-0";
  container = container;
  uid = codes "u1";
}

abbrev pub web_pod : Pod
web_pod = record {
  metadata = record {
    name = some (codes "web-0");
    namespace = some (codes "shop");
    uid = some (codes "u1");
    labels = none;
  };
  spec = some (record {
    containers = codes "app" ∷ codes "proxy" ∷ [];
    init_containers = none;
    ephemeral_containers = none;
    node_name = none;
  });
  status = none;
}

abbrev pub main_only : ContainerDiscoverOpts
main_only = record {
  include_init_containers = false;
  include_ephemeral_containers = false;
  state_policy = ContainerStatePolicy.all;
}

abbrev pub app_and_proxy : List SourceKey
app_and_proxy = web_key (codes "app") ∷ web_key (codes "proxy") ∷ []

abbrev proxy_and_job : List SourceKey
proxy_and_job = web_key (codes "proxy") ∷ web_key (codes "job") ∷ []

two_keys : IsDistinct app_and_proxy
unfolding contains key_beq text_beq
two_keys = (refl, (refl, tt))

two_other_keys : IsDistinct proxy_and_job
unfolding contains key_beq text_beq
two_other_keys = (refl, (refl, tt))

contains-reconcile_example :
    (contains (web_key (codes "job")) (reconcile app_and_proxy proxy_and_job).to_add ≡ (
      contains (web_key (codes "job")) proxy_and_job
      && not (contains (web_key (codes "job")) app_and_proxy)))
    × (contains (web_key (codes "job")) (reconcile app_and_proxy proxy_and_job).to_drop ≡ (
        contains (web_key (codes "job")) app_and_proxy
        && not (contains (web_key (codes "job")) proxy_and_job)))
contains-reconcile_example = contains-reconcile (web_key (codes "job")) app_and_proxy proxy_and_job

reconcile-IsSorted_example :
    IsSorted
      (λ a b. dictionary_le (entry a) (entry b))
      (reconcile app_and_proxy proxy_and_job).to_add
    × IsSorted
        (λ a b. dictionary_le (entry a) (entry b))
        (reconcile app_and_proxy proxy_and_job).to_drop
    × IsDistinct (reconcile app_and_proxy proxy_and_job).to_add
    × IsDistinct (reconcile app_and_proxy proxy_and_job).to_drop
reconcile-IsSorted_example = reconcile-IsSorted app_and_proxy proxy_and_job two_keys two_other_keys

keys_from_pod-IsKeyOf_example :
    All (IsKeyOf web_pod (codes "dev")) (keys_from_pod web_pod (codes "dev") main_only)
keys_from_pod-IsKeyOf_example = keys_from_pod-IsKeyOf web_pod (codes "dev") main_only

abbrev any_regex : Text → Result (Unit {0}) Text
any_regex t = ok tt

parse_query-names_example :
    (parse_query any_regex (codes "deployment" ++ (47 ∷ codes "web"))
      ≡ ok (Query.label_selector ResourceKind.deployment (codes "web")))
    × (parse_query any_regex (codes "deploy" ++ (47 ∷ codes "web"))
        ≡ ok (Query.label_selector ResourceKind.deployment (codes "web")))
parse_query-names_example = parse_query-names any_regex ResourceKind.deployment (codes "web")

abbrev shop : Result Text Text
shop = ok (codes "shop")

abbrev default_run : RunResolutionInput
default_run = record {
  query = none;
  selector = none;
  field_selector = none;
  node = none;
  all_namespaces = false;
  namespace_flags = [];
}

abbrev on_node : PodWatchPlanConfig
on_node = record {
  query = codes "po/web";
  selector = none;
  field_selector = some (codes "status.phase=Running");
  node = some (codes " n1 ");
  namespaces = [];
  all_namespaces = true;
}

abbrev same_regex : Text → Result Text Text
same_regex t = ok t

abbrev by_name : ResourceKind → Text → List Text → Bool → Result Text Text
by_name kind name namespaces all_namespaces = ok name

build-IsPlanWith_example :
    IsPlanWith
      (codes "spec.nodeName=" ++ trim (codes " n1 "))
      (build any_regex same_regex by_name on_node)
build-IsPlanWith_example =
    build-IsPlanWith any_regex same_regex by_name (codes " n1 ") on_node
      (unfold is_empty trim in refl) refl
