-- ===== src/Discovery/WorkloadSelector.antt =====
-- crates/rustern-core/src/discovery/workload_selector.rs: the label selector of the pods of a workload.
-- A map of labels is the list of its entries in the order of the keys. The objects are those of the
-- Kubernetes API, cut down to the fields that are read.
pub mod Order
pub mod Namespaces
use rustern.Common.{
  ℕ, Bool, true, false, ◌&&◌, ◌||◌, List, [], ◌∷◌, ◌++◌, map, filter_map, length, Option, none,
  some, Text, codes, text_eq, ◌==◌, text_le, is_empty, join, nat_beq, if◌then◌else◌, Result, ok,
  err, ◌>>=◌,
}
use mathlib.Core.Option
use rustern.Common.Sorting.{sort}
use rustern.Kube.{ObjectMeta}
use rustern.Discovery.Resource.{
  ResourceKind, pod, replication_controller, service, daemon_set, deployment, replica_set,
  stateful_set, job, label_selector_for,
}

abbrev pub Labels : Type 0
Labels = List (Text × Text)

pub record LabelSelectorRequirement : Type 0 where
  pub key : Text
  pub operator : Text
  pub values : Option (List Text)

pub record LabelSelector : Type 0 where
  pub match_labels : Option Labels
  pub match_expressions : Option (List LabelSelectorRequirement)

pub record PodTemplateSpec : Type 0 where
  pub metadata : Option ObjectMeta

-- The spec of a deployment, a stateful set or a daemon set; of a replica set; of a job; of a
-- service; and of a replication controller.
pub record ControllerSpec : Type 0 where
  pub selector : LabelSelector
  pub template : PodTemplateSpec

pub record ReplicaSetSpec : Type 0 where
  pub selector : LabelSelector
  pub template : Option PodTemplateSpec

pub record JobSpec : Type 0 where
  pub selector : Option LabelSelector
  pub template : PodTemplateSpec

pub record ServiceSpec : Type 0 where
  pub selector : Option Labels

pub record ReplicationControllerSpec : Type 0 where
  pub selector : Option Labels
  pub template : Option PodTemplateSpec

label_pair : Text × Text → Text
label_pair (k, v) = k ++ (codes "=" ++ v)

unfoldable pub btree_to_label_selector : Labels → Text
unfolding label_pair
btree_to_label_selector m = join (codes ",") (map label_pair m)

unfoldable pub fallback_app_selector : ResourceKind → Text → Text
fallback_app_selector kind workload_name = codes "app=" ++ workload_name

set_fragment : Text → Text → List Text → Option Text
set_fragment key op values =
    if is_empty values
    then none
    else some (
        key
        ++ (codes " "
            ++ (op ++ (codes " (" ++ (join (codes ",") (sort text_le values) ++ codes ")")))))

unfoldable pub match_expression_fragment : LabelSelectorRequirement → Option Text
unfolding set_fragment
match_expression_fragment req =
    if (req.operator == codes "In") || (req.operator == codes "NotIn")
    then Option.bind req.values
        (set_fragment req.key (if req.operator == codes "In" then codes "in" else codes "notin"))
    else if req.operator == codes "Exists"
    then some req.key
    else if req.operator == codes "DoesNotExist"
    then some (codes "!" ++ req.key)
    else none

unfoldable pub template_labels : Option PodTemplateSpec → Option Labels
template_labels template =
    Option.bind (Option.bind template (λ (t : PodTemplateSpec). t.metadata))
      (λ (md : ObjectMeta). md.labels)

-- `is_none_or(is_empty)`.
none_or_empty : {A : Type 0} → Option (List A) → Bool
none_or_empty none = true
none_or_empty (some xs) = is_empty xs

-- The parts of the selector, before they are sorted.
unfoldable pub selector_parts : LabelSelector → Option PodTemplateSpec → List Text
unfolding label_pair none_or_empty
selector_parts ls template =
    map label_pair (Option.get_or ls.match_labels [])
    ++ (filter_map match_expression_fragment (Option.get_or ls.match_expressions [])
        ++ (if none_or_empty ls.match_labels && none_or_empty ls.match_expressions
            then map label_pair (Option.get_or (template_labels template) [])
            else []))

selector_of_parts : ResourceKind → Text → List Text → Text
selector_of_parts kind workload_name parts =
    if is_empty parts
    then fallback_app_selector kind workload_name
    else join (codes ",") (sort text_le parts)

unfoldable pub label_selector_from_meta :
    LabelSelector → Option PodTemplateSpec → ResourceKind → Text → Text
unfolding selector_of_parts
label_selector_from_meta ls template kind workload_name =
    selector_of_parts kind workload_name (selector_parts ls template)

-- `Api::get` of kube for each kind: the spec of the object in a namespace, by its name.
pub record Client (E : Type 0) : Type 0 where
  pub get_deployment : Text → Text → Result (Option ControllerSpec) E
  pub get_stateful_set : Text → Text → Result (Option ControllerSpec) E
  pub get_daemon_set : Text → Text → Result (Option ControllerSpec) E
  pub get_replica_set : Text → Text → Result (Option ReplicaSetSpec) E
  pub get_job : Text → Text → Result (Option JobSpec) E
  pub get_service : Text → Text → Result (Option ServiceSpec) E
  pub get_replication_controller : Text → Text → Result (Option ReplicationControllerSpec) E

-- `let Some(spec) = … else { return Ok(label_selector_for(kind, name)) }`.
abbrev with_spec : {S : Type 0} → ResourceKind → Text → (S → Text) → Option S → Text
with_spec kind name f none = label_selector_for kind name
with_spec kind name f (some spec) = f spec

controller_selector : ResourceKind → Text → ControllerSpec → Text
controller_selector kind name spec =
    label_selector_from_meta spec.selector (some spec.template) kind name

job_spec_selector : Text → JobSpec → Text
job_spec_selector name spec = elim spec.selector [
  | none ↦ label_selector_for job name
  | some ls ↦ label_selector_from_meta ls (some spec.template) job name
]

labels_or_app : ResourceKind → Text → Labels → Text
labels_or_app kind name selector =
    if is_empty selector then label_selector_for kind name else btree_to_label_selector selector

controller_labels : ReplicationControllerSpec → Labels
controller_labels spec =
    let selector = Option.get_or spec.selector [] in
    if is_empty selector then Option.get_or (template_labels spec.template) [] else selector

module _ {E : Type 0} (client : Client E) where
  unfoldable pub deployment_selector : Text → Text → Result Text E
  unfolding controller_selector
  deployment_selector ns name = client.get_deployment ns name >>= λ d.
      ok (with_spec deployment name (controller_selector deployment name) d)

  unfoldable pub statefulset_selector : Text → Text → Result Text E
  unfolding controller_selector
  statefulset_selector ns name = client.get_stateful_set ns name >>= λ s.
      ok (with_spec stateful_set name (controller_selector stateful_set name) s)

  unfoldable pub daemonset_selector : Text → Text → Result Text E
  unfolding controller_selector
  daemonset_selector ns name = client.get_daemon_set ns name >>= λ d.
      ok (with_spec daemon_set name (controller_selector daemon_set name) d)

  unfoldable pub replicaset_selector : Text → Text → Result Text E
  replicaset_selector ns name = client.get_replica_set ns name >>= λ rs. ok (
      with_spec replica_set name
        (λ spec. label_selector_from_meta spec.selector spec.template replica_set name) rs)

  unfoldable pub job_selector : Text → Text → Result Text E
  unfolding job_spec_selector
  job_selector ns name =
      client.get_job ns name >>= λ j. ok (with_spec job name (job_spec_selector name) j)

  unfoldable pub service_selector : Text → Text → Result Text E
  unfolding labels_or_app
  service_selector ns name = client.get_service ns name >>= λ svc. ok (
      labels_or_app service name
        (Option.get_or (Option.bind svc (λ (sp : ServiceSpec). sp.selector)) []))

  unfoldable pub replication_controller_selector : Text → Text → Result Text E
  unfolding labels_or_app controller_labels
  replication_controller_selector ns name = client.get_replication_controller ns name >>= λ rc. ok (
      with_spec replication_controller name
        (λ spec. labels_or_app replication_controller name (controller_labels spec)) rc)

  workload_selector : ResourceKind → Text → Text → Result Text E
  workload_selector pod name ns = ok (label_selector_for pod name)
  workload_selector deployment name ns = deployment_selector ns name
  workload_selector stateful_set name ns = statefulset_selector ns name
  workload_selector daemon_set name ns = daemonset_selector ns name
  workload_selector replica_set name ns = replicaset_selector ns name
  workload_selector job name ns = job_selector ns name
  workload_selector service name ns = service_selector ns name
  workload_selector replication_controller name ns = replication_controller_selector ns name

  unfoldable pub resolve_label_selector_for_kind_query :
      ResourceKind → Text → Option Text → Result Text E
  unfolding workload_selector
  resolve_label_selector_for_kind_query kind name none = ok (label_selector_for kind name)
  resolve_label_selector_for_kind_query kind name (some ns) = workload_selector kind name ns
