-- ===== src/Discovery/ApiTests.antt =====
-- Workloads, plugins and kubeconfigs to run crates/rustern-core/src/discovery on.
use rustern.Common.{
  ◌≡◌, refl, false, [], ◌∷◌, map, Option, none, some, Text, codes, text_eq, text_beq, any, ◌==◌,
  if◌then◌else◌, Result, ok, err,
}
use mathlib.Core.List.Perm
use mathlib.Core.Option
use rustern.Discovery.Resource.{deployment, label_selector_for}
use rustern.Discovery.WorkloadSelector.{
  Client, ControllerSpec, LabelSelectorRequirement, label_selector_from_meta,
}
use rustern.Discovery.WorkloadSelector.Order.{label_selector_from_meta-perm}
use rustern.Discovery.WorkloadSelector.Namespaces.{
  resolve_label_selector_for_namespaces, agreed, resolve-agreed, query,
}
use rustern.Discovery.ExecResolver.{ExecConfig}
use rustern.Discovery.Context.{
  Kubeconfig, ContextSelector, pick_context_name, default_namespace, apply_exec_token_to_kubeconfig,
}
use rustern.Discovery.Context.Namespace.{IsFilled, default_namespace-IsFilled}
use rustern.Discovery.Context.Token.{Outcome, apply_exec_token-Outcome}

-- A deployment with the label `tier=web`, but for the namespace `lost`, where the API fails.
abbrev pub client : Client (Unit {0})
client = record {
  get_deployment = λ ns name. deployment_in ns;
  get_stateful_set = λ ns name. err tt;
  get_daemon_set = λ ns name. err tt;
  get_replica_set = λ ns name. err tt;
  get_job = λ ns name. err tt;
  get_service = λ ns name. err tt;
  get_replication_controller = λ ns name. err tt;
}
  where
    deployment_in : Text → Result (Option ControllerSpec) (Unit {0})
    deployment_in ns =
        if ns == codes "lost"
        then err tt
        else ok (
            some (record {
              selector = record {
                match_labels = some ((codes "tier", codes "web") ∷ []);
                match_expressions = none;
              };
              template = record { metadata = none };
            }))

resolve-agreed_example :
    resolve_label_selector_for_namespaces client deployment
      (codes "api")
      (codes "a" ∷ codes "b" ∷ codes "lost" ∷ [])
      false
    ≡ ok (
        Option.get_or
          (agreed client (
            map
              (query client deployment (codes "api"))
              (codes "a" ∷ codes "b" ∷ codes "lost" ∷ [])))
          (label_selector_for deployment (codes "api")))
resolve-agreed_example =
    resolve-agreed client deployment (codes "api") (codes "a") (codes "b") (codes "lost" ∷ [])

abbrev exists_tier : LabelSelectorRequirement
exists_tier = record { key = codes "tier"; operator = codes "Exists"; values = none }

abbrev not_in_dev : LabelSelectorRequirement
not_in_dev = record {
  key = codes "stage";
  operator = codes "NotIn";
  values = some (codes "test" ∷ codes "dev" ∷ []);
}

label_selector_from_meta-perm_example :
    label_selector_from_meta
      (record { match_labels = none; match_expressions = some (not_in_dev ∷ exists_tier ∷ []) })
      none
      deployment
      (codes "api")
    ≡ label_selector_from_meta
        (record { match_labels = none; match_expressions = some (exists_tier ∷ not_in_dev ∷ []) })
        none
        deployment
        (codes "api")
label_selector_from_meta-perm_example =
    label_selector_from_meta-perm none (not_in_dev ∷ exists_tier ∷ [])
      (exists_tier ∷ not_in_dev ∷ []) none deployment (codes "api")
      (Perm.swap exists_tier not_in_dev [])

-- A plugin that sets `REGION` and drops `PROXY`.
abbrev plugin : ExecConfig
plugin = record {
  api_version = none;
  command = some (codes "login");
  args = none;
  env = some (((codes "name", codes "REGION") ∷ (codes "value", codes "eu") ∷ []) ∷ []);
  drop_env = some (codes "PROXY" ∷ []);
  interactive_mode = none;
  provide_cluster_info = false;
}

abbrev kubeconfig : Kubeconfig
kubeconfig = record {
  current_context = some (codes "dev");
  contexts =
      record {
        name = codes "dev";
        context =
            some (record {
              cluster = codes "c";
              user = some (codes "u");
              namespace = some (codes " ");
            });
      }
      ∷ [];
  clusters =
      record {
        name = codes "c";
        cluster = some (record {
          server = some (codes "https://c");
          certificate_authority_data = none;
          insecure_skip_tls_verify = none;
        });
      }
      ∷ [];
  auth_infos =
      record { name = codes "u"; auth_info = some (record { token = none; exec = some plugin }) }
      ∷ [];
}

abbrev no_selection : ContextSelector
no_selection = record { kubeconfig_path = none; context_name = none }

dev_is_known : pick_context_name kubeconfig no_selection ≡ ok (codes "dev")
unfolding pick_context_name any text_beq
dev_is_known = refl

default_namespace-IsFilled_example :
    (ns : Text) × (default_namespace kubeconfig no_selection ≡ ok ns) × IsFilled ns
default_namespace-IsFilled_example =
    default_namespace-IsFilled kubeconfig no_selection (codes "dev") dev_is_known

apply_exec_token-Outcome_example :
    Outcome
      (λ exec cluster. some (codes "t"))
      kubeconfig
      (codes "dev")
      (apply_exec_token_to_kubeconfig (λ exec cluster. some (codes "t")) kubeconfig (codes "dev"))
apply_exec_token-Outcome_example =
    apply_exec_token-Outcome (λ exec cluster. some (codes "t")) kubeconfig (codes "dev")
