-- ===== src/Runtime/Run/Tests.antt =====
-- A configuration to prepare and to end crates/rustern-core/src/runtime/run.rs on.
use rustern.Common.{
  ◌≡◌, refl, true, false, [], ◌∷◌, split_once, Option, none, some, Text, codes, Result, ok,
}
use rustern.Display.{FormatterChoice}
use rustern.Kube.{Pod}
use rustern.Pipeline.StageOrder.{original}
use rustern.Pipeline.Stages.{filter_mode}
use rustern.Pipeline.Spec.{needs_json_annotation}
use rustern.Pipeline.Build.{from_run_config, color_assign_opts}
use rustern.Discovery.ApiTests.{client}
use rustern.Discovery.ContainerKeys.{ContainerStatePolicy}
use rustern.Discovery.PodList.{build}
use rustern.Render.Json.{format_json}
use rustern.Render.Setup.{build_line_formatter, line_formatter, wrap_formatter_with_stern_highlight}
use rustern.Render.Tests.{printer}
use rustern.Runtime.Attach.{log_request_permits}
use rustern.Runtime.Config.{CoreRunConfig}
use rustern.Runtime.ListPods.{Page, list_pods_paginated}
use rustern.Runtime.WatchAdmission.{try_new}
use rustern.Runtime.Run.{ApiScope, namespaced, Prepared, prepare, api_scope, plan_config}

-- One pod name in one namespace, without follow, as JSON.
abbrev web_config : CoreRunConfig (Unit {0}) (Unit {0})
web_config = record {
  context = record { kubeconfig_path = none; context_name = none };
  query = codes "web";
  namespaces = codes "shop" ∷ [];
  all_namespaces = false;
  selector = none;
  field_selector = none;
  node = none;
  exclude_pod = [];
  container = codes ".*";
  exclude_container = [];
  container_discovery = record {
    include_init_containers = true;
    include_ephemeral_containers = true;
    state_policy = ContainerStatePolicy.all;
  };
  pod_condition = none;
  pod_log = record {
    follow = false;
    tail = none;
    since_seconds = none;
    since_time = none;
    previous = false;
  };
  cursor_reconnect = false;
  include = [];
  exclude = [];
  highlight = [];
  only_log_lines = false;
  filter_on = original;
  json_query = none;
  json_query_mode = filter_mode;
  level_key = none;
  exit_on = [];
  exit_on_level = none;
  formatter = FormatterChoice.json;
  diff_container = false;
  fwd = record { buffer_size = 4096; lossy = false; stats = none; max_log_requests = 5 };
}

-- The API has no pods.
abbrev empty_list :
    ApiScope → Option Text → Option Text → Option Text → Result (Page Pod) (Unit {0})
empty_list scope labels fields token = ok (record { items = []; continue_ = none })

abbrev web_prepared : Prepared printer
web_prepared = record {
  plan = record {
    label_selector = none;
    field_selector = none;
    watch_labels = none;
    watch_fields = none;
    limit = 500;
    pod_regex = some (codes "web");
  };
  scope = namespaced (codes "shop");
  pipeline = record {
    stages = record {
      includes = [];
      excludes = [];
      filter_on = original;
      jq = none;
      level_key = none;
      color_opts = record { pod_colors = false; container_colors = false; diff_container = false };
      exit_on = [];
      exit_on_level = none;
      needs_json_annotation = false;
    };
    exit_watch = record { triggered = false; cancelled = false };
  };
  admission = record {
    context_name = codes "dev";
    pod_regex = some (codes "web");
    exclude_pod = [];
    allowed_ns = none;
    pod_condition = none;
    container_incl = codes ".*";
    container_excl = [];
    container_discovery = web_config.container_discovery;
  };
  permits = 5;
  formatter = format_json printer;
  no_follow_pods = some [];
}

web_is_prepared :
    prepare printer {J = Unit {0}}
      (λ e. [])
      (λ s. ok tt)
      (λ s. ok tt)
      client
      empty_list
      (codes "dev")
      web_config
      (record { triggered = false; cancelled = false })
    ≡ ok web_prepared
unfolding prepare build split_once plan_config from_run_config try_new build_line_formatter
    wrap_formatter_with_stern_highlight list_pods_paginated api_scope color_assign_opts
    needs_json_annotation log_request_permits format_json line_formatter
web_is_prepared = refl
