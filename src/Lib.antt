-- ===== src/Lib.antt =====
-- rustern follows the logs of many Kubernetes pods. These files model what its flags ask for, which
-- streams are open, what each line becomes and how it is written, and how a run counts and ends.
--
-- The flags (src/cli/args.rs) are validated (src/cli/validate.rs) and become a configuration
-- (src/run_config/mod.rs, src/run_defaults.rs); the cluster, its user and the namespace come from
-- the kubeconfig (discovery/context.rs and discovery/exec_resolver.rs, like all paths that do not
-- begin with src/ below crates/rustern-core/src). A run (runtime/run.rs) finds the selectors of the
-- query (discovery/workload_selector.rs, discovery/pod_list.rs), builds the pipeline, and starts
-- its tasks.
--
-- A watch of pods (runtime/watch.rs) feeds the lifecycle (runtime/pod_lifecycle.rs), which asks the
-- admission policy (runtime/watch_admission.rs) and the discovery of containers
-- (discovery/container_keys.rs), keeps the metadata of the pods (runtime/pod_meta_cache.rs), and
-- reconciles the registry of streams (runtime/registry.rs). Each stream has a task
-- (runtime/attach.rs) that opens the log (source/pod_log.rs), wraps it in a stream that reports its
-- lines and its end (runtime/cursor_service.rs), and gives it to the multiplexer (runtime/mux.rs).
-- The rows go through the pipeline (runtime/spec.rs and pipeline/) and the forwarder
-- (runtime/forward.rs) to the renderer (render/); runtime/mux_forward_core.rs puts these together.
-- How the tasks ended decides the exit code (src/main.rs).
--
-- Files, with paths below crates/rustern-core/src except those that begin with src/:
--   Common            lists, maps, sets, orders and texts that the parts share
--   Display           format_display.rs: the styles and zones of timestamps
--   RegexLimits       regex_limits.rs
--   Kube              the API objects, cut down to the fields that are read
--   Source            source/mod.rs; PodMeta: source/pod_meta.rs; PodLog, LogLine: source/pod_log.rs;
--                     LogLine.Stream: PodLogSource of the same file;
--                     Retry: source/retry.rs and log_stream_with_retry
--   Pipeline          Stages: pipeline/, its child Level the words for levels, and Json
--                     source/parsed_json.rs; StageOrder: pipeline/stage_order.rs;
--                     Spec: apply_pipeline of runtime/spec.rs; Build: its builder and
--                     from_run_config; Meaning: the pipeline without an order of stages;
--                     Filters, Assembly, Rows, Run, Levels: proofs
--   Discovery         PodReconcile, ContainerKeys, PodCondition, Resource, RunResolution,
--                     PodList, WorkloadSelector, Context, ExecResolver: the files of these names
--                     in discovery/
--   Runtime           Shards, CursorStore: runtime/cursor_store.rs; StreamEnd, CursorService:
--                     runtime/cursor_service.rs; PodMetaCache, WatchAdmission, Registry, Attach, Mux,
--                     ListPods, Config: the files of these names in runtime/; Lifecycle:
--                     pod_lifecycle.rs and watch.rs; Stats, Forward: runtime/forward.rs; Core:
--                     runtime/mux_forward_core.rs; Run: runtime/run.rs, and the exit codes of
--                     src/main.rs
--   Render            render/mod.rs and the formatters; Json: render/json_renderer.rs and
--                     render/ext_json_renderer.rs; Highlight: render/highlight.rs; Setup:
--                     render/setup.rs; Task: the render task
--   Cli               src/cli/args.rs; Validate: src/cli/validate.rs; RunConfig:
--                     src/run_config/mod.rs and src/run_defaults.rs; Main: src/main.rs
--   Tests             in each part: the concrete inputs on which the theorems are applied
--
-- How the code is modelled. A struct is a record and an enum a data type, with the names of the
-- code; a method that changes its object is a function from the object to the object. A text is the
-- list of its code points, and a line of the log API the list of its bytes. A HashMap is an
-- association list, and a HashSet a list, each read through its test; the theorems do not depend on
-- their order. A time is the number of nanoseconds since the earliest instant of chrono. A u64
-- counter wraps at 2 ^ 64. A task is a function over the list of what its `select!` takes, one
-- entry for each turn; the answers of channels, semaphores, tokens and the API are part of the
-- entry. A cancellation token of a stream is a number. In Runtime.Core the multiplexer, the pipeline and
-- the forwarder take their turns in any order, and share the token that the exit watch cancels.
--
-- Other crates are parameters: the regexes, serde_json, jaq and seahash are the fields of
-- Pipeline.External; the terminal's escapes, the date formats and the printing of JSON those of
-- Render.Printing.Printer; the parsers and compilers that the flags go through those of Cli.Host;
-- the answers of the API on workloads those of Discovery.WorkloadSelector.Client. The hashes of the
-- sharded maps, the UTF-8 and date functions of a line, the random delay, the writer of the output,
-- the plugin that is run and the other API calls are arguments of what uses them.
--
-- Bounds: the flush before a reconnect is tried 16 times, a start five times again, and a list has
-- at most 1000 pages, as in the code. The retry loop of Source.Retry has a number of turns; as many
-- as the code has attempts are enough. The attach loop and the other tasks go on as long as there
-- are inputs.
--
-- Not modelled: the spawning and joining of the tasks (runtime/run.rs, runtime/watch_ctx.rs,
-- source/log_opener.rs), which only use tokio; the parsing of the arguments, which is clap; the
-- making of the client (build_client), which is the kube crate; and log messages of the program.
pub mod Common
pub mod Display
pub mod RegexLimits
pub mod Kube
pub mod Source
pub mod Pipeline
pub mod Discovery
pub mod Runtime
pub mod Render
pub mod Cli
