-- ===== src/Runtime/Tests.antt =====
-- Pods, events and registries to run the watch of crates/rustern-core/src/runtime on.
pub mod Streams
pub mod Metrics
pub mod Composed
pub mod Stores
use rustern.Common.{
  ℕ, ◌≡◌, refl, Bool, true, false, not, ◌&&◌, ◌||◌, List, [], ◌∷◌, Option, none, some, arith, Text,
  nat_eq, codes, text_beq, any, if◌then◌else◌,
}
use rustern.Common.Sets.{contains}
use rustern.Common.Maps.{lookup}
use rustern.Source.{SourceKey, key_eq}
use rustern.Discovery.Tests.{web_key, web_pod, main_only, app_and_proxy}
use rustern.Runtime.CursorStore.{new}
use rustern.Runtime.WatchAdmission.{
  WatchAdmissionPolicy, collect_snapshot, is_admitted, contains-collect_snapshot,
}
use rustern.Runtime.Registry.{
  PodStreamRegistry, empty_registry, reconcile_snapshot, reconcile_pod, remove_pod, is_named,
  is_removed_with,
}
use rustern.Runtime.Registry.Laws.{IsConsistent}
use rustern.Runtime.Registry.Reconcile.{
  reconcile_snapshot-active, reconcile_pod-active, remove_pod-active,
}
use rustern.Runtime.Lifecycle.{
  PodLifecycle, WatchCtx, WatchItem, event, failed, apply, delete, init, init_apply, init_done,
  watch_loop,
}
use rustern.Runtime.Lifecycle.Refinement.{Wanted, want_all, Keeps, watch_loop-Keeps}

-- Every container but `proxy`, in every namespace.
abbrev no_proxy : WatchAdmissionPolicy Text
no_proxy = record {
  context_name = codes "dev";
  pod_regex = none;
  exclude_pod = [];
  allowed_ns = none;
  pod_condition = none;
  container_incl = [];
  container_excl = codes "proxy" ∷ [];
  container_discovery = main_only;
}

-- The empty regex matches every text, and any other one its own text.
abbrev matches : Text → Text → Bool
matches [] t = true
matches (c ∷ r) t = text_beq (c ∷ r) t

abbrev watch_ctx : WatchCtx
watch_ctx = record {
  Regex = Text;
  is_match = matches;
  policy = no_proxy;
  key_hash = λ k. 3;
  locator_hash = λ l. 5;
  same_meta = λ a b. false;
}

abbrev idle : PodStreamRegistry
idle = empty_registry new

idle-IsConsistent : IsConsistent idle
unfolding lookup contains
idle-IsConsistent = record {
  token_of = λ k. refl;
  made = λ k t h. absurd (ground arith);
  live = λ k t h. refl;
  unique = λ j k t h g. absurd (ground arith);
  past = λ t h. absurd (ground arith);
}

abbrev started : PodLifecycle
started = record { registry = idle; pending_pods = []; pod_meta = [] }

abbrev nothing : Wanted
nothing = record { has = λ k. false; listed = [] }

started-Keeps : Keeps started nothing
unfolding contains
started-Keeps = record { consistent = idle-IsConsistent; keeps = λ k. refl; pending = refl }

abbrev watched : List WatchItem
watched =
    event init
    ∷ event (init_apply web_pod)
    ∷ event init_done
    ∷ failed
    ∷ event (apply web_pod)
    ∷ event (delete web_pod)
    ∷ []

watch_loop-Keeps_example :
    Keeps (watch_loop watch_ctx watched started) (want_all watch_ctx watched nothing)
watch_loop-Keeps_example = watch_loop-Keeps watch_ctx watched started nothing started-Keeps

-- A registry with the two streams of the pod.
abbrev two_streams : PodStreamRegistry
two_streams = reconcile_snapshot (λ k. 3) app_and_proxy idle

reconcile_snapshot-active_example :
    IsConsistent (reconcile_snapshot (λ k. 3) app_and_proxy idle)
    × ((k : SourceKey)
        → (contains k (reconcile_snapshot (λ k. 3) app_and_proxy idle).active
            ≡ contains k app_and_proxy)
          × (contains k idle.active ≡ true
              → contains k app_and_proxy ≡ true
              → lookup k (reconcile_snapshot (λ k. 3) app_and_proxy idle).tokens
                ≡ lookup k idle.tokens))
reconcile_snapshot-active_example =
    reconcile_snapshot-active (λ k. 3) app_and_proxy idle idle-IsConsistent

two_streams-IsConsistent : IsConsistent two_streams
two_streams-IsConsistent =
    (reconcile_snapshot-active (λ k. 3) app_and_proxy idle idle-IsConsistent).0

abbrev app_only : List SourceKey
app_only = web_key (codes "app") ∷ []

reconcile_pod-active_example :
    IsConsistent (reconcile_pod (λ k. 3) (codes "dev") web_pod app_only two_streams)
    × ((k : SourceKey)
        → (contains k (reconcile_pod (λ k. 3) (codes "dev") web_pod app_only two_streams).active ≡ (
            contains k app_only
            || (contains k two_streams.active && not (is_named (codes "dev") web_pod k))))
          × (contains k two_streams.active ≡ true
              → (contains k app_only || not (is_named (codes "dev") web_pod k)) ≡ true
              → lookup k (reconcile_pod (λ k. 3) (codes "dev") web_pod app_only two_streams).tokens
                ≡ lookup k two_streams.tokens))
reconcile_pod-active_example =
    reconcile_pod-active (λ k. 3) (codes "dev") web_pod app_only two_streams
      two_streams-IsConsistent

remove_pod-active_example :
    IsConsistent (remove_pod (λ k. 3) (codes "dev") web_pod two_streams)
    × ((k : SourceKey)
        → (contains k (remove_pod (λ k. 3) (codes "dev") web_pod two_streams).active
            ≡ (contains k two_streams.active && not (is_removed_with (codes "dev") web_pod k)))
          × (contains k (remove_pod (λ k. 3) (codes "dev") web_pod two_streams).active ≡ true
              → lookup k (remove_pod (λ k. 3) (codes "dev") web_pod two_streams).tokens
                ≡ lookup k two_streams.tokens)
          × ((t : ℕ)
              → lookup k two_streams.tokens ≡ some t
              → contains t (remove_pod (λ k. 3) (codes "dev") web_pod two_streams).cancelled
                ≡ is_removed_with (codes "dev") web_pod k))
remove_pod-active_example =
    remove_pod-active (λ k. 3) (codes "dev") web_pod two_streams two_streams-IsConsistent
