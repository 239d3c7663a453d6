-- ===== src/Runtime/Lifecycle.antt =====
-- crates/rustern-core/src/runtime/pod_lifecycle.rs and watch.rs: what each event of the pod watch does.
pub mod Refinement
use rustern.Common.{ℕ, ◌≡◌, Bool, true, false, List, [], ◌∷◌, ◌++◌, map, if◌then◌else◌}
use rustern.Common.Sets.{from_list}
use rustern.Kube.{Pod}
use rustern.Source.{SourceKey, key_eq}
use rustern.Source.PodMeta.{PodLocator, PodMetaSnapshot, from_source_key, locator_eq}
use rustern.Runtime.PodMetaCache.{
  PodMetaCache, update_from_pod, clear_meta, prune_meta, remove_pod_meta,
}
use rustern.Runtime.WatchAdmission.{
  WatchAdmissionPolicy, admit_pod, admit_streams, collect_snapshot,
}
use rustern.Runtime.Registry.{PodStreamRegistry, remove_pod, reconcile_snapshot, reconcile_pod}

-- The lifecycle, with the metadata cache of the context.
pub record PodLifecycle : Type 0 where
  pub registry : PodStreamRegistry
  pub pending_pods : List Pod
  pub pod_meta : PodMetaCache

-- `watcher::Event`.
pub data Event : Type 0 where
  delete apply init_apply : Pod → Event
  init init_done : Event

-- What the `select!` of the watch task takes next.
pub data WatchItem : Type 0 where
  cancelled closed failed : WatchItem
  event : Event → WatchItem

-- What the context fixes: the regex test, the hashes of the two stores, the comparison of metadata,
-- and the policy.
pub record WatchCtx : Type 1 where
  pub Regex : Type 0
  pub is_match : Regex → List ℕ → Bool
  pub policy : WatchAdmissionPolicy Regex
  pub key_hash : SourceKey → ℕ
  pub locator_hash : PodLocator → ℕ
  pub same_meta : PodMetaSnapshot → PodMetaSnapshot → Bool

module _ (ctx : WatchCtx) where
  update_meta : Pod → PodMetaCache → PodMetaCache
  unfolding update_from_pod
  update_meta pod cache =
      update_from_pod ctx.locator_hash ctx.same_meta ctx.policy.context_name pod cache

  unfoldable pub on_delete : Pod → PodLifecycle → PodLifecycle
  unfolding remove_pod_meta remove_pod
  on_delete pod l = record l {
    pod_meta =
        remove_pod_meta ctx.locator_hash ctx.same_meta ctx.policy.context_name pod l.pod_meta;
    registry = remove_pod ctx.key_hash ctx.policy.context_name pod l.registry;
  }

  unfoldable pub on_apply : Pod → PodLifecycle → PodLifecycle
  unfolding on_delete admit_pod admit_streams update_meta reconcile_pod
  on_apply pod l =
      if admit_pod ctx.is_match ctx.policy pod
      then record l {
        pod_meta = update_meta pod l.pod_meta;
        registry =
            reconcile_pod ctx.key_hash ctx.policy.context_name pod
              (from_list (admit_streams ctx.is_match ctx.policy pod)) l.registry;
      }
      else on_delete pod l

  unfoldable pub on_init_begin : PodLifecycle → PodLifecycle
  unfolding clear_meta
  on_init_begin l = record l {
    pending_pods = [];
    pod_meta = clear_meta ctx.locator_hash ctx.same_meta l.pod_meta;
  }

  unfoldable pub on_init_apply : Pod → PodLifecycle → PodLifecycle
  unfolding update_meta
  on_init_apply pod l = record l {
    pod_meta = update_meta pod l.pod_meta;
    pending_pods = l.pending_pods ++ (pod ∷ []);
  }

  update_all : List Pod → PodMetaCache → PodMetaCache
  unfolding update_meta
  update_all [] cache = cache
  update_all (pod ∷ pods) cache = update_all pods (update_meta pod cache)

  unfoldable pub on_init_snapshot : List Pod → PodLifecycle → PodLifecycle
  unfolding update_all collect_snapshot prune_meta reconcile_snapshot
  on_init_snapshot pods l =
      let snap = collect_snapshot ctx.is_match ctx.policy pods in
      let keep = from_list (map from_source_key snap) in
      record l {
        pod_meta = prune_meta ctx.locator_hash ctx.same_meta keep (update_all pods l.pod_meta);
        registry = reconcile_snapshot ctx.key_hash snap l.registry;
      }

  -- `mem::take` leaves no pending pods.
  unfoldable pub on_init_done : PodLifecycle → PodLifecycle
  unfolding on_init_snapshot
  on_init_done l = on_init_snapshot l.pending_pods (record l { pending_pods = [] })

  unfoldable pub on_event : Event → PodLifecycle → PodLifecycle
  unfolding on_delete on_apply on_init_begin on_init_apply on_init_done
  on_event (delete pod) l = on_delete pod l
  on_event (apply pod) l = on_apply pod l
  on_event init l = on_init_begin l
  on_event (init_apply pod) l = on_init_apply pod l
  on_event init_done l = on_init_done l

  -- The loop of `spawn_watch_task`.
  unfoldable pub watch_loop : List WatchItem → PodLifecycle → PodLifecycle
  unfolding on_event
  watch_loop [] l = l
  watch_loop (cancelled ∷ items) l = l
  watch_loop (closed ∷ items) l = l
  watch_loop (failed ∷ items) l = watch_loop items l
  watch_loop (event e ∷ items) l = watch_loop items (on_event e l)
