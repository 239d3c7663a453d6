-- ===== src/Runtime/Registry/Reconcile.antt =====
-- crates/rustern-core/src/runtime/registry.rs: what reconciling a snapshot, reconciling a pod and
-- removing a pod do to the attached streams.
use rustern.Common.{
  ℕ, ◌≡◌, ◌∙◌, true, not, ◌&&◌, ◌||◌, List, none, some, is_some, ap, arith, nat_eq, Text, text_eq,
  filter,
}
use rustern.Common.Sets.{contains, from_list, contains-filter, contains-from_list}
use rustern.Common.Maps.{lookup}
use rustern.Kube.{Pod}
use rustern.Source.{SourceKey, key_eq}
use rustern.Discovery.PodReconcile.{reconcile, contains-to_add, contains-to_drop}
use rustern.Discovery.ContainerKeys.{or_empty}
use rustern.Runtime.Registry.{
  PodStreamRegistry, is_of_pod, is_named, is_removed_with, keys_for_pod_locator, remove_pod,
  reconcile_snapshot, reconcile_pod,
}
use rustern.Runtime.Registry.Laws.{
  IsConsistent, apply_diff-IsConsistent, drop_keys-IsConsistent, contains-apply_diff,
  lookup-apply_diff, contains-drop_keys, lookup-drop_keys, contains-cancelled,
}

module _ (hash : SourceKey → ℕ) where
  -- After a snapshot is reconciled, exactly its streams are active, the registry is consistent if it
  -- was, and a stream that was active before keeps the token that it had.
  pub reconcile_snapshot-active :
      (snapshot : List SourceKey) (r : PodStreamRegistry)
      → IsConsistent r
      → IsConsistent (reconcile_snapshot hash snapshot r)
        × ((k : SourceKey)
            → (contains k (reconcile_snapshot hash snapshot r).active ≡ contains k snapshot)
              × (contains k r.active ≡ true
                  → contains k snapshot ≡ true
                  → lookup k (reconcile_snapshot hash snapshot r).tokens ≡ lookup k r.tokens))
  unfolding reconcile_snapshot
  reconcile_snapshot-active snapshot r c = (
    apply_diff-IsConsistent hash (reconcile r.active snapshot) r c,
    λ k. (
      ground (
        arith,
        contains-apply_diff hash k (reconcile r.active snapshot) r,
        contains-to_add k r.active snapshot,
        contains-to_drop k r.active snapshot,
      ),
      λ a s.
          lookup-apply_diff hash k (reconcile r.active snapshot) r a
            (ground (arith, contains-to_drop k r.active snapshot)),
    ),
  )

  contains-current :
      (context : Text) (pod : Pod) (r : PodStreamRegistry) (k : SourceKey)
      → contains k (
          from_list (
            keys_for_pod_locator context
              (or_empty pod.metadata.namespace)
              (or_empty pod.metadata.name)
              none
              r))
        ≡ (contains k r.active && is_named context pod k)
  unfolding keys_for_pod_locator is_named
  contains-current context pod r k =
      let p =
        is_of_pod context (or_empty pod.metadata.namespace) (or_empty pod.metadata.name) none in
      contains-from_list k (filter p r.active) ∙ contains-filter p k r.active

  -- After a pod is reconciled, exactly its wanted streams are active among those of that pod, under
  -- its present uid or another; the streams of other pods are as before; the registry is consistent
  -- if it was; and an active stream that is wanted, or is of another pod, keeps its token.
  pub reconcile_pod-active :
      (context : Text) (pod : Pod) (desired : List SourceKey) (r : PodStreamRegistry)
      → IsConsistent r
      → IsConsistent (reconcile_pod hash context pod desired r)
        × ((k : SourceKey)
            → (contains k (reconcile_pod hash context pod desired r).active
                ≡ (contains k desired || (contains k r.active && not (is_named context pod k))))
              × (contains k r.active ≡ true
                  → (contains k desired || not (is_named context pod k)) ≡ true
                  → lookup k (reconcile_pod hash context pod desired r).tokens ≡ lookup k r.tokens))
  unfolding reconcile_pod
  reconcile_pod-active context pod desired r c =
      let current = from_list (
        keys_for_pod_locator context (or_empty pod.metadata.namespace) (or_empty pod.metadata.name)
          none r) in
      (
        apply_diff-IsConsistent hash (reconcile current desired) r c,
        λ k. (
          ground (
            arith,
            contains-apply_diff hash k (reconcile current desired) r,
            contains-to_add k current desired,
            contains-to_drop k current desired,
            contains-current context pod r k,
          ),
          λ a s. lookup-apply_diff hash k (reconcile current desired) r a (
              ground (arith, contains-to_drop k current desired, contains-current context pod r k)),
        ),
      )

  -- Removing a pod takes its streams, and no other, out of the active set, and the token of an attached
  -- stream is cancelled exactly if the stream is one of them: the rest keep their tokens, and these live on.
  -- If the pod has a uid, its streams are those of the uid. The registry stays consistent.
  pub remove_pod-active :
      (context : Text) (pod : Pod) (r : PodStreamRegistry)
      → IsConsistent r
      → IsConsistent (remove_pod hash context pod r)
        × ((k : SourceKey)
            → (contains k (remove_pod hash context pod r).active
                ≡ (contains k r.active && not (is_removed_with context pod k)))
              × (contains k (remove_pod hash context pod r).active ≡ true
                  → lookup k (remove_pod hash context pod r).tokens ≡ lookup k r.tokens)
              × ((t : ℕ)
                  → lookup k r.tokens ≡ some t
                  → contains t (remove_pod hash context pod r).cancelled
                    ≡ is_removed_with context pod k))
  unfolding remove_pod keys_for_pod_locator is_removed_with
  remove_pod-active context pod r c =
      let p =
        is_of_pod context (or_empty pod.metadata.namespace) (or_empty pod.metadata.name)
          pod.metadata.uid in
      (
        drop_keys-IsConsistent hash (filter p r.active) r c,
        λ k. (
          ground (
            arith,
            contains-drop_keys hash k (filter p r.active) r,
            contains-filter p k r.active,
          ),
          λ a.
              lookup-drop_keys hash k (filter p r.active) r
                (ground (arith, contains-drop_keys hash k (filter p r.active) r)),
          λ t h. ground (
            arith,
            contains-cancelled hash (filter p r.active) r k t c h,
            contains-filter p k r.active,
            c.token_of k,
            ap (λ o. is_some o) h,
          ),
        ),
      )
