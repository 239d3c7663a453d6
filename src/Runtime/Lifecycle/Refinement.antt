-- ===== src/Runtime/Lifecycle/Refinement.antt =====
-- crates/rustern-core/src/runtime/watch.rs: the watch task keeps exactly the streams that the events
-- so far ask for.
use rustern.Common.{
  ◌≡◌, refl, ◌∙◌, ap, Bool, not, ◌&&◌, ◌||◌, List, [], ◌∷◌, ◌++◌, arith, any, if◌then◌else◌,
  Bool-cases, inl, inr,
}
use rustern.Common.Sets.{contains, from_list, contains-from_list}
use rustern.Kube.{Pod}
use rustern.Source.{SourceKey, key_eq}
use rustern.Runtime.WatchAdmission.{
  admit_pod, admit_streams, collect_snapshot, is_admitted, contains-collect_snapshot,
}
use rustern.Runtime.Registry.{is_named, is_removed_with}
use rustern.Runtime.Registry.Laws.{IsConsistent}
use rustern.Runtime.Registry.Reconcile.{
  reconcile_snapshot-active, reconcile_pod-active, remove_pod-active,
}
use rustern.Runtime.Lifecycle.{
  PodLifecycle, Event, delete, apply, init, init_apply, init_done, WatchItem, cancelled, closed,
  failed, event, WatchCtx, on_delete, on_apply, on_init_begin, on_init_apply, on_init_snapshot,
  on_init_done, on_event, watch_loop,
}

-- The view of the watch as a set of streams, given by its test, and the pods listed so far.
pub record Wanted : Type 0 where
  pub has : SourceKey → Bool
  pub listed : List Pod

module _ (ctx : WatchCtx) where
  without_pod : Pod → (SourceKey → Bool) → SourceKey → Bool
  without_pod pod has k = has k && not (is_removed_with ctx.policy.context_name pod k)

  with_pod : Pod → (SourceKey → Bool) → SourceKey → Bool
  with_pod pod has k =
      contains k (admit_streams ctx.is_match ctx.policy pod)
      || (has k && not (is_named ctx.policy.context_name pod k))

  -- An admitted pod replaces the streams of its name; any other pod loses its streams; the end of a
  -- list replaces all streams by those of the listed pods.
  unfoldable pub want : Event → Wanted → Wanted
  unfolding without_pod with_pod
  want (delete pod) w = record w { has = without_pod pod w.has }
  want (apply pod) w = record w {
    has =
        if admit_pod ctx.is_match ctx.policy pod then with_pod pod w.has else without_pod pod w.has;
  }
  want init w = record w { listed = [] }
  want (init_apply pod) w = record w { listed = w.listed ++ (pod ∷ []) }
  want init_done w = record {
    has = λ k. any (is_admitted ctx.is_match ctx.policy k) w.listed;
    listed = [];
  }

  unfoldable pub want_all : List WatchItem → Wanted → Wanted
  unfolding want
  want_all [] w = w
  want_all (cancelled ∷ items) w = w
  want_all (closed ∷ items) w = w
  want_all (failed ∷ items) w = want_all items w
  want_all (event e ∷ items) w = want_all items (want e w)

-- A lifecycle that keeps exactly the wanted streams.
pub record Keeps (l : PodLifecycle) (w : Wanted) : Type 0 where
  pub consistent : IsConsistent l.registry
  pub keeps : (k : SourceKey) → contains k l.registry.active ≡ w.has k
  pub pending : l.pending_pods ≡ w.listed

module _ (ctx : WatchCtx) where
  on_delete-Keeps :
      (pod : Pod) (l : PodLifecycle) (w : Wanted)
      → Keeps l w
      → Keeps (on_delete ctx pod l) (want ctx (delete pod) w)
  unfolding on_delete want without_pod
  on_delete-Keeps pod l w h =
      let (c, f) =
        remove_pod-active ctx.key_hash ctx.policy.context_name pod l.registry h.consistent in
      record {
        consistent = c;
        keeps = λ k.
            (f k).0
            ∙ ap (λ b. b && not (is_removed_with ctx.policy.context_name pod k)) (h.keeps k);
        pending = h.pending;
      }

  on_apply-Keeps :
      (pod : Pod) (l : PodLifecycle) (w : Wanted)
      → Keeps l w
      → Keeps (on_apply ctx pod l) (want ctx (apply pod) w)
  unfolding on_apply want with_pod
  on_apply-Keeps pod l w h = elim (Bool-cases (admit_pod ctx.is_match ctx.policy pod)) [
    | inl e ↦
        let (c, f) =
          reconcile_pod-active ctx.key_hash ctx.policy.context_name pod
            (from_list (admit_streams ctx.is_match ctx.policy pod)) l.registry h.consistent in
        rw e (record {
          consistent = c;
          keeps = λ k. ground (
            arith,
            (f k).0,
            h.keeps k,
            contains-from_list k (admit_streams ctx.is_match ctx.policy pod),
          );
          pending = h.pending;
        })
    | inr n ↦ rw n (on_delete-Keeps pod l w h)
  ]

  on_event-Keeps :
      (e : Event) (l : PodLifecycle) (w : Wanted)
      → Keeps l w
      → Keeps (on_event ctx e l) (want ctx e w)
  unfolding on_event want on_init_begin on_init_apply on_init_done on_init_snapshot
  on_event-Keeps (delete pod) l w h = on_delete-Keeps pod l w h
  on_event-Keeps (apply pod) l w h = on_apply-Keeps pod l w h
  on_event-Keeps init l w h = record { consistent = h.consistent; keeps = h.keeps; pending = refl }
  on_event-Keeps (init_apply pod) l w h = record {
    consistent = h.consistent;
    keeps = h.keeps;
    pending = ap (λ ps. ps ++ (pod ∷ [])) h.pending;
  }
  on_event-Keeps init_done l w h =
      let snap = collect_snapshot ctx.is_match ctx.policy l.pending_pods in
      let (c, f) = reconcile_snapshot-active ctx.key_hash snap l.registry h.consistent in
      record {
        consistent = c;
        keeps = λ k.
            (f k).0
            ∙ contains-collect_snapshot ctx.is_match ctx.policy k l.pending_pods
            ∙ ap (any (is_admitted ctx.is_match ctx.policy k)) h.pending;
        pending = refl;
      }

  -- Whatever the events, the errors of the watch and its end: a lifecycle that keeps the wanted
  -- streams still keeps them afterwards.
  pub watch_loop-Keeps :
      (items : List WatchItem) (l : PodLifecycle) (w : Wanted)
      → Keeps l w
      → Keeps (watch_loop ctx items l) (want_all ctx items w)
  unfolding watch_loop want_all
  watch_loop-Keeps [] l w h = h
  watch_loop-Keeps (cancelled ∷ items) l w h = h
  watch_loop-Keeps (closed ∷ items) l w h = h
  watch_loop-Keeps (failed ∷ items) l w h = watch_loop-Keeps items l w h
  watch_loop-Keeps (event e ∷ items) l w h =
      watch_loop-Keeps items (on_event ctx e l) (want ctx e w) (on_event-Keeps e l w h)
