-- ===== src/Runtime/PodMetaCache.antt =====
-- crates/rustern-core/src/runtime/pod_meta_cache.rs: the metadata of each pod that the watch has seen.
use rustern.Common.{
  ℕ, ◌≡◌, refl, ◌∙◌, ap, Bool, true, false, List, [], Option, none, some, arith, Text, text_eq,
  ◌==◌, if◌then◌else◌, Bool-cases, inl, inr, ◌↔◌, sym, beq→eq,
}
use mathlib.Core.Option
use rustern.Common.Sets.{contains}
use rustern.Kube.{Pod}
use rustern.Source.{SourceKey}
use rustern.Source.PodMeta.{
  PodLocator, locator_eq, PodMetaSnapshot, try_from_pod, from_source_key,
  pod_meta_snapshot_from_pod,
}
use rustern.Runtime.Shards.{
  Shards, IsSharded, get, insert, remove, clear, prune, get-insert, get-remove, get-prune,
  insert-IsSharded, remove-IsSharded,
}

abbrev pub PodMetaCache : Type 0
PodMetaCache = Shards PodLocator PodMetaSnapshot

-- Whether a locator is the given one.
unfoldable pub is_located : Option PodLocator → PodLocator → Bool
is_located none loc = false
is_located (some l) loc = l == loc

module _ (hash : PodLocator → ℕ) (same : PodMetaSnapshot → PodMetaSnapshot → Bool) where
  -- `same` is the derived `PartialEq` of the snapshots.
  is_current : Option PodMetaSnapshot → PodMetaSnapshot → Bool
  is_current none snapshot = false
  is_current (some prev) snapshot = same prev snapshot

  update_entry : Option PodLocator → PodMetaSnapshot → PodMetaCache → PodMetaCache
  unfolding is_current
  update_entry none snapshot cache = cache
  update_entry (some locator) snapshot cache =
      if is_current (get hash locator cache) snapshot
      then cache
      else insert hash locator snapshot cache

  unfoldable pub update_from_pod : Text → Pod → PodMetaCache → PodMetaCache
  unfolding update_entry
  update_from_pod context pod cache =
      update_entry (try_from_pod context pod) (pod_meta_snapshot_from_pod pod) cache

  unfoldable pub clear_meta : PodMetaCache → PodMetaCache
  clear_meta cache = clear hash cache

  unfoldable pub prune_meta : List PodLocator → PodMetaCache → PodMetaCache
  prune_meta keep cache = prune hash (λ loc. contains loc keep) cache

  remove_entry : Option PodLocator → PodMetaCache → PodMetaCache
  remove_entry none cache = cache
  remove_entry (some locator) cache = remove hash locator cache

  unfoldable pub remove_pod_meta : Text → Pod → PodMetaCache → PodMetaCache
  unfolding remove_entry
  remove_pod_meta context pod cache = remove_entry (try_from_pod context pod) cache

  unfoldable pub lookup_meta : SourceKey → PodMetaCache → PodMetaSnapshot
  lookup_meta key cache =
      Option.get_or (get hash (from_source_key key) cache) (record { node = none; labels = [] })

  module _ (same_iff : (a b : PodMetaSnapshot) → (same a b ≡ true) ↔ (a ≡ b)) where
    is_current-eq :
        (o : Option PodMetaSnapshot) (s : PodMetaSnapshot) → is_current o s ≡ true → o ≡ some s
    unfolding is_current
    is_current-eq none s h = ground arith
    is_current-eq (some prev) s h = ap some ((same_iff prev s).0 h)

    current-get :
        (l loc : PodLocator) (snapshot : PodMetaSnapshot) (cache : PodMetaCache)
        → get hash l cache ≡ some snapshot
        → get hash loc cache ≡ (if l == loc then some snapshot else get hash loc cache)
    current-get l loc snapshot cache h = elim (Bool-cases (l == loc)) [
      | inl e ↦ rw e (ap (λ j. get hash j cache) (sym (beq→eq e)) ∙ h)
      | inr n ↦ rw n refl
    ]

    update_entry-get :
        (l : Option PodLocator) (snapshot : PodMetaSnapshot) (cache : PodMetaCache)
        (loc : PodLocator)
        → IsSharded cache
        → (get hash loc (update_entry l snapshot cache)
            ≡ (if is_located l loc then some snapshot else get hash loc cache))
          × IsSharded (update_entry l snapshot cache)
    unfolding update_entry is_located
    update_entry-get none snapshot cache loc h = (refl, h)
    update_entry-get (some l) snapshot cache loc h =
        elim (Bool-cases (is_current (get hash l cache) snapshot)) [
          | inl e ↦
              rw e
                (current-get l loc snapshot cache (is_current-eq (get hash l cache) snapshot e), h)
          | inr n ↦
              rw n
                (get-insert hash l loc snapshot cache h, insert-IsSharded hash l snapshot cache h)
        ]

    -- Whatever the cache had, after an update it has the metadata of the pod under the locator of
    -- the pod, every other entry is as before, and the shards are intact; a pod without a locator
    -- changes nothing.
    pub get-update_from_pod :
        (context : Text) (pod : Pod) (cache : PodMetaCache) (loc : PodLocator)
        → IsSharded cache
        → (get hash loc (update_from_pod context pod cache) ≡ (
            if is_located (try_from_pod context pod) loc
            then some (pod_meta_snapshot_from_pod pod)
            else get hash loc cache))
          × IsSharded (update_from_pod context pod cache)
    unfolding update_from_pod
    get-update_from_pod context pod cache loc h = update_entry-get _ _ cache loc h

  remove_entry-get :
      (l : Option PodLocator) (cache : PodMetaCache) (loc : PodLocator)
      → IsSharded cache
      → (get hash loc (remove_entry l cache)
          ≡ (if is_located l loc then none else get hash loc cache))
        × IsSharded (remove_entry l cache)
  unfolding remove_entry is_located
  remove_entry-get none cache loc h = (refl, h)
  remove_entry-get (some l) cache loc h =
      (get-remove hash l loc cache h, remove-IsSharded hash l cache h)

  -- A removed pod has no metadata, and every other entry is as before.
  pub get-remove_pod_meta :
      (context : Text) (pod : Pod) (cache : PodMetaCache) (loc : PodLocator)
      → IsSharded cache
      → (get hash loc (remove_pod_meta context pod cache)
          ≡ (if is_located (try_from_pod context pod) loc then none else get hash loc cache))
        × IsSharded (remove_pod_meta context pod cache)
  unfolding remove_pod_meta
  get-remove_pod_meta context pod cache loc h = remove_entry-get _ cache loc h

  -- Pruning keeps the entries of the given locators, and no other.
  pub get-prune_meta :
      (keep : List PodLocator) (cache : PodMetaCache) (loc : PodLocator)
      → get hash loc (prune_meta keep cache)
        ≡ (if contains loc keep then get hash loc cache else none)
  unfolding prune_meta
  get-prune_meta keep cache loc = get-prune hash (λ l. contains l keep) loc cache
