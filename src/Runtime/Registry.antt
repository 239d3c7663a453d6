-- ===== src/Runtime/Registry.antt =====
-- crates/rustern-core/src/runtime/registry.rs: the streams that are attached, and the tokens that
-- cancel them.
pub mod Laws
pub mod Reconcile
use rustern.Common.{
  ℕ, suc, ◌+◌, ◌≡◌, Bool, true, false, ◌&&◌, ◌||◌, List, [], ◌∷◌, Option, none, some, Text, text_eq,
  Eq, ◌==◌, filter, if◌then◌else◌,
}
use rustern.Common.Sets.{contains, insert, remove, from_list}
use rustern.Common.Maps.{lookup, put, delete}
use rustern.Kube.{Pod}
use rustern.Source.{SourceKey, key_beq, key_eq}
use rustern.Discovery.PodReconcile.{reconcile, ReconcileDiff}
use rustern.Discovery.ContainerKeys.{or_empty}
use rustern.Runtime.CursorStore.{ReconnectCursorStore, remove_cursor}

-- The registry, and what it reaches through `AttachDeps`: the cursors, the `MuxCmd::Remove` commands
-- that it has sent (the last one first), the tokens made and cancelled so far (a token is its number),
-- and the attach tasks that it has started.
pub record PodStreamRegistry : Type 0 where
  pub active : List SourceKey
  pub tokens : List (SourceKey × ℕ)
  pub cursors : ReconnectCursorStore
  pub removals : List SourceKey
  pub next_token : ℕ
  pub cancelled : List ℕ
  pub spawned : List (SourceKey × ℕ)

abbrev pub empty_registry : ReconnectCursorStore → PodStreamRegistry
empty_registry cursors = record {
  active = [];
  tokens = [];
  cursors = cursors;
  removals = [];
  next_token = 0;
  cancelled = [];
  spawned = [];
}

has_uid : Option Text → SourceKey → Bool
has_uid none k = true
has_uid (some u) k = k.uid == u

unfoldable pub is_of_pod : Text → Text → Text → Option Text → SourceKey → Bool
unfolding has_uid
is_of_pod context namespace pod_name uid k =
    (k.context == context) && (k.namespace == namespace) && (k.pod == pod_name) && has_uid uid k

unfoldable pub keys_for_pod_locator :
    Text → Text → Text → Option Text → PodStreamRegistry → List SourceKey
unfolding is_of_pod
keys_for_pod_locator context namespace pod_name uid r =
    filter (is_of_pod context namespace pod_name uid) r.active

unfoldable pub cancel : Option ℕ → List ℕ → List ℕ
cancel none ts = ts
cancel (some t) ts = t ∷ ts

module _ (hash : SourceKey → ℕ) where
  unfoldable pub drop_key : SourceKey → PodStreamRegistry → PodStreamRegistry
  unfolding cancel
  drop_key k r = record r {
    tokens = delete k r.tokens;
    cancelled = cancel (lookup k r.tokens) r.cancelled;
    cursors = remove_cursor hash k r.cursors;
    active = remove k r.active;
    removals = k ∷ r.removals;
  }

  unfoldable pub drop_keys : List SourceKey → PodStreamRegistry → PodStreamRegistry
  unfolding drop_key
  drop_keys [] r = r
  drop_keys (k ∷ ks) r = drop_keys ks (drop_key k r)

unfoldable pub add_key : SourceKey → PodStreamRegistry → PodStreamRegistry
add_key k r = if contains k r.active then r else record r {
  active = insert k r.active;
  tokens = put k r.next_token r.tokens;
  next_token = suc r.next_token;
  spawned = (k, r.next_token) ∷ r.spawned;
}

unfoldable pub add_keys : List SourceKey → PodStreamRegistry → PodStreamRegistry
unfolding add_key
add_keys [] r = r
add_keys (k ∷ ks) r = add_keys ks (add_key k r)

module _ (hash : SourceKey → ℕ) where
  -- `context` is that of the admission policy.
  unfoldable pub remove_pod : Text → Pod → PodStreamRegistry → PodStreamRegistry
  unfolding drop_keys keys_for_pod_locator
  remove_pod context pod r =
      drop_keys hash
        (keys_for_pod_locator context (or_empty pod.metadata.namespace) (or_empty pod.metadata.name)
          pod.metadata.uid r)
        r

  unfoldable pub apply_diff : ReconcileDiff → PodStreamRegistry → PodStreamRegistry
  unfolding drop_keys add_keys
  apply_diff diff r = add_keys diff.to_add (drop_keys hash diff.to_drop r)

  unfoldable pub reconcile_snapshot : List SourceKey → PodStreamRegistry → PodStreamRegistry
  unfolding apply_diff reconcile
  reconcile_snapshot snapshot r = apply_diff (reconcile r.active snapshot) r

  unfoldable pub reconcile_pod : Text → Pod → List SourceKey → PodStreamRegistry → PodStreamRegistry
  unfolding apply_diff reconcile keys_for_pod_locator
  reconcile_pod context pod desired r =
      let current = from_list (
        keys_for_pod_locator context (or_empty pod.metadata.namespace) (or_empty pod.metadata.name)
          none r) in
      apply_diff (reconcile current desired) r

-- The streams of the pod of that context, namespace and name, under any uid.
unfoldable pub is_named : Text → Pod → SourceKey → Bool
unfolding is_of_pod
is_named context pod k =
    is_of_pod context (or_empty pod.metadata.namespace) (or_empty pod.metadata.name) none k

-- The streams that go when the pod is deleted: those of its uid, if it has one.
unfoldable pub is_removed_with : Text → Pod → SourceKey → Bool
unfolding is_of_pod
is_removed_with context pod k =
    is_of_pod context (or_empty pod.metadata.namespace) (or_empty pod.metadata.name)
      pod.metadata.uid k
