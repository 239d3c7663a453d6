-- ===== src/Runtime/WatchAdmission.antt =====
-- crates/rustern-core/src/runtime/watch_admission.rs: which pods and streams the watch admits.
use rustern.Common.{
  ◌≡◌, refl, Bool, true, false, not, ◌&&◌, ◌||◌, List, [], ◌∷◌, Option, none, some, arith, Text,
  text_eq, length, leb, any, filter, if◌then◌else◌, Bool-cases, inl, inr, Result, ok, ◌>>=◌, All,
}
use rustern.Common.Sets.{contains, insert, from_list, contains-insert, contains-filter}
use rustern.Kube.{Pod}
use rustern.Source.{SourceKey, key_eq}
use rustern.Discovery.ContainerKeys.{ContainerDiscoverOpts, keys_from_pod}
use rustern.Discovery.PodCondition.{PodConditionFilter, pod_matches_condition}

-- `R` is a compiled regex.
pub record WatchAdmissionPolicy (R : Type 0) : Type 0 where
  pub context_name : Text
  pub pod_regex : Option R
  pub exclude_pod : List R
  pub allowed_ns : Option (List Text)
  pub pod_condition : Option PodConditionFilter
  pub container_incl : R
  pub container_excl : List R
  pub container_discovery : ContainerDiscoverOpts

unfoldable pub resolve_allowed_ns : List Text → Bool → Option (List Text)
resolve_allowed_ns namespaces all_namespaces =
    if all_namespaces || leb (length namespaces) 1 then none else some (from_list namespaces)

module _ {R X : Type 0} (compile : Text → Result R X) where
  -- `collect` of results: the first error, if there is one.
  compile_all : List Text → Result (List R) X
  compile_all [] = ok []
  compile_all (p ∷ ps) = compile p >>= λ r. compile_all ps >>= λ rs. ok (r ∷ rs)

  unfoldable pub try_new :
      Text
      → Option R
      → List Text
      → List Text
      → Bool
      → Text
      → List Text
      → ContainerDiscoverOpts
      → Option PodConditionFilter
      → Result (WatchAdmissionPolicy R) X
  unfolding compile_all resolve_allowed_ns
  try_new context_name pod_regex exclude_pod namespaces all_namespaces container exclude_container
        container_discovery pod_condition =
      compile_all exclude_pod >>= λ excluded. compile container >>= λ incl.
      compile_all exclude_container >>= λ excl. ok (record {
        context_name = context_name;
        pod_regex = pod_regex;
        exclude_pod = excluded;
        allowed_ns = resolve_allowed_ns namespaces all_namespaces;
        pod_condition = pod_condition;
        container_incl = incl;
        container_excl = excl;
        container_discovery = container_discovery;
      })

  -- The pattern compiles.
  abbrev pub Compiles : Text → Type 0
  Compiles pattern = (re : R) × (compile pattern ≡ ok re)

  compile_all-Compiles :
      (ps : List Text) → All Compiles ps → (res : List R) × (compile_all ps ≡ ok res)
  unfolding compile_all
  compile_all-Compiles [] h = ([], refl)
  compile_all-Compiles (p ∷ ps) h =
      let (re, e) = h.0 in
      let (res, e') = compile_all-Compiles ps h.1 in (re ∷ res, rw (e, e') refl)

  -- The policy is built if its patterns compile.
  pub try_new-Compiles :
      (context_name : Text) (pod_regex : Option R) (exclude_pod namespaces : List Text)
      (all_namespaces : Bool) (container : Text) (exclude_container : List Text)
      (container_discovery : ContainerDiscoverOpts) (pod_condition : Option PodConditionFilter)
      → All Compiles exclude_pod
      → Compiles container
      → All Compiles exclude_container
      → (policy : WatchAdmissionPolicy R) × (try_new context_name pod_regex exclude_pod namespaces
            all_namespaces container exclude_container container_discovery pod_condition
          ≡ ok policy)
  unfolding try_new
  try_new-Compiles context_name pod_regex exclude_pod namespaces all_namespaces container
        exclude_container container_discovery pod_condition h (re, c) k =
      let (excluded, e) = compile_all-Compiles exclude_pod h in
      let (excl, e') = compile_all-Compiles exclude_container k in
      (
        record {
          context_name = context_name;
          pod_regex = pod_regex;
          exclude_pod = excluded;
          allowed_ns = resolve_allowed_ns namespaces all_namespaces;
          pod_condition = pod_condition;
          container_incl = re;
          container_excl = excl;
          container_discovery = container_discovery;
        },
        rw (e, c, e') refl,
      )

module _ {R : Type 0} (is_match : R → Text → Bool) where
  in_allowed : Option (List Text) → Text → Bool
  in_allowed none ns = true
  in_allowed (some allowed) ns = contains ns allowed

  matches_name : Option R → Text → Bool
  matches_name none name = true
  matches_name (some re) name = is_match re name

  matches_condition : Option PodConditionFilter → Pod → Bool
  matches_condition none pod = true
  matches_condition (some cond) pod = pod_matches_condition pod cond

  admit_named : WatchAdmissionPolicy R → Pod → Option Text → Option Text → Bool
  unfolding in_allowed matches_name matches_condition
  admit_named p pod none ns = false
  admit_named p pod (some name) none = false
  admit_named p pod (some name) (some ns) =
      if not (in_allowed p.allowed_ns ns)
      then false
      else if any (λ re. is_match re name) p.exclude_pod
      then false
      else if not (matches_name p.pod_regex name)
      then false
      else matches_condition p.pod_condition pod

  unfoldable pub admit_pod : WatchAdmissionPolicy R → Pod → Bool
  unfolding admit_named
  admit_pod p pod = admit_named p pod pod.metadata.name pod.metadata.namespace

  accepts_container : WatchAdmissionPolicy R → SourceKey → Bool
  accepts_container p k =
      is_match p.container_incl k.container
      && not (any (λ r. is_match r k.container) p.container_excl)

  unfoldable pub admit_streams : WatchAdmissionPolicy R → Pod → List SourceKey
  admit_streams p pod =
      filter (λ k. not (any (λ r. is_match r k.container) p.container_excl))
        (filter (λ k. is_match p.container_incl k.container)
          (keys_from_pod pod p.context_name p.container_discovery))

  insert_all : List SourceKey → List SourceKey → List SourceKey
  insert_all [] snap = snap
  insert_all (k ∷ ks) snap = insert_all ks (insert k snap)

  -- The `for` over the pods, from the keys found so far.
  snapshot_from : WatchAdmissionPolicy R → List Pod → List SourceKey → List SourceKey
  unfolding insert_all
  snapshot_from p [] snap = snap
  snapshot_from p (pod ∷ pods) snap =
      snapshot_from p pods (if admit_pod p pod then insert_all (admit_streams p pod) snap else snap)

  unfoldable pub collect_snapshot : WatchAdmissionPolicy R → List Pod → List SourceKey
  unfolding snapshot_from
  collect_snapshot p pods = snapshot_from p pods []

  -- A key is a stream that the policy admits of the pod.
  unfoldable pub is_admitted : WatchAdmissionPolicy R → SourceKey → Pod → Bool
  unfolding accepts_container
  is_admitted p k pod =
      admit_pod p pod
      && (contains k (keys_from_pod pod p.context_name p.container_discovery)
          && accepts_container p k)

  pub contains-admit_streams :
      (p : WatchAdmissionPolicy R) (k : SourceKey) (pod : Pod)
      → contains k (admit_streams p pod) ≡ (
          contains k (keys_from_pod pod p.context_name p.container_discovery)
          && (is_match p.container_incl k.container
              && not (any (λ r. is_match r k.container) p.container_excl)))
  unfolding admit_streams
  contains-admit_streams p k pod =
      let keys = keys_from_pod pod p.context_name p.container_discovery in
      let incl : SourceKey → Bool = λ j. is_match p.container_incl j.container in
      let kept : SourceKey → Bool = λ j. not (any (λ r. is_match r j.container) p.container_excl) in
      ground (arith, contains-filter kept k (filter incl keys), contains-filter incl k keys)

  contains-insert_all :
      (k : SourceKey) (ks snap : List SourceKey)
      → contains k (insert_all ks snap) ≡ (contains k ks || contains k snap)
  unfolding insert_all contains
  contains-insert_all k [] snap = refl
  contains-insert_all k (j ∷ ks) snap =
      ground (arith, contains-insert_all k ks (insert j snap), contains-insert k j snap)

  contains-snapshot_from :
      (p : WatchAdmissionPolicy R) (k : SourceKey) (pods : List Pod) (snap : List SourceKey)
      → contains k (snapshot_from p pods snap) ≡ (any (is_admitted p k) pods || contains k snap)
  unfolding snapshot_from any is_admitted accepts_container
  contains-snapshot_from p k [] snap = refl
  contains-snapshot_from p k (pod ∷ pods) snap = elim (Bool-cases (admit_pod p pod)) [
    | inl e ↦ rw e (
        ground (
          arith,
          contains-snapshot_from p k pods (insert_all (admit_streams p pod) snap),
          contains-insert_all k (admit_streams p pod) snap,
          contains-admit_streams p k pod,
        ))
    | inr n ↦ rw n (contains-snapshot_from p k pods snap)
  ]

  -- The snapshot of a list of pods has the streams that the policy admits of one of them, and no
  -- other.
  pub contains-collect_snapshot :
      (p : WatchAdmissionPolicy R) (k : SourceKey) (pods : List Pod)
      → contains k (collect_snapshot p pods) ≡ any (is_admitted p k) pods
  unfolding collect_snapshot contains
  contains-collect_snapshot p k pods = ground (arith, contains-snapshot_from p k pods [])
