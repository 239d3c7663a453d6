-- ===== src/Discovery/ContainerKeys.antt =====
-- crates/rustern-core/src/discovery/container_keys.rs: the streams of a pod.
use rustern.Common.{
  ◌≡◌, ◌↔◌, refl, arith, Eq, Bool, true, false, ◌||◌, List, [], ◌∷◌, ◌++◌, map, Option, none, some,
  Text, text_eq, ◌==◌, filter, find, All, if◌then◌else◌,
}
use mathlib.Core.Option
use rustern.Kube.{Pod, PodSpec, PodStatus, ContainerStatus, ContainerState}
use rustern.Source.{SourceKey, key_eq}

pub data ContainerLifecycleBucket : Type 0 where
  running waiting terminated : ContainerLifecycleBucket

-- The derived `PartialEq`.
pub bucket_beq : ContainerLifecycleBucket → ContainerLifecycleBucket → Bool
bucket_beq running running = true
bucket_beq waiting waiting = true
bucket_beq terminated terminated = true
bucket_beq _ _ = false

pub bucket_beq_iff : (a b : ContainerLifecycleBucket) → (bucket_beq a b ≡ true) ↔ (a ≡ b)
unfolding bucket_beq
bucket_beq_iff running running = (λ h. refl, λ h. refl)
bucket_beq_iff running waiting = (λ h. ground (arith, h), λ h. ground (arith, h))
bucket_beq_iff running terminated = (λ h. ground (arith, h), λ h. ground (arith, h))
bucket_beq_iff waiting running = (λ h. ground (arith, h), λ h. ground (arith, h))
bucket_beq_iff waiting waiting = (λ h. refl, λ h. refl)
bucket_beq_iff waiting terminated = (λ h. ground (arith, h), λ h. ground (arith, h))
bucket_beq_iff terminated running = (λ h. ground (arith, h), λ h. ground (arith, h))
bucket_beq_iff terminated waiting = (λ h. ground (arith, h), λ h. ground (arith, h))
bucket_beq_iff terminated terminated = (λ h. refl, λ h. refl)

instance abbrev pub bucket_eq : Eq ContainerLifecycleBucket
bucket_eq = record { beq = bucket_beq; beq_iff = bucket_beq_iff }

pub data ContainerStatePolicy : Type 0 where
  all : ContainerStatePolicy
  subset : List ContainerLifecycleBucket → ContainerStatePolicy

pub record ContainerDiscoverOpts : Type 0 where
  pub include_init_containers : Bool
  pub include_ephemeral_containers : Bool
  pub state_policy : ContainerStatePolicy

pub data ContainerPlacement : Type 0 where
  main init ephemeral : ContainerPlacement

state_bucket : ContainerState → Option ContainerLifecycleBucket
state_bucket st =
    if st.running
    then some running
    else if st.waiting
    then some waiting
    else if st.terminated
    then some terminated
    else none

unfoldable pub bucket : Option ContainerStatus → Option ContainerLifecycleBucket
unfolding state_bucket
bucket cs = Option.bind (Option.bind cs (λ s. s.state)) state_bucket

placed_statuses : PodStatus → ContainerPlacement → Option (List ContainerStatus)
placed_statuses st main = st.container_statuses
placed_statuses st init = st.init_container_statuses
placed_statuses st ephemeral = st.ephemeral_container_statuses

unfoldable pub find_container_status : Pod → ContainerPlacement → Text → Option ContainerStatus
unfolding placed_statuses
find_container_status pod placement name =
    Option.bind pod.status
      (λ st. Option.bind (placed_statuses st placement) (find (λ cs. cs.name == name)))

allows : List ContainerLifecycleBucket → Option ContainerLifecycleBucket → Bool
allows allowed none = false
allows [] (some b) = false
allows (a ∷ allowed) (some b) = bucket_beq a b || allows allowed (some b)

unfoldable pub accepts_by_placement : ContainerStatePolicy → Pod → ContainerPlacement → Text → Bool
unfolding allows
accepts_by_placement all pod placement name = true
accepts_by_placement (subset allowed) pod placement name =
    allows allowed (bucket (find_container_status pod placement name))

placed : ContainerPlacement → List Text → List (Text × ContainerPlacement)
placed placement names = map (λ n. (n, placement)) names

placed_if : Bool → ContainerPlacement → Option (List Text) → List (Text × ContainerPlacement)
unfolding placed
placed_if false placement names = []
placed_if true placement none = []
placed_if true placement (some names) = placed placement names

spec_candidates : Option PodSpec → ContainerDiscoverOpts → List (Text × ContainerPlacement)
unfolding placed placed_if
spec_candidates none opts = []
spec_candidates (some spec) opts =
    placed main spec.containers
    ++ (placed_if opts.include_init_containers init spec.init_containers
        ++ placed_if opts.include_ephemeral_containers ephemeral spec.ephemeral_containers)

unfoldable pub collect_candidates : Pod → ContainerDiscoverOpts → List (Text × ContainerPlacement)
unfolding spec_candidates
collect_candidates pod opts = spec_candidates pod.spec opts

-- `unwrap_or_default` of a string.
abbrev pub or_empty : Option Text → Text
or_empty none = []
or_empty (some s) = s

container_key : Pod → Text → Text → Text → SourceKey
container_key pod context uid container = record {
  context = context;
  namespace = or_empty pod.metadata.namespace;
  pod = or_empty pod.metadata.name;
  container = container;
  uid = uid;
}

keys_with_uid : Option Text → Pod → Text → ContainerDiscoverOpts → List SourceKey
unfolding container_key
keys_with_uid none pod context opts = []
keys_with_uid (some uid) pod context opts =
    map (λ c. container_key pod context uid c.0)
      (filter (λ c. accepts_by_placement opts.state_policy pod c.1 c.0)
        (collect_candidates pod opts))

unfoldable pub keys_from_pod : Pod → Text → ContainerDiscoverOpts → List SourceKey
unfolding keys_with_uid
keys_from_pod pod context opts = keys_with_uid pod.metadata.uid pod context opts

-- A key of the pod `pod` in a context.
pub record IsKeyOf (pod : Pod) (context : Text) (k : SourceKey) : Type 0 where
  pub in_context : k.context ≡ context
  pub in_namespace : k.namespace ≡ or_empty pod.metadata.namespace
  pub of_pod : k.pod ≡ or_empty pod.metadata.name
  pub of_uid : pod.metadata.uid ≡ some k.uid

container_keys-IsKeyOf :
    (pod : Pod) (context uid : Text) (cs : List (Text × ContainerPlacement))
    → pod.metadata.uid ≡ some uid
    → All (IsKeyOf pod context) (map (λ c. container_key pod context uid c.0) cs)
unfolding container_key
container_keys-IsKeyOf pod context uid [] h = tt
container_keys-IsKeyOf pod context uid (c ∷ cs) h = (
  record { in_context = refl; in_namespace = refl; of_pod = refl; of_uid = h },
  container_keys-IsKeyOf pod context uid cs h,
)

keys_with_uid-IsKeyOf :
    (u : Option Text) (pod : Pod) (context : Text) (opts : ContainerDiscoverOpts)
    → pod.metadata.uid ≡ u
    → All (IsKeyOf pod context) (keys_with_uid u pod context opts)
unfolding keys_with_uid
keys_with_uid-IsKeyOf none pod context opts h = tt
keys_with_uid-IsKeyOf (some uid) pod context opts h = container_keys-IsKeyOf pod context uid _ h

-- Every stream key of a pod carries the pod's context, namespace, name and uid.
pub keys_from_pod-IsKeyOf :
    (pod : Pod) (context : Text) (opts : ContainerDiscoverOpts)
    → All (IsKeyOf pod context) (keys_from_pod pod context opts)
unfolding keys_from_pod
keys_from_pod-IsKeyOf pod context opts =
    keys_with_uid-IsKeyOf pod.metadata.uid pod context opts refl
