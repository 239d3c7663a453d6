-- ===== src/Source/PodMeta.antt =====
-- crates/rustern-core/src/source/pod_meta.rs: pod metadata, apart from the identity of a stream.
use rustern.Common.{
  ◌≡◌, ◌↔◌, Bool, true, ◌&&◌, List, [], Option, some, arith, Text, text_beq_iff, beq_self, text_eq,
  Eq, ◌==◌,
}
use mathlib.Core.Option
use rustern.Kube.{Pod}
use rustern.Source.{SourceKey}

pub record PodMetaSnapshot : Type 0 where
  pub node : Option Text
  pub labels : List (Text × Text)

pub record PodLocator : Type 0 where
  pub context : Text
  pub namespace : Text
  pub pod : Text
  pub uid : Text

-- The derived `PartialEq`.
unfoldable pub locator_beq : PodLocator → PodLocator → Bool
locator_beq a b =
    (a.context == b.context) && (a.namespace == b.namespace) && (a.pod == b.pod) && (a.uid == b.uid)

locator_beq_sound : (a b : PodLocator) → locator_beq a b ≡ true → a ≡ b
unfolding locator_beq
locator_beq_sound a b h = ground (
  arith,
  text_beq_iff a.context b.context,
  text_beq_iff a.namespace b.namespace,
  text_beq_iff a.pod b.pod,
  text_beq_iff a.uid b.uid,
)

locator_beq_self : (a : PodLocator) → locator_beq a a ≡ true
unfolding locator_beq
locator_beq_self a =
    ground (arith, beq_self a.context, beq_self a.namespace, beq_self a.pod, beq_self a.uid)

pub locator_beq_iff : (a b : PodLocator) → (locator_beq a b ≡ true) ↔ (a ≡ b)
locator_beq_iff a b = (locator_beq_sound a b, λ e. rw e (locator_beq_self b))

instance abbrev pub locator_eq : Eq PodLocator
locator_eq = record { beq = locator_beq; beq_iff = locator_beq_iff }

unfoldable pub from_source_key : SourceKey → PodLocator
from_source_key key = record {
  context = key.context;
  namespace = key.namespace;
  pod = key.pod;
  uid = key.uid;
}

unfoldable pub try_from_pod : Text → Pod → Option PodLocator
try_from_pod context pod = Option.bind pod.metadata.uid (λ uid.
    Option.bind pod.metadata.name (λ name. Option.bind pod.metadata.namespace (λ namespace.
      some (record { context = context; namespace = namespace; pod = name; uid = uid }))))

unfoldable pub pod_meta_snapshot_from_pod : Pod → PodMetaSnapshot
pod_meta_snapshot_from_pod pod = record {
  node = Option.bind pod.spec (λ spec. spec.node_name);
  labels = Option.get_or pod.metadata.labels [];
}
