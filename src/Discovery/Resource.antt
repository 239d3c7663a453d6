-- ===== src/Discovery/Resource.antt =====
-- crates/rustern-core/src/discovery/resource.rs: the query of pods, a regex or `kind/name`.
use rustern.Common.{
  ◌≡◌, refl, ◌∙◌, ap, false, ◌∷◌, ◌++◌, Option, none, some, Text, codes, text_beq, split_once,
  split_once-first, if◌then◌else◌, any, nat_beq, Result, ok, err, ◌>>=◌, map_err, ◌||◌,
}

pub data ResourceKind : Type 0 where
  pod replication_controller service daemon_set deployment replica_set stateful_set job :
      ResourceKind

pub data Query : Type 0 where
  pod_name_regex : Text → Query
  label_selector : ResourceKind → Text → Query

pub data QueryParseError : Type 0 where
  regex user_regex unknown_kind : Text → QueryParseError

unfoldable pub parse_kind : Text → Result ResourceKind QueryParseError
parse_kind s =
    if text_beq s (codes "pod") || text_beq s (codes "po")
    then ok pod
    else if text_beq s (codes "replicationcontroller") || text_beq s (codes "rc")
    then ok replication_controller
    else if text_beq s (codes "service") || text_beq s (codes "svc")
    then ok service
    else if text_beq s (codes "daemonset") || text_beq s (codes "ds")
    then ok daemon_set
    else if text_beq s (codes "deployment") || text_beq s (codes "deploy")
    then ok deployment
    else if text_beq s (codes "replicaset") || text_beq s (codes "rs")
    then ok replica_set
    else if text_beq s (codes "statefulset") || text_beq s (codes "sts")
    then ok stateful_set
    else if text_beq s (codes "job")
    then ok job
    else err (unknown_kind s)

-- `compile` is `compile_user_regex`; only its error is kept.
module _ (compile : Text → Result (Unit {0}) Text) where
  query_of : Text → Option (Text × Text) → Result Query QueryParseError
  unfolding parse_kind
  query_of arg (some (kind_s, name)) = parse_kind kind_s >>= λ kind. ok (label_selector kind name)
  query_of arg none = map_err user_regex (compile arg) >>= λ u. ok (pod_name_regex arg)

  unfoldable pub parse_query : Text → Result Query QueryParseError
  unfolding query_of
  parse_query arg = query_of arg (split_once b'/' arg)

unfoldable pub label_selector_for : ResourceKind → Text → Text
label_selector_for pod name = codes "metadata.name=" ++ name
label_selector_for _ name = codes "app=" ++ name

-- The long and the short name of a kind; a job has one name.
abbrev pub long_name : ResourceKind → Text
long_name pod = codes "pod"
long_name replication_controller = codes "replicationcontroller"
long_name service = codes "service"
long_name daemon_set = codes "daemonset"
long_name deployment = codes "deployment"
long_name replica_set = codes "replicaset"
long_name stateful_set = codes "statefulset"
long_name job = codes "job"

abbrev pub short_name : ResourceKind → Text
short_name pod = codes "po"
short_name replication_controller = codes "rc"
short_name service = codes "svc"
short_name daemon_set = codes "ds"
short_name deployment = codes "deploy"
short_name replica_set = codes "rs"
short_name stateful_set = codes "sts"
short_name job = codes "job"

parse_kind-long_name : (k : ResourceKind) → parse_kind (long_name k) ≡ ok k
unfolding parse_kind text_beq
parse_kind-long_name pod = refl
parse_kind-long_name replication_controller = refl
parse_kind-long_name service = refl
parse_kind-long_name daemon_set = refl
parse_kind-long_name deployment = refl
parse_kind-long_name replica_set = refl
parse_kind-long_name stateful_set = refl
parse_kind-long_name job = refl

parse_kind-short_name : (k : ResourceKind) → parse_kind (short_name k) ≡ ok k
unfolding parse_kind text_beq
parse_kind-short_name pod = refl
parse_kind-short_name replication_controller = refl
parse_kind-short_name service = refl
parse_kind-short_name daemon_set = refl
parse_kind-short_name deployment = refl
parse_kind-short_name replica_set = refl
parse_kind-short_name stateful_set = refl
parse_kind-short_name job = refl

long_name-plain : (k : ResourceKind) → any (nat_beq b'/') (long_name k) ≡ false
unfolding any
long_name-plain pod = refl
long_name-plain replication_controller = refl
long_name-plain service = refl
long_name-plain daemon_set = refl
long_name-plain deployment = refl
long_name-plain replica_set = refl
long_name-plain stateful_set = refl
long_name-plain job = refl

short_name-plain : (k : ResourceKind) → any (nat_beq b'/') (short_name k) ≡ false
unfolding any
short_name-plain pod = refl
short_name-plain replication_controller = refl
short_name-plain service = refl
short_name-plain daemon_set = refl
short_name-plain deployment = refl
short_name-plain replica_set = refl
short_name-plain stateful_set = refl
short_name-plain job = refl

-- A query that is written with the long or the short name of a kind, a slash and any name is read as
-- that kind and that name, slashes of the name included.
pub parse_query-names :
    (compile : Text → Result (Unit {0}) Text) (k : ResourceKind) (name : Text)
    → (parse_query compile (long_name k ++ (b'/' ∷ name)) ≡ ok (label_selector k name))
      × (parse_query compile (short_name k ++ (b'/' ∷ name)) ≡ ok (label_selector k name))
unfolding parse_query query_of
parse_query-names compile k name = (
  ap (query_of compile (long_name k ++ (b'/' ∷ name)))
        (split_once-first b'/' (long_name k) name (long_name-plain k))
      ∙ ap (λ r. r >>= λ kind. ok (label_selector kind name)) (parse_kind-long_name k),
  ap (query_of compile (short_name k ++ (b'/' ∷ name)))
        (split_once-first b'/' (short_name k) name (short_name-plain k))
      ∙ ap (λ r. r >>= λ kind. ok (label_selector kind name)) (parse_kind-short_name k),
)
