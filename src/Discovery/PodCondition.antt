-- ===== src/Discovery/PodCondition.antt =====
-- crates/rustern-core/src/discovery/pod_condition.rs: the filter by a condition of a pod.
use rustern.Common.{
  ◌≡◌, refl, Bool, true, false, ◌&&◌, List, [], ◌∷◌, Option, none, some, Text, codes, text_eq, ◌==◌,
  is_empty, trim, split_once, to_ascii_lowercase, eq_ignore_ascii_case, if◌then◌else◌, Result, ok,
  err, ◌>>=◌, ◌⊎◌, Bool-cases, inl, inr,
}
use mathlib.Core.Option
use rustern.Kube.{Pod, PodStatus, PodCondition}

pub record PodConditionFilter : Type 0 where
  pub type_name : Text
  pub status : Text

pub data ParsePodConditionError : Type 0 where
  empty : ParsePodConditionError
  invalid_value : Text → ParsePodConditionError

unfoldable pub normalize_condition_status : Text → Result Text ParsePodConditionError
normalize_condition_status value =
    let lower = to_ascii_lowercase value in
    if lower == codes "true"
    then ok (codes "True")
    else if lower == codes "false"
    then ok (codes "False")
    else if lower == codes "unknown"
    then ok (codes "Unknown")
    else err (invalid_value lower)

trim_both : Text × Text → Text × Text
trim_both (n, v) = (trim n, trim v)

unfoldable pub condition_parts : Text → Text × Text
unfolding trim_both
condition_parts trimmed =
    Option.get_or (Option.map trim_both (split_once b'=' trimmed)) (trimmed, codes "true")

condition_filter : Text × Text → Result PodConditionFilter ParsePodConditionError
unfolding normalize_condition_status
condition_filter (name, value) =
    if is_empty name
    then err empty
    else normalize_condition_status value >>= λ status.
        ok (record { type_name = to_ascii_lowercase name; status = status })

unfoldable pub parse_pod_condition : Text → Result PodConditionFilter ParsePodConditionError
unfolding condition_filter
parse_pod_condition raw =
    let trimmed = trim raw in
    if is_empty trimmed then err empty else condition_filter (condition_parts trimmed)

unfoldable pub missing_condition_matches : PodConditionFilter → Bool
missing_condition_matches filter =
    (filter.type_name == codes "ready") && eq_ignore_ascii_case filter.status (codes "False")

-- The `for` over the conditions, with what follows it.
first_condition : List PodCondition → PodConditionFilter → Bool
unfolding missing_condition_matches
first_condition [] filter = missing_condition_matches filter
first_condition (c ∷ cs) filter =
    let rest = first_condition cs filter in
    if eq_ignore_ascii_case c.type_ filter.type_name
    then eq_ignore_ascii_case c.status filter.status
    else rest

conditions_match : Option (List PodCondition) → PodConditionFilter → Bool
unfolding first_condition missing_condition_matches
conditions_match none filter = missing_condition_matches filter
conditions_match (some conditions) filter = first_condition conditions filter

status_matches : Option PodStatus → PodConditionFilter → Bool
unfolding conditions_match
status_matches none filter = false
status_matches (some status) filter = conditions_match status.conditions filter

unfoldable pub pod_matches_condition : Pod → PodConditionFilter → Bool
unfolding status_matches
pod_matches_condition pod filter = status_matches pod.status filter

-- A parsed filter has a lower-case name, and one of the three statuses.
abbrev pub IsNormalised : Result PodConditionFilter ParsePodConditionError → Type 0
IsNormalised (err e) = Unit {0}
IsNormalised (ok f) =
    ((name : Text) × (f.type_name ≡ to_ascii_lowercase name))
    × ((f.status ≡ codes "True") ⊎ (f.status ≡ codes "False") ⊎ (f.status ≡ codes "Unknown"))

-- The three tests of the value, each way.
status-cases :
    (name other : Text) (is_true is_false is_unknown : Bool)
    → IsNormalised (
        (if is_true
          then ok (codes "True")
          else if is_false
          then ok (codes "False")
          else if is_unknown
          then ok (codes "Unknown")
          else err (invalid_value other))
        >>= λ status. ok (record { type_name = to_ascii_lowercase name; status = status }))
status-cases name other true b c = ((name, refl), inl refl)
status-cases name other false true c = ((name, refl), inr (inl refl))
status-cases name other false false true = ((name, refl), inr (inr refl))
status-cases name other false false false = tt

normalise-filter :
    (name value : Text)
    → IsNormalised (
        normalize_condition_status value >>= λ status.
        ok (record { type_name = to_ascii_lowercase name; status = status }))
unfolding normalize_condition_status
normalise-filter name value = status-cases name (to_ascii_lowercase value) _ _ _

condition_filter-IsNormalised : (parts : Text × Text) → IsNormalised (condition_filter parts)
unfolding condition_filter
condition_filter-IsNormalised (name, value) = elim (Bool-cases (is_empty name)) [
  | inl e ↦ rw e tt
  | inr n ↦ rw n (normalise-filter name value)
]

-- Whatever `--condition` says, a filter that is accepted has a type name in lower case and one of the
-- three statuses of the API.
pub parse_pod_condition-IsNormalised : (raw : Text) → IsNormalised (parse_pod_condition raw)
unfolding parse_pod_condition
parse_pod_condition-IsNormalised raw = elim (Bool-cases (is_empty (trim raw))) [
  | inl e ↦ rw e tt
  | inr n ↦ rw n (condition_filter-IsNormalised (condition_parts (trim raw)))
]
