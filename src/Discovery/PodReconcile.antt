-- ===== src/Discovery/PodReconcile.antt =====
-- crates/rustern-core/src/discovery/pod_reconcile.rs
use rustern.Common.{
  ◌≡◌, refl, ap, ◌∙◌, Bool-cases, inl, inr, Bool, true, false, not, ◌&&◌, ◌||◌, ◌==◌, List, [], ◌∷◌,
  arith, Text, text_le, text_beq, text_beq_iff, text_eq, if◌then◌else◌,
}
use rustern.Common.Sets.{contains, difference, contains-difference, IsDistinct, filter-IsDistinct}
use rustern.Common.Sorting.{
  sort, contains-sort, sort-IsSorted, sort-IsDistinct, IsSorted, IsSorted-same,
}
use rustern.Common.TextOrder.{text_le-antisym}
use rustern.Source.{SourceKey, key_eq}

-- `a.cmp(b).then_with(rest)`, read as `≤`.
then_with : Text → Text → Bool → Bool
then_with s t rest = if text_beq s t then rest else text_le s t

-- The comparison of `sort_keys`.
pub key_le : SourceKey → SourceKey → Bool
unfolding then_with
key_le a b = then_with a.context b.context (
    then_with a.namespace b.namespace
      (then_with a.pod b.pod (then_with a.container b.container (text_le a.uid b.uid))))

unfoldable pub sort_keys : List SourceKey → List SourceKey
sort_keys keys = sort key_le keys

pub record ReconcileDiff : Type 0 where
  pub to_add : List SourceKey
  pub to_drop : List SourceKey

unfoldable pub reconcile : List SourceKey → List SourceKey → ReconcileDiff
reconcile active snapshot = record {
  to_add = sort_keys (difference snapshot active);
  to_drop = sort_keys (difference active snapshot);
}

text_le_total : (s t : Text) → text_le s t ≡ false → text_le t s ≡ true
unfolding text_le
text_le_total [] t h = ground arith
text_le_total (a ∷ s) [] h = refl
text_le_total (a ∷ s) (b ∷ t) h = ground (arith, text_le_total s t)

key_le_total : (a b : SourceKey) → key_le a b ≡ false → key_le b a ≡ true
unfolding key_le
key_le_total a b h = ground (
  arith,
  text_beq_iff a.context b.context,
  text_beq_iff b.context a.context,
  text_beq_iff a.namespace b.namespace,
  text_beq_iff b.namespace a.namespace,
  text_beq_iff a.pod b.pod,
  text_beq_iff b.pod a.pod,
  text_beq_iff a.container b.container,
  text_beq_iff b.container a.container,
  text_le_total a.context b.context,
  text_le_total a.namespace b.namespace,
  text_le_total a.pod b.pod,
  text_le_total a.container b.container,
  text_le_total a.uid b.uid,
)

-- A key is to be added exactly if the snapshot has it and it is not active.
pub contains-to_add :
    (k : SourceKey) (active snapshot : List SourceKey)
    → contains k (reconcile active snapshot).to_add
      ≡ (contains k snapshot && not (contains k active))
unfolding reconcile sort_keys
contains-to_add k active snapshot =
    contains-sort key_le k (difference snapshot active) ∙ contains-difference k snapshot active

-- A key is to be dropped exactly if it is active and the snapshot lacks it.
pub contains-to_drop :
    (k : SourceKey) (active snapshot : List SourceKey)
    → contains k (reconcile active snapshot).to_drop
      ≡ (contains k active && not (contains k snapshot))
unfolding reconcile sort_keys
contains-to_drop k active snapshot =
    contains-sort key_le k (difference active snapshot) ∙ contains-difference k active snapshot

-- A key is to be added exactly if the snapshot has it and it is not active, and to be dropped exactly
-- if it is active and the snapshot lacks it.
pub contains-reconcile :
    (k : SourceKey) (active snapshot : List SourceKey)
    → (contains k (reconcile active snapshot).to_add
        ≡ (contains k snapshot && not (contains k active)))
      × (contains k (reconcile active snapshot).to_drop
          ≡ (contains k active && not (contains k snapshot)))
contains-reconcile k active snapshot =
    (contains-to_add k active snapshot, contains-to_drop k active snapshot)

-- The order of a dictionary: the first texts that differ decide, the lower one before the higher.
unfoldable pub dictionary_le : List Text → List Text → Bool
dictionary_le [] ts = true
dictionary_le (s ∷ ss) [] = false
dictionary_le (s ∷ ss) (t ∷ ts) = not (text_le t s) || ((s == t) && dictionary_le ss ts)

-- What a key is ordered by: its context first, its uid last.
abbrev pub entry : SourceKey → List Text
entry k = k.context ∷ k.namespace ∷ k.pod ∷ k.container ∷ k.uid ∷ []

text_lt-beq :
    (s t : Text)
    → (text_beq s t ≡ false → text_le s t ≡ not (text_le t s))
      × (text_beq s t ≡ true → text_le t s ≡ true)
text_lt-beq s t = (
  λ h.
      ground
        (arith, h, text_le_total s t, text_le_total t s, text_le-antisym s t, text_beq_iff s t),
  λ h. let e : s ≡ t = (text_beq_iff s t).0 h in rw e (ground (arith, text_le_total t t)),
)

then_with-first :
    (s t : Text) (rest : Bool) → then_with s t rest ≡ (not (text_le t s) || ((s == t) && rest))
unfolding then_with
then_with-first s t rest = elim (Bool-cases (text_beq s t)) [
  | inl e ↦ rw e (ground (arith, (text_lt-beq s t).1 e))
  | inr n ↦ rw n ((text_lt-beq s t).0 n ∙ ground arith)
]

text_le-last : (s t : Text) → text_le s t ≡ (not (text_le t s) || ((s == t) && true))
text_le-last s t = elim (Bool-cases (text_beq s t)) [
  | inl e ↦ let q : s ≡ t = (text_beq_iff s t).0 e in rw (e, q) (ground (arith, text_le_total t t))
  | inr n ↦ rw n ((text_lt-beq s t).0 n ∙ ground arith)
]

key_le-dictionary : (a b : SourceKey) → key_le a b ≡ dictionary_le (entry a) (entry b)
unfolding key_le dictionary_le
key_le-dictionary a b =
    then_with-first a.context b.context _
    ∙ ap (later a.context b.context) (
        then_with-first a.namespace b.namespace _
        ∙ ap (later a.namespace b.namespace) (
            then_with-first a.pod b.pod _
            ∙ ap (later a.pod b.pod) (
                then_with-first a.container b.container _
                ∙ ap (later a.container b.container) (text_le-last a.uid b.uid))))
  where
    later : Text → Text → Bool → Bool
    later s t rest = not (text_le t s) || ((s == t) && rest)

-- The lists come in the order of a dictionary whose entries are the context, the namespace, the pod, the
-- container and the uid of a key, and without repeats if the two sets have none.
pub reconcile-IsSorted :
    (active snapshot : List SourceKey)
    → IsDistinct active
    → IsDistinct snapshot
    → IsSorted (λ a b. dictionary_le (entry a) (entry b)) (reconcile active snapshot).to_add
      × IsSorted (λ a b. dictionary_le (entry a) (entry b)) (reconcile active snapshot).to_drop
      × IsDistinct (reconcile active snapshot).to_add
      × IsDistinct (reconcile active snapshot).to_drop
unfolding reconcile sort_keys difference
reconcile-IsSorted active snapshot a s = (
  IsSorted-same key_le _ _ key_le-dictionary (sort-IsSorted key_le key_le_total _),
  IsSorted-same key_le _ _ key_le-dictionary (sort-IsSorted key_le key_le_total _),
  sort-IsDistinct key_le _ (filter-IsDistinct _ snapshot s),
  sort-IsDistinct key_le _ (filter-IsDistinct _ active a),
)
