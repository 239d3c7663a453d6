-- ===== src/Discovery/WorkloadSelector/Namespaces.antt =====
-- crates/rustern-core/src/discovery/workload_selector.rs: one selector for several namespaces.
use rustern.Common.{
  ◌≡◌, refl, ap, ◌∙◌, Bool, true, false, ◌&&◌, List, [], ◌∷◌, map, all, Option, none, some, arith,
  Text, text_eq, text_le, ◌==◌, beq_self, beq→eq, text_beq_iff, if◌then◌else◌, Result, ok, err,
  Bool-cases, inl, inr,
}
use mathlib.Core.Option
use rustern.Common.Sorting.{sort, insert_sorted}
use rustern.Discovery.Resource.{ResourceKind, pod, replica_set, label_selector_for}
use rustern.Discovery.WorkloadSelector.{
  Client, resolve_label_selector_for_kind_query, workload_selector,
}

-- `Vec::dedup`: `x` is the last item that was kept.
dedup_from : Text → List Text → List Text
dedup_from x [] = x ∷ []
dedup_from x (y ∷ ys) = if x == y then dedup_from x ys else x ∷ dedup_from y ys

dedup : List Text → List Text
unfolding dedup_from
dedup [] = []
dedup (x ∷ xs) = dedup_from x xs

the_only : ResourceKind → Text → List Text → Text
the_only kind name (s ∷ []) = s
the_only kind name _ = label_selector_for kind name

unfoldable pub unify_label_selectors : List Text → ResourceKind → Text → Text
unfolding dedup the_only
unify_label_selectors [] kind name = label_selector_for kind name
unify_label_selectors (s ∷ ss) kind name = the_only kind name (dedup (sort text_le (s ∷ ss)))

all-insert_sorted :
    (p : Text → Bool) (a : Text) (xs : List Text)
    → all p (insert_sorted text_le a xs) ≡ (p a && all p xs)
unfolding all insert_sorted
all-insert_sorted p a [] = refl
all-insert_sorted p a (x ∷ xs) = ground (arith, all-insert_sorted p a xs)

all-sort : (p : Text → Bool) (xs : List Text) → all p (sort text_le xs) ≡ all p xs
unfolding all sort
all-sort p [] = refl
all-sort p (x ∷ xs) = ground (arith, all-insert_sorted p x (sort text_le xs), all-sort p xs)

dedup_from-two :
    (kind : ResourceKind) (name x y : Text) (ys : List Text)
    → the_only kind name (x ∷ dedup_from y ys) ≡ label_selector_for kind name
unfolding dedup_from the_only
dedup_from-two kind name x y [] = refl
dedup_from-two kind name x y (z ∷ ys) = elim (Bool-cases (y == z)) [
  | inl e ↦ rw e (dedup_from-two kind name x y ys)
  | inr n ↦ rw n refl
]

the_only-dedup_from :
    (kind : ResourceKind) (name x : Text) (ys : List Text)
    → the_only kind name (dedup_from x ys)
      ≡ (if all (λ y. x == y) ys then x else label_selector_for kind name)
unfolding dedup_from the_only all
the_only-dedup_from kind name x [] = refl
the_only-dedup_from kind name x (y ∷ ys) = elim (Bool-cases (x == y)) [
  | inl e ↦ rw e (the_only-dedup_from kind name x ys)
  | inr n ↦ rw n (dedup_from-two kind name x y ys)
]

all_cong :
    (s t : Text) (xs : List Text) → (s == t) ≡ true → all (λ x. s == x) xs ≡ all (λ x. t == x) xs
all_cong s t xs h = ap (λ u. all (λ x. u == x) xs) (beq→eq h)

-- The head of the sorted list agrees with all of it exactly when the head of the list does.
only_of_sorted :
    (kind : ResourceKind) (name s : Text) (ss sorted : List Text)
    → ((p : Text → Bool) → all p sorted ≡ (p s && all p ss))
    → the_only kind name (dedup sorted)
      ≡ (if all (λ t. s == t) ss then s else label_selector_for kind name)
unfolding dedup all
only_of_sorted kind name s ss [] h = absurd (ground (arith, h (λ t. false)))
only_of_sorted kind name s ss (y ∷ ys) h = rw (the_only-dedup_from kind name y ys) (
    ground (
      arith,
      h (λ t. y == t),
      h (λ t. s == t),
      beq_self y,
      beq_self s,
      text_beq_iff y s,
      text_beq_iff s y,
      all_cong s y ys,
      all_cong s y ss,
    ))

unify_label_selectors_lem :
    (kind : ResourceKind) (name s : Text) (ss : List Text)
    → unify_label_selectors (s ∷ ss) kind name
      ≡ (if all (λ t. s == t) ss then s else label_selector_for kind name)
unfolding unify_label_selectors all
unify_label_selectors_lem kind name s ss =
    only_of_sorted kind name s ss (sort text_le (s ∷ ss)) λ p. all-sort p (s ∷ ss)

module _ {E : Type 0} (client : Client E) where
  abbrev pub query : ResourceKind → Text → Text → Result Text E
  query kind name ns = resolve_label_selector_for_kind_query client kind name (some ns)

  push_selector : Result Text E → Option (List Text) → Option (List Text)
  push_selector (ok selector) rest = Option.map (λ ss. selector ∷ ss) rest
  push_selector (err e) rest = none

  -- The selectors of the namespaces, or the early return at the first that fails.
  collect_selectors : ResourceKind → Text → List Text → Option (List Text)
  unfolding push_selector
  collect_selectors kind name [] = some []
  collect_selectors kind name (ns ∷ nss) =
      push_selector (query kind name ns) (collect_selectors kind name nss)

  unify_or_app : ResourceKind → Text → Option (List Text) → Text
  unify_or_app kind name none = label_selector_for kind name
  unify_or_app kind name (some selectors) = unify_label_selectors selectors kind name

  by_count : ResourceKind → Text → List Text → Result Text E
  unfolding collect_selectors unify_or_app
  by_count kind name [] = ok (label_selector_for kind name)
  by_count kind name (ns ∷ []) = query kind name ns
  by_count kind name (ns ∷ ns' ∷ nss) =
      ok (unify_or_app kind name (collect_selectors kind name (ns ∷ ns' ∷ nss)))

  unfoldable pub resolve_label_selector_for_namespaces :
      ResourceKind → Text → List Text → Bool → Result Text E
  unfolding by_count
  resolve_label_selector_for_namespaces pod name namespaces all_namespaces =
      ok (label_selector_for pod name)
  resolve_label_selector_for_namespaces kind name namespaces true =
      ok (label_selector_for kind name)
  resolve_label_selector_for_namespaces kind name namespaces false = by_count kind name namespaces

  abbrev pub says : Text → Result Text E → Bool
  says s (ok t) = s == t
  says s (err e) = false

  -- The selector that all the answers are, if there is one.
  abbrev pub agreed : List (Result Text E) → Option Text
  agreed [] = none
  agreed (err e ∷ rs) = none
  agreed (ok s ∷ rs) = if all (says s) rs then some s else none

  collected_says : Text → Option (List Text) → Bool
  collected_says s none = false
  collected_says s (some ss) = all (λ t. s == t) ss

  push_says :
      (s : Text) (r : Result Text E) (rest : Option (List Text))
      → collected_says s (push_selector r rest) ≡ (says s r && collected_says s rest)
  unfolding collected_says push_selector all
  push_says s (err e) rest = refl
  push_says s (ok t) none = ground arith
  push_says s (ok t) (some ss) = refl

  collect_says :
      (kind : ResourceKind) (name s : Text) (nss : List Text)
      → collected_says s (collect_selectors kind name nss)
        ≡ all (says s) (map (query kind name) nss)
  unfolding collected_says collect_selectors all
  collect_says kind name s [] = refl
  collect_says kind name s (ns ∷ nss) =
      push_says s (query kind name ns) (collect_selectors kind name nss)
      ∙ ap (λ b. says s (query kind name ns) && b) (collect_says kind name s nss)

  unify_pushed :
      (kind : ResourceKind) (name : Text) (r : Result Text E) (rest : Option (List Text))
      (rs : List (Result Text E))
      → ((s : Text) → collected_says s rest ≡ all (says s) rs)
      → unify_or_app kind name (push_selector r rest)
        ≡ Option.get_or (agreed (r ∷ rs)) (label_selector_for kind name)
  unfolding unify_or_app push_selector collected_says
  unify_pushed kind name (err e) rest rs h = refl
  unify_pushed kind name (ok s) none rs h = rw (← h s) refl
  unify_pushed kind name (ok s) (some ss) rs h =
      rw (unify_label_selectors_lem kind name s ss, ← h s) (by_test (all (λ t. s == t) ss))
    where
      by_test :
          (b : Bool)
          → (if b then s else label_selector_for kind name)
            ≡ Option.get_or (if b then some s else none) (label_selector_for kind name)
      by_test true = refl
      by_test false = refl

  by_count-agreed :
      (kind : ResourceKind) (name ns ns' : Text) (nss : List Text)
      → by_count kind name (ns ∷ ns' ∷ nss)
        ≡ ok (
            Option.get_or
              (agreed (map (query kind name) (ns ∷ ns' ∷ nss)))
              (label_selector_for kind name))
  unfolding by_count collect_selectors
  by_count-agreed kind name ns ns' nss = ap ok (
      unify_pushed kind name (query kind name ns) (collect_selectors kind name (ns' ∷ nss))
        (map (query kind name) (ns' ∷ nss)) λ s. collect_says kind name s (ns' ∷ nss))

  -- With two namespaces or more, and none of them meant as all, the query of a workload resolves to
  -- the selector on which the answers of all the namespaces agree; where they do not agree, or one of
  -- them is an error, it resolves to the selector by name, and never to an error.
  pub resolve-agreed :
      (kind : ResourceKind) (name ns ns' : Text) (nss : List Text)
      → resolve_label_selector_for_namespaces kind name (ns ∷ ns' ∷ nss) false
        ≡ ok (
            Option.get_or
              (agreed (map (query kind name) (ns ∷ ns' ∷ nss)))
              (label_selector_for kind name))
  unfolding resolve_label_selector_for_namespaces resolve_label_selector_for_kind_query
      workload_selector
  resolve-agreed pod name ns ns' nss = ground arith
  resolve-agreed replica_set name ns ns' nss = by_count-agreed replica_set name ns ns' nss
  resolve-agreed kind name ns ns' nss = by_count-agreed kind name ns ns' nss
