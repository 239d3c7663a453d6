-- ===== src/Discovery/PodList/Node.antt =====
-- crates/rustern-core/src/discovery/pod_list.rs: the watch asks for what the list asks for, and for the
-- node of the run.
use rustern.Common.{
  ◌≡◌, refl, ◌∙◌, sym, ap, Bool, true, false, List, [], ◌∷◌, ◌++◌, Option, none, some, Text, codes,
  is_empty, trim, join, push, Result, ok, err, ◌>>=◌, map_err, arith, Bool-cases, inl, inr,
}
use mathlib.Core.List.{append_assoc}
use rustern.Discovery.Resource.{ResourceKind, Query, pod_name_regex, label_selector, parse_query}
use rustern.Discovery.PodList.{
  PodWatchPlanConfig, PodWatchPlan, PodListError, part, part_of, joined, combined_field_selector,
  merged_field_selector_for_pod_name, is_pod, list_selectors, query_regex, plan_of, query_source,
  build,
}

-- A field selector whose last part is the given one.
abbrev pub EndsWith : Text → Option Text → Type 0
EndsWith last none = true ≡ false
EndsWith last (some f) = (before : Text) × (f ≡ before ++ last)

-- A plan whose watch has the selectors of its list, and whose fields end with the given part.
abbrev pub IsPlanWith : {R K : Type 0} → Text → Result (PodWatchPlan R) (PodListError K) → Type 0
IsPlanWith last (err e) = Unit {0}
IsPlanWith last (ok plan) =
    (plan.watch_labels ≡ plan.label_selector)
    × (plan.watch_fields ≡ plan.field_selector)
    × EndsWith last plan.field_selector

joined-EndsWith : (xs : List Text) (y : Text) → EndsWith y (joined (xs ++ (y ∷ [])))
unfolding joined join
joined-EndsWith [] y = ([], refl)
joined-EndsWith (x ∷ []) y = (x ++ codes ",", sym (append_assoc x (codes ",") y))
joined-EndsWith (x ∷ w ∷ xs) y = later (joined-EndsWith (w ∷ xs) y)
  where
    later :
        EndsWith y (some (join (codes ",") (w ∷ (xs ++ (y ∷ [])))))
        → EndsWith y (some (x ++ (codes "," ++ join (codes ",") (w ∷ (xs ++ (y ∷ []))))))
    later (before, e) = (
      x ++ (codes "," ++ before),
      ap (λ t. x ++ (codes "," ++ t)) e ∙ sym (append_assoc x (codes "," ++ before) y),
    )

module _ (n : Text) (named : is_empty (trim n) ≡ false) where
  abbrev node_part : Text
  node_part = codes "spec.nodeName=" ++ trim n

  combined-EndsWith :
      (cfg : PodWatchPlanConfig)
      → cfg.node ≡ some n
      → EndsWith node_part (combined_field_selector cfg)
  unfolding combined_field_selector part_of part
  combined-EndsWith cfg e =
      rw e (rw named (joined-EndsWith (part_of [] cfg.field_selector) node_part))

  merged-EndsWith :
      (name : Text) (o : Option Text)
      → EndsWith node_part o
      → EndsWith node_part
          (some (join (codes ",") ((codes "metadata.name=" ++ trim name) ∷ push o [])))
  unfolding join
  merged-EndsWith name none h = absurd (ground (arith, h))
  merged-EndsWith name (some f) (before, e) =
      let mn = codes "metadata.name=" ++ trim name in
      (
        mn ++ (codes "," ++ before),
        ap (λ t. mn ++ (codes "," ++ t)) e ∙ sym (append_assoc mn (codes "," ++ before) node_part),
      )

-- A step that fails, or whose every result leads to such a plan.
bind-IsPlanWith :
    {A R K : Type 0} (last : Text) (r : Result A (PodListError K))
    (f : A → Result (PodWatchPlan R) (PodListError K))
    → ((a : A) → IsPlanWith last (f a))
    → IsPlanWith last (r >>= f)
bind-IsPlanWith last (ok a) f h = h a
bind-IsPlanWith last (err e) f h = tt

module _ {R K : Type 0} (compile_user : Text → Result (Unit {0}) Text)
    (compile : Text → Result R Text)
    (resolve : ResourceKind → Text → List Text → Bool → Result Text K) where
  selectors-IsPlanWith :
      (n : Text) (cfg : PodWatchPlanConfig) (q : Query) (sel : Option Text) (re : Option R)
      → is_empty (trim n) ≡ false
      → cfg.node ≡ some n
      → IsPlanWith (codes "spec.nodeName=" ++ trim n) (
          list_selectors compile_user compile resolve cfg q sel >>= λ s.
          ok (plan_of compile_user compile resolve re s))
  unfolding list_selectors plan_of merged_field_selector_for_pod_name
  selectors-IsPlanWith n cfg q (some sel) re h e = (refl, refl, combined-EndsWith n h cfg e)
  selectors-IsPlanWith n cfg (pod_name_regex p) none re h e =
      (refl, refl, combined-EndsWith n h cfg e)
  selectors-IsPlanWith n cfg (label_selector kind name) none re h e =
      elim (Bool-cases (is_pod kind)) [
        | inl p ↦ rw p (
          refl,
          refl,
          merged-EndsWith n h name (combined_field_selector cfg) (combined-EndsWith n h cfg e),
        )
        | inr o ↦ rw o (resolved (resolve kind name cfg.namespaces cfg.all_namespaces))
      ]
    where
      resolved :
          (r : Result Text K)
          → IsPlanWith (codes "spec.nodeName=" ++ trim n) (
              (map_err PodListError.kube r >>= λ labels.
              ok (some labels, combined_field_selector cfg))
              >>= λ s. ok (plan_of compile_user compile resolve re s))
      resolved (ok labels) = (refl, refl, combined-EndsWith n h cfg e)
      resolved (err x) = tt

  -- If a node is given that is not blank, and a plan can be built, then its fields end with that node,
  -- whatever the query and the selectors, and its watch has the selectors of its list.
  pub build-IsPlanWith :
      (n : Text) (cfg : PodWatchPlanConfig)
      → is_empty (trim n) ≡ false
      → cfg.node ≡ some n
      → IsPlanWith (codes "spec.nodeName=" ++ trim n) (build compile_user compile resolve cfg)
  unfolding build
  build-IsPlanWith n cfg h e =
      bind-IsPlanWith (codes "spec.nodeName=" ++ trim n)
        (map_err PodListError.query
          (parse_query compile_user (query_source compile_user compile resolve cfg)))
        (λ q. query_regex compile_user compile resolve q >>= λ re.
          list_selectors compile_user compile resolve cfg q cfg.selector >>= λ s.
          ok (plan_of compile_user compile resolve re s))
        (λ q.
          bind-IsPlanWith (codes "spec.nodeName=" ++ trim n)
            (query_regex compile_user compile resolve q)
            (λ re. list_selectors compile_user compile resolve cfg q cfg.selector >>= λ s.
              ok (plan_of compile_user compile resolve re s))
            (λ re. selectors-IsPlanWith n cfg q cfg.selector re h e))
