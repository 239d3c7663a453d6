-- ===== src/Runtime/Tests/Stores.antt =====
-- A cache, and pages of a list, to run the stores and lists of crates/rustern-core/src/runtime on.
use rustern.Common.{
  ℕ, ◌≡◌, refl, Bool, true, false, ◌&&◌, ◌↔◌, List, [], ◌∷◌, Option, none, some, arith, Text, codes,
  text_beq, text_beq_iff, is_empty, if◌then◌else◌, ok, Result,
}
use rustern.Source.PodMeta.{
  PodLocator, PodMetaSnapshot, locator_eq, try_from_pod, pod_meta_snapshot_from_pod,
}
use rustern.Discovery.Tests.{web_pod}
use rustern.Runtime.Shards.{IsSharded, get}
use rustern.Runtime.PodMetaCache.{PodMetaCache, update_from_pod, is_located, get-update_from_pod}
use rustern.Runtime.ListPods.{Page, list_pods_paginated, next_token, all_items, list_pods-all}

abbrev empty_cache : PodMetaCache
empty_cache = [] ∷ [] ∷ [] ∷ [] ∷ [] ∷ [] ∷ [] ∷ [] ∷ [] ∷ [] ∷ [] ∷ [] ∷ [] ∷ [] ∷ [] ∷ [] ∷ []

abbrev web : PodLocator
web = record {
  context = codes "dev";
  namespace = codes "shop";
  pod = codes "web-0";
  uid = codes "u1";
}

-- The derived `PartialEq` of a snapshot.
opt_beq : Option Text → Option Text → Bool
opt_beq none none = true
opt_beq none (some t) = false
opt_beq (some s) none = false
opt_beq (some s) (some t) = text_beq s t

opt_beq_iff : (a b : Option Text) → (opt_beq a b ≡ true) ↔ (a ≡ b)
unfolding opt_beq
opt_beq_iff none none = (λ h. refl, λ h. refl)
opt_beq_iff none (some t) = (λ h. absurd (ground arith), λ h. absurd (ground arith))
opt_beq_iff (some s) none = (λ h. absurd (ground arith), λ h. absurd (ground arith))
opt_beq_iff (some s) (some t) = ground (arith, text_beq_iff s t)

labels_beq : List (Text × Text) → List (Text × Text) → Bool
labels_beq [] [] = true
labels_beq [] (y ∷ ys) = false
labels_beq (x ∷ xs) [] = false
labels_beq ((a, b) ∷ xs) ((c, d) ∷ ys) = text_beq a c && text_beq b d && labels_beq xs ys

labels_beq_iff : (xs ys : List (Text × Text)) → (labels_beq xs ys ≡ true) ↔ (xs ≡ ys)
unfolding labels_beq
labels_beq_iff [] [] = (λ h. refl, λ h. refl)
labels_beq_iff [] (y ∷ ys) = (λ h. absurd (ground arith), λ h. absurd (ground arith))
labels_beq_iff (x ∷ xs) [] = (λ h. absurd (ground arith), λ h. absurd (ground arith))
labels_beq_iff ((a, b) ∷ xs) ((c, d) ∷ ys) =
    ground (arith, text_beq_iff a c, text_beq_iff b d, labels_beq_iff xs ys)

same : PodMetaSnapshot → PodMetaSnapshot → Bool
same a b = opt_beq a.node b.node && labels_beq a.labels b.labels

same_iff : (a b : PodMetaSnapshot) → (same a b ≡ true) ↔ (a ≡ b)
unfolding same
same_iff a b = ground (arith, opt_beq_iff a.node b.node, labels_beq_iff a.labels b.labels)

get-update_from_pod_example :
    (get (λ l. 5) web (update_from_pod (λ l. 5) same (codes "dev") web_pod empty_cache) ≡ (
      if is_located (try_from_pod (codes "dev") web_pod) web
      then some (pod_meta_snapshot_from_pod web_pod)
      else get (λ l. 5) web empty_cache))
    × IsSharded (update_from_pod (λ l. 5) same (codes "dev") web_pod empty_cache)
get-update_from_pod_example =
    get-update_from_pod (λ l. 5) same same_iff (codes "dev") web_pod empty_cache web refl

abbrev last_page : Page ℕ
last_page = record { items = 3 ∷ []; continue_ = some [] }

abbrev first_page : Page ℕ
first_page = record { items = 1 ∷ 2 ∷ []; continue_ = some (codes "next") }

-- The first request has no token.
abbrev two_pages : Option Text → Result (Page ℕ) Text
two_pages none = ok first_page
two_pages (some t) = ok last_page

list_pods-all_example : list_pods_paginated two_pages none ≡ ok (1 ∷ 2 ∷ 3 ∷ [])
unfolding all_items next_token is_empty
list_pods-all_example =
    list_pods-all two_pages none first_page (last_page ∷ []) (omega arith)
      (refl, (codes "next", refl, (refl, refl)))

abbrev no_end : Option Text → Result (Page ℕ) Text
no_end t = ok first_page
