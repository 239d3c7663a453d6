-- ===== src/Discovery/WorkloadSelector/Order.antt =====
-- crates/rustern-core/src/discovery/workload_selector.rs: the selector does not depend on the order in
-- which the API lists expressions and their values.
use rustern.Common.{
  ◌≡◌, refl, ◌∙◌, List, [], map, filter_map, push, Option, none, some, Text, codes, is_empty,
  if◌then◌else◌, ◌==◌, text_eq,
}
use mathlib.Core.List.{Perm, Permᴰ}
use mathlib.Core.List.Perm
use mathlib.Core.Logic.{∥∥₁_elim}
use mathlib.Core.Option
use rustern.Common.TextOrder.{sort_texts_of_perm}
use rustern.Discovery.Resource.{ResourceKind}
use rustern.Discovery.WorkloadSelector.{
  LabelSelectorRequirement, PodTemplateSpec, match_expression_fragment, label_pair, none_or_empty,
  selector_parts, label_selector_from_meta, selector_of_parts, set_fragment,
}

push-Perm : {A : Type 0} (o : Option A) {xs ys : List A} → Perm xs ys → Perm (push o xs) (push o ys)
push-Perm none p = p
push-Perm (some a) p = Perm.cons a p

push_swap :
    {A : Type 0} (o p : Option A) (xs : List A) → Perm (push o (push p xs)) (push p (push o xs))
push_swap none p xs = Perm.rfl
push_swap (some a) none xs = Perm.rfl
push_swap (some a) (some b) xs = Perm.swap b a xs

filter_map-permᴰ :
    {A B : Type 0} (f : A → Option B) {xs ys : List A}
    → Permᴰ xs ys
    → Perm (filter_map f xs) (filter_map f ys)
unfolding filter_map
filter_map-permᴰ f Permᴰ.nil = Perm.rfl
filter_map-permᴰ f (Permᴰ.cons {b = b} e d) = rw e (push-Perm (f b) (filter_map-permᴰ f d))
filter_map-permᴰ f (Permᴰ.swap {a = a} {b = b} {l = l} e d) =
    rw (← e, ← d) (push_swap (f a) (f b) (filter_map f l))
filter_map-permᴰ f (Permᴰ.trans d d') = Perm.trans (filter_map-permᴰ f d) (filter_map-permᴰ f d')

pub filter_map_perm :
    {A B : Type 0} (f : A → Option B) {xs ys : List A}
    → Perm xs ys
    → Perm (filter_map f xs) (filter_map f ys)
filter_map_perm f {xs} {ys} p = ∥∥₁_elim p (hlevel) (filter_map-permᴰ f)

perm_is_empty : {A : Type 0} {xs ys : List A} → Permᴰ xs ys → is_empty xs ≡ is_empty ys
unfolding is_empty
perm_is_empty Permᴰ.nil = refl
perm_is_empty (Permᴰ.cons e d) = refl
perm_is_empty (Permᴰ.swap e d) = refl
perm_is_empty (Permᴰ.trans d d') = perm_is_empty d ∙ perm_is_empty d'

is_empty_of_perm : {A : Type 0} {xs ys : List A} → Perm xs ys → is_empty xs ≡ is_empty ys
is_empty_of_perm p = ∥∥₁_elim p (hlevel) perm_is_empty

selector_of_parts_perm :
    (kind : ResourceKind) (name : Text) {ps qs : List Text}
    → Perm ps qs
    → selector_of_parts kind name ps ≡ selector_of_parts kind name qs
unfolding selector_of_parts
selector_of_parts_perm kind name p = rw (is_empty_of_perm p, sort_texts_of_perm p)

set_fragment_perm :
    (key op : Text) {vs ws : List Text}
    → Perm vs ws
    → set_fragment key op vs ≡ set_fragment key op ws
unfolding set_fragment
set_fragment_perm key op p = rw (is_empty_of_perm p, sort_texts_of_perm p)

-- A requirement on a set of values has the same text for every order of the values.
pub match_expression_fragment-perm :
    (key operator : Text) (vs ws : List Text)
    → Perm vs ws
    → match_expression_fragment (record { key = key; operator = operator; values = some vs })
      ≡ match_expression_fragment (record { key = key; operator = operator; values = some ws })
unfolding match_expression_fragment Option.bind
match_expression_fragment-perm key operator vs ws p =
    rw (set_fragment_perm key (if operator == codes "In" then codes "in" else codes "notin") p)

-- The selector of a workload is the same for every order of the expressions.
pub label_selector_from_meta-perm :
    (labels : Option (List (Text × Text))) (es fs : List LabelSelectorRequirement)
    (template : Option PodTemplateSpec) (kind : ResourceKind) (name : Text)
    → Perm es fs
    → label_selector_from_meta
        (record { match_labels = labels; match_expressions = some es })
        template
        kind
        name
      ≡ label_selector_from_meta
          (record { match_labels = labels; match_expressions = some fs })
          template
          kind
          name
unfolding label_selector_from_meta selector_parts none_or_empty
label_selector_from_meta-perm labels es fs template kind name p = rw (is_empty_of_perm p) (
    selector_of_parts_perm kind name (
      Perm.append_left (map label_pair (Option.get_or labels []))
        (Perm.append_right _ (filter_map_perm match_expression_fragment p))))
