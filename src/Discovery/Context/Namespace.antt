-- ===== src/Discovery/Context/Namespace.antt =====
-- crates/rustern-core/src/discovery/context.rs: the namespace of the active context.
use rustern.Common.{
  ◌≡◌, refl, ap, arith, Bool, true, false, List, [], ◌∷◌, any, find, Option, none, some, or_else,
  Text, codes, text_eq, ◌==◌, is_empty, trim, ok, err, Bool-cases, inl, inr,
}
use mathlib.Core.Option
use rustern.Discovery.Context.{
  Kubeconfig, NamedContext, KubeContext, ContextSelector, pick_context_name, known_context,
  default_namespace, namespace_of, not_blank, find_context,
}

find-any : {A : Type 0} (p : A → Bool) (l : List A) → any p l ≡ true → (a : A) × (find p l ≡ some a)
unfolding any find
find-any p [] h = absurd (ground (arith, h))
find-any p (x ∷ l) h = elim (Bool-cases (p x)) [
  | inl e ↦ (x, rw e refl)
  | inr n ↦ rw n (find-any p l (rw n at h))
]

abbrev pub IsFilled : Text → Type 0
IsFilled ns = is_empty (trim ns) ≡ false

get_or-IsFilled :
    (o : Option Text) → IsFilled (Option.get_or (Option.bind o not_blank) (codes "default"))
unfolding not_blank Option.bind trim is_empty
get_or-IsFilled none = refl
get_or-IsFilled (some ns) = elim (Bool-cases (is_empty (trim ns))) [
  | inl e ↦ rw e refl
  | inr n ↦ rw n n
]

known_context-any :
    (cfg : Kubeconfig) (o : Option Text) (c : Text)
    → known_context cfg o ≡ ok c
    → any (λ (n : NamedContext). n.name == c) cfg.contexts ≡ true
unfolding known_context
known_context-any cfg none c h = absurd (ground (arith, h))
known_context-any cfg (some want) c h =
    elim (Bool-cases (any (λ (n : NamedContext). n.name == want) cfg.contexts)) [
      | inl e ↦
          let same : want ≡ c = ap (λ r. elim r [ ok a ↦ a | err _ ↦ want ]) (rw e at h) in
          rw (← same) e
      | inr n ↦ absurd (ground (arith, rw n at h))
    ]

-- Once the context is found, the namespace is found too, and it is never blank.
pub default_namespace-IsFilled :
    (cfg : Kubeconfig) (selector : ContextSelector) (c : Text)
    → pick_context_name cfg selector ≡ ok c
    → (ns : Text) × (default_namespace cfg selector ≡ ok ns) × IsFilled ns
unfolding default_namespace pick_context_name namespace_of find_context
default_namespace-IsFilled cfg selector c h =
    let (named, e) =
      find-any (λ (n : NamedContext). n.name == c) cfg.contexts
        (known_context-any cfg (or_else selector.context_name cfg.current_context) c h) in
    let set = Option.bind named.context (λ (ctx : KubeContext). ctx.namespace) in
    (
      Option.get_or (Option.bind set not_blank) (codes "default"),
      rw (h, e) refl,
      get_or-IsFilled set,
    )
