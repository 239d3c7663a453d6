-- ===== src/Runtime/Registry/Laws.antt =====
-- crates/rustern-core/src/runtime/registry.rs: the registry agrees with its tokens, and reconciling
-- reaches the wanted streams without touching the others.
use rustern.Common.{
  ℕ, ◌<◌, ◌≡◌, refl, ◌∙◌, ap, true, false, not, ◌&&◌, ◌||◌, List, [], ◌∷◌, Option, none, some,
  arith, text_eq, nat_eq, nat_beq_iff, ◌==◌, is_some, Bool-cases, Option-cases, inl, inr,
}
use rustern.Common.Sets.{contains, contains-insert, contains-remove}
use rustern.Common.Maps.{lookup, delete, lookup-put, lookup-delete}
use rustern.Source.{SourceKey, key_beq, key_beq_iff, key_eq}
use rustern.Discovery.PodReconcile.{ReconcileDiff}
use rustern.Runtime.Registry.{
  PodStreamRegistry, cancel, drop_key, drop_keys, add_key, add_keys, apply_diff,
}

-- The active streams are those with a token; the tokens are different from each other, and none of
-- them is cancelled.
pub record IsConsistent (r : PodStreamRegistry) : Type 0 where
  pub token_of : (k : SourceKey) → is_some (lookup k r.tokens) ≡ contains k r.active
  pub made : (k : SourceKey) (t : ℕ) → lookup k r.tokens ≡ some t → t < r.next_token
  pub live : (k : SourceKey) (t : ℕ) → lookup k r.tokens ≡ some t → contains t r.cancelled ≡ false
  pub unique :
      (j k : SourceKey) (t : ℕ) → lookup j r.tokens ≡ some t → lookup k r.tokens ≡ some t → j ≡ k
  pub past : (t : ℕ) → contains t r.cancelled ≡ true → t < r.next_token

cancel-some : (t : ℕ) (ts : List ℕ) → contains t (cancel (some t) ts) ≡ true
unfolding cancel contains
cancel-some t ts = ground (arith, nat_beq_iff t t)

cancel-kept :
    (o : Option ℕ) (ts : List ℕ) (t : ℕ) → contains t ts ≡ true → contains t (cancel o ts) ≡ true
unfolding cancel contains
cancel-kept none ts t h = h
cancel-kept (some u) ts t h = ground (arith, h)

module _ (hash : SourceKey → ℕ) where
  drop_key-live :
      (k j : SourceKey) (t : ℕ) (r : PodStreamRegistry)
      → IsConsistent r
      → lookup j (delete k r.tokens) ≡ some t
      → contains t (cancel (lookup k r.tokens) r.cancelled) ≡ false
  unfolding cancel contains
  drop_key-live k j t r c h = elim (Option-cases (lookup k r.tokens)) [
    | inl e ↦ rw e (ground (arith, lookup-delete k j r.tokens, c.live j t))
    | inr (u, e) ↦ rw e (
        ground (
          arith,
          lookup-delete k j r.tokens,
          c.live j t,
          c.unique k j t,
          nat_beq_iff t u,
          key_beq_iff k j,
        ))
  ]

  drop_key-past :
      (k : SourceKey) (t : ℕ) (r : PodStreamRegistry)
      → IsConsistent r
      → contains t (cancel (lookup k r.tokens) r.cancelled) ≡ true
      → t < r.next_token
  unfolding cancel contains
  drop_key-past k t r c h = elim (Option-cases (lookup k r.tokens)) [
    | inl e ↦ c.past t (rw e at h)
    | inr (u, e) ↦
        let h' : contains t (u ∷ r.cancelled) ≡ true = rw e at h in
        ground (arith, c.past t, c.made k u e, nat_beq_iff t u)
  ]

  drop_key-IsConsistent :
      (k : SourceKey) (r : PodStreamRegistry) → IsConsistent r → IsConsistent (drop_key hash k r)
  unfolding drop_key
  drop_key-IsConsistent k r c = record {
    token_of =
        λ j. ground (arith, lookup-delete k j r.tokens, contains-remove j k r.active, c.token_of j);
    made = λ j t h. ground (arith, lookup-delete k j r.tokens, c.made j t);
    live = λ j t h. drop_key-live k j t r c h;
    unique = λ i j t h g.
        ground (arith, lookup-delete k i r.tokens, lookup-delete k j r.tokens, c.unique i j t);
    past = λ t h. drop_key-past k t r c h;
  }

add_key-IsConsistent :
    (k : SourceKey) (r : PodStreamRegistry) → IsConsistent r → IsConsistent (add_key k r)
unfolding add_key
add_key-IsConsistent k r c = elim (Bool-cases (contains k r.active)) [
  | inl e ↦ rw e c
  | inr n ↦ rw n (record {
    token_of = λ j. ground (
      arith,
      lookup-put k j r.next_token r.tokens,
      contains-insert j k r.active,
      c.token_of j,
      key_beq_iff k j,
      key_beq_iff j k,
    );
    made = λ j t h. ground (arith, lookup-put k j r.next_token r.tokens, c.made j t);
    live = λ j t h. ground (arith, lookup-put k j r.next_token r.tokens, c.live j t, c.past t);
    unique = λ i j t h g. ground (
      arith,
      lookup-put k i r.next_token r.tokens,
      lookup-put k j r.next_token r.tokens,
      c.unique i j t,
      c.made i t,
      c.made j t,
      key_beq_iff k i,
      key_beq_iff k j,
    );
    past = λ t h. ground (arith, c.past t);
  })
]

module _ (hash : SourceKey → ℕ) where
  pub drop_keys-IsConsistent :
      (ks : List SourceKey) (r : PodStreamRegistry)
      → IsConsistent r
      → IsConsistent (drop_keys hash ks r)
  unfolding drop_keys
  drop_keys-IsConsistent [] r c = c
  drop_keys-IsConsistent (k ∷ ks) r c =
      drop_keys-IsConsistent ks (drop_key hash k r) (drop_key-IsConsistent hash k r c)

  add_keys-IsConsistent :
      (ks : List SourceKey) (r : PodStreamRegistry) → IsConsistent r → IsConsistent (add_keys ks r)
  unfolding add_keys
  add_keys-IsConsistent [] r c = c
  add_keys-IsConsistent (k ∷ ks) r c =
      add_keys-IsConsistent ks (add_key k r) (add_key-IsConsistent k r c)

  pub apply_diff-IsConsistent :
      (d : ReconcileDiff) (r : PodStreamRegistry)
      → IsConsistent r
      → IsConsistent (apply_diff hash d r)
  unfolding apply_diff
  apply_diff-IsConsistent d r c =
      add_keys-IsConsistent d.to_add (drop_keys hash d.to_drop r)
        (drop_keys-IsConsistent d.to_drop r c)

  pub contains-drop_keys :
      (j : SourceKey) (ks : List SourceKey) (r : PodStreamRegistry)
      → contains j (drop_keys hash ks r).active ≡ (contains j r.active && not (contains j ks))
  unfolding drop_keys drop_key contains
  contains-drop_keys j [] r = ground arith
  contains-drop_keys j (k ∷ ks) r = ground (
    arith,
    contains-drop_keys j ks (drop_key hash k r),
    contains-remove j k r.active,
    key_beq_iff j k,
    key_beq_iff k j,
  )

  contains-add_key :
      (j k : SourceKey) (r : PodStreamRegistry)
      → contains j (add_key k r).active ≡ ((j == k) || contains j r.active)
  unfolding add_key
  contains-add_key j k r = elim (Bool-cases (contains k r.active)) [
    | inl e ↦ rw e (ground (arith, key_beq_iff j k))
    | inr n ↦ rw n (contains-insert j k r.active)
  ]

  contains-add_keys :
      (j : SourceKey) (ks : List SourceKey) (r : PodStreamRegistry)
      → contains j (add_keys ks r).active ≡ (contains j ks || contains j r.active)
  unfolding add_keys contains
  contains-add_keys j [] r = refl
  contains-add_keys j (k ∷ ks) r =
      ground (arith, contains-add_keys j ks (add_key k r), contains-add_key j k r)

  pub contains-apply_diff :
      (j : SourceKey) (d : ReconcileDiff) (r : PodStreamRegistry)
      → contains j (apply_diff hash d r).active
        ≡ (contains j d.to_add || (contains j r.active && not (contains j d.to_drop)))
  unfolding apply_diff
  contains-apply_diff j d r = ground (
    arith,
    contains-add_keys j d.to_add (drop_keys hash d.to_drop r),
    contains-drop_keys j d.to_drop r,
  )

  pub lookup-drop_keys :
      (j : SourceKey) (ks : List SourceKey) (r : PodStreamRegistry)
      → contains j ks ≡ false
      → lookup j (drop_keys hash ks r).tokens ≡ lookup j r.tokens
  unfolding drop_keys drop_key contains
  lookup-drop_keys j [] r h = refl
  lookup-drop_keys j (k ∷ ks) r h = ground (
    arith,
    lookup-drop_keys j ks (drop_key hash k r),
    lookup-delete k j r.tokens,
    key_beq_iff j k,
    key_beq_iff k j,
  )

  lookup-add_key :
      (j k : SourceKey) (r : PodStreamRegistry)
      → contains j r.active ≡ true
      → lookup j (add_key k r).tokens ≡ lookup j r.tokens
  unfolding add_key
  lookup-add_key j k r h = elim (Bool-cases (contains k r.active)) [
    | inl e ↦ rw e refl
    | inr n ↦ rw n (
        ground (
          arith,
          lookup-put k j r.next_token r.tokens,
          key_beq_iff k j,
          ap (λ i. contains i r.active),
        ))
  ]

  lookup-add_keys :
      (j : SourceKey) (ks : List SourceKey) (r : PodStreamRegistry)
      → contains j r.active ≡ true
      → lookup j (add_keys ks r).tokens ≡ lookup j r.tokens
  unfolding add_keys
  lookup-add_keys j [] r h = refl
  lookup-add_keys j (k ∷ ks) r h =
      lookup-add_keys j ks (add_key k r) (ground (arith, contains-add_key j k r))
      ∙ lookup-add_key j k r h

  pub lookup-apply_diff :
      (j : SourceKey) (d : ReconcileDiff) (r : PodStreamRegistry)
      → contains j r.active ≡ true
      → contains j d.to_drop ≡ false
      → lookup j (apply_diff hash d r).tokens ≡ lookup j r.tokens
  unfolding apply_diff
  lookup-apply_diff j d r a n =
      lookup-add_keys j d.to_add (drop_keys hash d.to_drop r)
        (ground (arith, contains-drop_keys j d.to_drop r))
      ∙ lookup-drop_keys j d.to_drop r n

  -- A cancelled token stays cancelled.
  drop_keys-cancelled :
      (ks : List SourceKey) (r : PodStreamRegistry) (t : ℕ)
      → contains t r.cancelled ≡ true
      → contains t (drop_keys hash ks r).cancelled ≡ true
  unfolding drop_keys drop_key
  drop_keys-cancelled [] r t h = h
  drop_keys-cancelled (k ∷ ks) r t h =
      drop_keys-cancelled ks (drop_key hash k r) t (cancel-kept (lookup k r.tokens) r.cancelled t h)

  -- Dropping keys cancels the token of an attached stream exactly if its key is dropped.
  pub contains-cancelled :
      (ks : List SourceKey) (r : PodStreamRegistry) (k : SourceKey) (t : ℕ)
      → IsConsistent r
      → lookup k r.tokens ≡ some t
      → contains t (drop_keys hash ks r).cancelled ≡ contains k ks
  unfolding drop_keys drop_key contains
  contains-cancelled [] r k t c h = c.live k t h
  contains-cancelled (j ∷ ks) r k t c h = elim (Bool-cases (key_beq j k)) [
    | inl e ↦
        let same : j ≡ k = (key_beq_iff j k).0 e in
        let now : contains t (cancel (lookup j r.tokens) r.cancelled) ≡ true =
          ap (λ o. contains t (cancel o r.cancelled)) (ap (λ i. lookup i r.tokens) same ∙ h)
          ∙ cancel-some t r.cancelled in
        ground (
          arith,
          drop_keys-cancelled ks (drop_key hash j r) t now,
          key_beq_iff k j,
          key_beq_iff j k,
        )
    | inr n ↦
        let kept : lookup k (delete j r.tokens) ≡ some t =
          ground (arith, lookup-delete j k r.tokens, h) in
        ground (
          arith,
          contains-cancelled ks (drop_key hash j r) k t (drop_key-IsConsistent hash j r c) kept,
          key_beq_iff k j,
          key_beq_iff j k,
        )
  ]
