-- ===== src/Runtime/Shards.antt =====
-- The sharded maps of runtime/cursor_store.rs and runtime/pod_meta_cache.rs: a vector of sixteen
-- locked maps, and the hash of a key that picks one. Each operation holds one lock, or the locks of
-- all shards one after the other.
use rustern.Common.{
  ℕ, zero, suc, ◌%◌, ◌<◌, ◌≡◌, refl, ◌∙◌, sym, ap, Bool, true, false, List, [], ◌∷◌, map, Option,
  none, some, arith, length, Eq, ◌==◌, if◌then◌else◌, Bool-cases, ◌⊎◌, inl, inr, nat_beq,
  nat_beq_iff,
}
use rustern.Common.Maps.{lookup, put, delete, retain, lookup-put, lookup-delete, lookup-retain}

abbrev pub shard_count : ℕ
shard_count = 16

module _ {ℓ} {A : Type ℓ} where
  -- `v[i]`; the default is for an index out of range, which does not occur.
  at : List A → ℕ → A → A
  at [] i d = d
  at (x ∷ xs) zero d = x
  at (x ∷ xs) (suc i) d = at xs i d

  replace_at : List A → ℕ → A → List A
  replace_at [] i v = []
  replace_at (x ∷ xs) zero v = v ∷ xs
  replace_at (x ∷ xs) (suc i) v = x ∷ replace_at xs i v

  at-replace_at :
      (xs : List A) (i j : ℕ) (v d : A)
      → i < length xs
      → at (replace_at xs i v) j d ≡ (if nat_beq i j then v else at xs j d)
  unfolding at replace_at
  at-replace_at [] i j v d h = absurd (omega arith)
  at-replace_at (x ∷ xs) zero zero v d h = refl
  at-replace_at (x ∷ xs) zero (suc j) v d h = ground arith
  at-replace_at (x ∷ xs) (suc i) zero v d h = ground arith
  at-replace_at (x ∷ xs) (suc i) (suc j) v d h = ground (arith, at-replace_at xs i j v d)

  length-replace_at : (xs : List A) (i : ℕ) (v : A) → length (replace_at xs i v) ≡ length xs
  unfolding replace_at
  length-replace_at [] i v = refl
  length-replace_at (x ∷ xs) zero v = refl
  length-replace_at (x ∷ xs) (suc i) v = ap suc (length-replace_at xs i v)

abbrev pub Shards : Type 0 → Type 0 → Type 0
Shards K V = List (List (K × V))

abbrev pub IsSharded : {K V : Type 0} → Shards K V → Type 0
IsSharded s = length s ≡ shard_count

-- `DefaultHasher` is the argument `hash`.
unfoldable pub shard_index : {K : Type 0} → (K → ℕ) → K → ℕ
shard_index hash key = hash key % shard_count

module _ {K : Type 0} ⦃e : Eq K⦄ (hash : K → ℕ) {V : Type 0} where
  shard_of : K → Shards K V → List (K × V)
  unfolding at shard_index
  shard_of key s = at s (shard_index hash key) []

  unfoldable pub get : K → Shards K V → Option V
  unfolding shard_of
  get key s = lookup key (shard_of key s)

  unfoldable pub insert : K → V → Shards K V → Shards K V
  unfolding shard_of replace_at
  insert key v s = replace_at s (shard_index hash key) (put key v (shard_of key s))

  unfoldable pub remove : K → Shards K V → Shards K V
  unfolding shard_of replace_at
  remove key s = replace_at s (shard_index hash key) (delete key (shard_of key s))

  unfoldable pub clear : Shards K V → Shards K V
  clear s = map (λ _. []) s

  unfoldable pub prune : (K → Bool) → Shards K V → Shards K V
  prune keep s = map (retain keep) s

  shard_index-lt : (key : K) (s : Shards K V) → IsSharded s → shard_index hash key < length s
  unfolding shard_index
  shard_index-lt key s h = omega arith

  -- To change one key in its shard changes that key alone.
  lookup-replace_at :
      (k j : K) (m : List (K × V)) (r : Option V) (s : Shards K V)
      → IsSharded s
      → lookup j m ≡ (if k == j then r else lookup j (shard_of k s))
      → lookup j (shard_of j (replace_at s (shard_index hash k) m))
        ≡ (if k == j then r else lookup j (shard_of j s))
  unfolding shard_of
  lookup-replace_at k j m r s h e' =
      ap (lookup j)
        (at-replace_at s (shard_index hash k) (shard_index hash j) m [] (shard_index-lt k s h))
      ∙ split_shards (Bool-cases (nat_beq (shard_index hash k) (shard_index hash j)))
    where
      index_eq : k ≡ j → shard_index hash k ≡ shard_index hash j
      index_eq p = ap (shard_index hash) p

      split_shards :
          (nat_beq (shard_index hash k) (shard_index hash j) ≡ true)
            ⊎ (nat_beq (shard_index hash k) (shard_index hash j) ≡ false)
          → lookup j (
              if nat_beq (shard_index hash k) (shard_index hash j)
              then m
              else at s (shard_index hash j) [])
            ≡ (if k == j then r else lookup j (at s (shard_index hash j) []))
      split_shards (inl same) =
          rw same (rw ((nat_beq_iff (shard_index hash k) (shard_index hash j)).0 same) at e')
      split_shards (inr other) = rw other (ground (arith, e.beq_iff k j, index_eq))

  -- The shards together behave as one map, whatever the hash.
  pub get-insert :
      (k j : K) (v : V) (s : Shards K V)
      → IsSharded s
      → get j (insert k v s) ≡ (if k == j then some v else get j s)
  unfolding get insert
  get-insert k j v s h =
      lookup-replace_at k j (put k v (shard_of k s)) (some v) s h (lookup-put k j v (shard_of k s))

  pub get-remove :
      (k j : K) (s : Shards K V)
      → IsSharded s
      → get j (remove k s) ≡ (if k == j then none else get j s)
  unfolding get remove
  get-remove k j s h =
      lookup-replace_at k j (delete k (shard_of k s)) none s h (lookup-delete k j (shard_of k s))

  at-map :
      (f : List (K × V) → List (K × V)) (s : Shards K V) (i : ℕ)
      → f [] ≡ []
      → at (map f s) i [] ≡ f (at s i [])
  unfolding at
  at-map f [] i h = sym h
  at-map f (m ∷ s) zero h = refl
  at-map f (m ∷ s) (suc i) h = at-map f s i h

  pub get-clear : (j : K) (s : Shards K V) → get j (clear s) ≡ none
  unfolding get clear lookup
  get-clear j s = rw (at-map (λ _. []) s (shard_index hash j) refl)

  pub get-prune :
      (keep : K → Bool) (j : K) (s : Shards K V)
      → get j (prune keep s) ≡ (if keep j then get j s else none)
  unfolding get prune
  get-prune keep j s =
      ap (lookup j) (at-map (retain keep) s (shard_index hash j) (unfold retain in refl))
      ∙ lookup-retain keep j _

  pub insert-IsSharded : (k : K) (v : V) (s : Shards K V) → IsSharded s → IsSharded (insert k v s)
  unfolding insert
  insert-IsSharded k v s h = length-replace_at s _ _ ∙ h

  pub remove-IsSharded : (k : K) (s : Shards K V) → IsSharded s → IsSharded (remove k s)
  unfolding remove
  remove-IsSharded k s h = length-replace_at s _ _ ∙ h
