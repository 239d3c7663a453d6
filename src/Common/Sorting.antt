-- ===== src/Common/Sorting.antt =====
-- `sort` by a total comparison, as insertion sort: the sorted order of distinct keys is unique.
use mathlib.Core.Bool.{Bool, true, false, ◌||◌}
use mathlib.Core.List.{List, [], ◌∷◌}
use mathlib.Core.Path.{◌≡◌, refl}
use mathlib.Core.Logic.{inl, inr}
use native.Mathlib.Omega.{arith}
use rustern.Common.Bools.{if◌then◌else◌, Bool-cases}
use rustern.Common.Equality.{Eq, ◌==◌}
use rustern.Common.Sets.{contains, IsDistinct}

module _ {ℓ} {A : Type ℓ} (le : A → A → Bool) where
  unfoldable pub insert_sorted : A → List A → List A
  insert_sorted a [] = a ∷ []
  insert_sorted a (x ∷ xs) =
      let rest = insert_sorted a xs in if le a x then a ∷ x ∷ xs else x ∷ rest

  unfoldable pub sort : List A → List A
  unfolding insert_sorted
  sort [] = []
  sort (x ∷ xs) = insert_sorted x (sort xs)

  -- Each item is at most the next.
  abbrev pub IsSorted : List A → Type 0
  IsSorted [] = Unit {0}
  IsSorted (x ∷ []) = Unit {0}
  IsSorted (x ∷ y ∷ xs) = (le x y ≡ true) × IsSorted (y ∷ xs)

  module _ (total : (a b : A) → le a b ≡ false → le b a ≡ true) where
    insert_sorted-IsSorted : (a : A) (xs : List A) → IsSorted xs → IsSorted (insert_sorted a xs)
    unfolding insert_sorted
    insert_sorted-IsSorted a [] s = tt
    insert_sorted-IsSorted a (x ∷ []) s = elim (Bool-cases (le a x)) [
      | inl e ↦ rw e (e, tt)
      | inr n ↦ rw n (total a x n, tt)
    ]
    insert_sorted-IsSorted a (x ∷ y ∷ xs) s = elim (Bool-cases (le a x)) [
      | inl e ↦ rw e (e, s)
      | inr n ↦ rw n (below_head (total a x n) (insert_sorted-IsSorted a (y ∷ xs) s.1))
    ]
      where
        below_head :
            le x a ≡ true
            → IsSorted (insert_sorted a (y ∷ xs))
            → IsSorted (x ∷ insert_sorted a (y ∷ xs))
        below_head h t = elim (Bool-cases (le a y)) [
          | inl e ↦ rw e (h, (e, s.1))
          | inr n ↦ rw n (s.0, rw n at t)
        ]

    pub sort-IsSorted : (xs : List A) → IsSorted (sort xs)
    unfolding sort
    sort-IsSorted [] = tt
    sort-IsSorted (x ∷ xs) = insert_sorted-IsSorted x (sort xs) (sort-IsSorted xs)

module _ {ℓ} {A : Type ℓ} ⦃e : Eq A⦄ (le : A → A → Bool) where
  contains-insert_sorted :
      (b a : A) (xs : List A) → contains b (insert_sorted le a xs) ≡ ((b == a) || contains b xs)
  unfolding contains insert_sorted
  contains-insert_sorted b a [] = refl
  contains-insert_sorted b a (x ∷ xs) = ground (arith, contains-insert_sorted b a xs)

  pub contains-sort : (b : A) (xs : List A) → contains b (sort le xs) ≡ contains b xs
  unfolding contains sort
  contains-sort b [] = refl
  contains-sort b (x ∷ xs) =
      ground (arith, contains-insert_sorted b x (sort le xs), contains-sort b xs)

  insert_sorted-IsDistinct :
      (a : A) (xs : List A)
      → contains a xs ≡ false
      → IsDistinct xs
      → IsDistinct (insert_sorted le a xs)
  unfolding insert_sorted contains
  insert_sorted-IsDistinct a [] h d = (refl, tt)
  insert_sorted-IsDistinct a (x ∷ xs) h d = ground (
    arith,
    insert_sorted-IsDistinct a xs,
    contains-insert_sorted x a xs,
    e.beq_iff a x,
    e.beq_iff x a,
  )

  pub sort-IsDistinct : (xs : List A) → IsDistinct xs → IsDistinct (sort le xs)
  unfolding sort
  sort-IsDistinct [] d = tt
  sort-IsDistinct (x ∷ xs) d =
      insert_sorted-IsDistinct x (sort le xs) (ground (arith, contains-sort x xs))
        (sort-IsDistinct xs d.1)

pub IsSorted-same {ℓ} :
    {A : Type ℓ} (le le' : A → A → Bool) (xs : List A)
    → ((a b : A) → le a b ≡ le' a b)
    → IsSorted le xs
    → IsSorted le' xs
IsSorted-same le le' [] e s = tt
IsSorted-same le le' (x ∷ []) e s = tt
IsSorted-same le le' (x ∷ y ∷ xs) e s = (rw (← e x y) s.0, IsSorted-same le le' (y ∷ xs) e s.1)
