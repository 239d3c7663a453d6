-- ===== src/Common/Permutation.antt =====
-- `sort` and the order of what is sorted: the result is a permutation of the input, and for a total
-- order it is the same for every permutation of it.
use mathlib.Core.Bool.{Bool, true, false}
use mathlib.Core.List.{List, [], ◌∷◌, Perm}
use mathlib.Core.List.Perm
use mathlib.Core.List.{Permᴰ}
use mathlib.Core.List.{is_set}
use mathlib.Core.Logic.{∥∥₁_elim}
use mathlib.Core.Path.{◌≡◌, refl, ap, ◌∙◌}
use mathlib.Core.Logic.{inl, inr}
use native.Mathlib.Omega.{arith}
use rustern.Common.Bools.{Bool-cases}
use rustern.Common.Sorting.{insert_sorted, sort}

module _ {ℓ} {A : Type ℓ} (le : A → A → Bool) where
  insert_sorted-Perm : (a : A) (xs : List A) → Perm (insert_sorted le a xs) (a ∷ xs)
  unfolding insert_sorted
  insert_sorted-Perm a [] = Perm.rfl
  insert_sorted-Perm a (x ∷ xs) = elim (Bool-cases (le a x)) [
    | inl e ↦ rw e Perm.rfl
    | inr n ↦ rw n (Perm.trans (Perm.cons x (insert_sorted-Perm a xs)) (Perm.swap a x xs))
  ]

  pub sort-Perm : (xs : List A) → Perm (sort le xs) xs
  unfolding sort
  sort-Perm [] = Perm.rfl
  sort-Perm (x ∷ xs) = Perm.trans (insert_sorted-Perm x (sort le xs)) (Perm.cons x (sort-Perm xs))

  module _ (total : (a b : A) → le a b ≡ false → le b a ≡ true)
      (antisym : (a b : A) → le a b ≡ true → le b a ≡ true → a ≡ b)
      (trans : (a b c : A) → le a b ≡ true → le b c ≡ true → le a c ≡ true) where
    insert_sorted_comm :
        (a b : A) (xs : List A)
        → insert_sorted le a (insert_sorted le b xs) ≡ insert_sorted le b (insert_sorted le a xs)
    unfolding insert_sorted
    insert_sorted_comm a b [] = ground (arith, total a b, total b a, antisym a b)
    insert_sorted_comm a b (x ∷ xs) = ground (
      arith,
      insert_sorted_comm a b xs,
      total a b,
      total b a,
      antisym a b,
      trans a b x,
      trans b a x,
      total a x,
      total b x,
      trans a x b,
      trans b x a,
    )

    sort-permᴰ : {xs ys : List A} → Permᴰ xs ys → sort le xs ≡ sort le ys
    unfolding sort
    sort-permᴰ Permᴰ.nil = refl
    sort-permᴰ (Permᴰ.cons {b = b} {l₁ = l₁} e d) = rw e (ap (insert_sorted le b) (sort-permᴰ d))
    sort-permᴰ (Permᴰ.swap {a = a} {b = b} {l = l} e d) =
        rw (← e, ← d) (insert_sorted_comm a b (sort le l))
    sort-permᴰ (Permᴰ.trans d d') = sort-permᴰ d ∙ sort-permᴰ d'

    pub sort_of_perm : IsSet A → {xs ys : List A} → Perm xs ys → sort le xs ≡ sort le ys
    sort_of_perm h {xs} {ys} p = ∥∥₁_elim p (is_set h (sort le xs) (sort le ys)) sort-permᴰ
