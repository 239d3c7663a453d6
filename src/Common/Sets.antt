-- ===== src/Common/Sets.antt =====
-- `HashSet`: a list of keys read through `contains`. The laws are equations between tests.
use mathlib.Core.Bool.{Bool, false, not, ◌&&◌, ◌||◌}
use mathlib.Core.List.{List, [], ◌∷◌, ◌++◌}
use mathlib.Core.Path.{◌≡◌, refl}
use native.Mathlib.Omega.{arith}
use rustern.Common.Bools.{if◌then◌else◌}
use rustern.Common.Equality.{Eq, ◌==◌}
use rustern.Common.Lists.{filter}

module _ {ℓ} {A : Type ℓ} ⦃e : Eq A⦄ where
  unfoldable pub contains : A → List A → Bool
  contains a [] = false
  contains a (x ∷ xs) = (a == x) || contains a xs

  -- `HashSet::insert`, without its answer, which is `not (contains a xs)`.
  unfoldable pub insert : A → List A → List A
  insert a xs = if contains a xs then xs else a ∷ xs

  -- `HashSet::remove`.
  unfoldable pub remove : A → List A → List A
  remove a [] = []
  remove a (x ∷ xs) = let rest = remove a xs in if a == x then rest else x ∷ rest

  -- `HashSet::difference`.
  unfoldable pub difference : List A → List A → List A
  difference xs ys = filter (λ x. not (contains x ys)) xs

  -- `collect` into a set.
  unfoldable pub from_list : List A → List A
  unfolding insert
  from_list [] = []
  from_list (x ∷ xs) = insert x (from_list xs)

  -- Each key stands once.
  abbrev pub IsDistinct : List A → Type 0
  IsDistinct [] = Unit {0}
  IsDistinct (x ∷ xs) = (contains x xs ≡ false) × IsDistinct xs

  pub contains-insert :
      (b a : A) (xs : List A) → contains b (insert a xs) ≡ ((b == a) || contains b xs)
  unfolding contains insert
  contains-insert b a xs = ground (arith, e.beq_iff b a)

  pub contains-remove :
      (b a : A) (xs : List A) → contains b (remove a xs) ≡ (not (a == b) && contains b xs)
  unfolding contains remove
  contains-remove b a [] = ground arith
  contains-remove b a (x ∷ xs) =
      ground (arith, contains-remove b a xs, e.beq_iff a x, e.beq_iff a b, e.beq_iff b x)

  pub contains-append :
      (b : A) (xs ys : List A) → contains b (xs ++ ys) ≡ (contains b xs || contains b ys)
  unfolding contains
  contains-append b [] ys = refl
  contains-append b (x ∷ xs) ys = ground (arith, contains-append b xs ys)

  pub contains-filter :
      (p : A → Bool) (b : A) (xs : List A) → contains b (filter p xs) ≡ (contains b xs && p b)
  unfolding contains filter
  contains-filter p b [] = refl
  contains-filter p b (x ∷ xs) = ground (arith, contains-filter p b xs, e.beq_iff b x)

  pub contains-difference :
      (b : A) (xs ys : List A)
      → contains b (difference xs ys) ≡ (contains b xs && not (contains b ys))
  unfolding difference
  contains-difference b xs ys = contains-filter (λ x. not (contains x ys)) b xs

  pub contains-from_list : (b : A) (xs : List A) → contains b (from_list xs) ≡ contains b xs
  unfolding from_list contains
  contains-from_list b [] = refl
  contains-from_list b (x ∷ xs) =
      ground (arith, contains-insert b x (from_list xs), contains-from_list b xs)

  pub insert-IsDistinct : (a : A) (xs : List A) → IsDistinct xs → IsDistinct (insert a xs)
  unfolding insert
  insert-IsDistinct a xs h = ground arith

  pub remove-IsDistinct : (a : A) (xs : List A) → IsDistinct xs → IsDistinct (remove a xs)
  unfolding remove
  remove-IsDistinct a [] h = tt
  remove-IsDistinct a (x ∷ xs) h =
      ground (arith, remove-IsDistinct a xs h.1, contains-remove x a xs)

  pub from_list-IsDistinct : (xs : List A) → IsDistinct (from_list xs)
  unfolding from_list
  from_list-IsDistinct [] = tt
  from_list-IsDistinct (x ∷ xs) = insert-IsDistinct x (from_list xs) (from_list-IsDistinct xs)

  pub filter-IsDistinct : (p : A → Bool) (xs : List A) → IsDistinct xs → IsDistinct (filter p xs)
  unfolding filter
  filter-IsDistinct p [] h = tt
  filter-IsDistinct p (x ∷ xs) h =
      ground (arith, filter-IsDistinct p xs h.1, contains-filter p x xs)
