-- ===== src/Common/TextOrder.antt =====
-- `text_le` is a total order, and texts sorted by it are the same for every permutation of them.
use mathlib.Core.Bool.{true, false}
use mathlib.Core.List.{List, [], ◌∷◌, Perm}
use mathlib.Core.Path.{◌≡◌, refl}
use native.Mathlib.Omega.{arith}
use rustern.Common.Texts.{Text, text_le}
use rustern.Common.Sorting.{sort}
use rustern.Common.Permutation.{sort_of_perm}

pub text_le-total : (s t : Text) → text_le s t ≡ false → text_le t s ≡ true
unfolding text_le
text_le-total [] t h = ground arith
text_le-total (a ∷ s) [] h = refl
text_le-total (a ∷ s) (b ∷ t) h = ground (arith, text_le-total s t)

pub text_le-antisym : (s t : Text) → text_le s t ≡ true → text_le t s ≡ true → s ≡ t
unfolding text_le
text_le-antisym [] [] h k = refl
text_le-antisym [] (b ∷ t) h k = ground arith
text_le-antisym (a ∷ s) [] h k = ground arith
text_le-antisym (a ∷ s) (b ∷ t) h k = ground (arith, text_le-antisym s t)

text_le_trans : (s t u : Text) → text_le s t ≡ true → text_le t u ≡ true → text_le s u ≡ true
unfolding text_le
text_le_trans [] t u h k = refl
text_le_trans (a ∷ s) [] u h k = ground arith
text_le_trans (a ∷ s) (b ∷ t) [] h k = ground arith
text_le_trans (a ∷ s) (b ∷ t) (c ∷ u) h k = ground (arith, text_le_trans s t u)

pub sort_texts_of_perm : {ss ts : List Text} → Perm ss ts → sort text_le ss ≡ sort text_le ts
sort_texts_of_perm p = sort_of_perm text_le text_le-total text_le-antisym text_le_trans (hlevel) p
