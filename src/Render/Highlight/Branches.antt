-- ===== src/Render/Highlight/Branches.antt =====
-- crates/rustern-core/src/render/highlight.rs: the pattern that the highlight compiles.
use rustern.Common.{
  ◌≡◌, ◌≢◌, refl, true, false, List, [], ◌∷◌, ◌++◌, some, arith, Text, codes, is_empty, join, ok,
  ◌>>=◌,
}
use mathlib.Core.List.{Perm}
use rustern.Common.Sorting.{IsSorted, sort, sort-IsSorted}
use rustern.Common.Permutation.{sort-Perm}
use rustern.Pipeline.External.{External}
use rustern.Render.Highlight.{
  longer, highlight_branches, compile_branches, compile_stern_highlight_regex,
}
use rustern.Render.Printing.{Printer}

longer_total : (a b : Text) → longer a b ≡ false → longer b a ≡ true
longer_total a b h = ground arith

module _ {x : External} (p : Printer x) where
  of_branches :
      (branches : List Text)
      → branches ≢ []
      → (bs : List Text) × IsSorted longer bs
        × Perm bs branches
        × (compile_branches p branches ≡ (
            p.regex_new (codes "(" ++ (join (codes "|") bs ++ codes ")")) >>= λ re. ok (some re)))
  unfolding compile_branches is_empty
  of_branches [] h = absurd (h refl)
  of_branches (b ∷ branches) h = (
    sort longer (b ∷ branches),
    sort-IsSorted longer longer_total (b ∷ branches),
    sort-Perm longer (b ∷ branches),
    refl,
  )

  -- Where a pattern is left after trimming, the regex of the highlight is the alternation of all the
  -- patterns that are left, the longest text first.
  pub compile-IsSorted :
      (includes highlights : List Text)
      → highlight_branches includes highlights ≢ []
      → (bs : List Text) × IsSorted longer bs
        × Perm bs (highlight_branches includes highlights)
        × (compile_stern_highlight_regex p includes highlights ≡ (
            p.regex_new (codes "(" ++ (join (codes "|") bs ++ codes ")")) >>= λ re. ok (some re)))
  unfolding compile_stern_highlight_regex
  compile-IsSorted includes highlights h = of_branches (highlight_branches includes highlights) h
