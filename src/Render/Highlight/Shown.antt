-- ===== src/Render/Highlight/Shown.antt =====
-- crates/rustern-core/src/render/highlight.rs: what becomes of the text of a highlighted line.
use rustern.Common.{
  ℕ, zero, suc, ◌+◌, ◌-◌, ◌≤◌, ◌≡◌, refl, sym, ap, ◌∙◌, List, [], ◌∷◌, ◌++◌, length, Option, none,
  some, arith, Text, le→leb,
}
use mathlib.Core.List.{append-nil, append_assoc}
use mathlib.Core.Option
use rustern.Pipeline.External.{External}
use rustern.Render.Highlight.{
  take, drop, slice, highlight_from, highlight_matches, highlight_default_line,
}
use rustern.Render.Printing.{Printer}

take-append-drop : (i : ℕ) (l : Text) → take i l ++ drop i l ≡ l
unfolding take drop
take-append-drop zero l = refl
take-append-drop (suc i) [] = refl
take-append-drop (suc i) (a ∷ l) = ap (λ t. a ∷ t) (take-append-drop i l)

take-nil : (i : ℕ) → take {A = ℕ} i [] ≡ []
unfolding take
take-nil zero = refl
take-nil (suc i) = refl

-- The end of a list from `i` on starts with what lies between `i` and `j`.
between : (i j : ℕ) (l : Text) → i ≤ j → take (j - i) (drop i l) ++ drop j l ≡ drop i l
unfolding take drop
between zero j l h = let e : j - 0 ≡ j = omega arith in rw e (take-append-drop j l)
between (suc i) zero l h = absurd (omega arith)
between (suc i) (suc j) [] h = rw (take-nil (suc j - suc i)) refl
between (suc i) (suc j) (a ∷ l) h =
    let e : suc j - suc i ≡ j - i = omega arith in rw e (between i j l (omega arith))

drop-length : (l : Text) → drop (length l) l ≡ []
unfolding drop
drop-length [] = refl
drop-length (a ∷ l) = drop-length l

slice-between :
    (text : Text) (i j : ℕ)
    → i ≤ j
    → j ≤ length text
    → slice text i j ≡ some (take (j - i) (drop i text))
unfolding slice
slice-between text i j h k = rw (le→leb i j h, le→leb j (length text) k) refl

slice-rest :
    (text : Text) (i : ℕ) → i ≤ length text → slice text i (length text) ≡ some (drop i text)
slice-rest text i h =
    slice-between text i (length text) h (omega arith)
    ∙ ap some (
        sym (append-nil (take (length text - i) (drop i text)))
        ∙ ap (λ t. take (length text - i) (drop i text) ++ t) (sym (drop-length text))
        ∙ between i (length text) text h)

-- What `find_iter` documents: matches from left to right, which do not overlap.
abbrev pub AreMatches : ℕ → ℕ → List (ℕ × ℕ) → Type 0
AreMatches n last [] = last ≤ n
AreMatches n last ((start, end) ∷ ms) = (last ≤ start) × (start ≤ end) × AreMatches n end ms

AreMatches-le : (n last : ℕ) (ms : List (ℕ × ℕ)) → AreMatches n last ms → last ≤ n
AreMatches-le n last [] h = h
AreMatches-le n last ((start, end) ∷ ms) h = omega (arith, AreMatches-le n end ms h.2)

take-length : (i : ℕ) (l : Text) → i ≤ length l → length (take i l) ≡ i
unfolding take
take-length zero l h = refl
take-length (suc i) [] h = absurd (omega arith)
take-length (suc i) (a ∷ l) h = ap suc (take-length i l (omega arith))

length-drop : (i : ℕ) (l : Text) → i ≤ length l → i + length (drop i l) ≡ length l
unfolding drop
length-drop zero l h = omega arith
length-drop (suc i) [] h = absurd (omega arith)
length-drop (suc i) (a ∷ l) h = omega (arith, length-drop i l (omega arith))

length-between :
    (i j : ℕ) (l : Text) → i ≤ j → j ≤ length l → i + length (take (j - i) (drop i l)) ≡ j
length-between i j l h k =
    let total = length-drop i l (omega arith) in
    let e = take-length (j - i) (drop i l) (omega (arith, total)) in omega (arith, e)

-- A piece of a line: left as it is, or emphasised.
pub data Piece : Type 0 where
  kept emphasised : Text → Piece

-- The text that is cut into the pieces.
abbrev pub uncut : List Piece → Text
uncut [] = []
uncut (kept s ∷ ps) = s ++ uncut ps
uncut (emphasised s ∷ ps) = s ++ uncut ps

-- Where the emphasised pieces start and end, if the pieces start at `at`.
abbrev pub spans : ℕ → List Piece → List (ℕ × ℕ)
spans at [] = []
spans at (kept s ∷ ps) = spans (at + length s) ps
spans at (emphasised s ∷ ps) = (at, at + length s) ∷ spans (at + length s) ps

module _ {x : External} (p : Printer x) where
  -- The pieces with their escapes.
  abbrev pub painted : List Piece → Text
  painted [] = []
  painted (kept s ∷ ps) = s ++ painted ps
  painted (emphasised s ∷ ps) = p.red_bold s ++ painted ps

  regroup :
      (out before found rest : Text)
      → (out ++ (before ++ found)) ++ rest ≡ out ++ (before ++ (found ++ rest))
  regroup out before found rest = simp append_assoc

  highlight_from-Cut :
      (text : Text) (ms : List (ℕ × ℕ)) (last : ℕ) (out : Text)
      → AreMatches (length text) last ms
      → (ps : List Piece) × (highlight_from p text ms last out ≡ some (out ++ painted ps))
        × (uncut ps ≡ drop last text)
        × (spans last ps ≡ ms)
  unfolding highlight_from Option.bind
  highlight_from-Cut text [] last out m = (
    kept (drop last text) ∷ [],
    rw (slice-rest text last m, append-nil (drop last text)) refl,
    append-nil (drop last text),
    refl,
  )
  highlight_from-Cut text ((start, end) ∷ ms) last out m =
      let to_end = AreMatches-le (length text) end ms m.2 in
      let before = take (start - last) (drop last text) in
      let found = take (end - start) (drop start text) in
      let starts : start ≤ length text = omega (arith, to_end, m.1) in
      let (ps, e, u, s) =
        highlight_from-Cut text ms end (out ++ (before ++ p.red_bold found)) m.2 in
      (
        kept before ∷ emphasised found ∷ ps,
        rw (slice-between text last start m.0 starts, slice-between text start end m.1 to_end)
            (e ∙ ap some (regroup out before (p.red_bold found) (painted ps))),
        ap (λ t. before ++ (found ++ t)) u
            ∙ ap (λ t. before ++ t) (between start end text m.1)
            ∙ between last start text m.0,
        rw (length-between last start text m.0 starts, length-between start end text m.1 to_end)
            (ap (λ l. (start, end) ∷ l) s),
      )

  -- What is written for a text that may be highlighted.
  abbrev pub IsCut : Text → List (ℕ × ℕ) → Option (Option Text) → Type 0
  IsCut text ms r =
      (h : Option Text) × (r ≡ some h)
      × (ps : List Piece) × (Option.get_or h text ≡ painted ps)
      × (uncut ps ≡ text)
      × (spans 0 ps ≡ ms)

  highlight_matches-IsCut :
      (text : Text) (ms : List (ℕ × ℕ))
      → AreMatches (length text) 0 ms
      → IsCut text ms (highlight_matches p text ms)
  unfolding highlight_matches drop
  highlight_matches-IsCut text [] m =
      (none, refl, kept text ∷ [], sym (append-nil text), append-nil text, refl)
  highlight_matches-IsCut text (a ∷ ms) m =
      let (ps, e, u, s) = highlight_from-Cut text (a ∷ ms) 0 [] m in
      (some (painted ps), ap (Option.map some) e, ps, refl, u, s)

  -- If the matches lie in the text, from left to right and without an overlap: highlighting does not panic,
  -- and what is written is the whole text, cut into pieces of which exactly the matches are bold red.
  pub highlight_default_line-IsCut :
      (text : Text) (re : x.Regex)
      → AreMatches (length text) 0 (p.find_iter re text)
      → IsCut text (p.find_iter re text) (highlight_default_line p text re)
  unfolding highlight_default_line
  highlight_default_line-IsCut text re m = highlight_matches-IsCut text (p.find_iter re text) m
