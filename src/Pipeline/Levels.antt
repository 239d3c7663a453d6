-- ===== src/Pipeline/Levels.antt =====
-- Log levels: exit_watch.rs and level_classify.rs read the same words.
use rustern.Common.{
  ℕ, ◌≡◌, refl, true, not, ◌||◌, List, [], ◌∷◌, arith, Text, codes, is_empty, filter, map, split,
  trim, text_beq, text_beq_iff, to_ascii_lowercase, eq_ignore_ascii_case, if◌then◌else◌, Bool-cases,
  Option-cases, inl, inr, ok,
}
use rustern.Source.{other}
use rustern.Pipeline.External.{External}
use rustern.Pipeline.Stages.{
  ExitOnLevel, parse, classify_exit_level, rank, event_level_rank, classify_str, val_dot_path,
  val_dot_path_with_keys, jaq_dot_path_keys, walk_segments,
}

-- To classify a level word does not change its rank: the words that stay `other` have the rank that
-- an unclassified event of that word has.
pub event_level_rank-classify_str :
    (s : Text) → event_level_rank (classify_str s) ≡ event_level_rank (other s)
unfolding event_level_rank classify_str
event_level_rank-classify_str s = ground arith

-- The rank of a word in lower case.
abbrev word_rank : Text → ℕ
word_rank w =
    if text_beq w (codes "error") || text_beq w (codes "err") || text_beq w (codes "fatal")
    then 4
    else if text_beq w (codes "warn") || text_beq w (codes "warning")
    then 3
    else if text_beq w (codes "info")
    then 2
    else if text_beq w (codes "debug")
    then 1
    else if text_beq w (codes "trace")
    then 0
    else 2

word_rank-trace : (w : Text) → text_beq w (codes "trace") ≡ true → word_rank w ≡ 0
unfolding text_beq
word_rank-trace w h = rw ((text_beq_iff w _).0 h)

word_rank-debug : (w : Text) → text_beq w (codes "debug") ≡ true → word_rank w ≡ 1
unfolding text_beq
word_rank-debug w h = rw ((text_beq_iff w _).0 h)

word_rank-info : (w : Text) → text_beq w (codes "info") ≡ true → word_rank w ≡ 2
unfolding text_beq
word_rank-info w h = rw ((text_beq_iff w _).0 h)

word_rank-warn :
    (w : Text)
    → (text_beq w (codes "warn") || text_beq w (codes "warning")) ≡ true
    → word_rank w ≡ 3
unfolding text_beq
word_rank-warn w h = elim (Bool-cases (text_beq w (codes "warn"))) [
  | inl e ↦ rw ((text_beq_iff w _).0 e)
  | inr n ↦ rw ((text_beq_iff w (codes "warning")).0 (ground arith))
]

rank-classify :
    (w : Text) {level : ExitOnLevel} → classify_exit_level w ≡ ok level → rank level ≡ word_rank w
unfolding classify_exit_level rank
rank-classify w h =
    ground (arith, word_rank-trace w, word_rank-debug w, word_rank-info w, word_rank-warn w)

-- A threshold that `--exit-on-level` accepts has the rank of the trimmed word in a log line.
pub rank-parse :
    (raw : Text) {level : ExitOnLevel}
    → parse raw ≡ ok level
    → rank level ≡ event_level_rank (other (trim raw))
unfolding parse event_level_rank eq_ignore_ascii_case
rank-parse raw h = rank-classify (to_ascii_lowercase (trim raw)) h

module _ (x : External) where
  open x use {Val, utf8_str, obj}

  walk-keys :
      (v : Val) (segments : List Text)
      → walk_segments x v segments
        ≡ val_dot_path_with_keys x v
            (map utf8_str (filter (λ segment. not (is_empty segment)) segments))
  unfolding walk_segments val_dot_path_with_keys filter is_empty
  walk-keys v [] = refl
  walk-keys v ([] ∷ rest) = walk-keys v rest
  walk-keys v ((c ∷ s) ∷ rest) = elim (Option-cases (obj v)) [
    | inl e ↦ rw (e, walk_segments, val_dot_path_with_keys)
    | inr (get, e) ↦ elim (Option-cases (get (utf8_str (c ∷ s)))) [
      | inl e' ↦ rw (e, walk_segments, val_dot_path_with_keys, e')
      | inr (w, e') ↦ rw (e, walk_segments, val_dot_path_with_keys, e') (walk-keys w rest)
    ]
  ]

  -- The keys that `level_classify` computes once lead where the walk of the path leads.
  pub val_dot_path-keys :
      (v : Val) (path : Text)
      → val_dot_path x v path ≡ val_dot_path_with_keys x v (jaq_dot_path_keys x path)
  unfolding val_dot_path jaq_dot_path_keys
  val_dot_path-keys v path = walk-keys v (split b'.' path)
