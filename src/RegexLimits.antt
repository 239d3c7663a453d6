-- ===== src/RegexLimits.antt =====
-- crates/rustern-core/src/regex_limits.rs: the patterns of the user.
use rustern.Common.{
  ℕ, ◌≤◌, ◌≡◌, arith, Text, codes, ◌++◌, byte_len, ltb, if◌then◌else◌, Result, ok, err, map_err,
  Bool-cases, inl, inr,
}

-- `MAX_USER_REGEX_PATTERN_LEN`
abbrev pub max_user_regex_pattern_len : ℕ
max_user_regex_pattern_len = 1024

-- `regex_new` is `Regex::new` with the text of its error.
module _ {R : Type 0} (regex_new : Text → Result R Text) where
  unfoldable pub compile_user_regex : Text → Text → Result R Text
  compile_user_regex label pattern =
      if ltb max_user_regex_pattern_len (byte_len pattern)
      then err (label ++ codes ": pattern exceeds 1024 characters")
      else map_err (λ e. codes "invalid " ++ (label ++ (codes " regex: " ++ e))) (regex_new pattern)

  ok_of_map_err : (f : Text → Text) (r : Result R Text) (re : R) → map_err f r ≡ ok re → r ≡ ok re
  ok_of_map_err f (ok a) re h = h
  ok_of_map_err f (err e) re h = absurd (ground (arith, h))

  -- A pattern of the user that compiles is short enough, and is the regex of its text.
  pub compile_user_regex-ok :
      (label pattern : Text) (re : R)
      → compile_user_regex label pattern ≡ ok re
      → (byte_len pattern ≤ max_user_regex_pattern_len) × (regex_new pattern ≡ ok re)
  unfolding compile_user_regex
  compile_user_regex-ok label pattern re h =
      elim (Bool-cases (ltb max_user_regex_pattern_len (byte_len pattern))) [
        | inl e ↦ absurd (ground (arith, rw e at h))
        | inr n ↦ (ground (arith, n), ok_of_map_err _ (regex_new pattern) re (rw n at h))
      ]
