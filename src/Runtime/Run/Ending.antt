-- ===== src/Runtime/Run/Ending.antt =====
-- crates/rustern-core/src/runtime/run.rs and src/main.rs: the code of the process.
use rustern.Common.{
  ℕ, ◌≡◌, refl, Bool, true, false, ◌||◌, Option, none, some, is_some, nat_beq, if◌then◌else◌,
}
use rustern.Runtime.Run.{
  JoinError, Join, Stop, pipe_join_err, limit_hit, outcome, run_end, ok_code, exit_code,
}

-- 1 for an error of the run, 2 for an error of a source, and otherwise the code of the signal.
abbrev pub code : Bool → Bool → ℕ → ℕ
code failed errors reason =
    if failed
    then 1
    else if errors
    then 2
    else if nat_beq reason 1
    then 130
    else if nat_beq reason 2
    then 143
    else 0

module _ (K J : Type 0) where
  outcome-code :
      (e : Option JoinError) (limit triggered errors : Bool) (reason : ℕ)
      → exit_code (outcome {K = K} {J = J} e limit triggered errors) reason
        ≡ code (is_some e || limit || triggered) errors reason
  unfolding outcome exit_code ok_code
  outcome-code (some e) limit triggered errors reason = refl
  outcome-code none true triggered errors reason = refl
  outcome-code none false true errors reason = refl
  outcome-code none false false true reason = refl
  outcome-code none false false false reason = refl

  -- The code of a run, by why it stopped and what its tasks have seen.
  pub exit_code-run_end :
      (stop : Stop) (late : Join) (triggered errors : Bool) (reason : ℕ)
      → exit_code (run_end {K = K} {J = J} stop late triggered errors) reason
        ≡ code (is_some (pipe_join_err stop late) || limit_hit stop || triggered) errors reason
  unfolding run_end
  exit_code-run_end stop late triggered errors reason =
      outcome-code (pipe_join_err stop late) (limit_hit stop) triggered errors reason
