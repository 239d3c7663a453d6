-- ===== src/Discovery/ExecResolver/Token.antt =====
-- crates/rustern-core/src/discovery/exec_resolver.rs: what the token of a plugin is.
use rustern.Common.{
  ◌≡◌, ◌≢◌, refl, ap, ◌∙◌, sym, inl, inr, arith, Bool, true, false, [], Option, none, some, Text,
  text_eq, is_empty, Bool-cases,
}
use mathlib.Core.Option
use rustern.Discovery.ExecResolver.{
  Cluster, ExecConfig, ExecCredential, ExecCredentialStatus, Command, exec_command, no_token,
  with_token, credential_token, read_output, exec_info_json, run_exec_plugin, resolve_exec_token,
}

bind-some :
    {A B : Type 0} (o : Option A) (f : A → Option B) (b : B)
    → Option.bind o f ≡ some b
    → (a : A) × (o ≡ some a) × (f a ≡ some b)
unfolding Option.bind
bind-some none f b h = absurd (ground (arith, h))
bind-some (some a) f b h = (a, refl, h)

of_token :
    (status status' : ExecCredentialStatus) (t : Text)
    → with_token status ≡ some status'
    → status'.token ≡ some t
    → t ≢ []
unfolding with_token no_token is_empty
of_token status status' t h k e = elim (Bool-cases (no_token status.token)) [
  | inl is_none ↦ absurd (ground (arith, rw is_none at h))
  | inr n ↦
      let same : status ≡ status' = ap (λ o. Option.get_or o status) (rw n at h) in
      let n' : no_token (some t) ≡ false =
        ap no_token (sym k) ∙ ap (λ (s : ExecCredentialStatus). no_token s.token) (sym same) ∙ n in
      ground (arith, n', e)
]

of_output :
    {Output : Type 0} (from_slice : Output → Option ExecCredential) (success : Bool)
    (stdout : Output) (status : ExecCredentialStatus) (t : Text)
    → read_output from_slice (success, stdout) ≡ some status
    → status.token ≡ some t
    → t ≢ []
unfolding read_output credential_token
of_output from_slice false stdout status t h k = absurd (ground (arith, h))
of_output from_slice true stdout status t h k =
    let (cred, _, c) = bind-some (from_slice stdout) credential_token status h in
    let (status', _, w) = bind-some cred.status with_token status c in of_token status' status t w k

-- `serde_json`, and `Command::output`: whether the exit was a success and what was printed, or an error.
module _ {Output : Type 0} (to_string : ExecCredential → Option Text)
    (output : Command → Option (Bool × Output)) (from_slice : Output → Option ExecCredential) where
  -- A token that the plugin is asked for is never empty.
  pub resolve_exec_token-ne :
      (exec : ExecConfig) (cluster : Option Cluster) (t : Text)
      → resolve_exec_token to_string output from_slice exec cluster ≡ some t
      → t ≢ []
  unfolding resolve_exec_token run_exec_plugin
  resolve_exec_token-ne exec cluster t h =
      let (status, run, token) =
        bind-some (run_exec_plugin to_string output from_slice exec cluster) _ t h in
      let (command, _, r) = bind-some exec.command _ status run in
      let (json, _, r') = bind-some (exec_info_json to_string exec cluster) _ status r in
      let ((success, stdout), _, r'') =
        bind-some (output (exec_command exec command json)) _ status r' in
      of_output from_slice success stdout status t r'' token
