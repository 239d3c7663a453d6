-- ===== src/Discovery/ExecResolver.antt =====
-- crates/rustern-core/src/discovery/exec_resolver.rs: the token of an exec credential plugin. Of the
-- types of kube the fields that are read are kept.
pub mod Environment
pub mod Token
use rustern.Common.{
  ◌≡◌, ◌≢◌, refl, ap, ◌∙◌, sym, ◌⊎◌, inl, inr, arith, Bool, true, false, not, ◌&&◌, ◌||◌, List, [],
  ◌∷◌, ◌++◌, Option, none, some, or_else, is_some, Text, codes, text_eq, text_beq_iff, ◌==◌,
  is_empty, if◌then◌else◌, Option-cases,
}
use mathlib.Core.Option
use rustern.Common.Maps.{lookup, put, lookup-put}
use rustern.Common.Sets.{contains}

pub record Cluster : Type 0 where
  pub server : Option Text
  pub certificate_authority_data : Option Text
  pub insecure_skip_tls_verify : Option Bool

pub data ExecInteractiveMode : Type 0 where
  never if_available always : ExecInteractiveMode

-- An entry of `env` is a map of strings.
pub record ExecConfig : Type 0 where
  pub api_version : Option Text
  pub command : Option Text
  pub args : Option (List Text)
  pub env : Option (List (List (Text × Text)))
  pub drop_env : Option (List Text)
  pub interactive_mode : Option ExecInteractiveMode
  pub provide_cluster_info : Bool

pub record ExecCredentialCluster : Type 0 where
  pub server : Option Text
  pub certificate_authority_data : Option Text
  pub insecure_skip_tls_verify : Option Bool

pub record ExecCredentialSpec : Type 0 where
  pub cluster : Option ExecCredentialCluster
  pub interactive : Option Bool

pub record ExecCredentialStatus : Type 0 where
  pub token : Option Text
  pub expiration_timestamp : Option Text
  pub client_certificate_data : Option Text
  pub client_key_data : Option Text

pub record ExecCredential : Type 0 where
  pub api_version : Option Text
  pub kind : Option Text
  pub spec : Option ExecCredentialSpec
  pub status : Option ExecCredentialStatus

-- `Command` of the standard library: the changes to the environment by their names, where `none`
-- removes a variable, and the streams that were set.
pub data Stdio : Type 0 where
  inherit piped : Stdio

pub record Command : Type 0 where
  pub program : Text
  pub args : List Text
  pub env : List (Text × Option Text)
  pub stdin : Option Stdio
  pub stderr : Option Stdio

unfoldable pub exec_cluster_from_config : Cluster → ExecCredentialCluster
exec_cluster_from_config cluster = record {
  server = cluster.server;
  certificate_authority_data = cluster.certificate_authority_data;
  insecure_skip_tls_verify = cluster.insecure_skip_tls_verify;
}

-- The variable that an entry sets.
unfoldable pub env_entry : List (Text × Text) → Option (Text × Text)
env_entry entry =
    Option.bind (lookup (codes "name") entry)
      λ name. Option.map (λ value. (name, value)) (lookup (codes "value") entry)

set_env : Option (Text × Text) → Command → Command
set_env none cmd = cmd
set_env (some (name, value)) cmd = record cmd { env = put name (some value) cmd.env }

set_entries : List (List (Text × Text)) → Command → Command
unfolding set_env env_entry
set_entries [] cmd = cmd
set_entries (entry ∷ entries) cmd = set_entries entries (set_env (env_entry entry) cmd)

unfoldable pub apply_exec_env : Option (List (List (Text × Text))) → Command → Command
unfolding set_entries
apply_exec_env env cmd = set_entries (Option.get_or env []) cmd

remove_names : List Text → Command → Command
remove_names [] cmd = cmd
remove_names (name ∷ names) cmd = remove_names names (record cmd { env = put name none cmd.env })

unfoldable pub apply_drop_env : Option (List Text) → Command → Command
unfolding remove_names
apply_drop_env drop_env cmd = remove_names (Option.get_or drop_env []) cmd

-- `exec.interactive_mode != Some(ExecInteractiveMode::Never)`.
unfoldable pub is_interactive : ExecConfig → Bool
is_interactive exec = elim exec.interactive_mode [ some never ↦ false | _ ↦ true ]

unfoldable pub exec_info : ExecConfig → Option Cluster → ExecCredential
unfolding exec_cluster_from_config is_interactive
exec_info exec cluster = record {
  api_version = or_else exec.api_version (some (codes "client.authentication.k8s.io/v1"));
  kind = some (codes "ExecCredential");
  spec = some (record {
    cluster = Option.map exec_cluster_from_config cluster;
    interactive = some (is_interactive exec);
  });
  status = none;
}

abbrev pub exec_info_name : Text
exec_info_name = codes "KUBERNETES_EXEC_INFO"

-- The command that is run, once the text of the variable is there.
unfoldable pub exec_command : ExecConfig → Text → Text → Command
unfolding apply_exec_env apply_drop_env is_interactive
exec_command exec command json =
    let new : Command = record {
      program = command;
      args = Option.get_or exec.args [];
      env = [];
      stdin = none;
      stderr = none;
    } in
    let cmd = apply_exec_env exec.env new in
    let cmd = record cmd {
      env = put exec_info_name (some json) cmd.env;
      stdin = some (if is_interactive exec then inherit else piped);
      stderr = if is_interactive exec then some inherit else cmd.stderr;
    } in
    apply_drop_env exec.drop_env cmd

unfoldable pub exec_info_json :
    (ExecCredential → Option Text) → ExecConfig → Option Cluster → Option Text
unfolding exec_info
exec_info_json to_string exec cluster =
    if exec.provide_cluster_info && not (is_some cluster)
    then none
    else to_string (exec_info exec cluster)

no_token : Option Text → Bool
no_token none = true
no_token (some t) = is_empty t

with_token : ExecCredentialStatus → Option ExecCredentialStatus
unfolding no_token
with_token status = if no_token status.token then none else some status

credential_token : ExecCredential → Option ExecCredentialStatus
unfolding with_token
credential_token cred = Option.bind cred.status with_token

read_output :
    {Output : Type 0}
    → (Output → Option ExecCredential)
    → Bool × Output
    → Option ExecCredentialStatus
unfolding credential_token
read_output from_slice (success, stdout) =
    if success then Option.bind (from_slice stdout) credential_token else none

-- `serde_json`, and `Command::output`: whether the exit was a success and what was printed, or an error.
module _ {Output : Type 0} (to_string : ExecCredential → Option Text)
    (output : Command → Option (Bool × Output)) (from_slice : Output → Option ExecCredential) where
  unfoldable pub run_exec_plugin : ExecConfig → Option Cluster → Option ExecCredentialStatus
  unfolding exec_info_json read_output exec_command
  run_exec_plugin exec cluster = Option.bind exec.command λ command.
      Option.bind (exec_info_json to_string exec cluster)
        λ json. Option.bind (output (exec_command exec command json)) (read_output from_slice)

  unfoldable pub resolve_exec_token : ExecConfig → Option Cluster → Option Text
  unfolding run_exec_plugin
  resolve_exec_token exec cluster =
      Option.bind (run_exec_plugin exec cluster) λ (status : ExecCredentialStatus). status.token
