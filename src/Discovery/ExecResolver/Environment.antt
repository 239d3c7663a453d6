-- ===== src/Discovery/ExecResolver/Environment.antt =====
-- crates/rustern-core/src/discovery/exec_resolver.rs: the environment of the plugin.
use rustern.Common.{
  ◌≡◌, refl, ◌∙◌, arith, List, [], ◌∷◌, none, some, Text, text_eq, text_beq_iff, ◌==◌,
  if◌then◌else◌,
}
use mathlib.Core.Option
use rustern.Common.Maps.{lookup, put, lookup-put}
use rustern.Common.Sets.{contains}
use rustern.Discovery.ExecResolver.{
  ExecConfig, Command, exec_command, exec_info_name, apply_exec_env, apply_drop_env, remove_names,
}

lookup-remove_names :
    (k : Text) (names : List Text) (cmd : Command)
    → lookup k (remove_names names cmd).env
      ≡ (if contains k names then some none else lookup k cmd.env)
unfolding remove_names contains
lookup-remove_names k [] cmd = refl
lookup-remove_names k (name ∷ names) cmd =
    lookup-remove_names k names (record cmd { env = put name none cmd.env })
    ∙ ground (arith, lookup-put name k none cmd.env, text_beq_iff k name, text_beq_iff name k)

-- What the plugin finds under a name of its environment: nothing if the name is to be dropped, the
-- request if it is the name of the request, and otherwise what the entries of the config set.
pub exec_command-env :
    (exec : ExecConfig) (command json k : Text)
    → lookup k (exec_command exec command json).env ≡ (
        if contains k (Option.get_or exec.drop_env [])
        then some none
        else if exec_info_name == k
        then some (some json)
        else lookup k
            (apply_exec_env exec.env (record {
              program = command;
              args = Option.get_or exec.args [];
              env = [];
              stdin = none;
              stderr = none;
            })).env)
unfolding exec_command apply_drop_env
exec_command-env exec command json k =
    lookup-remove_names k (Option.get_or exec.drop_env []) _ ∙ rw lookup-put refl
