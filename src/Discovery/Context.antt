-- ===== src/Discovery/Context.antt =====
-- crates/rustern-core/src/discovery/context.rs: the kubeconfig, its context, its namespace, and the
-- token of an exec plugin. A kubeconfig is cut down to the fields that are read or written.
pub mod Namespace
pub mod Token
use rustern.Common.{
  Bool, true, false, not, List, [], ◌∷◌, ◌++◌, any, find, Option, none, some, or_else, Text, codes,
  text_eq, ◌==◌, is_empty, trim, split, if◌then◌else◌, Result, ok, err, ◌>>=◌, map_err,
}
use mathlib.Core.Option
use rustern.Discovery.ExecResolver.{ExecConfig, Cluster}

pub record ContextSelector : Type 0 where
  pub kubeconfig_path : Option Text
  pub context_name : Option Text

pub data ContextError : Type 0 where
  parse context_not_found io client : Text → ContextError

pub record AuthInfo : Type 0 where
  pub token : Option Text
  pub exec : Option ExecConfig

pub record NamedCluster : Type 0 where
  pub name : Text
  pub cluster : Option Cluster

pub record NamedAuthInfo : Type 0 where
  pub name : Text
  pub auth_info : Option AuthInfo

pub record KubeContext : Type 0 where
  pub cluster : Text
  pub user : Option Text
  pub namespace : Option Text

pub record NamedContext : Type 0 where
  pub name : Text
  pub context : Option KubeContext

pub record Kubeconfig : Type 0 where
  pub current_context : Option Text
  pub contexts : List NamedContext
  pub clusters : List NamedCluster
  pub auth_infos : List NamedAuthInfo

first_entry : Option Text → Result Text ContextError
first_entry none = err (parse (codes "empty KUBECONFIG"))
first_entry (some s) = if is_empty s then err (parse (codes "empty KUBECONFIG")) else ok s

head : List Text → Option Text
head [] = none
head (s ∷ ss) = some s

-- `PathBuf::join` of the standard library is `path_join`; the last two arguments are the variables
-- `KUBECONFIG` and `HOME`.
unfoldable pub kubeconfig_path :
    (Text → Text → Text) → ContextSelector → Option Text → Option Text → Result Text ContextError
unfolding first_entry head
kubeconfig_path path_join selector kubeconfig home = elim selector.kubeconfig_path [
  | some p ↦ ok p
  | none ↦ elim kubeconfig [
    | some env ↦ first_entry (head (split b':' env))
    | none ↦ ok (path_join (Option.get_or home []) (codes ".kube/config"))
  ]
]

-- `read_from` is that of kube, with the text of its error.
unfoldable pub resolve_kubeconfig :
    (Text → Text → Text)
    → (Text → Result Kubeconfig Text)
    → ContextSelector
    → Option Text
    → Option Text
    → Result Kubeconfig ContextError
unfolding kubeconfig_path
resolve_kubeconfig path_join read_from selector kubeconfig home =
    kubeconfig_path path_join selector kubeconfig home >>= λ path. map_err parse (read_from path)

known_context : Kubeconfig → Option Text → Result Text ContextError
known_context cfg none = err (context_not_found (codes "(none)"))
known_context cfg (some want) =
    if any (λ (c : NamedContext). c.name == want) cfg.contexts
    then ok want
    else err (context_not_found want)

unfoldable pub pick_context_name : Kubeconfig → ContextSelector → Result Text ContextError
unfolding known_context
pick_context_name cfg selector =
    known_context cfg (or_else selector.context_name cfg.current_context)

unfoldable pub find_context : Kubeconfig → Text → Option NamedContext
find_context cfg ctx_name = find (λ (c : NamedContext). c.name == ctx_name) cfg.contexts

not_blank : Text → Option Text
not_blank ns = if is_empty (trim ns) then none else some ns

namespace_of : Text → Option NamedContext → Result Text ContextError
unfolding not_blank
namespace_of ctx_name none = err (context_not_found ctx_name)
namespace_of ctx_name (some named) = ok (
    Option.get_or
      (Option.bind (Option.bind named.context (λ (ctx : KubeContext). ctx.namespace)) not_blank)
      (codes "default"))

unfoldable pub default_namespace : Kubeconfig → ContextSelector → Result Text ContextError
unfolding namespace_of
default_namespace cfg selector =
    pick_context_name cfg selector >>= λ ctx_name. namespace_of ctx_name (find_context cfg ctx_name)

unfoldable pub cluster_for_context : Kubeconfig → Text → Option Cluster
cluster_for_context kubeconfig ctx_name =
    Option.bind (find_context kubeconfig ctx_name) λ (named_ctx : NamedContext).
      Option.bind named_ctx.context λ (ctx : KubeContext).
        Option.bind (find (λ (c : NamedCluster). c.name == ctx.cluster) kubeconfig.clusters)
          λ (c : NamedCluster). c.cluster

unfoldable pub user_for_context : Kubeconfig → Text → Option Text
user_for_context kubeconfig ctx_name =
    Option.bind (find_context kubeconfig ctx_name)
      λ (c : NamedContext). Option.bind c.context λ (ctx : KubeContext). ctx.user

unfoldable pub find_user : Text → List NamedAuthInfo → Option AuthInfo
find_user user_name users =
    Option.bind (find (λ (u : NamedAuthInfo). u.name == user_name) users)
      λ (u : NamedAuthInfo). u.auth_info

-- The first user of that name, changed in place.
update_user : Text → (AuthInfo → AuthInfo) → List NamedAuthInfo → List NamedAuthInfo
update_user user_name f [] = []
update_user user_name f (u ∷ users) =
    let rest = update_user user_name f users in
    if u.name == user_name
    then record u { auth_info = Option.map f u.auth_info } ∷ users
    else u ∷ rest

set_token : Text → AuthInfo → AuthInfo
set_token token auth_info = record auth_info { token = some token; exec = none }

store_token : Kubeconfig → Text → Option Text → Kubeconfig
unfolding update_user set_token
store_token kubeconfig user_name none = kubeconfig
store_token kubeconfig user_name (some token) = record kubeconfig {
  auth_infos = update_user user_name (set_token token) kubeconfig.auth_infos;
}

-- `resolve` is `resolve_exec_token`.
module _ (resolve : ExecConfig → Option Cluster → Option Text) where
  unfoldable pub user_token : Kubeconfig → Text → Text → Option Text
  user_token kubeconfig ctx_name user_name =
      Option.bind (find_user user_name kubeconfig.auth_infos) λ (a : AuthInfo).
        Option.bind a.exec λ exec. resolve exec (cluster_for_context kubeconfig ctx_name)

  -- By the server of the cluster and the user of the context.
  for_user : Kubeconfig → Text → Option Text → Option Text → Kubeconfig
  unfolding store_token
  for_user kubeconfig ctx_name none user_name = kubeconfig
  for_user kubeconfig ctx_name (some server) none = kubeconfig
  for_user kubeconfig ctx_name (some server) (some user_name) =
      store_token kubeconfig user_name (user_token kubeconfig ctx_name user_name)

  unfoldable pub apply_exec_token_to_kubeconfig : Kubeconfig → Text → Kubeconfig
  unfolding for_user
  apply_exec_token_to_kubeconfig kubeconfig ctx_name =
      for_user kubeconfig ctx_name
        (Option.bind (cluster_for_context kubeconfig ctx_name) λ (c : Cluster). c.server)
        (user_for_context kubeconfig ctx_name)
