-- ===== src/Discovery/Context/Token.antt =====
-- crates/rustern-core/src/discovery/context.rs: what the token of a plugin changes in the kubeconfig.
use rustern.Common.{
  ◌≡◌, refl, ◌⊎◌, inl, inr, arith, List, [], ◌∷◌, find, Option, none, some, Text, text_eq,
  text_beq_iff, ◌==◌, if◌then◌else◌,
}
use mathlib.Core.Option
use rustern.Discovery.ExecResolver.{ExecConfig, Cluster}
use rustern.Discovery.Context.{
  Kubeconfig, AuthInfo, NamedAuthInfo, find_user, update_user, set_token, store_token, for_user,
  user_token, user_for_context, cluster_for_context, apply_exec_token_to_kubeconfig,
}

find_user-update_user :
    (name u : Text) (f : AuthInfo → AuthInfo) (users : List NamedAuthInfo)
    → find_user u (update_user name f users)
      ≡ (if name == u then Option.map f (find_user u users) else find_user u users)
unfolding find_user update_user find Option.bind
find_user-update_user name u f [] = ground arith
find_user-update_user name u f (x ∷ users) = ground (
  arith,
  find_user-update_user name u f users,
  text_beq_iff x.name name,
  text_beq_iff x.name u,
  text_beq_iff name u,
)

-- The user `name` has the token and no plugin, and all else is as it was.
abbrev pub HasToken : Kubeconfig → Text → Text → Kubeconfig → Type 0
HasToken k name token k' =
    ((u : Text)
      → find_user u k'.auth_infos ≡ (
          if name == u
          then Option.map (λ (a : AuthInfo). record a { token = some token; exec = none })
              (find_user u k.auth_infos)
          else find_user u k.auth_infos))
    × (k'.contexts ≡ k.contexts)
    × (k'.clusters ≡ k.clusters)
    × (k'.current_context ≡ k.current_context)

store_token-HasToken :
    (k : Kubeconfig) (name token : Text) → HasToken k name token (store_token k name (some token))
unfolding store_token set_token
store_token-HasToken k name token =
    (λ u. find_user-update_user name u (set_token token) k.auth_infos, refl, refl, refl)

module _ (resolve : ExecConfig → Option Cluster → Option Text) where
  -- `k'` is `k`, or `k` with the token of the user of the context.
  abbrev pub Outcome : Kubeconfig → Text → Kubeconfig → Type 0
  Outcome k ctx_name k' =
      (k' ≡ k)
      ⊎ ((name : Text) × (token : Text) × (user_for_context k ctx_name ≡ some name)
          × (user_token resolve k ctx_name name ≡ some token)
          × HasToken k name token k')

  stored-Outcome :
      (k : Kubeconfig) (ctx_name name : Text) (token : Option Text)
      → user_for_context k ctx_name ≡ some name
      → user_token resolve k ctx_name name ≡ token
      → Outcome k ctx_name (store_token k name token)
  unfolding store_token
  stored-Outcome k ctx_name name none u t = inl refl
  stored-Outcome k ctx_name name (some token) u t =
      inr (name, token, u, t, store_token-HasToken k name token)

  for_user-Outcome :
      (k : Kubeconfig) (ctx_name : Text) (server name : Option Text)
      → user_for_context k ctx_name ≡ name
      → Outcome k ctx_name (for_user resolve k ctx_name server name)
  unfolding for_user
  for_user-Outcome k ctx_name none name u = inl refl
  for_user-Outcome k ctx_name (some server) none u = inl refl
  for_user-Outcome k ctx_name (some server) (some name) u =
      stored-Outcome k ctx_name name (user_token resolve k ctx_name name) u refl

  -- Either the kubeconfig is left alone, or the user of the context has the token that its plugin gave
  -- and no plugin any more, and all other users, the contexts and the clusters are as they were.
  pub apply_exec_token-Outcome :
      (k : Kubeconfig) (ctx_name : Text)
      → Outcome k ctx_name (apply_exec_token_to_kubeconfig resolve k ctx_name)
  unfolding apply_exec_token_to_kubeconfig
  apply_exec_token-Outcome k ctx_name =
      for_user-Outcome k ctx_name
        (Option.bind (cluster_for_context k ctx_name) λ (c : Cluster). c.server)
        (user_for_context k ctx_name) refl
