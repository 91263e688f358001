-- ===== src/Config/Loading.antt =====
-- packages/config/src/index.ts, loadConfig: what every configuration that loads has.
use code_host.Prelude.{true, false, List, [], ◌∷◌, some, ◌≡◌, ◌≢◌, refl, subst, arith}
use code_host.Prelude.Result.{Result, ok, err}
use code_host.Config.{
  local, server, local_preview, ingress, ssh, mock, openai_compatible, Variables, Environment,
  AppConfig, Issue,
}
use code_host.Config.Aliases.{normalize_environment_aliases}
use code_host.Config.Rules.{given, accepted_or, refined, configured, issues, config_of, load_config}
use code_host.Config.Consistency.{IsConsistent, issues_iff}

pub record IsSound (config : AppConfig) : Type 0 where
  pub preview_local : config.preview_mode ≡ local_preview → config.k8s_mode ≡ local
  pub preview_served : config.preview_mode ≢ local_preview → config.k8s_mode ≡ server
  pub ingress_has_base_url : config.preview_mode ≡ ingress → given config.preview_base_url ≡ true
  pub kubeconfig_given : config.k8s_mode ≡ local → given config.kubeconfig ≡ true
  pub tunnel_paired : given config.preview_ssh_host ≡ given config.preview_ssh_user
  pub tunnel_used : given config.preview_ssh_host ≡ true → config.preview_mode ≡ ssh
  pub oauth_paired : given config.gitea_oauth_client_id ≡ given config.gitea_oauth_client_secret
  pub agent_remote :
      config.agent_provider ≡ openai_compatible
      → (given config.agent_api_url ≡ true) × (given config.agent_api_key ≡ true)
  pub agent_local :
      config.agent_provider ≡ mock
      → (given config.agent_api_url ≡ false) × (given config.agent_api_key ≡ false)

module _ (env : Environment) (c : IsConsistent env) where
  sound_local : (config_of env).preview_mode ≡ local_preview → env.k8s_mode ≡ local
  unfolding config_of
  sound_local e = ground (arith, c.preview_local)

  sound_served : (config_of env).preview_mode ≢ local_preview → env.k8s_mode ≡ server
  unfolding config_of
  sound_served e = ground (
    arith,
    λ (h : env.preview_mode ≡ some ingress). (c.preview_ingress h).0,
    λ (h : env.preview_mode ≡ some ssh). (c.preview_ssh h).0,
  )

  sound_ingress : (config_of env).preview_mode ≡ ingress → given env.preview_base_url ≡ true
  unfolding config_of
  sound_ingress e = ground (arith, λ (h : env.preview_mode ≡ some ingress). (c.preview_ingress h).1)

  sound_pair : given env.preview_ssh_host ≡ given env.preview_ssh_user
  sound_pair = ground (
    arith,
    λ (h : env.preview_mode ≡ some ssh). (c.preview_ssh h).1,
    λ (h : env.preview_mode ≡ some ssh). (c.preview_ssh h).2,
    λ (h : env.preview_mode ≢ some ssh). (c.ssh_only h).0,
    λ (h : env.preview_mode ≢ some ssh). (c.ssh_only h).1,
  )

  sound_tunnel : given env.preview_ssh_host ≡ true → (config_of env).preview_mode ≡ ssh
  unfolding config_of
  sound_tunnel e = ground (arith, λ (h : env.preview_mode ≢ some ssh). (c.ssh_only h).0)

  config_of-IsSound : IsSound (config_of env)
  unfolding config_of
  config_of-IsSound = record {
    preview_local = sound_local;
    preview_served = sound_served;
    ingress_has_base_url = sound_ingress;
    kubeconfig_given = c.kubeconfig_given;
    tunnel_paired = sound_pair;
    tunnel_used = sound_tunnel;
    oauth_paired = c.oauth_paired;
    agent_remote = c.agent_given;
    agent_local = c.agent_omitted;
  }

accepted-IsSound :
    (env : Environment) (found : List Issue) {config : AppConfig}
    → issues env ≡ found
    → configured (accepted_or env found) ≡ ok config
    → IsSound config
accepted-IsSound env [] e h =
    subst IsSound (ground arith) (config_of-IsSound env ((issues_iff env).0 e))
accepted-IsSound env (issue ∷ rest) e h = ground arith

configured-IsSound :
    (parsed : Result (List Issue) Environment) {config : AppConfig}
    → configured (refined parsed) ≡ ok config
    → IsSound config
unfolding issues
configured-IsSound (err problems) h = ground arith
configured-IsSound (ok env) h = accepted-IsSound env (issues env) refl h

-- A configuration that loads, whatever the schema of the single variables makes of them, has a
-- preview mode that fits the mode of its cluster, a kubeconfig on a local cluster, a base address for
-- previews by ingress, the host of a tunnel only with its user and only for the previews by tunnel,
-- both credentials of Gitea or neither, and both settings of a remote agent and none for the mock.
pub load_config-IsSound :
    (base_schema : Variables → Result (List Issue) Environment) (variables : Variables)
    {config : AppConfig}
    → load_config base_schema variables ≡ ok config
    → IsSound config
unfolding load_config
load_config-IsSound base_schema variables h =
    configured-IsSound (base_schema (normalize_environment_aliases variables)) h
