-- ===== src/Config/Consistency.antt =====
-- packages/config/src/index.ts: what the rules between the settings amount to.
use code_host.Prelude.{
  String, Bool, true, false, List, [], ◌∷◌, ◌++◌, Option, none, some, ◌≡◌, ◌≢◌, ◌↔◌, refl, arith,
  eq_iff,
}
use code_host.Config.{
  local, server, local_preview, ingress, ssh, mock, openai_compatible, Environment, Issue,
}
use code_host.Config.Rules.{
  given, issue_if, differs, secret_issues, preview_issues, ssh_issues, oauth_issues, agent_issues,
  issues,
}

-- What the rules ask, setting by setting.
pub record IsConsistent (env : Environment) : Type 0 where
  pub one_secret :
      (secret : String) → env.webhook_secret ≡ some secret → secret ≡ env.gitea_webhook_secret
  pub preview_local : env.preview_mode ≡ some local_preview → env.k8s_mode ≡ local
  pub preview_ingress :
      env.preview_mode ≡ some ingress
      → (env.k8s_mode ≡ server) × (given env.preview_base_url ≡ true)
  pub preview_ssh :
      env.preview_mode ≡ some ssh
      → (env.k8s_mode ≡ server)
        × (given env.preview_ssh_host ≡ true)
        × (given env.preview_ssh_user ≡ true)
  pub kubeconfig_given : env.k8s_mode ≡ local → given env.kubeconfig ≡ true
  pub ssh_only :
      env.preview_mode ≢ some ssh
      → (given env.preview_ssh_host ≡ false)
        × (given env.preview_ssh_user ≡ false)
        × (env.preview_ssh_port ≡ none)
  pub oauth_paired : given env.gitea_oauth_client_id ≡ given env.gitea_oauth_client_secret
  pub agent_given :
      env.agent_provider ≡ openai_compatible
      → (given env.agent_api_url ≡ true) × (given env.agent_api_key ≡ true)
  pub agent_omitted :
      env.agent_provider ≡ mock
      → (given env.agent_api_url ≡ false) × (given env.agent_api_key ≡ false)

module _ {A : Type 0} where
  append-none : (xs ys : List A) → xs ++ ys ≡ [] → (xs ≡ []) × (ys ≡ [])
  append-none [] ys h = (refl, h)
  append-none (x ∷ xs) ys h = ground arith

issue_if-none : (broken : Bool) (p m : String) → issue_if broken p m ≡ [] → broken ≡ false
unfolding issue_if
issue_if-none true p m h = ground arith
issue_if-none false p m h = refl

secret_free :
    {agreed : String}
    → (other : Option String) → ((secret : String) → other ≡ some secret → secret ≡ agreed)
    → issue_if
        (differs other agreed)
        "WEBHOOK_SECRET"
        "WEBHOOK_SECRET conflicts with GITEA_WEBHOOK_SECRET"
      ≡ []
unfolding issue_if
secret_free none same = refl
secret_free {agreed} (some secret) same =
    let agrees = same secret refl in ground (arith, eq_iff secret agreed)

all_none :
    (a b c d e : List Issue)
    → a ≡ []
    → b ≡ []
    → c ≡ []
    → d ≡ []
    → e ≡ []
    → a ++ b ++ c ++ d ++ e ≡ []
all_none a b c d e ha hb hc hd he = ground arith

module _ (env : Environment) where
  secrets :
      secret_issues env ≡ []
      → (secret : String) → env.webhook_secret ≡ some secret
      → secret ≡ env.gitea_webhook_secret
  unfolding issue_if
  secrets h secret e = ground (arith, eq_iff secret env.gitea_webhook_secret)

  preview_kept :
      preview_issues env ≡ []
      → ((env.preview_mode ≡ some local_preview → env.k8s_mode ≡ local)
          × (env.preview_mode ≡ some ssh → env.k8s_mode ≡ server))
        × ((env.preview_mode ≡ some ingress
              → (env.k8s_mode ≡ server) × (given env.preview_base_url ≡ true))
            × (env.k8s_mode ≡ local → given env.kubeconfig ≡ true))
  unfolding issue_if
  preview_kept h = (
    (λ e. ground arith, λ e. ground arith),
    (λ e. (ground arith, ground arith), λ e. ground arith),
  )

  preview_back :
      (env.preview_mode ≡ some local_preview → env.k8s_mode ≡ local)
      → (env.preview_mode ≡ some ssh → env.k8s_mode ≡ server)
      → (env.preview_mode ≡ some ingress → env.k8s_mode ≡ server)
      → (env.preview_mode ≡ some ingress → given env.preview_base_url ≡ true)
      → (env.k8s_mode ≡ local → given env.kubeconfig ≡ true)
      → preview_issues env ≡ []
  unfolding issue_if
  preview_back l s i u k = ground arith

  ssh_kept :
      ssh_issues env ≡ []
      → (env.preview_mode ≡ some ssh
          → (given env.preview_ssh_host ≡ true) × (given env.preview_ssh_user ≡ true))
        × (env.preview_mode ≢ some ssh
            → (given env.preview_ssh_host ≡ false)
              × (given env.preview_ssh_user ≡ false)
              × (env.preview_ssh_port ≡ none))
  unfolding issue_if
  ssh_kept h = (λ e. (ground arith, ground arith), λ e. (ground arith, ground arith, ground arith))

  ssh_back :
      (env.preview_mode ≡ some ssh → given env.preview_ssh_host ≡ true)
      → (env.preview_mode ≡ some ssh → given env.preview_ssh_user ≡ true)
      → (env.preview_mode ≢ some ssh → given env.preview_ssh_host ≡ false)
      → (env.preview_mode ≢ some ssh → given env.preview_ssh_user ≡ false)
      → (env.preview_mode ≢ some ssh → env.preview_ssh_port ≡ none)
      → ssh_issues env ≡ []
  unfolding issue_if
  ssh_back h u nh nu np = ground arith

  agent_kept :
      agent_issues env ≡ []
      → (env.agent_provider ≡ openai_compatible
          → (given env.agent_api_url ≡ true) × (given env.agent_api_key ≡ true))
        × (env.agent_provider ≡ mock
            → (given env.agent_api_url ≡ false) × (given env.agent_api_key ≡ false))
  unfolding issue_if
  agent_kept h = (λ e. (ground arith, ground arith), λ e. (ground arith, ground arith))

  agent_back :
      (env.agent_provider ≡ openai_compatible → given env.agent_api_url ≡ true)
      → (env.agent_provider ≡ openai_compatible → given env.agent_api_key ≡ true)
      → (env.agent_provider ≡ mock → given env.agent_api_url ≡ false)
      → (env.agent_provider ≡ mock → given env.agent_api_key ≡ false)
      → agent_issues env ≡ []
  unfolding issue_if
  agent_back u k nu nk = ground arith

  oauth_kept :
      oauth_issues env ≡ [] → given env.gitea_oauth_client_id ≡ given env.gitea_oauth_client_secret
  unfolding issue_if
  oauth_kept h = ground arith

  oauth_back :
      given env.gitea_oauth_client_id ≡ given env.gitea_oauth_client_secret → oauth_issues env ≡ []
  unfolding issue_if
  oauth_back h = ground arith

  secret_back :
      ((secret : String) → env.webhook_secret ≡ some secret → secret ≡ env.gitea_webhook_secret)
      → secret_issues env ≡ []
  unfolding issue_if
  secret_back same = secret_free env.webhook_secret same

  issues_kept : issues env ≡ [] → IsConsistent env
  unfolding issues
  issues_kept h =
      let a = append-none _ (agent_issues env) h in
      let o = append-none _ (oauth_issues env) a.0 in
      let t = append-none _ (ssh_issues env) o.0 in
      let p = append-none (secret_issues env) (preview_issues env) t.0 in
      record {
        one_secret = secrets p.0;
        preview_local = (preview_kept p.1).0.0;
        preview_ingress = (preview_kept p.1).1.0;
        preview_ssh =
            λ e. ((preview_kept p.1).0.1 e, ((ssh_kept t.1).0 e).0, ((ssh_kept t.1).0 e).1);
        kubeconfig_given = (preview_kept p.1).1.1;
        ssh_only = (ssh_kept t.1).1;
        oauth_paired = oauth_kept o.1;
        agent_given = (agent_kept a.1).0;
        agent_omitted = (agent_kept a.1).1;
      }

  issues_back : IsConsistent env → issues env ≡ []
  unfolding issues
  issues_back c =
      let preview =
        preview_back c.preview_local (λ e. (c.preview_ssh e).0) (λ e. (c.preview_ingress e).0)
          (λ e. (c.preview_ingress e).1) c.kubeconfig_given in
      let tunnel =
        ssh_back (λ e. (c.preview_ssh e).1) (λ e. (c.preview_ssh e).2) (λ e. (c.ssh_only e).0)
          (λ e. (c.ssh_only e).1) (λ e. (c.ssh_only e).2) in
      let agent =
        agent_back (λ e. (c.agent_given e).0) (λ e. (c.agent_given e).1)
          (λ e. (c.agent_omitted e).0) (λ e. (c.agent_omitted e).1) in
      all_none _ _ _ _ _ (secret_back c.one_secret) preview tunnel (oauth_back c.oauth_paired) agent

  -- The rules between the settings find nothing to report exactly when the settings are consistent:
  -- one secret for the webhooks; a preview mode that fits the mode of the cluster; the kubeconfig,
  -- the base address and the host and user of the tunnel where the modes need them, and no setting
  -- of a tunnel without that mode; both credentials of Gitea or neither; both settings of the agent
  -- for a remote provider and none for the mock.
  pub issues_iff : (issues env ≡ []) ↔ IsConsistent env
  issues_iff = (issues_kept, issues_back)
