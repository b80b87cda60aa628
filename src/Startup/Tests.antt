-- ===== src/Startup/Tests.antt =====
-- Runs of internal/wait0/service_core.go: the environment and the dashboard that is configured.
use wait.Base.{
  ◌≡◌, refl, true, none, some, List, [], ◌∷◌, Option, Str, str, str_eq, trim_space, trim_left,
  is_space, split, split_at, if◌then◌else◌,
}
use wait.Config.Tokens.{AuthTokenConfig}
use wait.Startup.{
  Environment, offers, resolve_from, resolve_auth_token_by_scope, non_blank, getenv, env_text,
  env_bool, env_int, env_csv, secret_or_empty, dashboard_config, configure_dashboard,
}
use wait.Startup.Tokens.{IsSetUp, configure_dashboard-IsSetUp}

program : Unit {0}
unfolding str_eq trim_space trim_left is_space split split_at offers resolve_from
    resolve_auth_token_by_scope non_blank getenv env_text env_bool env_int env_csv secret_or_empty
    dashboard_config configure_dashboard
program = tt

-- The variables of an environment: those of the dashboard, and a list of addresses.
abbrev variables : Str → Option Str
variables name =
    if str_eq name (str "WAIT0_DASHBOARD_USERNAME")
    then some (str " admin ")
    else if str_eq name (str "WAIT0_DASHBOARD_PASSWORD")
    then some (str "secret")
    else if str_eq name (str "WAIT0_DASHBOARD_TRUSTED_PROXY_CIDRS")
    then some (str "10.0.0.0/8, ,::1")
    else if str_eq name (str "WAIT0_DASHBOARD_TRUST_PROXY_HEADERS")
    then some (str " true ")
    else none

abbrev environment : Environment
environment = record {
  lookup_env = variables;
  parse_bool = λ s. if str_eq s (str "true") then some true else none;
  atoi = λ s. none;
}

-- A token whose secret is blank stands in front of the one that is taken.
abbrev tokens : List AuthTokenConfig
tokens =
    record { id = str "a"; token = str " "; token_env = []; scopes = str "stats:read" ∷ [] }
    ∷ record { id = str "b"; token = str " t "; token_env = []; scopes = str "stats:read" ∷ [] }
    ∷ []

set_up :
    configure_dashboard environment tokens
    ≡ some (record {
      username = str "admin";
      password = str "secret";
      stats_bearer_token = str "t";
      invalidation_bearer_token = [];
      rate_limit_per_minute = 120;
      trust_proxy_headers = true;
      trusted_proxy_cidrs = str "10.0.0.0/8" ∷ str "::1" ∷ [];
    })
unfolding program
set_up = refl

configure_dashboard-IsSetUp_example :
    IsSetUp environment tokens (configure_dashboard environment tokens)
configure_dashboard-IsSetUp_example = configure_dashboard-IsSetUp environment tokens
