-- ===== src/Startup.antt =====
-- What internal/wait0/service_core.go decides when the service starts: the settings in the
-- environment, the dashboard and its bearer tokens, and the rules that are warmed up. LookupEnv,
-- strconv.ParseBool and strconv.Atoi are parameters.
mod Tests
pub mod Tokens
use wait.Base.{
  ℕ, Bool, false, not, ◌&&◌, ◌||◌, Option, none, some, List, [], ◌∷◌, Str, str, str_eq, trim_space,
  split, true, if◌then◌else◌,
}
use wait.Config.Tokens.{AuthTokenConfig}
use wait.Dashboard.Handle.{Config}
use wait.Invalidation.Handle.{write_scope}

pub record Environment : Type 0 where
  pub lookup_env : Str → Option Str
  pub parse_bool : Str → Option Bool
  pub atoi : Str → Option ℕ

-- ReadScope of internal/wait0/statapi/controller.go.
abbrev pub read_scope : Str
read_scope = str "stats:read"

-- The inner loop of `resolveAuthTokenByScope`: whether it returns in one of the scopes.
unfoldable pub offers : Str → Str → List Str → Bool
offers need token [] = false
offers need token (s ∷ ss) =
    let rest = offers need token ss in
    if not (str_eq (trim_space s) need)
    then rest
    else if str_eq (trim_space token) []
    then rest
    else true

unfoldable pub resolve_from : Str → List AuthTokenConfig → Option (Str × Str)
resolve_from need [] = none
resolve_from need (t ∷ ts) =
    let rest = resolve_from need ts in
    if offers need t.token t.scopes then some (trim_space t.id, trim_space t.token) else rest

-- The name of a token and its secret.
unfoldable pub resolve_auth_token_by_scope : List AuthTokenConfig → Str → Option (Str × Str)
resolve_auth_token_by_scope tokens scope =
    let need = trim_space scope in if str_eq need [] then none else resolve_from need tokens

-- The loop of `envCSV`.
unfoldable pub non_blank : List Str → List Str
non_blank [] = []
non_blank (p ∷ ps) =
    let rest = non_blank ps in if str_eq (trim_space p) [] then rest else trim_space p ∷ rest

-- The secret, or none, that the dashboard sends to the invalidation.
unfoldable pub secret_or_empty : Option (Str × Str) → Str
secret_or_empty none = []
secret_or_empty (some x) = x.1

module _ (e : Environment) where
  -- `os.Getenv`
  unfoldable pub getenv : Str → Str
  getenv name = elim (e.lookup_env name) [ none ↦ [] | some v ↦ v ]

  -- The value of a variable, trimmed, where it is set and not blank.
  unfoldable pub env_text : Str → Option Str
  env_text name = elim (e.lookup_env name) [
    | none ↦ none
    | some v ↦ if str_eq (trim_space v) [] then none else some (trim_space v)
  ]

  unfoldable pub env_bool : Str → Bool → Bool
  env_bool name def = elim (env_text name) [
    | none ↦ def
    | some v ↦ elim (e.parse_bool v) [ none ↦ def | some b ↦ b ]
  ]

  unfoldable pub env_int : Str → ℕ → ℕ
  env_int name def = elim (env_text name) [
    | none ↦ def
    | some v ↦ elim (e.atoi v) [ none ↦ def | some i ↦ i ]
  ]

  unfoldable pub env_csv : Str → List Str
  env_csv name = elim (e.lookup_env name) [
    | none ↦ []
    | some v ↦ if str_eq (trim_space v) [] then [] else non_blank (split v 44)
  ]

  -- The configuration of the dashboard, if there is one.
  unfoldable pub dashboard_config : Str → Str → Str → Str → Config
  dashboard_config user pass stats_token inv_token = record {
    username = user;
    password = pass;
    stats_bearer_token = stats_token;
    invalidation_bearer_token = inv_token;
    rate_limit_per_minute = env_int (str "WAIT0_DASHBOARD_RATE_LIMIT_RPM") 120;
    trust_proxy_headers = env_bool (str "WAIT0_DASHBOARD_TRUST_PROXY_HEADERS") false;
    trusted_proxy_cidrs = env_csv (str "WAIT0_DASHBOARD_TRUSTED_PROXY_CIDRS");
  }

  unfoldable pub configure_dashboard : List AuthTokenConfig → Option Config
  configure_dashboard tokens =
      let user = trim_space (getenv (str "WAIT0_DASHBOARD_USERNAME")) in
      let pass = trim_space (getenv (str "WAIT0_DASHBOARD_PASSWORD")) in
      if str_eq user [] || str_eq pass []
      then none
      else elim (resolve_auth_token_by_scope tokens read_scope) [
        | none ↦ none
        | some x ↦ some (
            dashboard_config user pass x.1
              (secret_or_empty (resolve_auth_token_by_scope tokens write_scope)))
      ]
