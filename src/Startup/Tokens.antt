-- ===== src/Startup/Tokens.antt =====
-- The tokens that internal/wait0/service_core.go gives to the dashboard.
use wait.Base.{
  ◌≡◌, ◌≢◌, refl, Bool, true, false, not, ◌&&◌, Option, none, some, List, [], ◌∷◌, ◌⊎◌, inl, inr,
  Str, str, str_eq, str_eq_iff, trim_space, any, Bool-cases, Option-cases, arith,
}
use wait.Config.Tokens.{AuthTokenConfig}
use wait.Dashboard.Handle.{Config}
use wait.Invalidation.Handle.{write_scope}
use wait.Startup.{
  Environment, offers, resolve_from, resolve_auth_token_by_scope, read_scope, getenv,
  secret_or_empty, dashboard_config, configure_dashboard,
}

-- Whether the token has the scope.
unfoldable pub has_scope : Str → AuthTokenConfig → Bool
has_scope need t = any (λ s. str_eq (trim_space s) need) t.scopes

-- Whether a token with the scope has that secret.
unfoldable pub grants : Str → Str → List AuthTokenConfig → Bool
grants need secret ts =
    any (λ (t : AuthTokenConfig). has_scope need t && str_eq (trim_space t.token) secret) ts

-- Whether a token with the scope has a secret that is not blank.
unfoldable pub has_secret : Str → List AuthTokenConfig → Bool
has_secret need ts =
    any (λ (t : AuthTokenConfig). has_scope need t && not (str_eq (trim_space t.token) [])) ts

offers-any :
    (need token : Str) (ss : List Str)
    → offers need token ss
      ≡ (any (λ s. str_eq (trim_space s) need) ss && not (str_eq (trim_space token) []))
unfolding offers
offers-any need token [] = ground arith
offers-any need token (s ∷ ss) = ground (arith, offers-any need token ss)

-- What the search gives: a secret of a token with the scope, or there is none.
unfoldable pub Finds : Str → List AuthTokenConfig → Option (Str × Str) → Type 0
Finds need ts none = has_secret need ts ≡ false
Finds need ts (some x) = (x.1 ≢ []) × (grants need x.1 ts ≡ true)

Finds-later :
    (need : Str) (t : AuthTokenConfig) (ts : List AuthTokenConfig) (o : Option (Str × Str))
    → offers need t.token t.scopes ≡ false
    → Finds need ts o
    → Finds need (t ∷ ts) o
unfolding Finds has_secret grants has_scope
Finds-later need t ts none e f = ground (arith, offers-any need t.token t.scopes, e, f)
Finds-later need t ts (some x) e f = (f.0, ground (arith, f.1))

resolve_from-Finds : (need : Str) (ts : List AuthTokenConfig) → Finds need ts (resolve_from need ts)
unfolding resolve_from Finds has_secret grants has_scope
resolve_from-Finds need [] = refl
resolve_from-Finds need (t ∷ ts) = elim (Bool-cases (offers need t.token t.scopes)) [
  | inl e ↦
      let o = offers-any need t.token t.scopes in
      let full : trim_space t.token ≢ [] =
        λ empty. absurd (ground (arith, o, e, str_eq_iff (trim_space t.token) [], empty)) in
      let same = str_eq_iff (trim_space t.token) (trim_space t.token) in
      simp (e, resolve_from) (full, ground (arith, o, e, same.1 refl))
  | inr e ↦
      simp (e, resolve_from)
        (Finds-later need t ts (resolve_from need ts) e (resolve_from-Finds need ts))
]

resolve-Finds :
    (ts : List AuthTokenConfig) (scope : Str)
    → str_eq (trim_space scope) [] ≡ false
    → Finds (trim_space scope) ts (resolve_auth_token_by_scope ts scope)
unfolding resolve_auth_token_by_scope
resolve-Finds ts scope e =
    simp (e, resolve_auth_token_by_scope) (resolve_from-Finds (trim_space scope) ts)

resolve-reads :
    (ts : List AuthTokenConfig)
    → Finds (str "stats:read") ts (resolve_auth_token_by_scope ts read_scope)
unfolding str_eq trim_space
resolve-reads ts = resolve-Finds ts read_scope refl

resolve-writes :
    (ts : List AuthTokenConfig)
    → Finds (str "invalidation:write") ts (resolve_auth_token_by_scope ts write_scope)
unfolding str_eq trim_space
resolve-writes ts = resolve-Finds ts write_scope refl

filled : (s : Str) → str_eq s [] ≡ false → s ≢ []
filled s b = λ empty. absurd (ground (arith, b, str_eq_iff s [], empty))

module _ (e : Environment) where
  -- The variable is set, and `s` is its value without the spaces around it, which is not empty.
  abbrev pub SetTo : Str → Str → Type 0
  SetTo name s = (v : Str) × (e.lookup_env name ≡ some v) × (s ≡ trim_space v) × (s ≢ [])

  -- The variable is not set, or blank.
  abbrev pub IsUnset : Str → Type 0
  IsUnset name =
      (e.lookup_env name ≡ none) ⊎ ((v : Str) × (e.lookup_env name ≡ some v) × (trim_space v ≡ []))

  getenv-SetTo :
      (name : Str)
      → str_eq (trim_space (getenv e name)) [] ≡ false
      → SetTo name (trim_space (getenv e name))
  unfolding getenv str_eq trim_space
  getenv-SetTo name h = elim (Option-cases (e.lookup_env name)) [
    | inl unset ↦ absurd (let h' = simp (unset, getenv) at h in cc)
    | inr (v, is) ↦ (v, is, simp (is, getenv) refl, filled (trim_space (getenv e name)) h)
  ]

  getenv-IsUnset : (name : Str) → str_eq (trim_space (getenv e name)) [] ≡ true → IsUnset name
  unfolding getenv str_eq trim_space
  getenv-IsUnset name h = elim (Option-cases (e.lookup_env name)) [
    | inl unset ↦ inl unset
    | inr (v, is) ↦ inr (v, is, (str_eq_iff (trim_space v) []).0 (simp (is, getenv) at h))
  ]

  -- The dashboard is left out where a name or a password is missing, or a secret that may read the
  -- statistics; else it has both, that secret, and one that may invalidate, where there is one.
  unfoldable pub IsSetUp : List AuthTokenConfig → Option Config → Type 0
  IsSetUp ts none =
      IsUnset (str "WAIT0_DASHBOARD_USERNAME")
      ⊎ IsUnset (str "WAIT0_DASHBOARD_PASSWORD")
      ⊎ (has_secret (str "stats:read") ts ≡ false)
  IsSetUp ts (some c) =
      SetTo (str "WAIT0_DASHBOARD_USERNAME") c.username
      × SetTo (str "WAIT0_DASHBOARD_PASSWORD") c.password
      × (c.stats_bearer_token ≢ [])
      × (grants (str "stats:read") c.stats_bearer_token ts ≡ true)
      × (((c.invalidation_bearer_token ≡ []) × (has_secret (str "invalidation:write") ts ≡ false))
          ⊎ (grants (str "invalidation:write") c.invalidation_bearer_token ts ≡ true))

  invalidation_secret :
      (ts : List AuthTokenConfig) (o : Option (Str × Str))
      → Finds (str "invalidation:write") ts o
      → ((secret_or_empty o ≡ []) × (has_secret (str "invalidation:write") ts ≡ false))
        ⊎ (grants (str "invalidation:write") (secret_or_empty o) ts ≡ true)
  unfolding Finds secret_or_empty
  invalidation_secret ts none f = inl (refl, f)
  invalidation_secret ts (some x) f = inr f.1

  with_secrets :
      (ts : List AuthTokenConfig) (user pass : Str) (o i : Option (Str × Str))
      → SetTo (str "WAIT0_DASHBOARD_USERNAME") user
      → SetTo (str "WAIT0_DASHBOARD_PASSWORD") pass
      → Finds (str "stats:read") ts o
      → Finds (str "invalidation:write") ts i
      → IsSetUp ts (elim o [
        | none ↦ none
        | some x ↦ some (dashboard_config e user pass x.1 (secret_or_empty i))
      ])
  unfolding IsSetUp Finds dashboard_config
  with_secrets ts user pass none i u p f g = inr (inr f)
  with_secrets ts user pass (some x) i u p f g = (u, p, f.0, f.1, invalidation_secret ts i g)

  -- The dashboard that is configured has as its name and its password the values of the two variables
  -- without the spaces around them, neither of them empty, and a trimmed secret, not empty, of a token
  -- with the scope `stats:read`; its secret for the invalidation is that of a token
  -- with the scope `invalidation:write`, or is empty and no token with that scope has a secret. Where
  -- no dashboard is configured, the name or the password is blank, or no token with the scope
  -- `stats:read` has a secret.
  pub configure_dashboard-IsSetUp :
      (ts : List AuthTokenConfig) → IsSetUp ts (configure_dashboard e ts)
  unfolding configure_dashboard IsSetUp
  configure_dashboard-IsSetUp ts =
      let user = trim_space (getenv e (str "WAIT0_DASHBOARD_USERNAME")) in
      let pass = trim_space (getenv e (str "WAIT0_DASHBOARD_PASSWORD")) in
      elim (Bool-cases (str_eq user [])) [
        | inl a ↦
            simp (a, configure_dashboard) (inl (getenv-IsUnset (str "WAIT0_DASHBOARD_USERNAME") a))
        | inr a ↦ elim (Bool-cases (str_eq pass [])) [
          | inl b ↦
              simp (a, b, configure_dashboard)
                (inr (inl (getenv-IsUnset (str "WAIT0_DASHBOARD_PASSWORD") b)))
          | inr b ↦
              simp (a, b, configure_dashboard)
                (with_secrets ts user pass (resolve_auth_token_by_scope ts read_scope)
                  (resolve_auth_token_by_scope ts write_scope)
                  (getenv-SetTo (str "WAIT0_DASHBOARD_USERNAME") a)
                  (getenv-SetTo (str "WAIT0_DASHBOARD_PASSWORD") b) (resolve-reads ts)
                  (resolve-writes ts))
        ]
      ]
