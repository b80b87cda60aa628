-- ===== src/Config/Tokens.antt =====
-- internal/wait0/config.go: the defaults of the invalidation and the tokens of the configuration.
-- `getenv` is os.Getenv, which gives the empty text where the variable is missing.
pub mod Resolved
use mathlib.Core.Path.{subst}
use wait.Base.{
  ℕ, ◌+◌, ◌^◌, ◌≡◌, ◌≢◌, refl, sym, ap, ◌∙◌, Bool, true, false, not, ◌&&◌, ◌||◌, ◌==◌, Option, none,
  some, List, [], ◌∷◌, ◌++◌, ◌⊎◌, inl, inr, Str, str, str_eq, str_eq_iff, member, trim_space,
  trimmed_unique, trimmed_unique-Distinct, Distinct, length, if◌then◌else◌, is_pos, arith,
  Bool-cases, Option-cases, any, All,
}
use wait.Invalidation.Handle.{write_scope}

pub record AuthTokenConfig : Type 0 where
  pub id : Str
  pub token : Str
  pub token_env : Str
  pub scopes : List Str

pub record InvalidationTokenConfig : Type 0 where
  pub id : Str
  pub token : Str
  pub token_env : Str
  pub role : Str

pub record InvalidationConfig : Type 0 where
  pub enabled : Bool
  pub queue_size : ℕ
  pub worker_concurrency : ℕ
  pub max_body_bytes : ℕ
  pub max_paths : ℕ
  pub max_tags : ℕ
  pub hard_limits : Bool
  pub tokens : List InvalidationTokenConfig

pub data ConfigError : Type 0 where
  id_required : ℕ → ConfigError
  duplicate_id : ℕ → ConfigError
  token_required : ℕ → ConfigError
  scope_required : ℕ → ConfigError
  unsupported_role : ℕ → ConfigError
  no_writer : ConfigError

abbrev pub positive_or : ℕ → ℕ → ℕ
positive_or def n = if is_pos n then n else def

unfoldable pub apply_defaults : InvalidationConfig → InvalidationConfig
apply_defaults c = record c {
  queue_size = positive_or 128 c.queue_size;
  worker_concurrency = positive_or 4 c.worker_concurrency;
  max_body_bytes = positive_or (2 ^ 20) c.max_body_bytes;
  max_paths = positive_or 1024 c.max_paths;
  max_tags = positive_or 1024 c.max_tags;
}

-- `validate`: whether there is no error.
unfoldable pub validate : InvalidationConfig → Bool
validate c =
    is_pos c.queue_size
    && is_pos c.worker_concurrency
    && is_pos c.max_body_bytes
    && is_pos c.max_paths
    && is_pos c.max_tags

-- The token, or the value of its variable where that is not blank.
unfoldable pub resolve_token : (Str → Str) → Str → Str → Str
resolve_token getenv token token_env =
    let v = trim_space (getenv token_env) in
    if not (str_eq token_env []) then (if not (str_eq v []) then v else token) else token

-- One round of the loop of `validateAndResolveTokens`, at the index `i` with the names so far.
unfoldable pub resolve_one :
    (Str → Str) → ℕ → List Str → AuthTokenConfig → ConfigError ⊎ AuthTokenConfig
resolve_one getenv i ids t =
    let id = trim_space t.id in
    let token_env = trim_space t.token_env in
    let token = resolve_token getenv (trim_space t.token) token_env in
    let scopes = trimmed_unique [] t.scopes in
    if str_eq id []
    then inl (id_required i)
    else if member id ids
    then inl (duplicate_id i)
    else if str_eq token []
    then inl (token_required i)
    else if length scopes == 0
    then inl (scope_required i)
    else inr (record { id = id; token = token; token_env = token_env; scopes = scopes })

unfoldable pub cons_or_error :
    ConfigError ⊎ AuthTokenConfig
    → (AuthTokenConfig → ConfigError ⊎ List AuthTokenConfig)
    → ConfigError ⊎ List AuthTokenConfig
cons_or_error (inl e) rest = inl e
cons_or_error (inr t) rest = elim (rest t) [ inl e ↦ inl e | inr ts ↦ inr (t ∷ ts) ]

unfoldable pub resolve_all :
    (Str → Str) → ℕ → List Str → List AuthTokenConfig → ConfigError ⊎ List AuthTokenConfig
resolve_all getenv i ids [] = inr []
resolve_all getenv i ids (t ∷ ts) =
    cons_or_error (resolve_one getenv i ids t) (λ u. resolve_all getenv (i + 1) (u.id ∷ ids) ts)

unfoldable pub validate_and_resolve_tokens :
    (Str → Str) → List AuthTokenConfig → ConfigError ⊎ List AuthTokenConfig
validate_and_resolve_tokens getenv ts = resolve_all getenv 0 [] ts

-- One round of the loop of `importLegacyInvalidationTokens`.
unfoldable pub import_one :
    (Str → Str) → ℕ → List Str → InvalidationTokenConfig → ConfigError ⊎ AuthTokenConfig
import_one getenv i ids t =
    let id = trim_space t.id in
    let token_env = trim_space t.token_env in
    let token = resolve_token getenv (trim_space t.token) token_env in
    let role = if str_eq (trim_space t.role) [] then str "invalidate_all" else trim_space t.role in
    if str_eq id []
    then inl (id_required i)
    else if member id ids
    then inl (duplicate_id i)
    else if str_eq token []
    then inl (token_required i)
    else if not (str_eq role (str "invalidate_all"))
    then inl (unsupported_role i)
    else inr (record { id = id; token = token; token_env = token_env; scopes = write_scope ∷ [] })

unfoldable pub import_all :
    (Str → Str) → ℕ → List Str → List InvalidationTokenConfig → ConfigError ⊎ List AuthTokenConfig
import_all getenv i ids [] = inr []
import_all getenv i ids (t ∷ ts) =
    cons_or_error (import_one getenv i ids t) (λ u. import_all getenv (i + 1) (u.id ∷ ids) ts)

abbrev pub ids_of : List AuthTokenConfig → List Str
ids_of [] = []
ids_of (t ∷ ts) = t.id ∷ ids_of ts

unfoldable pub append_or_error :
    List AuthTokenConfig → ConfigError ⊎ List AuthTokenConfig → ConfigError ⊎ List AuthTokenConfig
append_or_error ts (inl e) = inl e
append_or_error ts (inr us) = inr (ts ++ us)

unfoldable pub import_legacy_tokens :
    (Str → Str)
    → List AuthTokenConfig
    → List InvalidationTokenConfig
    → ConfigError ⊎ List AuthTokenConfig
import_legacy_tokens getenv ts legacy = append_or_error ts (import_all getenv 0 (ids_of ts) legacy)

unfoldable pub validate_auth_bindings : Bool → List AuthTokenConfig → Bool
validate_auth_bindings enabled ts =
    not enabled || any (λ (t : AuthTokenConfig). any (λ s. str_eq s write_scope) t.scopes) ts

-- The part of `LoadConfig` on tokens.
unfoldable pub load_tokens :
    (Str → Str) → InvalidationConfig → List AuthTokenConfig → ConfigError ⊎ List AuthTokenConfig
load_tokens getenv inv ts = elim (validate_and_resolve_tokens getenv ts) [
  | inl e ↦ inl e
  | inr us ↦ elim (import_legacy_tokens getenv us inv.tokens) [
    | inl e ↦ inl e
    | inr vs ↦ if validate_auth_bindings inv.enabled vs then inr vs else inl no_writer
  ]
]
