-- ===== src/Config/Tests.antt =====
-- Runs of internal/wait0/config.go.
use wait.Base.{
  has_suffix, ◌≡◌, refl, true, List, [], ◌∷◌, ◌⊎◌, inr, Str, str, str_eq, member, has_prefix,
  trim_space, trim_left, is_space, trimmed_unique, split, split_at,
}
use wait.Invalidation.Handle.{write_scope}
use wait.Config.Matching.{
  trim_prefix, trim_suffix, inside_of, parse_prefix, cons_match, parse_parts, some_parts,
  parse_match,
}
use wait.Config.Tokens.{
  AuthTokenConfig, InvalidationTokenConfig, InvalidationConfig, ConfigError, resolve_token,
  resolve_one, cons_or_error, resolve_all, validate_and_resolve_tokens, import_one, import_all,
  append_or_error, import_legacy_tokens, validate_auth_bindings, load_tokens,
}
use wait.Config.Tokens.Resolved.{IsLoaded, load_tokens-IsLoaded}

program : Unit {0}
unfolding str_eq member has_prefix trim_space trim_left is_space trimmed_unique split split_at
    has_suffix trim_prefix trim_suffix inside_of parse_prefix cons_match parse_parts some_parts
    parse_match resolve_token resolve_one cons_or_error resolve_all validate_and_resolve_tokens
    import_one import_all append_or_error import_legacy_tokens validate_auth_bindings load_tokens
program = tt

abbrev two_prefixes : List Str
two_prefixes = str "/api" ∷ str "/x" ∷ []

two_parsed : parse_match (str "PathPrefix(/api) | PathPrefix( /x )") ≡ inr two_prefixes
unfolding program
two_parsed = refl

-- The variable `T` holds a secret.
abbrev getenv : Str → Str
getenv v = str " s3 "

abbrev legacy : InvalidationTokenConfig
legacy = record { id = str "ci"; token = []; token_env = str "T"; role = [] }

abbrev stats_token : AuthTokenConfig
stats_token = record {
  id = str " ops ";
  token = str "s1";
  token_env = [];
  scopes = str "r" ∷ str " r" ∷ [];
}

abbrev inv : InvalidationConfig
inv = record {
  enabled = true;
  queue_size = 1;
  worker_concurrency = 1;
  max_body_bytes = 1;
  max_paths = 1;
  max_tags = 1;
  hard_limits = true;
  tokens = legacy ∷ [];
}

abbrev loaded : List AuthTokenConfig
loaded =
    record { id = str "ops"; token = str "s1"; token_env = []; scopes = str "r" ∷ [] }
    ∷ record { id = str "ci"; token = str "s3"; token_env = str "T"; scopes = write_scope ∷ [] }
    ∷ []

both_loaded :
    ◌≡◌ {A = ConfigError ⊎ List AuthTokenConfig}
      (load_tokens getenv inv (stats_token ∷ []))
      (inr loaded)
unfolding program
both_loaded = refl

load_tokens-IsLoaded_example : IsLoaded true loaded
load_tokens-IsLoaded_example = load_tokens-IsLoaded getenv inv (stats_token ∷ []) loaded both_loaded
