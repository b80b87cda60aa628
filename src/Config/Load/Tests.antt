-- ===== src/Config/Load/Tests.antt =====
-- Runs of `LoadConfig` of internal/wait0/config.go.
use wait.Base.{
  refl, ℕ, false, some, Option, List, [], ◌∷◌, Bool, if◌then◌else◌, Str, str, str_eq, member,
  trim_space, trim_left, is_space, has_prefix, has_suffix, split, split_at, trimmed_unique, inl,
  inr, map,
}
use wait.Config.Matching.{
  only_path_prefix, trim_prefix, trim_suffix, inside_of, parse_prefix, cons_match, parse_parts,
  some_parts, parse_match,
}
use wait.Config.Tokens.{
  InvalidationConfig, apply_defaults, validate, resolve_all, validate_and_resolve_tokens,
  import_all, append_or_error, import_legacy_tokens, validate_auth_bindings, load_tokens,
}
use wait.Proxy.{matches, pick_rule}
use wait.Config.Load.{
  RuleConfig, CompiledRule, Document, LoadedConfig, bad_rule, bad_match, and_then, trim_slashes,
  trim_origin, optional_duration, delay_text, load_initial_delay, load_rediscover_every,
  load_log_stats_every, load_log_warm_up, compile_expiration, compile_warm_up, compile_matchers,
  compile_rule, cons_rule, compile_rules, tokens_error, load_invalidation, load_config, proxy_rule,
  by_priority,
}
use wait.Config.Load.Priority.{IsSorted, Listed, Sorts, Picks}
use wait.Config.Load.Valid.{IsValid, load_config-Picks, load_config-IsValid}
use wait.Config.Load.Errors.{FirstBad, compile_rules-FirstBad}

-- A sort by insertion.
unfoldable put_in :
    (CompiledRule → CompiledRule → Bool) → CompiledRule → List CompiledRule → List CompiledRule
put_in less r [] = r ∷ []
put_in less r (q ∷ qs) = let rest = put_in less r qs in if less q r then q ∷ rest else r ∷ q ∷ qs

unfoldable sort : (CompiledRule → CompiledRule → Bool) → List CompiledRule → List CompiledRule
sort less [] = []
sort less (r ∷ rs) = put_in less r (sort less rs)

program : Unit {0}
unfolding str_eq member trim_space trim_left is_space has_prefix has_suffix split split_at
    trimmed_unique trim_prefix trim_suffix inside_of parse_prefix cons_match parse_parts some_parts
    parse_match apply_defaults validate resolve_all validate_and_resolve_tokens import_all
    append_or_error import_legacy_tokens validate_auth_bindings load_tokens matches pick_rule
    and_then trim_slashes trim_origin optional_duration delay_text load_initial_delay
    load_rediscover_every load_log_stats_every load_log_warm_up compile_expiration compile_warm_up
    compile_matchers compile_rule cons_rule compile_rules tokens_error load_invalidation load_config
    proxy_rule by_priority IsSorted Picks sort put_in
program = tt

-- Every duration is one minute.
abbrev durations : Str → Option ℕ
durations s = some 60_000_000_000

abbrev rule : Str → ℕ → RuleConfig
rule match_text priority = record {
  match_text = match_text;
  priority = priority;
  bypass = false;
  bypass_when_cookies = [];
  expiration = str "1m";
  warm_up = some (record { run_every = str "1m"; max_requests_at_a_time = 2 });
}

abbrev no_invalidation : InvalidationConfig
no_invalidation = record {
  enabled = false;
  queue_size = 0;
  worker_concurrency = 0;
  max_body_bytes = 0;
  max_paths = 0;
  max_tags = 0;
  hard_limits = false;
  tokens = [];
}

abbrev document : Document
document = record {
  port = 0;
  origin = str "http://o/";
  invalidation = no_invalidation;
  tokens = [];
  initial_delay = [];
  inital_delay = str "1m";
  rediscover_every = [];
  sitemaps = str "/s" ∷ [];
  log_stats_every = [];
  log_warm_up = false;
  log_revalidation_every = [];
  rules = rule (str "PathPrefix(/)") 2 ∷ rule (str "PathPrefix(/api)") 1 ∷ [];
}

abbrev compiled : Str → Str → ℕ → CompiledRule
compiled match_text prefix priority = record {
  source = rule match_text priority;
  matchers = prefix ∷ [];
  exp_dur = 60_000_000_000;
  warm_every = 60_000_000_000;
  warm_max = 2;
}

abbrev root : CompiledRule
root = compiled (str "PathPrefix(/)") (str "/") 2

abbrev api : CompiledRule
api = compiled (str "PathPrefix(/api)") (str "/api") 1

abbrev config : LoadedConfig
config = record {
  port = 8080;
  origin = str "http://o";
  invalidation = record no_invalidation {
    queue_size = 128;
    worker_concurrency = 4;
    max_body_bytes = 1048576;
    max_paths = 1024;
    max_tags = 1024;
  };
  tokens = [];
  initial_delay_dur = 60_000_000_000;
  rediscover_every_dur = 0;
  sitemaps = str "/s" ∷ [];
  log_stats_every_dur = 0;
  log_warm_up = false;
  rules = api ∷ root ∷ [];
}

swap : (a b r : CompiledRule) → Listed r (a ∷ b ∷ []) → Listed r (b ∷ a ∷ [])
swap a b r (inl e) = inr (inl e)
swap a b r (inr (inl e)) = inl e
swap a b r (inr (inr l)) = absurd l

sorts : Sorts by_priority (root ∷ api ∷ []) (sort by_priority (root ∷ api ∷ []))
unfolding program
sorts = record {
  keeps = swap root api;
  adds_none = swap api root;
  ordered = ((refl, tt), (tt, tt));
}

load_config-Picks_example :
    Picks (root ∷ api ∷ []) (str "/api/x") (pick_rule (map proxy_rule config.rules) (str "/api/x"))
unfolding program
load_config-Picks_example =
    load_config-Picks durations sort (λ name. []) document config (root ∷ api ∷ []) (str "/api/x")
      refl refl sorts

load_config-IsValid_example : IsValid durations (record config { rules = root ∷ api ∷ [] })
unfolding program
load_config-IsValid_example =
    load_config-IsValid durations (λ less rs. rs) (λ name. []) document
      (record config { rules = root ∷ api ∷ [] }) refl (λ rs r l. l)

compile_rules-FirstBad_example :
    FirstBad durations 0
      (rule (str "PathPrefix(/)") 1 ∷ rule (str "/x") 2 ∷ [])
      (bad_rule 1 (bad_match (only_path_prefix (str "/x"))))
unfolding program
compile_rules-FirstBad_example =
    compile_rules-FirstBad durations 0 (rule (str "PathPrefix(/)") 1 ∷ rule (str "/x") 2 ∷ [])
      (bad_rule 1 (bad_match (only_path_prefix (str "/x")))) refl
