-- ===== src/Config/Load.antt =====
-- internal/wait0/config.go, `LoadConfig`, on a parsed document. `time.ParseDuration` is an argument,
-- and so is `sort.Slice`, of a comparison, which keeps no order among equal items. A duration is an int64.
pub mod Priority
pub mod Valid
pub mod Errors
mod Tests
use mathlib.Core.List.{reverse}
use wait.Base.{
  ℕ, suc, ◌+◌, ◌≡◌, Bool, true, false, not, ◌&&◌, ◌||◌, ◌⊎◌, inl, inr, Option, none, some, List, [],
  ◌∷◌, ◌++◌, Str, str, str_eq, trim_space, any, has_prefix, map, if◌then◌else◌, is_pos, is_neg, slt,
  ◌==◌, length,
}
use wait.Proxy.{Rule}
use wait.Config.Matching.{MatchError, parse_match}
use wait.Config.Tokens.{
  AuthTokenConfig, InvalidationConfig, ConfigError, apply_defaults, validate, load_tokens,
}

pub record WarmUpConfig : Type 0 where
  pub run_every : Str
  pub max_requests_at_a_time : ℕ

pub record RuleConfig : Type 0 where
  pub match_text : Str
  pub priority : ℕ
  pub bypass : Bool
  pub bypass_when_cookies : List Str
  pub expiration : Str
  pub warm_up : Option WarmUpConfig

-- A rule with what is compiled of it.
pub record CompiledRule : Type 0 where
  pub source : RuleConfig
  pub matchers : List Str
  pub exp_dur : ℕ
  pub warm_every : ℕ
  pub warm_max : ℕ

-- The fields of a parsed document that are modelled: the sizes of the caches and
-- `log_url_autodiscover` are left out.
pub record Document : Type 0 where
  pub port : ℕ
  pub origin : Str
  pub invalidation : InvalidationConfig
  pub tokens : List AuthTokenConfig
  pub initial_delay : Str
  pub inital_delay : Str
  pub rediscover_every : Str
  pub sitemaps : List Str
  pub log_stats_every : Str
  pub log_warm_up : Bool
  pub log_revalidation_every : Str
  pub rules : List RuleConfig

pub record LoadedConfig : Type 0 where
  pub port : ℕ
  pub origin : Str
  pub invalidation : InvalidationConfig
  pub tokens : List AuthTokenConfig
  pub initial_delay_dur : ℕ
  pub rediscover_every_dur : ℕ
  pub sitemaps : List Str
  pub log_stats_every_dur : ℕ
  pub log_warm_up : Bool
  pub rules : List CompiledRule

pub data RuleError : Type 0 where
  bad_match : MatchError → RuleError
  bad_expiration : RuleError
  run_every_required : RuleError
  bad_run_every : RuleError
  run_every_not_positive : RuleError
  max_requests_required : RuleError

pub data LoadError : Type 0 where
  origin_required : LoadError
  bad_invalidation : LoadError
  bad_tokens : ConfigError → LoadError
  bad_initial_delay : LoadError
  bad_rediscover_every : LoadError
  bad_log_stats_every : LoadError
  bad_log_revalidation_every : LoadError
  bad_rule : ℕ → RuleError → LoadError

-- The next stage, where there was no error.
unfoldable pub and_then {ℓ κ μ} :
    {E : Type ℓ} {A : Type κ} {B : Type μ} → E ⊎ A → (A → E ⊎ B) → E ⊎ B
and_then (inl e) next = inl e
and_then (inr a) next = next a

-- `strings.TrimRight(origin, "/")`
unfoldable pub trim_slashes : Str → Str
trim_slashes [] = []
trim_slashes (c ∷ s) = if c == b'/' then trim_slashes s else c ∷ s

unfoldable pub trim_origin : Str → Str
trim_origin origin = reverse (trim_slashes (reverse origin))

unfoldable pub compile_matchers : Str → RuleError ⊎ List Str
compile_matchers text = elim (parse_match text) [ inl e ↦ inl (bad_match e) | inr ms ↦ inr ms ]

-- One more rule in front of the others: the first error counts.
unfoldable pub cons_rule :
    ℕ → RuleError ⊎ CompiledRule → LoadError ⊎ List CompiledRule → LoadError ⊎ List CompiledRule
cons_rule i (inl e) rest = inl (bad_rule i e)
cons_rule i (inr r) (inl e) = inl e
cons_rule i (inr r) (inr rs) = inr (r ∷ rs)

module _ (parse_duration : Str → Option ℕ) where
  -- A duration that passes the test, and 0 where the text is not given.
  unfoldable pub optional_duration : LoadError → (ℕ → Bool) → Bool → Str → LoadError ⊎ ℕ
  optional_duration e test false s = inr 0
  optional_duration e test true s = elim (parse_duration s) [
    | none ↦ inl e
    | some d ↦ if test d then inr d else inl e
  ]

  -- The delay, under its name or the misspelled one.
  unfoldable pub delay_text : Document → Str
  delay_text doc =
      if str_eq (trim_space doc.initial_delay) []
      then trim_space doc.inital_delay
      else trim_space doc.initial_delay

  unfoldable pub load_initial_delay : Document → LoadError ⊎ ℕ
  load_initial_delay doc =
      optional_duration bad_initial_delay (λ d. not (is_neg d))
        (not (length doc.sitemaps == 0) && not (str_eq (delay_text doc) [])) (delay_text doc)

  unfoldable pub load_rediscover_every : Document → LoadError ⊎ ℕ
  load_rediscover_every doc =
      optional_duration bad_rediscover_every is_pos
        (not (length doc.sitemaps == 0) && not (str_eq (trim_space doc.rediscover_every) []))
        doc.rediscover_every

  unfoldable pub load_log_stats_every : Document → LoadError ⊎ ℕ
  load_log_stats_every doc =
      optional_duration bad_log_stats_every is_pos (not (str_eq doc.log_stats_every []))
        doc.log_stats_every

  -- The former setting of the warmup's log: its duration must parse, and turns the log on.
  unfoldable pub load_log_warm_up : Document → LoadError ⊎ Bool
  load_log_warm_up doc =
      if str_eq (trim_space doc.log_revalidation_every) []
      then inr doc.log_warm_up
      else (elim (parse_duration doc.log_revalidation_every) [
        | none ↦ inl bad_log_revalidation_every
        | some d ↦ inr true
      ])

  unfoldable pub compile_expiration : Str → RuleError ⊎ ℕ
  compile_expiration s =
      if str_eq s []
      then inr 0
      else (elim (parse_duration s) [ none ↦ inl bad_expiration | some d ↦ inr d ])

  -- The period, and the number of requests at a time: both 0 without a warmup.
  unfoldable pub compile_warm_up : Option WarmUpConfig → RuleError ⊎ (ℕ × ℕ)
  compile_warm_up none = inr (0, 0)
  compile_warm_up (some w) =
      if str_eq (trim_space w.run_every) []
      then inl run_every_required
      else (elim (parse_duration w.run_every) [
        | none ↦ inl bad_run_every
        | some d ↦
            if not (is_pos d)
            then inl run_every_not_positive
            else if not (is_pos w.max_requests_at_a_time)
            then inl max_requests_required
            else inr (d, w.max_requests_at_a_time)
      ])

  unfoldable pub compile_rule : RuleConfig → RuleError ⊎ CompiledRule
  compile_rule r = and_then (compile_matchers r.match_text) (λ ms.
      and_then (compile_expiration r.expiration) (λ exp.
        and_then (compile_warm_up r.warm_up) (λ warm. inr (record {
          source = r;
          matchers = ms;
          exp_dur = exp;
          warm_every = warm.0;
          warm_max = warm.1;
        }))))

  -- The loop over the rules, at the index `i`.
  unfoldable pub compile_rules : ℕ → List RuleConfig → LoadError ⊎ List CompiledRule
  compile_rules i [] = inr []
  compile_rules i (r ∷ rs) = cons_rule i (compile_rule r) (compile_rules (suc i) rs)

-- The comparison of the rules that `sort.Slice` is given, of ints.
unfoldable pub by_priority : CompiledRule → CompiledRule → Bool
by_priority a b = slt a.source.priority b.source.priority

-- The errors of the tokens are among those of the configuration.
unfoldable pub tokens_error : ConfigError ⊎ List AuthTokenConfig → LoadError ⊎ List AuthTokenConfig
tokens_error (inl e) = inl (bad_tokens e)
tokens_error (inr ts) = inr ts

unfoldable pub load_invalidation : Document → LoadError ⊎ InvalidationConfig
load_invalidation doc =
    let inv = apply_defaults doc.invalidation in
    if str_eq doc.origin []
    then inl origin_required
    else if not (validate inv)
    then inl bad_invalidation
    else inr inv

-- `LoadConfig` after the file was read and parsed, in the environment `getenv`.
unfoldable pub load_config :
    (Str → Option ℕ)
    → ((CompiledRule → CompiledRule → Bool) → List CompiledRule → List CompiledRule)
    → (Str → Str)
    → Document
    → LoadError ⊎ LoadedConfig
load_config parse_duration sort getenv doc = and_then (load_invalidation doc) (λ inv.
    and_then (tokens_error (load_tokens getenv inv doc.tokens)) (λ tokens.
      and_then (load_initial_delay parse_duration doc) (λ delay.
        and_then (load_rediscover_every parse_duration doc) (λ every.
          and_then (load_log_stats_every parse_duration doc) (λ stats_every.
            and_then (load_log_warm_up parse_duration doc) (λ log_warm_up.
              and_then (compile_rules parse_duration 0 doc.rules) (λ rules. inr (record {
                port = if doc.port == 0 then 8080 else doc.port;
                origin = trim_origin doc.origin;
                invalidation = inv;
                tokens = tokens;
                initial_delay_dur = delay;
                rediscover_every_dur = every;
                sitemaps = doc.sitemaps;
                log_stats_every_dur = stats_every;
                log_warm_up = log_warm_up;
                rules = sort by_priority rules;
              }))))))))

-- What the proxy is given of a rule, as internal/wait0/proxy_runtime_adapter.go copies it.
unfoldable pub proxy_rule : CompiledRule → Rule
proxy_rule r = record {
  matchers = r.matchers;
  bypass = r.source.bypass;
  bypass_when_cookies = r.source.bypass_when_cookies;
  expiration = r.exp_dur;
}
