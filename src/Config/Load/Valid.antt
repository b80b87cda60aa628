-- ===== src/Config/Load/Valid.antt =====
-- What `LoadConfig` of internal/wait0/config.go promises of a configuration that it accepts.
use mathlib.Core.Path.{subst}
use mathlib.Core.List.{reverse, reverse-reverse}
use wait.Base.{
  ℕ, suc, ◌<◌, ◌%◌, two63, two64, ◌≡◌, ◌≢◌, ◌⊎◌, refl, sym, ap, ◌∙◌, Bool, true, false, not, Option,
  none, some, List, [], ◌∷◌, Str, str, map, All, is_pos, is_neg, if◌then◌else◌, has_prefix,
  has_suffix, ◌==◌, Bool-cases, inl, inr, arith,
}
use wait.Proxy.{pick_rule}
use wait.Config.Matching.{parse_match, parse_match-rooted}
use wait.Config.Tokens.{AuthTokenConfig, ConfigError, InvalidationConfig, validate, load_tokens}
use wait.Config.Tokens.Resolved.{IsLoaded, load_tokens-IsLoaded}
use wait.Config.Load.{
  WarmUpConfig, RuleConfig, CompiledRule, RuleError, Document, LoadError, LoadedConfig,
  trim_slashes, trim_origin, optional_duration, load_initial_delay, load_rediscover_every,
  compile_warm_up, compile_matchers, compile_rule, cons_rule, compile_rules, tokens_error,
  load_invalidation, load_config, proxy_rule, by_priority,
}
use wait.Config.Load.Priority.{Listed, Sorts, Picks, Picks-Sorts, pick_rule-Picks, and_then-inr}

inr-eq : {E A : Type 0} (a b : A) → ◌≡◌ {A = E ⊎ A} (inr a) (inr b) → a ≡ b
inr-eq a b e = cc

cons_rule-inr :
    (i : ℕ) (x : RuleError ⊎ CompiledRule) (y : LoadError ⊎ List CompiledRule)
    (rs : List CompiledRule)
    → cons_rule i x y ≡ inr rs
    → (q : CompiledRule) × (qs : List CompiledRule) × (x ≡ inr q) × (y ≡ inr qs) × (q ∷ qs ≡ rs)
unfolding cons_rule
cons_rule-inr i (inl e) y rs h = absurd cc
cons_rule-inr i (inr q) (inl e) rs h = absurd cc
cons_rule-inr i (inr q) (inr qs) rs h = (q, qs, refl, refl, inr-eq (q ∷ qs) rs h)

trim_slashes-has_prefix : (s : Str) → has_prefix (trim_slashes s) (str "/") ≡ false
unfolding trim_slashes has_prefix
trim_slashes-has_prefix [] = refl
trim_slashes-has_prefix (c ∷ s) = elim (Bool-cases (c == b'/')) [
  | inl e ↦ simp (e, trim_slashes) (trim_slashes-has_prefix s)
  | inr e ↦ simp (e, trim_slashes) (ground (arith, e))
]

trim_origin-has_suffix : (s : Str) → has_suffix (trim_origin s) (str "/") ≡ false
unfolding trim_origin has_suffix
trim_origin-has_suffix s =
    ap (λ x. has_prefix x (str "/")) (reverse-reverse (trim_slashes (reverse s)))
    ∙ trim_slashes-has_prefix (reverse s)

tokens_error-inr :
    (x : ConfigError ⊎ List AuthTokenConfig) (ts : List AuthTokenConfig)
    → tokens_error x ≡ inr ts
    → x ≡ inr ts
unfolding tokens_error
tokens_error-inr (inl e) ts h = absurd cc
tokens_error-inr (inr us) ts h = ap inr (inr-eq us ts h)

-- An int above zero: its pattern is neither 0 nor that of a negative number.
abbrev pub IsPositive : ℕ → Type 0
IsPositive n = (0 < n) × (n % two64 < two63)

is_pos-IsPositive : (n : ℕ) → is_pos n ≡ true → IsPositive n
is_pos-IsPositive n h = (ground (arith, h), ground (arith, h))

load_invalidation-IsPositive :
    (doc : Document) (inv : InvalidationConfig)
    → load_invalidation doc ≡ inr inv
    → IsPositive inv.queue_size
      × IsPositive inv.worker_concurrency
      × IsPositive inv.max_body_bytes
      × IsPositive inv.max_paths
      × IsPositive inv.max_tags
unfolding load_invalidation validate
load_invalidation-IsPositive doc inv h =
    let ok : validate inv ≡ true = ground (arith, h) in
    (
      is_pos-IsPositive inv.queue_size (ground (arith, ok)),
      is_pos-IsPositive inv.worker_concurrency (ground (arith, ok)),
      is_pos-IsPositive inv.max_body_bytes (ground (arith, ok)),
      is_pos-IsPositive inv.max_paths (ground (arith, ok)),
      is_pos-IsPositive inv.max_tags (ground (arith, ok)),
    )

module _ (parse_duration : Str → Option ℕ) where
  -- The results of the stages, where none has an error.
  record Stages
      (sort : (CompiledRule → CompiledRule → Bool) → List CompiledRule → List CompiledRule)
      (getenv : Str → Str) (doc : Document) (cfg : LoadedConfig) : Type 0 where
    tokens_loaded : tokens_error (load_tokens getenv cfg.invalidation doc.tokens) ≡ inr cfg.tokens
    inv_loaded : load_invalidation doc ≡ inr cfg.invalidation
    delay_loaded : load_initial_delay parse_duration doc ≡ inr cfg.initial_delay_dur
    every_loaded : load_rediscover_every parse_duration doc ≡ inr cfg.rediscover_every_dur
    rules : List CompiledRule
    rules_loaded : compile_rules parse_duration 0 doc.rules ≡ inr rules
    rules_sorted : sort by_priority rules ≡ cfg.rules
    origin_loaded : trim_origin doc.origin ≡ cfg.origin
    port_loaded : (if doc.port == 0 then 8080 else doc.port) ≡ cfg.port

  load_config-Stages :
      (sort : (CompiledRule → CompiledRule → Bool) → List CompiledRule → List CompiledRule)
      (getenv : Str → Str) (doc : Document) (cfg : LoadedConfig)
      → load_config parse_duration sort getenv doc ≡ inr cfg
      → Stages sort getenv doc cfg
  unfolding load_config
  load_config-Stages sort getenv doc cfg h =
      let (inv, e1, h1) = and_then-inr _ _ _ h in
      let (tokens, e2, h2) = and_then-inr _ _ _ h1 in
      let (delay, e3, h3) = and_then-inr _ _ _ h2 in
      let (every, e4, h4) = and_then-inr _ _ _ h3 in
      let (stats, e5, h5) = and_then-inr _ _ _ h4 in
      let (log, e6, h6) = and_then-inr _ _ _ h5 in
      let (rules, e7, h7) = and_then-inr _ _ _ h6 in
      subst (Stages sort getenv doc) (inr-eq _ _ h7) (record {
        tokens_loaded = e2;
        inv_loaded = e1;
        delay_loaded = e3;
        every_loaded = e4;
        rules = rules;
        rules_loaded = e7;
        rules_sorted = refl;
        origin_loaded = refl;
        port_loaded = refl;
      })

  -- Where `sort.Slice` gives the rules of the document, in an order in which none is less than one in
  -- front of it by the comparison that it is given: in a configuration that is loaded, the rule of a path is one of the document that matches it, and
  -- no rule of the document that matches has a smaller priority number; there is none only where none
  -- matches.
  pub load_config-Picks :
      (sort : (CompiledRule → CompiledRule → Bool) → List CompiledRule → List CompiledRule)
      (getenv : Str → Str) (doc : Document) (cfg : LoadedConfig) (rules : List CompiledRule)
      (path : Str)
      → load_config parse_duration sort getenv doc ≡ inr cfg
      → compile_rules parse_duration 0 doc.rules ≡ inr rules
      → Sorts by_priority rules (sort by_priority rules)
      → Picks rules path (pick_rule (map proxy_rule cfg.rules) path)
  load_config-Picks sort getenv doc cfg rules path h e sorts =
      let s = load_config-Stages sort getenv doc cfg h in
      let same : s.rules ≡ rules = inr-eq _ _ (sym s.rules_loaded ∙ e) in
      subst (λ rs. Picks rules path (pick_rule (map proxy_rule rs) path))
        (ap (sort by_priority) (sym same) ∙ s.rules_sorted)
        (Picks-Sorts by_priority rules (sort by_priority rules) path _ sorts
          (pick_rule-Picks (sort by_priority rules) path sorts.ordered))

  -- What the rules of a configuration have: prefixes, each of them rooted, and a warmup with a
  -- period and a number of requests that are positive, or none.
  pub record IsRule (r : CompiledRule) : Type 0 where
    pub some_matcher : r.matchers ≢ []
    pub rooted : All (λ m. has_prefix m (str "/") ≡ true) r.matchers
    pub warms :
        ((is_pos r.warm_every ≡ true) × (is_pos r.warm_max ≡ true))
        ⊎ ((r.source.warm_up ≡ none) × (r.warm_every ≡ 0) × (r.warm_max ≡ 0))

  compile_matchers-some :
      (text : Str) (ms : List Str) → compile_matchers text ≡ inr ms → parse_match text ≡ inr ms
  unfolding compile_matchers
  compile_matchers-some text ms h = ground (arith, h)

  compile_warm_up-warms :
      (o : Option WarmUpConfig) (w : ℕ × ℕ)
      → compile_warm_up parse_duration o ≡ inr w
      → ((is_pos w.0 ≡ true) × (is_pos w.1 ≡ true)) ⊎ ((o ≡ none) × (w.0 ≡ 0) × (w.1 ≡ 0))
  unfolding compile_warm_up
  compile_warm_up-warms none w h =
      let e = inr-eq (0, 0) w h in
      inr (refl, ap (λ (x : ℕ × ℕ). x.0) (sym e), ap (λ (x : ℕ × ℕ). x.1) (sym e))
  compile_warm_up-warms (some c) w h = inl (ground (arith, h), ground (arith, h))

  compile_rule-IsRule :
      (c : RuleConfig) (r : CompiledRule) → compile_rule parse_duration c ≡ inr r → IsRule r
  unfolding compile_rule
  compile_rule-IsRule c r h =
      let (ms, e1, h1) = and_then-inr _ _ _ h in
      let (exp, e2, h2) = and_then-inr _ _ _ h1 in
      let (warm, e3, h3) = and_then-inr _ _ _ h2 in
      let (full, rooted) =
        parse_match-rooted c.match_text ms (compile_matchers-some c.match_text ms e1) in
      subst IsRule (inr-eq _ r h3) (record {
        some_matcher = full;
        rooted = rooted;
        warms = compile_warm_up-warms c.warm_up warm e3;
      })

  compile_rules-IsRule :
      (i : ℕ) (cs : List RuleConfig) (rs : List CompiledRule)
      → compile_rules parse_duration i cs ≡ inr rs
      → (r : CompiledRule) → Listed r rs
      → IsRule r
  unfolding compile_rules cons_rule
  compile_rules-IsRule i [] rs h r l = absurd (subst (Listed r) (sym (inr-eq [] rs h)) l)
  compile_rules-IsRule i (c ∷ cs) rs h r l =
      let (q, qs, e, f, same) =
        cons_rule-inr i (compile_rule parse_duration c) (compile_rules parse_duration (suc i) cs) rs
          h in
      elim (subst (Listed r) (sym same) l) [
        | inl is ↦ subst IsRule is (compile_rule-IsRule c q e)
        | inr later ↦ compile_rules-IsRule (suc i) cs qs f r later
      ]

  optional_duration-passes :
      (e : LoadError) (test : ℕ → Bool) (given : Bool) (s : Str) (d : ℕ)
      → optional_duration parse_duration e test given s ≡ inr d
      → (d ≡ 0) ⊎ (test d ≡ true)
  unfolding optional_duration
  optional_duration-passes e test false s d h = inl (sym (inr-eq 0 d h))
  optional_duration-passes e test true s d h = inr (ground (arith, h))

  -- What a configuration that was loaded has.
  pub record IsValid (cfg : LoadedConfig) : Type 0 where
    pub port : (cfg.port == 0) ≡ false
    pub origin : has_suffix cfg.origin (str "/") ≡ false
    pub queue_size : IsPositive cfg.invalidation.queue_size
    pub worker_concurrency : IsPositive cfg.invalidation.worker_concurrency
    pub max_body_bytes : IsPositive cfg.invalidation.max_body_bytes
    pub max_paths : IsPositive cfg.invalidation.max_paths
    pub max_tags : IsPositive cfg.invalidation.max_tags
    pub tokens : IsLoaded cfg.invalidation.enabled cfg.tokens
    pub initial_delay : is_neg cfg.initial_delay_dur ≡ false
    pub rediscover_every : (cfg.rediscover_every_dur ≡ 0) ⊎ (is_pos cfg.rediscover_every_dur ≡ true)
    pub rules : (r : CompiledRule) → Listed r cfg.rules → IsRule r

  -- Where `sort.Slice` adds no rule: a configuration that is loaded has a port that is not 0, an
  -- origin that does not end with a slash, positive limits of the invalidation, and tokens with
  -- distinct names, each with a secret and with scopes without repetition, one of them for the
  -- invalidation where that is enabled; its
  -- delay is not negative, its period positive or not given; and each rule has prefixes, all of them
  -- rooted, and a warmup with a positive period and number of requests, or none.
  pub load_config-IsValid :
      (sort : (CompiledRule → CompiledRule → Bool) → List CompiledRule → List CompiledRule)
      (getenv : Str → Str) (doc : Document) (cfg : LoadedConfig)
      → load_config parse_duration sort getenv doc ≡ inr cfg
      → ((rs : List CompiledRule) (r : CompiledRule) → Listed r (sort by_priority rs) → Listed r rs)
      → IsValid cfg
  unfolding load_initial_delay load_rediscover_every
  load_config-IsValid sort getenv doc cfg h adds_none =
      let s = load_config-Stages sort getenv doc cfg h in
      let limits = load_invalidation-IsPositive doc cfg.invalidation s.inv_loaded in
      record {
        port = ground (arith, s.port_loaded);
        origin =
            ap (λ x. has_suffix x (str "/")) (sym s.origin_loaded)
            ∙ trim_origin-has_suffix doc.origin;
        queue_size = limits.0;
        worker_concurrency = limits.1;
        max_body_bytes = limits.2;
        max_paths = limits.3;
        max_tags = limits.4;
        tokens =
            load_tokens-IsLoaded getenv cfg.invalidation doc.tokens cfg.tokens
              (tokens_error-inr _ cfg.tokens s.tokens_loaded);
        initial_delay =
            elim (optional_duration-passes _ (λ d. not (is_neg d)) _ _ _ s.delay_loaded) [
              | inl e ↦ ap is_neg e
              | inr e ↦ ground (arith, e)
            ];
        rediscover_every = optional_duration-passes _ is_pos _ _ _ s.every_loaded;
        rules = λ r l.
            compile_rules-IsRule 0 doc.rules s.rules s.rules_loaded r
              (adds_none s.rules r (subst (Listed r) (sym s.rules_sorted) l));
      }
