-- ===== src/Config/Load/Errors.antt =====
-- Which rule the error of `LoadConfig` of internal/wait0/config.go names.
use mathlib.Core.Path.{subst}
use wait.Config.Matching.{MatchError, parse_match}
use wait.Config.Matching.Reasons.{MatchWrong, parse_match-MatchWrong}
use wait.Base.{
  ◌≢◌, true, false, none, some, is_pos, trim_space, str_eq, str_eq_iff, Bool-cases, Option-cases, ℕ,
  suc, ◌+◌, ◌≡◌, ◌⊎◌, refl, ap, Option, List, [], ◌∷◌, ◌++◌, Str, All, length, inl, inr, arith,
}
use wait.Config.Load.{
  WarmUpConfig, RuleConfig, CompiledRule, RuleError, bad_match, bad_expiration, run_every_required,
  bad_run_every, run_every_not_positive, max_requests_required, LoadError, bad_rule, and_then,
  compile_matchers, compile_expiration, compile_warm_up, compile_rule, cons_rule, compile_rules,
}

inl-eq : {E A : Type 0} (a b : E) → ◌≡◌ {A = E ⊎ A} (inl a) (inl b) → a ≡ b
inl-eq a b e = cc

filled : (s : Str) → str_eq s [] ≡ false → s ≢ []
filled s e = λ empty. absurd (ground (arith, e, str_eq_iff s [], empty))

and_then-inl :
    {E A B : Type 0} (x : E ⊎ A) (next : A → E ⊎ B) (e : E)
    → and_then x next ≡ inl e
    → (x ≡ inl e) ⊎ ((a : A) × (next a ≡ inl e))
unfolding and_then
and_then-inl (inl d) next e h = inl (ap inl (inl-eq d e h))
and_then-inl (inr a) next e h = inr (a, h)

module _ (parse_duration : Str → Option ℕ) where
  abbrev Compiles : RuleConfig → Type 0
  Compiles c = (r : CompiledRule) × (compile_rule parse_duration c ≡ inr r)

  -- What is wrong with a rule.
  pub data RuleWrong (c : RuleConfig) : RuleError → Type 0 where
    of_match : {e : MatchError} → MatchWrong c.match_text e → RuleWrong c (bad_match e)
    of_expiration :
        c.expiration ≢ [] → parse_duration c.expiration ≡ none → RuleWrong c bad_expiration
    no_period :
        (w : WarmUpConfig)
        → c.warm_up ≡ some w
        → trim_space w.run_every ≡ []
        → RuleWrong c run_every_required
    of_period :
        (w : WarmUpConfig)
        → c.warm_up ≡ some w
        → trim_space w.run_every ≢ []
        → parse_duration w.run_every ≡ none
        → RuleWrong c bad_run_every
    short_period :
        (w : WarmUpConfig) (d : ℕ)
        → c.warm_up ≡ some w
        → parse_duration w.run_every ≡ some d
        → is_pos d ≡ false
        → RuleWrong c run_every_not_positive
    of_requests :
        (w : WarmUpConfig) (d : ℕ)
        → c.warm_up ≡ some w
        → parse_duration w.run_every ≡ some d
        → is_pos d ≡ true
        → is_pos w.max_requests_at_a_time ≡ false
        → RuleWrong c max_requests_required

  compile_matchers-RuleWrong :
      (c : RuleConfig) (e : RuleError) → compile_matchers c.match_text ≡ inl e → RuleWrong c e
  unfolding compile_matchers
  compile_matchers-RuleWrong c e h = go (parse_match c.match_text) refl h
    where
      go :
          (o : MatchError ⊎ List Str)
          → parse_match c.match_text ≡ o
          → ◌≡◌ {A = RuleError ⊎ List Str}
              (elim o [ inl m ↦ inl (bad_match m) | inr ms ↦ inr ms ])
              (inl e)
          → RuleWrong c e
      go (inl m) is h' =
          subst (RuleWrong c) (inl-eq (bad_match m) e h')
            (of_match (parse_match-MatchWrong c.match_text m is))
      go (inr ms) is h' = absurd cc

  compile_expiration-RuleWrong :
      (c : RuleConfig) (e : RuleError)
      → compile_expiration parse_duration c.expiration ≡ inl e
      → RuleWrong c e
  unfolding compile_expiration
  compile_expiration-RuleWrong c e h = elim (Bool-cases (str_eq c.expiration [])) [
    | inl b ↦ absurd (let h' = simp (b, compile_expiration) at h in cc)
    | inr b ↦ elim (Option-cases (parse_duration c.expiration)) [
      | inl is ↦
          subst (RuleWrong c) (inl-eq bad_expiration e (simp (b, is, compile_expiration) at h))
            (of_expiration (filled c.expiration b) is)
      | inr (d, is) ↦ absurd (let h' = simp (b, is, compile_expiration) at h in cc)
    ]
  ]

  compile_warm_up-RuleWrong :
      (c : RuleConfig) (o : Option WarmUpConfig) (e : RuleError)
      → c.warm_up ≡ o
      → compile_warm_up parse_duration o ≡ inl e
      → RuleWrong c e
  unfolding compile_warm_up
  compile_warm_up-RuleWrong c none e at_rule h = absurd cc
  compile_warm_up-RuleWrong c (some w) e at_rule h =
      elim (Bool-cases (str_eq (trim_space w.run_every) [])) [
        | inl b ↦
            subst (RuleWrong c) (inl-eq run_every_required e (simp (b, compile_warm_up) at h))
              (no_period w at_rule ((str_eq_iff (trim_space w.run_every) []).0 b))
        | inr b ↦ elim (Option-cases (parse_duration w.run_every)) [
          | inl is ↦
              subst (RuleWrong c) (inl-eq bad_run_every e (simp (b, is, compile_warm_up) at h))
                (of_period w at_rule (filled (trim_space w.run_every) b) is)
          | inr (d, is) ↦ elim (Bool-cases (is_pos d)) [
            | inr short ↦
                subst (RuleWrong c)
                  (inl-eq run_every_not_positive e (simp (b, is, short, compile_warm_up) at h))
                  (short_period w d at_rule is short)
            | inl long ↦ elim (Bool-cases (is_pos w.max_requests_at_a_time)) [
              | inr few ↦
                  subst (RuleWrong c)
                    (inl-eq max_requests_required e (simp (b, is, long, few, compile_warm_up) at h))
                    (of_requests w d at_rule is long few)
              | inl some_requests ↦
                  absurd (let h' = simp (b, is, long, some_requests, compile_warm_up) at h in cc)
            ]
          ]
        ]
      ]

  compile_rule-RuleWrong :
      (c : RuleConfig) (e : RuleError) → compile_rule parse_duration c ≡ inl e → RuleWrong c e
  unfolding compile_rule
  compile_rule-RuleWrong c e h = elim (and_then-inl (compile_matchers c.match_text) _ e h) [
    | inl text_bad ↦ compile_matchers-RuleWrong c e text_bad
    | inr (ms, h1) ↦ elim (and_then-inl (compile_expiration parse_duration c.expiration) _ e h1) [
      | inl of_exp ↦ compile_expiration-RuleWrong c e of_exp
      | inr (exp, h2) ↦ elim (and_then-inl (compile_warm_up parse_duration c.warm_up) _ e h2) [
        | inl of_warm ↦ compile_warm_up-RuleWrong c c.warm_up e refl of_warm
        | inr (warm, done) ↦ absurd (cc)
      ]
    ]
  ]

  -- The error `e` of the rules `cs`, the first of which has the index `i`.
  pub record FirstBad (i : ℕ) (cs : List RuleConfig) (e : LoadError) : Type 0 where
    pub before : List RuleConfig
    pub bad : RuleConfig
    pub after : List RuleConfig
    pub why : RuleError
    pub split : cs ≡ before ++ bad ∷ after
    pub good : All Compiles before
    pub wrong : RuleWrong bad why
    pub named : e ≡ bad_rule (i + length before) why

  cons_rule-FirstBad :
      (i : ℕ) (c : RuleConfig) (cs : List RuleConfig) (x : RuleError ⊎ CompiledRule)
      (y : LoadError ⊎ List CompiledRule) (e : LoadError)
      → compile_rule parse_duration c ≡ x
      → ((e' : LoadError) → y ≡ inl e' → FirstBad (suc i) cs e')
      → cons_rule i x y ≡ inl e
      → FirstBad i (c ∷ cs) e
  unfolding cons_rule
  cons_rule-FirstBad i c cs (inl why) y e is rest h = record {
    before = [];
    bad = c;
    after = cs;
    why = why;
    split = refl;
    good = tt;
    wrong = compile_rule-RuleWrong c why is;
    named = let at : i + 0 ≡ i = omega arith in rw at cc;
  }
  cons_rule-FirstBad i c cs (inr r) (inl e') e is rest h =
      let f = rest e' refl in
      record {
        before = c ∷ f.before;
        bad = f.bad;
        after = f.after;
        why = f.why;
        split = ap (λ x. c ∷ x) f.split;
        good = ((r, is), f.good);
        wrong = f.wrong;
        named =
            let at : i + suc (length f.before) ≡ suc i + length f.before = omega arith in
            let n = f.named in rw at cc;
      }
  cons_rule-FirstBad i c cs (inr r) (inr rs) e is rest h = absurd cc

  -- An error of the rules names the first rule that does not compile, by its index, with a true
  -- reason, and each rule before that one compiles: the expression is blank, has no alternative, or has
  -- one that is not `PathPrefix(...)` or is not rooted, which is the first such one; the expiration or
  -- the period is no duration; the period of a warmup is missing or not above zero, or its number of
  -- requests is not above zero.
  pub compile_rules-FirstBad :
      (i : ℕ) (cs : List RuleConfig) (e : LoadError)
      → compile_rules parse_duration i cs ≡ inl e
      → FirstBad i cs e
  unfolding compile_rules
  compile_rules-FirstBad i [] e h = absurd cc
  compile_rules-FirstBad i (c ∷ cs) e h =
      cons_rule-FirstBad i c cs (compile_rule parse_duration c)
        (compile_rules parse_duration (suc i) cs) e refl
        (λ e' h'. compile_rules-FirstBad (suc i) cs e' h') h
