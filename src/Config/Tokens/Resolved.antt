-- ===== src/Config/Tokens/Resolved.antt =====
-- What internal/wait0/config.go lets through as tokens.
use mathlib.Core.Path.{subst}
use wait.Base.{
  ℕ, ◌+◌, ◌≡◌, refl, sym, ap, ◌∙◌, Bool, true, false, not, ◌==◌, List, [], ◌∷◌, ◌++◌, ◌⊎◌, inl, inr,
  Str, str, str_eq, member, trim_space, trimmed_unique, trimmed_unique-Distinct, Distinct, Fresh,
  Fresh-tail, Fresh-head, append-Distinct, length, if◌then◌else◌, arith, Bool-cases, any, All,
  All-append,
}
use wait.Invalidation.Handle.{write_scope}
use wait.Config.Tokens.{
  AuthTokenConfig, InvalidationTokenConfig, InvalidationConfig, ConfigError, resolve_token,
  resolve_one, cons_or_error, resolve_all, validate_and_resolve_tokens, import_one, import_all,
  ids_of, append_or_error, import_legacy_tokens, validate_auth_bindings, load_tokens,
}

-- A token that can be used: a name, a secret, and scopes without repetition.
pub record IsToken (t : AuthTokenConfig) : Type 0 where
  pub named : str_eq t.id [] ≡ false
  pub secret : str_eq t.token [] ≡ false
  pub scoped : (length t.scopes == 0) ≡ false
  pub distinct : Distinct t.scopes

pub record IsResolved (ids : List Str) (ts : List AuthTokenConfig) : Type 0 where
  pub fresh : Fresh ids (ids_of ts)
  pub distinct : Distinct (ids_of ts)
  pub all : All IsToken ts

inr-of : {A B : Type 0} {x y : B} → ◌≡◌ {A = A ⊎ B} (inr x) (inr y) → x ≡ y
inr-of e = cc

IsResolved-nil :
    (ids : List Str) (ts : List AuthTokenConfig)
    → ◌≡◌ {A = ConfigError ⊎ List AuthTokenConfig} (inr []) (inr ts)
    → IsResolved ids ts
unfolding Fresh Distinct
IsResolved-nil ids [] h = record { fresh = tt; distinct = tt; all = tt }
IsResolved-nil ids (t ∷ ts) h = absurd cc

module _ (ids : List Str) (ts : List AuthTokenConfig) where
  cons_or_error-IsResolved :
      (o : ConfigError ⊎ AuthTokenConfig)
      (rest : AuthTokenConfig → ConfigError ⊎ List AuthTokenConfig)
      → ((u : AuthTokenConfig) → o ≡ inr u → (member u.id ids ≡ false) × IsToken u)
      → ((u : AuthTokenConfig) (us : List AuthTokenConfig)
          → rest u ≡ inr us
          → IsResolved (u.id ∷ ids) us)
      → cons_or_error o rest ≡ inr ts
      → IsResolved ids ts
  unfolding cons_or_error
  cons_or_error-IsResolved (inl e) rest first others h = absurd cc
  cons_or_error-IsResolved (inr u) rest first others h = go (rest u) refl h
    where
      go :
          (r : ConfigError ⊎ List AuthTokenConfig)
          → rest u ≡ r
          → (elim r as (λ _. ConfigError ⊎ List AuthTokenConfig) [
            | inl e ↦ inl e
            | inr us ↦ inr (u ∷ us)
          ])
            ≡ inr ts
          → IsResolved ids ts
      go (inl e) is h = absurd cc
      go (inr us) is h =
          let (new, ok) = first u refl in
          let o = others u us is in
          subst (IsResolved ids) (inr-of h) (
            unfold Fresh Distinct in
            record {
              fresh = (new, Fresh-tail u.id ids (ids_of us) o.fresh);
              distinct = (Fresh-head u.id ids (ids_of us) o.fresh, o.distinct);
              all = (ok, o.all);
            })

module _ (getenv : Str → Str) where
  resolve_one-IsToken :
      (i : ℕ) (ids : List Str) (t u : AuthTokenConfig)
      → resolve_one getenv i ids t ≡ inr u
      → (member u.id ids ≡ false) × IsToken u
  unfolding resolve_one
  resolve_one-IsToken i ids t u h = elim (Bool-cases (str_eq (trim_space t.id) [])) [
    | inl e ↦ absurd (let h' = simp (e, resolve_one) at h in cc)
    | inr e ↦ elim (Bool-cases (member (trim_space t.id) ids)) [
      | inl f ↦ absurd (let h' = simp (e, f, resolve_one) at h in cc)
      | inr f ↦
          elim (Bool-cases
            (str_eq (resolve_token getenv (trim_space t.token) (trim_space t.token_env)) [])) [
              | inl g ↦ absurd (let h' = simp (e, f, g, resolve_one) at h in cc)
              | inr g ↦ elim (Bool-cases (length (trimmed_unique [] t.scopes) == 0)) [
                | inl k ↦ absurd (let h' = simp (e, f, g, k, resolve_one) at h in cc)
                | inr k ↦
                    let h' = simp (e, f, g, k, resolve_one) at h in
                    subst (λ x. (member x.id ids ≡ false) × IsToken x) (inr-of h')
                      (
                        f,
                        record {
                          named = e;
                          secret = g;
                          scoped = k;
                          distinct = trimmed_unique-Distinct [] t.scopes;
                        },
                      )
              ]
            ]
    ]
  ]

  resolve_all-IsResolved :
      (i : ℕ) (ids : List Str) (ts us : List AuthTokenConfig)
      → resolve_all getenv i ids ts ≡ inr us
      → IsResolved ids us
  unfolding resolve_all
  resolve_all-IsResolved i ids [] us h = IsResolved-nil ids us h
  resolve_all-IsResolved i ids (t ∷ ts) us h =
      cons_or_error-IsResolved ids us (resolve_one getenv i ids t) _
        (λ u. resolve_one-IsToken i ids t u)
        (λ u vs. resolve_all-IsResolved (i + 1) (u.id ∷ ids) ts vs) h

  import_one-IsToken :
      (i : ℕ) (ids : List Str) (t : InvalidationTokenConfig) (u : AuthTokenConfig)
      → import_one getenv i ids t ≡ inr u
      → (member u.id ids ≡ false) × IsToken u
  unfolding import_one
  import_one-IsToken i ids t u h = elim (Bool-cases (str_eq (trim_space t.id) [])) [
    | inl e ↦ absurd (let h' = simp (e, import_one) at h in cc)
    | inr e ↦ elim (Bool-cases (member (trim_space t.id) ids)) [
      | inl f ↦ absurd (let h' = simp (e, f, import_one) at h in cc)
      | inr f ↦
          elim (Bool-cases
            (str_eq (resolve_token getenv (trim_space t.token) (trim_space t.token_env)) [])) [
              | inl g ↦ absurd (let h' = simp (e, f, g, import_one) at h in cc)
              | inr g ↦
                  elim (Bool-cases (
                    not (
                      str_eq
                        (if str_eq (trim_space t.role) []
                          then str "invalidate_all"
                          else trim_space t.role)
                        (str "invalidate_all")))) [
                          | inl k ↦ absurd (let h' = simp (e, f, g, k, import_one) at h in cc)
                          | inr k ↦
                              let h' = simp (e, f, g, k, import_one) at h in
                              subst (λ x. (member x.id ids ≡ false) × IsToken x) (inr-of h')
                                (
                                  f,
                                  (unfold Distinct member in
                                      record {
                                        named = e;
                                        secret = g;
                                        scoped = refl;
                                        distinct = (refl, tt);
                                      }),
                                )
                        ]
            ]
    ]
  ]

  import_all-IsResolved :
      (i : ℕ) (ids : List Str) (ts : List InvalidationTokenConfig) (us : List AuthTokenConfig)
      → import_all getenv i ids ts ≡ inr us
      → IsResolved ids us
  unfolding import_all
  import_all-IsResolved i ids [] us h = IsResolved-nil ids us h
  import_all-IsResolved i ids (t ∷ ts) us h =
      cons_or_error-IsResolved ids us (import_one getenv i ids t) _
        (λ u. import_one-IsToken i ids t u)
        (λ u vs. import_all-IsResolved (i + 1) (u.id ∷ ids) ts vs) h

ids_of-append : (ts us : List AuthTokenConfig) → ids_of (ts ++ us) ≡ ids_of ts ++ ids_of us
ids_of-append [] us = refl
ids_of-append (t ∷ ts) us = ap (◌∷◌ t.id) (ids_of-append ts us)

append_or_error-inr :
    (ts vs : List AuthTokenConfig) (o : ConfigError ⊎ List AuthTokenConfig)
    → append_or_error ts o ≡ inr vs
    → (us : List AuthTokenConfig) × (o ≡ inr us) × (vs ≡ ts ++ us)
unfolding append_or_error
append_or_error-inr ts vs (inl e) h = absurd cc
append_or_error-inr ts vs (inr us) h = (us, refl, sym (inr-of h))

-- The tokens that a configuration is loaded with.
pub record IsLoaded (enabled : Bool) (ts : List AuthTokenConfig) : Type 0 where
  pub distinct : Distinct (ids_of ts)
  pub all : All IsToken ts
  pub writer :
      enabled ≡ true
      → any (λ (t : AuthTokenConfig). any (λ s. str_eq s write_scope) t.scopes) ts ≡ true

either : {A B : Type 0} (x : A ⊎ B) → ((a : A) × (x ≡ inl a)) ⊎ ((b : B) × (x ≡ inr b))
either (inl a) = inl (a, refl)
either (inr b) = inr (b, refl)

binds-writer :
    (enabled : Bool) (ts : List AuthTokenConfig)
    → validate_auth_bindings enabled ts ≡ true
    → enabled ≡ true
    → any (λ (t : AuthTokenConfig). any (λ s. str_eq s write_scope) t.scopes) ts ≡ true
unfolding validate_auth_bindings
binds-writer enabled ts h e = ground (arith, h, e)

-- The tokens that are loaded, those of the former section of the invalidation included, have distinct
-- names, each has a name, a secret, and scopes without repetition, and where the invalidation is
-- enabled, one of them has the scope `invalidation:write`.
pub load_tokens-IsLoaded :
    (getenv : Str → Str) (inv : InvalidationConfig) (ts vs : List AuthTokenConfig)
    → load_tokens getenv inv ts ≡ inr vs
    → IsLoaded inv.enabled vs
unfolding load_tokens validate_and_resolve_tokens import_legacy_tokens
load_tokens-IsLoaded getenv inv ts vs h = elim (either (validate_and_resolve_tokens getenv ts)) [
  | inl (e, bad) ↦ absurd (let h' = simp (bad, load_tokens) at h in cc)
  | inr (us, good) ↦ elim (either (import_legacy_tokens getenv us inv.tokens)) [
    | inl (e, bad) ↦ absurd (let h' = simp (good, bad, load_tokens) at h in cc)
    | inr (ws, fine) ↦ elim (Bool-cases (validate_auth_bindings inv.enabled ws)) [
      | inr bad ↦ absurd (let h' = simp (good, fine, bad, load_tokens) at h in cc)
      | inl bound ↦
          let h' = simp (good, fine, bound, load_tokens) at h in
          let o = resolve_all-IsResolved getenv 0 [] ts us good in
          let (xs, from, is) =
            append_or_error-inr us ws (import_all getenv 0 (ids_of us) inv.tokens) fine in
          let n = import_all-IsResolved getenv 0 (ids_of us) inv.tokens xs from in
          subst (IsLoaded inv.enabled) (inr-of h') (record {
            distinct =
                subst Distinct (sym (ap ids_of is ∙ ids_of-append us xs))
                  (append-Distinct (ids_of us) (ids_of xs) o.distinct n.distinct n.fresh);
            all = subst (All IsToken) (sym is) (All-append IsToken us xs o.all n.all);
            writer = binds-writer inv.enabled ws bound;
          })
    ]
  ]
]
