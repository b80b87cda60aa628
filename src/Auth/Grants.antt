-- ===== src/Auth/Grants.antt =====
-- What internal/wait0/auth/bearer.go grants, against the configuration.
use wait.Base.{
  ◌≡◌, ◌≢◌, ap, sym, ◌∙◌, Bool, true, false, ◌||◌, some, List, [], ◌∷◌, Str, str_eq, str_eq_iff,
  member, trim_space, arith, inl, inr, Bool-cases, Option-cases,
}
use wait.Auth.{
  TokenConfig, Principal, scope_set, to_token, tokens_of, new_authenticator, fields, bearer_token,
  parse_bearer_token, find_token, authenticate_bearer, authorized_for_scope,
}

-- The configuration that gives the scope to the token.
unfoldable pub has_scope : Str → List Str → Bool
has_scope req [] = false
has_scope req (s ∷ ss) = str_eq (trim_space s) req || has_scope req ss

-- Some configured token is `tok`, has the name `id`, and has the scope.
pub data Granted (id : Str) (tok : Str) (req : Str) : List TokenConfig → Type 0 where
  here :
      (c : TokenConfig) (cs : List TokenConfig)
      → c.id ≡ id
      → c.token ≡ tok
      → has_scope req c.scopes ≡ true
      → Granted id tok req (c ∷ cs)
  there :
      (c : TokenConfig) (cs : List TokenConfig)
      → Granted id tok req cs
      → Granted id tok req (c ∷ cs)

member-scope_set :
    (req : Str) (ss : List Str) → member req (scope_set ss) ≡ true → has_scope req ss ≡ true
unfolding scope_set has_scope member
member-scope_set req [] h = cc
member-scope_set req (s ∷ ss) h = elim (Bool-cases (str_eq (trim_space s) [])) [
  | inl e ↦
      let h' = simp (e, scope_set) at h in let r = member-scope_set req ss h' in ground (arith, r)
  | inr e ↦ let h' = simp (e, scope_set, member) at h in ground (arith, h', member-scope_set req ss)
]

authorized-member :
    (p : Principal) (scope : Str)
    → trim_space scope ≢ []
    → authorized_for_scope p scope ≡ true
    → member (trim_space scope) p.scopes ≡ true
unfolding authorized_for_scope
authorized-member p scope ne h = ground (arith, str_eq_iff (trim_space scope) [], h, ne)

find_token-Granted :
    (tok scope : Str) (cs : List TokenConfig) (p : Principal)
    → find_token tok (tokens_of cs) ≡ some p
    → trim_space scope ≢ []
    → authorized_for_scope p scope ≡ true
    → Granted p.id tok (trim_space scope) cs
unfolding find_token tokens_of to_token
find_token-Granted tok scope [] p h ne a = absurd (cc)
find_token-Granted tok scope (c ∷ cs) p h ne a = elim (Bool-cases (str_eq tok c.token)) [
  | inl e ↦
      let h' : some (record { id = c.id; scopes = scope_set c.scopes }) ≡ some p =
        simp (e, find_token) at h in
      let q : record { id = c.id; scopes = scope_set c.scopes } ≡ p = cc in
      here c cs (ap (λ (x : Principal). x.id) q) (sym ((str_eq_iff tok c.token).0 e)) (
        member-scope_set (trim_space scope) c.scopes (
          ap (λ (x : Principal). member (trim_space scope) x.scopes) q
          ∙ authorized-member p scope ne a))
  | inr e ↦
      let h' = simp (e, find_token, tokens_of) at h in
      there c cs (find_token-Granted tok scope cs p h' ne a)
]

bearer_token-nonempty : (fs : List Str) (tok : Str) → bearer_token fs ≡ some tok → tok ≢ []
unfolding bearer_token
bearer_token-nonempty (scheme ∷ t ∷ []) tok h = elim (Bool-cases (str_eq (trim_space t) [])) [
  | inl e ↦ ground (arith, h, e)
  | inr e ↦
      let same : trim_space t ≡ tok = ground (arith, h, e) in
      λ empty. absurd (ground (arith, e, str_eq_iff (trim_space t) [], same, empty))
]
bearer_token-nonempty [] tok h = absurd cc
bearer_token-nonempty (s ∷ []) tok h = absurd cc
bearer_token-nonempty (s ∷ t ∷ u ∷ fs) tok h = absurd cc

pub parse_bearer_token-nonempty : (h tok : Str) → parse_bearer_token h ≡ some tok → tok ≢ []
unfolding parse_bearer_token
parse_bearer_token-nonempty h tok e = elim (Bool-cases (str_eq (trim_space h) [])) [
  | inl empty ↦ absurd (ground (arith, e, empty))
  | inr full ↦
      let e' : bearer_token (fields (trim_space h)) ≡ some tok =
        simp (full, parse_bearer_token) at e in
      bearer_token-nonempty (fields (trim_space h)) tok e'
]

-- A principal that the authenticator returns, and that has a scope that is not blank, was
-- configured: the header holds a token that is not empty, and one token of the configuration is that
-- token, has the principal's name, and lists the scope (spaces around it left out).
pub authenticate_bearer-Granted :
    (cs : List TokenConfig) (header scope : Str) (p : Principal)
    → authenticate_bearer (some (new_authenticator cs)) header ≡ some p
    → trim_space scope ≢ []
    → authorized_for_scope p scope ≡ true
    → (tok : Str) × (parse_bearer_token header ≡ some tok)
      × (tok ≢ [])
      × Granted p.id tok (trim_space scope) cs
unfolding authenticate_bearer new_authenticator
authenticate_bearer-Granted cs header scope p h ne a =
    elim (Option-cases (parse_bearer_token header)) [
      | inl e ↦ absurd (let h' = simp (e, authenticate_bearer) at h in cc)
      | inr (tok, e) ↦
          let h' : find_token tok (tokens_of cs) ≡ some p =
            simp (e, authenticate_bearer, new_authenticator) at h in
          (
            tok,
            e,
            parse_bearer_token-nonempty header tok e,
            find_token-Granted tok scope cs p h' ne a,
          )
    ]
