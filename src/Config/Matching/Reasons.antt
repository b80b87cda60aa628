-- ===== src/Config/Matching/Reasons.antt =====
-- What is wrong with an expression that `parseMatch` of internal/wait0/config.go refuses.
use mathlib.Core.Path.{subst}
use wait.Base.{
  ◌≡◌, ◌≢◌, ◌⊎◌, refl, ap, ◌∙◌, true, false, List, [], ◌∷◌, ◌++◌, inl, inr, Str, str, str_eq,
  str_eq_iff, trim_space, has_prefix, has_suffix, split, length, ◌==◌, All, Bool-cases, arith,
}
use wait.Config.Matching.{
  MatchError, empty_match, only_path_prefix, invalid_prefix, no_matchers, trim_prefix, trim_suffix,
  inside_of, parse_prefix, cons_match, parse_parts, some_parts, parse_match,
}

-- The text between the parentheses, without the spaces around it.
abbrev pub inner : Str → Str
inner p = trim_space (trim_suffix (trim_prefix p (str "PathPrefix(")) (str ")"))

-- An alternative that is blank, or has a rooted prefix between its parentheses.
abbrev pub IsFine : Str → Type 0
IsFine p =
    (trim_space p ≡ [])
    ⊎ ((has_prefix (trim_space p) (str "PathPrefix(") ≡ true)
        × (has_suffix (trim_space p) (str ")") ≡ true)
        × (has_prefix (inner (trim_space p)) (str "/") ≡ true))

-- What is wrong with an alternative that is not blank.
pub data PartWrong (p : Str) : MatchError → Type 0 where
  no_path_prefix :
      (has_prefix p (str "PathPrefix(") ≡ false) ⊎ (has_suffix p (str ")") ≡ false)
      → PartWrong p (only_path_prefix p)
  not_rooted :
      has_prefix p (str "PathPrefix(") ≡ true
      → has_suffix p (str ")") ≡ true
      → (inner p ≡ []) ⊎ (has_prefix (inner p) (str "/") ≡ false)
      → PartWrong p (invalid_prefix (inner p))

-- The first alternative of the list that is not fine.
pub record FirstPart (ps : List Str) (e : MatchError) : Type 0 where
  pub before : List Str
  pub part : Str
  pub after : List Str
  pub split_at : ps ≡ before ++ part ∷ after
  pub fine : All IsFine before
  pub full : trim_space part ≢ []
  pub wrong : PartWrong (trim_space part) e

-- What is wrong with an expression.
pub data MatchWrong (text : Str) : MatchError → Type 0 where
  blank : trim_space text ≡ [] → MatchWrong text empty_match
  only_blank :
      trim_space text ≢ []
      → All (λ p. trim_space p ≡ []) (split (trim_space text) b'|')
      → MatchWrong text no_matchers
  bad_part : {e : MatchError} → FirstPart (split (trim_space text) b'|') e → MatchWrong text e

inl-eq : {E A : Type 0} (a b : E) → ◌≡◌ {A = E ⊎ A} (inl a) (inl b) → a ≡ b
inl-eq a b e = cc

filled : (s : Str) → str_eq s [] ≡ false → s ≢ []
filled s e = λ empty. absurd (ground (arith, e, str_eq_iff s [], empty))

parse_prefix-PartWrong : (p : Str) (e : MatchError) → parse_prefix p ≡ inl e → PartWrong p e
unfolding parse_prefix inside_of
parse_prefix-PartWrong p e h = elim (Bool-cases (has_prefix p (str "PathPrefix("))) [
  | inr a ↦ subst (PartWrong p) (inl-eq _ e (simp (a, parse_prefix) at h)) (no_path_prefix (inl a))
  | inl a ↦ elim (Bool-cases (has_suffix p (str ")"))) [
    | inr b ↦
        subst (PartWrong p) (inl-eq _ e (simp (a, b, parse_prefix) at h)) (no_path_prefix (inr b))
    | inl b ↦ elim (Bool-cases (str_eq (inner p) [])) [
      | inl c ↦
          subst (PartWrong p) (inl-eq _ e (simp (a, b, c, parse_prefix) at h))
            (not_rooted a b (inl ((str_eq_iff (inner p) []).0 c)))
      | inr c ↦ elim (Bool-cases (has_prefix (inner p) (str "/"))) [
        | inr d ↦
            subst (PartWrong p) (inl-eq _ e (simp (a, b, c, d, parse_prefix) at h))
              (not_rooted a b (inr d))
        | inl d ↦ absurd (let h' = simp (a, b, c, d, parse_prefix) at h in cc)
      ]
    ]
  ]
]

parse_prefix-IsFine : (p m : Str) → parse_prefix (trim_space p) ≡ inr m → IsFine p
unfolding parse_prefix inside_of
parse_prefix-IsFine p m h = inr (ground (arith, h), ground (arith, h), ground (arith, h))

FirstPart-later :
    (p : Str) (ps : List Str) (e : MatchError) → IsFine p → FirstPart ps e → FirstPart (p ∷ ps) e
FirstPart-later p ps e fine ok = record {
  before = p ∷ ok.before;
  part = ok.part;
  after = ok.after;
  split_at = ap (λ x. p ∷ x) ok.split_at;
  fine = (fine, ok.fine);
  full = ok.full;
  wrong = ok.wrong;
}

cons_match-FirstPart :
    (p : Str) (ps : List Str) (x : MatchError ⊎ Str) (y : MatchError ⊎ List Str) (e : MatchError)
    → trim_space p ≢ []
    → parse_prefix (trim_space p) ≡ x
    → ((e' : MatchError) → y ≡ inl e' → FirstPart ps e')
    → cons_match x y ≡ inl e
    → FirstPart (p ∷ ps) e
unfolding cons_match
cons_match-FirstPart p ps (inl e') y e full is rest h = record {
  before = [];
  part = p;
  after = ps;
  split_at = refl;
  fine = tt;
  full = full;
  wrong =
      subst (PartWrong (trim_space p)) (inl-eq e' e h)
        (parse_prefix-PartWrong (trim_space p) e' is);
}
cons_match-FirstPart p ps (inr m) (inl e') e full is rest h =
    FirstPart-later p ps e (parse_prefix-IsFine p m is)
      (subst (FirstPart ps) (inl-eq e' e h) (rest e' refl))
cons_match-FirstPart p ps (inr m) (inr ms) e full is rest h = absurd cc

parse_parts-FirstPart : (ps : List Str) (e : MatchError) → parse_parts ps ≡ inl e → FirstPart ps e
unfolding parse_parts
parse_parts-FirstPart [] e h = absurd cc
parse_parts-FirstPart (p ∷ ps) e h = elim (Bool-cases (str_eq (trim_space p) [])) [
  | inl b ↦
      FirstPart-later p ps e (inl ((str_eq_iff (trim_space p) []).0 b))
        (parse_parts-FirstPart ps e (simp (b, parse_parts) at h))
  | inr b ↦
      cons_match-FirstPart p ps (parse_prefix (trim_space p)) (parse_parts ps) e
        (filled (trim_space p) b) refl (parse_parts-FirstPart ps) (simp (b, parse_parts) at h)
]

cons_match-full : (x : MatchError ⊎ Str) (y : MatchError ⊎ List Str) → cons_match x y ≡ inr [] → ⊥
unfolding cons_match
cons_match-full (inl e) y h = absurd cc
cons_match-full (inr m) (inl e) h = absurd cc
cons_match-full (inr m) (inr ms) h = absurd cc

parse_parts_blank : (ps : List Str) → parse_parts ps ≡ inr [] → All (λ p. trim_space p ≡ []) ps
unfolding parse_parts
parse_parts_blank [] h = tt
parse_parts_blank (p ∷ ps) h = elim (Bool-cases (str_eq (trim_space p) [])) [
  | inl b ↦ ((str_eq_iff (trim_space p) []).0 b, parse_parts_blank ps (simp (b, parse_parts) at h))
  | inr b ↦
      absurd (
        cons_match-full (parse_prefix (trim_space p)) (parse_parts ps) (simp (b, parse_parts) at h))
]

some_parts-MatchWrong :
    (text : Str) (o : MatchError ⊎ List Str) (e : MatchError)
    → trim_space text ≢ []
    → parse_parts (split (trim_space text) b'|') ≡ o
    → some_parts o ≡ inl e
    → MatchWrong text e
unfolding some_parts
some_parts-MatchWrong text (inl e') e full is h =
    bad_part (parse_parts-FirstPart _ e (is ∙ ap inl (inl-eq e' e h)))
some_parts-MatchWrong text (inr []) e full is h =
    subst (MatchWrong text) (inl-eq no_matchers e h)
      (only_blank full (parse_parts_blank (split (trim_space text) b'|') is))
some_parts-MatchWrong text (inr (m ∷ ms)) e full is h =
    let z : (length (m ∷ ms) == 0) ≡ false = ground arith in
    absurd (let h' = simp (z, some_parts) at h in cc)

pub parse_match-MatchWrong :
    (text : Str) (e : MatchError) → parse_match text ≡ inl e → MatchWrong text e
unfolding parse_match
parse_match-MatchWrong text e h = elim (Bool-cases (str_eq (trim_space text) [])) [
  | inl b ↦
      subst (MatchWrong text) (inl-eq empty_match e (simp (b, parse_match) at h))
        (blank ((str_eq_iff (trim_space text) []).0 b))
  | inr b ↦
      some_parts-MatchWrong text (parse_parts (split (trim_space text) b'|')) e
        (filled (trim_space text) b) refl (simp (b, parse_match) at h)
]
