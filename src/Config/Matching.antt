-- ===== src/Config/Matching.antt =====
-- internal/wait0/config.go, `parseMatch`: the prefixes of a rule.
pub mod Reasons
use mathlib.Core.List.{reverse}
use mathlib.Core.Path.{subst}
use wait.Base.{
  suc, ◌≡◌, ◌≢◌, ◌⊎◌, refl, sym, ap, ◌∙◌, true, false, not, ◌||◌, ◌==◌, Option, none, some, List,
  [], ◌∷◌, inl, inr, Str, str, str_eq, trim_space, has_prefix, has_suffix, split, length, drop,
  if◌then◌else◌, arith, Bool-cases, All,
}

-- `strings.TrimPrefix` and `strings.TrimSuffix`
unfoldable pub trim_prefix : Str → Str → Str
trim_prefix s t = if has_prefix s t then drop (length t) s else s

unfoldable pub trim_suffix : Str → Str → Str
trim_suffix s t = if has_suffix s t then reverse (drop (length t) (reverse s)) else s

abbrev path_prefix : Str
path_prefix = str "PathPrefix("

-- The text between the parentheses.
unfoldable pub inside_of : Str → Str
inside_of p = trim_space (trim_suffix (trim_prefix p path_prefix) (str ")"))

-- The errors of `parseMatch`, with what they name.
pub data MatchError : Type 0 where
  empty_match : MatchError
  only_path_prefix : Str → MatchError
  invalid_prefix : Str → MatchError
  no_matchers : MatchError

-- One alternative that is not blank.
unfoldable pub parse_prefix : Str → MatchError ⊎ Str
parse_prefix p =
    if not (has_prefix p path_prefix) || not (has_suffix p (str ")"))
    then inl (only_path_prefix p)
    else if str_eq (inside_of p) [] || not (has_prefix (inside_of p) (str "/"))
    then inl (invalid_prefix (inside_of p))
    else inr (inside_of p)

-- The first error counts.
unfoldable pub cons_match : MatchError ⊎ Str → MatchError ⊎ List Str → MatchError ⊎ List Str
cons_match (inl e) ms = inl e
cons_match (inr m) (inl e) = inl e
cons_match (inr m) (inr ms) = inr (m ∷ ms)

-- The loop over the alternatives.
unfoldable pub parse_parts : List Str → MatchError ⊎ List Str
parse_parts [] = inr []
parse_parts (p ∷ ps) =
    let rest = parse_parts ps in
    if str_eq (trim_space p) [] then rest else cons_match (parse_prefix (trim_space p)) rest

unfoldable pub some_parts : MatchError ⊎ List Str → MatchError ⊎ List Str
some_parts (inl e) = inl e
some_parts (inr ms) = if length ms == 0 then inl no_matchers else inr ms

unfoldable pub parse_match : Str → MatchError ⊎ List Str
parse_match expr =
    if str_eq (trim_space expr) []
    then inl empty_match
    else some_parts (parse_parts (split (trim_space expr) b'|'))

parse_prefix-rooted : (p m : Str) → parse_prefix p ≡ inr m → has_prefix m (str "/") ≡ true
unfolding parse_prefix
parse_prefix-rooted p m h =
    elim (Bool-cases (not (has_prefix p path_prefix) || not (has_suffix p (str ")")))) [
      | inl e ↦ absurd (let h' = simp (e, parse_prefix) at h in cc)
      | inr e ↦ elim (Bool-cases (has_prefix (inside_of p) (str "/"))) [
        | inr f ↦ absurd (ground (arith, h, e, f))
        | inl f ↦
            let same : inside_of p ≡ m = ground (arith, h, e) in
            ap (λ x. has_prefix x (str "/")) (sym same) ∙ f
      ]
    ]

cons_match-All :
    (o : MatchError ⊎ Str) (r : MatchError ⊎ List Str) (ms : List Str)
    → ((m : Str) → o ≡ inr m → has_prefix m (str "/") ≡ true)
    → ((ns : List Str) → r ≡ inr ns → All (λ m. has_prefix m (str "/") ≡ true) ns)
    → cons_match o r ≡ inr ms
    → All (λ m. has_prefix m (str "/") ≡ true) ms
unfolding cons_match
cons_match-All (inl e) r ms ho hr h = absurd cc
cons_match-All (inr m) (inl e) ms ho hr h = absurd cc
cons_match-All (inr m) (inr ns) ms ho hr h =
    let e : m ∷ ns ≡ ms = cc in
    subst (All (λ m. has_prefix m (str "/") ≡ true)) e (ho m refl, hr ns refl)

parse_parts-All :
    (ps ms : List Str) → parse_parts ps ≡ inr ms → All (λ m. has_prefix m (str "/") ≡ true) ms
unfolding parse_parts
parse_parts-All [] [] h = tt
parse_parts-All [] (m ∷ ms) h = absurd cc
parse_parts-All (p ∷ ps) ms h = elim (Bool-cases (str_eq (trim_space p) [])) [
  | inl e ↦ parse_parts-All ps ms (simp (e, parse_parts) at h)
  | inr e ↦
      cons_match-All (parse_prefix (trim_space p)) (parse_parts ps) ms
        (parse_prefix-rooted (trim_space p)) (λ ns. parse_parts-All ps ns)
        (simp (e, parse_parts) at h)
]

some_parts-some :
    (o : MatchError ⊎ List Str) (ms : List Str) → some_parts o ≡ inr ms → (o ≡ inr ms) × (ms ≢ [])
unfolding some_parts
some_parts-some (inl e) ms h = absurd cc
some_parts-some (inr []) ms h = absurd cc
some_parts-some (inr (n ∷ ns)) ms h =
    let z : (suc (length ns) == 0) ≡ false = ground arith in
    let h' : ◌≡◌ {A = MatchError ⊎ List Str} (inr (n ∷ ns)) (inr ms) = simp (z, some_parts) at h in
    (h', λ e. absurd cc)

-- The prefixes of an expression that is accepted: at least one, and each starts with `/`.
pub parse_match-rooted :
    (expr : Str) (ms : List Str)
    → parse_match expr ≡ inr ms
    → (ms ≢ []) × All (λ m. has_prefix m (str "/") ≡ true) ms
unfolding parse_match
parse_match-rooted expr ms h = elim (Bool-cases (str_eq (trim_space expr) [])) [
  | inl e ↦ absurd (let h' = simp (e, parse_match) at h in cc)
  | inr e ↦
      let parts = split (trim_space expr) b'|' in
      let h' : some_parts (parse_parts parts) ≡ inr ms = simp (e, parse_match) at h in
      let (same, ne) = some_parts-some (parse_parts parts) ms h' in
      (ne, parse_parts-All parts ms same)
]
