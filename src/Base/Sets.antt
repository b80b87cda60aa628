-- ===== src/Base/Sets.antt =====
-- Lists of strings without repetitions, as the loops build them that keep the seen ones in a map.
use mathlib.Core.Bool.{Bool, false, not, ◌&&◌, ◌||◌}
use mathlib.Core.List.{List, [], ◌∷◌, ◌++◌}
use Prim.Native.Nat.{ℕ, ◌+◌}
use mathlib.Core.Path.{◌≡◌, refl}
use mathlib.Core.Logic.{inl, inr}
use native.Mathlib.Omega.{arith}
use wait.Base.Tests.{if◌then◌else◌, Bool-cases}
use wait.Base.Lists.{length}
use wait.Base.Text.{Str, str_eq, str_eq_iff, member, trim_space}

unfoldable pub Distinct : List Str → Type 0
Distinct [] = Unit
Distinct (k ∷ q) = (member k q ≡ false) × Distinct q

-- No member of the list is one of `seen`.
unfoldable pub Fresh : List Str → List Str → Type 0
Fresh seen [] = Unit
Fresh seen (k ∷ q) = (member k seen ≡ false) × Fresh seen q

pub Fresh-tail : (x : Str) (seen q : List Str) → Fresh (x ∷ seen) q → Fresh seen q
unfolding Fresh member
Fresh-tail x seen [] h = tt
Fresh-tail x seen (k ∷ q) h = (ground (arith, h.0), Fresh-tail x seen q h.1)

pub Fresh-head : (x : Str) (seen q : List Str) → Fresh (x ∷ seen) q → member x q ≡ false
unfolding Fresh member
Fresh-head x seen [] h = refl
Fresh-head x seen (k ∷ q) h =
    ground (arith, h.0, Fresh-head x seen q h.1, str_eq_iff k x, str_eq_iff x k)

-- The loop that trims each string, and leaves out the blank ones and those seen before.
unfoldable pub trimmed_unique : List Str → List Str → List Str
trimmed_unique seen [] = []
trimmed_unique seen (s ∷ ss) =
    let skip = trimmed_unique seen ss in
    let keep = trim_space s ∷ trimmed_unique (trim_space s ∷ seen) ss in
    if str_eq (trim_space s) [] then skip else if member (trim_space s) seen then skip else keep

pub trimmed_unique-Fresh : (seen ss : List Str) → Fresh seen (trimmed_unique seen ss)
unfolding trimmed_unique Fresh
trimmed_unique-Fresh seen [] = tt
trimmed_unique-Fresh seen (s ∷ ss) = elim (Bool-cases (str_eq (trim_space s) [])) [
  | inl blank ↦ simp (blank, trimmed_unique) (trimmed_unique-Fresh seen ss)
  | inr full ↦ elim (Bool-cases (member (trim_space s) seen)) [
    | inl old ↦ simp (full, old, trimmed_unique) (trimmed_unique-Fresh seen ss)
    | inr new ↦
        simp (full, new, trimmed_unique)
          (refl, Fresh-tail (trim_space s) seen _ (trimmed_unique-Fresh (trim_space s ∷ seen) ss))
  ]
]

pub trimmed_unique-Distinct : (seen ss : List Str) → Distinct (trimmed_unique seen ss)
unfolding trimmed_unique Distinct
trimmed_unique-Distinct seen [] = tt
trimmed_unique-Distinct seen (s ∷ ss) = elim (Bool-cases (str_eq (trim_space s) [])) [
  | inl blank ↦ simp (blank, trimmed_unique) (trimmed_unique-Distinct seen ss)
  | inr full ↦ elim (Bool-cases (member (trim_space s) seen)) [
    | inl old ↦ simp (full, old, trimmed_unique) (trimmed_unique-Distinct seen ss)
    | inr new ↦
        simp (full, new, trimmed_unique)
          (
            Fresh-head (trim_space s) seen _ (trimmed_unique-Fresh (trim_space s ∷ seen) ss),
            trimmed_unique-Distinct (trim_space s ∷ seen) ss,
          )
  ]
]

-- Some string of the list is `k` when it is trimmed.
unfoldable pub has_trimmed : Str → List Str → Bool
has_trimmed k [] = false
has_trimmed k (s ∷ ss) = str_eq (trim_space s) k || has_trimmed k ss

pub member-trimmed_unique :
    (k : Str) (seen ss : List Str)
    → member k (trimmed_unique seen ss)
      ≡ (not (str_eq k []) && not (member k seen) && has_trimmed k ss)
unfolding trimmed_unique has_trimmed member
member-trimmed_unique k seen [] = ground arith
member-trimmed_unique k seen (s ∷ ss) = ground (
  arith,
  member-trimmed_unique k seen ss,
  member-trimmed_unique k (trim_space s ∷ seen) ss,
  str_eq_iff (trim_space s) k,
  str_eq_iff (trim_space s) [],
  str_eq_iff k [],
)

pub member-append :
    (k : Str) (xs ys : List Str) → member k (xs ++ ys) ≡ (member k xs || member k ys)
unfolding member
member-append k [] ys = refl
member-append k (x ∷ xs) ys = ground (arith, member-append k xs ys)

pub append-Distinct :
    (xs ys : List Str) → Distinct xs → Distinct ys → Fresh xs ys → Distinct (xs ++ ys)
unfolding Distinct
append-Distinct [] ys dx dy f = dy
append-Distinct (x ∷ xs) ys dx dy f = (
  ground (arith, member-append x xs ys, dx.0, Fresh-head x xs ys f),
  append-Distinct xs ys dx.1 dy (Fresh-tail x xs ys f),
)

-- The loop that leaves out the strings seen before.
unfoldable pub unique_from : List Str → List Str → List Str
unique_from seen [] = []
unique_from seen (x ∷ xs) =
    let skip = unique_from seen xs in
    let keep = x ∷ unique_from (x ∷ seen) xs in if member x seen then skip else keep

pub member-unique_from :
    (k : Str) (seen xs : List Str)
    → member k (unique_from seen xs) ≡ (not (member k seen) && member k xs)
unfolding unique_from member
member-unique_from k seen [] = ground arith
member-unique_from k seen (x ∷ xs) =
    ground (arith, member-unique_from k seen xs, member-unique_from k (x ∷ seen) xs, str_eq_iff x k)

unique_from-Fresh : (seen xs : List Str) → Fresh seen (unique_from seen xs)
unfolding unique_from Fresh
unique_from-Fresh seen [] = tt
unique_from-Fresh seen (x ∷ xs) = elim (Bool-cases (member x seen)) [
  | inl old ↦ simp (old, unique_from) (unique_from-Fresh seen xs)
  | inr new ↦ simp (new, unique_from) (refl, Fresh-tail x seen _ (unique_from-Fresh (x ∷ seen) xs))
]

pub unique_from-Distinct : (seen xs : List Str) → Distinct (unique_from seen xs)
unfolding unique_from Distinct
unique_from-Distinct seen [] = tt
unique_from-Distinct seen (x ∷ xs) = elim (Bool-cases (member x seen)) [
  | inl old ↦ simp (old, unique_from) (unique_from-Distinct seen xs)
  | inr new ↦
      simp (new, unique_from)
        (Fresh-head x seen _ (unique_from-Fresh (x ∷ seen) xs), unique_from-Distinct (x ∷ seen) xs)
]

-- How many of the first list are members of the second.
unfoldable pub count_in : List Str → List Str → ℕ
count_in [] ys = 0
count_in (x ∷ xs) ys = (if member x ys then 1 else 0) + count_in xs ys

count_in_cons :
    (x : Str) (ys xs : List Str)
    → Distinct ys
    → member x xs ≡ false
    → count_in ys (x ∷ xs) ≡ (if member x ys then 1 else 0) + count_in ys xs
unfolding count_in member Distinct
count_in_cons x [] xs d e = omega arith
count_in_cons x (y ∷ ys) xs d e =
    ground (arith, count_in_cons x ys xs d.1, str_eq_iff x y, str_eq_iff y x, d.0, e)

pub count_in_nil : (ys : List Str) → count_in ys [] ≡ 0
unfolding count_in member
count_in_nil [] = refl
count_in_nil (y ∷ ys) = omega (arith, count_in_nil ys)

pub count_in_comm : (xs ys : List Str) → Distinct xs → Distinct ys → count_in xs ys ≡ count_in ys xs
unfolding count_in Distinct
count_in_comm [] ys dx dy = omega (arith, count_in_nil ys)
count_in_comm (x ∷ xs) ys dx dy =
    omega (arith, count_in_comm xs ys dx.1 dy, count_in_cons x ys xs dy dx.0)

-- A list without repetitions loses the members that were seen.
unique_from-length :
    (seen ys : List Str) → Distinct ys → length (unique_from seen ys) + count_in ys seen ≡ length ys
unfolding unique_from count_in Distinct
unique_from-length seen [] d = omega arith
unique_from-length seen (y ∷ ys) d = elim (Bool-cases (member y seen)) [
  | inl old ↦ simp (old, unique_from) (omega (arith, unique_from-length seen ys d.1))
  | inr new ↦
      simp (new, unique_from)
        (ground (arith, unique_from-length (y ∷ seen) ys d.1, count_in_cons y ys seen d.1 new, d.0))
]

Fresh-cons : (x : Str) (seen q : List Str) → Fresh seen q → member x q ≡ false → Fresh (x ∷ seen) q
unfolding Fresh member
Fresh-cons x seen [] f e = tt
Fresh-cons x seen (k ∷ q) f e =
    ground (arith, f.0, Fresh-cons x seen q f.1, str_eq_iff k x, str_eq_iff x k, e)

-- Two lists without repetitions, one after the other, lose the members they share and those seen.
pub unique_from-append :
    (seen xs ys : List Str)
    → Distinct xs
    → Fresh seen xs
    → Distinct ys
    → length (unique_from seen (xs ++ ys)) + count_in ys xs + count_in ys seen
      ≡ length xs + length ys
unfolding unique_from Distinct Fresh
unique_from-append seen [] ys dx f dy =
    omega (arith, unique_from-length seen ys dy, count_in_nil ys)
unique_from-append seen (x ∷ xs) ys dx f dy =
    let rest = unique_from-append (x ∷ seen) xs ys dx.1 (Fresh-cons x seen xs f.1 dx.0) dy in
    simp (f.0, unique_from)
      (omega (arith, rest, count_in_cons x ys xs dy dx.0, count_in_cons x ys seen dy f.0))
