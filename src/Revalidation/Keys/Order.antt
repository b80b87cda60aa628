-- ===== src/Revalidation/Keys/Order.antt =====
-- The order of the items that KeysByLastAccessDesc of internal/wait0/revalidation/controller.go sorts.
use wait.Base.{
  ℕ, ◌≡◌, refl, true, false, List, [], ◌∷◌, Str, All, slt, two64, ◌<◌, Bool-cases, inl, inr, arith,
}
use wait.Revalidation.Keys.{str_lt, before, put_in, sort_items}

str_lt_asym : (s t : Str) → str_lt s t ≡ true → str_lt t s ≡ false
unfolding str_lt
str_lt_asym [] [] h = refl
str_lt_asym [] (b ∷ t) h = refl
str_lt_asym (a ∷ s) [] h = absurd cc
str_lt_asym (a ∷ s) (b ∷ t) h = ground (arith, str_lt_asym s t, h)

str_lt_trans : (s t u : Str) → str_lt s t ≡ false → str_lt t u ≡ false → str_lt s u ≡ false
unfolding str_lt
str_lt_trans [] [] u h e = e
str_lt_trans [] (b ∷ t) u h e = absurd cc
str_lt_trans (a ∷ s) t [] h e = refl
str_lt_trans (a ∷ s) [] (c ∷ u) h e = absurd cc
str_lt_trans (a ∷ s) (b ∷ t) (c ∷ u) h e = ground (arith, str_lt_trans s t u, h, e)

-- The time of an access is a word.
abbrev pub IsTimed : Str × ℕ → Type 0
IsTimed x = x.1 < two64

before_asym : (x y : Str × ℕ) → before x y ≡ true → before y x ≡ false
unfolding before
before_asym (k, ts) (j, us) h = ground (arith, str_lt_asym k j, h)

slt_trans : (a b c : ℕ) → slt a b ≡ false → slt b c ≡ false → slt a c ≡ false
slt_trans a b c h e = ground (arith, h, e)

slt_antisym : (a b : ℕ) → a < two64 → b < two64 → slt a b ≡ false → slt b a ≡ false → a ≡ b
slt_antisym a b ha hb h e = ground (arith, ha, hb, h, e)

before_trans :
    (x y z : Str × ℕ)
    → IsTimed x
    → IsTimed y
    → IsTimed z
    → before x y ≡ false
    → before y z ≡ false
    → before x z ≡ false
unfolding before
before_trans (k, ts) (j, us) (i, vs) tx ty tz h e =
    ground
      (arith, tx, ty, tz, h, e, str_lt_trans k j i, slt_trans vs us ts, slt_antisym ts us tx ty)

-- No item comes before one that stands in front of it.
unfoldable pub Descends : List (Str × ℕ) → Type 0
Descends [] = Unit
Descends (x ∷ xs) = All (λ y. before y x ≡ false) xs × Descends xs

put_in-All :
    (P : Str × ℕ → Type 0) (x : Str × ℕ) (xs : List (Str × ℕ))
    → P x
    → All P xs
    → All P (put_in x xs)
unfolding put_in
put_in-All P x [] h a = (h, tt)
put_in-All P x (y ∷ ys) h a = elim (Bool-cases (before y x)) [
  | inl e ↦ simp (e, put_in) (a.0, put_in-All P x ys h a.1)
  | inr e ↦ simp (e, put_in) (h, (a.0, a.1))
]

pub sort_items-All : (P : Str × ℕ → Type 0) (xs : List (Str × ℕ)) → All P xs → All P (sort_items xs)
unfolding sort_items
sort_items-All P [] a = tt
sort_items-All P (x ∷ xs) a = put_in-All P x (sort_items xs) a.0 (sort_items-All P xs a.1)

All_weaken :
    (x y : Str × ℕ) (ys : List (Str × ℕ))
    → IsTimed x
    → IsTimed y
    → All IsTimed ys
    → before y x ≡ false
    → All (λ z. before z y ≡ false) ys
    → All (λ z. before z x ≡ false) ys
All_weaken x y [] tx ty ts h a = tt
All_weaken x y (z ∷ ys) tx ty ts h a =
    (before_trans z y x ts.0 ty tx a.0 h, All_weaken x y ys tx ty ts.1 h a.1)

put_in-Descends :
    (x : Str × ℕ) (xs : List (Str × ℕ))
    → IsTimed x
    → All IsTimed xs
    → Descends xs
    → Descends (put_in x xs)
unfolding put_in Descends
put_in-Descends x [] tx ts d = (tt, tt)
put_in-Descends x (y ∷ ys) tx ts d = elim (Bool-cases (before y x)) [
  | inl e ↦
      let front = put_in-All (λ z. before z y ≡ false) x ys (before_asym y x e) d.0 in
      simp (e, put_in) (front, put_in-Descends x ys tx ts.1 d.1)
  | inr e ↦ let front = All_weaken x y ys tx ts.0 ts.1 e d.0 in simp (e, put_in) ((refl, front), d)
]

pub sort_items-Descends : (xs : List (Str × ℕ)) → All IsTimed xs → Descends (sort_items xs)
unfolding sort_items Descends
sort_items-Descends [] ts = tt
sort_items-Descends (x ∷ xs) ts =
    put_in-Descends x (sort_items xs) ts.0 (sort_items-All IsTimed xs ts.1)
      (sort_items-Descends xs ts.1)
