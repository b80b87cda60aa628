-- ===== src/Dashboard/Limiter/Grants.antt =====
-- How many requests of a client the limiter of internal/wait0/dashboard/controller.go allows.
use mathlib.Core.Path.{subst}
use wait.Base.{
  ℕ, suc, ◌+◌, ◌^◌, ◌≤◌, ◌<◌, ◌≡◌, refl, ap, ◌∙◌, Bool, true, false, Option, some, List, [], ◌∷◌,
  Str, str_eq, str_eq_iff, Dict, insert, lookup-insert, if◌then◌else◌, slt, add64, sub64, arith,
  inl, inr, Bool-cases, All,
}
use wait.Dashboard.Limiter.{Limiter, client_key, count_of, roll, take_one, allow}

-- The requests of a client among those that are allowed, of requests at their times.
unfoldable pub granted : Str → Option Limiter → List (Str × ℕ) → ℕ
granted k l [] = 0
granted k l ((key, now) ∷ rs) =
    let r = allow l key now in
    let rest = granted k r.0 rs in
    if r.1 then (if str_eq (client_key key) k then suc rest else rest) else rest

-- The requests come before the window is over.
abbrev pub InWindow : Limiter → List (Str × ℕ) → Type 0
InWindow l rs = All (λ (r : Str × ℕ). slt (sub64 r.1 l.window_start) l.window ≡ true) rs

unfoldable pub IsLimited : Limiter → Type 0
IsLimited l = (k : Str) → count_of k l.counts ≤ l.limit

count_of-insert :
    (j k : Str) (n : ℕ) (counts : Dict ℕ)
    → count_of k (insert j n counts) ≡ (if str_eq j k then n else count_of k counts)
count_of-insert j k n counts = ground (arith, lookup-insert j k n counts)

take_one-allowed :
    (limit c : ℕ)
    → limit < 2 ^ 62
    → c ≤ limit
    → slt limit (add64 c 1) ≡ false
    → (add64 c 1 ≡ suc c) × (suc c ≤ limit)
take_one-allowed limit c small le h = ground arith

inserted-IsLimited :
    (l : Limiter) (j : Str) (n : ℕ)
    → n ≤ l.limit
    → IsLimited l
    → IsLimited (record l { counts = insert j n l.counts })
unfolding IsLimited
inserted-IsLimited l j n le ok k = ground (arith, count_of-insert j k n l.counts, ok k)

allow-roll :
    (l : Limiter) (key : Str) (now : ℕ)
    → slt (sub64 now l.window_start) l.window ≡ true
    → allow (some l) key now
      ≡ (some (take_one l (client_key key)).0, (take_one l (client_key key)).1)
unfolding allow roll
allow-roll l key now h = simp (h, allow, roll)

granted_cons :
    (k key : Str) (now : ℕ) (rs : List (Str × ℕ)) (o l' : Option Limiter) (fits : Bool)
    → allow o key now ≡ (l', fits)
    → granted k o ((key, now) ∷ rs) ≡ (
        if fits
        then (if str_eq (client_key key) k then suc (granted k l' rs) else granted k l' rs)
        else granted k l' rs)
unfolding granted
granted_cons k key now rs o l' fits e =
    ap
      (λ (r : Option Limiter × Bool).
        if r.1
        then (if str_eq (client_key key) k then suc (granted k r.0 rs) else granted k r.0 rs)
        else granted k r.0 rs)
      e

counted :
    (k j : Str) (n c rest all limit : ℕ) (counts : Dict ℕ)
    → all ≡ (if true then (if str_eq j k then suc rest else rest) else rest)
    → n ≡ suc c
    → rest + (if str_eq j k then n else count_of k counts) ≤ limit
    → c ≡ count_of j counts
    → all + count_of k counts ≤ limit
counted k j n c rest all limit counts h e le same = elim (Bool-cases (str_eq j k)) [
  | inl s ↦
      let eq : j ≡ k = (str_eq_iff j k).0 s in
      let same' : c ≡ count_of k counts = same ∙ ap (λ x. count_of x counts) eq in
      let h' = rw s at h in let le' = rw s at le in omega (arith, h', le', e, same')
  | inr s ↦ let h' = rw s at h in let le' = rw s at le in omega (arith, h', le')
]

-- Within one window the limiter allows a client no more requests than the limit, those that it
-- counted before included, from counts within the limit and for a limit below 2 ^ 62.
pub granted-le-limit :
    (k : Str) (rs : List (Str × ℕ)) (l : Limiter)
    → l.limit < 2 ^ 62
    → IsLimited l
    → InWindow l rs
    → granted k (some l) rs + count_of k l.counts ≤ l.limit
unfolding granted IsLimited take_one
granted-le-limit k [] l small ok w = omega (arith, ok k)
granted-le-limit k ((key, now) ∷ rs) l small ok w =
    let j = client_key key in
    let c = count_of j l.counts in
    elim (Bool-cases (slt l.limit (add64 c 1))) [
      | inl over ↦
          let r : take_one l j ≡ (l, false) = simp (over, take_one) in
          let a : allow (some l) key now ≡ (some l, false) =
            allow-roll l key now w.0 ∙ ap (λ (x : Limiter × Bool). (some x.0, x.1)) r in
          omega (
            arith,
            granted_cons k key now rs (some l) (some l) false a,
            granted-le-limit k rs l small ok w.1,
          )
      | inr room ↦
          let (next, le) = take_one-allowed l.limit c small (ok j) room in
          let l' : Limiter = record l { counts = insert j (add64 c 1) l.counts } in
          let r : take_one l j ≡ (l', true) = simp (room, take_one) in
          let a : allow (some l) key now ≡ (some l', true) =
            allow-roll l key now w.0 ∙ ap (λ (x : Limiter × Bool). (some x.0, x.1)) r in
          let ok' : IsLimited l' = inserted-IsLimited l j (add64 c 1) (rw next le) ok in
          let ih = granted-le-limit k rs l' small ok' w.1 in
          let cons = granted_cons k key now rs (some l) (some l') true a in
          counted k j (add64 c 1) c (granted k (some l') rs) (granted k (some l) ((key, now) ∷ rs))
            l.limit l.counts cons next
            (subst (λ n. granted k (some l') rs + n ≤ l.limit)
              (count_of-insert j k (add64 c 1) l.counts) ih)
            refl
    ]
