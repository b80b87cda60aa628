-- ===== src/Config/Load/Priority.antt =====
-- Which rule `pickRule` of internal/wait0/service_core.go gives, from the rules that `LoadConfig` of
-- internal/wait0/config.go has sorted.
use mathlib.Core.Path.{subst}
use wait.Base.{
  Bool, ◌≡◌, ◌⊎◌, refl, true, false, Option, none, some, List, [], ◌∷◌, Str, map, All, slt,
  Bool-cases, inl, inr, arith,
}
use wait.Proxy.{Rule, matches, pick_rule}
use wait.Config.Load.{CompiledRule, and_then, proxy_rule, by_priority}

-- No item of the list is less than one that stands in front of it.
unfoldable pub IsSorted : (CompiledRule → CompiledRule → Bool) → List CompiledRule → Type 0
IsSorted less [] = Unit
IsSorted less (r ∷ rs) = All (λ q. less q r ≡ false) rs × IsSorted less rs

-- The rule stands in the list.
abbrev pub Listed : CompiledRule → List CompiledRule → Type 0
Listed r [] = ⊥
Listed r (q ∷ qs) = (q ≡ r) ⊎ Listed r qs

-- What `sort.Slice` is relied on for, with a comparison: the items are the same ones, in its order.
pub record Sorts (less : CompiledRule → CompiledRule → Bool) (rs ss : List CompiledRule)
    : Type 0 where
  pub keeps : (r : CompiledRule) → Listed r rs → Listed r ss
  pub adds_none : (r : CompiledRule) → Listed r ss → Listed r rs
  pub ordered : IsSorted less ss

-- A rule of the list that matches, and none of those that match has a smaller priority number.
pub record Chosen (rs : List CompiledRule) (path : Str) (u : Rule) : Type 0 where
  pub rule : CompiledRule
  pub given : proxy_rule rule ≡ u
  pub listed : Listed rule rs
  pub fits : matches u path ≡ true
  pub first :
      (q : CompiledRule)
      → Listed q rs
      → matches (proxy_rule q) path ≡ true
      → slt q.source.priority rule.source.priority ≡ false

-- The rule that is given is one of those; where none is given, none matches.
unfoldable pub Picks : List CompiledRule → Str → Option Rule → Type 0
Picks rs path none = (q : CompiledRule) → Listed q rs → matches (proxy_rule q) path ≡ false
Picks rs path (some u) = Chosen rs path u

All-Listed :
    (P : CompiledRule → Type 0) (rs : List CompiledRule) (q : CompiledRule)
    → All P rs
    → Listed q rs
    → P q
All-Listed P [] q a l = absurd l
All-Listed P (r ∷ rs) q a (inl e) = subst P e a.0
All-Listed P (r ∷ rs) q a (inr l) = All-Listed P rs q a.1 l

Picks-cons :
    (r : CompiledRule) (rs : List CompiledRule) (path : Str) (o : Option Rule)
    → matches (proxy_rule r) path ≡ false
    → Picks rs path o
    → Picks (r ∷ rs) path o
unfolding Picks
Picks-cons r rs path none e ok = λ q l. elim l [
  | inl is ↦ subst (λ x. matches (proxy_rule x) path ≡ false) is e
  | inr l' ↦ ok q l'
]
Picks-cons r rs path (some u) e ok = record {
  rule = ok.rule;
  given = ok.given;
  listed = inr ok.listed;
  fits = ok.fits;
  first = λ q l m. elim l [
    | inl is ↦ absurd (let e' = subst (λ x. matches (proxy_rule x) path ≡ false) is e in cc)
    | inr l' ↦ ok.first q l' m
  ];
}

pub pick_rule-Picks :
    (ss : List CompiledRule) (path : Str)
    → IsSorted by_priority ss
    → Picks ss path (pick_rule (map proxy_rule ss) path)
unfolding pick_rule Picks IsSorted by_priority
pick_rule-Picks [] path a = λ q l. absurd l
pick_rule-Picks (r ∷ ss) path a = elim (Bool-cases (matches (proxy_rule r) path)) [
  | inr e ↦
      simp (e, pick_rule)
        (Picks-cons r ss path (pick_rule (map proxy_rule ss) path) e (pick_rule-Picks ss path a.1))
  | inl e ↦
      simp (e, pick_rule, Picks)
        (record {
          rule = r;
          given = refl;
          listed = inl refl;
          fits = e;
          first = λ q l m. elim l [
            | inl is ↦
                subst (λ x. slt x.source.priority r.source.priority ≡ false) is (ground arith)
            | inr l' ↦ All-Listed (λ x. slt x.source.priority r.source.priority ≡ false) ss q a.0 l'
          ];
        })
]

pub Picks-Sorts :
    (less : CompiledRule → CompiledRule → Bool) (rs ss : List CompiledRule) (path : Str)
    (o : Option Rule)
    → Sorts less rs ss
    → Picks ss path o
    → Picks rs path o
unfolding Picks
Picks-Sorts less rs ss path none s ok = λ q l. ok q (s.keeps q l)
Picks-Sorts less rs ss path (some u) s ok = record {
  rule = ok.rule;
  given = ok.given;
  listed = s.adds_none ok.rule ok.listed;
  fits = ok.fits;
  first = λ q l. ok.first q (s.keeps q l);
}

pub and_then-inr {ℓ κ μ} :
    {E : Type ℓ} {A : Type κ} {B : Type μ} (x : E ⊎ A) (next : A → E ⊎ B) (b : B)
    → and_then x next ≡ inr b
    → (a : A) × (x ≡ inr a) × (next a ≡ inr b)
unfolding and_then
and_then-inr (inl e) next b h = absurd cc
and_then-inr (inr a) next b h = (a, refl, h)
