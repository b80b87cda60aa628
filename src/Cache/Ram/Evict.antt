-- ===== src/Cache/Ram/Evict.antt =====
-- `evictToDiskLocked` of internal/wait0/cache/ram.go: the victims are the end of the list.
use mathlib.Core.List.{reverse, append-nil, append_assoc, reverse-append}
use wait.Base.{
  ℕ, zero, suc, ◌≤◌, ◌≡◌, refl, ap, sym, ◌∙◌, none, some, List, [], ◌∷◌, ◌++◌, arith, ◌⊎◌, inl, inr,
  length, length-append,
}
use wait.Cache.Entry.{offer}
use wait.Cache.Lru.{offer_all, offer_all-append}
use wait.Cache.Ram.{Heap, Eviction, drop_item, evict_rounds}
use wait.Cache.Ram.Links.{last-append, snoc-cases}
use wait.Cache.Ram.Slots.{
  slot, contents, contents-SameSlots, SameSlots, remove-SameSlots, remove-Kept,
}
use wait.Cache.Ram.Steps.{drop_item-IsRam}
use wait.Cache.Ram.Valid.{IsRam}

-- From `e`, whose list is `l`, to `e'`: the items `gone` at the end of the list are offered to the
-- disk, the last one first, and the items `kept` stay as they are.
pub record Evicts (e e' : Eviction) (l kept gone : List ℕ) : Type 0 where
  pub splits : l ≡ kept ++ gone
  pub valid : IsRam e'.ram kept
  pub same : SameSlots e.ram.heap e'.ram.heap
  pub sunk : e'.sink ≡ offer_all e.sink (reverse (contents e.ram.heap gone))
  pub limit : e'.ram.max_bytes ≡ e.ram.max_bytes

pub contents-append :
    (h : Heap) (xs ys : List ℕ) → contents h (xs ++ ys) ≡ contents h xs ++ contents h ys
contents-append h [] ys = refl
contents-append h (x ∷ xs) ys = ap (◌∷◌ (slot (h x))) (contents-append h xs ys)

pub Evicts-refl : (e : Eviction) (l : List ℕ) → IsRam e.ram l → Evicts e e l l []
Evicts-refl e l ok = record {
  splits = sym (append-nil l);
  valid = ok;
  same = λ b. refl;
  sunk = refl;
  limit = refl;
}

pub Evicts-trans :
    (e f g : Eviction) (l k m v w : List ℕ)
    → Evicts e f l k v
    → Evicts f g k m w
    → Evicts e g l m (w ++ v)
Evicts-trans e f g l k m v w a b = record {
  splits = a.splits ∙ (ap (λ x. x ++ v) b.splits ∙ append_assoc m w v);
  valid = b.valid;
  same = λ x. b.same x ∙ a.same x;
  sunk =
      b.sunk
      ∙ rw (
        a.sunk,
        contents-SameSlots e.ram.heap f.ram.heap w a.same,
        contents-append,
        reverse-append,
        offer_all-append,
      );
  limit = b.limit ∙ a.limit;
}

-- One round of the loop.
step : Eviction → ℕ → Eviction
step e a = record e {
  ram = drop_item e.ram a (e.ram.heap a).key;
  sink = offer e.sink (e.ram.heap a).key (e.ram.heap a).ent;
}

step-Evicts :
    (e : Eviction) (xs : List ℕ) (a : ℕ)
    → IsRam e.ram (xs ++ a ∷ [])
    → Evicts e (step e a) (xs ++ a ∷ []) xs (a ∷ [])
unfolding step drop_item
step-Evicts e xs a ok = record {
  splits = refl;
  valid = rw append-nil at (drop_item-IsRam e.ram xs a [] ok);
  same = remove-SameSlots e.ram a;
  sunk = refl;
  limit = (remove-Kept e.ram a).3;
}

-- `n` rounds evict `n` items, or all of them.
pub record Rounds (n : ℕ) (e e' : Eviction) (l : List ℕ) : Type 0 where
  pub kept : List ℕ
  pub gone : List ℕ
  pub evicts : Evicts e e' l kept gone
  pub at_most : length gone ≤ n
  pub all_or : (kept ≡ []) ⊎ (length gone ≡ n)

tail-nil : (e : Eviction) (l : List ℕ) → IsRam e.ram l → l ≡ [] → e.ram.tail ≡ none
tail-nil e l ok h = ok.chain.ends ∙ rw h

tail-snoc :
    (e : Eviction) (l xs : List ℕ) (a : ℕ) → IsRam e.ram l → l ≡ xs ++ a ∷ [] → e.ram.tail ≡ some a
tail-snoc e l xs a ok h = ok.chain.ends ∙ rw (h, last-append)

evict_rounds-step :
    (n : ℕ) (e : Eviction) (a : ℕ)
    → e.ram.tail ≡ some a
    → evict_rounds (suc n) e ≡ evict_rounds n (step e a)
unfolding evict_rounds step
evict_rounds-step n e a h = simp (h, evict_rounds)

evict_rounds_stop : (n : ℕ) (e : Eviction) → e.ram.tail ≡ none → evict_rounds n e ≡ e
unfolding evict_rounds
evict_rounds_stop zero e h = refl
evict_rounds_stop (suc n) e h = simp (h, evict_rounds)

pub evict_rounds-Rounds :
    (n : ℕ) (e : Eviction) (l : List ℕ) → IsRam e.ram l → Rounds n e (evict_rounds n e) l
evict_rounds-Rounds zero e l ok =
    let same : evict_rounds zero e ≡ e = unfold evict_rounds in refl in
    rw same (record {
      kept = l;
      gone = [];
      evicts = Evicts-refl e l ok;
      at_most = omega arith;
      all_or = inr refl;
    })
evict_rounds-Rounds (suc n) e l ok = elim (snoc-cases l) [
  | inl h ↦ rw (evict_rounds_stop (suc n) e (tail-nil e l ok h)) (record {
    kept = l;
    gone = [];
    evicts = Evicts-refl e l ok;
    at_most = omega arith;
    all_or = inl h;
  })
  | inr (xs, a, h) ↦
      let one = step-Evicts e xs a (rw h at ok) in
      let rest = evict_rounds-Rounds n (step e a) xs one.valid in
      rw (evict_rounds-step n e a (tail-snoc e l xs a ok h)) (record {
        kept = rest.kept;
        gone = rest.gone ++ a ∷ [];
        evicts = rw h (
            Evicts-trans e (step e a) (evict_rounds n (step e a)) (xs ++ a ∷ []) xs rest.kept
              (a ∷ []) rest.gone one rest.evicts);
        at_most = omega (arith, length-append rest.gone (a ∷ []), rest.at_most);
        all_or = elim rest.all_or [
          | inl none_left ↦ inl none_left
          | inr all ↦ inr (omega (arith, all, length-append rest.gone (a ∷ [])))
        ];
      })
]
