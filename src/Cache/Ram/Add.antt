-- ===== src/Cache/Ram/Add.antt =====
-- The end of `Put` of internal/wait0/cache/ram.go: a new item keeps the invariant.
use wait.Base.{
  insert-Unique, length-insert, ℕ, ◌+◌, ◌<◌, ◌≡◌, ◌≢◌, refl, ap, ◌∙◌, true, false, none, some, List,
  ◌∷◌, Str, arith, lookup, insert, ◌==◌, str_eq_iff, lookup-insert, lookup-insert_self,
  lookup-insert_ne, str_eq, inl, inr, Bool-cases,
}
use wait.Cache.Entry.{Entry}
use wait.Cache.Ram.{RamItem, Ram, write, add_to_front, add_item}
use wait.Cache.Ram.Chain.{IsChain, add_to_front-IsChain}
use wait.Cache.Ram.Links.{is_in, Seg-write}
use wait.Cache.Ram.Slots.{
  contents, contents-write, contents-SameSlots, sizes, sizes-write, sizes-SameSlots, keys-SameSlots,
  add_to_front-SameSlots, add_to_front-Kept,
}
use wait.Cache.Ram.Valid.{IsIndex, IsRam, IsIndex-perm}

module _ (c : Ram) (l : List ℕ) (ok : IsRam c l) where
  pub fresh_absent : is_in c.fresh l ≡ false
  fresh_absent = elim (Bool-cases (is_in c.fresh l)) [
    | inl e ↦ absurd (omega (arith, ok.allocated c.fresh e))
    | inr e ↦ e
  ]

  not_fresh : (b : ℕ) → is_in b l ≡ true → (b == c.fresh) ≡ false
  not_fresh b e = let lt = ok.allocated b e in ground arith

  module _ (key : Str) (it : RamItem) (same : it.key ≡ key) (new : lookup key c.items ≡ none) where
    found :
        (b : ℕ)
        → is_in b (c.fresh ∷ l) ≡ true
        → lookup (write c.heap c.fresh it b).key (insert key c.fresh c.items) ≡ some b
    found b e = elim (Bool-cases (b == c.fresh)) [
      | inl here ↦
          let at : c.fresh ≡ b = ground arith in rw (here, same, lookup-insert_self) (ap some at)
      | inr other ↦
          let old : is_in b l ≡ true = ground arith in
          let there = ok.index.indexed b old in
          let ne : key ≢ (c.heap b).key = λ f. cc (f, there, new) in
          rw (other, lookup-insert_ne key (c.heap b).key c.fresh c.items ne) there
    ]

    held :
        (k : Str) (b : ℕ)
        → lookup k (insert key c.fresh c.items) ≡ some b
        → (is_in b (c.fresh ∷ l) ≡ true) × ((write c.heap c.fresh it b).key ≡ k)
    held k b e = elim (Bool-cases (str_eq key k)) [
      | inl here ↦
          let at : c.fresh ≡ b = ground (arith, lookup-insert key k c.fresh c.items) in
          let name = (str_eq_iff key k).0 here in rw (← at) (ground arith, ground arith)
      | inr other ↦
          let old : lookup k c.items ≡ some b =
            ground (arith, lookup-insert key k c.fresh c.items) in
          let (listed, name) = ok.index.covered k b old in
          rw (not_fresh b listed) (ground arith, name)
    ]

    insert-IsIndex : IsIndex (write c.heap c.fresh it) (insert key c.fresh c.items) (c.fresh ∷ l)
    insert-IsIndex = record {
      indexed = found;
      covered = held;
      counted = omega (arith, length-insert key c.fresh c.items new, ok.index.counted);
      unique = insert-Unique key c.fresh c.items new ok.index.unique;
    }

  sizes-new :
      (it : RamItem) → sizes (write c.heap c.fresh it) (c.fresh ∷ l) ≡ it.size + sizes c.heap l
  sizes-new it = ground (arith, sizes-write c.heap c.fresh it l fresh_absent)

  below : (b : ℕ) → is_in b (c.fresh ∷ l) ≡ true → b < c.fresh + 1
  below b e = elim (Bool-cases (c.fresh == b)) [
    | inl here ↦ ground arith
    | inr other ↦ let old : is_in b l ≡ true = ground arith in omega (arith, ok.allocated b old)
  ]

  pub add_item-IsRam :
      (key : Str) (ent : Entry) (sz stats_size now : ℕ)
      → lookup key c.items ≡ none
      → IsRam (add_item c key ent sz stats_size now) (c.fresh ∷ l)
  unfolding add_item
  add_item-IsRam key ent sz stats_size now new =
      let it : RamItem = record {
        key = key;
        ent = ent;
        size = sz;
        stats_size = stats_size;
        last_access = now;
        prev = none;
        next = none;
      } in
      let c1 = record c {
        heap = write c.heap c.fresh it;
        fresh = c.fresh + 1;
        items = insert key c.fresh c.items;
      } in
      let chain1 : IsChain c1 l = record {
        linked = Seg-write c.heap c.fresh it none l none fresh_absent ok.chain.linked;
        starts = ok.chain.starts;
        ends = ok.chain.ends;
        distinct = ok.chain.distinct;
      } in
      let chain2 = add_to_front-IsChain c1 c.fresh l chain1 fresh_absent in
      let (items, total, fresh, _) = add_to_front-Kept c1 c.fresh in
      let same = add_to_front-SameSlots c1 c.fresh in
      let h = (add_to_front c1 c.fresh).heap in
      record {
        chain = record {
          linked = chain2.linked;
          starts = chain2.starts;
          ends = chain2.ends;
          distinct = chain2.distinct;
        };
        allocated = λ b e. rw fresh (below b e);
        index = rw items (
            IsIndex-perm c1.heap h c1.items (c.fresh ∷ l) (c.fresh ∷ l)
              (keys-SameSlots c1.heap h same) (λ b. refl) refl (insert-IsIndex key it refl new));
        summed =
            omega
              (arith, total, ok.summed, sizes-SameSlots c1.heap h (c.fresh ∷ l) same, sizes-new it);
      }

  pub add_item-contents :
      (key : Str) (ent : Entry) (sz stats_size now : ℕ)
      → contents (add_item c key ent sz stats_size now).heap (c.fresh ∷ l)
        ≡ record { key = key; ent = ent; size = sz; stats_size = stats_size; last_access = now }
          ∷ contents c.heap l
  unfolding add_item
  add_item-contents key ent sz stats_size now =
      let it : RamItem = record {
        key = key;
        ent = ent;
        size = sz;
        stats_size = stats_size;
        last_access = now;
        prev = none;
        next = none;
      } in
      let c1 = record c {
        heap = write c.heap c.fresh it;
        fresh = c.fresh + 1;
        items = insert key c.fresh c.items;
      } in
      contents-SameSlots c1.heap (add_to_front c1 c.fresh).heap (c.fresh ∷ l)
        (add_to_front-SameSlots c1 c.fresh)
      ∙ ground (arith, contents-write c.heap c.fresh it l fresh_absent)
