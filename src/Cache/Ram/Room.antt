-- ===== src/Cache/Ram/Room.antt =====
-- The loop of `Put` of internal/wait0/cache/ram.go that makes room for a new item: it ends, and it
-- ends with room or with an empty cache.
use wait.Base.{
  ℕ, zero, suc, ◌+◌, ◌≤◌, ◌<◌, ◌≡◌, refl, ap, ◌∙◌, Bool, true, false, some, List, [], ◌∷◌, ◌++◌,
  arith, ◌==◌, ◌⊎◌, inl, inr, Bool-cases, length, length-append, slt, add64, is_pos, if◌then◌else◌,
  is_some, &&-false,
}
use wait.Cache.Ram.{Ram, Eviction, evict_rounds, evict_to_disk, make_room, is_over, tenth}
use wait.Cache.Ram.Chain.{last-some}
use wait.Cache.Ram.Evict.{Evicts, Evicts-refl, Evicts-trans, Rounds, evict_rounds-Rounds}
use wait.Cache.Ram.Valid.{IsRam}

-- One call of `evictToDiskLocked` evicts a tenth of the items, one at least, and all at most.
pub record Batch (e e' : Eviction) (l : List ℕ) : Type 0 where
  pub kept : List ℕ
  pub gone : List ℕ
  pub evicts : Evicts e e' l kept gone
  pub at_most : length gone ≤ tenth (length l)
  pub progress : 0 < length l → 0 < length gone

tenth_pos : (n : ℕ) → 0 < tenth n
tenth_pos n = ground arith

Rounds-Batch :
    (n : ℕ) (e e' : Eviction) (l : List ℕ) → n ≡ tenth (length l) → Rounds n e e' l → Batch e e' l
Rounds-Batch n e e' l same r = record {
  kept = r.kept;
  gone = r.gone;
  evicts = r.evicts;
  at_most = rw (← same) r.at_most;
  progress = λ some_there. elim r.all_or [
    | inl empty ↦ omega (
      arith,
      ap (λ (x : List ℕ). length x) r.evicts.splits,
      length-append r.kept r.gone,
      ap (λ (x : List ℕ). length x) empty,
    )
    | inr all ↦ omega (arith, same, all, tenth_pos (length l))
  ];
}

pub evict_to_disk-Batch : (e : Eviction) (l : List ℕ) → IsRam e.ram l → Batch e (evict_to_disk e) l
unfolding evict_to_disk
evict_to_disk-Batch e l ok = elim (Bool-cases (length e.ram.items == 0)) [
  | inl empty ↦ rw empty (record {
    kept = l;
    gone = [];
    evicts = Evicts-refl e l ok;
    at_most = omega arith;
    progress = λ some_there. ground (arith, ok.index.counted);
  })
  | inr more ↦ rw more (
      Rounds-Batch (tenth (length e.ram.items)) e (evict_rounds (tenth (length e.ram.items)) e) l
        (ap (λ n. tenth n) ok.index.counted)
        (evict_rounds-Rounds (tenth (length e.ram.items)) e l ok))
]

-- What the loop leaves.
pub record Room (sz : ℕ) (e e' : Eviction) (l : List ℕ) : Type 0 where
  pub kept : List ℕ
  pub gone : List ℕ
  pub evicts : Evicts e e' l kept gone
  pub fits : (is_over e'.ram sz ≡ false) ⊎ (kept ≡ [])
  pub needed : is_over e.ram sz ≡ false → gone ≡ []

module _ (log : Bool) (sz : ℕ) where
  -- The eviction of one round, with the line for the logger.
  abbrev again : Eviction → Eviction
  again e1 = record e1 { lines = if log then e1.lines + 1 else e1.lines }

  module _ (fuel : ℕ) (e : Eviction) where
    room_fit : is_over e.ram sz ≡ false → make_room (suc fuel) log sz e ≡ some e
    unfolding make_room
    room_fit h = simp (h, make_room)

    module _ (over : is_over e.ram sz ≡ true) where
      room_empty :
          is_some (evict_to_disk e).ram.tail ≡ false
          → make_room (suc fuel) log sz e ≡ some (evict_to_disk e)
      unfolding make_room
      room_empty h = simp (over, h, make_room)

      room_done :
          is_some (evict_to_disk e).ram.tail ≡ true
          → slt (evict_to_disk e).ram.max_bytes (add64 (evict_to_disk e).ram.total sz) ≡ false
          → make_room (suc fuel) log sz e ≡ some (evict_to_disk e)
      unfolding make_room
      room_done h k = simp (over, h, k, make_room)

      room_more :
          is_some (evict_to_disk e).ram.tail ≡ true
          → slt (evict_to_disk e).ram.max_bytes (add64 (evict_to_disk e).ram.total sz) ≡ true
          → make_room (suc fuel) log sz e ≡ make_room fuel log sz (again (evict_to_disk e))
      unfolding make_room
      room_more h k = simp (over, h, k, make_room)

  nil_of_tail : (c : Ram) (l : List ℕ) → IsRam c l → is_some c.tail ≡ false → l ≡ []
  nil_of_tail c [] ok h = refl
  nil_of_tail c (x ∷ xs) ok h =
      let (b, e) = last-some x xs in let t : c.tail ≡ some b = ok.chain.ends ∙ e in ground arith

  again-Evicts :
      (e e1 : Eviction) (l kept gone : List ℕ)
      → Evicts e e1 l kept gone
      → Evicts e (again e1) l kept gone
  again-Evicts e e1 l kept gone v = record {
    splits = v.splits;
    valid = v.valid;
    same = v.same;
    sunk = v.sunk;
    limit = v.limit;
  }

  Batch-Room :
      (e e1 : Eviction) (l : List ℕ)
      → is_over e.ram sz ≡ true
      → (b : Batch e e1 l) → (is_over e1.ram sz ≡ false) ⊎ (b.kept ≡ [])
      → Room sz e e1 l
  Batch-Room e e1 l over b f = record {
    kept = b.kept;
    gone = b.gone;
    evicts = b.evicts;
    fits = f;
    needed = λ h. cc;
  }

  -- A batch, and then the rest of the loop.
  more-Room :
      (e e1 e' : Eviction) (l : List ℕ)
      → is_over e.ram sz ≡ true
      → (b : Batch e e1 l) → Room sz (again e1) e' b.kept
      → Room sz e e' l
  more-Room e e1 e' l over b r = record {
    kept = r.kept;
    gone = r.gone ++ b.gone;
    evicts =
        Evicts-trans e (again e1) e' l b.kept r.kept b.gone r.gone
          (again-Evicts e e1 l b.kept b.gone b.evicts) r.evicts;
    fits = r.fits;
    needed = λ h. cc;
  }

  pos_of_tail : (c : Ram) (l : List ℕ) → IsRam c l → is_some c.tail ≡ true → 0 < length l
  pos_of_tail c [] ok h = let t = ok.chain.ends in absurd (ground arith)
  pos_of_tail c (x ∷ xs) ok h = omega arith

  shorter :
      (e : Eviction) (l : List ℕ)
      → IsRam e.ram l
      → (b : Batch e (evict_to_disk e) l) → is_some (evict_to_disk e).ram.tail ≡ true
      → {fuel : ℕ} → length l < suc fuel
      → length b.kept < fuel
  shorter e l ok b left enough =
      let some_kept = pos_of_tail (evict_to_disk e).ram b.kept b.evicts.valid left in
      let whole = ap (λ (x : List ℕ). length x) b.evicts.splits ∙ length-append b.kept b.gone in
      omega (arith, b.progress (omega arith))

  -- With more fuel than there are items the loop ends.
  pub make_room-Room :
      (fuel : ℕ) (e : Eviction) (l : List ℕ)
      → IsRam e.ram l
      → length l < fuel
      → (e' : Eviction) × (make_room fuel log sz e ≡ some e') × Room sz e e' l
  make_room-Room zero e l ok enough = absurd (omega arith)
  make_room-Room (suc fuel) e l ok enough =
      let e1 = evict_to_disk e in
      let b = evict_to_disk-Batch e l ok in
      elim (Bool-cases (is_over e.ram sz)) [
        | inr fit ↦ (
          e,
          room_fit fuel e fit,
          record {
            kept = l;
            gone = [];
            evicts = Evicts-refl e l ok;
            fits = inl fit;
            needed = λ h. refl;
          },
        )
        | inl over ↦ elim (Bool-cases (is_some e1.ram.tail)) [
          | inr empty ↦ (
            e1,
            room_empty fuel e over empty,
            Batch-Room e e1 l over b (inr (nil_of_tail e1.ram b.kept b.evicts.valid empty)),
          )
          | inl left ↦ elim (Bool-cases (slt e1.ram.max_bytes (add64 e1.ram.total sz))) [
            | inr fits ↦ (
              e1,
              room_done fuel e over left fits,
              Batch-Room e e1 l over b (inl (simp fits (&&-false (is_pos e1.ram.max_bytes)))),
            )
            | inl still ↦
                let (e', run, room) =
                  make_room-Room fuel (again e1) b.kept b.evicts.valid
                    (shorter e l ok b left enough) in
                (e', room_more fuel e over left still ∙ run, more-Room e e1 e' l over b room)
          ]
        ]
      ]
