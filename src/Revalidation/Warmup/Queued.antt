-- ===== src/Revalidation/Warmup/Queued.antt =====
-- The queue of WarmupGroupLoop (internal/wait0/revalidation/controller.go), the set `queued` beside
-- it, and the requests in flight, under `refresh` and `dispatch`.
use wait.Base.{
  Distinct, ℕ, ◌≤◌, ◌<◌, ◌≡◌, refl, sym, ◌∙◌, true, false, ◌||◌, List, [], ◌∷◌, ◌++◌, Str, arith,
  ◌⊎◌, inl, inr, Bool-cases, length, length-append, slt, add64, if◌then◌else◌, str_eq, str_eq_iff,
  member, two63,
}
use wait.Revalidation.Warmup.{Warmup, remove_key, dispatch_from, enqueue}

member-remove_key :
    (k j : Str) (xs : List Str)
    → member j (remove_key k xs) ≡ (if str_eq k j then false else member j xs)
unfolding member remove_key
member-remove_key k j [] = ground arith
member-remove_key k j (x ∷ xs) =
    ground (arith, member-remove_key k j xs, str_eq_iff x k, str_eq_iff x j, str_eq_iff k j)

member-append : (j k : Str) (xs : List Str) → member j (xs ++ k ∷ []) ≡ (member j xs || str_eq k j)
unfolding member
member-append j k [] = ground arith
member-append j k (x ∷ xs) = ground (arith, member-append j k xs)

append-Distinct :
    (k : Str) (xs : List Str) → Distinct xs → member k xs ≡ false → Distinct (xs ++ k ∷ [])
unfolding member Distinct
append-Distinct k [] d e = (refl, tt)
append-Distinct k (x ∷ xs) d e =
    let m : member x (xs ++ k ∷ []) ≡ false =
      ground (arith, member-append x k xs, d.0, str_eq_iff x k, str_eq_iff k x, e) in
    let e' : member k xs ≡ false = ground (arith, e) in (m, append-Distinct k xs d.1 e')

-- The counter is the number of the requests in flight, which is at most `limit`; no key waits twice,
-- and the set holds the keys that wait.
pub record IsQueued (limit : ℕ) (w : Warmup) (queue : List Str) : Type 0 where
  pub counted : w.inflight ≡ length w.running
  pub bounded : length w.running ≤ limit
  pub distinct : Distinct queue
  pub same : (k : Str) → member k w.queued ≡ member k queue

-- `w'` differs from `w` in the queue and in what runs.
pub record Same (w w' : Warmup) : Type 0 where
  pub batch : w'.batch ≡ w.batch
  pub stopping : w'.stopping ≡ w.stopping

started-IsQueued :
    (limit : ℕ) (w : Warmup) (key : Str) (q : List Str)
    → limit < two63
    → IsQueued limit w (key ∷ q)
    → slt w.inflight limit ≡ true
    → IsQueued limit
        (record w {
          queued = remove_key key w.queued;
          inflight = add64 w.inflight 1;
          running = w.running ++ key ∷ [];
        })
        q
unfolding Distinct member
started-IsQueued limit w key q small ok room = record {
  counted = omega (arith, ok.counted, ok.bounded, length-append w.running (key ∷ []));
  bounded = ground (arith, ok.counted, ok.bounded, length-append w.running (key ∷ []), room);
  distinct = ok.distinct.1;
  same = λ k.
      ground (arith, member-remove_key key k w.queued, ok.same k, str_eq_iff key k, ok.distinct.0);
}

-- `dispatch` stops when the queue is empty or every slot is taken.
pub dispatch_from-IsQueued :
    (limit : ℕ) (w : Warmup) (q : List Str)
    → limit < two63
    → IsQueued limit w q
    → let w' = dispatch_from limit w q in
      IsQueued limit w' w'.queue × ((w'.queue ≡ []) ⊎ (length w'.running ≡ limit)) × Same w w'
unfolding dispatch_from
dispatch_from-IsQueued limit w [] small ok = (
  record { counted = ok.counted; bounded = ok.bounded; distinct = ok.distinct; same = ok.same },
  inl refl,
  record { batch = refl; stopping = refl },
)
dispatch_from-IsQueued limit w (key ∷ q) small ok = elim (Bool-cases (slt w.inflight limit)) [
  | inl room ↦
      let (o, f, s) =
        dispatch_from-IsQueued limit
          (record w {
            queued = remove_key key w.queued;
            inflight = add64 w.inflight 1;
            running = w.running ++ key ∷ [];
          })
          q small (started-IsQueued limit w key q small ok room) in
      simp (room, dispatch_from) (o, f, record { batch = s.batch; stopping = s.stopping })
  | inr full ↦
      let all : length w.running ≡ limit = ground (arith, ok.counted, ok.bounded, full) in
      simp (full, dispatch_from)
        (
          record {
            counted = ok.counted;
            bounded = ok.bounded;
            distinct = ok.distinct;
            same = ok.same;
          },
          inr all,
          record { batch = refl; stopping = refl },
        )
]

-- `refresh` adds the keys that do not wait yet.
pub enqueue-IsQueued :
    (limit : ℕ) (ks : List Str) (w : Warmup)
    → IsQueued limit w w.queue
    → let w' = enqueue ks w in IsQueued limit w' w'.queue × Same w w'
unfolding enqueue
enqueue-IsQueued limit [] w ok = (ok, record { batch = refl; stopping = refl })
enqueue-IsQueued limit (k ∷ ks) w ok = elim (Bool-cases (member k w.queued)) [
  | inl there ↦ simp (there, enqueue) (enqueue-IsQueued limit ks w ok)
  | inr new ↦
      let w1 = record w { queued = k ∷ w.queued; queue = w.queue ++ k ∷ [] } in
      let ok1 : IsQueued limit w1 w1.queue =
        unfold member in
        record {
          counted = ok.counted;
          bounded = ok.bounded;
          distinct = append-Distinct k w.queue ok.distinct (sym (ok.same k) ∙ new);
          same = λ j. ground (arith, member-append j k w.queue, ok.same j);
        } in
      let (o, s) = enqueue-IsQueued limit ks w1 ok1 in
      simp (new, enqueue) (o, record { batch = s.batch; stopping = s.stopping })
]
