-- ===== src/Revalidation/Warmup.antt =====
-- internal/wait0/revalidation/controller.go, WarmupGroupLoop: one loop that queues the keys of a rule
-- and keeps at most `warm_max` requests in flight. Between two rounds of the loop's select the state
-- is the record below; each branch of the select is a function. The requests that were started and
-- whose result was not received yet are the list `running`.
pub mod Queued
pub mod Rounds
mod Tests
use wait.Base.{
  ◌≡◌, ℕ, zero, suc, ◌+◌, ◌-◌, ◌/◌, Bool, true, false, not, ◌&&◌, ◌||◌, Option, none, some, List,
  [], ◌∷◌, ◌++◌, Str, str, str_eq, member, length, ◌==◌, if◌then◌else◌, add64, sub64, slt, is_neg,
  is_pos, is_some, two64, ◌%◌,
}

pub record Result : Type 0 where
  pub ok : Bool
  pub changed : Bool
  pub dur : ℕ
  pub uri : Str
  pub path : Str
  pub kind : Str
  pub err : Str

pub record WarmRule : Type 0 where
  pub match_text : Str
  pub warm_every : ℕ
  pub warm_max : ℕ

-- The times and the counts of the batch that runs.
pub record Batch : Type 0 where
  pub start : Option ℕ
  pub urls : ℕ
  pub min_rt : ℕ
  pub max_rt : ℕ
  pub sum_rt : ℕ
  pub unchanged : ℕ
  pub updated : ℕ
  pub deleted : ℕ
  pub ignored_status : ℕ
  pub ignored_cache_control : ℕ
  pub errors : ℕ

-- What the log line of a batch is made of. Its requests per second are `urls` by `took`.
pub record WarmupSummary : Type 0 where
  pub match_text : Str
  pub urls : ℕ
  pub took : ℕ
  pub min_rt : ℕ
  pub avg_rt : ℕ
  pub max_rt : ℕ
  pub unchanged : ℕ
  pub updated : ℕ
  pub deleted : ℕ
  pub ignored_status : ℕ
  pub ignored_cache_control : ℕ
  pub errors : ℕ

pub record Warmup : Type 0 where
  pub queued : List Str
  pub queue : List Str
  pub inflight : ℕ
  pub running : List Str
  pub batch : Batch
  pub stopping : Bool
  pub logged : List WarmupSummary

abbrev pub no_batch : Batch
no_batch = record {
  start = none;
  urls = 0;
  min_rt = 0;
  max_rt = 0;
  sum_rt = 0;
  unchanged = 0;
  updated = 0;
  deleted = 0;
  ignored_status = 0;
  ignored_cache_control = 0;
  errors = 0;
}

abbrev pub idle : Warmup
idle = record {
  queued = [];
  queue = [];
  inflight = 0;
  running = [];
  batch = no_batch;
  stopping = false;
  logged = [];
}

-- The quotient of two int64, of which the second is above zero.
unfoldable pub div64 : ℕ → ℕ → ℕ
div64 a b = if is_neg a then sub64 0 ((two64 - a) / b) else a / b

unfoldable pub took_of : Option ℕ → ℕ → ℕ
took_of none now = 0
took_of (some start) now = sub64 now start

unfoldable pub make_summary : Str → Batch → ℕ → WarmupSummary
unfolding took_of div64
make_summary match_text b now = record {
  match_text = match_text;
  urls = b.urls;
  took = took_of b.start now;
  min_rt = b.min_rt;
  avg_rt = if is_pos b.urls then div64 b.sum_rt b.urls else 0;
  max_rt = b.max_rt;
  unchanged = b.unchanged;
  updated = b.updated;
  deleted = b.deleted;
  ignored_status = b.ignored_status;
  ignored_cache_control = b.ignored_cache_control;
  errors = b.errors;
}

unfoldable pub remove_key : Str → List Str → List Str
remove_key k [] = []
remove_key k (x ∷ xs) = let rest = remove_key k xs in if str_eq x k then rest else x ∷ rest

-- The loop of `dispatch`, over the queue.
unfoldable pub dispatch_from : ℕ → Warmup → List Str → Warmup
dispatch_from warm_max w [] = record w { queue = [] }
dispatch_from warm_max w (key ∷ q) =
    let started = record w {
      queued = remove_key key w.queued;
      inflight = add64 w.inflight 1;
      running = w.running ++ key ∷ [];
    } in
    let rest = dispatch_from warm_max started q in
    if slt w.inflight warm_max then rest else record w { queue = key ∷ q }

unfoldable pub dispatch : WarmRule → Warmup → Warmup
dispatch rule w = dispatch_from rule.warm_max w w.queue

-- The loop of `refresh`, over the keys.
unfoldable pub enqueue : List Str → Warmup → Warmup
enqueue [] w = w
enqueue (k ∷ ks) w =
    let fresh = enqueue ks (record w { queued = k ∷ w.queued; queue = w.queue ++ k ∷ [] }) in
    let same = enqueue ks w in if member k w.queued then same else fresh

unfoldable pub start_batch : ℕ → Batch → Batch
start_batch now b = if is_some b.start then b else record b { start = some now }

unfoldable pub refresh : List Str → ℕ → Warmup → Warmup
refresh keys now w =
    if length keys == 0 then w else enqueue keys (record w { batch = start_batch now w.batch })

-- The switch on the kind of a result.
unfoldable pub count_kind : Str → Batch → Batch
count_kind kind b =
    if str_eq kind (str "unchanged")
    then record b { unchanged = add64 b.unchanged 1 }
    else if str_eq kind (str "updated")
    then record b { updated = add64 b.updated 1 }
    else if str_eq kind (str "deleted")
    then record b { deleted = add64 b.deleted 1 }
    else if str_eq kind (str "ignored-status")
    then record b { ignored_status = add64 b.ignored_status 1 }
    else if str_eq kind (str "ignored-cache-control")
    then record b { ignored_cache_control = add64 b.ignored_cache_control 1 }
    else record b { errors = add64 b.errors 1 }

unfoldable pub count_result : Result → Batch → Batch
count_result res b =
    if is_some b.start
    then count_kind res.kind (record b {
      urls = add64 b.urls 1;
      sum_rt = add64 b.sum_rt res.dur;
      min_rt = if b.min_rt == 0 || slt res.dur b.min_rt then res.dur else b.min_rt;
      max_rt = if slt b.max_rt res.dur then res.dur else b.max_rt;
    })
    else b

-- `maybeFinish`; the flag is whether summaries are logged.
unfoldable pub maybe_finish : WarmRule → Bool → ℕ → Warmup → Warmup
unfolding make_summary
maybe_finish rule log now w =
    if not (is_some w.batch.start)
    then w
    else if not (w.inflight == 0) || not (length w.queue == 0)
    then w
    else (record w {
      batch = no_batch;
      logged = if log then w.logged ++ make_summary rule.match_text w.batch now ∷ [] else w.logged;
    })

unfoldable pub on_stop : Warmup → Warmup
on_stop w = record w { stopping = true; queued = []; queue = [] }

unfoldable pub on_tick : WarmRule → List Str → ℕ → Warmup → Warmup
on_tick rule keys now w = if w.stopping then w else dispatch rule (refresh keys now w)

-- The result of the request that stood between `xs` and `ys` among those that run.
unfoldable pub on_result : WarmRule → Bool → Result → ℕ → List Str → List Str → Warmup → Warmup
on_result rule log res now xs ys w =
    let w1 = record w {
      inflight = sub64 w.inflight 1;
      running = xs ++ ys;
      batch = count_result res w.batch;
    } in
    if w.stopping then w1 else maybe_finish rule log now (dispatch rule w1)

-- The loop ends in such a state, with a last summary where a batch runs.
unfoldable pub is_done : Warmup → Bool
is_done w = w.stopping && w.inflight == 0

unfoldable pub on_done : WarmRule → Bool → ℕ → Warmup → Warmup
unfolding make_summary
on_done rule log now w =
    if is_some w.batch.start && log
    then record w { logged = w.logged ++ make_summary rule.match_text w.batch now ∷ [] }
    else w

-- One round of the loop. The stop channel is read once.
pub data Round (rule : WarmRule) (log : Bool) : Warmup → Warmup → Type 0 where
  stop : (w : Warmup) → w.stopping ≡ false → Round rule log w (on_stop w)
  tick : (w : Warmup) (keys : List Str) (now : ℕ) → Round rule log w (on_tick rule keys now w)
  result :
      (w : Warmup) (res : Result) (now : ℕ) (xs : List Str) (key : Str) (ys : List Str)
      → w.running ≡ xs ++ key ∷ ys
      → Round rule log w (on_result rule log res now xs ys w)

pub data Reachable (rule : WarmRule) (log : Bool) : Warmup → Type 0 where
  initial : Reachable rule log idle
  next : (w w' : Warmup) → Reachable rule log w → Round rule log w w' → Reachable rule log w'
