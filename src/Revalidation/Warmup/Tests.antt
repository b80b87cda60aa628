-- ===== src/Revalidation/Warmup/Tests.antt =====
-- Runs of WarmupGroupLoop (internal/wait0/revalidation/controller.go).
use wait.Base.{◌≡◌, refl, true, List, [], ◌∷◌, Str, str, str_eq, member}
use wait.Revalidation.Warmup.{
  Warmup, WarmRule, Result, idle, on_tick, on_result, on_stop, remove_key, dispatch_from, dispatch,
  enqueue, refresh, start_batch, count_kind, count_result, maybe_finish, is_done,
}

program : Unit {0}
unfolding on_tick on_result on_stop remove_key dispatch_from dispatch enqueue refresh start_batch
    count_kind count_result maybe_finish is_done str_eq member
program = tt

abbrev rule : WarmRule
rule = record { match_text = str "/"; warm_every = 1; warm_max = 2 }

abbrev three : List Str
three = str "/a" ∷ str "/b" ∷ str "/c" ∷ []

ticked : Warmup
ticked = on_tick rule three 5 idle

abbrev fetched : Result
fetched = record {
  ok = true;
  changed = true;
  dur = 4;
  uri = str "/b";
  path = str "/b";
  kind = str "updated";
  err = [];
}

after : Warmup
after = on_result rule true fetched 9 (str "/a" ∷ []) [] ticked

after_running : after.running ≡ str "/a" ∷ str "/c" ∷ []
unfolding program ticked after
after_running = refl

after_updated : after.batch.updated ≡ 1
unfolding program ticked after
after_updated = refl
