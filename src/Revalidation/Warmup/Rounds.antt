-- ===== src/Revalidation/Warmup/Rounds.antt =====
-- The rounds of WarmupGroupLoop (internal/wait0/revalidation/controller.go): an invariant of every
-- state that the loop reaches.
use wait.Base.{◌+◌, ◌%◌, ◌≡◌, true, none, [], ◌⊎◌, length, two64}
use wait.Revalidation.Warmup.{Warmup, WarmRule, Batch}
use wait.Revalidation.Warmup.Queued.{IsQueued}

-- Every result of the batch was counted under one kind.
pub IsTallied : Batch → Type 0
IsTallied b =
    b.urls
    ≡ (b.unchanged + b.updated + b.deleted + b.ignored_status + b.ignored_cache_control + b.errors)
      % two64

pub record IsWarmup (rule : WarmRule) (w : Warmup) : Type 0 where
  pub queued : IsQueued rule.warm_max w w.queue
  pub full : (w.queue ≡ []) ⊎ (length w.running ≡ rule.warm_max)
  pub batched : w.batch.start ≡ none → (w.queue ≡ []) × (w.running ≡ [])
  pub tallied : IsTallied w.batch
  pub stopped : w.stopping ≡ true → w.queue ≡ []
