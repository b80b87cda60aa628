-- ===== src/Dashboard/Limiter.antt =====
-- internal/wait0/dashboard/controller.go: the limiter of requests per client in fixed windows. A time
-- is its nanoseconds, an int64; `now.Sub(start)` is their difference.
pub mod Grants
mod Tests
use wait.Base.{
  ℕ, ◌+◌, ◌≡◌, Bool, true, false, not, Option, none, some, List, [], ◌∷◌, Str, str, str_eq,
  trim_space, Dict, lookup, insert, if◌then◌else◌, is_pos, slt, add64, sub64,
}

pub record Limiter : Type 0 where
  pub limit : ℕ
  pub window : ℕ
  pub window_start : ℕ
  pub counts : Dict ℕ

-- `time.Minute`
abbrev pub minute : ℕ
minute = 60_000_000_000

unfoldable pub new_limiter : ℕ → ℕ → ℕ → Limiter
new_limiter limit window now = record {
  limit = if is_pos limit then limit else 1;
  window = if is_pos window then window else minute;
  window_start = now;
  counts = [];
}

unfoldable pub client_key : Str → Str
client_key key = if str_eq (trim_space key) [] then str "unknown" else trim_space key

abbrev pub count_of : Str → Dict ℕ → ℕ
count_of k counts = elim (lookup k counts) [ none ↦ 0 | some n ↦ n ]

-- The start of a new window, where the window is over.
unfoldable pub roll : Limiter → ℕ → Limiter
roll l now =
    if not (slt (sub64 now l.window_start) l.window)
    then record l { window_start = now; counts = [] }
    else l

-- The count of one more request, and whether it is allowed.
unfoldable pub take_one : Limiter → Str → Limiter × Bool
take_one l k =
    let next = add64 (count_of k l.counts) 1 in
    if slt l.limit next then (l, false) else (record l { counts = insert k next l.counts }, true)

unfoldable pub allow : Option Limiter → Str → ℕ → Option Limiter × Bool
allow none key now = (none, true)
allow (some l) key now = let r = take_one (roll l now) (client_key key) in (some r.0, r.1)
