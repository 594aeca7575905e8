-- ===== src/Compact.antt =====
-- crates/sandbx-compact/src/lib.rs: how many of the oldest messages a request leaves out. Token
-- counters are `u32`, and their sum is taken in `u64`, which three of them cannot overflow;
-- message counts are `usize`, and count lists in memory.
pub mod Search
pub mod Cut
pub mod Window
mod Tests
use sandbx.Common.{
  ℕ, zero, suc, ◌+◌, ◌-◌, min, max, Bool, false, not, ◌&&◌, List, [], ◌∷◌, Option, none, some, ltb,
  leb, ◌==◌, if◌then◌else◌, length, get_elem?, drop, any, retain, or_else,
}
use sandbx.Prompt.{RequestMessage, is_result, is_user}

pub record Compaction : Type 0 where
  pub budget_tokens : ℕ
  pub keep_recent : ℕ

pub record PromptUsage : Type 0 where
  pub input_tokens : Option ℕ
  pub cache_read_tokens : Option ℕ
  pub cache_write_tokens : Option ℕ

-- `unwrap_or(0)`.
abbrev pub counted : Option ℕ → ℕ
counted none = 0
counted (some n) = n

unfoldable pub prompt_tokens : PromptUsage → ℕ
prompt_tokens u =
    counted u.input_tokens + counted u.cache_read_tokens + counted u.cache_write_tokens

unfoldable pub over_budget : Option PromptUsage → ℕ → Bool
unfolding prompt_tokens
over_budget none budget_tokens = false
over_budget (some usage) budget_tokens = ltb budget_tokens (prompt_tokens usage)

-- `(start..start + n).find(p)`.
pub find_up : (ℕ → Bool) → ℕ → ℕ → Option ℕ
find_up p zero start = none
find_up p (suc n) start = if p start then some start else find_up p n (suc start)

-- `(1..n + 1).rev().find(p)`.
pub find_down : (ℕ → Bool) → ℕ → Option ℕ
find_down p zero = none
find_down p (suc n) = if p (suc n) then some (suc n) else find_down p n

-- `keep_recent.map_or(floor, ..)`; `-` on ℕ is `saturating_sub`.
abbrev aimed_at : ℕ → ℕ → Option ℕ → ℕ → ℕ
aimed_at ceiling produced none floor = floor
aimed_at ceiling produced (some keep) floor = max (min (ceiling + produced - keep) ceiling) floor

-- The cut to aim for, over a history of `ceiling` messages. A floor at or past its end is dropped.
unfoldable pub target : ℕ → ℕ → Option ℕ → ℕ → ℕ
target ceiling produced keep_recent floor =
    aimed_at ceiling produced keep_recent (if leb ceiling floor then 0 else floor)

module _ {Json : Type 0} where
  abbrev opens_on : Option (RequestMessage Json) → Bool
  opens_on none = false
  opens_on (some first) = is_user first.role && any (λ b. not (is_result b)) first.content

  unfoldable pub opens_a_request : List (RequestMessage Json) → ℕ → Bool
  opens_a_request history cut = ltb 0 cut && opens_on (get_elem? history cut)

  pub plan_from : List (RequestMessage Json) → ℕ → Option ℕ
  unfolding find_up find_down
  plan_from history target =
      if target == 0
      then none
      else or_else (find_up (opens_a_request history) (length history - target) target)
          (find_down (opens_a_request history) (target - 1))

  unfoldable pub plan_cut : List (RequestMessage Json) → ℕ → Option ℕ → ℕ → Option ℕ
  unfolding plan_from
  plan_cut history produced keep_recent floor =
      plan_from history (target (length history) produced keep_recent floor)

  -- `first.content.retain(..)` on the first message kept.
  abbrev shed_first : List (RequestMessage Json) → List (RequestMessage Json)
  shed_first [] = []
  shed_first (first ∷ rest) =
      record first { content = retain (λ b. not (is_result b)) first.content } ∷ rest

  unfoldable pub window : List (RequestMessage Json) → ℕ → List (RequestMessage Json)
  window history cut = let kept = drop cut history in if ltb 0 cut then shed_first kept else kept
