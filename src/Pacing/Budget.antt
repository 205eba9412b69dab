-- ===== src/Pacing/Budget.antt =====
-- pacing/interval_budget.c: how many bytes may be sent now. An `int` is an integer: overflow of it is
-- undefined in C.
pub mod Bounds
use lmp.Prelude.{ℕ, suc, ◌/◌, Bool, true, false, not, ◌||◌, Option, none, some, if◌then◌else◌, ◌==◌}
use lmp.Prelude.Int.{ℤ, pos, negsuc, ◌+ℤ◌, ◌-ℤ◌, ◌*ℤ◌, ltb_ℤ, neg_part, pos_part}

-- `interval_budget_t`; of `can_build_up_underuse` the code asks only whether it is 0.
pub record IntervalBudget : Type 0 where
  pub target_rate_kbps : ℤ
  pub max_bytes_in_budget : ℤ
  pub bytes_remaining : ℤ
  pub can_build_up_underuse : Bool

abbrev pub k_window_ms : ℤ
k_window_ms = pos 500

-- The macros SU_MAX and SU_MIN.
abbrev pub su_max : ℤ → ℤ → ℤ
su_max a b = if ltb_ℤ b a then a else b

abbrev pub su_min : ℤ → ℤ → ℤ
su_min a b = if ltb_ℤ a b then a else b

-- The division of C, towards zero, by a positive number.
abbrev pub quot : ℤ → ℕ → ℤ
quot (pos n) d = pos (n / d)
quot (negsuc n) d = pos 0 -ℤ pos (suc n / d)

-- `set_target_rate_kbps`
unfoldable pub set_target_rate_kbps : IntervalBudget → ℤ → IntervalBudget
set_target_rate_kbps budget target_rate_kbps =
    let max_bytes = quot (k_window_ms *ℤ target_rate_kbps) 8 in
    record budget {
      target_rate_kbps = target_rate_kbps;
      max_bytes_in_budget = max_bytes;
      bytes_remaining = su_min (su_max (pos 0 -ℤ max_bytes) budget.bytes_remaining) max_bytes;
    }

-- `init_interval_budget` of a budget that held `old`.
unfoldable pub init_interval_budget : IntervalBudget → ℤ → Bool → IntervalBudget
unfolding set_target_rate_kbps
init_interval_budget old initial_target_rate_kbps can_build_up_underuse =
    set_target_rate_kbps
      (record old { bytes_remaining = pos 0; can_build_up_underuse = can_build_up_underuse })
      initial_target_rate_kbps

-- `increase_budget`
unfoldable pub increase_budget : IntervalBudget → ℤ → IntervalBudget
increase_budget budget delta_ts =
    let bytes = quot (budget.target_rate_kbps *ℤ delta_ts) 8 in
    if ltb_ℤ budget.bytes_remaining (pos 0) || not budget.can_build_up_underuse
    then record budget {
      bytes_remaining = su_min (budget.bytes_remaining +ℤ bytes) budget.max_bytes_in_budget;
    }
    else record budget { bytes_remaining = su_min bytes budget.max_bytes_in_budget }

-- `use_budget`
unfoldable pub use_budget : IntervalBudget → ℤ → IntervalBudget
use_budget budget bytes = record budget {
  bytes_remaining = su_max (pos 0 -ℤ budget.max_bytes_in_budget) (budget.bytes_remaining -ℤ bytes);
}

-- `budget_remaining`
unfoldable pub budget_remaining : IntervalBudget → ℕ
budget_remaining budget = pos_part budget.bytes_remaining

-- The division of `budget_level_precent` by a size; by zero, which ends the program, it is `none`.
unfoldable pub level_of : ℤ → ℤ → Option ℤ
unfolding ◌-ℤ◌
level_of bytes (pos n) = if n == 0 then none else some (quot bytes n)
level_of bytes (negsuc n) = some (pos 0 -ℤ quot bytes (suc n))

-- `budget_level_precent`
unfoldable pub budget_level_precent : IntervalBudget → Option ℤ
unfolding level_of ◌*ℤ◌
budget_level_precent budget =
    level_of (budget.bytes_remaining *ℤ pos 100) budget.max_bytes_in_budget
