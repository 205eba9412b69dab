-- ===== src/Pacing/Budget/Bounds.antt =====
-- pacing/interval_budget.c: the bytes stay within the budget, and what is used comes off.
use lmp.Prelude.{
  ℕ, ◌+◌, ◌*◌, ◌/◌, ◌≡◌, refl, sym, ◌∙◌, ap, Bool, arith, true, false, List, [], ◌∷◌, if◌then◌else◌,
}
use lmp.Prelude.Int.{ℤ, pos, ◌+ℤ◌, ◌-ℤ◌, ◌*ℤ◌, ◌≤ℤ◌, sub_ℕ}
use lmp.Pacing.Budget.{
  IntervalBudget, set_target_rate_kbps, init_interval_budget, increase_budget, use_budget, quot,
  su_min,
}
use mathlib.Core.List.{foldl}
use mathlib.Core.Path.{subst}

-- The rate is not negative, and what remains is between -max_bytes_in_budget and max_bytes_in_budget.
pub record InBudget (budget : IntervalBudget) : Type 0 where
  pub rate : ℕ
  pub rate_eq : budget.target_rate_kbps ≡ pos rate
  pub below : budget.bytes_remaining ≤ℤ budget.max_bytes_in_budget
  pub above : pos 0 ≤ℤ budget.bytes_remaining +ℤ budget.max_bytes_in_budget

sub_zero : (x y : ℕ) → y ≡ 0 → sub_ℕ x y ≡ pos x
sub_zero x y h = ground arith

*ℤ_pos : (a b : ℕ) → pos a *ℤ pos b ≡ pos (a * b)
unfolding ◌*ℤ◌
*ℤ_pos a b = sub_zero (a * b + 0 * 0) (a * 0 + 0 * b) (omega arith) ∙ ap pos (omega arith)

pub set_target-InBudget :
    (budget : IntervalBudget) (rate : ℕ) → InBudget (set_target_rate_kbps budget (pos rate))
unfolding set_target_rate_kbps ◌+ℤ◌ ◌-ℤ◌
set_target-InBudget budget rate =
    rw (*ℤ_pos 500 rate)
      (record { rate = rate; rate_eq = refl; below = ground arith; above = ground arith })

bytes_pos :
    (rate : ℤ) (r delta : ℕ) → rate ≡ pos r → quot (rate *ℤ pos delta) 8 ≡ pos (r * delta / 8)
bytes_pos rate r delta e = ap (λ x. quot (x *ℤ pos delta) 8) e ∙ ap (λ x. quot x 8) (*ℤ_pos r delta)

capped-InBudget :
    (budget : IntervalBudget) (x : ℤ)
    → InBudget budget
    → pos 0 ≤ℤ x +ℤ budget.max_bytes_in_budget
    → InBudget (record budget { bytes_remaining = su_min x budget.max_bytes_in_budget })
unfolding ◌+ℤ◌
capped-InBudget budget x b h =
    let p = b.below in
    let q = b.above in
    record { rate = b.rate; rate_eq = b.rate_eq; below = ground arith; above = ground arith }

if-InBudget :
    (test : Bool) {x y : IntervalBudget}
    → InBudget x
    → InBudget y
    → InBudget (if test then x else y)
if-InBudget true h k = h
if-InBudget false h k = k

pub increase-InBudget :
    (budget : IntervalBudget) (delta : ℕ)
    → InBudget budget
    → InBudget (increase_budget budget (pos delta))
unfolding increase_budget ◌+ℤ◌
increase-InBudget budget delta b =
    let bytes = quot (budget.target_rate_kbps *ℤ pos delta) 8 in
    let e = bytes_pos budget.target_rate_kbps b.rate delta b.rate_eq in
    let p = b.below in
    let q = b.above in
    let enough : pos 0 ≤ℤ bytes = subst (λ x. pos 0 ≤ℤ x) (sym e) (omega arith) in
    if-InBudget _ (capped-InBudget budget (budget.bytes_remaining +ℤ bytes) b (ground arith))
      (capped-InBudget budget bytes b (ground arith))

pub use-InBudget :
    (budget : IntervalBudget) (bytes : ℕ)
    → InBudget budget
    → InBudget (use_budget budget (pos bytes))
unfolding use_budget ◌+ℤ◌ ◌-ℤ◌
use-InBudget budget bytes b =
    let p = b.below in
    let q = b.above in
    record { rate = b.rate; rate_eq = b.rate_eq; below = ground arith; above = ground arith }

-- The calls on a budget.
pub data Call : Type 0 where
  set_rate increase spend : ℕ → Call

unfoldable pub call : IntervalBudget → Call → IntervalBudget
unfolding set_target_rate_kbps increase_budget use_budget
call budget (set_rate kbps) = set_target_rate_kbps budget (pos kbps)
call budget (increase ms) = increase_budget budget (pos ms)
call budget (spend bytes) = use_budget budget (pos bytes)

call-InBudget : (budget : IntervalBudget) (c : Call) → InBudget budget → InBudget (call budget c)
unfolding call
call-InBudget budget (set_rate kbps) b = set_target-InBudget budget kbps
call-InBudget budget (increase ms) b = increase-InBudget budget ms b
call-InBudget budget (spend bytes) b = use-InBudget budget bytes b

calls-InBudget :
    (calls : List Call) (budget : IntervalBudget)
    → InBudget budget
    → InBudget (foldl call budget calls)
calls-InBudget [] budget b = b
calls-InBudget (c ∷ calls) budget b =
    calls-InBudget calls (call budget c) (call-InBudget budget c b)

-- From init_interval_budget on, whatever calls follow with arguments that are not negative, the bytes
-- that remain are at least -max_bytes_in_budget and at most max_bytes_in_budget.
pub foldl-call-InBudget :
    (old : IntervalBudget) (rate : ℕ) (underuse : Bool) (calls : List Call)
    → InBudget (foldl call (init_interval_budget old (pos rate) underuse) calls)
unfolding init_interval_budget
foldl-call-InBudget old rate underuse calls =
    let start = record old { bytes_remaining = pos 0; can_build_up_underuse = underuse } in
    calls-InBudget calls (init_interval_budget old (pos rate) underuse)
      (set_target-InBudget start rate)
