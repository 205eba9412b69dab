-- ===== src/Pacing/Sender/Total.antt =====
-- pacing/pace_sender.c: a call that transmits comes to its end, unless the detector divides by zero.
use lmp.Prelude.{
  ℕ, zero, suc, ◌≤◌, ◌≡◌, ◌≢◌, refl, sym, ◌∙◌, ap, Bool, true, false, none, some, List, [], ◌∷◌,
  Bool-cases, inl, inr, arith, if◌then◌else◌, ltb, ◌==◌, length,
}
use lmp.Prelude.Int.{ℤ, pos, negsuc, ltb_ℤ}
use mathlib.Core.Path.{subst}
use lmp.SkipList.{SkipList, size}
use lmp.SkipList.Laws.{sum}
use lmp.Pacing.Budget.{
  su_min, quot, IntervalBudget, increase_budget, use_budget, budget_level_precent, level_of,
}
use lmp.Pacing.Alr.{AlrDetector, alr_detector_bytes_sent, note_level}
use lmp.Pacing.Queue.{PacketEvent}
use lmp.Pacing.Queue.Sizes.{IsConsistent, waiting}
use lmp.Pacing.Sender.{
  elapsed_since, PaceSender, Progress, finish, with_alr, refill, pace_try_transmit,
  k_max_interval_ms, k_min_packet_limit_ms,
}
use lmp.Pacing.Sender.Transmit.{transmit_lem}

if-max :
    (test : Bool) (x y : IntervalBudget) (m : ℤ)
    → x.max_bytes_in_budget ≡ m
    → y.max_bytes_in_budget ≡ m
    → (if test then x else y).max_bytes_in_budget ≡ m
if-max true x y m h k = h
if-max false x y m h k = k

increase-max :
    (budget : IntervalBudget) (delta : ℤ)
    → (increase_budget budget delta).max_bytes_in_budget ≡ budget.max_bytes_in_budget
unfolding increase_budget
increase-max budget delta = if-max _ _ _ budget.max_bytes_in_budget refl refl

level_of-some : (bytes m : ℤ) → m ≢ pos 0 → (percent : ℤ) × (level_of bytes m ≡ some percent)
unfolding level_of
level_of-some bytes (pos zero) h = absurd (h refl)
level_of-some bytes (pos (suc n)) h =
    let e : (suc n == 0) ≡ false = ground arith in (quot bytes (suc n), rw e refl)
level_of-some bytes (negsuc n) h = (_, refl)

level_some :
    (budget : IntervalBudget)
    → budget.max_bytes_in_budget ≢ pos 0
    → (percent : ℤ) × (budget_level_precent budget ≡ some percent)
unfolding budget_level_precent
level_some budget h = level_of-some _ budget.max_bytes_in_budget h

level_none :
    (budget : IntervalBudget)
    → budget.max_bytes_in_budget ≡ pos 0
    → budget_level_precent budget ≡ none
unfolding budget_level_precent
level_none budget h = rw h refl

-- alr_detector_bytes_sent comes to its end if the budget of the detector has a size other than 0,
-- and divides by zero if the size is 0.
pub alr_detector_bytes_sent_defined :
    (alr : AlrDetector) (bytes : ℕ) (delta_ts now_ms : ℤ)
    → (alr.budget.max_bytes_in_budget ≢ pos 0
        → (next : AlrDetector) × (alr_detector_bytes_sent alr bytes delta_ts now_ms ≡ some next))
      × (alr.budget.max_bytes_in_budget ≡ pos 0
          → alr_detector_bytes_sent alr bytes delta_ts now_ms ≡ none)
unfolding alr_detector_bytes_sent note_level
alr_detector_bytes_sent_defined alr bytes delta_ts now_ms =
    let budget = increase_budget (use_budget alr.budget (pos bytes)) delta_ts in
    let e : budget.max_bytes_in_budget ≡ alr.budget.max_bytes_in_budget =
      increase-max (use_budget alr.budget (pos bytes)) delta_ts in
    (
      λ h.
          let r = level_some budget (λ z. h (sym e ∙ z)) in
          (_, ap (note_level (record alr { budget = budget }) now_ms) r.1),
      λ h. ap (note_level (record alr { budget = budget }) now_ms) (level_none budget (e ∙ h)),
    )

-- No more packets wait than the cache has.
waiting-size : (cache : SkipList PacketEvent) → sum waiting cache ≤ length cache
unfolding sum
waiting-size [] = omega arith
waiting-size ((k, p) ∷ cache) = ground (arith, waiting-size cache)

finish_lem :
    (now_ts elapsed_ms now_ms : ℤ) (p : Progress)
    → p.pace.alr.budget.max_bytes_in_budget ≢ pos 0
    → (out : PaceSender × List PacketEvent) × (finish now_ts elapsed_ms now_ms (some p) ≡ some out)
      × (out.0.que ≡ p.pace.que)
unfolding finish with_alr
finish_lem now_ts elapsed_ms now_ms p h =
    let pace = record p.pace { last_update_ts = now_ts } in
    let a = (alr_detector_bytes_sent_defined p.pace.alr p.sent_bytes elapsed_ms now_ms).0 h in
    elim (Bool-cases (ltb 0 p.sent_bytes)) [
      | inl t ↦ ((record pace { alr = a.0 }, p.calls), rw t (ap (with_alr pace p.calls) a.1), refl)
      | inr t ↦ ((pace, p.calls), rw t refl, refl)
    ]

-- From a consistent queue, and with a budget of the detector whose size is not 0, pace_try_transmit
-- comes to its end, and the queue is consistent.
pub pace_try_transmit_lem :
    (pace : PaceSender) (now_ts now_ms : ℤ)
    → IsConsistent pace.que
    → pace.alr.budget.max_bytes_in_budget ≢ pos 0
    → (out : PaceSender × List PacketEvent) × (pace_try_transmit pace now_ts now_ms ≡ some out)
      × IsConsistent out.0.que
unfolding pace_try_transmit refill
pace_try_transmit_lem pace now_ts now_ms c h =
    let elapsed = elapsed_since pace.last_update_ts now_ts in
    let elapsed_ms = su_min elapsed k_max_interval_ms in
    let start : Progress = record {
      pace = refill pace now_ts elapsed_ms;
      sent_bytes = 0;
      calls = [];
    } in
    let t =
      transmit_lem (suc (size pace.que.cache)) now_ts start c
        (omega (arith, waiting-size pace.que.cache)) in
    let f =
      finish_lem now_ts elapsed_ms now_ms t.0
        (λ z. h (sym (ap (λ a. a.budget.max_bytes_in_budget) t.3) ∙ z)) in
    elim (Bool-cases (ltb_ℤ elapsed k_min_packet_limit_ms)) [
      | inl e ↦ ((pace, []), rw e refl, c)
      | inr e ↦ (
        f.0,
        rw e (ap (finish now_ts elapsed_ms now_ms) t.1 ∙ f.1),
        subst IsConsistent (sym f.2) t.2,
      )
    ]
