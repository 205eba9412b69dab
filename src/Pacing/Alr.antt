-- ===== src/Pacing/Alr.antt =====
-- pacing/alr_detector.c: since when the sender has had less to send than it might.
use lmp.Prelude.{ℕ, false, ◌&&◌, Option, none, some, if◌then◌else◌}
use lmp.Prelude.Int.{ℤ, pos, negsuc, ◌*ℤ◌, ltb_ℤ}
use lmp.Pacing.Budget.{
  IntervalBudget, init_interval_budget, set_target_rate_kbps, increase_budget, use_budget,
  budget_level_precent, quot,
}
use lmp.Pacing.Queue.{is_unset}

-- `alr_detector_t`
pub record AlrDetector : Type 0 where
  pub budget : IntervalBudget
  pub alr_started_ts : ℤ

abbrev pub k_alr_start_buget_percent : ℤ
k_alr_start_buget_percent = pos 80

abbrev pub k_alr_stop_buget_percent : ℤ
k_alr_stop_buget_percent = pos 50

abbrev pub k_alr_banwidth_useage_percent : ℤ
k_alr_banwidth_useage_percent = pos 60

-- The memory that `calloc` gives.
abbrev pub no_budget : IntervalBudget
no_budget = record {
  target_rate_kbps = pos 0;
  max_bytes_in_budget = pos 0;
  bytes_remaining = pos 0;
  can_build_up_underuse = false;
}

-- `alr_detector_create`
unfoldable pub alr_detector_create : AlrDetector
unfolding init_interval_budget
alr_detector_create = record {
  budget = init_interval_budget no_budget (pos 0) false;
  alr_started_ts = negsuc 0;
}

-- What `alr_detector_bytes_sent` does with the percentage; `now_ms` is the system time.
unfoldable pub note_level : AlrDetector → ℤ → Option ℤ → Option AlrDetector
note_level alr now_ms none = none
note_level alr now_ms (some percent) = some (
    if ltb_ℤ k_alr_start_buget_percent percent && is_unset alr.alr_started_ts
    then record alr { alr_started_ts = now_ms }
    else if ltb_ℤ percent k_alr_stop_buget_percent
    then record alr { alr_started_ts = negsuc 0 }
    else alr)

-- `alr_detector_bytes_sent`; where it divides by zero the result is `none`.
unfoldable pub alr_detector_bytes_sent : AlrDetector → ℕ → ℤ → ℤ → Option AlrDetector
unfolding use_budget increase_budget budget_level_precent note_level
alr_detector_bytes_sent alr bytes delta_ts now_ms =
    let budget = increase_budget (use_budget alr.budget (pos bytes)) delta_ts in
    note_level (record alr { budget = budget }) now_ms (budget_level_precent budget)

-- `alr_detector_set_bitrate`
unfoldable pub alr_detector_set_bitrate : AlrDetector → ℤ → AlrDetector
unfolding set_target_rate_kbps
alr_detector_set_bitrate alr bitrate_bps = record alr {
  budget =
      set_target_rate_kbps alr.budget (quot (bitrate_bps *ℤ k_alr_banwidth_useage_percent) 100000);
}
