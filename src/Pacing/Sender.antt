-- ===== src/Pacing/Sender.antt =====
-- pacing/pace_sender.c: the queue is sent as the budget allows. The calls of `send_cb` are a list of
-- the packets it is called for.
pub mod Transmit
pub mod Total
use lmp.Prelude.{
  ℕ, zero, suc, ◌+◌, ◌*◌, ◌/◌, ◌%◌, ◌^◌, Bool, false, true, ◌&&◌, Option, none, some, List, [], ◌∷◌,
  ◌++◌, ltb, ◌==◌, if◌then◌else◌,
}
use lmp.Prelude.Int.{ℤ, pos, negsuc, pos_part, neg_part, as_int, ◌-ℤ◌, ltb_ℤ}
use lmp.SkipList.{size}
use lmp.Pacing.Budget.{
  IntervalBudget, init_interval_budget, set_target_rate_kbps, increase_budget, use_budget,
  budget_remaining, su_min,
}
use lmp.Pacing.Alr.{
  AlrDetector, alr_detector_create, alr_detector_bytes_sent, alr_detector_set_bitrate, no_budget,
}
use lmp.Pacing.Queue.{
  PacketEvent, PacerQueue, is_unset, pacer_queue_init, pacer_queue_push, pacer_queue_front,
  pacer_queue_sent, pacer_queue_empty, pacer_queue_bytes, pacer_queue_oldest,
  pacer_queue_target_bitrate_kbps,
}

-- `pace_sender_t`
pub record PaceSender : Type 0 where
  pub min_sender_bitrate_kpbs : ℕ
  pub estimated_bitrate : ℕ
  pub pacing_bitrate_kpbs : ℕ
  pub last_update_ts : ℤ
  pub first_sent_ts : ℤ
  pub alr : AlrDetector
  pub que : PacerQueue
  pub media_budget : IntervalBudget

abbrev pub k_min_packet_limit_ms : ℤ
k_min_packet_limit_ms = pos 5

abbrev pub k_max_interval_ms : ℤ
k_max_interval_ms = pos 50

abbrev pub k_default_pace_factor : ℕ
k_default_pace_factor = 3

abbrev pub k_min_pacing_bitrate : ℕ
k_min_pacing_bitrate = 50 * 1000 * 8

-- `pace_create` at the system time `now_ms`
unfoldable pub pace_create : ℕ → ℤ → PaceSender
unfolding alr_detector_create pacer_queue_init init_interval_budget increase_budget
pace_create que_ms now_ms = record {
  min_sender_bitrate_kpbs = 0;
  estimated_bitrate = 0;
  pacing_bitrate_kpbs = 0;
  last_update_ts = now_ms;
  first_sent_ts = negsuc 0;
  alr = alr_detector_create;
  que = pacer_queue_init que_ms;
  media_budget =
      increase_budget (init_interval_budget no_budget (pos 0) true) k_min_packet_limit_ms;
}

-- SU_MAX on `uint32_t`, times the pace factor.
unfoldable pub pacing_bitrate : ℕ → ℕ → ℕ
pacing_bitrate bitrate_bps min_kbps =
    (if ltb min_kbps (bitrate_bps / 1000) then bitrate_bps / 1000 else min_kbps)
    * k_default_pace_factor
    % 2 ^ 32

-- `pace_set_estimate_bitrate`
unfoldable pub pace_set_estimate_bitrate : PaceSender → ℕ → PaceSender
unfolding pacing_bitrate alr_detector_set_bitrate
pace_set_estimate_bitrate pace bitrate_bps = record pace {
  estimated_bitrate = bitrate_bps;
  pacing_bitrate_kpbs = pacing_bitrate bitrate_bps pace.min_sender_bitrate_kpbs;
  alr = alr_detector_set_bitrate pace.alr (pos bitrate_bps);
}

-- `pace_set_bitrate_limits`, which uses its argument only in the log.
unfoldable pub pace_set_bitrate_limits : PaceSender → ℕ → PaceSender
unfolding pacing_bitrate
pace_set_bitrate_limits pace min_sent_bitrate_pbs = record pace {
  min_sender_bitrate_kpbs = k_min_pacing_bitrate / 1000;
  pacing_bitrate_kpbs = pacing_bitrate pace.estimated_bitrate (k_min_pacing_bitrate / 1000);
}

-- `pace_insert_packet`
unfoldable pub pace_insert_packet : PaceSender → ℕ → ℕ → ℕ → ℤ → PaceSender × Bool
unfolding pacer_queue_push
pace_insert_packet pace seq retrans bytes now_ts =
    let ev : PacketEvent = record {
      seq = seq;
      retrans = retrans;
      size = bytes;
      que_ts = now_ts;
      sent = false;
    } in
    let r : PacerQueue × Bool = pacer_queue_push pace.que ev in (record pace { que = r.0 }, r.1)

-- `pace_queue_ms`, `pace_queue_size`, `pace_expected_queue_ms` and `pace_get_limited_start_time`
unfoldable pub pace_queue_ms : PaceSender → ℤ → ℤ
unfolding pacer_queue_oldest ◌-ℤ◌
pace_queue_ms pace now_ms = now_ms -ℤ pacer_queue_oldest pace.que now_ms

abbrev pub pace_queue_size : PaceSender → ℕ
pace_queue_size pace = pacer_queue_bytes pace.que

unfoldable pub pace_expected_queue_ms : PaceSender → ℕ
pace_expected_queue_ms pace =
    if ltb 0 pace.pacing_bitrate_kpbs
    then pacer_queue_bytes pace.que * 8 / pace.pacing_bitrate_kpbs
    else 0

abbrev pub pace_get_limited_start_time : PaceSender → ℤ
pace_get_limited_start_time pace = pace.alr.alr_started_ts

-- `pace_send`; -1 is `none`.
unfoldable pub pace_send : PaceSender → PacketEvent → Option PaceSender
unfolding budget_remaining use_budget
pace_send pace ev =
    if budget_remaining pace.media_budget == 0
    then none
    else some (record pace { media_budget = use_budget pace.media_budget (pos ev.size) })

-- What the loop of `pace_try_transmit` changes.
pub record Progress : Type 0 where
  pub pace : PaceSender
  pub sent_bytes : ℕ
  pub calls : List PacketEvent

-- The body of the loop after `pace_send`; `none` is the `break`.
unfoldable pub account : ℤ → Progress → PacketEvent → Option PaceSender → Option Progress
unfolding pacer_queue_sent
account now_ts p ev none = none
account now_ts p ev (some pace) = some (record {
  pace = record pace {
    first_sent_ts = if is_unset pace.first_sent_ts then now_ts else pace.first_sent_ts;
    que = pacer_queue_sent pace.que ev;
  };
  sent_bytes = p.sent_bytes + ev.size;
  calls = p.calls ++ ev ∷ [];
})

-- The body at the packet that is at the front; there is one while the queue is not empty.
unfoldable pub turn : ℤ → Progress → Option PacketEvent → Option Progress
unfolding account pace_send
turn now_ts p none = none
turn now_ts p (some ev) = account now_ts p ev (pace_send p.pace ev)

unfoldable pub go_on : (Progress → Option Progress) → Progress → Option Progress → Option Progress
go_on loop p none = some p
go_on loop p (some next) = loop next

-- The loop, on fuel.
unfoldable pub transmit : ℕ → ℤ → Progress → Option Progress
unfolding turn go_on pacer_queue_front
transmit zero now_ts p = none
transmit (suc n) now_ts p =
    let rest = go_on (transmit n now_ts) p (turn now_ts p (pacer_queue_front p.pace.que)) in
    if pacer_queue_empty p.pace.que then some p else rest

-- The new media budget of `pace_try_transmit`.
unfoldable pub refill : PaceSender → ℤ → ℤ → PaceSender
unfolding set_target_rate_kbps increase_budget pacer_queue_target_bitrate_kbps
refill pace now_ts elapsed_ms =
    let wanted = pacer_queue_target_bitrate_kbps pace.que now_ts in
    let target_bitrate_kbps =
      if ltb 0 (pacer_queue_bytes pace.que) && ltb pace.pacing_bitrate_kpbs wanted
      then wanted
      else pace.pacing_bitrate_kpbs in
    record pace {
      media_budget =
          increase_budget (set_target_rate_kbps pace.media_budget (as_int target_bitrate_kbps 0))
            elapsed_ms;
    }

-- The end of `pace_try_transmit`: the detector is told what was sent.
unfoldable pub with_alr :
    PaceSender → List PacketEvent → Option AlrDetector → Option (PaceSender × List PacketEvent)
with_alr pace calls none = none
with_alr pace calls (some alr) = some (record pace { alr = alr }, calls)

unfoldable pub finish : ℤ → ℤ → ℤ → Option Progress → Option (PaceSender × List PacketEvent)
unfolding with_alr alr_detector_bytes_sent
finish now_ts elapsed_ms now_ms none = none
finish now_ts elapsed_ms now_ms (some p) =
    let pace = record p.pace { last_update_ts = now_ts } in
    let told =
      with_alr pace p.calls (alr_detector_bytes_sent pace.alr p.sent_bytes elapsed_ms now_ms) in
    if ltb 0 p.sent_bytes then told else some (pace, p.calls)

-- `(int)(now_ts - pace->last_update_ts)`
abbrev pub elapsed_since : ℤ → ℤ → ℤ
elapsed_since last_update_ts now_ts =
    as_int (pos_part now_ts + neg_part last_update_ts) (pos_part last_update_ts + neg_part now_ts)

-- `pace_try_transmit`, with the calls of `send_cb`; `now_ms` is the system time. The time that went by
-- and the target rate are cast to `int`. The fuel is one more
-- than the packets of the cache.
unfoldable pub pace_try_transmit : PaceSender → ℤ → ℤ → Option (PaceSender × List PacketEvent)
unfolding refill transmit finish ◌-ℤ◌
pace_try_transmit pace now_ts now_ms =
    let elapsed = elapsed_since pace.last_update_ts now_ts in
    let elapsed_ms = su_min elapsed k_max_interval_ms in
    let start : Progress = record {
      pace = refill pace now_ts elapsed_ms;
      sent_bytes = 0;
      calls = [];
    } in
    let done =
      finish now_ts elapsed_ms now_ms (transmit (suc (size pace.que.cache)) now_ts start) in
    if ltb_ℤ elapsed k_min_packet_limit_ms then some (pace, []) else done
