-- ===== src/Pacing/Tests.antt =====
-- A pacer with three packets, one of them put in twice.
use lmp.Prelude.{ℕ, ◌≡◌, ◌≢◌, refl, true, false, some, none, List, [], ◌∷◌, arith}
use lmp.Prelude.Int.{pos, ◌-ℤ◌, ◌*ℤ◌}
use mathlib.Core.List.{foldl}
use lmp.SkipList.{search, insert, modify, remove}
use lmp.Pacing.Budget.{init_interval_budget}
use lmp.Pacing.Budget.Bounds.{InBudget, call, set_rate, increase, spend, foldl-call-InBudget}
use lmp.Pacing.Alr.{AlrDetector, alr_detector_create, no_budget, alr_detector_set_bitrate}
use lmp.Pacing.Queue.{
  PacketEvent, PacerQueue, pacer_queue_init, pacer_queue_push, pacer_queue_front, pacer_queue_sent,
}
use lmp.Pacing.Queue.Sizes.{IsConsistent}
use lmp.Pacing.Queue.Next.{
  Reached, made, pushed, sent_next, IsNext, Reached-IsConsistent, pacer_queue_front-Reached,
}
use lmp.Pacing.Sender.{
  PaceSender, pace_try_transmit, pace_create, pace_set_bitrate_limits, pace_set_estimate_bitrate,
}
use lmp.Pacing.Sender.Total.{pace_try_transmit_lem}

abbrev event : ℕ → ℕ → PacketEvent
event seq bytes = record { seq = seq; retrans = 0; size = bytes; que_ts = pos 1000; sent = false }

abbrev three : PacerQueue
three =
    (pacer_queue_push
      (pacer_queue_push
        (pacer_queue_push (pacer_queue_push (pacer_queue_init 100) (event 8 500)).0 (event 7 900)).0
        (event 9 400)).0
      (event 8 500)).0

three-Reached : Reached 100 three
three-Reached =
    pushed _ (event 8 500)
      (pushed _ (event 9 400) (pushed _ (event 7 900) (pushed _ (event 8 500) made)))

abbrev two : PacerQueue
two = pacer_queue_sent three (event 7 900)

two-Reached : Reached 100 two
unfolding pacer_queue_init pacer_queue_push pacer_queue_front search insert
two-Reached = sent_next three (event 7 900) three-Reached refl refl

Reached-IsConsistent_example : IsConsistent two
Reached-IsConsistent_example = Reached-IsConsistent 100 two two-Reached

pacer_queue_front-Reached_example :
    (packet : PacketEvent) × (pacer_queue_front two ≡ some packet) × IsNext two.cache packet
unfolding pacer_queue_init pacer_queue_push pacer_queue_sent search insert modify remove
pacer_queue_front-Reached_example = pacer_queue_front-Reached 100 two two-Reached refl

foldl-call-InBudget_example : InBudget (
    foldl call
      (init_interval_budget no_budget (pos 800) true)
      (increase 40 ∷ spend 90000 ∷ set_rate 100 ∷ increase 7 ∷ []))
foldl-call-InBudget_example =
    foldl-call-InBudget no_budget 800 true
      (increase 40 ∷ spend 90000 ∷ set_rate 100 ∷ increase 7 ∷ [])

abbrev detector : AlrDetector
detector = alr_detector_set_bitrate alr_detector_create (pos 1000000)

detector_budget : detector.budget.max_bytes_in_budget ≢ pos 0
unfolding alr_detector_set_bitrate alr_detector_create ◌-ℤ◌ ◌*ℤ◌
detector_budget e = ground (arith, e)

abbrev sender : PaceSender
sender =
    record (pace_set_estimate_bitrate (pace_set_bitrate_limits (pace_create 100 (pos 1000)) 10000)
      1000000) { que = three }

sender_budget : sender.alr.budget.max_bytes_in_budget ≢ pos 0
unfolding pace_set_estimate_bitrate pace_set_bitrate_limits pace_create ◌-ℤ◌ ◌*ℤ◌
sender_budget e = ground (arith, e)

pace_try_transmit_lem_example :
    (out : PaceSender × List PacketEvent) × (pace_try_transmit sender (pos 1010) (pos 1010)
      ≡ some out)
    × IsConsistent out.0.que
pace_try_transmit_lem_example =
    pace_try_transmit_lem sender (pos 1010) (pos 1010)
      (Reached-IsConsistent 100 three three-Reached) sender_budget

-- After packet 7 the packet 8 is next, though it came first.
abbrev next_of : PacerQueue → ℕ
next_of que = elim (pacer_queue_front que) [ none ↦ 0 | some packet ↦ packet.seq ]

two_next : next_of two ≡ 8
unfolding pacer_queue_init pacer_queue_push pacer_queue_sent pacer_queue_front search insert modify
    remove
two_next = refl
