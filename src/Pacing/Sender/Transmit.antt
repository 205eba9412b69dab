-- ===== src/Pacing/Sender/Transmit.antt =====
-- pacing/pace_sender.c: the loop ends, and leaves the queue consistent.
use lmp.Prelude.{
  ℕ, zero, suc, ◌<◌, ◌≡◌, refl, sym, ◌∙◌, ap, Option, none, some, Bool-cases, inl, inr, arith,
}
use lmp.Prelude.Int.{ℤ}
use mathlib.Core.Path.{subst}
use lmp.SkipList.Laws.{sum}
use lmp.Pacing.Queue.{PacketEvent, pacer_queue_empty, pacer_queue_sent}
use lmp.Pacing.Queue.Sizes.{IsConsistent, waiting, sent-IsConsistent, sent-sum}
use lmp.Pacing.Queue.Next.{pacer_queue_front-IsNext}
use lmp.Pacing.Alr.{AlrDetector}
use lmp.Pacing.Sender.{PaceSender, Progress, pace_send, account, turn, go_on, transmit}

-- The loop gives a result, with a consistent queue and the detector of before.
abbrev pub Ends : AlrDetector → Option Progress → Type 0
Ends alr result = (p : Progress) × (result ≡ some p) × IsConsistent p.pace.que × (p.pace.alr ≡ alr)

pace_send-que :
    (old pace : PaceSender) (ev : PacketEvent) → pace_send old ev ≡ some pace → pace.que ≡ old.que
unfolding pace_send
pace_send-que old pace ev e = ground arith

pace_send-alr :
    (old pace : PaceSender) (ev : PacketEvent) → pace_send old ev ≡ some pace → pace.alr ≡ old.alr
unfolding pace_send
pace_send-alr old pace ev e = ground arith

Ends-go_on :
    (loop : Progress → Option Progress) (now_ts : ℤ) (p : Progress) (ev : PacketEvent)
    (sent : Option PaceSender)
    → pace_send p.pace ev ≡ sent
    → IsConsistent p.pace.que
    → ((next : Progress)
        → next.pace.que ≡ pacer_queue_sent p.pace.que ev
        → next.pace.alr ≡ p.pace.alr
        → Ends p.pace.alr (loop next))
    → Ends p.pace.alr (go_on loop p (account now_ts p ev sent))
unfolding go_on account
Ends-go_on loop now_ts p ev none e c rest = (p, refl, c, refl)
Ends-go_on loop now_ts p ev (some pace) e c rest =
    rest _ (ap (λ q. pacer_queue_sent q ev) (pace_send-que p.pace pace ev e))
      (pace_send-alr p.pace pace ev e)

-- On fuel for more turns than packets of the queue are waiting, from a consistent queue, the loop of
-- pace_try_transmit ends; the queue is consistent, and the detector what it was.
pub transmit_lem :
    (n : ℕ) (now_ts : ℤ) (p : Progress)
    → IsConsistent p.pace.que
    → sum waiting p.pace.que.cache < n
    → (done : Progress) × (transmit n now_ts p ≡ some done)
      × IsConsistent done.pace.que
      × (done.pace.alr ≡ p.pace.alr)
unfolding transmit turn
transmit_lem zero now_ts p c h = absurd (omega arith)
transmit_lem (suc n) now_ts p c h = elim (Bool-cases (pacer_queue_empty p.pace.que)) [
  | inl e ↦ rw e (p, refl, c, refl)
  | inr e ↦
      let r = pacer_queue_front-IsNext p.pace.que c e in
      let ev = r.0 in
      rw e (
        rw r.1 (
          Ends-go_on (transmit n now_ts) now_ts p ev (pace_send p.pace ev) refl c (λ next same kept.
            let t =
              transmit_lem n now_ts next
                (subst IsConsistent (sym same)
                  (sent-IsConsistent p.pace.que ev c r.2.there r.2.unsent))
                (omega (
                  arith,
                  ap (λ q. sum waiting q.cache) same,
                  sent-sum p.pace.que ev r.2.there r.2.unsent,
                )) in
            (t.0, t.1, t.2, t.3 ∙ kept))))
]
