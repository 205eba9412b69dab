-- ===== src/Pacing/Queue/Next.antt =====
-- pacing/pacer_queue.c: the states that a queue reaches, and the packet that is sent next.
use lmp.Prelude.{
  ℕ, ◌<◌, ◌≡◌, refl, sym, ◌∙◌, ap, true, false, Option, none, some, [], ◌∷◌, Bool-cases, inl, inr,
  arith, if◌then◌else◌, ◌==◌,
}
use mathlib.Core.Path.{subst}
use lmp.SkipList.{SkipList, search, size}
use lmp.SkipList.Laws.{IsSorted, Above, sum, search-Above}
use lmp.Pacing.Queue.{
  PacketEvent, PacerQueue, front_loop, pacer_queue_init, pacer_queue_push, pacer_queue_front,
  pacer_queue_sent, pacer_queue_empty,
}
use lmp.Pacing.Queue.Sizes.{
  IsConsistent, IsKeyed, IsSilent, waiting, waiting-IsSilent, push-IsConsistent, sent-IsConsistent,
}

-- The packet is in the cache and not sent, and every packet with a smaller sequence number is sent.
pub record IsNext (cache : SkipList PacketEvent) (packet : PacketEvent) : Type 0 where
  pub there : search cache packet.seq ≡ some packet
  pub unsent : packet.sent ≡ false
  pub least :
      (k : ℕ) (other : PacketEvent)
      → k < packet.seq
      → search cache k ≡ some other
      → other.sent ≡ true

first-IsNext :
    (p : PacketEvent) (key : ℕ) (nodes : SkipList PacketEvent)
    → p.seq ≡ key
    → p.sent ≡ false
    → IsNext ((key, p) ∷ nodes) p
unfolding search
first-IsNext p key nodes k t = record {
  there = ground arith;
  unsent = t;
  least = λ j other h e. ground arith;
}

later-IsNext :
    (p next : PacketEvent) (key : ℕ) (nodes : SkipList PacketEvent)
    → Above key nodes
    → p.sent ≡ true
    → IsNext nodes next
    → IsNext ((key, p) ∷ nodes) next
unfolding search
later-IsNext p next key nodes a t n =
    let absent = search-Above key next.seq nodes a in
    record {
      there = ground (arith, absent, n.there);
      unsent = n.unsent;
      least = λ j other h e. ground (arith, t, n.least j other h);
    }

-- The loop finds the next packet where there is one to be sent.
front_loop-IsNext :
    (w : PacketEvent → ℕ) (silent : IsSilent w) (ret : Option PacketEvent)
    (cache : SkipList PacketEvent)
    → IsSorted cache
    → IsKeyed cache
    → 0 < sum w cache
    → (packet : PacketEvent) × (front_loop ret cache ≡ some packet) × IsNext cache packet
unfolding front_loop sum
front_loop-IsNext w silent ret [] s k h = absurd (omega arith)
front_loop-IsNext w silent ret ((key, p) ∷ nodes) (a, s) (k, ks) h = elim (Bool-cases p.sent) [
  | inl t ↦
      let weight = silent p t in
      let r = front_loop-IsNext w silent (some p) nodes s ks (omega arith) in
      (
        r.0,
        ap (λ b. if b then front_loop (some p) nodes else some p) t ∙ r.1,
        later-IsNext p r.0 key nodes a t r.2,
      )
  | inr t ↦
      (p, ap (λ b. if b then front_loop (some p) nodes else some p) t, first-IsNext p key nodes k t)
]

-- A consistent queue that is not empty: pacer_queue_front gives a packet of the cache that is not
-- sent, and every packet with a smaller sequence number is sent.
pub pacer_queue_front-IsNext :
    (que : PacerQueue)
    → IsConsistent que
    → pacer_queue_empty que ≡ false
    → (packet : PacketEvent) × (pacer_queue_front que ≡ some packet) × IsNext que.cache packet
unfolding pacer_queue_front
pacer_queue_front-IsNext que c h = elim c.live [
  | inl e ↦ absurd (ground (arith, h, ap (λ c. size c == 0) e))
  | inr l ↦ front_loop-IsNext waiting waiting-IsSilent none que.cache c.sorted c.keyed l
]

-- What the pacer does with a queue: packets are put in, in any order and again, and the packet that
-- is next is sent.
pub data Reached (que_ms : ℕ) : PacerQueue → Type 0 where
  made : Reached que_ms (pacer_queue_init que_ms)
  pushed :
      (que : PacerQueue) (ev : PacketEvent)
      → Reached que_ms que
      → Reached que_ms (pacer_queue_push que ev).0
  sent_next :
      (que : PacerQueue) (ev : PacketEvent)
      → Reached que_ms que
      → pacer_queue_empty que ≡ false
      → pacer_queue_front que ≡ some ev
      → Reached que_ms (pacer_queue_sent que ev)

next-IsConsistent :
    (que : PacerQueue) (ev : PacketEvent)
    → IsConsistent que
    → pacer_queue_empty que ≡ false
    → pacer_queue_front que ≡ some ev
    → IsConsistent (pacer_queue_sent que ev)
next-IsConsistent que ev c h e =
    let r = pacer_queue_front-IsNext que c h in
    let same : ev ≡ r.0 = cc (e, r.1) in
    subst (λ p. IsConsistent (pacer_queue_sent que p)) (sym same)
      (sent-IsConsistent que r.0 c r.2.there r.2.unsent)

-- In every state that a queue reaches, the bytes it counts are the sizes of the packets in it that
-- are not sent, added up; its packets are in order, each under its sequence number; its list points
-- to packets in it, no two pointers to one; and unless it is empty it has a packet to send.
pub Reached-IsConsistent : (que_ms : ℕ) (que : PacerQueue) → Reached que_ms que → IsConsistent que
unfolding pacer_queue_init sum
Reached-IsConsistent que_ms _ made = record {
  balanced = refl;
  sorted = tt;
  keyed = tt;
  linked = tt;
  live = inl refl;
}
Reached-IsConsistent que_ms _ (pushed que ev r) =
    push-IsConsistent que ev (Reached-IsConsistent que_ms que r)
Reached-IsConsistent que_ms _ (sent_next que ev r h e) =
    next-IsConsistent que ev (Reached-IsConsistent que_ms que r) h e

-- In every state that a queue reaches and that is not empty, pacer_queue_front gives a packet of the
-- cache that is not sent, and every packet with a smaller sequence number is sent.
pub pacer_queue_front-Reached :
    (que_ms : ℕ) (que : PacerQueue)
    → Reached que_ms que
    → pacer_queue_empty que ≡ false
    → (packet : PacketEvent) × (pacer_queue_front que ≡ some packet) × IsNext que.cache packet
pacer_queue_front-Reached que_ms que r h =
    pacer_queue_front-IsNext que (Reached-IsConsistent que_ms que r) h
