-- ===== src/Pacing/Queue/Sizes.antt =====
-- pacing/pacer_queue.c: the bytes that the queue counts, and the packet that is sent next.
use lmp.Prelude.{
  ℕ, ◌-◌, ◌<◌, ◌≤◌, ◌⊎◌, ◌≡◌, refl, sym, ◌∙◌, ap, Bool, true, false, Option, none, some, List, [],
  ◌∷◌, Bool-cases, inl, inr, arith, if◌then◌else◌, leb,
}
use lmp.SkipList.{SkipList, search, insert, remove, modify}
use lmp.SkipList.Laws.{
  IsSorted, sum, sum-insert, sum-modify, sum-remove, insert-IsSorted, remove-IsSorted,
  modify-IsSorted,
}
use lmp.Prelude.Int.{ℤ}
use lmp.Pacing.Queue.Links.{
  IsLinked, IsLinked-map, IsLinked-append, search-modify, Stops, drop_sent-Stops, sum_found,
}
use lmp.Pacing.Queue.{
  if_sent, PacketEvent, PacerQueue, mark, push_packet, note_time, drop_sent, settle,
  pacer_queue_push, pacer_queue_final, pacer_queue_sent,
}

-- The bytes of a packet that are still to be sent.
abbrev pub unsent_bytes : PacketEvent → ℕ
unsent_bytes packet = if packet.sent then 0 else packet.size

-- One for each packet still to be sent.
abbrev pub waiting : PacketEvent → ℕ
waiting packet = if packet.sent then 0 else 1

-- Sent packets add nothing.
abbrev pub IsSilent : (PacketEvent → ℕ) → Type 0
IsSilent w = (packet : PacketEvent) → packet.sent ≡ true → w packet ≡ 0

unsent_bytes-IsSilent : IsSilent unsent_bytes
unsent_bytes-IsSilent packet t = ap (λ b. if b then 0 else packet.size) t

pub waiting-IsSilent : IsSilent waiting
waiting-IsSilent packet t = ap (λ b. if b then 0 else 1) t

waits : (packet : PacketEvent) → packet.sent ≡ false → waiting packet ≡ 1
waits packet f = ap (λ b. if b then 0 else 1) f

-- Every packet is under its sequence number.
abbrev pub IsKeyed : SkipList PacketEvent → Type 0
IsKeyed [] = Unit
IsKeyed ((k, packet) ∷ nodes) = (packet.seq ≡ k) × IsKeyed nodes

-- The count is the sum over the packets not sent; the cache is in order and under its keys; the list
-- points to its packets; a cache that is not empty has a packet to send.
pub record IsConsistent (que : PacerQueue) : Type 0 where
  pub balanced : que.total_size ≡ sum unsent_bytes que.cache
  pub sorted : IsSorted que.cache
  pub keyed : IsKeyed que.cache
  pub linked : IsLinked que.cache que.l
  pub live : (que.cache ≡ []) ⊎ (0 < sum waiting que.cache)

insert-IsKeyed :
    (cache : SkipList PacketEvent) (key : ℕ) (packet : PacketEvent)
    → packet.seq ≡ key
    → IsKeyed cache
    → IsKeyed (insert cache key packet)
unfolding insert
insert-IsKeyed [] key packet e h = (e, tt)
insert-IsKeyed ((k, p) ∷ nodes) key packet e (h, hs) =
    ground (arith, insert-IsKeyed nodes key packet e hs)

remove-IsKeyed :
    (cache : SkipList PacketEvent) (key : ℕ) → IsKeyed cache → IsKeyed (remove cache key)
unfolding remove
remove-IsKeyed [] key h = tt
remove-IsKeyed ((k, p) ∷ nodes) key (h, hs) = ground (arith, remove-IsKeyed nodes key hs)

modify-IsKeyed :
    (cache : SkipList PacketEvent) (key : ℕ) (sent : Bool)
    → IsKeyed cache
    → IsKeyed (modify cache key (mark sent))
unfolding modify
modify-IsKeyed [] key sent h = tt
modify-IsKeyed ((k, p) ∷ nodes) key sent (h, hs) = ground (arith, modify-IsKeyed nodes key sent hs)

time_IsConsistent :
    (test : Bool) (ts : ℤ) (que : PacerQueue)
    → IsConsistent que
    → IsConsistent (if test then record que { oldest_ts = ts } else que)
time_IsConsistent true ts que c = record {
  balanced = c.balanced;
  sorted = c.sorted;
  keyed = c.keyed;
  linked = c.linked;
  live = c.live;
}
time_IsConsistent false ts que c = c

again_IsConsistent :
    (que : PacerQueue) (ev packet : PacketEvent)
    → IsConsistent que
    → search que.cache ev.seq ≡ some packet
    → IsConsistent (push_packet que ev (some packet)).0
unfolding push_packet
again_IsConsistent que ev packet c e = elim (Bool-cases packet.sent) [
  | inl s ↦ rw s (record {
    balanced = omega (
      arith,
      c.balanced,
      sum-modify unsent_bytes que.cache ev.seq (mark false) packet e,
      unsent_bytes-IsSilent packet s,
    );
    sorted = modify-IsSorted que.cache ev.seq (mark false) c.sorted;
    keyed = modify-IsKeyed que.cache ev.seq false c.keyed;
    linked = IsLinked-map que.cache _ que.l (search-modify que.cache ev.seq (mark false)) c.linked;
    live = inr (
        omega (
          arith,
          sum-modify waiting que.cache ev.seq (mark false) packet e,
          waiting-IsSilent packet s,
        ));
  })
  | inr s ↦ rw s c
]

push_packet-IsConsistent :
    (que : PacerQueue) (ev : PacketEvent) (found : Option PacketEvent)
    → IsConsistent que
    → search que.cache ev.seq ≡ found
    → IsConsistent (push_packet que ev found).0
unfolding push_packet
push_packet-IsConsistent que ev none c e = record {
  balanced = omega (arith, c.balanced, sum-insert unsent_bytes que.cache ev.seq (mark false ev) e);
  sorted = insert-IsSorted que.cache ev.seq (mark false ev) c.sorted;
  keyed = insert-IsKeyed que.cache ev.seq (mark false ev) refl c.keyed;
  linked = IsLinked-append que.cache ev.seq (mark false ev) que.l c.sorted e c.linked;
  live = inr (omega (arith, sum-insert waiting que.cache ev.seq (mark false ev) e));
}
push_packet-IsConsistent que ev (some packet) c e = again_IsConsistent que ev packet c e

pub push-IsConsistent :
    (que : PacerQueue) (ev : PacketEvent)
    → IsConsistent que
    → IsConsistent (pacer_queue_push que ev).0
unfolding pacer_queue_push note_time
push-IsConsistent que ev c =
    time_IsConsistent _ ev.que_ts _
      (push_packet-IsConsistent que ev (search que.cache ev.seq) c refl)

-- Dropping sent packets from the head of the list leaves the order, the keys, and any sum to which
-- sent packets add nothing.
module _ (w : PacketEvent → ℕ) (silent : IsSilent w) where
  if_sent-sum :
      (cache : SkipList PacketEvent) (key : ℕ) (l : List ℕ) (rest : SkipList PacketEvent × List ℕ)
      (found : Option PacketEvent)
      → search cache key ≡ found
      → sum w rest.0 ≡ sum w (remove cache key)
      → sum w (if_sent found rest (cache, key ∷ l)).0 ≡ sum w cache
  unfolding if_sent
  if_sent-sum cache key l rest none e h = refl
  if_sent-sum cache key l rest (some packet) e p = elim (Bool-cases packet.sent) [
    | inl t ↦ rw t (omega (arith, p, sum-remove w cache key packet e, silent packet t))
    | inr t ↦ rw t refl
  ]

  pub drop_sent-sum :
      (cache : SkipList PacketEvent) (l : List ℕ) → sum w (drop_sent cache l).0 ≡ sum w cache
  unfolding drop_sent
  drop_sent-sum cache [] = refl
  drop_sent-sum cache (key ∷ l) =
      if_sent-sum cache key l (drop_sent (remove cache key) l) (search cache key) refl
        (drop_sent-sum (remove cache key) l)

abbrev IsOrdered : SkipList PacketEvent → Type 0
IsOrdered cache = IsSorted cache × IsKeyed cache

if_sent-IsOrdered :
    (cache : SkipList PacketEvent) (key : ℕ) (l : List ℕ) (rest : SkipList PacketEvent × List ℕ)
    (found : Option PacketEvent)
    → IsOrdered cache
    → IsOrdered rest.0
    → IsOrdered (if_sent found rest (cache, key ∷ l)).0
unfolding if_sent
if_sent-IsOrdered cache key l rest none o r = o
if_sent-IsOrdered cache key l rest (some packet) o r = elim (Bool-cases packet.sent) [
  | inl t ↦ rw t r
  | inr t ↦ rw t o
]

drop_sent-IsOrdered :
    (cache : SkipList PacketEvent) (l : List ℕ) → IsOrdered cache → IsOrdered (drop_sent cache l).0
unfolding drop_sent
drop_sent-IsOrdered cache [] o = o
drop_sent-IsOrdered cache (key ∷ l) (s, k) =
    if_sent-IsOrdered cache key l (drop_sent (remove cache key) l) (search cache key) (s, k)
      (drop_sent-IsOrdered (remove cache key) l
        (remove-IsSorted cache key s, remove-IsKeyed cache key k))

settle-IsConsistent :
    (que : PacerQueue) (cache : SkipList PacketEvent) (l : List ℕ)
    → que.total_size ≡ sum unsent_bytes cache
    → IsOrdered cache
    → IsLinked cache l × Stops cache l
    → IsConsistent (settle que cache l)
unfolding settle sum
settle-IsConsistent que cache [] b o h = record {
  balanced = refl;
  sorted = tt;
  keyed = tt;
  linked = tt;
  live = inl refl;
}
settle-IsConsistent que cache (key ∷ l) b (s, k) (h, (packet, e, t)) = record {
  balanced = b;
  sorted = s;
  keyed = k;
  linked = h;
  live = inr (omega (arith, sum_found waiting cache key packet e, waits packet t));
}

pub final-IsConsistent :
    (que : PacerQueue)
    → que.total_size ≡ sum unsent_bytes que.cache
    → IsSorted que.cache
    → IsKeyed que.cache
    → IsLinked que.cache que.l
    → IsConsistent (pacer_queue_final que)
unfolding pacer_queue_final
final-IsConsistent que b s k h =
    settle-IsConsistent que _ _
      (b ∙ sym (drop_sent-sum unsent_bytes unsent_bytes-IsSilent que.cache que.l))
      (drop_sent-IsOrdered que.cache que.l (s, k)) (drop_sent-Stops que.cache que.l s h)

-- A packet of the queue that was not sent is counted out when it is.
pub sent-IsConsistent :
    (que : PacerQueue) (ev : PacketEvent)
    → IsConsistent que
    → search que.cache ev.seq ≡ some ev
    → ev.sent ≡ false
    → IsConsistent (pacer_queue_sent que ev)
unfolding pacer_queue_sent
sent-IsConsistent que ev c e s =
    let marked = sum-modify unsent_bytes que.cache ev.seq (mark true) ev e in
    let weight : unsent_bytes ev ≡ ev.size = ap (λ b. if b then 0 else ev.size) s in
    let left = if leb ev.size que.total_size then que.total_size - ev.size else 0 in
    final-IsConsistent
      (record que { cache = modify que.cache ev.seq (mark true); total_size = left })
      (ground (arith, marked, weight, c.balanced))
      (modify-IsSorted que.cache ev.seq (mark true) c.sorted)
      (modify-IsKeyed que.cache ev.seq true c.keyed)
      (IsLinked-map que.cache _ que.l (search-modify que.cache ev.seq (mark true)) c.linked)

settle-sum :
    (que : PacerQueue) (cache : SkipList PacketEvent) (l : List ℕ)
    → sum waiting (settle que cache l).cache ≤ sum waiting cache
unfolding settle sum
settle-sum que cache [] = omega arith
settle-sum que cache (key ∷ l) = omega arith

-- Sending leaves fewer packets to send.
pub sent-sum :
    (que : PacerQueue) (ev : PacketEvent)
    → search que.cache ev.seq ≡ some ev
    → ev.sent ≡ false
    → sum waiting (pacer_queue_sent que ev).cache < sum waiting que.cache
unfolding pacer_queue_sent pacer_queue_final
sent-sum que ev e s =
    let marked = modify que.cache ev.seq (mark true) in
    let left = if leb ev.size que.total_size then que.total_size - ev.size else 0 in
    let r = drop_sent marked que.l in
    omega (
      arith,
      settle-sum (record que { cache = marked; total_size = left }) r.0 r.1,
      drop_sent-sum waiting waiting-IsSilent marked que.l,
      sum-modify waiting que.cache ev.seq (mark true) ev e,
      waits ev s,
    )
