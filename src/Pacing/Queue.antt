-- ===== src/Pacing/Queue.antt =====
-- pacing/pacer_queue.c: the packets that wait to be sent, by sequence number in a skip list and by
-- age in a list (common/cf_list.c). The list points to the packets that the skip list owns; it
-- is modelled by their keys.
pub mod Sizes
pub mod Next
pub mod Links
use lmp.Prelude.{
  ℕ, ◌+◌, ◌-◌, ◌*◌, ◌/◌, ◌%◌, ◌^◌, Bool, true, false, not, ◌&&◌, ◌||◌, Option, none, some, List, [],
  ◌∷◌, ◌++◌, ltb, leb, ◌==◌, if◌then◌else◌, max,
}
use lmp.Prelude.Int.{ℤ, pos, negsuc, ltb_ℤ, ◌-ℤ◌, pos_part, neg_part}
use lmp.SkipList.{SkipList, search, insert, remove, modify, clear, size}

-- `packet_event_t`; `sent` is 0 or 1.
pub record PacketEvent : Type 0 where
  pub seq : ℕ
  pub retrans : ℕ
  pub size : ℕ
  pub que_ts : ℤ
  pub sent : Bool

-- `pacer_queue_t`
pub record PacerQueue : Type 0 where
  pub max_que_ms : ℕ
  pub total_size : ℕ
  pub oldest_ts : ℤ
  pub cache : SkipList PacketEvent
  pub l : List ℕ

abbrev pub k_max_pace_queue_ms : ℕ
k_max_pace_queue_ms = 250

-- `pacer_queue_init`
unfoldable pub pacer_queue_init : ℕ → PacerQueue
pacer_queue_init que_ms = record {
  max_que_ms = if ltb k_max_pace_queue_ms que_ms then que_ms else k_max_pace_queue_ms;
  total_size = 0;
  oldest_ts = negsuc 0;
  cache = [];
  l = [];
}

-- The test `oldest_ts == -1`.
abbrev pub is_unset : ℤ → Bool
is_unset (pos n) = false
is_unset (negsuc n) = n == 0

-- `sent = 1` and `sent = 0` at the packet that a pointer leads to.
abbrev pub mark : Bool → PacketEvent → PacketEvent
mark sent packet = record packet { sent = sent }

-- The end of `pacer_queue_push`: the time of the oldest packet.
unfoldable pub note_time : ℤ → PacerQueue → PacerQueue
note_time que_ts que =
    if is_unset que.oldest_ts || ltb_ℤ que_ts que.oldest_ts
    then record que { oldest_ts = que_ts }
    else que

-- The two branches of `pacer_queue_push`, with the value it returns: is it 0?
unfoldable pub push_packet : PacerQueue → PacketEvent → Option PacketEvent → PacerQueue × Bool
push_packet que ev none = (
  record que {
    cache = insert que.cache ev.seq (mark false ev);
    l = que.l ++ ev.seq ∷ [];
    total_size = que.total_size + ev.size;
  },
  true,
)
push_packet que ev (some packet) =
    if packet.sent
    then (
      record que {
        cache = modify que.cache ev.seq (mark false);
        total_size = que.total_size + packet.size;
      },
      true,
    )
    else (que, false)

-- `pacer_queue_push`
unfoldable pub pacer_queue_push : PacerQueue → PacketEvent → PacerQueue × Bool
unfolding push_packet note_time
pacer_queue_push que ev =
    let r : PacerQueue × Bool = push_packet que ev (search que.cache ev.seq) in
    (note_time ev.que_ts r.0, r.1)

-- The loop of `pacer_queue_front`: the first packet that is not sent, or else the last one.
unfoldable pub front_loop : Option PacketEvent → SkipList PacketEvent → Option PacketEvent
front_loop ret [] = ret
front_loop ret ((k, packet) ∷ nodes) =
    let rest = front_loop (some packet) nodes in if packet.sent then rest else some packet

-- `pacer_queue_front`
unfoldable pub pacer_queue_front : PacerQueue → Option PacketEvent
unfolding front_loop
pacer_queue_front que = front_loop none que.cache

-- What the loop of `pacer_queue_final` does at the packet a pointer leads to; a pointer to no packet
-- does not occur.
unfoldable pub if_sent : {A : Type 0} → Option PacketEvent → A → A → A
if_sent none rest stop = stop
if_sent (some packet) rest stop = if packet.sent then rest else stop

-- The loop of `pacer_queue_final`, over the cache and the list.
unfoldable pub drop_sent : SkipList PacketEvent → List ℕ → SkipList PacketEvent × List ℕ
unfolding if_sent
drop_sent cache [] = (cache, [])
drop_sent cache (key ∷ l) =
    let rest = drop_sent (remove cache key) l in if_sent (search cache key) rest (cache, key ∷ l)

-- `oldest_ts` from the packet at the front of the list.
unfoldable pub time_of : ℤ → Option PacketEvent → ℤ
time_of old none = old
time_of old (some packet) = packet.que_ts

-- What `pacer_queue_final` does after the loop.
unfoldable pub settle : PacerQueue → SkipList PacketEvent → List ℕ → PacerQueue
unfolding time_of
settle que cache [] = record que {
  cache = clear cache;
  l = [];
  total_size = 0;
  oldest_ts = negsuc 0;
}
settle que cache (key ∷ l) = record que {
  cache = cache;
  l = key ∷ l;
  oldest_ts = time_of que.oldest_ts (search cache key);
}

-- `pacer_queue_final`
unfoldable pub pacer_queue_final : PacerQueue → PacerQueue
unfolding drop_sent settle
pacer_queue_final que =
    let r : SkipList PacketEvent × List ℕ = drop_sent que.cache que.l in settle que r.0 r.1

-- `pacer_queue_sent`, at the packet of the cache with the key of `ev`; ℕ stops at 0 as the code does.
unfoldable pub pacer_queue_sent : PacerQueue → PacketEvent → PacerQueue
unfolding pacer_queue_final
pacer_queue_sent que ev =
    let left = if leb ev.size que.total_size then que.total_size - ev.size else 0 in
    pacer_queue_final
      (record que { cache = modify que.cache ev.seq (mark true); total_size = left })

-- `pacer_queue_sent_by_id`
unfoldable pub sent_found : PacerQueue → Option PacketEvent → PacerQueue
unfolding pacer_queue_sent
sent_found que none = que
sent_found que (some packet) = pacer_queue_sent que packet

unfoldable pub pacer_queue_sent_by_id : PacerQueue → ℕ → PacerQueue
unfolding sent_found
pacer_queue_sent_by_id que id = sent_found que (search que.cache id)

-- `pacer_queue_empty`: does it return 0?
abbrev pub pacer_queue_empty : PacerQueue → Bool
pacer_queue_empty que = size que.cache == 0

-- `pacer_queue_bytes`
abbrev pub pacer_queue_bytes : PacerQueue → ℕ
pacer_queue_bytes que = que.total_size

-- `pacer_queue_oldest`, at the system time `now_ms`.
unfoldable pub pacer_queue_oldest : PacerQueue → ℤ → ℤ
pacer_queue_oldest que now_ms = if is_unset que.oldest_ts then now_ms else que.oldest_ts

-- `pacer_queue_target_bitrate_kbps`; the result is cut to 32 bits.
unfoldable pub pacer_queue_target_bitrate_kbps : PacerQueue → ℤ → ℕ
unfolding ◌-ℤ◌
pacer_queue_target_bitrate_kbps que now_ts =
    let waited = pos_part (now_ts -ℤ que.oldest_ts) % 2 ^ 32 in
    let space =
      if not (is_unset que.oldest_ts) && ltb_ℤ que.oldest_ts now_ts
      then (if leb que.max_que_ms waited then 500 else que.max_que_ms - waited)
      else que.max_que_ms - 1 in
    if ltb 0 (size que.cache) && ltb 0 que.total_size
    then que.total_size * 8 / space % 2 ^ 32
    else 0
