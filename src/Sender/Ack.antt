-- ===== src/Sender/Ack.antt =====
-- sim_transport/sim_sender.c: acknowledgements, the packets that go out, and the ageing of the caches.
pub mod Safe
pub mod Forget
pub mod Resend
use lmp.Prelude.{
  ℕ, zero, suc, ◌+◌, ◌-◌, ◌*◌, ◌/◌, ◌%◌, ◌^◌, Bool, true, false, ◌&&◌, ◌||◌, Option, none, some,
  List, [], ◌∷◌, ◌++◌, ltb, leb, ◌==◌, if◌then◌else◌, length, min, max,
}
use lmp.Prelude.Int.{ℤ, pos, negsuc, pos_part, neg_part, ltb_ℤ, ◌+ℤ◌}
use lmp.Proto.{Segment, Fec, SegmentAck, Feedback, Pad, sim_video_size}
use lmp.Message.{Msg}
use lmp.SkipList.{SkipList, search, remove, modify}
use lmp.Sender.{
  Sender, Request, add_packet, on_send, next, sim_segment_header_size, cache_max_delay,
  max_cache_delay,
}
use lmp.Sender.Put.{since}

-- The loop of `sim_sender_update_base`, which reads the packet id through the pointer; a pointer that
-- leads nowhere does not occur.
unfoldable pub if_acked : {A : Type 0} → ℕ → Option Segment → A → A → A
if_acked base none rest stop = stop
if_acked base (some seg) rest stop = if leb seg.packet_id base then rest else stop

unfoldable pub drop_acked : ℕ → SkipList Segment → SkipList ℕ → SkipList ℕ
unfolding if_acked
drop_acked base segs [] = []
drop_acked base segs ((k, id) ∷ acks) =
    let rest = drop_acked base segs acks in if_acked base (search segs id) rest ((k, id) ∷ acks)

-- The loop over the acknowledged packets.
unfoldable pub remove_acked : ℕ → List ℕ → SkipList ℕ → SkipList ℕ
remove_acked base [] acks = acks
remove_acked base (n ∷ ns) acks = remove_acked base ns (remove acks ((base + n) % 2 ^ 32))

-- SU_MIN(200, SU_MAX(30, rtt / 4))
abbrev pub resend_gap : ℕ → ℕ
resend_gap rtt = min 200 (max 30 (rtt / 4))

-- Was it sent too shortly ago, as the code sees it? Is it too old?
unfoldable pub is_recent : ℕ → ℤ → ℤ → Segment → Bool
is_recent rtt now_ts first_ts seg =
    ltb_ℤ now_ts (pos seg.send_ts +ℤ first_ts +ℤ pos (resend_gap rtt))

unfoldable pub is_old : ℤ → ℤ → Segment → Bool
is_old now_ts first_ts seg =
    ltb_ℤ (pos ((seg.timestamp + cache_max_delay) % 2 ^ 32) +ℤ first_ts) now_ts

-- The request for one missing packet, if it is made.
unfoldable pub resend : ℕ → ℤ → ℤ → ℕ → Option Segment → List Request
unfolding is_recent is_old
resend rtt now_ts first_ts id none = []
resend rtt now_ts first_ts id (some seg) =
    if is_recent rtt now_ts first_ts seg || is_old now_ts first_ts seg
    then []
    else if ltb rtt cache_max_delay
    then add_packet id false (length seg.payload + sim_segment_header_size) ∷ []
    else []

-- A missing packet that is still waited for: through the pointer to its segment.
unfoldable pub resend_at : ℕ → ℤ → ℤ → SkipList Segment → Option ℕ → List Request
unfolding resend
resend_at rtt now_ts first_ts segs none = []
resend_at rtt now_ts first_ts segs (some id) = resend rtt now_ts first_ts id (search segs id)

-- The round trip that an acknowledgement shows, cut to 16 bits, if it shows one.
unfoldable pub round_trip : ℤ → ℤ → Option Segment → Option ℕ
round_trip now_ts first_ts none = none
round_trip now_ts first_ts (some seg) =
    let sent = pos ((seg.timestamp + seg.send_ts) % 2 ^ 32) +ℤ first_ts in
    if ltb_ℤ sent now_ts
    then some (since now_ts (pos (seg.timestamp + seg.send_ts) +ℤ first_ts) % 2 ^ 16)
    else none

-- The loops of `sim_sender_evict_cache`: segments of age MAX_CACHE_DELAY, and parity of a third of that.
unfoldable pub evict_segments :
    ℤ → ℤ → SkipList Segment → SkipList ℕ → SkipList Segment × SkipList ℕ
evict_segments now_ts first_ts [] acks = ([], acks)
evict_segments now_ts first_ts ((id, seg) ∷ segs) acks =
    let rest = evict_segments now_ts first_ts segs (remove acks seg.packet_id) in
    if ltb_ℤ now_ts (pos seg.timestamp +ℤ first_ts +ℤ pos max_cache_delay)
    then ((id, seg) ∷ segs, acks)
    else rest

unfoldable pub evict_fecs : ℤ → ℤ → SkipList Fec → SkipList Fec
evict_fecs now_ts first_ts [] = []
evict_fecs now_ts first_ts ((id, fec) ∷ fecs) =
    let rest = evict_fecs now_ts first_ts fecs in
    if ltb_ℤ (pos fec.send_ts +ℤ first_ts +ℤ pos (max_cache_delay / 3)) now_ts
    then rest
    else (id, fec) ∷ fecs

module _ {F : Type 0} where
  -- `sim_sender_update_base`
  unfoldable pub update_base : ℕ → Sender F → Sender F
  unfolding drop_acked
  update_base base s =
      if ltb s.base_packet_id base
      then record s { base_packet_id = base; ack_cache = drop_acked base s.segs_cache s.ack_cache }
      else s

  -- The loop over the missing packets.
  unfoldable pub answer : ℕ → ℤ → ℕ → List ℕ → Sender F → List Request
  unfolding resend_at
  answer rtt now_ts base [] s = []
  answer rtt now_ts base (n ∷ ns) s =
      let key = (base + n) % 2 ^ 32 in
      let found = resend_at rtt now_ts s.first_ts s.segs_cache (search s.ack_cache key) in
      (if leb key s.base_packet_id then [] else found) ++ answer rtt now_ts base ns s

  -- What `sim_sender_ack` does to the caches, and then to `cc`.
  unfoldable pub forget : SegmentAck → Sender F → Sender F
  unfolding update_base remove_acked
  forget a s =
      let based = update_base a.base_packet_id s in
      record based { ack_cache = remove_acked a.base_packet_id a.acked based.ack_cache }

  unfoldable pub answered : ℕ → ℤ → SegmentAck → Sender F → Sender F
  unfolding forget answer
  answered rtt now_ts a s =
      let left = forget a s in
      record left { requests = left.requests ++ answer rtt now_ts a.base_packet_id a.nack left }

  -- `sim_sender_ack`, with the round trip that it hands to `sim_session_calculate_rtt`, if it does. The
  -- segment whose times are taken is looked up by the packet id, in the cache by send ids.
  unfoldable pub ack : ℕ → ℤ → SegmentAck → Sender F → Option (Sender F × Option ℕ)
  unfolding answered round_trip
  ack rtt now_ts a s =
      if ltb s.packet_id_seed a.acked_packet_id || ltb s.packet_id_seed a.base_packet_id
      then none
      else some (
        answered rtt now_ts a s,
        round_trip now_ts s.first_ts (search s.segs_cache a.acked_packet_id),
      )

  -- `sim_sender_evict_cache`
  unfoldable pub evict_cache : ℤ → Sender F → Sender F
  unfolding evict_segments evict_fecs
  evict_cache now_ts s =
      let r : SkipList Segment × SkipList ℕ =
        evict_segments now_ts s.first_ts s.segs_cache s.ack_cache in
      record s {
        segs_cache = r.0;
        ack_cache = r.1;
        fecs_cache = evict_fecs now_ts s.first_ts s.fecs_cache;
      }
