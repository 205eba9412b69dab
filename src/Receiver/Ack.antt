-- ===== src/Receiver/Ack.antt =====
-- sim_transport/sim_receiver.c: `video_real_ack`, which acknowledges and asks for what is missing.
use lmp.Prelude.{
  Option, none, some, ℕ, zero, suc, ◌+◌, ◌-◌, ◌*◌, ◌/◌, ◌%◌, ◌^◌, Bool, true, false, not, ◌&&◌,
  ◌||◌, List, [], ◌∷◌, ◌++◌, ltb, leb, ◌==◌, if◌then◌else◌, length, take, min, max,
}
use lmp.Prelude.Int.{ℤ, pos, negsuc, ◌+ℤ◌}
use lmp.Proto.{SegmentAck, nack_num, ack_num}
use lmp.Message.{sim_seg_ack}
use lmp.SkipList.{SkipList, remove, size}
use lmp.FrameCache.{FrameCache}
use lmp.FrameCache.Play.{min_evict_delay_ms, Got, nothing, cache_get}
use lmp.Sender.{cache_max_delay}
use lmp.Receiver.{Loss, Receiver, send_fir}

-- The losses from `key` on are dropped, `n` of them.
unfoldable pub drop_from : ℕ → ℕ → SkipList Loss → SkipList Loss
drop_from zero key loss = loss
drop_from (suc n) key loss = drop_from n (key + 1) (remove loss key)

abbrev pub base_of : Receiver → SkipList Loss → ℕ
base_of r [] = r.max_seq
base_of r ((key, val) ∷ loss) = if ltb 0 key then key - 1 else r.base_seq

-- `video_real_update_base`
unfoldable pub update_base : Receiver → Receiver
unfolding drop_from
update_base r =
    let loss = drop_from (r.cache.min_seq - r.base_seq) (r.base_seq + 1) r.loss in
    record r { loss = loss; base_seq = base_of r loss }

-- A time that was computed with a sign, against the clock, which has none: a time before 0 counts as
-- late.
abbrev pub is_past : ℤ → ℕ → Bool
is_past (pos ts) cur_ts = leb ts cur_ts
is_past (negsuc ts) cur_ts = false

-- What the loop over the losses gathers: the losses, the `nack` list from its end, the number of losses
-- that were asked for, and the largest count.
pub record Asked : Type 0 where
  pub loss : SkipList Loss
  pub nack : List ℕ
  pub max_count : ℕ

-- `space_factor` of a loss.
abbrev pub space_factor : ℕ → ℕ → Loss → ℕ
space_factor rtt rtt_var l = max 10 (rtt + rtt_var) + l.count * min 100 (max 10 rtt_var)

-- Is a loss given up?
abbrev pub is_given_up : ℕ → Loss → Bool
is_given_up cur_ts l = leb 15 l.count || ltb (l.loss_ts + min_evict_delay_ms / 2) cur_ts

-- Is a loss asked for, when `asked` are already?
abbrev pub is_asked : ℕ → ℕ → ℕ → ℕ → Loss → Bool
is_asked rtt rtt_var cur_ts asked l =
    not (is_given_up cur_ts l)
    && (is_past (l.ts +ℤ pos (space_factor rtt rtt_var l)) cur_ts && ltb asked nack_num)

-- The loop over the losses; `asked` are asked for before, and `max_count` is the largest count before.
unfoldable pub ask : ℕ → ℕ → ℕ → ℕ → ℕ → ℕ → SkipList Loss → Asked
ask rtt rtt_var cur_ts base asked max_count [] = record {
  loss = [];
  nack = [];
  max_count = max_count;
}
ask rtt rtt_var cur_ts base asked max_count ((key, l) ∷ loss) =
    let skip = ask rtt rtt_var cur_ts base asked max_count loss in
    let kept = ask rtt rtt_var cur_ts base asked (max max_count l.count) loss in
    let more = ask rtt rtt_var cur_ts base (asked + 1) (max max_count (l.count + 1)) loss in
    if leb key base
    then record skip { loss = (key, l) ∷ skip.loss }
    else if is_asked rtt rtt_var cur_ts asked l
    then record more {
      loss = (key, record l { ts = pos cur_ts; count = l.count + 1 }) ∷ more.loss;
      nack = (key - base) % 2 ^ 16 ∷ more.nack;
    }
    else record kept { loss = (key, l) ∷ kept.loss }

-- The packets that are acknowledged, of those that came last.
unfoldable pub acked_of : ℕ → List ℕ → List ℕ
acked_of base [] = []
acked_of base (id ∷ ids) =
    let rest = acked_of base ids in if ltb base id then (id - base) % 2 ^ 16 ∷ rest else rest

-- `sim_receiver_send_ack`
unfoldable pub send_ack : ℕ → List ℕ → Receiver → Receiver
unfolding acked_of
send_ack seq nack r =
    let acked =
      if ltb r.base_seq r.max_seq
      then acked_of r.base_seq (take (min ack_num r.acked_count) r.ackeds)
      else [] in
    let body : SegmentAck = record {
      base_packet_id = r.base_seq;
      acked_packet_id = seq;
      nack = nack;
      acked = acked;
    } in
    record r { acked_count = 0; out = r.out ++ sim_seg_ack body ∷ [] }

-- `delay`, for the time that the cache waits.
abbrev pub delay_of : ℕ → ℕ → ℕ → ℕ
delay_of rtt rtt_var max_count =
    if leb 1 max_count then (max_count + 7) * (rtt + rtt_var) / 8 else max 80 ((rtt + rtt_var) / 4)

-- `wait_timer` after `delay`.
abbrev pub wait_for : ℕ → Receiver → Receiver
wait_for delay r =
    let c = r.cache in
    record r {
      cache = record c { wait_timer = max c.frame_timer ((c.wait_timer * 7 + delay) / 8) };
    }

-- What `video_real_ack` does when it is time.
unfoldable pub ack_now : ℕ → ℕ → ℕ → ℕ → Receiver → Receiver
unfolding update_base ask send_ack send_fir
ack_now rtt rtt_var cur_ts seq r =
    let based = update_base r in
    let asked = ask rtt rtt_var cur_ts based.base_seq 0 0 based.loss in
    let counted = record based {
      loss = asked.loss;
      loss_count = based.loss_count + length asked.nack;
    } in
    let late = leb cache_max_delay rtt && ltb 0 (length asked.nack) in
    wait_for (delay_of rtt rtt_var asked.max_count)
      (record (if late
        then send_ack seq [] (send_fir cur_ts (record counted { loss = [] }))
        else send_ack seq asked.nack counted) { ack_ts = cur_ts })

-- `video_real_ack`
unfoldable pub real_ack : ℕ → ℕ → ℕ → Bool → ℕ → Receiver → Receiver
unfolding ack_now
real_ack rtt rtt_var cur_ts hb seq r =
    if (not hb && ltb (r.ack_ts + 20) cur_ts) || ltb (r.ack_ts + 200) cur_ts
    then ack_now rtt rtt_var cur_ts seq r
    else r

-- `wait_timer` once a second, or a round trip: shorter when nothing was lost.
abbrev pub relax : ℕ → ℕ → Receiver → ℕ
relax rtt rtt_var r =
    let wait = r.cache.wait_timer in
    if r.loss_count == 0
    then max (wait * 7 / 8) ((rtt + rtt_var) / 2)
    else if ltb (2 * (rtt + rtt_var)) wait
    then max (wait * 15 / 16) (rtt + rtt_var)
    else wait

-- `sim_receiver_timer`, up to the calls of `cc` and `recover`.
unfoldable pub timer : ℕ → ℕ → ℕ → Receiver → Receiver
unfolding real_ack
timer rtt rtt_var now_ts r =
    let t = real_ack rtt rtt_var now_ts true 0 r in
    if ltb (t.cache_ts + max (rtt + rtt_var) 500) now_ts
    then record t {
      cache = record t.cache { wait_timer = relax rtt rtt_var t };
      cache_ts = now_ts;
      loss_count = 0;
    }
    else t

abbrev with_cache : Receiver → Option (FrameCache × Got) → Option (Receiver × Got)
with_cache r none = none
with_cache r (some (c, got)) = some (record r { cache = c }, got)

-- `sim_receiver_get`, where there is a receiver.
unfoldable pub get : (ℕ → ℕ → ℕ) → ℕ → ℕ → Receiver → Option (Receiver × Got)
get scale now_ts buffer_size r =
    if r.is_active
    then with_cache r (cache_get scale now_ts (size r.loss) buffer_size r.cache)
    else some (r, nothing)
