-- ===== src/Sender/Send.antt =====
-- sim_transport/sim_sender.c: `sim_send_packet`, by which the pacer sends what it holds, and the timer.
use lmp.Prelude.{
  ℕ, ◌+◌, ◌*◌, ◌/◌, ◌%◌, ◌^◌, Bool, Option, none, some, List, [], ◌∷◌, ◌++◌, ltb, ◌==◌,
  if◌then◌else◌, length, take, min,
}
use lmp.Prelude.Int.{ℤ, pos, ◌+ℤ◌}
use lmp.Proto.{Segment, Fec, Feedback, sim_video_size}
use lmp.Message.{Msg, sim_seg, sim_pad, sim_fec}
use lmp.SkipList.{search, modify}
use lmp.Sender.{Sender, on_send, next, sim_segment_header_size}
use lmp.Sender.Put.{since}
use lmp.Sender.Ack.{update_base, evict_cache}

-- The stamps of a segment and of a parity packet that go out.
unfoldable pub stamp_segment : ℤ → ℤ → ℕ → Segment → Segment
stamp_segment now_ts first_ts seq seg = record seg {
  transport_seq = seq;
  send_ts = since now_ts (first_ts +ℤ pos seg.timestamp) % 2 ^ 16;
}

unfoldable pub stamp_fec : ℤ → ℤ → ℕ → Fec → Fec
stamp_fec now_ts first_ts seq fec = record fec {
  transport_seq = seq;
  send_ts = since now_ts first_ts;
}

-- What a packet costs: the sequence number is taken, and `cc->on_send` is called with it on 16 bits.
unfoldable pub numbered : {F : Type 0} → ℕ → Sender F → Sender F
numbered size s = record s {
  transport_seq_seed = next s.transport_seq_seed;
  requests = s.requests ++ on_send (s.transport_seq_seed % 2 ^ 16) size ∷ [];
}

-- The packet that goes out is the one cached, with its stamps.
unfoldable pub send_segment :
    {F : Type 0} → ℤ → ℕ → Option Segment → Sender F → Sender F × Option Msg
unfolding numbered stamp_segment
send_segment now_ts send_id none s = (s, none)
send_segment now_ts send_id (some seg) s =
    let stamp = stamp_segment now_ts s.first_ts (s.transport_seq_seed % 2 ^ 16) in
    (
      record (numbered (length seg.payload + sim_segment_header_size) s) {
        segs_cache = modify s.segs_cache send_id stamp;
      },
      some (sim_seg (stamp seg)),
    )

unfoldable pub send_fec : {F : Type 0} → ℤ → ℕ → Option Fec → Sender F → Sender F × Option Msg
unfolding numbered stamp_fec
send_fec now_ts send_id none s = (s, none)
send_fec now_ts send_id (some fec) s =
    let stamp = stamp_fec now_ts s.first_ts (s.transport_seq_seed % 2 ^ 16) in
    (
      record (numbered (length fec.fec_data + sim_segment_header_size) s) {
        fecs_cache = modify s.fecs_cache send_id stamp;
      },
      some (sim_fec (stamp fec)),
    )

-- Padding has the bytes that the stack holds.
unfoldable pub send_padding : {F : Type 0} → ℤ → ℕ → List ℕ → Sender F → Sender F × Option Msg
unfolding numbered
send_padding now_ts size stack s = (
  numbered (min size sim_video_size + sim_segment_header_size) s,
  some (
      sim_pad (record {
        send_ts = since now_ts s.first_ts;
        transport_seq = s.transport_seq_seed % 2 ^ 16;
        padding = take (min size sim_video_size) stack;
      })),
)

-- `sim_send_packet`: the sender, the message that is sent, and the loss fraction of the session.
unfoldable pub send_packet :
    {F : Type 0} → ℤ → ℕ → Bool → ℕ → Bool → List ℕ → ℕ → Sender F → (Sender F × Option Msg) × ℕ
unfolding send_segment send_fec send_padding
send_packet now_ts send_id fec size padding stack loss_fraction s =
    if padding
    then (send_padding now_ts size stack s, (if loss_fraction == 0 then 1 else loss_fraction))
    else if fec
    then (send_fec now_ts send_id (search s.fecs_cache send_id) s, loss_fraction)
    else (send_segment now_ts send_id (search s.segs_cache send_id) s, loss_fraction)

-- `sim_sender_feedback`, with the bytes for `cc->on_feedback`.
unfoldable pub feedback : {F : Type 0} → Feedback → Sender F → Sender F × List ℕ
unfolding update_base
feedback body s = (update_base body.base_packet_id s, body.feedback)

-- `sim_sender_timer`, after `cc->heartbeat`.
unfoldable pub timer : {F : Type 0} → ℤ → Sender F → Sender F
unfolding evict_cache
timer now_ts s = evict_cache now_ts s

-- The smoothing of the loss in `sim_bitrate_change`.
unfoldable pub smooth_loss : ℕ → ℕ → ℕ
smooth_loss loss_fraction fraction_loss =
    if ltb fraction_loss loss_fraction
    then (loss_fraction * 15 + fraction_loss) / 16
    else (fraction_loss + loss_fraction) / 2
