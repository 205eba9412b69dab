-- ===== src/Message/Body.antt =====
-- sim_transport/sim_proto.c, `sim_decode_msg`: each id leads to the decoder of its message.
use lmp.Prelude.{◌<◌, ◌^◌, some}
use lmp.Stream.Reads.{Reads, Reads-pure, Reads-last}
use lmp.Proto.DecodeLaws.{
  ConnectInRange, ConnectAckInRange, FeedbackInRange, PadInRange, FecInRange, SegmentAckInRange,
  decode_connect-Reads, decode_connect_ack-Reads, decode_disconnect-Reads, decode_ping-Reads,
  decode_feedback-Reads, decode_fir-Reads, decode_pad-Reads, decode_fec-Reads,
  decode_segment_ack-Reads,
}
use lmp.Proto.SegmentLaws.{SegmentInRange, sent, decode_segment-Reads}
use lmp.Message.{
  Msg, sim_connect, sim_connect_ack, sim_disconnect, sim_disconnect_ack, sim_ping, sim_pong,
  sim_seg, sim_seg_ack, sim_feedback, sim_fir, sim_pad, sim_fec, mid_of, decode_body,
}
use lmp.Message.Packet.{wire_body}

-- The messages whose fields fit their C types and buffers.
abbrev pub InRange : Msg → Type 0
InRange (sim_connect b) = ConnectInRange b
InRange (sim_connect_ack b) = ConnectAckInRange b
InRange (sim_disconnect b) = b.cid < 2 ^ 32
InRange (sim_disconnect_ack b) = ConnectAckInRange b
InRange (sim_ping b) = b.ts < 2 ^ 64
InRange (sim_pong b) = b.ts < 2 ^ 64
InRange (sim_seg b) = SegmentInRange b
InRange (sim_seg_ack b) = SegmentAckInRange b
InRange (sim_feedback b) = FeedbackInRange b
InRange (sim_fir b) = b.fir_seq < 2 ^ 32
InRange (sim_pad b) = PadInRange b
InRange (sim_fec b) = FecInRange b

-- What the receiver sees of a message: all of it, but for the two fields of a segment of which
-- only one bit is sent.
abbrev pub seen : Msg → Msg
seen (sim_connect b) = sim_connect b
seen (sim_seg b) = sim_seg (sent b)
seen m = m

pub decode_body-Reads :
    (m : Msg) → InRange m → Reads (decode_body (mid_of m)) (wire_body m) (some (seen m))
unfolding decode_body wire_body
decode_body-Reads (sim_connect b) h = Reads-last _ (decode_connect-Reads b h) (Reads-pure _)
decode_body-Reads (sim_connect_ack b) h = Reads-last _ (decode_connect_ack-Reads b h) (Reads-pure _)
decode_body-Reads (sim_disconnect b) h = Reads-last _ (decode_disconnect-Reads b h) (Reads-pure _)
decode_body-Reads (sim_disconnect_ack b) h =
    Reads-last _ (decode_connect_ack-Reads b h) (Reads-pure _)
decode_body-Reads (sim_ping b) h = Reads-last _ (decode_ping-Reads b h) (Reads-pure _)
decode_body-Reads (sim_pong b) h = Reads-last _ (decode_ping-Reads b h) (Reads-pure _)
decode_body-Reads (sim_seg b) h = Reads-last _ (decode_segment-Reads b h) (Reads-pure _)
decode_body-Reads (sim_seg_ack b) h = Reads-last _ (decode_segment_ack-Reads b h) (Reads-pure _)
decode_body-Reads (sim_feedback b) h = Reads-last _ (decode_feedback-Reads b h) (Reads-pure _)
decode_body-Reads (sim_fir b) h = Reads-last _ (decode_fir-Reads b h) (Reads-pure _)
decode_body-Reads (sim_pad b) h = Reads-last _ (decode_pad-Reads b h) (Reads-pure _)
decode_body-Reads (sim_fec b) h = Reads-last _ (decode_fec-Reads b h) (Reads-pure _)
