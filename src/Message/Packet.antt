-- ===== src/Message/Packet.antt =====
-- sim_transport/sim_proto.c, `sim_encode_msg`: the bytes of a packet.
use lmp.Prelude.{ℕ, ◌≡◌, ◌∙◌, ap, List, ◌++◌}
use lmp.Stream.{Stream, rewind}
use lmp.Stream.Bytes.{put_1, put_4}
use lmp.Stream.Valid.{IsValid, written, rewind-IsValid}
use lmp.Stream.Writes.{Writes, Writes-seq, Writes-uint8, Writes-uint32}
use lmp.Crc.{crc32}
use lmp.Proto.{Header}
use lmp.Proto.Wire.{
  wire_connect, wire_connect_ack, wire_disconnect, wire_ping, wire_feedback, wire_segment,
  wire_segment_ack, wire_fir, wire_pad, wire_fec,
}
use lmp.Proto.EncodeLaws.{
  encode_connect-Writes, encode_connect_ack-Writes, encode_disconnect-Writes, encode_ping-Writes,
  encode_feedback-Writes, encode_segment-Writes, encode_segment_ack-Writes, encode_fir-Writes,
  encode_pad-Writes, encode_fec-Writes,
}
use lmp.Message.{
  Msg, sim_connect, sim_connect_ack, sim_disconnect, sim_disconnect_ack, sim_ping, sim_pong,
  sim_seg, sim_seg_ack, sim_feedback, sim_fir, sim_pad, sim_fec, encode_header, encode_body, seal,
  encode_msg, crc_val,
}

unfoldable pub wire_header : Header → List ℕ
wire_header h = put_1 h.ver ++ (put_1 h.mid ++ put_4 h.uid)

unfoldable pub wire_body : Msg → List ℕ
wire_body (sim_connect b) = wire_connect b
wire_body (sim_connect_ack b) = wire_connect_ack b
wire_body (sim_disconnect b) = wire_disconnect b
wire_body (sim_disconnect_ack b) = wire_connect_ack b
wire_body (sim_ping b) = wire_ping b
wire_body (sim_pong b) = wire_ping b
wire_body (sim_seg b) = wire_segment b
wire_body (sim_seg_ack b) = wire_segment_ack b
wire_body (sim_feedback b) = wire_feedback b
wire_body (sim_fir b) = wire_fir b
wire_body (sim_pad b) = wire_pad b
wire_body (sim_fec b) = wire_fec b

-- The header and the message, which the checksum covers, and the whole packet.
abbrev pub covered : Header → Msg → List ℕ
covered h m = wire_header h ++ wire_body m

abbrev pub packet : Header → Msg → List ℕ
packet h m = covered h m ++ put_4 (crc32 crc_val (covered h m))

encode_header-Writes : (h : Header) → Writes (encode_header h) (wire_header h)
unfolding encode_header wire_header
encode_header-Writes h = search (Writes-seq, Writes-uint8, Writes-uint32)

encode_body-Writes : (m : Msg) → Writes (encode_body m) (wire_body m)
unfolding encode_body wire_body
encode_body-Writes (sim_connect b) = encode_connect-Writes b
encode_body-Writes (sim_connect_ack b) = encode_connect_ack-Writes b
encode_body-Writes (sim_disconnect b) = encode_disconnect-Writes b
encode_body-Writes (sim_disconnect_ack b) = encode_connect_ack-Writes b
encode_body-Writes (sim_ping b) = encode_ping-Writes b
encode_body-Writes (sim_pong b) = encode_ping-Writes b
encode_body-Writes (sim_seg b) = encode_segment-Writes b
encode_body-Writes (sim_seg_ack b) = encode_segment_ack-Writes b
encode_body-Writes (sim_feedback b) = encode_feedback-Writes b
encode_body-Writes (sim_fir b) = encode_fir-Writes b
encode_body-Writes (sim_pad b) = encode_pad-Writes b
encode_body-Writes (sim_fec b) = encode_fec-Writes b

-- Whatever a valid stream held, encode_msg leaves exactly the packet in it, all of it unread, and
-- the stream is valid.
pub encode_msg-packet :
    (h : Header) (m : Msg) {s : Stream}
    → IsValid s
    → IsValid (encode_msg h m s)
      × (written (encode_msg h m s) ≡ packet h m)
      × ((encode_msg h m s).rsize ≡ 0)
unfolding encode_msg seal rewind
encode_msg-packet h m {s} v =
    let w = Writes-seq (encode_header-Writes h) (encode_body-Writes m) in
    let a = w.at (rewind s 1) (rewind-IsValid 1 v) in
    let b = (Writes-uint32 (crc32 crc_val (covered h m))).at _ a.valid in
    rw a.appended (
      b.valid,
      b.appended ∙ ap (λ x. x ++ put_4 (crc32 crc_val (covered h m))) a.appended,
      b.rsize_same ∙ a.rsize_same,
    )
