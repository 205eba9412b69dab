-- ===== src/Proto/EncodeLaws.antt =====
-- Each encoder of sim_transport/sim_proto.inl appends the message's format, whatever the stream.
use lmp.Prelude.{Bool-cases, inl, inr, ℕ, List, [], ◌∷◌, ltb}
use lmp.Stream.Writes.{
  Writes, Writes-nothing, Writes-seq, Writes-uint8, Writes-uint16, Writes-uint32, Writes-int8,
  Writes-int64, Writes-data,
}
use lmp.Proto.{
  Connect, ConnectAck, Disconnect, Segment, SegmentAck, Ping, Feedback, Fir, Pad, FecMeta, Fec,
  u16_max, u8_max,
}
use lmp.Proto.Encode.{
  encode_connect, encode_connect_ack, encode_disconnect, encode_ping, encode_feedback,
  encode_segment, encode_segment_ack, encode_fir, encode_pad, encode_fec_meta, encode_fec, write_id,
  write_place, write_uint16s,
}
use lmp.Proto.Wire.{
  wire_connect, wire_connect_ack, wire_disconnect, wire_ping, wire_feedback, wire_segment,
  wire_segment_ack, wire_fir, wire_pad, wire_fec_meta, wire_fec, wire_id, wire_place, wire_uint16s,
}

ruleset writers =
    (Writes-seq, Writes-uint8, Writes-uint16, Writes-uint32, Writes-int8, Writes-int64, Writes-data)

pub encode_connect-Writes : (b : Connect) → Writes (encode_connect b) (wire_connect b)
unfolding encode_connect wire_connect
encode_connect-Writes b = search writers

pub encode_fec_meta-Writes : (b : FecMeta) → Writes (encode_fec_meta b) (wire_fec_meta b)
unfolding encode_fec_meta wire_fec_meta
encode_fec_meta-Writes b = search writers depth 12

pub encode_connect_ack-Writes :
    (b : ConnectAck) → Writes (encode_connect_ack b) (wire_connect_ack b)
unfolding encode_connect_ack wire_connect_ack
encode_connect_ack-Writes b = search writers

pub encode_disconnect-Writes : (b : Disconnect) → Writes (encode_disconnect b) (wire_disconnect b)
unfolding encode_disconnect wire_disconnect
encode_disconnect-Writes b = search writers

pub encode_ping-Writes : (b : Ping) → Writes (encode_ping b) (wire_ping b)
unfolding encode_ping wire_ping
encode_ping-Writes b = search writers

pub encode_feedback-Writes : (b : Feedback) → Writes (encode_feedback b) (wire_feedback b)
unfolding encode_feedback wire_feedback
encode_feedback-Writes b = search writers

pub encode_fir-Writes : (b : Fir) → Writes (encode_fir b) (wire_fir b)
unfolding encode_fir wire_fir
encode_fir-Writes b = search writers

pub encode_pad-Writes : (b : Pad) → Writes (encode_pad b) (wire_pad b)
unfolding encode_pad wire_pad
encode_pad-Writes b = search writers

pub encode_fec-Writes : (b : Fec) → Writes (encode_fec b) (wire_fec b)
unfolding encode_fec wire_fec
encode_fec-Writes b = search (writers, encode_fec_meta-Writes) depth 14

write_id-Writes : (id : ℕ) → Writes (write_id id) (wire_id id)
unfolding write_id wire_id
write_id-Writes id = elim (Bool-cases (ltb u16_max id)) [
  | inl e ↦ rw e (Writes-uint32 id)
  | inr e ↦ rw e (Writes-uint16 id)
]

write_place-Writes : (index total : ℕ) → Writes (write_place index total) (wire_place index total)
unfolding write_place wire_place
write_place-Writes index total = elim (Bool-cases (ltb u8_max total)) [
  | inl e ↦ rw e (search writers)
  | inr e ↦ rw e (search writers)
]

pub encode_segment-Writes : (b : Segment) → Writes (encode_segment b) (wire_segment b)
unfolding encode_segment wire_segment
encode_segment-Writes b = search (writers, write_id-Writes, write_place-Writes) depth 14

write_uint16s-Writes : (xs : List ℕ) → Writes (write_uint16s xs) (wire_uint16s xs)
unfolding write_uint16s wire_uint16s
write_uint16s-Writes [] = Writes-nothing
write_uint16s-Writes (x ∷ xs) = Writes-seq (Writes-uint16 x) (write_uint16s-Writes xs)

pub encode_segment_ack-Writes :
    (b : SegmentAck) → Writes (encode_segment_ack b) (wire_segment_ack b)
unfolding encode_segment_ack wire_segment_ack
encode_segment_ack-Writes b = search (writers, write_uint16s-Writes) depth 10
