-- ===== src/Proto/DecodeLaws.antt =====
-- Each decoder of sim_transport/sim_proto.inl reads back the message that the format holds.
use lmp.Prelude.{ℕ, ◌^◌, ◌%◌, false, ◌≤◌, ◌<◌, ◌≡◌, some, List, [], ◌∷◌, ltb, arith, length, min}
use lmp.Stream.Writes.{put_data}
use lmp.Stream.Reads.{
  Reads, Reads-pure, Reads-bind, Reads-last, Reads-uint8, Reads-uint16, Reads-uint32, Reads-int8,
  Reads-int64, Reads-data,
}
use lmp.Proto.{
  Connect, ConnectAck, Disconnect, SegmentAck, Ping, Feedback, Fir, Pad, FecMeta, Fec,
  sim_token_size, sim_feedback_size, sim_video_size, padding_data_size, nack_num, ack_num,
}
use lmp.Proto.Decode.{
  decode_connect, decode_connect_ack, decode_disconnect, decode_ping, decode_feedback,
  decode_segment_ack, decode_fir, decode_pad, decode_fec_meta, decode_fec, read_field, read_uint16s,
}
use lmp.Proto.Wire.{
  wire_connect, wire_connect_ack, wire_disconnect, wire_ping, wire_feedback, wire_segment_ack,
  wire_fir, wire_pad, wire_fec_meta, wire_fec, wire_uint16s,
}

ruleset readers = (
  Reads-pure, Reads-last, Reads-bind, Reads-uint8, Reads-uint16, Reads-uint32, Reads-int8,
  Reads-int64, Reads-data,
)

pub read_field-Reads :
    {size : ℕ} (str : List ℕ)
    → length str ≤ size
    → size < 2 ^ 16
    → Reads (read_field size) (put_data str) str
unfolding read_field
read_field-Reads str h k = Reads-last _ (Reads-data str h (omega arith)) (Reads-pure str)

-- The messages whose fields fit their C types, and whose arrays fit their buffers.
pub record ConnectInRange (b : Connect) : Type 0 where
  pub cid_fits : b.cid < 2 ^ 32
  pub token_fits : length b.token ≤ sim_token_size
  pub cc_type_fits : b.cc_type < 2 ^ 8

pub record ConnectAckInRange (b : ConnectAck) : Type 0 where
  pub cid_fits : b.cid < 2 ^ 32
  pub result_fits : b.result < 2 ^ 32

pub record FeedbackInRange (b : Feedback) : Type 0 where
  pub base_fits : b.base_packet_id < 2 ^ 32
  pub feedback_fits : length b.feedback ≤ sim_feedback_size

pub record PadInRange (b : Pad) : Type 0 where
  pub send_ts_fits : b.send_ts < 2 ^ 32
  pub transport_seq_fits : b.transport_seq < 2 ^ 16
  pub padding_fits : length b.padding ≤ padding_data_size

pub record FecMetaInRange (b : FecMeta) : Type 0 where
  pub seq_fits : b.seq < 2 ^ 32
  pub fid_fits : b.fid < 2 ^ 32
  pub ts_fits : b.ts < 2 ^ 32
  pub index_fits : b.index < 2 ^ 16
  pub total_fits : b.total < 2 ^ 16
  pub ftype_fits : b.ftype < 2 ^ 8
  pub payload_type_fits : b.payload_type < 2 ^ 8
  pub size_fits : b.size < 2 ^ 16

pub decode_fec_meta-Reads :
    (b : FecMeta) → FecMetaInRange b → Reads decode_fec_meta (wire_fec_meta b) b
unfolding decode_fec_meta wire_fec_meta
decode_fec_meta-Reads b h = search readers depth 12

pub record FecInRange (b : Fec) : Type 0 where
  pub fec_id_fits : b.fec_id < 2 ^ 16
  pub row_fits : b.row < 2 ^ 8
  pub col_fits : b.col < 2 ^ 8
  pub index_fits : b.index < 2 ^ 8
  pub count_fits : b.count < 2 ^ 16
  pub base_id_fits : b.base_id < 2 ^ 32
  pub send_ts_fits : b.send_ts < 2 ^ 32
  pub transport_seq_fits : b.transport_seq < 2 ^ 16
  pub meta_fits : FecMetaInRange b.fec_meta
  pub fec_data_fits : length b.fec_data ≤ sim_video_size

abbrev pub AreWords : List ℕ → Type 0
AreWords [] = Unit
AreWords (x ∷ xs) = (x < 2 ^ 16) × AreWords xs

pub record SegmentAckInRange (b : SegmentAck) : Type 0 where
  pub base_fits : b.base_packet_id < 2 ^ 32
  pub acked_fits : b.acked_packet_id < 2 ^ 32
  pub nack_fits : length b.nack ≤ nack_num
  pub nack_words : AreWords b.nack
  pub ack_fits : length b.acked ≤ ack_num
  pub ack_words : AreWords b.acked

pub decode_connect-Reads :
    (b : Connect) → ConnectInRange b → Reads decode_connect (wire_connect b) b
unfolding decode_connect wire_connect
decode_connect-Reads b h = Reads-bind _ (Reads-uint32 h.cid_fits) (
    Reads-bind _ (read_field-Reads b.token h.token_fits (omega arith))
      (Reads-last _ (Reads-int8 h.cc_type_fits) (Reads-pure _)))

pub decode_connect_ack-Reads :
    (b : ConnectAck) → ConnectAckInRange b → Reads decode_connect_ack (wire_connect_ack b) b
unfolding decode_connect_ack wire_connect_ack
decode_connect_ack-Reads b h = search readers

pub decode_disconnect-Reads :
    (b : Disconnect) → b.cid < 2 ^ 32 → Reads decode_disconnect (wire_disconnect b) b
unfolding decode_disconnect wire_disconnect
decode_disconnect-Reads b h = search readers

pub decode_ping-Reads : (b : Ping) → b.ts < 2 ^ 64 → Reads decode_ping (wire_ping b) b
unfolding decode_ping wire_ping
decode_ping-Reads b h = let same : b.ts % 2 ^ 64 ≡ b.ts = omega arith in rw same (search readers)

pub decode_feedback-Reads :
    (b : Feedback) → FeedbackInRange b → Reads decode_feedback (wire_feedback b) b
unfolding decode_feedback wire_feedback
decode_feedback-Reads b h =
    Reads-bind _ (Reads-uint32 h.base_fits)
      (Reads-last _ (read_field-Reads b.feedback h.feedback_fits (omega arith)) (Reads-pure _))

pub decode_fir-Reads : (b : Fir) → b.fir_seq < 2 ^ 32 → Reads decode_fir (wire_fir b) b
unfolding decode_fir wire_fir
decode_fir-Reads b h = search readers

pub decode_pad-Reads : (b : Pad) → PadInRange b → Reads decode_pad (wire_pad b) b
unfolding decode_pad wire_pad
decode_pad-Reads b h = Reads-bind _ (Reads-uint32 h.send_ts_fits) (
    Reads-bind _ (Reads-uint16 h.transport_seq_fits)
      (Reads-last _ (read_field-Reads b.padding h.padding_fits (omega arith)) (Reads-pure _)))

pub decode_fec-Reads : (b : Fec) → FecInRange b → Reads decode_fec (wire_fec b) (some b)
unfolding decode_fec wire_fec
decode_fec-Reads b h =
    let small : ltb sim_video_size (length b.fec_data) ≡ false = ground arith in
    Reads-bind _ (Reads-uint16 h.fec_id_fits) (
      Reads-bind _ (Reads-uint8 h.row_fits) (
        Reads-bind _ (Reads-uint8 h.col_fits) (
          Reads-bind _ (Reads-uint8 h.index_fits) (
            Reads-bind _ (Reads-uint16 h.count_fits) (
              Reads-bind _ (Reads-uint32 h.base_id_fits) (
                Reads-bind _ (Reads-uint16 h.transport_seq_fits) (
                  Reads-bind _ (Reads-uint32 h.send_ts_fits) (
                    Reads-bind _ (decode_fec_meta-Reads b.fec_meta h.meta_fits) (
                      Reads-last _ (Reads-data b.fec_data h.fec_data_fits (omega arith))
                        (rw small (Reads-pure _)))))))))))

read_uint16s-Reads :
    (xs : List ℕ) → AreWords xs → Reads (read_uint16s (length xs)) (wire_uint16s xs) xs
unfolding read_uint16s wire_uint16s
read_uint16s-Reads [] h = Reads-pure []
read_uint16s-Reads (x ∷ xs) h =
    Reads-bind _ (Reads-uint16 h.0) (Reads-last _ (read_uint16s-Reads xs h.1) (Reads-pure _))

pub decode_segment_ack-Reads :
    (b : SegmentAck) → SegmentAckInRange b → Reads decode_segment_ack (wire_segment_ack b) b
unfolding decode_segment_ack wire_segment_ack
decode_segment_ack-Reads b h =
    let nacks : min (length b.nack) nack_num ≡ length b.nack = omega arith in
    let acks : min (length b.acked) ack_num ≡ length b.acked = omega arith in
    Reads-bind _ (Reads-uint32 h.base_fits) (
      Reads-bind _ (Reads-uint32 h.acked_fits) (
        Reads-bind _ (Reads-uint8 {n = length b.nack} (omega arith)) (
          Reads-bind _ (rw nacks (read_uint16s-Reads b.nack h.nack_words)) (
            Reads-bind _ (Reads-uint8 {n = length b.acked} (omega arith))
              (Reads-last _ (rw acks (read_uint16s-Reads b.acked h.ack_words)) (Reads-pure _))))))
