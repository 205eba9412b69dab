-- ===== src/Proto/Encode.antt =====
-- sim_transport/sim_proto.inl, the `sim_*_encode` functions, statement by statement.
use Prim.Native.Nat.{bit_and, bit_or}
use lmp.Prelude.{ℕ, ◌^◌, ◌%◌, Bool, List, [], ◌∷◌, ltb, ◌==◌, if◌then◌else◌, length}
use lmp.Stream.Write.{
  Writer, ◌>>◌, write_uint8, write_uint16, write_uint32, write_int8, write_int64, write_data,
}
use lmp.Proto.{
  Connect, ConnectAck, Disconnect, Segment, SegmentAck, Ping, Feedback, Fir, Pad, FecMeta, Fec,
  u16_max, u8_max,
}

unfoldable pub encode_connect : Connect → Writer
encode_connect body = do write_uint32 body.cid; write_data body.token; write_int8 body.cc_type

unfoldable pub encode_connect_ack : ConnectAck → Writer
encode_connect_ack body = do write_uint32 body.cid; write_uint32 body.result

unfoldable pub encode_disconnect : Disconnect → Writer
encode_disconnect body = write_uint32 body.cid

unfoldable pub encode_ping : Ping → Writer
encode_ping body = write_int64 body.ts

unfoldable pub encode_feedback : Feedback → Writer
encode_feedback body = do write_uint32 body.base_packet_id; write_data body.feedback

-- `mask |= bit` where the test holds.
unfoldable pub mark : ℕ → Bool → Bool → Bool → Bool → ℕ
mark mask wide_packet wide_frame wide_total no_remb =
    let mask1 = if wide_packet then bit_or mask (2 ^ 7) else mask in
    let mask2 = if wide_frame then bit_or mask1 (2 ^ 6) else mask1 in
    let mask3 = if wide_total then bit_or mask2 (2 ^ 5) else mask2 in
    if no_remb then bit_or mask3 (2 ^ 4) else mask3

unfoldable pub segment_mask : Segment → ℕ
segment_mask body =
    mark (bit_and body.ftype 0x01) (ltb u16_max body.packet_id) (ltb u16_max body.fid)
      (ltb u8_max body.total) (body.remb == 0)

-- An id in two bytes if it fits, else in four.
unfoldable pub write_id : ℕ → Writer
write_id id = if ltb u16_max id then write_uint32 id else write_uint16 id

unfoldable pub write_place : ℕ → ℕ → Writer
write_place index total =
    if ltb u8_max total
    then (do write_uint16 index; write_uint16 total)
    else (do write_uint8 (index % 2 ^ 8); write_uint8 (total % 2 ^ 8))

unfoldable pub encode_segment : Segment → Writer
encode_segment body = do
  write_uint8 (segment_mask body)
  write_uint8 body.payload_type
  write_id body.packet_id
  write_id body.fid
  write_uint32 body.timestamp
  write_place body.index body.total
  write_uint16 body.fec_id
  write_uint16 body.send_ts
  write_uint16 body.transport_seq
  write_data body.payload

-- The loop that writes an array of 16-bit numbers.
unfoldable pub write_uint16s : List ℕ → Writer
write_uint16s [] s = s
write_uint16s (x ∷ xs) s = write_uint16s xs (write_uint16 x s)

unfoldable pub encode_segment_ack : SegmentAck → Writer
encode_segment_ack body = do
  write_uint32 body.base_packet_id
  write_uint32 body.acked_packet_id
  write_uint8 (length body.nack)
  write_uint16s body.nack
  write_uint8 (length body.acked)
  write_uint16s body.acked

unfoldable pub encode_fir : Fir → Writer
encode_fir body = write_uint32 body.fir_seq

unfoldable pub encode_pad : Pad → Writer
encode_pad body = do
  write_uint32 body.send_ts
  write_uint16 body.transport_seq
  write_data body.padding

unfoldable pub encode_fec_meta : FecMeta → Writer
encode_fec_meta meta = do
  write_uint32 meta.seq
  write_uint32 meta.fid
  write_uint32 meta.ts
  write_uint16 meta.index
  write_uint16 meta.total
  write_uint8 meta.ftype
  write_uint8 meta.payload_type
  write_uint16 meta.size

unfoldable pub encode_fec : Fec → Writer
encode_fec body = do
  write_uint16 body.fec_id
  write_uint8 body.row
  write_uint8 body.col
  write_uint8 body.index
  write_uint16 body.count
  write_uint32 body.base_id
  write_uint16 body.transport_seq
  write_uint32 body.send_ts
  encode_fec_meta body.fec_meta
  write_data body.fec_data
