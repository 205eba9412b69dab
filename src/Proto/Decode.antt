-- ===== src/Proto/Decode.antt =====
-- sim_transport/sim_proto.inl, the `sim_*_decode` functions. `none` stands for the return of -1.
use Prim.Native.Nat.{bit_and}
use lmp.Prelude.{
  ℕ, zero, suc, ◌^◌, min, Bool, Option, none, some, List, [], ◌∷◌, ltb, ◌==◌, if◌then◌else◌, length,
}
use mathlib.Core.Option.{get_or}
use lmp.Stream.Read.{
  Reader, ◌>>=◌, pure, read_uint8, read_uint16, read_uint32, read_int8, read_int64, read_data,
}
use lmp.Proto.{
  Connect, ConnectAck, Disconnect, Segment, SegmentAck, Ping, Feedback, Fir, Pad, FecMeta, Fec,
  sim_token_size, sim_feedback_size, sim_video_size, padding_data_size, nack_num, ack_num,
}

-- `x_size = mach_data_read(...); if (x_size == READ_DATA_ERROR) x_size = 0;`
unfoldable pub read_field : ℕ → Reader (List ℕ)
read_field size = do field ← read_data size; pure (get_or field [])

unfoldable pub decode_connect : Reader Connect
decode_connect = do
  cid ← read_uint32
  token ← read_field sim_token_size
  cc_type ← read_int8
  pure (record { cid = cid; token = token; cc_type = cc_type })

unfoldable pub decode_connect_ack : Reader ConnectAck
decode_connect_ack = do
  cid ← read_uint32
  result ← read_uint32
  pure (record { cid = cid; result = result })

unfoldable pub decode_disconnect : Reader Disconnect
decode_disconnect = do cid ← read_uint32; pure (record { cid = cid })

unfoldable pub decode_ping : Reader Ping
decode_ping = do ts ← read_int64; pure (record { ts = ts })

unfoldable pub decode_feedback : Reader Feedback
decode_feedback = do
  base_packet_id ← read_uint32
  feedback ← read_field sim_feedback_size
  pure (record { base_packet_id = base_packet_id; feedback = feedback })

-- Is the bit unset in the mask?
abbrev pub clear : ℕ → ℕ → Bool
clear mask bit = bit_and mask (2 ^ bit) == 0

unfoldable pub read_id : Bool → Reader ℕ
read_id narrow = if narrow then read_uint16 else read_uint32

unfoldable pub read_place : Bool → Reader ℕ
read_place narrow = if narrow then read_uint8 else read_uint16

unfoldable pub decode_segment : Reader Segment
decode_segment = do
  mask ← read_uint8
  payload_type ← read_uint8
  packet_id ← read_id (clear mask 7)
  fid ← read_id (clear mask 6)
  timestamp ← read_uint32
  index ← read_place (clear mask 5)
  total ← read_place (clear mask 5)
  fec_id ← read_uint16
  send_ts ← read_uint16
  transport_seq ← read_uint16
  payload ← read_field sim_video_size
  pure (record {
    packet_id = packet_id;
    fid = fid;
    timestamp = timestamp;
    index = index;
    total = total;
    ftype = bit_and mask 0x01;
    payload_type = payload_type;
    remb = if clear mask 4 then 0xff else 0;
    fec_id = fec_id;
    send_ts = send_ts;
    transport_seq = transport_seq;
    payload = payload;
  })

-- The loop that reads `n` numbers of 16 bits.
unfoldable pub read_uint16s : ℕ → Reader (List ℕ)
read_uint16s zero = pure []
read_uint16s (suc n) = do x ← read_uint16; xs ← read_uint16s n; pure (x ∷ xs)

unfoldable pub decode_segment_ack : Reader SegmentAck
decode_segment_ack = do
  base_packet_id ← read_uint32
  acked_packet_id ← read_uint32
  nacks ← read_uint8
  nack ← read_uint16s (min nacks nack_num)
  acks ← read_uint8
  acked ← read_uint16s (min acks ack_num)
  pure (record {
    base_packet_id = base_packet_id;
    acked_packet_id = acked_packet_id;
    nack = nack;
    acked = acked;
  })

unfoldable pub decode_fir : Reader Fir
decode_fir = do fir_seq ← read_uint32; pure (record { fir_seq = fir_seq })

unfoldable pub decode_pad : Reader Pad
decode_pad = do
  send_ts ← read_uint32
  transport_seq ← read_uint16
  padding ← read_field padding_data_size
  pure (record { send_ts = send_ts; transport_seq = transport_seq; padding = padding })

unfoldable pub decode_fec_meta : Reader FecMeta
decode_fec_meta = do
  seq ← read_uint32
  fid ← read_uint32
  ts ← read_uint32
  index ← read_uint16
  total ← read_uint16
  ftype ← read_uint8
  payload_type ← read_uint8
  size ← read_uint16
  pure (record {
    seq = seq;
    fid = fid;
    ts = ts;
    index = index;
    total = total;
    ftype = ftype;
    payload_type = payload_type;
    size = size;
  })

-- READ_DATA_ERROR is above SIM_VIDEO_SIZE, so that only then is the message refused.
unfoldable pub decode_fec : Reader (Option Fec)
decode_fec = do
  fec_id ← read_uint16
  row ← read_uint8
  col ← read_uint8
  index ← read_uint8
  count ← read_uint16
  base_id ← read_uint32
  transport_seq ← read_uint16
  send_ts ← read_uint32
  meta ← decode_fec_meta
  fec_data ← read_data sim_video_size
  pure (elim fec_data [
    | none ↦ none
    | some bytes ↦
        if ltb sim_video_size (length bytes)
        then none
        else some (record {
          fec_id = fec_id;
          row = row;
          col = col;
          index = index;
          count = count;
          base_id = base_id;
          send_ts = send_ts;
          transport_seq = transport_seq;
          fec_meta = meta;
          fec_data = bytes;
        })
  ])
