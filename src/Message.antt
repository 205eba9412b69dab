-- ===== src/Message.antt =====
-- sim_transport/sim_proto.c: a packet is a header, a message and a checksum.
pub mod Packet
pub mod Body
pub mod RoundTrip
pub mod Tamper
mod Tests
use lmp.Prelude.{ℕ, ◌-◌, Option, none, some, List, ltb, ◌==◌, if◌then◌else◌, take, drop}
use mathlib.Core.Option
use lmp.Stream.{Stream, rewind}
use lmp.Stream.Bytes.{get_4}
use lmp.Stream.Write.{Writer, ◌>>◌, write_uint8, write_uint32}
use lmp.Stream.Read.{Reader, ◌>>=◌, pure, read_uint8, read_uint32}
use lmp.Crc.{crc32}
use lmp.Proto.{
  Header, Connect, ConnectAck, Disconnect, Segment, SegmentAck, Ping, Feedback, Fir, Pad, Fec,
}
use lmp.Proto.Encode.{
  encode_connect, encode_connect_ack, encode_disconnect, encode_ping, encode_feedback,
  encode_segment, encode_segment_ack, encode_fir, encode_pad, encode_fec,
}
use lmp.Proto.Decode.{
  decode_connect, decode_connect_ack, decode_disconnect, decode_ping, decode_feedback,
  decode_segment, decode_segment_ack, decode_fir, decode_pad, decode_fec,
}

abbrev pub crc_val : ℕ
crc_val = 0x0e3dfc0a

abbrev pub min_msg_id : ℕ
min_msg_id = 0x10

-- A message: the body that `void* body` points to, for each id of the `enum` of sim_proto.h.
pub data Msg : Type 0 where
  sim_connect : Connect → Msg
  sim_connect_ack : ConnectAck → Msg
  sim_disconnect : Disconnect → Msg
  sim_disconnect_ack : ConnectAck → Msg
  sim_ping : Ping → Msg
  sim_pong : Ping → Msg
  sim_seg : Segment → Msg
  sim_seg_ack : SegmentAck → Msg
  sim_feedback : Feedback → Msg
  sim_fir : Fir → Msg
  sim_pad : Pad → Msg
  sim_fec : Fec → Msg

-- The id of a message, which counts up from MIN_MSG_ID.
abbrev pub mid_of : Msg → ℕ
mid_of (sim_connect b) = 0x11
mid_of (sim_connect_ack b) = 0x12
mid_of (sim_disconnect b) = 0x13
mid_of (sim_disconnect_ack b) = 0x14
mid_of (sim_ping b) = 0x15
mid_of (sim_pong b) = 0x16
mid_of (sim_seg b) = 0x17
mid_of (sim_seg_ack b) = 0x18
mid_of (sim_feedback b) = 0x19
mid_of (sim_fir b) = 0x1a
mid_of (sim_pad b) = 0x1b
mid_of (sim_fec b) = 0x1c

-- `sim_encode_header`
unfoldable pub encode_header : Header → Writer
encode_header header = do write_uint8 header.ver; write_uint8 header.mid; write_uint32 header.uid

-- The `switch` of `sim_encode_msg`, on the id that goes with the body.
unfoldable pub encode_body : Msg → Writer
encode_body (sim_connect b) = encode_connect b
encode_body (sim_connect_ack b) = encode_connect_ack b
encode_body (sim_disconnect b) = encode_disconnect b
encode_body (sim_disconnect_ack b) = encode_connect_ack b
encode_body (sim_ping b) = encode_ping b
encode_body (sim_pong b) = encode_ping b
encode_body (sim_seg b) = encode_segment b
encode_body (sim_seg_ack b) = encode_segment_ack b
encode_body (sim_feedback b) = encode_feedback b
encode_body (sim_fir b) = encode_fir b
encode_body (sim_pad b) = encode_pad b
encode_body (sim_fec b) = encode_fec b

-- The checksum of all that is written, appended to it.
unfoldable pub seal : Writer
seal s = write_uint32 (crc32 crc_val (take s.used s.buf)) s

-- `sim_encode_msg`, for a header whose id is that of the message.
unfoldable pub encode_msg : Header → Msg → Writer
encode_msg header body = do λ s. rewind s 1; encode_header header; encode_body body; seal

-- What `sim_decode_header` comes to. Below four bytes it reads before the buffer.
pub data Checked : Type 0 where
  accepted : Header → Checked
  refused : Checked
  out_of_bounds : Checked

unfoldable pub read_header : Reader Checked
read_header = do
  ver ← read_uint8
  mid ← read_uint8
  uid ← read_uint32
  pure (accepted (record { ver = ver; mid = mid; uid = uid }))

-- `sim_decode_header`
unfoldable pub decode_header : Reader Checked
decode_header s =
    if ltb s.used 4
    then (out_of_bounds, s)
    else let src = get_4 (take 4 (drop (s.used - 4) s.buf)) in
      let crc = crc32 crc_val (take (s.used - 4) s.buf) in
      if src == crc then read_header s else (refused, s)

-- The `switch` of `sim_decode_msg`; `none` is its return of -1.
unfoldable pub decode_body : ℕ → Reader (Option Msg)
decode_body mid =
    if mid == 0x11
    then (do b ← decode_connect; pure (some (sim_connect b)))
    else if mid == 0x12
    then (do b ← decode_connect_ack; pure (some (sim_connect_ack b)))
    else if mid == 0x14
    then (do b ← decode_connect_ack; pure (some (sim_disconnect_ack b)))
    else if mid == 0x13
    then (do b ← decode_disconnect; pure (some (sim_disconnect b)))
    else if mid == 0x15
    then (do b ← decode_ping; pure (some (sim_ping b)))
    else if mid == 0x16
    then (do b ← decode_ping; pure (some (sim_pong b)))
    else if mid == 0x17
    then (do b ← decode_segment; pure (some (sim_seg b)))
    else if mid == 0x18
    then (do b ← decode_segment_ack; pure (some (sim_seg_ack b)))
    else if mid == 0x19
    then (do b ← decode_feedback; pure (some (sim_feedback b)))
    else if mid == 0x1a
    then (do b ← decode_fir; pure (some (sim_fir b)))
    else if mid == 0x1b
    then (do b ← decode_pad; pure (some (sim_pad b)))
    else if mid == 0x1c
    then (do b ← decode_fec; pure (Option.map sim_fec b))
    else pure none

-- `sim_decode_msg`
unfoldable pub decode_msg : Header → Reader (Option Msg)
decode_msg header = decode_body header.mid
