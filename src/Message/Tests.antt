-- ===== src/Message/Tests.antt =====
-- Runs and instances for sim_transport/sim_proto.c.
use lmp.Prelude.{ℕ, ◌≡◌, refl, some, List, [], ◌∷◌, ◌++◌, arith, length}
use lmp.Stream.{Stream}
use lmp.Stream.Valid.{IsValid, IsReadable, IsValid-IsReadable, written}
use lmp.Proto.{Header, Segment}
use lmp.Proto.SegmentLaws.{SegmentInRange, sent}
use lmp.Message.{
  Msg, sim_ping, sim_seg, accepted, refused, read_header, decode_header, decode_msg, encode_msg,
}
use lmp.Crc.{crc32}
use lmp.Stream.Bytes.{put_1, put_4, put_8, get_1, get_4}
use lmp.Stream.Read.{read, read_uint8, read_uint32, ◌>>=◌, pure}
use lmp.Proto.Wire.{wire_ping}
use lmp.Message.Packet.{wire_header, wire_body, packet, encode_msg-packet}
use lmp.Message.RoundTrip.{HeaderInRange, decode-encode}
use lmp.Message.Tamper.{decode_header_tampered}

abbrev small : Stream
small = record {
  buf = 0 ∷ 0 ∷ 9 ∷ 9 ∷ [];
  size = 4;
  rptr = 1;
  rsize = 1;
  wptr = 2;
  used = 2;
  magic = 0;
}

small-IsValid : IsValid small
small-IsValid = omega arith

abbrev ping_header : Header
ping_header = record { ver = 1; mid = 0x15; uid = 7 }

abbrev ping : Msg
ping = sim_ping (record { ts = 1000 })

abbrev before : List ℕ
before = 1 ∷ 21 ∷ 0 ∷ 0 ∷ 0 ∷ 7 ∷ 0 ∷ 0 ∷ 0 ∷ 0 ∷ 0 ∷ 0 ∷ []

abbrev trailer : List ℕ
trailer = 142 ∷ 226 ∷ 255 ∷ 39 ∷ []

-- A stream that received these bytes in a buffer of their size.
abbrev received : List ℕ → Stream
received bytes = record {
  buf = bytes;
  size = length bytes;
  rptr = 0;
  rsize = 0;
  wptr = 0;
  used = length bytes;
  magic = 0;
}

ping_bytes : packet ping_header ping ≡ (before ++ 3 ∷ 232 ∷ []) ++ trailer
unfolding wire_header wire_body wire_ping put_1 put_4 put_8 crc32
ping_bytes = refl

ping_header_fits : HeaderInRange ping_header
ping_header_fits = omega arith

abbrev seg : Segment
seg = record {
  packet_id = 70000;
  fid = 12;
  timestamp = 99;
  index = 2;
  total = 300;
  ftype = 3;
  payload_type = 96;
  remb = 1;
  fec_id = 0;
  send_ts = 5;
  transport_seq = 65535;
  payload = 4 ∷ 5 ∷ [];
}

seg_fits : SegmentInRange seg
seg_fits = omega arith

abbrev seg_header : Header
seg_header = record { ver = 1; mid = 0x17; uid = 7 }

seg_header_fits : HeaderInRange seg_header
seg_header_fits = omega arith

sent-seg : sent seg ≡ record seg { ftype = 1; remb = 0xff }
sent-seg = refl

encode_msg-packet_example :
    IsValid (encode_msg ping_header ping small)
    × (written (encode_msg ping_header ping small) ≡ packet ping_header ping)
    × ((encode_msg ping_header ping small).rsize ≡ 0)
encode_msg-packet_example = encode_msg-packet ping_header ping small-IsValid

seg_stream-IsValid : IsValid (encode_msg seg_header (sim_seg seg) small)
seg_stream-IsValid = (encode_msg-packet seg_header (sim_seg seg) small-IsValid).0

decode-encode_example :
    let (checked, t) = decode_header (encode_msg seg_header (sim_seg seg) small) in
    (checked ≡ accepted seg_header) × ((decode_msg seg_header t).0 ≡ some (sim_seg (sent seg)))
decode-encode_example =
    decode-encode seg_header (sim_seg seg) seg_header_fits refl seg_fits small-IsValid
      (IsValid-IsReadable seg_stream-IsValid)
      (encode_msg-packet seg_header (sim_seg seg) small-IsValid).2 refl

intact : Stream
intact = received ((before ++ 3 ∷ 232 ∷ []) ++ trailer)

tampered : Stream
tampered = received ((before ++ 4 ∷ 232 ∷ []) ++ trailer)

intact-IsReadable : IsReadable intact
unfolding intact
intact-IsReadable = omega arith

tampered-IsReadable : IsReadable tampered
unfolding tampered
tampered-IsReadable = omega arith

intact_accepted : (decode_header intact).0 ≡ accepted ping_header
unfolding intact decode_header read_header read_uint8 read_uint32 read get_1 get_4 crc32 ◌>>=◌ pure
intact_accepted = refl

decode_header_tampered_example : (decode_header tampered).0 ≡ refused
unfolding intact tampered
decode_header_tampered_example =
    decode_header_tampered 3 4 before (232 ∷ []) trailer intact-IsReadable tampered-IsReadable refl
      refl refl (omega arith) (omega arith) (omega arith) (omega arith) intact_accepted
