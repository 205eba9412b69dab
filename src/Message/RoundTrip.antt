-- ===== src/Message/RoundTrip.antt =====
-- sim_transport/sim_proto.c: a packet that arrives as it was sent is read as it was meant.
use lmp.Prelude.{
  ℕ, ◌≡◌, ◌<◌, ◌^◌, refl, ◌∙◌, ap, some, ◌++◌, arith, append_assoc, true, drop, ◌==◌, ==_iff,
  length,
}
use lmp.Stream.{Stream}
use lmp.Stream.Bytes.{put_4, get_4}
use lmp.Stream.Reads.{Reads, Reads-pure, Reads-bind, Reads-last, Reads-uint8, Reads-uint32}
use lmp.Stream.Valid.{IsValid, IsReadable, written}
use lmp.Crc.{crc32}
use lmp.Crc.Detect.{crc32-lt}
use lmp.Proto.{Header}
use lmp.Message.{
  Msg, mid_of, accepted, read_header, decode_header, decode_body, decode_msg, encode_msg, crc_val,
}
use lmp.Message.Packet.{wire_header, wire_body, covered, packet, encode_msg-packet}
use lmp.Message.Body.{InRange, seen, decode_body-Reads}
use lmp.Message.Tamper.{decode_header_test}

pub record HeaderInRange (h : Header) : Type 0 where
  pub ver_fits : h.ver < 2 ^ 8
  pub mid_fits : h.mid < 2 ^ 8
  pub uid_fits : h.uid < 2 ^ 32

read_header-Reads : (h : Header) → HeaderInRange h → Reads read_header (wire_header h) (accepted h)
unfolding read_header wire_header
read_header-Reads h v =
    Reads-bind _ (Reads-uint8 v.ver_fits) (
      Reads-bind _ (Reads-uint8 v.mid_fits) (Reads-last _ (Reads-uint32 v.uid_fits) (Reads-pure _)))

get_4-put_4 : (n : ℕ) → n < 2 ^ 32 → get_4 (put_4 n) ≡ n
unfolding get_4 put_4
get_4-put_4 n h = omega arith

length-put_4 : (n : ℕ) → length (put_4 n) ≡ 4
unfolding put_4
length-put_4 n = refl

-- A readable stream that holds a packet from its start: `sim_decode_header` accepts it and yields
-- the header, and `sim_decode_msg` then yields the message.
decode_packet :
    (h : Header) (m : Msg) {r : Stream}
    → HeaderInRange h
    → h.mid ≡ mid_of m
    → InRange m
    → IsReadable r
    → r.rsize ≡ 0
    → written r ≡ packet h m
    → let (checked, t) = decode_header r in
      (checked ≡ accepted h) × ((decode_msg h t).0 ≡ some (seen m))
unfolding decode_msg
decode_packet h m {r} hh e range v start holds =
    let crc = crc32 crc_val (covered h m) in
    let trailer = put_4 crc in
    let intact : (get_4 trailer == crc) ≡ true =
      (==_iff _ _).1 (get_4-put_4 crc (crc32-lt crc_val (covered h m) (omega arith))) in
    let goes : decode_header r ≡ read_header r =
      rw intact at (decode_header_test (covered h m) trailer v holds (length-put_4 crc)) in
    let head = (read_header-Reads h hh).at r (wire_body m ++ trailer) v (
      ap (λ k. drop k (written r)) start
      ∙ holds
      ∙ append_assoc (wire_header h) (wire_body m) trailer) in
    let body = (decode_body-Reads m range).at (read_header r).1 trailer head.readable head.left in
    rw goes (head.value, ap (λ mid. (decode_body mid (read_header r).1).0) e ∙ body.value)

-- A header and a message whose fields are in range, the header with the id of the message, are
-- encoded into any valid stream. Read from their start, from a stream that holds the same bytes,
-- the header is accepted and the same, and so is the message, as far as it is sent.
pub decode-encode :
    (h : Header) (m : Msg) {s r : Stream}
    → HeaderInRange h
    → h.mid ≡ mid_of m
    → InRange m
    → IsValid s
    → IsReadable r
    → r.rsize ≡ 0
    → written r ≡ written (encode_msg h m s)
    → let (checked, t) = decode_header r in
      (checked ≡ accepted h) × ((decode_msg h t).0 ≡ some (seen m))
decode-encode h m hh e range vs vr start same =
    decode_packet h m hh e range vr start (same ∙ (encode_msg-packet h m vs).1)
