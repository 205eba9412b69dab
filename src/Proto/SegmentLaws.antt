-- ===== src/Proto/SegmentLaws.antt =====
-- sim_transport/sim_proto.inl, the segment: its flags tell the decoder how wide the fields are.
use Prim.Native.Nat.{bit_and}
use lmp.Prelude.{
  ℕ, zero, suc, ◌^◌, ◌%◌, ◌≤◌, ◌<◌, ◌≡◌, refl, Bool, true, false, ◌&&◌, List, ◌++◌, append_assoc,
  ltb, ◌==◌, if◌then◌else◌, arith, length, Bool-cases, inl, inr,
}
use lmp.Stream.Read.{Reader, ◌>>=◌, read_uint8}
use lmp.Stream.Bytes.{put_1}
use lmp.Stream.Reads.{
  Reads, Reads-pure, Reads-bind, Reads-last, Reads-uint8, Reads-uint16, Reads-uint32,
}
use lmp.Proto.{Segment, u16_max, u8_max, sim_video_size}
use lmp.Proto.Encode.{mark, segment_mask}
use lmp.Proto.Decode.{clear, read_id, read_place, decode_segment}
use lmp.Proto.DecodeLaws.{read_field-Reads}
use lmp.Proto.Wire.{wire_segment, wire_id, wire_place}

abbrev not : Bool → Bool
not true = false
not false = true

-- What the flags say, for each frame type and choice of widths.
record FlagsSay (low : ℕ) (p f t r : Bool) (mask : ℕ) : Type 0 where
  byte : mask < 2 ^ 8
  packet : clear mask 7 ≡ not p
  frame : clear mask 6 ≡ not f
  place : clear mask 5 ≡ not t
  no_remb : clear mask 4 ≡ not r
  kind : bit_and mask 1 ≡ low

abbrev low_bit : Bool → ℕ
low_bit true = 1
low_bit false = 0

mark_bit-FlagsSay : (b p f t r : Bool) → FlagsSay (low_bit b) p f t r (mark (low_bit b) p f t r)
unfolding mark
mark_bit-FlagsSay b p f t r = ground arith

low_bit_table : ℕ → Bool
low_bit_table zero = true
low_bit_table (suc k) = ltb (bit_and k 1) 2 && low_bit_table k

low_bit_sound : (k n : ℕ) → low_bit_table k ≡ true → n < k → bit_and n 1 < 2
unfolding low_bit_table
low_bit_sound zero n h lt = absurd (omega arith)
low_bit_sound (suc k) n h lt = ground (arith, low_bit_sound k n)

low_bit_cases : (n : ℕ) → n < 2 ^ 8 → (b : Bool) × (bit_and n 1 ≡ low_bit b)
unfolding low_bit_table
low_bit_cases n h = elim (Bool-cases (bit_and n 1 == 0)) [
  | inl e ↦ (false, ground arith)
  | inr e ↦ (true, let small = low_bit_sound (2 ^ 8) n refl h in ground arith)
]

mark-FlagsSay :
    (n : ℕ) (p f t r : Bool)
    → n < 2 ^ 8
    → FlagsSay (bit_and n 1) p f t r (mark (bit_and n 1) p f t r)
mark-FlagsSay n p f t r h = let (b, e) = low_bit_cases n h in rw e (mark_bit-FlagsSay b p f t r)

-- The segments whose fields fit their C types, and whose payload fits its buffer.
pub record SegmentInRange (b : Segment) : Type 0 where
  pub packet_id_fits : b.packet_id < 2 ^ 32
  pub fid_fits : b.fid < 2 ^ 32
  pub timestamp_fits : b.timestamp < 2 ^ 32
  pub index_fits : b.index < b.total
  pub total_fits : b.total < 2 ^ 16
  pub ftype_fits : b.ftype < 2 ^ 8
  pub payload_type_fits : b.payload_type < 2 ^ 8
  pub fec_id_fits : b.fec_id < 2 ^ 16
  pub send_ts_fits : b.send_ts < 2 ^ 16
  pub transport_seq_fits : b.transport_seq < 2 ^ 16
  pub payload_fits : length b.payload ≤ sim_video_size

-- What a segment's receiver sees of it: one bit of its frame type, and of `remb` whether it is 0.
abbrev pub sent : Segment → Segment
sent b = record b { ftype = bit_and b.ftype 1; remb = if b.remb == 0 then 0 else 0xff }

read_id-Reads : (id : ℕ) → id < 2 ^ 32 → Reads (read_id (not (ltb u16_max id))) (wire_id id) id
unfolding read_id wire_id
read_id-Reads id h = elim (Bool-cases (ltb u16_max id)) [
  | inl e ↦ rw e (Reads-uint32 h)
  | inr e ↦ rw e (Reads-uint16 (ground arith))
]

narrow : (n : ℕ) → n < 2 ^ 8 → Reads read_uint8 (put_1 (n % 2 ^ 8)) n
narrow n h = let same : n % 2 ^ 8 ≡ n = omega arith in rw same (Reads-uint8 h)

-- The index and the total, each as wide as the total needs.
read_place-Reads :
    {A : Type 0} (index total : ℕ) (f : ℕ → ℕ → Reader A) {ys : List ℕ} {a : A}
    → index < total
    → total < 2 ^ 16
    → Reads (f index total) ys a
    → Reads
        (read_place (not (ltb u8_max total)) >>= (λ i. read_place (not (ltb u8_max total)) >>= f i))
        (wire_place index total ++ ys)
        a
unfolding read_place wire_place
read_place-Reads index total f h k rest = elim (Bool-cases (ltb u8_max total)) [
  | inl e ↦ rw e (
      rw append_assoc
        (Reads-bind _ (Reads-uint16 (omega arith)) (Reads-bind _ (Reads-uint16 k) rest)))
  | inr e ↦ rw e (
      rw append_assoc (
        Reads-bind _ (narrow index (ground arith))
          (Reads-bind _ (narrow total (ground arith)) rest)))
]

remb_back :
    (remb : ℕ) → ◌≡◌ {A = ℕ} (if not (remb == 0) then 0xff else 0) (if remb == 0 then 0 else 0xff)
remb_back remb = ground arith

pub decode_segment-Reads :
    (b : Segment) → SegmentInRange b → Reads decode_segment (wire_segment b) (sent b)
unfolding decode_segment wire_segment segment_mask
decode_segment-Reads b h =
    let wide_packet = ltb u16_max b.packet_id in
    let wide_frame = ltb u16_max b.fid in
    let wide_total = ltb u8_max b.total in
    let no_remb = b.remb == 0 in
    let say = mark-FlagsSay b.ftype wide_packet wide_frame wide_total no_remb h.ftype_fits in
    Reads-bind _ (Reads-uint8 say.byte) (
      rw (say.packet, say.frame, say.place, say.no_remb, say.kind)
        (Reads-bind _ (Reads-uint8 h.payload_type_fits) (
          Reads-bind _ (read_id-Reads b.packet_id h.packet_id_fits) (
            Reads-bind _ (read_id-Reads b.fid h.fid_fits) (
              Reads-bind _ (Reads-uint32 h.timestamp_fits) (
                read_place-Reads b.index b.total _ h.index_fits h.total_fits (
                  Reads-bind _ (Reads-uint16 h.fec_id_fits) (
                    Reads-bind _ (Reads-uint16 h.send_ts_fits) (
                      Reads-bind _ (Reads-uint16 h.transport_seq_fits) (
                        Reads-last _ (read_field-Reads b.payload h.payload_fits (omega arith))
                          (rw (remb_back b.remb) (Reads-pure _))))))))))))
