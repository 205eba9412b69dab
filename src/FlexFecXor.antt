-- ===== src/FlexFecXor.antt =====
-- sim_transport/fec/flex_fec_xor.c: one parity packet protects a group of segments, each field by
-- exclusive or.
mod Order
pub mod Recover
mod Tests
use Prim.Native.Nat.{bit_xor}
use lmp.Prelude.{
  ℕ, ltb, if◌then◌else◌, Option, none, some, List, [], ◌∷◌, ◌++◌, ◌-◌, length, replicate, take,
}
use lmp.Proto.{Segment, Fec, FecMeta, sim_video_size}
use mathlib.Core.List.{foldl}

-- The fields of the first segment, from which both loops of exclusive ors start.
unfoldable pub meta_of : Segment → FecMeta
meta_of seg = record {
  seq = seg.packet_id;
  fid = seg.fid;
  ts = seg.timestamp;
  index = seg.index;
  total = seg.total;
  ftype = seg.ftype;
  payload_type = seg.payload_type;
  size = length seg.payload;
}

-- What one turn of a loop does to these fields.
unfoldable pub xor_meta : FecMeta → Segment → FecMeta
xor_meta m seg = record {
  seq = bit_xor m.seq seg.packet_id;
  fid = bit_xor m.fid seg.fid;
  ts = bit_xor m.ts seg.timestamp;
  index = bit_xor m.index seg.index;
  total = bit_xor m.total seg.total;
  ftype = bit_xor m.ftype seg.ftype;
  payload_type = bit_xor m.payload_type seg.payload_type;
  size = bit_xor m.size (length seg.payload);
}

-- The inner loop, over `fec_data_size` bytes: a segment that has fewer was filled up with zeros.
unfoldable pub xor_data : List ℕ → List ℕ → List ℕ
xor_data [] bytes = []
xor_data (d ∷ data_bytes) [] = bit_xor d 0 ∷ xor_data data_bytes []
xor_data (d ∷ data_bytes) (b ∷ bytes) = bit_xor d b ∷ xor_data data_bytes bytes

-- One turn of the loop: the fields, and the data.
unfoldable pub xor_segment : FecMeta × List ℕ → Segment → FecMeta × List ℕ
xor_segment (m, data_bytes) seg = (xor_meta m seg, xor_data data_bytes seg.payload)

-- The loop that looks for the size of the longest segment, and its turn.
unfoldable pub longer : ℕ → Segment → ℕ
longer size seg = if ltb size (length seg.payload) then length seg.payload else size

-- `flex_fec_generate`; the callers look at `fec` only where it returns 0, so that -1 is `none`.
unfoldable pub flex_fec_generate : List Segment → Fec → Option Fec
unfolding longer xor_segment meta_of
flex_fec_generate [] fec = none
flex_fec_generate (seg ∷ []) fec = none
flex_fec_generate (seg ∷ seg₁ ∷ segs) fec =
    let size = foldl longer 0 (seg ∷ seg₁ ∷ segs) in
    let start = seg.payload ++ replicate (size - length seg.payload) 0 in
    let r : FecMeta × List ℕ = foldl xor_segment (meta_of seg, start) (seg₁ ∷ segs) in
    if ltb sim_video_size size then none else some (record fec { fec_meta = r.0; fec_data = r.1 })

-- The loop of `flex_fec_recover`, which returns -1 at a segment with more data than the parity.
unfoldable pub xor_each : ℕ → List Segment → FecMeta × List ℕ → Option (FecMeta × List ℕ)
unfolding xor_segment
xor_each size [] state = some state
xor_each size (seg ∷ segs) state =
    let rest = xor_each size segs (xor_segment state seg) in
    if ltb size (length seg.payload) then none else rest

-- What follows the loop; the data of a segment are its first `data_size` bytes.
unfoldable pub recovered : Fec → Segment → Option (FecMeta × List ℕ) → Option Segment
recovered fec out_seg none = none
recovered fec out_seg (some (m, data_bytes)) =
    if ltb (length fec.fec_data) m.size
    then none
    else some (record out_seg {
      packet_id = m.seq;
      fid = m.fid;
      timestamp = m.ts;
      index = m.index;
      total = m.total;
      ftype = m.ftype;
      payload_type = m.payload_type;
      fec_id = fec.fec_id;
      payload = take m.size data_bytes;
    })

-- `flex_fec_recover`; the callers free `out_seg` where it returns -1.
unfoldable pub flex_fec_recover : List Segment → Fec → Segment → Option Segment
unfolding xor_each recovered
flex_fec_recover [] fec out_seg = none
flex_fec_recover (seg ∷ segs) fec out_seg =
    recovered fec out_seg (xor_each (length fec.fec_data) (seg ∷ segs) (fec.fec_meta, fec.fec_data))
