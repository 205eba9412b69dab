-- ===== src/FlexFecXor/Tests.antt =====
-- A group of three segments of different lengths, of which the middle one is lost.
use lmp.Prelude.{ℕ, ◌≡◌, some, List, [], ◌∷◌, arith}
use lmp.Proto.{Segment, Fec}
use lmp.FlexFecXor.{flex_fec_generate, flex_fec_recover}
use lmp.FlexFecXor.Recover.{restored, flex_fec_recover-flex_fec_generate}
use mathlib.Core.List.{perm_middle}

abbrev segment : ℕ → List ℕ → Segment
segment id bytes = record {
  packet_id = id;
  fid = 77;
  timestamp = 123;
  index = id;
  total = 3;
  ftype = 1;
  payload_type = 9;
  remb = 1;
  fec_id = 0;
  send_ts = 5;
  transport_seq = 6;
  payload = bytes;
}

abbrev a : Segment
a = segment 1 (1 ∷ 2 ∷ 3 ∷ [])

abbrev b : Segment
b = segment 2 (250 ∷ 17 ∷ 200 ∷ 1 ∷ [])

abbrev c : Segment
c = segment 3 (9 ∷ [])

abbrev packet : Fec
packet = record {
  fec_id = 40;
  row = 1;
  col = 0;
  index = 2;
  count = 3;
  base_id = 1;
  send_ts = 0;
  transport_seq = 0;
  fec_meta = record {
    seq = 0;
    fid = 0;
    ts = 0;
    index = 0;
    total = 0;
    ftype = 0;
    payload_type = 0;
    size = 0;
  };
  fec_data = [];
}

flex_fec_recover-flex_fec_generate_example :
    (p : Fec) × (flex_fec_generate (a ∷ b ∷ c ∷ []) packet ≡ some p)
    × (flex_fec_recover (a ∷ c ∷ []) p (segment 0 []) ≡ some (restored b 40 (segment 0 [])))
flex_fec_recover-flex_fec_generate_example =
    flex_fec_recover-flex_fec_generate (a ∷ b ∷ c ∷ []) (c ∷ []) a b (segment 0 []) packet
      (perm_middle (a ∷ []) (c ∷ [])) (omega arith, (omega arith, (omega arith, tt)))
