-- ===== src/FlexFecXor/Recover.antt =====
-- sim_transport/fec/flex_fec_xor.c: the parity of a group gives back any one segment that is lost.
use Prim.Native.Nat.{bit_xor}
use lmp.Prelude.{
  ℕ, zero, suc, ◌-◌, ◌≤◌, ◌≡◌, refl, sym, ◌∙◌, ap, false, ltb, some, List, [], ◌∷◌, ◌++◌, length,
  replicate, take, arith, length-replicate,
}
use lmp.Prelude.Bits.{bit_xor_comm, bit_xor-zero}
use lmp.Proto.{Segment, Fec, FecMeta, sim_video_size}
use lmp.FlexFecXor.{
  meta_of, xor_meta, xor_data, xor_segment, longer, flex_fec_generate, xor_each, recovered,
  flex_fec_recover,
}
use lmp.FlexFecXor.Order.{
  foldl-Perm, foldl-twice, state_set, xor_segment_swap, xor_segment_undo, longer_swap,
}
use mathlib.Core.List.{foldl, Perm}
use mathlib.Core.List.Perm
use native.Mathlib.Nat.{ℕ_set}
use native.Mathlib.Numerals.{unary_clauses}

-- Every segment has at most `n` bytes of data.
abbrev pub Fits : ℕ → List Segment → Type 0
Fits n [] = Unit
Fits n (seg ∷ segs) = (length seg.payload ≤ n) × Fits n segs

longest_above : (segs : List Segment) (n : ℕ) → n ≤ foldl longer n segs
unfolding longer
longest_above [] n = omega arith
longest_above (seg ∷ segs) n = ground (arith, longest_above segs (longer n seg))

longest_below : (segs : List Segment) (n m : ℕ) → n ≤ m → Fits m segs → foldl longer n segs ≤ m
unfolding longer
longest_below [] n m h fit = h
longest_below (seg ∷ segs) n m h (p, fit) = longest_below segs (longer n seg) m (ground arith) fit

Fits-foldl : (segs : List Segment) (n m : ℕ) → foldl longer n segs ≤ m → Fits m segs
unfolding longer
Fits-foldl [] n m h = tt
Fits-foldl (seg ∷ segs) n m h =
    (ground (arith, longest_above segs (longer n seg)), Fits-foldl segs (longer n seg) m h)

-- The empty parity of `n` bytes.
no_meta : FecMeta
no_meta = record {
  seq = 0;
  fid = 0;
  ts = 0;
  index = 0;
  total = 0;
  ftype = 0;
  payload_type = 0;
  size = 0;
}

zero_xor : (a : ℕ) → bit_xor 0 a ≡ a
zero_xor a = bit_xor_comm 0 a ∙ bit_xor-zero a

xor_meta-no_meta : (seg : Segment) → xor_meta no_meta seg ≡ meta_of seg
unfolding xor_meta meta_of no_meta
xor_meta-no_meta seg = simp zero_xor refl

zeros : (n : ℕ) → xor_data (replicate n 0) [] ≡ replicate n 0
unfolding xor_data
zeros zero = refl
zeros (suc n) = ap (λ x. 0 ∷ x) (zeros n)

xor_data-replicate :
    (n : ℕ) (bytes : List ℕ)
    → length bytes ≤ n
    → xor_data (replicate n 0) bytes ≡ bytes ++ replicate (n - length bytes) 0
unfolding xor_data
xor_data-replicate zero [] h = refl
xor_data-replicate zero (b ∷ bytes) h = absurd (omega arith)
xor_data-replicate (suc n) [] h = simp unary_clauses (ap (λ x. 0 ∷ x) (zeros n))
xor_data-replicate (suc n) (b ∷ bytes) h =
    rw (zero_xor b)
      (simp unary_clauses (ap (λ x. b ∷ x) (xor_data-replicate n bytes (omega arith))))

abbrev start : ℕ → FecMeta × List ℕ
start n = (no_meta, replicate n 0)

xor_segment-start :
    (n : ℕ) (seg : Segment)
    → length seg.payload ≤ n
    → xor_segment (start n) seg ≡ (meta_of seg, seg.payload ++ replicate (n - length seg.payload) 0)
unfolding xor_segment
xor_segment-start n seg h = rw (xor_meta-no_meta seg, xor_data-replicate n seg.payload h)

-- The parity of a group, in terms of the empty one.
abbrev parity : List Segment → FecMeta × List ℕ
parity segs = foldl xor_segment (start (foldl longer 0 segs)) segs

flex_fec_generate-parity :
    (seg seg₁ : Segment) (segs : List Segment) (fec : Fec)
    → Fits sim_video_size (seg ∷ seg₁ ∷ segs)
    → flex_fec_generate (seg ∷ seg₁ ∷ segs) fec
      ≡ some (record fec {
        fec_meta = (parity (seg ∷ seg₁ ∷ segs)).0;
        fec_data = (parity (seg ∷ seg₁ ∷ segs)).1;
      })
unfolding flex_fec_generate
flex_fec_generate-parity seg seg₁ segs fec fit =
    let size = foldl longer 0 (seg ∷ seg₁ ∷ segs) in
    let below : size ≤ sim_video_size =
      longest_below (seg ∷ seg₁ ∷ segs) 0 sim_video_size (omega arith) fit in
    let first : length seg.payload ≤ size =
      (Fits-foldl (seg ∷ seg₁ ∷ segs) 0 size (omega arith)).0 in
    let e : ltb sim_video_size size ≡ false = ground arith in
    rw e (
      ap
        (λ s. some (record fec {
          fec_meta = (foldl xor_segment s (seg₁ ∷ segs)).0;
          fec_data = (foldl xor_segment s (seg₁ ∷ segs)).1;
        }))
        (sym (xor_segment-start size seg first)))

xor_each_lem :
    (size : ℕ) (segs : List Segment) (s : FecMeta × List ℕ)
    → Fits size segs
    → xor_each size segs s ≡ some (foldl xor_segment s segs)
unfolding xor_each
xor_each_lem size [] s fit = refl
xor_each_lem size (seg ∷ segs) s (h, fit) =
    ground (arith, xor_each_lem size segs (xor_segment s seg) fit)

length-xor_data : (d bytes : List ℕ) → length (xor_data d bytes) ≡ length d
unfolding xor_data
length-xor_data [] bytes = refl
length-xor_data (b ∷ d) [] = ap suc (length-xor_data d [])
length-xor_data (b ∷ d) (x ∷ bytes) = ap suc (length-xor_data d bytes)

length-foldl :
    (segs : List Segment) (s : FecMeta × List ℕ) → length (foldl xor_segment s segs).1 ≡ length s.1
unfolding xor_segment
length-foldl [] s = refl
length-foldl (seg ∷ segs) s =
    length-foldl segs (xor_segment s seg) ∙ length-xor_data s.1 seg.payload

take-append : (xs ys : List ℕ) → take (length xs) (xs ++ ys) ≡ xs
take-append [] ys = refl
take-append (x ∷ xs) ys = ap (λ l. x ∷ l) (take-append xs ys)

-- What recovery gives: the fields of the lost segment that the parity covers, in `out_seg`.
abbrev pub restored : Segment → ℕ → Segment → Segment
restored lost id out_seg = record out_seg {
  packet_id = lost.packet_id;
  fid = lost.fid;
  timestamp = lost.timestamp;
  index = lost.index;
  total = lost.total;
  ftype = lost.ftype;
  payload_type = lost.payload_type;
  fec_id = id;
  payload = lost.payload;
}

-- The loop of the recovery undoes all of the parity but the lost segment.
xor_each-parity :
    (segs rest : List Segment) (lost : Segment)
    → Perm segs (lost ∷ rest)
    → xor_each (foldl longer 0 segs) rest (parity segs)
      ≡ some (xor_segment (start (foldl longer 0 segs)) lost)
xor_each-parity segs rest lost perm =
    let size = foldl longer 0 segs in
    let e : foldl longer 0 (lost ∷ rest) ≡ size =
      sym (foldl-Perm longer longer_swap ℕ_set perm 0) in
    xor_each_lem size rest (parity segs) (Fits-foldl (lost ∷ rest) 0 size (omega arith)).1
    ∙ ap (λ s. some (foldl xor_segment s rest))
        (foldl-Perm xor_segment xor_segment_swap state_set perm (start size))
    ∙ ap some (
        foldl-twice xor_segment xor_segment_swap xor_segment_undo rest
          (xor_segment (start size) lost))

recovered-start :
    (fec : Fec) (lost out_seg : Segment)
    → length lost.payload ≤ length fec.fec_data
    → recovered fec out_seg (some (xor_segment (start (length fec.fec_data)) lost))
      ≡ some (restored lost fec.fec_id out_seg)
unfolding recovered meta_of
recovered-start fec lost out_seg h =
    let e : ltb (length fec.fec_data) (length lost.payload) ≡ false = ground arith in
    rw (
      xor_segment-start (length fec.fec_data) lost h,
      e,
      take-append lost.payload (replicate (length fec.fec_data - length lost.payload) 0),
    )

length-parity : (segs : List Segment) → length (parity segs).1 ≡ foldl longer 0 segs
length-parity segs =
    length-foldl segs (start (foldl longer 0 segs)) ∙ length-replicate (foldl longer 0 segs) 0

-- The two functions together, with a parity whose data are as long as the longest segment's.
flex_fec_recover-parity :
    (segs rest : List Segment) (seg lost out_seg : Segment) (fec : Fec)
    → Perm segs (lost ∷ seg ∷ rest)
    → flex_fec_recover
        (seg ∷ rest)
        (record fec { fec_meta = (parity segs).0; fec_data = (parity segs).1 })
        out_seg
      ≡ some (restored lost fec.fec_id out_seg)
unfolding flex_fec_recover
flex_fec_recover-parity segs rest seg lost out_seg fec perm =
    let size = foldl longer 0 segs in
    let full : Fec = record fec { fec_meta = (parity segs).0; fec_data = (parity segs).1 } in
    let e : foldl longer 0 (lost ∷ seg ∷ rest) ≡ size =
      sym (foldl-Perm longer longer_swap ℕ_set perm 0) in
    let fits : length lost.payload ≤ size =
      (Fits-foldl (lost ∷ seg ∷ rest) 0 size (omega arith)).0 in
    ap (λ n. recovered full out_seg (xor_each n (seg ∷ rest) (parity segs))) (length-parity segs)
    ∙ ap (recovered full out_seg) (xor_each-parity segs (seg ∷ rest) lost perm)
    ∙ ap (λ n. recovered full out_seg (some (xor_segment (start n) lost)))
        (sym (length-parity segs))
    ∙ recovered-start full lost out_seg (omega (arith, length-parity segs))

-- Of a group of at least two segments with at most SIM_VIDEO_SIZE bytes of data each, any one
-- segment may be lost: flex_fec_generate succeeds on the group, and flex_fec_recover, given the
-- others in any order, gives back the lost one in every field that the parity covers, with its
-- data at its length.
pub flex_fec_recover-flex_fec_generate :
    (segs rest : List Segment) (seg lost out_seg : Segment) (fec : Fec)
    → Perm segs (lost ∷ seg ∷ rest)
    → Fits sim_video_size segs
    → (parity_packet : Fec) × (flex_fec_generate segs fec ≡ some parity_packet)
      × (flex_fec_recover (seg ∷ rest) parity_packet out_seg
          ≡ some (restored lost fec.fec_id out_seg))
flex_fec_recover-flex_fec_generate [] rest seg lost out_seg fec perm fits =
    absurd (grind (arith, Perm.length-eq perm))
flex_fec_recover-flex_fec_generate (a ∷ []) rest seg lost out_seg fec perm fits =
    absurd (grind (arith, Perm.length-eq perm))
flex_fec_recover-flex_fec_generate (a ∷ b ∷ segs) rest seg lost out_seg fec perm fits = (
  _,
  flex_fec_generate-parity a b segs fec fits,
  flex_fec_recover-parity (a ∷ b ∷ segs) rest seg lost out_seg fec perm,
)
