-- ===== src/FrameCache/Assemble.antt =====
-- sim_transport/sim_receiver.c: the segments of one frame come in any order, some of them twice.
use lmp.Prelude.{
  ℕ, zero, suc, ◌+◌, ◌<◌, ◌≡◌, refl, sym, ◌∙◌, ap, Bool, true, false, Option, none, some, List, [],
  ◌∷◌, ◌==◌, length, get_elem?, set, replicate, length-replicate, get_elem?-set_self,
  get_elem?-set_ne, arith,
}
use native.Mathlib.Decide.{ℕ_discrete}
use lmp.Proto.{Segment}
use lmp.FrameCache.{SimFrame, fill_frame, fill_slot}
use lmp.FrameCache.Frames.{IsFrame, fill_frame-IsFrame, get_elem?-lt}

-- A segment of the frame `fid` that is cut to `pieces`.
pub record IsFragment (fid type : ℕ) (pieces : List (List ℕ)) (seg : Segment) : Type 0 where
  pub same_fid : seg.fid ≡ fid
  pub same_total : seg.total ≡ length pieces
  pub same_type : seg.payload_type ≡ type
  pub in_range : seg.index < length pieces
  pub piece : get_elem? pieces seg.index ≡ some seg.payload

-- The segments that a frame has are pieces of it.
pub record Holds (fid type : ℕ) (pieces : List (List ℕ)) (frame : SimFrame) : Type 0 where
  pub counted : IsFrame frame
  pub number : frame.seg_number ≡ length pieces
  pub parts :
      (i : ℕ) (seg : Segment)
      → get_elem? frame.segments i ≡ some (some seg)
      → (get_elem? pieces i ≡ some seg.payload) × (seg.payload_type ≡ type)

-- Is the segment with this index there?
abbrev pub Has : ℕ → SimFrame → Type 0
Has i frame = (seg : Segment) × (get_elem? frame.segments i ≡ some (some seg))

set-parts :
    (fid type : ℕ) (pieces : List (List ℕ)) (segments : List (Option Segment)) (seg : Segment)
    → IsFragment fid type pieces seg
    → seg.index < length segments
    → ((i : ℕ) (old : Segment)
        → get_elem? segments i ≡ some (some old)
        → (get_elem? pieces i ≡ some old.payload) × (old.payload_type ≡ type))
    → (i : ℕ) (old : Segment) → get_elem? (set segments seg.index (some seg)) i ≡ some (some old)
    → (get_elem? pieces i ≡ some old.payload) × (old.payload_type ≡ type)
set-parts fid type pieces segments seg f below h i old e = elim (ℕ_discrete i seg.index) [
  | yes q ↦
      let same : seg ≡ old = cc (
        get_elem?-set_self segments seg.index (some seg) below,
        e,
        ap (get_elem? (set segments seg.index (some seg))) q,
      ) in
      (
        ap (get_elem? pieces) q ∙ f.piece ∙ ap (λ x. some (x.payload)) same,
        sym (ap (λ x. x.payload_type) same) ∙ f.same_type,
      )
  | no n ↦ h i old (sym (get_elem?-set_ne segments (some seg) (λ q. n (sym q))) ∙ e)
]

set-Has :
    (old : SimFrame) (i : ℕ) (seg : Segment)
    → seg.index < length old.segments
    → Has i old
    → (x : Segment) × (get_elem? (set old.segments seg.index (some seg)) i ≡ some (some x))
set-Has old i seg below (x, e) = elim (ℕ_discrete seg.index i) [
  | yes q ↦ (
    seg,
    ap (get_elem? (set old.segments seg.index (some seg))) (sym q)
        ∙ get_elem?-set_self old.segments seg.index (some seg) below,
  )
  | no n ↦ (x, get_elem?-set_ne old.segments (some seg) n ∙ e)
]

pub get_elem?-some-lt :
    {A : Type 0} (xs : List A) (i : ℕ) (a : A) → get_elem? xs i ≡ some a → i < length xs
get_elem?-some-lt [] i a e = absurd (cc e)
get_elem?-some-lt (x ∷ xs) zero a e = omega arith
get_elem?-some-lt (x ∷ xs) (suc i) a e = omega (arith, get_elem?-some-lt xs i a e)

replicate-none : (n i : ℕ) (seg : Segment) → ¬ (get_elem? (replicate n none) i ≡ some (some seg))
replicate-none zero i seg e = cc e
replicate-none (suc n) zero seg e = cc e
replicate-none (suc n) (suc i) seg e = replicate-none n i seg e

replicate_below : (i n : ℕ) → i < n → i < length (replicate {A = Option Segment} n none)
replicate_below i n h = omega (arith, length-replicate {A = Option Segment} n none)

-- What a segment does to its frame.
pub record Filled (fid type : ℕ) (pieces : List (List ℕ)) (seg : Segment) (old frame : SimFrame)
    : Type 0 where
  pub holds : Holds fid type pieces frame
  pub frame_is : frame.fid ≡ fid
  pub has : Has seg.index frame
  pub keeps : (i : ℕ) → Has i old → Has i frame

pub fill_empty-Filled :
    (fid type : ℕ) (pieces : List (List ℕ)) (seg : Segment) (old : SimFrame)
    → IsFragment fid type pieces seg
    → IsFrame old
    → old.seg_number ≡ 0
    → (frame : SimFrame) × (fill_frame seg old ≡ some (frame, true))
      × Filled fid type pieces seg old frame
unfolding fill_frame
fill_empty-Filled fid type pieces seg old f c e =
    let s = replicate seg.total none in
    let below : seg.index < length s =
      replicate_below seg.index seg.total (omega (arith, f.in_range, f.same_total)) in
    let frame : SimFrame = record {
      fid = seg.fid;
      ts = seg.timestamp;
      frame_type = seg.ftype;
      seg_count = 1;
      seg_number = seg.total;
      segments = set s seg.index (some seg);
    } in
    let test : (old.seg_number == 0) ≡ true = ground (arith, e) in
    let eq : fill_frame seg old ≡ some (frame, true) = rw test refl in
    (
      frame,
      eq,
      record {
        holds = record {
          counted =
              fill_frame-IsFrame seg old frame true (omega (arith, f.in_range, f.same_total)) c eq;
          number = f.same_total;
          parts =
              set-parts fid type pieces s seg f below
                (λ i x q. absurd (replicate-none seg.total i x q));
        };
        frame_is = f.same_fid;
        has = (seg, get_elem?-set_self s seg.index (some seg) below);
        keeps = λ i (x, q).
            absurd (omega (arith, get_elem?-some-lt old.segments i (some x) q, c.number, e));
      },
    )

pub fill_slot-Filled :
    (fid type : ℕ) (pieces : List (List ℕ)) (seg : Segment) (old : SimFrame)
    → IsFragment fid type pieces seg
    → Holds fid type pieces old
    → (frame : SimFrame) × (taken : Bool) × (fill_frame seg old ≡ some (frame, taken))
      × Filled fid type pieces seg old frame
unfolding fill_frame fill_slot
fill_slot-Filled fid type pieces seg old f h =
    let below : seg.index < length old.segments =
      omega (arith, f.in_range, h.number, h.counted.number) in
    let g = get_elem?-lt old.segments seg.index below in
    let test : (old.seg_number == 0) ≡ false = ground (arith, f.in_range, h.number) in
    at g.0 g.1 below test
  where
    at :
        (o : Option Segment)
        → get_elem? old.segments seg.index ≡ some o
        → seg.index < length old.segments
        → (old.seg_number == 0) ≡ false
        → (frame : SimFrame) × (taken : Bool) × (fill_frame seg old ≡ some (frame, taken))
          × Filled fid type pieces seg old frame
    at none g below test =
        let frame : SimFrame = record old {
          fid = seg.fid;
          ts = seg.timestamp;
          frame_type = seg.ftype;
          segments = set old.segments seg.index (some seg);
          seg_count = old.seg_count + 1;
        } in
        let eq : fill_frame seg old ≡ some (frame, true) = rw (test, g) refl in
        (
          frame,
          true,
          eq,
          record {
            holds = record {
              counted =
                  fill_frame-IsFrame seg old frame true (omega (arith, f.in_range, f.same_total))
                    h.counted eq;
              number = h.number;
              parts = set-parts fid type pieces old.segments seg f below h.parts;
            };
            frame_is = f.same_fid;
            has = (seg, get_elem?-set_self old.segments seg.index (some seg) below);
            keeps = λ i x. set-Has old i seg below x;
          },
        )
    at (some there) g below test =
        let frame : SimFrame = record old {
          fid = seg.fid;
          ts = seg.timestamp;
          frame_type = seg.ftype;
        } in
        let eq : fill_frame seg old ≡ some (frame, false) = rw (test, g) refl in
        (
          frame,
          false,
          eq,
          record {
            holds = record { counted = h.counted; number = h.number; parts = h.parts };
            frame_is = f.same_fid;
            has = (there, g);
            keeps = λ i x. x;
          },
        )
