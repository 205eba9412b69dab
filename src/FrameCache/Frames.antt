-- ===== src/FrameCache/Frames.antt =====
-- sim_transport/sim_receiver.c: the frames of the cache count their segments.
use lmp.Prelude.{
  ℕ, zero, suc, ◌+◌, ◌<◌, ◌≤◌, ◌≡◌, refl, ◌∙◌, ap, Bool, Option, none, some, List, [], ◌∷◌, ◌==◌,
  length, get_elem?, set, replicate, length-set, length-replicate, arith, inl, inr, Bool-cases,
}
use mathlib.Core.Path.{subst}
use lmp.Proto.{Segment}
use lmp.FrameCache.{SimFrame, empty_frame, fill_frame, fill_slot}

-- How many segments are there?
unfoldable pub filled : List (Option Segment) → ℕ
filled [] = 0
filled (none ∷ segments) = filled segments
filled (some seg ∷ segments) = suc (filled segments)

pub filled-le : (segments : List (Option Segment)) → filled segments ≤ length segments
unfolding filled
filled-le [] = omega arith
filled-le (none ∷ segments) = omega (arith, filled-le segments)
filled-le (some seg ∷ segments) = omega (arith, filled-le segments)

pub filled-replicate : (n : ℕ) → filled (replicate n none) ≡ 0
unfolding filled
filled-replicate zero = refl
filled-replicate (suc n) = filled-replicate n

pub filled-set :
    (segments : List (Option Segment)) (i : ℕ) (seg : Segment)
    → get_elem? segments i ≡ some none
    → filled (set segments i (some seg)) ≡ filled segments + 1
unfolding filled
filled-set [] i seg e = absurd (cc e)
filled-set (none ∷ segments) zero seg e = omega arith
filled-set (some old ∷ segments) zero seg e = absurd (cc e)
filled-set (none ∷ segments) (suc i) seg e = filled-set segments i seg e
filled-set (some old ∷ segments) (suc i) seg e = omega (arith, filled-set segments i seg e)

pub get_elem?-replicate :
    {A : Type 0} (n i : ℕ) (a : A) → i < n → get_elem? (replicate n a) i ≡ some a
get_elem?-replicate zero i a h = absurd (omega arith)
get_elem?-replicate (suc n) zero a h = refl
get_elem?-replicate (suc n) (suc i) a h = get_elem?-replicate n i a (omega arith)

pub get_elem?-lt :
    {A : Type 0} (xs : List A) (i : ℕ) → i < length xs → (a : A) × (get_elem? xs i ≡ some a)
get_elem?-lt [] i h = absurd (omega arith)
get_elem?-lt (x ∷ xs) zero h = (x, refl)
get_elem?-lt (x ∷ xs) (suc i) h = get_elem?-lt xs i (omega arith)

-- `seg_number` is the length of `segments`, and `seg_count` how many are there.
pub record Counted (segments : List (Option Segment)) (seg_number seg_count : ℕ) : Type 0 where
  pub number : length segments ≡ seg_number
  pub count : filled segments ≡ seg_count

abbrev pub IsFrame : SimFrame → Type 0
IsFrame frame = Counted frame.segments frame.seg_number frame.seg_count

pub some-transfer :
    (P : SimFrame → Type 0) {x y : SimFrame} {a b : Bool}
    → ◌≡◌ {A = Option (SimFrame × Bool)} (some (x, a)) (some (y, b))
    → P x
    → P y
some-transfer P {x} {y} e h = subst P (cc e) h

pub empty-IsFrame : (fid : ℕ) → IsFrame (record empty_frame { fid = fid })
unfolding filled
empty-IsFrame fid = record { number = refl; count = refl }

fill_slot-IsFrame :
    (seg : Segment) (frame : SimFrame) (o : Option (Option Segment)) (frame' : SimFrame)
    (taken : Bool)
    → get_elem? frame.segments seg.index ≡ o
    → IsFrame frame
    → fill_slot seg frame o ≡ some (frame', taken)
    → IsFrame frame'
unfolding fill_slot
fill_slot-IsFrame seg frame none frame' taken g h e = absurd (cc e)
fill_slot-IsFrame seg frame (some (some old)) frame' taken g h e = some-transfer IsFrame e h
fill_slot-IsFrame seg frame (some none) frame' taken g h e = some-transfer IsFrame e (record {
  number = length-set frame.segments seg.index (some seg) ∙ h.number;
  count = filled-set frame.segments seg.index seg g ∙ ap (λ n. n + 1) h.count;
})

-- A segment whose index is below its `total` keeps the counts.
pub fill_frame-IsFrame :
    (seg : Segment) (old frame : SimFrame) (taken : Bool)
    → seg.index < seg.total
    → IsFrame old
    → fill_frame seg old ≡ some (frame, taken)
    → IsFrame frame
unfolding fill_frame
fill_frame-IsFrame seg old frame taken below h = elim (Bool-cases (old.seg_number == 0)) [
  | inl e ↦ rw e (λ q. some-transfer IsFrame q (record {
    number =
        length-set (replicate seg.total none) seg.index (some seg)
        ∙ length-replicate seg.total none;
    count =
        filled-set (replicate seg.total none) seg.index seg
          (get_elem?-replicate seg.total seg.index none below)
        ∙ ap (λ n. n + 1) (filled-replicate seg.total);
  }))
  | inr e ↦ rw e (
      fill_slot-IsFrame seg
        (record old { fid = seg.fid; frame_type = seg.ftype; ts = seg.timestamp })
        (get_elem? old.segments seg.index) frame taken refl h)
]
