-- ===== src/FrameCache/Deliver.antt =====
-- sim_transport/sim_receiver.c: a frame whose segments come in any order is put together.
use lmp.Prelude.{
  concat, ℕ, ◌+◌, ◌<◌, ◌≤◌, ◌≡◌, refl, sym, ◌∙◌, ap, Bool, true, false, Option, none, some, List,
  [], ◌∷◌, ltb, leb, ◌==◌, if◌then◌else◌, length, arith, ◌⊎◌, inl, inr, All,
}
use mathlib.Core.Path.{subst}
use lmp.Proto.{Segment}
use lmp.FrameCache.{
  empty_frame, SimFrame, FrameCache, index_of, open_cache, advance, cache_put, fill_frame,
  put_frame,
}
use lmp.FrameCache.Play.{is_full, copy_frame}
use lmp.FrameCache.Frames.{empty-IsFrame}
use lmp.FrameCache.Assemble.{IsFragment, Holds, Has, Filled, fill_empty-Filled, fill_slot-Filled}
use lmp.FrameCache.Copy.{Matches-all, filled-Matches, AreSmall, copy_frame-Matches}

-- The segments are put in the cache, one after the other.
unfoldable pub deliver : List Segment → FrameCache → Option FrameCache
deliver [] c = some c
deliver (seg ∷ segs) c = elim (cache_put seg c) [ none ↦ none | some r ↦ deliver segs r.0 ]

deliver-cons :
    (seg : Segment) (segs : List Segment) (c d : FrameCache) (taken : Bool)
    → cache_put seg c ≡ some (d, taken)
    → deliver (seg ∷ segs) c ≡ deliver segs d
unfolding deliver
deliver-cons seg segs c d taken e = rw (deliver, e) refl

-- Does a segment with this index come?
abbrev pub Comes : ℕ → List Segment → Type 0
Comes i [] = ⊥
Comes i (seg ∷ segs) = (seg.index ≡ i) ⊎ Comes i segs

-- The cache waits for the frame `fid`, which is the next and the last one.
pub record Waits (fid type : ℕ) (pieces : List (List ℕ)) (c : FrameCache) : Type 0 where
  pub min_is : c.min_fid + 1 ≡ fid
  pub max_is : c.max_fid ≡ fid
  pub frame_is : (c.frames (index_of fid)).fid ≡ fid
  pub holds : Holds fid type pieces (c.frames (index_of fid))

-- What a segment of the frame does to the cache.
pub record Took (fid type : ℕ) (pieces : List (List ℕ)) (seg : Segment) (c d : FrameCache)
    : Type 0 where
  pub waits : Waits fid type pieces d
  pub has : Has seg.index (d.frames (index_of fid))
  pub keeps : (i : ℕ) → Has i (c.frames (index_of fid)) → Has i (d.frames (index_of fid))

same-test : (n : ℕ) → (n == n) ≡ true
same-test n = ground arith

put_frame_self :
    (frames : ℕ → SimFrame) (pos : ℕ) (frame : SimFrame) → put_frame frames pos frame pos ≡ frame
put_frame_self frames pos frame = rw (same-test pos) refl

-- A segment of a frame that is not yet played is put in its slot.
cache_put-fill :
    (seg : Segment) (c a : FrameCache) (frame : SimFrame) (taken : Bool)
    → seg.index < seg.total
    → c.min_fid < seg.fid
    → (if ltb c.max_fid seg.fid then advance seg c else c) ≡ a
    → fill_frame seg (a.frames (index_of seg.fid)) ≡ some (frame, taken)
    → cache_put seg c
      ≡ some (record a { frames = put_frame a.frames (index_of seg.fid) frame }, taken)
unfolding cache_put
cache_put-fill seg c a frame taken below new e g =
    let over : leb seg.total seg.index ≡ false = ground arith in
    let old : leb seg.fid c.min_fid ≡ false = ground arith in rw (over, old, e, g) refl

put_frame-Took :
    (fid type : ℕ) (pieces : List (List ℕ)) (seg : Segment) (c a : FrameCache) (frame : SimFrame)
    → a.min_fid + 1 ≡ fid
    → a.max_fid ≡ fid
    → Filled fid type pieces seg (c.frames (index_of fid)) frame
    → Took fid type pieces seg c (record a { frames = put_frame a.frames (index_of fid) frame })
put_frame-Took fid type pieces seg c a frame min_is max_is r =
    let e = sym (put_frame_self a.frames (index_of fid) frame) in
    record {
      waits = record {
        min_is = min_is;
        max_is = max_is;
        frame_is = ap (λ x. x.fid) (sym e) ∙ r.frame_is;
        holds = subst (Holds fid type pieces) e r.holds;
      };
      has = subst (Has seg.index) e r.has;
      keeps = λ i h. subst (Has i) e (r.keeps i h);
    }

-- After the first segment.
cache_put-Took :
    (fid type : ℕ) (pieces : List (List ℕ)) (seg : Segment) (c : FrameCache)
    → IsFragment fid type pieces seg
    → Waits fid type pieces c
    → (d : FrameCache) × (taken : Bool) × (cache_put seg c ≡ some (d, taken))
      × Took fid type pieces seg c d
cache_put-Took fid type pieces seg c f w =
    let r = fill_slot-Filled fid type pieces seg (c.frames (index_of fid)) f w.holds in
    let e : fill_frame seg (c.frames (index_of seg.fid)) ≡ some (r.0, r.1) =
      ap (λ n. fill_frame seg (c.frames (index_of n))) f.same_fid ∙ r.2 in
    let last : ltb c.max_fid seg.fid ≡ false = ground (arith, w.max_is, f.same_fid) in
    (
      record c { frames = put_frame c.frames (index_of seg.fid) r.0 },
      r.1,
      cache_put-fill seg c c r.0 r.1 (omega (arith, f.in_range, f.same_total))
          (omega (arith, w.min_is, f.same_fid)) (rw last refl) e,
      subst
          (λ n.
            Took fid type pieces seg c (record c { frames = put_frame c.frames (index_of n) r.0 }))
          (sym f.same_fid) (put_frame-Took fid type pieces seg c c r.0 w.min_is w.max_is r.3),
    )

cache_put-first :
    (fid type : ℕ) (pieces : List (List ℕ)) (seg : Segment) (rtt rtt_var : ℕ)
    → 0 < fid
    → IsFragment fid type pieces seg
    → (d : FrameCache) × (taken : Bool) × (cache_put seg (open_cache rtt rtt_var) ≡ some (d, taken))
      × Took fid type pieces seg (open_cache rtt rtt_var) d
unfolding open_cache advance
cache_put-first fid type pieces seg rtt rtt_var pos f =
    let c = open_cache rtt rtt_var in
    let a = advance seg c in
    let r = fill_empty-Filled fid type pieces seg empty_frame f (empty-IsFrame 0) refl in
    let first : ltb 0 seg.fid ≡ true = ground (arith, f.same_fid) in
    (
      record a { frames = put_frame a.frames (index_of seg.fid) r.0 },
      true,
      cache_put-fill seg c a r.0 true (omega (arith, f.in_range, f.same_total))
          (omega (arith, f.same_fid)) (rw first refl) r.1,
      subst
          (λ n.
            Took fid type pieces seg c (record a { frames = put_frame a.frames (index_of n) r.0 }))
          (sym f.same_fid)
          (put_frame-Took fid type pieces seg c a r.0 (omega (arith, f.same_fid)) f.same_fid r.2),
    )

-- The rest of the segments.
deliver-Waits :
    (fid type : ℕ) (pieces : List (List ℕ)) (segs : List Segment) (c : FrameCache)
    → All (IsFragment fid type pieces) segs
    → Waits fid type pieces c
    → (d : FrameCache) × (deliver segs c ≡ some d)
      × Waits fid type pieces d
      × ((i : ℕ)
          → (Has i (c.frames (index_of fid)) ⊎ Comes i segs)
          → Has i (d.frames (index_of fid)))
unfolding deliver
deliver-Waits fid type pieces [] c h w =
    (c, refl, w, λ i x. elim x [ inl y ↦ y | inr y ↦ absurd y ])
deliver-Waits fid type pieces (seg ∷ segs) c (f, h) w =
    let r = cache_put-Took fid type pieces seg c f w in
    let s = deliver-Waits fid type pieces segs r.0 h r.3.waits in
    (
      s.0,
      deliver-cons seg segs c r.0 r.1 r.2 ∙ s.1,
      s.2,
      λ i x. elim x [
        | inl y ↦ s.3 i (inl (r.3.keeps i y))
        | inr y ↦ elim y [
          | inl e ↦ s.3 i (inl (subst (λ n. Has n (r.0.frames (index_of fid))) e r.3.has))
          | inr z ↦ s.3 i (inr z)
        ]
      ],
    )

-- A frame whose id is not 0 comes whole: the segments of its pieces, one piece at least, each of at most
-- SIM_VIDEO_SIZE bytes, each at least once, in any order, to a cache that was just opened. No write is out of bounds, the frame is full, and its copy to a buffer that is large
-- enough is the pieces joined, with their payload type.
pub deliver-copy_frame :
    (fid type : ℕ) (pieces : List (List ℕ)) (segs : List Segment) (rtt rtt_var buffer_size : ℕ)
    → 0 < fid
    → 0 < length pieces
    → AreSmall pieces
    → length (concat pieces) ≤ buffer_size
    → All (IsFragment fid type pieces) segs
    → ((i : ℕ) → i < length pieces → Comes i segs)
    → (c : FrameCache) × (deliver segs (open_cache rtt rtt_var) ≡ some c)
      × (c.min_fid + 1 ≡ fid)
      × (c.max_fid ≡ fid)
      × (is_full (c.frames (index_of fid)) ≡ true)
      × (copy_frame buffer_size [] 0 (c.frames (index_of fid)).segments
          ≡ some (concat pieces, type))
unfolding deliver
deliver-copy_frame fid type pieces [] rtt rtt_var buffer_size pos some_piece small h f comes =
    absurd (comes 0 some_piece)
deliver-copy_frame fid type pieces (seg ∷ segs) rtt rtt_var buffer_size pos some_piece small h
      (f, fs) comes =
    let r = cache_put-first fid type pieces seg rtt rtt_var pos f in
    let s = deliver-Waits fid type pieces segs r.0 fs r.3.waits in
    let frame = s.0.frames (index_of fid) in
    let there : (i : ℕ) → i < length pieces → Has i frame = λ i l. elim (comes i l) [
      | inl e ↦ s.3 i (inl (subst (λ n. Has n (r.0.frames (index_of fid))) e r.3.has))
      | inr z ↦ s.3 i (inr z)
    ] in
    let holds = s.2.holds in
    let m =
      Matches-all type frame.segments pieces (holds.counted.number ∙ holds.number) there
        holds.parts in
    let k =
      copy_frame-Matches type frame.segments pieces buffer_size [] 0 m small (omega (arith, h)) in
    (
      s.0,
      deliver-cons seg segs (open_cache rtt rtt_var) r.0 r.1 r.2 ∙ s.1,
      s.2.min_is,
      s.2.max_is,
      ground (
        arith,
        holds.counted.number,
        holds.counted.count,
        filled-Matches type frame.segments pieces m,
      ),
      k.1 ∙ ap (λ t. some (concat pieces, t)) (k.2 (inr some_piece)),
    )
