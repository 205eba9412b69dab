-- ===== src/FrameCache/Safe.antt =====
-- sim_transport/sim_receiver.c: every operation keeps the frames counted, and no null pointer is read.
use lmp.Prelude.{
  ℕ, zero, suc, ◌+◌, ◌-◌, ◌%◌, ◌^◌, ◌≡◌, refl, Bool, true, false, Option, none, some, List, [], ◌∷◌,
  ◌++◌, ltb, leb, ◌==◌, ◌&&◌, if◌then◌else◌, length, arith, inl, inr, Bool-cases, max,
}
use mathlib.Core.Path.{subst}
use lmp.Proto.{Segment, sim_video_size}
use lmp.FrameCache.{
  SimFrame, FrameCache, put_frame, index_of, open_cache, clean_frame, clean_frames, skip_frames,
  evict_to_key, find_key, evict_gop_frame, evict_frame, key_or, advance, reset_cache, cache_size,
}
use lmp.FrameCache.Play.{check_playing, copy_frame, space_of}
use lmp.FrameCache.Frames.{IsFrame, filled, filled-le, empty-IsFrame}

abbrev pub AreFrames : (ℕ → SimFrame) → Type 0
AreFrames frames = (i : ℕ) → IsFrame (frames i)

abbrev AreCached : FrameCache → Type 0
AreCached c = AreFrames c.frames

pub some-AreFrames :
    {x y : FrameCache} {a b : Bool}
    → ◌≡◌ {A = Option (FrameCache × Bool)} (some (x, a)) (some (y, b))
    → AreFrames x.frames
    → AreFrames y.frames
some-AreFrames {x} {y} e h = (let p : x ≡ y = cc e in subst AreCached p h)

pub if-AreFrames :
    (b : Bool) (c d : FrameCache)
    → AreFrames c.frames
    → AreFrames d.frames
    → AreFrames (if b then c else d).frames
if-AreFrames true c d h k = h
if-AreFrames false c d h k = k

pub put_frame-AreFrames :
    (frames : ℕ → SimFrame) (pos : ℕ) (frame : SimFrame)
    → AreFrames frames
    → IsFrame frame
    → AreFrames (put_frame frames pos frame)
put_frame-AreFrames frames pos frame h f i = elim (Bool-cases (i == pos)) [
  | inl e ↦ rw e f
  | inr e ↦ rw e (h i)
]

pub open_cache-AreFrames : (rtt rtt_var : ℕ) → AreFrames (open_cache rtt rtt_var).frames
unfolding open_cache
open_cache-AreFrames rtt rtt_var i = empty-IsFrame 0

pub clean_frame-AreFrames :
    (pos : ℕ) (c : FrameCache) → AreFrames c.frames → AreFrames (clean_frame pos c).frames
unfolding clean_frame
clean_frame-AreFrames pos c h = elim (Bool-cases ((c.frames pos).seg_number == 0)) [
  | inl e ↦ rw e h
  | inr e ↦ rw e (put_frame-AreFrames c.frames pos _ h (empty-IsFrame (c.frames pos).fid))
]

clean_frames-AreFrames :
    (n i : ℕ) (c : FrameCache) → AreFrames c.frames → AreFrames (clean_frames n i c).frames
unfolding clean_frames
clean_frames-AreFrames zero i c h = h
clean_frames-AreFrames (suc n) i c h =
    clean_frames-AreFrames n (i + 1) (clean_frame (index_of i) c)
      (clean_frame-AreFrames (index_of i) c h)

skip_frames-AreFrames :
    (n i : ℕ) (c : FrameCache) → AreFrames c.frames → AreFrames (skip_frames n i c).frames
unfolding skip_frames
skip_frames-AreFrames zero i c h = h
skip_frames-AreFrames (suc n) i c h =
    let d = record c { frame_ts = (c.frames (index_of i)).ts } in
    skip_frames-AreFrames n (i + 1) (clean_frame (index_of i) d)
      (clean_frame-AreFrames (index_of i) d h)

evict_to_key-AreFrames :
    (c : FrameCache) (o : Option ℕ) → AreFrames c.frames → AreFrames (evict_to_key c o).0.frames
unfolding evict_to_key
evict_to_key-AreFrames c none h = h
evict_to_key-AreFrames c (some key) h =
    skip_frames-AreFrames (key - (c.min_fid + 1)) (c.min_fid + 1) c h

pub evict_gop_frame-AreFrames :
    (c : FrameCache) → AreFrames c.frames → AreFrames (evict_gop_frame c).0.frames
unfolding evict_gop_frame
evict_gop_frame-AreFrames c h = evict_to_key-AreFrames c _ h

pub reset_cache-AreFrames :
    (rtt rtt_var : ℕ) (c : FrameCache)
    → AreFrames c.frames
    → AreFrames (reset_cache rtt rtt_var c).frames
unfolding reset_cache
reset_cache-AreFrames rtt rtt_var c h = clean_frames-AreFrames cache_size 0 c h

evict_frame-AreFrames :
    (fid : ℕ) (c : FrameCache) → AreFrames c.frames → AreFrames (evict_frame fid c).frames
unfolding evict_frame
evict_frame-AreFrames fid c h =
    let d = clean_frames (fid - c.max_fid) (c.max_fid + 1) c in
    let k = clean_frames-AreFrames (fid - c.max_fid) (c.max_fid + 1) c h in
    let first = d.min_fid + 1 in
    let pos = key_or (max first d.max_fid) (find_key (d.max_fid - first) first d) in
    elim (Bool-cases (ltb fid ((d.min_fid + cache_size) % 2 ^ 32))) [
      | inl e ↦ rw e k
      | inr e ↦ rw e (clean_frames-AreFrames (pos - first) first d k)
    ]

pub advance-AreFrames :
    (seg : Segment) (c : FrameCache) → AreFrames c.frames → AreFrames (advance seg c).frames
unfolding advance
advance-AreFrames seg c h = elim (Bool-cases (ltb 0 c.max_fid)) [
  | inl e ↦ rw e (evict_frame-AreFrames seg.fid c h)
  | inr e ↦ elim (Bool-cases (c.min_fid == 0)) [ inl q ↦ rw (e, q) h | inr q ↦ rw (e, q) h ]
]

pub check_playing-AreFrames :
    (now : ℕ) (c : FrameCache) → AreFrames c.frames → AreFrames (check_playing now c).frames
unfolding check_playing
check_playing-AreFrames now c h =
    elim (Bool-cases (
      (ltb c.min_fid c.max_fid && leb ((c.play_frame_ts + space_of c) % 2 ^ 32) c.max_ts)
      && leb (c.min_fid + 1) c.max_fid)) [ inl e ↦ rw e h | inr e ↦ rw e h ]

-- A full frame has no null pointer, and its copy is all of it or nothing.
pub copy_frame-Full :
    (segments : List (Option Segment)) (buffer_size : ℕ) (bytes : List ℕ) (type : ℕ)
    → filled segments ≡ length segments
    → (r : List ℕ × ℕ) × (copy_frame buffer_size bytes type segments ≡ some r)
unfolding copy_frame filled
copy_frame-Full [] buffer_size bytes type e = ((bytes, type), refl)
copy_frame-Full (none ∷ segments) buffer_size bytes type e =
    absurd (omega (arith, filled-le segments))
copy_frame-Full (some seg ∷ segments) buffer_size bytes type e =
    let r =
      copy_frame-Full segments buffer_size (bytes ++ seg.payload) seg.payload_type (omega arith) in
    elim (Bool-cases (
      leb (length bytes + length seg.payload) buffer_size
      && leb (length seg.payload) sim_video_size)) [
        | inl q ↦ rw q r
        | inr q ↦ rw q (([], type), refl)
      ]
