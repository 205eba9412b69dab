-- ===== src/FrameCache/Reach.antt =====
-- sim_transport/sim_receiver.c: all runs of the cache of frames, as steps.
use lmp.Prelude.{
  ℕ, ◌+◌, ◌*◌, ◌%◌, ◌^◌, ◌<◌, ◌≡◌, refl, sym, ◌∙◌, Bool, true, false, Option, none, some, List, [],
  ltb, leb, ◌==◌, ◌&&◌, ◌||◌, if◌then◌else◌, arith, inl, inr, Bool-cases, min, max,
}
use mathlib.Core.Path.{subst}
use lmp.Proto.{Segment}
use lmp.FrameCache.{
  SimFrame, FrameCache, index_of, open_cache, clean_frame, evict_gop_frame, advance, store_frame,
  cache_put, fill_frame, reset_cache,
}
use lmp.FrameCache.Play.{
  is_full, check_playing, started, sync_timestamp, copy_frame, next_frame, play, cache_get, Got,
  nothing, taken_frame, speed_of, ready_ms, sub_32, space_of, min_evict_delay_ms,
  max_evict_delay_ms,
}
use lmp.FrameCache.Frames.{fill_frame-IsFrame}
use lmp.FrameCache.Safe.{
  AreFrames, open_cache-AreFrames, put_frame-AreFrames, if-AreFrames, some-AreFrames,
  advance-AreFrames, check_playing-AreFrames, clean_frame-AreFrames, evict_gop_frame-AreFrames,
  reset_cache-AreFrames, copy_frame-Full,
}

is_full_iff : (frame : SimFrame) → is_full frame ≡ true → frame.seg_number ≡ frame.seg_count
is_full_iff frame e = ground (arith, e)

-- The result is defined, and its frames are counted.
abbrev pub IsSafe : Option (FrameCache × Got) → Type 0
IsSafe none = ⊥
IsSafe (some (c, got)) = AreFrames c.frames

taken_frame-IsSafe :
    (c : FrameCache) (o : Option (List ℕ × ℕ)) (r : List ℕ × ℕ)
    → o ≡ some r
    → AreFrames c.frames
    → IsSafe (taken_frame c o)
taken_frame-IsSafe c o r e h = rw e h

next_frame-IsSafe :
    (ready buffer_size : ℕ) (c : FrameCache)
    → AreFrames c.frames
    → IsSafe (next_frame ready buffer_size c)
unfolding next_frame
next_frame-IsSafe ready buffer_size c h =
    let pos = index_of (c.min_fid + 1) in
    let frame = c.frames pos in
    let space = space_of c in
    let copied = copy_frame buffer_size [] 0 frame.segments in
    let d = clean_frame pos (record c { frame_ts = frame.ts }) in
    go copied d (clean_frame-AreFrames pos (record c { frame_ts = frame.ts }) h)
      (c.min_fid + 1 == frame.fid || frame.frame_type == 1) (is_full frame)
      (ltb ((c.frame_ts + max 500 (2 * space % 2 ^ 32)) % 2 ^ 32) frame.ts && ltb space ready)
      (leb frame.ts c.frame_ts)
      (λ e.
        copy_frame-Full frame.segments buffer_size [] 0
          ((h pos).count ∙ sym (is_full_iff frame e) ∙ sym (h pos).number))
  where
    go :
        (copied : Option (List ℕ × ℕ)) (d : FrameCache)
        → AreFrames d.frames
        → (next full wait due : Bool) → (full ≡ true → (r : List ℕ × ℕ) × (copied ≡ some r))
        → IsSafe (
            if next && full
            then if wait
              then some (
                record c {
                  frame_ts = sub_32 (c.frames (index_of (c.min_fid + 1))).ts (space_of c);
                },
                nothing,
              )
              else if due
              then taken_frame d copied
              else some (c, nothing)
            else some (c, nothing))
    go copied d k false full wait due e = h
    go copied d k true false wait due e = h
    go copied d k true true true due e = h
    go copied d k true true false true e = taken_frame-IsSafe d copied (e refl).0 (e refl).1 k
    go copied d k true true false false e = h

module _ (scale : ℕ → ℕ → ℕ) where
  sync_timestamp-AreFrames :
      (now : ℕ) (c : FrameCache)
      → AreFrames c.frames
      → AreFrames (sync_timestamp scale now c).frames
  unfolding sync_timestamp
  sync_timestamp-AreFrames now c h = elim (Bool-cases (leb (c.play_ts + 5) now)) [
    | inl e ↦ rw e h
    | inr e ↦ rw e h
  ]

  play-IsSafe :
      (now loss buffer_size : ℕ) (c : FrameCache)
      → AreFrames c.frames
      → IsSafe (play scale now loss buffer_size c)
  unfolding play
  play-IsSafe now loss buffer_size c h =
      let ready = ready_ms c in
      let c' = record c { speed = speed_of loss ready c } in
      let d = sync_timestamp scale now c' in
      let k = sync_timestamp-AreFrames now c' h in
      let limit = max min_evict_delay_ms (min max_evict_delay_ms (4 * d.wait_timer % 2 ^ 32)) in
      elim (Bool-cases (d.min_fid == d.max_fid)) [
        | inl e ↦ rw e k
        | inr e ↦ elim (Bool-cases (ltb ((d.play_frame_ts + limit) % 2 ^ 32) d.max_ts)) [
          | inl l ↦
              rw (e, l)
                (next_frame-IsSafe ready buffer_size (evict_gop_frame d).0
                  (evict_gop_frame-AreFrames d k))
          | inr l ↦ rw (e, l) (next_frame-IsSafe ready buffer_size d k)
        ]
      ]

  play_if-IsSafe :
      (now loss buffer_size : ℕ) (c : FrameCache) (b : Bool)
      → AreFrames c.frames
      → IsSafe (if b then play scale now loss buffer_size c else some (c, nothing))
  play_if-IsSafe now loss buffer_size c true h = play-IsSafe now loss buffer_size c h
  play_if-IsSafe now loss buffer_size c false h = h

  cache_get-IsSafe :
      (now loss buffer_size : ℕ) (c : FrameCache)
      → AreFrames c.frames
      → IsSafe (cache_get scale now loss buffer_size c)
  unfolding cache_get started
  cache_get-IsSafe now loss buffer_size c h =
      play_if-IsSafe now loss buffer_size (started now c) (started now c).is_playing
        (if-AreFrames c.is_playing c (check_playing now c) h (check_playing-AreFrames now c h))

store_frame-AreFrames :
    (seg : Segment) (c d : FrameCache) (pos : ℕ) (taken : Bool) (o : Option (SimFrame × Bool))
    → seg.index < seg.total
    → fill_frame seg (c.frames pos) ≡ o
    → store_frame c pos o ≡ some (d, taken)
    → AreFrames c.frames
    → AreFrames d.frames
store_frame-AreFrames seg c d pos taken none below q e h = absurd (cc e)
store_frame-AreFrames seg c d pos taken (some (frame, t)) below q e h = some-AreFrames e (
    put_frame-AreFrames c.frames pos frame h
      (fill_frame-IsFrame seg (c.frames pos) frame t below (h pos) q))

-- A segment that is put keeps the frames counted.
cache_put-AreFrames :
    (seg : Segment) (c d : FrameCache) (taken : Bool)
    → cache_put seg c ≡ some (d, taken)
    → AreFrames c.frames
    → AreFrames d.frames
unfolding cache_put
cache_put-AreFrames seg c d taken e h =
    let a = if ltb c.max_fid seg.fid then advance seg c else c in
    go a (leb seg.total seg.index) (leb seg.fid c.min_fid) refl
      (if-AreFrames (ltb c.max_fid seg.fid) (advance seg c) c (advance-AreFrames seg c h) h) e
  where
    go :
        (a : FrameCache) (over old : Bool)
        → leb seg.total seg.index ≡ over
        → AreFrames a.frames
        → (if over
            then some (c, false)
            else if old
            then some (c, false)
            else store_frame a (index_of seg.fid) (fill_frame seg (a.frames (index_of seg.fid))))
          ≡ some (d, taken)
        → AreFrames d.frames
    go a true old q k e = some-AreFrames e h
    go a false true q k e = some-AreFrames e h
    go a false false q k e =
        store_frame-AreFrames seg a d (index_of seg.fid) taken _ (ground (arith, q)) refl e k

-- The calls on the cache of a receiver, in any order.
pub data Step (scale : ℕ → ℕ → ℕ) : FrameCache → FrameCache → Type 0 where
  put :
      (seg : Segment) (c d : FrameCache) (taken : Bool)
      → cache_put seg c ≡ some (d, taken)
      → Step scale c d
  get :
      (now loss buffer_size : ℕ) (c d : FrameCache) (got : Got)
      → cache_get scale now loss buffer_size c ≡ some (d, got)
      → Step scale c d
  reset : (rtt rtt_var : ℕ) (c : FrameCache) → Step scale c (reset_cache rtt rtt_var c)
  evict : (c : FrameCache) → Step scale c (evict_gop_frame c).0

pub data Reach (scale : ℕ → ℕ → ℕ) (c : FrameCache) : FrameCache → Type 0 where
  here : Reach scale c c
  step : {d e : FrameCache} → Reach scale c d → Step scale d e → Reach scale c e

IsSafe-AreFrames :
    (o : Option (FrameCache × Got)) (c : FrameCache) (got : Got)
    → o ≡ some (c, got)
    → IsSafe o
    → AreFrames c.frames
IsSafe-AreFrames o c got e h = subst IsSafe e h

Step-AreFrames :
    (scale : ℕ → ℕ → ℕ) {c d : FrameCache}
    → Step scale c d
    → AreFrames c.frames
    → AreFrames d.frames
Step-AreFrames scale (put seg c d taken e) h = cache_put-AreFrames seg c d taken e h
Step-AreFrames scale (get now loss buffer_size c d got e) h =
    IsSafe-AreFrames _ d got e (cache_get-IsSafe scale now loss buffer_size c h)
Step-AreFrames scale (reset rtt rtt_var c) h = reset_cache-AreFrames rtt rtt_var c h
Step-AreFrames scale (evict c) h = evict_gop_frame-AreFrames c h

Reach-AreFrames :
    (scale : ℕ → ℕ → ℕ) {c d : FrameCache}
    → Reach scale c d
    → AreFrames c.frames
    → AreFrames d.frames
Reach-AreFrames scale here h = h
Reach-AreFrames scale (step r st) h = Step-AreFrames scale st (Reach-AreFrames scale r h)

IsSafe-defined : (o : Option (FrameCache × Got)) → IsSafe o → (r : FrameCache × Got) × (o ≡ some r)
IsSafe-defined none h = absurd h
IsSafe-defined (some r) h = (r, refl)

-- A cache is opened, and segments are put in it, frames taken from it, frames evicted and the cache
-- reset, in any order and at any times, where no segment is written out of bounds. In each state that it reaches, each frame has as many slots
-- for segments as `seg_number` says and as many segments as `seg_count` says, and taking a frame
-- reads no null pointer.
pub Reach-cache_get :
    (scale : ℕ → ℕ → ℕ) (rtt rtt_var : ℕ) (c : FrameCache)
    → Reach scale (open_cache rtt rtt_var) c
    → AreFrames c.frames
      × ((now loss buffer_size : ℕ)
          → (r : FrameCache × Got) × (cache_get scale now loss buffer_size c ≡ some r))
Reach-cache_get scale rtt rtt_var c r =
    let h = Reach-AreFrames scale r (open_cache-AreFrames rtt rtt_var) in
    (
      h,
      λ now loss buffer_size.
          IsSafe-defined (cache_get scale now loss buffer_size c)
            (cache_get-IsSafe scale now loss buffer_size c h),
    )
