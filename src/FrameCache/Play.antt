-- ===== src/FrameCache/Play.antt =====
-- sim_transport/sim_receiver.c: what takes frames from the cache to be played.
use lmp.Prelude.{
  ℕ, zero, suc, ◌+◌, ◌-◌, ◌*◌, ◌/◌, ◌%◌, ◌^◌, Bool, true, false, not, ◌&&◌, ◌||◌, Option, none,
  some, List, [], ◌∷◌, ◌++◌, ltb, leb, ◌==◌, if◌then◌else◌, length, min, max,
}
use lmp.Proto.{Segment, sim_video_size}
use lmp.FrameCache.{SimFrame, FrameCache, index_of, clean_frame, evict_gop_frame}

abbrev pub max_evict_delay_ms : ℕ
max_evict_delay_ms = 6000

abbrev pub min_evict_delay_ms : ℕ
min_evict_delay_ms = 3000

-- a - b, on 32 bits
abbrev pub sub_32 : ℕ → ℕ → ℕ
sub_32 a b = (a + (2 ^ 32 - b % 2 ^ 32)) % 2 ^ 32

-- `real_video_cache_check_frame_full`: does it return 0?
abbrev pub is_full : SimFrame → Bool
is_full frame = frame.seg_number == frame.seg_count

abbrev pub space_of : FrameCache → ℕ
space_of c = max c.wait_timer c.frame_timer

-- `real_video_cache_check_playing`
unfoldable pub check_playing : ℕ → FrameCache → FrameCache
check_playing now c =
    if (ltb c.min_fid c.max_fid && leb ((c.play_frame_ts + space_of c) % 2 ^ 32) c.max_ts)
      && leb (c.min_fid + 1) c.max_fid
    then record c {
      is_playing = true;
      play_ts = now;
      frame_ts = sub_32 c.max_ts (c.frame_timer * (c.max_fid - c.min_fid - 1));
    }
    else c

-- The state is looked at first.
unfoldable pub started : ℕ → FrameCache → FrameCache
unfolding check_playing
started now c = if c.is_playing then c else check_playing now c

-- The loop of `real_video_ready_ms`, with the first and the last time of the frames that are full.
unfoldable pub ready_span : ℕ → ℕ → ℕ × ℕ → FrameCache → ℕ × ℕ
ready_span zero i span c = span
ready_span (suc n) i (first, last) c =
    let frame = c.frames (index_of i) in
    let rest = ready_span n (i + 1) ((if first == 0 then frame.ts else first), frame.ts) c in
    if is_full frame then rest else (first, last)

-- `real_video_ready_ms`
unfoldable pub ready_ms : FrameCache → ℕ
unfolding ready_span
ready_ms c =
    let span : ℕ × ℕ = ready_span (c.max_fid - c.min_fid) (c.min_fid + 1) (0, 0) c in
    if ltb 0 span.0 then (sub_32 span.1 span.0 + c.frame_timer) % 2 ^ 32 else c.frame_timer

-- `real_video_check_fir`: does it return 0?
unfoldable pub check_fir : FrameCache → Bool
check_fir c =
    not (is_full (c.frames (index_of (c.min_fid + 1))))
    && leb ((c.play_frame_ts + max_evict_delay_ms * 3 / 5) % 2 ^ 32) c.max_ts

-- How fast the frames are played, in tenths.
unfoldable pub speed_of : ℕ → ℕ → FrameCache → ℕ
speed_of loss ready c =
    let space = space_of c in
    if not (loss == 0) && ltb ready (min space (4 * c.frame_timer % 2 ^ 32))
    then 6
    else if ltb (c.frame_timer * 4 % 2 ^ 32) ready && ltb (min_evict_delay_ms / 2) ready
    then 30
    else if ltb space ready && leb (max 80 (2 * c.frame_timer % 2 ^ 32)) ready
    then 12
    else 10

-- The loop that copies a frame to a buffer, with the payload type. A null pointer that is read is `none`.
unfoldable pub copy_frame : ℕ → List ℕ → ℕ → List (Option Segment) → Option (List ℕ × ℕ)
copy_frame buffer_size bytes type [] = some (bytes, type)
copy_frame buffer_size bytes type (none ∷ segments) = none
copy_frame buffer_size bytes type (some seg ∷ segments) =
    let rest = copy_frame buffer_size (bytes ++ seg.payload) seg.payload_type segments in
    if leb (length bytes + length seg.payload) buffer_size
      && leb (length seg.payload) sim_video_size
    then rest
    else some ([], type)

-- What `real_video_cache_get` gives: the bytes, the payload type, and whether it returns 0.
pub record Got : Type 0 where
  pub bytes : List ℕ
  pub payload_type : ℕ
  pub taken : Bool

abbrev pub nothing : Got
nothing = record { bytes = []; payload_type = 0; taken = false }

abbrev pub taken_frame : FrameCache → Option (List ℕ × ℕ) → Option (FrameCache × Got)
taken_frame c none = none
taken_frame c (some (bytes, type)) =
    some (c, record { bytes = bytes; payload_type = type; taken = true })

-- The part of `real_video_cache_get` on the next frame.
unfoldable pub next_frame : ℕ → ℕ → FrameCache → Option (FrameCache × Got)
unfolding copy_frame clean_frame
next_frame ready buffer_size c =
    let pos = index_of (c.min_fid + 1) in
    let frame = c.frames pos in
    let space = space_of c in
    let copied = copy_frame buffer_size [] 0 frame.segments in
    if (c.min_fid + 1 == frame.fid || frame.frame_type == 1) && is_full frame
    then if ltb ((c.frame_ts + max 500 (2 * space % 2 ^ 32)) % 2 ^ 32) frame.ts && ltb space ready
      then some (record c { frame_ts = sub_32 frame.ts space }, nothing)
      else if leb frame.ts c.frame_ts
      then taken_frame (clean_frame pos (record c { frame_ts = frame.ts })) copied
      else some (c, nothing)
    else some (c, nothing)

-- `scale speed ms` is `(uint32_t)(ms * f)` on floats, with `f` in tenths.
module _ (scale : ℕ → ℕ → ℕ) where
  -- `real_video_cache_sync_timestamp`
  unfoldable pub sync_timestamp : ℕ → FrameCache → FrameCache
  sync_timestamp now c =
      if leb (c.play_ts + 5) now
      then record c {
        frame_ts = (scale c.speed (now - c.play_ts) + c.frame_ts) % 2 ^ 32;
        play_ts = now;
      }
      else c

  -- The part of `real_video_cache_get` when it plays.
  unfoldable pub play : ℕ → ℕ → ℕ → FrameCache → Option (FrameCache × Got)
  unfolding ready_ms speed_of sync_timestamp next_frame evict_gop_frame
  play now loss buffer_size c =
      let ready = ready_ms c in
      let d = sync_timestamp now (record c { speed = speed_of loss ready c }) in
      let limit = max min_evict_delay_ms (min max_evict_delay_ms (4 * d.wait_timer % 2 ^ 32)) in
      let late = ltb ((d.play_frame_ts + limit) % 2 ^ 32) d.max_ts in
      if d.min_fid == d.max_fid
      then some (d, nothing)
      else next_frame ready buffer_size (if late then (evict_gop_frame d).0 else d)

  -- `real_video_cache_get`
  unfoldable pub cache_get : ℕ → ℕ → ℕ → FrameCache → Option (FrameCache × Got)
  unfolding started play
  cache_get now loss buffer_size c =
      let d = started now c in
      if d.is_playing then play now loss buffer_size d else some (d, nothing)

-- `real_video_cache_delay`
unfoldable pub cache_delay : FrameCache → ℕ
cache_delay c = if leb c.max_fid c.min_fid then 0 else sub_32 c.max_ts c.play_frame_ts
