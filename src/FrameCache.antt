-- ===== src/FrameCache.antt =====
-- sim_transport/sim_receiver.c: the cache of frames that wait to be played: what puts segments in it and
-- what drops frames. A slot of `frames` is one of CACHE_SIZE, by the frame id. Frame ids and packet ids
-- stay below the last number of 32 bits, so that the loops over them end.
pub mod Play
pub mod Frames
pub mod Safe
pub mod Reach
pub mod Assemble
pub mod Copy
pub mod Deliver
mod Tests
use lmp.Prelude.{
  ℕ, zero, suc, ◌+◌, ◌-◌, ◌*◌, ◌/◌, ◌%◌, ◌^◌, Bool, true, false, ◌&&◌, Option, none, some, List, [],
  ◌∷◌, ltb, leb, ◌==◌, if◌then◌else◌, get_elem?, set, replicate, min, max,
}
use lmp.Proto.{Segment}
use lmp.SkipList.{SkipList}

abbrev pub cache_size : ℕ
cache_size = 1024

abbrev pub index_of : ℕ → ℕ
index_of i = i % cache_size

-- `sim_frame_t`, less `last_seq`, which nothing reads; `segments` is what `calloc` gives, `seg_number` pointers.
pub record SimFrame : Type 0 where
  pub fid : ℕ
  pub ts : ℕ
  pub frame_type : ℕ
  pub seg_count : ℕ
  pub seg_number : ℕ
  pub segments : List (Option Segment)

-- `sim_frame_cache_t`, less `loss_flag`, which nothing reads. `speed` is `f`, in tenths.
pub record FrameCache : Type 0 where
  pub min_seq : ℕ
  pub min_fid : ℕ
  pub max_fid : ℕ
  pub play_frame_ts : ℕ
  pub max_ts : ℕ
  pub frame_ts : ℕ
  pub play_ts : ℕ
  pub frame_timer : ℕ
  pub wait_timer : ℕ
  pub is_playing : Bool
  pub speed : ℕ
  pub discard_loss : SkipList ℕ
  pub frames : ℕ → SimFrame

abbrev pub empty_frame : SimFrame
empty_frame = record {
  fid = 0;
  ts = 0;
  frame_type = 0;
  seg_count = 0;
  seg_number = 0;
  segments = [];
}

-- `open_real_video_cache`
unfoldable pub open_cache : ℕ → ℕ → FrameCache
open_cache rtt rtt_var = record {
  min_seq = 0;
  min_fid = 0;
  max_fid = 0;
  play_frame_ts = 0;
  max_ts = 0;
  frame_ts = 0;
  play_ts = 0;
  frame_timer = 100;
  wait_timer = rtt + 2 * rtt_var;
  is_playing = false;
  speed = 10;
  discard_loss = [];
  frames = λ i. empty_frame;
}

-- The frame of a slot is replaced.
abbrev pub put_frame : (ℕ → SimFrame) → ℕ → SimFrame → ℕ → SimFrame
put_frame frames pos frame i = if i == pos then frame else frames i

-- The last packet id of the frame of a segment, on 32 bits.
abbrev pub frame_end : Segment → ℕ
frame_end seg = (seg.packet_id + 2 ^ 32 - seg.index + seg.total - 1) % 2 ^ 32

-- `min_seq` after the loop over the segments of a frame.
unfoldable pub last_seq : ℕ → List (Option Segment) → ℕ
last_seq min_seq [] = min_seq
last_seq min_seq (none ∷ segments) = last_seq min_seq segments
last_seq min_seq (some seg ∷ segments) = last_seq (frame_end seg) segments

-- The losses up to `min_seq` go.
unfoldable pub drop_losses : ℕ → SkipList ℕ → SkipList ℕ
drop_losses min_seq [] = []
drop_losses min_seq ((key, val) ∷ losses) =
    let rest = drop_losses min_seq losses in if leb key min_seq then rest else (key, val) ∷ losses

-- `real_video_clean_frame`, of the frame in a slot.
unfoldable pub clean_frame : ℕ → FrameCache → FrameCache
unfolding last_seq drop_losses
clean_frame pos c =
    let frame = c.frames pos in
    let min_seq = last_seq c.min_seq frame.segments in
    if frame.seg_number == 0 then c else record c {
      min_seq = min_seq;
      play_frame_ts = frame.ts;
      min_fid = frame.fid;
      discard_loss = drop_losses min_seq c.discard_loss;
      frames = put_frame c.frames pos (record empty_frame { fid = frame.fid });
    }

-- The frames from `i` on are cleaned, `n` of them.
unfoldable pub clean_frames : ℕ → ℕ → FrameCache → FrameCache
unfolding clean_frame
clean_frames zero i c = c
clean_frames (suc n) i c = clean_frames n (i + 1) (clean_frame (index_of i) c)

-- The first key frame from `i` on, of `n` frames.
unfoldable pub find_key : ℕ → ℕ → FrameCache → Option ℕ
find_key zero i c = none
find_key (suc n) i c =
    let rest = find_key n (i + 1) c in
    if (c.frames (index_of i)).frame_type == 1 then some i else rest

-- The second loop of `evict_gop_frame`.
unfoldable pub skip_frames : ℕ → ℕ → FrameCache → FrameCache
unfolding clean_frame
skip_frames zero i c = c
skip_frames (suc n) i c =
    skip_frames n (i + 1)
      (clean_frame (index_of i) (record c { frame_ts = (c.frames (index_of i)).ts }))

-- `evict_gop_frame`: does it return 0?
unfoldable pub evict_to_key : FrameCache → Option ℕ → FrameCache × Bool
unfolding skip_frames
evict_to_key c none = (c, false)
evict_to_key c (some key) =
    (record (skip_frames (key - (c.min_fid + 1)) (c.min_fid + 1) c) { min_fid = key - 1 }, true)

unfoldable pub evict_gop_frame : FrameCache → FrameCache × Bool
unfolding evict_to_key find_key
evict_gop_frame c = evict_to_key c (find_key (c.max_fid - (c.min_fid + 2)) (c.min_fid + 2) c)

-- `reset_real_video_cache`
unfoldable pub reset_cache : ℕ → ℕ → FrameCache → FrameCache
unfolding clean_frames
reset_cache rtt rtt_var c = record (clean_frames cache_size 0 c) {
  min_seq = 0;
  min_fid = 0;
  max_fid = 0;
  play_ts = 0;
  frame_ts = 0;
  max_ts = 100;
  frame_timer = 100;
  speed = 10;
  is_playing = false;
  wait_timer = max 100 (rtt + 2 * rtt_var);
  discard_loss = [];
}

-- Where the search for a key frame ends.
abbrev pub key_or : ℕ → Option ℕ → ℕ
key_or end none = end
key_or end (some i) = i

-- `real_video_evict_frame`
unfoldable pub evict_frame : ℕ → FrameCache → FrameCache
unfolding clean_frames find_key
evict_frame fid c =
    let d = clean_frames (fid - c.max_fid) (c.max_fid + 1) c in
    let first = d.min_fid + 1 in
    let pos = key_or (max first d.max_fid) (find_key (d.max_fid - first) first d) in
    if ltb fid ((d.min_fid + cache_size) % 2 ^ 32) then d else clean_frames (pos - first) first d

-- `frame_timer`, from the time between two frames.
abbrev pub frame_interval : FrameCache → Segment → ℕ
frame_interval c seg =
    if ltb c.max_ts seg.timestamp
    then max 20 (min 200 ((seg.timestamp - c.max_ts) / (seg.fid - c.max_fid)))
    else c.frame_timer

-- A segment of a frame beyond the last one.
unfoldable pub advance : Segment → FrameCache → FrameCache
unfolding evict_frame
advance seg c =
    let d =
      if ltb 0 c.max_fid
      then evict_frame seg.fid c
      else if c.min_fid == 0
      then record c { min_fid = seg.fid - 1; play_frame_ts = seg.timestamp }
      else c in
    record d { frame_timer = frame_interval d seg; max_ts = seg.timestamp; max_fid = seg.fid }

-- A segment is put in its frame. The source writes to `segments` without a look at its length: what is
-- out of bounds is `none`.
unfoldable pub fill_slot : Segment → SimFrame → Option (Option Segment) → Option (SimFrame × Bool)
fill_slot seg frame none = none
fill_slot seg frame (some (some old)) = some (frame, false)
fill_slot seg frame (some none) = some (
  record frame {
    segments = set frame.segments seg.index (some seg);
    seg_count = frame.seg_count + 1;
  },
  true,
)

unfoldable pub fill_frame : Segment → SimFrame → Option (SimFrame × Bool)
unfolding fill_slot
fill_frame seg old =
    let frame = record old { fid = seg.fid; frame_type = seg.ftype; ts = seg.timestamp } in
    if frame.seg_number == 0
    then some (
      record frame {
        seg_count = 1;
        seg_number = seg.total;
        segments = set (replicate seg.total none) seg.index (some seg);
      },
      true,
    )
    else fill_slot seg frame (get_elem? frame.segments seg.index)

abbrev pub store_frame : FrameCache → ℕ → Option (SimFrame × Bool) → Option (FrameCache × Bool)
store_frame c pos none = none
store_frame c pos (some (frame, taken)) =
    some (record c { frames = put_frame c.frames pos frame }, taken)

-- `real_video_cache_put`, with assertions off: does it return 0?
unfoldable pub cache_put : Segment → FrameCache → Option (FrameCache × Bool)
unfolding advance fill_frame
cache_put seg c =
    let d = if ltb c.max_fid seg.fid then advance seg c else c in
    let pos = index_of seg.fid in
    if leb seg.total seg.index
    then some (c, false)
    else if leb seg.fid c.min_fid
    then some (c, false)
    else store_frame d pos (fill_frame seg (d.frames pos))
