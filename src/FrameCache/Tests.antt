-- ===== src/FrameCache/Tests.antt =====
-- sim_transport/sim_receiver.c: a frame of three segments.
use lmp.Prelude.{
  ℕ, zero, suc, ◌+◌, ◌*◌, ◌/◌, ◌<◌, ◌≡◌, refl, true, none, some, List, [], ◌∷◌, inl, inr, arith,
}
use lmp.Proto.{Segment}
use lmp.FrameCache.{
  put_frame, reset_cache, FrameCache, index_of, open_cache, cache_put, advance, fill_frame,
}
use lmp.FrameCache.Play.{Got, is_full, copy_frame, cache_get}
use lmp.FrameCache.Safe.{AreFrames}
use lmp.FrameCache.Reach.{here, step, put, reset, Reach-cache_get}
use lmp.FrameCache.Assemble.{IsFragment}
use lmp.FrameCache.Deliver.{deliver, Comes, deliver-copy_frame}

abbrev part : ℕ → ℕ → List ℕ → Segment
part fid index bytes = record {
  packet_id = 10 + index;
  fid = fid;
  timestamp = 40;
  index = index;
  total = 3;
  ftype = 1;
  payload_type = 96;
  remb = 1;
  fec_id = 0;
  send_ts = 0;
  transport_seq = 0;
  payload = bytes;
}

abbrev pieces : List (List ℕ)
pieces = (1 ∷ 2 ∷ []) ∷ (3 ∷ 4 ∷ []) ∷ (5 ∷ []) ∷ []

-- The last one comes first, and one comes twice.
abbrev arrivals : List Segment
arrivals =
    part 7 2 (5 ∷ []) ∷ part 7 0 (1 ∷ 2 ∷ []) ∷ part 7 0 (1 ∷ 2 ∷ []) ∷ part 7 1 (3 ∷ 4 ∷ []) ∷ []

part-IsFragment_0 : IsFragment 7 96 pieces (part 7 0 (1 ∷ 2 ∷ []))
part-IsFragment_0 = record {
  same_fid = refl;
  same_total = refl;
  same_type = refl;
  in_range = omega arith;
  piece = refl;
}

part-IsFragment_1 : IsFragment 7 96 pieces (part 7 1 (3 ∷ 4 ∷ []))
part-IsFragment_1 = record {
  same_fid = refl;
  same_total = refl;
  same_type = refl;
  in_range = omega arith;
  piece = refl;
}

part-IsFragment_2 : IsFragment 7 96 pieces (part 7 2 (5 ∷ []))
part-IsFragment_2 = record {
  same_fid = refl;
  same_total = refl;
  same_type = refl;
  in_range = omega arith;
  piece = refl;
}

arrivals-Comes : (i : ℕ) → i < 3 → Comes i arrivals
arrivals-Comes zero l = inr (inl refl)
arrivals-Comes (suc zero) l = inr (inr (inr (inl refl)))
arrivals-Comes (suc (suc zero)) l = inl refl
arrivals-Comes (suc (suc (suc i))) l = absurd (omega (arith, l))

deliver-copy_frame_example :
    (c : FrameCache) × (deliver arrivals (open_cache 100 5) ≡ some c)
    × (c.min_fid + 1 ≡ 7)
    × (c.max_fid ≡ 7)
    × (is_full (c.frames (index_of 7)) ≡ true)
    × (copy_frame 100 [] 0 (c.frames (index_of 7)).segments ≡ some (1 ∷ 2 ∷ 3 ∷ 4 ∷ 5 ∷ [], 96))
deliver-copy_frame_example =
    deliver-copy_frame 7 96 pieces arrivals 100 5 100 (omega arith) (omega arith)
      (omega arith, (omega arith, (omega arith, tt))) (omega arith)
      (part-IsFragment_2, (part-IsFragment_0, (part-IsFragment_0, (part-IsFragment_1, tt))))
      arrivals-Comes

-- `ms * f`, rounded down.
abbrev scale_example : ℕ → ℕ → ℕ
scale_example speed ms = speed * ms / 10

abbrev one_put : FrameCache
one_put =
    let a = advance (part 7 0 (1 ∷ 2 ∷ [])) (open_cache 100 5) in
    record a {
      frames = put_frame a.frames 7 (record {
        fid = 7;
        ts = 40;
        frame_type = 1;
        seg_count = 1;
        seg_number = 3;
        segments = some (part 7 0 (1 ∷ 2 ∷ [])) ∷ none ∷ none ∷ [];
      });
    }

Reach-cache_get_example :
    AreFrames (reset_cache 90 4 one_put).frames
    × ((now loss buffer_size : ℕ)
        → (r : FrameCache × Got) × (cache_get scale_example now loss buffer_size
              (reset_cache 90 4 one_put)
            ≡ some r))
unfolding cache_put fill_frame open_cache
Reach-cache_get_example = Reach-cache_get scale_example 100 5 (reset_cache 90 4 one_put) (
    step (step here (put (part 7 0 (1 ∷ 2 ∷ [])) (open_cache 100 5) one_put true refl))
      (reset 90 4 one_put))
