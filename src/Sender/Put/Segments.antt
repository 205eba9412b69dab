-- ===== src/Sender/Put/Segments.antt =====
-- sim_transport/sim_sender.c: the segments of a frame hold its bytes, and can be found by their ids.
use lmp.Prelude.{
  ℕ, zero, suc, ◌+◌, ◌*◌, ◌^◌, ◌<◌, ◌≤◌, ◌≡◌, refl, sym, ◌∙◌, ap, some, List, [], ◌∷◌, ◌++◌, length,
  take, drop, concat, if◌then◌else◌, take-append-drop, length-drop, length-take, arith,
}
use lmp.Prelude.Int.{ℤ}
use lmp.Proto.{sim_video_size}
use lmp.Pacing.Queue.{is_unset}
use mathlib.Core.Path.{subst}
use lmp.SkipList.{search}
use lmp.SkipList.Laws.{search-insert_self}
use lmp.Sender.{FlexSender, Sender, next, split_frame}
use lmp.Sender.Split.{total_size, Within, split_frame_lem}
use lmp.Sender.Cached.{IsCached, Kept}
use lmp.Sender.Put.{
  Frame, segment, group_id, since, sender_fec, put_segment, put_parity, put_segments, put,
}
use lmp.Sender.Put.Keeps.{
  Step, Step-refl, Step-trans, put_segment-Step, put_parity-Step, sender_fec-Step,
}

-- The bytes, cut to pieces of the sizes.
unfoldable pub cut : List ℕ → List ℕ → List (List ℕ)
cut [] bytes = []
cut (size ∷ splits) bytes = take size bytes ∷ cut splits (drop size bytes)

pub concat-cut :
    (splits bytes : List ℕ) → total_size splits ≡ length bytes → concat (cut splits bytes) ≡ bytes
unfolding cut
concat-cut [] [] e = refl
concat-cut [] (b ∷ bytes) e = absurd (omega arith)
concat-cut (size ∷ splits) bytes e =
    ap (λ rest. take size bytes ++ rest)
      (concat-cut splits (drop size bytes) (omega (arith, length-drop size bytes)))
    ∙ take-append-drop size bytes

pub length-cut : (splits bytes : List ℕ) → length (cut splits bytes) ≡ length splits
unfolding cut
length-cut [] bytes = refl
length-cut (size ∷ splits) bytes = ap suc (length-cut splits (drop size bytes))

-- No piece is empty or longer than a segment.
abbrev pub Fitting : ℕ → List (List ℕ) → Type 0
Fitting high [] = Unit
Fitting high (piece ∷ pieces) = (0 < length piece) × (length piece ≤ high) × Fitting high pieces

pub cut-Fitting :
    (high : ℕ) (splits bytes : List ℕ)
    → total_size splits ≡ length bytes
    → Within 1 high splits
    → Fitting high (cut splits bytes)
unfolding cut
cut-Fitting high [] bytes e w = tt
cut-Fitting high (size ∷ splits) bytes e (low, h, w) = (
  omega (arith, length-take size bytes),
  omega (arith, length-take size bytes),
  cut-Fitting high splits (drop size bytes) (omega (arith, length-drop size bytes)) w,
)

-- The pieces are cached as segments of the frame, under consecutive packet ids and indices.
abbrev pub Stored : {F : Type 0} → Sender F → Frame → ℕ → ℕ → List (List ℕ) → Type 0
Stored s f packet_id index [] = Unit
Stored s f packet_id index (piece ∷ pieces) =
    ((id : ℕ) × (fec_id : ℕ) × (search s.ack_cache (packet_id + 1) ≡ some id)
      × (search s.segs_cache id ≡ some (segment f (packet_id + 1) index fec_id piece)))
    × Stored s f (packet_id + 1) (index + 1) pieces

Stored-Kept :
    {F : Type 0} (s t : Sender F) (f : Frame) (p index : ℕ) (pieces : List (List ℕ))
    → Kept s.ack_cache t.ack_cache
    → Kept s.segs_cache t.segs_cache
    → Stored s f p index pieces
    → Stored t f p index pieces
Stored-Kept s t f p index [] a b h = tt
Stored-Kept s t f p index (piece ∷ pieces) a b ((id, fec_id, e, g), hs) =
    ((id, fec_id, a (p + 1) id e, b id _ g), Stored-Kept s t f (p + 1) (index + 1) pieces a b hs)

-- What the segments of the frame share.
abbrev pub frame_of : {F : Type 0} → ℤ → ℕ → ℕ → List ℕ → Sender F → Frame
frame_of now_ts payload_type ftype bytes s = record {
  fid = next s.frame_id_seed;
  timestamp = if is_unset s.first_ts then 0 else since now_ts s.first_ts;
  ftype = ftype;
  payload_type = payload_type;
  total = (split_frame (length bytes) sim_video_size).1;
}

-- The send ids that `n` turns take at most.
abbrev pub sends_for : ℕ → ℕ → ℕ
sends_for most zero = 0
sends_for most (suc n) = most + 1 + sends_for most n

module _ {F : Type 0} (ops : FlexSender F) (most : ℕ)
    (few : (flex : F) (loss_fraction : ℕ) → length (ops.update flex loss_fraction).1 ≤ most) where
  put_segment-Stored :
      (f : Frame) (index : ℕ) (bytes : List ℕ) (s : Sender F)
      → s.packet_id_seed + 1 < 2 ^ 32
      → s.send_id_seed + 1 < 2 ^ 32
      → IsCached s
      → Stored (put_segment ops f index bytes s) f s.packet_id_seed index (bytes ∷ [])
  unfolding put_segment
  put_segment-Stored f index bytes s h k c =
      let p = next s.packet_id_seed in
      let id = next s.send_id_seed in
      let e : s.packet_id_seed + 1 ≡ p = omega arith in
      let seg = segment f p index (group_id ops s.flex) bytes in
      (
        (
          id,
          group_id ops s.flex,
          ap (search (put_segment ops f index bytes s).ack_cache) e
              ∙ search-insert_self s.ack_cache p id c.acks_sorted (c.acks_below p (omega arith)),
          search-insert_self s.segs_cache id seg c.segs_sorted (c.segs_below id (omega arith))
              ∙ ap (λ q. some (segment f q index (group_id ops s.flex) bytes)) (sym e),
        ),
        tt,
      )

  put_segments-Stored :
      (loss_fraction : ℕ) (now_ts : ℤ) (f : Frame) (index : ℕ) (splits bytes : List ℕ)
      (s : Sender F)
      → s.packet_id_seed + length splits < 2 ^ 32
      → s.send_id_seed + sends_for most (length splits) < 2 ^ 32
      → IsCached s
      → let t = put_segments ops loss_fraction now_ts f (length splits) index splits bytes s in
        Step (length splits) (sends_for most (length splits)) s t
        × Stored t f s.packet_id_seed index (cut splits bytes)
  unfolding put_segments cut
  put_segments-Stored loss_fraction now_ts f index [] bytes s h k c = (Step-refl s c, tt)
  put_segments-Stored loss_fraction now_ts f index (size ∷ splits) bytes s h k c =
      let u = put_segment ops f index (take size bytes) s in
      let v = put_parity ops loss_fraction now_ts u in
      let a =
        put_segment-Step ops most few f index (take size bytes) s (omega arith) (omega arith) c in
      let b =
        put_parity-Step ops most few loss_fraction now_ts u (omega (arith, a.send_seed)) a.cached in
      let ab : Step 1 (most + 1) s v = Step-trans (omega arith) (omega arith) a b in
      let r =
        put_segments-Stored loss_fraction now_ts f (index + 1) splits (drop size bytes) v
          (omega (arith, ab.packet_seed)) (omega (arith, ab.send_seed)) ab.cached in
      let kept =
        Step-trans {j = length splits} {k = most + sends_for most (length splits)} (omega arith)
          (omega arith) b r.0 in
      let first = put_segment-Stored f index (take size bytes) s (omega arith) (omega arith) c in
      let t =
        put_segments ops loss_fraction now_ts f (length splits) (index + 1) splits (drop size bytes)
          v in
      (
        Step-trans (omega arith) (omega arith) ab r.0,
        (
          (Stored-Kept u t f s.packet_id_seed index (take size bytes ∷ []) kept.acks_kept
              kept.segs_kept first).0,
          subst (λ q. Stored t f q (index + 1) (cut splits (drop size bytes))) ab.packet_seed r.1,
        ),
      )

  -- A frame of at least one byte and at most 65535 times SIM_VIDEO_SIZE is put in a sender whose caches
  -- are in order and whose ids do not run out; no group gives more than `most` parity packets. Then the caches are in order, what was cached is, and
  -- the frame is cached: as segments of at most SIM_VIDEO_SIZE bytes, none empty, with the indices
  -- from 0 on, all with their number as `total`, under consecutive packet ids; joined, they are the
  -- bytes of the frame.
  pub put-Stored :
      (loss_fraction : ℕ) (now_ts : ℤ) (payload_type ftype : ℕ) (bytes : List ℕ) (s : Sender F)
      → 0 < length bytes
      → length bytes ≤ 65535 * sim_video_size
      → s.packet_id_seed + (split_frame (length bytes) sim_video_size).1 < 2 ^ 32
      → s.send_id_seed + sends_for most (split_frame (length bytes) sim_video_size).1 + most
        < 2 ^ 32
      → IsCached s
      → let t = put ops loss_fraction now_ts payload_type ftype bytes s in
        let f = frame_of now_ts payload_type ftype bytes s in
        IsCached t
        × Kept s.segs_cache t.segs_cache
        × Kept s.ack_cache t.ack_cache
        × ((pieces : List (List ℕ)) × Stored t f s.packet_id_seed 0 pieces
            × (length pieces ≡ f.total)
            × Fitting sim_video_size pieces
            × (concat pieces ≡ bytes))
  unfolding put
  put-Stored loss_fraction now_ts payload_type ftype bytes s pos fits h k c =
      let r : List ℕ × ℕ = split_frame (length bytes) sim_video_size in
      let lem = split_frame_lem (length bytes) pos fits in
      let f = frame_of now_ts payload_type ftype bytes s in
      let s' = record s {
        first_ts = if is_unset s.first_ts then now_ts else s.first_ts;
        frame_id_seed = f.fid;
      } in
      let c' : IsCached s' = record {
        segs_sorted = c.segs_sorted;
        acks_sorted = c.acks_sorted;
        segs_below = c.segs_below;
        acks_below = c.acks_below;
        leads = c.leads;
      } in
      let loop = λ (n : ℕ). put_segments ops loss_fraction now_ts f n 0 r.0 bytes s' in
      let a : Step r.1 (sends_for most r.1) s' (loop r.1)
          × Stored (loop r.1) f s.packet_id_seed 0 (cut r.0 bytes) =
        subst
          (λ n.
            Step n (sends_for most n) s' (loop n)
            × Stored (loop n) f s.packet_id_seed 0 (cut r.0 bytes))
          lem.0
          (put_segments-Stored loss_fraction now_ts f 0 r.0 bytes s' (omega (arith, lem.0))
            (subst (λ n. s.send_id_seed + sends_for most n < 2 ^ 32) (sym lem.0) (omega arith))
            c') in
      let sent = loop r.1 in
      let t = sender_fec ops loss_fraction now_ts sent.flex sent in
      let b =
        sender_fec-Step ops most few loss_fraction now_ts sent.flex sent
          (omega (arith, a.0.send_seed)) a.0.cached in
      (
        b.cached,
        λ i v e. b.segs_kept i v (a.0.segs_kept i v e),
        λ i v e. b.acks_kept i v (a.0.acks_kept i v e),
        (
          cut r.0 bytes,
          Stored-Kept sent t f s.packet_id_seed 0 (cut r.0 bytes) b.acks_kept b.segs_kept a.1,
          length-cut r.0 bytes ∙ lem.0,
          cut-Fitting sim_video_size r.0 bytes lem.2 lem.3,
          concat-cut r.0 bytes lem.2,
        ),
      )
