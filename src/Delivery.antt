-- ===== src/Delivery.antt =====
-- sim_transport/sim_sender.c and sim_transport/sim_receiver.c together: a frame that is put in a sender
-- and whose packets reach a receiver.
mod Tests
use lmp.Prelude.{
  ℕ, zero, suc, ◌+◌, ◌*◌, ◌%◌, ◌^◌, ◌<◌, ◌≤◌, ◌≡◌, refl, sym, ◌∙◌, ap, Bool, true, Option, none,
  some, List, [], ◌∷◌, length, get_elem?, concat, All, arith,
}
use lmp.Prelude.Int.{ℤ}
use mathlib.Core.Path.{subst}
use lmp.Proto.{Segment, Fec, sim_video_size}
use lmp.SkipList.{search}
use lmp.Sender.{FlexSender, Sender, next, split_frame}
use lmp.Sender.Cached.{IsCached}
use lmp.Sender.Put.{Frame, put, segment}
use lmp.Sender.Put.Segments.{put-Stored, sends_for, frame_of, Stored, Fitting}
use lmp.Sender.Send.{stamp_segment}
use lmp.FrameCache.{FrameCache, index_of, open_cache}
use lmp.FrameCache.Play.{is_full, copy_frame}
use lmp.FrameCache.Assemble.{IsFragment}
use lmp.FrameCache.Copy.{AreSmall}
use lmp.FrameCache.Deliver.{deliver, Comes, deliver-copy_frame}

-- A packet that the sender sends: the cached segment of one of the `total` packet ids above `base`, with
-- the stamps of the time at which it goes out.
pub record IsSent {F : Type 0} (t : Sender F) (base total : ℕ) (seg : Segment) : Type 0 where
  pub place : ℕ
  pub below : place < total
  pub send_id : ℕ
  pub cached : Segment
  pub known : search t.ack_cache (base + 1 + place) ≡ some send_id
  pub found : search t.segs_cache send_id ≡ some cached
  pub now_ts : ℤ
  pub seq : ℕ
  pub stamped : stamp_segment now_ts t.first_ts seq cached ≡ seg

Stored-fragment :
    {F : Type 0} (t : Sender F) (f : Frame) (base index : ℕ) (pieces : List (List ℕ)) (k id : ℕ)
    (seg : Segment)
    → Stored t f base index pieces
    → k < length pieces
    → search t.ack_cache (base + 1 + k) ≡ some id
    → search t.segs_cache id ≡ some seg
    → (piece : List ℕ) × (fec_id : ℕ) × (get_elem? pieces k ≡ some piece)
      × (segment f (base + 1 + k) (index + k) fec_id piece ≡ seg)
Stored-fragment t f base index [] k id seg st below e g = absurd (omega (arith, below))
Stored-fragment t f base index (piece ∷ pieces) zero id seg ((j, fec_id, a, b), st) below e g =
    let same : j ≡ id = cc (a, e, ap (search t.ack_cache) (plus_zero (base + 1))) in
    (
      piece,
      fec_id,
      refl,
      ap (λ n. segment f n (index + 0) fec_id piece) (plus_zero (base + 1))
          ∙ ap (λ n. segment f (base + 1) n fec_id piece) (plus_zero index)
          ∙ cc (b, g, ap (search t.segs_cache) same),
    )
  where
    plus_zero : (n : ℕ) → n + 0 ≡ n
    plus_zero n = omega arith
Stored-fragment t f base index (piece ∷ pieces) (suc k) id seg (st, sts) below e g =
    let r =
      Stored-fragment t f (base + 1) (index + 1) pieces k id seg sts (omega (arith, below))
        (ap (search t.ack_cache) (plus_suc (base + 1)) ∙ e) g in
    (
      r.0,
      r.1,
      r.2,
      ap (λ n. segment f n (index + suc k) r.1 r.0) (sym (plus_suc (base + 1)))
          ∙ ap (λ n. segment f (base + 1 + 1 + k) n r.1 r.0) (sym (plus_suc index))
          ∙ r.3,
    )
  where
    plus_suc : (n : ℕ) → n + 1 + k ≡ n + suc k
    plus_suc n = omega arith

sent-IsFragment :
    {F : Type 0} (t : Sender F) (f : Frame) (base : ℕ) (pieces : List (List ℕ)) (seg : Segment)
    → f.total ≡ length pieces
    → Stored t f base 0 pieces
    → IsSent t base f.total seg
    → IsFragment f.fid f.payload_type pieces seg
unfolding stamp_segment segment
sent-IsFragment t f base pieces seg n st h =
    let below : h.place < length pieces = omega (arith, h.below, n) in
    let r = Stored-fragment t f base 0 pieces h.place h.send_id h.cached st below h.known h.found in
    subst (IsFragment f.fid f.payload_type pieces)
      (ap (stamp_segment h.now_ts t.first_ts h.seq) r.3 ∙ h.stamped)
      (record {
        same_fid = refl;
        same_total = n;
        same_type = refl;
        in_range = omega (arith, below);
        piece = ap (get_elem? pieces) (zero_plus h.place) ∙ r.2;
      })
  where
    zero_plus : (k : ℕ) → 0 + k ≡ k
    zero_plus k = omega arith

All-map :
    {A : Type 0} (P Q : A → Type 0) (xs : List A) → ((x : A) → P x → Q x) → All P xs → All Q xs
All-map P Q [] h a = tt
All-map P Q (x ∷ xs) h (p, a) = (h x p, All-map P Q xs h a)

Fitting-AreSmall : (pieces : List (List ℕ)) → Fitting sim_video_size pieces → AreSmall pieces
Fitting-AreSmall [] f = tt
Fitting-AreSmall (piece ∷ pieces) (a, b, f) = (b, Fitting-AreSmall pieces f)

-- A frame of at least one byte and at most 65535 times SIM_VIDEO_SIZE is put in a sender whose caches
-- are in order and whose ids do not run out; no group gives more than `most` parity packets. Packets that it sends for the frame, the cached segment of
-- each of its packet ids at least once, stamped at any times and in any order, reach a frame cache
-- that was just opened. Then no write is out of bounds, the frame is full, and its copy to a buffer that
-- is large enough is the bytes of the frame, with their payload type.
pub deliver-put :
    {F : Type 0} (ops : FlexSender F) (most : ℕ)
    (few : (flex : F) (loss_fraction : ℕ) → length (ops.update flex loss_fraction).1 ≤ most)
    (loss_fraction : ℕ) (now_ts : ℤ) (payload_type ftype : ℕ) (bytes : List ℕ) (s : Sender F)
    (segs : List Segment) (rtt rtt_var buffer_size : ℕ)
    → 0 < length bytes
    → length bytes ≤ 65535 * sim_video_size
    → s.packet_id_seed + (split_frame (length bytes) sim_video_size).1 < 2 ^ 32
    → s.send_id_seed + sends_for most (split_frame (length bytes) sim_video_size).1 + most < 2 ^ 32
    → s.frame_id_seed + 1 < 2 ^ 32
    → IsCached s
    → All
        (IsSent
          (put ops loss_fraction now_ts payload_type ftype bytes s)
          s.packet_id_seed
          (split_frame (length bytes) sim_video_size).1)
        segs
    → ((i : ℕ) → i < (split_frame (length bytes) sim_video_size).1 → Comes i segs)
    → length bytes ≤ buffer_size
    → (c : FrameCache) × (deliver segs (open_cache rtt rtt_var) ≡ some c)
      × (is_full (c.frames (index_of (s.frame_id_seed + 1))) ≡ true)
      × (copy_frame buffer_size [] 0 (c.frames (index_of (s.frame_id_seed + 1))).segments
          ≡ some (bytes, payload_type))
deliver-put ops most few loss_fraction now_ts payload_type ftype bytes s segs rtt rtt_var
      buffer_size pos fits h k seeds c sent comes room =
    let t = put ops loss_fraction now_ts payload_type ftype bytes s in
    let f = frame_of now_ts payload_type ftype bytes s in
    let r =
      (put-Stored ops most few loss_fraction now_ts payload_type ftype bytes s pos fits h k c).3 in
    let pieces = r.0 in
    let fid_is : f.fid ≡ s.frame_id_seed + 1 = omega arith in
    let some_bytes : 0 < length (concat pieces) = omega (arith, ap (λ xs. length xs) r.4, pos) in
    let d =
      deliver-copy_frame f.fid payload_type pieces segs rtt rtt_var buffer_size (omega arith)
        (concat-pos pieces some_bytes) (Fitting-AreSmall pieces r.3)
        (omega (arith, ap (λ xs. length xs) r.4, room))
        (All-map (IsSent t s.packet_id_seed f.total) (IsFragment f.fid payload_type pieces) segs
          (λ seg. sent-IsFragment t f s.packet_id_seed pieces seg (sym r.2) r.1) sent)
        (λ i l. comes i (omega (arith, l, r.2))) in
    (
      d.0,
      d.1,
      ap (λ n. is_full (d.0.frames (index_of n))) (sym fid_is) ∙ d.4,
      ap (λ n. copy_frame buffer_size [] 0 (d.0.frames (index_of n)).segments) (sym fid_is)
          ∙ d.5
          ∙ ap (λ xs. some (xs, payload_type)) r.4,
    )
  where
    concat-pos : (pieces : List (List ℕ)) → 0 < length (concat pieces) → 0 < length pieces
    concat-pos [] l = absurd (omega (arith, l))
    concat-pos (piece ∷ pieces) l = omega arith
