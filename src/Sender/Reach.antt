-- ===== src/Sender/Reach.antt =====
-- sim_transport/sim_sender.c: all runs of the sender, as steps, and what holds in each state of them.
use lmp.Prelude.{
  ℕ, ◌+◌, ◌*◌, ◌%◌, ◌^◌, ◌<◌, ◌≤◌, ◌≡◌, refl, sym, ◌∙◌, ap, Bool, true, false, Option, none, some,
  List, length, inl, inr, Bool-cases,
}
use lmp.Prelude.Int.{ℤ}
use lmp.Proto.{Segment, Fec, SegmentAck, Feedback, sim_video_size}
use lmp.SkipList.{SkipList, search, modify}
use lmp.SkipList.Laws.{modify-IsSorted, search-modify_self, search-modify_ne}
use native.Mathlib.Decide.{ℕ_discrete}
use lmp.Sender.{FlexSender, Sender, fresh, active, clean_ack_cache, split_frame}
use lmp.Sender.Cached.{IsCached, InOrder}
use lmp.Sender.Put.{put}
use lmp.Sender.Put.Segments.{put-Stored, sends_for}
use mathlib.Core.Path.{subst}
use lmp.Sender.Ack.{ack, forget, answered, update_base, remove_acked}
use lmp.Sender.Ack.Forget.{ack-answered}
use lmp.Sender.Ack.Safe.{
  part-IsCached, update_base-IsCached, evict_cache-IsCached, remove_acked-IsPart,
}
use lmp.Sender.Send.{
  send_packet, send_segment, send_fec, send_padding, stamp_segment, numbered, feedback, timer,
}

-- Stamps keep the packet id, so the pointers still lead to their segments.
modify-InOrder :
    (segs : SkipList Segment) (acks : SkipList ℕ) (send_seed packet_seed key : ℕ)
    (f : Segment → Segment) (seg : Segment)
    → ((x : Segment) → (f x).packet_id ≡ x.packet_id)
    → search segs key ≡ some seg
    → InOrder segs acks send_seed packet_seed
    → InOrder (modify segs key f) acks send_seed packet_seed
modify-InOrder segs acks send_seed packet_seed key f seg same found c = record {
  segs_sorted = modify-IsSorted segs key f c.segs_sorted;
  acks_sorted = c.acks_sorted;
  segs_below = λ k h.
      search-modify_ne segs key k f (λ q. cc (ap (search segs) q, c.segs_below k h, found))
      ∙ c.segs_below k h;
  acks_below = c.acks_below;
  leads = λ k id h. lead k id (c.leads k id h);
}
  where
    lead :
        (k id : ℕ)
        → ((x : Segment) × (search segs id ≡ some x) × (x.packet_id ≡ k))
        → ((x : Segment) × (search (modify segs key f) id ≡ some x) × (x.packet_id ≡ k))
    lead k id (x, e, p) = elim (ℕ_discrete id key) [
      | yes q ↦ (
        f x,
        ap (search (modify segs key f)) q
            ∙ search-modify_self segs key f x (ap (search segs) (sym q) ∙ e),
        same x ∙ p,
      )
      | no n ↦ (x, search-modify_ne segs key id f n ∙ e, p)
    ]

send_segment-IsCached :
    {F : Type 0} (now_ts : ℤ) (send_id : ℕ) (s : Sender F) (o : Option Segment)
    → search s.segs_cache send_id ≡ o
    → IsCached s
    → IsCached (send_segment now_ts send_id o s).0
unfolding send_segment numbered stamp_segment
send_segment-IsCached now_ts send_id s none e c = c
send_segment-IsCached now_ts send_id s (some seg) e c =
    modify-InOrder s.segs_cache s.ack_cache s.send_id_seed s.packet_id_seed send_id
      (stamp_segment now_ts s.first_ts (s.transport_seq_seed % 2 ^ 16)) seg (λ x. refl) e c

send_fec-IsCached :
    {F : Type 0} (now_ts : ℤ) (send_id : ℕ) (s : Sender F) (o : Option Fec)
    → IsCached s
    → IsCached (send_fec now_ts send_id o s).0
unfolding send_fec numbered
send_fec-IsCached now_ts send_id s none c = c
send_fec-IsCached now_ts send_id s (some fec) c = c

send_packet-IsCached :
    {F : Type 0} (now_ts : ℤ) (send_id : ℕ) (fec : Bool) (size : ℕ) (padding : Bool)
    (stack : List ℕ) (loss_fraction : ℕ) (s : Sender F)
    → IsCached s
    → IsCached (send_packet now_ts send_id fec size padding stack loss_fraction s).0.0
unfolding send_packet send_padding numbered
send_packet-IsCached now_ts send_id fec size true stack loss_fraction s c = c
send_packet-IsCached now_ts send_id true size false stack loss_fraction s c =
    send_fec-IsCached now_ts send_id s (search s.fecs_cache send_id) c
send_packet-IsCached now_ts send_id false size false stack loss_fraction s c =
    send_segment-IsCached now_ts send_id s (search s.segs_cache send_id) refl c

-- An acknowledgement drops pointers only.
forget-IsCached : {F : Type 0} (a : SegmentAck) (s : Sender F) → IsCached s → IsCached (forget a s)
unfolding forget
forget-IsCached a s c =
    let based = update_base a.base_packet_id s in
    let b = update_base-IsCached a.base_packet_id s c in
    part-IsCached based (remove_acked a.base_packet_id a.acked based.ack_cache) b
      (remove_acked-IsPart a.base_packet_id a.acked based.ack_cache b.acks_sorted)

ack-IsCached :
    {F : Type 0} (rtt : ℕ) (now_ts : ℤ) (a : SegmentAck) (s t : Sender F) (r : Option ℕ)
    → ack rtt now_ts a s ≡ some (t, r)
    → IsCached s
    → IsCached t
unfolding answered
ack-IsCached rtt now_ts a s t r e c =
    subst IsCached (ack-answered rtt now_ts a s t r e).1 (forget-IsCached a s c)

active-IsCached : {F : Type 0} (s : Sender F) → IsCached s → IsCached (active s).0
unfolding active
active-IsCached s c = elim (Bool-cases s.actived) [ inl e ↦ rw e c | inr e ↦ rw e c ]

feedback-IsCached :
    {F : Type 0} (body : Feedback) (s : Sender F) → IsCached s → IsCached (feedback body s).0
unfolding feedback
feedback-IsCached body s c = update_base-IsCached body.base_packet_id s c

clean_ack_cache-IsCached : {F : Type 0} (s : Sender F) → IsCached s → IsCached (clean_ack_cache s)
unfolding clean_ack_cache search
clean_ack_cache-IsCached s c = record {
  segs_sorted = c.segs_sorted;
  acks_sorted = tt;
  segs_below = c.segs_below;
  acks_below = λ k h. refl;
  leads = λ k id h. cc h;
}

timer-IsCached : {F : Type 0} (now_ts : ℤ) (s : Sender F) → IsCached s → IsCached (timer now_ts s)
unfolding timer
timer-IsCached now_ts s c = evict_cache-IsCached now_ts s c

pub fresh-IsCached : {F : Type 0} (flex : Option F) → IsCached (fresh flex)
unfolding fresh search
fresh-IsCached flex = record {
  segs_sorted = tt;
  acks_sorted = tt;
  segs_below = λ k h. refl;
  acks_below = λ k h. refl;
  leads = λ k id h. cc h;
}

-- The calls of the sender by its session and its pacer. `most` bounds the parity packets of one group;
-- the ids do not run out, and a frame has a byte, and its segments a number of 16 bits.
pub data Step {F : Type 0} (ops : FlexSender F) (most : ℕ) : Sender F → Sender F → Type 0 where
  activate : (s : Sender F) → Step ops most s (active s).0
  put_frame :
      (s : Sender F) (loss_fraction : ℕ) (now_ts : ℤ) (payload_type ftype : ℕ) (bytes : List ℕ)
      → 0 < length bytes
      → length bytes ≤ 65535 * sim_video_size
      → s.packet_id_seed + (split_frame (length bytes) sim_video_size).1 < 2 ^ 32
      → s.send_id_seed + sends_for most (split_frame (length bytes) sim_video_size).1 + most
        < 2 ^ 32
      → Step ops most s (put ops loss_fraction now_ts payload_type ftype bytes s)
  pace :
      (s : Sender F) (now_ts : ℤ) (send_id : ℕ) (fec : Bool) (size : ℕ) (padding : Bool)
      (stack : List ℕ) (loss_fraction : ℕ)
      → Step ops most s (send_packet now_ts send_id fec size padding stack loss_fraction s).0.0
  acknowledge :
      (s t : Sender F) (rtt : ℕ) (now_ts : ℤ) (a : SegmentAck) (r : Option ℕ)
      → ack rtt now_ts a s ≡ some (t, r)
      → Step ops most s t
  feed_back : (s : Sender F) (body : Feedback) → Step ops most s (feedback body s).0
  clean : (s : Sender F) → Step ops most s (clean_ack_cache s)
  tick : (s : Sender F) (now_ts : ℤ) → Step ops most s (timer now_ts s)

pub data Reach {F : Type 0} (ops : FlexSender F) (most : ℕ) (s : Sender F) : Sender F → Type 0 where
  here : Reach ops most s s
  step : {t u : Sender F} → Reach ops most s t → Step ops most t u → Reach ops most s u

module _ {F : Type 0} (ops : FlexSender F) (most : ℕ)
    (few : (flex : F) (loss_fraction : ℕ) → length (ops.update flex loss_fraction).1 ≤ most) where
  Step-IsCached : {s t : Sender F} → Step ops most s t → IsCached s → IsCached t
  Step-IsCached (activate s) c = active-IsCached s c
  Step-IsCached (put_frame s loss_fraction now_ts payload_type ftype bytes p f h k) c =
      (put-Stored ops most few loss_fraction now_ts payload_type ftype bytes s p f h k c).0
  Step-IsCached (pace s now_ts send_id fec size padding stack loss_fraction) c =
      send_packet-IsCached now_ts send_id fec size padding stack loss_fraction s c
  Step-IsCached (acknowledge s t rtt now_ts a r e) c = ack-IsCached rtt now_ts a s t r e c
  Step-IsCached (feed_back s body) c = feedback-IsCached body s c
  Step-IsCached (clean s) c = clean_ack_cache-IsCached s c
  Step-IsCached (tick s now_ts) c = timer-IsCached now_ts s c

  Reach-Step : {s t : Sender F} → Reach ops most s t → IsCached s → IsCached t
  Reach-Step here c = c
  Reach-Step (step r st) c = Step-IsCached st (Reach-Step r c)

  -- A sender is created and called in any order, by its session and its pacer, until its ids run out:
  -- each frame that is put has 1 to 65535 * SIM_VIDEO_SIZE bytes, and no group gives more than `most`
  -- parity packets at a time. In each state that it reaches, the cache of segments is sorted and has
  -- no key above the last send id, the cache of those not acknowledged is sorted and has no key above
  -- the last packet id, and each packet id in that cache leads to a cached segment with that packet
  -- id: no pointer dangles. Of the cache of parity packets nothing is said.
  pub Reach-IsCached : (flex : Option F) (s : Sender F) → Reach ops most (fresh flex) s → IsCached s
  Reach-IsCached flex s r = Reach-Step r (fresh-IsCached flex)
