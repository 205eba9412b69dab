-- ===== src/Sender/Tests.antt =====
-- sim_transport/sim_sender.c: runs of the sender at concrete inputs.
use lmp.Prelude.{
  ℕ, zero, suc, ◌+◌, ◌<◌, ◌≤◌, ◌≡◌, refl, false, some, List, [], ◌∷◌, ◌++◌, length, concat, arith,
}
use lmp.Prelude.Int.{pos, ◌+ℤ◌}
use lmp.Proto.{SegmentAck, sim_video_size}
use lmp.SkipList.{search, insert}
use lmp.Sender.{FlexSender, Sender, add_packet, fresh, split_frame, split_sizes}
use lmp.Sender.Split.{total_size, Within, split_frame_lem}
use lmp.Sender.Cached.{IsCached, Kept}
use lmp.Sender.Put.{
  put, put_segments, put_segment, segment, sender_fec, queue_fecs, put_parity, is_full, group_id,
  join_group,
}
use lmp.Sender.Put.Segments.{put-Stored, frame_of, Stored, Fitting}
use lmp.Sender.Ack.{
  ack, answered, forget, answer, resend_at, resend, is_recent, is_old, update_base, remove_acked,
  drop_acked, if_acked,
}
use lmp.Sender.Ack.Resend.{ack_lem, After}
use lmp.Sender.Reach.{Reach, here, step, put_frame, acknowledge, Reach-IsCached}

-- A group that counts its segments, and gives no parity.
abbrev counter : FlexSender ℕ
counter = record {
  fec_id = λ n. 7;
  segs_count = λ n. n;
  add_segment = λ n seg. n + 1;
  update = λ n loss. (0, []);
}

abbrev few_example :
    (flex : ℕ) (loss_fraction : ℕ) → length (counter.update flex loss_fraction).1 ≤ 0
few_example flex loss_fraction = omega arith

abbrev zeros : ℕ → List ℕ
zeros zero = []
zeros (suc n) = 0 ∷ zeros n

abbrev frame_bytes : List ℕ
frame_bytes = zeros 1500

abbrev idle : Sender ℕ
idle = fresh (some 0)

abbrev sent : Sender ℕ
sent = put counter 0 (pos 5000) 96 1 frame_bytes idle

-- A frame of 1500 bytes is two segments.
sent_requests : sent.requests ≡ add_packet 1 false 780 ∷ add_packet 2 false 780 ∷ []
unfolding put put_segments put_segment segment sender_fec queue_fecs put_parity is_full group_id
    join_group split_frame split_sizes fresh insert
sent_requests = refl

split_frame_lem_example :
    (length (split_frame 1500 sim_video_size).0 ≡ (split_frame 1500 sim_video_size).1)
    × (0 < (split_frame 1500 sim_video_size).1)
    × (total_size (split_frame 1500 sim_video_size).0 ≡ 1500)
    × Within 1 sim_video_size (split_frame 1500 sim_video_size).0
split_frame_lem_example = split_frame_lem 1500 (omega arith) (omega arith)

abbrev idle-Reach : Reach counter 0 idle idle
idle-Reach = here

idle-IsCached : IsCached idle
unfolding fresh search
idle-IsCached = record {
  segs_sorted = tt;
  acks_sorted = tt;
  segs_below = λ k h. refl;
  acks_below = λ k h. refl;
  leads = λ k id h. cc h;
}

put-Stored_example :
    IsCached sent
    × Kept idle.segs_cache sent.segs_cache
    × Kept idle.ack_cache sent.ack_cache
    × ((pieces : List (List ℕ)) × Stored sent (frame_of (pos 5000) 96 1 frame_bytes idle) 0 0 pieces
        × (length pieces ≡ 2)
        × Fitting sim_video_size pieces
        × (concat pieces ≡ frame_bytes))
unfolding fresh split_frame
put-Stored_example =
    put-Stored counter 0 few_example 0 (pos 5000) 96 1 frame_bytes idle (omega arith) (omega arith)
      (omega arith) (omega arith) idle-IsCached

abbrev first_acked : SegmentAck
first_acked = record { base_packet_id = 1; acked_packet_id = 2; nack = 1 ∷ []; acked = [] }

-- The frame goes out, the first packet is acknowledged and the second is asked for again.
abbrev acked : Sender ℕ
acked = answered 100 (pos 6000) first_acked sent

acked_requests : acked.requests ≡ sent.requests ++ add_packet 2 false 780 ∷ []
unfolding put put_segments put_segment segment sender_fec queue_fecs put_parity is_full group_id
    join_group split_frame split_sizes fresh insert answered forget answer resend_at resend
    is_recent is_old update_base remove_acked drop_acked if_acked search ◌+ℤ◌
acked_requests = refl

ack_lem_example :
    (2 ≤ sent.packet_id_seed)
    × (1 ≤ sent.packet_id_seed)
    × After 100 (pos 6000) first_acked sent acked
unfolding ack put put_segments put_segment segment sender_fec queue_fecs put_parity is_full group_id
    join_group split_frame split_sizes fresh insert
ack_lem_example = ack_lem 100 (pos 6000) first_acked sent acked _ refl put-Stored_example.0

Reach-IsCached_example : IsCached acked
unfolding ack put put_segments put_segment segment sender_fec queue_fecs put_parity is_full group_id
    join_group split_frame split_sizes fresh insert
Reach-IsCached_example = Reach-IsCached counter 0 few_example (some 0) acked (
    step
      (step here (
        put_frame idle 0 (pos 5000) 96 1 frame_bytes (omega arith) (omega arith) (omega arith)
          (omega arith)))
      (acknowledge sent acked 100 (pos 6000) first_acked _ refl))
