-- ===== src/Delivery/Tests.antt =====
-- A frame of 1500 bytes goes from a sender to a receiver, its second packet first.
use lmp.Prelude.{
  ℕ, zero, suc, ◌+◌, ◌-◌, ◌<◌, ◌≡◌, refl, true, none, some, List, [], ◌∷◌, inl, inr, arith,
}
use lmp.Prelude.Int.{pos}
use lmp.Proto.{Segment}
use lmp.SkipList.{search, insert}
use lmp.Sender.{FlexSender, Sender, fresh, split_frame, split_sizes}
use lmp.Sender.Put.{
  put, put_segments, put_segment, segment, sender_fec, put_parity, group_id, join_group,
}
use lmp.Sender.Put
use lmp.Sender.Reach.{fresh-IsCached}
use lmp.Sender.Send.{stamp_segment}
use lmp.FrameCache.{FrameCache, index_of, open_cache}
use lmp.FrameCache.Play.{copy_frame, is_full}
use lmp.FrameCache.Deliver.{deliver, Comes}
use lmp.Delivery.{IsSent, deliver-put}

abbrev none_ready : FlexSender ℕ
none_ready = record {
  fec_id = λ n. 7;
  segs_count = λ n. n;
  add_segment = λ n seg. n + 1;
  update = λ n loss. (0, []);
}

abbrev zeros : ℕ → List ℕ
zeros zero = []
zeros (suc n) = 0 ∷ zeros n

abbrev idle : Sender ℕ
idle = fresh none

abbrev sent : Sender ℕ
sent = put none_ready 0 (pos 5000) 96 1 (zeros 1500) idle

-- The cached segment of a place, and the packet with its stamps.
abbrev cached : ℕ → Segment
cached index =
    segment (record { fid = 1; timestamp = 0; ftype = 1; payload_type = 96; total = 2 }) (index + 1)
      index 0 (zeros 750)

abbrev packet : ℕ → Segment
packet index = stamp_segment (pos 5010) (pos 5000) (3 - index) (cached index)

packet-IsSent_0 : IsSent sent 0 2 (packet 0)
unfolding put put_segments put_segment sender_fec put_parity Put.is_full group_id join_group
    split_frame split_sizes fresh insert search
packet-IsSent_0 = record {
  place = 0;
  below = omega arith;
  send_id = 1;
  cached = cached 0;
  known = refl;
  found = refl;
  now_ts = pos 5010;
  seq = 3;
  stamped = refl;
}

packet-IsSent_1 : IsSent sent 0 2 (packet 1)
unfolding put put_segments put_segment sender_fec put_parity Put.is_full group_id join_group
    split_frame split_sizes fresh insert search
packet-IsSent_1 = record {
  place = 1;
  below = omega arith;
  send_id = 2;
  cached = cached 1;
  known = refl;
  found = refl;
  now_ts = pos 5010;
  seq = 2;
  stamped = refl;
}

packets-Comes : (i : ℕ) → i < 2 → Comes i (packet 1 ∷ packet 0 ∷ [])
unfolding stamp_segment segment
packets-Comes zero l = inr (inl refl)
packets-Comes (suc zero) l = inl refl
packets-Comes (suc (suc i)) l = absurd (omega (arith, l))

deliver-put_example :
    (c : FrameCache) × (deliver (packet 1 ∷ packet 0 ∷ []) (open_cache 100 5) ≡ some c)
    × (is_full (c.frames (index_of 1)) ≡ true)
    × (copy_frame 2000 [] 0 (c.frames (index_of 1)).segments ≡ some (zeros 1500, 96))
unfolding fresh split_frame
deliver-put_example =
    deliver-put none_ready 0 (λ flex loss. omega arith) 0 (pos 5000) 96 1 (zeros 1500) idle
      (packet 1 ∷ packet 0 ∷ []) 100 5 2000 (omega arith) (omega arith) (omega arith) (omega arith)
      (omega arith) (fresh-IsCached {F = ℕ} none) (packet-IsSent_1, (packet-IsSent_0, tt))
      packets-Comes (omega arith)
