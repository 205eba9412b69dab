-- ===== src/Sender/Put.antt =====
-- sim_transport/sim_sender.c: `sim_sender_put`, one frame.
pub mod Keeps
pub mod Segments
use lmp.Prelude.{
  ℕ, zero, suc, ◌+◌, ◌-◌, ◌*◌, ◌/◌, ◌%◌, ◌^◌, Bool, true, false, ◌&&◌, Option, none, some, List, [],
  ◌∷◌, ◌++◌, ltb, leb, ◌==◌, if◌then◌else◌, length, take, drop,
}
use lmp.Prelude.Int.{ℤ, pos, negsuc, pos_part, neg_part}
use lmp.Proto.{Segment, Fec, sim_video_size}
use lmp.SkipList.{SkipList, insert}
use lmp.Pacing.Queue.{is_unset}
use lmp.Sender.{FlexSender, Sender, Request, add_packet, next, split_frame, sim_segment_header_size}

-- `(uint32_t)(now_ts - sender->first_ts)`
abbrev pub since : ℤ → ℤ → ℕ
since now_ts first_ts =
    (pos_part now_ts
      + neg_part first_ts
      + (2 ^ 32 - (pos_part first_ts + neg_part now_ts) % 2 ^ 32))
    % 2 ^ 32

-- What the segments of one frame share.
pub record Frame : Type 0 where
  pub fid : ℕ
  pub timestamp : ℕ
  pub ftype : ℕ
  pub payload_type : ℕ
  pub total : ℕ

-- The segment that the loop builds.
unfoldable pub segment : Frame → ℕ → ℕ → ℕ → List ℕ → Segment
segment f packet_id index fec_id bytes = record {
  packet_id = packet_id;
  fid = f.fid;
  timestamp = f.timestamp;
  index = index;
  total = f.total;
  ftype = f.ftype;
  payload_type = f.payload_type;
  remb = 1;
  fec_id = fec_id;
  send_ts = 0;
  transport_seq = 0;
  payload = bytes;
}

module _ {F : Type 0} (ops : FlexSender F) where
  -- One packet of the list that `flex_fec_sender_update` fills, in `sim_sender_fec`.
  unfoldable pub queue_fec : ℤ → Fec → Sender F → Sender F
  queue_fec now_ts fec s =
      let id = next s.send_id_seed in
      record s {
        send_id_seed = id;
        fecs_cache = insert s.fecs_cache id (record fec { send_ts = since now_ts s.first_ts });
        requests =
            s.requests ++ add_packet id true (length fec.fec_data + sim_segment_header_size) ∷ [];
      }

  unfoldable pub queue_fecs : ℤ → List Fec → Sender F → Sender F
  unfolding queue_fec
  queue_fecs now_ts [] s = s
  queue_fecs now_ts (fec ∷ fecs) s = queue_fecs now_ts fecs (queue_fec now_ts fec s)

  -- `sim_sender_fec`, where there is a group.
  unfoldable pub sender_fec : ℕ → ℤ → Option F → Sender F → Sender F
  unfolding queue_fecs
  sender_fec loss_fraction now_ts none s = s
  sender_fec loss_fraction now_ts (some flex) s =
      let r : F × List Fec = ops.update flex loss_fraction in
      queue_fecs now_ts r.1 (record s { flex = some r.0 })

  -- The `fec_id` of a segment and the group with it.
  unfoldable pub group_id : Option F → ℕ
  group_id none = 0
  group_id (some flex) = ops.fec_id flex

  unfoldable pub join_group : Option F → Segment → Option F
  join_group none seg = none
  join_group (some flex) seg = some (ops.add_segment flex seg)

  unfoldable pub is_full : Option F → Bool
  is_full none = false
  is_full (some flex) = leb 100 (ops.segs_count flex)

  -- One turn of the loop: the segment is cached and asked to be sent.
  unfoldable pub put_segment : Frame → ℕ → List ℕ → Sender F → Sender F
  unfolding segment group_id join_group
  put_segment f index bytes s =
      let packet_id = next s.packet_id_seed in
      let send_id = next s.send_id_seed in
      let seg = segment f packet_id index (group_id s.flex) bytes in
      record s {
        packet_id_seed = packet_id;
        send_id_seed = send_id;
        flex = join_group s.flex seg;
        segs_cache = insert s.segs_cache send_id seg;
        ack_cache = insert s.ack_cache packet_id send_id;
        requests =
            s.requests ++ add_packet send_id false (length bytes + sim_segment_header_size) ∷ [];
      }

  -- The parity of a group that is full.
  unfoldable pub put_parity : ℕ → ℤ → Sender F → Sender F
  unfolding sender_fec is_full
  put_parity loss_fraction now_ts s =
      if is_full s.flex then sender_fec loss_fraction now_ts s.flex s else s

  -- The loop of `sim_sender_put`, `n` segments from `index` on.
  unfoldable pub put_segments : ℕ → ℤ → Frame → ℕ → ℕ → List ℕ → List ℕ → Sender F → Sender F
  unfolding put_segment put_parity
  put_segments loss_fraction now_ts f zero index splits bytes s = s
  put_segments loss_fraction now_ts f (suc n) index [] bytes s = s
  put_segments loss_fraction now_ts f (suc n) index (size ∷ splits) bytes s =
      put_segments loss_fraction now_ts f n (index + 1) splits (drop size bytes)
        (put_parity loss_fraction now_ts (put_segment f index (take size bytes) s))

  -- `sim_sender_put`; `cc` is there from creation to destruction.
  unfoldable pub put : ℕ → ℤ → ℕ → ℕ → List ℕ → Sender F → Sender F
  unfolding put_segments split_frame sender_fec
  put loss_fraction now_ts payload_type ftype bytes s =
      let r : List ℕ × ℕ = split_frame (length bytes) sim_video_size in
      let timestamp = if is_unset s.first_ts then 0 else since now_ts s.first_ts in
      let first_ts = if is_unset s.first_ts then now_ts else s.first_ts in
      let fid = next s.frame_id_seed in
      let f : Frame = record {
        fid = fid;
        timestamp = timestamp;
        ftype = ftype;
        payload_type = payload_type;
        total = r.1;
      } in
      let sent =
        put_segments loss_fraction now_ts f r.1 0 r.0 bytes
          (record s { first_ts = first_ts; frame_id_seed = fid }) in
      sender_fec loss_fraction now_ts sent.flex sent
