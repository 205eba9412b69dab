-- ===== src/Receiver/Tests.antt =====
-- sim_transport/sim_receiver.c: a receiver that misses two packets.
use lmp.Prelude.{◌≡◌, refl, true, [], ◌∷◌, arith}
use lmp.Prelude.Int.{pos, ◌+ℤ◌}
use lmp.Message.{sim_seg_ack}
use lmp.SkipList.{remove}
use lmp.FrameCache.{open_cache}
use lmp.Receiver.{Loss, Receiver, create}
use lmp.Receiver.Ack.{update_base, drop_from, ask, send_ack, acked_of, ack_now}
use lmp.Receiver.Nacks.{InWindow, Acked, ack_now-IsSent}

abbrev lost : Loss
lost = record { loss_ts = 4900; ts = pos 4800; count = 1 }

abbrev missing : Receiver
missing = record (create 100 20 1000) {
  base_seq = 10;
  max_seq = 15;
  loss = (12, lost) ∷ (14, lost) ∷ [];
  is_active = true;
  acked_count = 2;
  ackeds = 13 ∷ 15 ∷ [];
}

missing-InWindow : InWindow missing.base_seq missing.loss
missing-InWindow = record {
  sorted = ((omega arith, tt), (tt, tt));
  above = (omega arith, (omega arith, tt));
  near = (omega arith, (omega arith, tt));
}

ack_now-IsSent_example :
    Acked 15 (update_base missing).loss missing (ack_now 100 20 5000 15 missing)
ack_now-IsSent_example = ack_now-IsSent 100 20 5000 15 missing (omega arith) missing-InWindow

-- The base goes up to the first loss, and both are asked for.
missing_ack :
    (ack_now 100 20 5000 15 missing).out
    ≡ sim_seg_ack (record {
      base_packet_id = 11;
      acked_packet_id = 15;
      nack = 1 ∷ 3 ∷ [];
      acked = 2 ∷ 4 ∷ [];
    })
      ∷ []
unfolding ack_now update_base drop_from ask send_ack acked_of create open_cache ◌+ℤ◌ remove
missing_ack = refl
