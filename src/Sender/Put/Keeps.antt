-- ===== src/Sender/Put/Keeps.antt =====
-- sim_transport/sim_sender.c: putting a frame keeps the caches in order.
use lmp.Prelude.{
  ℕ, ◌+◌, ◌^◌, ◌<◌, ◌≤◌, ◌≡◌, refl, Option, none, some, List, [], ◌∷◌, length, arith, Bool-cases,
  inl, inr,
}
use lmp.Prelude.Int.{ℤ}
use lmp.Proto.{Fec}
use lmp.SkipList.Laws.{insert-IsSorted}
use lmp.Sender.{FlexSender, Sender, next}
use lmp.Sender.Cached.{IsCached, Kept, insert-Below, insert-Kept, insert-Leads}
use lmp.Sender.Put.{
  Frame, segment, group_id, queue_fec, queue_fecs, sender_fec, put_segment, put_parity, is_full,
}

-- A step of the sender: the caches stay in order and what is cached stays, the packet ids move on by
-- `packets`, and the send ids by `sends` at most.
pub record Step {F : Type 0} (packets sends : ℕ) (s t : Sender F) : Type 0 where
  pub cached : IsCached t
  pub segs_kept : Kept s.segs_cache t.segs_cache
  pub acks_kept : Kept s.ack_cache t.ack_cache
  pub packet_seed : t.packet_id_seed ≡ s.packet_id_seed + packets
  pub send_seed : t.send_id_seed ≤ s.send_id_seed + sends
  pub grows : s.send_id_seed ≤ t.send_id_seed

pub Step-refl : {F : Type 0} (s : Sender F) → IsCached s → Step 0 0 s s
Step-refl s c = record {
  cached = c;
  segs_kept = λ k v h. h;
  acks_kept = λ k v h. h;
  packet_seed = omega arith;
  send_seed = omega arith;
  grows = omega arith;
}

pub Step-trans :
    {F : Type 0} {p q m n j k : ℕ} {s t u : Sender F}
    → j ≡ p + q
    → m + n ≤ k
    → Step p m s t
    → Step q n t u
    → Step j k s u
Step-trans e l a b = record {
  cached = b.cached;
  segs_kept = λ k v h. b.segs_kept k v (a.segs_kept k v h);
  acks_kept = λ k v h. b.acks_kept k v (a.acks_kept k v h);
  packet_seed = omega (arith, a.packet_seed, b.packet_seed);
  send_seed = omega (arith, a.send_seed, b.send_seed);
  grows = omega (arith, a.grows, b.grows);
}

module _ {F : Type 0} (ops : FlexSender F) (most : ℕ)
    (few : (flex : F) (loss_fraction : ℕ) → length (ops.update flex loss_fraction).1 ≤ most) where
  queue_fec-Step :
      (now_ts : ℤ) (fec : Fec) (s : Sender F)
      → s.send_id_seed + 1 < 2 ^ 32
      → IsCached s
      → Step 0 1 s (queue_fec ops now_ts fec s)
  unfolding queue_fec
  queue_fec-Step now_ts fec s room c = record {
    cached = record {
      segs_sorted = c.segs_sorted;
      acks_sorted = c.acks_sorted;
      segs_below = λ k h. c.segs_below k (omega arith);
      acks_below = c.acks_below;
      leads = c.leads;
    };
    segs_kept = λ k v h. h;
    acks_kept = λ k v h. h;
    packet_seed = omega arith;
    send_seed = omega arith;
    grows = omega arith;
  }

  queue_fecs-Step :
      (now_ts : ℤ) (fecs : List Fec) (s : Sender F)
      → s.send_id_seed + length fecs < 2 ^ 32
      → IsCached s
      → Step 0 (length fecs) s (queue_fecs ops now_ts fecs s)
  unfolding queue_fecs
  queue_fecs-Step now_ts [] s room c = Step-refl s c
  queue_fecs-Step now_ts (fec ∷ fecs) s room c =
      let a = queue_fec-Step now_ts fec s (omega arith) c in
      let b =
        queue_fecs-Step now_ts fecs (queue_fec ops now_ts fec s) (omega (arith, a.send_seed))
          a.cached in
      Step-trans (omega arith) (omega arith) a b

  pub sender_fec-Step :
      (loss_fraction : ℕ) (now_ts : ℤ) (flex : Option F) (s : Sender F)
      → s.send_id_seed + most < 2 ^ 32
      → IsCached s
      → Step 0 most s (sender_fec ops loss_fraction now_ts flex s)
  unfolding sender_fec
  sender_fec-Step loss_fraction now_ts none s room c =
      Step-trans (omega arith) (omega arith) (Step-refl s c) (Step-refl s c)
  sender_fec-Step loss_fraction now_ts (some flex) s room c =
      let r : F × List Fec = ops.update flex loss_fraction in
      let t = record s { flex = some r.0 } in
      let c' : IsCached t = record {
        segs_sorted = c.segs_sorted;
        acks_sorted = c.acks_sorted;
        segs_below = c.segs_below;
        acks_below = c.acks_below;
        leads = c.leads;
      } in
      let a = queue_fecs-Step now_ts r.1 t (omega (arith, few flex loss_fraction)) c' in
      record {
        cached = a.cached;
        segs_kept = a.segs_kept;
        acks_kept = a.acks_kept;
        packet_seed = a.packet_seed;
        send_seed = omega (arith, a.send_seed, few flex loss_fraction);
        grows = a.grows;
      }

  pub put_segment-Step :
      (f : Frame) (index : ℕ) (bytes : List ℕ) (s : Sender F)
      → s.packet_id_seed + 1 < 2 ^ 32
      → s.send_id_seed + 1 < 2 ^ 32
      → IsCached s
      → Step 1 1 s (put_segment ops f index bytes s)
  unfolding put_segment segment
  put_segment-Step f index bytes s h k c =
      let p = next s.packet_id_seed in
      let id = next s.send_id_seed in
      let seg = segment f p index (group_id ops s.flex) bytes in
      let new_p = c.acks_below p (omega arith) in
      let new_id = c.segs_below id (omega arith) in
      record {
        cached = record {
          segs_sorted = insert-IsSorted s.segs_cache id seg c.segs_sorted;
          acks_sorted = insert-IsSorted s.ack_cache p id c.acks_sorted;
          segs_below =
              insert-Below s.segs_cache s.send_id_seed id seg (omega arith) c.segs_sorted
                c.segs_below;
          acks_below =
              insert-Below s.ack_cache s.packet_id_seed p id (omega arith) c.acks_sorted
                c.acks_below;
          leads =
              insert-Leads s.ack_cache s.segs_cache p id seg c.acks_sorted c.segs_sorted new_p
                new_id refl c.leads;
        };
        segs_kept = insert-Kept s.segs_cache id seg c.segs_sorted new_id;
        acks_kept = insert-Kept s.ack_cache p id c.acks_sorted new_p;
        packet_seed = omega arith;
        send_seed = omega arith;
        grows = omega arith;
      }

  pub put_parity-Step :
      (loss_fraction : ℕ) (now_ts : ℤ) (s : Sender F)
      → s.send_id_seed + most < 2 ^ 32
      → IsCached s
      → Step 0 most s (put_parity ops loss_fraction now_ts s)
  unfolding put_parity
  put_parity-Step loss_fraction now_ts s room c = elim (Bool-cases (is_full ops s.flex)) [
    | inl e ↦ rw e (sender_fec-Step loss_fraction now_ts s.flex s room c)
    | inr e ↦ rw e (Step-trans (omega arith) (omega arith) (Step-refl s c) (Step-refl s c))
  ]
