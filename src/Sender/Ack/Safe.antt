-- ===== src/Sender/Ack/Safe.antt =====
-- sim_transport/sim_sender.c: acknowledgement and ageing leave no dangling pointer.
use lmp.Prelude.{
  ℕ, ◌+◌, ◌%◌, ◌^◌, ◌≡◌, refl, Option, none, some, List, [], ◌∷◌, ltb, leb, arith, inl, inr,
  Bool-cases,
}
use lmp.Prelude.Int.{ℤ, pos, ltb_ℤ, ◌+ℤ◌}
use lmp.Proto.{Segment}
use lmp.SkipList.{SkipList, search, remove}
use lmp.SkipList.Laws.{IsSorted, search-Above, remove-IsSorted, search-remove-some}
use lmp.Sender.{Sender, max_cache_delay}
use lmp.Sender.Cached.{IsCached, InOrder}
use lmp.Sender.Ack.{drop_acked, if_acked, remove_acked, update_base, evict_segments, evict_cache}

-- A part of a skip list, in order.
pub record IsPart {V : Type 0} (part nodes : SkipList V) : Type 0 where
  pub sorted : IsSorted part
  pub within : (k : ℕ) (val : V) → search part k ≡ some val → search nodes k ≡ some val

IsPart-refl : {V : Type 0} (nodes : SkipList V) → IsSorted nodes → IsPart nodes nodes
IsPart-refl nodes s = record { sorted = s; within = λ k v h. h }

IsPart-trans : {V : Type 0} {a b c : SkipList V} → IsPart a b → IsPart b c → IsPart a c
IsPart-trans p q = record { sorted = p.sorted; within = λ k v h. q.within k v (p.within k v h) }

IsPart-remove :
    {V : Type 0} (nodes : SkipList V) (key : ℕ) → IsSorted nodes → IsPart (remove nodes key) nodes
IsPart-remove nodes key s = record {
  sorted = remove-IsSorted nodes key s;
  within = λ k v h. (search-remove-some nodes key k v s h).0;
}

pub IsPart-tail :
    {V : Type 0} (j : ℕ) (v : V) (nodes : SkipList V)
    → IsSorted ((j, v) ∷ nodes)
    → IsPart nodes ((j, v) ∷ nodes)
unfolding search
IsPart-tail j v nodes (a, s) = record {
  sorted = s;
  within = λ k w h. ground (arith, h, search-Above j k nodes a);
}

pub none-IsPart :
    {V : Type 0} (part nodes : SkipList V) (k : ℕ)
    → IsPart part nodes
    → search nodes k ≡ none
    → search part k ≡ none
none-IsPart {V} part nodes k p e = go (search part k) refl
  where
    go : (o : Option V) → search part k ≡ o → o ≡ none
    go none h = refl
    go (some v) h = cc (p.within k v h, e)

-- The first packets are gone, up to the new base.
drop_acked-IsPart :
    (base : ℕ) (segs : SkipList Segment) (acks : SkipList ℕ)
    → IsSorted acks
    → IsPart (drop_acked base segs acks) acks
unfolding drop_acked if_acked
drop_acked-IsPart base segs [] s = IsPart-refl [] s
drop_acked-IsPart base segs ((k, id) ∷ acks) s =
    go (search segs id) (drop_acked-IsPart base segs acks s.1)
  where
    go :
        (o : Option Segment)
        → IsPart (drop_acked base segs acks) acks
        → IsPart (if_acked base o (drop_acked base segs acks) ((k, id) ∷ acks)) ((k, id) ∷ acks)
    go none r = IsPart-refl ((k, id) ∷ acks) s
    go (some seg) r = elim (Bool-cases (leb seg.packet_id base)) [
      | inl e ↦ rw e (IsPart-trans r (IsPart-tail k id acks s))
      | inr e ↦ rw e (IsPart-refl ((k, id) ∷ acks) s)
    ]

pub remove_acked-IsPart :
    (base : ℕ) (ns : List ℕ) (acks : SkipList ℕ)
    → IsSorted acks
    → IsPart (remove_acked base ns acks) acks
unfolding remove_acked
remove_acked-IsPart base [] acks s = IsPart-refl acks s
remove_acked-IsPart base (n ∷ ns) acks s =
    let p = IsPart-remove acks ((base + n) % 2 ^ 32) s in
    IsPart-trans (remove_acked-IsPart base ns (remove acks ((base + n) % 2 ^ 32)) p.sorted) p

-- Pointers that are dropped do not dangle.
pub part-IsCached :
    {F : Type 0} (s : Sender F) (acks : SkipList ℕ)
    → IsCached s
    → IsPart acks s.ack_cache
    → IsCached (record s { ack_cache = acks })
part-IsCached s acks c p = record {
  segs_sorted = c.segs_sorted;
  acks_sorted = p.sorted;
  segs_below = c.segs_below;
  acks_below = λ k h. none-IsPart acks s.ack_cache k p (c.acks_below k h);
  leads = λ k id h. c.leads k id (p.within k id h);
}

pub update_base-IsCached :
    {F : Type 0} (base : ℕ) (s : Sender F) → IsCached s → IsCached (update_base base s)
unfolding update_base
update_base-IsCached base s c = elim (Bool-cases (ltb s.base_packet_id base)) [
  | inl e ↦ rw e (
      part-IsCached (record s { base_packet_id = base }) (drop_acked base s.segs_cache s.ack_cache)
        c (drop_acked-IsPart base s.segs_cache s.ack_cache c.acks_sorted))
  | inr e ↦ rw e c
]

-- The oldest segment goes, with its pointer.
evict_first :
    (id : ℕ) (seg : Segment) (segs : SkipList Segment) (acks : SkipList ℕ)
    (send_seed packet_seed : ℕ)
    → InOrder ((id, seg) ∷ segs) acks send_seed packet_seed
    → InOrder segs (remove acks seg.packet_id) send_seed packet_seed
unfolding search
evict_first id seg segs acks send_seed packet_seed c =
    let p = IsPart-tail id seg segs c.segs_sorted in
    let q = IsPart-remove acks seg.packet_id c.acks_sorted in
    record {
      segs_sorted = p.sorted;
      acks_sorted = q.sorted;
      segs_below = λ k h. none-IsPart segs ((id, seg) ∷ segs) k p (c.segs_below k h);
      acks_below = λ k h. none-IsPart (remove acks seg.packet_id) acks k q (c.acks_below k h);
      leads = λ k j h.
          let e = search-remove-some acks seg.packet_id k j c.acks_sorted h in
          let r = c.leads k j e.0 in (r.0, ground (arith, r.1, r.2, e.1), r.2);
    }

pub evict_segments-InOrder :
    (now_ts first_ts : ℤ) (segs : SkipList Segment) (acks : SkipList ℕ) (send_seed packet_seed : ℕ)
    → InOrder segs acks send_seed packet_seed
    → let r : SkipList Segment × SkipList ℕ = evict_segments now_ts first_ts segs acks in
      InOrder r.0 r.1 send_seed packet_seed
unfolding evict_segments
evict_segments-InOrder now_ts first_ts [] acks send_seed packet_seed c = c
evict_segments-InOrder now_ts first_ts ((id, seg) ∷ segs) acks send_seed packet_seed c =
    let rest =
      evict_segments-InOrder now_ts first_ts segs (remove acks seg.packet_id) send_seed packet_seed
        (evict_first id seg segs acks send_seed packet_seed c) in
    elim (Bool-cases (ltb_ℤ now_ts (pos seg.timestamp +ℤ first_ts +ℤ pos max_cache_delay))) [
      | inl e ↦ rw e c
      | inr e ↦ rw e rest
    ]

pub evict_cache-IsCached :
    {F : Type 0} (now_ts : ℤ) (s : Sender F) → IsCached s → IsCached (evict_cache now_ts s)
unfolding evict_cache
evict_cache-IsCached now_ts s c =
    evict_segments-InOrder now_ts s.first_ts s.segs_cache s.ack_cache s.send_id_seed
      s.packet_id_seed c
