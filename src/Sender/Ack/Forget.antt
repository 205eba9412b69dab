-- ===== src/Sender/Ack/Forget.antt =====
-- sim_transport/sim_sender.c: what an acknowledgement drops.
use lmp.Prelude.{
  ℕ, ◌+◌, ◌%◌, ◌^◌, ◌≡◌, refl, Bool, true, false, Option, none, some, List, [], ◌∷◌, ltb, leb, ◌==◌,
  ◌||◌, ◌&&◌, if◌then◌else◌, arith,
}
use lmp.Prelude.Int.{ℤ}
use lmp.Proto.{Segment, SegmentAck}
use lmp.SkipList.{SkipList, search, remove}
use lmp.SkipList.Laws.{IsSorted, search-Above, search-head, search-remove, remove-IsSorted}
use lmp.Sender.{Sender}
use lmp.Sender.Cached.{IsCached, Leads}
use lmp.Sender.Ack.{ack, answered, forget, drop_acked, if_acked, remove_acked, update_base}
use lmp.Sender.Ack.Safe.{IsPart-tail, update_base-IsCached}

if_some :
    {A : Type 0} (b : Bool) (x y : A)
    → (if b then none else some x) ≡ some y
    → (b ≡ false) × (x ≡ y)
if_some true x y e = absurd (cc e)
if_some false x y e = (refl, cc e)

-- An acknowledgement that is taken is about ids that were given.
pub ack-answered :
    {F : Type 0} (rtt : ℕ) (now_ts : ℤ) (a : SegmentAck) (s t : Sender F) (r : Option ℕ)
    → ack rtt now_ts a s ≡ some (t, r)
    → ((ltb s.packet_id_seed a.acked_packet_id || ltb s.packet_id_seed a.base_packet_id) ≡ false)
      × (answered rtt now_ts a s ≡ t)
unfolding ack
ack-answered rtt now_ts a s t r e =
    let h =
      if_some (ltb s.packet_id_seed a.acked_packet_id || ltb s.packet_id_seed a.base_packet_id) _ _
        e in
    (h.0, cc h.1)

-- Is a packet acknowledged, by the base or by itself?
abbrev pub is_member : ℕ → ℕ → List ℕ → Bool
is_member base k [] = false
is_member base k (n ∷ ns) = (k == (base + n) % 2 ^ 32) || is_member base k ns

abbrev pub is_acked : {F : Type 0} → SegmentAck → Sender F → ℕ → Bool
is_acked a s k =
    (ltb s.base_packet_id a.base_packet_id && leb k a.base_packet_id)
    || is_member a.base_packet_id k a.acked

search-drop_acked :
    (base : ℕ) (segs : SkipList Segment) (acks : SkipList ℕ) (k : ℕ)
    → IsSorted acks
    → Leads acks segs
    → search (drop_acked base segs acks) k ≡ (if leb k base then none else search acks k)
unfolding drop_acked if_acked search
search-drop_acked base segs [] k s l = ground arith
search-drop_acked base segs ((j, id) ∷ acks) k s l =
    let rest =
      search-drop_acked base segs acks k s.1
        (λ i x h. l i x ((IsPart-tail j id acks s).within i x h)) in
    let h = l j id (search-head j id acks) in head rest h.0 h.1 h.2
  where
    head :
        search (drop_acked base segs acks) k ≡ (if leb k base then none else search acks k)
        → (seg : Segment) → search segs id ≡ some seg
        → seg.packet_id ≡ j
        → search (if_acked base (search segs id) (drop_acked base segs acks) ((j, id) ∷ acks)) k
          ≡ (if leb k base then none else search ((j, id) ∷ acks) k)
    head rest seg e p = rw e (ground (arith, rest, p, search-Above j k acks s.0))

search-remove_acked :
    (base : ℕ) (ns : List ℕ) (acks : SkipList ℕ) (k : ℕ)
    → IsSorted acks
    → search (remove_acked base ns acks) k ≡ (if is_member base k ns then none else search acks k)
unfolding remove_acked
search-remove_acked base [] acks k s = refl
search-remove_acked base (n ∷ ns) acks k s = ground (
  arith,
  search-remove_acked base ns (remove acks ((base + n) % 2 ^ 32)) k
      (remove-IsSorted acks ((base + n) % 2 ^ 32) s),
  search-remove acks ((base + n) % 2 ^ 32) k s,
)

search-update_base :
    {F : Type 0} (base : ℕ) (s : Sender F) (k : ℕ)
    → IsCached s
    → search (update_base base s).ack_cache k
      ≡ (if ltb s.base_packet_id base && leb k base then none else search s.ack_cache k)
unfolding update_base
search-update_base base s k c =
    ground (arith, search-drop_acked base s.segs_cache s.ack_cache k c.acks_sorted c.leads)

pub search-forget :
    {F : Type 0} (a : SegmentAck) (s : Sender F) (k : ℕ)
    → IsCached s
    → search (forget a s).ack_cache k ≡ (if is_acked a s k then none else search s.ack_cache k)
unfolding forget
search-forget a s k c = ground (
  arith,
  search-remove_acked a.base_packet_id a.acked (update_base a.base_packet_id s).ack_cache k
      (update_base-IsCached a.base_packet_id s c).acks_sorted,
  search-update_base a.base_packet_id s k c,
)
