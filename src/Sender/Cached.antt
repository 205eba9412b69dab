-- ===== src/Sender/Cached.antt =====
-- sim_transport/sim_sender.c: the caches of the sender. No pointer of `ack_cache` dangles.
use lmp.Prelude.{ℕ, ◌<◌, ◌≡◌, sym, ◌∙◌, ap, some, none, arith}
use native.Mathlib.Decide.{ℕ_discrete}
use lmp.Proto.{Segment}
use lmp.SkipList.{SkipList, search, insert}
use lmp.SkipList.Laws.{IsSorted, search-insert_self, search-insert_ne}
use lmp.Sender.{Sender}

-- Nothing is under a key above the seed.
abbrev pub Below : {V : Type 0} → SkipList V → ℕ → Type 0
Below nodes seed = (k : ℕ) → seed < k → search nodes k ≡ none

-- Every pointer leads to the segment with that packet id.
abbrev pub Leads : SkipList ℕ → SkipList Segment → Type 0
Leads acks segs =
    (k id : ℕ)
    → search acks k ≡ some id
    → (seg : Segment) × (search segs id ≡ some seg) × (seg.packet_id ≡ k)

-- The caches are in order: sorted, without keys above the seeds, and no pointer dangles.
pub record InOrder (segs : SkipList Segment) (acks : SkipList ℕ) (send_seed packet_seed : ℕ)
    : Type 0 where
  pub segs_sorted : IsSorted segs
  pub acks_sorted : IsSorted acks
  pub segs_below : Below segs send_seed
  pub acks_below : Below acks packet_seed
  pub leads : Leads acks segs

abbrev pub IsCached : {F : Type 0} → Sender F → Type 0
IsCached s = InOrder s.segs_cache s.ack_cache s.send_id_seed s.packet_id_seed

-- Insertion under a new key that becomes the seed.
pub insert-Below :
    {V : Type 0} (nodes : SkipList V) (seed key : ℕ) (val : V)
    → seed < key
    → IsSorted nodes
    → Below nodes seed
    → Below (insert nodes key val) key
insert-Below nodes seed key val h s b k l =
    search-insert_ne nodes key k val s (b key h) (omega arith) ∙ b k (omega arith)

-- What is found stays found.
abbrev pub Kept : {V : Type 0} → SkipList V → SkipList V → Type 0
Kept {V} nodes nodes' = (k : ℕ) (val : V) → search nodes k ≡ some val → search nodes' k ≡ some val

pub insert-Kept :
    {V : Type 0} (nodes : SkipList V) (key : ℕ) (val : V)
    → IsSorted nodes
    → search nodes key ≡ none
    → Kept nodes (insert nodes key val)
insert-Kept nodes key val s e k v h =
    search-insert_ne nodes key k val s e (λ q. cc (ap (search nodes) q, h, e)) ∙ h

-- A new segment under new ids, and a pointer to it.
pub insert-Leads :
    (acks : SkipList ℕ) (segs : SkipList Segment) (p id : ℕ) (seg : Segment)
    → IsSorted acks
    → IsSorted segs
    → search acks p ≡ none
    → search segs id ≡ none
    → seg.packet_id ≡ p
    → Leads acks segs
    → Leads (insert acks p id) (insert segs id seg)
insert-Leads acks segs p id seg sa ss ea es e l k j h = elim (ℕ_discrete k p) [
  | yes q ↦
      let same : j ≡ id =
        cc (ap (search (insert acks p id)) q, h, search-insert_self acks p id sa ea) in
      (seg, ap (search (insert segs id seg)) same ∙ search-insert_self segs id seg ss es, e ∙ sym q)
  | no n ↦
      let r = l k j (sym (search-insert_ne acks p k id sa ea n) ∙ h) in
      (r.0, insert-Kept segs id seg ss es j r.0 r.1, r.2)
]
