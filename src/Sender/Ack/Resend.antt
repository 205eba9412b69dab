-- ===== src/Sender/Ack/Resend.antt =====
-- sim_transport/sim_sender.c: what an acknowledgement asks to be sent again.
use lmp.Prelude.{
  ℕ, ◌+◌, ◌%◌, ◌^◌, ◌<◌, ◌≤◌, ◌≡◌, refl, ap, Bool, true, false, Option, none, some, List, [], ◌∷◌,
  ◌++◌, ltb, leb, ◌||◌, if◌then◌else◌, length, arith, inl, inr, Bool-cases, max, All, All-append,
}
use lmp.Prelude.Int.{ℤ}
use mathlib.Core.Path.{subst}
use lmp.Proto.{Segment, SegmentAck}
use lmp.SkipList.{SkipList, search}
use lmp.Sender.{Sender, Request, add_packet, cache_max_delay, sim_segment_header_size}
use lmp.Sender.Cached.{IsCached}
use lmp.Sender.Ack.{
  ack, answered, forget, answer, resend, resend_at, is_recent, is_old, update_base,
}
use lmp.Sender.Ack.Forget.{is_member, is_acked, ack-answered, search-forget}

-- A request for a packet that was said to be missing and is waited for, of a segment that is neither
-- too old nor, as the code sees it, too recent.
pub record Justified (rtt : ℕ) (now_ts first_ts : ℤ) (base : ℕ) (nack : List ℕ) (old_base : ℕ)
    (acks : SkipList ℕ) (segs : SkipList Segment) (r : Request) : Type 0 where
  pub packet_id : ℕ
  pub send_id : ℕ
  pub seg : Segment
  pub request : r ≡ add_packet send_id false (length seg.payload + sim_segment_header_size)
  pub missing : is_member base packet_id nack ≡ true
  pub above : old_base < packet_id
  pub waited : search acks packet_id ≡ some send_id
  pub cached : search segs send_id ≡ some seg
  pub sent_before : is_recent rtt now_ts first_ts seg ≡ false
  pub not_old : is_old now_ts first_ts seg ≡ false
  pub in_time : rtt < cache_max_delay

abbrev pub IsJustified : {F : Type 0} → ℕ → ℤ → SegmentAck → Sender F → Request → Type 0
IsJustified rtt now_ts a s =
    Justified rtt now_ts s.first_ts a.base_packet_id a.nack s.base_packet_id s.ack_cache
      s.segs_cache

module _ {F : Type 0} (rtt : ℕ) (now_ts : ℤ) (a : SegmentAck) (s : Sender F) where
  resend-IsJustified :
      (key id : ℕ) (o : Option Segment)
      → is_member a.base_packet_id key a.nack ≡ true
      → s.base_packet_id < key
      → search s.ack_cache key ≡ some id
      → search s.segs_cache id ≡ o
      → All (IsJustified rtt now_ts a s) (resend rtt now_ts s.first_ts id o)
  unfolding resend
  resend-IsJustified key id none m above e h = tt
  resend-IsJustified key id (some seg) m above e h =
      go (is_recent rtt now_ts s.first_ts seg) (is_old now_ts s.first_ts seg)
        (ltb rtt cache_max_delay) refl refl refl
    where
      go :
          (r o l : Bool)
          → is_recent rtt now_ts s.first_ts seg ≡ r
          → is_old now_ts s.first_ts seg ≡ o
          → ltb rtt cache_max_delay ≡ l
          → All (IsJustified rtt now_ts a s) (
              if r || o
              then []
              else if l
              then add_packet id false (length seg.payload + sim_segment_header_size) ∷ []
              else [])
      go true o l er eo el = tt
      go false true l er eo el = tt
      go false false false er eo el = tt
      go false false true er eo el = (
        record {
          packet_id = key;
          send_id = id;
          seg = seg;
          request = refl;
          missing = m;
          above = above;
          waited = e;
          cached = h;
          sent_before = er;
          not_old = eo;
          in_time = ground (arith, el);
        },
        tt,
      )

  resend_at-IsJustified :
      (key : ℕ) (o : Option ℕ)
      → is_member a.base_packet_id key a.nack ≡ true
      → s.base_packet_id < key
      → search s.ack_cache key ≡ o
      → All (IsJustified rtt now_ts a s) (resend_at rtt now_ts s.first_ts s.segs_cache o)
  unfolding resend_at
  resend_at-IsJustified key none m above e = tt
  resend_at-IsJustified key (some id) m above e =
      resend-IsJustified key id (search s.segs_cache id) m above e refl

  answer-IsJustified :
      (ns : List ℕ)
      → ((k : ℕ)
          → is_member a.base_packet_id k ns ≡ true
          → is_member a.base_packet_id k a.nack ≡ true)
      → All (IsJustified rtt now_ts a s) (answer rtt now_ts a.base_packet_id ns s)
  unfolding answer
  answer-IsJustified [] within = tt
  answer-IsJustified (n ∷ ns) within =
      let key = (a.base_packet_id + n) % 2 ^ 32 in
      let rest = answer-IsJustified ns (λ k h. within k (ground (arith, h))) in
      elim (Bool-cases (leb key s.base_packet_id)) [
        | inl e ↦ rw e rest
        | inr e ↦ rw e (
            All-append (IsJustified rtt now_ts a s) _ _
              (resend_at-IsJustified key (search s.ack_cache key) (within key (ground arith))
                (ground (arith, e)) refl)
              rest)
      ]

-- What an acknowledgement does to a sender.
pub record After {F : Type 0} (rtt : ℕ) (now_ts : ℤ) (a : SegmentAck) (s t : Sender F)
    : Type 0 where
  pub base : t.base_packet_id ≡ max s.base_packet_id a.base_packet_id
  pub segs_kept : t.segs_cache ≡ s.segs_cache
  pub waited_for :
      (k : ℕ) → search t.ack_cache k ≡ (if is_acked a s k then none else search s.ack_cache k)
  pub wanted : List Request
  pub asked : t.requests ≡ s.requests ++ wanted
  pub justified : All (IsJustified rtt now_ts a t) wanted

update_base-fields :
    {F : Type 0} (base : ℕ) (s : Sender F)
    → ((update_base base s).base_packet_id ≡ max s.base_packet_id base)
      × ((update_base base s).segs_cache ≡ s.segs_cache)
      × ((update_base base s).requests ≡ s.requests)
unfolding update_base
update_base-fields base s = ground arith

answered-After :
    {F : Type 0} (rtt : ℕ) (now_ts : ℤ) (a : SegmentAck) (s : Sender F)
    → IsCached s
    → After rtt now_ts a s (answered rtt now_ts a s)
unfolding answered forget
answered-After rtt now_ts a s c =
    let f = update_base-fields a.base_packet_id s in
    let wanted = answer rtt now_ts a.base_packet_id a.nack (forget a s) in
    record {
      base = f.0;
      segs_kept = f.1;
      waited_for = λ k. search-forget a s k c;
      wanted = wanted;
      asked = ap (λ q. q ++ wanted) f.2;
      justified = answer-IsJustified rtt now_ts a (forget a s) a.nack (λ k h. h);
    }

-- An acknowledgement is taken by a sender whose caches are in order. Then its two ids are at most the
-- packet id seed; the segments stay cached; a packet is waited for just if it was before and is neither
-- acknowledged by itself nor covered by a base that advances; and the calls of `cc` that are added
-- are all of `add_packet` with a segment that was said to be missing, is still waited for, above the base, not older than
-- CACHE_MAX_DELAY and past the gap as the code computes it, and none is made if the round trip time is
-- CACHE_MAX_DELAY or more.
pub ack_lem :
    {F : Type 0} (rtt : ℕ) (now_ts : ℤ) (a : SegmentAck) (s t : Sender F) (r : Option ℕ)
    → ack rtt now_ts a s ≡ some (t, r)
    → IsCached s
    → (a.acked_packet_id ≤ s.packet_id_seed)
      × (a.base_packet_id ≤ s.packet_id_seed)
      × After rtt now_ts a s t
ack_lem rtt now_ts a s t r e c =
    let h = ack-answered rtt now_ts a s t r e in
    (
      ground (arith, h.0),
      ground (arith, h.0),
      subst (After rtt now_ts a s) h.1 (answered-After rtt now_ts a s c),
    )
