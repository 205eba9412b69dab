-- ===== src/Receiver/Nacks.antt =====
-- sim_transport/sim_receiver.c: what an acknowledgement says.
use lmp.Prelude.{
  append-nil, length-take, ℕ, zero, suc, ◌+◌, ◌-◌, ◌%◌, ◌^◌, ◌≤◌, ◌≡◌, refl, sym, ap, Bool, true,
  false, ◌&&◌, List, [], ◌∷◌, ◌++◌, ltb, leb, ◌==◌, if◌then◌else◌, length, take, min, All, arith,
  ◌⊎◌, inl, inr, Bool-cases,
}
use lmp.Proto.{SegmentAck, Fir, nack_num, ack_num}
use lmp.Message.{Msg, sim_seg_ack, sim_fir}
use lmp.SkipList.{SkipList, remove}
use lmp.SkipList.Laws.{IsSorted, Above, remove-IsSorted, Above-remove, Above-trans}
use lmp.Sender.{cache_max_delay}
use lmp.Receiver.{Loss, Receiver, send_fir}
use lmp.Receiver.Ack.{drop_from, base_of, update_base, ask, acked_of, send_ack, ack_now}
use lmp.Receiver.Asked.{AtMost, IsMissing, ask-IsMissing, ask-count}

AtMost-remove :
    (high key : ℕ) (loss : SkipList Loss) → AtMost high loss → AtMost high (remove loss key)
unfolding remove
AtMost-remove high key [] h = tt
AtMost-remove high key ((k, l) ∷ loss) (a, h) = elim (Bool-cases (k == key)) [
  | inl e ↦ ground (arith, a, h, AtMost-remove high key loss h)
  | inr e ↦ ground (arith, a, h, AtMost-remove high key loss h)
]

AtMost-mono :
    (low high : ℕ) (loss : SkipList Loss) → low ≤ high → AtMost low loss → AtMost high loss
AtMost-mono low high [] h a = tt
AtMost-mono low high ((k, l) ∷ loss) h (b, a) = (omega arith, AtMost-mono low high loss h a)

-- The losses are sorted, above the base, and not further from it than 16 bits can say.
pub record InWindow (base : ℕ) (loss : SkipList Loss) : Type 0 where
  pub sorted : IsSorted loss
  pub above : Above base loss
  pub near : AtMost (base + 65535) loss

drop_from-InWindow :
    (n key base : ℕ) (loss : SkipList Loss)
    → InWindow base loss
    → InWindow base (drop_from n key loss)
unfolding drop_from
drop_from-InWindow zero key base loss w = w
drop_from-InWindow (suc n) key base loss w =
    drop_from-InWindow n (key + 1) base (remove loss key) (record {
      sorted = remove-IsSorted loss key w.sorted;
      above = Above-remove base key loss w.above;
      near = AtMost-remove (base + 65535) key loss w.near;
    })

base_of-InWindow :
    (r : Receiver) (loss : SkipList Loss)
    → r.base_seq ≤ r.max_seq
    → InWindow r.base_seq loss
    → (r.base_seq ≤ base_of r loss) × InWindow (base_of r loss) loss
base_of-InWindow r [] h w = (h, record { sorted = tt; above = tt; near = tt })
base_of-InWindow r ((key, l) ∷ loss) h w =
    let pos : ltb 0 key ≡ true = ground (arith, w.above.0) in
    let up : r.base_seq ≤ key - 1 = omega (arith, w.above.0) in
    rw pos (
      up,
      record {
        sorted = w.sorted;
        above = (
          omega (arith, w.above.0),
          Above-trans (key - 1) key loss (omega (arith, w.above.0)) w.sorted.0,
        );
        near =
            AtMost-mono (r.base_seq + 65535) (key - 1 + 65535) ((key, l) ∷ loss) (omega arith)
              w.near;
      },
    )

update_base-InWindow :
    (r : Receiver)
    → r.base_seq ≤ r.max_seq
    → InWindow r.base_seq r.loss
    → (r.base_seq ≤ (update_base r).base_seq)
      × InWindow (update_base r).base_seq (update_base r).loss
unfolding update_base
update_base-InWindow r h w =
    let n = r.cache.min_seq - r.base_seq in
    base_of-InWindow r (drop_from n (r.base_seq + 1) r.loss) h
      (drop_from-InWindow n (r.base_seq + 1) r.base_seq r.loss w)

acked_of-le : (base : ℕ) (ids : List ℕ) → length (acked_of base ids) ≤ length ids
unfolding acked_of
acked_of-le base [] = omega arith
acked_of-le base (id ∷ ids) = ground (arith, acked_of-le base ids)

-- One acknowledgement as the receiver sends it, after at most one request for a key frame.
pub record IsSent (base seq : ℕ) (missing : SkipList Loss) (before after : List Msg) : Type 0 where
  pub body : SegmentAck
  pub first : List Msg
  pub fir_at_most : (first ≡ []) ⊎ ((fir : Fir) × (first ≡ sim_fir fir ∷ []))
  pub sent : after ≡ before ++ first ++ sim_seg_ack body ∷ []
  pub base_is : body.base_packet_id ≡ base
  pub seq_is : body.acked_packet_id ≡ seq
  pub nack_room : length body.nack ≤ nack_num
  pub acked_room : length body.acked ≤ ack_num
  pub nacks : All (IsMissing base missing) body.nack

acked-room :
    (b : Bool) (base count : ℕ) (ids : List ℕ)
    → length (if b then acked_of base (take (min ack_num count) ids) else []) ≤ ack_num
acked-room true base count ids =
    omega
      (arith, acked_of-le base (take (min ack_num count) ids), length-take (min ack_num count) ids)
acked-room false base count ids = omega arith

send_ack-IsSent :
    (seq : ℕ) (nack : List ℕ) (r : Receiver) (missing : SkipList Loss) (before first : List Msg)
    → (first ≡ []) ⊎ ((fir : Fir) × (first ≡ sim_fir fir ∷ []))
    → r.out ≡ before ++ first
    → length nack ≤ nack_num
    → All (IsMissing r.base_seq missing) nack
    → IsSent (send_ack seq nack r).base_seq seq missing before (send_ack seq nack r).out
unfolding send_ack
send_ack-IsSent seq nack r missing before first f e room h =
    let acked =
      if ltb r.base_seq r.max_seq
      then acked_of r.base_seq (take (min ack_num r.acked_count) r.ackeds)
      else [] in
    let body : SegmentAck = record {
      base_packet_id = r.base_seq;
      acked_packet_id = seq;
      nack = nack;
      acked = acked;
    } in
    record {
      body = body;
      first = first;
      fir_at_most = f;
      sent = ap (λ ms. ms ++ sim_seg_ack body ∷ []) e;
      base_is = refl;
      seq_is = refl;
      nack_room = room;
      acked_room = acked-room (ltb r.base_seq r.max_seq) r.base_seq r.acked_count r.ackeds;
      nacks = h;
    }

send_ack-base :
    {low : ℕ} (seq : ℕ) (nack : List ℕ) (r : Receiver)
    → low ≤ r.base_seq
    → low ≤ (send_ack seq nack r).base_seq
unfolding send_ack
send_ack-base seq nack r h = h

send_fir-out :
    (now_ts : ℕ) (r : Receiver)
    → (first : List Msg) × ((first ≡ []) ⊎ ((fir : Fir) × (first ≡ sim_fir fir ∷ [])))
      × ((send_fir now_ts r).out ≡ r.out ++ first)
      × ((send_fir now_ts r).base_seq ≡ r.base_seq)
unfolding send_fir
send_fir-out now_ts r = elim (Bool-cases (ltb (r.fir_ts + 2000) now_ts)) [
  | inl e ↦
      let seq = if r.is_flightting then r.fir_seq else (r.fir_seq + 1) % 2 ^ 32 in
      let fir : Fir = record { fir_seq = seq } in
      rw e (sim_fir fir ∷ [], inr (fir, refl), refl, refl)
  | inr e ↦ rw e ([], inl refl, sym (append-nil r.out), refl)
]

-- From `r` the receiver came to `t`: the base did not go back, and one acknowledgement was sent.
abbrev pub Acked : ℕ → SkipList Loss → Receiver → Receiver → Type 0
Acked seq missing r t = (r.base_seq ≤ t.base_seq) × IsSent t.base_seq seq missing r.out t.out

if-Acked :
    {seq : ℕ} {missing : SkipList Loss} (r x y : Receiver) (b : Bool)
    → Acked seq missing r x
    → Acked seq missing r y
    → Acked seq missing r (if b then x else y)
if-Acked r x y true h k = h
if-Acked r x y false h k = k

-- A receiver, whose losses are sorted, above its base and at most 65535 from it, and whose base is at
-- most the last packet id that it has, acknowledges. Then its base does not go back. It sends at most
-- one request for a key frame and then exactly one acknowledgement, with the new base and the given
-- packet id: its two lists fit in their arrays of 20, and each number in the `nack` list is positive
-- and leads from the base to a packet that is missing.
pub ack_now-IsSent :
    (rtt rtt_var cur_ts seq : ℕ) (r : Receiver)
    → r.base_seq ≤ r.max_seq
    → InWindow r.base_seq r.loss
    → Acked seq (update_base r).loss r (ack_now rtt rtt_var cur_ts seq r)
unfolding ack_now update_base
ack_now-IsSent rtt rtt_var cur_ts seq r h w =
    let u = update_base-InWindow r h w in
    let based = update_base r in
    let asked = ask rtt rtt_var cur_ts based.base_seq 0 0 based.loss in
    let counted = record based {
      loss = asked.loss;
      loss_count = based.loss_count + length asked.nack;
    } in
    let missing =
      ask-IsMissing rtt rtt_var cur_ts based.base_seq 0 0 based.loss based.loss u.1.sorted u.1.near
        (λ k l e. e) in
    let few = ask-count rtt rtt_var cur_ts based.base_seq 0 0 based.loss (omega arith) in
    let empty = record counted { loss = [] } in
    let f = send_fir-out cur_ts empty in
    let flushed = send_fir cur_ts empty in
    if-Acked r (send_ack seq [] flushed) (send_ack seq asked.nack counted)
      (leb cache_max_delay rtt && ltb 0 (length asked.nack))
      (
        send_ack-base seq [] flushed (omega (arith, f.3, u.0)),
        send_ack-IsSent seq [] flushed based.loss r.out f.0 f.1 f.2 (omega arith) tt,
      )
      (
        send_ack-base seq asked.nack counted u.0,
        send_ack-IsSent seq asked.nack counted based.loss r.out [] (inl refl)
            (sym (append-nil r.out)) (omega (arith, few)) missing,
      )
