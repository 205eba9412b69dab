-- ===== src/Receiver/Asked.antt =====
-- sim_transport/sim_receiver.c: the losses that an acknowledgement asks for.
use lmp.Prelude.{
  ℕ, ◌+◌, ◌-◌, ◌%◌, ◌^◌, ◌<◌, ◌≤◌, ◌≡◌, ◌∙◌, ap, Bool, true, false, not, ◌&&◌, some, [], ◌∷◌, ltb,
  leb, length, max, All, arith, inl, inr, Bool-cases,
}
use lmp.Prelude.Int.{pos, ◌+ℤ◌}
use lmp.Proto.{nack_num}
use lmp.SkipList.{SkipList, search}
use lmp.SkipList.Laws.{IsSorted, Above, search-head, search-Above}
use lmp.Receiver.{Loss}
use lmp.Receiver.Ack.{is_asked, is_given_up, is_past, space_factor, ask}

-- Every key is at most `high`.
abbrev pub AtMost : ℕ → SkipList Loss → Type 0
AtMost high [] = Unit
AtMost high ((key, l) ∷ loss) = (key ≤ high) × AtMost high loss

-- A number in the `nack` list is the distance to a packet that is missing.
pub record IsMissing (base : ℕ) (loss : SkipList Loss) (n : ℕ) : Type 0 where
  pub entry : Loss
  pub found : search loss (base + n) ≡ some entry
  pub positive : 0 < n

search-tail :
    (key k : ℕ) (l x : Loss) (loss : SkipList Loss)
    → Above key loss
    → search loss k ≡ some x
    → search ((key, l) ∷ loss) k ≡ some x
unfolding search
search-tail key k l x loss above e = ground (arith, e, search-Above key k loss above)

far : (base key : ℕ) → base < key → key ≤ base + 65535 → base + (key - base) % 2 ^ 16 ≡ key
far base key h low = omega arith

far_pos : (base key : ℕ) → base < key → key ≤ base + 65535 → 0 < (key - base) % 2 ^ 16
far_pos base key h low = omega arith

asked_room :
    (rtt rtt_var cur_ts asked : ℕ) (l : Loss)
    → is_asked rtt rtt_var cur_ts asked l ≡ true
    → asked < nack_num
asked_room rtt rtt_var cur_ts asked l e =
    room (is_given_up cur_ts l) (is_past (l.ts +ℤ pos (space_factor rtt rtt_var l)) cur_ts) e
  where
    room : (a b : Bool) → (not a && (b && ltb asked nack_num)) ≡ true → asked < nack_num
    room true b e = absurd (cc e)
    room false false e = absurd (cc e)
    room false true e = ground (arith, e)

pub ask-IsMissing :
    (rtt rtt_var cur_ts base asked max_count : ℕ) (loss all : SkipList Loss)
    → IsSorted loss
    → AtMost (base + 65535) loss
    → ((k : ℕ) (l : Loss) → search loss k ≡ some l → search all k ≡ some l)
    → All (IsMissing base all) (ask rtt rtt_var cur_ts base asked max_count loss).nack
unfolding ask
ask-IsMissing rtt rtt_var cur_ts base asked max_count [] all s small within = tt
ask-IsMissing rtt rtt_var cur_ts base asked max_count ((key, l) ∷ loss) all (above, s) (low, small)
      within =
    let tail : (k : ℕ) (x : Loss) → search loss k ≡ some x → search all k ≡ some x =
      λ k x e. within k x (search-tail key k l x loss above e) in
    let skip = ask-IsMissing rtt rtt_var cur_ts base asked max_count loss all s small tail in
    let kept =
      ask-IsMissing rtt rtt_var cur_ts base asked (max max_count l.count) loss all s small tail in
    let more =
      ask-IsMissing rtt rtt_var cur_ts base (asked + 1) (max max_count (l.count + 1)) loss all s
        small tail in
    elim (Bool-cases (leb key base)) [
      | inl e ↦ rw e skip
      | inr e ↦ elim (Bool-cases (is_asked rtt rtt_var cur_ts asked l)) [
        | inl h ↦
            let n = (key - base) % 2 ^ 16 in
            let same : base + n ≡ key = far base key (ground (arith, e)) low in
            rw (e, h)
              (
                record {
                  entry = l;
                  found = ap (search all) same ∙ within key l (search-head key l loss);
                  positive = far_pos base key (ground (arith, e)) low;
                },
                more,
              )
        | inr h ↦ rw (e, h) kept
      ]
    ]

pub ask-count :
    (rtt rtt_var cur_ts base asked max_count : ℕ) (loss : SkipList Loss)
    → asked ≤ nack_num
    → length (ask rtt rtt_var cur_ts base asked max_count loss).nack + asked ≤ nack_num
unfolding ask
ask-count rtt rtt_var cur_ts base asked max_count [] h = omega (arith, h)
ask-count rtt rtt_var cur_ts base asked max_count ((key, l) ∷ loss) h =
    elim (Bool-cases (leb key base)) [
      | inl e ↦ rw e (ask-count rtt rtt_var cur_ts base asked max_count loss h)
      | inr e ↦ elim (Bool-cases (is_asked rtt rtt_var cur_ts asked l)) [
        | inl q ↦
            let room : asked < nack_num = asked_room rtt rtt_var cur_ts asked l q in
            let r =
              ask-count rtt rtt_var cur_ts base (asked + 1) (max max_count (l.count + 1)) loss
                (omega arith) in
            rw (e, q) (omega (arith, r))
        | inr q ↦ rw (e, q) (ask-count rtt rtt_var cur_ts base asked (max max_count l.count) loss h)
      ]
    ]
