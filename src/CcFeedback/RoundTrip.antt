-- ===== src/CcFeedback/RoundTrip.antt =====
-- estimator/estimator_common.c: what a feedback message says is read back as it was sent.
use lmp.Prelude.{
  ℕ, ◌+◌, ◌-◌, ◌%◌, ◌^◌, ◌≤◌, ◌<◌, ◌≡◌, ◌∙◌, sym, ap, Bool, true, false, List, [], ◌∷◌, ◌++◌, arith,
  ltb, if◌then◌else◌, length, append-nil, drop, take,
}
use lmp.Stream.{Stream}
use lmp.Stream.Read.{Reader}
use lmp.Stream.Reads.{
  Reads, Reads-pure, Reads-pure-eq, Reads-bind, Reads-last, Reads-uint8, Reads-uint16, Reads-uint32,
  Reads-int32, Reads-int64,
}
use lmp.Stream.Valid.{IsValid, IsValid-IsReadable, written}
use lmp.CcFeedback.{
  Sample, FeedbackMsg, has, optional, read_samples, read_loss, read_proxy, decode_feedback_msg,
  encode_feedback_msg, remb_msg, loss_info_msg, proxy_ts_msg, max_feelback_count,
}
use lmp.CcFeedback.Wire.{
  part, wire_samples, wire_loss, wire_proxy, wire_feedback_msg, encode_feedback_msg-Writes,
}

-- Every sample's time is less than 2 ^ 16 after `min_ts`.
abbrev pub AreNear : ℕ → List Sample → Type 0
AreNear min_ts [] = Unit
AreNear min_ts (x ∷ xs) =
    (x.seq < 2 ^ 16)
    × (min_ts ≤ x.ts)
    × (x.ts < min_ts + 2 ^ 16)
    × (x.ts < 2 ^ 64)
    × AreNear min_ts xs

-- The messages whose fields fit their C types, with no more samples than the array holds.
pub record FeedbackMsgInRange (m : FeedbackMsg) : Type 0 where
  pub flag_fits : m.flag < 2 ^ 8
  pub remb_fits : m.remb < 2 ^ 32
  pub fraction_loss_fits : m.fraction_loss < 2 ^ 8
  pub packet_num_fits : m.packet_num < 2 ^ 32
  pub base_seq_fits : m.base_seq < 2 ^ 64
  pub min_ts_fits : m.min_ts < 2 ^ 64
  pub samples_fit : length m.samples ≤ max_feelback_count
  pub samples_near : AreNear m.min_ts m.samples

-- The parts that the flag names are those of the message, the others as before.
unfoldable pub merged : FeedbackMsg → FeedbackMsg → FeedbackMsg
merged old m = record {
  flag = m.flag;
  remb = if has m.flag remb_msg then m.remb else old.remb;
  fraction_loss = if has m.flag loss_info_msg then m.fraction_loss else old.fraction_loss;
  packet_num = if has m.flag loss_info_msg then m.packet_num else old.packet_num;
  base_seq = if has m.flag proxy_ts_msg then m.base_seq else old.base_seq;
  min_ts = if has m.flag proxy_ts_msg then m.min_ts else old.min_ts;
  samples = if has m.flag proxy_ts_msg then m.samples else old.samples;
}

merged_pairs :
    (old m : FeedbackMsg)
    → let loss : ℕ × ℕ =
        if has m.flag loss_info_msg
        then (m.fraction_loss, m.packet_num)
        else (old.fraction_loss, old.packet_num) in
      let proxy : ℕ × ℕ × List Sample =
        if has m.flag proxy_ts_msg
        then (m.base_seq, m.min_ts, m.samples)
        else (old.base_seq, old.min_ts, old.samples) in
      record {
        flag = m.flag;
        remb = if has m.flag remb_msg then m.remb else old.remb;
        fraction_loss = loss.0;
        packet_num = loss.1;
        base_seq = proxy.0;
        min_ts = proxy.1;
        samples = proxy.2;
      }
      ≡ merged old m
unfolding merged
merged_pairs old m = ground arith

optional-Reads :
    {A : Type 0} (test : Bool) {m : Reader A} {bytes : List ℕ} {a : A} (old : A)
    → Reads m bytes a
    → Reads (optional test m old) (part test bytes) (if test then a else old)
unfolding optional
optional-Reads true old h = h
optional-Reads false old h = Reads-pure old

read_samples-Reads :
    (min_ts : ℕ) (xs : List Sample)
    → AreNear min_ts xs
    → Reads (read_samples min_ts (length xs)) (wire_samples min_ts xs) xs
unfolding read_samples wire_samples
read_samples-Reads min_ts [] h = Reads-pure []
read_samples-Reads min_ts (x ∷ xs) h =
    let delta = (x.ts + 2 ^ 64 - min_ts) % 2 ^ 16 in
    let back : (min_ts + delta) % 2 ^ 64 ≡ x.ts = omega arith in
    Reads-bind _ (Reads-uint16 h.0) (
      Reads-bind _ (Reads-uint16 (omega arith)) (
        Reads-last _ (read_samples-Reads min_ts xs h.4)
          (Reads-pure-eq (ap (λ ts. record { seq = x.seq; ts = ts } ∷ xs) back))))

read_loss-Reads :
    (m : FeedbackMsg)
    → FeedbackMsgInRange m
    → Reads read_loss (wire_loss m) (m.fraction_loss, m.packet_num)
unfolding read_loss wire_loss
read_loss-Reads m h =
    let same : m.packet_num % 2 ^ 32 ≡ m.packet_num = omega arith in
    rw same (
      Reads-bind _ (Reads-uint8 h.fraction_loss_fits)
        (Reads-last _ (Reads-int32 h.packet_num_fits) (Reads-pure _)))

read_proxy-Reads :
    (m : FeedbackMsg)
    → FeedbackMsgInRange m
    → Reads read_proxy (wire_proxy m) (m.base_seq, m.min_ts, m.samples)
unfolding read_proxy wire_proxy
read_proxy-Reads m h =
    let same_base : m.base_seq % 2 ^ 64 ≡ m.base_seq = omega arith in
    let same_min : m.min_ts % 2 ^ 64 ≡ m.min_ts = omega arith in
    let kept : (if ltb max_feelback_count (length m.samples) then 0 else length m.samples)
        ≡ length m.samples =
      ground arith in
    Reads-bind _ (rw same_base (Reads-int64 h.base_seq_fits)) (
      Reads-bind _ (rw same_min (Reads-int64 h.min_ts_fits)) (
        Reads-bind _ (Reads-uint8 {n = length m.samples} (omega arith)) (
          Reads-last _ (rw kept (read_samples-Reads m.min_ts m.samples h.samples_near))
            (Reads-pure _))))

decode_feedback_msg-Reads :
    (old m : FeedbackMsg)
    → FeedbackMsgInRange m
    → Reads (decode_feedback_msg old) (wire_feedback_msg m) (merged old m)
unfolding decode_feedback_msg wire_feedback_msg merged
decode_feedback_msg-Reads old m h = Reads-bind _ (Reads-uint8 h.flag_fits) (
    Reads-bind _ (optional-Reads (has m.flag remb_msg) old.remb (Reads-uint32 h.remb_fits)) (
      Reads-bind _ (optional-Reads (has m.flag loss_info_msg) _ (read_loss-Reads m h)) (
        Reads-last _ (optional-Reads (has m.flag proxy_ts_msg) _ (read_proxy-Reads m h))
          (Reads-pure-eq (merged_pairs old m)))))

-- A feedback message in range that is encoded into a valid stream with nothing in it is decoded
-- with the parts that its flag names; the fields of the other parts keep what the receiver's
-- message held.
pub decode-encode_feedback :
    (old m : FeedbackMsg) {s : Stream}
    → FeedbackMsgInRange m
    → IsValid s
    → s.used ≡ 0
    → (decode_feedback_msg old (encode_feedback_msg m s)).0 ≡ merged old m
decode-encode_feedback old m {s} h v e =
    let a = (encode_feedback_msg-Writes m).at s v in
    let start : (encode_feedback_msg m s).rsize ≡ 0 = omega (arith, a.rsize_same) in
    ((decode_feedback_msg-Reads old m h).at (encode_feedback_msg m s) []
      (IsValid-IsReadable a.valid)
      (ap (λ k. drop k (written (encode_feedback_msg m s))) start
        ∙ a.appended
        ∙ ap (λ k. take k s.buf ++ wire_feedback_msg m) e
        ∙ sym (append-nil (wire_feedback_msg m)))).value
