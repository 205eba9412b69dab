-- ===== src/CcFeedback/Wire.antt =====
-- estimator/estimator_common.c: the bytes of a feedback message.
use lmp.Prelude.{
  ℕ, ◌+◌, ◌-◌, ◌%◌, ◌^◌, Bool, true, false, List, [], ◌∷◌, ◌++◌, if◌then◌else◌, length,
}
use lmp.Stream.Bytes.{put_1, put_2, put_4, put_8}
use lmp.Stream.Write.{Writer}
use lmp.Stream.Writes.{
  Writes, Writes-seq, Writes-nothing, Writes-uint8, Writes-uint16, Writes-uint32, Writes-int32,
  Writes-int64,
}
use lmp.CcFeedback.{
  Sample, FeedbackMsg, has, when, write_samples, encode_feedback_msg, remb_msg, loss_info_msg,
  proxy_ts_msg,
}

abbrev pub part : Bool → List ℕ → List ℕ
part test bytes = if test then bytes else []

unfoldable pub wire_samples : ℕ → List Sample → List ℕ
wire_samples min_ts [] = []
wire_samples min_ts (x ∷ xs) =
    put_2 x.seq ++ (put_2 ((x.ts + 2 ^ 64 - min_ts) % 2 ^ 16) ++ wire_samples min_ts xs)

unfoldable pub wire_loss : FeedbackMsg → List ℕ
wire_loss m = put_1 m.fraction_loss ++ put_4 (m.packet_num % 2 ^ 32)

unfoldable pub wire_proxy : FeedbackMsg → List ℕ
wire_proxy m =
    put_8 (m.base_seq % 2 ^ 64)
    ++ (put_8 (m.min_ts % 2 ^ 64) ++ (put_1 (length m.samples) ++ wire_samples m.min_ts m.samples))

unfoldable pub wire_feedback_msg : FeedbackMsg → List ℕ
wire_feedback_msg m =
    put_1 m.flag
    ++ (part (has m.flag remb_msg) (put_4 m.remb)
        ++ (part (has m.flag loss_info_msg) (wire_loss m)
            ++ part (has m.flag proxy_ts_msg) (wire_proxy m)))

pub when-Writes :
    (test : Bool) {w : Writer} {bytes : List ℕ}
    → Writes w bytes
    → Writes (when test w) (part test bytes)
unfolding when
when-Writes true h = h
when-Writes false h = Writes-nothing

write_samples-Writes :
    (min_ts : ℕ) (xs : List Sample) → Writes (write_samples min_ts xs) (wire_samples min_ts xs)
unfolding write_samples wire_samples
write_samples-Writes min_ts [] = Writes-nothing
write_samples-Writes min_ts (x ∷ xs) =
    Writes-seq (Writes-uint16 _) (Writes-seq (Writes-uint16 _) (write_samples-Writes min_ts xs))

pub encode_feedback_msg-Writes :
    (m : FeedbackMsg) → Writes (encode_feedback_msg m) (wire_feedback_msg m)
unfolding encode_feedback_msg wire_feedback_msg wire_loss wire_proxy
encode_feedback_msg-Writes m = Writes-seq (Writes-uint8 _) (
    Writes-seq (when-Writes _ (Writes-uint32 _)) (
      Writes-seq (when-Writes _ (Writes-seq (Writes-uint8 _) (Writes-int32 _))) (
        when-Writes _ (
          Writes-seq (Writes-int64 _) (
            Writes-seq (Writes-int64 _)
              (Writes-seq (Writes-uint8 _) (write_samples-Writes m.min_ts m.samples)))))))
