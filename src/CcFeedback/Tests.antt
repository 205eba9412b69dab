-- ===== src/CcFeedback/Tests.antt =====
-- Runs and instances for estimator/estimator_common.c.
use lmp.Prelude.{◌≡◌, refl, [], ◌∷◌, arith}
use lmp.Stream.{Stream}
use lmp.Stream.Valid.{IsValid}
use lmp.CcFeedback.{FeedbackMsg, encode_feedback_msg, decode_feedback_msg}
use lmp.CcFeedback.RoundTrip.{FeedbackMsgInRange, merged, decode-encode_feedback}

abbrev blank : Stream
blank = record { buf = 0 ∷ 0 ∷ []; size = 2; rptr = 0; rsize = 0; wptr = 0; used = 0; magic = 0 }

blank-IsValid : IsValid blank
blank-IsValid = omega arith

-- A loss report and two arrival times, without a rate.
abbrev report : FeedbackMsg
report = record {
  flag = 6;
  remb = 1;
  fraction_loss = 12;
  packet_num = 300;
  base_seq = 70000;
  min_ts = 1000;
  samples = record { seq = 9; ts = 1000 } ∷ record { seq = 10; ts = 1007 } ∷ [];
}

abbrev cleared : FeedbackMsg
cleared = record {
  flag = 0;
  remb = 0;
  fraction_loss = 0;
  packet_num = 0;
  base_seq = 0;
  min_ts = 0;
  samples = [];
}

report_fits : FeedbackMsgInRange report
report_fits = omega arith

merged-report : merged cleared report ≡ record report { remb = 0 }
unfolding merged
merged-report = refl

decode-encode_feedback_example :
    (decode_feedback_msg cleared (encode_feedback_msg report blank)).0 ≡ merged cleared report
decode-encode_feedback_example =
    decode-encode_feedback cleared report report_fits blank-IsValid refl
