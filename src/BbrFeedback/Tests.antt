-- ===== src/BbrFeedback/Tests.antt =====
-- Runs and instances for bbr/bbr_common.c.
use lmp.Prelude.{◌≡◌, refl, [], ◌∷◌, arith}
use lmp.Stream.{Stream}
use lmp.Stream.Valid.{IsValid}
use lmp.BbrFeedback.{BbrFeedbackMsg, encode_bbr_feedback, decode_bbr_feedback}
use lmp.BbrFeedback.RoundTrip.{BbrFeedbackInRange, received, decode-encode_bbr}

abbrev used_before : Stream
used_before = record {
  buf = 7 ∷ 8 ∷ 9 ∷ [];
  size = 3;
  rptr = 1;
  rsize = 1;
  wptr = 3;
  used = 3;
  magic = 0;
}

used_before-IsValid : IsValid used_before
used_before-IsValid = omega arith

abbrev acks : BbrFeedbackMsg
acks = record {
  flag = 2;
  fraction_loss = 5;
  packet_num = 6;
  samplers = record { seq = 9; delta_ts = 0 } ∷ record { seq = 10; delta_ts = 4 } ∷ [];
}

abbrev cleared : BbrFeedbackMsg
cleared = record { flag = 0; fraction_loss = 0; packet_num = 0; samplers = [] }

acks_fit : BbrFeedbackInRange acks
acks_fit = omega arith

received-acks : received cleared acks ≡ record acks { fraction_loss = 0; packet_num = 0 }
unfolding received
received-acks = refl

decode-encode_bbr_example :
    (decode_bbr_feedback cleared (encode_bbr_feedback acks used_before)).0 ≡ received cleared acks
decode-encode_bbr_example = decode-encode_bbr cleared acks acks_fit used_before-IsValid
