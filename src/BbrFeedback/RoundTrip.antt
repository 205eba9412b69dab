-- ===== src/BbrFeedback/RoundTrip.antt =====
-- bbr/bbr_common.c: a feedback message is read back as it was sent.
use lmp.Prelude.{
  ℕ, ◌%◌, ◌^◌, ◌≤◌, ◌<◌, ◌≡◌, ◌∙◌, sym, ap, Bool, true, false, List, [], ◌∷◌, ◌++◌, arith, ltb,
  if◌then◌else◌, length, append-nil, drop, Bool-cases, inl, inr,
}
use lmp.Stream.{Stream, rewind}
use lmp.Stream.Bytes.{put_1, put_2, put_4}
use lmp.Stream.Reads.{
  Reads, Reads-pure, Reads-pure-eq, Reads-bind, Reads-last, Reads-uint8, Reads-uint16, Reads-int32,
}
use lmp.Stream.Write.{write_uint8, write_int32}
use lmp.Stream.Writes.{
  Writes, Writes-seq, Writes-nothing, Writes-uint8, Writes-uint16, Writes-int32,
}
use lmp.Stream.Valid.{IsValid, IsValid-IsReadable, written, rewind-IsValid}
use lmp.BbrFeedback.{
  Sampler, BbrFeedbackMsg, has_loss, write_samplers, write_loss, encode_bbr_feedback, read_samplers,
  read_loss_info, decode_bbr_feedback, max_bbr_feelback_count,
}

wire_samplers : List Sampler → List ℕ
wire_samplers [] = []
wire_samplers (x ∷ xs) = put_2 x.seq ++ (put_2 x.delta_ts ++ wire_samplers xs)

wire_loss : BbrFeedbackMsg → List ℕ
wire_loss m = if has_loss m.flag then put_1 m.fraction_loss ++ put_4 (m.packet_num % 2 ^ 32) else []

wire_bbr_feedback : BbrFeedbackMsg → List ℕ
wire_bbr_feedback m =
    put_1 m.flag ++ (wire_loss m ++ (put_1 (length m.samplers) ++ wire_samplers m.samplers))

abbrev pub AreSamplers : List Sampler → Type 0
AreSamplers [] = Unit
AreSamplers (x ∷ xs) = (x.seq < 2 ^ 16) × (x.delta_ts < 2 ^ 16) × AreSamplers xs

-- The messages whose fields fit their C types, with no more samples than the array holds.
pub record BbrFeedbackInRange (m : BbrFeedbackMsg) : Type 0 where
  pub flag_fits : m.flag < 2 ^ 8
  pub fraction_loss_fits : m.fraction_loss < 2 ^ 8
  pub packet_num_fits : m.packet_num < 2 ^ 32
  pub samplers_fit : length m.samplers ≤ max_bbr_feelback_count
  pub samplers_words : AreSamplers m.samplers

-- The fields that the message sends, the loss fields of `old` where it sends none.
unfoldable pub received : BbrFeedbackMsg → BbrFeedbackMsg → BbrFeedbackMsg
received old m =
    if has_loss m.flag
    then m
    else record m { fraction_loss = old.fraction_loss; packet_num = old.packet_num }

write_samplers-Writes : (xs : List Sampler) → Writes (write_samplers xs) (wire_samplers xs)
unfolding write_samplers wire_samplers
write_samplers-Writes [] = Writes-nothing
write_samplers-Writes (x ∷ xs) =
    Writes-seq (Writes-uint16 _) (Writes-seq (Writes-uint16 _) (write_samplers-Writes xs))

write_loss-Writes : (m : BbrFeedbackMsg) → Writes (write_loss m) (wire_loss m)
unfolding write_loss wire_loss
write_loss-Writes m = go (has_loss m.flag)
  where
    go :
        (there : Bool)
        → Writes
            (if there then (λ s. write_int32 m.packet_num (write_uint8 m.fraction_loss s)) else λ s.
              s)
            (if there then put_1 m.fraction_loss ++ put_4 (m.packet_num % 2 ^ 32) else [])
    go true = Writes-seq (Writes-uint8 _) (Writes-int32 _)
    go false = Writes-nothing

body-Writes :
    (m : BbrFeedbackMsg)
    → Writes
        (λ s.
          write_samplers m.samplers
            (write_uint8 (length m.samplers) (write_loss m (write_uint8 m.flag s))))
        (wire_bbr_feedback m)
unfolding wire_bbr_feedback
body-Writes m = Writes-seq (Writes-uint8 _) (
    Writes-seq (write_loss-Writes m)
      (Writes-seq (Writes-uint8 _) (write_samplers-Writes m.samplers)))

read_samplers-Reads :
    (xs : List Sampler) → AreSamplers xs → Reads (read_samplers (length xs)) (wire_samplers xs) xs
unfolding read_samplers wire_samplers
read_samplers-Reads [] h = Reads-pure []
read_samplers-Reads (x ∷ xs) h =
    Reads-bind _ (Reads-uint16 h.0)
      (Reads-bind _ (Reads-uint16 h.1) (Reads-last _ (read_samplers-Reads xs h.2) (Reads-pure _)))

loss-Reads :
    (old m : BbrFeedbackMsg)
    → BbrFeedbackInRange m
    → Reads
        (read_loss_info (has_loss m.flag) (old.fraction_loss, old.packet_num))
        (wire_loss m)
        ((received old m).fraction_loss, (received old m).packet_num)
unfolding read_loss_info wire_loss received
loss-Reads old m h = elim (Bool-cases (has_loss m.flag)) [
  | inl e ↦
      let same : m.packet_num % 2 ^ 32 ≡ m.packet_num = omega arith in
      rw (e, same)
        (Reads-bind _ (Reads-uint8 h.fraction_loss_fits)
          (Reads-last _ (Reads-int32 h.packet_num_fits) (Reads-pure _)))
  | inr e ↦ rw e (Reads-pure _)
]

same_rest :
    (old m : BbrFeedbackMsg)
    → record {
      flag = m.flag;
      fraction_loss = (received old m).fraction_loss;
      packet_num = (received old m).packet_num;
      samplers = m.samplers;
    }
      ≡ received old m
unfolding received
same_rest old m = ground arith

decode-Reads :
    (old m : BbrFeedbackMsg)
    → BbrFeedbackInRange m
    → Reads (decode_bbr_feedback old) (wire_bbr_feedback m) (received old m)
unfolding decode_bbr_feedback wire_bbr_feedback
decode-Reads old m h =
    let kept : (if ltb max_bbr_feelback_count (length m.samplers) then 0 else length m.samplers)
        ≡ length m.samplers =
      ground arith in
    Reads-bind _ (Reads-uint8 h.flag_fits) (
      Reads-bind _ (loss-Reads old m h) (
        Reads-bind _ (Reads-uint8 {n = length m.samplers} (omega arith)) (
          Reads-last _ (rw kept (read_samplers-Reads m.samplers h.samplers_words))
            (Reads-pure-eq (same_rest old m)))))

-- A message in range that is encoded into a valid stream, whatever it held, is decoded as it was;
-- without a loss part the receiver's loss fields keep what they were.
pub decode-encode_bbr :
    (old m : BbrFeedbackMsg) {s : Stream}
    → BbrFeedbackInRange m
    → IsValid s
    → (decode_bbr_feedback old (encode_bbr_feedback m s)).0 ≡ received old m
unfolding encode_bbr_feedback rewind
decode-encode_bbr old m {s} h v =
    let a = (body-Writes m).at (rewind s 1) (rewind-IsValid 1 v) in
    ((decode-Reads old m h).at _ [] (IsValid-IsReadable a.valid) (
      ap (λ k. drop k (written (encode_bbr_feedback m s))) a.rsize_same
      ∙ a.appended
      ∙ sym (append-nil (wire_bbr_feedback m)))).value
