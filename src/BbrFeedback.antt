-- ===== src/BbrFeedback.antt =====
-- bbr/bbr_common.c: the feedback message of the BBR receiver.
pub mod RoundTrip
mod Tests
use Prim.Native.Nat.{bit_and}
use lmp.Prelude.{ℕ, zero, suc, Bool, List, [], ◌∷◌, ltb, ◌==◌, if◌then◌else◌, length}
use lmp.Stream.{rewind}
use lmp.Stream.Write.{Writer, ◌>>◌, write_uint8, write_uint16, write_int32}
use lmp.Stream.Read.{Reader, ◌>>=◌, pure, read_uint8, read_uint16, read_int32}

abbrev pub bbr_loss_info_msg : ℕ
bbr_loss_info_msg = 0x01

abbrev pub max_bbr_feelback_count : ℕ
max_bbr_feelback_count = 128

-- `bbr_sampler_t`
pub record Sampler : Type 0 where
  pub seq : ℕ
  pub delta_ts : ℕ

-- `bbr_feedback_msg_t`; `samplers` are the first `sampler_num` of the array.
pub record BbrFeedbackMsg : Type 0 where
  pub flag : ℕ
  pub fraction_loss : ℕ
  pub packet_num : ℕ
  pub samplers : List Sampler

abbrev pub has_loss : ℕ → Bool
has_loss flag = bit_and flag bbr_loss_info_msg == bbr_loss_info_msg

unfoldable pub write_samplers : List Sampler → Writer
write_samplers [] s = s
write_samplers (x ∷ xs) s = write_samplers xs (write_uint16 x.delta_ts (write_uint16 x.seq s))

unfoldable pub write_loss : BbrFeedbackMsg → Writer
write_loss msg =
    if has_loss msg.flag
    then (do write_uint8 msg.fraction_loss; write_int32 msg.packet_num)
    else λ s. s

-- `bbr_feedback_msg_encode`
unfoldable pub encode_bbr_feedback : BbrFeedbackMsg → Writer
encode_bbr_feedback msg = do
  λ s. rewind s 1
  write_uint8 msg.flag
  write_loss msg
  write_uint8 (length msg.samplers)
  write_samplers msg.samplers

unfoldable pub read_samplers : ℕ → Reader (List Sampler)
read_samplers zero = pure []
read_samplers (suc n) = do
  seq ← read_uint16
  delta_ts ← read_uint16
  rest ← read_samplers n
  pure (record { seq = seq; delta_ts = delta_ts } ∷ rest)

-- Without the loss part its two fields stay as they were.
unfoldable pub read_loss_info : Bool → ℕ × ℕ → Reader (ℕ × ℕ)
read_loss_info there old =
    if there
    then (do fraction_loss ← read_uint8; packet_num ← read_int32; pure (fraction_loss, packet_num))
    else pure old

-- `bbr_feedback_msg_decode` into a message that held `old`.
unfoldable pub decode_bbr_feedback : BbrFeedbackMsg → Reader BbrFeedbackMsg
decode_bbr_feedback old = do
  flag ← read_uint8
  loss ← read_loss_info (has_loss flag) (old.fraction_loss, old.packet_num)
  sampler_num ← read_uint8
  samplers ← read_samplers (if ltb max_bbr_feelback_count sampler_num then 0 else sampler_num)
  pure (record { flag = flag; fraction_loss = loss.0; packet_num = loss.1; samplers = samplers })
