-- ===== src/CcFeedback.antt =====
-- estimator/estimator_common.c: the receiver's congestion feedback, of up to three parts.
pub mod Wire
pub mod RoundTrip
mod Tests
use Prim.Native.Nat.{bit_and}
use lmp.Prelude.{
  ℕ, zero, suc, ◌+◌, ◌-◌, ◌%◌, ◌^◌, Bool, List, [], ◌∷◌, ltb, ◌==◌, if◌then◌else◌, length,
}
use lmp.Stream.Write.{
  Writer, ◌>>◌, write_uint8, write_uint16, write_uint32, write_int32, write_int64,
}
use lmp.Stream.Read.{
  Reader, ◌>>=◌, pure, read_uint8, read_uint16, read_uint32, read_int32, read_int64,
}

abbrev pub remb_msg : ℕ
remb_msg = 0x01

abbrev pub loss_info_msg : ℕ
loss_info_msg = 0x02

abbrev pub proxy_ts_msg : ℕ
proxy_ts_msg = 0x04

abbrev pub max_feelback_count : ℕ
max_feelback_count = 128

-- `feedback_sample_t`. Signed fields, here and below, are held as their bit patterns.
pub record Sample : Type 0 where
  pub seq : ℕ
  pub ts : ℕ

-- `feedback_msg_t`; `samples` are the first `samples_num` of the array.
pub record FeedbackMsg : Type 0 where
  pub flag : ℕ
  pub remb : ℕ
  pub fraction_loss : ℕ
  pub packet_num : ℕ
  pub base_seq : ℕ
  pub min_ts : ℕ
  pub samples : List Sample

abbrev pub has : ℕ → ℕ → Bool
has flag part = bit_and flag part == part

-- `if (test) { ... }`
unfoldable pub when : Bool → Writer → Writer
when test w = if test then w else λ s. s

-- The loop over the samples; the difference of two `int64_t` is cut to 16 bits.
unfoldable pub write_samples : ℕ → List Sample → Writer
write_samples min_ts [] s = s
write_samples min_ts (x ∷ xs) s =
    write_samples min_ts xs
      (write_uint16 ((x.ts + 2 ^ 64 - min_ts) % 2 ^ 16) (write_uint16 x.seq s))

-- `feedback_msg_encode`
unfoldable pub encode_feedback_msg : FeedbackMsg → Writer
encode_feedback_msg msg = do
  write_uint8 msg.flag
  when (has msg.flag remb_msg) (write_uint32 msg.remb)
  when (has msg.flag loss_info_msg) (do write_uint8 msg.fraction_loss; write_int32 msg.packet_num)
  when (has msg.flag proxy_ts_msg) (do
    write_int64 msg.base_seq
    write_int64 msg.min_ts
    write_uint8 (length msg.samples)
    write_samples msg.min_ts msg.samples)

unfoldable pub read_samples : ℕ → ℕ → Reader (List Sample)
read_samples min_ts zero = pure []
read_samples min_ts (suc n) = do
  seq ← read_uint16
  delta_ts ← read_uint16
  rest ← read_samples min_ts n
  pure (record { seq = seq; ts = (min_ts + delta_ts) % 2 ^ 64 } ∷ rest)

-- The parts of a message.
unfoldable pub read_loss : Reader (ℕ × ℕ)
read_loss = do fraction_loss ← read_uint8; packet_num ← read_int32; pure (fraction_loss, packet_num)

unfoldable pub read_proxy : Reader (ℕ × ℕ × List Sample)
read_proxy = do
  base_seq ← read_int64
  min_ts ← read_int64
  samples_num ← read_uint8
  samples ← read_samples min_ts (if ltb max_feelback_count samples_num then 0 else samples_num)
  pure (base_seq, min_ts, samples)

-- A part that is not there leaves its fields as they were.
unfoldable pub optional : {A : Type 0} → Bool → Reader A → A → Reader A
optional test m old = if test then m else pure old

-- `feedback_msg_decode` into a message that held `old`.
unfoldable pub decode_feedback_msg : FeedbackMsg → Reader FeedbackMsg
decode_feedback_msg old = do
  flag ← read_uint8
  remb ← optional (has flag remb_msg) read_uint32 old.remb
  loss ← optional (has flag loss_info_msg) read_loss (old.fraction_loss, old.packet_num)
  proxy ← optional (has flag proxy_ts_msg) read_proxy (old.base_seq, old.min_ts, old.samples)
  pure (record {
    flag = flag;
    remb = remb;
    fraction_loss = loss.0;
    packet_num = loss.1;
    base_seq = proxy.0;
    min_ts = proxy.1;
    samples = proxy.2;
  })
