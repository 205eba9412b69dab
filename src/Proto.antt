-- ===== src/Proto.antt =====
-- sim_transport/sim_proto.h: the messages of the transport protocol.
pub mod Encode
pub mod Decode
pub mod Wire
pub mod SegmentLaws
pub mod DecodeLaws
pub mod EncodeLaws
use lmp.Prelude.{ℕ, List}

abbrev pub u16_max : ℕ
u16_max = 65535

abbrev pub u8_max : ℕ
u8_max = 255

abbrev pub sim_video_size : ℕ
sim_video_size = 1000

abbrev pub sim_token_size : ℕ
sim_token_size = 128

abbrev pub nack_num : ℕ
nack_num = 20

abbrev pub ack_num : ℕ
ack_num = nack_num

abbrev pub sim_feedback_size : ℕ
sim_feedback_size = 1000

abbrev pub padding_data_size : ℕ
padding_data_size = 500

-- An array with its size field is the list of its first `size` bytes. Signed fields are held as
-- their bit patterns.

-- `sim_header_t`
pub record Header : Type 0 where
  pub ver : ℕ
  pub mid : ℕ
  pub uid : ℕ

-- `sim_connect_t`
pub record Connect : Type 0 where
  pub cid : ℕ
  pub token : List ℕ
  pub cc_type : ℕ

-- `sim_connect_ack_t` and `sim_disconnect_ack_t`
pub record ConnectAck : Type 0 where
  pub cid : ℕ
  pub result : ℕ

-- `sim_disconnect_t`
pub record Disconnect : Type 0 where
  pub cid : ℕ

-- `sim_segment_t`
pub record Segment : Type 0 where
  pub packet_id : ℕ
  pub fid : ℕ
  pub timestamp : ℕ
  pub index : ℕ
  pub total : ℕ
  pub ftype : ℕ
  pub payload_type : ℕ
  pub remb : ℕ
  pub fec_id : ℕ
  pub send_ts : ℕ
  pub transport_seq : ℕ
  pub payload : List ℕ

-- `sim_segment_ack_t`
pub record SegmentAck : Type 0 where
  pub base_packet_id : ℕ
  pub acked_packet_id : ℕ
  pub nack : List ℕ
  pub acked : List ℕ

-- `sim_ping_t` and `sim_pong_t`
pub record Ping : Type 0 where
  pub ts : ℕ

-- `sim_feedback_t`
pub record Feedback : Type 0 where
  pub base_packet_id : ℕ
  pub feedback : List ℕ

-- `sim_fir_t`
pub record Fir : Type 0 where
  pub fir_seq : ℕ

-- `sim_pad_t`
pub record Pad : Type 0 where
  pub send_ts : ℕ
  pub transport_seq : ℕ
  pub padding : List ℕ

-- `sim_fec_meta_t`
pub record FecMeta : Type 0 where
  pub seq : ℕ
  pub fid : ℕ
  pub ts : ℕ
  pub index : ℕ
  pub total : ℕ
  pub ftype : ℕ
  pub payload_type : ℕ
  pub size : ℕ

-- `sim_fec_t`
pub record Fec : Type 0 where
  pub fec_id : ℕ
  pub row : ℕ
  pub col : ℕ
  pub index : ℕ
  pub count : ℕ
  pub base_id : ℕ
  pub send_ts : ℕ
  pub transport_seq : ℕ
  pub fec_meta : FecMeta
  pub fec_data : List ℕ
