-- ===== src/Sender.antt =====
-- sim_transport/sim_sender.c: frames are cut to segments, kept until they are acknowledged, and handed
-- to the congestion controller by their send id.
pub mod Cached
pub mod Split
pub mod Put
pub mod Ack
pub mod Send
pub mod Reach
mod Tests
use lmp.Prelude.{
  ℕ, zero, suc, ◌+◌, ◌-◌, ◌*◌, ◌/◌, ◌%◌, ◌^◌, Bool, true, false, Option, none, some, List, [], ◌∷◌,
  ◌++◌, ltb, leb, ◌==◌, if◌then◌else◌, length,
}
use lmp.Prelude.Int.{ℤ, pos, negsuc}
use lmp.Proto.{Segment, Fec}
use lmp.SkipList.{SkipList}

abbrev pub sim_segment_header_size : ℕ
sim_segment_header_size = 6 + 24

abbrev pub cache_max_delay : ℕ
cache_max_delay = 1500

abbrev pub max_cache_delay : ℕ
max_cache_delay = 6000

-- The calls of `cc->add_packet`, with the send id, whether it is parity, and the size, and of
-- `cc->on_send`, with the transport sequence number and the size.
pub data Request : Type 0 where
  add_packet : ℕ → Bool → ℕ → Request
  on_send : ℕ → ℕ → Request

-- The group of parity packets that is being filled (fec/flex_fec_sender.c), as its client sees it:
-- `fec_id`, `segs_count`, `flex_fec_sender_add_segment` and `flex_fec_sender_update`, which gives the
-- packets that are ready.
pub record FlexSender (F : Type 0) : Type 0 where
  pub fec_id : F → ℕ
  pub segs_count : F → ℕ
  pub add_segment : F → Segment → F
  pub update : F → ℕ → F × List Fec

-- `sim_sender_t`. A segment is owned by `segs_cache`, under its `send_id`; `ack_cache` leads from a
-- packet id to the segment, which is modelled by its send id. `requests` are the calls of `cc`.
pub record Sender (F : Type 0) : Type 0 where
  pub actived : Bool
  pub base_packet_id : ℕ
  pub packet_id_seed : ℕ
  pub send_id_seed : ℕ
  pub frame_id_seed : ℕ
  pub transport_seq_seed : ℕ
  pub first_ts : ℤ
  pub segs_cache : SkipList Segment
  pub fecs_cache : SkipList Fec
  pub ack_cache : SkipList ℕ
  pub flex : Option F
  pub requests : List Request

-- `++ seed` on 32 bits
abbrev pub next : ℕ → ℕ
next seed = (seed + 1) % 2 ^ 32

-- The sender that `sim_sender_create` makes, and to which `sim_sender_reset` goes back.
unfoldable pub fresh : {F : Type 0} → Option F → Sender F
fresh flex = record {
  actived = false;
  base_packet_id = 0;
  packet_id_seed = 0;
  send_id_seed = 0;
  frame_id_seed = 0;
  transport_seq_seed = 0;
  first_ts = negsuc 0;
  segs_cache = [];
  fecs_cache = [];
  ack_cache = [];
  flex = flex;
  requests = [];
}

-- `sim_sender_active`: does it return 0?
unfoldable pub active : {F : Type 0} → Sender F → Sender F × Bool
active s = if s.actived then (s, false) else (record s { actived = true }, true)

-- `sim_clean_ack_cache`
unfoldable pub clean_ack_cache : {F : Type 0} → Sender F → Sender F
clean_ack_cache s = record s { ack_cache = [] }

-- The sizes of the segments of a frame: the loop of `sim_split_frame`, `n` segments.
unfoldable pub split_sizes : ℕ → ℕ → ℕ → List ℕ
split_sizes zero packet_size remain_size = []
split_sizes (suc n) packet_size remain_size =
    (if ltb 0 remain_size then packet_size + 1 else packet_size)
    ∷ split_sizes n packet_size (remain_size - 1)

-- `sim_split_frame`: what it puts in `splits`, and the number that it returns, which is cut to 16 bits.
-- The buffer `splits` is as large as it needs to be: its doubling is left out.
unfoldable pub split_frame : ℕ → ℕ → List ℕ × ℕ
unfolding split_sizes
split_frame size segment_size =
    let ret = (size + segment_size - 1) / segment_size in
    if leb size segment_size
    then (size ∷ [], 1)
    else (split_sizes ret (size / ret) (size % ret), ret % 2 ^ 16)
