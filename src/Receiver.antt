-- ===== src/Receiver.antt =====
-- sim_transport/sim_receiver.c: the receiver: which packets are missing, and what it asks for. `cc` and
-- `recover` only get calls, which are left out. `out` are the messages that went out.
pub mod Ack
pub mod Asked
pub mod Nacks
mod Tests
use lmp.Prelude.{
  ℕ, zero, suc, ◌+◌, ◌-◌, ◌*◌, ◌/◌, ◌%◌, ◌^◌, Bool, true, false, not, ◌&&◌, ◌||◌, Option, none,
  some, List, [], ◌∷◌, ◌++◌, ltb, leb, ◌==◌, if◌then◌else◌, set, replicate, max,
}
use lmp.Prelude.Int.{ℤ, pos, ◌-ℤ◌}
use lmp.Proto.{Segment, Fir, ack_num}
use lmp.Message.{Msg, sim_fir}
use lmp.SkipList.{SkipList, search, insert, remove}
use lmp.FrameCache.{FrameCache, open_cache, reset_cache, cache_put}
use lmp.Sender.{cache_max_delay}

-- `sim_loss_t`
pub record Loss : Type 0 where
  pub loss_ts : ℕ
  pub ts : ℤ
  pub count : ℕ

-- `sim_receiver_t`
pub record Receiver : Type 0 where
  pub base_uid : ℕ
  pub base_seq : ℕ
  pub max_seq : ℕ
  pub max_ts : ℕ
  pub loss : SkipList Loss
  pub loss_count : ℕ
  pub cache : FrameCache
  pub ack_ts : ℕ
  pub cache_ts : ℕ
  pub active_ts : ℕ
  pub acked_count : ℕ
  pub ackeds : List ℕ
  pub fir_ts : ℕ
  pub is_active : Bool
  pub fir_seq : ℕ
  pub is_flightting : Bool
  pub out : List Msg

-- `sim_receiver_create`, with the session's round trip time and its variation.
unfoldable pub create : ℕ → ℕ → ℕ → Receiver
create rtt rtt_var now_ts = record {
  base_uid = 0;
  base_seq = 0;
  max_seq = 0;
  max_ts = 0;
  loss = [];
  loss_count = 0;
  cache = open_cache rtt rtt_var;
  ack_ts = 0;
  cache_ts = now_ts;
  active_ts = 0;
  acked_count = 0;
  ackeds = replicate ack_num 0;
  fir_ts = 0;
  is_active = false;
  fir_seq = 0;
  is_flightting = false;
  out = [];
}

-- `sim_receiver_reset`
unfoldable pub reset : ℕ → ℕ → ℕ → Receiver → Receiver
reset rtt rtt_var now_ts r = record r {
  cache = reset_cache rtt rtt_var r.cache;
  loss = [];
  base_uid = 0;
  base_seq = 0;
  is_active = false;
  max_seq = 0;
  max_ts = 0;
  ack_ts = now_ts;
  active_ts = now_ts;
  loss_count = 0;
  is_flightting = false;
  fir_seq = 0;
  acked_count = 0;
}

-- `sim_receiver_active`: does it return 0?
unfoldable pub activate : ℕ → ℕ → Receiver → Receiver × Bool
activate uid now_ts r = if r.is_active then (r, false) else (
  record r {
    is_active = true;
    cache = record r.cache { frame_timer = 50 };
    base_uid = uid;
    active_ts = now_ts;
    is_flightting = false;
  },
  true,
)

-- `sim_receiver_send_fir`
unfoldable pub send_fir : ℕ → Receiver → Receiver
send_fir now_ts r =
    let seq = if r.is_flightting then r.fir_seq else (r.fir_seq + 1) % 2 ^ 32 in
    if ltb (r.fir_ts + 2000) now_ts
    then record r {
      fir_seq = seq;
      out = r.out ++ sim_fir (record { fir_seq = seq }) ∷ [];
      fir_ts = now_ts;
    }
    else r

-- How long a loss has waited already when it is found.
abbrev pub first_space : ℕ → ℕ → ℕ
first_space rtt rtt_var = if ltb (rtt / 2) rtt_var then (rtt_var + rtt) / 2 else rtt

abbrev pub add_loss : Loss → ℕ → Option Loss → SkipList Loss → SkipList Loss
add_loss new i none loss = insert loss i new
add_loss new i (some old) loss = loss

-- The losses from `i` on, `n` of them.
unfoldable pub add_losses : Loss → ℕ → ℕ → SkipList Loss → SkipList Loss
add_losses new zero i loss = loss
add_losses new (suc n) i loss = add_losses new n (i + 1) (add_loss new i (search loss i) loss)

-- `sim_receiver_update_loss`
unfoldable pub update_loss : ℕ → ℕ → ℕ → ℕ → ℕ → Receiver → Receiver
unfolding send_fir add_losses
update_loss rtt rtt_var now_ts seq ts r =
    let loss = remove r.loss seq in
    let new : Loss = record {
      loss_ts = now_ts;
      ts = pos now_ts -ℤ pos (first_space rtt rtt_var);
      count = 0;
    } in
    if ltb ((r.max_ts + 3000) % 2 ^ 32) ts || leb cache_max_delay rtt
    then send_fir now_ts (record r { loss = [] })
    else record r { loss = add_losses new (seq - (r.max_seq + 1)) (r.max_seq + 1) loss }

-- The packets before the first one are not waited for.
abbrev pub start_at : Segment → Receiver → Receiver
start_at seg r =
    let before = seg.packet_id - seg.index - 1 in
    if ltb seg.index seg.packet_id
    then record r { max_seq = before; base_seq = before; max_ts = seg.timestamp }
    else r

-- What `sim_receiver_internal_put` does after the segment is in the cache.
unfoldable pub accept : Segment → Receiver → Receiver
accept seg r = record r {
  is_flightting = if seg.ftype == 1 then false else r.is_flightting;
  max_seq = max r.max_seq seg.packet_id;
  max_ts = max r.max_ts seg.timestamp;
  ackeds = set r.ackeds (r.acked_count % ack_num) seg.packet_id;
  acked_count = (r.acked_count + 1) % 2 ^ 8;
}

abbrev pub cached_by : Segment → Receiver → Option (FrameCache × Bool) → Option (Receiver × Bool)
cached_by seg r none = none
cached_by seg r (some (c, false)) = some (record r { cache = c }, false)
cached_by seg r (some (c, true)) = some (accept seg (record r { cache = c }), true)

-- `sim_receiver_internal_put`: does it return 0? What is out of bounds is `none`.
unfoldable pub internal_put : ℕ → ℕ → ℕ → Segment → Receiver → Option (Receiver × Bool)
unfolding accept update_loss
internal_put rtt rtt_var now_ts seg r =
    let started = if r.max_seq == 0 then start_at seg r else r in
    let updated = update_loss rtt rtt_var now_ts seg.packet_id seg.timestamp started in
    if r.max_seq == 0 && seg.ftype == 0
    then some (r, false)
    else if not r.is_active || leb seg.packet_id r.base_seq
    then some (r, false)
    else cached_by seg updated (cache_put seg updated.cache)
