-- ===== src/Session.antt =====
-- sim_transport/sim_session.c: a session, its state machine, and the two ends that it drives. The address of
-- the peer and the counters that only go into the text for `state_cb` are left out.
pub mod Process
pub mod Timer
pub mod States
pub mod Rtt
pub mod Beats
pub mod Timeout
mod Tests
use lmp.Prelude.{
  ℕ, ◌+◌, ◌-◌, ◌*◌, ◌/◌, ◌%◌, ◌^◌, Bool, true, false, Option, none, some, List, [], ◌∷◌, ◌++◌, ltb,
  leb, ◌==◌, if◌then◌else◌, length, max,
}
use lmp.Proto.{Connect, Disconnect, Segment, SegmentAck, Feedback, Fec, Pad}
use lmp.Message.{Msg, sim_connect, sim_disconnect}

pub data State : Type 0 where
  session_idle : State
  session_connecting : State
  session_connected : State
  session_disconnected : State

pub data Net : Type 0 where
  net_normal : Net
  net_interrupt : Net
  net_recover : Net

-- The calls of `notify_cb`, with the value that goes with some of them.
pub data Notice : Type 0 where
  sim_connect_notify : ℕ → Notice
  sim_network_timout : ℕ → Notice
  sim_disconnect_notify : ℕ → Notice
  sim_start_play_notify : ℕ → Notice
  sim_stop_play_notify : ℕ → Notice
  net_interrupt_notify : Notice
  net_recover_notify : Notice
  sim_fir_notify : Notice

-- The two ends, as the session calls them (sim_sender.c and sim_receiver.c). `sender_ack` gives the round
-- trip that `sim_sender_ack` hands back to `sim_session_calculate_rtt`, if it does; `sender_put` and
-- `receiver_get` whether they return 0.
pub record Ends (S R : Type 0) : Type 0 where
  pub sender_create : ℕ → ℕ → ℕ → S
  pub sender_reset : ℕ → ℕ → ℕ → S → S
  pub sender_active : S → S
  pub sender_put : ℕ → ℕ → List ℕ → S → S × Bool
  pub sender_ack : SegmentAck → S → S × Option ℕ
  pub sender_feedback : Feedback → S → S
  pub clean_ack_cache : S → S
  pub sender_timer : ℕ → S → S
  pub sender_update_rtt : ℕ → S → S
  pub sender_set_bitrates : ℕ → ℕ → ℕ → S → S
  pub receiver_create : ℕ → R
  pub receiver_reset : ℕ → R → R
  pub receiver_active : ℕ → R → R
  pub receiver_put : Segment → R → R
  pub receiver_put_fec : Fec → R → R
  pub receiver_padding : Pad → R → R
  pub receiver_get : R → R × Option (List ℕ × ℕ)
  pub receiver_timer : ℕ → R → R
  pub receiver_update_rtt : ℕ → R → R
  pub base_uid : R → ℕ

-- `sim_session_t`; `sent` are the messages that went out, and `notices` the calls of `notify_cb`.
pub record Session (S R : Type 0) : Type 0 where
  pub scid : ℕ
  pub rcid : ℕ
  pub uid : ℕ
  pub rtt : ℕ
  pub rtt_var : ℕ
  pub loss_fraction : ℕ
  pub fir_seq : ℕ
  pub state : State
  pub interrupt : Net
  pub transport_type : ℕ
  pub padding : ℕ
  pub fec : ℕ
  pub resend : ℕ
  pub commad_ts : ℕ
  pub stat_ts : ℕ
  pub min_bitrate : ℕ
  pub max_bitrate : ℕ
  pub start_bitrate : ℕ
  pub sender : Option S
  pub receiver : Option R
  pub sent : List Msg
  pub notices : List Notice

-- An end that is there is called.
abbrev pub on_end : {A : Type 0} → (A → A) → Option A → Option A
on_end f none = none
on_end f (some a) = some (f a)

abbrev pub is_there : {A : Type 0} → Option A → Bool
is_there none = false
is_there (some a) = true

abbrev pub is_idle : State → Bool
is_idle session_idle = true
is_idle session_connecting = false
is_idle session_connected = false
is_idle session_disconnected = false

abbrev pub is_connecting : State → Bool
is_connecting session_idle = false
is_connecting session_connecting = true
is_connecting session_connected = false
is_connecting session_disconnected = false

abbrev pub is_connected : State → Bool
is_connected session_idle = false
is_connected session_connecting = false
is_connected session_connected = true
is_connected session_disconnected = false

abbrev pub is_disconnected : State → Bool
is_disconnected session_idle = false
is_disconnected session_connecting = false
is_disconnected session_connected = false
is_disconnected session_disconnected = true

abbrev pub is_interrupt : Net → Bool
is_interrupt net_normal = false
is_interrupt net_interrupt = true
is_interrupt net_recover = false

module _ {S R : Type 0} where
  -- `sim_session_create`, where the socket is made; `cid` is what `rand` gives.
  unfoldable pub create : ℕ → ℕ → Session S R
  create cid now_ts = record {
    scid = cid;
    rcid = 0;
    uid = 0;
    rtt = 100;
    rtt_var = 5;
    loss_fraction = 0;
    fir_seq = 0;
    state = session_idle;
    interrupt = net_normal;
    transport_type = 0;
    padding = 1;
    fec = 1;
    resend = 0;
    commad_ts = now_ts;
    stat_ts = 0;
    min_bitrate = 80000;
    max_bitrate = 16000000;
    start_bitrate = 800000;
    sender = none;
    receiver = none;
    sent = [];
    notices = [];
  }

  -- `sim_session_reset`
  unfoldable pub reset : ℕ → ℕ → Session S R → Session S R
  reset cid now_ts s = record s {
    uid = 0;
    state = session_idle;
    rtt = 100;
    rtt_var = 5;
    loss_fraction = 0;
    scid = cid;
    rcid = 0;
    stat_ts = now_ts;
    resend = 0;
    commad_ts = now_ts;
    interrupt = net_normal;
    transport_type = 0;
    padding = 1;
    fec = 1;
    fir_seq = 0;
    sender = none;
    receiver = none;
  }

  abbrev pub notify : Notice → Session S R → Session S R
  notify notice s = record s { notices = s.notices ++ notice ∷ [] }

  abbrev pub network_send : Msg → Session S R → Session S R
  network_send msg s = record s { sent = s.sent ++ msg ∷ [] }

  -- `sim_session_send_connect`
  unfoldable pub send_connect : ℕ → Session S R → Session S R
  send_connect now_ts s =
      let body : Connect = record {
        cid = s.scid;
        token = [];
        cc_type = s.transport_type % 2 ^ 8;
      } in
      record (network_send (sim_connect body) s) { commad_ts = now_ts; resend = s.resend + 1 }

  -- `sim_session_connect`: does it return 0?
  unfoldable pub connect : ℕ → ℕ → ℕ → ℕ → ℕ → ℕ → Session S R → Session S R × Bool
  unfolding send_connect
  connect cid now_ts local_uid transport_type padding fec s =
      if is_idle s.state
      then (
        send_connect now_ts (record s {
          uid = local_uid;
          state = session_connecting;
          transport_type = transport_type;
          padding = padding;
          fec = fec;
          resend = 0;
          scid = cid;
          fir_seq = 0;
          loss_fraction = 0;
        }),
        true,
      )
      else (s, false)

  -- `sim_session_send_disconnect`
  unfoldable pub send_disconnect : ℕ → Session S R → Session S R
  send_disconnect now_ts s = record (network_send (sim_disconnect (record { cid = s.scid })) s) {
    commad_ts = now_ts;
    resend = s.resend + 1;
  }

  -- `sim_session_disconnect`: does it return 0?
  unfoldable pub disconnect : ℕ → Session S R → Session S R × Bool
  unfolding send_disconnect
  disconnect now_ts s =
      if is_idle s.state then (s, false) else if is_disconnected s.state then (s, false) else (
        send_disconnect now_ts
            (record s { resend = 0; commad_ts = now_ts; state = session_disconnected }),
        true,
      )
