-- ===== src/Session/Process.antt =====
-- sim_transport/sim_session.c: video to and from the ends, the round trip time, and the messages that come.
use lmp.Prelude.{
  ℕ, ◌+◌, ◌-◌, ◌*◌, ◌/◌, ◌%◌, ◌^◌, Bool, true, false, not, ◌||◌, ◌&&◌, leb, Option, none, some,
  List, ltb, ◌==◌, if◌then◌else◌, length, max,
}
use lmp.Proto.{Connect, ConnectAck, Disconnect, SegmentAck, Fir}
use lmp.Message.{
  Msg, sim_connect, sim_connect_ack, sim_disconnect, sim_disconnect_ack, sim_ping, sim_pong,
  sim_seg, sim_seg_ack, sim_feedback, sim_fir, sim_pad, sim_fec,
}
use lmp.Session.{
  session_connected, net_recover, sim_connect_notify, sim_disconnect_notify, sim_start_play_notify,
  sim_stop_play_notify, net_recover_notify, sim_fir_notify, Ends, Session, on_end, is_connecting,
  is_connected, is_disconnected, is_interrupt, reset, notify, network_send,
}

-- A packet that came: its header's user id and its message; or the id of a message that
-- `sim_decode_msg` refuses.
pub data Packet : Type 0 where
  good : ℕ → Msg → Packet
  bad : ℕ → Packet

abbrev pub abs_diff : ℕ → ℕ → ℕ
abs_diff a b = if ltb b a then a - b else b - a

-- The new `rtt_var` and `rtt`, of 32 bits without a sign.
unfoldable pub smooth_rtt_var : ℕ → ℕ → ℕ → ℕ
smooth_rtt_var rtt_var rtt keep_rtt = max 10 ((rtt_var * 3 + abs_diff rtt keep_rtt) % 2 ^ 32 / 4)

unfoldable pub smooth_rtt : ℕ → ℕ → ℕ
smooth_rtt rtt keep_rtt = max 10 ((7 * rtt + keep_rtt) % 2 ^ 32 / 8)

-- The round trip of `process_sim_pong`. The time of the pong is a number of 64 bits with a sign, as its
-- bits: from 2 ^ 63 on it is below 0.
abbrev pub pong_rtt : ℕ → ℕ → ℕ
pong_rtt now_ts ts =
    if ltb ts (2 ^ 63)
    then if ltb (ts + 5) now_ts then (now_ts - ts) % 2 ^ 32 else 5
    else if ltb (ts + 5) (now_ts + 2 ^ 64)
    then (now_ts + 2 ^ 64 - ts) % 2 ^ 32
    else 5

-- `MIN_MSG_ID` to `MAX_MSG_ID`; each message that is decoded has its id there.
abbrev pub in_range : Packet → Bool
in_range (good uid msg) = true
in_range (bad mid) = leb 0x10 mid && leb mid 0x1d

module _ {S R : Type 0} (ends : Ends S R) where
  -- `sim_session_calculate_rtt`
  unfoldable pub calculate_rtt : ℕ → Session S R → Session S R
  unfolding smooth_rtt_var smooth_rtt
  calculate_rtt measured s =
      let keep_rtt = max 5 measured in
      let rtt_var = smooth_rtt_var s.rtt_var s.rtt keep_rtt in
      let rtt = smooth_rtt s.rtt keep_rtt in
      let resend_rtt = (rtt + rtt_var) % 2 ^ 32 in
      record s {
        rtt = rtt;
        rtt_var = rtt_var;
        sender =
            on_end (λ a. ends.sender_update_rtt keep_rtt (ends.sender_update_rtt resend_rtt a))
              s.sender;
        receiver = on_end (ends.receiver_update_rtt resend_rtt) s.receiver;
      }

  -- `sim_session_send_video`: does it return 0?
  unfoldable pub put_video : ℕ → ℕ → List ℕ → Option S → Session S R → Session S R × Bool
  put_video payload_type ftype bytes none s = (s, false)
  put_video payload_type ftype bytes (some a) s =
      let r : S × Bool = ends.sender_put payload_type ftype bytes a in
      (record s { sender = some r.0 }, r.1)

  unfoldable pub send_video : ℕ → ℕ → List ℕ → Session S R → Session S R × Bool
  unfolding put_video
  send_video payload_type ftype bytes s =
      if not (is_connected s.state) || length bytes == 0
      then (s, false)
      else if is_interrupt s.interrupt
      then (s, false)
      else put_video payload_type ftype bytes s.sender s

  -- `sim_session_recv_video`; without a receiver `sim_receiver_get` returns -1.
  unfoldable pub get_video : Option R → Session S R → Session S R × Option (List ℕ × ℕ)
  get_video none s = (s, none)
  get_video (some a) s =
      let r : R × Option (List ℕ × ℕ) = ends.receiver_get a in
      (record s { receiver = some r.0 }, r.1)

  unfoldable pub recv_video : Session S R → Session S R × Option (List ℕ × ℕ)
  unfolding get_video
  recv_video s = get_video s.receiver s

  -- The receiver of `process_sim_connect`: it is made, which is notified, or reset.
  unfoldable pub open_receiver : ℕ → ℕ → Option R → Session S R → Session S R
  open_receiver header_uid cc_type none s = record (notify (sim_start_play_notify header_uid) s) {
    receiver = some (ends.receiver_active header_uid (ends.receiver_create cc_type));
  }
  open_receiver header_uid cc_type (some a) s = record s {
    receiver = some (ends.receiver_active header_uid (ends.receiver_reset cc_type a));
  }

  unfoldable pub process_sim_connect : ℕ → ℕ → Connect → Session S R → Session S R
  unfolding open_receiver
  process_sim_connect now_ts header_uid body s =
      record (network_send (sim_connect_ack (record { cid = body.cid; result = 0 }))
        (open_receiver header_uid body.cc_type s.receiver s)) {
          rcid = body.cid;
          commad_ts = now_ts;
          resend = 0;
        }

  -- The sender of `process_sim_connect_ack`: it is made or reset, active, with the bit rates.
  unfoldable pub open_sender : Session S R → Option S → S
  open_sender s none =
      ends.sender_set_bitrates s.min_bitrate s.start_bitrate s.max_bitrate
        (ends.sender_active (ends.sender_create s.transport_type s.padding s.fec))
  open_sender s (some a) =
      ends.sender_set_bitrates s.min_bitrate s.start_bitrate s.max_bitrate
        (ends.sender_active (ends.sender_reset s.transport_type s.padding s.fec a))

  unfoldable pub process_sim_connect_ack : ℕ → ℕ → ConnectAck → Session S R → Session S R
  unfolding open_sender reset
  process_sim_connect_ack cid now_ts ack s =
      if is_connecting s.state
      then notify (sim_connect_notify ack.result) (
          if ack.result == 0
          then record s {
            state = session_connected;
            sender = some (open_sender s s.sender);
            interrupt = net_recover;
          }
          else reset cid now_ts s)
      else s

  -- The receiver of `process_sim_disconnect`, if it is there and the call id is its own.
  unfoldable pub close_receiver : ℕ → Option R → Session S R → Session S R
  close_receiver cid none s = s
  close_receiver cid (some a) s =
      if s.rcid == cid
      then record (notify (sim_stop_play_notify (ends.base_uid a)) s) { receiver = none }
      else s

  unfoldable pub process_sim_disconnect : Disconnect → Session S R → Session S R
  unfolding close_receiver
  process_sim_disconnect body s =
      close_receiver body.cid s.receiver
        (network_send (sim_disconnect_ack (record { cid = body.cid; result = 0 })) s)

  unfoldable pub process_sim_disconnect_ack : ℕ → ℕ → Session S R → Session S R
  unfolding reset
  process_sim_disconnect_ack cid now_ts s =
      if is_disconnected s.state then notify (sim_disconnect_notify 0) (reset cid now_ts s) else s

  -- `process_sim_seg_ack`, with the call back of `sim_sender_ack`.
  unfoldable pub after_ack : Option ℕ → Session S R → Session S R
  unfolding calculate_rtt
  after_ack none s = s
  after_ack (some keep_rtt) s = calculate_rtt keep_rtt s

  unfoldable pub process_sim_seg_ack : SegmentAck → Option S → Session S R → Session S R
  unfolding after_ack
  process_sim_seg_ack ack none s = s
  process_sim_seg_ack ack (some a) s =
      let r : S × Option ℕ = ends.sender_ack ack a in after_ack r.1 (record s { sender = some r.0 })

  unfoldable pub process_sim_fir : Fir → Session S R → Session S R
  process_sim_fir fir s =
      if ltb s.fir_seq fir.fir_seq
      then record (notify sim_fir_notify s) {
        fir_seq = fir.fir_seq;
        sender = on_end ends.clean_ack_cache s.sender;
      }
      else s

  -- The `switch` of `sim_session_process`; `stack` is the time that a ping or pong that is not decoded
  -- leaves on the stack. A ping's answer is the ping, as a pong.
  unfoldable pub dispatch : ℕ → ℕ → ℕ → Packet → Session S R → Session S R
  unfolding process_sim_connect process_sim_connect_ack process_sim_disconnect
      process_sim_disconnect_ack calculate_rtt process_sim_seg_ack process_sim_fir
  dispatch cid now_ts stack (good uid (sim_connect b)) s = process_sim_connect now_ts uid b s
  dispatch cid now_ts stack (good uid (sim_connect_ack b)) s =
      process_sim_connect_ack cid now_ts b s
  dispatch cid now_ts stack (good uid (sim_disconnect b)) s = process_sim_disconnect b s
  dispatch cid now_ts stack (good uid (sim_disconnect_ack b)) s =
      process_sim_disconnect_ack cid now_ts s
  dispatch cid now_ts stack (good uid (sim_ping b)) s = network_send (sim_pong b) s
  dispatch cid now_ts stack (good uid (sim_pong b)) s = calculate_rtt (pong_rtt now_ts b.ts) s
  dispatch cid now_ts stack (good uid (sim_seg b)) s = record s {
    receiver = on_end (ends.receiver_put b) s.receiver;
  }
  dispatch cid now_ts stack (good uid (sim_seg_ack b)) s = process_sim_seg_ack b s.sender s
  dispatch cid now_ts stack (good uid (sim_feedback b)) s = record s {
    sender = on_end (ends.sender_feedback b) s.sender;
  }
  dispatch cid now_ts stack (good uid (sim_fir b)) s = process_sim_fir b s
  dispatch cid now_ts stack (good uid (sim_pad b)) s = record s {
    receiver = on_end (ends.receiver_padding b) s.receiver;
  }
  dispatch cid now_ts stack (good uid (sim_fec b)) s = record s {
    receiver = on_end (ends.receiver_put_fec b) s.receiver;
  }
  dispatch cid now_ts stack (bad mid) s =
      if mid == 0x14
      then process_sim_disconnect_ack cid now_ts s
      else if mid == 0x15
      then network_send (sim_pong (record { ts = stack })) s
      else if mid == 0x16
      then calculate_rtt (pong_rtt now_ts stack) s
      else s

  -- `sim_session_process`, after `sim_decode_header`.
  unfoldable pub process : ℕ → ℕ → ℕ → Packet → Session S R → Session S R
  unfolding dispatch
  process cid now_ts stack packet s =
      if in_range packet
      then dispatch cid now_ts stack packet
          (record (if is_interrupt s.interrupt
            then notify net_recover_notify (record s { interrupt = net_recover })
            else s) { resend = 0 })
      else s
