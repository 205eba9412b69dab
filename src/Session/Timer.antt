-- ===== src/Session/Timer.antt =====
-- sim_transport/sim_session.c: what a session does by the clock.
use lmp.Prelude.{
  ℕ, ◌+◌, ◌*◌, ◌/◌, ◌%◌, ◌^◌, ◌||◌, Option, none, some, ltb, leb, ◌==◌, if◌then◌else◌,
}
use lmp.Message.{sim_ping}
use lmp.Session.{
  State, session_idle, session_connecting, session_connected, session_disconnected, net_interrupt,
  Notice, sim_connect_notify, sim_network_timout, sim_disconnect_notify, sim_stop_play_notify,
  net_interrupt_notify, Ends, Session, on_end, is_there, reset, notify, network_send, send_connect,
  send_disconnect,
}

abbrev pub tick_delay_ms : ℕ
tick_delay_ms = 1000

module _ {S R : Type 0} (ends : Ends S R) where
  abbrev pub interrupted : Session S R → Session S R
  interrupted s = notify net_interrupt_notify (record s { interrupt = net_interrupt })

  -- `sim_session_send_ping`
  unfoldable pub send_ping : ℕ → Session S R → Session S R
  send_ping now_ts s =
      let resend = s.resend + 1 in
      let pinged = record (network_send (sim_ping (record { ts = now_ts })) s) {
        commad_ts = now_ts;
        resend = resend;
        sender =
            if leb 4 resend
            then on_end (ends.sender_update_rtt ((s.rtt + 20 * resend) % 2 ^ 32)) s.sender
            else s.sender;
      } in
      if ltb 12 resend then interrupted pinged else pinged

  -- The receiver stops before the session is reset.
  abbrev pub stop_play : Option R → Session S R → Session S R
  stop_play none s = s
  stop_play (some a) s = notify (sim_stop_play_notify (ends.base_uid a)) s

  -- What is done again after `tick_delay`: `fn`, or after ten seconds of it, the reset.
  unfoldable pub retry :
      ℕ → ℕ → (ℕ → Session S R → Session S R) → Notice → ℕ → Session S R → Session S R
  unfolding reset
  retry cid now_ts fn notice tick_delay s =
      let t = fn now_ts s in
      if ltb (s.commad_ts + tick_delay) now_ts
      then if ltb (s.resend * tick_delay) 10000
        then (if t.resend == 2 then record t { rtt = (t.rtt + 500) % 2 ^ 32 } else t)
        else notify notice (reset cid now_ts (stop_play s.receiver s))
      else s

  -- `sim_session_state_timer`
  unfoldable pub state_timer :
      ℕ → ℕ → (ℕ → Session S R → Session S R) → Notice → ℕ → Session S R → Session S R
  unfolding retry
  state_timer cid now_ts fn notice tick_delay s =
      retry cid now_ts fn notice tick_delay
        (if ltb (s.stat_ts + 1000) now_ts then record s { stat_ts = now_ts } else s)

  -- The `switch` of `sim_session_heartbeat`.
  unfoldable pub beat : ℕ → ℕ → State → Session S R → Session S R
  unfolding state_timer send_connect send_disconnect
  beat cid now_ts session_idle s = s
  beat cid now_ts session_connecting s =
      state_timer cid now_ts send_connect (sim_connect_notify 1) tick_delay_ms s
  beat cid now_ts session_connected s = record s {
    sender = on_end (ends.sender_timer now_ts) s.sender;
  }
  beat cid now_ts session_disconnected s =
      state_timer cid now_ts send_disconnect (sim_disconnect_notify 1) tick_delay_ms s

  -- `sim_session_heartbeat`
  unfoldable pub heartbeat : ℕ → ℕ → Session S R → Session S R
  unfolding beat state_timer send_ping
  heartbeat cid now_ts s =
      let timed = record s { receiver = on_end (ends.receiver_timer now_ts) s.receiver } in
      let beaten = beat cid now_ts s.state timed in
      if is_there beaten.sender || is_there beaten.receiver
      then state_timer cid now_ts send_ping (sim_network_timout 1) (tick_delay_ms / 4) beaten
      else beaten
