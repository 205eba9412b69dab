-- ===== src/Session/States.antt =====
-- sim_transport/sim_session.c: the state machine, and the sender that goes with each state.
pub mod Steps
use lmp.Prelude.{
  ℕ, ◌+◌, ◌*◌, ◌≡◌, refl, sym, ◌∙◌, ap, Bool, true, false, ◌||◌, not, Option, none, some, List, [],
  ◌∷◌, ◌++◌, ltb, leb, ◌==◌, if◌then◌else◌, length, inl, inr, Bool-cases, arith,
}
use mathlib.Core.Path.{subst}
use lmp.Proto.{SegmentAck, Fir, ConnectAck}
use lmp.Message.{
  Msg, sim_connect, sim_connect_ack, sim_disconnect, sim_disconnect_ack, sim_ping, sim_pong,
  sim_seg, sim_seg_ack, sim_feedback, sim_fir, sim_pad, sim_fec,
}
use lmp.Session.{
  network_send, net_recover, net_recover_notify, State, session_idle, session_connecting,
  session_connected, session_disconnected, Notice, Ends, Session, on_end, is_there, is_idle,
  is_connecting, is_connected, is_disconnected, is_interrupt, create, reset, notify, send_connect,
  send_disconnect, connect, disconnect,
}
use lmp.Session.Process.{
  Packet, good, bad, in_range, pong_rtt, calculate_rtt, put_video, send_video, get_video,
  recv_video, open_receiver, process_sim_connect, open_sender, process_sim_connect_ack,
  close_receiver, process_sim_disconnect, process_sim_disconnect_ack, after_ack,
  process_sim_seg_ack, process_sim_fir, dispatch, process,
}
use lmp.Session.Timer.{send_ping, interrupted, stop_play, retry, state_timer, beat, heartbeat}

-- The transitions: to connect, to be accepted, to be closed from either, and to end.
pub data Moves : State → State → Type 0 where
  stays : (a : State) → Moves a a
  connects : Moves session_idle session_connecting
  accepted : Moves session_connecting session_connected
  cancels : Moves session_connecting session_disconnected
  closes : Moves session_connected session_disconnected
  ends_at : (a : State) → Moves a session_idle

-- There is no sender before the connection, and there is one while it lasts.
abbrev pub Fits : {S : Type 0} → State → Option S → Type 0
Fits session_idle sender = sender ≡ none
Fits session_connecting sender = sender ≡ none
Fits session_connected sender = is_there sender ≡ true
Fits session_disconnected sender = Unit

abbrev pub IsFit : {S R : Type 0} → Session S R → Type 0
IsFit s = Fits s.state s.sender

abbrev pub Good : {S R : Type 0} → Session S R → Session S R → Type 0
Good s t = Moves s.state t.state × IsFit t

-- The state is kept, and whether there is a sender.
abbrev pub Kept : {S R : Type 0} → Session S R → Session S R → Type 0
Kept s t = (t.state ≡ s.state) × (is_there t.sender ≡ is_there s.sender)

Fits-there :
    {S : Type 0} (a : State) (o p : Option S) → is_there p ≡ is_there o → Fits a o → Fits a p
Fits-there session_idle o none e f = refl
Fits-there session_idle o (some p) e f = absurd (cc (e, ap is_there f))
Fits-there session_connecting o none e f = refl
Fits-there session_connecting o (some p) e f = absurd (cc (e, ap is_there f))
Fits-there session_connected o p e f = e ∙ f
Fits-there session_disconnected o p e f = tt

pub Kept-Good : {S R : Type 0} (s t : Session S R) → Kept s t → IsFit s → Good s t
Kept-Good s t (e, h) f = (
  subst (Moves s.state) (sym e) (stays s.state),
  subst (λ a. Fits a t.sender) (sym e) (Fits-there s.state s.sender t.sender h f),
)

pub Kept-trans : {S R : Type 0} (s t u : Session S R) → Kept s t → Kept t u → Kept s u
Kept-trans s t u (a, b) (c, d) = (c ∙ a, d ∙ b)

pub on_end-there : {A : Type 0} (f : A → A) (o : Option A) → is_there (on_end f o) ≡ is_there o
on_end-there f none = refl
on_end-there f (some a) = refl

connecting_iff : (a : State) → is_connecting a ≡ true → a ≡ session_connecting
connecting_iff session_idle e = absurd (cc e)
connecting_iff session_connecting e = refl
connecting_iff session_connected e = absurd (cc e)
connecting_iff session_disconnected e = absurd (cc e)

module _ {S R : Type 0} (ends : Ends S R) where
  pub calculate_rtt-Kept : (measured : ℕ) (s : Session S R) → Kept s (calculate_rtt ends measured s)
  unfolding calculate_rtt
  calculate_rtt-Kept measured s = (refl, on_end-there _ s.sender)

  pub send_video-Kept :
      (payload_type ftype : ℕ) (bytes : List ℕ) (s : Session S R)
      → Kept s (send_video ends payload_type ftype bytes s).0
  unfolding send_video put_video
  send_video-Kept payload_type ftype bytes s =
      elim (Bool-cases (not (is_connected s.state) || length bytes == 0)) [
        | inl e ↦ rw e (refl, refl)
        | inr e ↦ elim (Bool-cases (is_interrupt s.interrupt)) [
          | inl h ↦ rw (e, h) (refl, refl)
          | inr h ↦ rw (e, h) (put s.sender refl)
        ]
      ]
    where
      put : (o : Option S) → s.sender ≡ o → Kept s (put_video ends payload_type ftype bytes o s).0
      put none e = (refl, refl)
      put (some a) e = (refl, sym (ap is_there e))

  pub recv_video-Kept : (s : Session S R) → Kept s (recv_video ends s).0
  unfolding recv_video get_video
  recv_video-Kept s = go s.receiver
    where
      go : (o : Option R) → Kept s (get_video ends o s).0
      go none = (refl, refl)
      go (some a) = (refl, refl)

  open_receiver-Kept :
      (header_uid cc_type : ℕ) (o : Option R) (s : Session S R)
      → Kept s (open_receiver ends header_uid cc_type o s)
  unfolding open_receiver
  open_receiver-Kept header_uid cc_type none s = (refl, refl)
  open_receiver-Kept header_uid cc_type (some a) s = (refl, refl)

  close_receiver-Kept :
      (cid : ℕ) (o : Option R) (s : Session S R) → Kept s (close_receiver ends cid o s)
  unfolding close_receiver
  close_receiver-Kept cid none s = (refl, refl)
  close_receiver-Kept cid (some a) s = elim (Bool-cases (s.rcid == cid)) [
    | inl e ↦ rw e (refl, refl)
    | inr e ↦ rw e (refl, refl)
  ]

  after_ack-Kept : (o : Option ℕ) (s : Session S R) → Kept s (after_ack ends o s)
  unfolding after_ack
  after_ack-Kept none s = (refl, refl)
  after_ack-Kept (some keep_rtt) s = calculate_rtt-Kept keep_rtt s

  process_sim_seg_ack-Kept :
      (ack : SegmentAck) (o : Option S) (s : Session S R)
      → s.sender ≡ o
      → Kept s (process_sim_seg_ack ends ack o s)
  unfolding process_sim_seg_ack
  process_sim_seg_ack-Kept ack none s e = (refl, refl)
  process_sim_seg_ack-Kept ack (some a) s e =
      let r : S × Option ℕ = ends.sender_ack ack a in
      let t = record s { sender = some r.0 } in
      Kept-trans s t (after_ack ends r.1 t) (refl, sym (ap is_there e)) (after_ack-Kept r.1 t)

  process_sim_fir-Kept : (fir : Fir) (s : Session S R) → Kept s (process_sim_fir ends fir s)
  unfolding process_sim_fir
  process_sim_fir-Kept fir s = elim (Bool-cases (ltb s.fir_seq fir.fir_seq)) [
    | inl e ↦ rw e (refl, on_end-there ends.clean_ack_cache s.sender)
    | inr e ↦ rw e (refl, refl)
  ]

  process_sim_connect_ack-Good :
      (cid now_ts : ℕ) (ack : ConnectAck) (s : Session S R)
      → IsFit s
      → Good s (process_sim_connect_ack ends cid now_ts ack s)
  unfolding process_sim_connect_ack reset
  process_sim_connect_ack-Good cid now_ts ack s f = elim (Bool-cases (is_connecting s.state)) [
    | inl e ↦ elim (Bool-cases (ack.result == 0)) [
      | inl h ↦
          rw (e, h)
            (subst (λ a. Moves a session_connected) (sym (connecting_iff s.state e)) accepted, refl)
      | inr h ↦ rw (e, h) (ends_at s.state, refl)
    ]
    | inr e ↦ rw e (Kept-Good s s (refl, refl) f)
  ]

  process_sim_disconnect_ack-Good :
      (cid now_ts : ℕ) (s : Session S R)
      → IsFit s
      → Good s (process_sim_disconnect_ack ends cid now_ts s)
  unfolding process_sim_disconnect_ack reset
  process_sim_disconnect_ack-Good cid now_ts s f = elim (Bool-cases (is_disconnected s.state)) [
    | inl e ↦ rw e (ends_at s.state, refl)
    | inr e ↦ rw e (Kept-Good s s (refl, refl) f)
  ]

  bad-Good :
      (cid now_ts stack mid : ℕ) (s : Session S R)
      → IsFit s
      → Good s (dispatch ends cid now_ts stack (bad mid) s)
  unfolding dispatch
  bad-Good cid now_ts stack mid s f = elim (Bool-cases (mid == 0x14)) [
    | inl e ↦ rw e (process_sim_disconnect_ack-Good cid now_ts s f)
    | inr e ↦ elim (Bool-cases (mid == 0x15)) [
      | inl h ↦ rw (e, h) (Kept-Good s s (refl, refl) f)
      | inr h ↦ elim (Bool-cases (mid == 0x16)) [
        | inl k ↦
            rw (e, h, k)
              (Kept-Good s (calculate_rtt ends (pong_rtt now_ts stack) s)
                (calculate_rtt-Kept (pong_rtt now_ts stack) s) f)
        | inr k ↦ rw (e, h, k) (Kept-Good s s (refl, refl) f)
      ]
    ]
  ]

  good-Good :
      (cid now_ts stack uid : ℕ) (msg : Msg) (s : Session S R)
      → IsFit s
      → Good s (dispatch ends cid now_ts stack (good uid msg) s)
  unfolding dispatch process_sim_connect process_sim_disconnect
  good-Good cid now_ts stack uid (sim_connect b) s f =
      Kept-Good s (open_receiver ends uid b.cc_type s.receiver s)
        (open_receiver-Kept uid b.cc_type s.receiver s) f
  good-Good cid now_ts stack uid (sim_connect_ack b) s f =
      process_sim_connect_ack-Good cid now_ts b s f
  good-Good cid now_ts stack uid (sim_disconnect b) s f =
      (let t = network_send (sim_disconnect_ack (record { cid = b.cid; result = 0 })) s in
        Kept-Good s (close_receiver ends b.cid s.receiver t)
          (close_receiver-Kept b.cid s.receiver t) f)
  good-Good cid now_ts stack uid (sim_disconnect_ack b) s f =
      process_sim_disconnect_ack-Good cid now_ts s f
  good-Good cid now_ts stack uid (sim_ping b) s f = Kept-Good s s (refl, refl) f
  good-Good cid now_ts stack uid (sim_pong b) s f =
      Kept-Good s (calculate_rtt ends (pong_rtt now_ts b.ts) s)
        (calculate_rtt-Kept (pong_rtt now_ts b.ts) s) f
  good-Good cid now_ts stack uid (sim_seg b) s f = Kept-Good s s (refl, refl) f
  good-Good cid now_ts stack uid (sim_seg_ack b) s f =
      Kept-Good s (process_sim_seg_ack ends b s.sender s)
        (process_sim_seg_ack-Kept b s.sender s refl) f
  good-Good cid now_ts stack uid (sim_feedback b) s f =
      Kept-Good s (record s { sender = on_end (ends.sender_feedback b) s.sender })
        (refl, on_end-there (ends.sender_feedback b) s.sender) f
  good-Good cid now_ts stack uid (sim_fir b) s f =
      Kept-Good s (process_sim_fir ends b s) (process_sim_fir-Kept b s) f
  good-Good cid now_ts stack uid (sim_pad b) s f = Kept-Good s s (refl, refl) f
  good-Good cid now_ts stack uid (sim_fec b) s f = Kept-Good s s (refl, refl) f

  dispatch-Good :
      (cid now_ts stack : ℕ) (packet : Packet) (s : Session S R)
      → IsFit s
      → Good s (dispatch ends cid now_ts stack packet s)
  dispatch-Good cid now_ts stack (good uid msg) s f = good-Good cid now_ts stack uid msg s f
  dispatch-Good cid now_ts stack (bad mid) s f = bad-Good cid now_ts stack mid s f

  pub process-Good :
      (cid now_ts stack : ℕ) (packet : Packet) (s : Session S R)
      → IsFit s
      → Good s (process ends cid now_ts stack packet s)
  unfolding process
  process-Good cid now_ts stack packet s f = elim (Bool-cases (in_range packet)) [
    | inl i ↦ elim (Bool-cases (is_interrupt s.interrupt)) [
      | inl e ↦
          rw (i, e)
            (dispatch-Good cid now_ts stack packet
              (record (notify net_recover_notify (record s { interrupt = net_recover })) {
                resend = 0;
              })
              f)
      | inr e ↦ rw (i, e) (dispatch-Good cid now_ts stack packet (record s { resend = 0 }) f)
    ]
    | inr i ↦ rw i (Kept-Good s s (refl, refl) f)
  ]
