-- ===== src/Session/States/Steps.antt =====
-- sim_transport/sim_session.c: all runs of a session, as steps.
use lmp.Prelude.{
  ℕ, ◌+◌, ◌*◌, ◌%◌, ◌^◌, ◌/◌, ◌≡◌, refl, sym, ◌∙◌, ap, Bool, true, false, ◌||◌, Option, none, some,
  List, ltb, leb, ◌==◌, ◌⊎◌, if◌then◌else◌, inl, inr, Bool-cases,
}
use mathlib.Core.Path.{subst}
use lmp.Session.{
  State, session_idle, session_connecting, session_connected, session_disconnected, Notice,
  sim_connect_notify, sim_network_timout, sim_disconnect_notify, Ends, Session, on_end, is_there,
  is_idle, is_disconnected, create, reset, send_connect, send_disconnect, connect, disconnect,
}
use lmp.Session.Process.{Packet, send_video, recv_video, process}
use lmp.Session.Timer.{send_ping, retry, state_timer, beat, heartbeat, tick_delay_ms}
use lmp.Session.States.{
  Moves, connects, cancels, closes, ends_at, Fits, IsFit, Good, Kept, Kept-Good, Kept-trans,
  on_end-there, send_video-Kept, recv_video-Kept, process-Good,
}

-- The state is kept, or the session is reset.
abbrev Rests : {S R : Type 0} → Session S R → Session S R → Type 0
Rests s t = Kept s t ⊎ ((t.state ≡ session_idle) × (t.sender ≡ none))

Rests-Good : {S R : Type 0} (s t : Session S R) → Rests s t → IsFit s → Good s t
Rests-Good s t (inl k) f = Kept-Good s t k f
Rests-Good s t (inr (e, h)) f =
    (subst (Moves s.state) (sym e) (ends_at s.state), subst (λ a. Fits a t.sender) (sym e) h)

there-none : {S : Type 0} (o : Option S) → is_there o ≡ false → o ≡ none
there-none none e = refl
there-none (some a) e = absurd (cc e)

Rests-trans : {S R : Type 0} (s t u : Session S R) → Rests s t → Rests t u → Rests s u
Rests-trans s t u r (inr h) = inr h
Rests-trans s t u (inl k) (inl m) = inl (Kept-trans s t u k m)
Rests-trans s t u (inr (e, h)) (inl (a, b)) = inr (a ∙ e, there-none u.sender (b ∙ ap is_there h))

if-Kept :
    {S R : Type 0} (b : Bool) (s t u : Session S R)
    → Kept s t
    → Kept s u
    → Kept s (if b then t else u)
if-Kept true s t u h k = h
if-Kept false s t u h k = k

if-Rests :
    {S R : Type 0} (b : Bool) (s t u : Session S R)
    → Rests s t
    → Rests s u
    → Rests s (if b then t else u)
if-Rests true s t u h k = h
if-Rests false s t u h k = k

idle_iff : (a : State) → is_idle a ≡ true → a ≡ session_idle
idle_iff session_idle e = refl
idle_iff session_connecting e = absurd (cc e)
idle_iff session_connected e = absurd (cc e)
idle_iff session_disconnected e = absurd (cc e)

closing : (a : State) → is_idle a ≡ false → is_disconnected a ≡ false → Moves a session_disconnected
closing session_idle e h = absurd (cc e)
closing session_connecting e h = cancels
closing session_connected e h = closes
closing session_disconnected e h = absurd (cc h)

module _ {S R : Type 0} (ends : Ends S R) where
  send_connect-Kept : (now_ts : ℕ) (s : Session S R) → Kept s (send_connect now_ts s)
  unfolding send_connect
  send_connect-Kept now_ts s = (refl, refl)

  send_disconnect-Kept : (now_ts : ℕ) (s : Session S R) → Kept s (send_disconnect now_ts s)
  unfolding send_disconnect
  send_disconnect-Kept now_ts s = (refl, refl)

  there-if :
      (b : Bool) (f : S → S) (o : Option S) → is_there (if b then on_end f o else o) ≡ is_there o
  there-if true f o = on_end-there f o
  there-if false f o = refl

  send_ping-Kept : (now_ts : ℕ) (s : Session S R) → Kept s (send_ping ends now_ts s)
  unfolding send_ping
  send_ping-Kept now_ts s =
      let e =
        there-if (leb 4 (s.resend + 1))
          (ends.sender_update_rtt ((s.rtt + 20 * (s.resend + 1)) % 2 ^ 32)) s.sender in
      if-Kept (ltb 12 (s.resend + 1)) s _ _ (refl, e) (refl, e)

  retry-Rests :
      (cid now_ts : ℕ) (fn : ℕ → Session S R → Session S R) (notice : Notice) (tick_delay : ℕ)
      (s : Session S R)
      → ((t : Session S R) → Kept t (fn now_ts t))
      → Rests s (retry ends cid now_ts fn notice tick_delay s)
  unfolding retry reset
  retry-Rests cid now_ts fn notice tick_delay s kept =
      elim (Bool-cases (ltb (s.commad_ts + tick_delay) now_ts)) [
        | inl e ↦ elim (Bool-cases (ltb (s.resend * tick_delay) 10000)) [
          | inl h ↦ elim (Bool-cases ((fn now_ts s).resend == 2)) [
            | inl k ↦ rw (e, h, k) (inl (kept s))
            | inr k ↦ rw (e, h, k) (inl (kept s))
          ]
          | inr h ↦ rw (e, h) (inr (refl, refl))
        ]
        | inr e ↦ rw e (inl (refl, refl))
      ]

  state_timer-Rests :
      (cid now_ts : ℕ) (fn : ℕ → Session S R → Session S R) (notice : Notice) (tick_delay : ℕ)
      (s : Session S R)
      → ((t : Session S R) → Kept t (fn now_ts t))
      → Rests s (state_timer ends cid now_ts fn notice tick_delay s)
  unfolding state_timer
  state_timer-Rests cid now_ts fn notice tick_delay s kept =
      let t = record s { stat_ts = now_ts } in
      let u = if ltb (s.stat_ts + 1000) now_ts then t else s in
      Rests-trans s u (retry ends cid now_ts fn notice tick_delay u)
        (inl (if-Kept (ltb (s.stat_ts + 1000) now_ts) s t s (refl, refl) (refl, refl)))
        (retry-Rests cid now_ts fn notice tick_delay u kept)

  beat-Rests : (cid now_ts : ℕ) (a : State) (s : Session S R) → Rests s (beat ends cid now_ts a s)
  unfolding beat
  beat-Rests cid now_ts session_idle s = inl (refl, refl)
  beat-Rests cid now_ts session_connecting s =
      state_timer-Rests cid now_ts send_connect (sim_connect_notify 1) tick_delay_ms s
        (send_connect-Kept now_ts)
  beat-Rests cid now_ts session_connected s =
      inl (refl, on_end-there (ends.sender_timer now_ts) s.sender)
  beat-Rests cid now_ts session_disconnected s =
      state_timer-Rests cid now_ts send_disconnect (sim_disconnect_notify 1) tick_delay_ms s
        (send_disconnect-Kept now_ts)

  heartbeat-Rests : (cid now_ts : ℕ) (s : Session S R) → Rests s (heartbeat ends cid now_ts s)
  unfolding heartbeat
  heartbeat-Rests cid now_ts s =
      let timed = record s { receiver = on_end (ends.receiver_timer now_ts) s.receiver } in
      let beaten = beat ends cid now_ts s.state timed in
      let pinged =
        state_timer ends cid now_ts (send_ping ends) (sim_network_timout 1) (tick_delay_ms / 4)
          beaten in
      Rests-trans s beaten
        (if is_there beaten.sender || is_there beaten.receiver then pinged else beaten)
        (beat-Rests cid now_ts s.state timed)
        (if-Rests (is_there beaten.sender || is_there beaten.receiver) beaten pinged beaten
          (state_timer-Rests cid now_ts (send_ping ends) (sim_network_timout 1) (tick_delay_ms / 4)
            beaten (send_ping-Kept now_ts))
          (inl (refl, refl)))

  connect-Good :
      (cid now_ts local_uid transport_type padding fec : ℕ) (s : Session S R)
      → IsFit s
      → Good s (connect cid now_ts local_uid transport_type padding fec s).0
  unfolding connect send_connect
  connect-Good cid now_ts local_uid transport_type padding fec s f =
      elim (Bool-cases (is_idle s.state)) [
        | inl e ↦ rw e (
          subst (λ a. Moves a session_connecting) (sym (idle_iff s.state e)) connects,
          subst (λ a. Fits a s.sender) (idle_iff s.state e) f,
        )
        | inr e ↦ rw e (Kept-Good s s (refl, refl) f)
      ]

  disconnect-Good : (now_ts : ℕ) (s : Session S R) → IsFit s → Good s (disconnect now_ts s).0
  unfolding disconnect send_disconnect
  disconnect-Good now_ts s f = elim (Bool-cases (is_idle s.state)) [
    | inl e ↦ rw e (Kept-Good s s (refl, refl) f)
    | inr e ↦ elim (Bool-cases (is_disconnected s.state)) [
      | inl h ↦ rw (e, h) (Kept-Good s s (refl, refl) f)
      | inr h ↦ rw (e, h) (closing s.state e h, tt)
    ]
  ]

-- The calls of a session, by its user, by the packets that come and by the clock.
pub data Step {S R : Type 0} (ends : Ends S R) : Session S R → Session S R → Type 0 where
  connected_by :
      (s : Session S R) (cid now_ts local_uid transport_type padding fec : ℕ)
      → Step ends s (connect cid now_ts local_uid transport_type padding fec s).0
  disconnected_by : (s : Session S R) (now_ts : ℕ) → Step ends s (disconnect now_ts s).0
  sends :
      (s : Session S R) (payload_type ftype : ℕ) (bytes : List ℕ)
      → Step ends s (send_video ends payload_type ftype bytes s).0
  receives : (s : Session S R) → Step ends s (recv_video ends s).0
  processes :
      (s : Session S R) (cid now_ts stack : ℕ) (packet : Packet)
      → Step ends s (process ends cid now_ts stack packet s)
  beats : (s : Session S R) (cid now_ts : ℕ) → Step ends s (heartbeat ends cid now_ts s)

pub data Reach {S R : Type 0} (ends : Ends S R) (s : Session S R) : Session S R → Type 0 where
  here : Reach ends s s
  step : {t u : Session S R} → Reach ends s t → Step ends t u → Reach ends s u

module _ {S R : Type 0} (ends : Ends S R) where
  Step-Good : {s t : Session S R} → Step ends s t → IsFit s → Good s t
  Step-Good (connected_by s cid now_ts local_uid transport_type padding fec) f =
      connect-Good ends cid now_ts local_uid transport_type padding fec s f
  Step-Good (disconnected_by s now_ts) f = disconnect-Good ends now_ts s f
  Step-Good (sends s payload_type ftype bytes) f =
      Kept-Good s (send_video ends payload_type ftype bytes s).0
        (send_video-Kept ends payload_type ftype bytes s) f
  Step-Good (receives s) f = Kept-Good s (recv_video ends s).0 (recv_video-Kept ends s) f
  Step-Good (processes s cid now_ts stack packet) f = process-Good ends cid now_ts stack packet s f
  Step-Good (beats s cid now_ts) f =
      Rests-Good s (heartbeat ends cid now_ts s) (heartbeat-Rests ends cid now_ts s) f

  Reach-IsFit : {s t : Session S R} → Reach ends s t → IsFit s → IsFit t
  Reach-IsFit here f = f
  Reach-IsFit (step r st) f = (Step-Good st (Reach-IsFit r f)).1

  -- A session is created and called by its user, by any packets and by the clock, in any order. In each
  -- state that it reaches there is no sender while it is idle or connecting, and there is one while
  -- it is connected; and each further call keeps the state or takes one of the transitions idle to
  -- connecting, connecting to connected, connecting or connected to disconnected, any to idle.
  pub Reach-Moves :
      (cid now_ts : ℕ) (s t : Session S R)
      → Reach ends (create cid now_ts) s
      → Step ends s t
      → Moves s.state t.state × IsFit s × IsFit t
  unfolding create
  Reach-Moves cid now_ts s t r st =
      let f = Reach-IsFit r refl in let g = Step-Good st f in (g.0, f, g.1)
