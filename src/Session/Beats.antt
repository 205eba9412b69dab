-- ===== src/Session/Beats.antt =====
-- sim_transport/sim_session.c: a heartbeat of a session to which nobody answers.
use lmp.Prelude.{
  ℕ, ◌+◌, ◌*◌, ◌/◌, ◌%◌, ◌^◌, ◌<◌, ◌≤◌, ◌≡◌, refl, ◌∙◌, ap, Bool, true, false, ◌||◌, none, List, [],
  ◌∷◌, ◌++◌, ltb, ◌==◌, if◌then◌else◌, arith,
}
use lmp.Session.{
  session_idle, session_connecting, notify, sim_connect_notify, sim_network_timout, Ends, Session,
  is_there, reset, send_connect,
}
use lmp.Session.Timer.{send_ping, retry, state_timer, beat, heartbeat}

-- A session that connects, without ends.
abbrev pub waiting : {S R : Type 0} → Session S R → ℕ → ℕ → Session S R
waiting s resend commad_ts = record s {
  state = session_connecting;
  sender = none;
  receiver = none;
  resend = resend;
  commad_ts = commad_ts;
}

-- Heartbeats at the given times.
unfoldable pub heartbeats : {S R : Type 0} → Ends S R → ℕ → List ℕ → Session S R → Session S R
heartbeats ends cid [] s = s
heartbeats ends cid (now_ts ∷ times) s = heartbeats ends cid times (heartbeat ends cid now_ts s)

if-false : {A : Type 0} (b : Bool) (x y : A) → b ≡ false → (if b then x else y) ≡ y
if-false true x y e = absurd (cc e)
if-false false x y e = refl

-- A session that still connects.
pub record Waits {S R : Type 0} (resend commad_ts : ℕ) (s t : Session S R) : Type 0 where
  pub next : Session S R
  pub same : t ≡ waiting next resend commad_ts
  pub quiet : next.notices ≡ s.notices

-- The same session, one time more.
abbrev pub Again : {S R : Type 0} → ℕ → ℕ → Session S R → Session S R → Type 0
Again resend now_ts s t = Waits (resend + 1) now_ts s t

-- A session that gave up.
abbrev pub resting : {S R : Type 0} → Session S R → Session S R
resting s = record s { state = session_idle; sender = none; receiver = none }

-- The same session, given up.
pub record Ended {S R : Type 0} (s t : Session S R) : Type 0 where
  pub next : Session S R
  pub same : t ≡ resting next
  pub told : next.notices ≡ s.notices ++ sim_connect_notify 1 ∷ []

bump-Again :
    {S R : Type 0} (b : Bool) (resend commad_ts now_ts : ℕ) (s : Session S R)
    → let u = send_connect now_ts (waiting s resend commad_ts) in
      Again resend now_ts s (if b then record u { rtt = (u.rtt + 500) % 2 ^ 32 } else u)
unfolding send_connect
bump-Again true resend commad_ts now_ts s =
    let u = send_connect now_ts (waiting s resend commad_ts) in
    record { next = record u { rtt = (u.rtt + 500) % 2 ^ 32 }; same = refl; quiet = refl }
bump-Again false resend commad_ts now_ts s = record {
  next = send_connect now_ts (waiting s resend commad_ts);
  same = refl;
  quiet = refl;
}

module _ {S R : Type 0} (ends : Ends S R) where
  retry-Again :
      (cid now_ts resend commad_ts : ℕ) (s : Session S R)
      → commad_ts + 1000 < now_ts
      → resend < 10
      → Again resend now_ts s (
          retry ends cid now_ts send_connect
            (sim_connect_notify 1)
            1000
            (waiting s resend commad_ts))
  unfolding retry
  retry-Again cid now_ts resend commad_ts s due few =
      let d : ltb (commad_ts + 1000) now_ts ≡ true = ground arith in
      let f : ltb (resend * 1000) 10000 ≡ true = ground arith in
      let u = send_connect now_ts (waiting s resend commad_ts) in
      rw (d, f) (bump-Again (u.resend == 2) resend commad_ts now_ts s)

  -- The time of the figures does not matter.
  stat_time : ℕ → Session S R → Session S R
  stat_time now_ts s = if ltb (s.stat_ts + 1000) now_ts then record s { stat_ts = now_ts } else s

  if-waiting :
      (b : Bool) (s t : Session S R) (resend commad_ts : ℕ)
      → (if b then waiting s resend commad_ts else waiting t resend commad_ts)
        ≡ waiting (if b then s else t) resend commad_ts
  if-waiting true s t resend commad_ts = refl
  if-waiting false s t resend commad_ts = refl

  if-notices :
      (b : Bool) (s : Session S R) (now_ts : ℕ)
      → (if b then record s { stat_ts = now_ts } else s).notices ≡ s.notices
  if-notices true s now_ts = refl
  if-notices false s now_ts = refl

  timer-retry :
      (cid now_ts resend commad_ts : ℕ) (s : Session S R)
      → (t : Session S R) × (state_timer ends cid now_ts send_connect
            (sim_connect_notify 1)
            1000
            (waiting s resend commad_ts)
          ≡ retry ends cid now_ts send_connect
              (sim_connect_notify 1)
              1000
              (waiting t resend commad_ts))
        × (t.notices ≡ s.notices)
  unfolding state_timer
  timer-retry cid now_ts resend commad_ts s =
      let b = ltb (s.stat_ts + 1000) now_ts in
      (
        (if b then record s { stat_ts = now_ts } else s),
        ap (retry ends cid now_ts send_connect (sim_connect_notify 1) 1000)
            (if-waiting b (record s { stat_ts = now_ts }) s resend commad_ts),
        if-notices b s now_ts,
      )

  alone :
      (x : Session S R)
      → x.sender ≡ none
      → x.receiver ≡ none
      → (is_there x.sender || is_there x.receiver) ≡ false
  alone x e h = cc (ap is_there e, ap is_there h, or_false)
    where
      or_false : (false || false) ≡ false
      or_false = refl

  -- Without ends, a heartbeat is the timer of the connection.
  heartbeat-alone :
      (cid now_ts resend commad_ts : ℕ) (s x : Session S R)
      → state_timer ends cid now_ts send_connect
          (sim_connect_notify 1)
          1000
          (waiting s resend commad_ts)
        ≡ x
      → x.sender ≡ none
      → x.receiver ≡ none
      → heartbeat ends cid now_ts (waiting s resend commad_ts) ≡ x
  unfolding heartbeat beat
  heartbeat-alone cid now_ts resend commad_ts s x e a b =
      let ping = λ (y : Session S R).
        if is_there y.sender || is_there y.receiver
        then state_timer ends cid now_ts (send_ping ends) (sim_network_timout 1) (1000 / 4) y
        else y in
      ap ping e
      ∙ if-false (is_there x.sender || is_there x.receiver)
          (state_timer ends cid now_ts (send_ping ends) (sim_network_timout 1) (1000 / 4) x) x
          (alone x a b)

  pub heartbeat-Again :
      (cid now_ts resend commad_ts : ℕ) (s : Session S R)
      → commad_ts + 1000 < now_ts
      → resend < 10
      → Again resend now_ts s (heartbeat ends cid now_ts (waiting s resend commad_ts))
  heartbeat-Again cid now_ts resend commad_ts s due few =
      let r = timer-retry cid now_ts resend commad_ts s in
      let a = retry-Again cid now_ts resend commad_ts r.0 due few in
      record {
        next = a.next;
        same =
            heartbeat-alone cid now_ts resend commad_ts s (waiting a.next (resend + 1) now_ts)
              (r.1 ∙ a.same) refl refl;
        quiet = a.quiet ∙ r.2;
      }

  -- Less than a second after the last SIM_CONNECT.
  pub heartbeat-Waits :
      (cid now_ts resend commad_ts : ℕ) (s : Session S R)
      → now_ts ≤ commad_ts + 1000
      → Waits resend commad_ts s (heartbeat ends cid now_ts (waiting s resend commad_ts))
  unfolding retry
  heartbeat-Waits cid now_ts resend commad_ts s soon =
      let d : ltb (commad_ts + 1000) now_ts ≡ false = ground arith in
      let r = timer-retry cid now_ts resend commad_ts s in
      record {
        next = r.0;
        same =
            heartbeat-alone cid now_ts resend commad_ts s (waiting r.0 resend commad_ts)
              (r.1 ∙ rw d refl) refl refl;
        quiet = r.2;
      }

  retry-Ended :
      (cid now_ts commad_ts : ℕ) (s : Session S R)
      → commad_ts + 1000 < now_ts
      → Ended s
          (retry ends cid now_ts send_connect (sim_connect_notify 1) 1000 (waiting s 10 commad_ts))
  unfolding retry reset
  retry-Ended cid now_ts commad_ts s due =
      let d : ltb (commad_ts + 1000) now_ts ≡ true = ground arith in
      rw d (record {
        next = notify (sim_connect_notify 1) (reset cid now_ts (waiting s 10 commad_ts));
        same = refl;
        told = refl;
      })

  pub heartbeat-Ended :
      (cid now_ts commad_ts : ℕ) (s : Session S R)
      → commad_ts + 1000 < now_ts
      → Ended s (heartbeat ends cid now_ts (waiting s 10 commad_ts))
  heartbeat-Ended cid now_ts commad_ts s due =
      let r = timer-retry cid now_ts 10 commad_ts s in
      let e = retry-Ended cid now_ts commad_ts r.0 due in
      record {
        next = e.next;
        same = heartbeat-alone cid now_ts 10 commad_ts s (resting e.next) (r.1 ∙ e.same) refl refl;
        told = e.told ∙ ap (λ ns. ns ++ sim_connect_notify 1 ∷ []) r.2;
      }

  -- What gave up stays so.
  pub heartbeats-resting :
      (cid : ℕ) (times : List ℕ) (s : Session S R)
      → heartbeats ends cid times (resting s) ≡ resting s
  unfolding heartbeats heartbeat beat
  heartbeats-resting cid [] s = refl
  heartbeats-resting cid (now_ts ∷ times) s = heartbeats-resting cid times s
