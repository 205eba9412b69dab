-- ===== src/Session/Timeout.antt =====
-- sim_transport/sim_session.c: a session to which nobody answers.
use lmp.Prelude.{
  ℕ, zero, suc, sym, ◌+◌, ◌*◌, ◌<◌, ◌≤◌, ◌≡◌, refl, ◌∙◌, ap, List, [], ◌∷◌, ◌++◌, ltb, arith,
  Bool-cases, inl, inr,
}
use mathlib.Core.Path.{subst}
use lmp.Session.{session_idle, session_connecting, Notice, sim_connect_notify, Ends, Session}
use lmp.Session.Beats.{
  waiting, heartbeats, Ended, heartbeat-Again, heartbeat-Waits, heartbeat-Ended, heartbeats-resting,
}
use lmp.Session.Timer.{heartbeat}

-- Each time is at most `gap` after the one before, and not before it.
abbrev pub IsSteady : ℕ → ℕ → List ℕ → Type 0
IsSteady gap before [] = Unit
IsSteady gap before (now_ts ∷ times) =
    (before ≤ now_ts) × (now_ts ≤ before + gap) × IsSteady gap now_ts times

unfoldable pub last_of : ℕ → List ℕ → ℕ
last_of before [] = before
last_of before (now_ts ∷ times) = last_of now_ts times

module _ {S R : Type 0} (ends : Ends S R) where
  -- One of the heartbeats, later than `earliest` and not later than `latest`, ends the session `t`.
  -- Before it the session connects and its notices are `told`; from then on it is idle, and one notice
  -- more says that the connection failed.
  pub record GivesUp (cid earliest latest : ℕ) (times : List ℕ) (told : List Notice)
      (t : Session S R) : Type 0 where
    pub before : List ℕ
    pub now_ts : ℕ
    pub after : List ℕ
    pub parts : times ≡ before ++ now_ts ∷ after
    pub early : earliest < now_ts
    pub late : now_ts ≤ latest
    pub connecting : (heartbeats ends cid before t).state ≡ session_connecting
    pub silent : (heartbeats ends cid before t).notices ≡ told
    pub idle : (heartbeat ends cid now_ts (heartbeats ends cid before t)).state ≡ session_idle
    pub stays : (heartbeats ends cid times t).state ≡ session_idle
    pub once : (heartbeats ends cid times t).notices ≡ told ++ sim_connect_notify 1 ∷ []

  GivesUp-cons :
      (cid early₁ late₁ early₂ late₂ now_ts : ℕ) (times : List ℕ) (told : List Notice)
      (t u : Session S R)
      → heartbeat ends cid now_ts t ≡ u
      → early₂ ≤ early₁
      → late₁ ≤ late₂
      → GivesUp cid early₁ late₁ times told u
      → GivesUp cid early₂ late₂ (now_ts ∷ times) told t
  unfolding heartbeats
  GivesUp-cons cid early₁ late₁ early₂ late₂ now_ts times told t u e low high g = record {
    before = now_ts ∷ g.before;
    now_ts = g.now_ts;
    after = g.after;
    parts = ap (λ xs. now_ts ∷ xs) g.parts;
    early = omega (arith, g.early);
    late = omega (arith, g.late);
    connecting = ap (λ x. (heartbeats ends cid g.before x).state) e ∙ g.connecting;
    silent = ap (λ x. (heartbeats ends cid g.before x).notices) e ∙ g.silent;
    idle =
        ap (λ x. (heartbeat ends cid g.now_ts (heartbeats ends cid g.before x)).state) e ∙ g.idle;
    stays = ap (λ x. (heartbeats ends cid times x).state) e ∙ g.stays;
    once = ap (λ x. (heartbeats ends cid times x).notices) e ∙ g.once;
  }

  GivesUp-now :
      (cid earliest latest now_ts : ℕ) (times : List ℕ) (t : Session S R)
      → t.state ≡ session_connecting
      → Ended t (heartbeat ends cid now_ts t)
      → earliest < now_ts
      → now_ts ≤ latest
      → GivesUp cid earliest latest (now_ts ∷ times) t.notices t
  unfolding heartbeats
  GivesUp-now cid earliest latest now_ts times t connecting e low high =
      let rest = ap (heartbeats ends cid times) e.same ∙ heartbeats-resting ends cid times e.next in
      record {
        before = [];
        now_ts = now_ts;
        after = times;
        parts = refl;
        early = low;
        late = high;
        connecting = connecting;
        silent = refl;
        idle = ap (λ x. x.state) e.same;
        stays = ap (λ x. x.state) rest;
        once = ap (λ x. x.notices) rest ∙ e.told;
      }

  -- More than a second after the last SIM_CONNECT, one more is sent, or it was the last.
  due-GivesUp :
      (cid gap resend more commad_ts now_ts : ℕ) (times : List ℕ) (s : Session S R)
      → resend + more ≡ 10
      → commad_ts + 1000 < now_ts
      → now_ts ≤ commad_ts + 1000 + gap
      → ((k : ℕ) (next : Session S R)
          → more ≡ k + 1
          → GivesUp cid
              (now_ts + (k + 1) * 1000)
              (now_ts + (k + 1) * (1000 + gap))
              times
              next.notices
              (waiting next (resend + 1) now_ts))
      → GivesUp cid
          (commad_ts + (more + 1) * 1000)
          (commad_ts + (more + 1) * (1000 + gap))
          (now_ts ∷ times)
          s.notices
          (waiting s resend commad_ts)
  due-GivesUp cid gap resend zero commad_ts now_ts times s n due near rest =
      let ten : resend ≡ 10 = omega (arith, n) in
      GivesUp-now cid _ _ now_ts times (waiting s resend commad_ts) refl
        (subst
          (λ k. Ended (waiting s k commad_ts) (heartbeat ends cid now_ts (waiting s k commad_ts)))
          (sym ten) (heartbeat-Ended ends cid now_ts commad_ts (waiting s 10 commad_ts) due))
        (omega arith) (omega arith)
  due-GivesUp cid gap resend (suc k) commad_ts now_ts times s n due near rest =
      let a = heartbeat-Again ends cid now_ts resend commad_ts s due (omega (arith, n)) in
      subst
        (λ told.
          GivesUp cid (commad_ts + (suc k + 1) * 1000) (commad_ts + (suc k + 1) * (1000 + gap))
            (now_ts ∷ times) told (waiting s resend commad_ts))
        a.quiet
        (GivesUp-cons cid _ _ _ _ now_ts times a.next.notices (waiting s resend commad_ts)
          (waiting a.next (resend + 1) now_ts) a.same (omega arith) (omega arith)
          (rest k a.next (omega arith)))

  -- A session that connects has no ends; its last SIM_CONNECT went out at `commad_ts`, after it was sent
  -- `resend` times, and `resend` + `more` is 10. No packet comes, and its user calls nothing. From the
  -- time `before`, at most a second after `commad_ts`, it beats at any times, each not before the last
  -- one and at most `gap` milliseconds after it, and the last more than (`more` + 1) * (1000 + `gap`)
  -- milliseconds after `commad_ts`. Then one of the beats ends it, more than (`more` + 1) * 1000 and at
  -- most (`more` + 1) * (1000 + `gap`) milliseconds after `commad_ts`. Up to that beat it is connecting
  -- and `notify_cb` is not called; with that beat and after all beats it is idle, and the one call of
  -- `notify_cb` is that the connection failed.
  pub heartbeats-idle :
      (cid gap resend more commad_ts before : ℕ) (times : List ℕ) (s : Session S R)
      → resend + more ≡ 10
      → before ≤ commad_ts + 1000
      → IsSteady gap before times
      → commad_ts + (more + 1) * (1000 + gap) < last_of before times
      → GivesUp cid
          (commad_ts + (more + 1) * 1000)
          (commad_ts + (more + 1) * (1000 + gap))
          times
          s.notices
          (waiting s resend commad_ts)
  unfolding last_of
  heartbeats-idle cid gap resend more commad_ts before [] s n b st long = absurd (omega arith)
  heartbeats-idle cid gap resend more commad_ts before (now_ts ∷ times) s n b (up, near, st) long =
      elim (Bool-cases (ltb (commad_ts + 1000) now_ts)) [
        | inr soon ↦
            let near_enough : now_ts ≤ commad_ts + 1000 = ground arith in
            let w = heartbeat-Waits ends cid now_ts resend commad_ts s near_enough in
            subst
              (λ told.
                GivesUp cid (commad_ts + (more + 1) * 1000) (commad_ts + (more + 1) * (1000 + gap))
                  (now_ts ∷ times) told (waiting s resend commad_ts))
              w.quiet
              (GivesUp-cons cid _ _ _ _ now_ts times w.next.notices (waiting s resend commad_ts)
                (waiting w.next resend commad_ts) w.same (omega arith) (omega arith)
                (heartbeats-idle cid gap resend more commad_ts now_ts times w.next n (omega arith)
                  st long))
        | inl due ↦
            due-GivesUp cid gap resend more commad_ts now_ts times s n (ground arith) (omega arith)
              (λ k next e.
                let farther =
                  subst (λ m. commad_ts + (m + 1) * (1000 + gap) < last_of now_ts times) e long in
                heartbeats-idle cid gap (resend + 1) k now_ts now_ts times next
                  (omega (arith, n, e)) (omega arith) st (omega (arith, farther)))
      ]
