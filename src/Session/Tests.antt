-- ===== src/Session/Tests.antt =====
-- sim_transport/sim_session.c: a call that is made and ended, and one that nobody answers.
use lmp.Prelude.{
  ℕ, zero, suc, ◌+◌, ◌*◌, ◌-◌, ◌≤◌, ◌≡◌, refl, true, none, some, List, [], ◌∷◌, length, max, arith,
}
use lmp.Message.{sim_connect_ack}
use lmp.Session.{session_connected, Ends, Session, create, connect, disconnect, send_connect}
use lmp.Session.Process.{good, process, dispatch, process_sim_connect_ack, open_sender}
use lmp.Session.States.{Moves, IsFit}
use lmp.Session.States.Steps.{here, step, connected_by, processes, disconnected_by, Reach-Moves}
use lmp.Session.Rtt.{IsWithin, calculate_rtts, calculate_rtts-IsWithin}
use lmp.Session.Beats.{waiting}
use lmp.Session.Timeout.{IsSteady, last_of, GivesUp, heartbeats-idle}

-- Ends that count the calls that matter.
abbrev ends_example : Ends ℕ ℕ
ends_example = record {
  sender_create = λ transport_type padding fec. 0;
  sender_reset = λ transport_type padding fec a. 0;
  sender_active = λ a. a + 1;
  sender_put = λ payload_type ftype bytes a. (a + length bytes, true);
  sender_ack = λ ack a. (a, some 40);
  sender_feedback = λ body a. a;
  clean_ack_cache = λ a. 0;
  sender_timer = λ now_ts a. a;
  sender_update_rtt = λ rtt a. a;
  sender_set_bitrates = λ low start high a. a;
  receiver_create = λ cc_type. 0;
  receiver_reset = λ cc_type a. 0;
  receiver_active = λ uid a. uid;
  receiver_put = λ seg a. a;
  receiver_put_fec = λ fec a. a;
  receiver_padding = λ pad a. a;
  receiver_get = λ a. (a, none);
  receiver_timer = λ now_ts a. a;
  receiver_update_rtt = λ rtt a. a;
  base_uid = λ a. a;
}

abbrev made : Session ℕ ℕ
made = create 5 1000

abbrev calling : Session ℕ ℕ
calling = (connect 6 2000 77 0 1 1 made).0

abbrev called : Session ℕ ℕ
called =
    process ends_example 7 2050 0 (good 88 (sim_connect_ack (record { cid = 6; result = 0 })))
      calling

abbrev ended : Session ℕ ℕ
ended = (disconnect 3000 called).0

called_state : (called.state ≡ session_connected) × (called.sender ≡ some 1)
unfolding process dispatch process_sim_connect_ack open_sender connect send_connect create
called_state = (refl, refl)

Reach-Moves_example : Moves called.state ended.state × IsFit called × IsFit ended
Reach-Moves_example =
    Reach-Moves ends_example 5 1000 called ended
      (step (step here (connected_by made 6 2000 77 0 1 1))
        (processes calling 7 2050 0 (good 88 (sim_connect_ack (record { cid = 6; result = 0 })))))
      (disconnected_by called 3000)

calculate_rtts-IsWithin_example :
    IsWithin 20 200 (calculate_rtts ends_example (30 ∷ 150 ∷ 20 ∷ []) called).rtt
    × ((calculate_rtts ends_example (30 ∷ 150 ∷ 20 ∷ []) called).rtt_var
        ≤ max 10 (max called.rtt_var (200 - 20)))
unfolding process dispatch process_sim_connect_ack open_sender connect send_connect create
calculate_rtts-IsWithin_example =
    calculate_rtts-IsWithin ends_example 20 200 (30 ∷ 150 ∷ 20 ∷ []) called (omega arith)
      (omega arith) (omega arith, omega arith) (omega arith)
      ((omega arith, omega arith), ((omega arith, omega arith), ((omega arith, omega arith), tt)))

-- `count` times, each `gap` after the one before.
ticks : ℕ → ℕ → ℕ → List ℕ
ticks zero gap before = []
ticks (suc count) gap before = (before + gap) ∷ ticks count gap (before + gap)

ticks-IsSteady : (count gap before : ℕ) → IsSteady gap before (ticks count gap before)
unfolding ticks
ticks-IsSteady zero gap before = tt
ticks-IsSteady (suc count) gap before =
    (omega arith, omega arith, ticks-IsSteady count gap (before + gap))

last_of-ticks :
    (count gap before : ℕ) → last_of before (ticks count gap before) ≡ before + count * gap
unfolding ticks last_of
last_of-ticks zero gap before = omega arith
last_of-ticks (suc count) gap before = omega (arith, last_of-ticks count gap (before + gap))

-- The first SIM_CONNECT goes out at 2000, and the session beats every 5 milliseconds.
heartbeats-idle_example :
    GivesUp ends_example 9 12000 12050 (ticks 2100 5 2000) calling.notices (waiting calling 1 2000)
heartbeats-idle_example =
    heartbeats-idle ends_example 9 5 1 9 2000 2000 (ticks 2100 5 2000) calling (omega arith)
      (omega arith) (ticks-IsSteady 2100 5 2000) (omega (arith, last_of-ticks 2100 5 2000))
