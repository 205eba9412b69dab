-- ===== src/Session/Rtt.antt =====
-- sim_transport/sim_session.c: the estimate of the round trip time.
use lmp.Prelude.{ℕ, ◌-◌, ◌≤◌, ◌<◌, ◌^◌, List, [], ◌∷◌, All, max, arith}
use lmp.Session.{Ends, Session}
use lmp.Session.Process.{smooth_rtt, smooth_rtt_var, calculate_rtt}

abbrev pub IsWithin : ℕ → ℕ → ℕ → Type 0
IsWithin low high n = (low ≤ n) × (n ≤ high)

smooth_rtt-IsWithin :
    (low high rtt keep_rtt : ℕ)
    → 10 ≤ low
    → high < 2 ^ 29
    → IsWithin low high rtt
    → IsWithin low high keep_rtt
    → IsWithin low high (smooth_rtt rtt keep_rtt)
unfolding smooth_rtt
smooth_rtt-IsWithin low high rtt keep_rtt h small (a, b) (c, d) = (omega arith, omega arith)

smooth_rtt_var-IsWithin :
    (low high rtt_var rtt keep_rtt : ℕ)
    → high < 2 ^ 29
    → rtt_var < 2 ^ 30
    → IsWithin low high rtt
    → IsWithin low high keep_rtt
    → IsWithin 10 (max 10 (max rtt_var (high - low))) (smooth_rtt_var rtt_var rtt keep_rtt)
unfolding smooth_rtt_var
smooth_rtt_var-IsWithin low high rtt_var rtt keep_rtt small var_small (a, b) (c, d) = ground arith

-- The round trips that are measured, one after the other.
unfoldable pub calculate_rtts : {S R : Type 0} → Ends S R → List ℕ → Session S R → Session S R
calculate_rtts ends [] s = s
calculate_rtts ends (measured ∷ rest) s = calculate_rtts ends rest (calculate_rtt ends measured s)

-- If the estimate of the round trip time is between two bounds, the lower at least 10 and the upper
-- below 2 ^ 29, and so are all the round trips that are measured, and the variation is below 2 ^ 30,
-- then no number of 32 bits wraps: the estimate stays between them, and its variation is at
-- most the largest of 10, what it was and the distance of the bounds.
pub calculate_rtts-IsWithin :
    {S R : Type 0} (ends : Ends S R) (low high : ℕ) (samples : List ℕ) (s : Session S R)
    → 10 ≤ low
    → high < 2 ^ 29
    → IsWithin low high s.rtt
    → s.rtt_var < 2 ^ 30
    → All (IsWithin low high) samples
    → IsWithin low high (calculate_rtts ends samples s).rtt
      × ((calculate_rtts ends samples s).rtt_var ≤ max 10 (max s.rtt_var (high - low)))
unfolding calculate_rtts calculate_rtt
calculate_rtts-IsWithin ends low high [] s h small w small_var a = (w, omega arith)
calculate_rtts-IsWithin ends low high (measured ∷ rest) s h small w small_var (b, a) =
    let k : IsWithin low high (max 5 measured) = (omega arith, omega arith) in
    let v = smooth_rtt_var-IsWithin low high s.rtt_var s.rtt (max 5 measured) small small_var w k in
    let r =
      calculate_rtts-IsWithin ends low high rest (calculate_rtt ends measured s) h small
        (smooth_rtt-IsWithin low high s.rtt (max 5 measured) h small w k) (omega (arith, v.1)) a in
    (r.0, omega (arith, r.1, v.1))
