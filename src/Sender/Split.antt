-- ===== src/Sender/Split.antt =====
-- sim_transport/sim_sender.c: what `sim_split_frame` makes of the size of a frame.
use lmp.Prelude.{
  ℕ, zero, suc, ◌+◌, ◌-◌, ◌*◌, ◌/◌, ◌%◌, ◌^◌, ◌≤◌, ◌<◌, ◌≡◌, refl, ap, ◌∙◌, List, [], ◌∷◌, leb,
  length, arith, Bool-cases, inl, inr,
}
use native.Mathlib.Nat.{mod-lt, div-add-mod, div-le_of_le-mul, lt_of_mul-lt-mul_left}
use lmp.Proto.{sim_video_size}
use lmp.Sender.{split_sizes, split_frame}

abbrev pub total_size : List ℕ → ℕ
total_size [] = 0
total_size (n ∷ ns) = n + total_size ns

-- Every size is at least `low` and at most `high`.
abbrev pub Within : ℕ → ℕ → List ℕ → Type 0
Within low high [] = Unit
Within low high (n ∷ ns) = (low ≤ n) × (n ≤ high) × Within low high ns

length-split_sizes : (n p r : ℕ) → length (split_sizes n p r) ≡ n
unfolding split_sizes
length-split_sizes zero p r = refl
length-split_sizes (suc n) p r = ap suc (length-split_sizes n p (r - 1))

total_size-split_sizes : (n p r : ℕ) → r ≤ n → total_size (split_sizes n p r) ≡ n * p + r
unfolding split_sizes
total_size-split_sizes zero p r h = omega arith
total_size-split_sizes (suc n) p r h = ground (arith, total_size-split_sizes n p (r - 1))

Within-split_sizes :
    (n p r high : ℕ) → p ≤ high → (0 < r → p < high) → Within p high (split_sizes n p r)
unfolding split_sizes
Within-split_sizes zero p r high h k = tt
Within-split_sizes (suc n) p r high h k =
    ground (arith, Within-split_sizes n p (r - 1) high h (λ q. k (omega arith)), k)

-- Quotient and remainder by a number of segments that suffices.
quotient_le : (size n high : ℕ) → 0 < n → size ≤ n * high → size / n ≤ high
quotient_le size n high pos h = div-le_of_le-mul n h

-- n * (size / n) + size % n ≡ size, so a quotient of `high` leaves no remainder.
quotient_lt : (size n high : ℕ) → 0 < n → size ≤ n * high → 0 < size % n → size / n < high
quotient_lt size n high pos h r = lt_of_mul-lt-mul_left n (omega (arith, div-add-mod size n))

quotient_pos : (size n : ℕ) → 0 < n → n ≤ size → 0 < size / n
quotient_pos size n pos h = ground (arith, div-add-mod size n, mod-lt size pos)

Within-mono :
    (low low' high : ℕ) → low' ≤ low → (ns : List ℕ) → Within low high ns → Within low' high ns
Within-mono low low' high h [] w = tt
Within-mono low low' high h (n ∷ ns) (a, b, w) = (omega arith, b, Within-mono low low' high h ns w)

-- Of a frame of at least one byte and at most 65535 times SIM_VIDEO_SIZE, sim_split_frame makes the
-- number of sizes that it returns, at least one; each is from 1 to SIM_VIDEO_SIZE, and together they
-- are the size of the frame.
pub split_frame_lem :
    (size : ℕ)
    → 0 < size
    → size ≤ 65535 * sim_video_size
    → (length (split_frame size sim_video_size).0 ≡ (split_frame size sim_video_size).1)
      × (0 < (split_frame size sim_video_size).1)
      × (total_size (split_frame size sim_video_size).0 ≡ size)
      × Within 1 sim_video_size (split_frame size sim_video_size).0
unfolding split_frame
split_frame_lem size pos high = elim (Bool-cases (leb size sim_video_size)) [
  | inl e ↦ rw e (refl, omega arith, omega arith, (pos, ground arith, tt))
  | inr e ↦
      let n = (size + sim_video_size - 1) / sim_video_size in
      let big : sim_video_size < size = ground arith in
      let n_pos : 0 < n = omega arith in
      let n_le : n ≤ size = omega arith in
      let n_small : n < 2 ^ 16 = omega arith in
      let enough : size ≤ n * sim_video_size = omega arith in
      rw e (
        length-split_sizes n (size / n) (size % n) ∙ omega arith,
        omega arith,
        total_size-split_sizes n (size / n) (size % n) (omega (arith, mod-lt size n_pos))
            ∙ div-add-mod size n,
        Within-mono (size / n) 1 sim_video_size (quotient_pos size n n_pos n_le)
            (split_sizes n (size / n) (size % n))
            (Within-split_sizes n (size / n) (size % n) sim_video_size
              (quotient_le size n sim_video_size n_pos enough)
              (quotient_lt size n sim_video_size n_pos enough)),
      )
]
