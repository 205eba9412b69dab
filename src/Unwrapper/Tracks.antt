-- ===== src/Unwrapper/Tracks.antt =====
-- common/cf_unwrapper.c: the unwrapped counter follows the true one.
use lmp.Prelude.{ℕ, ◌+◌, ◌%◌, ◌^◌, ◌<◌, ◌≡◌, refl, ◌∙◌, ap, List, [], ◌∷◌, arith}
use lmp.Prelude.Int.{ℤ, pos}
use lmp.Unwrapper.{Unwrapper, update16, update32, wrap_uint16, wrap_uint32}
use mathlib.Core.List.{map}

-- Less than half the range of the counter apart.
abbrev pub Near : ℕ → ℕ → ℕ → Type 0
Near half n x = (n < x + half) × (x < n + half)

-- From the value `n`, a counter that shows the low 16 bits of some `x` near `n` is unwrapped to
-- `x`.
pub update16-Near : (n x : ℕ) → Near (2 ^ 15) n x → update16 (pos n) (x % 2 ^ 16) ≡ pos x
unfolding update16
update16-Near n x h = ground arith

-- The same with 32 bits.
pub update32-Near : (n x : ℕ) → Near (2 ^ 31) n x → update32 (pos n) (x % 2 ^ 32) ≡ pos x
unfolding update32
update32-Near n x h = ground arith

-- The values that one unwrapper gives for the counters of a list, one after another.
unfoldable pub wrap_each : (Unwrapper → ℕ → ℤ × Unwrapper) → Unwrapper → List ℕ → List ℤ
wrap_each wrap u [] = []
wrap_each wrap u (val ∷ vals) = let r = wrap u val in r.0 ∷ wrap_each wrap (r.1) vals

-- Each value of the list is near the one before it; the first is near `n`.
abbrev pub NearEach : ℕ → ℕ → List ℕ → Type 0
NearEach half n [] = Unit
NearEach half n (x ∷ xs) = Near half n x × NearEach half x xs

-- An unwrapper of 16 bits at the value `n` gives back every value of a sequence of which it sees
-- the low 16 bits, provided that each value is less than 2 ^ 15 away from the one before, up or
-- down.
pub wrap_each-wrap_uint16 :
    (size n : ℕ) (xs : List ℕ)
    → NearEach (2 ^ 15) n xs
    → wrap_each wrap_uint16 (record { size = size; last_value = pos n }) (map (λ x. x % 2 ^ 16) xs)
      ≡ map pos xs
unfolding wrap_each wrap_uint16
wrap_each-wrap_uint16 size n [] h = refl
wrap_each-wrap_uint16 size n (x ∷ xs) (h, hs) =
    ap
      (λ v.
        v
        ∷ wrap_each wrap_uint16 (record { size = size; last_value = v }) (map (λ x. x % 2 ^ 16) xs))
      (update16-Near n x h)
    ∙ ap (λ vs. pos x ∷ vs) (wrap_each-wrap_uint16 size x xs hs)

-- An unwrapper of 32 bits at the value `n` gives back every value of a sequence of which it sees
-- the low 32 bits, provided that each value is less than 2 ^ 31 away from the one before, up or
-- down.
pub wrap_each-wrap_uint32 :
    (size n : ℕ) (xs : List ℕ)
    → NearEach (2 ^ 31) n xs
    → wrap_each wrap_uint32 (record { size = size; last_value = pos n }) (map (λ x. x % 2 ^ 32) xs)
      ≡ map pos xs
unfolding wrap_each wrap_uint32
wrap_each-wrap_uint32 size n [] h = refl
wrap_each-wrap_uint32 size n (x ∷ xs) (h, hs) =
    ap
      (λ v.
        v
        ∷ wrap_each wrap_uint32 (record { size = size; last_value = v }) (map (λ x. x % 2 ^ 32) xs))
      (update32-Near n x h)
    ∙ ap (λ vs. pos x ∷ vs) (wrap_each-wrap_uint32 size x xs hs)
