-- ===== src/Unwrapper.antt =====
-- common/cf_unwrapper.c: a counter of 16 or 32 bits is unwrapped to one of 64 bits.
pub mod Tracks
mod Tests
use lmp.Prelude.{ℕ, ◌+◌, ◌-◌, ◌*◌, ◌%◌, ◌^◌, Bool, true, false, not, ◌&&◌, ltb, ◌==◌, if◌then◌else◌}
use lmp.Prelude.Int.{ℤ, pos, negsuc, ◌+ℤ◌, ◌-ℤ◌, ltb_ℤ}

-- `cf_unwrapper_t`; `size` is that of the counter in bytes.
pub record Unwrapper : Type 0 where
  pub size : ℕ
  pub last_value : ℤ

-- `init_unwrapper16` and `init_unwrapper32`
abbrev pub init_unwrapper16 : Unwrapper
init_unwrapper16 = record { size = 2; last_value = pos 0 }

abbrev pub init_unwrapper32 : Unwrapper
init_unwrapper32 = record { size = 4; last_value = pos 0 }

-- The cast of an `int64_t` to an unsigned type of `modulus` values.
abbrev pub cast : ℕ → ℤ → ℕ
cast modulus (pos n) = n % modulus
cast modulus (negsuc n) = modulus - 1 - n % modulus

-- The macro IS_NEWER on `uint16_t`, whose difference is an `int`; does it return 0?
unfoldable pub is_newer16 : ℕ → ℕ → Bool
is_newer16 val prev_val =
    if (prev_val + 2 ^ 15) == val
    then ltb prev_val val
    else not (val == prev_val) && ltb ((val + 2 ^ 16 - prev_val) % 2 ^ 16) (2 ^ 15)

-- On `uint32_t` the difference is taken modulo 2 ^ 32.
unfoldable pub is_newer32 : ℕ → ℕ → Bool
is_newer32 val prev_val =
    if ((val + 2 ^ 32 - prev_val) % 2 ^ 32) == 2 ^ 31
    then ltb prev_val val
    else not (val == prev_val) && ltb ((val + 2 ^ 32 - prev_val) % 2 ^ 32) (2 ^ 31)

-- What the two `wrap*_update` have in common, after `delta` is computed.
unfoldable pub corrected : ℤ → ℤ → Bool → ℤ → ℤ
corrected last_value max_plus newer delta =
    if newer
    then (if ltb_ℤ delta (pos 0) then delta +ℤ max_plus else delta)
    else if ltb_ℤ (pos 0) delta && not (ltb_ℤ (last_value +ℤ delta -ℤ max_plus) (pos 0))
    then delta -ℤ max_plus
    else delta

-- `wrap16_update`
unfoldable pub update16 : ℤ → ℕ → ℤ
unfolding is_newer16 corrected ◌+ℤ◌ ◌-ℤ◌
update16 last_value val =
    let cropped_last = cast (2 ^ 16) last_value in
    last_value
    +ℤ corrected last_value (pos (2 ^ 16)) (is_newer16 val cropped_last)
        (pos val -ℤ pos cropped_last)

-- `wrap32_update`: the difference of two `uint32_t` is never negative.
unfoldable pub update32 : ℤ → ℕ → ℤ
unfolding is_newer32 corrected ◌+ℤ◌ ◌-ℤ◌
update32 last_value val =
    let cropped_last = cast (2 ^ 32) last_value in
    last_value
    +ℤ corrected last_value (pos (2 ^ 32)) (is_newer32 val cropped_last)
        (pos ((val + 2 ^ 32 - cropped_last) % 2 ^ 32))

-- `wrap_uint16` and `wrap_uint32`: the value, and the unwrapper that holds it.
unfoldable pub wrap_uint16 : Unwrapper → ℕ → ℤ × Unwrapper
wrap_uint16 wrap val =
    let value = update16 wrap.last_value val in (value, record wrap { last_value = value })

unfoldable pub wrap_uint32 : Unwrapper → ℕ → ℤ × Unwrapper
wrap_uint32 wrap val =
    let value = update32 wrap.last_value val in (value, record wrap { last_value = value })
