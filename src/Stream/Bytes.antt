-- ===== src/Stream/Bytes.antt =====
-- common/cf_stream.c, `mach_put_*` and `mach_get_*`: numbers as bytes, the highest first.
-- After `bin_stream_init` the flag `big_endian` is 0 on a little-endian host, whose branches these
-- are; on a big-endian host the other branches store the same bytes.
use lmp.Prelude.{ℕ, ◌+◌, ◌*◌, ◌/◌, ◌%◌, ◌^◌, List, [], ◌∷◌, get_or}

unfoldable pub put_1 : ℕ → List ℕ
put_1 val = (val % 2 ^ 8) ∷ []

unfoldable pub put_2 : ℕ → List ℕ
put_2 val = (val / 2 ^ 8 % 2 ^ 8) ∷ (val % 2 ^ 8) ∷ []

unfoldable pub put_4 : ℕ → List ℕ
put_4 val =
    (val / 2 ^ 24 % 2 ^ 8) ∷ (val / 2 ^ 16 % 2 ^ 8) ∷ (val / 2 ^ 8 % 2 ^ 8) ∷ (val % 2 ^ 8) ∷ []

unfoldable pub put_8 : ℕ → List ℕ
put_8 val =
    (val / 2 ^ 56 % 2 ^ 8)
    ∷ (val / 2 ^ 48 % 2 ^ 8)
    ∷ (val / 2 ^ 40 % 2 ^ 8)
    ∷ (val / 2 ^ 32 % 2 ^ 8)
    ∷ (val / 2 ^ 24 % 2 ^ 8)
    ∷ (val / 2 ^ 16 % 2 ^ 8)
    ∷ (val / 2 ^ 8 % 2 ^ 8)
    ∷ (val % 2 ^ 8)
    ∷ []

unfoldable pub get_1 : List ℕ → ℕ
get_1 p = get_or p 0 0

unfoldable pub get_2 : List ℕ → ℕ
get_2 p = get_or p 0 0 * 2 ^ 8 + get_or p 1 0

unfoldable pub get_4 : List ℕ → ℕ
get_4 p = get_or p 0 0 * 2 ^ 24 + get_or p 1 0 * 2 ^ 16 + get_or p 2 0 * 2 ^ 8 + get_or p 3 0

unfoldable pub get_8 : List ℕ → ℕ
get_8 p =
    get_or p 0 0 * 2 ^ 56
    + get_or p 1 0 * 2 ^ 48
    + get_or p 2 0 * 2 ^ 40
    + get_or p 3 0 * 2 ^ 32
    + get_or p 4 0 * 2 ^ 24
    + get_or p 5 0 * 2 ^ 16
    + get_or p 6 0 * 2 ^ 8
    + get_or p 7 0
