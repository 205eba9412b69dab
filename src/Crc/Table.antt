-- ===== src/Crc/Table.antt =====
-- The table of common/cf_crc32.c: each entry, checked by evaluation over all 256 indices.
use Prim.Native.Nat.{bit_xor}
use lmp.Prelude.{
  ℕ, zero, suc, ◌+◌, ◌/◌, ◌%◌, ◌^◌, ◌<◌, ◌≡◌, refl, Bool, true, List, [], ◌∷◌, arith, ltb, ◌==◌,
  if◌then◌else◌, get_or, every, every_lem,
}
use lmp.Crc.{crc32_tab}

-- The reflected CRC-32 polynomial, one bit at a time.
unfoldable pub shift_bits : ℕ → ℕ → ℕ
shift_bits zero crc = crc
shift_bits (suc n) crc =
    shift_bits n (if crc % 2 == 1 then bit_xor (crc / 2) 0xedb88320 else crc / 2)

entry_checks : ℕ → Bool
entry_checks i = get_or crc32_tab i 0 == shift_bits 8 i

entries : every entry_checks 256 ≡ true
unfolding entry_checks crc32_tab shift_bits
entries = refl

-- The table holds the remainders of the CRC-32 polynomial.
pub table_lem : (i : ℕ) → i < 256 → get_or crc32_tab i 0 ≡ shift_bits 8 i
unfolding entry_checks
table_lem i h =
    let e : (get_or crc32_tab i 0 == shift_bits 8 i) ≡ true =
      every_lem entry_checks 256 i h entries in
    ground arith

entry_fits : ℕ → Bool
entry_fits i = ltb (get_or crc32_tab i 0) (2 ^ 32)

fits : every entry_fits 256 ≡ true
unfolding entry_fits crc32_tab
fits = refl

pub table-lt : (i : ℕ) → i < 256 → get_or crc32_tab i 0 < 2 ^ 32
unfolding entry_fits
table-lt i h =
    let e : ltb (get_or crc32_tab i 0) (2 ^ 32) ≡ true = every_lem entry_fits 256 i h fits in
    ground arith

-- The entry whose highest byte is `top`.
find_top : List ℕ → ℕ → ℕ → ℕ
find_top [] i top = i
find_top (x ∷ xs) i top =
    let rest = find_top xs (i + 1) top in if x / 2 ^ 24 == top then i else rest

top_checks : ℕ → Bool
top_checks i = find_top crc32_tab 0 (get_or crc32_tab i 0 / 2 ^ 24) == i

tops : every top_checks 256 ≡ true
unfolding top_checks find_top crc32_tab
tops = refl

-- No two entries have the same highest byte.
pub table_injective :
    (i j : ℕ)
    → i < 256
    → j < 256
    → get_or crc32_tab i 0 / 2 ^ 24 ≡ get_or crc32_tab j 0 / 2 ^ 24
    → i ≡ j
unfolding top_checks
table_injective i j hi hj e =
    let p : (find_top crc32_tab 0 (get_or crc32_tab i 0 / 2 ^ 24) == i) ≡ true =
      every_lem top_checks 256 i hi tops in
    let q : (find_top crc32_tab 0 (get_or crc32_tab j 0 / 2 ^ 24) == j) ≡ true =
      every_lem top_checks 256 j hj tops in
    ground arith
