-- ===== src/Crc/Reference.antt =====
-- common/cf_crc32.c against the bitwise definition of the checksum: the table saves seven of eight
-- shifts, and changes no result.
use Prim.Native.Nat.{bit_and, bit_xor}
use lmp.Prelude.{
  ℕ, zero, suc, ◌*◌, ◌/◌, ◌%◌, ◌^◌, ◌<◌, ◌≡◌, refl, sym, ◌∙◌, ap, inl, inr, List, [], ◌∷◌, arith,
  get_or, ◌==◌, if◌then◌else◌, Bool-cases,
}
use native.Mathlib.Nat.{pow-suc}
use lmp.Prelude.Bits.{
  bit_xor_step, bit_xor-shift_8, bit_xor-zero, bit_xor_exchange, bit_xor_comm, bit_xor-high_low,
  bit_and-byte,
}
use lmp.Crc.{crc32_tab, update, rounds, crc32}
use lmp.Crc.Detect.{AreBytes}
use lmp.Crc.Table.{shift_bits, table_lem}
use mathlib.Core.Path.{◌≡⟨◌⟩◌, ◌∎}

-- One bit of the division by the polynomial.
abbrev feedback : ℕ → ℕ
feedback crc = if crc % 2 == 1 then 0xedb88320 else 0

abbrev shift_bit : ℕ → ℕ
shift_bit crc = bit_xor (crc / 2) (feedback crc)

shift_bits-suc : (n crc : ℕ) → shift_bits (suc n) crc ≡ shift_bits n (shift_bit crc)
unfolding shift_bits
shift_bits-suc n crc = elim (Bool-cases (crc % 2 == 1)) [
  | inl e ↦ rw e
  | inr e ↦ rw (e, bit_xor-zero (crc / 2))
]

feedback-xor : (a b : ℕ) → feedback (bit_xor a b) ≡ bit_xor (feedback a) (feedback b)
feedback-xor a b = ground (arith, bit_xor_step a b)

shift_bit-xor : (a b : ℕ) → shift_bit (bit_xor a b) ≡ bit_xor (shift_bit a) (shift_bit b)
shift_bit-xor a b =
    let half : bit_xor a b / 2 ≡ bit_xor (a / 2) (b / 2) = omega (arith, bit_xor_step a b) in
    rw (half, feedback-xor a b) (bit_xor_exchange (a / 2) (b / 2) (feedback a) (feedback b))

shift_bits-xor :
    (n a b : ℕ) → shift_bits n (bit_xor a b) ≡ bit_xor (shift_bits n a) (shift_bits n b)
shift_bits-xor zero a b = unfold shift_bits in refl
shift_bits-xor (suc n) a b =
    shift_bits-suc n (bit_xor a b)
    ∙ ap (shift_bits n) (shift_bit-xor a b)
    ∙ shift_bits-xor n (shift_bit a) (shift_bit b)
    ∙ ap (λ x. bit_xor x (shift_bits n (shift_bit b))) (sym (shift_bits-suc n a))
    ∙ ap (bit_xor (shift_bits (suc n) a)) (sym (shift_bits-suc n b))

shift_even : (n m : ℕ) → shift_bits (suc n) (m * 2) ≡ shift_bits n m
unfolding shift_bits
shift_even n m =
    let odd : m * 2 % 2 ≡ 0 = omega arith in
    let half : m * 2 / 2 ≡ m = omega arith in rw (odd, half)

-- Shifts move the higher digits down.
shift_high : (n q : ℕ) → shift_bits n (q * 2 ^ n) ≡ q
shift_high zero q = unfold shift_bits in omega arith
shift_high (suc n) q =
    let double : q * 2 ^ suc n ≡ q * 2 ^ n * 2 =
      omega (arith, ap (λ (t : ℕ). q * t) (pow-suc 2 n)) in
    ap (shift_bits (suc n)) double ∙ shift_even n (q * 2 ^ n) ∙ shift_high n q

-- The checksum a bit at a time: the byte goes in, and eight shifts follow.
unfoldable pub bitwise_update : ℕ → ℕ → ℕ
bitwise_update crc byte = shift_bits 8 (bit_xor crc byte)

unfoldable pub bitwise_rounds : ℕ → List ℕ → ℕ
bitwise_rounds crc [] = crc
bitwise_rounds crc (byte ∷ buf) = bitwise_rounds (bitwise_update crc byte) buf

unfoldable pub bitwise_crc32 : ℕ → List ℕ → ℕ
bitwise_crc32 crc buf = bit_xor (bitwise_rounds (bit_xor crc 0xffffffff) buf) 0xffffffff

-- One look-up does what eight shifts do.
update-bitwise : (crc byte : ℕ) → byte < 2 ^ 8 → update crc byte ≡ bitwise_update crc byte
unfolding update bitwise_update
update-bitwise crc byte h =
    let mixed = bit_xor crc byte in
    let none : byte / 2 ^ 8 ≡ 0 = omega arith in
    let high : mixed / 2 ^ 8 ≡ crc / 2 ^ 8 =
      bit_xor-shift_8 crc byte ∙ ap (bit_xor (crc / 2 ^ 8)) none ∙ bit_xor-zero (crc / 2 ^ 8) in
    let whole : mixed ≡ bit_xor (mixed / 2 ^ 8 * 2 ^ 8) (mixed % 2 ^ 8) =
      omega (arith, bit_xor-high_low 8 (mixed / 2 ^ 8) (mixed % 2 ^ 8) (omega arith)) in
    bit_xor (get_or crc32_tab (bit_and mixed 0xff) 0) (crc / 2 ^ 8)
    ≡⟨ ap (λ i. bit_xor (get_or crc32_tab i 0) (crc / 2 ^ 8)) (bit_and-byte mixed) ⟩
      bit_xor (get_or crc32_tab (mixed % 2 ^ 8) 0) (crc / 2 ^ 8)
    ≡⟨ ap (λ e. bit_xor e (crc / 2 ^ 8)) (table_lem (mixed % 2 ^ 8) (omega arith)) ⟩
      bit_xor (shift_bits 8 (mixed % 2 ^ 8)) (crc / 2 ^ 8)
    ≡⟨ bit_xor_comm _ _
      ∙ ap (λ q. bit_xor q (shift_bits 8 (mixed % 2 ^ 8)))
          (sym high ∙ sym (shift_high 8 (mixed / 2 ^ 8))) ⟩
      bit_xor (shift_bits 8 (mixed / 2 ^ 8 * 2 ^ 8)) (shift_bits 8 (mixed % 2 ^ 8))
    ≡⟨ sym (shift_bits-xor 8 (mixed / 2 ^ 8 * 2 ^ 8) (mixed % 2 ^ 8))
      ∙ ap (shift_bits 8) (sym whole) ⟩
      shift_bits 8 mixed ∎

rounds-bitwise : (crc : ℕ) (buf : List ℕ) → AreBytes buf → rounds crc buf ≡ bitwise_rounds crc buf
unfolding rounds bitwise_rounds
rounds-bitwise crc [] h = refl
rounds-bitwise crc (byte ∷ buf) h =
    ap (λ c. rounds c buf) (update-bitwise crc byte h.0)
    ∙ rounds-bitwise (bitwise_update crc byte) buf h.1

-- On bytes, from any start value, the table-driven checksum is the bitwise one.
pub crc32-bitwise : (crc : ℕ) (buf : List ℕ) → AreBytes buf → crc32 crc buf ≡ bitwise_crc32 crc buf
unfolding crc32 bitwise_crc32
crc32-bitwise crc buf h =
    ap (λ c. bit_xor c 0xffffffff) (rounds-bitwise (bit_xor crc 0xffffffff) buf h)
