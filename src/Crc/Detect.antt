-- ===== src/Crc/Detect.antt =====
-- common/cf_crc32.c: the checksum tells any two packets apart that differ in one byte.
use Prim.Native.Nat.{bit_xor}
use lmp.Prelude.{ℕ, ◌/◌, ◌%◌, ◌^◌, ◌<◌, ◌≡◌, ◌≢◌, sym, ◌∙◌, ap, List, [], ◌∷◌, ◌++◌, arith, get_or}
use lmp.Prelude.Bits.{
  bit_xor-lt, bit_xor_comm, bit_xor-zero, bit_xor_cancel, bit_xor-shift_8, bit_xor-shift_24,
  bit_and-byte,
}
use lmp.Crc.{crc32_tab, update, rounds, crc32}
use lmp.Crc.Table.{table-lt, table_injective}

-- The table's index, and the entry that one round takes.
abbrev index : ℕ → ℕ → ℕ
index crc byte = bit_xor crc byte % 2 ^ 8

abbrev entry : ℕ → ℕ → ℕ
entry crc byte = get_or crc32_tab (index crc byte) 0

update-entry : (crc byte : ℕ) → update crc byte ≡ bit_xor (entry crc byte) (crc / 2 ^ 8)
unfolding update
update-entry crc byte =
    ap (λ i. bit_xor (get_or crc32_tab i 0) (crc / 2 ^ 8)) (bit_and-byte (bit_xor crc byte))

pub update-lt : (crc byte : ℕ) → crc < 2 ^ 32 → update crc byte < 2 ^ 32
update-lt crc byte h =
    rw (update-entry crc byte)
      (bit_xor-lt 32 _ _ (table-lt (index crc byte) (omega arith)) (omega arith))

pub rounds-lt : (crc : ℕ) (buf : List ℕ) → crc < 2 ^ 32 → rounds crc buf < 2 ^ 32
unfolding rounds
rounds-lt crc [] h = h
rounds-lt crc (byte ∷ buf) h = rounds-lt (update crc byte) buf (update-lt crc byte h)

-- A checksum fits 32 bits.
pub crc32-lt : (crc : ℕ) (buf : List ℕ) → crc < 2 ^ 32 → crc32 crc buf < 2 ^ 32
unfolding crc32
crc32-lt crc buf h =
    bit_xor-lt 32 _ _ (rounds-lt _ buf (bit_xor-lt 32 crc _ h (omega arith))) (omega arith)

-- The highest byte of a round's result is that of the entry.
top-update : (crc byte : ℕ) → crc < 2 ^ 32 → update crc byte / 2 ^ 24 ≡ entry crc byte / 2 ^ 24
top-update crc byte h =
    let low : crc / 2 ^ 8 / 2 ^ 24 ≡ 0 = omega arith in
    rw (update-entry crc byte) (
      bit_xor-shift_24 (entry crc byte) (crc / 2 ^ 8)
      ∙ ap (bit_xor (entry crc byte / 2 ^ 24)) low
      ∙ bit_xor-zero _)

update-index :
    (c d x y : ℕ) → c < 2 ^ 32 → d < 2 ^ 32 → update c x ≡ update d y → index c x ≡ index d y
update-index c d x y hc hd e =
    table_injective (index c x) (index d y) (omega arith) (omega arith)
      (sym (top-update c x hc) ∙ ap (λ v. v / 2 ^ 24) e ∙ top-update d y hd)

xor_injective : (a b x : ℕ) → bit_xor a x ≡ bit_xor b x → a ≡ b
xor_injective a b x e = sym (bit_xor_cancel a x) ∙ ap (λ v. bit_xor v x) e ∙ bit_xor_cancel b x

-- A round on one byte tells two states apart.
update_injective :
    (c d x : ℕ) → c < 2 ^ 32 → d < 2 ^ 32 → x < 2 ^ 8 → update c x ≡ update d x → c ≡ d
update_injective c d x hc hd hx e =
    let same = update-index c d x x hc hd e in
    let high : c / 2 ^ 8 ≡ d / 2 ^ 8 = xor_injective _ _ (entry d x) (
      bit_xor_comm (c / 2 ^ 8) (entry d x)
      ∙ ap (λ i. bit_xor (get_or crc32_tab i 0) (c / 2 ^ 8)) (sym same)
      ∙ sym (update-entry c x)
      ∙ e
      ∙ update-entry d x
      ∙ bit_xor_comm (entry d x) (d / 2 ^ 8)) in
    let none : x / 2 ^ 8 ≡ 0 = omega arith in
    xor_injective c d x (
      omega (arith, bit_xor-shift_8 c x, bit_xor-shift_8 d x, ap (λ v. bit_xor v (x / 2 ^ 8)) high))

-- A round tells two bytes apart.
update_tells : (c x y : ℕ) → c < 2 ^ 32 → x < 2 ^ 8 → y < 2 ^ 8 → update c x ≡ update c y → x ≡ y
update_tells c x y hc hx hy e =
    let same = update-index c c x y hc hc e in
    let none_x : x / 2 ^ 8 ≡ 0 = omega arith in
    let none_y : y / 2 ^ 8 ≡ 0 = omega arith in
    let whole : bit_xor c x ≡ bit_xor c y = omega (
      arith,
      bit_xor-shift_8 c x,
      bit_xor-shift_8 c y,
      ap (bit_xor (c / 2 ^ 8)) (none_x ∙ sym none_y),
    ) in
    xor_injective x y c (bit_xor_comm x c ∙ whole ∙ bit_xor_comm c y)

-- All entries are bytes.
abbrev pub AreBytes : List ℕ → Type 0
AreBytes [] = Unit
AreBytes (x ∷ xs) = (x < 2 ^ 8) × AreBytes xs

rounds_injective :
    (c d : ℕ) (buf : List ℕ)
    → c < 2 ^ 32
    → d < 2 ^ 32
    → AreBytes buf
    → rounds c buf ≡ rounds d buf
    → c ≡ d
unfolding rounds
rounds_injective c d [] hc hd h e = e
rounds_injective c d (x ∷ buf) hc hd h e =
    update_injective c d x hc hd h.0
      (rounds_injective (update c x) (update d x) buf (update-lt c x hc) (update-lt d x hd) h.1 e)

rounds_tells :
    (c x y : ℕ) (before after : List ℕ)
    → c < 2 ^ 32
    → x < 2 ^ 8
    → y < 2 ^ 8
    → AreBytes after
    → rounds c (before ++ x ∷ after) ≡ rounds c (before ++ y ∷ after)
    → x ≡ y
unfolding rounds
rounds_tells c x y [] after hc hx hy h e =
    update_tells c x y hc hx hy
      (rounds_injective (update c x) (update c y) after (update-lt c x hc) (update-lt c y hc) h e)
rounds_tells c x y (z ∷ before) after hc hx hy h e =
    rounds_tells (update c z) x y before after (update-lt c z hc) hx hy h e

crc32_injective :
    (crc x y : ℕ) (before after : List ℕ)
    → crc < 2 ^ 32
    → x < 2 ^ 8
    → y < 2 ^ 8
    → AreBytes after
    → crc32 crc (before ++ x ∷ after) ≡ crc32 crc (before ++ y ∷ after)
    → x ≡ y
unfolding crc32
crc32_injective crc x y before after hc hx hy h e =
    rounds_tells (bit_xor crc 0xffffffff) x y before after (bit_xor-lt 32 crc _ hc (omega arith)) hx
      hy h (xor_injective _ _ 0xffffffff e)

-- Byte lists that differ in exactly one byte have different checksums, wherever that byte stands
-- and from whatever start value of 32 bits. (The bytes before it may be any numbers.)
pub crc32_tells :
    (crc x y : ℕ) (before after : List ℕ)
    → crc < 2 ^ 32
    → x < 2 ^ 8
    → y < 2 ^ 8
    → AreBytes after
    → x ≢ y
    → crc32 crc (before ++ x ∷ after) ≢ crc32 crc (before ++ y ∷ after)
crc32_tells crc x y before after hc hx hy h ne e =
    ne (crc32_injective crc x y before after hc hx hy h e)
