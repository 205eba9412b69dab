-- ===== src/Hex.antt =====
-- common/cf_hex.c: bytes written as hexadecimal digits, and read back.
pub mod Tables
pub mod RoundTrip
mod Tests
use Prim.Native.Nat.{bit_or}
use lmp.Prelude.{
  ℕ, ◌+◌, ◌*◌, ◌/◌, ◌%◌, ◌^◌, ltb, leb, ◌==◌, ◌||◌, if◌then◌else◌, List, [], ◌∷◌, ◌++◌, length,
  drop, get_or,
}

-- The character codes of the two digits of each byte.
abbrev pub asc_map : List (ℕ × ℕ)
asc_map =
    (0x30, 0x30)
    ∷ (0x30, 0x31)
    ∷ (0x30, 0x32)
    ∷ (0x30, 0x33)
    ∷ (0x30, 0x34)
    ∷ (0x30, 0x35)
    ∷ (0x30, 0x36)
    ∷ (0x30, 0x37)
    ∷ (0x30, 0x38)
    ∷ (0x30, 0x39)
    ∷ (0x30, 0x61)
    ∷ (0x30, 0x62)
    ∷ (0x30, 0x63)
    ∷ (0x30, 0x64)
    ∷ (0x30, 0x65)
    ∷ (0x30, 0x66)
    ∷ (0x31, 0x30)
    ∷ (0x31, 0x31)
    ∷ (0x31, 0x32)
    ∷ (0x31, 0x33)
    ∷ (0x31, 0x34)
    ∷ (0x31, 0x35)
    ∷ (0x31, 0x36)
    ∷ (0x31, 0x37)
    ∷ (0x31, 0x38)
    ∷ (0x31, 0x39)
    ∷ (0x31, 0x61)
    ∷ (0x31, 0x62)
    ∷ (0x31, 0x63)
    ∷ (0x31, 0x64)
    ∷ (0x31, 0x65)
    ∷ (0x31, 0x66)
    ∷ (0x32, 0x30)
    ∷ (0x32, 0x31)
    ∷ (0x32, 0x32)
    ∷ (0x32, 0x33)
    ∷ (0x32, 0x34)
    ∷ (0x32, 0x35)
    ∷ (0x32, 0x36)
    ∷ (0x32, 0x37)
    ∷ (0x32, 0x38)
    ∷ (0x32, 0x39)
    ∷ (0x32, 0x61)
    ∷ (0x32, 0x62)
    ∷ (0x32, 0x63)
    ∷ (0x32, 0x64)
    ∷ (0x32, 0x65)
    ∷ (0x32, 0x66)
    ∷ (0x33, 0x30)
    ∷ (0x33, 0x31)
    ∷ (0x33, 0x32)
    ∷ (0x33, 0x33)
    ∷ (0x33, 0x34)
    ∷ (0x33, 0x35)
    ∷ (0x33, 0x36)
    ∷ (0x33, 0x37)
    ∷ (0x33, 0x38)
    ∷ (0x33, 0x39)
    ∷ (0x33, 0x61)
    ∷ (0x33, 0x62)
    ∷ (0x33, 0x63)
    ∷ (0x33, 0x64)
    ∷ (0x33, 0x65)
    ∷ (0x33, 0x66)
    ∷ (0x34, 0x30)
    ∷ (0x34, 0x31)
    ∷ (0x34, 0x32)
    ∷ (0x34, 0x33)
    ∷ (0x34, 0x34)
    ∷ (0x34, 0x35)
    ∷ (0x34, 0x36)
    ∷ (0x34, 0x37)
    ∷ (0x34, 0x38)
    ∷ (0x34, 0x39)
    ∷ (0x34, 0x61)
    ∷ (0x34, 0x62)
    ∷ (0x34, 0x63)
    ∷ (0x34, 0x64)
    ∷ (0x34, 0x65)
    ∷ (0x34, 0x66)
    ∷ (0x35, 0x30)
    ∷ (0x35, 0x31)
    ∷ (0x35, 0x32)
    ∷ (0x35, 0x33)
    ∷ (0x35, 0x34)
    ∷ (0x35, 0x35)
    ∷ (0x35, 0x36)
    ∷ (0x35, 0x37)
    ∷ (0x35, 0x38)
    ∷ (0x35, 0x39)
    ∷ (0x35, 0x61)
    ∷ (0x35, 0x62)
    ∷ (0x35, 0x63)
    ∷ (0x35, 0x64)
    ∷ (0x35, 0x65)
    ∷ (0x35, 0x66)
    ∷ (0x36, 0x30)
    ∷ (0x36, 0x31)
    ∷ (0x36, 0x32)
    ∷ (0x36, 0x33)
    ∷ (0x36, 0x34)
    ∷ (0x36, 0x35)
    ∷ (0x36, 0x36)
    ∷ (0x36, 0x37)
    ∷ (0x36, 0x38)
    ∷ (0x36, 0x39)
    ∷ (0x36, 0x61)
    ∷ (0x36, 0x62)
    ∷ (0x36, 0x63)
    ∷ (0x36, 0x64)
    ∷ (0x36, 0x65)
    ∷ (0x36, 0x66)
    ∷ (0x37, 0x30)
    ∷ (0x37, 0x31)
    ∷ (0x37, 0x32)
    ∷ (0x37, 0x33)
    ∷ (0x37, 0x34)
    ∷ (0x37, 0x35)
    ∷ (0x37, 0x36)
    ∷ (0x37, 0x37)
    ∷ (0x37, 0x38)
    ∷ (0x37, 0x39)
    ∷ (0x37, 0x61)
    ∷ (0x37, 0x62)
    ∷ (0x37, 0x63)
    ∷ (0x37, 0x64)
    ∷ (0x37, 0x65)
    ∷ (0x37, 0x66)
    ∷ (0x38, 0x30)
    ∷ (0x38, 0x31)
    ∷ (0x38, 0x32)
    ∷ (0x38, 0x33)
    ∷ (0x38, 0x34)
    ∷ (0x38, 0x35)
    ∷ (0x38, 0x36)
    ∷ (0x38, 0x37)
    ∷ (0x38, 0x38)
    ∷ (0x38, 0x39)
    ∷ (0x38, 0x61)
    ∷ (0x38, 0x62)
    ∷ (0x38, 0x63)
    ∷ (0x38, 0x64)
    ∷ (0x38, 0x65)
    ∷ (0x38, 0x66)
    ∷ (0x39, 0x30)
    ∷ (0x39, 0x31)
    ∷ (0x39, 0x32)
    ∷ (0x39, 0x33)
    ∷ (0x39, 0x34)
    ∷ (0x39, 0x35)
    ∷ (0x39, 0x36)
    ∷ (0x39, 0x37)
    ∷ (0x39, 0x38)
    ∷ (0x39, 0x39)
    ∷ (0x39, 0x61)
    ∷ (0x39, 0x62)
    ∷ (0x39, 0x63)
    ∷ (0x39, 0x64)
    ∷ (0x39, 0x65)
    ∷ (0x39, 0x66)
    ∷ (0x61, 0x30)
    ∷ (0x61, 0x31)
    ∷ (0x61, 0x32)
    ∷ (0x61, 0x33)
    ∷ (0x61, 0x34)
    ∷ (0x61, 0x35)
    ∷ (0x61, 0x36)
    ∷ (0x61, 0x37)
    ∷ (0x61, 0x38)
    ∷ (0x61, 0x39)
    ∷ (0x61, 0x61)
    ∷ (0x61, 0x62)
    ∷ (0x61, 0x63)
    ∷ (0x61, 0x64)
    ∷ (0x61, 0x65)
    ∷ (0x61, 0x66)
    ∷ (0x62, 0x30)
    ∷ (0x62, 0x31)
    ∷ (0x62, 0x32)
    ∷ (0x62, 0x33)
    ∷ (0x62, 0x34)
    ∷ (0x62, 0x35)
    ∷ (0x62, 0x36)
    ∷ (0x62, 0x37)
    ∷ (0x62, 0x38)
    ∷ (0x62, 0x39)
    ∷ (0x30, 0x61)
    ∷ (0x62, 0x62)
    ∷ (0x62, 0x63)
    ∷ (0x62, 0x64)
    ∷ (0x62, 0x65)
    ∷ (0x62, 0x66)
    ∷ (0x63, 0x30)
    ∷ (0x63, 0x31)
    ∷ (0x63, 0x32)
    ∷ (0x63, 0x33)
    ∷ (0x63, 0x34)
    ∷ (0x63, 0x35)
    ∷ (0x63, 0x36)
    ∷ (0x63, 0x37)
    ∷ (0x63, 0x38)
    ∷ (0x63, 0x39)
    ∷ (0x63, 0x61)
    ∷ (0x63, 0x62)
    ∷ (0x63, 0x63)
    ∷ (0x63, 0x64)
    ∷ (0x63, 0x65)
    ∷ (0x63, 0x66)
    ∷ (0x64, 0x30)
    ∷ (0x64, 0x31)
    ∷ (0x64, 0x32)
    ∷ (0x64, 0x33)
    ∷ (0x64, 0x34)
    ∷ (0x64, 0x35)
    ∷ (0x64, 0x36)
    ∷ (0x64, 0x37)
    ∷ (0x64, 0x38)
    ∷ (0x64, 0x39)
    ∷ (0x64, 0x61)
    ∷ (0x64, 0x62)
    ∷ (0x64, 0x63)
    ∷ (0x64, 0x64)
    ∷ (0x64, 0x65)
    ∷ (0x64, 0x66)
    ∷ (0x65, 0x30)
    ∷ (0x65, 0x31)
    ∷ (0x65, 0x32)
    ∷ (0x65, 0x33)
    ∷ (0x65, 0x34)
    ∷ (0x65, 0x35)
    ∷ (0x65, 0x36)
    ∷ (0x65, 0x37)
    ∷ (0x65, 0x38)
    ∷ (0x65, 0x39)
    ∷ (0x65, 0x61)
    ∷ (0x65, 0x62)
    ∷ (0x65, 0x63)
    ∷ (0x65, 0x64)
    ∷ (0x65, 0x65)
    ∷ (0x65, 0x66)
    ∷ (0x66, 0x30)
    ∷ (0x66, 0x31)
    ∷ (0x66, 0x32)
    ∷ (0x66, 0x33)
    ∷ (0x66, 0x34)
    ∷ (0x66, 0x35)
    ∷ (0x66, 0x36)
    ∷ (0x66, 0x37)
    ∷ (0x66, 0x38)
    ∷ (0x66, 0x39)
    ∷ (0x66, 0x61)
    ∷ (0x66, 0x62)
    ∷ (0x66, 0x63)
    ∷ (0x66, 0x64)
    ∷ (0x66, 0x65)
    ∷ (0x66, 0x66)
    ∷ []

-- The value of each character as a digit.
abbrev pub bin_map : List ℕ
bin_map =
    0xff ∷ 0xff ∷ 0xff ∷ 0xff ∷ 0xff ∷ 0xff ∷ 0xff ∷ 0xff ∷ 0xff ∷ 0xff ∷ 0xff ∷ 0xff ∷ 0xff ∷ 0xff
    ∷ 0xff ∷ 0xff ∷ 0xff ∷ 0xff ∷ 0xff ∷ 0xff ∷ 0xff ∷ 0xff ∷ 0xff ∷ 0xff ∷ 0xff ∷ 0xff ∷ 0xff
    ∷ 0xff ∷ 0xff ∷ 0xff ∷ 0xff ∷ 0xff ∷ 0xff ∷ 0xff ∷ 0xff ∷ 0xff ∷ 0xff ∷ 0xff ∷ 0xff ∷ 0xff
    ∷ 0xff ∷ 0xff ∷ 0xff ∷ 0xff ∷ 0xff ∷ 0xff ∷ 0xff ∷ 0xff ∷ 0x00 ∷ 0x01 ∷ 0x02 ∷ 0x03 ∷ 0x04
    ∷ 0x05 ∷ 0x06 ∷ 0x07 ∷ 0x08 ∷ 0x09 ∷ 0xff ∷ 0xff ∷ 0xff ∷ 0xff ∷ 0xff ∷ 0xff ∷ 0xff ∷ 0x0a
    ∷ 0x0b ∷ 0x0c ∷ 0x0d ∷ 0x0e ∷ 0x0f ∷ 0xff ∷ 0xff ∷ 0xff ∷ 0xff ∷ 0xff ∷ 0xff ∷ 0xff ∷ 0xff
    ∷ 0xff ∷ 0xff ∷ 0xff ∷ 0xff ∷ 0xff ∷ 0xff ∷ 0xff ∷ 0xff ∷ 0xff ∷ 0xff ∷ 0xff ∷ 0xff ∷ 0xff
    ∷ 0xff ∷ 0xff ∷ 0xff ∷ 0xff ∷ 0xff ∷ 0x0a ∷ 0x0b ∷ 0x0c ∷ 0x0d ∷ 0x0e ∷ 0x0f ∷ 0xff ∷ 0xff
    ∷ 0xff ∷ 0xff ∷ 0xff ∷ 0xff ∷ 0xff ∷ 0xff ∷ 0xff ∷ 0xff ∷ 0xff ∷ 0xff ∷ 0xff ∷ 0xff ∷ 0xff
    ∷ 0xff ∷ 0xff ∷ 0xff ∷ 0xff ∷ 0xff ∷ 0xff ∷ 0xff ∷ 0xff ∷ 0xff ∷ 0xff ∷ 0xff ∷ 0xff ∷ 0xff
    ∷ 0xff ∷ 0xff ∷ 0xff ∷ 0xff ∷ 0xff ∷ 0xff ∷ 0xff ∷ 0xff ∷ 0xff ∷ 0xff ∷ 0xff ∷ 0xff ∷ 0xff
    ∷ 0xff ∷ 0xff ∷ 0xff ∷ 0xff ∷ 0xff ∷ 0xff ∷ 0xff ∷ 0xff ∷ 0xff ∷ 0xff ∷ 0xff ∷ 0xff ∷ 0xff
    ∷ 0xff ∷ 0xff ∷ 0xff ∷ 0xff ∷ 0xff ∷ 0xff ∷ 0xff ∷ 0xff ∷ 0xff ∷ 0xff ∷ 0xff ∷ 0xff ∷ 0xff
    ∷ 0xff ∷ 0xff ∷ 0xff ∷ 0xff ∷ 0xff ∷ 0xff ∷ 0xff ∷ 0xff ∷ 0xff ∷ 0xff ∷ 0xff ∷ 0xff ∷ 0xff
    ∷ 0xff ∷ 0xff ∷ 0xff ∷ 0xff ∷ 0xff ∷ 0xff ∷ 0xff ∷ 0xff ∷ 0xff ∷ 0xff ∷ 0xff ∷ 0xff ∷ 0xff
    ∷ 0xff ∷ 0xff ∷ 0xff ∷ 0xff ∷ 0xff ∷ 0xff ∷ 0xff ∷ 0xff ∷ 0xff ∷ 0xff ∷ 0xff ∷ 0xff ∷ 0xff
    ∷ 0xff ∷ 0xff ∷ 0xff ∷ 0xff ∷ 0xff ∷ 0xff ∷ 0xff ∷ 0xff ∷ 0xff ∷ 0xff ∷ 0xff ∷ 0xff ∷ 0xff
    ∷ 0xff ∷ 0xff ∷ 0xff ∷ 0xff ∷ 0xff ∷ 0xff ∷ 0xff ∷ 0xff ∷ 0xff ∷ 0xff ∷ 0xff ∷ 0xff ∷ 0xff
    ∷ 0xff ∷ 0xff ∷ 0xff ∷ 0xff ∷ 0xff ∷ 0xff ∷ 0xff ∷ 0xff ∷ 0xff ∷ 0xff ∷ 0xff ∷ 0xff ∷ 0xff
    ∷ 0xff ∷ 0xff ∷ 0xff ∷ 0xff ∷ 0xff ∷ 0xff ∷ 0xff ∷ 0xff ∷ []

-- The loop of `wb_bin2asc`; bytes index a table of 256 entries.
unfoldable pub digits_of : List ℕ → List ℕ
digits_of [] = []
digits_of (b ∷ bytes) = let entry = get_or asc_map b (0, 0) in entry.0 ∷ entry.1 ∷ digits_of bytes

-- `wb_bin2asc`: what the memory at `out` holds then, `out_size` being its length. A buffer that is
-- too small is left alone.
unfoldable pub wb_bin2asc : List ℕ → List ℕ → List ℕ
unfolding digits_of
wb_bin2asc bytes out =
    if ltb (length out) (length bytes * 2 + 1)
    then out
    else digits_of bytes ++ 0 ∷ drop (length bytes * 2 + 1) out

-- The byte of two characters, cut to its type.
unfoldable pub byte_of : ℕ → ℕ → ℕ
byte_of high low = bit_or (get_or bin_map high 0 * 2 ^ 4) (get_or bin_map low 0) % 2 ^ 8

-- The loop of `wb_asc2bin`.
unfoldable pub bytes_of : List ℕ → List ℕ
unfolding byte_of
bytes_of [] = []
bytes_of (high ∷ []) = []
bytes_of (high ∷ low ∷ chars) = byte_of high low ∷ bytes_of chars

-- `wb_asc2bin`: what the memory at `out` holds then, and `out_length`.
unfoldable pub wb_asc2bin : List ℕ → List ℕ → List ℕ × ℕ
unfolding bytes_of
wb_asc2bin chars out =
    if leb (length chars) 0 || (length chars % 2 == 1)
    then (out, 0)
    else if ltb (length out) (length chars / 2)
    then (out, 0)
    else (bytes_of chars ++ drop (length chars / 2) out, length chars / 2)
