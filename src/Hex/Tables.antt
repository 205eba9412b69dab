-- ===== src/Hex/Tables.antt =====
-- The two tables of common/cf_hex.c against each other.
use lmp.Prelude.{
  ℕ, ◌<◌, ◌≡◌, refl, Bool, true, ◌==◌, if◌then◌else◌, get_or, every, every_lem, arith,
}
use lmp.Hex.{asc_map, byte_of}

-- The byte that is read where `b` was written: the table has "0a" in the place of "ba".
unfoldable pub read_back : ℕ → ℕ
read_back b = if b == 0xba then 0x0a else b

entry_checks : ℕ → Bool
entry_checks b = byte_of (get_or asc_map b (0, 0)).0 (get_or asc_map b (0, 0)).1 == read_back b

entries : every entry_checks 256 ≡ true
unfolding entry_checks byte_of read_back
entries = refl

pub byte_of_entry :
    (b : ℕ)
    → b < 256
    → byte_of (get_or asc_map b (0, 0)).0 (get_or asc_map b (0, 0)).1 ≡ read_back b
unfolding entry_checks
byte_of_entry b h =
    let e : (byte_of (get_or asc_map b (0, 0)).0 (get_or asc_map b (0, 0)).1 == read_back b)
        ≡ true =
      every_lem entry_checks 256 b h entries in
    ground arith
