-- ===== src/Hex/Tests.antt =====
-- Three bytes to digits and back.
use lmp.Prelude.{◌≡◌, List, [], ◌∷◌, ℕ, take, replicate, arith}
use lmp.Hex.{wb_bin2asc, wb_asc2bin}
use lmp.Hex.Tables.{read_back}
use lmp.Hex.RoundTrip.{wb_asc2bin-wb_bin2asc}

abbrev three : List ℕ
three = 0x00 ∷ 0xba ∷ 0xff ∷ []

wb_asc2bin-wb_bin2asc_example :
    wb_asc2bin (take 6 (wb_bin2asc three (replicate 8 1))) (replicate 4 7)
    ≡ (0x00 ∷ 0x0a ∷ 0xff ∷ 7 ∷ [], 3)
unfolding read_back
wb_asc2bin-wb_bin2asc_example =
    wb_asc2bin-wb_bin2asc three (replicate 8 1) (replicate 4 7)
      (omega arith, (omega arith, (omega arith, tt))) (omega arith) (omega arith) (omega arith)
