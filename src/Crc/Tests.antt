-- ===== src/Crc/Tests.antt =====
-- Runs and instances for common/cf_crc32.c.
use lmp.Prelude.{◌≢◌, ◌≡◌, refl, [], ◌∷◌, ◌++◌, arith}
use lmp.Crc.{crc32}
use lmp.Crc.Detect.{crc32_tells}
use lmp.Crc.Reference.{bitwise_crc32, crc32-bitwise}

-- The check value of CRC-32: the checksum of the text "123456789".
check_value :
    crc32 0 (0x31 ∷ 0x32 ∷ 0x33 ∷ 0x34 ∷ 0x35 ∷ 0x36 ∷ 0x37 ∷ 0x38 ∷ 0x39 ∷ []) ≡ 0xcbf43926
unfolding crc32
check_value = refl

crc32-bitwise_example : crc32 0x0e3dfc0a (1 ∷ 255 ∷ []) ≡ bitwise_crc32 0x0e3dfc0a (1 ∷ 255 ∷ [])
crc32-bitwise_example = crc32-bitwise 0x0e3dfc0a (1 ∷ 255 ∷ []) (omega arith)

crc32_tells_example : crc32 7 ((1 ∷ []) ++ 5 ∷ 9 ∷ []) ≢ crc32 7 ((1 ∷ []) ++ 6 ∷ 9 ∷ [])
crc32_tells_example =
    crc32_tells 7 5 6 (1 ∷ []) (9 ∷ []) (omega arith) (omega arith) (omega arith) (omega arith)
      (omega arith)
