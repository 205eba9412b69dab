-- ===== src/Unwrapper/Tests.antt =====
-- Runs of the unwrapper.
use lmp.Prelude.{◌≡◌, [], ◌∷◌, arith}
use lmp.Prelude.Int.{pos}
use lmp.Unwrapper.{init_unwrapper16, init_unwrapper32, wrap_uint16, wrap_uint32}
use lmp.Unwrapper.Tracks.{wrap_each, wrap_each-wrap_uint16, wrap_each-wrap_uint32}

wrap_each-wrap_uint16_example :
    wrap_each wrap_uint16 init_unwrapper16 (30000 ∷ 60000 ∷ 14464 ∷ 60000 ∷ [])
    ≡ (pos 30000 ∷ pos 60000 ∷ pos 80000 ∷ pos 60000 ∷ [])
wrap_each-wrap_uint16_example = wrap_each-wrap_uint16 2 0 (30000 ∷ 60000 ∷ 80000 ∷ 60000 ∷ []) (
  (omega arith, omega arith),
  ((omega arith, omega arith), ((omega arith, omega arith), ((omega arith, omega arith), tt))),
)

wrap_each-wrap_uint32_example :
    wrap_each wrap_uint32 init_unwrapper32 (2000000000 ∷ 4000000000 ∷ 5032704 ∷ 4294967290 ∷ [])
    ≡ (pos 2000000000 ∷ pos 4000000000 ∷ pos 4300000000 ∷ pos 4294967290 ∷ [])
wrap_each-wrap_uint32_example =
    wrap_each-wrap_uint32 4 0 (2000000000 ∷ 4000000000 ∷ 4300000000 ∷ 4294967290 ∷ []) (
      (omega arith, omega arith),
      ((omega arith, omega arith), ((omega arith, omega arith), ((omega arith, omega arith), tt))),
    )
