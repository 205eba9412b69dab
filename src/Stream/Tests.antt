-- ===== src/Stream/Tests.antt =====
-- Runs and instances for common/cf_stream.c.
use lmp.Prelude.{◌≡◌, refl, [], ◌∷◌, arith}
use lmp.Stream.{blit, Stream, grow, resize, move}
use lmp.Stream.Valid.{IsValid, unread, Grown, resize-Grown, unread-move}

-- Ten bytes, of which eight were written and six read.
abbrev half_read : Stream
half_read = record {
  buf = 1 ∷ 2 ∷ 3 ∷ 4 ∷ 5 ∷ 6 ∷ 7 ∷ 8 ∷ 0 ∷ 0 ∷ [];
  size = 10;
  rptr = 6;
  rsize = 6;
  wptr = 8;
  used = 8;
  magic = 0;
}

half_read-IsValid : IsValid half_read
half_read-IsValid = omega arith

grow_run : grow 100 3 25 ≡ 48
unfolding grow
grow_run = refl

move_run : (move half_read).buf ≡ 7 ∷ 8 ∷ 3 ∷ 4 ∷ 5 ∷ 6 ∷ 7 ∷ 8 ∷ 0 ∷ 0 ∷ []
unfolding move blit
move_run = refl

resize-Grown_example : Grown half_read 25 (resize half_read 25)
resize-Grown_example = resize-Grown 25 half_read-IsValid

unread-move_example : unread (move half_read) ≡ 7 ∷ 8 ∷ []
unread-move_example = unread-move (omega arith) half_read-IsValid
