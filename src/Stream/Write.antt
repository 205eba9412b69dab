-- ===== src/Stream/Write.antt =====
-- common/cf_stream.c, `mach_*_write`: each makes room, stores at `wptr` and moves it on.
-- An encoder is the list of its statements, each a function on the stream.
use lmp.Prelude.{ℕ, ◌+◌, ◌%◌, ◌^◌, List, ltb, if◌then◌else◌, length}
use lmp.Stream.{Stream, resize, blit}
use lmp.Stream.Bytes.{put_1, put_2, put_4, put_8}

abbrev pub Writer : Type 0
Writer = Stream → Stream

-- One statement after another.
infixl 5 ◌>>◌
abbrev pub ◌>>◌ : Writer → Writer → Writer
◌>>◌ v w s = w (v s)

-- The macro `RESIZE(n)`.
unfoldable pub reserve : ℕ → Writer
reserve n s = if ltb s.size (s.used + n) then resize s (s.used + n) else s

-- What follows it in every writer: store the bytes at `wptr` and advance.
unfoldable pub store : List ℕ → Writer
store bytes s = record s {
  buf = blit s.buf s.wptr bytes;
  wptr = s.wptr + length bytes;
  used = s.used + length bytes;
}

unfoldable pub write_uint8 : ℕ → Writer
write_uint8 val = do reserve 1; store (put_1 val)

unfoldable pub write_uint16 : ℕ → Writer
write_uint16 val = do reserve 2; store (put_2 val)

unfoldable pub write_uint32 : ℕ → Writer
write_uint32 val = do reserve 4; store (put_4 val)

unfoldable pub write_uint64 : ℕ → Writer
write_uint64 val = do reserve 8; store (put_8 val)

-- `int8_t` to `int64_t` are bit patterns: the writers cast to the unsigned type first.
unfoldable pub write_int8 : ℕ → Writer
write_int8 val = do reserve 1; store (put_1 val)

unfoldable pub write_int16 : ℕ → Writer
write_int16 val = do reserve 2; store (put_2 (val % 2 ^ 16))

unfoldable pub write_int32 : ℕ → Writer
write_int32 val = do reserve 4; store (put_4 (val % 2 ^ 32))

unfoldable pub write_int64 : ℕ → Writer
write_int64 val = do reserve 8; store (put_8 (val % 2 ^ 64))

-- `mach_data_write`: a 16-bit length and the bytes.
unfoldable pub write_data : List ℕ → Writer
write_data str = do reserve (length str + 2); write_uint16 (length str % 2 ^ 16); store str

-- `mach_block_write`
unfoldable pub write_block : List ℕ → Writer
write_block str = do reserve (length str); store str
