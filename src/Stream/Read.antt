-- ===== src/Stream/Read.antt =====
-- common/cf_stream.c, `mach_*_read`: each yields 0 where too few bytes are left.
-- A decoder is a `do` block over these readers; a `void` reader yields what it stores.
use lmp.Prelude.{ℕ, ◌+◌, ◌||◌, Option, none, some, List, ltb, if◌then◌else◌, take, drop}
use lmp.Stream.{Stream}
use lmp.Stream.Bytes.{get_1, get_2, get_4, get_8}

abbrev pub Reader : Type 0 → Type 0
Reader A = Stream → A × Stream

infixl 5 ◌>>=◌
unfoldable pub ◌>>=◌ : {A B : Type 0} → Reader A → (A → Reader B) → Reader B
◌>>=◌ m f s = let (a, t) = m s in f a t

unfoldable pub pure : {A : Type 0} → A → Reader A
pure a s = (a, s)

abbrev pub read_data_error : ℕ
read_data_error = 0xffff

-- The bytes from `rptr` on.
abbrev pub front : ℕ → Stream → List ℕ
front n s = take n (drop s.rptr s.buf)

abbrev pub advance : ℕ → Stream → Stream
advance n s = record s { rptr = s.rptr + n; rsize = s.rsize + n }

-- The shape of every `mach_*_read`: the value is 0 if fewer than `n` bytes are left.
unfoldable pub read : ℕ → (List ℕ → ℕ) → Reader ℕ
read n get s = if ltb s.used (s.rsize + n) then (0, s) else (get (front n s), advance n s)

unfoldable pub read_uint8 : Reader ℕ
read_uint8 = read 1 get_1

unfoldable pub read_uint16 : Reader ℕ
read_uint16 = read 2 get_2

unfoldable pub read_uint32 : Reader ℕ
read_uint32 = read 4 get_4

unfoldable pub read_uint64 : Reader ℕ
read_uint64 = read 8 get_8

unfoldable pub read_int8 : Reader ℕ
read_int8 = read 1 get_1

unfoldable pub read_int16 : Reader ℕ
read_int16 = read 2 get_2

unfoldable pub read_int32 : Reader ℕ
read_int32 = read 4 get_4

unfoldable pub read_int64 : Reader ℕ
read_int64 = read 8 get_8

-- `mach_data_read` into a buffer of `size` bytes, after its length is read: the bytes copied, `none`
-- for READ_DATA_ERROR.
unfoldable pub copy_data : ℕ → ℕ → Reader (Option (List ℕ))
copy_data size len s =
    if ltb size len || ltb s.used (s.rsize + len)
    then (none, s)
    else (some (front len s), advance len s)

-- `mach_data_read`
unfoldable pub read_data : ℕ → Reader (Option (List ℕ))
read_data size = do len ← read_uint16; copy_data size len

-- `mach_block_read`: the bytes copied; what it returns is their number, in 16 bits.
unfoldable pub read_block : ℕ → Reader (Option (List ℕ))
read_block size s =
    if ltb s.used (s.rsize + size) then (none, s) else (some (front size s), advance size s)
