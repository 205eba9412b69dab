-- ===== src/Stream.antt =====
-- common/cf_stream.c: the growing byte buffer that messages are written into and read from.
pub mod Bytes
pub mod Write
pub mod Read
pub mod Valid
mod Tests
pub mod Buffer
pub mod Writes
pub mod Reads
use lmp.Prelude.{
  ℕ, zero, suc, ◌+◌, ◌-◌, ◌*◌, ◌/◌, ◌%◌, ◌^◌, Bool, true, false, Option, none, some, List, [], ◌∷◌,
  ◌++◌, ltb, leb, ◌==◌, ◌&&◌, if◌then◌else◌, length, take, drop, replicate,
}

-- `bin_stream_t`. The pointers `rptr` and `wptr` are offsets from `data`, whose bytes are `buf`.
-- Sizes of a buffer in memory stay far below 2 ^ 64, so `size_t` sums are sums of numbers.
pub record Stream : Type 0 where
  pub buf : List ℕ
  pub size : ℕ
  pub rptr : ℕ
  pub rsize : ℕ
  pub wptr : ℕ
  pub used : ℕ
  pub magic : ℕ

abbrev pub default_packet_size : ℕ
default_packet_size = 1024

abbrev pub bin_stream_magic : ℕ
bin_stream_magic = 0x019ef8f09867cda6

-- The bytes that `malloc` and `realloc` leave indeterminate read as 0 here; nothing reads them.
abbrev pub realloc : List ℕ → ℕ → List ℕ
realloc buf n = take n buf ++ replicate (n - length buf) 0

-- `memcpy` of `bytes` to offset `off`: what falls past the end of the buffer is lost.
pub blit : List ℕ → ℕ → List ℕ → List ℕ
blit [] off bytes = []
blit (x ∷ xs) (suc off) bytes = x ∷ blit xs off bytes
blit (x ∷ xs) zero [] = x ∷ xs
blit (x ∷ xs) zero (b ∷ bytes) = b ∷ blit xs zero bytes

-- `bin_stream_init`; the argument says whether `malloc` succeeded.
unfoldable pub init : Bool → Option Stream
init allocated =
    if allocated
    then some (record {
      buf = replicate default_packet_size 0;
      size = default_packet_size;
      rptr = 0;
      rsize = 0;
      wptr = 0;
      used = 0;
      magic = 0;
    })
    else none

-- `bin_stream_destroy`
pub destroy : Stream → Stream
destroy s = record s { buf = []; size = 0; rptr = 0; rsize = 0; wptr = 0; used = 0 }

-- `bin_stream_rewind`
unfoldable pub rewind : Stream → ℕ → Stream
rewind s reset =
    let t : Stream = if reset == 1 then record s { wptr = 0; used = 0 } else s in
    record t { rptr = 0; rsize = 0 }

-- The loop `while (new_size > alloc_size) alloc_size = alloc_size * 2;` on fuel.
pub grow : ℕ → ℕ → ℕ → ℕ
grow zero alloc_size new_size = alloc_size
grow (suc fuel) alloc_size new_size =
    let rest = grow fuel (alloc_size * 2) new_size in
    if ltb alloc_size new_size then rest else alloc_size

-- `bin_stream_resize`
unfoldable pub resize : Stream → ℕ → Stream
unfolding grow
resize s new_size =
    if leb new_size s.size
    then s
    else let alloc_size = grow new_size s.size new_size in
      record s { buf = realloc s.buf alloc_size; size = alloc_size; wptr = s.used; rptr = s.rsize }

-- `bin_stream_set_used_size`
pub set_used_size : Stream → ℕ → Stream
set_used_size s used = record s { used = used }

-- `bin_stream_reduce`
pub reduce : Stream → Stream
reduce s =
    if ltb (default_packet_size * 2) s.size
    then record s {
      buf = realloc s.buf default_packet_size;
      rptr = 0;
      wptr = 0;
      size = default_packet_size;
      rsize = 0;
      used = 0;
    }
    else s

-- `bin_stream_reset`
pub reset : Stream → ℕ → Stream
unfolding reduce rewind
reset s flag = reduce (rewind (record s { magic = if flag == 1 then bin_stream_magic else 0 }) 1)

-- `bin_stream_check`: does it return 0?
pub check : Stream → Bool
check s = s.magic == bin_stream_magic

-- `bin_stream_available_read`
pub available_read : Stream → ℕ
available_read s = s.used - s.rsize

-- The two tests of `bin_stream_move`, in turn.
move_read_all : Stream → Stream
move_read_all s =
    if (s.used == s.rsize) && ltb 0 s.rsize
    then record s { rptr = 0; wptr = 0; used = 0; rsize = 0 }
    else s

move_down : Stream → Stream
move_down s =
    if ltb s.rsize s.used && (ltb (s.size / 2) s.rsize && leb s.size (s.used + 256))
    then (let size = (s.used - s.rsize) % 2 ^ 32 in
        record s {
          buf = blit s.buf 0 (take size (drop s.rptr s.buf));
          wptr = size;
          rptr = 0;
          rsize = 0;
          used = size;
        })
    else s

-- `bin_stream_move`
pub move : Stream → Stream
unfolding move_read_all move_down
move s = move_down (move_read_all s)
