-- ===== src/Stream/Valid.antt =====
-- The invariant of a stream, kept by every operation of common/cf_stream.c.
use lmp.Prelude.{
  ℕ, zero, suc, ◌+◌, ◌-◌, ◌*◌, ◌%◌, ◌^◌, ◌≤◌, ◌<◌, ◌≡◌, refl, ◌∙◌, Bool, some, List, arith, length,
  take, drop, length-replicate, length-take, length-drop,
}
use lmp.Stream.{
  Stream, default_packet_size, init, rewind, grow, resize, reduce, reset, move, move_read_all,
  move_down,
}
use lmp.Stream.Buffer.{length-realloc, take-realloc, length-blit, take-blit, drop-take}

-- What reading relies on: the counters lie within the buffer.
pub record IsReadable (s : Stream) : Type 0 where
  pub sized : length s.buf ≡ s.size
  pub fits : s.used ≤ s.size
  pub read_in : s.rsize ≤ s.used
  pub rptr_at : s.rptr ≡ s.rsize

-- What writing relies on besides: there is a buffer, and `wptr` stands at its used end.
pub record IsValid (s : Stream) : Type 0 where
  pub sized : length s.buf ≡ s.size
  pub fits : s.used ≤ s.size
  pub read_in : s.rsize ≤ s.used
  pub rptr_at : s.rptr ≡ s.rsize
  pub room : 0 < s.size
  pub wptr_at : s.wptr ≡ s.used

pub IsValid-IsReadable : {s : Stream} → IsValid s → IsReadable s
IsValid-IsReadable v = omega arith

-- The bytes written, and those of them that are still to be read.
abbrev pub written : Stream → List ℕ
written s = take s.used s.buf

abbrev pub unread : Stream → List ℕ
unread s = drop s.rsize (written s)

pub grow_enough :
    (fuel alloc new : ℕ)
    → 0 < alloc
    → new ≤ fuel + alloc
    → (new ≤ grow fuel alloc new) × (alloc ≤ grow fuel alloc new)
unfolding grow
grow_enough zero alloc new h k = omega arith
grow_enough (suc fuel) alloc new h k = ground (arith, grow_enough fuel (alloc * 2) new)

grow_stop : (fuel alloc new : ℕ) → new ≤ alloc → grow fuel alloc new ≡ alloc
unfolding grow
grow_stop zero alloc new h = refl
grow_stop (suc fuel) alloc new h = ground arith

pub grow_tight : (fuel alloc new : ℕ) → alloc < new → grow fuel alloc new < new * 2
unfolding grow
grow_tight zero alloc new h = omega arith
grow_tight (suc fuel) alloc new h =
    ground (arith, grow_tight fuel (alloc * 2) new, grow_stop fuel (alloc * 2) new)

-- From a size that is not 0 and is less than what is asked for, the doubling loop of
-- `bin_stream_resize`, on the fuel that it is given, ends with a size that holds what was asked
-- for and is less than twice that.
pub grow_lem :
    (alloc new : ℕ)
    → 0 < alloc
    → alloc < new
    → (new ≤ grow new alloc new) × (grow new alloc new < new * 2)
grow_lem alloc new h k = ((grow_enough new alloc new h (omega arith)).0, grow_tight new alloc new k)

pub init-IsValid : {s : Stream} (allocated : Bool) → init allocated ≡ some s → IsValid s
unfolding init
init-IsValid allocated e = ground (arith, length-replicate {A = ℕ} default_packet_size 0)

pub rewind-IsValid : {s : Stream} (flag : ℕ) → IsValid s → IsValid (rewind s flag)
unfolding rewind
rewind-IsValid flag v = ground arith

-- What growing the buffer leaves as it was.
pub record Grown (s : Stream) (n : ℕ) (t : Stream) : Type 0 where
  pub valid : IsValid t
  pub enough : n ≤ t.size
  pub used_same : t.used ≡ s.used
  pub rsize_same : t.rsize ≡ s.rsize
  pub written_same : written t ≡ written s

-- Of a valid stream, resize gives a valid stream of at least the size asked for, with the same
-- bytes written and the same counters.
pub resize-Grown : {s : Stream} (n : ℕ) → IsValid s → Grown s n (resize s n)
unfolding resize
resize-Grown {s} n v = ground (
  arith,
  grow_enough n s.size n,
  length-realloc (grow n s.size n) s.buf,
  take-realloc s.used (grow n s.size n) s.buf,
)

pub reduce-IsValid : {s : Stream} → IsValid s → IsValid (reduce s)
unfolding reduce
reduce-IsValid {s} v = ground (arith, length-realloc default_packet_size s.buf)

pub reset-IsValid : {s : Stream} (flag : ℕ) → IsValid s → IsValid (reset s flag)
unfolding reset
reset-IsValid {s} flag v = ground (arith, length-realloc default_packet_size s.buf)

size-move_read_all : (s : Stream) → (move_read_all s).size ≡ s.size
unfolding move_read_all
size-move_read_all s = ground arith

move_read_all-IsValid : {s : Stream} → IsValid s → IsValid (move_read_all s)
unfolding move_read_all
move_read_all-IsValid v = ground arith

move_down-IsValid : {s : Stream} → s.size < 2 ^ 32 → IsValid s → IsValid (move_down s)
unfolding move_down
move_down-IsValid {s} small v =
    ground (arith, length-blit s.buf 0 (take ((s.used - s.rsize) % 2 ^ 32) (drop s.rptr s.buf)))

-- `bin_stream_move` keeps the invariant.
pub move-IsValid : {s : Stream} → s.size < 2 ^ 32 → IsValid s → IsValid (move s)
unfolding move
move-IsValid {s} small v =
    move_down-IsValid {s = move_read_all s} (rw (size-move_read_all s) small)
      (move_read_all-IsValid v)

unread-move_read_all : {s : Stream} → IsValid s → unread (move_read_all s) ≡ unread s
unfolding move_read_all
unread-move_read_all {s} v = ground (arith, drop-take s.rsize s.used s.buf)

unread-move_down : {s : Stream} → s.size < 2 ^ 32 → IsValid s → unread (move_down s) ≡ unread s
unfolding move_down
unread-move_down {s} small v =
    let moved = take ((s.used - s.rsize) % 2 ^ 32) (drop s.rptr s.buf) in
    ground (
      arith,
      drop-take s.rsize s.used s.buf,
      take-blit s.buf 0 moved,
      length-take ((s.used - s.rsize) % 2 ^ 32) (drop s.rptr s.buf),
      length-drop s.rptr s.buf,
    )

-- In a valid stream smaller than 2 ^ 32 bytes, move leaves the bytes that are still to be read as
-- they were.
pub unread-move : {s : Stream} → s.size < 2 ^ 32 → IsValid s → unread (move s) ≡ unread s
unfolding move
unread-move {s} small v =
    unread-move_down {s = move_read_all s} (rw (size-move_read_all s) small)
      (move_read_all-IsValid v)
    ∙ unread-move_read_all v
