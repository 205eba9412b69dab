-- ===== src/Stream/Reads.antt =====
-- What a decoder finds in a stream, as the bytes that it consumes.
use lmp.Prelude.{
  ℕ, ◌+◌, ◌-◌, ◌%◌, ◌^◌, ◌≤◌, ◌<◌, ◌≡◌, refl, ◌∙◌, ap, some, List, [], ◌++◌, arith, length,
  length-append, length-take, length-drop, take, drop, append_assoc, append-nil,
}
use lmp.Stream.{Stream}
use lmp.Stream.Bytes.{put_1, put_2, put_4, put_8, get_1, get_2, get_4, get_8}
use lmp.Stream.Buffer.{take-take, drop-take, drop-add, take-append, drop-append}
use lmp.Stream.Valid.{IsReadable, unread}
use lmp.Stream.Writes.{put_data}
use lmp.Stream.Read.{
  Reader, ◌>>=◌, pure, front, advance, read, read_uint8, read_uint16, read_uint32, read_uint64,
  read_int8, read_int16, read_int32, read_int64, copy_data, read_data, read_block,
}

-- The call returned `a`, and left `rest` to be read of the same bytes.
pub record Consumed {A : Type 0} (rest : List ℕ) (a : A) (r : A × Stream) : Type 0 where
  pub value : r.0 ≡ a
  pub readable : IsReadable r.1
  pub left : unread r.1 ≡ rest

-- The reader `m` consumes `bytes` wherever they come next, and yields `a`.
pub record Reads {A : Type 0} (m : Reader A) (bytes : List ℕ) (a : A) : Type 0 where
  pub at :
      (s : Stream) (rest : List ℕ) → IsReadable s → unread s ≡ bytes ++ rest → Consumed rest a (m s)

front-unread :
    {s : Stream} (n : ℕ) → IsReadable s → n ≤ length (unread s) → front n s ≡ take n (unread s)
front-unread {s} n v h = ground (
  arith,
  drop-take s.rsize s.used s.buf,
  length-take (s.used - s.rsize) (drop s.rsize s.buf),
  take-take n (s.used - s.rsize) (drop s.rsize s.buf),
)

advance-IsReadable :
    {s : Stream} (bytes rest : List ℕ)
    → IsReadable s
    → unread s ≡ bytes ++ rest
    → IsReadable (advance (length bytes) s)
      × (unread (advance (length bytes) s) ≡ rest)
      × (front (length bytes) s ≡ bytes)
      × (s.rsize + length bytes ≤ s.used)
advance-IsReadable {s} bytes rest v e =
    let long : length bytes ≤ length (unread s) =
      omega (arith, ap length e, length-append bytes rest) in
    let inside : s.rsize + length bytes ≤ s.used =
      omega (arith, length-drop s.rsize (take s.used s.buf), length-take s.used s.buf) in
    (
      omega arith,
      drop-add s.rsize (length bytes) (take s.used s.buf)
          ∙ ap (drop (length bytes)) e
          ∙ drop-append bytes rest,
      front-unread (length bytes) v long ∙ ap (take (length bytes)) e ∙ take-append bytes rest,
      inside,
    )

read-Consumed :
    (get : List ℕ → ℕ) (s : Stream) (bytes rest : List ℕ)
    → IsReadable s
    → unread s ≡ bytes ++ rest
    → Consumed rest (get bytes) (read (length bytes) get s)
unfolding read
read-Consumed get s bytes rest v e =
    let (a, b, c, d) = advance-IsReadable bytes rest v e in ground arith

Reads-read :
    (get : List ℕ → ℕ) (bytes : List ℕ) {a : ℕ}
    → get bytes ≡ a
    → Reads (read (length bytes) get) bytes a
Reads-read get bytes {a} h = record {
  at = λ s rest v e. rw (← h) (read-Consumed get s bytes rest v e);
}

pub Reads-uint8 : {n : ℕ} → n < 2 ^ 8 → Reads read_uint8 (put_1 n) n
unfolding read_uint8 put_1 get_1
Reads-uint8 {n} h = Reads-read get_1 (put_1 n) (omega arith)

pub Reads-uint16 : {n : ℕ} → n < 2 ^ 16 → Reads read_uint16 (put_2 n) n
unfolding read_uint16 put_2 get_2
Reads-uint16 {n} h = Reads-read get_2 (put_2 n) (omega arith)

pub Reads-uint32 : {n : ℕ} → n < 2 ^ 32 → Reads read_uint32 (put_4 n) n
unfolding read_uint32 put_4 get_4
Reads-uint32 {n} h = Reads-read get_4 (put_4 n) (omega arith)

pub Reads-uint64 : {n : ℕ} → n < 2 ^ 64 → Reads read_uint64 (put_8 n) n
unfolding read_uint64 put_8 get_8
Reads-uint64 {n} h = Reads-read get_8 (put_8 n) (omega arith)

pub Reads-int8 : {n : ℕ} → n < 2 ^ 8 → Reads read_int8 (put_1 n) n
unfolding read_int8 put_1 get_1
Reads-int8 {n} h = Reads-read get_1 (put_1 n) (omega arith)

pub Reads-int16 : {n : ℕ} → n < 2 ^ 16 → Reads read_int16 (put_2 n) n
unfolding read_int16 put_2 get_2
Reads-int16 {n} h = Reads-read get_2 (put_2 n) (omega arith)

pub Reads-int32 : {n : ℕ} → n < 2 ^ 32 → Reads read_int32 (put_4 n) n
unfolding read_int32 put_4 get_4
Reads-int32 {n} h = Reads-read get_4 (put_4 n) (omega arith)

pub Reads-int64 : {n : ℕ} → n < 2 ^ 64 → Reads read_int64 (put_8 n) n
unfolding read_int64 put_8 get_8
Reads-int64 {n} h = Reads-read get_8 (put_8 n) (omega arith)

pub Reads-pure : {A : Type 0} (a : A) → Reads (pure a) [] a
unfolding pure
Reads-pure a = record { at = λ s rest v e. record { value = refl; readable = v; left = e } }

pub Reads-bind :
    {A B : Type 0} {m : Reader A} (f : A → Reader B) {xs ys : List ℕ} {a : A} {b : B}
    → Reads m xs a
    → Reads (f a) ys b
    → Reads (m >>= f) (xs ++ ys) b
unfolding ◌>>=◌
Reads-bind {m} f {xs} {ys} p q = record {
  at = λ s rest v e.
      let c = p.at s (ys ++ rest) v (e ∙ append_assoc xs ys rest) in
      rw c.value (q.at (m s).1 rest c.readable c.left);
}

-- The last value read may be changed on its way out.
pub Reads-last :
    {A B : Type 0} {m : Reader A} (f : A → Reader B) {xs : List ℕ} {a : A} {b : B}
    → Reads m xs a
    → Reads (f a) [] b
    → Reads (m >>= f) xs b
Reads-last f {xs} p q = rw (append-nil xs) at (Reads-bind f p q)

copy_data-Reads :
    (size : ℕ) (str : List ℕ)
    → length str ≤ size
    → Reads (copy_data size (length str)) str (some str)
unfolding copy_data
copy_data-Reads size str h = record {
  at = λ s rest v e. let (a, b, c, d) = advance-IsReadable str rest v e in ground arith;
}

pub Reads-data :
    {size : ℕ} (str : List ℕ)
    → length str ≤ size
    → length str < 2 ^ 16
    → Reads (read_data size) (put_data str) (some str)
unfolding read_data put_data
Reads-data {size} str h k =
    Reads-bind (copy_data size) (rw lower (Reads-uint16 k)) (copy_data-Reads size str h)
  where
    lower : length str % 2 ^ 16 ≡ length str
    lower = omega arith

pub Reads-block : (str : List ℕ) → Reads (read_block (length str)) str (some str)
unfolding read_block
Reads-block str = record {
  at = λ s rest v e. let (a, b, c, d) = advance-IsReadable str rest v e in ground arith;
}

pub Reads-pure-eq : {A : Type 0} {a b : A} → a ≡ b → Reads (pure a) [] b
Reads-pure-eq {a} e = rw (← e) (Reads-pure a)
