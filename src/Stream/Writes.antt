-- ===== src/Stream/Writes.antt =====
-- What an encoder does to a stream, as the bytes that it appends.
use lmp.Prelude.{
  ℕ, ◌+◌, ◌%◌, ◌^◌, ◌≤◌, ◌≡◌, refl, ◌∙◌, sym, ap, List, [], ◌++◌, arith, length, length-append,
  append_assoc, append-nil,
}
use lmp.Stream.{Stream}
use lmp.Stream.Bytes.{put_1, put_2, put_4, put_8}
use lmp.Stream.Buffer.{take-blit, length-blit}
use lmp.Stream.Valid.{IsValid, written, Grown, resize-Grown}
use lmp.Stream.Write.{
  Writer, ◌>>◌, reserve, store, write_uint8, write_uint16, write_uint32, write_uint64, write_int8,
  write_int16, write_int32, write_int64, write_data, write_block,
}

-- The stream `t` is `s` with `bytes` appended: valid, and read as far as before.
pub record Appended (s : Stream) (bytes : List ℕ) (t : Stream) : Type 0 where
  pub valid : IsValid t
  pub rsize_same : t.rsize ≡ s.rsize
  pub appended : written t ≡ written s ++ bytes
  pub used_more : t.used ≡ s.used + length bytes

-- The writer `w` appends `bytes` to every valid stream.
pub record Writes (w : Writer) (bytes : List ℕ) : Type 0 where
  pub at : (s : Stream) → IsValid s → Appended s bytes (w s)

pub reserve-Grown : {s : Stream} (n : ℕ) → IsValid s → Grown s (s.used + n) (reserve n s)
unfolding reserve
reserve-Grown {s} n v = ground (arith, resize-Grown (s.used + n) v)

store-Appended :
    {s : Stream} (bytes : List ℕ)
    → IsValid s
    → s.used + length bytes ≤ s.size
    → Appended s bytes (store bytes s)
unfolding store
store-Appended {s} bytes v h =
    ground (arith, length-blit s.buf s.wptr bytes, take-blit s.buf s.wptr bytes)

store-reserve-Appended :
    (n : ℕ) (bytes : List ℕ) (s : Stream)
    → IsValid s
    → length bytes ≤ n
    → Appended s bytes (store bytes (reserve n s))
store-reserve-Appended n bytes s v h =
    let g = reserve-Grown n v in
    let a = store-Appended bytes g.valid (omega (arith, g.enough, g.used_same)) in
    record {
      valid = a.valid;
      rsize_same = a.rsize_same ∙ g.rsize_same;
      appended = a.appended ∙ ap (λ k. k ++ bytes) g.written_same;
      used_more = omega (arith, a.used_more, g.used_same);
    }

pub Writes-seq :
    {v w : Writer} {xs ys : List ℕ} → Writes v xs → Writes w ys → Writes (v >> w) (xs ++ ys)
Writes-seq {v} {w} {xs} {ys} a b = record {
  at = λ s h.
      let p = a.at s h in
      let q = b.at (v s) p.valid in
      record {
        valid = q.valid;
        rsize_same = q.rsize_same ∙ p.rsize_same;
        appended = q.appended ∙ ap (λ k. k ++ ys) p.appended ∙ append_assoc (written s) xs ys;
        used_more = omega (arith, p.used_more, q.used_more, length-append xs ys);
      };
}

pub Writes-uint8 : (n : ℕ) → Writes (write_uint8 n) (put_1 n)
unfolding write_uint8 put_1
Writes-uint8 n = record { at = λ s v. store-reserve-Appended 1 (put_1 n) s v (omega arith) }

pub Writes-uint16 : (n : ℕ) → Writes (write_uint16 n) (put_2 n)
unfolding write_uint16 put_2
Writes-uint16 n = record { at = λ s v. store-reserve-Appended 2 (put_2 n) s v (omega arith) }

pub Writes-uint32 : (n : ℕ) → Writes (write_uint32 n) (put_4 n)
unfolding write_uint32 put_4
Writes-uint32 n = record { at = λ s v. store-reserve-Appended 4 (put_4 n) s v (omega arith) }

pub Writes-uint64 : (n : ℕ) → Writes (write_uint64 n) (put_8 n)
unfolding write_uint64 put_8
Writes-uint64 n = record { at = λ s v. store-reserve-Appended 8 (put_8 n) s v (omega arith) }

pub Writes-int8 : (n : ℕ) → Writes (write_int8 n) (put_1 n)
unfolding write_int8 put_1
Writes-int8 n = record { at = λ s v. store-reserve-Appended 1 (put_1 n) s v (omega arith) }

pub Writes-int16 : (n : ℕ) → Writes (write_int16 n) (put_2 (n % 2 ^ 16))
unfolding write_int16 put_2
Writes-int16 n = record {
  at = λ s v. store-reserve-Appended 2 (put_2 (n % 2 ^ 16)) s v (omega arith);
}

pub Writes-int32 : (n : ℕ) → Writes (write_int32 n) (put_4 (n % 2 ^ 32))
unfolding write_int32 put_4
Writes-int32 n = record {
  at = λ s v. store-reserve-Appended 4 (put_4 (n % 2 ^ 32)) s v (omega arith);
}

pub Writes-int64 : (n : ℕ) → Writes (write_int64 n) (put_8 (n % 2 ^ 64))
unfolding write_int64 put_8
Writes-int64 n = record {
  at = λ s v. store-reserve-Appended 8 (put_8 (n % 2 ^ 64)) s v (omega arith);
}

pub Writes-block : (str : List ℕ) → Writes (write_block str) str
unfolding write_block
Writes-block str = record { at = λ s v. store-reserve-Appended (length str) str s v (omega arith) }

reserve_id : (n : ℕ) (s : Stream) → s.used + n ≤ s.size → reserve n s ≡ s
unfolding reserve
reserve_id n s h = ground arith

-- A length of 16 bits, and the bytes.
unfoldable pub put_data : List ℕ → List ℕ
put_data str = put_2 (length str % 2 ^ 16) ++ str

pub Writes-data : (str : List ℕ) → Writes (write_data str) (put_data str)
unfolding write_data write_uint16 put_data put_2 store
Writes-data str = record {
  at = λ s v.
      let g = reserve-Grown (length str + 2) v in
      let roomy = reserve (length str + 2) s in
      let enough : roomy.used + (length str + 2) ≤ roomy.size =
        omega (arith, g.enough, g.used_same) in
      let p = store-Appended (put_2 (length str % 2 ^ 16)) g.valid (omega arith) in
      let q = store-Appended str p.valid (omega (arith, p.used_more)) in
      rw (reserve_id 2 roomy (omega arith)) (record {
        valid = q.valid;
        rsize_same = q.rsize_same ∙ p.rsize_same ∙ g.rsize_same;
        appended =
            q.appended
            ∙ ap (λ k. k ++ str)
                (p.appended ∙ ap (λ k. k ++ put_2 (length str % 2 ^ 16)) g.written_same)
            ∙ append_assoc (written s) (put_2 (length str % 2 ^ 16)) str;
        used_more = omega (arith, q.used_more, p.used_more, g.used_same);
      });
}

pub Writes-nothing : Writes (λ s. s) []
Writes-nothing = record {
  at = λ s v. record {
    valid = v;
    rsize_same = refl;
    appended = sym (append-nil (written s));
    used_more = omega arith;
  };
}
