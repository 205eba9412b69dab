-- ===== src/Stream/Buffer.antt =====
-- Facts about the bytes of a buffer, for common/cf_stream.c.
use lmp.Prelude.{
  ℕ, zero, suc, ◌+◌, ◌-◌, ◌≤◌, ◌≡◌, refl, ap, ◌∙◌, List, [], ◌∷◌, ◌++◌, arith, length, take, drop,
  replicate, length-append, length-take, length-replicate,
}
use Prim.Native.Nat.add
use lmp.Stream.{blit, realloc}

pub length-blit :
    (buf : List ℕ) (off : ℕ) (bytes : List ℕ) → length (blit buf off bytes) ≡ length buf
unfolding blit
length-blit [] off bytes = refl
length-blit (x ∷ xs) (suc off) bytes = ap suc (length-blit xs off bytes)
length-blit (x ∷ xs) zero [] = refl
length-blit (x ∷ xs) zero (b ∷ bytes) = ap suc (length-blit xs zero bytes)

-- Up to its end, a buffer that was written to at `off` is its old start and the new bytes.
pub take-blit :
    (buf : List ℕ) (off : ℕ) (bytes : List ℕ)
    → off + length bytes ≤ length buf
    → take (off + length bytes) (blit buf off bytes) ≡ take off buf ++ bytes
unfolding blit
take-blit [] zero [] h = refl
take-blit [] zero (b ∷ bytes) h = absurd (omega arith)
take-blit [] (suc off) bytes h = absurd (omega arith)
take-blit (x ∷ xs) (suc off) bytes h =
    rw add.suc (ap (◌∷◌ x) (take-blit xs off bytes (omega arith)))
take-blit (x ∷ xs) zero [] h = refl
take-blit (x ∷ xs) zero (b ∷ bytes) h =
    rw add.zero (ap (◌∷◌ b) (rw add.zero at (take-blit xs 0 bytes (omega arith))))

pub take-append_left {ℓ} :
    {A : Type ℓ} (n : ℕ) (xs ys : List A) → n ≤ length xs → take n (xs ++ ys) ≡ take n xs
take-append_left zero xs ys h = refl
take-append_left (suc n) [] ys h = absurd (omega arith)
take-append_left (suc n) (x ∷ xs) ys h = ap (◌∷◌ x) (take-append_left n xs ys (omega arith))

pub take-nil {ℓ} : {A : Type ℓ} (n : ℕ) → take {A = A} n [] ≡ []
take-nil zero = refl
take-nil (suc n) = refl

pub take-take {ℓ} : {A : Type ℓ} (n m : ℕ) (xs : List A) → n ≤ m → take n (take m xs) ≡ take n xs
take-take zero m xs h = refl
take-take (suc n) zero xs h = absurd (omega arith)
take-take (suc n) (suc m) [] h = refl
take-take (suc n) (suc m) (x ∷ xs) h = ap (◌∷◌ x) (take-take n m xs (omega arith))

-- `realloc` keeps what fits.
pub take-realloc :
    (n m : ℕ) (buf : List ℕ) → n ≤ m → n ≤ length buf → take n (realloc buf m) ≡ take n buf
take-realloc n m buf h k =
    take-append_left n (take m buf) _ (omega (arith, length-take m buf)) ∙ take-take n m buf h

pub length-realloc : (m : ℕ) (buf : List ℕ) → length (realloc buf m) ≡ m
length-realloc m buf = omega (
  arith,
  length-append (take m buf) (replicate (m - length buf) 0),
  length-take m buf,
  length-replicate {A = ℕ} (m - length buf) 0,
)

pub drop-take {ℓ} :
    {A : Type ℓ} (k n : ℕ) (xs : List A) → k ≤ n → drop k (take n xs) ≡ take (n - k) (drop k xs)
drop-take zero n xs h = ap (λ m. take m xs) (omega arith)
drop-take (suc k) zero xs h = absurd (omega arith)
drop-take (suc k) (suc n) [] h = rw take-nil refl
drop-take (suc k) (suc n) (x ∷ xs) h =
    drop-take k n xs (omega arith) ∙ ap (λ m. take m (drop k xs)) (omega arith)

pub drop-add {ℓ} : {A : Type ℓ} (k n : ℕ) (xs : List A) → drop (k + n) xs ≡ drop n (drop k xs)
drop-add zero n xs = ap (λ m. drop m xs) (add.zero n)
drop-add (suc k) zero [] = rw add.suc refl
drop-add (suc k) (suc n) [] = rw add.suc refl
drop-add (suc k) n (x ∷ xs) = rw add.suc (drop-add k n xs)

pub take-append {ℓ} : {A : Type ℓ} (xs ys : List A) → take (length xs) (xs ++ ys) ≡ xs
take-append [] ys = refl
take-append (x ∷ xs) ys = ap (◌∷◌ x) (take-append xs ys)

pub drop-append {ℓ} : {A : Type ℓ} (xs ys : List A) → drop (length xs) (xs ++ ys) ≡ ys
drop-append [] ys = refl
drop-append (x ∷ xs) ys = drop-append xs ys
