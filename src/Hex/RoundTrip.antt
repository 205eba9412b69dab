-- ===== src/Hex/RoundTrip.antt =====
-- common/cf_hex.c: what is read from the digits that were written.
use lmp.Prelude.{
  ℕ, ◌+◌, ◌*◌, ◌/◌, ◌%◌, ◌≤◌, ◌<◌, ◌≡◌, refl, ap, ◌∙◌, false, leb, ltb, ◌==◌, List, [], ◌∷◌, ◌++◌,
  length, take, drop, arith,
}
use lmp.Hex.{digits_of, bytes_of, wb_bin2asc, wb_asc2bin}
use lmp.Hex.Tables.{read_back, byte_of_entry}
use mathlib.Core.List.{map}

abbrev pub AreBytes : List ℕ → Type 0
AreBytes [] = Unit
AreBytes (b ∷ bytes) = (b < 256) × AreBytes bytes

length-digits_of : (bytes : List ℕ) → length (digits_of bytes) ≡ length bytes * 2
unfolding digits_of
length-digits_of [] = refl
length-digits_of (b ∷ bytes) = omega (arith, length-digits_of bytes)

bytes_of-digits_of :
    (bytes : List ℕ) → AreBytes bytes → bytes_of (digits_of bytes) ≡ map read_back bytes
unfolding bytes_of digits_of
bytes_of-digits_of [] h = refl
bytes_of-digits_of (b ∷ bytes) (h, hs) = rw (byte_of_entry b h, bytes_of-digits_of bytes hs)

take-append_length : (xs ys : List ℕ) (n : ℕ) → n ≡ length xs → take n (xs ++ ys) ≡ xs
take-append_length xs ys n e = ap (λ k. take k (xs ++ ys)) e ∙ go xs ys
  where
    go : (xs ys : List ℕ) → take (length xs) (xs ++ ys) ≡ xs
    go [] ys = refl
    go (x ∷ xs) ys = ap (λ l. x ∷ l) (go xs ys)

-- Into a buffer that is large enough, wb_bin2asc writes digits from which wb_asc2bin reads back every byte but 0xba, which comes back as 0x0a.
pub wb_asc2bin-wb_bin2asc :
    (bytes out back : List ℕ)
    → AreBytes bytes
    → 0 < length bytes
    → length bytes * 2 < length out
    → length bytes ≤ length back
    → wb_asc2bin (take (length bytes * 2) (wb_bin2asc bytes out)) back
      ≡ (map read_back bytes ++ drop (length bytes) back, length bytes)
unfolding wb_asc2bin wb_bin2asc
wb_asc2bin-wb_bin2asc bytes out back h pos room fit =
    let size = length-digits_of bytes in
    let e : ltb (length out) (length bytes * 2 + 1) ≡ false = ground arith in
    let digits : leb (length bytes * 2) 0 ≡ false = ground arith in
    let even : ((length bytes * 2 % 2) == 1) ≡ false = ground arith in
    let enough : ltb (length back) (length bytes * 2 / 2) ≡ false = ground arith in
    let half : length bytes * 2 / 2 ≡ length bytes = omega arith in
    rw e (
      rw
        (take-append_length (digits_of bytes) (0 ∷ drop (length bytes * 2 + 1) out)
          (length bytes * 2) (omega arith))
        (rw (size, digits, even, enough, half, bytes_of-digits_of bytes h)))
