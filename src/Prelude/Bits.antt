-- ===== src/Prelude/Bits.antt =====
-- Exclusive or at variables: the digit recursion that the native operation stands for, and its laws.
use Prim.Native.Nat.{
  ℕ, zero, suc, ◌+◌, ◌*◌, ◌/◌, ◌%◌, ◌^◌, ◌≤◌, ◌<◌, bit_and, bit_xor, digits, bitwise, differ, min,
  bit_and-bitwise, bit_xor-bitwise,
}
use mathlib.Core.Path.{◌≡◌, refl, sym, ◌∙◌, ap, ap₂}
use native.Mathlib.Nat.{pow-suc}
use native.Mathlib.Omega.{arith}

-- No digits are left of 0, whatever the fuel.
digits-zero : (z : ℕ → ℕ) (f : ℕ → ℕ → ℕ) (b n : ℕ) → digits z f n 0 b ≡ z b
digits-zero z f b zero = refl
digits-zero z f b (suc n) = refl

-- Two fuels that both suffice give the same digits.
spare_fuel :
    (z : ℕ → ℕ) (f : ℕ → ℕ → ℕ) (b a n m : ℕ)
    → (a ≤ n) × (a ≤ m)
    → digits z f n a b ≡ digits z f m a b
spare_fuel z f b zero n m h = digits-zero z f b n ∙ sym (digits-zero z f b m)
spare_fuel z f b (suc a) zero m h = absurd (omega arith)
spare_fuel z f b (suc a) (suc n) zero h = absurd (omega arith)
spare_fuel z f b (suc a) (suc n) (suc m) h =
    ap (λ high. high * 2 + f (suc a % 2) (b % 2))
      (spare_fuel z f (b / 2) (suc a / 2) n m (omega arith))

lowest_digit :
    (z : ℕ → ℕ) (f : ℕ → ℕ → ℕ) (a b : ℕ)
    → bitwise z f (suc a) b ≡ bitwise z f (suc a / 2) (b / 2) * 2 + f (suc a % 2) (b % 2)
lowest_digit z f a b =
    ap (λ high. high * 2 + f (suc a % 2) (b % 2))
      (spare_fuel z f (b / 2) (suc a / 2) a (suc a / 2) (omega arith))

differ_sum : (x y : ℕ) → x < 2 → y < 2 → differ x y ≡ (x + y) % 2
differ_sum zero y p q = omega arith
differ_sum (suc zero) zero p q = refl
differ_sum (suc zero) (suc zero) p q = refl
differ_sum (suc zero) (suc (suc y)) p q = absurd (omega arith)
differ_sum (suc (suc x)) y p q = absurd (omega arith)

pub bit_xor_step : (a b : ℕ) → bit_xor a b ≡ bit_xor (a / 2) (b / 2) * 2 + (a % 2 + b % 2) % 2
bit_xor_step zero b = simp bit_xor-bitwise (omega arith)
bit_xor_step (suc a) b = simp bit_xor-bitwise (
    lowest_digit (λ y. y) differ a b
    ∙ ap (λ d. bitwise (λ y. y) differ (suc a / 2) (b / 2) * 2 + d)
        (differ_sum (suc a % 2) (b % 2) (omega arith) (omega arith)))

-- The lowest bit of a conjunction, and the conjunction of the others.
pub bit_and_step : (m n : ℕ) → bit_and m n ≡ min (m % 2) (n % 2) + 2 * bit_and (m / 2) (n / 2)
bit_and_step (suc k) n =
    simp bit_and-bitwise (
      let split : bitwise (λ d. 0) min (suc k) n ≡ _ = lowest_digit (λ d. 0) min k n in omega arith)
bit_and_step zero n = simp bit_and-bitwise (omega arith)

none_set : {a b : ℕ} → a ≡ 0 → b ≡ 0 → bit_xor a b ≡ 0
none_set p q = ap₂ bit_xor p q

pub bit_xor-lt : (n a b : ℕ) → a < 2 ^ n → b < 2 ^ n → bit_xor a b < 2 ^ n
bit_xor-lt zero a b p q = omega (arith, none_set {a = a} {b = b} (omega arith) (omega arith))
bit_xor-lt (suc n) a b p q = omega (
  arith,
  pow-suc 2 n,
  bit_xor_step a b,
  bit_xor-lt n (a / 2) (b / 2) (omega (arith, pow-suc 2 n)) (omega (arith, pow-suc 2 n)),
)

comm_fuel : (n a b : ℕ) → a ≤ n → b ≤ n → bit_xor a b ≡ bit_xor b a
comm_fuel zero a b p q = ap₂ bit_xor (omega arith) (omega arith)
comm_fuel (suc n) a b p q = omega (
  arith,
  bit_xor_step a b,
  bit_xor_step b a,
  comm_fuel n (a / 2) (b / 2) (omega arith) (omega arith),
)

pub bit_xor_comm : (a b : ℕ) → bit_xor a b ≡ bit_xor b a
bit_xor_comm a b = comm_fuel (a + b) a b (omega arith) (omega arith)

pub bit_xor-zero : (a : ℕ) → bit_xor a 0 ≡ a
bit_xor-zero a = bit_xor_comm a 0 ∙ bit_xor-bitwise 0 a

-- Shifts go through.
abbrev ShiftsBy : ℕ → Type 0
ShiftsBy d = (a b : ℕ) → bit_xor a b / d ≡ bit_xor (a / d) (b / d)

shift_one : ShiftsBy 2
shift_one a b = omega (arith, bit_xor_step a b)

-- A second exclusive or undoes the first.
cancel_fuel : (n a b : ℕ) → a ≤ n → b ≤ n → bit_xor (bit_xor a b) b ≡ a
cancel_fuel zero zero zero p q = refl
cancel_fuel zero zero (suc b) p q = absurd (omega arith)
cancel_fuel zero (suc a) b p q = absurd (omega arith)
cancel_fuel (suc n) a b p q = omega (
  arith,
  bit_xor_step a b,
  bit_xor_step (bit_xor a b) b,
  ap (λ x. bit_xor x (b / 2)) (shift_one a b),
  cancel_fuel n (a / 2) (b / 2) (omega arith) (omega arith),
)

pub bit_xor_cancel : (a b : ℕ) → bit_xor (bit_xor a b) b ≡ a
bit_xor_cancel a b = cancel_fuel (a + b) a b (omega arith) (omega arith)

shift_twice : (d e f : ℕ) → ShiftsBy d → ShiftsBy e → ((x : ℕ) → x / d / e ≡ x / f) → ShiftsBy f
shift_twice d e f p q h a b =
    sym (h (bit_xor a b)) ∙ ap (λ x. x / e) (p a b) ∙ q (a / d) (b / d) ∙ ap₂ bit_xor (h a) (h b)

shift_two : ShiftsBy (2 ^ 2)
shift_two = shift_twice 2 2 (2 ^ 2) shift_one shift_one (λ x. omega arith)

shift_four : ShiftsBy (2 ^ 4)
shift_four = shift_twice (2 ^ 2) (2 ^ 2) (2 ^ 4) shift_two shift_two (λ x. omega arith)

pub bit_xor-shift_8 : ShiftsBy (2 ^ 8)
bit_xor-shift_8 = shift_twice (2 ^ 4) (2 ^ 4) (2 ^ 8) shift_four shift_four (λ x. omega arith)

shift_16 : ShiftsBy (2 ^ 16)
shift_16 = shift_twice (2 ^ 8) (2 ^ 8) (2 ^ 16) bit_xor-shift_8 bit_xor-shift_8 (λ x. omega arith)

pub bit_xor-shift_24 : ShiftsBy (2 ^ 24)
bit_xor-shift_24 = shift_twice (2 ^ 16) (2 ^ 8) (2 ^ 24) shift_16 bit_xor-shift_8 (λ x. omega arith)

and_zero_fuel : (n a : ℕ) → a ≤ n → bit_and a 0 ≡ 0
and_zero_fuel zero zero h = refl
and_zero_fuel zero (suc a) h = absurd (omega arith)
and_zero_fuel (suc n) a h = omega (arith, bit_and_step a 0, and_zero_fuel n (a / 2) (omega arith))

and_zero : (a : ℕ) → bit_and a 0 ≡ 0
and_zero a = and_zero_fuel a a (omega arith)

and_odd : (a k : ℕ) → bit_and a (k * 2 + 1) ≡ bit_and (a / 2) k * 2 + a % 2
and_odd a k =
    let half : (k * 2 + 1) / 2 ≡ k = omega arith in
    omega (arith, bit_and_step a (k * 2 + 1), ap (bit_and (a / 2)) half)

-- A mask of eight ones is the remainder by 2 ^ 8.
pub bit_and-byte : (a : ℕ) → bit_and a 0xff ≡ a % 2 ^ 8
bit_and-byte a = omega (
  arith,
  and_odd a 0x7f,
  and_odd (a / 2) 0x3f,
  and_odd (a / 2 / 2) 0x1f,
  and_odd (a / 2 / 2 / 2) 0x0f,
  and_odd (a / 2 / 2 / 2 / 2) 7,
  and_odd (a / 2 / 2 / 2 / 2 / 2) 3,
  and_odd (a / 2 / 2 / 2 / 2 / 2 / 2) 1,
  and_odd (a / 2 / 2 / 2 / 2 / 2 / 2 / 2) 0,
  and_zero (a / 2 / 2 / 2 / 2 / 2 / 2 / 2 / 2),
)

assoc_fuel :
    (n a b c : ℕ) → a ≤ n → b ≤ n → c ≤ n → bit_xor (bit_xor a b) c ≡ bit_xor a (bit_xor b c)
assoc_fuel zero zero zero zero p q r = refl
assoc_fuel zero (suc a) b c p q r = absurd (omega arith)
assoc_fuel zero zero (suc b) c p q r = absurd (omega arith)
assoc_fuel zero zero zero (suc c) p q r = absurd (omega arith)
assoc_fuel (suc n) a b c p q r = omega (
  arith,
  bit_xor_step a b,
  bit_xor_step b c,
  bit_xor_step (bit_xor a b) c,
  bit_xor_step a (bit_xor b c),
  ap (λ x. bit_xor x (c / 2)) (shift_one a b),
  ap (bit_xor (a / 2)) (shift_one b c),
  assoc_fuel n (a / 2) (b / 2) (c / 2) (omega arith) (omega arith) (omega arith),
)

pub bit_xor_assoc : (a b c : ℕ) → bit_xor (bit_xor a b) c ≡ bit_xor a (bit_xor b c)
bit_xor_assoc a b c = assoc_fuel (a + b + c) a b c (omega arith) (omega arith) (omega arith)

-- Two pairs may be paired otherwise.
pub bit_xor_exchange :
    (a b c d : ℕ) → bit_xor (bit_xor a b) (bit_xor c d) ≡ bit_xor (bit_xor a c) (bit_xor b d)
bit_xor_exchange a b c d =
    bit_xor_assoc a b (bit_xor c d)
    ∙ ap (bit_xor a)
        (sym (bit_xor_assoc b c d) ∙ ap (λ x. bit_xor x d) (bit_xor_comm b c) ∙ bit_xor_assoc c b d)
    ∙ sym (bit_xor_assoc a c (bit_xor b d))

-- Numbers with no bit in common are added.
pub bit_xor-high_low : (k q r : ℕ) → r < 2 ^ k → bit_xor (q * 2 ^ k) r ≡ q * 2 ^ k + r
bit_xor-high_low zero q zero h =
    let e : q * 1 ≡ q = omega arith in ap (λ x. bit_xor x 0) e ∙ bit_xor-zero q ∙ omega arith
bit_xor-high_low zero q (suc r) h = absurd (omega arith)
bit_xor-high_low (suc k) q r h =
    let double : q * 2 ^ suc k ≡ 2 * (q * 2 ^ k) =
      omega (arith, ap (λ (t : ℕ). q * t) (pow-suc 2 k)) in
    let half : q * 2 ^ suc k / 2 ≡ q * 2 ^ k = omega arith in
    omega (
      arith,
      bit_xor_step (q * 2 ^ suc k) r,
      ap (λ x. bit_xor x (r / 2)) half,
      bit_xor-high_low k q (r / 2) (omega (arith, pow-suc 2 k)),
    )
