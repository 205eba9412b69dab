-- ===== src/Limiter/Buckets.antt =====
-- sim_transport/sim_limiter.c: one call of the limiter.
use lmp.Prelude.{
  ℕ, zero, suc, ◌+◌, ◌-◌, ◌%◌, ◌^◌, ◌<◌, ◌≤◌, ◌≡◌, refl, sym, ◌∙◌, true, false, ltb, ◌==◌, some,
  List, [], ◌∷◌, get_or, set, replicate, length, length-set, length-replicate, ap, arith,
  Bool-cases, inl, inr,
}
use lmp.Prelude.Int.{as_int, ℤ, pos, negsuc, ltb_ℤ, pos_part, neg_part, ◌+ℤ◌}
use native.Mathlib.Nat.{mod-lt}
use lmp.Limiter.{
  Limiter, clear_bucket, clear_buckets, remove_old, start_time, add_bytes, offset_of, turns,
  next_int, start_from,
}

unfoldable pub sum : List ℕ → ℕ
sum [] = 0
sum (x ∷ xs) = x + sum xs

sum-set : (xs : List ℕ) (i v : ℕ) → i < length xs → sum (set xs i v) + get_or xs i 0 ≡ sum xs + v
unfolding sum
sum-set [] i v h = absurd (omega arith)
sum-set (x ∷ xs) zero v h = omega arith
sum-set (x ∷ xs) (suc i) v h = omega (arith, sum-set xs i v (omega arith))

pub sum-replicate : (n : ℕ) → sum (replicate n 0) ≡ 0
unfolding sum
sum-replicate zero = refl
sum-replicate (suc n) = omega (arith, sum-replicate n)

-- There is a bucket for each millisecond of a window that is not empty.
pub record IsSummed (limiter : Limiter) : Type 0 where
  pub window : 0 < limiter.wnd_size
  pub one_each : length limiter.buckets ≡ limiter.wnd_size
  pub summed : limiter.wnd_bytes ≡ sum limiter.buckets

clear_bucket-IsSummed :
    (limiter : Limiter) (i : ℕ)
    → IsSummed limiter
    → IsSummed (clear_bucket limiter (i % limiter.wnd_size))
unfolding clear_bucket
clear_bucket-IsSummed limiter i s =
    let slot = i % limiter.wnd_size in
    let small : slot < length limiter.buckets = omega (arith, mod-lt i s.window, s.one_each) in
    let e = sum-set limiter.buckets slot 0 small in
    record {
      window = s.window;
      one_each = length-set limiter.buckets slot 0 ∙ s.one_each;
      summed = ground (arith, e, s.summed);
    }

clear_bucket_le :
    (limiter : Limiter) (slot : ℕ) → (clear_bucket limiter slot).wnd_bytes ≤ limiter.wnd_bytes
unfolding clear_bucket
clear_bucket_le limiter slot = ground arith

-- Summed, with no more bytes than `limiter` had.
abbrev Shrunk : Limiter → Limiter → Type 0
Shrunk limiter next = IsSummed next × (next.wnd_bytes ≤ limiter.wnd_bytes)

-- The loop comes to its end in the buckets.
clear_buckets-Shrunk :
    (n i : ℕ) (limiter : Limiter)
    → IsSummed limiter
    → (next : Limiter) × (clear_buckets n (pos i) limiter ≡ some next) × Shrunk limiter next
unfolding clear_buckets
clear_buckets-Shrunk zero i limiter s = (limiter, refl, (s, omega arith))
clear_buckets-Shrunk (suc n) i limiter s =
    let slot = i % limiter.wnd_size in
    let r =
      clear_buckets-Shrunk n (suc i) (clear_bucket limiter slot)
        (clear_bucket-IsSummed limiter i s) in
    (r.0, r.1, (r.2.0, omega (arith, r.2.1, clear_bucket_le limiter slot)))

-- Summed, and the last bucket that was used has a number that is not negative.
pub record IsGood (limiter : Limiter) : Type 0 where
  pub sums : IsSummed limiter
  pub last : ℕ
  pub index_is : limiter.index ≡ pos last

-- The next state after a call, with no more bytes than before.
abbrev pub Kept : Limiter → Limiter → Type 0
Kept limiter next = IsGood next × (next.wnd_bytes ≤ limiter.wnd_bytes)

moved :
    (limiter next : Limiter) (o : ℤ) (i : ℕ)
    → o ≡ pos i
    → Shrunk limiter next
    → Kept limiter (record next { index = o })
moved limiter next o i e (s, h) = (
  record {
    sums = record { window = s.window; one_each = s.one_each; summed = s.summed };
    last = i;
    index_is = e;
  },
  h,
)

turns-next : (index : ℤ) (k : ℕ) → index ≡ pos k → next_int index ≡ pos (suc k)
turns-next index k e = ap next_int e

pub remove_old-Kept :
    (limiter : Limiter) (now_ts : ℤ) (o : ℕ)
    → offset_of limiter now_ts ≡ pos o
    → IsGood limiter
    → (next : Limiter) × (remove_old limiter now_ts ≡ some next) × Kept limiter next
unfolding remove_old
remove_old-Kept limiter now_ts o e g =
    let s = g.sums in
    let offset = offset_of limiter now_ts in
    let r = clear_buckets-Shrunk (turns limiter.index offset) (suc g.last) limiter s in
    elim (Bool-cases (ltb_ℤ offset (pos limiter.wnd_size +ℤ limiter.index))) [
      | inl few ↦ (
        record r.0 { index = offset },
        rw (few, turns-next limiter.index g.last g.index_is, r.1) refl,
        moved limiter r.0 offset o e r.2,
      )
      | inr all ↦ (
        record limiter { buckets = replicate limiter.wnd_size 0; wnd_bytes = 0; index = offset },
        rw all refl,
        moved limiter (record limiter { buckets = replicate limiter.wnd_size 0; wnd_bytes = 0 })
            offset o e
            (
              record {
                window = s.window;
                one_each = length-replicate limiter.wnd_size 0;
                summed = sym (sum-replicate limiter.wnd_size);
              },
              omega arith,
            ),
      )
    ]

-- The time is less than 2 ^ 31 milliseconds after the first use, so that an `int` holds the offset.
abbrev pub IsTimely : Limiter → ℤ → Type 0
IsTimely limiter now_ts =
    pos_part now_ts + neg_part limiter.oldest_ts
    < pos_part limiter.oldest_ts + neg_part now_ts + 2 ^ 31

as_int-small : (a b : ℕ) → b ≤ a → a < b + 2 ^ 31 → as_int a b ≡ pos (a - b)
as_int-small a b h k =
    let bits = (a % 2 ^ 32 + 2 ^ 32 - b % 2 ^ 32) % 2 ^ 32 in
    let e : bits ≡ a - b = omega arith in
    let small : ltb (a - b) (2 ^ 31) ≡ true = ground arith in rw (e, small) refl

start_from-before :
    (oldest_ts now_ts : ℤ)
    → ltb_ℤ now_ts oldest_ts ≡ false
    → pos_part (start_from oldest_ts now_ts) + neg_part now_ts
      ≤ pos_part now_ts + neg_part (start_from oldest_ts now_ts)
start_from-before (pos t) now_ts h = ground arith
start_from-before (negsuc t) now_ts h = elim (Bool-cases (t == 0)) [
  | inl e ↦ rw e (omega arith)
  | inr e ↦ rw e (ground arith)
]

pub offset-pos :
    (limiter : Limiter) (now_ts : ℤ)
    → ltb_ℤ now_ts limiter.oldest_ts ≡ false
    → IsTimely (start_time limiter now_ts) now_ts
    → (o : ℕ) × (offset_of (start_time limiter now_ts) now_ts ≡ pos o)
unfolding start_time
offset-pos limiter now_ts h timely =
    let from = start_from limiter.oldest_ts now_ts in
    let a = pos_part now_ts + neg_part from in
    let b = pos_part from + neg_part now_ts in
    (a - b, as_int-small a b (start_from-before limiter.oldest_ts now_ts h) timely)

pub started-IsGood :
    (limiter : Limiter) (now_ts : ℤ) → IsGood limiter → IsGood (start_time limiter now_ts)
unfolding start_time
started-IsGood limiter now_ts g = record {
  sums = record { window = g.sums.window; one_each = g.sums.one_each; summed = g.sums.summed };
  last = g.last;
  index_is = g.index_is;
}

bucket_le : (xs : List ℕ) (i : ℕ) → get_or xs i 0 ≤ sum xs
unfolding sum
bucket_le [] i = omega arith
bucket_le (x ∷ xs) zero = omega arith
bucket_le (x ∷ xs) (suc i) = omega (arith, bucket_le xs i)

pub add_bytes-IsGood :
    (limiter : Limiter) (size offset : ℕ)
    → limiter.wnd_bytes + size < 2 ^ 32
    → IsGood limiter
    → IsGood (add_bytes limiter size (offset % limiter.wnd_size))
unfolding add_bytes
add_bytes-IsGood limiter size offset h g =
    let s = g.sums in
    let slot = offset % limiter.wnd_size in
    let new = (get_or limiter.buckets slot 0 + size) % 2 ^ 32 in
    let small : slot < length limiter.buckets = omega (arith, mod-lt offset s.window, s.one_each) in
    record {
      sums = record {
        window = s.window;
        one_each = length-set limiter.buckets slot new ∙ s.one_each;
        summed = omega (
          arith,
          sum-set limiter.buckets slot new small,
          bucket_le limiter.buckets slot,
          s.summed,
        );
      };
      last = g.last;
      index_is = g.index_is;
    }
