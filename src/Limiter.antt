-- ===== src/Limiter.antt =====
-- sim_transport/sim_limiter.c: how much was sent in the last milliseconds, one bucket for each.
pub mod Buckets
pub mod Sums
mod Tests
use lmp.Prelude.{
  ℕ, zero, suc, ◌+◌, ◌-◌, ◌*◌, ◌/◌, ◌%◌, ◌^◌, Bool, true, ltb, leb, ◌==◌, if◌then◌else◌, Option,
  none, some, List, [], ◌∷◌, get_or, set, replicate,
}
use lmp.Prelude.Int.{as_int, ℤ, pos, negsuc, ◌+ℤ◌, ltb_ℤ, pos_part, neg_part}

-- `sim_sender_limiter_t`
pub record Limiter : Type 0 where
  pub wnd_size : ℕ
  pub index : ℤ
  pub threshold : ℕ
  pub buckets : List ℕ
  pub wnd_bytes : ℕ
  pub oldest_ts : ℤ

abbrev pub max_limiter_rate : ℕ
max_limiter_rate = 1024 * 800

-- `sim_limiter_init`
unfoldable pub init : ℕ → Limiter
init windows_size_ms = record {
  wnd_size = windows_size_ms;
  index = pos 0;
  threshold = max_limiter_rate * windows_size_ms / (1000 * 8);
  buckets = replicate windows_size_ms 0;
  wnd_bytes = 0;
  oldest_ts = negsuc 0;
}

-- `sim_limiter_resest`
unfoldable pub reset : Limiter → Limiter
reset limiter = record limiter {
  index = pos 0;
  threshold = max_limiter_rate * limiter.wnd_size / (1000 * 8);
  buckets = replicate limiter.wnd_size 0;
  wnd_bytes = 0;
  oldest_ts = negsuc 0;
}

-- `sim_limiter_set_max_bitrate`, a product of 32 bits
unfoldable pub set_max_bitrate : Limiter → ℕ → Limiter
set_max_bitrate limiter bitrate = record limiter {
  threshold = bitrate * limiter.wnd_size % 2 ^ 32 / (1000 * 8);
}

-- `int offset = now_ts - limiter->oldest_ts`
abbrev pub offset_of : Limiter → ℤ → ℤ
offset_of limiter now_ts =
    as_int (pos_part now_ts + neg_part limiter.oldest_ts)
      (pos_part limiter.oldest_ts + neg_part now_ts)

infixl 5 ◌>>=◌
abbrev pub ◌>>=◌ : {A B : Type 0} → Option A → (A → Option B) → Option B
none >>= f = none
(some a) >>= f = f a

-- `i % limiter->wnd_size`, which has the sign of `i`; `none` where that is no index of the buckets.
abbrev pub slot_of : ℤ → ℕ → Option ℕ
slot_of (pos i) wnd_size = some (i % wnd_size)
slot_of (negsuc i) wnd_size = if (i + 1) % wnd_size == 0 then some 0 else none

abbrev pub next_int : ℤ → ℤ
next_int (pos i) = pos (suc i)
next_int (negsuc zero) = pos 0
next_int (negsuc (suc i)) = negsuc i

-- One turn of the first loop of `sim_limiter_remove`.
unfoldable pub clear_bucket : Limiter → ℕ → Limiter
clear_bucket limiter slot =
    let bytes = get_or limiter.buckets slot 0 in
    record limiter {
      wnd_bytes = if leb bytes limiter.wnd_bytes then limiter.wnd_bytes - bytes else 0;
      buckets = set limiter.buckets slot 0;
    }

-- The loop, `n` turns from `i` on. Here and below, `none` is a write out of the buckets.
unfoldable pub clear_buckets : ℕ → ℤ → Limiter → Option Limiter
unfolding clear_bucket
clear_buckets zero i limiter = some limiter
clear_buckets (suc n) i limiter = do
  slot ← slot_of i limiter.wnd_size
  clear_buckets n (next_int i) (clear_bucket limiter slot)

-- The turns of the loop, which ends after `offset`.
abbrev pub turns : ℤ → ℤ → ℕ
turns index offset = pos_part offset + neg_part index - (pos_part index + neg_part offset)

-- `sim_limiter_remove`
unfoldable pub remove_old : Limiter → ℤ → Option Limiter
unfolding clear_buckets ◌+ℤ◌
remove_old limiter now_ts =
    let offset = offset_of limiter now_ts in
    let some_cleared =
      clear_buckets (turns limiter.index offset) (next_int limiter.index) limiter in
    let all_cleared = record limiter { buckets = replicate limiter.wnd_size 0; wnd_bytes = 0 } in
    if ltb_ℤ offset (pos limiter.wnd_size +ℤ limiter.index)
    then (do cleared ← some_cleared; some (record cleared { index = offset }))
    else some (record all_cleared { index = offset })

abbrev pub start_from : ℤ → ℤ → ℤ
start_from (pos t) now_ts = pos t
start_from (negsuc t) now_ts = if t == 0 then now_ts else negsuc t

-- The first use sets the start of time.
unfoldable pub start_time : Limiter → ℤ → Limiter
start_time limiter now_ts = record limiter { oldest_ts = start_from limiter.oldest_ts now_ts }

-- `sim_limiter_try`: does it return 0?
unfoldable pub try_send : Limiter → ℕ → ℤ → Option (Limiter × Bool)
unfolding start_time remove_old
try_send limiter size now_ts = if ltb_ℤ now_ts limiter.oldest_ts then some (limiter, true) else (do
  cleared ← remove_old (start_time limiter now_ts) now_ts
  some (cleared, leb (size + cleared.wnd_bytes) cleared.threshold))

-- The end of `sim_limiter_update`, in the bucket `slot`.
unfoldable pub add_bytes : Limiter → ℕ → ℕ → Limiter
add_bytes limiter size slot = record limiter {
  buckets = set limiter.buckets slot ((get_or limiter.buckets slot 0 + size) % 2 ^ 32);
  wnd_bytes = (limiter.wnd_bytes + size) % 2 ^ 32;
}

-- `sim_limiter_update`
unfoldable pub update : Limiter → ℕ → ℤ → Option Limiter
unfolding start_time remove_old add_bytes
update limiter size now_ts =
    let started = start_time limiter now_ts in
    let offset = offset_of started now_ts in
    let removed = if ltb_ℤ (pos 0) offset then remove_old started now_ts else some started in
    if ltb_ℤ now_ts limiter.oldest_ts then some limiter else (do
      cleared ← removed
      slot ← slot_of offset cleared.wnd_size
      some (add_bytes cleared size slot))
