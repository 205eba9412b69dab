-- ===== src/Limiter/Sums.antt =====
-- sim_transport/sim_limiter.c: the bytes of the window are the sum of its buckets, after any calls.
use lmp.Prelude.{ℕ, ◌+◌, ◌^◌, ◌<◌, ◌≡◌, Bool, some}
use lmp.Prelude.Int.{ℤ}
use lmp.Limiter.{Limiter, init, reset, set_max_bitrate, start_time, try_send, update}
use lmp.Limiter.Buckets.{IsTimely}

-- The states that a limiter reaches, while its window takes fewer than 2 ^ 32 bytes and less than 2 ^ 31
-- milliseconds go by after its first use.
pub data Used (windows_size_ms : ℕ) : Limiter → Type 0 where
  made : Used windows_size_ms (init windows_size_ms)
  was_reset :
      (limiter : Limiter) → Used windows_size_ms limiter → Used windows_size_ms (reset limiter)
  limited :
      (limiter : Limiter) (bitrate : ℕ)
      → Used windows_size_ms limiter
      → Used windows_size_ms (set_max_bitrate limiter bitrate)
  tried :
      (limiter next : Limiter) (size : ℕ) (now_ts : ℤ) (sent : Bool)
      → Used windows_size_ms limiter
      → IsTimely (start_time limiter now_ts) now_ts
      → try_send limiter size now_ts ≡ some (next, sent)
      → Used windows_size_ms next
  updated :
      (limiter next : Limiter) (size : ℕ) (now_ts : ℤ)
      → Used windows_size_ms limiter
      → IsTimely (start_time limiter now_ts) now_ts
      → limiter.wnd_bytes + size < 2 ^ 32
      → update limiter size now_ts ≡ some next
      → Used windows_size_ms next
