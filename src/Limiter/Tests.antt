-- ===== src/Limiter/Tests.antt =====
-- A window of three milliseconds.
use lmp.Prelude.{◌≡◌, ◌+◌, ◌^◌, [], ◌∷◌, refl, none, some, true}
use lmp.Prelude.Int.{pos, ◌+ℤ◌}
use lmp.Limiter.{
  Limiter, init, try_send, update, remove_old, clear_buckets, clear_bucket, add_bytes, start_time,
}

abbrev once : Limiter
once = record (init 3) { buckets = 100 ∷ 0 ∷ 0 ∷ []; wnd_bytes = 100; oldest_ts = pos 50 }

abbrev twice : Limiter
twice = record (init 3) {
  index = pos 2;
  buckets = 100 ∷ 0 ∷ 40 ∷ [];
  wnd_bytes = 140;
  oldest_ts = pos 50;
}

-- The first bucket is free again after the window.
try_run :
    try_send twice 20 (pos 53)
    ≡ some (record twice { index = pos 3; buckets = 0 ∷ 0 ∷ 40 ∷ []; wnd_bytes = 40 }, true)
unfolding init try_send remove_old clear_buckets clear_bucket start_time ◌+ℤ◌
try_run = refl

-- After 2 ^ 31 milliseconds the offset is negative, and no bucket's number.
update_late : update twice 20 (pos (50 + 2 ^ 31)) ≡ none
unfolding init update remove_old clear_buckets clear_bucket add_bytes start_time ◌+ℤ◌
update_late = refl
