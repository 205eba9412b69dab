-- ===== src/WindowedFilter.antt =====
-- bbr/windowed_filter.c: the best three samples of a window of time.
pub mod Best
mod Tests
use lmp.Prelude.{ℕ, ◌+◌, ◌/◌, Bool, true, false, ◌&&◌, ◌||◌, ltb, leb, ◌==◌, if◌then◌else◌}
use lmp.Prelude.Int.{ℤ, pos, pos_part, neg_part}

-- `wnd_sample_t`
pub record WndSample : Type 0 where
  pub sample : ℤ
  pub ts : ℤ

-- `windowed_filter_t`: the three `estimates`. The size of the window is not negative.
pub record WindowedFilter : Type 0 where
  pub wnd_size : ℕ
  pub first : WndSample
  pub second : WndSample
  pub third : WndSample

-- a ≥ b, and a = b
abbrev pub geb_ℤ : ℤ → ℤ → Bool
geb_ℤ a b = leb (pos_part b + neg_part a) (pos_part a + neg_part b)

abbrev pub eqb_ℤ : ℤ → ℤ → Bool
eqb_ℤ a b = pos_part a + neg_part b == pos_part b + neg_part a

unfoldable pub max_val_func : ℤ → ℤ → Bool
max_val_func v1 v2 = geb_ℤ v1 v2

unfoldable pub min_val_func : ℤ → ℤ → Bool
min_val_func v1 v2 = geb_ℤ v2 v1

-- new_ts - ts > size
abbrev pub is_older : ℕ → ℤ → WndSample → Bool
is_older size new_ts w =
    ltb (pos_part w.ts + size + neg_part new_ts) (pos_part new_ts + neg_part w.ts)

-- `wnd_filter_reset`
unfoldable pub wnd_filter_reset : ℤ → ℤ → WindowedFilter → WindowedFilter
wnd_filter_reset new_sample new_ts f =
    let w : WndSample = record { sample = new_sample; ts = new_ts } in
    record f { first = w; second = w; third = w }

-- `wnd_filter_init`
unfoldable pub wnd_filter_init : ℕ → WindowedFilter
wnd_filter_init wnd_size =
    let w : WndSample = record { sample = pos 0; ts = pos 0 } in
    record { wnd_size = wnd_size; first = w; second = w; third = w }

-- The sample takes the places of those that it is better than.
unfoldable pub place : (ℤ → ℤ → Bool) → WndSample → WindowedFilter → WindowedFilter
place better w f =
    if better w.sample f.second.sample
    then record f { second = w; third = w }
    else if better w.sample f.third.sample
    then record f { third = w }
    else f

-- The best sample is too old: the others move up.
unfoldable pub expire : WndSample → WindowedFilter → WindowedFilter
expire w f =
    if is_older f.wnd_size w.ts f.second
    then record f { first = f.third; second = w; third = w }
    else record f { first = f.second; second = f.third; third = w }

-- Equal samples that are old make room for the new one.
unfoldable pub renew_second : WndSample → WindowedFilter → WindowedFilter
renew_second w f =
    if eqb_ℤ f.first.sample f.second.sample && is_older (f.wnd_size / 4) w.ts f.second
    then record f { second = w; third = w }
    else f

unfoldable pub renew_third : WndSample → WindowedFilter → WindowedFilter
renew_third w f =
    if eqb_ℤ f.second.sample f.third.sample && is_older (f.wnd_size / 2) w.ts f.third
    then record f { third = w }
    else f

-- The filter after the new sample is in its place.
unfoldable pub settle : WndSample → WindowedFilter → WindowedFilter
unfolding expire renew_second renew_third
settle w f =
    if is_older f.wnd_size w.ts f.first then expire w f else renew_third w (renew_second w f)

-- `wnd_filter_update`
unfoldable pub wnd_filter_update : (ℤ → ℤ → Bool) → ℤ → ℤ → WindowedFilter → WindowedFilter
unfolding wnd_filter_reset place settle
wnd_filter_update better new_sample new_ts f =
    let w : WndSample = record { sample = new_sample; ts = new_ts } in
    if (eqb_ℤ f.first.sample (pos 0) || better new_sample f.first.sample)
      || is_older f.wnd_size new_ts f.third
    then wnd_filter_reset new_sample new_ts f
    else settle w (place better w f)

-- `wnd_filter_set_window_size`
unfoldable pub wnd_filter_set_window_size : ℕ → WindowedFilter → WindowedFilter
wnd_filter_set_window_size wnd_size f = record f { wnd_size = wnd_size }
