-- ===== src/WindowedFilter/Tests.antt =====
-- bbr/windowed_filter.c: a window of ten with three samples.
use lmp.Prelude.{ℕ, ◌≡◌, refl, arith}
use lmp.Prelude.Int.{pos}
use lmp.WindowedFilter.{
  WndSample, WindowedFilter, max_val_func, wnd_filter_update, place, settle, expire,
}
use lmp.WindowedFilter.Best.{InOrder, Fresh, wnd_filter_update-Fresh}

abbrev at : ℕ → ℕ → WndSample
at sample ts = record { sample = pos sample; ts = pos ts }

abbrev three : WindowedFilter
three = record { wnd_size = 10; first = at 90 1; second = at 70 4; third = at 50 8 }

three-InOrder : InOrder (pos 9) three
three-InOrder = record {
  best = omega arith;
  better = omega arith;
  old = omega arith;
  older = omega arith;
  past = omega arith;
}

wnd_filter_update-Fresh_example :
    Fresh
      (record { sample = pos 60; ts = pos 13 })
      (wnd_filter_update max_val_func (pos 60) (pos 13) three)
wnd_filter_update-Fresh_example =
    wnd_filter_update-Fresh three (pos 9) (pos 60) (pos 13) three-InOrder (omega arith)

-- The best sample is too old.
three_later :
    wnd_filter_update max_val_func (pos 60) (pos 13) three
    ≡ record { wnd_size = 10; first = at 70 4; second = at 60 13; third = at 60 13 }
unfolding wnd_filter_update max_val_func place settle expire
three_later = refl
