-- ===== src/WindowedFilter/Best.antt =====
-- bbr/windowed_filter.c: the samples are in order, and the best is not too old.
use lmp.Prelude.{
  ◌/◌, ◌≡◌, refl, ◌∙◌, ap, Bool, true, false, ◌&&◌, ◌||◌, arith, inl, inr, Bool-cases,
}
use lmp.Prelude.Int.{ℤ, pos, ◌≤ℤ◌}
use lmp.WindowedFilter.{
  WndSample, WindowedFilter, geb_ℤ, eqb_ℤ, max_val_func, is_older, wnd_filter_reset, place, expire,
  renew_second, renew_third, settle, wnd_filter_update,
}

-- Each sample is at least the next one and not newer, and none is newer than `now`.
pub record InOrder (now : ℤ) (f : WindowedFilter) : Type 0 where
  pub best : f.second.sample ≤ℤ f.first.sample
  pub better : f.third.sample ≤ℤ f.second.sample
  pub old : f.first.ts ≤ℤ f.second.ts
  pub older : f.second.ts ≤ℤ f.third.ts
  pub past : f.third.ts ≤ℤ now

-- The new sample is not above the last one.
pub record Placed (w : WndSample) (f : WindowedFilter) : Type 0 where
  pub order : InOrder w.ts f
  pub last : w.sample ≤ℤ f.third.sample
  pub recent : is_older f.wnd_size w.ts f.third ≡ false

place-Placed :
    (w : WndSample) (f : WindowedFilter) (now : ℤ)
    → InOrder now f
    → now ≤ℤ w.ts
    → max_val_func w.sample f.first.sample ≡ false
    → is_older f.wnd_size w.ts f.third ≡ false
    → Placed w (place max_val_func w f)
unfolding place max_val_func
place-Placed w f now o h top recent = elim (Bool-cases (geb_ℤ w.sample f.second.sample)) [
  | inl e ↦ rw e (record {
    order = record {
      best = ground (arith, top);
      better = omega arith;
      old = omega (arith, o.old, o.older, o.past, h);
      older = omega arith;
      past = omega arith;
    };
    last = omega arith;
    recent = ground arith;
  })
  | inr e ↦ elim (Bool-cases (geb_ℤ w.sample f.third.sample)) [
    | inl q ↦
        rw (e, q)
          (record {
            order = record {
              best = o.best;
              better = ground (arith, e);
              old = o.old;
              older = omega (arith, o.older, o.past, h);
              past = omega arith;
            };
            last = omega arith;
            recent = ground arith;
          })
    | inr q ↦
        rw (e, q)
          (record {
            order = record {
              best = o.best;
              better = o.better;
              old = o.old;
              older = o.older;
              past = omega (arith, o.past, h);
            };
            last = ground (arith, q);
            recent = recent;
          })
  ]
]

-- What an update promises.
pub record Fresh (w : WndSample) (f : WindowedFilter) : Type 0 where
  pub order : InOrder w.ts f
  pub dominates : w.sample ≤ℤ f.first.sample
  pub in_window : is_older f.wnd_size w.ts f.first ≡ false

expire-Fresh : (w : WndSample) (f : WindowedFilter) → Placed w f → Fresh w (expire w f)
unfolding expire
expire-Fresh w f p = elim (Bool-cases (is_older f.wnd_size w.ts f.second)) [
  | inl e ↦ rw e (record {
    order = record {
      best = p.last;
      better = omega arith;
      old = p.order.past;
      older = omega arith;
      past = omega arith;
    };
    dominates = p.last;
    in_window = p.recent;
  })
  | inr e ↦ rw e (record {
    order = record {
      best = p.order.better;
      better = p.last;
      old = p.order.older;
      older = p.order.past;
      past = omega arith;
    };
    dominates = omega (arith, p.last, p.order.better);
    in_window = e;
  })
]

renew_second-Placed :
    (w : WndSample) (f : WindowedFilter)
    → Placed w f
    → Placed w (renew_second w f)
      × ((renew_second w f).first ≡ f.first)
      × ((renew_second w f).wnd_size ≡ f.wnd_size)
unfolding renew_second
renew_second-Placed w f p =
    elim (Bool-cases
      (eqb_ℤ f.first.sample f.second.sample && is_older (f.wnd_size / 4) w.ts f.second)) [
        | inl e ↦ rw e (
          record {
            order = record {
              best = omega (arith, p.last, p.order.better, p.order.best);
              better = omega arith;
              old = omega (arith, p.order.old, p.order.older, p.order.past);
              older = omega arith;
              past = omega arith;
            };
            last = omega arith;
            recent = ground arith;
          },
          refl,
          refl,
        )
        | inr e ↦ rw e (p, refl, refl)
      ]

renew_third-Fresh :
    (w : WndSample) (f : WindowedFilter)
    → Placed w f
    → is_older f.wnd_size w.ts f.first ≡ false
    → Fresh w (renew_third w f)
unfolding renew_third
renew_third-Fresh w f p e =
    elim (Bool-cases
      (eqb_ℤ f.second.sample f.third.sample && is_older (f.wnd_size / 2) w.ts f.third)) [
        | inl q ↦ rw q (record {
          order = record {
            best = p.order.best;
            better = omega (arith, p.last, p.order.better);
            old = p.order.old;
            older = omega (arith, p.order.older, p.order.past);
            past = omega arith;
          };
          dominates = omega (arith, p.last, p.order.better, p.order.best);
          in_window = e;
        })
        | inr q ↦ rw q (record {
          order = p.order;
          dominates = omega (arith, p.last, p.order.better, p.order.best);
          in_window = e;
        })
      ]

settle-Fresh : (w : WndSample) (f : WindowedFilter) → Placed w f → Fresh w (settle w f)
unfolding settle
settle-Fresh w f p = elim (Bool-cases (is_older f.wnd_size w.ts f.first)) [
  | inl e ↦ rw e (expire-Fresh w f p)
  | inr e ↦
      let r = renew_second-Placed w f p in
      rw e (
        renew_third-Fresh w (renew_second w f) r.0 (
          ap (λ n. is_older n w.ts (renew_second w f).first) r.2
          ∙ ap (λ x. is_older f.wnd_size w.ts x) r.1
          ∙ e))
]

or-false : (a b c : Bool) → ((a || b) || c) ≡ false → (b ≡ false) × (c ≡ false)
or-false true b c e = absurd (cc e)
or-false false true c e = absurd (cc e)
or-false false false c e = (refl, e)

-- A filter for the largest sample has its three samples in order, the better the older, none newer
-- than `now`, and gets a new sample at `now` or later. Then they are in order again, the best of them
-- is at least the new one, and it is not older than the window.
pub wnd_filter_update-Fresh :
    (f : WindowedFilter) (now new_sample new_ts : ℤ)
    → InOrder now f
    → now ≤ℤ new_ts
    → Fresh
        (record { sample = new_sample; ts = new_ts })
        (wnd_filter_update max_val_func new_sample new_ts f)
unfolding wnd_filter_update wnd_filter_reset
wnd_filter_update-Fresh f now new_sample new_ts o h =
    let w : WndSample = record { sample = new_sample; ts = new_ts } in
    elim (Bool-cases (
      (eqb_ℤ f.first.sample (pos 0) || max_val_func new_sample f.first.sample)
      || is_older f.wnd_size new_ts f.third)) [
        | inl e ↦ rw e (record {
          order = record {
            best = omega arith;
            better = omega arith;
            old = omega arith;
            older = omega arith;
            past = omega arith;
          };
          dominates = omega arith;
          in_window = ground arith;
        })
        | inr e ↦
            let r =
              or-false (eqb_ℤ f.first.sample (pos 0)) (max_val_func new_sample f.first.sample)
                (is_older f.wnd_size new_ts f.third) e in
            rw e (settle-Fresh w (place max_val_func w f) (place-Placed w f now o h r.0 r.1))
      ]
