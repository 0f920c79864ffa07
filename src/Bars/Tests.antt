-- ===== src/Bars/Tests.antt =====
-- Checks of the intraday bars (core/utils.py) on concrete prices.
use stocks_fno.Prelude.{ℕ, ◌+◌, ◌*◌, ◌≡◌, refl, Option, none, some, List, [], ◌∷◌}
use stocks_fno.Float.Fixed.{Fixed, fixed_float, Fixed-IsOrdered}
use stocks_fno.Bars.Update.{Tick, Quote, run}
use stocks_fno.Bars.Sound.{IsSound, run-IsSound}

abbrev empty : Tick Fixed
empty = record {
  last_cum_volume = none;
  day_open = none;
  day_high = none;
  day_low = none;
  day_range_date = none;
  bars_today = none;
  cur_bar_key = none;
  cur_bar_open = none;
  cur_bar_high = none;
  cur_bar_low = none;
  cur_bar_close = none;
  cur_bar_volume = none;
}

abbrev quote : ℕ → ℕ → Option ℕ → Quote Fixed
quote minute price volume = record {
  now = record { day = 20418; minute = minute };
  ltp = fixed_float.lit price 0;
  volume_traded = volume;
}

abbrev quotes : List (Quote Fixed)
quotes = quote 557 1503 (some 1200) ∷ quote 559 1498 (some 1500) ∷ quote 561 1499 (some 1600) ∷ []

run-IsSound_example : IsSound (run (quote 556 1500 (some 1000) ∷ quotes) empty)
run-IsSound_example =
    run-IsSound Fixed-IsOrdered (quote 556 1500 (some 1000)) quotes empty refl
      (refl, (refl, (refl, (refl, tt))))

-- the first five minutes: 1500, 1503, 1498, and a volume of 500
first_bar :
    (run (quote 556 1500 (some 1000) ∷ quotes) empty).bars_today
    ≡ some (
        record {
          date = 20418 * 1440 + 555;
          open_price = fixed_float.lit 1500 0;
          high = fixed_float.lit 1503 0;
          low = fixed_float.lit 1498 0;
          close = fixed_float.lit 1498 0;
          volume = 500;
        }
        ∷ [])
unfolding run
first_bar = refl
