-- ===== src/Calendar/Market.antt =====
-- Trading hours (core/utils.py: `is_market_open`, `is_square_off_time`, `is_auth_retry_window`,
-- `should_retry_auth`) and `_add_trading_days` of market_data/event_calendar.py. Whether a day is an
-- exchange holiday is a parameter: the program takes it from the package `exchange_calendars`.
use stocks_fno.Prelude.{
  ℕ, zero, suc, ◌+◌, ◌*◌, ◌≤◌, ◌≡◌, refl, Bool, true, false, not, ◌&&◌, Option, none, some, arith,
  ltb, leb, if◌then◌else◌, ap, inl, inr, ◌⊎◌, ◌↔◌,
}
use stocks_fno.Calendar.{Date, ordinal, weekday, next_day, IsDate}
use stocks_fno.Calendar.Days.{ordinal-next_day, next_day-IsDate}
use stocks_fno.Calendar.Expiry.{Moment}

-- the microseconds since midnight at a time of day
abbrev pub at_time : ℕ → ℕ → ℕ
at_time hour minute = (hour * 60 + minute) * 60_000_000

module _ (is_holiday : Date → Bool) where
  unfoldable pub is_market_open : Moment → Bool
  is_market_open now =
      if leb 5 (weekday now.today)
      then false
      else if is_holiday now.today
      then false
      else leb (at_time 9 15) now.micros && ltb now.micros (at_time 15 30)

  unfoldable pub is_auth_retry_window : Moment → Bool
  is_auth_retry_window now =
      if leb 5 (weekday now.today)
      then false
      else if is_holiday now.today
      then false
      else leb (at_time 8 25) now.micros && leb now.micros (at_time 15 30)

unfoldable pub is_square_off_time : Moment → Bool
is_square_off_time now = leb (at_time 15 20) now.micros && leb now.micros (at_time 15 30)

-- microseconds since the start of the calendar
abbrev pub clock : Moment → ℕ
clock m = ordinal m.today * 86_400_000_000 + m.micros

-- `(now - last_attempt).total_seconds() >= cooldown_seconds`
unfoldable pub should_retry_auth : Option Moment → Moment → ℕ → Bool
should_retry_auth none now cooldown = true
should_retry_auth (some last) now cooldown = leb (clock last + cooldown * 1_000_000) (clock now)

-- While the market is open a missed login is retried, and the square-off window is exactly the time
-- from 15:20 on.
pub market_open_windows :
    (is_holiday : Date → Bool) (now : Moment)
    → is_market_open is_holiday now ≡ true
    → (is_auth_retry_window is_holiday now ≡ true)
      × ((is_square_off_time now ≡ true) ↔ (at_time 15 20 ≤ now.micros))
unfolding is_market_open is_auth_retry_window is_square_off_time
market_open_windows is_holiday now h = ground arith

module _ (is_holiday : Date → Bool) where
  unfoldable pub is_trading_day : Date → Bool
  is_trading_day d = ltb (weekday d) 5 && not (is_holiday d)

  -- the loop of `_add_trading_days` with `n` trading days still to count, on fuel
  unfoldable pub add_trading_days : ℕ → Date → ℕ → Option Date
  add_trading_days fuel d zero = some d
  add_trading_days zero d (suc n) = none
  add_trading_days (suc fuel) d (suc n) =
      let d' = next_day d in add_trading_days fuel d' (if is_trading_day d' then n else suc n)

  -- the number of trading days among the `k` days after `d`
  unfoldable pub trading_days_after : ℕ → Date → ℕ
  trading_days_after zero d = 0
  trading_days_after (suc k) d =
      (if is_trading_day (next_day d) then 1 else 0) + trading_days_after k (next_day d)

  -- What the loop returns: a day `k` days later with exactly `n` trading days after the start up to
  -- it, itself a trading day unless the loop did not move.
  pub record IsFound (fuel : ℕ) (d : Date) (n : ℕ) (r : Date) (k : ℕ) : Type 0 where
    pub returned : add_trading_days fuel d n ≡ some r
    pub later : ordinal r ≡ ordinal d + k
    pub in_fuel : k ≤ fuel
    pub counted : trading_days_after k d ≡ n
    pub on_trading_day : ((k ≡ 0) × (r ≡ d)) ⊎ (is_trading_day r ≡ true)

  IsFound-suc :
      (fuel : ℕ) (d : Date) (n : ℕ) (r : Date) (k : ℕ)
      → IsDate d
      → IsFound fuel (next_day d) (if is_trading_day (next_day d) then n else suc n) r k
      → IsFound (suc fuel) d (suc n) r (suc k)
  unfolding add_trading_days trading_days_after
  IsFound-suc fuel d n r k v x = record {
    returned = x.returned;
    later = omega (arith, x.later, ordinal-next_day d v);
    in_fuel = omega (arith, x.in_fuel);
    counted = ground (arith, x.counted);
    on_trading_day = moved x.on_trading_day;
  }
    where
      moved :
          ((k ≡ 0) × (r ≡ next_day d)) ⊎ (is_trading_day r ≡ true)
          → ((suc k ≡ 0) × (r ≡ d)) ⊎ (is_trading_day r ≡ true)
      moved (inl (p, q)) =
          inr (rw q (ground (arith, x.counted, ap (λ j. trading_days_after j (next_day d)) p)))
      moved (inr t) = inr t

  -- If the `fuel` days after the start hold `n` trading days or more, the loop ends, at most `fuel`
  -- days later, on the first day by which `n` trading days have passed.
  pub add_trading_days_lem :
      (fuel : ℕ) (d : Date) (n : ℕ)
      → IsDate d
      → n ≤ trading_days_after fuel d
      → (r : Date) × (k : ℕ) × IsFound fuel d n r k
  unfolding add_trading_days trading_days_after
  add_trading_days_lem fuel d zero v h = (
    d,
    0,
    record {
      returned = refl;
      later = omega arith;
      in_fuel = omega arith;
      counted = refl;
      on_trading_day = inl (refl, refl);
    },
  )
  add_trading_days_lem zero d (suc n) v h = absurd (omega arith)
  add_trading_days_lem (suc fuel) d (suc n) v h =
      let left : ℕ = if is_trading_day (next_day d) then n else suc n in
      let (r, k, x) =
        add_trading_days_lem fuel (next_day d) left (next_day-IsDate d v) (ground arith) in
      (r, suc k, IsFound-suc fuel d n r k v x)
