-- ===== src/Calendar/Expiry.antt =====
-- Monthly expiries (core/utils.py): `_last_expiry_weekday`, `get_near_month_expiry`,
-- `get_entry_expiry` and `get_capital_period_bounds`. The clock is an argument.
use stocks_fno.Prelude.{ℕ, zero, suc, ◌+◌, ◌==◌, ltb, if◌then◌else◌}
use stocks_fno.Int.{ℤ, pos, ◌-ℤ◌, ltb_ℤ}
use stocks_fno.Calendar.{
  Date, date, days_in_month, ordinal, weekday, date_lt, next_month, prev_month, next_day, prev_day,
}

-- `datetime.now(IST)`: the date, and the microseconds since midnight
pub record Moment : Type 0 where
  pub today : Date
  pub micros : ℕ

-- `(expiry - now).days`, rounded down, for an expiry at midnight
unfoldable pub days_until : Date → Moment → ℤ
days_until e now = pos (ordinal e) -ℤ pos (ordinal now.today + (if ltb 0 now.micros then 1 else 0))

abbrev pub expiry_weekday : ℕ
expiry_weekday = 1

-- `while d.weekday() != EXPIRY_WEEKDAY: d -= timedelta(days=1)`, on fuel
unfoldable pub back_to_expiry : ℕ → Date → Date
back_to_expiry zero d = d
back_to_expiry (suc fuel) d =
    let rest = back_to_expiry fuel (prev_day d) in if weekday d == expiry_weekday then d else rest

-- Seven rounds are enough: seven days in a row hold every weekday.
unfoldable pub last_expiry_weekday : ℕ → ℕ → Date
last_expiry_weekday y m = back_to_expiry 7 (date y m (days_in_month y m))

-- the expiry of the month after (y, m)
unfoldable pub next_expiry : ℕ → ℕ → Date
next_expiry y m = if m == 12 then last_expiry_weekday (y + 1) 1 else last_expiry_weekday y (m + 1)

unfoldable pub near_month_expiry : Moment → Date
near_month_expiry now =
    let expiry = last_expiry_weekday now.today.year now.today.month in
    if ltb_ℤ (days_until expiry now) (pos 7)
    then next_expiry now.today.year now.today.month
    else expiry

unfoldable pub entry_expiry : ℤ → Moment → Date
entry_expiry min_dte now =
    let expiry = near_month_expiry now in
    if ltb_ℤ (days_until expiry now) min_dte then next_expiry expiry.year expiry.month else expiry

-- the month whose expiry ends the period of `d`, as (year, month)
unfoldable pub period_month : Date → ℕ × ℕ
period_month d =
    if date_lt (last_expiry_weekday d.year d.month) d
    then next_month d.year d.month
    else (d.year, d.month)

-- `get_capital_period_bounds`: the first and the last day of the period
unfoldable pub capital_period_bounds : Date → Date × Date
unfolding period_month
capital_period_bounds d =
    let (y, m) = period_month d in
    let (py, pm) = prev_month y m in (next_day (last_expiry_weekday py pm), last_expiry_weekday y m)
