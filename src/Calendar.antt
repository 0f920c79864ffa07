-- ===== src/Calendar.antt =====
-- The calendar of core/utils.py: dates of Python's `datetime` as far as the program uses them (year,
-- month, day, `weekday`, `toordinal`, the lexicographic order, adding or taking one day).
pub mod Days
pub mod Expiry
pub mod Dte
pub mod Periods
pub mod Market
pub mod Later
pub mod Events
mod Tests
use stocks_fno.Prelude.{
  ℕ, zero, suc, ◌+◌, ◌-◌, ◌*◌, ◌/◌, ◌%◌, ◌≤◌, ◌<◌, ◌≡◌, Bool, not, ◌&&◌, ◌||◌, ltb, leb, ◌==◌,
  if◌then◌else◌,
}

unfoldable pub is_leap : ℕ → Bool
is_leap y = (y % 4 == 0) && (not (y % 100 == 0) || (y % 400 == 0))

-- `calendar.monthrange(year, month)[1]`
unfoldable pub days_in_month : ℕ → ℕ → ℕ
unfolding is_leap
days_in_month y m =
    if (m == 4) || (m == 6) || (m == 9) || (m == 11)
    then 30
    else if m == 2
    then 28 + (if is_leap y then 1 else 0)
    else 31

-- the days of the year before month `suc k`
unfoldable pub days_before_month : ℕ → ℕ → ℕ
days_before_month y zero = 0
days_before_month y (suc k) = days_before_month y k + days_in_month y (suc k)

pub record Date : Type 0 where
  pub year : ℕ
  pub month : ℕ
  pub day : ℕ

-- `date.toordinal()`
unfoldable pub ordinal : Date → ℕ
ordinal d =
    (d.year - 1) * 365
    + (d.year - 1) / 4
    - (d.year - 1) / 100
    + (d.year - 1) / 400
    + days_before_month d.year (d.month - 1)
    + d.day

abbrev pub date : ℕ → ℕ → ℕ → Date
date y m d = record { year = y; month = m; day = d }

-- Monday is 0.
unfoldable pub weekday : Date → ℕ
weekday d = (ordinal d + 6) % 7

-- A date that `datetime.date` accepts.
pub record IsDate (d : Date) : Type 0 where
  pub year_pos : 1 ≤ d.year
  pub month_pos : 1 ≤ d.month
  pub month_le : d.month ≤ 12
  pub day_pos : 1 ≤ d.day
  pub day_le : d.day ≤ days_in_month d.year d.month

-- `a < b` on dates compares year, month and day in turn.
unfoldable pub date_lt : Date → Date → Bool
date_lt a b =
    ltb a.year b.year
    || ((a.year == b.year) && (ltb a.month b.month || ((a.month == b.month) && ltb a.day b.day)))

-- the month after, as (year, month)
abbrev pub next_month : ℕ → ℕ → ℕ × ℕ
next_month y m = if m == 12 then (y + 1, 1) else (y, m + 1)

-- the month before
abbrev pub prev_month : ℕ → ℕ → ℕ × ℕ
prev_month y m = if m == 1 then (y - 1, 12) else (y, m - 1)

-- `d + timedelta(days=1)` and `d - timedelta(days=1)`
unfoldable pub next_day : Date → Date
next_day d =
    if ltb d.day (days_in_month d.year d.month)
    then date d.year d.month (d.day + 1)
    else (let (y, m) = next_month d.year d.month in date y m 1)

unfoldable pub prev_day : Date → Date
prev_day d =
    if ltb 1 d.day
    then date d.year d.month (d.day - 1)
    else (let (y, m) = prev_month d.year d.month in date y m (days_in_month y m))
