-- ===== src/Calendar/Tests.antt =====
-- Checks of the calendar (core/utils.py, market_data/event_calendar.py) on concrete days.
use stocks_fno.Prelude.{
  ◌⊎◌, inl, inr, Option, none, some, List, [], ◌∷◌, String, str_eq, ap, subst, Bool-cases,
  get_or_else, if◌then◌else◌, ℕ, ◌+◌, ◌*◌, ◌≡◌, refl, Bool, true, ◌==◌, ◌↔◌, arith, leb→le,
}
use stocks_fno.Dict.{Dict}
use stocks_fno.Int.{pos, ◌≤ℤ◌}
use stocks_fno.Calendar.{Date, date, weekday, ordinal, IsDate, days_in_month}
use stocks_fno.Calendar.Expiry.{
  Moment, days_until, near_month_expiry, entry_expiry, capital_period_bounds,
}
use stocks_fno.Calendar.Dte.{IsMonthlyExpiry, near_month_expiry_lem, entry_expiry_lem}
use stocks_fno.Calendar.Periods.{InPeriod, capital_period_bounds_contain}
use stocks_fno.Calendar.Market.{
  at_time, is_market_open, is_auth_retry_window, is_square_off_time, market_open_windows,
  trading_days_after, is_trading_day, IsFound, add_trading_days_lem,
}
use stocks_fno.Calendar.Events.{
  Announces, texts_of, has_event_within_days, has_event_within_days_iff,
}

-- a Thursday
abbrev today : Date
today = date 2026 11 26

today-IsDate : IsDate today
unfolding days_in_month
today-IsDate = record {
  year_pos = ground arith;
  month_pos = ground arith;
  month_le = ground arith;
  day_pos = ground arith;
  day_le = ground arith;
}

abbrev now : Moment
now = record { today = today; micros = at_time 15 25 }

-- Christmas is a holiday.
abbrev is_holiday : Date → Bool
is_holiday d = d.month * 100 + d.day == 1225

near_month_expiry_lem_example :
    IsMonthlyExpiry (near_month_expiry now) × (pos 7 ≤ℤ days_until (near_month_expiry now) now)
near_month_expiry_lem_example = near_month_expiry_lem now today-IsDate

entry_expiry_lem_example :
    IsMonthlyExpiry (entry_expiry (pos 14) now)
    × (pos 14 ≤ℤ days_until (entry_expiry (pos 14) now) now)
entry_expiry_lem_example = entry_expiry_lem (pos 14) now today-IsDate (ground arith)

capital_period_bounds_contain_example : InPeriod today (capital_period_bounds today)
capital_period_bounds_contain_example =
    capital_period_bounds_contain today today-IsDate (ground arith)

add_trading_days_lem_example : (r : Date) × (k : ℕ) × IsFound is_holiday 7 today 5 r k
unfolding trading_days_after is_trading_day weekday ordinal stocks_fno.Calendar.next_day
    days_in_month stocks_fno.Calendar.days_before_month
add_trading_days_lem_example =
    add_trading_days_lem is_holiday 7 today 5 today-IsDate
      (leb→le 5 (trading_days_after is_holiday 7 today) refl)

abbrev event_day : Date
event_day = date 2026 12 2

event_day-IsDate : IsDate event_day
unfolding days_in_month
event_day-IsDate = record {
  year_pos = ground arith;
  month_pos = ground arith;
  month_le = ground arith;
  day_pos = ground arith;
  day_le = ground arith;
}

abbrev parse : String → Option Date
parse s = if str_eq s "2026-12-02" then some event_day else none

parse-IsDate : (s : String) (d : Date) → parse s ≡ some d → IsDate d
parse-IsDate s d h = elim (Bool-cases (str_eq s "2026-12-02")) [
  | inl e ↦ subst IsDate (ap (λ z. get_or_else z event_day) (rw e at h)) event_day-IsDate
  | inr e ↦ absurd (ground arith)
]

-- Three working days and a weekend lie before the event.
abbrev events : Option (Dict (List String))
events = some (("*", "_RBI" ∷ "2026-12-02" ∷ []) ∷ [])

seen : has_event_within_days is_holiday parse 7 events "TCS" today 5 ≡ some true
unfolding has_event_within_days stocks_fno.Calendar.Market.add_trading_days is_trading_day weekday
    ordinal stocks_fno.Calendar.next_day days_in_month stocks_fno.Calendar.days_before_month
    stocks_fno.Calendar.date_lt
seen = refl

has_event_within_days_iff_example :
    (b : Bool) × (has_event_within_days is_holiday parse 7 events "TCS" today 5 ≡ some b)
    × ((b ≡ true) ↔ (
        (events ≡ none)
        ⊎ ((s : String) × (d : Date) × Announces is_holiday parse today 5
              (texts_of "TCS" events)
              s
              d)))
unfolding trading_days_after is_trading_day weekday ordinal stocks_fno.Calendar.next_day
    days_in_month stocks_fno.Calendar.days_before_month
has_event_within_days_iff_example =
    has_event_within_days_iff is_holiday parse 7 events "TCS" today 5 today-IsDate
      (leb→le 5 (trading_days_after is_holiday 7 today) refl) parse-IsDate
