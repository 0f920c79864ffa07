-- ===== src/Capital/Tests.antt =====
-- Checks of the capital rollover (portfolio/capital_periods.py) on a concrete book.
use stocks_fno.Prelude.{◌≡◌, refl, false, Option, none, some, List, [], ◌∷◌, foldl, inr, arith}
use stocks_fno.Float.Fixed.{Fixed, fixed_float}
use stocks_fno.Calendar.{Date, date, IsDate, days_in_month}
use stocks_fno.Risk.Manager.{RiskManager, init}
use stocks_fno.Capital.Store.{Period, Store}
use stocks_fno.Capital.Rollover.{rollover_if_needed, apply_capital}
use stocks_fno.Capital.Loop.{IsBook}
use stocks_fno.Capital.Laws.{IsRolled, rollover_if_needed-IsRolled, rollover_if_needed-twice}

-- `SUM`, which is NULL on no rows
abbrev sql_sum : List Fixed → Option Fixed
sql_sum [] = none
sql_sum (p ∷ ps) = some (foldl fixed_float.add p ps)

abbrev default : Fixed
default = fixed_float.lit 500000 0

abbrev september : Period Fixed
september = record {
  id = 4;
  period_start = date 2026 8 26;
  period_end = date 2026 9 29;
  starting_capital = fixed_float.lit 223407 0;
  realized_pnl = none;
  ending_capital = none;
  closed = false;
}

-- a loss in September that is larger than its capital
abbrev store : Store Fixed
store = record {
  periods = september ∷ [];
  trades =
      record {
        exit_day = some (date 2026 9 14);
        pnl = some (fixed_float.neg (fixed_float.lit 345079 0));
      }
      ∷ record { exit_day = none; pnl = none }
      ∷ [];
  next_id = 5;
}

store-IsBook : IsBook default [] september store
unfolding days_in_month
store-IsBook = record {
  rows = refl;
  closed = tt;
  older = tt;
  is_open = refl;
  fresh = ground arith;
  end = record {
    valid = record {
      year_pos = ground arith;
      month_pos = ground arith;
      month_le = ground arith;
      day_pos = ground arith;
      day_le = ground arith;
    };
    late = ground arith;
  };
  chain = tt;
}

abbrev today : Date
today = date 2026 11 26

today-IsDate : IsDate today
unfolding days_in_month
today-IsDate = record {
  year_pos = ground arith;
  month_pos = ground arith;
  month_le = ground arith;
  day_pos = ground arith;
  day_le = ground arith;
}

abbrev manager : RiskManager Fixed
unfolding init
manager = init default (fixed_float.lit 3 1) (fixed_float.lit 5 2)

rollover_if_needed-IsRolled_example :
    IsRolled default today
      (some manager)
      (rollover_if_needed sql_sum default today store (some manager))
rollover_if_needed-IsRolled_example =
    rollover_if_needed-IsRolled sql_sum default today store (some manager) today-IsDate
      (ground arith) refl (inr ([], september, store-IsBook, ground arith))

-- what the first call returned
abbrev rolled :
    IsRolled default today
      (some manager)
      (rollover_if_needed sql_sum default today store (some manager))
rolled =
    rollover_if_needed-IsRolled sql_sum default today store (some manager) today-IsDate
      (ground arith) refl (inr ([], september, store-IsBook, ground arith))

rollover_if_needed-twice_example :
    rollover_if_needed sql_sum default today rolled.store
      (apply_capital rolled.period.starting_capital (some manager))
    ≡ some
        (rolled.period, rolled.store, apply_capital rolled.period.starting_capital (some manager))
rollover_if_needed-twice_example =
    rollover_if_needed-twice sql_sum default today store (some manager) today-IsDate (ground arith)
      refl (inr ([], september, store-IsBook)) rolled.period rolled.store
      (apply_capital rolled.period.starting_capital (some manager)) rolled.returns
