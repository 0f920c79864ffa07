-- ===== src/Capital/Rollover.antt =====
-- `_close_period` and `rollover_if_needed` (portfolio/capital_periods.py). The lock makes each call
-- run alone, so a call is one function on the store.
use stocks_fno.Prelude.{
  ℕ, zero, suc, true, false, Option, none, some, List, if◌then◌else◌, get_or_else,
}
use stocks_fno.Float.{Float, nought}
use stocks_fno.Calendar.{Date, date_lt, next_day}
use stocks_fno.Calendar.Days.{rank}
use stocks_fno.Calendar.Expiry.{capital_period_bounds}
use stocks_fno.Risk.Manager.{RiskManager, set_capital}
use stocks_fno.Capital.Store.{
  Period, Store, get_active_period, merge, create_period, realized_pnl_for,
}

module _ {F : Type 0} ⦃f : Float F⦄ where
  -- A period that ended at zero or less hands on the configured capital instead.
  unfoldable pub next_capital : F → Period F → F
  next_capital default closed =
      let ending = get_or_else closed.ending_capital nought in
      if f.le ending nought then default else ending

  -- An active period that starts from zero or less is put back to the configured capital.
  unfoldable pub heal : F → Period F × Store F → Period F × Store F
  heal default (active, s) =
      if f.le active.starting_capital nought
      then (let healed = record active { starting_capital = default } in (healed, merge healed s))
      else (active, s)

  -- the open period that the call finds, or the one that it creates for today
  unfoldable pub first_active : F → Date → Store F → Period F × Store F
  first_active default today s =
      let (start, end) = capital_period_bounds today in
      elim (get_active_period s) [ some p ↦ (p, s) | none ↦ create_period start end default s ]

  unfoldable pub apply_capital : F → Option (RiskManager F) → Option (RiskManager F)
  apply_capital capital none = none
  apply_capital capital (some m) = some (set_capital m capital)

module _ {F : Type 0} ⦃f : Float F⦄ (sql_sum : List F → Option F) where
  unfoldable pub closed_row : Store F → Period F → Period F
  closed_row s p =
      let realized = realized_pnl_for sql_sum p.period_start p.period_end s in
      record p {
        realized_pnl = some (f.round realized 2);
        ending_capital = some (f.round (f.add p.starting_capital realized) 2);
        closed = true;
      }

  unfoldable pub close_period : Store F → Period F → Period F × Store F
  unfolding closed_row
  close_period s p = (closed_row s p, merge (closed_row s p) s)

  -- one round of the loop: close the active period and open the next
  unfoldable pub roll : F → Store F → Period F → Period F × Store F
  unfolding close_period next_capital
  roll default s active =
      let (closed, s') = close_period s active in
      let next_start = next_day closed.period_end in
      create_period next_start (capital_period_bounds next_start).1 (next_capital default closed) s'

  -- `while active.period_end < today`, on fuel; `none` when the fuel runs out
  unfoldable pub roll_until : ℕ → F → Date → Store F → Period F → Option (Period F × Store F)
  roll_until zero default today s active =
      if date_lt active.period_end today then none else some (active, s)
  roll_until (suc fuel) default today s active = elim (date_lt active.period_end today) [
    | true ↦ let (active', s') = roll default s active in roll_until fuel default today s' active'
    | false ↦ some (active, s)
  ]

  -- The loop has as many rounds as `today` has rank.
  unfoldable pub rollover_if_needed :
      F
      → Date
      → Store F
      → Option (RiskManager F)
      → Option (Period F × Store F × Option (RiskManager F))
  unfolding first_active heal apply_capital
  rollover_if_needed default today s m =
      let (active, s') = first_active default today s in
      elim (roll_until (rank today) default today s' active) [
        | none ↦ none
        | some r ↦
            let (active', s'') = heal default r in
            some (active', s'', apply_capital active'.starting_capital m)
      ]
