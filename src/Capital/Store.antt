-- ===== src/Capital/Store.antt =====
-- The tables that the rollover reads and writes (portfolio/capital_periods.py): rows of
-- `capital_periods`, and the exits of `trade_journal`. The database's own sum is a parameter.
use stocks_fno.Prelude.{
  ℕ, suc, Bool, false, not, ◌&&◌, Option, none, some, List, [], ◌∷◌, ◌++◌, if◌then◌else◌,
  get_or_else, ◌==◌,
}
use stocks_fno.Float.{Float, nought}
use stocks_fno.Calendar.{Date, date_lt}

pub record Period (F : Type 0) : Type 0 where
  pub id : ℕ
  pub period_start : Date
  pub period_end : Date
  pub starting_capital : F
  pub realized_pnl : Option F
  pub ending_capital : Option F
  pub closed : Bool

-- a row of `trade_journal`: the day of the exit, if it has exited, and its profit, if recorded
pub record Trade (F : Type 0) : Type 0 where
  pub exit_day : Option Date
  pub pnl : Option F

pub record Store (F : Type 0) : Type 0 where
  pub periods : List (Period F)
  pub trades : List (Trade F)
  -- the next key that the database hands out
  pub next_id : ℕ

module _ {F : Type 0} where
  -- `WHERE closed IS FALSE ORDER BY period_start DESC LIMIT 1`
  unfoldable pub later_start : Period F → Option (Period F) → Option (Period F)
  later_start p none = some p
  later_start p (some q) = if date_lt p.period_start q.period_start then some q else some p

  unfoldable pub latest_open : List (Period F) → Option (Period F)
  unfolding later_start
  latest_open [] = none
  latest_open (p ∷ ps) = let rest = latest_open ps in if p.closed then rest else later_start p rest

  unfoldable pub get_active_period : Store F → Option (Period F)
  unfolding latest_open
  get_active_period s = latest_open s.periods

  -- the row that a merge writes replaces the row of its key
  unfoldable pub replace_row : Period F → List (Period F) → List (Period F)
  replace_row p [] = []
  replace_row p (q ∷ qs) = if q.id == p.id then p ∷ replace_row p qs else q ∷ replace_row p qs

  unfoldable pub merge : Period F → Store F → Store F
  unfolding replace_row
  merge p s = record s { periods = replace_row p s.periods }

  unfoldable pub create_period : Date → Date → F → Store F → Period F × Store F
  create_period start end capital s =
      let p : Period F = record {
        id = s.next_id;
        period_start = start;
        period_end = end;
        starting_capital = capital;
        realized_pnl = none;
        ending_capital = none;
        closed = false;
      } in
      (p, record s { periods = s.periods ++ (p ∷ []); next_id = suc s.next_id })

  -- the exit falls on a day of the period, first and last day included
  unfoldable pub exits_in : Date → Date → Trade F → Bool
  exits_in start end t = elim t.exit_day [
    | none ↦ false
    | some d ↦ not (date_lt d start) && not (date_lt end d)
  ]

  -- the recorded profits of the period, NULL ones left out
  unfoldable pub pnls_in : Date → Date → List (Trade F) → List F
  pnls_in start end [] = []
  pnls_in start end (t ∷ ts) =
      if exits_in start end t
      then (elim t.pnl [ none ↦ pnls_in start end ts | some p ↦ p ∷ pnls_in start end ts ])
      else pnls_in start end ts

  -- `_realized_pnl_for`, for the database's `SUM`, which is NULL when there is nothing to add
  unfoldable pub realized_pnl_for : ⦃f : Float F⦄ → (List F → Option F) → Date → Date → Store F → F
  unfolding pnls_in exits_in
  realized_pnl_for sql_sum start end s = get_or_else (sql_sum (pnls_in start end s.trades)) nought
