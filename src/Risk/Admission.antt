-- ===== src/Risk/Admission.antt =====
-- Which orders `validate_trade` lets through (risk/risk_manager.py).
use stocks_fno.Prelude.{◌+◌, ◌≤◌, ◌≡◌, ◌≢◌, ◌⊎◌, true, false, Option, some, String, elem, length}
use stocks_fno.Int.{pos, ◌≤ℤ◌}
use stocks_fno.Float.{Float, nought}
use stocks_fno.Constants.{allocated_strategies}
use stocks_fno.Risk.Manager.{RiskManager, deployed}
use stocks_fno.Risk.Validate.{
  buy, Trade, premium_strategies, named_in, sector_of, in_sector, count_if, holds, trade_value,
  budget, capital_needed,
}

module _ {F : Type 0} ⦃f : Float F⦄ where
  -- The quantity and the price are positive, as far as the check tells.
  abbrev pub IsSized : Trade F → Type 0
  IsSized t = (pos 1 ≤ℤ t.quantity) × (f.le t.price nought ≡ false)

  -- IV rank and VIX are known, and neither is below its floor.
  abbrev pub IsRich : Option F → Option F → Type 0
  IsRich iv_rank vix =
      (iv : F) × (v : F) × (iv_rank ≡ some iv)
      × (vix ≡ some v)
      × (f.lt iv nought ≡ false)
      × (f.lt v (f.lit 12 0) ≡ false)

  -- The limits on a new position, as the risk rules state them.
  pub record IsWithinLimits (m : RiskManager F) (t : Trade F) : Type 0 where
    pub premium : named_in t.strategy_name premium_strategies ≡ true → IsRich t.iv_rank t.vix
    pub sector :
        sector_of t.symbol "UNKNOWN" ≢ "UNKNOWN"
        → count_if (in_sector (sector_of t.symbol "UNKNOWN") t.symbol) m.current_open_positions ≤ 1
    pub budgeted :
        (s : String)
        → t.strategy_name ≡ some s
        → s ≢ ""
        → elem s allocated_strategies ≡ true
        → f.lt nought (capital_needed t) ≡ true
        → f.lt budget (f.add (deployed m s) (capital_needed t)) ≡ false
    pub place :
        (holds t.symbol m.current_open_positions ≡ true)
        ⊎ (length m.current_open_positions + 1 ≤ m.max_open_positions)
    pub exposure :
        t.side ≡ buy
        → f.lt (f.mul m.initial_capital m.max_exposure_per_trade_pct) (trade_value t) ≡ false
