-- ===== src/Monitor/Tests.antt =====
-- Checks of the strategy monitor (risk/strategy_monitor.py) on concrete trades.
use stocks_fno.Prelude.{◌≡◌, refl, true, Option, some, List, [], ◌∷◌}
use stocks_fno.Float.Fixed.{Fixed, fixed_float, Fixed-IsOrdered}
use stocks_fno.Monitor.Metrics.{
  Row, Trade, Monitor, Curve, flat_curve, curve, mark_resumed, filtered_trades, load_recent_trades,
  Remain, rolling_drawdown, resumed_trades_are_later, profit_factor,
}
use stocks_fno.Monitor.Drawdown.{fall, rolling_drawdown_bounds}

abbrev gain : Trade Fixed
gain = record { pnl = fixed_float.lit 500 0; exit_time = some 10 }

abbrev loss : Trade Fixed
loss = record { pnl = fixed_float.neg (fixed_float.lit 800 0); exit_time = some 20 }

rolling_drawdown_bounds_example :
    (d : Fixed) × (rolling_drawdown (loss ∷ gain ∷ []) ≡ some d)
    × (fixed_float.le (fall (gain.pnl ∷ loss.pnl ∷ [])) d ≡ true)
unfolding stocks_fno.Monitor.Metrics.extend stocks_fno.Int.◌+ℤ◌ stocks_fno.Int.◌-ℤ◌
rolling_drawdown_bounds_example =
    rolling_drawdown_bounds Fixed-IsOrdered loss (gain ∷ []) gain.pnl (loss.pnl ∷ []) [] refl
      (refl, (refl, tt))

-- from a peak of 500 down to -300
drawdown_of_two : rolling_drawdown (loss ∷ gain ∷ []) ≡ some (fixed_float.lit 800 0)
unfolding rolling_drawdown stocks_fno.Int.◌+ℤ◌ stocks_fno.Int.◌-ℤ◌
drawdown_of_two = refl

profit_factor_of_two : profit_factor (loss ∷ gain ∷ []) ≡ some (fixed_float.lit 625 3)
unfolding profit_factor stocks_fno.Int.◌-ℤ◌ stocks_fno.Int.◌+ℤ◌ stocks_fno.Int.◌*ℤ◌
profit_factor_of_two = refl

abbrev monitor : Monitor
monitor = record { rolling_window = 30; pause_reasons = []; paused_at = []; resumed_at = [] }

abbrev rows : Option (List (Row Fixed))
rows = some (record { pnl = some (fixed_float.lit 500 0); exit_time = some 10 } ∷ [])

resumed_trades_are_later_example :
    Remain 15
      (load_recent_trades monitor rows)
      (filtered_trades (mark_resumed "momentum_v1" 15 monitor) "momentum_v1" rows)
resumed_trades_are_later_example = resumed_trades_are_later monitor "momentum_v1" 15 rows
