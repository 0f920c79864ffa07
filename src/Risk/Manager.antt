-- ===== src/Risk/Manager.antt =====
-- The state of `RiskManager` (risk/risk_manager.py) and the operations that change it.
use stocks_fno.Prelude.{ℕ, Bool, true, false, Option, none, some, List, [], String, get_or_else}
use stocks_fno.Int.{ℤ}
use stocks_fno.Dict.{Dict, lookup, insert}
use stocks_fno.Float.{Float, nought, py_max}

-- a position as the broker reports it; either key may be missing
pub record Position : Type 0 where
  pub symbol : Option String
  pub quantity : Option ℤ

pub record RiskManager (F : Type 0) : Type 0 where
  pub initial_capital : F
  pub max_daily_loss_pct : F
  pub max_open_positions : ℕ
  pub max_exposure_per_trade_pct : F
  pub circuit_breaker_active : Bool
  pub kill_switch_active : Bool
  pub kill_switch_reason : Option String
  pub kill_switch_activated_at : Option String
  pub current_open_positions : List Position
  pub daily_realized_pnl : F
  pub daily_unrealized_pnl : F
  pub strategy_deployed : Dict F

module _ {F : Type 0} ⦃f : Float F⦄ where
  -- `RiskManager(initial_capital, max_exposure_per_trade_pct, max_daily_loss_pct)`
  unfoldable pub init : F → F → F → RiskManager F
  init capital exposure_pct loss_pct = record {
    initial_capital = capital;
    max_daily_loss_pct = loss_pct;
    max_open_positions = 25;
    max_exposure_per_trade_pct = exposure_pct;
    circuit_breaker_active = false;
    kill_switch_active = false;
    kill_switch_reason = none;
    kill_switch_activated_at = none;
    current_open_positions = [];
    daily_realized_pnl = nought;
    daily_unrealized_pnl = nought;
    strategy_deployed = [];
  }

  unfoldable pub update_state : RiskManager F → List Position → F → F → RiskManager F
  update_state m positions realized unrealized = record m {
    current_open_positions = positions;
    daily_realized_pnl = realized;
    daily_unrealized_pnl = unrealized;
  }

  unfoldable pub reset_daily_state : RiskManager F → RiskManager F
  reset_daily_state m = record m {
    daily_realized_pnl = nought;
    daily_unrealized_pnl = nought;
    strategy_deployed = [];
  }

  -- `_strategy_deployed` is a `defaultdict(float)`
  unfoldable pub deployed : RiskManager F → String → F
  deployed m strategy = get_or_else (lookup strategy m.strategy_deployed) nought

  unfoldable pub add_deployed_capital : RiskManager F → String → F → RiskManager F
  unfolding deployed
  add_deployed_capital m strategy amount = record m {
    strategy_deployed = insert strategy (f.add (deployed m strategy) amount) m.strategy_deployed;
  }

  unfoldable pub release_deployed_capital : RiskManager F → String → F → RiskManager F
  unfolding deployed py_max
  release_deployed_capital m strategy amount = record m {
    strategy_deployed =
        insert strategy (py_max nought (f.sub (deployed m strategy) amount)) m.strategy_deployed;
  }

  -- `stamp` is `datetime.utcnow().isoformat()`
  unfoldable pub activate_kill_switch : RiskManager F → String → String → RiskManager F
  activate_kill_switch m reason stamp = record m {
    kill_switch_active = true;
    kill_switch_reason = some reason;
    kill_switch_activated_at = some stamp;
  }

  unfoldable pub deactivate_kill_switch : RiskManager F → RiskManager F
  deactivate_kill_switch m = record m {
    kill_switch_active = false;
    kill_switch_reason = none;
    kill_switch_activated_at = none;
  }

  unfoldable pub set_capital : RiskManager F → F → RiskManager F
  set_capital m capital = record m { initial_capital = capital }
