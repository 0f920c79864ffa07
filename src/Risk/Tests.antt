-- ===== src/Risk/Tests.antt =====
-- Checks of the risk rules (risk/risk_manager.py) at concrete states.
use stocks_fno.Prelude.{◌≡◌, refl, true, false, none, some, List, [], ◌∷◌, String, arith}
use stocks_fno.Int.{ℤ, pos}
use stocks_fno.Dict.{lookup}
use stocks_fno.Float.{nought}
use stocks_fno.Float.Fixed.{Fixed, fixed_float, Fixed-IsOrdered}
use stocks_fno.Calendar.{Date, date}
use stocks_fno.Constants.{fno_symbols}
use stocks_fno.Risk.Underlying.{get_underlying, get_underlying_lem, IsLongest, prefix_of}
use stocks_fno.Calendar.Expiry.{Moment}
use stocks_fno.Risk.Contract.{build_option_symbol, get_underlying-build_option_symbol}
use stocks_fno.Risk.Manager.{RiskManager, init, update_state, deployed}
use stocks_fno.Risk.Validate.{
  Side, buy, sell, Trade, Clock, validate_trade, loss_limit_hit, sector_ok, budget_ok, count_ok,
  exposure_ok, premium_ok,
}
use stocks_fno.Risk.Latch.{
  Call, adds, releases, validates, resets, step, run, DeployedNonneg, loss_limit_latches,
  run-DeployedNonneg,
}

abbrev fresh_manager : RiskManager Fixed
unfolding init
fresh_manager = init (fixed_float.lit 500000 0) (fixed_float.lit 3 1) (fixed_float.lit 5 2)

-- a day that has lost 30,000 of 500,000
abbrev losing_manager : RiskManager Fixed
unfolding update_state
losing_manager = update_state fresh_manager [] (fixed_float.neg (fixed_float.lit 30000 0)) nought

abbrev morning : Clock
morning = record { today = date 2026 11 26; stamp = "2026-11-26T05:00:00" }

abbrev entry : Trade Fixed
entry = record {
  symbol = "RELIANCE26DEC3000CE";
  side = buy;
  quantity = pos 500;
  price = fixed_float.lit 20 0;
  is_spread_leg = false;
  is_exit_order = false;
  strategy_name = some "ema_crossover_v1";
  iv_rank = none;
  vix = none;
  capital_at_risk = none;
}

abbrev closing : Trade Fixed
closing = record entry { side = sell; is_exit_order = true }

loss_limit_latches_example :
    let after =
      run (step losing_manager (validates morning entry)) (resets ∷ validates morning entry ∷ []) in
    ((validate_trade losing_manager morning entry).0 ≡ false)
    × (after.kill_switch_active ≡ true)
    × (validate_trade after morning entry ≡ (false, after))
unfolding step losing_manager fresh_manager loss_limit_hit stocks_fno.Calendar.date_lt
    stocks_fno.Int.◌+ℤ◌ stocks_fno.Int.◌-ℤ◌ stocks_fno.Int.◌*ℤ◌
loss_limit_latches_example =
    loss_limit_latches losing_manager morning entry (resets ∷ validates morning entry ∷ []) morning
      entry refl (ground arith, refl) refl refl (tt, (tt, tt)) (ground arith, refl)

-- The entry is let through in the morning, so that its limits are met.
entry_passes : (validate_trade fresh_manager morning entry).0 ≡ true
unfolding fresh_manager validate_trade loss_limit_hit sector_ok budget_ok count_ok exposure_ok
    premium_ok stocks_fno.Calendar.date_lt stocks_fno.Int.◌+ℤ◌ stocks_fno.Int.◌-ℤ◌
    stocks_fno.Int.◌*ℤ◌ stocks_fno.Risk.Validate.sector_of lookup stocks_fno.Constants.fno_sectors
    get_underlying stocks_fno.Risk.Underlying.first_prefix stocks_fno.Risk.Underlying.sort_by_length
    fno_symbols stocks_fno.Risk.Validate.count_if stocks_fno.Constants.allocated_strategies
    stocks_fno.Risk.Validate.capital_needed deployed stocks_fno.Risk.Validate.holds
entry_passes = refl

abbrev history : List (Call Fixed)
history =
    adds "momentum_v1" (fixed_float.lit 10000 0)
    ∷ releases "momentum_v1" (fixed_float.lit 25000 0)
    ∷ validates morning entry
    ∷ []

run-DeployedNonneg_example : DeployedNonneg (run fresh_manager history)
unfolding fresh_manager deployed lookup
run-DeployedNonneg_example =
    run-DeployedNonneg Fixed-IsOrdered fresh_manager history (refl, (tt, (tt, tt))) (λ s. refl)

abbrev noon : Moment
noon = record { today = date 2026 11 26; micros = 43200000000 }

-- a whole strike, as it is printed
abbrev strike_str : String → String
strike_str s = s

builds : build_option_symbol strike_str noon "RELIANCE" "3000" "CE" none ≡ "RELIANCE26DEC3000CE"
unfolding build_option_symbol stocks_fno.Calendar.Expiry.near_month_expiry
    stocks_fno.Calendar.Expiry.days_until stocks_fno.Int.◌-ℤ◌ stocks_fno.Calendar.ordinal
    stocks_fno.Calendar.days_before_month stocks_fno.Calendar.days_in_month
    stocks_fno.Calendar.Expiry.last_expiry_weekday stocks_fno.Calendar.Expiry.back_to_expiry
    stocks_fno.Calendar.weekday stocks_fno.Calendar.prev_day stocks_fno.Calendar.Expiry.next_expiry
builds = refl

get_underlying-build_option_symbol_example :
    get_underlying (build_option_symbol strike_str noon "M&M" "167.5" "PE" (some (date 2027 1 25)))
    ≡ "M&M"
unfolding fno_symbols
get_underlying-build_option_symbol_example =
    get_underlying-build_option_symbol strike_str noon "M&M" "167.5" "PE" (some (date 2027 1 25))
      refl
