-- ===== src/Engine/OpenTests.antt =====
-- Checks of what is rebuilt from the open positions (live_trading/live_trading_engine.py).
use stocks_fno.Prelude.{
  ◌≡◌, length, ◌||◌, refl, Bool, true, none, some, List, [], ◌∷◌, elem, eq_iff, get_or_else, arith,
}
use stocks_fno.Int.{pos, ◌-ℤ◌, ◌*ℤ◌, ◌+ℤ◌}
use stocks_fno.Float.{nought}
use stocks_fno.Float.Fixed.{Fixed, fixed_float}
use stocks_fno.Dict.{Dict, lookup}
use stocks_fno.Risk.Manager.{deployed, add_deployed_capital}
use stocks_fno.Engine.State.{Engine, is_tracked}
use stocks_fno.Engine.Rebuild.{
  SingleLeg, Held, Fetches, has_single_leg, on_market_open, sync_must_track,
}
use stocks_fno.Engine.Rebuilt.{total, dues, rebuilt_capital}
use stocks_fno.Engine.Tracked.{sync_follows_open}
use stocks_fno.Paper.Fills.{transaction_fees}
use stocks_fno.Engine.Single.{
  Singles, SingleExit, settle_single, single_pnl, execute_single_leg_exit,
}
use stocks_fno.Engine.SingleFate.{Fate, decided_by, execute_single_leg_exit-Fate}
use stocks_fno.Engine.Samples.{sold, store, prompt, moment, manager, idle, recorded, opened_condor}

abbrev busy : Engine Fixed Bool
busy = record idle {
  active_spreads = ("RELIANCE", recorded) ∷ [];
  active_condors = ("NIFTY", opened_condor) ∷ [];
}

abbrev journals : Dict SingleLeg
journals =
    (
      "TCS26DEC3000CE",
      record { strategy_name = some "momentum_v1"; underlying = "TCS"; journal_id = 7 },
    )
    ∷ (
      "INFY26DEC1500CE",
      record { strategy_name = some "momentum_v1"; underlying = "INFY"; journal_id = 8 },
    )
    ∷ []

-- The second option is no longer held.
abbrev held : List (Held Fixed)
held =
    record {
      symbol = "TCS26DEC3000CE";
      quantity = pos 150;
      avg_price = some (fixed_float.lit 40 0);
    }
    ∷ record { symbol = "INFY26DEC1500CE"; quantity = pos 0; avg_price = none }
    ∷ []

abbrev fetches : Fetches
fetches = record { known = true; successes = 3; failures = 0 }

rebuilt_capital_example :
    deployed (on_market_open journals (some held) busy fetches).0.oms.risk_manager "momentum_v1"
    ≡ total "momentum_v1" (dues journals (some held) busy) nought
rebuilt_capital_example = rebuilt_capital journals (some held) busy fetches "momentum_v1"

-- 150 options at 40, and a spread of 50 points for a credit of 10, in lots of 100
rebuilt_amounts :
    (deployed (on_market_open journals (some held) busy fetches).0.oms.risk_manager "momentum_v1"
      ≡ fixed_float.lit 6000 0)
    × (deployed (on_market_open journals none busy fetches).0.oms.risk_manager "credit_spread_v1"
        ≡ fixed_float.lit 4000 0)
    × (deployed (on_market_open journals none busy fetches).0.oms.risk_manager "momentum_v1"
        ≡ nought)
unfolding on_market_open deployed add_deployed_capital ◌-ℤ◌ ◌*ℤ◌ ◌+ℤ◌ manager
rebuilt_amounts = (refl, refl, refl)

sync_follows_open_example :
    elem "TCS" (get_or_else (sync_must_track journals busy (some ("WIPRO" ∷ []))) [])
    ≡ (is_tracked "TCS" busy || has_single_leg "TCS" journals)
sync_follows_open_example =
    sync_follows_open journals busy ("WIPRO" ∷ []) "TCS"
      (λ e. ground (arith, (eq_iff "TCS" "").1 e))

-- The poller lets go of WIPRO, on which nothing is open, and follows the four others.
synced_names :
    sync_must_track journals busy (some ("WIPRO" ∷ []))
    ≡ some ("INFY" ∷ "TCS" ∷ "NIFTY" ∷ "RELIANCE" ∷ [])
unfolding sync_must_track lookup
synced_names = refl

abbrev singles : Singles Fixed Bool
singles = record {
  oms = store;
  journals = journals;
  pending_exits = [];
  peak_premiums = ("TCS26DEC3000CE", fixed_float.lit 45 0) ∷ [];
  peak_profits = [];
  exited_today = [];
  closings = [];
}

-- the sale of 150 options at 30 that were bought at 40
abbrev sale : SingleExit Fixed
sale = record {
  contract = "TCS26DEC3000CE";
  qty = pos 150;
  entry_p = fixed_float.lit 40 0;
  current_p = fixed_float.lit 30 0;
  exit_reason = "stop";
}

execute_single_leg_exit-Fate_example :
    let (d, m) =
      decided_by prompt moment sale singles (lookup sale.contract singles.pending_exits) in
    Fate sale singles d m (execute_single_leg_exit prompt moment sale singles)
execute_single_leg_exit-Fate_example = execute_single_leg_exit-Fate prompt moment sale singles

-- An order that was filled at 20 closes the option at a loss.
sold_at_a_loss :
    let (ok, s) = settle_single sale sold singles in
    (ok ≡ true) × (s.exited_today ≡ "TCS" ∷ []) × (length s.closings ≡ 1) × (length s.journals ≡ 1)
unfolding settle_single single_pnl transaction_fees ◌-ℤ◌ ◌*ℤ◌ ◌+ℤ◌
sold_at_a_loss = (refl, refl, refl, refl)
