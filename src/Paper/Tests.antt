-- ===== src/Paper/Tests.antt =====
-- Checks of the paper broker (paper_trading/paper_broker.py) on concrete calls.
use stocks_fno.Prelude.{◌≡◌, refl, true, false, List, [], ◌∷◌}
use stocks_fno.Int.{ℤ, pos}
use stocks_fno.Dict.{lookup}
use stocks_fno.Float.{nought}
use stocks_fno.Float.Fixed.{Fixed, fixed_float, Fixed-IsOrdered}
use stocks_fno.Risk.Validate.{buy, sell}
use stocks_fno.Paper.Broker.{
  Broker, Request, Result, ok, init, fill_of, cost_of, fees_of, place_order, cancel_order,
}
use stocks_fno.Paper.Calls.{Call, places, cancels, step, run}
use stocks_fno.Paper.Effects.{Outcome, place_order-Outcome, buy_keeps_balance}
use stocks_fno.Paper.Margin.{IsMargined, run-IsMargined}
use stocks_fno.Paper.Ledger.{IsBalanced, AreFresh, run-IsBalanced}

abbrev million : Fixed
million = fixed_float.lit 1000000 0

abbrev broker : Broker Fixed
unfolding init
broker = init million

abbrev purchase : Request Fixed
purchase = record {
  order_id = "a1";
  timestamp = 1;
  reject_draw = fixed_float.lit 9 1;
  slip_draw = fixed_float.lit 5 1;
  symbol = "INFY26DEC1500CE";
  side = buy;
  quantity = pos 400;
  price = fixed_float.lit 25 0;
}

abbrev short_sale : Request Fixed
short_sale = record purchase { order_id = "a2"; side = sell; symbol = "INFY26DEC1600CE" }

abbrev calls : List (Call Fixed)
calls = places purchase ∷ places short_sale ∷ cancels "a1" ∷ []

place_order-Outcome_example : Outcome broker purchase (place_order broker purchase)
place_order-Outcome_example = place_order-Outcome broker purchase

buy_keeps_balance_example : fixed_float.le nought (place_order broker purchase).1.balance ≡ true
unfolding broker place_order stocks_fno.Paper.Fills.is_rejected
    stocks_fno.Paper.Fills.fill_simulation stocks_fno.Paper.Broker.lacks_funds
    stocks_fno.Paper.Fills.fill_price stocks_fno.Int.◌+ℤ◌ stocks_fno.Int.◌*ℤ◌
    stocks_fno.Paper.Fills.transaction_fees stocks_fno.Paper.Broker.lacks_margin
    stocks_fno.Paper.Broker.execute stocks_fno.Int.◌-ℤ◌
buy_keeps_balance_example =
    buy_keeps_balance Fixed-IsOrdered broker purchase {id = "a1"} refl refl refl refl refl

run-IsMargined_example : IsMargined (run (init million) calls)
run-IsMargined_example = run-IsMargined million calls

run-IsBalanced_example :
    IsBalanced (run (init million) calls)
    × (cancel_order (run (init million) calls) "a2" ≡ (false, run (init million) calls))
unfolding AreFresh init lookup step place_order stocks_fno.Paper.Fills.is_rejected
    stocks_fno.Paper.Fills.fill_simulation stocks_fno.Paper.Broker.lacks_funds
    stocks_fno.Paper.Fills.fill_price stocks_fno.Int.◌+ℤ◌ stocks_fno.Int.◌*ℤ◌
    stocks_fno.Paper.Fills.transaction_fees stocks_fno.Paper.Broker.lacks_margin
    stocks_fno.Paper.Broker.execute stocks_fno.Dict.insert
run-IsBalanced_example = run-IsBalanced million calls "a2" (refl, (refl, tt))
