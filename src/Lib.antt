-- ===== src/Lib.antt =====
-- Stocks_FNO trades options on Indian stocks: strategies propose entries, the risk manager admits or
-- refuses them, the order manager carries them to a broker and keeps their rows in the database, and
-- two brokers, the simulated one and Zerodha, fill them. Around these, the market regime switches
-- strategies on and off, a monitor watches recent trades, capital periods hand the capital on from one
-- expiry to the next, and the calendar says which days are expiries and when the market is open.
--
-- The files, and the code that each is about (paths from the repository's root):
--   Orders: src/orders/order_manager.py. `Oms` is the state of an `OrderManager`: the rows of
--     src/database/models/order.py, newest first, the audit log, the risk manager, and the world behind
--     the broker and the database. Orders/Place is `place_order`, Orders/Sync is `sync_orders`,
--     `cancel_order` and `_retry_pending_verification_orders`, Orders/Expire is
--     `expire_stale_orders`; a helper of the code is a function of the same name without its
--     underscore. Orders/Outcome, Orders/Newest and Orders/Refused follow one new order, Orders/Finished
--     any sequence of calls, and Orders/Sweep the rows that a sweep verifies.
--   Engine: src/live_trading/live_trading_engine.py, its credit spreads and iron condors. Engine/Legs is
--     `_close_leg` of both exit checks with `_resolve_pending_exit_order`, Engine/Spread and
--     Engine/Condor the orders of an entry and the close of a structure, Engine/Reasons the conditions
--     of an exit, Engine/Check the loops of `_check_spread_exits` and `_check_condor_exits`. `Engine`
--     is the state they share, around the order manager. Engine/Rebuild is `_rebuild_deployed_capital`
--     and `_sync_must_track_underlyings`, with the positions of single legs that they read,
--     and Engine/Single `_execute_single_leg_exit`, whose outcome is in Engine/SingleFate.
--     Engine/Course and Engine/CloseOnce follow one leg, Engine/Rebuilt and Engine/Tracked are about Engine/Rebuild, the
--     other files follow all structures through sequences of events.
--   Risk: src/risk/risk_manager.py. `validate_trade` returns its verdict and the state after it, since
--     the loss limit trips the kill switch. Risk/Contract is `build_option_symbol` of src/core/utils.py.
--   Zerodha: `place_order` of src/brokers/zerodha.py with its three attempts.
--   Paper: src/paper_trading/paper_broker.py, all calls of `PaperBroker`.
--   Capital: src/portfolio/capital_periods.py, on the tables of capital periods and trades.
--   Calendar: the dates of src/core/utils.py, and `_add_trading_days` and `has_event_within_days` of
--     src/market_data/event_calendar.py.
--   Bars: `update_intraday_bar` of src/core/utils.py.
--   Strategy: src/strategies/base.py, credit_spread.py and iron_condor.py, and the classification and
--     switching of src/market_data/regime_detector.py.
--   Monitor: src/risk/strategy_monitor.py. Constants: the tables of src/core/constants.py.
--   Prelude, Int, Dict and Float are shared: lists and tests over the native numbers, signed integers,
--     dictionaries in insertion order, and Python's floats.
--
-- What is a parameter. `Float` is an interface of operations without laws; a theorem that needs the
-- order of numbers takes `IsOrdered`, and Float/Fixed is an instance over whole ten-thousandths for the
-- tests. `Outside` stands for the broker and for whether a guarded database call succeeds, `Kite` for
-- the Kite client, each with a world of its own that any call may change; a reply may be a value, a
-- timeout or an error. The exchange's holidays, the loaded event calendar, `date.fromisoformat`, how a
-- strike is printed, SQL's sum, and the random draws, clocks and identifiers of Python are arguments.
--
-- Loops. The search for the last expiry of a month has seven steps, since a week holds every weekday;
-- an order's decimal digits have nineteen, as a 64-bit key has; Zerodha's loop has its three attempts.
-- The rollover has as many rounds as the day has rank in the calendar, each of which moves the open
-- period's end to a later day; the fuel of `_add_trading_days` is a number of days that hold enough
-- trading days. All other loops are recursion on their lists.
--
-- What is not modelled. Log lines, sleeps and the words of notes and notifications; the rounding of
-- prices by the columns' Numeric(18,4); failures of database calls that the code does not guard;
-- `upper` of letters outside ASCII. `async` code is sequential here: each call runs to its end before
-- the next, as the locks of `sync_orders`, of the exit cycle and of the rollover make sure; other calls
-- interleaving where the code awaits are not modelled. Of the live trading engine, the entries of
-- single legs and the reasons of their exits, the square-off, the gates before the first order of an entry and the restoring of state
-- are not modelled; nor are an exception inside an exit check, which the code logs and passes over, and
-- the five days after which a counter of adverse exits is dropped. The data feeds, the trend
-- strategies, backtesting, the web interface and Zerodha's authentication, cancel, modify and listing
-- calls are not modelled.
pub mod Prelude
pub mod Int
pub mod Dict
pub mod Float
pub mod Calendar
pub mod Constants
pub mod Risk
pub mod Paper
pub mod Capital
pub mod Orders
pub mod Strategy
pub mod Zerodha
pub mod Bars
pub mod Monitor
pub mod Engine
