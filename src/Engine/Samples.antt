-- ===== src/Engine/Samples.antt =====
-- The structures, orders and answers that the checks of live_trading/live_trading_engine.py run on.
use stocks_fno.Prelude.{Bool, true, false, none, some, List, [], ◌∷◌}
use stocks_fno.Int.{pos}
use stocks_fno.Float.{nought}
use stocks_fno.Float.Fixed.{Fixed, fixed_float}
use stocks_fno.Calendar.{date}
use stocks_fno.Risk.Manager.{RiskManager, init}
use stocks_fno.Risk.Validate.{buy}
use stocks_fno.Strategy.Premium.{default_settings}
use stocks_fno.Orders.Store.{completed, Order, answered, timed_out, Outside, Oms, Moment}
use stocks_fno.Orders.Finished.{expires}
use stocks_fno.Engine.Legs.{Leg, Holdings}
use stocks_fno.Engine.Course.{Course}
use stocks_fno.Engine.State.{Spread, Condor, bull_put, Engine}
use stocks_fno.Engine.Condor.{CondorPlan, CondorAnswers, Quotes}
use stocks_fno.Engine.Reasons.{Quote, View, Loaded}
use stocks_fno.Engine.Check.{Event, enters_spread, checks_spreads, checks_condors, calls}
use stocks_fno.Engine.Spread.{SpreadPlan, SpreadAnswers, fresh_leg, spread_of}

unfoldable pub manager : RiskManager Fixed
unfolding init
manager = init (fixed_float.lit 500000 0) (fixed_float.lit 3 1) (fixed_float.lit 5 2)

abbrev pub moment : Moment
moment = record { now = 1000; clock = record { today = date 2026 11 26; stamp = "" } }

-- A broker that takes every order and lists none; and one whose answers are all lost.
abbrev pub prompt : Outside Fixed Bool
prompt = record {
  place = λ s w. (answered "k1", w);
  get_orders = λ w. (answered [], w);
  cancel = λ id w. (answered true, w);
  writes = λ w. (true, w);
  reads = λ w. (true, w);
}

abbrev pub mute : Outside Fixed Bool
mute = record prompt { place = λ s w. (timed_out, w); get_orders = λ w. (timed_out, w) }

-- the order that opened a short leg
abbrev pub sold : Order Fixed
sold = record {
  id = 1;
  broker_order_id = some "k0";
  symbol = "RELIANCE26DEC2800PE";
  side = buy;
  quantity = pos 500;
  filled_quantity = some (pos 500);
  price = some (fixed_float.lit 20 0);
  fill_price = some (fixed_float.lit 20 0);
  slippage = none;
  order_status = completed;
  created_at = some 10;
}

abbrev pub store : Oms Fixed Bool
store = record {
  world = false;
  orders = sold ∷ [];
  next_id = 2;
  audit_logs = [];
  risk_manager = manager;
}

abbrev pub short_leg : Leg Fixed
short_leg =
    fresh_leg "RELIANCE26DEC2800PE" true (fixed_float.lit 2800 0) (fixed_float.lit 20 0) none

abbrev pub course : Course Fixed Bool
course = record { leg = short_leg; oms = store; sent = [] }

abbrev pub holdings : Holdings
holdings = record { known = false; positions = [] }

-- a state without structures
abbrev pub idle : Engine Fixed Bool
idle = record {
  oms = store;
  active_spreads = [];
  active_condors = [];
  exited_today = [];
  profit_closed_today = [];
  close_on_first_cycle = [];
  sl_freq = some [];
  journal = [];
  cancelled_gtts = [];
  alerts = [];
  today_order_count = 0;
}

abbrev pub plan : SpreadPlan Fixed
plan = record {
  symbol = "RELIANCE";
  strategy = "credit_spread_v1";
  spread_type = bull_put;
  short_contract = "RELIANCE26DEC2800PE";
  long_contract = "RELIANCE26DEC2750PE";
  short_strike = fixed_float.lit 2800 0;
  long_strike = fixed_float.lit 2750 0;
  short_p = fixed_float.lit 20 0;
  long_p = fixed_float.lit 10 0;
  net_credit = fixed_float.lit 10 0;
  lot_size = pos 100;
  iv_rank = some (fixed_float.lit 5 1);
  vix = some (fixed_float.lit 15 0);
}

abbrev pub answers : SpreadAnswers Fixed
answers = record { unwind_quote = none; journal_id = some 1; gtt_id = none }

abbrev pub quote : Quote Fixed
quote = record { ltp = some (fixed_float.lit 12 0); estimate = fixed_float.lit 12 0 }

-- one day before the expiry
abbrev pub view : View Fixed
view = record {
  moment = moment;
  holdings = holdings;
  today = date 2026 12 28;
  current_price = fixed_float.lit 2900 0;
  dte = pos 1;
  vix = none;
  regime = none;
  short_quote = quote;
  long_quote = quote;
  call_short_quote = quote;
  call_long_quote = quote;
  delta = none;
  call_delta = none;
}

abbrev pub events : List (Event Fixed)
events =
    enters_spread moment false 0 plan answers
    ∷ calls ((moment, expires) ∷ [])
    ∷ checks_spreads none (λ u. view)
    ∷ checks_condors none (λ u. view)
    ∷ []

abbrev pub waits : List (Event Fixed)
waits = calls ((moment, expires) ∷ []) ∷ checks_condors none (λ u. view) ∷ []

abbrev pub recorded : Spread Fixed
recorded = spread_of plan answers (fixed_float.lit 20 0) (fixed_float.lit 10 0)

-- the same view, with a short leg that has decayed to a quarter of its premium
abbrev pub decayed : View Fixed
decayed = record view {
  dte = pos 30;
  short_quote = record { ltp = some (fixed_float.lit 5 0); estimate = fixed_float.lit 5 0 };
  long_quote = record { ltp = some (fixed_float.lit 1 0); estimate = fixed_float.lit 1 0 };
}

unfoldable pub loaded : Loaded Fixed
unfolding default_settings
loaded = record { settings = default_settings; min_dte = pos 7 }

-- A narrow spread: the long leg has lost more than the short leg has gained.
abbrev pub narrow : Spread Fixed
narrow = spread_of plan answers (fixed_float.lit 20 0) (fixed_float.lit 18 0)

abbrev pub condor : Condor Fixed
condor = record {
  put_short = short_leg;
  put_long =
      fresh_leg "RELIANCE26DEC2750PE" false (fixed_float.lit 2750 0) (fixed_float.lit 10 0) none;
  call_short =
      fresh_leg "RELIANCE26DEC3000CE" true (fixed_float.lit 3000 0) (fixed_float.lit 20 0) none;
  call_long =
      fresh_leg "RELIANCE26DEC3050CE" false (fixed_float.lit 3050 0) (fixed_float.lit 10 0) none;
  net_credit = fixed_float.lit 20 0;
  lot_size = pos 100;
  journal_id = some 2;
  strategy_name = some "iron_condor_v1";
  entry_date = some (date 2026 11 20);
  entry_vix = nought;
  partial_exit_alerted = false;
}

abbrev pub holding : Engine Fixed Bool
holding = record idle {
  active_spreads = ("RELIANCE", recorded) ∷ [];
  active_condors = ("TCS", condor) ∷ [];
}

abbrev pub condor_plan : CondorPlan Fixed
condor_plan = record {
  symbol = "TCS";
  strategy = "iron_condor_v1";
  psc = "TCS26DEC3000PE";
  plc = "TCS26DEC2950PE";
  csc = "TCS26DEC3400CE";
  clc = "TCS26DEC3450CE";
  put_short_strike = fixed_float.lit 3000 0;
  put_long_strike = fixed_float.lit 2950 0;
  call_short_strike = fixed_float.lit 3400 0;
  call_long_strike = fixed_float.lit 3450 0;
  put_short_p = fixed_float.lit 20 0;
  put_long_p = fixed_float.lit 10 0;
  call_short_p = fixed_float.lit 18 0;
  call_long_p = fixed_float.lit 9 0;
  net_credit = fixed_float.lit 19 0;
  lot_size = pos 100;
  iv_rank = some (fixed_float.lit 5 1);
  vix = some (fixed_float.lit 15 0);
  today = date 2026 11 26;
}

abbrev pub condor_answers : CondorAnswers Fixed
condor_answers = record {
  unwind_quote = λ k. none;
  journal_id = some 2;
  put_gtt = none;
  call_gtt = none;
}

abbrev pub opened_condor : Condor Fixed
opened_condor = record {
  put_short = fresh_leg "TCS26DEC3000PE" true (fixed_float.lit 3000 0) (fixed_float.lit 20 0) none;
  put_long = fresh_leg "TCS26DEC2950PE" false (fixed_float.lit 2950 0) (fixed_float.lit 10 0) none;
  call_short = fresh_leg "TCS26DEC3400CE" true (fixed_float.lit 3400 0) (fixed_float.lit 18 0) none;
  call_long = fresh_leg "TCS26DEC3450CE" false (fixed_float.lit 3450 0) (fixed_float.lit 9 0) none;
  net_credit = fixed_float.lit 19 0;
  lot_size = pos 100;
  journal_id = some 2;
  strategy_name = some "iron_condor_v1";
  entry_date = some (date 2026 11 26);
  entry_vix = fixed_float.lit 15 0;
  partial_exit_alerted = false;
}

abbrev pub prices : Quotes Fixed
prices = record {
  ps = fixed_float.lit 12 0;
  pl = fixed_float.lit 6 0;
  cs = fixed_float.lit 11 0;
  cl = fixed_float.lit 5 0;
}

abbrev pub passes : List (Event Fixed)
passes = calls ((moment, expires) ∷ []) ∷ checks_spreads none (λ u. view) ∷ []
