-- ===== src/Orders/Tests.antt =====
-- Checks of the order manager (orders/order_manager.py) on concrete histories.
use stocks_fno.Prelude.{
  ◌≡◌, inr, not, ◌&&◌, refl, Bool, true, false, none, some, [], ◌∷◌, String, if◌then◌else◌, arith,
}
use stocks_fno.Int.{ℤ, pos}
use stocks_fno.Float.{Float, nought}
use stocks_fno.Float.Fixed.{Fixed, fixed_float}
use stocks_fno.Calendar.{Date, date}
use stocks_fno.Risk.Manager.{RiskManager, init, deployed}
use stocks_fno.Risk.Validate.{buy, Clock, validate_trade}
use stocks_fno.Orders.Store.{
  OrderStatus, opened, completed, pending, pending_verification, Order, Context, Entry, BrokerOrder,
  Reply, answered, timed_out, raised, Submission, Outside, Oms, Moment, get_by_id, has_open,
}
use stocks_fno.Orders.Place.{Request, place_order, submission_of, new_order}
use stocks_fno.Orders.Expire.{expire_stale_orders}
use stocks_fno.Orders.Outcome.{Fate, Stored, is_written, place_order-Fate}
use stocks_fno.Orders.Refused.{
  StaysHome, IsWaiting, refused_orders_stay_home, unverified_orders_wait,
}
use stocks_fno.Orders.Sweep.{Swept, sweep_settles}
use stocks_fno.Orders.Sync.{retry_pending_verification_orders}
use stocks_fno.Orders.Finished.{places, cancels, syncs, expires, run, finished_orders_stay}

abbrev manager : RiskManager Fixed
unfolding init
manager = init (fixed_float.lit 500000 0) (fixed_float.lit 3 1) (fixed_float.lit 5 2)

abbrev moment : Moment
moment = record { now = 1000; clock = record { today = date 2026 11 26; stamp = "" } }

-- an order of the broker's list
abbrev listed : String → String → BrokerOrder Fixed
listed tag status = record {
  order_id = "k1";
  tag = some tag;
  status = some status;
  fill_price = none;
  average_price = none;
  filled_quantity = none;
}

-- A broker whose answer to an order is lost, and that lists the order as open until it is cancelled.
-- The state tells whether it is.
abbrev slow : Outside Fixed Bool
slow = record {
  place = λ s w. (timed_out, w);
  get_orders = λ w. (answered (listed "ft1" (if w then "CANCELLED" else "OPEN") ∷ []), w);
  cancel = λ id w. (answered true, true);
  writes = λ w. (true, w);
  reads = λ w. (true, w);
}

abbrev start : Oms Fixed Bool
start = record { world = false; orders = []; next_id = 1; audit_logs = []; risk_manager = manager }

abbrev entry : Request Fixed
entry = record {
  symbol = "RELIANCE26DEC3000CE";
  side = buy;
  quantity = pos 500;
  price = fixed_float.lit 20 0;
  is_spread_leg = false;
  is_exit_order = false;
  strategy_name = some "ema_crossover_v1";
  iv_rank = none;
  vix = none;
  capital_at_risk = none;
  is_retry = false;
  product_override = none;
}

place_order-Fate_example :
    let w = (slow.writes start.world).1 in
    let (reply, w') = slow.place (submission_of entry 1) w in
    (o : Order Fixed) × ((place_order slow moment entry start).0 ≡ some o)
    × Fate Fixed 1 reply (slow.get_orders w').0 o.order_status o.broker_order_id
    × Stored slow 1
        (new_order entry 1 moment.now)
        (is_written slow reply w')
        (o, (place_order slow moment entry start).1)
unfolding manager stocks_fno.Orders.Store.has_open stocks_fno.Risk.Validate.validate_trade
    stocks_fno.Risk.Validate.loss_limit_hit stocks_fno.Risk.Validate.sector_ok
    stocks_fno.Risk.Validate.budget_ok stocks_fno.Risk.Validate.count_ok
    stocks_fno.Risk.Validate.exposure_ok stocks_fno.Risk.Validate.premium_ok
    stocks_fno.Calendar.date_lt stocks_fno.Int.◌+ℤ◌ stocks_fno.Int.◌-ℤ◌ stocks_fno.Int.◌*ℤ◌
    stocks_fno.Risk.Validate.sector_of stocks_fno.Dict.lookup stocks_fno.Constants.fno_sectors
    stocks_fno.Risk.Underlying.get_underlying stocks_fno.Risk.Underlying.first_prefix
    stocks_fno.Risk.Underlying.sort_by_length stocks_fno.Constants.fno_symbols
    stocks_fno.Risk.Validate.count_if stocks_fno.Constants.allocated_strategies
    stocks_fno.Risk.Validate.capital_needed stocks_fno.Risk.Manager.deployed
    stocks_fno.Risk.Validate.holds
place_order-Fate_example = place_order-Fate slow moment entry start refl refl

abbrev done : Order Fixed
done = record {
  id = 1;
  broker_order_id = some "k0";
  symbol = "RELIANCE26DEC3000CE";
  side = buy;
  quantity = pos 500;
  filled_quantity = some (pos 500);
  price = some (fixed_float.lit 20 0);
  fill_price = some (fixed_float.lit 20 0);
  slippage = none;
  order_status = completed;
  created_at = some 10;
}

abbrev resting : Order Fixed
resting = record done {
  id = 2;
  broker_order_id = some "k1";
  filled_quantity = none;
  fill_price = none;
  order_status = opened;
}

-- the resting order was a retry, so that it is not tried again
abbrev received : Entry
received = record {
  action = "ORDER_RECEIVED";
  order_id = 2;
  context = some (record {
    strategy = some "ema_crossover_v1";
    is_exit_order = false;
    is_spread_leg = false;
    is_retry = true;
  });
}

abbrev later : Oms Fixed Bool
later = record {
  world = false;
  orders = resting ∷ done ∷ [];
  next_id = 3;
  audit_logs = received ∷ [];
  risk_manager = record manager {
    strategy_deployed = ("ema_crossover_v1", fixed_float.lit 40000 0) ∷ [];
  };
}

finished_orders_stay_example :
    get_by_id 1
      (run slow later (
        (moment, expires)
        ∷ (moment, places entry)
        ∷ (moment, cancels 1)
        ∷ (moment, syncs)
        ∷ [])).orders
    ≡ some done
unfolding get_by_id
finished_orders_stay_example =
    finished_orders_stay slow later
      ((moment, expires) ∷ (moment, places entry) ∷ (moment, cancels 1) ∷ (moment, syncs) ∷ []) 1
      done (record { keys = (ground arith, (ground arith, tt)); row = refl; finished = refl })

-- trading is halted, and the finished order is there
abbrev halted : Oms Fixed Bool
halted = record later {
  orders = done ∷ [];
  risk_manager = record manager { kill_switch_active = true };
}

refused_orders_stay_home_example :
    StaysHome slow moment entry halted
      (not entry.is_exit_order && has_open entry.symbol halted.orders)
      (place_order slow moment entry halted)
unfolding manager stocks_fno.Risk.Validate.validate_trade
refused_orders_stay_home_example =
    refused_orders_stay_home slow moment entry halted (ground arith, tt) (inr refl)

-- the broker that lists nothing
abbrev mute : Outside Fixed Bool
mute = record slow { get_orders = λ w. (timed_out, w) }

abbrev unverified : Oms Fixed Bool
unverified = record later {
  orders = record resting { order_status = pending_verification } ∷ done ∷ [];
}

unverified_orders_wait_example :
    IsWaiting mute unverified (retry_pending_verification_orders mute unverified)
unverified_orders_wait_example = unverified_orders_wait mute (λ w bs e. ground arith) unverified

sweep_settles_example :
    (o : Order Fixed) × (get_by_id 2 (retry_pending_verification_orders slow unverified).orders
      ≡ some o)
    × Swept slow unverified 2 (record resting { order_status = pending_verification }) o
unfolding get_by_id
sweep_settles_example =
    sweep_settles slow unverified 2 (record resting { order_status = pending_verification })
      (ground arith, (ground arith, tt)) refl

-- The one stale order of 500 * 20 is cancelled, and its capital is released twice: by the sync that
-- finds it cancelled, and by the expiry.
releases_twice :
    deployed (expire_stale_orders slow moment later).1.risk_manager "ema_crossover_v1"
    ≡ fixed_float.lit 20000 0
unfolding stocks_fno.Orders.Store.get_by_id stocks_fno.Orders.Store.update_row
    stocks_fno.Orders.Store.with_status stocks_fno.Orders.Store.has_open
    stocks_fno.Orders.Store.first_listed stocks_fno.Orders.Store.last_listed
    stocks_fno.Orders.Store.find_live stocks_fno.Orders.Store.received
    stocks_fno.Orders.Store.context_of stocks_fno.Orders.Store.map_broker_status
    stocks_fno.Orders.Store.adjusted_retry_price stocks_fno.Orders.Store.extract_fill_updates
    stocks_fno.Orders.Store.write_fill stocks_fno.Orders.Place.audit stocks_fno.Orders.Place.note
    stocks_fno.Orders.Place.update stocks_fno.Orders.Place.get_retry_context
    stocks_fno.Orders.Place.deploy stocks_fno.Orders.Place.release
    stocks_fno.Orders.Place.reconcile_after_timeout stocks_fno.Orders.Place.immediate_fill
    stocks_fno.Orders.Place.attempts stocks_fno.Orders.Place.append_position
    stocks_fno.Orders.Place.persist stocks_fno.Orders.Place.accept stocks_fno.Orders.Place.fail
    stocks_fno.Orders.Place.settle stocks_fno.Orders.Place.after_reply stocks_fno.Orders.Place.route
    stocks_fno.Orders.Place.after_check stocks_fno.Orders.Place.receive
    stocks_fno.Orders.Place.check stocks_fno.Orders.Place.place_order stocks_fno.Orders.Sync.synced
    stocks_fno.Orders.Sync.has_updates stocks_fno.Orders.Sync.release_capital_if_was_deployed
    stocks_fno.Orders.Sync.add_capital_if_should_have_been_deployed stocks_fno.Orders.Sync.verified
    stocks_fno.Orders.Sync.verify_each stocks_fno.Orders.Sync.retry_pending_verification_orders
    stocks_fno.Orders.Sync.after_change stocks_fno.Orders.Sync.after_write
    stocks_fno.Orders.Sync.sync_with stocks_fno.Orders.Sync.sync_one
    stocks_fno.Orders.Sync.sync_each stocks_fno.Orders.Sync.sync_open
    stocks_fno.Orders.Sync.sync_orders stocks_fno.Orders.Sync.after_cancel
    stocks_fno.Orders.Sync.cancel_found stocks_fno.Orders.Sync.cancel_order
    stocks_fno.Orders.Expire.is_stale stocks_fno.Orders.Expire.is_eligible
    stocks_fno.Orders.Expire.release_remainder stocks_fno.Orders.Expire.retry_or_leave
    stocks_fno.Orders.Expire.expire stocks_fno.Orders.Expire.cancel_at_broker
    stocks_fno.Orders.Expire.expire_one stocks_fno.Orders.Expire.expire_each
    stocks_fno.Orders.Expire.expire_stale_orders stocks_fno.Orders.Text.upper
    stocks_fno.Orders.Text.str_of_id stocks_fno.Orders.Text.broker_order_tag
    stocks_fno.Risk.Manager.release_deployed_capital stocks_fno.Risk.Manager.deployed
    stocks_fno.Dict.lookup stocks_fno.Dict.insert stocks_fno.Float.py_max stocks_fno.Int.◌+ℤ◌
    stocks_fno.Int.◌-ℤ◌ stocks_fno.Int.◌*ℤ◌ stocks_fno.Risk.Underlying.prefix_of
releases_twice = refl
