-- ===== src/Engine/Spread.antt =====
-- The credit spread in live_trading/live_trading_engine.py: the orders and the record of an entry in
-- `_process_credit_spread`, from the first order on, and the close in `_check_spread_exits`, once it
-- has a reason.
use stocks_fno.Prelude.{
  ℕ, ◌+◌, Bool, true, false, Option, none, some, [], ◌∷◌, String, get_or_else, if◌then◌else◌,
}
use stocks_fno.Int.{ℤ}
use stocks_fno.Dict.{insert}
use stocks_fno.Float.{Float, nought}
use stocks_fno.Risk.Manager.{add_deployed_capital}
use stocks_fno.Risk.Validate.{Side, buy, sell}
use stocks_fno.Orders.Store.{
  opened, rejected_by_risk, same_status, Order, Outside, Moment, written, priced,
}
use stocks_fno.Orders.Place.{Request, place_order}
use stocks_fno.Engine.Legs.{Leg, Holdings, Attempt, is_bad, real_fill, close_leg}
use stocks_fno.Engine.State.{
  SpreadType, Spread, Reason, Engine, Verdict, kept, add_to, leg_round_trip_fees, cancel_gtt,
  release_capital, conclude,
}

-- what `_process_credit_spread` has settled on when it places the first order
pub record SpreadPlan (F : Type 0) : Type 0 where
  pub symbol : String
  pub strategy : String
  pub spread_type : SpreadType
  pub short_contract : String
  pub long_contract : String
  pub short_strike : F
  pub long_strike : F
  pub short_p : F
  pub long_p : F
  pub net_credit : F
  pub lot_size : ℤ
  pub iv_rank : Option F
  pub vix : Option F

-- What the calls outside return on the way: the quote for an unwind, the key of the journal's row,
-- and the key of the order at the exchange.
pub record SpreadAnswers (F : Type 0) : Type 0 where
  pub unwind_quote : Option F
  pub journal_id : Option ℕ
  pub gtt_id : Option ℕ

module _ {F : Type 0} where
  abbrev pub accepted : Option (Order F) → Option (Order F)
  accepted none = none
  accepted (some o) = if same_status o.order_status opened then some o else none

  abbrev pub is_blocked : Option (Order F) → Bool
  is_blocked none = false
  is_blocked (some o) = same_status o.order_status rejected_by_risk

  -- an unwind that is known to have failed
  abbrev pub unwind_failed : Option (Order F) → Bool
  unwind_failed none = true
  unwind_failed (some o) = is_bad o.order_status

  abbrev pub leg_order : String → String → Side → ℤ → F → Request F
  leg_order strategy contract side lot price = record {
    symbol = contract;
    side = side;
    quantity = lot;
    price = price;
    is_spread_leg = true;
    is_exit_order = false;
    strategy_name = some strategy;
    iv_rank = none;
    vix = none;
    capital_at_risk = none;
    is_retry = false;
    product_override = none;
  }

  -- the first leg, which carries the risk of the whole structure
  abbrev pub first_leg_order : String → String → ℤ → F → Option F → Option F → F → Request F
  first_leg_order strategy contract lot price iv_rank vix at_risk =
      record (leg_order strategy contract sell lot price) {
        is_spread_leg = false;
        iv_rank = iv_rank;
        vix = vix;
        capital_at_risk = some at_risk;
      }

  abbrev pub unwind_order : String → Side → ℤ → F → Request F
  unwind_order contract side lot price = record (leg_order "" contract side lot price) {
    is_exit_order = true;
    strategy_name = none;
  }

  abbrev pub fresh_leg : String → Bool → F → F → Option ℕ → Leg F
  fresh_leg contract is_short strike premium gtt = record {
    contract = contract;
    is_short = is_short;
    strike = strike;
    premium = premium;
    exit_fill = none;
    pending_id = none;
    gtt_id = gtt;
  }

  -- the leg after a partial exit
  abbrev pub leg_after : Attempt F → Leg F
  leg_after a = record a.leg { exit_fill = written a.fill a.leg.exit_fill }

  -- A short leg that is closed no longer needs its order at the exchange.
  abbrev pub short_after : Attempt F → Leg F
  short_after a = elim a.fill [ none ↦ a.leg | some p ↦ record (leg_after a) { gtt_id = none } ]

module _ {F : Type 0} ⦃f : Float F⦄ where
  unfoldable pub width : F → F → F
  width short_strike long_strike = f.abs (f.sub short_strike long_strike)

  -- the spread that an entry records
  abbrev pub spread_of : SpreadPlan F → SpreadAnswers F → F → F → Spread F
  spread_of p a short_fill long_fill = record {
    spread_type = p.spread_type;
    short = fresh_leg p.short_contract true p.short_strike short_fill a.gtt_id;
    long = fresh_leg p.long_contract false p.long_strike long_fill none;
    net_credit = p.net_credit;
    lot_size = p.lot_size;
    journal_id = a.journal_id;
    strategy_name = some p.strategy;
    entry_vix = get_or_else p.vix nought;
  }

  -- `_capital_at_risk_actual`
  unfoldable pub reserved : SpreadPlan F → F → F → F
  unfolding width
  reserved p short_fill long_fill =
      f.mul (f.sub (width p.short_strike p.long_strike) (f.sub short_fill long_fill))
        (f.of_int p.lot_size)

  -- the amount that the close of a spread releases
  unfoldable pub released : Spread F → F
  unfolding width
  released sp =
      f.mul (f.sub (width sp.short.strike sp.long.strike) (f.sub sp.short.premium sp.long.premium))
        (f.of_int sp.lot_size)

  -- `net_pnl`
  unfoldable pub net_pnl : Spread F → F → F → F
  unfolding leg_round_trip_fees
  net_pnl sp short_fill long_fill =
      f.sub
        (f.mul (f.sub (f.sub sp.short.premium short_fill) (f.sub sp.long.premium long_fill))
          (f.of_int sp.lot_size))
        (f.add (leg_round_trip_fees sp.lot_size sp.short.premium short_fill true)
          (leg_round_trip_fees sp.lot_size sp.long.premium long_fill false))

module _ {F : Type 0} ⦃f : Float F⦄ {W : Type 0} where
  abbrev pub guard_lifted : Attempt F → Engine F W → Engine F W
  guard_lifted a e = elim a.fill [ none ↦ e | some p ↦ cancel_gtt a.leg.gtt_id e ]

  -- the outcome of the two exits, by the prices at which they closed their legs
  unfoldable pub settle_spread :
      String
      → Reason
      → F
      → F
      → Spread F
      → Attempt F
      → Attempt F
      → Engine F W
      → Option F
      → Option F
      → Verdict × Engine F W
  unfolding released net_pnl conclude insert
  settle_spread u reason cur_short cur_long sp a b e (some p) (some q) =
      conclude u sp.journal_id (f.round (f.sub p q) 2) (net_pnl sp p q) reason
        (f.add (f.abs (f.sub p cur_short)) (f.abs (f.sub q cur_long))) none (sp.short.gtt_id ∷ [])
        (release_capital (get_or_else sp.strategy_name "credit_spread_v1") (released sp) e)
  settle_spread u reason cur_short cur_long sp a b e _ _ = (
    kept,
    record (guard_lifted a e) {
      active_spreads =
          insert u (record sp { short = short_after a; long = leg_after b }) e.active_spreads;
    },
  )

module _ {F : Type 0} ⦃f : Float F⦄ {W : Type 0} (x : Outside F W) where
  -- the long leg failed
  unfoldable pub unwind_short : Moment → SpreadPlan F → SpreadAnswers F → Engine F W → Engine F W
  unwind_short t p a e =
      let price = get_or_else (priced a.unwind_quote) p.short_p in
      let (o, s) = place_order x t (unwind_order p.short_contract buy p.lot_size price) e.oms in
      if unwind_failed o
      then record e { oms = s; alerts = p.short_contract ∷ e.alerts }
      else record e { oms = s; exited_today = add_to p.symbol e.exited_today }

  -- both orders are OPEN
  unfoldable pub track_spread :
      SpreadPlan F → SpreadAnswers F → Order F → Order F → Engine F W → Engine F W
  unfolding real_fill reserved
  track_spread p a short_order long_order e =
      let short_fill = real_fill short_order p.short_p in
      let long_fill = real_fill long_order p.long_p in
      record e {
        oms = record e.oms {
          risk_manager =
              add_deployed_capital e.oms.risk_manager p.strategy (reserved p short_fill long_fill);
        };
        active_spreads = insert p.symbol (spread_of p a short_fill long_fill) e.active_spreads;
        today_order_count = e.today_order_count + 2;
      }

  -- after the order of the long leg, if it is OPEN
  abbrev pub after_long :
      Moment → SpreadPlan F → SpreadAnswers F → Order F → Option (Order F) → Engine F W → Engine F W
  after_long t p a short_order none e = unwind_short t p a e
  after_long t p a short_order (some long_order) e = track_spread p a short_order long_order e

  unfoldable pub enter_long :
      Moment → SpreadPlan F → SpreadAnswers F → Order F → Engine F W → Engine F W
  unfolding unwind_short track_spread
  enter_long t p a short_order e =
      let r = leg_order p.strategy p.long_contract buy p.lot_size p.long_p in
      let (o, s) = place_order x t r e.oms in
      after_long t p a short_order (accepted o) (record e { oms = s })

  -- after the order of the short leg, if it is OPEN, and whether the risk check refused it
  abbrev pub after_short :
      Moment → SpreadPlan F → SpreadAnswers F → Option (Order F) → Bool → Engine F W → Engine F W
  after_short t p a (some short_order) blocked e = enter_long t p a short_order e
  after_short t p a none true e = record e { exited_today = add_to p.symbol e.exited_today }
  after_short t p a none false e = e

  -- the orders of `_process_credit_spread` and what follows them
  unfoldable pub enter_spread : Moment → SpreadPlan F → SpreadAnswers F → Engine F W → Engine F W
  unfolding enter_long width
  enter_spread t p a e =
      let at_risk =
        f.mul (f.sub (width p.short_strike p.long_strike) p.net_credit) (f.of_int p.lot_size) in
      let r =
        first_leg_order p.strategy p.short_contract p.lot_size p.short_p p.iv_rank p.vix at_risk in
      let (o, s) = place_order x t r e.oms in
      after_short t p a (accepted o) (is_blocked o) (record e { oms = s })

  -- the close of a spread that has a reason
  unfoldable pub close_spread :
      Holdings → Moment → String → Reason → F → F → Spread F → Engine F W → Verdict × Engine F W
  unfolding close_leg settle_spread
  close_spread h t u reason cur_short cur_long sp e =
      let (a, s) = close_leg x h t sp.lot_size cur_short sp.short e.oms in
      let (b, s') = close_leg x h t sp.lot_size cur_long sp.long s in
      settle_spread u reason cur_short cur_long sp a b (record e { oms = s' }) a.fill b.fill
