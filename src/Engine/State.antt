-- ===== src/Engine/State.antt =====
-- The state that the exits of live_trading/live_trading_engine.py share: the structures that are open,
-- the two sets that decide on another entry, and what is recorded of a close.
use stocks_fno.Prelude.{
  ℕ, suc, Bool, true, false, not, Option, none, some, List, [], ◌∷◌, String, str_eq, elem, ltb, leb,
  ◌&&◌, ◌||◌, get_or_else, if◌then◌else◌, ◌==◌,
}
use stocks_fno.Int.{ℤ, pos, magnitude}
use stocks_fno.Dict.{Dict, lookup, insert}
use stocks_fno.Float.{Float, nought}
use stocks_fno.Calendar.{Date}
use stocks_fno.Risk.Manager.{release_deployed_capital}
use stocks_fno.Risk.Validate.{buy, sell}
use stocks_fno.Paper.Fills.{transaction_fees}
use stocks_fno.Orders.Store.{Oms}
use stocks_fno.Engine.Legs.{Leg}

pub data SpreadType : Type 0 where
  bull_put bear_call : SpreadType

-- a value of `_active_spreads`; `entry_vix` is 0 where it was not known
pub record Spread (F : Type 0) : Type 0 where
  pub spread_type : SpreadType
  pub short : Leg F
  pub long : Leg F
  pub net_credit : F
  pub lot_size : ℤ
  pub journal_id : Option ℕ
  pub strategy_name : Option String
  pub entry_vix : F

-- a value of `_active_condors`
pub record Condor (F : Type 0) : Type 0 where
  pub put_short : Leg F
  pub put_long : Leg F
  pub call_short : Leg F
  pub call_long : Leg F
  pub net_credit : F
  pub lot_size : ℤ
  pub journal_id : Option ℕ
  pub strategy_name : Option String
  pub entry_date : Option Date
  pub entry_vix : F
  pub partial_exit_alerted : Bool

-- the reasons of an exit, for their texts
pub data Reason : Type 0 where
  near_expiry dte_floor put_breach call_breach : Reason
  vix_stop vix_profit tiered_profit managed delta_breach : Reason
  put_stop call_stop put_wing_profit call_wing_profit regime_shift : Reason
  put_delta_breach call_delta_breach : Reason

-- `wing_failed`: whether "put" or "call" occurs in the text; both occur in none
abbrev pub wing_failed : Reason → Option String
wing_failed put_breach = some "PUT"
wing_failed put_stop = some "PUT"
wing_failed put_wing_profit = some "PUT"
wing_failed put_delta_breach = some "PUT"
wing_failed call_breach = some "CALL"
wing_failed call_stop = some "CALL"
wing_failed call_wing_profit = some "CALL"
wing_failed call_delta_breach = some "CALL"
wing_failed _ = none

-- what `_log_trade_close` writes to the row of the journal
pub record Closing (F : Type 0) : Type 0 where
  pub journal_id : ℕ
  pub exit_price : F
  pub pnl : F
  pub exit_reason : Reason
  pub slippage : Option F
  pub wing : Option String

-- Lists of calls and of messages are newest first; `sl_freq` is there with the cache.
pub record Engine (F W : Type 0) : Type 0 where
  pub oms : Oms F W
  pub active_spreads : Dict (Spread F)
  pub active_condors : Dict (Condor F)
  pub exited_today : List String
  pub profit_closed_today : List String
  pub close_on_first_cycle : List String
  pub sl_freq : Option (Dict ℕ)
  pub journal : List (Closing F)
  pub cancelled_gtts : List ℕ
  pub alerts : List String
  pub today_order_count : ℕ

-- what an exit check makes of a structure
pub data Verdict : Type 0 where
  kept adverse profit : Verdict

-- `set.add` and `set.discard`
abbrev pub add_to : String → List String → List String
add_to k ks = if elem k ks then ks else k ∷ ks

unfoldable pub discard : String → List String → List String
discard k [] = []
discard k (j ∷ js) = if str_eq j k then discard k js else j ∷ discard k js

-- one more in the counter of an underlying
abbrev pub counted : String → Option (Dict ℕ) → Option (Dict ℕ)
counted u none = none
counted u (some d) = some (insert u (suc (get_or_else (lookup u d) 0)) d)

module _ {F : Type 0} ⦃f : Float F⦄ where
  -- the bucket that the realised result decides
  abbrev pub bucket : F → Verdict
  bucket pnl = if f.lt pnl nought then adverse else profit

  -- `_leg_round_trip_fees`
  unfoldable pub leg_round_trip_fees : ℤ → F → F → Bool → F
  leg_round_trip_fees qty entry exit is_short =
      let n = pos (magnitude qty) in
      f.add (transaction_fees (if is_short then sell else buy) n entry)
        (transaction_fees (if is_short then buy else sell) n exit)

  -- `round(_slippage, 4) if _slippage > 0 else None`
  abbrev pub slippage_of : F → Option F
  slippage_of s = if f.lt nought s then some (f.round s 4) else none

  module _ {W : Type 0} where
    -- `_log_trade_close`, on a row that is there
    abbrev pub log_trade_close :
        Option ℕ → F → F → Reason → Option F → Option String → Engine F W → Engine F W
    log_trade_close none price pnl reason slip wing e = e
    log_trade_close (some i) price pnl reason slip wing e = if i == 0 then e else record e {
      journal =
          record {
            journal_id = i;
            exit_price = price;
            pnl = f.round pnl 2;
            exit_reason = reason;
            slippage = slip;
            wing = wing;
          }
          ∷ e.journal;
    }

    -- `_cancel_gtt`: the calls that reach the broker, in live mode
    abbrev pub cancel_gtt : Option ℕ → Engine F W → Engine F W
    cancel_gtt none e = e
    cancel_gtt (some i) e = if i == 0 then e else record e { cancelled_gtts = i ∷ e.cancelled_gtts }

    unfoldable pub cancel_gtts : List (Option ℕ) → Engine F W → Engine F W
    cancel_gtts [] e = e
    cancel_gtts (g ∷ gs) e = cancel_gtts gs (cancel_gtt g e)

    -- the counter of adverse exits, under f"sl_freq:{underlying}"
    abbrev pub count_adverse : String → F → Engine F W → Engine F W
    count_adverse u pnl e =
        if f.lt pnl nought then record e { sl_freq = counted u e.sl_freq } else e

    abbrev pub release_capital : String → F → Engine F W → Engine F W
    release_capital strategy amount e = record e {
      oms = record e.oms {
        risk_manager = release_deployed_capital e.oms.risk_manager strategy amount;
      };
    }

    -- What is left of a close once its result is known: the journal, the counter, the orders that
    -- stand at the exchange, and the set of structures near their expiry.
    unfoldable pub conclude :
        String
        → Option ℕ
        → F
        → F
        → Reason
        → F
        → Option String
        → List (Option ℕ)
        → Engine F W
        → Verdict × Engine F W
    unfolding cancel_gtts discard insert lookup
    conclude u journal_id price pnl reason slip wing gtts e =
        let e₁ = log_trade_close journal_id price pnl reason (slippage_of slip) wing e in
        let e₂ = count_adverse u pnl e₁ in
        let e₃ = cancel_gtts gtts e₂ in
        (bucket pnl, record e₃ { close_on_first_cycle = discard u e₃.close_on_first_cycle })

module _ {F W : Type 0} where
  -- The symbol has a structure already, in any of the two tables.
  unfoldable pub is_tracked : String → Engine F W → Bool
  unfolding lookup
  is_tracked u e =
      (elim (lookup u e.active_spreads) [ none ↦ false | some _ ↦ true ])
      || (elim (lookup u e.active_condors) [ none ↦ false | some _ ↦ true ])

  -- The first guards of both entries; `single_leg` tells whether an option of the symbol is open.
  unfoldable pub may_enter : Bool → ℕ → String → Engine F W → Bool
  unfolding is_tracked
  may_enter single_leg max_daily_orders u e =
      not (is_tracked u e)
      && not single_leg
      && not (elem u e.exited_today)
      && not (ltb 0 max_daily_orders && leb max_daily_orders e.today_order_count)
