-- ===== src/Engine/Single.antt =====
-- The exit of a single option in live_trading/live_trading_engine.py: `_execute_single_leg_exit`, with
-- the order that an earlier exit left unverified.
use stocks_fno.Prelude.{
  ℕ, Bool, true, false, ◌||◌, Option, none, some, List, ◌∷◌, String, get_or_else, if◌then◌else◌,
}
use stocks_fno.Int.{ℤ, pos, magnitude}
use stocks_fno.Dict.{Dict, lookup, insert, remove}
use stocks_fno.Float.{Float, nought}
use stocks_fno.Risk.Manager.{release_deployed_capital}
use stocks_fno.Risk.Validate.{sell}
use stocks_fno.Orders.Store.{
  rejected_by_risk, failed, pending_verification, same_status, Order, Outside, Oms, Moment,
}
use stocks_fno.Orders.Place.{Request, place_order}
use stocks_fno.Engine.Legs.{
  Resolution, nothing, still_pending, resolved_ok, resolved_bad, resolve_pending_exit_order,
  real_fill,
}
use stocks_fno.Engine.State.{add_to, leg_round_trip_fees, slippage_of}
use stocks_fno.Engine.Rebuild.{SingleLeg}

-- what the exit of a single option writes to its row of the journal
pub record SingleClosing (F : Type 0) : Type 0 where
  pub journal_id : ℕ
  pub exit_price : F
  pub pnl : F
  pub exit_reason : String
  pub slippage : Option F

-- The state that the exit reads and writes: `_single_leg_journals`, `_pending_exits`, the two dicts of
-- peaks, `_exited_today`, and the closes that were written to the journal, newest first.
pub record Singles (F W : Type 0) : Type 0 where
  pub oms : Oms F W
  pub journals : Dict SingleLeg
  pub pending_exits : Dict ℕ
  pub peak_premiums : Dict F
  pub peak_profits : Dict F
  pub exited_today : List String
  pub closings : List (SingleClosing F)

-- the arguments of the exit
pub record SingleExit (F : Type 0) : Type 0 where
  pub contract : String
  pub qty : ℤ
  pub entry_p : F
  pub current_p : F
  pub exit_reason : String

module _ {F W : Type 0} where
  -- `_owner_strategy`
  unfoldable pub owner_of : String → Singles F W → Option String
  unfolding lookup
  owner_of contract s = elim (lookup contract s.journals) [
    | none ↦ none
    | some info ↦ info.strategy_name
  ]

  unfoldable pub unpend : String → Singles F W → Singles F W
  unfolding remove
  unpend contract s = record s { pending_exits = remove contract s.pending_exits }

  unfoldable pub pend : String → ℕ → Singles F W → Singles F W
  unfolding insert
  pend contract id s = record s { pending_exits = insert contract id s.pending_exits }

  unfoldable pub without_peaks : String → Singles F W → Singles F W
  unfolding remove
  without_peaks contract s = record s {
    peak_premiums = remove contract s.peak_premiums;
    peak_profits = remove contract s.peak_profits;
  }

module _ {F : Type 0} where
  abbrev pub single_exit_request : SingleExit F → Option String → Request F
  single_exit_request a owner = record {
    symbol = a.contract;
    side = sell;
    quantity = pos (magnitude a.qty);
    price = a.current_p;
    is_spread_leg = false;
    is_exit_order = true;
    strategy_name = owner;
    iv_rank = none;
    vix = none;
    capital_at_risk = none;
    is_retry = false;
    product_override = none;
  }

module _ {F : Type 0} ⦃f : Float F⦄ where
  unfoldable pub single_pnl : SingleExit F → F → F
  unfolding leg_round_trip_fees
  single_pnl a fill =
      f.sub (f.mul (f.sub fill a.entry_p) (f.of_int (pos (magnitude a.qty))))
        (leg_round_trip_fees a.qty a.entry_p fill false)

  abbrev pub single_closing : SingleExit F → F → ℕ → SingleClosing F
  single_closing a fill id = record {
    journal_id = id;
    exit_price = fill;
    pnl = f.round (single_pnl a fill) 2;
    exit_reason = a.exit_reason;
    slippage = slippage_of (f.abs (f.sub fill a.current_p));
  }

  -- the capital that the entry counted
  abbrev pub single_cost : SingleExit F → F
  single_cost a = f.mul a.entry_p (f.of_int (pos (magnitude a.qty)))

  module _ {W : Type 0} where
    -- The row of the journal is closed, where there is one.
    unfoldable pub close_journal : SingleExit F → F → Option SingleLeg → Singles F W → Singles F W
    unfolding remove
    close_journal a fill none s = s
    close_journal a fill (some info) s = record s {
      journals = remove a.contract s.journals;
      closings = single_closing a fill info.journal_id ∷ s.closings;
      oms = record s.oms {
        risk_manager =
            release_deployed_capital s.oms.risk_manager
              (get_or_else info.strategy_name "ema_crossover_v1") (single_cost a);
      };
      exited_today =
          if f.lt (single_pnl a fill) nought
          then add_to info.underlying s.exited_today
          else s.exited_today;
    }

    -- what an order that is not left unverified comes to
    unfoldable pub settle_single : SingleExit F → Order F → Singles F W → Bool × Singles F W
    unfolding close_journal without_peaks real_fill lookup
    settle_single a o s =
        if same_status o.order_status rejected_by_risk || same_status o.order_status failed
        then (false, s)
        else (
          true,
          close_journal a (real_fill o a.current_p) (lookup a.contract s.journals)
              (without_peaks a.contract s),
        )

    unfoldable pub after_exit_order :
        SingleExit F → Option (Order F) → Singles F W → Bool × Singles F W
    unfolding settle_single pend
    after_exit_order a none s = (false, s)
    after_exit_order a (some o) s =
        if same_status o.order_status pending_verification
        then (false, pend a.contract o.id s)
        else settle_single a o s

module _ {F : Type 0} ⦃f : Float F⦄ {W : Type 0} (x : Outside F W) where
  unfoldable pub submit_exit :
      Moment → SingleExit F → Option String → Singles F W → Bool × Singles F W
  unfolding after_exit_order
  submit_exit t a owner s =
      let (o, m) = place_order x t (single_exit_request a owner) s.oms in
      after_exit_order a o (record s { oms = m })

  -- the exit, by what became of the order that an earlier one left unverified
  unfoldable pub resume_exit :
      Moment → SingleExit F → Option String → Resolution F → Singles F W → Bool × Singles F W
  unfolding submit_exit settle_single remove
  resume_exit t a owner (still_pending o) s = (false, s)
  resume_exit t a owner (resolved_ok o) s = settle_single a o (unpend a.contract s)
  resume_exit t a owner (resolved_bad o) s = submit_exit t a owner (unpend a.contract s)
  resume_exit t a owner nothing s = submit_exit t a owner (unpend a.contract s)

  -- the exit, by the order that an earlier one left unverified
  unfoldable pub exit_by : Moment → SingleExit F → Option ℕ → Singles F W → Bool × Singles F W
  unfolding owner_of submit_exit resume_exit resolve_pending_exit_order
  exit_by t a none s = submit_exit t a (owner_of a.contract s) s
  exit_by t a (some id) s =
      resume_exit t a (owner_of a.contract s) (resolve_pending_exit_order (some id) s.oms.orders) s

  unfoldable pub execute_single_leg_exit : Moment → SingleExit F → Singles F W → Bool × Singles F W
  unfolding exit_by lookup
  execute_single_leg_exit t a s = exit_by t a (lookup a.contract s.pending_exits) s
