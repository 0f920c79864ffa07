-- ===== src/Engine/Condor.antt =====
-- The iron condor in live_trading/live_trading_engine.py: the orders and the record of an entry in
-- `_process_iron_condor`, from the first order on, and the close in `_check_condor_exits`, once it
-- has a reason.
use stocks_fno.Prelude.{
  ℕ, ◌+◌, Bool, true, false, ◌||◌, Option, none, some, List, [], ◌∷◌, ◌++◌, String, get_or_else,
  if◌then◌else◌,
}
use stocks_fno.Int.{ℤ}
use stocks_fno.Calendar.{Date}
use stocks_fno.Dict.{Dict, lookup, insert}
use stocks_fno.Float.{Float, nought, py_max}
use stocks_fno.Risk.Manager.{add_deployed_capital}
use stocks_fno.Risk.Validate.{buy, sell, is_buy}
use stocks_fno.Orders.Store.{pending_verification, same_status, Order, Outside, Oms, Moment, priced}
use stocks_fno.Orders.Place.{Request, place_order}
use stocks_fno.Engine.Legs.{Holdings, Attempt, is_bad, real_fill, close_leg}
use stocks_fno.Engine.State.{
  Condor, Reason, wing_failed, Engine, Verdict, kept, add_to, leg_round_trip_fees, release_capital,
  conclude,
}
use stocks_fno.Engine.Spread.{
  accepted, is_blocked, leg_order, first_leg_order, unwind_order, fresh_leg, width, leg_after,
  short_after, guard_lifted,
}

-- what `_process_iron_condor` has settled on when it places the first order
pub record CondorPlan (F : Type 0) : Type 0 where
  pub symbol : String
  pub strategy : String
  pub psc : String
  pub plc : String
  pub csc : String
  pub clc : String
  pub put_short_strike : F
  pub put_long_strike : F
  pub call_short_strike : F
  pub call_long_strike : F
  pub put_short_p : F
  pub put_long_p : F
  pub call_short_p : F
  pub call_long_p : F
  pub net_credit : F
  pub lot_size : ℤ
  pub iv_rank : Option F
  pub vix : Option F
  pub today : Date

-- what the calls outside return on the way
pub record CondorAnswers (F : Type 0) : Type 0 where
  pub unwind_quote : String → Option F
  pub journal_id : Option ℕ
  pub put_gtt : Option ℕ
  pub call_gtt : Option ℕ

-- an order of a leg and its request
abbrev pub Placed : Type 0 → Type 0
Placed F = List (Request F × Order F)

-- how the loop over the four legs ends
pub record Placing (F W : Type 0) : Type 0 where
  pub placed : Placed F
  pub refused : Option (Option (Order F))
  pub oms : Oms F W

module _ {F : Type 0} where
  -- an unwind that failed, or whose outcome is not known
  abbrev pub unwind_doubtful : Option (Order F) → Bool
  unwind_doubtful none = true
  unwind_doubtful (some o) =
      is_bad o.order_status || same_status o.order_status pending_verification

module _ {F : Type 0} ⦃f : Float F⦄ where
  unfoldable pub wing_spread : F → F → F → F → F
  unfolding width py_max
  wing_spread ps pl cs cl = py_max (width ps pl) (width cs cl)

  -- `legs`
  abbrev pub leg_orders : CondorPlan F → List (Request F)
  leg_orders p =
      let wings =
        wing_spread p.put_short_strike p.put_long_strike p.call_short_strike p.call_long_strike in
      let at_risk = f.mul (f.sub wings p.net_credit) (f.of_int p.lot_size) in
      first_leg_order p.strategy p.psc p.lot_size p.put_short_p p.iv_rank p.vix at_risk
      ∷ leg_order p.strategy p.plc buy p.lot_size p.put_long_p
      ∷ leg_order p.strategy p.csc sell p.lot_size p.call_short_p
      ∷ leg_order p.strategy p.clc buy p.lot_size p.call_long_p
      ∷ []

  -- `_fills`
  unfoldable pub fills_into : Dict F → Placed F → Dict F
  unfolding real_fill insert
  fills_into d [] = d
  fills_into d ((r, o) ∷ os) = fills_into (insert r.symbol (real_fill o r.price) d) os

  abbrev pub fill_for : String → Placed F → F
  fill_for contract os = get_or_else (lookup contract (fills_into [] os)) nought

  -- the condor that an entry records
  abbrev pub condor_of : CondorPlan F → CondorAnswers F → Placed F → Condor F
  condor_of p a os = record {
    put_short = fresh_leg p.psc true p.put_short_strike (fill_for p.psc os) a.put_gtt;
    put_long = fresh_leg p.plc false p.put_long_strike (fill_for p.plc os) none;
    call_short = fresh_leg p.csc true p.call_short_strike (fill_for p.csc os) a.call_gtt;
    call_long = fresh_leg p.clc false p.call_long_strike (fill_for p.clc os) none;
    net_credit = p.net_credit;
    lot_size = p.lot_size;
    journal_id = a.journal_id;
    strategy_name = some p.strategy;
    entry_date = some p.today;
    entry_vix = get_or_else p.vix nought;
    partial_exit_alerted = false;
  }

  -- `_capital_at_risk_actual`
  unfoldable pub reserved : CondorPlan F → Placed F → F
  unfolding wing_spread fills_into lookup
  reserved p os =
      let wings =
        wing_spread p.put_short_strike p.put_long_strike p.call_short_strike p.call_long_strike in
      let credit =
        f.add (f.sub (fill_for p.psc os) (fill_for p.plc os))
          (f.sub (fill_for p.csc os) (fill_for p.clc os)) in
      f.mul (f.sub wings credit) (f.of_int p.lot_size)

  -- the amount that the close of a condor releases
  unfoldable pub released : Condor F → F
  unfolding wing_spread
  released c =
      let wings =
        wing_spread c.put_short.strike c.put_long.strike c.call_short.strike c.call_long.strike in
      let credit =
        f.add (f.sub c.put_short.premium c.put_long.premium)
          (f.sub c.call_short.premium c.call_long.premium) in
      f.mul (f.sub wings credit) (f.of_int c.lot_size)

  -- `_condor_fees`, at the four fills
  abbrev pub condor_fees : Condor F → F → F → F → F → F
  condor_fees c ps pl cs cl =
      f.add
        (f.add
          (f.add (leg_round_trip_fees c.lot_size c.put_short.premium ps true)
            (leg_round_trip_fees c.lot_size c.call_short.premium cs true))
          (leg_round_trip_fees c.lot_size c.put_long.premium pl false))
        (leg_round_trip_fees c.lot_size c.call_long.premium cl false)

  -- the four legs at given prices, per share
  unfoldable pub gain_at : Condor F → F → F → F → F → F
  gain_at c ps pl cs cl =
      f.sub
        (f.sub (f.add (f.sub c.put_short.premium ps) (f.sub c.call_short.premium cs))
          (f.sub c.put_long.premium pl))
        (f.sub c.call_long.premium cl)

  -- `net_pnl`
  unfoldable pub net_pnl : Condor F → F → F → F → F → F
  unfolding leg_round_trip_fees gain_at
  net_pnl c ps pl cs cl =
      f.sub (f.mul (gain_at c ps pl cs cl) (f.of_int c.lot_size)) (condor_fees c ps pl cs cl)

-- the prices of the four legs that an exit check works with
pub record Quotes (F : Type 0) : Type 0 where
  pub ps : F
  pub pl : F
  pub cs : F
  pub cl : F

-- the outcomes of the four exits
pub record Attempts (F : Type 0) : Type 0 where
  pub ps : Attempt F
  pub pl : Attempt F
  pub cs : Attempt F
  pub cl : Attempt F

module _ {F : Type 0} where
  -- the condor after a partial exit
  abbrev pub condor_after : Attempts F → Condor F → Condor F
  condor_after a c = record c {
    put_short = short_after a.ps;
    put_long = leg_after a.pl;
    call_short = short_after a.cs;
    call_long = leg_after a.cl;
    partial_exit_alerted = true;
  }

module _ {F W : Type 0} where
  abbrev pub alert_once : String → Bool → Engine F W → Engine F W
  alert_once u true e = e
  alert_once u false e = record e { alerts = u ∷ e.alerts }

module _ {F : Type 0} ⦃f : Float F⦄ {W : Type 0} where
  -- the outcome of the four exits, by the prices at which they closed their legs
  unfoldable pub settle_condor :
      String
      → Reason
      → Quotes F
      → Condor F
      → Attempts F
      → Engine F W
      → Option F
      → Option F
      → Option F
      → Option F
      → Verdict × Engine F W
  unfolding released net_pnl conclude insert
  settle_condor u reason q c a e (some ps) (some pl) (some cs) (some cl) =
      conclude u c.journal_id (f.round (f.sub (f.sub (f.add ps cs) pl) cl) 2)
        (net_pnl c ps pl cs cl) reason
        (f.add
          (f.add (f.add (f.abs (f.sub ps q.ps)) (f.abs (f.sub pl q.pl))) (f.abs (f.sub cs q.cs)))
          (f.abs (f.sub cl q.cl)))
        (wing_failed reason) (c.put_short.gtt_id ∷ c.call_short.gtt_id ∷ [])
        (release_capital (get_or_else c.strategy_name "iron_condor_v1") (released c) e)
  settle_condor u reason q c a e _ _ _ _ =
      let e' = guard_lifted a.cs (guard_lifted a.ps e) in
      (
        kept,
        alert_once u c.partial_exit_alerted
            (record e' { active_condors = insert u (condor_after a c) e'.active_condors }),
      )

module _ {F : Type 0} ⦃f : Float F⦄ {W : Type 0} (x : Outside F W) where
  -- the loop that places the legs; `os` are the orders that it has placed
  unfoldable pub place_legs : Moment → Placed F → List (Request F) → Oms F W → Placing F W
  place_legs t os [] s = record { placed = os; refused = none; oms = s }
  place_legs t os (r ∷ rs) s =
      let (o, s') = place_order x t r s in
      elim (accepted o) [
        | none ↦ record { placed = os; refused = some o; oms = s' }
        | some order ↦ place_legs t (os ++ ((r, order) ∷ [])) rs s'
      ]

  -- the order that closes one placed leg, and an alert unless it is known to
  abbrev pub unwind_one : Moment → CondorAnswers F → Request F → Engine F W → Engine F W
  unwind_one t a r e =
      let price = get_or_else (priced (a.unwind_quote r.symbol)) r.price in
      let rev = if is_buy r.side then sell else buy in
      let (o, s) = place_order x t (unwind_order r.symbol rev r.quantity price) e.oms in
      if unwind_doubtful o
      then record e { oms = s; alerts = r.symbol ∷ e.alerts }
      else record e { oms = s }

  unfoldable pub unwind_all : Moment → CondorAnswers F → Placed F → Engine F W → Engine F W
  unwind_all t a [] e = e
  unwind_all t a ((r, o) ∷ os) e = unwind_all t a os (unwind_one t a r e)

  -- all four orders are OPEN
  unfoldable pub track_condor : CondorPlan F → CondorAnswers F → Placed F → Engine F W → Engine F W
  unfolding reserved insert
  track_condor p a os e = record e {
    oms = record e.oms {
      risk_manager = add_deployed_capital e.oms.risk_manager p.strategy (reserved p os);
    };
    active_condors = insert p.symbol (condor_of p a os) e.active_condors;
    today_order_count = e.today_order_count + 4;
  }

  abbrev pub after_placing :
      Moment
      → CondorPlan F
      → CondorAnswers F
      → Placed F
      → Option (Option (Order F))
      → Engine F W
      → Engine F W
  after_placing t p a os none e = track_condor p a os e
  after_placing t p a os (some o) e =
      unwind_all t a os
        (if is_blocked o then record e { exited_today = add_to p.symbol e.exited_today } else e)

  -- the orders of `_process_iron_condor` and what follows them
  unfoldable pub enter_condor : Moment → CondorPlan F → CondorAnswers F → Engine F W → Engine F W
  unfolding place_legs unwind_all track_condor
  enter_condor t p a e =
      let q = place_legs t [] (leg_orders p) e.oms in
      after_placing t p a q.placed q.refused (record e { oms = q.oms })

  -- the close of a condor that has a reason
  unfoldable pub close_condor :
      Holdings → Moment → String → Reason → Quotes F → Condor F → Engine F W → Verdict × Engine F W
  unfolding close_leg settle_condor
  close_condor h t u reason q c e =
      let (ps, s₁) = close_leg x h t c.lot_size q.ps c.put_short e.oms in
      let (pl, s₂) = close_leg x h t c.lot_size q.pl c.put_long s₁ in
      let (cs, s₃) = close_leg x h t c.lot_size q.cs c.call_short s₂ in
      let (cl, s₄) = close_leg x h t c.lot_size q.cl c.call_long s₃ in
      settle_condor u reason q c (record { ps = ps; pl = pl; cs = cs; cl = cl })
        (record e { oms = s₄ }) ps.fill pl.fill cs.fill cl.fill
