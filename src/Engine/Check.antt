-- ===== src/Engine/Check.antt =====
-- The loops of `_check_spread_exits` and `_check_condor_exits`, the entries behind their first guards,
-- and sequences of both (live_trading/live_trading_engine.py).
use stocks_fno.Prelude.{ℕ, Bool, Option, none, some, List, [], ◌∷◌, String, elem, if◌then◌else◌}
use stocks_fno.Dict.{remove}
use stocks_fno.Float.{Float}
use stocks_fno.Orders.Store.{Outside, Moment}
use stocks_fno.Orders.Finished.{Call, run}
use stocks_fno.Engine.State.{
  Spread, Condor, Reason, Engine, Verdict, kept, adverse, profit, add_to, may_enter,
}
use stocks_fno.Engine.Spread.{SpreadPlan, SpreadAnswers, enter_spread, close_spread}
use stocks_fno.Engine.Condor.{enter_condor, close_condor, CondorPlan, CondorAnswers}
use stocks_fno.Engine.Reasons.{Loaded, View, quote_of, spread_reason, condor_quotes, condor_reason}

-- the symbols that a loop has collected
pub record Verdicts : Type 0 where
  pub losers : List String
  pub winners : List String

abbrev pub noted : Verdict → String → Verdicts → Verdicts
noted kept u vs = vs
noted adverse u vs = record vs { losers = u ∷ vs.losers }
noted profit u vs = record vs { winners = u ∷ vs.winners }

module _ {S E : Type 0} (check : String → S → E → Verdict × E) where
  -- the loop over the structures of a table
  unfoldable pub check_each : List (String × S) → E → Verdicts × E
  check_each [] e = (record { losers = []; winners = [] }, e)
  check_each ((u, s) ∷ ss) e =
      let (v, e') = check u s e in let (vs, e'') = check_each ss e' in (noted v u vs, e'')

module _ {F W : Type 0} where
  -- the removals after the loop, for each of the four lists
  unfoldable pub drop_losing_spreads : List String → Engine F W → Engine F W
  unfolding remove
  drop_losing_spreads [] e = e
  drop_losing_spreads (u ∷ us) e = drop_losing_spreads us (record e {
    active_spreads = remove u e.active_spreads;
    exited_today = add_to u e.exited_today;
  })

  unfoldable pub drop_winning_spreads : List String → Engine F W → Engine F W
  unfolding remove
  drop_winning_spreads [] e = e
  drop_winning_spreads (u ∷ us) e = drop_winning_spreads us (record e {
    active_spreads = remove u e.active_spreads;
    profit_closed_today = add_to u e.profit_closed_today;
  })

  unfoldable pub drop_losing_condors : List String → Engine F W → Engine F W
  unfolding remove
  drop_losing_condors [] e = e
  drop_losing_condors (u ∷ us) e = drop_losing_condors us (record e {
    active_condors = remove u e.active_condors;
    exited_today = add_to u e.exited_today;
  })

  unfoldable pub drop_winning_condors : List String → Engine F W → Engine F W
  unfolding remove
  drop_winning_condors [] e = e
  drop_winning_condors (u ∷ us) e = drop_winning_condors us (record e {
    active_condors = remove u e.active_condors;
    profit_closed_today = add_to u e.profit_closed_today;
  })

module _ {F : Type 0} ⦃f : Float F⦄ {W : Type 0} (x : Outside F W) where
  -- a spread by the reason that was found; the view of its underlying has the prices
  abbrev pub spread_for :
      Option Reason → View F → String → Spread F → Engine F W → Verdict × Engine F W
  spread_for none v u sp e = (kept, e)
  spread_for (some r) v u sp e =
      close_spread x v.holdings v.moment u r (quote_of v v.short_quote sp.short)
        (quote_of v v.long_quote sp.long) sp e

  unfoldable pub check_spread :
      Option (Loaded F) → (String → View F) → String → Spread F → Engine F W → Verdict × Engine F W
  unfolding spread_reason close_spread
  check_spread s views u sp e =
      spread_for (spread_reason s (elem u e.close_on_first_cycle) (views u) sp) (views u) u sp e

  unfoldable pub check_spread_exits :
      Option (Loaded F) → (String → View F) → Engine F W → Engine F W
  unfolding check_each check_spread drop_losing_spreads drop_winning_spreads
  check_spread_exits s views e =
      let (vs, e') = check_each (check_spread s views) e.active_spreads e in
      drop_winning_spreads vs.winners (drop_losing_spreads vs.losers e')

  abbrev pub condor_for :
      Option Reason → View F → String → Condor F → Engine F W → Verdict × Engine F W
  condor_for none v u c e = (kept, e)
  condor_for (some r) v u c e = close_condor x v.holdings v.moment u r (condor_quotes v c) c e

  unfoldable pub check_condor :
      Option (Loaded F) → (String → View F) → String → Condor F → Engine F W → Verdict × Engine F W
  unfolding condor_reason close_condor
  check_condor s views u c e =
      condor_for (condor_reason s (elem u e.close_on_first_cycle) (views u) c) (views u) u c e

  unfoldable pub check_condor_exits :
      Option (Loaded F) → (String → View F) → Engine F W → Engine F W
  unfolding check_each check_condor drop_losing_condors drop_winning_condors
  check_condor_exits s views e =
      let (vs, e') = check_each (check_condor s views) e.active_condors e in
      drop_winning_condors vs.winners (drop_losing_condors vs.losers e')

module _ {F : Type 0} ⦃f : Float F⦄ {W : Type 0} (x : Outside F W) where
  -- the two checks of a cycle, with the strategies that are loaded
  unfoldable pub check_exits :
      Option (Loaded F) → Option (Loaded F) → (String → View F) → Engine F W → Engine F W
  unfolding check_spread_exits check_condor_exits
  check_exits s s' views e = check_condor_exits x s' views (check_spread_exits x s views e)

-- What happens to the structures: entries that have passed the gates behind the first guards, checks
-- with the loaded strategy and what they read of each underlying, and calls of the order manager.
pub data Event (F : Type 0) : Type 0 where
  enters_spread : Moment → Bool → ℕ → SpreadPlan F → SpreadAnswers F → Event F
  enters_condor : Moment → Bool → ℕ → CondorPlan F → CondorAnswers F → Event F
  checks_spreads checks_condors : Option (Loaded F) → (String → View F) → Event F
  calls : List (Moment × Call F) → Event F

module _ {F : Type 0} ⦃f : Float F⦄ {W : Type 0} (x : Outside F W) where
  unfoldable pub happens : Engine F W → Event F → Engine F W
  unfolding may_enter enter_spread enter_condor check_spread_exits check_condor_exits run
  happens e (enters_spread t single limit p a) =
      if may_enter single limit p.symbol e then enter_spread x t p a e else e
  happens e (enters_condor t single limit p a) =
      if may_enter single limit p.symbol e then enter_condor x t p a e else e
  happens e (checks_spreads s views) = check_spread_exits x s views e
  happens e (checks_condors s views) = check_condor_exits x s views e
  happens e (calls cs) = record e { oms = run x e.oms cs }

  unfoldable pub after : Engine F W → List (Event F) → Engine F W
  unfolding happens
  after e [] = e
  after e (h ∷ hs) = after (happens e h) hs
