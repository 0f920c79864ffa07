-- ===== src/Engine/Rebuild.antt =====
-- What live_trading/live_trading_engine.py rebuilds from the positions that are open: the capital that
-- counts against each strategy's budget (`_rebuild_deployed_capital`), and the underlyings that the
-- poller of market_data/ltp_poller.py must follow (`_sync_must_track_underlyings`).
use stocks_fno.Prelude.{
  ℕ, suc, Bool, true, false, Option, none, some, List, [], ◌∷◌, ◌++◌, ◌||◌, ◌==◌, String, str_eq,
  elem, map, get_or_else, if◌then◌else◌,
}
use stocks_fno.Int.{ℤ, pos, magnitude}
use stocks_fno.Dict.{Dict, lookup, insert}
use stocks_fno.Float.{Float, nought, py_max}
use stocks_fno.Risk.Manager.{RiskManager, add_deployed_capital, reset_daily_state}
use stocks_fno.Engine.State.{Spread, Condor, Engine, add_to, discard}

-- what is read here of a value of `_single_leg_journals`; the entry writes its key, which is not 0
pub record SingleLeg : Type 0 where
  pub journal_id : ℕ
  pub strategy_name : Option String
  pub underlying : String

-- what is read here of a position of the broker
pub record Held (F : Type 0) : Type 0 where
  pub symbol : String
  pub quantity : ℤ
  pub avg_price : Option F

-- What `_safe_get_positions` keeps: whether the last fetch was answered, and the two counters.
pub record Fetches : Type 0 where
  pub known : Bool
  pub successes : ℕ
  pub failures : ℕ

module _ {F : Type 0} where
  -- `none` is a fetch that raises
  unfoldable pub safe_get_positions : Option (List (Held F)) → Fetches → List (Held F) × Fetches
  safe_get_positions (some ps) t = (ps, record t { known = true; successes = suc t.successes })
  safe_get_positions none t = ([], record t { known = false; failures = suc t.failures })

  -- `_pos_by_symbol`: of two positions with one symbol, the later
  unfoldable pub by_symbol : Dict (Held F) → List (Held F) → Dict (Held F)
  unfolding insert
  by_symbol d [] = d
  by_symbol d (p ∷ ps) = by_symbol (insert p.symbol p d) ps

module _ {F : Type 0} ⦃f : Float F⦄ where
  abbrev pub spread_max_loss : Spread F → F
  spread_max_loss s =
      let width = f.abs (f.sub s.short.strike s.long.strike) in
      let fill_credit = f.sub s.short.premium s.long.premium in
      f.mul (f.sub width fill_credit) (f.of_int s.lot_size)

  unfoldable pub condor_max_loss : Condor F → F
  unfolding py_max
  condor_max_loss c =
      let put_wing = f.abs (f.sub c.put_short.strike c.put_long.strike) in
      let call_wing = f.abs (f.sub c.call_short.strike c.call_long.strike) in
      let fill_credit =
        f.add (f.sub c.put_short.premium c.put_long.premium)
          (f.sub c.call_short.premium c.call_long.premium) in
      f.mul (f.sub (py_max put_wing call_wing) fill_credit) (f.of_int c.lot_size)

  abbrev pub add_if_positive : String → F → RiskManager F → RiskManager F
  add_if_positive strategy amount m =
      if f.lt nought amount then add_deployed_capital m strategy amount else m

  unfoldable pub rebuild_spreads : Dict (Spread F) → RiskManager F → RiskManager F
  rebuild_spreads [] m = m
  rebuild_spreads ((u, s) ∷ d) m =
      rebuild_spreads d
        (add_if_positive (get_or_else s.strategy_name "credit_spread_v1") (spread_max_loss s) m)

  unfoldable pub rebuild_condors : Dict (Condor F) → RiskManager F → RiskManager F
  unfolding condor_max_loss
  rebuild_condors [] m = m
  rebuild_condors ((u, c) ∷ d) m =
      rebuild_condors d
        (add_if_positive (get_or_else c.strategy_name "iron_condor_v1") (condor_max_loss c) m)

  -- the price that a position counts with: `float(avg_price or 0)`
  abbrev pub price_of : Held F → F
  price_of p = get_or_else p.avg_price nought

  -- one option of a single-leg strategy, once its position and its strategy are known
  abbrev pub add_position : String → Held F → RiskManager F → RiskManager F
  add_position strategy p m =
      if magnitude p.quantity == 0 || str_eq strategy ""
      then m
      else if f.lt nought (price_of p)
      then add_deployed_capital m strategy
          (f.mul (f.of_int (pos (magnitude p.quantity))) (price_of p))
      else m

  abbrev pub add_single_leg : Option (Held F) → Option String → RiskManager F → RiskManager F
  add_single_leg (some p) (some strategy) m = add_position strategy p m
  add_single_leg _ _ m = m

  unfoldable pub rebuild_single_legs :
      Dict (Held F) → Dict SingleLeg → RiskManager F → RiskManager F
  unfolding lookup
  rebuild_single_legs held [] m = m
  rebuild_single_legs held ((contract, info) ∷ d) m =
      rebuild_single_legs held d (add_single_leg (lookup contract held) info.strategy_name m)

  -- the positions are fetched only where a journal is there to ask for them
  abbrev pub fetched : Dict SingleLeg → Option (List (Held F)) → Fetches → List (Held F) × Fetches
  unfolding safe_get_positions
  fetched [] answer t = ([], t)
  fetched (_ ∷ _) answer t = safe_get_positions answer t

  module _ {W : Type 0} where
    unfoldable pub rebuild_deployed_capital :
        Dict SingleLeg → Option (List (Held F)) → Engine F W → Fetches → Engine F W × Fetches
    unfolding rebuild_spreads rebuild_condors rebuild_single_legs by_symbol safe_get_positions
    rebuild_deployed_capital journals answer e t =
        let (positions, t') = fetched journals answer t in
        (
          record e {
            oms = record e.oms {
              risk_manager = rebuild_single_legs (by_symbol [] positions) journals (
                  rebuild_condors e.active_condors
                    (rebuild_spreads e.active_spreads e.oms.risk_manager));
            };
          },
          t',
        )

    -- the part of `on_market_open` that concerns the capital and the count of orders
    unfoldable pub on_market_open :
        Dict SingleLeg → Option (List (Held F)) → Engine F W → Fetches → Engine F W × Fetches
    unfolding rebuild_deployed_capital reset_daily_state
    on_market_open journals answer e t =
        rebuild_deployed_capital journals answer
          (record e {
            oms = record e.oms { risk_manager = reset_daily_state e.oms.risk_manager };
            today_order_count = 0;
          })
          t

-- `a - b` of two sets
unfoldable pub difference : List String → List String → List String
difference [] ys = []
difference (x ∷ xs) ys = if elem x ys then difference xs ys else x ∷ difference xs ys

-- `register_underlying` and `unregister_underlying` of the poller, for each symbol in turn
unfoldable pub register_all : List String → List String → List String
register_all [] tracked = tracked
register_all (s ∷ ss) tracked = register_all ss (add_to s tracked)

unfoldable pub unregister_all : List String → List String → List String
unfolding discard
unregister_all [] tracked = tracked
unregister_all (s ∷ ss) tracked = unregister_all ss (discard s tracked)

-- the underlyings that the journals name
unfoldable pub underlyings : Dict SingleLeg → List String
underlyings [] = []
underlyings ((contract, info) ∷ d) =
    let rest = underlyings d in if str_eq info.underlying "" then rest else info.underlying ∷ rest

-- `_has_open_single_leg_position`
unfoldable pub has_single_leg : String → Dict SingleLeg → Bool
has_single_leg u [] = false
has_single_leg u ((contract, info) ∷ d) = str_eq info.underlying u || has_single_leg u d

module _ {F W : Type 0} where
  abbrev pub open_underlyings : Dict SingleLeg → Engine F W → List String
  unfolding underlyings
  open_underlyings journals e =
      map (λ r. r.0) e.active_spreads ++ map (λ r. r.0) e.active_condors ++ underlyings journals

  -- `none` is an engine with no poller
  unfoldable pub sync_must_track :
      Dict SingleLeg → Engine F W → Option (List String) → Option (List String)
  unfolding register_all unregister_all difference underlyings
  sync_must_track journals e none = none
  sync_must_track journals e (some tracked) =
      let wanted = open_underlyings journals e in
      let more = register_all (difference wanted tracked) tracked in
      some (unregister_all (difference more wanted) more)
