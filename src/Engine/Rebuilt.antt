-- ===== src/Engine/Rebuilt.antt =====
-- The capital that a rebuild counts against each strategy (live_trading/live_trading_engine.py).
use stocks_fno.Prelude.{
  ◌≡◌, refl, sym, ap, ◌∙◌, Bool-cases, inl, inr, Option, none, some, List, [], ◌∷◌, ◌++◌, ◌||◌,
  ◌==◌, String, str_eq, eq_iff, get_or_else, if◌then◌else◌, arith,
}
use stocks_fno.Int.{pos, magnitude}
use stocks_fno.Dict.{Dict, lookup, insert, lookup-insert}
use stocks_fno.Float.{Float, nought, py_max}
use stocks_fno.Risk.Manager.{RiskManager, deployed, add_deployed_capital, reset_daily_state}
use stocks_fno.Engine.State.{Spread, Condor, Engine}
use stocks_fno.Engine.Spread.{width}
use stocks_fno.Engine.Spread.{released as spread_released}
use stocks_fno.Engine.Condor.{wing_spread}
use stocks_fno.Engine.Condor.{released as condor_released}
use stocks_fno.Engine.Rebuild.{
  SingleLeg, Held, Fetches, safe_get_positions, by_symbol, spread_max_loss, condor_max_loss,
  add_if_positive, rebuild_spreads, rebuild_condors, price_of, add_position, add_single_leg,
  rebuild_single_legs, fetched, rebuild_deployed_capital, on_market_open,
}

-- amounts, each with the strategy that owes it
abbrev pub Dues : Type 0 → Type 0
Dues F = List (String × F)

module _ {F : Type 0} where
  -- the last of the positions with a symbol
  abbrev pub last_held : String → List (Held F) → Option (Held F)
  last_held k [] = none
  last_held k (p ∷ ps) = elim (last_held k ps) [
    | some q ↦ some q
    | none ↦ if str_eq p.symbol k then some p else none
  ]

  lookup-by_symbol :
      (k : String) (d : Dict (Held F)) (ps : List (Held F))
      → lookup k (by_symbol d ps) ≡ elim (last_held k ps) [ some q ↦ some q | none ↦ lookup k d ]
  unfolding by_symbol
  lookup-by_symbol k d [] = refl
  lookup-by_symbol k d (p ∷ ps) =
      lookup-by_symbol k (insert p.symbol p d) ps ∙ ground (arith, lookup-insert k p.symbol p d)

module _ {F : Type 0} ⦃f : Float F⦄ where
  -- what a strategy owes, added up in the order of the list
  abbrev pub total : String → Dues F → F → F
  total s [] a = a
  total s ((t, x) ∷ xs) a = total s xs (if str_eq t s then f.add a x else a)

  total-append :
      (s : String) (xs ys : Dues F) (a : F) → total s (xs ++ ys) a ≡ total s ys (total s xs a)
  total-append s [] ys a = refl
  total-append s ((t, x) ∷ xs) ys a = total-append s xs ys (if str_eq t s then f.add a x else a)

  abbrev pub due : String → F → Dues F
  due s x = if f.lt nought x then (s, x) ∷ [] else []

  -- the capital that the closes of the open spreads, and of the condors, will release
  abbrev pub spread_dues : Dict (Spread F) → Dues F
  spread_dues [] = []
  spread_dues ((u, s) ∷ d) =
      due (get_or_else s.strategy_name "credit_spread_v1") (spread_released s) ++ spread_dues d

  abbrev pub condor_dues : Dict (Condor F) → Dues F
  condor_dues [] = []
  condor_dues ((u, c) ∷ d) =
      due (get_or_else c.strategy_name "iron_condor_v1") (condor_released c) ++ condor_dues d

  -- the cost of the options that the broker still holds for a named strategy, at a known price
  abbrev pub leg_due : Option (Held F) → Option String → Dues F
  leg_due (some p) (some s) =
      if magnitude p.quantity == 0 || str_eq s ""
      then []
      else if f.lt nought (price_of p)
      then (s, f.mul (f.of_int (pos (magnitude p.quantity))) (price_of p)) ∷ []
      else []
  leg_due _ _ = []

  abbrev pub leg_dues : List (Held F) → Dict SingleLeg → Dues F
  leg_dues ps [] = []
  leg_dues ps ((contract, info) ∷ d) =
      leg_due (last_held contract ps) info.strategy_name ++ leg_dues ps d

  -- the manager counts what `xs` adds to what it counted
  abbrev Adds : Dues F → RiskManager F → RiskManager F → Type 0
  Adds xs m n = (s : String) → deployed n s ≡ total s xs (deployed m s)

  deployed-add :
      (m : RiskManager F) (t : String) (x : F) → Adds ((t, x) ∷ []) m (add_deployed_capital m t x)
  unfolding deployed add_deployed_capital
  deployed-add m t x s = elim (Bool-cases (str_eq t s)) [
    | inl e ↦
        rw (lookup-insert s t (f.add (deployed m t) x) m.strategy_deployed, e, (eq_iff t s).0 e)
          refl
    | inr e ↦ rw (lookup-insert s t (f.add (deployed m t) x) m.strategy_deployed, e) refl
  ]

  Adds-trans :
      (xs ys : Dues F) (m n o : RiskManager F) → Adds xs m n → Adds ys n o → Adds (xs ++ ys) m o
  Adds-trans xs ys m n o h k s =
      k s ∙ ap (total s ys) (h s) ∙ sym (total-append s xs ys (deployed m s))

  Adds-due : (s : String) (x : F) (m : RiskManager F) → Adds (due s x) m (add_if_positive s x m)
  Adds-due s x m = elim (Bool-cases (f.lt nought x)) [
    | inl e ↦ rw e (deployed-add m s x)
    | inr e ↦ rw e (λ t. refl)
  ]

  spread_max_loss-released : (s : Spread F) → spread_max_loss s ≡ spread_released s
  unfolding spread_released width
  spread_max_loss-released s = refl

  condor_max_loss-released : (c : Condor F) → condor_max_loss c ≡ condor_released c
  unfolding condor_max_loss condor_released wing_spread width py_max
  condor_max_loss-released c = refl

  rebuild_spreads-Adds :
      (d : Dict (Spread F)) (m : RiskManager F) → Adds (spread_dues d) m (rebuild_spreads d m)
  unfolding rebuild_spreads
  rebuild_spreads-Adds [] m = λ s. refl
  rebuild_spreads-Adds ((u, sp) ∷ d) m =
      let name = get_or_else sp.strategy_name "credit_spread_v1" in
      rw (spread_max_loss-released sp) (
        Adds-trans (due name (spread_released sp)) (spread_dues d) m
          (add_if_positive name (spread_released sp) m)
          (rebuild_spreads d (add_if_positive name (spread_released sp) m))
          (Adds-due name (spread_released sp) m)
          (rebuild_spreads-Adds d (add_if_positive name (spread_released sp) m)))

  rebuild_condors-Adds :
      (d : Dict (Condor F)) (m : RiskManager F) → Adds (condor_dues d) m (rebuild_condors d m)
  unfolding rebuild_condors
  rebuild_condors-Adds [] m = λ s. refl
  rebuild_condors-Adds ((u, c) ∷ d) m =
      let name = get_or_else c.strategy_name "iron_condor_v1" in
      rw (condor_max_loss-released c) (
        Adds-trans (due name (condor_released c)) (condor_dues d) m
          (add_if_positive name (condor_released c) m)
          (rebuild_condors d (add_if_positive name (condor_released c) m))
          (Adds-due name (condor_released c) m)
          (rebuild_condors-Adds d (add_if_positive name (condor_released c) m)))

  Adds-position :
      (s : String) (p : Held F) (m : RiskManager F)
      → Adds (leg_due (some p) (some s)) m (add_position s p m)
  Adds-position s p m = elim (Bool-cases (magnitude p.quantity == 0 || str_eq s "")) [
    | inl e ↦ rw e (λ t. refl)
    | inr e ↦ elim (Bool-cases (f.lt nought (price_of p))) [
      | inl c ↦
          rw (e, c) (deployed-add m s (f.mul (f.of_int (pos (magnitude p.quantity))) (price_of p)))
      | inr c ↦ rw (e, c) (λ t. refl)
    ]
  ]

  Adds-leg :
      (p : Option (Held F)) (s : Option String) (m : RiskManager F)
      → Adds (leg_due p s) m (add_single_leg p s m)
  Adds-leg none s m = λ t. refl
  Adds-leg (some p) none m = λ t. refl
  Adds-leg (some p) (some s) m = Adds-position s p m

  lookup-held : (k : String) (ps : List (Held F)) → lookup k (by_symbol [] ps) ≡ last_held k ps
  unfolding lookup
  lookup-held k ps = lookup-by_symbol k [] ps ∙ ground arith

  rebuild_single_legs-Adds :
      (ps : List (Held F)) (d : Dict SingleLeg) (m : RiskManager F)
      → Adds (leg_dues ps d) m (rebuild_single_legs (by_symbol [] ps) d m)
  unfolding rebuild_single_legs
  rebuild_single_legs-Adds ps [] m = λ s. refl
  rebuild_single_legs-Adds ps ((k, info) ∷ d) m =
      let n = add_single_leg (last_held k ps) info.strategy_name m in
      rw (lookup-held k ps) (
        Adds-trans (leg_due (last_held k ps) info.strategy_name) (leg_dues ps d) m n
          (rebuild_single_legs (by_symbol [] ps) d n)
          (Adds-leg (last_held k ps) info.strategy_name m) (rebuild_single_legs-Adds ps d n))

  fetched-Adds :
      (d : Dict SingleLeg) (answer : Option (List (Held F))) (t : Fetches) (m : RiskManager F)
      → Adds
          (leg_dues (get_or_else answer []) d)
          m
          (rebuild_single_legs (by_symbol [] (fetched d answer t).0) d m)
  unfolding safe_get_positions rebuild_single_legs
  fetched-Adds [] answer t m = λ s. refl
  fetched-Adds (j ∷ d) none t m = rebuild_single_legs-Adds [] (j ∷ d) m
  fetched-Adds (j ∷ d) (some ps) t m = rebuild_single_legs-Adds ps (j ∷ d) m

  module _ {W : Type 0} where
    -- what the open structures and options owe
    abbrev pub dues : Dict SingleLeg → Option (List (Held F)) → Engine F W → Dues F
    dues journals answer e =
        spread_dues e.active_spreads
        ++ (condor_dues e.active_condors ++ leg_dues (get_or_else answer []) journals)

    rebuild-Adds :
        (journals : Dict SingleLeg) (answer : Option (List (Held F))) (e : Engine F W) (t : Fetches)
        → Adds
            (dues journals answer e)
            e.oms.risk_manager
            (rebuild_deployed_capital journals answer e t).0.oms.risk_manager
    unfolding rebuild_deployed_capital safe_get_positions
    rebuild-Adds journals answer e t =
        let m = e.oms.risk_manager in
        let n = rebuild_spreads e.active_spreads m in
        let o = rebuild_condors e.active_condors n in
        Adds-trans (spread_dues e.active_spreads) _ m n _ (rebuild_spreads-Adds e.active_spreads m)
          (Adds-trans (condor_dues e.active_condors) _ n o _
            (rebuild_condors-Adds e.active_condors n) (fetched-Adds journals answer t o))

    -- After the market opens, the capital that counts against a strategy's budget is what its open
    -- structures release when they close, each amount above zero, and the cost of its single options
    -- that the broker holds at a known price, in the order of the tables, whatever was counted before;
    -- where the fetch of the positions fails, the single options count nothing.
    pub rebuilt_capital :
        (journals : Dict SingleLeg) (answer : Option (List (Held F))) (e : Engine F W) (t : Fetches)
        (s : String)
        → deployed (on_market_open journals answer e t).0.oms.risk_manager s
          ≡ total s (dues journals answer e) nought
    unfolding on_market_open reset_daily_state deployed lookup
    rebuilt_capital journals answer e t s =
        rebuild-Adds journals answer
          (record e {
            oms = record e.oms { risk_manager = reset_daily_state e.oms.risk_manager };
            today_order_count = 0;
          })
          t s
