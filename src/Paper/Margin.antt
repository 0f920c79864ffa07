-- ===== src/Paper/Margin.antt =====
-- The margin that `PaperBroker` blocks (paper_trading/paper_broker.py).
use stocks_fno.Prelude.{◌≡◌, refl, Bool, true, false, none, some, List, String, arith, eq_iff}
use stocks_fno.Int.{pos, ltb_ℤ}
use stocks_fno.Dict.{lookup, lookup-insert, lookup-remove}
use stocks_fno.Float.{Float}
use stocks_fno.Paper.Positions.{position_of, update_position, position_of-update_position}
use stocks_fno.Paper.Calls.{
  Call, places, cancels, modifies, step, run, place_order_cases, cancel_order_cases, run_induction,
}
use stocks_fno.Paper.Broker.{
  Broker, Request, init, fill_of, short_margin, block_margin, execute, modify_order,
}

module _ {F : Type 0} ⦃f : Float F⦄ where
  abbrev has_margin : Broker F → String → Bool
  has_margin b s = elim (lookup s b.margin_blocked) [ none ↦ false | some _ ↦ true ]

  -- Margin is blocked for exactly the symbols that are sold short.
  pub record IsMargined (b : Broker F) : Type 0 where
    pub at : (s : String) → has_margin b s ≡ ltb_ℤ (position_of b.positions s).quantity (pos 0)

  execute-IsMargined : (b : Broker F) (r : Request F) → IsMargined b → IsMargined (execute b r)
  unfolding execute block_margin
  execute-IsMargined b r h = record {
    at = λ s.
        let ps = update_position b.positions r.symbol r.side r.quantity (fill_of r) in
        let q = (position_of ps r.symbol).quantity in
        ground (
          arith,
          h.at s,
          eq_iff r.symbol s,
          lookup-insert s r.symbol (short_margin q (fill_of r)) b.margin_blocked,
          lookup-remove s r.symbol b.margin_blocked,
          (position_of-update_position b.positions r.symbol s r.side r.quantity (fill_of r)).2,
        );
  }

  step-IsMargined : (b : Broker F) (c : Call F) → IsMargined b → IsMargined (step b c)
  unfolding step modify_order
  step-IsMargined b (places r) h = place_order_cases IsMargined b r h (execute-IsMargined b r h)
  step-IsMargined b (cancels id) h =
      cancel_order_cases IsMargined b id h (λ os. record { at = h.at })
  step-IsMargined b (modifies id p q) h = h

  -- From a new broker on, after any calls, margin is blocked for exactly the symbols whose position
  -- is short.
  pub run-IsMargined : (balance : F) (cs : List (Call F)) → IsMargined (run (init balance) cs)
  unfolding init lookup position_of
  run-IsMargined balance cs =
      run_induction IsMargined step-IsMargined (init balance) cs (record { at = λ s. refl })
