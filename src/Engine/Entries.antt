-- ===== src/Engine/Entries.antt =====
-- What holds of all open spreads, or of all open condors, through the entries of
-- live_trading/live_trading_engine.py.
use stocks_fno.Prelude.{
  ◌≡◌, refl, sym, ◌∙◌, subst, Bool, true, false, inl, inr, Option, none, some, [], ◌∷◌, String,
  Bool-cases, get_or_else, if◌then◌else◌,
}
use stocks_fno.Dict.{Dict, All-insert}
use stocks_fno.Float.{Float}
use stocks_fno.Risk.Validate.{buy, sell, is_buy}
use stocks_fno.Orders.Store.{Order, Outside, Moment, priced}
use stocks_fno.Orders.Place.{Request, place_order}
use stocks_fno.Engine.Legs.{real_fill}
use stocks_fno.Engine.State.{Spread, Condor, Engine}
use stocks_fno.Engine.Spread.{
  SpreadPlan, SpreadAnswers, spread_of, unwind_short, track_spread, after_long, enter_long,
  after_short, enter_spread, unwind_failed, unwind_order, is_blocked,
}
use stocks_fno.Engine.Condor.{
  CondorPlan, CondorAnswers, Placed, condor_of, unwind_one, unwind_all, unwind_doubtful,
  track_condor, after_placing, enter_condor, place_legs, leg_orders,
}
use stocks_fno.Engine.Terms.{spread_terms, condor_terms}
use stocks_fno.Engine.Rows.{SpreadRows, CondorRows, SpreadsHold, CondorsHold}

module _ {F : Type 0} ⦃f : Float F⦄ {W : Type 0} (x : Outside F W) where
  -- The unwind of a short leg leaves the open structures.
  pub unwind_short-same :
      (t : Moment) (p : SpreadPlan F) (a : SpreadAnswers F) (e : Engine F W)
      → ((unwind_short x t p a e).active_spreads ≡ e.active_spreads)
        × ((unwind_short x t p a e).active_condors ≡ e.active_condors)
  unfolding unwind_short
  unwind_short-same t p a e =
      let price = get_or_else (priced a.unwind_quote) p.short_p in
      let o = (place_order x t (unwind_order p.short_contract buy p.lot_size price) e.oms).0 in
      elim (Bool-cases (unwind_failed o)) [ inl q ↦ rw q (refl, refl) | inr q ↦ rw q (refl, refl) ]

  after_long-rows :
      (Q : String → Spread F → Type 0) (C : Dict (Condor F)) (t : Moment) (p : SpreadPlan F)
      (a : SpreadAnswers F) (short : Order F) (o : Option (Order F)) (e : Engine F W)
      → ((sf lf : F) → Q p.symbol (spread_terms (spread_of p a sf lf)))
      → SpreadsHold Q C e
      → SpreadsHold Q C (after_long x t p a short o e)
  unfolding track_spread
  after_long-rows Q C t p a short none e q h =
      let (same, same') = unwind_short-same t p a e in
      (subst (SpreadRows Q) (sym same) h.0, same' ∙ h.1)
  after_long-rows Q C t p a short (some long) e q (h, c) = (
    All-insert (λ r. Q r.0 (spread_terms r.1)) p.symbol _ e.active_spreads
        (q (real_fill short p.short_p) (real_fill long p.long_p)) h,
    c,
  )

  after_short-rows :
      (Q : String → Spread F → Type 0) (C : Dict (Condor F)) (t : Moment) (p : SpreadPlan F)
      (a : SpreadAnswers F) (o : Option (Order F)) (b : Bool) (e : Engine F W)
      → ((sf lf : F) → Q p.symbol (spread_terms (spread_of p a sf lf)))
      → SpreadsHold Q C e
      → SpreadsHold Q C (after_short x t p a o b e)
  unfolding enter_long
  after_short-rows Q C t p a none true e q h = h
  after_short-rows Q C t p a none false e q h = h
  after_short-rows Q C t p a (some short) b e q h = after_long-rows Q C t p a short _ _ q h

  -- An entry keeps `Q` where the spread that it may record has it.
  pub enter_spread-rows :
      (Q : String → Spread F → Type 0) (t : Moment) (p : SpreadPlan F) (a : SpreadAnswers F)
      (e : Engine F W)
      → ((sf lf : F) → Q p.symbol (spread_terms (spread_of p a sf lf)))
      → SpreadRows Q e.active_spreads
      → SpreadsHold Q e.active_condors (enter_spread x t p a e)
  unfolding enter_spread
  enter_spread-rows Q t p a e q h = after_short-rows Q e.active_condors t p a _ _ _ q (h, refl)

  unwind_one-rows :
      (Q : String → Condor F → Type 0) (S : Dict (Spread F)) (t : Moment) (a : CondorAnswers F)
      (r : Request F) (e : Engine F W)
      → CondorsHold Q S e
      → CondorsHold Q S (unwind_one x t a r e)
  unwind_one-rows Q S t a r e h =
      let price = get_or_else (priced (a.unwind_quote r.symbol)) r.price in
      let rev = if is_buy r.side then sell else buy in
      let o = (place_order x t (unwind_order r.symbol rev r.quantity price) e.oms).0 in
      elim (Bool-cases (unwind_doubtful o)) [ inl q ↦ rw q h | inr q ↦ rw q h ]

  unwind_all-rows :
      (Q : String → Condor F → Type 0) (S : Dict (Spread F)) (t : Moment) (a : CondorAnswers F)
      (os : Placed F) (e : Engine F W)
      → CondorsHold Q S e
      → CondorsHold Q S (unwind_all x t a os e)
  unfolding unwind_all
  unwind_all-rows Q S t a [] e h = h
  unwind_all-rows Q S t a ((r, o) ∷ os) e h =
      unwind_all-rows Q S t a os (unwind_one x t a r e) (unwind_one-rows Q S t a r e h)

  after_placing-rows :
      (Q : String → Condor F → Type 0) (S : Dict (Spread F)) (t : Moment) (p : CondorPlan F)
      (a : CondorAnswers F) (os : Placed F) (o : Option (Option (Order F))) (e : Engine F W)
      → ((qs : Placed F) → Q p.symbol (condor_terms (condor_of p a qs)))
      → CondorsHold Q S e
      → CondorsHold Q S (after_placing x t p a os o e)
  unfolding track_condor
  after_placing-rows Q S t p a os none e q (h, k) = (
    All-insert (λ r. Q r.0 (condor_terms r.1)) p.symbol (condor_of p a os) e.active_condors (q os)
        h,
    k,
  )
  after_placing-rows Q S t p a os (some o) e q h =
      unwind_all-rows Q S t a os _
        (elim (Bool-cases (is_blocked o)) [ inl b ↦ rw b h | inr b ↦ rw b h ])

  pub enter_condor-rows :
      (Q : String → Condor F → Type 0) (t : Moment) (p : CondorPlan F) (a : CondorAnswers F)
      (e : Engine F W)
      → ((qs : Placed F) → Q p.symbol (condor_terms (condor_of p a qs)))
      → CondorRows Q e.active_condors
      → CondorsHold Q e.active_spreads (enter_condor x t p a e)
  unfolding enter_condor
  enter_condor-rows Q t p a e q h =
      let placing = place_legs x t [] (leg_orders p) e.oms in
      after_placing-rows Q e.active_spreads t p a placing.placed placing.refused
        (record e { oms = placing.oms }) q (h, refl)
