-- ===== src/Engine/Reserve.antt =====
-- The capital that an entry reserves and the capital that the close of its structure releases
-- (live_trading/live_trading_engine.py), with anything in between.
use stocks_fno.Prelude.{
  ◌≡◌, ◌≢◌, refl, sym, ap, ◌∙◌, subst, Bool, true, false, ◌⊎◌, inl, inr, Option, none, some, List,
  [], ◌∷◌, String, get_or_else, All, All-map,
}
use stocks_fno.Dict.{lookup, insert, All-insert, All-lookup}
use stocks_fno.Float.{Float}
use stocks_fno.Risk.Manager.{add_deployed_capital, release_deployed_capital}
use stocks_fno.Risk.Validate.{buy}
use stocks_fno.Orders.Store.{Order, Outside, Oms, Moment}
use stocks_fno.Orders.Place.{Request, place_order}
use stocks_fno.Engine.Legs.{Holdings, Attempt, real_fill, close_leg}
use stocks_fno.Engine.State.{Spread, Reason, Engine, kept}
use stocks_fno.Engine.Spread.{
  SpreadPlan, SpreadAnswers, spread_of, width, reserved, released, first_leg_order, leg_order,
  after_long, enter_long, after_short, track_spread, enter_spread, settle_spread, close_spread,
}
use stocks_fno.Engine.Check.{
  Event, enters_spread, enters_condor, checks_spreads, checks_condors, calls, after,
}
use stocks_fno.Engine.Terms.{spread_terms, held-conclude}
use stocks_fno.Engine.Rows.{SpreadRows}
use stocks_fno.Engine.Entries.{unwind_short-same}
use stocks_fno.Engine.Events.{SpreadsOnly, absent-rows, after-spreads}

module _ {F : Type 0} where
  -- The event enters no spread on the underlying `u`.
  abbrev pub IsElsewhere : String → Event F → Type 0
  IsElsewhere u (enters_spread t single limit p a) = p.symbol ≢ u
  IsElsewhere u _ = Unit

module _ {F : Type 0} ⦃f : Float F⦄ where
  -- the order of the short leg of a new spread, and of its long leg
  abbrev pub short_request : SpreadPlan F → Request F
  short_request p =
      first_leg_order p.strategy p.short_contract p.lot_size p.short_p p.iv_rank p.vix
        (f.mul (f.sub (width p.short_strike p.long_strike) p.net_credit) (f.of_int p.lot_size))

  abbrev pub long_request : SpreadPlan F → Request F
  long_request p = leg_order p.strategy p.long_contract buy p.lot_size p.long_p

  elsewhere-SpreadsOnly :
      (u : String) (T : Spread F) (h : Event F)
      → IsElsewhere u h
      → SpreadsOnly (λ k s. k ≡ u → s ≡ T) h
  elsewhere-SpreadsOnly u T (enters_spread t single limit p a) ne = λ sf lf q. absurd (ne q)
  elsewhere-SpreadsOnly u T (enters_condor t single limit p a) ne = tt
  elsewhere-SpreadsOnly u T (checks_spreads s views) ne = tt
  elsewhere-SpreadsOnly u T (checks_condors s views) ne = tt
  elsewhere-SpreadsOnly u T (calls cs) ne = tt

  elsewhere-refused : (u : String) (h : Event F) → IsElsewhere u h → SpreadsOnly (λ k s. k ≢ u) h
  elsewhere-refused u (enters_spread t single limit p a) ne = λ sf lf q. ne q
  elsewhere-refused u (enters_condor t single limit p a) ne = tt
  elsewhere-refused u (checks_spreads s views) ne = tt
  elsewhere-refused u (checks_condors s views) ne = tt
  elsewhere-refused u (calls cs) ne = tt

module _ {F : Type 0} ⦃f : Float F⦄ {W : Type 0} (x : Outside F W) where
  -- the order manager after both orders of an entry, and after both exits of a spread
  abbrev pub both_placed : Moment → SpreadPlan F → Oms F W → Oms F W
  both_placed t p s = (place_order x t (long_request p) (place_order x t (short_request p) s).1).1

  abbrev pub both_tried : Holdings → Moment → F → F → Spread F → Oms F W → Oms F W
  both_tried h t cs cl sp s =
      (close_leg x h t sp.lot_size cl sp.long (close_leg x h t sp.lot_size cs sp.short s).1).1

  -- The entry has recorded a spread, and reserved its capital.
  record IsEntered (t : Moment) (p : SpreadPlan F) (a : SpreadAnswers F) (e e' : Engine F W)
      : Type 0 where
    short_fill : F
    long_fill : F
    row : e'.active_spreads ≡ insert p.symbol (spread_of p a short_fill long_fill) e.active_spreads
    risk :
        e'.oms.risk_manager
        ≡ add_deployed_capital
            (both_placed t p e.oms).risk_manager
            p.strategy
            (reserved p short_fill long_fill)

  after_long-IsEntered :
      (t : Moment) (p : SpreadPlan F) (a : SpreadAnswers F) (e : Engine F W) (short : Order F)
      (o : Option (Order F))
      → let e' : Engine F W = record e { oms = both_placed t p e.oms } in
        ((after_long x t p a short o e').active_spreads ≡ e.active_spreads)
        ⊎ IsEntered t p a e (after_long x t p a short o e')
  unfolding track_spread
  after_long-IsEntered t p a e short none = inl (unwind_short-same x t p a _).0
  after_long-IsEntered t p a e short (some long) = inr (record {
    short_fill = real_fill short p.short_p;
    long_fill = real_fill long p.long_p;
    row = refl;
    risk = refl;
  })

  after_short-IsEntered :
      (t : Moment) (p : SpreadPlan F) (a : SpreadAnswers F) (e : Engine F W) (o : Option (Order F))
      (blocked : Bool)
      → let e' : Engine F W = record e { oms = (place_order x t (short_request p) e.oms).1 } in
        ((after_short x t p a o blocked e').active_spreads ≡ e.active_spreads)
        ⊎ IsEntered t p a e (after_short x t p a o blocked e')
  unfolding enter_long
  after_short-IsEntered t p a e none true = inl refl
  after_short-IsEntered t p a e none false = inl refl
  after_short-IsEntered t p a e (some short) b = after_long-IsEntered t p a e short _

  enter_spread-IsEntered :
      (t : Moment) (p : SpreadPlan F) (a : SpreadAnswers F) (e : Engine F W)
      → ((enter_spread x t p a e).active_spreads ≡ e.active_spreads)
        ⊎ IsEntered t p a e (enter_spread x t p a e)
  unfolding enter_spread
  enter_spread-IsEntered t p a e = after_short-IsEntered t p a e _ _

  -- a spread that is still there has the terms of its entry
  entered-terms :
      (t : Moment) (p : SpreadPlan F) (a : SpreadAnswers F) (e e' : Engine F W)
      (hs : List (Event F)) (sp : Spread F) (h : IsEntered t p a e e')
      → lookup p.symbol e.active_spreads ≡ none
      → All (IsElsewhere p.symbol) hs
      → lookup p.symbol (after x e' hs).active_spreads ≡ some sp
      → spread_terms sp ≡ spread_terms (spread_of p a h.short_fill h.long_fill)
  entered-terms t p a e e' hs sp h new others there =
      let row = spread_of p a h.short_fill h.long_fill in
      let T = spread_terms row in
      let Q : String → Spread F → Type 0 = λ k s. k ≡ p.symbol → s ≡ T in
      let old : SpreadRows Q e.active_spreads =
        All-map (λ r ne q. absurd (ne q)) e.active_spreads
          (absent-rows p.symbol e.active_spreads new) in
      let first : SpreadRows Q e'.active_spreads = subst (SpreadRows Q) (sym h.row) (
        All-insert (λ r. Q r.0 (spread_terms r.1)) p.symbol row e.active_spreads (λ q. refl) old) in
      let last =
        after-spreads x Q e' hs (All-map (elsewhere-SpreadsOnly p.symbol T) hs others) first in
      All-lookup (λ r. Q r.0 (spread_terms r.1)) p.symbol sp (after x e' hs).active_spreads last
        there refl

module _ {F : Type 0} ⦃f : Float F⦄ {W : Type 0} where
  settle_spread-releases :
      (u : String) (r : Reason) (cs cl : F) (sp : Spread F) (a b : Attempt F) (e : Engine F W)
      (p q : Option F)
      → ((settle_spread u r cs cl sp a b e p q).0 ≡ kept)
        ⊎ ((settle_spread u r cs cl sp a b e p q).1.oms.risk_manager
            ≡ release_deployed_capital e.oms.risk_manager
                (get_or_else sp.strategy_name "credit_spread_v1")
                (released sp))
  unfolding settle_spread
  settle_spread-releases u r cs cl sp a b e (some p) (some q) = inr (
      ap (λ z. z.4.risk_manager)
        (held-conclude u sp.journal_id _ _ r _ none (sp.short.gtt_id ∷ []) _))
  settle_spread-releases u r cs cl sp a b e (some p) none = inl refl
  settle_spread-releases u r cs cl sp a b e none q = inl refl

module _ {F : Type 0} ⦃f : Float F⦄ {W : Type 0} (x : Outside F W) where
  close_spread-releases :
      (h : Holdings) (t : Moment) (u : String) (r : Reason) (cs cl : F) (sp : Spread F)
      (e : Engine F W)
      → ((close_spread x h t u r cs cl sp e).0 ≡ kept)
        ⊎ ((close_spread x h t u r cs cl sp e).1.oms.risk_manager
            ≡ release_deployed_capital
                (both_tried x h t cs cl sp e.oms).risk_manager
                (get_or_else sp.strategy_name "credit_spread_v1")
                (released sp))
  unfolding close_spread
  close_spread-releases h t u r cs cl sp e =
      let (a, s) = close_leg x h t sp.lot_size cs sp.short e.oms in
      let (b, s') = close_leg x h t sp.lot_size cl sp.long s in
      settle_spread-releases u r cs cl sp a b (record e { oms = s' }) a.fill b.fill

  -- the entry has reserved what the close of the spread releases
  entered-released :
      (t : Moment) (p : SpreadPlan F) (a : SpreadAnswers F) (e e' : Engine F W) (sp : Spread F)
      (h : IsEntered x t p a e e')
      → spread_terms sp ≡ spread_terms (spread_of p a h.short_fill h.long_fill)
      → reserved p h.short_fill h.long_fill ≡ released sp
  unfolding reserved released
  entered-released t p a e e' sp h same = sym (ap (λ z. released z) same)

  -- nothing is found after an entry that recorded nothing
  unentered :
      (u : String) (e : Engine F W) (hs : List (Event F)) (sp : Spread F)
      → lookup u e.active_spreads ≡ none
      → All (IsElsewhere u) hs
      → lookup u (after x e hs).active_spreads ≡ some sp
      → ⊥
  unentered u e hs sp new others there =
      let Q : String → Spread F → Type 0 = λ k s. k ≢ u in
      let rows =
        after-spreads x Q e hs (All-map (elsewhere-refused u) hs others)
          (absent-rows u e.active_spreads new) in
      All-lookup (λ r. Q r.0 (spread_terms r.1)) u sp (after x e hs).active_spreads rows there refl

  -- Let a spread be entered on an underlying that has none, and let it still be open after any entries
  -- on other underlyings, exit checks and calls of the order manager. Then its entry has added, to what
  -- is deployed of its strategy, exactly the amount that its close releases; and a close either keeps
  -- the spread or releases that amount from the same strategy.
  pub spread_releases_its_reserve :
      (t t' : Moment) (p : SpreadPlan F) (a : SpreadAnswers F) (e : Engine F W)
      (hs : List (Event F)) (sp : Spread F) (d : Holdings) (r : Reason) (cs cl : F)
      → lookup p.symbol e.active_spreads ≡ none
      → All (IsElsewhere p.symbol) hs
      → lookup p.symbol (after x (enter_spread x t p a e) hs).active_spreads ≡ some sp
      → let e₁ = enter_spread x t p a e in
        let e₂ = after x e₁ hs in
        let (v, e₃) = close_spread x d t' p.symbol r cs cl sp e₂ in
        (e₁.oms.risk_manager
          ≡ add_deployed_capital (both_placed x t p e.oms).risk_manager p.strategy (released sp))
        × ((v ≡ kept)
            ⊎ (e₃.oms.risk_manager
                ≡ release_deployed_capital
                    (both_tried x d t' cs cl sp e₂.oms).risk_manager
                    p.strategy
                    (released sp)))
  spread_releases_its_reserve t t' p a e hs sp d r cs cl new others there =
      elim (enter_spread-IsEntered x t p a e) [
        | inl same ↦ absurd (
            unentered p.symbol (enter_spread x t p a e) hs sp
              (ap (λ z. lookup p.symbol z) same ∙ new) others there)
        | inr h ↦
            let e₁ = enter_spread x t p a e in
            let e₂ = after x e₁ hs in
            let same = entered-terms x t p a e e₁ hs sp h new others there in
            let m = (both_placed x t p e.oms).risk_manager in
            let n = (both_tried x d t' cs cl sp e₂.oms).risk_manager in
            let name : get_or_else sp.strategy_name "credit_spread_v1" ≡ p.strategy =
              ap (λ z. get_or_else z.strategy_name "credit_spread_v1") same in
            (
              h.risk
                  ∙ ap (λ z. add_deployed_capital m p.strategy z)
                      (entered-released t p a e e₁ sp h same),
              elim (close_spread-releases d t' p.symbol r cs cl sp e₂) [
                | inl k ↦ inl k
                | inr k ↦ inr (k ∙ ap (λ z. release_deployed_capital n z (released sp)) name)
              ],
            )
      ]
