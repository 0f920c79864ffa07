-- ===== src/Engine/CondorReserve.antt =====
-- The capital that the entry of an iron condor reserves and the capital that its close releases
-- (live_trading/live_trading_engine.py), with anything in between.
use stocks_fno.Prelude.{
  ◌≡◌, ◌≢◌, refl, sym, ap, ◌∙◌, subst, ◌⊎◌, inl, inr, Option, none, some, List, [], ◌∷◌, String,
  get_or_else, All, All-map,
}
use stocks_fno.Dict.{lookup, insert, All-insert, All-lookup}
use stocks_fno.Float.{Float}
use stocks_fno.Risk.Manager.{add_deployed_capital, release_deployed_capital}
use stocks_fno.Orders.Store.{Order, Outside, Oms, Moment}
use stocks_fno.Engine.Legs.{Holdings, close_leg}
use stocks_fno.Engine.State.{Condor, Reason, Engine, kept, wing_failed}
use stocks_fno.Engine.Condor.{
  CondorPlan, CondorAnswers, Placed, Placing, Quotes, Attempts, leg_orders, condor_of, reserved,
  released, place_legs, track_condor, after_placing, enter_condor, settle_condor, close_condor,
}
use stocks_fno.Engine.Check.{
  Event, enters_spread, enters_condor, checks_spreads, checks_condors, calls, after,
}
use stocks_fno.Engine.Terms.{condor_terms, held-conclude}
use stocks_fno.Engine.Rows.{CondorRows}
use stocks_fno.Engine.Rollback.{refused-same}
use stocks_fno.Engine.Events.{CondorsOnly, absent-rows, after-condors}

module _ {F : Type 0} where
  -- The event enters no condor on the underlying `u`.
  abbrev pub EntersNoCondor : String → Event F → Type 0
  EntersNoCondor u (enters_condor t single limit p a) = p.symbol ≢ u
  EntersNoCondor u _ = Unit

module _ {F : Type 0} ⦃f : Float F⦄ where
  other-CondorsOnly :
      (u : String) (Q : Condor F → Type 0) (h : Event F)
      → EntersNoCondor u h
      → CondorsOnly (λ k c. k ≡ u → Q c) h
  other-CondorsOnly u Q (enters_condor t single limit p a) ne = λ os q. absurd (ne q)
  other-CondorsOnly u Q (enters_spread t single limit p a) ne = tt
  other-CondorsOnly u Q (checks_spreads s views) ne = tt
  other-CondorsOnly u Q (checks_condors s views) ne = tt
  other-CondorsOnly u Q (calls cs) ne = tt

  -- the entry has reserved what the close of the condor releases
  entered-released :
      (p : CondorPlan F) (a : CondorAnswers F) (c : Condor F) (os : Placed F)
      → condor_terms c ≡ condor_terms (condor_of p a os)
      → reserved p os ≡ released c
  unfolding reserved released
  entered-released p a c os same = sym (ap (λ z. released z) same)

module _ {F : Type 0} ⦃f : Float F⦄ {W : Type 0} where
  settle_condor-releases :
      (u : String) (r : Reason) (q : Quotes F) (c : Condor F) (a : Attempts F) (e : Engine F W)
      (ps pl cs cl : Option F)
      → ((settle_condor u r q c a e ps pl cs cl).0 ≡ kept)
        ⊎ ((settle_condor u r q c a e ps pl cs cl).1.oms.risk_manager
            ≡ release_deployed_capital e.oms.risk_manager
                (get_or_else c.strategy_name "iron_condor_v1")
                (released c))
  unfolding settle_condor
  settle_condor-releases u r q c a e (some ps) (some pl) (some cs) (some cl) = inr (
      ap (λ z. z.4.risk_manager)
        (held-conclude u c.journal_id _ _ r _ (wing_failed r)
          (c.put_short.gtt_id ∷ c.call_short.gtt_id ∷ []) _))
  settle_condor-releases u r q c a e (some ps) (some pl) (some cs) none = inl refl
  settle_condor-releases u r q c a e (some ps) (some pl) none cl = inl refl
  settle_condor-releases u r q c a e (some ps) none cs cl = inl refl
  settle_condor-releases u r q c a e none pl cs cl = inl refl

module _ {F : Type 0} ⦃f : Float F⦄ {W : Type 0} (x : Outside F W) where
  -- the legs that the entry places, and the order manager after the four exits
  abbrev pub placing : Moment → CondorPlan F → Oms F W → Placing F W
  placing t p s = place_legs x t [] (leg_orders p) s

  abbrev pub all_tried : Holdings → Moment → Quotes F → Condor F → Oms F W → Oms F W
  all_tried h t q c s =
      let s₁ = (close_leg x h t c.lot_size q.ps c.put_short s).1 in
      let s₂ = (close_leg x h t c.lot_size q.pl c.put_long s₁).1 in
      let s₃ = (close_leg x h t c.lot_size q.cs c.call_short s₂).1 in
      (close_leg x h t c.lot_size q.cl c.call_long s₃).1

  -- The entry has recorded a condor, and reserved its capital.
  record IsEntered (t : Moment) (p : CondorPlan F) (a : CondorAnswers F) (e e' : Engine F W)
      : Type 0 where
    row :
        e'.active_condors
        ≡ insert p.symbol (condor_of p a (placing t p e.oms).placed) e.active_condors
    risk :
        e'.oms.risk_manager
        ≡ add_deployed_capital
            (placing t p e.oms).oms.risk_manager
            p.strategy
            (reserved p (placing t p e.oms).placed)

  after_placing-IsEntered :
      (t : Moment) (p : CondorPlan F) (a : CondorAnswers F) (e : Engine F W)
      (o : Option (Option (Order F)))
      → let q = placing t p e.oms in
        let e' = after_placing x t p a q.placed o (record e { oms = q.oms }) in
        (e'.active_condors ≡ e.active_condors) ⊎ IsEntered t p a e e'
  unfolding track_condor
  after_placing-IsEntered t p a e none = inr (record { row = refl; risk = refl })
  after_placing-IsEntered t p a e (some o) = inl (refused-same x t p a _ o _)

  enter_condor-IsEntered :
      (t : Moment) (p : CondorPlan F) (a : CondorAnswers F) (e : Engine F W)
      → ((enter_condor x t p a e).active_condors ≡ e.active_condors)
        ⊎ IsEntered t p a e (enter_condor x t p a e)
  unfolding enter_condor
  enter_condor-IsEntered t p a e = after_placing-IsEntered t p a e (placing t p e.oms).refused

  -- a row under the key of the entry has `Q` after the events, if only the entry's own row may be there
  kept_row :
      (Q : Condor F → Type 0) (u : String) (e : Engine F W) (hs : List (Event F)) (c : Condor F)
      → CondorRows (λ k d. k ≡ u → Q d) e.active_condors
      → All (EntersNoCondor u) hs
      → lookup u (after x e hs).active_condors ≡ some c
      → Q (condor_terms c)
  kept_row Q u e hs c rows others there =
      let P : String → Condor F → Type 0 = λ k d. k ≡ u → Q d in
      let last = after-condors x P e hs (All-map (other-CondorsOnly u Q) hs others) rows in
      All-lookup (λ r. P r.0 (condor_terms r.1)) u c (after x e hs).active_condors last there refl

  unentered :
      (Q : Condor F → Type 0) (u : String) (e : Engine F W)
      → lookup u e.active_condors ≡ none
      → CondorRows (λ k d. k ≡ u → Q d) e.active_condors
  unentered Q u e new =
      All-map (λ r ne q. absurd (ne q)) e.active_condors (absent-rows u e.active_condors new)

  -- a condor that is still there has the terms of its entry
  entered-terms :
      (t : Moment) (p : CondorPlan F) (a : CondorAnswers F) (e e' : Engine F W)
      (hs : List (Event F)) (c : Condor F)
      → IsEntered t p a e e'
      → lookup p.symbol e.active_condors ≡ none
      → All (EntersNoCondor p.symbol) hs
      → lookup p.symbol (after x e' hs).active_condors ≡ some c
      → condor_terms c ≡ condor_terms (condor_of p a (placing t p e.oms).placed)
  entered-terms t p a e e' hs c h new others there =
      let row = condor_of p a (placing t p e.oms).placed in
      let Q : Condor F → Type 0 = λ d. d ≡ condor_terms row in
      let P : String → Condor F → Type 0 = λ k d. k ≡ p.symbol → Q d in
      let first : CondorRows P e'.active_condors = subst (CondorRows P) (sym h.row) (
        All-insert (λ r. P r.0 (condor_terms r.1)) p.symbol row e.active_condors (λ q. refl)
          (unentered Q p.symbol e new)) in
      kept_row Q p.symbol e' hs c first others there

  close_condor-releases :
      (h : Holdings) (t : Moment) (u : String) (r : Reason) (q : Quotes F) (c : Condor F)
      (e : Engine F W)
      → ((close_condor x h t u r q c e).0 ≡ kept)
        ⊎ ((close_condor x h t u r q c e).1.oms.risk_manager
            ≡ release_deployed_capital
                (all_tried h t q c e.oms).risk_manager
                (get_or_else c.strategy_name "iron_condor_v1")
                (released c))
  unfolding close_condor
  close_condor-releases h t u r q c e =
      let (ps, s₁) = close_leg x h t c.lot_size q.ps c.put_short e.oms in
      let (pl, s₂) = close_leg x h t c.lot_size q.pl c.put_long s₁ in
      let (cs, s₃) = close_leg x h t c.lot_size q.cs c.call_short s₂ in
      let (cl, s₄) = close_leg x h t c.lot_size q.cl c.call_long s₃ in
      settle_condor-releases u r q c (record { ps = ps; pl = pl; cs = cs; cl = cl })
        (record e { oms = s₄ }) ps.fill pl.fill cs.fill cl.fill

  -- Let an iron condor be entered on an underlying that has none, and let it still be open after any
  -- other entries but of condors on it, exit checks and calls of the order manager. Then its entry has
  -- added, to what is deployed of its strategy, exactly the amount that its close releases; and a close
  -- either keeps the condor or releases that amount from the same strategy.
  pub condor_releases_its_reserve :
      (t t' : Moment) (p : CondorPlan F) (a : CondorAnswers F) (e : Engine F W)
      (hs : List (Event F)) (c : Condor F) (d : Holdings) (r : Reason) (q : Quotes F)
      → lookup p.symbol e.active_condors ≡ none
      → All (EntersNoCondor p.symbol) hs
      → lookup p.symbol (after x (enter_condor x t p a e) hs).active_condors ≡ some c
      → let e₁ = enter_condor x t p a e in
        let e₂ = after x e₁ hs in
        let (v, e₃) = close_condor x d t' p.symbol r q c e₂ in
        (e₁.oms.risk_manager
          ≡ add_deployed_capital (placing t p e.oms).oms.risk_manager p.strategy (released c))
        × ((v ≡ kept)
            ⊎ (e₃.oms.risk_manager
                ≡ release_deployed_capital
                    (all_tried d t' q c e₂.oms).risk_manager
                    p.strategy
                    (released c)))
  condor_releases_its_reserve t t' p a e hs c d r q new others there =
      let e₁ = enter_condor x t p a e in
      let e₂ = after x e₁ hs in
      let os = (placing t p e.oms).placed in
      elim (enter_condor-IsEntered t p a e) [
        | inl same ↦ absurd (
            kept_row (λ z. ⊥) p.symbol e₁ hs c
              (unentered (λ z. ⊥) p.symbol e₁ (ap (λ z. lookup p.symbol z) same ∙ new)) others
              there)
        | inr h ↦
            let same = entered-terms t p a e e₁ hs c h new others there in
            let m = (placing t p e.oms).oms.risk_manager in
            let n = (all_tried d t' q c e₂.oms).risk_manager in
            let name : get_or_else c.strategy_name "iron_condor_v1" ≡ p.strategy =
              ap (λ z. get_or_else z.strategy_name "iron_condor_v1") same in
            (
              h.risk
                  ∙ ap (λ z. add_deployed_capital m p.strategy z) (entered-released p a c os same),
              elim (close_condor-releases d t' p.symbol r q c e₂) [
                | inl k ↦ inl k
                | inr k ↦ inr (k ∙ ap (λ z. release_deployed_capital n z (released c)) name)
              ],
            )
      ]
