-- ===== src/Engine/Rows.antt =====
-- What holds of all open spreads, or of all open condors, through the exit checks of
-- live_trading/live_trading_engine.py.
use stocks_fno.Prelude.{
  ◌≡◌, refl, sym, ap, ◌∙◌, subst, inl, inr, Option, none, some, List, [], ◌∷◌, String, All, All-map,
}
use stocks_fno.Dict.{Dict, All-insert, All-remove}
use stocks_fno.Float.{Float}
use stocks_fno.Orders.Store.{Outside}
use stocks_fno.Engine.State.{Spread, Condor, Reason, Engine, Verdict}
use stocks_fno.Engine.Reasons.{Loaded, View}
use stocks_fno.Engine.Check.{
  check_each, drop_losing_spreads, drop_winning_spreads, drop_losing_condors, drop_winning_condors,
  spread_for, check_spread, check_spread_exits, condor_for, check_condor, check_condor_exits,
}
use stocks_fno.Engine.Terms.{
  spread_terms, condor_terms, SpreadTouch, CondorTouch, close_spread-touch, close_condor-touch,
}

module _ {S E : Type 0} (check : String → S → E → Verdict × E) where
  pub check_each-inv :
      (I : E → Type 0) (ss : List (String × S)) (e : E)
      → All (λ r. (d : E) → I d → I (check r.0 r.1 d).1) ss
      → I e
      → I (check_each check ss e).1
  unfolding check_each
  check_each-inv I [] e h i = i
  check_each-inv I ((u, s) ∷ ss) e (g, h) i = check_each-inv I ss (check u s e).1 h (g e i)

module _ {F : Type 0} where
  abbrev pub SpreadRows : (String → Spread F → Type 0) → Dict (Spread F) → Type 0
  SpreadRows Q d = All (λ r. Q r.0 (spread_terms r.1)) d

  abbrev pub CondorRows : (String → Condor F → Type 0) → Dict (Condor F) → Type 0
  CondorRows Q d = All (λ r. Q r.0 (condor_terms r.1)) d

module _ {F W : Type 0} where
  -- `Q` holds of the open spreads, and the condors are `C`; and the same the other way round.
  abbrev pub SpreadsHold : (String → Spread F → Type 0) → Dict (Condor F) → Engine F W → Type 0
  SpreadsHold Q C e = SpreadRows Q e.active_spreads × (e.active_condors ≡ C)

  abbrev pub CondorsHold : (String → Condor F → Type 0) → Dict (Spread F) → Engine F W → Type 0
  CondorsHold Q S e = CondorRows Q e.active_condors × (e.active_spreads ≡ S)

  drop_losing_spreads-rows :
      (Q : String → Spread F → Type 0) (C : Dict (Condor F)) (us : List String) (e : Engine F W)
      → SpreadsHold Q C e
      → SpreadsHold Q C (drop_losing_spreads us e)
  unfolding drop_losing_spreads
  drop_losing_spreads-rows Q C [] e h = h
  drop_losing_spreads-rows Q C (u ∷ us) e (h, c) =
      drop_losing_spreads-rows Q C us _
        (All-remove (λ r. Q r.0 (spread_terms r.1)) u e.active_spreads h, c)

  drop_winning_spreads-rows :
      (Q : String → Spread F → Type 0) (C : Dict (Condor F)) (us : List String) (e : Engine F W)
      → SpreadsHold Q C e
      → SpreadsHold Q C (drop_winning_spreads us e)
  unfolding drop_winning_spreads
  drop_winning_spreads-rows Q C [] e h = h
  drop_winning_spreads-rows Q C (u ∷ us) e (h, c) =
      drop_winning_spreads-rows Q C us _
        (All-remove (λ r. Q r.0 (spread_terms r.1)) u e.active_spreads h, c)

  drop_losing_condors-rows :
      (Q : String → Condor F → Type 0) (S : Dict (Spread F)) (us : List String) (e : Engine F W)
      → CondorsHold Q S e
      → CondorsHold Q S (drop_losing_condors us e)
  unfolding drop_losing_condors
  drop_losing_condors-rows Q S [] e h = h
  drop_losing_condors-rows Q S (u ∷ us) e (h, c) =
      drop_losing_condors-rows Q S us _
        (All-remove (λ r. Q r.0 (condor_terms r.1)) u e.active_condors h, c)

  drop_winning_condors-rows :
      (Q : String → Condor F → Type 0) (S : Dict (Spread F)) (us : List String) (e : Engine F W)
      → CondorsHold Q S e
      → CondorsHold Q S (drop_winning_condors us e)
  unfolding drop_winning_condors
  drop_winning_condors-rows Q S [] e h = h
  drop_winning_condors-rows Q S (u ∷ us) e (h, c) =
      drop_winning_condors-rows Q S us _
        (All-remove (λ r. Q r.0 (condor_terms r.1)) u e.active_condors h, c)

  -- one exit check keeps `Q` where the structure that it is about has it
  touched-rows :
      (Q : String → Spread F → Type 0) (C : Dict (Condor F)) (u : String) (sp : Spread F)
      (e e' : Engine F W)
      → Q u (spread_terms sp)
      → SpreadTouch u sp e e'
      → SpreadsHold Q C e
      → SpreadsHold Q C e'
  touched-rows Q C u sp e e' q (inl t) (h, c) =
      (subst (SpreadRows Q) (sym (ap (λ z. z.0) t)) h, ap (λ z. z.1) t ∙ c)
  touched-rows Q C u sp e e' q (inr (sp', same, t)) (h, c) =
      let q' = subst (Q u) (sym same) q in
      (
        subst (SpreadRows Q) (sym (ap (λ z. z.0) t))
            (All-insert (λ r. Q r.0 (spread_terms r.1)) u sp' e.active_spreads q' h),
        ap (λ z. z.1) t ∙ c,
      )

  touched_condor-rows :
      (Q : String → Condor F → Type 0) (S : Dict (Spread F)) (u : String) (c : Condor F)
      (e e' : Engine F W)
      → Q u (condor_terms c)
      → CondorTouch u c e e'
      → CondorsHold Q S e
      → CondorsHold Q S e'
  touched_condor-rows Q S u c e e' q (inl t) (h, k) =
      (subst (CondorRows Q) (sym (ap (λ z. z.1) t)) h, ap (λ z. z.0) t ∙ k)
  touched_condor-rows Q S u c e e' q (inr (c', same, t)) (h, k) =
      let q' = subst (Q u) (sym same) q in
      (
        subst (CondorRows Q) (sym (ap (λ z. z.1) t))
            (All-insert (λ r. Q r.0 (condor_terms r.1)) u c' e.active_condors q' h),
        ap (λ z. z.0) t ∙ k,
      )

module _ {F : Type 0} ⦃f : Float F⦄ {W : Type 0} (x : Outside F W) where
  spread_for-touch :
      (r : Option Reason) (v : View F) (u : String) (sp : Spread F) (e : Engine F W)
      → SpreadTouch u sp e (spread_for x r v u sp e).1
  spread_for-touch none v u sp e = inl refl
  spread_for-touch (some r) v u sp e = close_spread-touch x v.holdings v.moment u r _ _ sp e

  pub check_spread-touch :
      (s : Option (Loaded F)) (views : String → View F) (u : String) (sp : Spread F)
      (e : Engine F W)
      → SpreadTouch u sp e (check_spread x s views u sp e).1
  unfolding check_spread
  check_spread-touch s views u sp e = spread_for-touch _ (views u) u sp e

  condor_for-touch :
      (r : Option Reason) (v : View F) (u : String) (c : Condor F) (e : Engine F W)
      → CondorTouch u c e (condor_for x r v u c e).1
  condor_for-touch none v u c e = inl refl
  condor_for-touch (some r) v u c e = close_condor-touch x v.holdings v.moment u r _ c e

  pub check_condor-touch :
      (s : Option (Loaded F)) (views : String → View F) (u : String) (c : Condor F) (e : Engine F W)
      → CondorTouch u c e (check_condor x s views u c e).1
  unfolding check_condor
  check_condor-touch s views u c e = condor_for-touch _ (views u) u c e

  check_spread-rows :
      (Q : String → Spread F → Type 0) (C : Dict (Condor F)) (s : Option (Loaded F))
      (views : String → View F) (u : String) (sp : Spread F) (e : Engine F W)
      → Q u (spread_terms sp)
      → SpreadsHold Q C e
      → SpreadsHold Q C (check_spread x s views u sp e).1
  check_spread-rows Q C s views u sp e q =
      touched-rows Q C u sp e (check_spread x s views u sp e).1 q
        (check_spread-touch s views u sp e)

  check_condor-rows :
      (Q : String → Condor F → Type 0) (S : Dict (Spread F)) (s : Option (Loaded F))
      (views : String → View F) (u : String) (c : Condor F) (e : Engine F W)
      → Q u (condor_terms c)
      → CondorsHold Q S e
      → CondorsHold Q S (check_condor x s views u c e).1
  check_condor-rows Q S s views u c e q =
      touched_condor-rows Q S u c e (check_condor x s views u c e).1 q
        (check_condor-touch s views u c e)

  pub check_spread_exits-rows :
      (Q : String → Spread F → Type 0) (s : Option (Loaded F)) (views : String → View F)
      (e : Engine F W)
      → SpreadRows Q e.active_spreads
      → SpreadsHold Q e.active_condors (check_spread_exits x s views e)
  unfolding check_spread_exits
  check_spread_exits-rows Q s views e h =
      let C = e.active_condors in
      let check = check_spread x s views in
      let (vs, e') = check_each check e.active_spreads e in
      let kept =
        check_each-inv check (SpreadsHold Q C) e.active_spreads e
          (All-map (λ r q d i. check_spread-rows Q C s views r.0 r.1 d q i) e.active_spreads h)
          (h, refl) in
      drop_winning_spreads-rows Q C vs.winners _ (drop_losing_spreads-rows Q C vs.losers e' kept)

  pub check_condor_exits-rows :
      (Q : String → Condor F → Type 0) (s : Option (Loaded F)) (views : String → View F)
      (e : Engine F W)
      → CondorRows Q e.active_condors
      → CondorsHold Q e.active_spreads (check_condor_exits x s views e)
  unfolding check_condor_exits
  check_condor_exits-rows Q s views e h =
      let S = e.active_spreads in
      let check = check_condor x s views in
      let (vs, e') = check_each check e.active_condors e in
      let kept =
        check_each-inv check (CondorsHold Q S) e.active_condors e
          (All-map (λ r q d i. check_condor-rows Q S s views r.0 r.1 d q i) e.active_condors h)
          (h, refl) in
      drop_winning_condors-rows Q S vs.winners _ (drop_losing_condors-rows Q S vs.losers e' kept)
