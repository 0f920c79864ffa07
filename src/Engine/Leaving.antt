-- ===== src/Engine/Leaving.antt =====
-- Where a structure goes that an exit check takes out of its table
-- (live_trading/live_trading_engine.py).
use stocks_fno.Prelude.{
  ◌≡◌, refl, sym, ap, ◌∙◌, subst, true, ◌⊎◌, inl, inr, Option, some, List, [], ◌∷◌, String, str_eq,
  eq_iff, elem, Bool-cases, Option-cases, All, arith,
}
use stocks_fno.Dict.{Dict, lookup, insert, remove, lookup-insert, lookup-remove}
use stocks_fno.Float.{Float}
use stocks_fno.Orders.Store.{Outside}
use stocks_fno.Engine.State.{Spread, Condor, Engine, add_to, is_tracked}
use stocks_fno.Engine.Reasons.{Loaded, View}
use stocks_fno.Engine.Check.{
  check_each, drop_losing_spreads, drop_winning_spreads, drop_losing_condors, drop_winning_condors,
  check_spread, check_spread_exits, check_condor, check_condor_exits, check_exits,
}
use stocks_fno.Engine.Terms.{SpreadTouch, CondorTouch}
use stocks_fno.Engine.Rows.{check_each-inv, check_spread-touch, check_condor-touch}

elem-add_to : (k j : String) (ks : List String) → elem k ks ≡ true → elem k (add_to j ks) ≡ true
elem-add_to k j ks h = elim (Bool-cases (elem j ks)) [
  | inl e ↦ rw e h
  | inr e ↦ rw e (ground (arith, h))
]

elem-add_to_self : (k : String) (ks : List String) → elem k (add_to k ks) ≡ true
elem-add_to_self k ks = elim (Bool-cases (elem k ks)) [
  | inl e ↦ rw e e
  | inr e ↦ rw e (ground (arith, eq_iff k k))
]

module _ {V : Type 0} where
  -- the key is there
  abbrev pub Found : String → Dict V → Type 0
  Found k d = (v : V) × (lookup k d ≡ some v)

  insert-Found : (k j : String) (w : V) (d : Dict V) → Found k d → Found k (insert j w d)
  insert-Found k j w d (v, e) = elim (Bool-cases (str_eq j k)) [
    | inl q ↦ (w, lookup-insert k j w d ∙ rw q refl)
    | inr q ↦ (v, lookup-insert k j w d ∙ rw q e)
  ]

  -- The key is in the table, or was put into one of the two sets.
  abbrev pub Accounted : String → Dict V → List String → List String → Type 0
  Accounted k d exited closed = Found k d ⊎ (elem k exited ≡ true) ⊎ (elem k closed ≡ true)

  exit-Accounted :
      (k j : String) (d : Dict V) (exited closed : List String)
      → Accounted k d exited closed
      → Accounted k (remove j d) (add_to j exited) closed
  exit-Accounted k j d exited closed (inr (inl h)) = inr (inl (elem-add_to k j exited h))
  exit-Accounted k j d exited closed (inr (inr h)) = inr (inr h)
  exit-Accounted k j d exited closed (inl (v, e)) = elim (Bool-cases (str_eq j k)) [
    | inl q ↦
        let same : j ≡ k = (eq_iff j k).0 q in
        inr (
          inl (subst (λ i. elem k (add_to i exited) ≡ true) (sym same) (elem-add_to_self k exited)))
    | inr q ↦ inl (v, lookup-remove k j d ∙ rw q e)
  ]

  grow-Accounted :
      (k j : String) (d : Dict V) (exited closed : List String)
      → Accounted k d exited closed
      → Accounted k d (add_to j exited) closed
  grow-Accounted k j d exited closed (inl h) = inl h
  grow-Accounted k j d exited closed (inr (inl h)) = inr (inl (elem-add_to k j exited h))
  grow-Accounted k j d exited closed (inr (inr h)) = inr (inr h)

  swap-Accounted :
      (k : String) (d : Dict V) (exited closed : List String)
      → Accounted k d exited closed
      → Accounted k d closed exited
  swap-Accounted k d exited closed (inl h) = inl h
  swap-Accounted k d exited closed (inr (inl h)) = inr (inr h)
  swap-Accounted k d exited closed (inr (inr h)) = inr (inl h)

module _ {F W : Type 0} where
  abbrev pub SpreadAccounted : String → Engine F W → Type 0
  SpreadAccounted u e = Accounted u e.active_spreads e.exited_today e.profit_closed_today

  abbrev pub CondorAccounted : String → Engine F W → Type 0
  CondorAccounted u e = Accounted u e.active_condors e.exited_today e.profit_closed_today

  losing_spreads :
      (u : String) (us : List String) (e : Engine F W)
      → SpreadAccounted u e
      → SpreadAccounted u (drop_losing_spreads us e)
  unfolding drop_losing_spreads
  losing_spreads u [] e h = h
  losing_spreads u (j ∷ us) e h =
      losing_spreads u us _
        (exit-Accounted u j e.active_spreads e.exited_today e.profit_closed_today h)

  winning_spreads :
      (u : String) (us : List String) (e : Engine F W)
      → SpreadAccounted u e
      → SpreadAccounted u (drop_winning_spreads us e)
  unfolding drop_winning_spreads
  winning_spreads u [] e h = h
  winning_spreads u (j ∷ us) e h = winning_spreads u us _ (
      swap-Accounted u _ _ _ (
        exit-Accounted u j e.active_spreads e.profit_closed_today e.exited_today
          (swap-Accounted u _ _ _ h)))

  losing_condors :
      (u : String) (us : List String) (e : Engine F W)
      → CondorAccounted u e
      → CondorAccounted u (drop_losing_condors us e)
  unfolding drop_losing_condors
  losing_condors u [] e h = h
  losing_condors u (j ∷ us) e h =
      losing_condors u us _
        (exit-Accounted u j e.active_condors e.exited_today e.profit_closed_today h)

  winning_condors :
      (u : String) (us : List String) (e : Engine F W)
      → CondorAccounted u e
      → CondorAccounted u (drop_winning_condors us e)
  unfolding drop_winning_condors
  winning_condors u [] e h = h
  winning_condors u (j ∷ us) e h = winning_condors u us _ (
      swap-Accounted u _ _ _ (
        exit-Accounted u j e.active_condors e.profit_closed_today e.exited_today
          (swap-Accounted u _ _ _ h)))

  -- the same drops, for the other table
  losing_spreads-condor :
      (u : String) (us : List String) (e : Engine F W)
      → CondorAccounted u e
      → CondorAccounted u (drop_losing_spreads us e)
  unfolding drop_losing_spreads
  losing_spreads-condor u [] e h = h
  losing_spreads-condor u (j ∷ us) e h =
      losing_spreads-condor u us _ (grow-Accounted u j e.active_condors e.exited_today _ h)

  winning_spreads-condor :
      (u : String) (us : List String) (e : Engine F W)
      → CondorAccounted u e
      → CondorAccounted u (drop_winning_spreads us e)
  unfolding drop_winning_spreads
  winning_spreads-condor u [] e h = h
  winning_spreads-condor u (j ∷ us) e h = winning_spreads-condor u us _ (
      swap-Accounted u _ _ _
        (grow-Accounted u j e.active_condors e.profit_closed_today _ (swap-Accounted u _ _ _ h)))

  losing_condors-spread :
      (u : String) (us : List String) (e : Engine F W)
      → SpreadAccounted u e
      → SpreadAccounted u (drop_losing_condors us e)
  unfolding drop_losing_condors
  losing_condors-spread u [] e h = h
  losing_condors-spread u (j ∷ us) e h =
      losing_condors-spread u us _ (grow-Accounted u j e.active_spreads e.exited_today _ h)

  winning_condors-spread :
      (u : String) (us : List String) (e : Engine F W)
      → SpreadAccounted u e
      → SpreadAccounted u (drop_winning_condors us e)
  unfolding drop_winning_condors
  winning_condors-spread u [] e h = h
  winning_condors-spread u (j ∷ us) e h = winning_condors-spread u us _ (
      swap-Accounted u _ _ _
        (grow-Accounted u j e.active_spreads e.profit_closed_today _ (swap-Accounted u _ _ _ h)))

  -- one exit check
  touch-spread :
      (u k : String) (sp : Spread F) (e e' : Engine F W)
      → SpreadTouch k sp e e'
      → SpreadAccounted u e
      → SpreadAccounted u e'
  touch-spread u k sp e e' (inl t) h = subst (λ z. Accounted u z.0 z.2 z.3) (sym t) h
  touch-spread u k sp e e' (inr (sp', same, t)) (inl h) =
      inl (subst (Found u) (sym (ap (λ z. z.0) t)) (insert-Found u k sp' e.active_spreads h))
  touch-spread u k sp e e' (inr (sp', same, t)) (inr h) =
      inr (subst (λ z. (elem u z.2 ≡ true) ⊎ (elem u z.3 ≡ true)) (sym t) h)

  touch-spread_condor :
      (u k : String) (sp : Spread F) (e e' : Engine F W)
      → SpreadTouch k sp e e'
      → CondorAccounted u e
      → CondorAccounted u e'
  touch-spread_condor u k sp e e' (inl t) h = subst (λ z. Accounted u z.1 z.2 z.3) (sym t) h
  touch-spread_condor u k sp e e' (inr (sp', same, t)) h =
      subst (λ z. Accounted u z.1 z.2 z.3) (sym t) h

  touch-condor :
      (u k : String) (c : Condor F) (e e' : Engine F W)
      → CondorTouch k c e e'
      → CondorAccounted u e
      → CondorAccounted u e'
  touch-condor u k c e e' (inl t) h = subst (λ z. Accounted u z.1 z.2 z.3) (sym t) h
  touch-condor u k c e e' (inr (c', same, t)) (inl h) =
      inl (subst (Found u) (sym (ap (λ z. z.1) t)) (insert-Found u k c' e.active_condors h))
  touch-condor u k c e e' (inr (c', same, t)) (inr h) =
      inr (subst (λ z. (elem u z.2 ≡ true) ⊎ (elem u z.3 ≡ true)) (sym t) h)

  touch-condor_spread :
      (u k : String) (c : Condor F) (e e' : Engine F W)
      → CondorTouch k c e e'
      → SpreadAccounted u e
      → SpreadAccounted u e'
  touch-condor_spread u k c e e' (inl t) h = subst (λ z. Accounted u z.0 z.2 z.3) (sym t) h
  touch-condor_spread u k c e e' (inr (c', same, t)) h =
      subst (λ z. Accounted u z.0 z.2 z.3) (sym t) h

  -- an underlying with a structure, or in one of the two sets
  abbrev pub IsAccounted : String → Engine F W → Type 0
  IsAccounted u e =
      (is_tracked u e ≡ true)
      ⊎ (elem u e.exited_today ≡ true)
      ⊎ (elem u e.profit_closed_today ≡ true)

  found_spread : (u : String) (e : Engine F W) → SpreadAccounted u e → IsAccounted u e
  unfolding is_tracked
  found_spread u e (inl (sp, q)) = inl (rw (q, is_tracked) refl)
  found_spread u e (inr h) = inr h

  found_condor : (u : String) (e : Engine F W) → CondorAccounted u e → IsAccounted u e
  unfolding is_tracked
  found_condor u e (inl (c, q)) = inl (ground (arith, q))
  found_condor u e (inr h) = inr h

module _ {A : Type 0} where
  for_each : {P : A → Type 0} → ((z : A) → P z) → (zs : List A) → All P zs
  for_each p [] = tt
  for_each p (z ∷ zs) = (p z, for_each p zs)

module _ {F : Type 0} ⦃f : Float F⦄ {W : Type 0} (x : Outside F W) where
  spread_loop :
      (I : Engine F W → Type 0) (s : Option (Loaded F)) (views : String → View F) (e : Engine F W)
      → ((k : String) (sp : Spread F) (d d' : Engine F W) → SpreadTouch k sp d d' → I d → I d')
      → I e
      → I (check_each (check_spread x s views) e.active_spreads e).1
  spread_loop I s views e keeps =
      let check = check_spread x s views in
      check_each-inv check I e.active_spreads e (
        for_each
          (λ r d. keeps r.0 r.1 d (check r.0 r.1 d).1 (check_spread-touch x s views r.0 r.1 d))
          e.active_spreads)

  condor_loop :
      (I : Engine F W → Type 0) (s : Option (Loaded F)) (views : String → View F) (e : Engine F W)
      → ((k : String) (c : Condor F) (d d' : Engine F W) → CondorTouch k c d d' → I d → I d')
      → I e
      → I (check_each (check_condor x s views) e.active_condors e).1
  condor_loop I s views e keeps =
      let check = check_condor x s views in
      check_each-inv check I e.active_condors e (
        for_each
          (λ r d. keeps r.0 r.1 d (check r.0 r.1 d).1 (check_condor-touch x s views r.0 r.1 d))
          e.active_condors)

  -- the two functions, for a spread, and for a condor
  spread-Accounted :
      (s s' : Option (Loaded F)) (views : String → View F) (u : String) (e : Engine F W)
      → SpreadAccounted u e
      → SpreadAccounted u (check_exits x s s' views e)
  unfolding check_exits check_spread_exits check_condor_exits
  spread-Accounted s s' views u e h =
      let (vs, d) = check_each (check_spread x s views) e.active_spreads e in
      let d' = drop_winning_spreads vs.winners (drop_losing_spreads vs.losers d) in
      let (ws, g) = check_each (check_condor x s' views) d'.active_condors d' in
      let first = spread_loop (SpreadAccounted u) s views e (touch-spread u) h in
      let dropped = winning_spreads u vs.winners _ (losing_spreads u vs.losers d first) in
      let second = condor_loop (SpreadAccounted u) s' views d' (touch-condor_spread u) dropped in
      winning_condors-spread u ws.winners _ (losing_condors-spread u ws.losers g second)

  condor-Accounted :
      (s s' : Option (Loaded F)) (views : String → View F) (u : String) (e : Engine F W)
      → CondorAccounted u e
      → CondorAccounted u (check_exits x s s' views e)
  unfolding check_exits check_spread_exits check_condor_exits
  condor-Accounted s s' views u e h =
      let (vs, d) = check_each (check_spread x s views) e.active_spreads e in
      let d' = drop_winning_spreads vs.winners (drop_losing_spreads vs.losers d) in
      let (ws, g) = check_each (check_condor x s' views) d'.active_condors d' in
      let first = spread_loop (CondorAccounted u) s views e (touch-spread_condor u) h in
      let dropped =
        winning_spreads-condor u vs.winners _ (losing_spreads-condor u vs.losers d first) in
      let second = condor_loop (CondorAccounted u) s' views d' (touch-condor u) dropped in
      winning_condors u ws.winners _ (losing_condors u ws.losers g second)

  -- The exit checks of a cycle lose no structure: an underlying with a spread or a condor still has one
  -- after them, or is in `_exited_today` or in `_profit_closed_today`.
  pub no_structure_is_lost :
      (s s' : Option (Loaded F)) (views : String → View F) (u : String) (e : Engine F W)
      → is_tracked u e ≡ true
      → IsAccounted u (check_exits x s s' views e)
  unfolding is_tracked
  no_structure_is_lost s s' views u e h = elim (Option-cases (lookup u e.active_spreads)) [
    | inr (sp, q) ↦
        found_spread u (check_exits x s s' views e) (spread-Accounted s s' views u e (inl (sp, q)))
    | inl n ↦ elim (Option-cases (lookup u e.active_condors)) [
      | inr (c, q) ↦
          found_condor u (check_exits x s s' views e) (condor-Accounted s s' views u e (inl (c, q)))
      | inl m ↦ absurd (ground (arith, h, n, m))
    ]
  ]
