-- ===== src/Engine/Exclusive.antt =====
-- No underlying has a spread and a condor at once (live_trading/live_trading_engine.py).
use stocks_fno.Prelude.{
  ℕ, ◌≡◌, ◌≢◌, sym, subst, Bool, true, ◌⊎◌, inl, inr, none, List, [], ◌∷◌, String, eq_iff,
  Bool-cases, Option-cases, All, All-map, arith,
}
use stocks_fno.Dict.{Dict, lookup, All-lookup}
use stocks_fno.Float.{Float}
use stocks_fno.Orders.Store.{Outside}
use stocks_fno.Engine.State.{Spread, Condor, Engine, is_tracked, may_enter}
use stocks_fno.Engine.Spread.{enter_spread}
use stocks_fno.Engine.Condor.{enter_condor}
use stocks_fno.Engine.Check.{
  Event, enters_spread, enters_condor, checks_spreads, checks_condors, calls, check_spread_exits,
  check_condor_exits, happens, after,
}
use stocks_fno.Engine.Rows.{
  SpreadsHold, CondorsHold, check_spread_exits-rows, check_condor_exits-rows,
}
use stocks_fno.Engine.Entries.{enter_spread-rows, enter_condor-rows}

module _ {V : Type 0} where
  -- Every key of a dict is found in it.
  keys-found : (d : Dict V) → All (λ r. lookup r.0 d ≢ none) d
  unfolding lookup
  keys-found [] = tt
  keys-found ((k, v) ∷ d) =
      (ground (arith, eq_iff k k), All-map (λ r h. ground (arith, h)) d (keys-found d))

module _ {V U : Type 0} where
  -- No key has a row in both of two dicts.
  abbrev pub Apart : Dict V → Dict U → Type 0
  Apart d c = (k : String) → (lookup k d ≡ none) ⊎ (lookup k c ≡ none)

  Apart-rows : (d : Dict V) (c : Dict U) → Apart d c → All (λ r. lookup r.0 c ≡ none) d
  Apart-rows d c h =
      All-map (λ r found. elim (h r.0) [ inl e ↦ absurd (found e) | inr e ↦ e ]) d (keys-found d)

  rows-Apart : (d : Dict V) (c : Dict U) → All (λ r. lookup r.0 c ≡ none) d → Apart d c
  rows-Apart d c h k = elim (Option-cases (lookup k d)) [
    | inl e ↦ inl e
    | inr (v, e) ↦ inr (All-lookup (λ r. lookup r.0 c ≡ none) k v d h e)
  ]

module _ {V U : Type 0} where
  Apart-swap : (d : Dict V) (c : Dict U) → Apart d c → Apart c d
  Apart-swap d c h k = elim (h k) [ inl e ↦ inr e | inr e ↦ inl e ]

module _ {F W : Type 0} where
  -- no underlying is in both tables
  abbrev pub Exclusive : Engine F W → Type 0
  Exclusive e = Apart e.active_spreads e.active_condors

  spreads-Exclusive :
      (C : Dict (Condor F)) (e : Engine F W)
      → SpreadsHold (λ u sp. lookup u C ≡ none) C e
      → Exclusive e
  spreads-Exclusive C e (h, same) =
      subst (Apart e.active_spreads) (sym same) (rows-Apart e.active_spreads C h)

  condors-Exclusive :
      (S : Dict (Spread F)) (e : Engine F W)
      → CondorsHold (λ u c. lookup u S ≡ none) S e
      → Exclusive e
  condors-Exclusive S e (h, same) =
      Apart-swap e.active_condors e.active_spreads
        (subst (Apart e.active_condors) (sym same) (rows-Apart e.active_condors S h))

  untracked :
      (single : Bool) (limit : ℕ) (u : String) (e : Engine F W)
      → may_enter single limit u e ≡ true
      → (lookup u e.active_spreads ≡ none) × (lookup u e.active_condors ≡ none)
  unfolding may_enter is_tracked
  untracked single limit u e h = (ground arith, ground arith)

module _ {F : Type 0} ⦃f : Float F⦄ {W : Type 0} (x : Outside F W) where
  happens-Exclusive : (e : Engine F W) (h : Event F) → Exclusive e → Exclusive (happens x e h)
  unfolding happens
  happens-Exclusive e (enters_spread t single limit p a) h =
      elim (Bool-cases (may_enter single limit p.symbol e)) [
        | inr busy ↦ rw busy h
        | inl free ↦
            let rows = Apart-rows e.active_spreads e.active_condors h in
            let none_yet = (untracked single limit p.symbol e free).1 in
            rw free (
              spreads-Exclusive e.active_condors (enter_spread x t p a e) (
                enter_spread-rows x (λ u sp. lookup u e.active_condors ≡ none) t p a e
                  (λ sf lf. none_yet) rows))
      ]
  happens-Exclusive e (enters_condor t single limit p a) h =
      elim (Bool-cases (may_enter single limit p.symbol e)) [
        | inr busy ↦ rw busy h
        | inl free ↦
            let rows =
              Apart-rows e.active_condors e.active_spreads
                (Apart-swap e.active_spreads e.active_condors h) in
            let none_yet = (untracked single limit p.symbol e free).0 in
            rw free (
              condors-Exclusive e.active_spreads (enter_condor x t p a e) (
                enter_condor-rows x (λ u c. lookup u e.active_spreads ≡ none) t p a e
                  (λ os. none_yet) rows))
      ]
  happens-Exclusive e (checks_spreads s views) h =
      spreads-Exclusive e.active_condors (check_spread_exits x s views e) (
        check_spread_exits-rows x (λ u sp. lookup u e.active_condors ≡ none) s views e
          (Apart-rows e.active_spreads e.active_condors h))
  happens-Exclusive e (checks_condors s views) h =
      condors-Exclusive e.active_spreads (check_condor_exits x s views e) (
        check_condor_exits-rows x (λ u c. lookup u e.active_spreads ≡ none) s views e
          (Apart-rows e.active_condors e.active_spreads
            (Apart-swap e.active_spreads e.active_condors h)))
  happens-Exclusive e (calls cs) h = h

  -- Entries, exit checks and calls of the order manager, in any order, never give an underlying a spread
  -- and a condor at the same time, if none has both at first.
  pub structures_exclude :
      (e : Engine F W) (hs : List (Event F)) → Exclusive e → Exclusive (after x e hs)
  unfolding after
  structures_exclude e [] h = h
  structures_exclude e (q ∷ hs) h = structures_exclude (happens x e q) hs (happens-Exclusive e q h)
