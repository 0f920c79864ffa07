-- ===== src/Engine/Events.antt =====
-- What holds of all open spreads, or of all open condors, through any sequence of entries, exit checks
-- and calls of the order manager (live_trading/live_trading_engine.py).
use stocks_fno.Prelude.{
  ◌≡◌, ◌≢◌, sym, subst, inl, inr, none, List, [], ◌∷◌, String, str_eq, eq_iff, Bool-cases, All,
  arith,
}
use stocks_fno.Dict.{Dict, lookup}
use stocks_fno.Float.{Float}
use stocks_fno.Orders.Store.{Outside}
use stocks_fno.Engine.State.{Spread, Condor, Engine, may_enter}
use stocks_fno.Engine.Spread.{spread_of}
use stocks_fno.Engine.Condor.{Placed, condor_of}
use stocks_fno.Engine.Check.{
  Event, enters_spread, enters_condor, checks_spreads, checks_condors, calls, happens, after,
}
use stocks_fno.Engine.Terms.{spread_terms, condor_terms}
use stocks_fno.Engine.Rows.{
  SpreadRows, CondorRows, check_spread_exits-rows, check_condor_exits-rows,
}
use stocks_fno.Engine.Entries.{enter_spread-rows, enter_condor-rows}

module _ {V : Type 0} where
  -- A key that is not found is the key of no entry.
  pub absent-rows : (k : String) (d : Dict V) → lookup k d ≡ none → All (λ r. r.0 ≢ k) d
  unfolding lookup
  absent-rows k [] e = tt
  absent-rows k ((j, v) ∷ d) e = elim (Bool-cases (str_eq j k)) [
    | inl q ↦ absurd (ground (arith, e, q))
    | inr q ↦ (ground (arith, q, eq_iff j k), absent-rows k d (rw q at e))
  ]

module _ {A : Type 0} where
  every : (xs : List A) → All (λ z. Unit {0}) xs
  every [] = tt
  every (z ∷ xs) = (tt, every xs)

module _ {F : Type 0} ⦃f : Float F⦄ where
  -- an entry only records spreads, or condors, that have `Q`
  abbrev pub SpreadsOnly : (String → Spread F → Type 0) → Event F → Type 0
  SpreadsOnly Q (enters_spread t single limit p a) =
      (sf lf : F) → Q p.symbol (spread_terms (spread_of p a sf lf))
  SpreadsOnly Q _ = Unit

  abbrev pub CondorsOnly : (String → Condor F → Type 0) → Event F → Type 0
  CondorsOnly Q (enters_condor t single limit p a) =
      (os : Placed F) → Q p.symbol (condor_terms (condor_of p a os))
  CondorsOnly Q _ = Unit

module _ {F : Type 0} ⦃f : Float F⦄ {W : Type 0} (x : Outside F W) where
  happens-spreads :
      (Q : String → Spread F → Type 0) (e : Engine F W) (h : Event F)
      → SpreadsOnly Q h
      → SpreadRows Q e.active_spreads
      → SpreadRows Q (happens x e h).active_spreads
  unfolding happens
  happens-spreads Q e (enters_spread t single limit p a) q h =
      elim (Bool-cases (may_enter single limit p.symbol e)) [
        | inl free ↦ rw free ((enter_spread-rows x Q t p a e q h).0)
        | inr busy ↦ rw busy h
      ]
  happens-spreads Q e (enters_condor t single limit p a) q h =
      elim (Bool-cases (may_enter single limit p.symbol e)) [
        | inl free ↦
            let same =
              (enter_condor-rows x (λ u c. Unit {0}) t p a e (λ os. tt)
                (every e.active_condors)).1 in
            rw free (subst (SpreadRows Q) (sym same) h)
        | inr busy ↦ rw busy h
      ]
  happens-spreads Q e (checks_spreads s views) q h = (check_spread_exits-rows x Q s views e h).0
  happens-spreads Q e (checks_condors s views) q h =
      let same =
        (check_condor_exits-rows x (λ u c. Unit {0}) s views e (every e.active_condors)).1 in
      subst (SpreadRows Q) (sym same) h
  happens-spreads Q e (calls cs) q h = h

  happens-condors :
      (Q : String → Condor F → Type 0) (e : Engine F W) (h : Event F)
      → CondorsOnly Q h
      → CondorRows Q e.active_condors
      → CondorRows Q (happens x e h).active_condors
  unfolding happens
  happens-condors Q e (enters_condor t single limit p a) q h =
      elim (Bool-cases (may_enter single limit p.symbol e)) [
        | inl free ↦ rw free ((enter_condor-rows x Q t p a e q h).0)
        | inr busy ↦ rw busy h
      ]
  happens-condors Q e (enters_spread t single limit p a) q h =
      elim (Bool-cases (may_enter single limit p.symbol e)) [
        | inl free ↦
            let same =
              (enter_spread-rows x (λ u sp. Unit {0}) t p a e (λ sf lf. tt)
                (every e.active_spreads)).1 in
            rw free (subst (CondorRows Q) (sym same) h)
        | inr busy ↦ rw busy h
      ]
  happens-condors Q e (checks_condors s views) q h = (check_condor_exits-rows x Q s views e h).0
  happens-condors Q e (checks_spreads s views) q h =
      let same =
        (check_spread_exits-rows x (λ u sp. Unit {0}) s views e (every e.active_spreads)).1 in
      subst (CondorRows Q) (sym same) h
  happens-condors Q e (calls cs) q h = h

  pub after-spreads :
      (Q : String → Spread F → Type 0) (e : Engine F W) (hs : List (Event F))
      → All (SpreadsOnly Q) hs
      → SpreadRows Q e.active_spreads
      → SpreadRows Q (after x e hs).active_spreads
  unfolding after
  after-spreads Q e [] q h = h
  after-spreads Q e (k ∷ hs) (q, qs) h =
      after-spreads Q (happens x e k) hs qs (happens-spreads Q e k q h)

  pub after-condors :
      (Q : String → Condor F → Type 0) (e : Engine F W) (hs : List (Event F))
      → All (CondorsOnly Q) hs
      → CondorRows Q e.active_condors
      → CondorRows Q (after x e hs).active_condors
  unfolding after
  after-condors Q e [] q h = h
  after-condors Q e (k ∷ hs) (q, qs) h =
      after-condors Q (happens x e k) hs qs (happens-condors Q e k q h)
