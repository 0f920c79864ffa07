-- ===== src/Risk/Latch.antt =====
-- The kill switch and the deployed capital over histories of `RiskManager` calls
-- (risk/risk_manager.py).
use stocks_fno.Prelude.{
  ◌≡◌, refl, true, false, List, [], ◌∷◌, String, All, arith, Bool-cases, inl, inr, subst, sym, ap,
  ◌∙◌, get_or_else,
}
use stocks_fno.Dict.{Dict, lookup, insert, lookup-insert}
use stocks_fno.Float.{Float, nought, py_max, IsOrdered}
use stocks_fno.Risk.Manager.{
  Position, RiskManager, update_state, reset_daily_state, deployed, add_deployed_capital,
  release_deployed_capital, activate_kill_switch, deactivate_kill_switch, set_capital,
}
use stocks_fno.Risk.Validate.{Trade, Clock, loss_limit_hit, validate_trade}
use stocks_fno.Risk.Admission.{IsSized}

-- the public calls that change a `RiskManager`
pub data Call (F : Type 0) : Type 0 where
  updates : List Position → F → F → Call F
  resets : Call F
  adds : String → F → Call F
  releases : String → F → Call F
  activates : String → String → Call F
  deactivates : Call F
  recapitalises : F → Call F
  validates : Clock → Trade F → Call F

module _ {F : Type 0} ⦃f : Float F⦄ where
  unfoldable pub step : RiskManager F → Call F → RiskManager F
  step m (updates ps r u) = update_state m ps r u
  step m resets = reset_daily_state m
  step m (adds s a) = add_deployed_capital m s a
  step m (releases s a) = release_deployed_capital m s a
  step m (activates r stamp) = activate_kill_switch m r stamp
  step m deactivates = deactivate_kill_switch m
  step m (recapitalises c) = set_capital m c
  step m (validates c t) = (validate_trade m c t).1

  unfoldable pub run : RiskManager F → List (Call F) → RiskManager F
  run m [] = m
  run m (c ∷ cs) = run (step m c) cs

  -- No call of the history is `deactivate_kill_switch`.
  abbrev pub IsQuiet : Call F → Type 0
  IsQuiet deactivates = ⊥
  IsQuiet _ = Unit

  step_latch :
      (m : RiskManager F) (c : Call F)
      → IsQuiet c
      → m.kill_switch_active ≡ true
      → (step m c).kill_switch_active ≡ true
  unfolding step update_state reset_daily_state add_deployed_capital release_deployed_capital
      activate_kill_switch set_capital validate_trade
  step_latch m deactivates q k = absurd q
  step_latch m (validates c t) q k = ground arith
  step_latch m (activates r stamp) q k = refl
  step_latch m _ q k = k

  run_latch :
      (m : RiskManager F) (cs : List (Call F))
      → All IsQuiet cs
      → m.kill_switch_active ≡ true
      → (run m cs).kill_switch_active ≡ true
  unfolding run
  run_latch m [] q k = k
  run_latch m (c ∷ cs) (q, qs) k = run_latch (step m c) cs qs (step_latch m c q k)

  -- An exit of a positive quantity at a positive price is let through in every state, and changes
  -- nothing.
  exit_always_passes :
      (m : RiskManager F) (c : Clock) (t : Trade F)
      → t.is_exit_order ≡ true
      → IsSized t
      → validate_trade m c t ≡ (true, m)
  unfolding validate_trade
  exit_always_passes m c t ex sized = ground arith

  trip :
      (m : RiskManager F) (c : Clock) (t : Trade F)
      → t.is_exit_order ≡ false
      → IsSized t
      → m.circuit_breaker_active ≡ false
      → loss_limit_hit m c ≡ true
      → ((validate_trade m c t).0 ≡ false) × ((validate_trade m c t).1.kill_switch_active ≡ true)
  unfolding validate_trade activate_kill_switch
  trip m c t ex sized cb hit = ground arith

  entry_refused :
      (m : RiskManager F) (c : Clock) (t : Trade F)
      → m.kill_switch_active ≡ true
      → t.is_exit_order ≡ false
      → validate_trade m c t ≡ (false, m)
  unfolding validate_trade
  entry_refused m c t k ex = ground arith

  -- With the circuit breaker off, a sized entry that meets the daily loss limit is refused and trips
  -- the kill switch; after any further calls but `deactivate_kill_switch`, a sized order is let through
  -- exactly if it is an exit, and the check changes nothing.
  pub loss_limit_latches :
      (m : RiskManager F) (c : Clock) (t : Trade F) (cs : List (Call F)) (c' : Clock) (t' : Trade F)
      → t.is_exit_order ≡ false
      → IsSized t
      → m.circuit_breaker_active ≡ false
      → loss_limit_hit m c ≡ true
      → All IsQuiet cs
      → IsSized t'
      → let after = run (step m (validates c t)) cs in
        ((validate_trade m c t).0 ≡ false)
        × (after.kill_switch_active ≡ true)
        × (validate_trade after c' t' ≡ (t'.is_exit_order, after))
  unfolding step
  loss_limit_latches m c t cs c' t' ex sized cb hit quiet sized' =
      let (refused, tripped) = trip m c t ex sized cb hit in
      let after = run (validate_trade m c t).1 cs in
      let latched = run_latch (validate_trade m c t).1 cs quiet tripped in
      (
        refused,
        latched,
        elim (Bool-cases t'.is_exit_order) [
          | inl e ↦ exit_always_passes after c' t' e sized' ∙ ap (λ b. (b, after)) (sym e)
          | inr e ↦ entry_refused after c' t' latched e ∙ ap (λ b. (b, after)) (sym e)
        ],
      )

  -- no amount of the history is below zero
  abbrev pub IsNonneg : F → Type 0
  IsNonneg a = f.le nought a ≡ true

  abbrev pub IsFunded : Call F → Type 0
  IsFunded (adds s a) = IsNonneg a
  IsFunded _ = Unit

  abbrev NonnegDict : Dict F → Type 0
  NonnegDict d = (s : String) → IsNonneg (get_or_else (lookup s d) nought)

  -- Every strategy's deployed capital is at least zero.
  abbrev pub DeployedNonneg : RiskManager F → Type 0
  DeployedNonneg m = (s : String) → IsNonneg (deployed m s)

  module _ (laws : IsOrdered F) where
    open laws use {lit_num, le_refl, le_of_lt, le-add}

    py_max-IsNonneg : (a : F) → IsNonneg (py_max nought a)
    unfolding py_max
    py_max-IsNonneg a = ground (arith, le_of_lt nought a, le_refl nought (lit_num 0 0))

    validate-deployed :
        (m : RiskManager F) (c : Clock) (t : Trade F)
        → (validate_trade m c t).1.strategy_deployed ≡ m.strategy_deployed
    unfolding validate_trade activate_kill_switch
    validate-deployed m c t = ground arith

    insert-NonnegDict :
        (d : Dict F) (s : String) (a : F) → IsNonneg a → NonnegDict d → NonnegDict (insert s a d)
    insert-NonnegDict d s a n h s' = rw (lookup-insert s' s a d) (ground (arith, h s'))

    step-DeployedNonneg :
        (m : RiskManager F) (c : Call F) → IsFunded c → DeployedNonneg m → DeployedNonneg (step m c)
    unfolding step add_deployed_capital release_deployed_capital update_state activate_kill_switch
        deactivate_kill_switch set_capital reset_daily_state lookup
    step-DeployedNonneg m (adds s a) q h =
        insert-NonnegDict m.strategy_deployed s (f.add (deployed m s) a)
          (le-add (deployed m s) a (h s) q) h
    step-DeployedNonneg m (releases s a) q h =
        insert-NonnegDict m.strategy_deployed s (py_max nought (f.sub (deployed m s) a))
          (py_max-IsNonneg (f.sub (deployed m s) a)) h
    step-DeployedNonneg m resets q h = λ s. le_refl nought (lit_num 0 0)
    step-DeployedNonneg m (validates c t) q h = subst NonnegDict (sym (validate-deployed m c t)) h
    step-DeployedNonneg m (updates ps r u) q h = h
    step-DeployedNonneg m (activates r s) q h = h
    step-DeployedNonneg m deactivates q h = h
    step-DeployedNonneg m (recapitalises c) q h = h

    -- From a state where no strategy's deployed capital is below zero, no history of calls that adds
    -- only amounts of zero or more brings one below zero, whatever it releases.
    pub run-DeployedNonneg :
        (m : RiskManager F) (cs : List (Call F))
        → All IsFunded cs
        → DeployedNonneg m
        → DeployedNonneg (run m cs)
    unfolding run
    run-DeployedNonneg m [] q h = h
    run-DeployedNonneg m (c ∷ cs) (q, qs) h =
        run-DeployedNonneg (step m c) cs qs (step-DeployedNonneg m c q h)
