-- ===== src/Strategy/Regime.antt =====
-- `MarketRegimeDetector` (market_data/regime_detector.py): the regime of the market, and which
-- strategies it lets run.
use stocks_fno.Prelude.{
  ◌≡◌, ◌≢◌, refl, sym, ap, subst, Option-cases, ◌∙◌, Bool, true, false, not, ◌&&◌, Option, none,
  some, List, [], ◌∷◌, String, elem, str_eq, eq_iff, if◌then◌else◌, arith, Bool-cases, inl, inr,
  ◌⊎◌,
}
use stocks_fno.Dict.{Dict, lookup}
use stocks_fno.Float.{Float}
use stocks_fno.Strategy.Registry.{Instance, Registry, paused, resumed}

pub data Regime : Type 0 where
  trending range_bound volatile low_vol unknown : Regime

-- REGIME_STRATEGY_MAP; a regime that it does not list allows nothing
abbrev pub regime_strategy_map : Regime → List String
regime_strategy_map trending = "ema_crossover_v1" ∷ "credit_spread_v1" ∷ "momentum_v1" ∷ []
regime_strategy_map range_bound = "iron_condor_v1" ∷ "credit_spread_v1" ∷ "ema_crossover_v1" ∷ []
regime_strategy_map volatile = "credit_spread_v1" ∷ "ema_crossover_v1" ∷ []
regime_strategy_map low_vol = "ema_crossover_v1" ∷ []
regime_strategy_map unknown = []

abbrev pub is_trending : Option Regime → Bool
is_trending (some trending) = true
is_trending _ = false

module _ {F : Type 0} ⦃f : Float F⦄ where
  abbrev pub vix_high_threshold : F
  vix_high_threshold = f.lit 20 0

  abbrev pub vix_low_threshold : F
  vix_low_threshold = f.lit 12 0

  abbrev pub atr_threshold : Option Regime → F
  atr_threshold prev = if is_trending prev then f.lit 13 1 else f.lit 15 1

  -- `_classify`
  unfoldable pub classify : F → F → Option Regime → Regime
  classify vix atr_pct prev =
      if f.lt vix_high_threshold vix
      then volatile
      else if f.le (atr_threshold prev) atr_pct
      then trending
      else if f.lt vix vix_low_threshold
      then low_vol
      else range_bound

  -- The regime that `detect` publishes: UNKNOWN unless every indicator was read.
  unfoldable pub detect : Bool → F → F → Option Regime → Regime
  unfolding classify
  detect data_known vix atr_pct prev = if data_known then classify vix atr_pct prev else unknown

abbrev pub paused_by_regime : Instance → Bool
paused_by_regime i = elim i.paused_by [ none ↦ false | some s ↦ str_eq s "regime" ]

-- one strategy under `enforce_regime_switching`; the message is made by the caller
unfoldable pub enforce_one : String → Bool → Instance → Instance
enforce_one reason allowed i =
    if i.is_active && not allowed
    then paused (some reason) "regime" i
    else if not i.is_active && allowed && paused_by_regime i
    then resumed i
    else i

-- The loop visits each entry of the registry once, and a pause or a resume of its key changes that
-- entry.
unfoldable pub enforce_each : String → List String → Dict Instance → Dict Instance
unfolding enforce_one
enforce_each reason allowed [] = []
enforce_each reason allowed ((sid, i) ∷ d) =
    (sid, enforce_one reason (elem sid allowed) i) ∷ enforce_each reason allowed d

-- `enforce_regime_switching`; a regime that cannot be read changes nothing
unfoldable pub enforce_regime_switching : (Regime → String) → Option Regime → Registry → Registry
unfolding enforce_each
enforce_regime_switching reason none reg = reg
enforce_regime_switching reason (some r) reg = record reg {
  active_instances = enforce_each (reason r) (regime_strategy_map r) reg.active_instances;
}

lookup-enforce_each :
    (reason : String) (allowed : List String) (sid : String) (d : Dict Instance)
    → lookup sid (enforce_each reason allowed d) ≡ elim (lookup sid d) [
      | none ↦ none
      | some i ↦ some (enforce_one reason (elem sid allowed) i)
    ]
unfolding enforce_each lookup
lookup-enforce_each reason allowed sid [] = refl
lookup-enforce_each reason allowed sid ((k, i) ∷ d) = elim (Bool-cases (str_eq k sid)) [
  | inl e ↦ rw (e, (eq_iff k sid).0 e) refl
  | inr e ↦ rw e (lookup-enforce_each reason allowed sid d)
]

-- What switching makes of a strategy, with every field of it: a running strategy that the regime does
-- not allow is paused by "regime" for the reason, one that the regime had paused and now allows runs
-- again without a trace of the pause, and any other is as it was.
pub data IsEnforced (reason : String) (allowed : Bool) (before : Instance) : Instance → Type 0 where
  pauses :
      (after : Instance)
      → before.is_active ≡ true
      → allowed ≡ false
      → after.is_active ≡ false
      → after.paused_by ≡ some "regime"
      → after.paused_reason ≡ some reason
      → IsEnforced reason allowed before after
  resumes :
      (after : Instance)
      → before.is_active ≡ false
      → before.paused_by ≡ some "regime"
      → allowed ≡ true
      → after.is_active ≡ true
      → after.paused_by ≡ none
      → after.paused_reason ≡ none
      → IsEnforced reason allowed before after
  runs_on : before.is_active ≡ true → allowed ≡ true → IsEnforced reason allowed before before
  rests :
      before.is_active ≡ false
      → (allowed ≡ false) ⊎ (before.paused_by ≢ some "regime")
      → IsEnforced reason allowed before before

paused_by_regime-some : (i : Instance) → paused_by_regime i ≡ true → i.paused_by ≡ some "regime"
paused_by_regime-some i h = elim (Option-cases i.paused_by) [
  | inl e ↦ absurd (ground (arith, e, h))
  | inr (s, e) ↦ e ∙ ap (λ z. some z) ((eq_iff s "regime").0 (rw e at h))
]

paused_by_regime-not : (i : Instance) → paused_by_regime i ≡ false → i.paused_by ≢ some "regime"
paused_by_regime-not i h e = absurd (ground (arith, (rw e at h), eq_iff "regime" "regime"))

enforce_one-IsEnforced :
    (reason : String) (allowed : Bool) (i : Instance)
    → IsEnforced reason allowed i (enforce_one reason allowed i)
unfolding enforce_one
enforce_one-IsEnforced reason true i = elim (Bool-cases i.is_active) [
  | inl a ↦
      let same : enforce_one reason true i ≡ i = rw (a, enforce_one) refl in
      subst (IsEnforced reason true i) (sym same) (runs_on a refl)
  | inr a ↦ elim (Bool-cases (paused_by_regime i)) [
    | inl p ↦
        let new : enforce_one reason true i ≡ resumed i = rw (a, p, enforce_one) refl in
        subst (IsEnforced reason true i) (sym new)
          (resumes (resumed i) a (paused_by_regime-some i p) refl refl refl refl)
    | inr p ↦
        let same : enforce_one reason true i ≡ i = rw (a, p, enforce_one) refl in
        subst (IsEnforced reason true i) (sym same) (rests a (inr (paused_by_regime-not i p)))
  ]
]
enforce_one-IsEnforced reason false i = elim (Bool-cases i.is_active) [
  | inl a ↦
      let new : enforce_one reason false i ≡ paused (some reason) "regime" i =
        rw (a, enforce_one) refl in
      subst (IsEnforced reason false i) (sym new)
        (pauses (paused (some reason) "regime" i) a refl refl refl refl)
  | inr a ↦
      let same : enforce_one reason false i ≡ i = rw (a, enforce_one) refl in
      subst (IsEnforced reason false i) (sym same) (rests a (inl refl))
]

-- After the switch to a regime that was read, each loaded strategy is still there, as `IsEnforced`
-- says: by whether the regime allows it.
pub enforce_regime_switching_lem :
    (reason : Regime → String) (r : Regime) (reg : Registry) (sid : String) (i : Instance)
    → lookup sid reg.active_instances ≡ some i
    → (i' : Instance) × (lookup sid (enforce_regime_switching reason (some r) reg).active_instances
        ≡ some i')
      × IsEnforced (reason r) (elem sid (regime_strategy_map r)) i i'
unfolding enforce_regime_switching
enforce_regime_switching_lem reason r reg sid i h =
    let allowed = elem sid (regime_strategy_map r) in
    (
      enforce_one (reason r) allowed i,
      lookup-enforce_each (reason r) (regime_strategy_map r) sid reg.active_instances ∙ rw h refl,
      enforce_one-IsEnforced (reason r) allowed i,
    )
