-- ===== src/Strategy/Tests.antt =====
-- Checks of the strategies and the regimes (strategies/, market_data/regime_detector.py) on concrete
-- data.
use stocks_fno.Prelude.{
  ◌≡◌, refl, ◌⊎◌, Bool, true, Option, none, some, [], ◌∷◌, String, elem, sym, ap,
}
use stocks_fno.Dict.{lookup}
use stocks_fno.Float.Fixed.{Fixed, fixed_float, Fixed-IsOrdered}
use stocks_fno.Strategy.Premium.{
  Settings, hold, bull_put_spread, iron_condor, Market, default_settings, loaded_credit_spread,
  loaded_iron_condor, Reading, read, ema_spread_pct, credit_spread_signal, iron_condor_signal,
  signals_exclude,
}
use stocks_fno.Strategy.Registry.{Instance, Registry, fresh, paused}
use stocks_fno.Strategy.Regime.{
  Regime, trending, regime_strategy_map, enforce_regime_switching, IsEnforced,
  enforce_regime_switching_lem,
}

abbrev scale : Fixed
scale = fixed_float.lit 86602 4

abbrev settings : Settings Fixed
unfolding default_settings
settings = default_settings

-- a steady rise, at a low volatility
abbrev rising : Market Fixed
rising =
    ("ema20", some (fixed_float.lit 1510 0))
    ∷ ("ema50", some (fixed_float.lit 1500 0))
    ∷ ("close", some (fixed_float.lit 1512 0))
    ∷ ("atr14", some (fixed_float.lit 1 0))
    ∷ []

rises : credit_spread_signal scale settings rising ≡ bull_put_spread
unfolding settings credit_spread_signal lookup stocks_fno.Int.◌*ℤ◌ stocks_fno.Int.◌-ℤ◌
rises = refl

abbrev registry : Registry
registry = record {
  strategies = "IRON_CONDOR" ∷ [];
  active_instances =
      ("iron_condor_v1", fresh) ∷ ("momentum_v1", paused (some "losses") "manual" fresh) ∷ [];
}

abbrev message : Regime → String
message r = "Regime changed"

enforce_regime_switching_lem_example :
    (i' : Instance) × (lookup "momentum_v1"
        (enforce_regime_switching message (some trending) registry).active_instances
      ≡ some i')
    × IsEnforced "Regime changed"
        (elem "momentum_v1" (regime_strategy_map trending))
        (paused (some "losses") "manual" fresh)
        i'
unfolding lookup
enforce_regime_switching_lem_example =
    enforce_regime_switching_lem message trending registry "momentum_v1"
      (paused (some "losses") "manual" fresh) refl

abbrev is_number : Option (Reading Fixed) → Bool
is_number none = true
is_number (some r) = fixed_float.eqb (ema_spread_pct r) (ema_spread_pct r)

rising_nums :
    (r : Reading Fixed)
    → read settings rising ≡ some r
    → fixed_float.eqb (ema_spread_pct r) (ema_spread_pct r) ≡ true
unfolding read lookup settings ema_spread_pct stocks_fno.Int.◌*ℤ◌ stocks_fno.Int.◌-ℤ◌
rising_nums r e = ap is_number (sym e)

signals_exclude_example :
    (credit_spread_signal scale settings rising ≡ hold)
    ⊎ (iron_condor_signal scale settings rising ≡ hold)
unfolding settings
signals_exclude_example =
    signals_exclude scale Fixed-IsOrdered settings settings rising refl refl refl rising_nums

-- With the thresholds that the program loads, both strategies enter on the steady rise.
both_enter :
    (credit_spread_signal scale loaded_credit_spread rising ≡ bull_put_spread)
    × (iron_condor_signal scale loaded_iron_condor rising ≡ iron_condor)
unfolding credit_spread_signal iron_condor_signal loaded_credit_spread loaded_iron_condor lookup
    stocks_fno.Int.◌*ℤ◌ stocks_fno.Int.◌-ℤ◌
both_enter = (refl, refl)
