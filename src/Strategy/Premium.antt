-- ===== src/Strategy/Premium.antt =====
-- The two strategies that sell premium (strategies/credit_spread.py, strategies/iron_condor.py): their
-- entry signals, which exclude each other, and their exits.
use stocks_fno.Prelude.{
  ◌≡◌, refl, true, Option, none, some, String, if◌then◌else◌, get_or_else, Bool-cases, Option-cases,
  inl, inr, ◌⊎◌, arith,
}
use stocks_fno.Dict.{Dict, lookup}
use stocks_fno.Float.{Float, IsOrdered, nought}

-- the attributes that `initialize` reads from the parameters; the keys are f"ema{period}"
pub record Settings (F : Type 0) : Type 0 where
  pub fast_key : String
  pub slow_key : String
  pub low_vol_threshold : F
  pub flat_threshold : F
  pub profit_close_pct : F
  pub stop_loss_multiple : F

pub data Signal : Type 0 where
  hold bull_put_spread bear_call_spread iron_condor : Signal

pub data Action : Type 0 where
  stay exit : Action

-- a value of `data`; `None` is `none`
abbrev pub Market : Type 0 → Type 0
Market F = Dict (Option F)

module _ {F : Type 0} ⦃f : Float F⦄ where
  -- the settings of a strategy without parameters
  unfoldable pub default_settings : Settings F
  default_settings = record {
    fast_key = "ema20";
    slow_key = "ema50";
    low_vol_threshold = f.lit 12 1;
    flat_threshold = f.lit 1 1;
    profit_close_pct = f.lit 25 2;
    stop_loss_multiple = f.lit 2 0;
  }

  -- what the running program loads for `credit_spread_v1` and for `iron_condor_v1`
  unfoldable pub loaded_credit_spread : Settings F
  unfolding default_settings
  loaded_credit_spread = record default_settings {
    low_vol_threshold = f.lit 5 0;
    flat_threshold = f.lit 2 2;
  }

  unfoldable pub loaded_iron_condor : Settings F
  unfolding default_settings
  loaded_iron_condor = record default_settings {
    low_vol_threshold = f.lit 5 0;
    flat_threshold = f.lit 1 0;
  }

  -- a value that is there, not zero and not NaN
  abbrev pub usable : Option F → Option F
  usable none = none
  usable (some v) = if f.eqb v nought then none else if f.eqb v v then some v else none

  -- `data.get("atr14", 0)`, unless it is `None` or NaN
  abbrev pub known_atr : Option (Option F) → Option F
  known_atr none = some nought
  known_atr (some none) = none
  known_atr (some (some v)) = if f.eqb v v then some v else none

  abbrev pub got : Option (Option F) → Option F
  got o = get_or_else o none

-- the values that pass the guard
pub record Reading (F : Type 0) : Type 0 where
  pub fast : F
  pub slow : F
  pub close : F
  pub atr : F

module _ {F : Type 0} ⦃f : Float F⦄ where
  abbrev reading_of : Option F → Option F → Option F → Option F → Option (Reading F)
  reading_of (some fast) (some slow) (some close) (some atr) =
      some (record { fast = fast; slow = slow; close = close; atr = atr })
  reading_of _ _ _ _ = none

  -- the guard of both strategies; a missing close is 0
  unfoldable pub read : Settings F → Market F → Option (Reading F)
  read s d =
      reading_of (usable (got (lookup s.fast_key d))) (usable (got (lookup s.slow_key d)))
        (usable (got (lookup "close" d))) (known_atr (lookup "atr14" d))

  unfoldable pub ema_spread_pct : Reading F → F
  ema_spread_pct r =
      if f.lt nought r.slow
      then f.mul (f.div (f.abs (f.sub r.fast r.slow)) r.slow) (f.lit 100 0)
      else nought

-- `daily_scale` is FIVE_MIN_ATR_DAILY_SCALE, 75 ** 0.5
module _ {F : Type 0} ⦃f : Float F⦄ (daily_scale : F) where
  unfoldable pub atr_pct : Reading F → F
  atr_pct r =
      if f.lt nought r.close
      then f.mul (f.mul (f.div r.atr r.close) (f.lit 100 0)) daily_scale
      else nought

  abbrev spread_signal : Settings F → Reading F → Signal
  spread_signal s r =
      if f.le s.low_vol_threshold (atr_pct r)
      then hold
      else if f.lt (ema_spread_pct r) s.flat_threshold
      then hold
      else if f.lt r.slow r.fast
      then bull_put_spread
      else if f.lt r.fast r.slow
      then bear_call_spread
      else hold

  -- `CreditSpreadStrategy.generate_signal`
  unfoldable pub credit_spread_signal : Settings F → Market F → Signal
  unfolding read atr_pct ema_spread_pct
  credit_spread_signal s d = elim (read s d) [ none ↦ hold | some r ↦ spread_signal s r ]

  abbrev condor_signal : Settings F → Reading F → Signal
  condor_signal s r =
      if f.le s.low_vol_threshold (atr_pct r)
      then hold
      else if f.le s.flat_threshold (ema_spread_pct r)
      then hold
      else iron_condor

  -- `IronCondorStrategy.generate_signal`
  unfoldable pub iron_condor_signal : Settings F → Market F → Signal
  unfolding read atr_pct ema_spread_pct
  iron_condor_signal s d = elim (read s d) [ none ↦ hold | some r ↦ condor_signal s r ]

  spread_or_condor :
      (laws : IsOrdered F) (s c : Settings F) (r : Reading F)
      → f.le c.flat_threshold s.flat_threshold ≡ true
      → f.eqb (ema_spread_pct r) (ema_spread_pct r) ≡ true
      → (spread_signal s r ≡ hold) ⊎ (condor_signal c r ≡ hold)
  spread_or_condor laws s c r order num =
      elim (Bool-cases (f.lt (ema_spread_pct r) s.flat_threshold)) [
        | inl flat ↦ inl (ground arith)
        | inr wide ↦
            let le =
              laws.le_of_not-lt s.flat_threshold (ema_spread_pct r)
                (laws.num_right_of_le c.flat_threshold s.flat_threshold order) num wide in
            let le' = laws.le_trans c.flat_threshold s.flat_threshold (ema_spread_pct r) order le in
            inr (ground arith)
      ]

  -- Two strategies on the same averages never both enter, on any data, where the flat threshold of the
  -- iron condor is at most that of the credit spread, and the EMA spread of the data is a number.
  pub signals_exclude :
      (laws : IsOrdered F) (s c : Settings F) (d : Market F)
      → c.fast_key ≡ s.fast_key
      → c.slow_key ≡ s.slow_key
      → f.le c.flat_threshold s.flat_threshold ≡ true
      → ((r : Reading F) → read s d ≡ some r → f.eqb (ema_spread_pct r) (ema_spread_pct r) ≡ true)
      → (credit_spread_signal s d ≡ hold) ⊎ (iron_condor_signal c d ≡ hold)
  unfolding credit_spread_signal iron_condor_signal
  signals_exclude laws s c d fast slow order nums =
      let same : read c d ≡ read s d = rw (fast, slow, read) refl in
      elim (Option-cases (read s d)) [
        | inl e ↦ inl (rw (e, credit_spread_signal) refl)
        | inr (r, e) ↦
            rw (same, e, credit_spread_signal, iron_condor_signal)
              (spread_or_condor laws s c r order (nums r e))
      ]

module _ {F : Type 0} ⦃f : Float F⦄ where
  -- `manage_position` of both strategies: `short_premium` is the credit per share, which may be
  -- missing
  unfoldable pub manage_position : Settings F → Option F → F → Action
  manage_position s short_premium current =
      let short = get_or_else short_premium nought in
      if f.le short nought
      then stay
      else if f.le current (f.mul short s.profit_close_pct)
      then exit
      else if f.le (f.mul short s.stop_loss_multiple) current
      then exit
      else stay
