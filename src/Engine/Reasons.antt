-- ===== src/Engine/Reasons.antt =====
-- Why a structure is closed: the conditions of `_check_spread_exits` and of `_check_condor_exits`
-- (live_trading/live_trading_engine.py), in their order. The premiums at entry are not zero; the
-- deltas come from market_data/option_chain.py and are there only where they could be computed.
use stocks_fno.Prelude.{
  Bool, false, not, ◌&&◌, ◌||◌, Option, none, some, [], ◌∷◌, String, elem, if◌then◌else◌,
}
use stocks_fno.Int.{ℤ, pos, ltb_ℤ, leb_ℤ}
use stocks_fno.Calendar.{Date, date_lt}
use stocks_fno.Float.{Float, nought, py_max, py_min}
use stocks_fno.Strategy.Premium.{Settings, Action, exit, manage_position}
use stocks_fno.Orders.Store.{Moment, priced}
use stocks_fno.Engine.Legs.{Leg, Holdings}
use stocks_fno.Engine.State.{
  Spread, Condor, bull_put, bear_call, SpreadType, Reason, near_expiry, dte_floor, put_breach,
  call_breach, vix_stop, vix_profit, tiered_profit, managed, delta_breach, put_stop, call_stop,
  put_wing_profit, call_wing_profit, regime_shift, put_delta_breach, call_delta_breach,
}
use stocks_fno.Engine.Condor.{Quotes, gain_at}

-- the attributes of a loaded strategy
pub record Loaded (F : Type 0) : Type 0 where
  pub settings : Settings F
  pub min_dte : ℤ

-- a live quote of a contract, and what its premium is estimated at
pub record Quote (F : Type 0) : Type 0 where
  pub ltp : Option F
  pub estimate : F

-- What a check reads of an underlying and of the contracts on it. The legs are those of a spread, or
-- the put legs of a condor, and the call legs of a condor.
pub record View (F : Type 0) : Type 0 where
  pub moment : Moment
  pub holdings : Holdings
  pub today : Date
  pub current_price : F
  pub dte : ℤ
  pub vix : Option F
  pub regime : Option String
  pub short_quote : Quote F
  pub long_quote : Quote F
  pub call_short_quote : Quote F
  pub call_long_quote : Quote F
  pub delta : Option F
  pub call_delta : Option F

-- the first reason that there is
abbrev pub or_else {ℓ} : {A : Type ℓ} → Option A → Option A → Option A
or_else none next = next
or_else (some r) next = some r

-- the answer of the strategy's own rule
abbrev pub exits_on : Action → Option Reason
exits_on exit = some managed
exits_on _ = none

module _ {F : Type 0} ⦃f : Float F⦄ where
  unfoldable pub leg_price : F → Quote F → F → F
  leg_price current_price q entry =
      let fallback = if f.lt nought current_price then q.estimate else entry in
      elim q.ltp [ none ↦ fallback | some v ↦ if f.lt nought v then v else fallback ]

  abbrev pub quote_of : View F → Quote F → Leg F → F
  quote_of v q l = leg_price v.current_price q l.premium

  -- `vix >= entry_vix * 1.5`, where both are known
  unfoldable pub vix_spiked : F → Option F → Bool
  vix_spiked entry_vix vix =
      f.lt nought entry_vix
      && (elim (priced vix) [ none ↦ false | some v ↦ f.le (f.mul entry_vix (f.lit 15 1)) v ])

  abbrev pub closing_pct : Option (Loaded F) → F
  closing_pct none = f.lit 25 2
  closing_pct (some s) = s.settings.profit_close_pct

  abbrev pub stop_multiple : Option (Loaded F) → F
  stop_multiple none = f.lit 2 0
  stop_multiple (some s) = s.settings.stop_loss_multiple

  abbrev pub dte_limit : Option (Loaded F) → ℤ
  dte_limit none = pos 7
  dte_limit (some s) = s.min_dte

  -- the profit that is enough, by the days that are left
  unfoldable pub tiered_pct : ℤ → F → F
  unfolding py_max
  tiered_pct dte pct =
      if leb_ℤ dte (pos 14)
      then py_max pct (f.lit 45 2)
      else if leb_ℤ dte (pos 21)
      then py_max pct (f.lit 35 2)
      else pct

  abbrev pub expiry_reason : Option (Loaded F) → Bool → View F → Option Reason
  expiry_reason s near v =
      if near then some near_expiry else if ltb_ℤ v.dte (dte_limit s) then some dte_floor else none

  abbrev pub breach_by : SpreadType → F → F → Option Reason
  breach_by bull_put price strike = if f.lt price strike then some put_breach else none
  breach_by bear_call price strike = if f.lt strike price then some call_breach else none

  -- `_net_spread_pnl`
  unfoldable pub spread_gain : Spread F → F → F → F
  spread_gain sp cur_short cur_long =
      f.sub (f.sub sp.short.premium cur_short) (f.sub sp.long.premium cur_long)

  abbrev pub vix_reason : Spread F → View F → F → F → Option Reason
  vix_reason sp v cur_short cur_long =
      if not (vix_spiked sp.entry_vix v.vix)
      then none
      else if f.le (f.mul sp.short.premium (f.lit 15 1)) cur_short
      then some vix_stop
      else if f.le cur_short (f.mul sp.short.premium (f.lit 40 2))
          && f.lt nought (spread_gain sp cur_short cur_long)
      then some vix_profit
      else none

  abbrev pub tiered_reason : Option (Loaded F) → Spread F → View F → F → F → Option Reason
  tiered_reason s sp v cur_short cur_long =
      if f.le cur_short (f.mul sp.short.premium (tiered_pct v.dte (closing_pct s)))
        && f.lt nought (spread_gain sp cur_short cur_long)
      then some tiered_profit
      else none

  abbrev pub managed_reason : Option (Loaded F) → Spread F → F → Option Reason
  managed_reason none sp cur_short = none
  managed_reason (some s) sp cur_short =
      exits_on (manage_position s.settings (some sp.short.premium) cur_short)

  abbrev pub threatened : Option F → Bool
  threatened none = false
  threatened (some d) = f.lt (f.lit 40 2) (f.abs d)

  -- the chain of conditions of a spread
  unfoldable pub spread_reason : Option (Loaded F) → Bool → View F → Spread F → Option Reason
  unfolding leg_price vix_spiked tiered_pct spread_gain manage_position
  spread_reason s near v sp =
      let cur_short = quote_of v v.short_quote sp.short in
      let cur_long = quote_of v v.long_quote sp.long in
      let priced_now = f.lt nought v.current_price in
      or_else (expiry_reason s near v) (
        or_else
          (if priced_now then breach_by sp.spread_type v.current_price sp.short.strike else none)
          (or_else (vix_reason sp v cur_short cur_long) (
            or_else (tiered_reason s sp v cur_short cur_long) (
              or_else (managed_reason s sp cur_short)
                (if priced_now && threatened v.delta then some delta_breach else none)))))

  unfoldable pub condor_quotes : View F → Condor F → Quotes F
  unfolding leg_price
  condor_quotes v c = record {
    ps = quote_of v v.short_quote c.put_short;
    pl = quote_of v v.long_quote c.put_long;
    cs = quote_of v v.call_short_quote c.call_short;
    cl = quote_of v v.call_long_quote c.call_long;
  }

  -- the thresholds of a condor; a rise of the VIX tightens both
  unfoldable pub condor_profit_pct : Option (Loaded F) → View F → Condor F → F
  unfolding py_max vix_spiked tiered_pct
  condor_profit_pct s v c =
      tiered_pct v.dte (
        if vix_spiked c.entry_vix v.vix then py_max (closing_pct s) (f.lit 40 2) else closing_pct s)

  unfoldable pub condor_stop_multiple : Option (Loaded F) → View F → Condor F → F
  unfolding py_min vix_spiked
  condor_stop_multiple s v c =
      if vix_spiked c.entry_vix v.vix
      then py_min (stop_multiple s) (f.lit 15 1)
      else stop_multiple s

  abbrev pub condor_breach : View F → Condor F → Option Reason
  condor_breach v c =
      if f.lt v.current_price c.put_short.strike
      then some put_breach
      else if f.lt c.call_short.strike v.current_price
      then some call_breach
      else none

  abbrev pub condor_stop : F → Quotes F → Condor F → Option Reason
  condor_stop multiple q c =
      if f.le (f.mul c.put_short.premium multiple) q.ps
      then some put_stop
      else if f.le (f.mul c.call_short.premium multiple) q.cs
      then some call_stop
      else none

  abbrev pub condor_profit : F → Quotes F → Condor F → Option Reason
  condor_profit pct q c =
      let put_hit = f.le q.ps (f.mul c.put_short.premium pct) in
      let call_hit = f.le q.cs (f.mul c.call_short.premium pct) in
      if not (put_hit || call_hit)
      then none
      else if f.lt nought (gain_at c q.ps q.pl q.cs q.cl)
      then some (if put_hit then put_wing_profit else call_wing_profit)
      else none

  -- a market that no longer stays in its range, on a day after the entry
  abbrev pub shifted : View F → Condor F → Bool
  shifted v c =
      (elim v.regime [ none ↦ false | some r ↦ elem r ("TRENDING" ∷ "VOLATILE" ∷ []) ])
      && (elim c.entry_date [ none ↦ false | some d ↦ date_lt d v.today ])

  abbrev pub condor_delta : View F → Option Reason
  condor_delta v =
      if threatened v.delta
      then some put_delta_breach
      else if threatened v.call_delta
      then some call_delta_breach
      else none

  -- the chain of conditions of a condor
  unfoldable pub condor_reason : Option (Loaded F) → Bool → View F → Condor F → Option Reason
  unfolding condor_profit_pct condor_stop_multiple condor_quotes gain_at date_lt
  condor_reason s near v c =
      let q = condor_quotes v c in
      let priced_now = f.lt nought v.current_price in
      or_else (expiry_reason s near v) (
        or_else (if priced_now then condor_breach v c else none) (
          or_else (condor_stop (condor_stop_multiple s v c) q c) (
            or_else (condor_profit (condor_profit_pct s v c) q c) (
              or_else (if shifted v c then some regime_shift else none)
                (if priced_now then condor_delta v else none)))))
