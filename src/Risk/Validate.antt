-- ===== src/Risk/Validate.antt =====
-- `RiskManager.validate_trade`: the layers of the check, in the order of the code.
use stocks_fno.Prelude.{
  ℕ, ◌+◌, Bool, true, false, not, ◌&&◌, ◌||◌, Option, none, some, List, [], ◌∷◌, String, str_eq,
  elem, length, ltb, if◌then◌else◌, get_or_else,
}
use stocks_fno.Int.{ℤ, pos, leb_ℤ, eqb_ℤ}
use stocks_fno.Dict.{lookup}
use stocks_fno.Float.{Float, nought}
use stocks_fno.Calendar.{Date, date, date_lt}
use stocks_fno.Constants.{fno_sectors, allocated_strategies, max_sector_positions}
use stocks_fno.Risk.Underlying.{get_underlying}
use stocks_fno.Risk.Manager.{Position, RiskManager, deployed, activate_kill_switch}

-- core/enums.py: `OrderSide`
pub data Side : Type 0 where
  buy sell : Side

abbrev pub is_buy : Side → Bool
is_buy buy = true
is_buy sell = false

-- the arguments of `validate_trade`
pub record Trade (F : Type 0) : Type 0 where
  pub symbol : String
  pub side : Side
  pub quantity : ℤ
  pub price : F
  pub is_spread_leg : Bool
  pub is_exit_order : Bool
  pub strategy_name : Option String
  pub iv_rank : Option F
  pub vix : Option F
  pub capital_at_risk : Option F

-- `now_ist().date()` and `datetime.utcnow().isoformat()` when the check runs
pub record Clock : Type 0 where
  pub today : Date
  pub stamp : String

abbrev pub premium_strategies : List String
premium_strategies = "CREDIT_SPREAD" ∷ "IRON_CONDOR" ∷ "credit_spread_v1" ∷ "iron_condor_v1" ∷ []

-- `name in names`, for a name that may be `None`
abbrev pub named_in : Option String → List String → Bool
named_in none names = false
named_in (some s) names = elem s names

-- `p.get("quantity", 0) != 0`
abbrev pub is_open : Position → Bool
is_open p = not (eqb_ℤ (get_or_else p.quantity (pos 0)) (pos 0))

abbrev pub symbol_of : Position → String
symbol_of p = get_or_else p.symbol ""

unfoldable pub sector_of : String → String → String
sector_of symbol default = get_or_else (lookup (get_underlying symbol) fno_sectors) default

-- another open position of this sector
unfoldable pub in_sector : String → String → Position → Bool
in_sector sector symbol p =
    is_open p && str_eq (sector_of (symbol_of p) "") sector && not (str_eq (symbol_of p) symbol)

unfoldable pub count_if : (Position → Bool) → List Position → ℕ
count_if test [] = 0
count_if test (p ∷ ps) = (if test p then 1 else 0) + count_if test ps

-- `any(p.get("symbol") == symbol and p.get("quantity", 0) != 0 for p in positions)`
unfoldable pub holds : String → List Position → Bool
holds symbol [] = false
holds symbol (p ∷ ps) =
    (elim p.symbol [ none ↦ false | some s ↦ str_eq s symbol ] && is_open p) || holds symbol ps

module _ {F : Type 0} ⦃f : Float F⦄ where
  -- Layer 2: from 6 November 2026 on, the day's loss is at its limit.
  unfoldable pub loss_limit_hit : RiskManager F → Clock → Bool
  loss_limit_hit m c =
      not (date_lt c.today (date 2026 11 6))
      && f.le (f.add m.daily_realized_pnl m.daily_unrealized_pnl)
          (f.neg (f.mul m.initial_capital m.max_daily_loss_pct))

  -- IV rank and VIX are known and high enough.
  unfoldable pub rich_enough : Option F → Option F → Bool
  rich_enough none vix = false
  rich_enough (some iv) none = if f.lt iv nought then false else false
  rich_enough (some iv) (some v) = if f.lt iv nought then false else not (f.lt v (f.lit 12 0))

  -- Layer 3: premium is sold only when it is rich enough.
  unfoldable pub premium_ok : Trade F → Bool
  unfolding rich_enough
  premium_ok t =
      if named_in t.strategy_name premium_strategies then rich_enough t.iv_rank t.vix else true

  -- Layer 4: at most `max_sector_positions` positions in a known sector.
  unfoldable pub sector_ok : RiskManager F → Trade F → Bool
  sector_ok m t =
      let sector = sector_of t.symbol "UNKNOWN" in
      if str_eq sector "UNKNOWN"
      then true
      else ltb (count_if (in_sector sector t.symbol) m.current_open_positions) max_sector_positions

  -- `quantity * price`
  abbrev pub trade_value : Trade F → F
  trade_value t = f.mul (f.of_int t.quantity) t.price

  abbrev pub budget : F
  budget = f.lit 100_000 0

  -- what layer 5 counts against the strategy's budget
  unfoldable pub capital_needed : Trade F → F
  capital_needed t = elim t.capital_at_risk [
    | some c ↦ c
    | none ↦ if is_buy t.side then trade_value t else nought
  ]

  -- Layer 5: the strategy stays within its budget.
  unfoldable pub budget_for : RiskManager F → Trade F → Option String → Bool
  budget_for m t none = true
  budget_for m t (some s) =
      if not (str_eq s "") && elem s allocated_strategies
      then not
          (f.lt nought (capital_needed t) && f.lt budget (f.add (deployed m s) (capital_needed t)))
      else true

  unfoldable pub budget_ok : RiskManager F → Trade F → Bool
  unfolding budget_for
  budget_ok m t = budget_for m t t.strategy_name

  -- Layer 6: a new contract needs a free place.
  unfoldable pub count_ok : RiskManager F → Trade F → Bool
  count_ok m t =
      holds t.symbol m.current_open_positions
      || ltb (length m.current_open_positions) m.max_open_positions

  -- Layer 7: a bought leg stays within its share of the capital.
  unfoldable pub exposure_ok : RiskManager F → Trade F → Bool
  exposure_ok m t =
      if is_buy t.side
      then not (f.lt (f.mul m.initial_capital m.max_exposure_per_trade_pct) (trade_value t))
      else true

  -- The verdict, and the manager after the call.
  unfoldable pub validate_trade : RiskManager F → Clock → Trade F → Bool × RiskManager F
  validate_trade m c t =
      if leb_ℤ t.quantity (pos 0) || f.le t.price nought
      then (false, m)
      else if t.is_exit_order
      then (true, m)
      else if m.kill_switch_active || m.circuit_breaker_active
      then (false, m)
      else if loss_limit_hit m c
      then (false, activate_kill_switch m "Max Daily Loss Reached" c.stamp)
      else if t.is_spread_leg
      then (true, m)
      else (premium_ok t && sector_ok m t && budget_ok m t && count_ok m t && exposure_ok m t, m)
