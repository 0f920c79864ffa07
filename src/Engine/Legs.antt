-- ===== src/Engine/Legs.antt =====
-- One leg of a spread or of an iron condor and its exit: `_resolve_pending_exit_order`, `_real_fill`
-- and the two functions `_close_leg` of live_trading/live_trading_engine.py, which are alike.
use stocks_fno.Prelude.{
  ℕ, Bool, true, false, ◌&&◌, ◌||◌, Option, none, some, List, [], ◌∷◌, String, get_or_else,
  if◌then◌else◌,
}
use stocks_fno.Int.{ℤ, pos, eqb_ℤ}
use stocks_fno.Dict.{Dict, lookup, insert}
use stocks_fno.Float.{Float}
use stocks_fno.Risk.Manager.{Position}
use stocks_fno.Risk.Validate.{Side, buy, sell}
use stocks_fno.Orders.Store.{
  OrderStatus, rejected, rejected_by_risk, cancelled, failed, pending_verification, same_status,
  Order, Outside, Oms, Moment, get_by_id, priced,
}
use stocks_fno.Orders.Place.{Request, place_order}

-- The entries of a structure's dictionary that are about one leg: `premium` is its fill at entry,
-- `exit_fill` and `pending_id` are there from a partial exit on.
pub record Leg (F : Type 0) : Type 0 where
  pub contract : String
  pub is_short : Bool
  pub strike : F
  pub premium : F
  pub exit_fill : Option F
  pub pending_id : Option ℕ
  pub gtt_id : Option ℕ

-- the statuses of an order that closed nothing
abbrev pub is_bad : OrderStatus → Bool
is_bad st =
    same_status st rejected
    || same_status st rejected_by_risk
    || same_status st cancelled
    || same_status st failed

pub data Resolution (F : Type 0) : Type 0 where
  nothing : Resolution F
  still_pending resolved_ok resolved_bad : Order F → Resolution F

-- What `_safe_get_positions` returns, with `_broker_position_state_known`.
pub record Holdings : Type 0 where
  pub known : Bool
  pub positions : List Position

-- `{p.get("symbol", ""): p.get("quantity", 0) for p in positions}`
unfoldable pub quantities : Dict ℤ → List Position → Dict ℤ
unfolding insert
quantities d [] = d
quantities d (p ∷ ps) =
    quantities (insert (get_or_else p.symbol "") (get_or_else p.quantity (pos 0)) d) ps

-- The broker is known to hold nothing of the contract.
unfoldable pub is_flat : Holdings → String → Bool
unfolding quantities lookup
is_flat h contract =
    h.known && eqb_ℤ (get_or_else (lookup contract (quantities [] h.positions)) (pos 0)) (pos 0)

module _ {F : Type 0} where
  abbrev pub resolution : Order F → Resolution F
  resolution o =
      if same_status o.order_status pending_verification
      then still_pending o
      else if is_bad o.order_status
      then resolved_bad o
      else resolved_ok o

  unfoldable pub resolve_pending_exit_order : Option ℕ → List (Order F) → Resolution F
  resolve_pending_exit_order none os = nothing
  resolve_pending_exit_order (some id) os = elim (get_by_id id os) [
    | none ↦ nothing
    | some o ↦ resolution o
  ]

  -- the side of the order that closes a leg
  abbrev pub closing_side : Leg F → Side
  closing_side l = if l.is_short then buy else sell

  abbrev pub exit_request : Leg F → ℤ → F → Request F
  exit_request l lot quote = record {
    symbol = l.contract;
    side = closing_side l;
    quantity = lot;
    price = quote;
    is_spread_leg = true;
    is_exit_order = true;
    strategy_name = none;
    iv_rank = none;
    vix = none;
    capital_at_risk = none;
    is_retry = false;
    product_override = none;
  }

  -- `spread.pop(pending_key, None)`
  abbrev pub unpended : Leg F → Leg F
  unpended l = record l { pending_id = none }

-- The outcome of `_close_leg`: the price at which the leg is closed, unless it is not, and the leg.
-- `sent` is the key of the order that the call placed, which the statements are about.
pub record Attempt (F : Type 0) : Type 0 where
  pub fill : Option F
  pub leg : Leg F
  pub sent : Option ℕ

module _ {F : Type 0} ⦃f : Float F⦄ where
  -- `float(order.fill_price or fallback)`
  unfoldable pub real_fill : Order F → F → F
  real_fill o fallback = get_or_else (priced o.fill_price) fallback

  -- what an order that was placed comes to
  unfoldable pub attempt_of : F → Leg F → Option (Order F) → Attempt F
  unfolding real_fill
  attempt_of quote l none = record { fill = none; leg = l; sent = none }
  attempt_of quote l (some o) =
      if same_status o.order_status pending_verification
      then record { fill = none; leg = record l { pending_id = some o.id }; sent = some o.id }
      else if is_bad o.order_status
      then record { fill = none; leg = l; sent = some o.id }
      else record { fill = some (real_fill o quote); leg = l; sent = some o.id }

module _ {F : Type 0} ⦃f : Float F⦄ {W : Type 0} (x : Outside F W) where
  unfoldable pub submit : Moment → ℤ → F → Leg F → Oms F W → Attempt F × Oms F W
  unfolding attempt_of
  submit t lot quote l s =
      let (o, s') = place_order x t (exit_request l lot quote) s in (attempt_of quote l o, s')

  -- a leg with an order that was left unverified, by what became of it
  unfoldable pub resume : Moment → ℤ → F → Leg F → Resolution F → Oms F W → Attempt F × Oms F W
  unfolding submit real_fill
  resume t lot quote l nothing s = submit t lot quote (unpended l) s
  resume t lot quote l (still_pending o) s = (record { fill = none; leg = l; sent = none }, s)
  resume t lot quote l (resolved_ok o) s =
      (record { fill = some (real_fill o quote); leg = unpended l; sent = none }, s)
  resume t lot quote l (resolved_bad o) s = submit t lot quote (unpended l) s

  abbrev pub retry : Moment → ℤ → F → Leg F → Option ℕ → Oms F W → Attempt F × Oms F W
  retry t lot quote l none s = submit t lot quote l s
  retry t lot quote l (some id) s =
      resume t lot quote l (resolve_pending_exit_order (some id) s.orders) s

  unfoldable pub close_open_leg : Holdings → Moment → ℤ → F → Leg F → Oms F W → Attempt F × Oms F W
  unfolding submit resume resolve_pending_exit_order is_flat
  close_open_leg h t lot quote l s =
      if is_flat h l.contract
      then (record { fill = some quote; leg = l; sent = none }, s)
      else retry t lot quote l l.pending_id s

  -- a leg by its stored fill
  abbrev pub unless_stored :
      Holdings → Moment → ℤ → F → Leg F → Option F → Oms F W → Attempt F × Oms F W
  unless_stored h t lot quote l (some p) s = (record { fill = some p; leg = l; sent = none }, s)
  unless_stored h t lot quote l none s = close_open_leg h t lot quote l s

  -- `_close_leg`: a leg whose fill is stored is closed already.
  unfoldable pub close_leg : Holdings → Moment → ℤ → F → Leg F → Oms F W → Attempt F × Oms F W
  unfolding close_open_leg
  close_leg h t lot quote l s = unless_stored h t lot quote l l.exit_fill s
