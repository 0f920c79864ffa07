-- ===== src/Orders/Store.antt =====
-- The tables behind `OrderManager` (database/models/order.py, database/repositories/base.py), the
-- broker's side of it, and the helpers of orders/order_manager.py that both of its loops use.
use stocks_fno.Prelude.{
  ℕ, Bool, true, false, not, ◌&&◌, ◌||◌, Option, none, some, List, [], ◌∷◌, String, str_eq,
  if◌then◌else◌, ◌==◌, elem,
}
use stocks_fno.Int.{ℤ}
use stocks_fno.Float.{Float, nought}
use stocks_fno.Risk.Manager.{RiskManager}
use stocks_fno.Risk.Validate.{Side, is_buy, Clock}
use stocks_fno.Orders.Text.{upper}

-- core/enums.py: `OrderStatus`
pub data OrderStatus : Type 0 where
  pending opened completed cancelled rejected rejected_by_risk failed expired pending_verification :
      OrderStatus

abbrev pub status_code : OrderStatus → ℕ
status_code pending = 0
status_code opened = 1
status_code completed = 2
status_code cancelled = 3
status_code rejected = 4
status_code rejected_by_risk = 5
status_code failed = 6
status_code expired = 7
status_code pending_verification = 8

abbrev pub same_status : OrderStatus → OrderStatus → Bool
same_status a b = status_code a == status_code b

-- the states that `cancel_order` refuses
abbrev pub is_terminal : OrderStatus → Bool
is_terminal st =
    same_status st completed
    || same_status st cancelled
    || same_status st rejected
    || same_status st failed
    || same_status st expired

-- a row of `orders`; times are in seconds
pub record Order (F : Type 0) : Type 0 where
  pub id : ℕ
  pub broker_order_id : Option String
  pub symbol : String
  pub side : Side
  pub quantity : ℤ
  pub filled_quantity : Option ℤ
  pub price : Option F
  pub fill_price : Option F
  pub slippage : Option F
  pub order_status : OrderStatus
  pub created_at : Option ℕ

-- the payload of an ORDER_RECEIVED entry
pub record Context : Type 0 where
  pub strategy : Option String
  pub is_exit_order : Bool
  pub is_spread_leg : Bool
  pub is_retry : Bool

-- a row of `audit_logs`; only ORDER_RECEIVED entries are read back
pub record Entry : Type 0 where
  pub action : String
  pub order_id : ℕ
  pub context : Option Context

-- an order as the broker lists it
pub record BrokerOrder (F : Type 0) : Type 0 where
  pub order_id : String
  pub tag : Option String
  pub status : Option String
  pub fill_price : Option F
  pub average_price : Option F
  pub filled_quantity : Option ℤ

-- a call of the broker under `asyncio.wait_for`
pub data Reply (A : Type 0) : Type 0 where
  answered : A → Reply A
  timed_out raised : Reply A

-- the arguments of `AbstractBroker.place_order`
pub record Submission (F : Type 0) : Type 0 where
  pub symbol : String
  pub side : Side
  pub quantity : ℤ
  pub price : F
  pub is_exit_order : Bool
  pub strategy_name : Option String
  pub product_override : Option String
  pub client_order_id : String

-- What lies outside: the broker, and whether the guarded calls of the database go through. `W` is
-- its state.
pub record Outside (F W : Type 0) : Type 0 where
  pub place : Submission F → W → Reply String × W
  pub get_orders : W → Reply (List (BrokerOrder F)) × W
  pub cancel : String → W → Reply Bool × W
  pub writes : W → Bool × W
  pub reads : W → Bool × W

-- rows are listed newest first
pub record Oms (F W : Type 0) : Type 0 where
  pub world : W
  pub orders : List (Order F)
  pub next_id : ℕ
  pub audit_logs : List Entry
  pub risk_manager : RiskManager F

pub record Moment : Type 0 where
  pub now : ℕ
  pub clock : Clock

-- a text that is there and not empty
abbrev pub present : Option String → Option String
present none = none
present (some s) = if str_eq s "" then none else some s

module _ {F : Type 0} where
  unfoldable pub get_by_id : ℕ → List (Order F) → Option (Order F)
  get_by_id i [] = none
  get_by_id i (o ∷ os) = if o.id == i then some o else get_by_id i os

  -- `UPDATE orders SET ... WHERE id = i`
  unfoldable pub update_row : ℕ → (Order F → Order F) → List (Order F) → List (Order F)
  update_row i g [] = []
  update_row i g (o ∷ os) = (if o.id == i then g o else o) ∷ update_row i g os

  -- `order_repo.filter(order_status=...)`
  unfoldable pub with_status : OrderStatus → List (Order F) → List (Order F)
  with_status st [] = []
  with_status st (o ∷ os) =
      if same_status o.order_status st then o ∷ with_status st os else with_status st os

  -- `order_repo.filter(order_status="OPEN", symbol=...)` finds a row
  unfoldable pub has_open : String → List (Order F) → Bool
  has_open symbol [] = false
  has_open symbol (o ∷ os) =
      (same_status o.order_status opened && str_eq o.symbol symbol) || has_open symbol os

  -- the first listed order with this id, and the last
  unfoldable pub first_listed : String → List (BrokerOrder F) → Option (BrokerOrder F)
  first_listed id [] = none
  first_listed id (b ∷ bs) = if str_eq b.order_id id then some b else first_listed id bs

  unfoldable pub last_listed : String → List (BrokerOrder F) → Option (BrokerOrder F)
  last_listed id [] = none
  last_listed id (b ∷ bs) =
      let later = last_listed id bs in
      elim later [ some c ↦ some c | none ↦ if str_eq b.order_id id then some b else none ]

  -- `status not in ("REJECTED", "CANCELLED")`, a missing status included
  abbrev pub is_live : BrokerOrder F → Bool
  is_live b = elim b.status [ none ↦ true | some s ↦ not (elem s ("REJECTED" ∷ "CANCELLED" ∷ [])) ]

  abbrev pub has_tag : String → BrokerOrder F → Bool
  has_tag tag b = elim b.tag [ none ↦ false | some t ↦ str_eq t tag ]

  -- the loop of `_reconcile_after_timeout`
  unfoldable pub find_live : String → List (BrokerOrder F) → Option String
  find_live tag [] = none
  find_live tag (b ∷ bs) = if has_tag tag b && is_live b then some b.order_id else find_live tag bs

-- `_get_retry_context`: the newest ORDER_RECEIVED entry of the order, among the newest 200
unfoldable pub received : List Entry → List Entry
received [] = []
received (e ∷ es) = if str_eq e.action "ORDER_RECEIVED" then e ∷ received es else received es

unfoldable pub context_of : ℕ → List Entry → Option Context
context_of i [] = none
context_of i (e ∷ es) = if e.order_id == i then e.context else context_of i es

abbrev pub retry_context_scan_limit : ℕ
retry_context_scan_limit = 200

unfoldable pub map_broker_status : String → OrderStatus
map_broker_status status =
    let s = upper status in
    if elem s ("COMPLETE" ∷ "COMPLETED" ∷ "FILLED" ∷ [])
    then completed
    else if elem s ("CANCELLED" ∷ "CANCELED" ∷ [])
    then cancelled
    else if str_eq s "REJECTED"
    then rejected
    else opened

-- what `_extract_fill_updates` writes; `none` leaves the column alone
pub record FillUpdates (F : Type 0) : Type 0 where
  pub fill_price : Option F
  pub slippage : Option F
  pub filled_quantity : Option ℤ

abbrev pub written {ℓ} : {A : Type ℓ} → Option A → Option A → Option A
written (some new) old = some new
written none old = old

module _ {F : Type 0} ⦃f : Float F⦄ where
  unfoldable pub adjusted_retry_price : Side → F → F
  adjusted_retry_price side price =
      if is_buy side
      then f.round (f.mul price (f.add (f.lit 1 0) (f.lit 15 3))) 2
      else f.round (f.mul price (f.sub (f.lit 1 0) (f.lit 15 3))) 2

  -- a price that is there and not zero
  abbrev pub priced : Option F → Option F
  priced none = none
  priced (some p) = if f.eqb p nought then none else some p

  abbrev fill_updates : F → Option F → Option F → Option ℤ → FillUpdates F
  fill_updates fill expected existing filled =
      let known : Bool = elim existing [ none ↦ false | some e ↦ f.eqb fill e ] in
      record {
        fill_price = if known then none else some fill;
        slippage = if known then none else (elim (priced expected) [
          | none ↦ none
          | some e ↦ some (f.round (f.sub fill e) 4)
        ]);
        filled_quantity = filled;
      }

  -- `b_order.get("fill_price") or b_order.get("average_price")`
  abbrev listed_fill : BrokerOrder F → Option F
  listed_fill b = elim (priced b.fill_price) [ some p ↦ some p | none ↦ priced b.average_price ]

  unfoldable pub extract_fill_updates : BrokerOrder F → Option F → Option F → FillUpdates F
  extract_fill_updates b expected existing = elim (listed_fill b) [
    | none ↦ record { fill_price = none; slippage = none; filled_quantity = b.filled_quantity }
    | some fill ↦ fill_updates fill expected existing b.filled_quantity
  ]

  abbrev pub no_updates : FillUpdates F
  no_updates = record { fill_price = none; slippage = none; filled_quantity = none }

  unfoldable pub write_fill : FillUpdates F → Order F → Order F
  write_fill u o = record o {
    fill_price = written u.fill_price o.fill_price;
    slippage = written u.slippage o.slippage;
    filled_quantity = written u.filled_quantity o.filled_quantity;
  }
