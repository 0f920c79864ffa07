-- ===== src/Orders/Expire.antt =====
-- `expire_stale_orders` (orders/order_manager.py): orders that rest for more than five minutes are
-- cancelled, and retried once at a price nearer to the market.
use stocks_fno.Prelude.{
  ℕ, ◌+◌, ◌*◌, Bool, true, false, not, ◌&&◌, ◌||◌, Option, none, some, List, [], ◌∷◌, String, ltb,
  if◌then◌else◌, get_or_else,
}
use stocks_fno.Int.{ℤ, pos, ◌-ℤ◌, ltb_ℤ}
use stocks_fno.Float.{Float}
use stocks_fno.Risk.Validate.{named_in}
use stocks_fno.Orders.Store.{
  opened, expired, Order, Context, answered, timed_out, raised, Outside, Oms, Moment, present,
  get_by_id, with_status, adjusted_retry_price,
}
use stocks_fno.Orders.Place.{
  Request, note, update, get_retry_context, release, set_status, place_order, counts,
}
use stocks_fno.Orders.Sync.{sync_orders, retry_pending_verification_orders}

abbrev pub order_expiry_seconds : ℕ
order_expiry_seconds = 5 * 60

abbrev pub multi_leg_strategies : List String
multi_leg_strategies = "credit_spread_v1" ∷ "iron_condor_v1" ∷ []

-- Only a first attempt of a single-leg order, or of an exit, is retried.
abbrev pub may_retry : Context → Bool
may_retry c =
    not c.is_spread_leg
    && not c.is_retry
    && (c.is_exit_order || not (named_in c.strategy multi_leg_strategies))

module _ {F : Type 0} ⦃f : Float F⦄ where
  -- `created > cutoff` leaves an order alone; so does a missing time
  unfoldable pub is_stale : Moment → Order F → Bool
  is_stale t o = elim o.created_at [
    | none ↦ false
    | some created ↦ not (ltb t.now (created + order_expiry_seconds))
  ]

  abbrev pub remaining : Order F → ℤ
  remaining o = o.quantity -ℤ get_or_else o.filled_quantity (pos 0)

  unfoldable pub is_eligible : Order F → Option Context → Option F → Bool
  is_eligible o none price = false
  is_eligible o (some c) none = false
  is_eligible o (some c) (some price) = ltb_ℤ (pos 0) (remaining o) && may_retry c

  abbrev pub retry_request : Order F → Context → F → Request F
  retry_request o c price = record {
    symbol = o.symbol;
    side = o.side;
    quantity = remaining o;
    price = price;
    is_spread_leg = false;
    is_exit_order = c.is_exit_order;
    strategy_name = c.strategy;
    iv_rank = none;
    vix = none;
    capital_at_risk = none;
    is_retry = true;
    product_override = none;
  }

module _ {F : Type 0} ⦃f : Float F⦄ {W : Type 0} (x : Outside F W) where
  -- the capital of the part that was not filled, at the price of the retry if there is one
  unfoldable pub release_remainder : Order F → Context → F → Oms F W → Oms F W
  unfolding release
  release_remainder o c price s =
      if ltb_ℤ (pos 0) (remaining o)
      then release x (counts o.side c.strategy c.is_spread_leg)
          (f.mul (f.of_int (remaining o)) price) s
      else s

  unfoldable pub retry_or_leave : Moment → Order F → Option Context → Option F → Oms F W → Oms F W
  unfolding release_remainder place_order is_eligible
  retry_or_leave t o none price s = s
  retry_or_leave t o (some c) none s = s
  retry_or_leave t o (some c) (some price) s =
      if is_eligible o (some c) (some price)
      then (let retry_price = adjusted_retry_price o.side price in
          (place_order x t (retry_request o c retry_price) (release_remainder o c retry_price s)).1)
      else release_remainder o c price s

  unfoldable pub expire : Moment → Order F → Oms F W → Oms F W
  unfolding sync_orders update note get_retry_context retry_or_leave
  expire t o s =
      let s₁ = sync_orders x s in
      let o' = get_or_else (get_by_id o.id s₁.orders) o in
      let s₂ = note x "ORDER_EXPIRED" o'.id (update x o' (set_status expired) s₁).1 in
      let (c, s₃) = get_retry_context x o'.id s₂ in retry_or_leave t o' c o'.price s₃

  -- whether the order may be taken as cancelled at the broker
  unfoldable pub cancel_at_broker : Order F → Oms F W → Bool × Oms F W
  cancel_at_broker o s = elim (present o.broker_order_id) [
    | none ↦ (true, s)
    | some id ↦
        let (reply, w) = x.cancel id s.world in
        (
          elim reply [ answered ok ↦ ok | timed_out ↦ false | raised ↦ false ],
          record s { world = w },
        )
  ]

  -- A cancel that fails leaves the order to the next cycle.
  unfoldable pub expire_one : Moment → Order F → Oms F W → ℕ × Oms F W
  unfolding cancel_at_broker expire sync_orders
  expire_one t o s =
      if is_stale t o
      then (let (ok, s') = cancel_at_broker o s in
          if ok then (1, expire t o s') else (0, sync_orders x s'))
      else (0, s)

  unfoldable pub expire_each : Moment → List (Order F) → Oms F W → ℕ × Oms F W
  unfolding expire_one
  expire_each t [] s = (0, s)
  expire_each t (o ∷ os) s =
      let (n, s') = expire_one t o s in let (m, s'') = expire_each t os s' in (n + m, s'')

  unfoldable pub expire_stale_orders : Moment → Oms F W → ℕ × Oms F W
  unfolding retry_pending_verification_orders sync_orders expire_each
  expire_stale_orders t s =
      let s' = sync_orders x (retry_pending_verification_orders x s) in
      expire_each t (with_status opened s'.orders) s'
