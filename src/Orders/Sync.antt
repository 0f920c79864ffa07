-- ===== src/Orders/Sync.antt =====
-- Reconciling rows with the broker (orders/order_manager.py): `sync_orders`, the verification of
-- orders whose outcome is unknown, and `cancel_order`. The lock makes each sync run alone.
use stocks_fno.Prelude.{
  ℕ, Bool, true, false, not, ◌||◌, Option, none, some, List, [], ◌∷◌, String, if◌then◌else◌,
  get_or_else,
}
use stocks_fno.Int.{ℤ, pos, ◌-ℤ◌, ltb_ℤ}
use stocks_fno.Float.{Float, nought}
use stocks_fno.Risk.Validate.{is_buy}
use stocks_fno.Orders.Store.{
  OrderStatus, opened, cancelled, rejected, failed, pending_verification, same_status, is_terminal,
  Order, Context, BrokerOrder, Reply, answered, timed_out, raised, Outside, Oms, present, priced,
  get_by_id, with_status, last_listed, map_broker_status, FillUpdates, extract_fill_updates,
  write_fill,
}
use stocks_fno.Orders.Place.{
  note, update, get_retry_context, deploy, release, reconcile_after_timeout, set_status, set_opened,
}

-- the strategy whose capital this order counts for, by its audit context
abbrev pub counted_strategy : Option Context → Option String
counted_strategy none = none
counted_strategy (some c) = if c.is_spread_leg then none else present c.strategy

abbrev pub is_some {ℓ} : {A : Type ℓ} → Option A → Bool
is_some none = false
is_some (some _) = true

-- the broker ended the order without filling it
abbrev pub fell_through : OrderStatus → Bool
fell_through st = same_status st rejected || same_status st cancelled || same_status st failed

module _ {F : Type 0} ⦃f : Float F⦄ where
  abbrev pub price_or_zero : Order F → F
  price_or_zero o = get_or_else (priced o.price) nought

  -- `max(0, quantity - filled)`
  abbrev pub unfilled : Order F → ℤ
  unfilled o =
      let rest = o.quantity -ℤ get_or_else o.filled_quantity (pos 0) in
      if ltb_ℤ rest (pos 0) then pos 0 else rest

  abbrev pub listed_status : BrokerOrder F → OrderStatus
  listed_status b = map_broker_status (get_or_else b.status "OPEN")

  abbrev pub listed_updates : BrokerOrder F → Order F → FillUpdates F
  listed_updates b o = extract_fill_updates b (priced o.price) o.fill_price

  -- the columns that a listed order changes in the row, by the row that was read
  unfoldable pub synced : BrokerOrder F → Order F → Order F → Order F
  synced b o row =
      let row' = write_fill (listed_updates b o) row in
      if same_status (listed_status b) o.order_status
      then row'
      else set_status (listed_status b) row'

  -- `if updates:`
  unfoldable pub has_updates : BrokerOrder F → Order F → Bool
  has_updates b o =
      not (same_status (listed_status b) o.order_status)
      || is_some (listed_updates b o).fill_price
      || is_some (listed_updates b o).filled_quantity

module _ {F : Type 0} ⦃f : Float F⦄ {W : Type 0} (x : Outside F W) where
  unfoldable pub release_capital_if_was_deployed : Order F → Oms F W → Oms F W
  unfolding get_retry_context release
  release_capital_if_was_deployed o s =
      if is_buy o.side
      then (let (c, s') = get_retry_context x o.id s in
          release x (counted_strategy c) (f.mul (f.of_int (unfilled o)) (price_or_zero o)) s')
      else s

  unfoldable pub add_capital_if_should_have_been_deployed : Order F → Oms F W → Oms F W
  unfolding get_retry_context deploy
  add_capital_if_should_have_been_deployed o s =
      if is_buy o.side
      then (let (c, s') = get_retry_context x o.id s in
          deploy x (counted_strategy c) (f.mul (f.of_int o.quantity) (price_or_zero o)) s')
      else s

  -- one order of `_retry_pending_verification_orders`, by the answer to the lookup
  unfoldable pub verified : Order F → Option (Option String) → Oms F W → Oms F W
  unfolding update note add_capital_if_should_have_been_deployed
  verified o none s = s
  verified o (some none) s = note x "ORDER_TIMEOUT" o.id (update x o (set_status failed) s).1
  verified o (some (some broker_id)) s =
      add_capital_if_should_have_been_deployed o
        (note x "ORDER_TIMEOUT_RECONCILED" o.id (update x o (set_opened broker_id) s).1)

  unfoldable pub verify_each : List (Order F) → Oms F W → Oms F W
  unfolding reconcile_after_timeout verified
  verify_each [] s = s
  verify_each (o ∷ os) s =
      let (found, s') = reconcile_after_timeout x o.id s in verify_each os (verified o found s')

  unfoldable pub retry_pending_verification_orders : Oms F W → Oms F W
  unfolding verify_each
  retry_pending_verification_orders s = verify_each (with_status pending_verification s.orders) s

  unfoldable pub after_change : BrokerOrder F → Order F → Oms F W → Oms F W
  unfolding note release_capital_if_was_deployed
  after_change b o s =
      let s' = note x "ORDER_STATUS_SYNC" o.id s in
      if fell_through (listed_status b) then release_capital_if_was_deployed o s' else s'

  -- `if "order_status" in updates:`
  unfoldable pub after_write : Bool → BrokerOrder F → Order F → Oms F W → Oms F W
  unfolding after_change
  after_write true b o s = s
  after_write false b o s = after_change b o s

  unfoldable pub sync_with : BrokerOrder F → Order F → Oms F W → Oms F W
  unfolding update after_write synced has_updates
  sync_with b o s =
      if has_updates b o
      then (let (o', s') = update x o (synced b o) s in
          after_write (same_status (listed_status b) o.order_status) b o' s')
      else s

  unfoldable pub sync_one : List (BrokerOrder F) → Order F → Oms F W → Oms F W
  unfolding sync_with
  sync_one bs o s = elim (present o.broker_order_id) [
    | none ↦ s
    | some id ↦ elim (last_listed id bs) [ none ↦ s | some b ↦ sync_with b o s ]
  ]

  unfoldable pub sync_each : List (BrokerOrder F) → List (Order F) → Oms F W → Oms F W
  unfolding sync_one
  sync_each bs [] s = s
  sync_each bs (o ∷ os) s = sync_each bs os (sync_one bs o s)

  unfoldable pub sync_open : List (Order F) → Oms F W → Oms F W
  unfolding sync_each
  sync_open [] s = s
  sync_open (o ∷ os) s =
      let (reply, w) = x.get_orders s.world in
      let s' = record s { world = w } in
      elim reply [ answered bs ↦ sync_each bs (o ∷ os) s' | timed_out ↦ s' | raised ↦ s' ]

  unfoldable pub sync_orders : Oms F W → Oms F W
  unfolding sync_open
  sync_orders s = sync_open (with_status opened s.orders) s

  unfoldable pub after_cancel : Order F → Reply Bool → Oms F W → Oms F W
  unfolding update note release_capital_if_was_deployed
  after_cancel o (answered true) s =
      let (o', s') = update x o (set_status cancelled) s in
      release_capital_if_was_deployed o' (note x "ORDER_CANCELLED" o'.id s')
  after_cancel o (answered false) s = s
  after_cancel o timed_out s = s
  after_cancel o raised s = s

  unfoldable pub cancel_found : Order F → Oms F W → Reply Bool × Oms F W
  unfolding after_cancel
  cancel_found o s = elim (present o.broker_order_id) [
    | none ↦ (answered false, s)
    | some broker_id ↦
        if is_terminal o.order_status
        then (answered false, s)
        else (let (reply, w) = x.cancel broker_id s.world in
            (reply, after_cancel o reply (record s { world = w })))
  ]

  unfoldable pub cancel_order : ℕ → Oms F W → Reply Bool × Oms F W
  unfolding cancel_found
  cancel_order id s = elim (get_by_id id s.orders) [
    | none ↦ (answered false, s)
    | some o ↦ cancel_found o s
  ]
