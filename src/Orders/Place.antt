-- ===== src/Orders/Place.antt =====
-- `OrderManager.place_order` (orders/order_manager.py): the risk check, the broker, the outcome after
-- a timeout, and the capital that is counted as deployed.
use stocks_fno.Prelude.{
  ℕ, zero, suc, Bool, true, false, not, ◌&&◌, Option, none, some, List, [], ◌∷◌, ◌++◌, String,
  if◌then◌else◌, get_or_else, take,
}
use stocks_fno.Int.{ℤ}
use stocks_fno.Float.{Float}
use stocks_fno.Risk.Manager.{add_deployed_capital, release_deployed_capital}
use stocks_fno.Risk.Validate.{Side, is_buy, Trade, validate_trade}
use stocks_fno.Orders.Text.{str_of_id, broker_order_tag}
use stocks_fno.Orders.Store.{
  OrderStatus, pending, opened, rejected_by_risk, failed, pending_verification, Order, Context,
  Entry, BrokerOrder, Reply, answered, timed_out, raised, Submission, Outside, Oms, Moment, present,
  get_by_id, update_row, has_open, first_listed, find_live, received, context_of,
  retry_context_scan_limit, FillUpdates, extract_fill_updates, no_updates, write_fill, written,
}

-- the arguments of `place_order`
pub record Request (F : Type 0) : Type 0 where
  pub symbol : String
  pub side : Side
  pub quantity : ℤ
  pub price : F
  pub is_spread_leg : Bool
  pub is_exit_order : Bool
  pub strategy_name : Option String
  pub iv_rank : Option F
  pub vix : Option F
  pub capital_at_risk : Option F
  pub is_retry : Bool
  pub product_override : Option String

-- capital counts for a BUY of a strategy that is no leg of a spread
abbrev pub counts : Side → Option String → Bool → Option String
counts side strategy is_spread_leg =
    if is_buy side && not is_spread_leg then present strategy else none

module _ {F : Type 0} where
  abbrev pub trade_of : Request F → Trade F
  trade_of r = record {
    symbol = r.symbol;
    side = r.side;
    quantity = r.quantity;
    price = r.price;
    is_spread_leg = r.is_spread_leg;
    is_exit_order = r.is_exit_order;
    strategy_name = r.strategy_name;
    iv_rank = r.iv_rank;
    vix = r.vix;
    capital_at_risk = r.capital_at_risk;
  }

  abbrev pub submission_of : Request F → ℕ → Submission F
  submission_of r id = record {
    symbol = r.symbol;
    side = r.side;
    quantity = r.quantity;
    price = r.price;
    is_exit_order = r.is_exit_order;
    strategy_name = r.strategy_name;
    product_override = r.product_override;
    client_order_id = str_of_id id;
  }

  abbrev pub context_for : Request F → Context
  context_for r = record {
    strategy = r.strategy_name;
    is_exit_order = r.is_exit_order;
    is_spread_leg = r.is_spread_leg;
    is_retry = r.is_retry;
  }

  -- the PENDING row
  abbrev pub new_order : Request F → ℕ → ℕ → Order F
  new_order r id now = record {
    id = id;
    broker_order_id = none;
    symbol = r.symbol;
    side = r.side;
    quantity = r.quantity;
    filled_quantity = none;
    price = some r.price;
    fill_price = none;
    slippage = none;
    order_status = pending;
    created_at = some now;
  }

  abbrev pub set_status : OrderStatus → Order F → Order F
  set_status st o = record o { order_status = st }

  abbrev pub set_opened : String → Order F → Order F
  set_opened broker_id o = record o { broker_order_id = some broker_id; order_status = opened }

-- what `_reconcile_after_timeout` makes of the broker's answer, where an empty key counts as none
-- found; `none` is its exception
abbrev pub live_under : {F : Type 0} → ℕ → Reply (List (BrokerOrder F)) → Option (Option String)
live_under id (answered bs) = some (present (find_live (broker_order_tag (str_of_id id)) bs))
live_under id timed_out = none
live_under id raised = none

module _ {F : Type 0} ⦃f : Float F⦄ where
  abbrev pub fill_basis : FillUpdates F → Request F → F
  fill_basis u r = get_or_else u.fill_price r.price

  abbrev pub opened_with : String → FillUpdates F → Order F → Order F
  opened_with broker_id u o = set_opened broker_id (write_fill u o)

  -- the record that is patched in memory when its row cannot be written
  abbrev pub patched : String → FillUpdates F → Order F → Order F
  patched broker_id u o = record (set_opened broker_id o) {
    fill_price = written u.fill_price o.fill_price;
  }

module _ {F : Type 0} ⦃f : Float F⦄ {W : Type 0} (x : Outside F W) where
  -- `_audit`: an entry that cannot be written is skipped
  unfoldable pub audit : Entry → Oms F W → Oms F W
  audit e s =
      let (went_through, w) = x.writes s.world in
      if went_through
      then record s { world = w; audit_logs = e ∷ s.audit_logs }
      else record s { world = w }

  unfoldable pub note : String → ℕ → Oms F W → Oms F W
  unfolding audit
  note action id s = audit (record { action = action; order_id = id; context = none }) s

  -- `order_repo.update`: the row as it is read back
  unfoldable pub update : Order F → (Order F → Order F) → Oms F W → Order F × Oms F W
  update o g s =
      let rows = update_row o.id g s.orders in
      (get_or_else (get_by_id o.id rows) (g o), record s { orders = rows })

  unfoldable pub get_retry_context : ℕ → Oms F W → Option Context × Oms F W
  get_retry_context id s =
      let (readable, w) = x.reads s.world in
      (
        if readable
            then context_of id (take retry_context_scan_limit (received s.audit_logs))
            else none,
        record s { world = w },
      )

  unfoldable pub deploy : Option String → F → Oms F W → Oms F W
  deploy none amount s = s
  deploy (some name) amount s = record s {
    risk_manager = add_deployed_capital s.risk_manager name amount;
  }

  unfoldable pub release : Option String → F → Oms F W → Oms F W
  release none amount s = s
  release (some name) amount s = record s {
    risk_manager = release_deployed_capital s.risk_manager name amount;
  }

  unfoldable pub reconcile_after_timeout : ℕ → Oms F W → Option (Option String) × Oms F W
  reconcile_after_timeout id s =
      let (reply, w) = x.get_orders s.world in (live_under id reply, record s { world = w })

  -- the fill that the broker lists right after it accepted the order
  unfoldable pub immediate_fill : Request F → String → Oms F W → FillUpdates F × Oms F W
  immediate_fill r broker_id s =
      let (reply, w) = x.get_orders s.world in
      (
        elim reply [
          | answered bs ↦ elim (first_listed broker_id bs) [
            | some b ↦ extract_fill_updates b (some r.price) none
            | none ↦ no_updates
          ]
          | timed_out ↦ no_updates
          | raised ↦ no_updates
        ],
        record s { world = w },
      )

  -- whether one of so many attempts at the write goes through
  unfoldable pub attempts : ℕ → W → Bool × W
  attempts zero w = (false, w)
  attempts (suc n) w =
      let (went_through, w') = x.writes w in
      let later = attempts n w' in if went_through then (true, w') else later

  unfoldable pub append_position : Request F → Oms F W → Oms F W
  append_position r s = if r.is_exit_order then s else if r.is_spread_leg then s else record s {
    risk_manager = record s.risk_manager {
      current_open_positions =
          s.risk_manager.current_open_positions
          ++ (record { symbol = some r.symbol; quantity = some r.quantity } ∷ []);
    };
  }

  unfoldable pub persist :
      Request F → Order F → String → FillUpdates F → Bool → Oms F W → Order F × Oms F W
  unfolding note deploy append_position update
  persist r o broker_id u false s = (patched broker_id u o, note "ORDER_DB_PERSIST_FAILED" o.id s)
  persist r o broker_id u true s =
      let (o', s') = update o (opened_with broker_id u) s in
      (
        o',
        append_position r (
            deploy (counts r.side r.strategy_name r.is_spread_leg)
              (f.mul (f.of_int r.quantity) (fill_basis u r)) (note "ORDER_ROUTED" o.id s')),
      )

  -- the broker took the order
  unfoldable pub accept : Request F → Order F → String → Oms F W → Order F × Oms F W
  unfolding persist immediate_fill attempts
  accept r o broker_id s =
      let (u, s') = immediate_fill r broker_id s in
      let (went_through, w) = attempts 3 s'.world in
      persist r o broker_id u went_through (record s' { world = w })

  unfoldable pub fail : String → Order F → Oms F W → Order F × Oms F W
  unfolding update note
  fail action o s = let (o', s') = update o (set_status failed) s in (o', note action o.id s')

  -- what a timeout comes to, by the answer to the lookup
  unfoldable pub settle : Request F → Order F → Option (Option String) → Oms F W → Order F × Oms F W
  unfolding update note deploy fail
  settle r o none s =
      let (o', s') = update o (set_status pending_verification) s in
      (o', note "ORDER_VERIFICATION_FAILED" o.id s')
  settle r o (some none) s = fail "ORDER_TIMEOUT" o s
  settle r o (some (some broker_id)) s =
      let (o', s') = update o (set_opened broker_id) s in
      (
        o',
        deploy (counts r.side r.strategy_name r.is_spread_leg) (f.mul (f.of_int r.quantity) r.price)
            (note "ORDER_TIMEOUT_RECONCILED" o.id s'),
      )

  unfoldable pub after_reply : Request F → Order F → Reply String → Oms F W → Order F × Oms F W
  unfolding accept settle fail reconcile_after_timeout
  after_reply r o (answered broker_id) s = accept r o broker_id s
  after_reply r o timed_out s =
      let (found, s') = reconcile_after_timeout o.id s in settle r o found s'
  after_reply r o raised s = fail "ORDER_FAILED" o s

  unfoldable pub route : Request F → Order F → Oms F W → Order F × Oms F W
  unfolding after_reply
  route r o s =
      let (reply, w) = x.place (submission_of r o.id) s.world in
      after_reply r o reply (record s { world = w })

  unfoldable pub after_check : Request F → Order F → Bool → Oms F W → Order F × Oms F W
  unfolding route update note
  after_check r o true s = route r o s
  after_check r o false s =
      let (o', s') = update o (set_status rejected_by_risk) s in
      (o', note "ORDER_REJECTED_RISK" o.id s')

  -- the PENDING row and its audit entry
  unfoldable pub receive : Moment → Request F → Oms F W → Order F × Oms F W
  unfolding audit
  receive t r s =
      let o = new_order r s.next_id t.now in
      (
        o,
        audit
            (record { action = "ORDER_RECEIVED"; order_id = o.id; context = some (context_for r) })
            (record s { orders = o ∷ s.orders; next_id = suc s.next_id }),
      )

  unfoldable pub check : Moment → Request F → Oms F W → Bool × Oms F W
  check t r s =
      let (ok, m) = validate_trade s.risk_manager t.clock (trade_of r) in
      (ok, record s { risk_manager = m })

  -- `none` refuses a second order beside an OPEN one
  unfoldable pub place_order : Moment → Request F → Oms F W → Option (Order F) × Oms F W
  unfolding receive check after_check
  place_order t r s =
      if not r.is_exit_order && has_open r.symbol s.orders
      then (none, s)
      else (let (o, s') = receive t r s in
          let (ok, s'') = check t r s' in
          let (o', s''') = after_check r o ok s'' in (some o', s'''))
