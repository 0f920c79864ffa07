-- ===== src/Paper/Broker.antt =====
-- The state of `PaperBroker` and its calls (paper_trading/paper_broker.py). A call that raises
-- returns its error beside the state.
use stocks_fno.Prelude.{
  ℕ, Bool, true, false, not, ◌&&◌, none, some, List, [], ◌∷◌, String, str_eq, if◌then◌else◌,
}
use stocks_fno.Int.{ℤ, pos, ◌-ℤ◌, ltb_ℤ, eqb_ℤ, magnitude}
use stocks_fno.Dict.{Dict, lookup, insert, remove}
use stocks_fno.Float.{Float, nought}
use stocks_fno.Risk.Validate.{Side, is_buy}
use stocks_fno.Paper.Fills.{transaction_fees, is_rejected, fill_price}
use stocks_fno.Paper.Positions.{Position, position_of, update_position}

pub data Status : Type 0 where
  completed cancelled : Status

pub data PlaceError : Type 0 where
  no_market_maker exchange_rejection insufficient_funds insufficient_margin : PlaceError

pub data Result {ℓ} (A : Type ℓ) : Type ℓ where
  ok : A → Result A
  err : PlaceError → Result A

pub record Order (F : Type 0) : Type 0 where
  pub order_id : String
  pub symbol : String
  pub side : Side
  pub quantity : ℤ
  pub price : F
  pub fill : F
  pub filled_quantity : ℤ
  pub slippage : F
  pub fees : F
  pub status : Status
  pub timestamp : ℕ

pub record Broker (F : Type 0) : Type 0 where
  pub balance : F
  pub total_fees_paid : F
  pub orders : Dict (Order F)
  pub positions : Dict (Position F)
  pub margin_blocked : Dict F

-- the arguments of `place_order` that it uses, with the new order's `uuid4`, the time, and the two
-- draws of `random.random()`
pub record Request (F : Type 0) : Type 0 where
  pub order_id : String
  pub timestamp : ℕ
  pub reject_draw : F
  pub slip_draw : F
  pub symbol : String
  pub side : Side
  pub quantity : ℤ
  pub price : F

module _ {F : Type 0} ⦃f : Float F⦄ where
  unfoldable pub init : F → Broker F
  init balance = record {
    balance = balance;
    total_fees_paid = nought;
    orders = [];
    positions = [];
    margin_blocked = [];
  }

  -- `SHORT_MARGIN_MULTIPLE_OF_PREMIUM` times the premium of a short quantity
  unfoldable pub short_margin : ℤ → F → F
  short_margin quantity price =
      f.mul (f.mul (f.of_int (pos (magnitude quantity))) price) (f.lit 10 0)

  -- `sum(v for k, v in margin_blocked.items() if k != symbol)`, from an accumulator
  unfoldable pub margin_others : String → F → Dict F → F
  margin_others symbol acc [] = acc
  margin_others symbol acc ((k, v) ∷ d) =
      margin_others symbol (if str_eq k symbol then acc else f.add acc v) d

  abbrev pub fill_of : Request F → F
  fill_of r = fill_price r.side r.price r.slip_draw

  abbrev pub cost_of : Request F → F
  cost_of r = f.mul (f.of_int r.quantity) (fill_of r)

  abbrev pub fees_of : Request F → F
  fees_of r = transaction_fees r.side r.quantity (fill_of r)

  -- `self.balance < cost + fees`, for a BUY
  unfoldable pub lacks_funds : Broker F → Request F → Bool
  lacks_funds b r = is_buy r.side && f.lt b.balance (f.add (cost_of r) (fees_of r))

  -- the margin check of a SELL that leaves a short position
  unfoldable pub lacks_margin : Broker F → Request F → Bool
  lacks_margin b r =
      let resulting = (position_of b.positions r.symbol).quantity -ℤ r.quantity in
      not (is_buy r.side)
      && ltb_ℤ resulting (pos 0)
      && f.lt (f.sub b.balance (margin_others r.symbol nought b.margin_blocked))
          (short_margin resulting (fill_of r))

  unfoldable pub order_of : Request F → Order F
  order_of r = record {
    order_id = r.order_id;
    symbol = r.symbol;
    side = r.side;
    quantity = r.quantity;
    price = r.price;
    fill = fill_of r;
    filled_quantity = r.quantity;
    slippage = f.round (f.sub (fill_of r) r.price) 4;
    fees = fees_of r;
    status = completed;
    timestamp = r.timestamp;
  }

  -- `margin_blocked` of the symbol is computed anew from the resulting position.
  unfoldable pub block_margin : Dict F → String → ℤ → F → Dict F
  block_margin margins symbol quantity price =
      if ltb_ℤ quantity (pos 0)
      then insert symbol (short_margin quantity price) margins
      else remove symbol margins

  -- the state after the order is filled
  unfoldable pub execute : Broker F → Request F → Broker F
  unfolding order_of
  execute b r =
      let positions = update_position b.positions r.symbol r.side r.quantity (fill_of r) in
      record {
        balance =
            if is_buy r.side
            then f.sub b.balance (f.add (cost_of r) (fees_of r))
            else f.add b.balance (f.sub (cost_of r) (fees_of r));
        total_fees_paid = f.add b.total_fees_paid (fees_of r);
        orders = insert r.order_id (order_of r) b.orders;
        positions = positions;
        margin_blocked =
            block_margin b.margin_blocked r.symbol (position_of positions r.symbol).quantity
              (fill_of r);
      }

  unfoldable pub place_order : Broker F → Request F → Result String × Broker F
  place_order b r =
      if is_rejected r.price r.reject_draw
      then (err (if f.le r.price (f.lit 30 2) then no_market_maker else exchange_rejection), b)
      else if lacks_funds b r
      then (err insufficient_funds, b)
      else if lacks_margin b r
      then (err insufficient_margin, b)
      else (ok r.order_id, execute b r)

  -- `cancel_order` of an order in the given status
  unfoldable pub cancel_found : Broker F → String → Order F → Status → Bool × Broker F
  cancel_found b order_id o completed = (false, b)
  cancel_found b order_id o cancelled =
      (true, record b { orders = insert order_id (record o { status = cancelled }) b.orders })

  unfoldable pub cancel_order : Broker F → String → Bool × Broker F
  unfolding cancel_found
  cancel_order b order_id = elim (lookup order_id b.orders) [
    | none ↦ (false, b)
    | some o ↦ cancel_found b order_id o o.status
  ]

  unfoldable pub modify_order : Broker F → String → F → ℤ → Bool × Broker F
  modify_order b order_id price quantity = (false, b)

  -- `get_positions`: the positions with a quantity
  unfoldable pub open_positions : Dict (Position F) → Dict (Position F)
  open_positions [] = []
  open_positions ((k, p) ∷ ps) =
      if eqb_ℤ p.quantity (pos 0) then open_positions ps else (k, p) ∷ open_positions ps

  unfoldable pub get_positions : Broker F → Dict (Position F)
  unfolding open_positions
  get_positions b = open_positions b.positions

  unfoldable pub values : Dict (Order F) → List (Order F)
  values [] = []
  values ((_, o) ∷ os) = o ∷ values os

  unfoldable pub get_orders : Broker F → List (Order F)
  unfolding values
  get_orders b = values b.orders
