-- ===== src/Paper/Effects.antt =====
-- What a call of `PaperBroker` does, on every branch (paper_trading/paper_broker.py).
use stocks_fno.Prelude.{
  ◌≡◌, refl, ◌≢◌, inl, inr, true, false, some, String, arith, eq_iff, Bool-cases,
}
use stocks_fno.Int.{◌+ℤ◌}
use stocks_fno.Dict.{lookup, lookup-insert_self, lookup-insert_ne}
use stocks_fno.Float.{Float, nought, IsOrdered, IsNum}
use stocks_fno.Risk.Validate.{buy, sell}
use stocks_fno.Paper.Fills.{is_rejected}
use stocks_fno.Paper.Positions.{signed, position_of, IsTidy, position_of-update_position}
use stocks_fno.Paper.Broker.{
  PlaceError, no_market_maker, exchange_rejection, insufficient_funds, insufficient_margin, Result,
  ok, err, Broker, Request, fill_of, cost_of, fees_of, lacks_funds, lacks_margin, order_of, execute,
  place_order,
}

module _ {F : Type 0} ⦃f : Float F⦄ where
  -- the reason of each error, in the order of the checks
  abbrev pub HasReason : Broker F → Request F → PlaceError → Type 0
  HasReason b r no_market_maker =
      (is_rejected r.price r.reject_draw ≡ true) × (f.le r.price (f.lit 30 2) ≡ true)
  HasReason b r exchange_rejection =
      (is_rejected r.price r.reject_draw ≡ true) × (f.le r.price (f.lit 30 2) ≡ false)
  HasReason b r insufficient_funds =
      (is_rejected r.price r.reject_draw ≡ false) × (lacks_funds b r ≡ true)
  HasReason b r insufficient_margin =
      (is_rejected r.price r.reject_draw ≡ false) × (lacks_margin b r ≡ true)

  -- the state after a fill, against the state before
  pub record IsFilled (b : Broker F) (r : Request F) (b' : Broker F) : Type 0 where
    pub recorded : lookup r.order_id b'.orders ≡ some (order_of r)
    pub others_kept : (id : String) → r.order_id ≢ id → lookup id b'.orders ≡ lookup id b.orders
    pub moved :
        (position_of b'.positions r.symbol).quantity
        ≡ (position_of b.positions r.symbol).quantity +ℤ signed r.side r.quantity
    pub tidy : IsTidy (position_of b'.positions r.symbol)
    pub positions_kept :
        (s : String) → r.symbol ≢ s → position_of b'.positions s ≡ position_of b.positions s
    pub paid : r.side ≡ buy → b'.balance ≡ f.sub b.balance (f.add (cost_of r) (fees_of r))
    pub received : r.side ≡ sell → b'.balance ≡ f.add b.balance (f.sub (cost_of r) (fees_of r))
    pub fees_counted : b'.total_fees_paid ≡ f.add b.total_fees_paid (fees_of r)

  execute-IsFilled : (b : Broker F) (r : Request F) → IsFilled b r (execute b r)
  unfolding execute
  execute-IsFilled b r =
      let fill = fill_of r in
      let p = position_of-update_position b.positions r.symbol in
      record {
        recorded = lookup-insert_self r.order_id (order_of r) b.orders;
        others_kept = λ id ne. lookup-insert_ne id r.order_id (order_of r) b.orders ne;
        moved = (p r.symbol r.side r.quantity fill).0;
        tidy = (p r.symbol r.side r.quantity fill).1;
        positions_kept = λ s ne. (p s r.side r.quantity fill).2 (ground (arith, eq_iff r.symbol s));
        paid = λ e. ground arith;
        received = λ e. ground arith;
        fees_counted = refl;
      }

  -- an error leaves the broker as it was; success fills the whole order
  abbrev pub Outcome : Broker F → Request F → Result String × Broker F → Type 0
  Outcome b r (err e, b') = (b' ≡ b) × HasReason b r e
  Outcome b r (ok id, b') =
      (id ≡ r.order_id) × (lacks_funds b r ≡ false) × (lacks_margin b r ≡ false) × IsFilled b r b'

  -- `place_order` either raises for one of its four reasons and changes nothing, or, when neither
  -- funds nor margin are short, returns the new order's id and fills the whole order: it is recorded
  -- under its id beside the others, the position of its symbol and the cash move by it and its fees,
  -- and no other position changes.
  pub place_order-Outcome : (b : Broker F) (r : Request F) → Outcome b r (place_order b r)
  unfolding place_order
  place_order-Outcome b r = elim (Bool-cases (is_rejected r.price r.reject_draw)) [
    | inl rejected ↦ elim (Bool-cases (f.le r.price (f.lit 30 2))) [
      | inl cheap ↦ rw (rejected, cheap) (refl, (rejected, cheap))
      | inr dear ↦ rw (rejected, dear) (refl, (rejected, dear))
    ]
    | inr accepted ↦ elim (Bool-cases (lacks_funds b r)) [
      | inl poor ↦ rw (accepted, poor) (refl, (accepted, poor))
      | inr funded ↦ elim (Bool-cases (lacks_margin b r)) [
        | inl short ↦ rw (accepted, funded, short) (refl, (accepted, short))
        | inr covered ↦ rw (accepted, funded, covered) (refl, funded, covered, execute-IsFilled b r)
      ]
    ]
  ]

  -- A purchase that is filled leaves no negative balance, where the amounts are numbers.
  pub buy_keeps_balance :
      (laws : IsOrdered F) (b : Broker F) (r : Request F) {id : String}
      → r.side ≡ buy
      → (place_order b r).0 ≡ ok id
      → IsNum b.balance
      → IsNum (f.add (cost_of r) (fees_of r))
      → IsNum (place_order b r).1.balance
      → f.le nought (place_order b r).1.balance ≡ true
  unfolding place_order lacks_funds execute
  buy_keeps_balance laws b r s e nb nc nr = ground (
    arith,
    laws.le_of_not-lt (f.add (cost_of r) (fees_of r)) b.balance nc nb,
    laws.le-sub b.balance (f.add (cost_of r) (fees_of r)),
  )
