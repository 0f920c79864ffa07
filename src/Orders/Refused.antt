-- ===== src/Orders/Refused.antt =====
-- What orders/order_manager.py leaves alone: an order that is refused, and orders whose verification
-- gets no answer.
use stocks_fno.Prelude.{
  ℕ, ◌≡◌, ◌≢◌, ◌≤◌, refl, sym, ap, ◌∙◌, Bool, true, false, not, ◌&&◌, Option, none, some, List, [],
  ◌∷◌, String, ◌==◌, ◌⊎◌, inl, inr, Bool-cases, arith,
}
use stocks_fno.Float.{Float}
use stocks_fno.Risk.Validate.{validate_trade}
use stocks_fno.Orders.Store.{
  rejected_by_risk, pending_verification, Order, BrokerOrder, Reply, answered, timed_out, raised,
  Outside, Oms, Moment, update_row, has_open, with_status,
}
use stocks_fno.Orders.Place.{
  Request, audit, note, update, set_status, reconcile_after_timeout, live_under, after_check,
  receive, check, place_order, trade_of,
}
use stocks_fno.Orders.Table.{IsKeys, ids}
use stocks_fno.Orders.Sync.{verified, verify_each, retry_pending_verification_orders}
use stocks_fno.Orders.Outcome.{receive_lem, update-newest}

module _ {F : Type 0} ⦃f : Float F⦄ {W : Type 0} (x : Outside F W) where
  -- The state holds one row more, rejected and without a key of the broker, and nothing but two
  -- writes of the audit log has reached the world.
  pub record IsRejected (t : Moment) (r : Request F) (s : Oms F W) (o : Order F) (s' : Oms F W)
      : Type 0 where
    pub status : o.order_status ≡ rejected_by_risk
    pub no_key : o.broker_order_id ≡ none
    pub rows : s'.orders ≡ o ∷ s.orders
    pub world : s'.world ≡ (x.writes (x.writes s.world).1).1
    pub risk : s'.risk_manager ≡ (validate_trade s.risk_manager t.clock (trade_of r)).1

  absent_stays :
      (n j : ℕ) (g : Order F → Order F) (os : List (Order F))
      → IsKeys n (ids os)
      → n ≤ j
      → update_row j g os ≡ os
  unfolding update_row
  absent_stays n j g [] k h = refl
  absent_stays n j g (o ∷ os) (l, k) h =
      let other : (o.id == j) ≡ false = ground arith in
      rw other (ap (λ z. o ∷ z) (absent_stays o.id j g os k (omega arith)))

  update-newest_rows :
      (o : Order F) (g : Order F → Order F) (os : List (Order F)) (s : Oms F W)
      → s.orders ≡ o ∷ os
      → IsKeys o.id (ids os)
      → (update x o g s).1.orders ≡ g o ∷ os
  unfolding update update_row
  update-newest_rows o g os s e k =
      let same : (o.id == o.id) ≡ true = ground arith in
      rw (e, same) (ap (λ z. g o ∷ z) (absent_stays o.id o.id g os k (omega arith)))

  note_lem :
      (action : String) (id : ℕ) (s : Oms F W)
      → let s' = note x action id s in
        (s'.world ≡ (x.writes s.world).1)
        × (s'.orders ≡ s.orders)
        × (s'.risk_manager ≡ s.risk_manager)
  unfolding note audit
  note_lem action id s = ground arith

  rejected_lem :
      (t : Moment) (r : Request F) (s s' : Oms F W) (o : Order F) (ok : Bool)
      → s'.world ≡ (x.writes s.world).1
      → s'.orders ≡ o ∷ s.orders
      → s'.risk_manager ≡ (validate_trade s.risk_manager t.clock (trade_of r)).1
      → IsKeys o.id (ids s.orders)
      → o.broker_order_id ≡ none
      → ok ≡ false
      → let (o', s'') = after_check x r o ok s' in IsRejected t r s o' s''
  unfolding after_check
  rejected_lem t r s s' o true w e m k n ok = absurd (ground arith)
  rejected_lem t r s s' o false w e m k n ok =
      let (o', u) = update x o (set_status rejected_by_risk) s' in
      let (a, b, c) = note_lem "ORDER_REJECTED_RISK" o.id u in
      let new : o' ≡ set_status rejected_by_risk o =
        update-newest x o (set_status rejected_by_risk) s.orders s' e refl in
      record {
        status = ap (λ z. z.order_status) new;
        no_key = ap (λ z. z.broker_order_id) new ∙ n;
        rows =
            b
            ∙ update-newest_rows o (set_status rejected_by_risk) s.orders s' e k
            ∙ ap (λ z. z ∷ s.orders) (sym new);
        world = a ∙ ap (λ z. (x.writes z).1) w;
        risk = c ∙ m;
      }

  -- What a refusal leaves, by whether it is the guard against a second order that refuses.
  abbrev pub StaysHome : Moment → Request F → Oms F W → Bool → Option (Order F) × Oms F W → Type 0
  StaysHome t r s true (a, s') = (a ≡ none) × (s' ≡ s)
  StaysHome t r s false (a, s') = (o : Order F) × (a ≡ some o) × IsRejected t r s o s'

  -- In a table whose keys were handed out in order, an order that is refused never reaches the broker.
  -- An entry beside an OPEN order of its contract is refused whatever the risk check says, and nothing
  -- changes. For any other order that the risk check refuses, only a row that says so is added, besides
  -- two writes of the audit log.
  pub refused_orders_stay_home :
      (t : Moment) (r : Request F) (s : Oms F W)
      → IsKeys s.next_id (ids s.orders)
      → ((not r.is_exit_order && has_open r.symbol s.orders) ≡ true)
        ⊎ ((validate_trade s.risk_manager t.clock (trade_of r)).0 ≡ false)
      → StaysHome t r s (not r.is_exit_order && has_open r.symbol s.orders) (place_order x t r s)
  unfolding place_order check receive
  refused_orders_stay_home t r s k why =
      let (o, s') = receive x t r s in
      let (ok, s'') = check x t r s' in
      let (world, rows, risk) = receive_lem x t r s in
      elim (Bool-cases (not r.is_exit_order && has_open r.symbol s.orders)) [
        | inl e ↦ rw e (refl, refl)
        | inr e ↦
            let bad : (validate_trade s.risk_manager t.clock (trade_of r)).0 ≡ false = elim why [
              | inl g ↦ absurd (ground (arith, e, g))
              | inr b ↦ b
            ] in
            rw e (
              (after_check x r o ok s'').0,
              refl,
              rejected_lem t r s s'' o ok world rows
                  (ap (λ m. (validate_trade m t.clock (trade_of r)).1) risk) k refl
                  (ap (λ m. (validate_trade m t.clock (trade_of r)).0) risk ∙ bad),
            )
      ]

  -- What a sweep without an answer leaves.
  pub record IsWaiting (s s' : Oms F W) : Type 0 where
    pub rows : s'.orders ≡ s.orders
    pub entries : s'.audit_logs ≡ s.audit_logs
    pub risk : s'.risk_manager ≡ s.risk_manager

  module _ (silent : (w : W) (bs : List (BrokerOrder F)) → (x.get_orders w).0 ≢ answered bs) where
    live_under-silent : (id : ℕ) (w : W) → live_under id (x.get_orders w).0 ≡ none
    live_under-silent id w = go (x.get_orders w).0 refl
      where
        go :
            (reply : Reply (List (BrokerOrder F)))
            → (x.get_orders w).0 ≡ reply
            → live_under id reply ≡ none
        go (answered bs) e = absurd (silent w bs e)
        go timed_out e = refl
        go raised e = refl

    verify_each-IsWaiting : (os : List (Order F)) (s : Oms F W) → IsWaiting s (verify_each x os s)
    unfolding verify_each verified reconcile_after_timeout
    verify_each-IsWaiting [] s = record { rows = refl; entries = refl; risk = refl }
    verify_each-IsWaiting (o ∷ os) s =
        let h = verify_each-IsWaiting os (record s { world = (x.get_orders s.world).1 }) in
        rw (live_under-silent o.id s.world)
          (record { rows = h.rows; entries = h.entries; risk = h.risk })

    -- While the broker answers no lookup, a sweep over the unverified orders changes no row, writes
    -- no audit entry and deploys no capital.
    pub unverified_orders_wait : (s : Oms F W) → IsWaiting s (retry_pending_verification_orders x s)
    unfolding retry_pending_verification_orders
    unverified_orders_wait s = verify_each-IsWaiting (with_status pending_verification s.orders) s
