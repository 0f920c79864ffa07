-- ===== src/Orders/SyncKeeps.antt =====
-- Finished orders through `sync_orders` (orders/order_manager.py).
use stocks_fno.Prelude.{
  ℕ, String, get_or_else, ◌≡◌, refl, ◌∙◌, Bool, true, false, List, [], ◌∷◌, Bool-cases,
  Option-cases, inl, inr, All, arith,
}
use stocks_fno.Float.{Float}
use stocks_fno.Orders.Store.{
  opened, same_status, Order, BrokerOrder, answered, timed_out, raised, Outside, Oms, present,
  with_status, last_listed, write_fill, map_broker_status,
}
use stocks_fno.Orders.Sync.{
  listed_status, fell_through, synced, has_updates, after_change, after_write, sync_with, sync_one,
  sync_each, sync_open, sync_orders,
}
use stocks_fno.Orders.Settled.{
  table, Keeps, Keeps-same, table-note, table-release_capital, turn-Keeps,
}
use stocks_fno.Orders.Table.{Turns, May, IsLasting, is_reached, with_status-May}

module _ {F : Type 0} ⦃f : Float F⦄ {W : Type 0} (x : Outside F W) where
  is_reached-map_broker_status : (st : String) → is_reached (map_broker_status st) ≡ true
  unfolding map_broker_status
  is_reached-map_broker_status st = ground arith

  synced-Turns : (b : BrokerOrder F) (o p : Order F) → Turns p (synced b o p)
  unfolding synced write_fill
  synced-Turns b o p = elim (Bool-cases (same_status (listed_status b) o.order_status)) [
    | inl e ↦ rw e (record {
      id = refl;
      symbol = refl;
      side = refl;
      quantity = refl;
      price = refl;
      status = inl refl;
    })
    | inr e ↦ rw e (record {
      id = refl;
      symbol = refl;
      side = refl;
      quantity = refl;
      price = refl;
      status = inr (is_reached-map_broker_status (get_or_else b.status "OPEN"));
    })
  ]

  table-after_change :
      (b : BrokerOrder F) (o : Order F) (s : Oms F W) → table (after_change x b o s) ≡ table s
  unfolding after_change
  table-after_change b o s = elim (Bool-cases (fell_through (listed_status b))) [
    | inl e ↦ rw e (table-release_capital x o _ ∙ table-note x _ _ s)
    | inr e ↦ rw e (table-note x _ _ s)
  ]

  table-after_write :
      (same : Bool) (b : BrokerOrder F) (o : Order F) (s : Oms F W)
      → table (after_write x same b o s) ≡ table s
  unfolding after_write
  table-after_write true b o s = refl
  table-after_write false b o s = table-after_change b o s

  sync_with-Keeps :
      {P : Order F → Type 0} {i : ℕ} (b : BrokerOrder F) (o : Order F) (s : Oms F W)
      → May P i o.id
      → Keeps P i (table s)
      → Keeps P i (table (sync_with x b o s))
  unfolding sync_with
  sync_with-Keeps b o s ne h =
      let u = turn-Keeps x o (synced b o) s (synced-Turns b o) ne h in
      elim (Bool-cases (has_updates b o)) [
        | inr e ↦ rw e h
        | inl e ↦ rw e (Keeps-same (table-after_write _ b _ _) u)
      ]

  sync_one-Keeps :
      {P : Order F → Type 0} {i : ℕ} (bs : List (BrokerOrder F)) (o : Order F) (s : Oms F W)
      → May P i o.id
      → Keeps P i (table s)
      → Keeps P i (table (sync_one x bs o s))
  unfolding sync_one
  sync_one-Keeps bs o s ne h = elim (Option-cases (present o.broker_order_id)) [
    | inl e ↦ rw (e, sync_one) h
    | inr (id, e) ↦ elim (Option-cases (last_listed id bs)) [
      | inl e' ↦ rw (e, e', sync_one) h
      | inr (b, e') ↦ rw (e, e', sync_one) (sync_with-Keeps b o s ne h)
    ]
  ]

  sync_each-Keeps :
      {P : Order F → Type 0} {i : ℕ} (bs : List (BrokerOrder F)) (os : List (Order F)) (s : Oms F W)
      → All (λ o. May P i o.id) os
      → Keeps P i (table s)
      → Keeps P i (table (sync_each x bs os s))
  unfolding sync_each
  sync_each-Keeps bs [] s a h = h
  sync_each-Keeps bs (o ∷ os) s (ne, a) h = sync_each-Keeps bs os _ a (sync_one-Keeps bs o s ne h)

  sync_open-Keeps :
      {P : Order F → Type 0} {i : ℕ} (os : List (Order F)) (s : Oms F W)
      → All (λ o. May P i o.id) os
      → Keeps P i (table s)
      → Keeps P i (table (sync_open x os s))
  unfolding sync_open
  sync_open-Keeps [] s a h = h
  sync_open-Keeps {P = P} {i = i} (o ∷ os) s a h =
      elim (x.get_orders s.world).0
        as (λ reply. Keeps P i (
          table (elim reply [
            | answered bs ↦ sync_each x bs (o ∷ os) (record s { world = (x.get_orders s.world).1 })
            | timed_out ↦ record s { world = (x.get_orders s.world).1 }
            | raised ↦ record s { world = (x.get_orders s.world).1 }
          ]))) [ answered bs ↦ sync_each-Keeps bs (o ∷ os) _ a h | timed_out ↦ h | raised ↦ h ]

  pub waiting :
      {P : Order F → Type 0} {i : ℕ} (s : Oms F W)
      → IsLasting P
      → Keeps P i (table s)
      → All (λ o. May P i o.id) (with_status opened s.orders)
  waiting s l h = with_status-May opened s.next_id s.orders refl l h

  pub sync_orders-Keeps :
      {P : Order F → Type 0} {i : ℕ} (s : Oms F W)
      → IsLasting P
      → Keeps P i (table s)
      → Keeps P i (table (sync_orders x s))
  unfolding sync_orders
  sync_orders-Keeps s l h = sync_open-Keeps _ s (waiting s l h) h
