-- ===== src/Orders/Finished.antt =====
-- Finished orders through `cancel_order`, `expire_stale_orders`, and any sequence of calls
-- (orders/order_manager.py).
use stocks_fno.Prelude.{
  ℕ, ◌≡◌, refl, sym, ap, ◌∙◌, subst, Bool, true, false, Option, none, some, List, [], ◌∷◌,
  get_or_else, Bool-cases, Option-cases, inl, inr, All, arith,
}
use stocks_fno.Int.{pos, ltb_ℤ}
use stocks_fno.Float.{Float}
use stocks_fno.Orders.Store.{
  expired, cancelled, is_terminal, Order, Context, Reply, answered, timed_out, raised, Outside, Oms,
  Moment, present, get_by_id,
}
use stocks_fno.Orders.Place.{Request, note, update, get_retry_context, set_status, place_order}
use stocks_fno.Orders.Sync.{
  retry_pending_verification_orders, sync_orders, after_cancel, cancel_found, cancel_order,
}
use stocks_fno.Orders.Expire.{
  retry_or_leave, release_remainder, remaining, is_eligible, expire, cancel_at_broker, is_stale,
  expire_one, expire_each, expire_stale_orders,
}
use stocks_fno.Orders.Settled.{
  table, Keeps, Keeps-same, table-note, table-release, table-release_capital, turn-Keeps,
  set_status-Turns, verification-Keeps,
}
use stocks_fno.Orders.Table.{
  Holds, May, IsLasting, has_key, is_fixed, get_by_id-id, get_by_id-found,
}
use stocks_fno.Orders.SyncKeeps.{sync_orders-Keeps, waiting}
use stocks_fno.Orders.PlaceKeeps.{place_order-Keeps}

module _ {F : Type 0} ⦃f : Float F⦄ {W : Type 0} (x : Outside F W) where
  after_cancel-Keeps :
      {P : Order F → Type 0} {i : ℕ} (o : Order F) (reply : Reply Bool) (s : Oms F W)
      → May P i o.id
      → Keeps P i (table s)
      → Keeps P i (table (after_cancel x o reply s))
  unfolding after_cancel
  after_cancel-Keeps o (answered true) s ne h =
      let (o', s') = update x o (set_status cancelled) s in
      Keeps-same
        (table-release_capital x o' (note x "ORDER_CANCELLED" o'.id s') ∙ table-note x _ _ s')
        (turn-Keeps x o (set_status cancelled) s (set_status-Turns cancelled refl) ne h)
  after_cancel-Keeps o (answered false) s ne h = h
  after_cancel-Keeps o timed_out s ne h = h
  after_cancel-Keeps o raised s ne h = h

  cancel_found-Keeps :
      {P : Order F → Type 0} {i : ℕ} (o : Order F) (s : Oms F W)
      → (has_key o ≡ true → is_terminal o.order_status ≡ false → May P i o.id)
      → Keeps P i (table s)
      → Keeps P i (table (cancel_found x o s).1)
  unfolding cancel_found
  cancel_found-Keeps o s ne h = elim (Option-cases (present o.broker_order_id)) [
    | inl e ↦ rw (e, cancel_found) h
    | inr (id, e) ↦ elim (Bool-cases (is_terminal o.order_status)) [
      | inl e' ↦ rw (e, e', cancel_found) h
      | inr e' ↦
          rw (e, e', cancel_found) (after_cancel-Keeps o _ _ (ne (rw (e, has_key) refl) e') h)
    ]
  ]

  cancels-May :
      {P : Order F → Type 0} {i : ℕ} (id : ℕ) (o : Order F) (s : Oms F W)
      → IsLasting P
      → Keeps P i (table s)
      → get_by_id id s.orders ≡ some o
      → has_key o ≡ true
      → is_terminal o.order_status ≡ false
      → May P i o.id
  cancels-May id o s (inr c) h e k u = inr c
  cancels-May {i = i} id o s (inl f) h e k u = inl (λ q.
      let j : i ≡ id = q ∙ get_by_id-found id o s.orders e in
      let same : some h.row ≡ some o = sym h.found ∙ ap (λ z. get_by_id z s.orders) j ∙ e in
      let fixed : is_fixed o ≡ true =
        subst (λ z. is_fixed (get_or_else z o) ≡ true) same (f h.row h.holds) in
      ground arith)

  pub cancel_order-Keeps :
      {P : Order F → Type 0} {i : ℕ} (id : ℕ) (s : Oms F W)
      → IsLasting P
      → Keeps P i (table s)
      → Keeps P i (table (cancel_order x id s).1)
  unfolding cancel_order
  cancel_order-Keeps id s l h = elim (Option-cases (get_by_id id s.orders)) [
    | inl e ↦ rw (e, cancel_order) h
    | inr (o, e) ↦ rw (e, cancel_order) (cancel_found-Keeps o s (cancels-May id o s l h e) h)
  ]

  table-release_remainder :
      (o : Order F) (c : Context) (p : F) (s : Oms F W)
      → table (release_remainder x o c p s) ≡ table s
  unfolding release_remainder
  table-release_remainder o c p s = elim (Bool-cases (ltb_ℤ (pos 0) (remaining o))) [
    | inl e ↦ rw e (table-release x _ _ s)
    | inr e ↦ rw e refl
  ]

  retry_or_leave-Keeps :
      {P : Order F → Type 0} {i : ℕ} (t : Moment) (o : Order F) (c : Option Context) (p : Option F)
      (s : Oms F W)
      → Keeps P i (table s)
      → Keeps P i (table (retry_or_leave x t o c p s))
  unfolding retry_or_leave
  retry_or_leave-Keeps t o none p s h = h
  retry_or_leave-Keeps t o (some c) none s h = h
  retry_or_leave-Keeps t o (some c) (some p) s h =
      elim (Bool-cases (is_eligible o (some c) (some p))) [
        | inl e ↦ rw e (place_order-Keeps x t _ _ (Keeps-same (table-release_remainder o c _ s) h))
        | inr e ↦ rw e (Keeps-same (table-release_remainder o c p s) h)
      ]

  expire-Keeps :
      {P : Order F → Type 0} {i : ℕ} (t : Moment) (o : Order F) (s : Oms F W)
      → IsLasting P
      → May P i o.id
      → Keeps P i (table s)
      → Keeps P i (table (expire x t o s))
  unfolding expire get_retry_context
  expire-Keeps {P = P} {i = i} t o s l ne h =
      let s₁ = sync_orders x s in
      let o' = get_or_else (get_by_id o.id s₁.orders) o in
      let same : o.id ≡ o'.id = sym (get_by_id-id o.id o s₁.orders refl) in
      let ne' : May P i o'.id = subst (May P i) same ne in
      retry_or_leave-Keeps t o' _ o'.price _ (
        Keeps-same (table-note x _ _ _) (
          turn-Keeps x o' (set_status expired) s₁ (set_status-Turns expired refl) ne'
            (sync_orders-Keeps x s l h)))

  table-cancel_at_broker : (o : Order F) (s : Oms F W) → table (cancel_at_broker x o s).1 ≡ table s
  unfolding cancel_at_broker
  table-cancel_at_broker o s = elim (Option-cases (present o.broker_order_id)) [
    | inl e ↦ rw (e, cancel_at_broker) refl
    | inr (id, e) ↦ rw (e, cancel_at_broker) refl
  ]

  expire_one-Keeps :
      {P : Order F → Type 0} {i : ℕ} (t : Moment) (o : Order F) (s : Oms F W)
      → IsLasting P
      → May P i o.id
      → Keeps P i (table s)
      → Keeps P i (table (expire_one x t o s).1)
  unfolding expire_one
  expire_one-Keeps t o s l ne h =
      let h' = Keeps-same (table-cancel_at_broker o s) h in
      elim (Bool-cases (is_stale t o)) [
        | inr e ↦ rw e h
        | inl e ↦ elim (Bool-cases (cancel_at_broker x o s).0) [
          | inl e' ↦ rw (e, e') (expire-Keeps t o _ l ne h')
          | inr e' ↦ rw (e, e') (sync_orders-Keeps x _ l h')
        ]
      ]

  expire_each-Keeps :
      {P : Order F → Type 0} {i : ℕ} (t : Moment) (os : List (Order F)) (s : Oms F W)
      → IsLasting P
      → All (λ o. May P i o.id) os
      → Keeps P i (table s)
      → Keeps P i (table (expire_each x t os s).1)
  unfolding expire_each
  expire_each-Keeps t [] s l a h = h
  expire_each-Keeps t (o ∷ os) s l (ne, a) h =
      expire_each-Keeps t os _ l a (expire_one-Keeps t o s l ne h)

  pub expire_stale_orders-Keeps :
      {P : Order F → Type 0} {i : ℕ} (t : Moment) (s : Oms F W)
      → IsLasting P
      → Keeps P i (table s)
      → Keeps P i (table (expire_stale_orders x t s).1)
  unfolding expire_stale_orders
  expire_stale_orders-Keeps t s l h =
      let h' = sync_orders-Keeps x _ l (verification-Keeps x s l h) in
      let s' = sync_orders x (retry_pending_verification_orders x s) in
      expire_each-Keeps t _ s' l (waiting x s' l h') h'

-- the calls that change the orders
pub data Call (F : Type 0) : Type 0 where
  places : Request F → Call F
  cancels : ℕ → Call F
  syncs expires : Call F

module _ {F : Type 0} ⦃f : Float F⦄ {W : Type 0} (x : Outside F W) where
  unfoldable pub step : Oms F W → Moment × Call F → Oms F W
  step s (t, places r) = (place_order x t r s).1
  step s (t, cancels id) = (cancel_order x id s).1
  step s (t, syncs) = sync_orders x s
  step s (t, expires) = (expire_stale_orders x t s).1

  unfoldable pub run : Oms F W → List (Moment × Call F) → Oms F W
  unfolding step
  run s [] = s
  run s (c ∷ cs) = run (step s c) cs

  step-Keeps :
      {P : Order F → Type 0} {i : ℕ} (s : Oms F W) (c : Moment × Call F)
      → IsLasting P
      → Keeps P i (table s)
      → Keeps P i (table (step s c))
  unfolding step
  step-Keeps s (t, places q) l h = place_order-Keeps x t q s h
  step-Keeps s (t, cancels id) l h = cancel_order-Keeps x id s l h
  step-Keeps s (t, syncs) l h = sync_orders-Keeps x s l h
  step-Keeps s (t, expires) l h = expire_stale_orders-Keeps x t s l h

  pub run-Keeps :
      {P : Order F → Type 0} {i : ℕ} (s : Oms F W) (cs : List (Moment × Call F))
      → IsLasting P
      → Keeps P i (table s)
      → Keeps P i (table (run s cs))
  unfolding run
  run-Keeps s [] l h = h
  run-Keeps s (c ∷ cs) l h = run-Keeps (step s c) cs l (step-Keeps s c l h)

  -- In a table whose keys were handed out in order, a row whose status is COMPLETED, CANCELLED,
  -- REJECTED, FAILED or EXPIRED is the same row after any calls of `OrderManager`.
  pub finished_orders_stay :
      (s : Oms F W) (cs : List (Moment × Call F)) (i : ℕ) (r : Order F)
      → Holds i r s.next_id s.orders
      → get_by_id i (run s cs).orders ≡ some r
  finished_orders_stay s cs i r h =
      let fixed : is_fixed r ≡ true = rw h.finished refl in
      let k =
        run-Keeps {P = λ p. p ≡ r} s cs (inl (λ p q. ap is_fixed q ∙ fixed))
          (record { keys = h.keys; row = r; found = h.row; holds = refl }) in
      k.found ∙ ap (λ z. some z) k.holds
