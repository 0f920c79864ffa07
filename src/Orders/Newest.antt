-- ===== src/Orders/Newest.antt =====
-- The order that `place_order` (orders/order_manager.py) returns, and its row.
use stocks_fno.Prelude.{
  ℕ, ◌≡◌, refl, sym, ap, ◌∙◌, Bool, true, false, not, ◌&&◌, Option, none, some, List, ◌∷◌, String,
  ◌==◌, ◌⊎◌, inl, inr, arith,
}
use stocks_fno.Float.{Float}
use stocks_fno.Orders.Store.{
  opened, failed, rejected_by_risk, pending_verification, Order, Reply, answered, timed_out, raised,
  Outside, Oms, Moment, get_by_id, update_row, has_open, FillUpdates, write_fill,
}
use stocks_fno.Orders.Place.{
  Request, update, set_status, set_opened, immediate_fill, opened_with, persist, accept, fail,
  settle, after_reply, route, after_check, receive, check, place_order, reconcile_after_timeout,
}
use stocks_fno.Orders.Settled.{table, table-note, table-deploy, table-append_position}
use stocks_fno.Orders.Outcome.{update-newest, receive_lem}

module _ {F : Type 0} ⦃f : Float F⦄ {W : Type 0} (x : Outside F W) where
  -- The returned order has the given key, and is OPEN, or is its row and has no key of the broker.
  pub record IsPlaced (id : ℕ) (o : Order F) (s : Oms F W) : Type 0 where
    pub same_id : o.id ≡ id
    pub outcome :
        (o.order_status ≡ opened) ⊎ ((o.broker_order_id ≡ none) × (get_by_id id s.orders ≡ some o))

  IsPlaced-same :
      {id : ℕ} {o : Order F} {s s' : Oms F W}
      → s'.orders ≡ s.orders
      → IsPlaced id o s
      → IsPlaced id o s'
  IsPlaced-same {id} {o} e h = record {
    same_id = h.same_id;
    outcome = elim h.outcome [
      | inl q ↦ inl q
      | inr (n, r) ↦ inr (n, ap (λ z. get_by_id id z) e ∙ r)
    ];
  }

  -- the newest row after a write to it
  written-IsPlaced :
      (o : Order F) (g : Order F → Order F) (os : List (Order F)) (s : Oms F W)
      → s.orders ≡ o ∷ os
      → ((p : Order F) → (g p).id ≡ p.id)
      → ((g o).order_status ≡ opened) ⊎ ((g o).broker_order_id ≡ none)
      → let (o', s') = update x o g s in IsPlaced o.id o' s'
  unfolding update get_by_id update_row
  written-IsPlaced o g os s e k c =
      let same : (o.id == o.id) ≡ true = ground arith in
      let same' : ((g o).id == o.id) ≡ true = rw (k o) same in
      let new : (update x o g s).0 ≡ g o = update-newest x o g os s e (k o) in
      let row : get_by_id o.id (update x o g s).1.orders ≡ some (g o) = rw (e, same, same') refl in
      record {
        same_id = ap (λ z. z.id) new ∙ k o;
        outcome = elim c [
          | inl q ↦ inl (ap (λ z. z.order_status) new ∙ q)
          | inr n ↦ inr (ap (λ z. z.broker_order_id) new ∙ n, row ∙ ap (λ z. some z) (sym new))
        ];
      }

  IsPlaced-table :
      {id : ℕ} {o : Order F} {s s' : Oms F W}
      → table s' ≡ table s
      → IsPlaced id o s
      → IsPlaced id o s'
  IsPlaced-table e h = IsPlaced-same (ap (λ t. t.1) e) h

  persist-IsPlaced :
      (r : Request F) (o : Order F) (os : List (Order F)) (b : String) (u : FillUpdates F)
      (went : Bool) (s : Oms F W)
      → s.orders ≡ o ∷ os
      → let (o', s') = persist x r o b u went s in IsPlaced o.id o' s'
  unfolding persist write_fill
  persist-IsPlaced r o os b u false s e = record { same_id = refl; outcome = inl refl }
  persist-IsPlaced r o os b u true s e =
      IsPlaced-table (table-append_position x r _ ∙ table-deploy x _ _ _ ∙ table-note x _ _ _)
        (written-IsPlaced o (opened_with b u) os s e (λ p. refl) (inl refl))

  fail-IsPlaced :
      (a : String) (o : Order F) (os : List (Order F)) (s : Oms F W)
      → s.orders ≡ o ∷ os
      → o.broker_order_id ≡ none
      → let (o', s') = fail x a o s in IsPlaced o.id o' s'
  unfolding fail
  fail-IsPlaced a o os s e n =
      IsPlaced-table (table-note x _ _ _)
        (written-IsPlaced o (set_status failed) os s e (λ p. refl) (inr n))

  settle-IsPlaced :
      (r : Request F) (o : Order F) (os : List (Order F)) (found : Option (Option String))
      (s : Oms F W)
      → s.orders ≡ o ∷ os
      → o.broker_order_id ≡ none
      → let (o', s') = settle x r o found s in IsPlaced o.id o' s'
  unfolding settle
  settle-IsPlaced r o os none s e n =
      IsPlaced-table (table-note x _ _ _)
        (written-IsPlaced o (set_status pending_verification) os s e (λ p. refl) (inr n))
  settle-IsPlaced r o os (some none) s e n = fail-IsPlaced _ o os s e n
  settle-IsPlaced r o os (some (some b)) s e n =
      IsPlaced-table (table-deploy x _ _ _ ∙ table-note x _ _ _)
        (written-IsPlaced o (set_opened b) os s e (λ p. refl) (inl refl))

  after_reply-IsPlaced :
      (r : Request F) (o : Order F) (os : List (Order F)) (reply : Reply String) (s : Oms F W)
      → s.orders ≡ o ∷ os
      → o.broker_order_id ≡ none
      → let (o', s') = after_reply x r o reply s in IsPlaced o.id o' s'
  unfolding after_reply accept immediate_fill reconcile_after_timeout
  after_reply-IsPlaced r o os (answered b) s e n = persist-IsPlaced r o os b _ _ _ e
  after_reply-IsPlaced r o os timed_out s e n = settle-IsPlaced r o os _ _ e n
  after_reply-IsPlaced r o os raised s e n = fail-IsPlaced _ o os s e n

  after_check-IsPlaced :
      (r : Request F) (o : Order F) (os : List (Order F)) (ok : Bool) (s : Oms F W)
      → s.orders ≡ o ∷ os
      → o.broker_order_id ≡ none
      → let (o', s') = after_check x r o ok s in IsPlaced o.id o' s'
  unfolding after_check route
  after_check-IsPlaced r o os true s e n = after_reply-IsPlaced r o os _ _ e n
  after_check-IsPlaced r o os false s e n =
      IsPlaced-table (table-note x _ _ _)
        (written-IsPlaced o (set_status rejected_by_risk) os s e (λ p. refl) (inr n))

  -- An exit order is placed under the next key.
  pub place_order-IsPlaced :
      (t : Moment) (r : Request F) (s : Oms F W)
      → r.is_exit_order ≡ true
      → (o : Order F) × ((place_order x t r s).0 ≡ some o)
        × IsPlaced s.next_id o (place_order x t r s).1
  unfolding place_order check receive
  place_order-IsPlaced t r s exits =
      let (o, s') = receive x t r s in
      let (ok, s'') = check x t r s' in
      let (world, rows, risk) = receive_lem x t r s in
      let free : (not r.is_exit_order && has_open r.symbol s.orders) ≡ false = ground arith in
      rw free
        ((after_check x r o ok s'').0, refl, after_check-IsPlaced r o s.orders ok s'' rows refl)
