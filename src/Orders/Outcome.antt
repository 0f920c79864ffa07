-- ===== src/Orders/Outcome.antt =====
-- What a call of `place_order` (orders/order_manager.py) concludes from the broker's answers.
use stocks_fno.Prelude.{
  ℕ, ◌≡◌, ◌≢◌, refl, sym, ap, ◌∙◌, subst, Bool, true, false, not, ◌&&◌, Option, none, some, List,
  ◌∷◌, String, ◌==◌, Option-cases, inl, inr, arith,
}
use stocks_fno.Float.{Float}
use stocks_fno.Risk.Validate.{validate_trade}
use stocks_fno.Orders.Text.{str_of_id, broker_order_tag}
use stocks_fno.Orders.Store.{
  OrderStatus, opened, failed, pending_verification, Order, BrokerOrder, Reply, answered, timed_out,
  raised, Outside, Oms, Moment, get_by_id, update_row, has_open, find_live, present, FillUpdates,
  write_fill,
}
use stocks_fno.Orders.Place.{
  Request, audit, update, reconcile_after_timeout, set_status, set_opened, immediate_fill,
  opened_with, persist, accept, fail, live_under, settle, after_reply, route, after_check, receive,
  check, place_order, trade_of, submission_of, new_order, note, deploy, append_position, attempts,
}

-- The status that an order comes to and the broker's key that it gets, by the broker's answer to the
-- order and, after a timeout, to the lookup of its tag.
pub data Fate (F : Type 0) (id : ℕ) (reply : Reply String) (listing : Reply (List (BrokerOrder F)))
    : OrderStatus → Option String → Type 0 where
  taken : (b : String) → reply ≡ answered b → Fate F id reply listing opened (some b)
  found :
      (bs : List (BrokerOrder F)) (b : String)
      → reply ≡ timed_out
      → listing ≡ answered bs
      → present (find_live (broker_order_tag (str_of_id id)) bs) ≡ some b
      → Fate F id reply listing opened (some b)
  missing :
      (bs : List (BrokerOrder F))
      → reply ≡ timed_out
      → listing ≡ answered bs
      → present (find_live (broker_order_tag (str_of_id id)) bs) ≡ none
      → Fate F id reply listing failed none
  unknown :
      reply ≡ timed_out
      → ((bs : List (BrokerOrder F)) → listing ≢ answered bs)
      → Fate F id reply listing pending_verification none
  refused : reply ≡ raised → Fate F id reply listing failed none

module _ {F : Type 0} ⦃f : Float F⦄ {W : Type 0} (x : Outside F W) where
  -- The row of the newest order is read back as it was written.
  pub update-newest :
      (o : Order F) (g : Order F → Order F) (os : List (Order F)) (s : Oms F W)
      → s.orders ≡ o ∷ os
      → (g o).id ≡ o.id
      → (update x o g s).0 ≡ g o
  unfolding update get_by_id update_row
  update-newest o g os s e k =
      let same : (o.id == o.id) ≡ true = ground arith in
      let same' : ((g o).id == o.id) ≡ true = ground arith in rw (e, same, same') refl

  -- An order meets its fate.
  abbrev Meets : Reply String → Reply (List (BrokerOrder F)) → ℕ → Order F → Type 0
  Meets reply listing id o = Fate F id reply listing o.order_status o.broker_order_id

  persist-Meets :
      (r : Request F) (o : Order F) (os : List (Order F)) (b : String) (u : FillUpdates F)
      (went : Bool) (s : Oms F W) (listing : Reply (List (BrokerOrder F)))
      → s.orders ≡ o ∷ os
      → Meets (answered b) listing o.id (persist x r o b u went s).0
  unfolding persist write_fill
  persist-Meets r o os b u false s listing e = taken b refl
  persist-Meets r o os b u true s listing e =
      subst (Meets (answered b) listing o.id)
        (sym (update-newest o (opened_with b u) os s e (written_id u))) (taken b refl)
    where
      written_id : (u : FillUpdates F) → (opened_with b u o).id ≡ o.id
      written_id u = refl

  fail-status :
      (a : String) (o : Order F) (os : List (Order F)) (s : Oms F W)
      → s.orders ≡ o ∷ os
      → (fail x a o s).0 ≡ set_status failed o
  unfolding fail
  fail-status a o os s e = update-newest o (set_status failed) os s e refl

  settle-Meets :
      (r : Request F) (o : Order F) (os : List (Order F)) (s : Oms F W)
      (listing : Reply (List (BrokerOrder F)))
      → s.orders ≡ o ∷ os
      → o.broker_order_id ≡ none
      → Meets timed_out listing o.id (settle x r o (live_under o.id listing) s).0
  unfolding settle
  settle-Meets r o os s (answered bs) e n =
      elim (Option-cases (present (find_live (broker_order_tag (str_of_id o.id)) bs))) [
        | inl q ↦ rw q (
            subst (Meets timed_out (answered bs) o.id) (sym (fail-status "ORDER_TIMEOUT" o os s e))
              (rw n (missing bs refl refl q)))
        | inr (b, q) ↦ rw q (
            subst (Meets timed_out (answered bs) o.id)
              (sym (update-newest o (set_opened b) os s e refl)) (found bs b refl refl q))
      ]
  settle-Meets r o os s timed_out e n =
      subst (Meets timed_out timed_out o.id)
        (sym (update-newest o (set_status pending_verification) os s e refl))
        (rw n (unknown refl (λ bs q. ground arith)))
  settle-Meets r o os s raised e n =
      subst (Meets timed_out raised o.id)
        (sym (update-newest o (set_status pending_verification) os s e refl))
        (rw n (unknown refl (λ bs q. ground arith)))

  after_reply-Meets :
      (r : Request F) (o : Order F) (os : List (Order F)) (reply : Reply String) (s : Oms F W)
      → s.orders ≡ o ∷ os
      → o.broker_order_id ≡ none
      → Meets reply (x.get_orders s.world).0 o.id (after_reply x r o reply s).0
  unfolding after_reply accept immediate_fill reconcile_after_timeout
  after_reply-Meets r o os (answered b) s e n = persist-Meets r o os b _ _ _ _ e
  after_reply-Meets r o os timed_out s e n = settle-Meets r o os _ _ e n
  after_reply-Meets r o os raised s e n =
      subst (Meets raised (x.get_orders s.world).0 o.id) (sym (fail-status "ORDER_FAILED" o os s e))
        (rw n (refused refl))

  -- The row that the table holds under the key `id`: that of the order, or the old one, where the write
  -- of the new one failed.
  abbrev pub Stored : ℕ → Order F → Bool → Order F × Oms F W → Type 0
  Stored id old true (o, s') = get_by_id id s'.orders ≡ some o
  Stored id old false (o, s') = get_by_id id s'.orders ≡ some old

  -- Whether the outcome can be written: only the row of an order that the broker took is written by
  -- a guarded call, in up to three attempts, after the lookup of its fill.
  abbrev pub is_written : Reply String → W → Bool
  unfolding attempts
  is_written (answered b) w = (attempts x 3 (x.get_orders w).1).0
  is_written timed_out w = true
  is_written raised w = true

  note-orders : (action : String) (id : ℕ) (s : Oms F W) → (note x action id s).orders ≡ s.orders
  unfolding note audit
  note-orders action id s = ground arith

  deploy-orders : (n : Option String) (a : F) (s : Oms F W) → (deploy x n a s).orders ≡ s.orders
  unfolding deploy
  deploy-orders none a s = refl
  deploy-orders (some n) a s = refl

  append_position-orders : (r : Request F) (s : Oms F W) → (append_position x r s).orders ≡ s.orders
  unfolding append_position
  append_position-orders r s = ground arith

  update-stored :
      (o : Order F) (g : Order F → Order F) (os : List (Order F)) (s : Oms F W)
      → s.orders ≡ o ∷ os
      → (g o).id ≡ o.id
      → get_by_id o.id (update x o g s).1.orders ≡ some (update x o g s).0
  unfolding update get_by_id update_row
  update-stored o g os s e k =
      let same : (o.id == o.id) ≡ true = ground arith in
      let same' : ((g o).id == o.id) ≡ true = ground arith in rw (e, same, same') refl

  head-stored :
      (o : Order F) (os : List (Order F)) (s : Oms F W)
      → s.orders ≡ o ∷ os
      → get_by_id o.id s.orders ≡ some o
  unfolding get_by_id
  head-stored o os s e = let same : (o.id == o.id) ≡ true = ground arith in rw (e, same) refl

  persist-Stored :
      (r : Request F) (o : Order F) (os : List (Order F)) (b : String) (u : FillUpdates F)
      (went : Bool) (s : Oms F W)
      → s.orders ≡ o ∷ os
      → Stored o.id o went (persist x r o b u went s)
  unfolding persist write_fill
  persist-Stored r o os b u false s e =
      ap (get_by_id o.id) (note-orders "ORDER_DB_PERSIST_FAILED" o.id s) ∙ head-stored o os s e
  persist-Stored r o os b u true s e =
      ap (get_by_id o.id)
        (append_position-orders r _ ∙ deploy-orders _ _ _ ∙ note-orders "ORDER_ROUTED" o.id _)
      ∙ update-stored o (opened_with b u) os s e refl

  fail-Stored :
      (a : String) (o : Order F) (os : List (Order F)) (s : Oms F W)
      → s.orders ≡ o ∷ os
      → Stored o.id o true (fail x a o s)
  unfolding fail
  fail-Stored a o os s e =
      ap (get_by_id o.id) (note-orders a o.id _) ∙ update-stored o (set_status failed) os s e refl

  settle-Stored :
      (r : Request F) (o : Order F) (os : List (Order F)) (found : Option (Option String))
      (s : Oms F W)
      → s.orders ≡ o ∷ os
      → Stored o.id o true (settle x r o found s)
  unfolding settle
  settle-Stored r o os none s e =
      ap (get_by_id o.id) (note-orders "ORDER_VERIFICATION_FAILED" o.id _)
      ∙ update-stored o (set_status pending_verification) os s e refl
  settle-Stored r o os (some none) s e = fail-Stored "ORDER_TIMEOUT" o os s e
  settle-Stored r o os (some (some b)) s e =
      ap (get_by_id o.id) (deploy-orders _ _ _ ∙ note-orders "ORDER_TIMEOUT_RECONCILED" o.id _)
      ∙ update-stored o (set_opened b) os s e refl

  after_reply-Stored :
      (r : Request F) (o : Order F) (os : List (Order F)) (reply : Reply String) (s : Oms F W)
      → s.orders ≡ o ∷ os
      → Stored o.id o (is_written reply s.world) (after_reply x r o reply s)
  unfolding after_reply accept immediate_fill reconcile_after_timeout is_written
  after_reply-Stored r o os (answered b) s e = persist-Stored r o os b _ _ _ e
  after_reply-Stored r o os timed_out s e = settle-Stored r o os _ _ e
  after_reply-Stored r o os raised s e = fail-Stored "ORDER_FAILED" o os s e

  -- what the table holds of an order that was sent from the world `w`
  abbrev Kept : Request F → Order F → W → Order F × Oms F W → Type 0
  Kept r o w q =
      let (reply, w') = x.place (submission_of r o.id) w in Stored o.id o (is_written reply w') q

  after_check-Kept :
      (r : Request F) (o : Order F) (os : List (Order F)) (ok : Bool) (s : Oms F W)
      → s.orders ≡ o ∷ os
      → ok ≡ true
      → Kept r o s.world (after_check x r o ok s)
  unfolding after_check route
  after_check-Kept r o os false s e ok = absurd (ground arith)
  after_check-Kept r o os true s e ok = after_reply-Stored r o os _ _ e

  -- The answers that an order sent from the world `w` gets.
  abbrev Sent : Request F → ℕ → W → Order F → Type 0
  Sent r id w o =
      let (reply, w') = x.place (submission_of r id) w in Meets reply (x.get_orders w').0 id o

  after_check-Sent :
      (r : Request F) (o : Order F) (os : List (Order F)) (ok : Bool) (s : Oms F W)
      → s.orders ≡ o ∷ os
      → o.broker_order_id ≡ none
      → ok ≡ true
      → Sent r o.id s.world (after_check x r o ok s).0
  unfolding after_check route
  after_check-Sent r o os false s e n ok = absurd (ground arith)
  after_check-Sent r o os true s e n ok = after_reply-Meets r o os _ _ e n

  pub receive_lem :
      (t : Moment) (r : Request F) (s : Oms F W)
      → let s' = (receive x t r s).1 in
        (s'.world ≡ (x.writes s.world).1)
        × (s'.orders ≡ new_order r s.next_id t.now ∷ s.orders)
        × (s'.risk_manager ≡ s.risk_manager)
  unfolding receive audit
  receive_lem t r s = ground arith

  -- An order that is new, and that the risk check lets through, is OPEN under the broker's key if the
  -- broker answers with one. After a timeout it is OPEN if the broker lists a live order with its tag,
  -- FAILED if the broker lists none, and PENDING_VERIFICATION if the broker does not answer; it is
  -- FAILED at once only if the broker raised. The table holds the same row under the new key; only
  -- where the broker took the order and all three writes of its row fail, it holds the PENDING row.
  pub place_order-Fate :
      (t : Moment) (r : Request F) (s : Oms F W)
      → (not r.is_exit_order && has_open r.symbol s.orders) ≡ false
      → (validate_trade s.risk_manager t.clock (trade_of r)).0 ≡ true
      → let w = (x.writes s.world).1 in
        let (reply, w') = x.place (submission_of r s.next_id) w in
        (o : Order F) × ((place_order x t r s).0 ≡ some o)
        × Fate F s.next_id reply (x.get_orders w').0 o.order_status o.broker_order_id
        × Stored s.next_id
            (new_order r s.next_id t.now)
            (is_written reply w')
            (o, (place_order x t r s).1)
  unfolding place_order check receive
  place_order-Fate t r s new passes =
      let o = (receive x t r s).0 in
      let s' = (receive x t r s).1 in
      let (ok', s'') = check x t r s' in
      let (world, rows, risk) = receive_lem t r s in
      let ok : ok' ≡ true = ap (λ m. (validate_trade m t.clock (trade_of r)).0) risk ∙ passes in
      let (o', u) = after_check x r o ok' s'' in
      rw (new, place_order)
        (
          o',
          refl,
          subst (λ w. Sent r s.next_id w o') world
              (after_check-Sent r o s.orders ok' s'' rows refl ok),
          subst (λ w. Kept r o w (o', u)) world (after_check-Kept r o s.orders ok' s'' rows ok),
        )
