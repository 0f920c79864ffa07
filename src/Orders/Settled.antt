-- ===== src/Orders/Settled.antt =====
-- Finished orders stay as they are, through every operation of `OrderManager`
-- (orders/order_manager.py).
use stocks_fno.Prelude.{
  ℕ, ◌≡◌, ◌≢◌, refl, sym, ◌∙◌, subst, true, Option, none, some, List, [], ◌∷◌, String, Bool-cases,
  inl, inr, All, arith,
}
use stocks_fno.Float.{Float}
use stocks_fno.Risk.Validate.{is_buy}
use stocks_fno.Orders.Store.{OrderStatus, failed, Order, Entry, Outside, Oms}
use stocks_fno.Orders.Place.{
  Request, audit, note, update, get_retry_context, deploy, release, reconcile_after_timeout,
  append_position, set_status, set_opened,
}
use stocks_fno.Orders.Sync.{
  release_capital_if_was_deployed, add_capital_if_should_have_been_deployed, verified, verify_each,
  retry_pending_verification_orders,
}
use stocks_fno.Orders.Table.{
  Has, Turns, May, IsLasting, is_reached, update_row-Has, with_status-May,
}

module _ {F W : Type 0} where
  -- the table of a state, with the key that comes next
  abbrev pub table : Oms F W → ℕ × List (Order F)
  table s = (s.next_id, s.orders)

module _ {F : Type 0} where
  -- The table holds a row of `P` under the key `i`.
  abbrev pub Keeps : (Order F → Type 0) → ℕ → ℕ × List (Order F) → Type 0
  Keeps P i t = Has P i t.0 t.1

  pub Keeps-same :
      {P : Order F → Type 0} {i : ℕ} {t t' : ℕ × List (Order F)}
      → t' ≡ t
      → Keeps P i t
      → Keeps P i t'
  Keeps-same {P = P} {i = i} e h = subst (Keeps P i) (sym e) h

module _ {F : Type 0} where
  pub set_status-Turns :
      (st : OrderStatus) → is_reached st ≡ true → (p : Order F) → Turns p (set_status st p)
  set_status-Turns st e p = record {
    id = refl;
    symbol = refl;
    side = refl;
    quantity = refl;
    price = refl;
    status = inr e;
  }

  set_opened-Turns : (b : String) (p : Order F) → Turns p (set_opened b p)
  set_opened-Turns b p = record {
    id = refl;
    symbol = refl;
    side = refl;
    quantity = refl;
    price = refl;
    status = inr refl;
  }

module _ {F : Type 0} ⦃f : Float F⦄ {W : Type 0} (x : Outside F W) where
  pub table-audit : (e : Entry) (s : Oms F W) → table (audit x e s) ≡ table s
  unfolding audit
  table-audit e s = ground arith

  pub table-note : (a : String) (id : ℕ) (s : Oms F W) → table (note x a id s) ≡ table s
  unfolding note
  table-note a id s = table-audit _ s

  pub table-deploy : (n : Option String) (a : F) (s : Oms F W) → table (deploy x n a s) ≡ table s
  unfolding deploy
  table-deploy none a s = refl
  table-deploy (some n) a s = refl

  pub table-release : (n : Option String) (a : F) (s : Oms F W) → table (release x n a s) ≡ table s
  unfolding release
  table-release none a s = refl
  table-release (some n) a s = refl

  pub table-append_position :
      (r : Request F) (s : Oms F W) → table (append_position x r s) ≡ table s
  unfolding append_position
  table-append_position r s = ground arith

  pub table-release_capital :
      (o : Order F) (s : Oms F W) → table (release_capital_if_was_deployed x o s) ≡ table s
  unfolding release_capital_if_was_deployed get_retry_context
  table-release_capital o s = elim (Bool-cases (is_buy o.side)) [
    | inl e ↦ rw e (table-release _ _ _)
    | inr e ↦ rw e refl
  ]

  pub table-add_capital :
      (o : Order F) (s : Oms F W) → table (add_capital_if_should_have_been_deployed x o s) ≡ table s
  unfolding add_capital_if_should_have_been_deployed get_retry_context
  table-add_capital o s = elim (Bool-cases (is_buy o.side)) [
    | inl e ↦ rw e (table-deploy _ _ _)
    | inr e ↦ rw e refl
  ]

  pub update-Keeps :
      {P : Order F → Type 0} {i : ℕ} (o : Order F) (g : Order F → Order F) (s : Oms F W)
      → ((p : Order F) → (g p).id ≡ p.id)
      → i ≢ o.id
      → Keeps P i (table s)
      → Keeps P i (table (update x o g s).1)
  unfolding update
  update-Keeps o g s e ne h = update_row-Has s.orders o.id g e (inl ne) h

  pub turn-Keeps :
      {P : Order F → Type 0} {i : ℕ} (o : Order F) (g : Order F → Order F) (s : Oms F W)
      → ((p : Order F) → Turns p (g p))
      → May P i o.id
      → Keeps P i (table s)
      → Keeps P i (table (update x o g s).1)
  unfolding update
  turn-Keeps o g s e (inl ne) h = update_row-Has s.orders o.id g (λ p. (e p).id) (inl ne) h
  turn-Keeps o g s e (inr c) h =
      update_row-Has s.orders o.id g (λ p. (e p).id) (inr (λ p q. c p (g p) (e p) q)) h

  verified-Keeps :
      {P : Order F → Type 0} {i : ℕ} (o : Order F) (found : Option (Option String)) (s : Oms F W)
      → May P i o.id
      → Keeps P i (table s)
      → Keeps P i (table (verified x o found s))
  unfolding verified
  verified-Keeps o none s ne h = h
  verified-Keeps o (some none) s ne h =
      Keeps-same (table-note _ _ _) (turn-Keeps o _ s (set_status-Turns failed refl) ne h)
  verified-Keeps o (some (some b)) s ne h =
      Keeps-same (table-add_capital o _ ∙ table-note _ _ _)
        (turn-Keeps o _ s (set_opened-Turns b) ne h)

  pub verify_each-Keeps :
      {P : Order F → Type 0} {i : ℕ} (os : List (Order F)) (s : Oms F W)
      → All (λ o. May P i o.id) os
      → Keeps P i (table s)
      → Keeps P i (table (verify_each x os s))
  unfolding verify_each reconcile_after_timeout
  verify_each-Keeps [] s a h = h
  verify_each-Keeps (o ∷ os) s (ne, a) h = verify_each-Keeps os _ a (verified-Keeps o _ _ ne h)

  pub verification-Keeps :
      {P : Order F → Type 0} {i : ℕ} (s : Oms F W)
      → IsLasting P
      → Keeps P i (table s)
      → Keeps P i (table (retry_pending_verification_orders x s))
  unfolding retry_pending_verification_orders
  verification-Keeps s l h = verify_each-Keeps _ s (with_status-May _ s.next_id s.orders refl l h) h
