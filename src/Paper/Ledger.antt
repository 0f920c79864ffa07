-- ===== src/Paper/Ledger.antt =====
-- The orders of `PaperBroker` against its positions (paper_trading/paper_broker.py).
use stocks_fno.Prelude.{
  ◌≡◌, refl, false, none, some, List, [], ◌∷◌, String, str_eq, if◌then◌else◌, arith, eq_iff,
  Bool-cases, Option-cases, inl, inr, ap, sym, ◌∙◌,
}
use stocks_fno.Int.{ℤ, pos, ◌+ℤ◌, +ℤ_assoc, +ℤ_zero, int_laws}
use stocks_fno.Dict.{Dict, lookup, insert, lookup-insert}
use stocks_fno.Float.{Float}
use stocks_fno.Paper.Positions.{signed, position_of, position_of-update_position}
use stocks_fno.Paper.Calls.{Call, places, cancels, modifies, step, run, place_order_cases}
use stocks_fno.Paper.Broker.{
  completed, Order, Broker, Request, init, fill_of, order_of, execute, place_order, cancel_found,
  cancel_order, modify_order,
}

module _ {F : Type 0} ⦃f : Float F⦄ where
  -- the signed quantity of the orders for a symbol
  unfoldable pub net_ordered : String → Dict (Order F) → ℤ
  net_ordered s [] = pos 0
  net_ordered s ((_, o) ∷ os) =
      (if str_eq o.symbol s then signed o.side o.filled_quantity else pos 0) +ℤ net_ordered s os

  -- The positions are those that the recorded orders add up to, and every order is completed.
  pub record IsBalanced (b : Broker F) : Type 0 where
    pub agree : (s : String) → (position_of b.positions s).quantity ≡ net_ordered s b.orders
    pub all_completed :
        (id : String) (o : Order F) → lookup id b.orders ≡ some o → o.status ≡ completed

  -- Each new order's id is new: `uuid.uuid4()` repeats none.
  unfoldable pub AreFresh : Broker F → List (Call F) → Type 0
  AreFresh b [] = Unit
  AreFresh b (places r ∷ cs) = (lookup r.order_id b.orders ≡ none) × AreFresh (step b (places r)) cs
  AreFresh b (cancels id ∷ cs) = AreFresh (step b (cancels id)) cs
  AreFresh b (modifies id p q ∷ cs) = AreFresh (step b (modifies id p q)) cs

  net_ordered-insert :
      (s id : String) (o : Order F) (os : Dict (Order F))
      → lookup id os ≡ none
      → net_ordered s (insert id o os)
        ≡ net_ordered s os +ℤ (if str_eq o.symbol s then signed o.side o.filled_quantity else pos 0)
  unfolding net_ordered insert lookup
  net_ordered-insert s id o [] e = omega int_laws
  net_ordered-insert s id o ((j, p) ∷ os) e = elim (Bool-cases (str_eq j id)) [
    | inl same ↦ ground arith
    | inr other ↦
        let x : ℤ = if str_eq p.symbol s then signed p.side p.filled_quantity else pos 0 in
        rw other (
          ap (λ n. x +ℤ n) (net_ordered-insert s id o os (ground arith))
          ∙ sym (+ℤ_assoc x (net_ordered s os) _))
  ]

  execute-IsBalanced :
      (b : Broker F) (r : Request F)
      → lookup r.order_id b.orders ≡ none
      → IsBalanced b
      → IsBalanced (execute b r)
  unfolding execute order_of
  execute-IsBalanced b r fresh h = record {
    agree = λ s.
        let fill = fill_of r in
        let p = position_of-update_position b.positions r.symbol s r.side r.quantity fill in
        rw (net_ordered-insert s r.order_id (order_of r) b.orders fresh)
          (elim (Bool-cases (str_eq r.symbol s)) [
            | inl same ↦
                let e = (eq_iff r.symbol s).0 same in
                rw (same, ← e) (p.0 ∙ ap (λ n. n +ℤ signed r.side r.quantity) (h.agree r.symbol))
            | inr other ↦ rw (other, p.2 other) (h.agree s ∙ sym (+ℤ_zero (net_ordered s b.orders)))
          ]);
    all_completed = λ id o e.
        ground (arith, lookup-insert id r.order_id (order_of r) b.orders, h.all_completed id o);
  }

  cancel_refused : (b : Broker F) (id : String) → IsBalanced b → cancel_order b id ≡ (false, b)
  unfolding cancel_order
  cancel_refused b id h = elim (Option-cases (lookup id b.orders)) [
    | inl e ↦ rw (e, cancel_order)
    | inr (o, e) ↦ rw (e, cancel_order) (rw (h.all_completed id o e, cancel_found))
  ]

  init-IsBalanced : (balance : F) → IsBalanced (init balance)
  unfolding init lookup position_of net_ordered
  init-IsBalanced balance = record { agree = λ s. refl; all_completed = λ id o e. cc }

  run_from-IsBalanced :
      (b : Broker F) (cs : List (Call F)) → AreFresh b cs → IsBalanced b → IsBalanced (run b cs)
  unfolding run step AreFresh modify_order
  run_from-IsBalanced b [] fresh h = h
  run_from-IsBalanced b (places r ∷ cs) (new, fresh) h =
      run_from-IsBalanced (place_order b r).1 cs fresh
        (place_order_cases IsBalanced b r h (execute-IsBalanced b r new h))
  run_from-IsBalanced b (cancels id ∷ cs) fresh h =
      run_from-IsBalanced (cancel_order b id).1 cs fresh (rw (cancel_refused b id h) h)
  run_from-IsBalanced b (modifies id p q ∷ cs) fresh h = run_from-IsBalanced b cs fresh h

  -- From a new broker on, after any calls whose new orders have new ids, the quantity of every
  -- position is the sum of the signed quantities of the recorded orders for its symbol, every
  -- recorded order is completed, and a further `cancel_order` refuses and changes nothing.
  pub run-IsBalanced :
      (balance : F) (cs : List (Call F)) (id : String)
      → AreFresh (init balance) cs
      → IsBalanced (run (init balance) cs)
        × (cancel_order (run (init balance) cs) id ≡ (false, run (init balance) cs))
  run-IsBalanced balance cs id fresh =
      let h = run_from-IsBalanced (init balance) cs fresh (init-IsBalanced balance) in
      (h, cancel_refused (run (init balance) cs) id h)
