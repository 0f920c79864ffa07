-- ===== src/Paper/Calls.antt =====
-- Histories of `PaperBroker` calls (paper_trading/paper_broker.py), and the rules for proofs about
-- them.
use stocks_fno.Prelude.{List, [], ◌∷◌, String, Bool-cases, Option-cases, inl, inr}
use stocks_fno.Int.{ℤ}
use stocks_fno.Dict.{Dict, lookup, insert}
use stocks_fno.Float.{Float}
use stocks_fno.Paper.Fills.{is_rejected}
use stocks_fno.Paper.Broker.{
  Status, completed, cancelled, Order, Broker, Request, lacks_funds, lacks_margin, execute,
  place_order, cancel_found, cancel_order, modify_order,
}

-- the calls that may change a `PaperBroker`
pub data Call (F : Type 0) : Type 0 where
  places : Request F → Call F
  cancels : String → Call F
  modifies : String → F → ℤ → Call F

module _ {F : Type 0} ⦃f : Float F⦄ where
  unfoldable pub step : Broker F → Call F → Broker F
  step b (places r) = (place_order b r).1
  step b (cancels id) = (cancel_order b id).1
  step b (modifies id p q) = (modify_order b id p q).1

  unfoldable pub run : Broker F → List (Call F) → Broker F
  run b [] = b
  run b (c ∷ cs) = run (step b c) cs

  pub run_induction :
      (P : Broker F → Type 0)
      → ((b : Broker F) (c : Call F) → P b → P (step b c))
      → (b : Broker F) (cs : List (Call F)) → P b
      → P (run b cs)
  unfolding run
  run_induction P keep b [] h = h
  run_induction P keep b (c ∷ cs) h = run_induction P keep (step b c) cs (keep b c h)

  pub place_order_cases :
      (P : Broker F → Type 0) (b : Broker F) (r : Request F)
      → P b
      → P (execute b r)
      → P (place_order b r).1
  unfolding place_order
  place_order_cases P b r same done = elim (Bool-cases (is_rejected r.price r.reject_draw)) [
    | inl e ↦ rw e same
    | inr e ↦ elim (Bool-cases (lacks_funds b r)) [
      | inl e' ↦ rw (e, e') same
      | inr e' ↦ elim (Bool-cases (lacks_margin b r)) [
        | inl e'' ↦ rw (e, e', e'') same
        | inr e'' ↦ rw (e, e', e'') done
      ]
    ]
  ]

  cancel_found_cases :
      (P : Broker F → Type 0) (b : Broker F) (id : String) (o : Order F) (s : Status)
      → P b
      → ((os : Dict (Order F)) → P (record b { orders = os }))
      → P (cancel_found b id o s).1
  unfolding cancel_found
  cancel_found_cases P b id o completed same done = same
  cancel_found_cases P b id o cancelled same done =
      done (insert id (record o { status = cancelled }) b.orders)

  pub cancel_order_cases :
      (P : Broker F → Type 0) (b : Broker F) (id : String)
      → P b
      → ((os : Dict (Order F)) → P (record b { orders = os }))
      → P (cancel_order b id).1
  unfolding cancel_order
  cancel_order_cases P b id same done = elim (Option-cases (lookup id b.orders)) [
    | inl e ↦ rw (e, cancel_order) same
    | inr (o, e) ↦ rw (e, cancel_order) (cancel_found_cases P b id o o.status same done)
  ]
