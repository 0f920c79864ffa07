-- ===== src/Orders/Sweep.antt =====
-- What a sweep over the unverified orders (orders/order_manager.py) makes of each row.
use stocks_fno.Prelude.{
  ℕ, ◌≡◌, ◌≢◌, refl, sym, ap, ◌∙◌, subst, true, false, ◌⊎◌, inl, inr, Option, none, some, List, [],
  ◌∷◌, ◌++◌, String, ◌==◌, ==_iff, get_or_else, Bool-cases, All, All-map, arith,
}
use stocks_fno.Float.{Float}
use stocks_fno.Orders.Store.{
  failed, pending_verification, same_status, Order, Outside, Oms, get_by_id, with_status,
}
use stocks_fno.Orders.Place.{update, live_under, set_status, set_opened, reconcile_after_timeout}
use stocks_fno.Orders.Sync.{verified, verify_each, retry_pending_verification_orders}
use stocks_fno.Orders.Table.{IsKeys, ids, update_row-turn, with_status-lt, get_by_id-found}
use stocks_fno.Orders.Settled.{
  table, Keeps, Keeps-same, table-note, table-add_capital, verify_each-Keeps,
}

module _ {F : Type 0} where
  -- Where the row of the key `i` stands among the unverified ones: nowhere, or at one place.
  Standing : ℕ → Order F → List (Order F) → Type 0
  Standing i r os =
      ((same_status r.order_status pending_verification ≡ false) × All (λ o. i ≢ o.id) os)
      ⊎ ((same_status r.order_status pending_verification ≡ true)
          × ((front : List (Order F)) × (back : List (Order F)) × (os ≡ front ++ (r ∷ back))
              × All (λ o. i ≢ o.id) front
              × All (λ o. i ≢ o.id) back))

  Standing-after :
      (i : ℕ) (r o : Order F) (os : List (Order F))
      → i ≢ o.id
      → Standing i r os
      → Standing i r (o ∷ os)
  unfolding Standing
  Standing-after i r o os ne (inl (p, a)) = inl (p, (ne, a))
  Standing-after i r o os ne (inr (p, (front, back, e, a, b))) =
      inr (p, (o ∷ front, back, ap (λ z. o ∷ z) e, (ne, a), b))

  unverified-Standing :
      (i n : ℕ) (r : Order F) (os : List (Order F))
      → IsKeys n (ids os)
      → get_by_id i os ≡ some r
      → Standing i r (with_status pending_verification os)
  unfolding with_status get_by_id Standing
  unverified-Standing i n r [] k h = absurd (ground (arith, h))
  unverified-Standing i n r (o ∷ os) (l, k) h = elim (Bool-cases (o.id == i)) [
    | inl q ↦
        let same : o ≡ r = ap (λ z. get_or_else z o) (rw q at h) in
        let id : o.id ≡ i = (==_iff o.id i).0 q in
        let others : All (λ p. i ≢ p.id) (with_status pending_verification os) =
          All-map (λ p b. ground arith) _ (with_status-lt pending_verification o.id os k) in
        elim (Bool-cases (same_status o.order_status pending_verification)) [
          | inl e ↦ rw e (
              inr (
                subst (λ z. same_status z.order_status pending_verification ≡ true) same e,
                (
                  [],
                  with_status pending_verification os,
                  ap (λ z. z ∷ with_status pending_verification os) same,
                  tt,
                  others,
                ),
              ))
          | inr e ↦ rw e (
              inl (
                subst (λ z. same_status z.order_status pending_verification ≡ false) same e,
                others,
              ))
        ]
    | inr q ↦
        let rest = unverified-Standing i o.id r os k (rw q at h) in
        elim (Bool-cases (same_status o.order_status pending_verification)) [
          | inl e ↦ rw e (Standing-after i r o _ (ground (arith, q)) rest)
          | inr e ↦ rw e rest
        ]
  ]

module _ {F : Type 0} ⦃f : Float F⦄ {W : Type 0} (x : Outside F W) where
  -- What the answer to a row's lookup makes of it.
  pub data Turned (r : Order F) : Option (Option String) → Order F → Type 0 where
    waits : Turned r none r
    lost : Turned r (some none) (set_status failed r)
    live : (b : String) → Turned r (some (some b)) (set_opened b r)

  -- What the sweep from `s` makes of the row `r` under the key `i`: an unverified one is turned by the
  -- broker's answer at the moment when the rows listed before it are verified, and any other rests.
  pub data Swept (s : Oms F W) (i : ℕ) (r : Order F) : Order F → Type 0 where
    rests : same_status r.order_status pending_verification ≡ false → Swept s i r r
    asked :
        {r' : Order F} (front back : List (Order F))
        → with_status pending_verification s.orders ≡ front ++ (r ∷ back)
        → Turned r (live_under i (x.get_orders (verify_each x front s).world).0) r'
        → Swept s i r r'

  verify_each-append :
      (os ps : List (Order F)) (s : Oms F W)
      → verify_each x (os ++ ps) s ≡ verify_each x ps (verify_each x os s)
  unfolding verify_each
  verify_each-append [] ps s = refl
  verify_each-append (o ∷ os) ps s = verify_each-append os ps _

  verified-Turned :
      (i : ℕ) (r : Order F) (answer : Option (Option String)) (s : Oms F W)
      → r.id ≡ i
      → Keeps (λ p. p ≡ r) i (table s)
      → Keeps (Turned r answer) i (table (verified x r answer s))
  unfolding verified update
  verified-Turned i r none s id h = record {
    keys = h.keys;
    row = h.row;
    found = h.found;
    holds = subst (Turned r none) (sym h.holds) waits;
  }
  verified-Turned i r (some none) s id h = Keeps-same (table-note x _ _ _) (
      update_row-turn s.orders r.id (set_status failed) (λ o. refl) id
        (λ p q. subst (λ z. Turned r (some none) (set_status failed z)) (sym q) lost) h)
  verified-Turned i r (some (some b)) s id h =
      Keeps-same (table-add_capital x r _ ∙ table-note x _ _ _) (
        update_row-turn s.orders r.id (set_opened b) (λ o. refl) id
          (λ p q. subst (λ z. Turned r (some (some b)) (set_opened b z)) (sym q) (live b)) h)

  verify_each-Turned :
      (i : ℕ) (r : Order F) (front back : List (Order F)) (s : Oms F W)
      → r.id ≡ i
      → All (λ o. i ≢ o.id) front
      → All (λ o. i ≢ o.id) back
      → Keeps (λ p. p ≡ r) i (table s)
      → Keeps
          (Turned r (live_under i (x.get_orders (verify_each x front s).world).0))
          i
          (table (verify_each x (front ++ (r ∷ back)) s))
  unfolding verify_each reconcile_after_timeout
  verify_each-Turned i r front back s id a b h =
      let s₁ = verify_each x front s in
      let asked_of = λ (j : ℕ). live_under j (x.get_orders s₁.world).0 in
      let s₂ : Oms F W = record s₁ { world = (x.get_orders s₁.world).1 } in
      let k = verify_each-Keeps x front s (All-map (λ o ne. inl ne) front a) h in
      let turned = verified-Turned i r (asked_of r.id) s₂ id k in
      subst (λ z. Keeps (Turned r (asked_of i)) i (table z))
        (sym (verify_each-append front (r ∷ back) s))
        (verify_each-Keeps x back (verified x r (asked_of r.id) s₂)
          (All-map (λ o ne. inl ne) back b)
          (subst (λ j. Keeps (Turned r (asked_of j)) i (table (verified x r (asked_of r.id) s₂))) id
            turned))

  -- Where the keys of the table were handed out in order, a sweep leaves every row that is not
  -- PENDING_VERIFICATION as it was, and changes nothing of one that is but its status and its broker
  -- key, by the broker's answer once the rows listed before it are verified: it is FAILED where no live
  -- order is listed for it, OPEN under the key of the order that is, and unchanged without an answer.
  pub sweep_settles :
      (s : Oms F W) (i : ℕ) (r : Order F)
      → IsKeys s.next_id (ids s.orders)
      → get_by_id i s.orders ≡ some r
      → (r' : Order F) × (get_by_id i (retry_pending_verification_orders x s).orders ≡ some r')
        × Swept s i r r'
  unfolding retry_pending_verification_orders Standing
  sweep_settles s i r k e =
      let here : Keeps (λ p. p ≡ r) i (table s) = record {
        keys = k;
        row = r;
        found = e;
        holds = refl;
      } in
      elim (unverified-Standing i s.next_id r s.orders k e) [
        | inl (p, a) ↦
            let h = verify_each-Keeps x _ s (All-map (λ o ne. inl ne) _ a) here in
            (h.row, h.found, subst (Swept s i r) (sym h.holds) (rests p))
        | inr (p, (front, back, q, a, b)) ↦
            let h = verify_each-Turned i r front back s (get_by_id-found i r s.orders e) a b here in
            let found =
              subst (λ z. get_by_id i (verify_each x z s).orders ≡ some h.row) (sym q) h.found in
            (h.row, found, asked front back q h.holds)
      ]
