-- ===== src/Zerodha/Once.antt =====
-- How many orders one call of `place_order` may leave at the broker (brokers/zerodha.py): one, and one
-- more for each lookup of the order list that fails.
use stocks_fno.Prelude.{
  ℕ, zero, suc, ◌+◌, ◌≤◌, ◌<◌, ◌≡◌, refl, sym, ◌∙◌, subst, false, Option, none, some, List, String,
  inl, inr, ◌⊎◌, arith, ℕ_discrete, Option-cases,
}
use stocks_fno.Orders.Store.{BrokerOrder, Submission, find_live, present}
use stocks_fno.Zerodha.Place.{
  Kite, Params, Answer, placed, retryable, refused, params_for, tag_for, existing, attempt,
  place_order, find_order_by_tag, settle, reuse,
}

-- What Kite documents. `live` counts the live orders that carry the tag, and `lost` the lookups of the
-- order list that failed.
pub record IsTagged {F W : Type 0} (k : Kite F W) (tag : String) (live lost : W → ℕ) : Type 0 where
  -- a call places at most one order, and is no lookup
  pub place_adds : (p : Params F) (w : W) → live (k.place_order p w).1 ≤ live w + 1
  pub place_asks : (p : Params F) (w : W) → lost (k.place_order p w).1 ≡ lost w
  pub orders_keep : (w : W) → live (k.orders w).1 ≡ live w
  pub orders_count :
      (w : W) → lost (k.orders w).1 ≡ elim (k.orders w).0 [ none ↦ suc (lost w) | some _ ↦ lost w ]
  -- in a list that could be read, a live order is found under its id
  pub orders_list :
      (w : W) (bs : List (BrokerOrder F))
      → (k.orders w).0 ≡ some bs
      → 0 < live w
      → (id : String) × (present (find_live tag bs) ≡ some id)

module _ {F W : Type 0} (k : Kite F W) (tag : String) (live lost : W → ℕ)
    (tagged : IsTagged k tag live lost) where
  -- After the lookup a live order was found, or there is none, or the lookup failed.
  abbrev Looked : W → Option String × W → Type 0
  Looked w (id, w') =
      (live w' ≡ live w)
      × (((lost w' ≡ lost w) × (((i : String) × (id ≡ some i)) ⊎ (live w ≡ 0)))
          ⊎ (lost w' ≡ suc (lost w)))

  existing_lem : (w : W) → Looked w (existing k false (some tag) w)
  unfolding existing find_order_by_tag
  existing_lem w = elim (Option-cases (k.orders w).0) [
    | inl e ↦ (tagged.orders_keep w, inr (tagged.orders_count w ∙ rw e refl))
    | inr (bs, e) ↦ (
      tagged.orders_keep w,
      inl (tagged.orders_count w ∙ rw e refl, found bs e (ℕ_discrete (live w) 0)),
    )
  ]
    where
      found :
          (bs : List (BrokerOrder F))
          → (k.orders w).0 ≡ some bs
          → Dec (live w ≡ 0)
          → ((i : String) × ((existing k false (some tag) w).0 ≡ some i)) ⊎ (live w ≡ 0)
      found bs e (yes z) = inr z
      found bs e (no z) =
          let (i, q) = tagged.orders_list w bs e (omega arith) in
          inl (i, rw (e, existing, find_order_by_tag) q)

  -- The live orders are at most one more than the lookups that failed since `l` had.
  abbrev Bounded : ℕ → W → Type 0
  Bounded l w = (l ≤ lost w) × (live w + l ≤ 1 + lost w)

  settle_once :
      (l : ℕ) (answer : Answer) (w : W) (later : Answer × W)
      → Bounded l w
      → Bounded l later.1
      → Bounded l (settle k answer w later).1
  settle_once l (placed id) w later h h' = h
  settle_once l refused w later h h' = h
  settle_once l retryable w later h h' = h'

  reuse_once :
      (l : ℕ) (id : Option String) (w : W) (otherwise : Answer × W)
      → Bounded l w
      → (((i : String) × (id ≡ some i)) ⊎ Bounded l otherwise.1)
      → Bounded l (reuse k id w otherwise).1
  reuse_once l (some id) w otherwise h c = h
  reuse_once l none w otherwise h (inl (i, e)) = absurd (ground arith)
  reuse_once l none w otherwise h (inr h') = h'

  attempt_once :
      (n l : ℕ) (p : Params F) (w : W)
      → p.tag ≡ some tag
      → Bounded l w
      → Bounded l (attempt k n false p w).1
  unfolding attempt
  attempt_once zero l p w e h = h
  attempt_once (suc n) l p w e (before, h) =
      let (same, c) = subst (λ t. Looked w (existing k false t w)) (sym e) (existing_lem w) in
      let w₁ = (existing k false p.tag w).1 in
      let (answer, w₂) = k.place_order p w₁ in
      let adds = tagged.place_adds p w₁ in
      let asks = tagged.place_asks p w₁ in
      let onward : Bounded l w₂ → Bounded l (settle k answer w₂ (attempt k n false p w₂)).1 =
        λ b. settle_once l answer w₂ _ b (attempt_once n l p w₂ e b) in
      elim c [
        | inl (kept, found) ↦
            reuse_once l (existing k false p.tag w).0 w₁ _ (omega arith, omega arith)
              (elim found [ inl i ↦ inl i | inr z ↦ inr (onward (omega arith, omega arith)) ])
        | inr failed ↦
            reuse_once l (existing k false p.tag w).0 w₁ _ (omega arith, omega arith)
              (inr (onward (omega arith, omega arith)))
      ]

  -- A tagged order for which the broker holds no live order yet leaves at most one there, and one more
  -- for each lookup of the order list that fails during the call, whatever other calls fail after the
  -- broker took the order.
  pub place_order_once :
      (r : Submission F) (w : W)
      → tag_for r ≡ some tag
      → live w ≡ 0
      → let w' = (place_order k r w).1 in live w' + lost w ≤ 1 + lost w'
  unfolding place_order params_for attempt existing
  place_order_once r w e h =
      let p = params_for r in
      let (answer, w₂) = k.place_order p w in
      let adds = tagged.place_adds p w in
      let asks = tagged.place_asks p w in
      let b : Bounded (lost w) w₂ = (omega arith, omega arith) in
      (settle_once (lost w) answer w₂ _ b (attempt_once 2 (lost w) p w₂ e b)).1
