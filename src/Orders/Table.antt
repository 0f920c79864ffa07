-- ===== src/Orders/Table.antt =====
-- The rows of `orders` (database/repositories/base.py): their keys, and what a write to one row leaves
-- alone.
use stocks_fno.Prelude.{
  ℕ, ◌<◌, ◌≡◌, ◌≢◌, refl, sym, ap, ap₂, ◌∙◌, subst, Bool, true, false, not, ◌&&◌, ◌||◌, ◌⊎◌, none,
  some, List, [], ◌∷◌, get_or_else, ◌==◌, ==_iff, Bool-cases, inl, inr, All, All-map, arith, map,
}
use stocks_fno.Orders.Store.{
  OrderStatus, same_status, is_terminal, opened, pending, pending_verification, rejected_by_risk,
  present, Order, get_by_id, update_row, with_status,
}

-- Keys are handed out in order, so that they fall along the list.
abbrev pub IsKeys : ℕ → List ℕ → Type 0
IsKeys n [] = Unit
IsKeys n (k ∷ ks) = (k < n) × IsKeys k ks

-- the statuses in which an order waits for the broker
abbrev pub is_waiting : OrderStatus → Bool
is_waiting st = same_status st opened || same_status st pending_verification

-- the statuses that the life of a sent order may lead to
abbrev pub is_reached : OrderStatus → Bool
is_reached st = same_status st opened || is_terminal st

module _ {F : Type 0} where
  abbrev pub has_key : Order F → Bool
  has_key o = elim (present o.broker_order_id) [ none ↦ false | some _ ↦ true ]

  -- An order that no later call moves: it is finished, or never reached the broker.
  abbrev pub is_fixed : Order F → Bool
  is_fixed o =
      is_terminal o.order_status
      || ((same_status o.order_status pending || same_status o.order_status rejected_by_risk)
          && not (has_key o))

  is_fixed-other :
      (o : Order F) (st : OrderStatus)
      → is_fixed o ≡ true
      → is_waiting st ≡ true
      → same_status o.order_status st ≡ false
  is_fixed-other o st u e = ground arith

  abbrev pub ids : List (Order F) → List ℕ
  ids os = map (λ o. o.id) os

  -- A table that holds the finished row `r` under the key `i`.
  pub record Holds (i : ℕ) (r : Order F) (n : ℕ) (os : List (Order F)) : Type 0 where
    pub keys : IsKeys n (ids os)
    pub row : get_by_id i os ≡ some r
    pub finished : is_terminal r.order_status ≡ true

  -- What one write does to a row of an order that was sent.
  pub record Turns (p q : Order F) : Type 0 where
    pub id : q.id ≡ p.id
    pub symbol : q.symbol ≡ p.symbol
    pub side : q.side ≡ p.side
    pub quantity : q.quantity ≡ p.quantity
    pub price : q.price ≡ p.price
    pub status : (q.order_status ≡ p.order_status) ⊎ (is_reached q.order_status ≡ true)

  -- a table in which the row under the key `i` satisfies `P`
  pub record Has (P : Order F → Type 0) (i n : ℕ) (os : List (Order F)) : Type 0 where
    pub keys : IsKeys n (ids os)
    pub row : Order F
    pub found : get_by_id i os ≡ some row
    pub holds : P row

  -- `P` outlasts the calls: it is of rows that do not move, or it is closed under their turns.
  abbrev pub IsFixed : (Order F → Type 0) → Type 0
  IsFixed P = (p : Order F) → P p → is_fixed p ≡ true

  abbrev pub IsClosed : (Order F → Type 0) → Type 0
  IsClosed P = (p q : Order F) → Turns p q → P p → P q

  abbrev pub IsLasting : (Order F → Type 0) → Type 0
  IsLasting P = IsFixed P ⊎ IsClosed P

  -- A turn of the row `j` leaves `P` of the row `i` true.
  abbrev pub May : (Order F → Type 0) → ℕ → ℕ → Type 0
  May P i j = (i ≢ j) ⊎ IsClosed P

  ids-update_row :
      (j : ℕ) (g : Order F → Order F)
      → ((o : Order F) → (g o).id ≡ o.id)
      → (os : List (Order F)) → ids (update_row j g os) ≡ ids os
  unfolding update_row
  ids-update_row j g e [] = refl
  ids-update_row j g e (o ∷ os) = elim (Bool-cases (o.id == j)) [
    | inl q ↦ rw q (ap₂ (λ a b. a ∷ b) (e o) (ids-update_row j g e os))
    | inr q ↦ rw q (ap (λ b. o.id ∷ b) (ids-update_row j g e os))
  ]

  get_by_id-update_row :
      (i j : ℕ) (g : Order F → Order F)
      → ((o : Order F) → (g o).id ≡ o.id)
      → i ≢ j
      → (os : List (Order F)) → get_by_id i (update_row j g os) ≡ get_by_id i os
  unfolding get_by_id update_row
  get_by_id-update_row i j g e ne [] = refl
  get_by_id-update_row i j g e ne (o ∷ os) = elim (Bool-cases (o.id == j)) [
    | inl q ↦
        let miss : (o.id == i) ≡ false = ground arith in
        let miss' : ((g o).id == i) ≡ false = rw (e o) miss in
        rw (q, miss, miss') (get_by_id-update_row i j g e ne os)
    | inr q ↦ rw q (elim (Bool-cases (o.id == i)) [
      | inl h ↦ rw h refl
      | inr h ↦ rw h (get_by_id-update_row i j g e ne os)
    ])
  ]

  get_by_id-update_row_self :
      (i : ℕ) (g : Order F → Order F)
      → ((o : Order F) → (g o).id ≡ o.id)
      → (os : List (Order F)) (p : Order F) → get_by_id i os ≡ some p
      → get_by_id i (update_row i g os) ≡ some (g p)
  unfolding get_by_id update_row
  get_by_id-update_row_self i g e [] p h = absurd (ground arith)
  get_by_id-update_row_self i g e (o ∷ os) p h = elim (Bool-cases (o.id == i)) [
    | inl q ↦
        let hit : ((g o).id == i) ≡ true = rw (e o) q in
        rw (q, hit) (ap (λ z. some (g (get_or_else z o))) (rw q at h))
    | inr q ↦ rw (q, q) (get_by_id-update_row_self i g e os p (rw q at h))
  ]

  pub update_row-Has :
      {P : Order F → Type 0} {i n : ℕ} (os : List (Order F)) (j : ℕ) (g : Order F → Order F)
      → ((o : Order F) → (g o).id ≡ o.id)
      → (i ≢ j) ⊎ ((p : Order F) → P p → P (g p))
      → Has P i n os
      → Has P i n (update_row j g os)
  update_row-Has {P} {i} {n} os j g e c h =
      let keys = subst (IsKeys n) (sym (ids-update_row j g e os)) h.keys in
      elim (Bool-cases (i == j)) [
        | inl q ↦
            let same : i ≡ j = (==_iff i j).0 q in
            elim c [
              | inl ne ↦ absurd (ne same)
              | inr f ↦ record {
                keys = keys;
                row = g h.row;
                found =
                    subst (λ k. get_by_id i (update_row k g os) ≡ some (g h.row)) same
                      (get_by_id-update_row_self i g e os h.row h.found);
                holds = f h.row h.holds;
              }
            ]
        | inr q ↦ record {
          keys = keys;
          row = h.row;
          found = get_by_id-update_row i j g e (ground arith) os ∙ h.found;
          holds = h.holds;
        }
      ]

  -- A write to the row itself.
  pub update_row-turn :
      {P Q : Order F → Type 0} {i n : ℕ} (os : List (Order F)) (j : ℕ) (g : Order F → Order F)
      → ((o : Order F) → (g o).id ≡ o.id)
      → j ≡ i
      → ((p : Order F) → P p → Q (g p))
      → Has P i n os
      → Has Q i n (update_row j g os)
  update_row-turn {P} {Q} {i} {n} os j g e same turn h = record {
    keys = subst (IsKeys n) (sym (ids-update_row j g e os)) h.keys;
    row = g h.row;
    found =
        subst (λ k. get_by_id i (update_row k g os) ≡ some (g h.row)) (sym same)
          (get_by_id-update_row_self i g e os h.row h.found);
    holds = turn h.row h.holds;
  }

  -- Every row found stands under its key, and below the next one.
  pub get_by_id-id :
      (j : ℕ) (o : Order F) (os : List (Order F))
      → o.id ≡ j
      → (get_or_else (get_by_id j os) o).id ≡ j
  unfolding get_by_id
  get_by_id-id j o [] e = e
  get_by_id-id j o (p ∷ os) e = elim (Bool-cases (p.id == j)) [
    | inl q ↦ rw q ((==_iff p.id j).0 q)
    | inr q ↦ rw q (get_by_id-id j o os e)
  ]

  pub get_by_id-found :
      (j : ℕ) (o : Order F) (os : List (Order F)) → get_by_id j os ≡ some o → o.id ≡ j
  unfolding get_by_id
  get_by_id-found j o [] e = absurd (ground arith)
  get_by_id-found j o (p ∷ os) e = elim (Bool-cases (p.id == j)) [
    | inl q ↦ sym (ap (λ z. (get_or_else z o).id) (rw q at e)) ∙ (==_iff p.id j).0 q
    | inr q ↦ get_by_id-found j o os (rw q at e)
  ]

  pub get_by_id-lt :
      (i n : ℕ) (os : List (Order F)) (p : Order F)
      → IsKeys n (ids os)
      → get_by_id i os ≡ some p
      → i < n
  unfolding get_by_id
  get_by_id-lt i n [] p k h = absurd (ground arith)
  get_by_id-lt i n (o ∷ os) p (l, k) h = elim (Bool-cases (o.id == i)) [
    | inl q ↦ ground arith
    | inr q ↦ omega (arith, get_by_id-lt i o.id os p k (rw q at h))
  ]

  pub with_status-lt :
      (st : OrderStatus) (n : ℕ) (os : List (Order F))
      → IsKeys n (ids os)
      → All (λ o. o.id < n) (with_status st os)
  unfolding with_status
  with_status-lt st n [] k = tt
  with_status-lt st n (o ∷ os) (l, k) =
      let rest = All-map (λ p h. omega arith) _ (with_status-lt st o.id os k) in
      elim (Bool-cases (same_status o.order_status st)) [
        | inl q ↦ rw q (l, rest)
        | inr q ↦ rw q rest
      ]

  -- A fixed row is not among those that wait.
  with_status-other :
      (i : ℕ) (st : OrderStatus) (n : ℕ) (os : List (Order F)) (p : Order F)
      → is_waiting st ≡ true
      → is_fixed p ≡ true
      → IsKeys n (ids os)
      → get_by_id i os ≡ some p
      → All (λ o. i ≢ o.id) (with_status st os)
  unfolding with_status get_by_id
  with_status-other i st n [] p u x k h = tt
  with_status-other i st n (o ∷ os) p u x (l, k) h = elim (Bool-cases (o.id == i)) [
    | inl q ↦
        let same : o ≡ p = ap (λ z. get_or_else z o) (rw q at h) in
        let fixed : is_fixed o ≡ true = ap is_fixed same ∙ x in
        rw (is_fixed-other o st fixed u)
          (All-map (λ z b. ground arith) _ (with_status-lt st o.id os k))
    | inr q ↦
        let rest = with_status-other i st o.id os p u x k (rw q at h) in
        elim (Bool-cases (same_status o.order_status st)) [
          | inl e ↦ rw e (ground arith, rest)
          | inr e ↦ rw e rest
        ]
  ]

  All-always : {Q : Order F → Type 0} → ((o : Order F) → Q o) → (os : List (Order F)) → All Q os
  All-always f [] = tt
  All-always f (o ∷ os) = (f o, All-always f os)

  -- The orders that a loop over waiting rows turns may be turned.
  pub with_status-May :
      {P : Order F → Type 0} {i : ℕ} (st : OrderStatus) (n : ℕ) (os : List (Order F))
      → is_waiting st ≡ true
      → IsLasting P
      → Has P i n os
      → All (λ o. May P i o.id) (with_status st os)
  with_status-May st n os u (inr c) h = All-always (λ o. inr c) _
  with_status-May {i = i} st n os u (inl f) h =
      All-map (λ o ne. inl ne) _
        (with_status-other i st n os h.row u (f h.row h.holds) h.keys h.found)
