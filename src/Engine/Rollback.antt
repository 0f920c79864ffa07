-- ===== src/Engine/Rollback.antt =====
-- The entry of an iron condor in live_trading/live_trading_engine.py: all of its legs, or none that is
-- kept in silence.
use stocks_fno.Prelude.{
  ◌≡◌, refl, sym, ap, ◌∙◌, subst, true, false, ◌⊎◌, inl, inr, Option, none, some, List, [], ◌∷◌,
  ◌++◌, String, eq_iff, elem, map, get_or_else, Bool-cases, Option-cases, All, All-append, arith,
  if◌then◌else◌,
}
use mathlib.Core.List.{append-nil}
use stocks_fno.Float.{Float}
use stocks_fno.Dict.{insert}
use stocks_fno.Risk.Validate.{buy, sell, is_buy}
use stocks_fno.Orders.Store.{
  opened, pending_verification, same_status, Order, Outside, Oms, Moment, priced,
}
use stocks_fno.Orders.Place.{Request, place_order}
use stocks_fno.Engine.Legs.{is_bad}
use stocks_fno.Engine.State.{Engine, add_to}
use stocks_fno.Engine.Spread.{accepted, is_blocked, unwind_order}
use stocks_fno.Engine.Condor.{
  CondorPlan, CondorAnswers, Placed, Placing, unwind_doubtful, leg_orders, condor_of, place_legs,
  unwind_one, unwind_all, track_condor, after_placing, enter_condor,
}

module _ {F : Type 0} where
  -- an order that the broker has, as far as is known
  abbrev pub IsTaken : Option (Order F) → Type 0
  IsTaken none = ⊥
  IsTaken (some o) =
      (is_bad o.order_status ≡ false) × (same_status o.order_status pending_verification ≡ false)

  abbrev pub IsOpened : Request F × Order F → Type 0
  IsOpened (r, o) = same_status o.order_status opened ≡ true

module _ {F : Type 0} ⦃f : Float F⦄ where
  -- the request that closes a leg again
  abbrev pub closing : CondorAnswers F → Request F → Request F
  closing a r =
      unwind_order r.symbol (if is_buy r.side then sell else buy) r.quantity
        (get_or_else (priced (a.unwind_quote r.symbol)) r.price)

module _ {F : Type 0} ⦃f : Float F⦄ {W : Type 0} (x : Outside F W) where
  -- The way of the order manager through the unwinding of placed legs: one closing order for each, in
  -- turn, that was taken or is in the alerts.
  pub data Unwinds (t : Moment) (a : CondorAnswers F) (alerts : List String)
      : List (Request F) → Oms F W → Oms F W → Type 0 where
    done : (s : Oms F W) → Unwinds t a alerts [] s s
    next :
        (r : Request F) (rs : List (Request F)) (s s' : Oms F W)
        → (elem r.symbol alerts ≡ true) ⊎ IsTaken (place_order x t (closing a r) s).0
        → Unwinds t a alerts rs (place_order x t (closing a r) s).1 s'
        → Unwinds t a alerts (r ∷ rs) s s'

  unwind_one-alerts :
      (t : Moment) (a : CondorAnswers F) (r : Request F) (e : Engine F W) (k : String)
      → elem k e.alerts ≡ true
      → elem k (unwind_one x t a r e).alerts ≡ true
  unwind_one-alerts t a r e k h =
      elim (Bool-cases (unwind_doubtful (place_order x t (closing a r) e.oms).0)) [
        | inl q ↦ rw q (ground (arith, h))
        | inr q ↦ rw q h
      ]

  unwind_one-oms :
      (t : Moment) (a : CondorAnswers F) (r : Request F) (e : Engine F W)
      → (unwind_one x t a r e).oms ≡ (place_order x t (closing a r) e.oms).1
  unwind_one-oms t a r e =
      elim (Bool-cases (unwind_doubtful (place_order x t (closing a r) e.oms).0)) [
        | inl q ↦ rw q refl
        | inr q ↦ rw q refl
      ]

  unwind_all-alerts :
      (t : Moment) (a : CondorAnswers F) (os : Placed F) (e : Engine F W) (k : String)
      → elem k e.alerts ≡ true
      → elem k (unwind_all x t a os e).alerts ≡ true
  unfolding unwind_all
  unwind_all-alerts t a [] e k h = h
  unwind_all-alerts t a ((r, o) ∷ os) e k h =
      unwind_all-alerts t a os (unwind_one x t a r e) k (unwind_one-alerts t a r e k h)

  sure-IsTaken : (o : Option (Order F)) → unwind_doubtful o ≡ false → IsTaken o
  sure-IsTaken none h = absurd (ground arith)
  sure-IsTaken (some o) h = (ground arith, ground arith)

  unwind_one-handled :
      (t : Moment) (a : CondorAnswers F) (r : Request F) (e : Engine F W)
      → (elem r.symbol (unwind_one x t a r e).alerts ≡ true)
        ⊎ IsTaken (place_order x t (closing a r) e.oms).0
  unwind_one-handled t a r e =
      let o = (place_order x t (closing a r) e.oms).0 in
      elim (Bool-cases (unwind_doubtful o)) [
        | inl q ↦ inl (rw q (ground (arith, eq_iff r.symbol r.symbol)))
        | inr q ↦ inr (sure-IsTaken o q)
      ]

  unwind_all-Unwinds :
      (t : Moment) (a : CondorAnswers F) (os : Placed F) (e : Engine F W)
      → let e' = unwind_all x t a os e in Unwinds t a e'.alerts (map (λ z. z.0) os) e.oms e'.oms
  unfolding unwind_all
  unwind_all-Unwinds t a [] e = done e.oms
  unwind_all-Unwinds t a ((r, o) ∷ os) e =
      let e₁ = unwind_one x t a r e in
      let e' = unwind_all x t a os e₁ in
      next r (map (λ z. z.0) os) e.oms e'.oms
        (elim (unwind_one-handled t a r e) [
          | inl h ↦ inl (unwind_all-alerts t a os e₁ r.symbol h)
          | inr h ↦ inr h
        ])
        (subst (λ s. Unwinds t a e'.alerts (map (λ z. z.0) os) s e'.oms) (unwind_one-oms t a r e)
          (unwind_all-Unwinds t a os e₁))

  -- How the loop over the legs ends, where `all` are the requests from the first on.
  abbrev Outcome : List (Request F) → Placing F W → Type 0
  Outcome all q =
      All IsOpened q.placed
      × (((q.refused ≡ none) × (map (λ z. z.0) q.placed ≡ all))
          ⊎ ((o : Option (Order F)) × (q.refused ≡ some o)))

  accepted-opened :
      (o : Option (Order F)) (order : Order F)
      → accepted o ≡ some order
      → same_status order.order_status opened ≡ true
  accepted-opened none order h = absurd (ground (arith, h))
  accepted-opened (some o) order h = elim (Bool-cases (same_status o.order_status opened)) [
    | inl q ↦ subst (λ z. same_status (get_or_else z o).order_status opened ≡ true) (rw q at h) q
    | inr q ↦ absurd (ground (arith, (rw q at h)))
  ]

  requests :
      (os : Placed F) (r : Request F) (order : Order F) (rs : List (Request F))
      → map (λ z. z.0) (os ++ ((r, order) ∷ [])) ++ rs ≡ map (λ z. z.0) os ++ (r ∷ rs)
  requests [] r order rs = refl
  requests (z ∷ os) r order rs = ap (λ l. z.0 ∷ l) (requests os r order rs)

  place_legs-Outcome :
      (t : Moment) (os : Placed F) (rs : List (Request F)) (s : Oms F W)
      → All IsOpened os
      → Outcome (map (λ z. z.0) os ++ rs) (place_legs x t os rs s)
  unfolding place_legs
  place_legs-Outcome t os [] s h = (h, inl (refl, sym (append-nil (map (λ z. z.0) os))))
  place_legs-Outcome t os (r ∷ rs) s h =
      let (o, s') = place_order x t r s in
      elim (Option-cases (accepted o)) [
        | inl q ↦ rw (q, place_legs) (h, inr (o, refl))
        | inr (order, q) ↦
            let placed = os ++ ((r, order) ∷ []) in
            let opened_now =
              All-append IsOpened os ((r, order) ∷ []) h (accepted-opened o order q, tt) in
            rw (q, place_legs)
              (subst (λ l. Outcome l (place_legs x t placed rs s')) (requests os r order rs)
                (place_legs-Outcome t placed rs s' opened_now))
      ]

  -- no row is added or taken out
  unwind_all-condors :
      (t : Moment) (a : CondorAnswers F) (os : Placed F) (e : Engine F W)
      → (unwind_all x t a os e).active_condors ≡ e.active_condors
  unfolding unwind_all
  unwind_all-condors t a [] e = refl
  unwind_all-condors t a ((r, o) ∷ os) e =
      unwind_all-condors t a os (unwind_one x t a r e)
      ∙ elim (Bool-cases (unwind_doubtful (place_order x t (closing a r) e.oms).0)) [
        | inl q ↦ rw q refl
        | inr q ↦ rw q refl
      ]

  pub refused-same :
      (t : Moment) (p : CondorPlan F) (a : CondorAnswers F) (os : Placed F) (o : Option (Order F))
      (e : Engine F W)
      → (after_placing x t p a os (some o) e).active_condors ≡ e.active_condors
  refused-same t p a os o e =
      unwind_all-condors t a os _
      ∙ elim (Bool-cases (is_blocked o)) [ inl q ↦ rw q refl | inr q ↦ rw q refl ]

  after_placing-ends :
      (t : Moment) (p : CondorPlan F) (a : CondorAnswers F) (os : Placed F)
      (refused : Option (Option (Order F))) (e : Engine F W)
      → ((refused ≡ none) × (map (λ z. z.0) os ≡ leg_orders p))
        ⊎ ((o : Option (Order F)) × (refused ≡ some o))
      → let e' = after_placing x t p a os refused e in
        ((map (λ z. z.0) os ≡ leg_orders p)
          × (e'.active_condors ≡ insert p.symbol (condor_of p a os) e.active_condors))
        ⊎ ((e'.active_condors ≡ e.active_condors)
            × Unwinds t a e'.alerts (map (λ z. z.0) os) e.oms e'.oms)
  unfolding track_condor
  after_placing-ends t p a os none e (inl (n, all)) = inl (all, refl)
  after_placing-ends t p a os none e (inr (o, r)) = absurd (ground (arith, r))
  after_placing-ends t p a os (some o) e (inl (n, all)) = absurd (ground (arith, n))
  after_placing-ends t p a os (some o) e (inr r) =
      let e₀ =
        if is_blocked o then record e { exited_today = add_to p.symbol e.exited_today } else e in
      let same : e₀.oms ≡ e.oms = elim (Bool-cases (is_blocked o)) [
        | inl q ↦ rw q refl
        | inr q ↦ rw q refl
      ] in
      let e' = unwind_all x t a os e₀ in
      inr (
        refused-same t p a os o e,
        subst (λ s. Unwinds t a e'.alerts (map (λ z. z.0) os) s e'.oms) same
            (unwind_all-Unwinds t a os e₀),
      )

  -- An entry of an iron condor either has all four legs, each with an OPEN order, and records the condor
  -- with their fills. Or it records none, and from the order that was not accepted on the order manager
  -- gets exactly one closing order for each leg that was placed, in turn: for each there is an alert,
  -- or the order manager took the closing order and it is neither refused, cancelled or failed nor left
  -- unverified.
  pub condor_all_or_nothing :
      (t : Moment) (p : CondorPlan F) (a : CondorAnswers F) (e : Engine F W)
      → let q = place_legs x t [] (leg_orders p) e.oms in
        let e' = enter_condor x t p a e in
        All IsOpened q.placed
        × (((map (λ z. z.0) q.placed ≡ leg_orders p)
              × (e'.active_condors ≡ insert p.symbol (condor_of p a q.placed) e.active_condors))
            ⊎ ((e'.active_condors ≡ e.active_condors)
                × Unwinds t a e'.alerts (map (λ z. z.0) q.placed) q.oms e'.oms))
  unfolding enter_condor
  condor_all_or_nothing t p a e =
      let q = place_legs x t [] (leg_orders p) e.oms in
      let (opens, end) = place_legs-Outcome t [] (leg_orders p) e.oms tt in
      (opens, after_placing-ends t p a q.placed q.refused (record e { oms = q.oms }) end)
