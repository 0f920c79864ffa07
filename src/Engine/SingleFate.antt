-- ===== src/Engine/SingleFate.antt =====
-- What becomes of the exit of a single option (live_trading/live_trading_engine.py).
use stocks_fno.Prelude.{
  ℕ, ◌≡◌, refl, sym, ap, ◌∙◌, if◌then◌else◌, ◌==◌, ==_iff, [], Bool, true, false, not, ◌||◌, ◌&&◌,
  Bool-cases, Option-cases, ◌⊎◌, inl, inr, Option, none, some, List, ◌∷◌, subst, String, elem,
  eq_iff, get_or_else, arith,
}
use stocks_fno.Dict.{lookup, lookup-remove, lookup-insert_self}
use stocks_fno.Float.{Float, nought}
use stocks_fno.Risk.Manager.{release_deployed_capital}
use stocks_fno.Orders.Store.{
  rejected_by_risk, failed, pending_verification, same_status, Order, Outside, Oms, Moment,
  get_by_id,
}
use stocks_fno.Orders.Place.{place_order}
use stocks_fno.Engine.Legs.{
  Resolution, nothing, still_pending, resolved_ok, resolved_bad, is_bad, resolution,
  resolve_pending_exit_order, real_fill,
}
use stocks_fno.Engine.Rebuild.{SingleLeg}
use stocks_fno.Engine.Tracked.{elem-add_to}
use stocks_fno.Engine.Single.{
  Singles, SingleClosing, SingleExit, owner_of, unpend, pend, single_exit_request, single_pnl,
  single_closing, single_cost, close_journal, settle_single, after_exit_order, submit_exit,
  resume_exit, exit_by, execute_single_leg_exit, without_peaks,
}

module _ {F : Type 0} where
  -- An order that closes the option: its outcome is known, and no check or broker refused it.
  abbrev pub is_sold : Option (Order F) → Bool
  is_sold none = false
  is_sold (some o) =
      not (same_status o.order_status pending_verification)
      && not (same_status o.order_status rejected_by_risk || same_status o.order_status failed)

  -- the order that the next exit looks at first
  abbrev pub awaited : Option (Order F) → Option ℕ
  awaited none = none
  awaited (some o) = if same_status o.order_status pending_verification then some o.id else none

  get_by_id-id : (i : ℕ) (o : Order F) (os : List (Order F)) → get_by_id i os ≡ some o → o.id ≡ i
  unfolding get_by_id
  get_by_id-id i o [] e = absurd (ground (arith, e))
  get_by_id-id i o (p ∷ os) e = elim (Bool-cases (p.id == i)) [
    | inl c ↦ subst (λ z. (get_or_else z p).id ≡ i) (rw c at e) ((==_iff p.id i).0 c)
    | inr c ↦ get_by_id-id i o os (rw c at e)
  ]

module _ {F W : Type 0} where
  -- the exit changed nothing of what the option is recorded in
  abbrev pub Kept : Singles F W → Singles F W → Type 0
  Kept s s' =
      (s'.journals ≡ s.journals)
      × (s'.closings ≡ s.closings)
      × (s'.exited_today ≡ s.exited_today)
      × (s'.peak_premiums ≡ s.peak_premiums)
      × (s'.peak_profits ≡ s.peak_profits)

module _ {F : Type 0} ⦃f : Float F⦄ where
  -- the price that the exit counts with
  abbrev pub exit_price : SingleExit F → Option (Order F) → F
  exit_price a none = a.current_p
  exit_price a (some o) = real_fill o a.current_p

  module _ {W : Type 0} where
    -- what the close of an option at the price `p` books, by the row of the journal that it had
    abbrev pub Booked :
        SingleExit F
        → F
        → Option SingleLeg
        → Oms F W
        → List (SingleClosing F)
        → Singles F W
        → Type 0
    Booked a p none m before s' = (s'.closings ≡ before) × (s'.oms ≡ m)
    Booked a p (some info) m before s' =
        (s'.closings ≡ single_closing a p info.journal_id ∷ before)
        × (s'.oms.risk_manager
            ≡ release_deployed_capital m.risk_manager
                (get_or_else info.strategy_name "ema_crossover_v1") (single_cost a))
        × (f.lt (single_pnl a p) nought ≡ true → elem info.underlying s'.exited_today ≡ true)

    abbrev pub Closed : SingleExit F → F → Oms F W → Singles F W → Singles F W → Type 0
    Closed a p m s s' =
        (lookup a.contract s'.journals ≡ none)
        × (lookup a.contract s'.pending_exits ≡ none)
        × Booked a p (lookup a.contract s.journals) m s.closings s'

    -- the outcome, by the order `d` that decides it and the order manager `m` after that order
    abbrev pub Fate :
        SingleExit F → Singles F W → Option (Order F) → Oms F W → Bool × Singles F W → Type 0
    Fate a s d m (ok, s') =
        ((is_sold d ≡ false)
          × (ok ≡ false)
          × Kept s s'
          × (s'.oms ≡ m)
          × (lookup a.contract s'.pending_exits ≡ awaited d))
        ⊎ ((is_sold d ≡ true) × (ok ≡ true) × Closed a (exit_price a d) m s s')

    close_journal-Closed :
        (a : SingleExit F) (p : F) (o : Option SingleLeg) (s : Singles F W)
        → lookup a.contract s.journals ≡ o
        → lookup a.contract s.pending_exits ≡ none
        → (lookup a.contract (close_journal a p o s).journals ≡ none)
          × (lookup a.contract (close_journal a p o s).pending_exits ≡ none)
          × Booked a p o s.oms s.closings (close_journal a p o s)
    unfolding close_journal
    close_journal-Closed a p none s e q = (e, q, (refl, refl))
    close_journal-Closed a p (some info) s e q = (
      ground (arith, lookup-remove a.contract a.contract s.journals, eq_iff a.contract a.contract),
      q,
      (
        refl,
        refl,
        λ c. rw c (
            ground (
              arith,
              elem-add_to info.underlying info.underlying s.exited_today,
              eq_iff info.underlying info.underlying,
            )),
      ),
    )

    settle_single-Fate :
        (a : SingleExit F) (o : Order F) (s : Singles F W)
        → same_status o.order_status pending_verification ≡ false
        → lookup a.contract s.pending_exits ≡ none
        → Fate a s (some o) s.oms (settle_single a o s)
    unfolding settle_single without_peaks
    settle_single-Fate a o s known q =
        let refused =
          same_status o.order_status rejected_by_risk || same_status o.order_status failed in
        elim (Bool-cases refused) [
          | inl e ↦
              rw e
                (inl (rw known refl, refl, (refl, refl, refl, refl, refl), refl, q ∙ rw known refl))
          | inr e ↦ rw e (
              inr (
                rw known refl,
                refl,
                close_journal-Closed a (real_fill o a.current_p) (lookup a.contract s.journals)
                    (without_peaks a.contract s) refl q,
              ))
        ]

    after_exit_order-Fate :
        (a : SingleExit F) (d : Option (Order F)) (s : Singles F W)
        → lookup a.contract s.pending_exits ≡ none
        → Fate a s d s.oms (after_exit_order a d s)
    unfolding after_exit_order pend
    after_exit_order-Fate a none s q = inl (refl, refl, (refl, refl, refl, refl, refl), refl, q)
    after_exit_order-Fate a (some o) s q =
        elim (Bool-cases (same_status o.order_status pending_verification)) [
          | inl e ↦ rw e (
              inl (
                refl,
                refl,
                (refl, refl, refl, refl, refl),
                refl,
                lookup-insert_self a.contract o.id s.pending_exits,
              ))
          | inr e ↦
              let same : after_exit_order a (some o) s ≡ settle_single a o s = rw e refl in
              subst (Fate a s (some o) s.oms) (sym same) (settle_single-Fate a o s e q)
        ]

module _ {F : Type 0} ⦃f : Float F⦄ {W : Type 0} (x : Outside F W) where
  -- the new order of an exit, and the order manager after it
  abbrev pub new_exit :
      Moment → SingleExit F → Option String → Singles F W → Option (Order F) × Oms F W
  new_exit t a owner s = place_order x t (single_exit_request a owner) s.oms

  -- The order that decides an exit: an earlier one that was left unverified, where it is unverified
  -- still or counts as closed now, or else a new one.
  abbrev pub decided :
      Moment
      → SingleExit F
      → Option String
      → Singles F W
      → Resolution F
      → Option (Order F) × Oms F W
  decided t a owner s (still_pending o) = (some o, s.oms)
  decided t a owner s (resolved_ok o) = (some o, s.oms)
  decided t a owner s (resolved_bad o) = new_exit t a owner s
  decided t a owner s nothing = new_exit t a owner s

  abbrev pub decided_by :
      Moment → SingleExit F → Singles F W → Option ℕ → Option (Order F) × Oms F W
  unfolding resolve_pending_exit_order owner_of
  decided_by t a s none = new_exit t a (owner_of a.contract s) s
  decided_by t a s (some id) =
      decided t a (owner_of a.contract s) s (resolve_pending_exit_order (some id) s.oms.orders)

  submit_exit-Fate :
      (t : Moment) (a : SingleExit F) (owner : Option String) (s : Singles F W)
      → lookup a.contract s.pending_exits ≡ none
      → Fate a s (new_exit t a owner s).0 (new_exit t a owner s).1 (submit_exit x t a owner s)
  unfolding submit_exit
  submit_exit-Fate t a owner s q =
      let new = new_exit t a owner s in after_exit_order-Fate a new.0 (record s { oms = new.1 }) q

  unpend-none : (c : String) (s : Singles F W) → lookup c (unpend c s).pending_exits ≡ none
  unfolding unpend
  unpend-none c s = ground (arith, lookup-remove c c s.pending_exits, eq_iff c c)

  -- the outcome of an exit that an earlier order waits for, by what became of that order
  abbrev Decides : Moment → SingleExit F → Option String → Singles F W → Resolution F → Type 0
  Decides t a owner s r =
      Fate a s (decided t a owner s r).0 (decided t a owner s r).1 (resume_exit x t a owner r s)

  anew-Fate :
      (t : Moment) (a : SingleExit F) (owner : Option String) (s : Singles F W)
      → Fate a s
          (new_exit t a owner s).0
          (new_exit t a owner s).1
          (submit_exit x t a owner (unpend a.contract s))
  unfolding unpend
  anew-Fate t a owner s =
      submit_exit-Fate t a owner (unpend a.contract s) (unpend-none a.contract s)

  resolution-Decides :
      (t : Moment) (a : SingleExit F) (owner : Option String) (o : Order F) (s : Singles F W)
      → lookup a.contract s.pending_exits ≡ some o.id
      → Decides t a owner s (resolution o)
  unfolding resume_exit unpend
  resolution-Decides t a owner o s wait =
      elim (Bool-cases (same_status o.order_status pending_verification)) [
        | inl e ↦
            let same : still_pending o ≡ resolution o = rw e refl in
            subst (Decides t a owner s) same
              (inl (rw e refl, refl, (refl, refl, refl, refl, refl), refl, wait ∙ rw e refl))
        | inr e ↦ elim (Bool-cases (is_bad o.order_status)) [
          | inl b ↦
              let same : resolved_bad o ≡ resolution o = rw (e, b) refl in
              subst (Decides t a owner s) same (anew-Fate t a owner s)
          | inr b ↦
              let same : resolved_ok o ≡ resolution o = rw (e, b) refl in
              subst (Decides t a owner s) same
                (settle_single-Fate a o (unpend a.contract s) e (unpend-none a.contract s))
        ]
      ]

  resumed-Decides :
      (t : Moment) (a : SingleExit F) (owner : Option String) (s : Singles F W) (id : ℕ)
      → lookup a.contract s.pending_exits ≡ some id
      → Decides t a owner s (resolve_pending_exit_order (some id) s.oms.orders)
  unfolding resolve_pending_exit_order resume_exit
  resumed-Decides t a owner s id wait =
      let r = resolve_pending_exit_order (some id) s.oms.orders in
      elim (Option-cases (get_by_id id s.oms.orders)) [
        | inl e ↦
            let same : nothing ≡ r = rw (resolve_pending_exit_order, e) refl in
            subst (Decides t a owner s) same (anew-Fate t a owner s)
        | inr (o, e) ↦
            let same : resolution o ≡ r = rw (resolve_pending_exit_order, e) refl in
            let known : some id ≡ some o.id =
              ap (λ z. some z) (sym (get_by_id-id id o s.oms.orders e)) in
            subst (Decides t a owner s) same (resolution-Decides t a owner o s (wait ∙ known))
      ]

  exit_by-Fate :
      (t : Moment) (a : SingleExit F) (s : Singles F W) (p : Option ℕ)
      → lookup a.contract s.pending_exits ≡ p
      → Fate a s (decided_by t a s p).0 (decided_by t a s p).1 (exit_by x t a p s)
  unfolding exit_by decided_by
  exit_by-Fate t a s none e = submit_exit-Fate t a (owner_of a.contract s) s e
  exit_by-Fate t a s (some id) e = resumed-Decides t a (owner_of a.contract s) s id e

  -- The exit of a single option is decided by the order that an earlier exit left unverified, where it
  -- is unverified still or its status is none of REJECTED, REJECTED_BY_RISK, CANCELLED and FAILED, and
  -- else by a new order; no new order is placed beside the earlier one. Where there is no such order, or
  -- it is unverified, refused by the risk check or failed, the exit fails, the records of the option
  -- are as they were, and the order is kept for the next exit exactly where it is unverified. With any
  -- other status, EXPIRED included, the exit succeeds: the option leaves the journals and the
  -- unverified exits and, where it had a row in the journal, one close is written at the price of the
  -- order, the capital of the entry is released once, and the underlying is barred for the day where
  -- the close lost.
  pub execute_single_leg_exit-Fate :
      (t : Moment) (a : SingleExit F) (s : Singles F W)
      → let (d, m) = decided_by t a s (lookup a.contract s.pending_exits) in
        Fate a s d m (execute_single_leg_exit x t a s)
  unfolding execute_single_leg_exit
  execute_single_leg_exit-Fate t a s = exit_by-Fate t a s (lookup a.contract s.pending_exits) refl
