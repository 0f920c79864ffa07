-- ===== src/Engine/Terms.antt =====
-- What one exit check leaves of a structure and of the tables (live_trading/live_trading_engine.py):
-- the terms of its entry, and the tables but for its own row.
use stocks_fno.Prelude.{
  ℕ, ◌≡◌, refl, ap, ap₂, ◌∙◌, Bool, true, false, ◌⊎◌, inl, inr, Option, none, some, List, [], ◌∷◌,
  String, Bool-cases, ◌==◌,
}
use stocks_fno.Int.{ℤ}
use stocks_fno.Dict.{Dict, insert}
use stocks_fno.Float.{Float, nought}
use stocks_fno.Orders.Store.{pending_verification, same_status, Order, Outside, Oms, Moment}
use stocks_fno.Orders.Place.{place_order}
use stocks_fno.Engine.Legs.{
  Leg, Holdings, Attempt, Resolution, nothing, still_pending, resolved_ok, resolved_bad, is_bad,
  is_flat, exit_request, unpended, attempt_of, submit, resume, retry, close_open_leg, unless_stored,
  close_leg,
}
use stocks_fno.Engine.State.{
  Spread, Condor, Reason, Engine, log_trade_close, cancel_gtt, cancel_gtts, count_adverse, conclude,
}
use stocks_fno.Engine.Condor.{
  Quotes, Attempts, condor_after, alert_once, settle_condor, close_condor,
}
use stocks_fno.Engine.Spread.{settle_spread, close_spread, leg_after, short_after, guard_lifted}

module _ {F : Type 0} where
  -- the entries of a leg that its exit does not touch
  abbrev pub as_opened : Leg F → Leg F
  as_opened l = record l { exit_fill = none; pending_id = none; gtt_id = none }

  -- the terms of a spread, and of a condor
  abbrev pub spread_terms : Spread F → Spread F
  spread_terms sp = record sp { short = as_opened sp.short; long = as_opened sp.long }

  abbrev pub condor_terms : Condor F → Condor F
  condor_terms c = record c {
    put_short = as_opened c.put_short;
    put_long = as_opened c.put_long;
    call_short = as_opened c.call_short;
    call_long = as_opened c.call_long;
    partial_exit_alerted = false;
  }

  short_after-opened : (a : Attempt F) → as_opened (short_after a) ≡ as_opened a.leg
  short_after-opened a =
      elim a.fill
        as (λ z.
          as_opened (elim z [ none ↦ a.leg | some p ↦ record (leg_after a) { gtt_id = none } ])
          ≡ as_opened a.leg) [ none ↦ refl | some p ↦ refl ]

module _ {F : Type 0} ⦃f : Float F⦄ where
  attempt_of-opened :
      (quote : F) (l : Leg F) (o : Option (Order F))
      → as_opened (attempt_of quote l o).leg ≡ as_opened l
  unfolding attempt_of
  attempt_of-opened quote l none = refl
  attempt_of-opened quote l (some o) =
      elim (Bool-cases (same_status o.order_status pending_verification)) [
        | inl p ↦ rw p refl
        | inr p ↦ elim (Bool-cases (is_bad o.order_status)) [
          | inl q ↦ rw (p, q) refl
          | inr q ↦ rw (p, q) refl
        ]
      ]

module _ {F : Type 0} ⦃f : Float F⦄ {W : Type 0} (x : Outside F W) where
  submit-opened :
      (t : Moment) (lot : ℤ) (quote : F) (l : Leg F) (s : Oms F W)
      → as_opened (submit x t lot quote l s).0.leg ≡ as_opened l
  unfolding submit
  submit-opened t lot quote l s =
      attempt_of-opened quote l (place_order x t (exit_request l lot quote) s).0

  resume-opened :
      (t : Moment) (lot : ℤ) (quote : F) (l : Leg F) (r : Resolution F) (s : Oms F W)
      → as_opened (resume x t lot quote l r s).0.leg ≡ as_opened l
  unfolding resume
  resume-opened t lot quote l nothing s = submit-opened t lot quote (unpended l) s
  resume-opened t lot quote l (still_pending o) s = refl
  resume-opened t lot quote l (resolved_ok o) s = refl
  resume-opened t lot quote l (resolved_bad o) s = submit-opened t lot quote (unpended l) s

  retry-opened :
      (t : Moment) (lot : ℤ) (quote : F) (l : Leg F) (i : Option ℕ) (s : Oms F W)
      → as_opened (retry x t lot quote l i s).0.leg ≡ as_opened l
  retry-opened t lot quote l none s = submit-opened t lot quote l s
  retry-opened t lot quote l (some i) s = resume-opened t lot quote l _ s

  unless_stored-opened :
      (h : Holdings) (t : Moment) (lot : ℤ) (quote : F) (l : Leg F) (p : Option F) (s : Oms F W)
      → as_opened (unless_stored x h t lot quote l p s).0.leg ≡ as_opened l
  unfolding close_open_leg
  unless_stored-opened h t lot quote l (some p) s = refl
  unless_stored-opened h t lot quote l none s = elim (Bool-cases (is_flat h l.contract)) [
    | inl e ↦ rw e refl
    | inr e ↦ rw e (retry-opened t lot quote l l.pending_id s)
  ]

  -- An exit, whatever becomes of it, leaves the terms of its leg.
  pub close_leg-opened :
      (h : Holdings) (t : Moment) (lot : ℤ) (quote : F) (l : Leg F) (s : Oms F W)
      → as_opened (close_leg x h t lot quote l s).0.leg ≡ as_opened l
  unfolding close_leg
  close_leg-opened h t lot quote l s = unless_stored-opened h t lot quote l l.exit_fill s

module _ {F W : Type 0} where
  -- the fields that an exit check may not touch but through its own structure
  abbrev pub tables : Engine F W → Dict (Spread F) × Dict (Condor F) × List String × List String
  tables e = (e.active_spreads, e.active_condors, e.exited_today, e.profit_closed_today)

  -- and the order manager
  abbrev pub held :
      Engine F W → Dict (Spread F) × Dict (Condor F) × List String × List String × Oms F W
  held e = (e.active_spreads, e.active_condors, e.exited_today, e.profit_closed_today, e.oms)

module _ {F : Type 0} ⦃f : Float F⦄ {W : Type 0} where
  held-log :
      (i : Option ℕ) (price pnl : F) (r : Reason) (slip : Option F) (wing : Option String)
      (e : Engine F W)
      → held (log_trade_close i price pnl r slip wing e) ≡ held e
  held-log none price pnl r slip wing e = refl
  held-log (some i) price pnl r slip wing e = elim (Bool-cases (i == 0)) [
    | inl q ↦ rw q refl
    | inr q ↦ rw q refl
  ]

  held-cancel_gtt : (i : Option ℕ) (e : Engine F W) → held (cancel_gtt i e) ≡ held e
  held-cancel_gtt none e = refl
  held-cancel_gtt (some i) e = elim (Bool-cases (i == 0)) [ inl q ↦ rw q refl | inr q ↦ rw q refl ]

  held-cancel_gtts : (is : List (Option ℕ)) (e : Engine F W) → held (cancel_gtts is e) ≡ held e
  unfolding cancel_gtts
  held-cancel_gtts [] e = refl
  held-cancel_gtts (i ∷ is) e = held-cancel_gtts is (cancel_gtt i e) ∙ held-cancel_gtt i e

  held-count_adverse :
      (u : String) (pnl : F) (e : Engine F W) → held (count_adverse u pnl e) ≡ held e
  held-count_adverse u pnl e = elim (Bool-cases (f.lt pnl nought)) [
    | inl q ↦ rw q refl
    | inr q ↦ rw q refl
  ]

  pub held-conclude :
      (u : String) (i : Option ℕ) (price pnl : F) (r : Reason) (slip : F) (wing : Option String)
      (is : List (Option ℕ)) (e : Engine F W)
      → held (conclude u i price pnl r slip wing is e).1 ≡ held e
  unfolding conclude
  held-conclude u i price pnl r slip wing is e =
      held-cancel_gtts is _ ∙ held-count_adverse u pnl _ ∙ held-log i price pnl r _ wing e

  tables-conclude :
      (u : String) (i : Option ℕ) (price pnl : F) (r : Reason) (slip : F) (wing : Option String)
      (is : List (Option ℕ)) (e : Engine F W)
      → tables (conclude u i price pnl r slip wing is e).1 ≡ tables e
  tables-conclude u i price pnl r slip wing is e =
      ap (λ z. (z.0, z.1, z.2, z.3)) (held-conclude u i price pnl r slip wing is e)

  tables-guard_lifted : (a : Attempt F) (e : Engine F W) → tables (guard_lifted a e) ≡ tables e
  tables-guard_lifted a e =
      elim a.fill
        as (λ z. tables (elim z [ none ↦ e | some p ↦ cancel_gtt a.leg.gtt_id e ]) ≡ tables e) [
          | none ↦ refl
          | some p ↦ ap (λ z. (z.0, z.1, z.2, z.3)) (held-cancel_gtt a.leg.gtt_id e)
        ]

module _ {F W : Type 0} where
  -- The tables are as they were, or but for a row with the same terms.
  abbrev pub SpreadTouch : String → Spread F → Engine F W → Engine F W → Type 0
  SpreadTouch u sp e e' =
      (tables e' ≡ tables e)
      ⊎ ((sp' : Spread F) × (spread_terms sp' ≡ spread_terms sp)
          × (tables e' ≡ (
            insert u sp' e.active_spreads,
            e.active_condors,
            e.exited_today,
            e.profit_closed_today,
          )))

module _ {F : Type 0} ⦃f : Float F⦄ {W : Type 0} where
  kept_spread-touch :
      (u : String) (sp : Spread F) (a b : Attempt F) (e : Engine F W)
      → as_opened a.leg ≡ as_opened sp.short
      → as_opened b.leg ≡ as_opened sp.long
      → SpreadTouch u sp e (record (guard_lifted a e) {
        active_spreads =
            insert u (record sp { short = short_after a; long = leg_after b }) e.active_spreads;
      })
  kept_spread-touch u sp a b e h k =
      let sp' : Spread F = record sp { short = short_after a; long = leg_after b } in
      inr (
        sp',
        ap₂ (λ s l. record sp { short = s; long = l }) (short_after-opened a ∙ h) k,
        ap (λ t. (insert u sp' e.active_spreads, t.1, t.2, t.3)) (tables-guard_lifted a e),
      )

  settle_spread-touch :
      (u : String) (r : Reason) (cs cl : F) (sp : Spread F) (a b : Attempt F) (e : Engine F W)
      (p q : Option F)
      → as_opened a.leg ≡ as_opened sp.short
      → as_opened b.leg ≡ as_opened sp.long
      → SpreadTouch u sp e (settle_spread u r cs cl sp a b e p q).1
  unfolding settle_spread
  settle_spread-touch u r cs cl sp a b e (some p) (some q) h k =
      inl (tables-conclude u sp.journal_id _ _ r _ none (sp.short.gtt_id ∷ []) _)
  settle_spread-touch u r cs cl sp a b e (some p) none h k = kept_spread-touch u sp a b e h k
  settle_spread-touch u r cs cl sp a b e none q h k = kept_spread-touch u sp a b e h k

module _ {F : Type 0} ⦃f : Float F⦄ {W : Type 0} (x : Outside F W) where
  pub close_spread-touch :
      (h : Holdings) (t : Moment) (u : String) (r : Reason) (cs cl : F) (sp : Spread F)
      (e : Engine F W)
      → SpreadTouch u sp e (close_spread x h t u r cs cl sp e).1
  unfolding close_spread
  close_spread-touch h t u r cs cl sp e =
      let (a, s) = close_leg x h t sp.lot_size cs sp.short e.oms in
      let (b, s') = close_leg x h t sp.lot_size cl sp.long s in
      settle_spread-touch u r cs cl sp a b (record e { oms = s' }) a.fill b.fill
        (close_leg-opened x h t sp.lot_size cs sp.short e.oms)
        (close_leg-opened x h t sp.lot_size cl sp.long s)

module _ {F W : Type 0} where
  -- the same for a condor
  abbrev pub CondorTouch : String → Condor F → Engine F W → Engine F W → Type 0
  CondorTouch u c e e' =
      (tables e' ≡ tables e)
      ⊎ ((c' : Condor F) × (condor_terms c' ≡ condor_terms c)
          × (tables e' ≡ (
            e.active_spreads,
            insert u c' e.active_condors,
            e.exited_today,
            e.profit_closed_today,
          )))

  tables-alert_once :
      (u : String) (b : Bool) (e : Engine F W) → tables (alert_once u b e) ≡ tables e
  tables-alert_once u true e = refl
  tables-alert_once u false e = refl

module _ {F : Type 0} where
  -- the four exits are of the legs of the condor
  pub record OfLegs (a : Attempts F) (c : Condor F) : Type 0 where
    pub ps : as_opened a.ps.leg ≡ as_opened c.put_short
    pub pl : as_opened a.pl.leg ≡ as_opened c.put_long
    pub cs : as_opened a.cs.leg ≡ as_opened c.call_short
    pub cl : as_opened a.cl.leg ≡ as_opened c.call_long

  condor_after-terms :
      (a : Attempts F) (c : Condor F)
      → OfLegs a c
      → condor_terms (condor_after a c) ≡ condor_terms c
  condor_after-terms a c h =
      ap₂ (λ s l. record (condor_terms (condor_after a c)) { put_short = s; put_long = l })
        (short_after-opened a.ps ∙ h.ps) h.pl
      ∙ ap₂ (λ s l. record (condor_terms c) { call_short = s; call_long = l })
          (short_after-opened a.cs ∙ h.cs) h.cl

module _ {F : Type 0} ⦃f : Float F⦄ {W : Type 0} where
  kept_condor-touch :
      (u : String) (c : Condor F) (a : Attempts F) (e : Engine F W)
      → OfLegs a c
      → let e' = guard_lifted a.cs (guard_lifted a.ps e) in
        CondorTouch u c e (
          alert_once u c.partial_exit_alerted
            (record e' { active_condors = insert u (condor_after a c) e'.active_condors }))
  kept_condor-touch u c a e h = inr (
    condor_after a c,
    condor_after-terms a c h,
    tables-alert_once u c.partial_exit_alerted _
        ∙ ap (λ t. (t.0, insert u (condor_after a c) t.1, t.2, t.3))
            (tables-guard_lifted a.cs (guard_lifted a.ps e) ∙ tables-guard_lifted a.ps e),
  )

  settle_condor-touch :
      (u : String) (r : Reason) (q : Quotes F) (c : Condor F) (a : Attempts F) (e : Engine F W)
      (ps pl cs cl : Option F)
      → OfLegs a c
      → CondorTouch u c e (settle_condor u r q c a e ps pl cs cl).1
  unfolding settle_condor
  settle_condor-touch u r q c a e (some ps) (some pl) (some cs) (some cl) h =
      inl
        (tables-conclude u c.journal_id _ _ r _ _ (c.put_short.gtt_id ∷ c.call_short.gtt_id ∷ []) _)
  settle_condor-touch u r q c a e (some ps) (some pl) (some cs) none h = kept_condor-touch u c a e h
  settle_condor-touch u r q c a e (some ps) (some pl) none cl h = kept_condor-touch u c a e h
  settle_condor-touch u r q c a e (some ps) none cs cl h = kept_condor-touch u c a e h
  settle_condor-touch u r q c a e none pl cs cl h = kept_condor-touch u c a e h

module _ {F : Type 0} ⦃f : Float F⦄ {W : Type 0} (x : Outside F W) where
  pub close_condor-touch :
      (h : Holdings) (t : Moment) (u : String) (r : Reason) (q : Quotes F) (c : Condor F)
      (e : Engine F W)
      → CondorTouch u c e (close_condor x h t u r q c e).1
  unfolding close_condor
  close_condor-touch h t u r q c e =
      let (ps, s₁) = close_leg x h t c.lot_size q.ps c.put_short e.oms in
      let (pl, s₂) = close_leg x h t c.lot_size q.pl c.put_long s₁ in
      let (cs, s₃) = close_leg x h t c.lot_size q.cs c.call_short s₂ in
      let (cl, s₄) = close_leg x h t c.lot_size q.cl c.call_long s₃ in
      settle_condor-touch u r q c (record { ps = ps; pl = pl; cs = cs; cl = cl })
        (record e { oms = s₄ }) ps.fill pl.fill cs.fill cl.fill
        (record {
          ps = close_leg-opened x h t c.lot_size q.ps c.put_short e.oms;
          pl = close_leg-opened x h t c.lot_size q.pl c.put_long s₁;
          cs = close_leg-opened x h t c.lot_size q.cs c.call_short s₂;
          cl = close_leg-opened x h t c.lot_size q.cl c.call_long s₃;
        })
