-- ===== src/Engine/CloseOnce.antt =====
-- Repeated exits of one leg (live_trading/live_trading_engine.py), with other calls of the order
-- manager in between.
use stocks_fno.Prelude.{
  ℕ, ◌≡◌, refl, sym, ◌∙◌, subst, true, Option, none, some, List, [], ◌∷◌, inl, inr, Bool-cases,
  Option-cases, All, All-map, arith,
}
use stocks_fno.Int.{ℤ}
use stocks_fno.Float.{Float}
use stocks_fno.Orders.Store.{
  pending_verification, same_status, Order, Outside, Oms, Moment, get_by_id,
}
use stocks_fno.Orders.Settled.{table, Keeps}
use stocks_fno.Engine.Legs.{
  Leg, Holdings, is_bad, is_flat, Resolution, resolution, unpended, resume, retry, close_open_leg,
  unless_stored, close_leg, resolve_pending_exit_order,
}
use stocks_fno.Engine.Course.{
  Happening, tries, does, Course, older, is_sent, is_idle, idle-none, lost_orders, stored, logged,
  IsDead, IsSent, IsOnce, IsUntried, IsLost, happen, follow, does-IsOnce, submit-IsOnce,
}

module _ {F : Type 0} ⦃f : Float F⦄ {W : Type 0} (x : Outside F W) where
  -- Of a leg that is closed nothing more is asked.
  closed-IsOnce :
      (e : ℕ) (l l' : Leg F) (sent : List ℕ) (t : ℕ × List (Order F)) (p : F)
      → l'.exit_fill ≡ some p
      → IsOnce e l sent t
      → IsOnce e l' sent t
  closed-IsOnce e l l' sent t p q h = record {
    anchor = h.anchor;
    past = h.past;
    open_leg = λ a b. absurd (ground arith);
    unsure = λ i a b. absurd (ground arith);
  }

  sent-IsDead :
      (i : ℕ) (t : ℕ × List (Order F)) (k : Keeps IsSent i t)
      → is_bad k.row.order_status ≡ true
      → Keeps IsDead i t
  sent-IsDead i t k bad =
      let known : is_sent k.row.order_status ≡ true = k.holds in
      record { keys = k.keys; row = k.row; found = k.found; holds = (ground arith, bad) }

  abbrev Resumed : ℕ → Leg F → List ℕ → Moment → ℤ → F → Oms F W → Resolution F → Type 0
  Resumed e l sent t lot quote s z =
      let (a, s') = resume x t lot quote l z s in IsOnce e (stored a) (logged a sent) (table s')

  resolved-by :
      (i : ℕ) (s : Oms F W) (o : Order F)
      → get_by_id i s.orders ≡ some o
      → resolve_pending_exit_order (some i) s.orders ≡ resolution o
  unfolding resolve_pending_exit_order
  resolved-by i s o e = rw (e, resolve_pending_exit_order) refl

  resume-IsOnce :
      (e : ℕ) (l : Leg F) (sent : List ℕ) (t : Moment) (lot : ℤ) (quote : F) (s : Oms F W) (i : ℕ)
      → l.exit_fill ≡ none
      → l.pending_id ≡ some i
      → (k : Keeps IsSent i (table s)) → sent ≡ i ∷ older sent
      → IsOnce e l sent (table s)
      → Resumed e l sent t lot quote s (resolution k.row)
  unfolding resume
  resume-IsOnce e l sent t lot quote s i n p k q h =
      elim (Bool-cases (same_status k.row.order_status pending_verification)) [
        | inl pv ↦ rw pv h
        | inr st ↦ elim (Bool-cases (is_bad k.row.order_status)) [
          | inl bad ↦
              rw (st, bad)
                (submit-IsOnce x e (unpended l) sent t lot quote s n refl h.anchor (
                  subst (All (λ j. Keeps IsDead j (table s))) (sym q)
                    (sent-IsDead i (table s) k bad, h.past)))
          | inr good ↦ rw (st, good) (closed-IsOnce e l _ sent (table s) _ refl h)
        ]
      ]

  retry-IsOnce :
      (e : ℕ) (l : Leg F) (sent : List ℕ) (t : Moment) (lot : ℤ) (quote : F) (s : Oms F W)
      → l.exit_fill ≡ none
      → IsOnce e l sent (table s)
      → let (a, s') = retry x t lot quote l l.pending_id s in
        IsOnce e (stored a) (logged a sent) (table s')
  retry-IsOnce e l sent t lot quote s n h =
      let Fine : Option ℕ → Type 0 = λ z.
        let (a, s') = retry x t lot quote l z s in IsOnce e (stored a) (logged a sent) (table s') in
      elim (Option-cases l.pending_id) [
        | inl p ↦
            subst Fine (sym p)
              (submit-IsOnce x e l sent t lot quote s n p h.anchor (h.open_leg n p))
        | inr (i, p) ↦
            let (q, k) = h.unsure i n p in
            subst Fine (sym p) (
              subst (Resumed e l sent t lot quote s) (sym (resolved-by i s k.row k.found))
                (resume-IsOnce e l sent t lot quote s i n p k q h))
      ]

  close_open_leg-IsOnce :
      (e : ℕ) (l : Leg F) (sent : List ℕ) (d : Holdings) (t : Moment) (lot : ℤ) (quote : F)
      (s : Oms F W)
      → l.exit_fill ≡ none
      → IsOnce e l sent (table s)
      → let (a, s') = close_open_leg x d t lot quote l s in
        IsOnce e (stored a) (logged a sent) (table s')
  unfolding close_open_leg
  close_open_leg-IsOnce e l sent d t lot quote s n h = elim (Bool-cases (is_flat d l.contract)) [
    | inl g ↦ rw g (closed-IsOnce e l _ sent (table s) quote refl h)
    | inr g ↦ rw g (retry-IsOnce e l sent t lot quote s n h)
  ]

  close_leg-IsOnce :
      (e : ℕ) (l : Leg F) (sent : List ℕ) (d : Holdings) (t : Moment) (lot : ℤ) (quote : F)
      (s : Oms F W)
      → IsOnce e l sent (table s)
      → let (a, s') = close_leg x d t lot quote l s in
        IsOnce e (stored a) (logged a sent) (table s')
  unfolding close_leg
  close_leg-IsOnce e l sent d t lot quote s h =
      let Fine : Option F → Type 0 = λ z.
        let (a, s') = unless_stored x d t lot quote l z s in
        IsOnce e (stored a) (logged a sent) (table s') in
      elim (Option-cases l.exit_fill) [
        | inr (p, q) ↦ subst Fine (sym q) (closed-IsOnce e l _ sent (table s) p refl h)
        | inl n ↦ subst Fine (sym n) (close_open_leg-IsOnce e l sent d t lot quote s n h)
      ]

  follow-IsOnce :
      (e : ℕ) (c : Course F W) (hs : List (Happening F))
      → IsOnce e c.leg c.sent (table c.oms)
      → let c' = follow x c hs in IsOnce e c'.leg c'.sent (table c'.oms)
  unfolding follow happen
  follow-IsOnce e c [] h = h
  follow-IsOnce e c (tries d t lot quote ∷ hs) h =
      follow-IsOnce e (happen x c (tries d t lot quote)) hs
        (close_leg-IsOnce e c.leg c.sent d t lot quote c.oms h)
  follow-IsOnce e c (does cs ∷ hs) h =
      follow-IsOnce e (happen x c (does cs)) hs (does-IsOnce x e c.leg c.sent c.oms cs h)

  untried-IsOnce :
      (e : ℕ) (r : Order F) (c : Course F W) → IsUntried e r c → IsOnce e c.leg c.sent (table c.oms)
  untried-IsOnce e r c h = rw h.unsent (record {
    anchor = record { keys = h.keys; row = r; found = h.row; holds = tt };
    past = tt;
    open_leg = λ a b. tt;
    unsure = λ i a b. absurd (ground (sym h.pending_exit ∙ b, arith));
  })

  lost : (s : Oms F W) (is : List ℕ) → All (λ i. Keeps IsDead i (table s)) is → All (IsLost s) is
  lost s is h = All-map (λ i k. (k.row, k.found, k.holds.1)) is h

  -- Let a leg be open, no exit order of it sent yet, and the keys of the orders handed out in order.
  -- After any tries of its exit, whatever the broker answers, with any calls of `OrderManager` in
  -- between, every exit order of the leg but the newest is REJECTED, REJECTED_BY_RISK, CANCELLED or
  -- FAILED; and the newest is too while the leg is open and waits for no verification.
  pub leg_closes_once :
      (c : Course F W) (hs : List (Happening F)) (e : ℕ) (r : Order F)
      → IsUntried e r c
      → let c' = follow x c hs in All (IsLost c'.oms) (lost_orders c'.leg c'.sent)
  leg_closes_once c hs e r h =
      let c' = follow x c hs in
      let once = follow-IsOnce e c hs (untried-IsOnce e r c h) in
      elim (Bool-cases (is_idle c'.leg.exit_fill c'.leg.pending_id)) [
        | inr q ↦ rw q (lost c'.oms (older c'.sent) once.past)
        | inl q ↦
            let (a, b) = idle-none c'.leg.exit_fill c'.leg.pending_id q in
            rw q (lost c'.oms c'.sent (once.open_leg a b))
      ]
