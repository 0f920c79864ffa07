-- ===== src/Engine/Course.antt =====
-- A leg through tries of its exit, with other calls of the order manager in between, and what one more
-- order for it leaves (live_trading/live_trading_engine.py).
use stocks_fno.Prelude.{
  ℕ, ◌≡◌, refl, sym, ap, ◌∙◌, subst, Bool, true, false, ◌||◌, Option, none, some, List, [], ◌∷◌,
  inl, inr, Bool-cases, get_or_else, All, All-map, arith, if◌then◌else◌,
}
use stocks_fno.Int.{ℤ}
use stocks_fno.Float.{Float}
use stocks_fno.Orders.Store.{
  opened, pending_verification, same_status, is_terminal, Order, OrderStatus, Outside, Oms, Moment,
  get_by_id, written,
}
use stocks_fno.Orders.Place.{place_order}
use stocks_fno.Orders.Table.{IsKeys, ids, IsClosed, is_fixed, has_key, is_waiting}
use stocks_fno.Orders.Settled.{table, Keeps}
use stocks_fno.Orders.PlaceKeeps.{place_order-Keeps}
use stocks_fno.Orders.Finished.{Call, run, run-Keeps}
use stocks_fno.Orders.Newest.{IsPlaced, place_order-IsPlaced}
use stocks_fno.Engine.Legs.{
  Leg, Holdings, Attempt, is_bad, exit_request, attempt_of, submit, close_leg,
}

-- a try of the exit, or other calls of the order manager
pub data Happening (F : Type 0) : Type 0 where
  tries : Holdings → Moment → ℤ → F → Happening F
  does : List (Moment × Call F) → Happening F

-- A leg, the order manager, and the keys of the orders that were sent to close the leg, newest first.
pub record Course (F W : Type 0) : Type 0 where
  pub leg : Leg F
  pub oms : Oms F W
  pub sent : List ℕ

abbrev pub older : List ℕ → List ℕ
older [] = []
older (i ∷ is) = is

-- the statuses that an order has once it was sent
abbrev pub is_sent : OrderStatus → Bool
is_sent st = is_waiting st || is_terminal st

module _ {F : Type 0} where
  -- a leg that is open and waits for no verification
  abbrev pub is_idle : Option F → Option ℕ → Bool
  is_idle none none = true
  is_idle _ _ = false

  pub idle-none : (p : Option F) (i : Option ℕ) → is_idle p i ≡ true → (p ≡ none) × (i ≡ none)
  idle-none none none h = (refl, refl)
  idle-none none (some i) h = absurd (ground arith)
  idle-none (some p) i h = absurd (ground arith)

  -- the orders of a leg that may not have closed it
  abbrev pub lost_orders : Leg F → List ℕ → List ℕ
  lost_orders l sent = if is_idle l.exit_fill l.pending_id then sent else older sent

  -- `spread[fill_key] = fill`, if the leg was closed
  abbrev pub stored : Attempt F → Leg F
  stored a = record a.leg { exit_fill = written a.fill a.leg.exit_fill }

  abbrev pub logged : Attempt F → List ℕ → List ℕ
  logged a sent = elim a.sent [ none ↦ sent | some i ↦ i ∷ sent ]

  -- an order that closed nothing and does not move, and one that was sent
  abbrev pub IsDead : Order F → Type 0
  IsDead o = (is_fixed o ≡ true) × (is_bad o.order_status ≡ true)

  abbrev pub IsSent : Order F → Type 0
  IsSent o = is_sent o.order_status ≡ true

  IsSent-IsClosed : IsClosed IsSent
  IsSent-IsClosed p q t h = elim t.status [ inl e ↦ ap is_sent e ∙ h | inr r ↦ ground arith ]

  -- What holds of a leg and the orders sent for it, where `e` is the key of some row.
  pub record IsOnce (e : ℕ) (l : Leg F) (sent : List ℕ) (t : ℕ × List (Order F)) : Type 0 where
    pub anchor : Keeps (λ _. Unit {0}) e t
    pub past : All (λ i. Keeps IsDead i t) (older sent)
    pub open_leg : l.exit_fill ≡ none → l.pending_id ≡ none → All (λ i. Keeps IsDead i t) sent
    pub unsure :
        (i : ℕ)
        → l.exit_fill ≡ none
        → l.pending_id ≡ some i
        → (sent ≡ i ∷ older sent) × Keeps IsSent i t

module _ {F W : Type 0} where
  -- a leg of which no exit was tried
  pub record IsUntried (e : ℕ) (r : Order F) (c : Course F W) : Type 0 where
    pub keys : IsKeys c.oms.next_id (ids c.oms.orders)
    pub row : get_by_id e c.oms.orders ≡ some r
    pub fill : c.leg.exit_fill ≡ none
    pub pending_exit : c.leg.pending_id ≡ none
    pub unsent : c.sent ≡ []

  -- the order `i` was refused or cancelled, or failed
  abbrev pub IsLost : Oms F W → ℕ → Type 0
  IsLost s i = (r : Order F) × (get_by_id i s.orders ≡ some r) × (is_bad r.order_status ≡ true)

module _ {F : Type 0} ⦃f : Float F⦄ {W : Type 0} (x : Outside F W) where
  unfoldable pub happen : Course F W → Happening F → Course F W
  unfolding close_leg run
  happen c (tries h t lot quote) =
      let (a, s) = close_leg x h t lot quote c.leg c.oms in
      record { leg = stored a; oms = s; sent = logged a c.sent }
  happen c (does cs) = record c { oms = run x c.oms cs }

  unfoldable pub follow : Course F W → List (Happening F) → Course F W
  unfolding happen
  follow c [] = c
  follow c (e ∷ es) = follow (happen c e) es

  IsDead-run :
      (cs : List (Moment × Call F)) (s : Oms F W) (is : List ℕ)
      → All (λ i. Keeps IsDead i (table s)) is
      → All (λ i. Keeps IsDead i (table (run x s cs))) is
  IsDead-run cs s is h = All-map (λ i k. run-Keeps x s cs (inl (λ p q. q.0)) k) is h

  pub does-IsOnce :
      (e : ℕ) (l : Leg F) (sent : List ℕ) (s : Oms F W) (cs : List (Moment × Call F))
      → IsOnce e l sent (table s)
      → IsOnce e l sent (table (run x s cs))
  does-IsOnce e l sent s cs h = record {
    anchor = run-Keeps x s cs (inr (λ p q t u. tt)) h.anchor;
    past = IsDead-run cs s (older sent) h.past;
    open_leg = λ a b. IsDead-run cs s sent (h.open_leg a b);
    unsure = λ i a b. let (q, k) = h.unsure i a b in (q, run-Keeps x s cs (inr IsSent-IsClosed) k);
  }

  IsDead-place_order :
      (t : Moment) (l : Leg F) (lot : ℤ) (quote : F) (s : Oms F W) (is : List ℕ)
      → All (λ i. Keeps IsDead i (table s)) is
      → All (λ i. Keeps IsDead i (table (place_order x t (exit_request l lot quote) s).1)) is
  IsDead-place_order t l lot quote s is h = All-map (λ i k. place_order-Keeps x t _ s k) is h

  -- the row of the returned order, unless it is OPEN
  placed_row :
      (id i : ℕ) (o : Order F) (s : Oms F W)
      → same_status o.order_status opened ≡ false
      → o.id ≡ i
      → IsPlaced x id o s
      → get_by_id i s.orders ≡ some o
  placed_row id i o s ne q h = elim h.outcome [
    | inl e ↦ absurd (ground arith)
    | inr (n, r) ↦ subst (λ k. get_by_id k s.orders ≡ some o) (sym h.same_id ∙ q) r
  ]

  placed-IsDead :
      (e id : ℕ) (o : Order F) (s : Oms F W)
      → Keeps (λ _. Unit {0}) e (table s)
      → is_bad o.order_status ≡ true
      → IsPlaced x id o s
      → Keeps IsDead o.id (table s)
  placed-IsDead e id o s anchor bad h = record {
    keys = anchor.keys;
    row = o;
    found = placed_row id o.id o s (ground arith) refl h;
    holds = (
      elim h.outcome [
        | inl q ↦ absurd (ground arith)
        | inr (n, r) ↦ let keyless : has_key o ≡ false = rw (n, has_key) refl in ground arith
      ],
      bad,
    );
  }

  placed-IsSent :
      (e id i : ℕ) (o : Order F) (s : Oms F W)
      → Keeps (λ _. Unit {0}) e (table s)
      → same_status o.order_status pending_verification ≡ true
      → o.id ≡ i
      → IsPlaced x id o s
      → Keeps IsSent i (table s)
  placed-IsSent e id i o s anchor pv q h = record {
    keys = anchor.keys;
    row = o;
    found = placed_row id i o s (ground arith) q h;
    holds = ground arith;
  }

  -- what the returned order comes to
  placed-IsOnce :
      (e : ℕ) (l : Leg F) (sent : List ℕ) (quote : F) (id : ℕ) (o : Order F) (s : Oms F W)
      → l.exit_fill ≡ none
      → l.pending_id ≡ none
      → Keeps (λ _. Unit {0}) e (table s)
      → All (λ i. Keeps IsDead i (table s)) sent
      → IsPlaced x id o s
      → let a = attempt_of quote l (some o) in IsOnce e (stored a) (logged a sent) (table s)
  unfolding attempt_of
  placed-IsOnce e l sent quote id o s n p anchor dead h =
      elim (Bool-cases (same_status o.order_status pending_verification)) [
        | inl pv ↦ rw pv (record {
          anchor = anchor;
          past = dead;
          open_leg = λ a b. absurd (ground arith);
          unsure = λ i a b.
              let q : o.id ≡ i = ap (λ z. get_or_else z 0) b in
              (ap (λ k. k ∷ sent) q, placed-IsSent e id i o s anchor pv q h);
        })
        | inr st ↦ elim (Bool-cases (is_bad o.order_status)) [
          | inl bad ↦
              rw (st, bad)
                (record {
                  anchor = anchor;
                  past = dead;
                  open_leg = λ a b. (placed-IsDead e id o s anchor bad h, dead);
                  unsure = λ i a b. absurd (ground arith);
                })
          | inr good ↦
              rw (st, good)
                (record {
                  anchor = anchor;
                  past = dead;
                  open_leg = λ a b. absurd (ground arith);
                  unsure = λ i a b. absurd (ground arith);
                })
        ]
      ]

  pub submit-IsOnce :
      (e : ℕ) (l : Leg F) (sent : List ℕ) (t : Moment) (lot : ℤ) (quote : F) (s : Oms F W)
      → l.exit_fill ≡ none
      → l.pending_id ≡ none
      → Keeps (λ _. Unit {0}) e (table s)
      → All (λ i. Keeps IsDead i (table s)) sent
      → let (a, s') = submit x t lot quote l s in IsOnce e (stored a) (logged a sent) (table s')
  unfolding submit
  submit-IsOnce e l sent t lot quote s n p anchor dead =
      let r = exit_request l lot quote in
      let (o, q, placed) = place_order-IsPlaced x t r s refl in
      let s' = (place_order x t r s).1 in
      subst
        (λ z.
          IsOnce e (stored (attempt_of quote l z)) (logged (attempt_of quote l z) sent) (table s'))
        (sym q)
        (placed-IsOnce e l sent quote s.next_id o s' n p (place_order-Keeps x t r s anchor)
          (IsDead-place_order t l lot quote s sent dead) placed)
