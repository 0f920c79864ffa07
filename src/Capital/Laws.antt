-- ===== src/Capital/Laws.antt =====
-- What a call of `rollover_if_needed` (portfolio/capital_periods.py) comes to.
use stocks_fno.Prelude.{
  ℕ, zero, suc, ◌+◌, ◌≤◌, ◌≡◌, refl, sym, ap, ◌∙◌, false, Option, none, some, List, [], ◌∷◌, ◌++◌,
  ◌⊎◌, inl, inr, arith, subst,
}
use stocks_fno.Float.{Float, nought}
use stocks_fno.Calendar.{Date, IsDate, date_lt}
use stocks_fno.Calendar.Days.{rank, date_lt-rank}
use stocks_fno.Calendar.Expiry.{capital_period_bounds}
use stocks_fno.Calendar.Periods.{capital_period_bounds_contain}
use stocks_fno.Risk.Manager.{RiskManager, set_capital}
use stocks_fno.Capital.Store.{Period, Store, get_active_period, create_period}
use stocks_fno.Capital.Rollover.{roll_until, heal, first_active, rollover_if_needed, apply_capital}
use stocks_fno.Capital.Loop.{
  IsEnd, IsBook, bounds-IsEnd, get_active_period-IsBook, roll_until-IsCurrent, heal-IsBook,
  heal-capital,
}

module _ {F : Type 0} where
  -- The table is empty, or holds the rows of earlier calls.
  abbrev pub IsBooks : F → Store F → Type 0
  IsBooks default s =
      (s.periods ≡ []) ⊎ ((front : List (Period F)) × (a : Period F) × IsBook default front a s)

  -- The same, where the open period has started by the day of rank `l`.
  abbrev pub IsStartedBooks : F → ℕ → Store F → Type 0
  IsStartedBooks default l s =
      (s.periods ≡ [])
      ⊎ ((front : List (Period F)) × (a : Period F) × IsBook default front a s
          × (rank a.period_start ≤ l))

  -- Some day is late enough.
  IsBooks-started :
      (default : F) (k : ℕ) (s : Store F)
      → IsBooks default s
      → (l : ℕ) × (k ≤ l) × IsStartedBooks default l s
  IsBooks-started default k s (inl e) = (k, omega arith, inl e)
  IsBooks-started default k s (inr (front, a, b)) =
      (k + rank a.period_start, omega arith, inr (front, a, b, omega arith))

module _ {F : Type 0} ⦃f : Float F⦄ (default : F) where
  first_active-IsBook :
      (today : Date) (l : ℕ) (s : Store F)
      → IsEnd today
      → rank today ≤ l
      → IsStartedBooks default l s
      → let (a, s') = first_active default today s in
        (front : List (Period F)) × IsBook default front a s' × (rank a.period_start ≤ l)
  unfolding first_active create_period get_active_period
  first_active-IsBook today l s e t (inl empty) =
      rw (empty, first_active)
        (
          [],
          record {
            rows =
                ap
                  (λ r.
                    r
                    ++ ((create_period (capital_period_bounds today).0
                          (capital_period_bounds today).1 default s).0
                        ∷ []))
                  empty;
            closed = tt;
            older = tt;
            is_open = refl;
            fresh = omega arith;
            end = bounds-IsEnd today e;
            chain = tt;
          },
          omega (arith, (capital_period_bounds_contain today e.valid e.late).0),
        )
  first_active-IsBook today l s e t (inr (front, a, b, q)) =
      rw (get_active_period-IsBook s b, first_active) (front, b, q)

  -- What a call returns: the open period of books that are in order, which has not ended, and has
  -- started by the day of rank `l`.
  pub record IsReturned (l : ℕ) (today : Date) (m : Option (RiskManager F))
      (r : Option (Period F × Store F × Option (RiskManager F))) : Type 0 where
    pub period : Period F
    pub store : Store F
    pub front : List (Period F)
    pub returns : r ≡ some (period, store, apply_capital period.starting_capital m)
    pub book : IsBook default front period store
    pub started : rank period.period_start ≤ l
    pub covers : rank today ≤ rank period.period_end
    pub funded : f.le period.starting_capital nought ≡ false

  -- The period that is returned covers today.
  abbrev pub IsRolled :
      Date → Option (RiskManager F) → Option (Period F × Store F × Option (RiskManager F)) → Type 0
  IsRolled today m r = IsReturned (rank today) today m r

module _ {F : Type 0} ⦃f : Float F⦄ (sql_sum : List F → Option F) (default : F) where
  rollover-IsReturned :
      (l : ℕ) (today : Date) (s : Store F) (m : Option (RiskManager F))
      → IsDate today
      → 2 ≤ today.year
      → f.le default nought ≡ false
      → rank today ≤ l
      → IsStartedBooks default l s
      → IsReturned default l today m (rollover_if_needed sql_sum default today s m)
  unfolding rollover_if_needed
  rollover-IsReturned l today s m v late d t books =
      let (a, s') = first_active default today s in
      let (front, b, q) =
        first_active-IsBook default today l s (record { valid = v; late = late }) t books in
      let c =
        roll_until-IsCurrent sql_sum default (rank today) l today front a s' v t (omega arith) q
          b in
      let (b', e, st) = heal-IsBook default c.front c.period c.store c.book in
      rw (c.returns, rollover_if_needed)
        record {
          period = (heal default (c.period, c.store)).0;
          store = (heal default (c.period, c.store)).1;
          front = c.front;
          returns = refl;
          book = b';
          started = subst (λ d. rank d ≤ l) (sym st) c.started;
          covers =
              let le : rank today ≤ rank c.period.period_end =
                ground
                  (arith, date_lt-rank c.period.period_end today c.book.end.valid v, c.covers) in
              subst (λ q. rank today ≤ rank q) (sym e) le;
          funded = heal-capital default c.period c.store d;
        }

  -- On every valid day from year 2 on, with a configured capital above zero and a table that is empty,
  -- or in order with an open period that started on that day or before, the loop ends: the call
  -- returns the one open period of a table that is in order again, which covers the day and starts
  -- from more than zero, and gives that capital to the risk manager.
  pub rollover_if_needed-IsRolled :
      (today : Date) (s : Store F) (m : Option (RiskManager F))
      → IsDate today
      → 2 ≤ today.year
      → f.le default nought ≡ false
      → IsStartedBooks default (rank today) s
      → IsRolled default today m (rollover_if_needed sql_sum default today s m)
  rollover_if_needed-IsRolled today s m v late d books =
      rollover-IsReturned (rank today) today s m v late d (omega arith) books

  roll_until-current :
      (fuel : ℕ) (today : Date) (a : Period F) (s : Store F)
      → date_lt a.period_end today ≡ false
      → roll_until sql_sum fuel default today s a ≡ some (a, s)
  unfolding roll_until
  roll_until-current zero today a s e = rw e refl
  roll_until-current (suc fuel) today a s e = rw (e, roll_until) refl

  apply_capital-twice :
      (c : F) (m : Option (RiskManager F)) → apply_capital c (apply_capital c m) ≡ apply_capital c m
  unfolding apply_capital set_capital
  apply_capital-twice c none = refl
  apply_capital-twice c (some m) = refl

  abbrev again :
      Date
      → Option (Period F × Store F × Option (RiskManager F))
      → Option (Period F × Store F × Option (RiskManager F))
  again today none = none
  again today (some (p, s, m)) = rollover_if_needed sql_sum default today s m

  rollover_if_needed-current :
      (today : Date) (front : List (Period F)) (p : Period F) (s : Store F)
      (m : Option (RiskManager F))
      → IsBook default front p s
      → date_lt p.period_end today ≡ false
      → f.le p.starting_capital nought ≡ false
      → rollover_if_needed sql_sum default today s (apply_capital p.starting_capital m)
        ≡ some (p, s, apply_capital p.starting_capital m)
  unfolding rollover_if_needed first_active heal
  rollover_if_needed-current today front p s m b c d =
      rw
        (
          get_active_period-IsBook s b,
          first_active,
          roll_until-current (rank today) today p s c,
          d,
          apply_capital-twice p.starting_capital m,
          rollover_if_needed,
          heal,
        )
        refl

  -- On every valid day from year 2 on, with a configured capital above zero and a table that is empty
  -- or in order, a second call on the same day returns what the first did, and changes nothing.
  pub rollover_if_needed-twice :
      (today : Date) (s : Store F) (m : Option (RiskManager F))
      → IsDate today
      → 2 ≤ today.year
      → f.le default nought ≡ false
      → IsBooks default s
      → (p : Period F) (s' : Store F) (m' : Option (RiskManager F))
      → rollover_if_needed sql_sum default today s m ≡ some (p, s', m')
      → rollover_if_needed sql_sum default today s' m' ≡ some (p, s', m')
  rollover_if_needed-twice today s m v late d books p s' m' e =
      let (l, t, books') = IsBooks-started default (rank today) s books in
      let r = rollover-IsReturned l today s m v late d t books' in
      let c : date_lt r.period.period_end today ≡ false =
        ground (arith, date_lt-rank r.period.period_end today r.book.end.valid v, r.covers) in
      let fixed = rollover_if_needed-current today r.front r.period r.store m r.book c r.funded in
      ap (again today) (sym e ∙ r.returns) ∙ fixed ∙ sym r.returns ∙ e
