-- ===== src/Capital/Loop.antt =====
-- The books of the rollover (portfolio/capital_periods.py) and what its loop keeps of them.
use stocks_fno.Prelude.{
  ℕ, zero, suc, ◌+◌, ◌≤◌, ◌<◌, ◌≡◌, refl, sym, subst, ap, ◌∙◌, true, false, Option, some, List, [],
  ◌∷◌, ◌++◌, ◌⊎◌, inl, inr, Bool-cases, ◌==◌, All, All-append, All-map, arith,
}
use stocks_fno.Float.{Float, nought}
use stocks_fno.Calendar.{Date, IsDate, date_lt, next_day}
use stocks_fno.Calendar.Days.{
  rank, days_in_month_bounds, date_lt-rank, next_day-IsDate, next_day-first, rank-next_day,
}
use stocks_fno.Calendar.Expiry.{capital_period_bounds}
use stocks_fno.Calendar.Periods.{capital_period_bounds_contain, capital_period_bounds-IsDate}
use stocks_fno.Capital.Store.{
  Period, Store, latest_open, get_active_period, replace_row, merge, create_period,
}
use stocks_fno.Capital.Rollover.{closed_row, close_period, next_capital, roll, roll_until, heal}

-- a day that a capital period can end on
pub record IsEnd (d : Date) : Type 0 where
  pub valid : IsDate d
  pub late : 2 ≤ d.year

next_day-IsEnd : (d : Date) → IsEnd d → IsEnd (next_day d)
unfolding next_day
next_day-IsEnd d e = record { valid = next_day-IsDate d e.valid; late = ground (arith, e.late) }

pub bounds-IsEnd : (d : Date) → IsEnd d → IsEnd (capital_period_bounds d).1
bounds-IsEnd d e =
    let v = capital_period_bounds-IsDate d e.valid e.late in
    record {
      valid = v;
      late = omega (
        arith,
        v.month_le,
        (capital_period_bounds_contain d e.valid e.late).1,
        e.late,
        e.valid.month_pos,
        e.valid.day_pos,
        v.day_le,
        days_in_month_bounds (capital_period_bounds d).1.year (capital_period_bounds d).1.month,
      );
    }

module _ {F : Type 0} where
  -- one period follows another: it starts on the next day, and from what the other ended with, or
  -- from the configured capital
  pub record Follows (default : F) (p q : Period F) : Type 0 where
    pub next_start : q.period_start ≡ next_day p.period_end
    pub capital : (p.ending_capital ≡ some q.starting_capital) ⊎ (q.starting_capital ≡ default)

  abbrev pub IsChain : F → List (Period F) → Type 0
  IsChain default [] = Unit
  IsChain default (p ∷ []) = Unit
  IsChain default (p ∷ q ∷ ps) = Follows default p q × IsChain default (q ∷ ps)

  -- the rows: closed periods, each followed by the next, and the open one, inserted last
  pub record IsBook (default : F) (front : List (Period F)) (a : Period F) (s : Store F)
      : Type 0 where
    pub rows : s.periods ≡ front ++ (a ∷ [])
    pub closed : All (λ p. p.closed ≡ true) front
    pub older : All (λ p. p.id < a.id) front
    pub is_open : a.closed ≡ false
    pub fresh : a.id < s.next_id
    pub end : IsEnd a.period_end
    pub chain : IsChain default (front ++ (a ∷ []))

  IsChain-snoc :
      (default : F) (front : List (Period F)) (a b : Period F)
      → IsChain default (front ++ (a ∷ []))
      → Follows default a b
      → IsChain default ((front ++ (a ∷ [])) ++ (b ∷ []))
  IsChain-snoc default [] a b h l = (l, tt)
  IsChain-snoc default (p ∷ []) a b (k, h) l = (k, (l, tt))
  IsChain-snoc default (p ∷ q ∷ ps) a b (k, h) l = (k, IsChain-snoc default (q ∷ ps) a b h l)

  -- The last row may change its end of the account.
  IsChain-last :
      (default : F) (front : List (Period F)) (a a' : Period F)
      → a'.period_start ≡ a.period_start
      → (a'.starting_capital ≡ a.starting_capital) ⊎ (a'.starting_capital ≡ default)
      → IsChain default (front ++ (a ∷ []))
      → IsChain default (front ++ (a' ∷ []))
  IsChain-last default [] a a' e c h = tt
  IsChain-last default (p ∷ []) a a' e c (l, _) =
      (record { next_start = e ∙ l.next_start; capital = capital_of c l.capital }, tt)
    where
      capital_of :
          (a'.starting_capital ≡ a.starting_capital) ⊎ (a'.starting_capital ≡ default)
          → (p.ending_capital ≡ some a.starting_capital) ⊎ (a.starting_capital ≡ default)
          → (p.ending_capital ≡ some a'.starting_capital) ⊎ (a'.starting_capital ≡ default)
      capital_of (inr d) _ = inr d
      capital_of (inl k) (inl x) = inl (x ∙ ap some (sym k))
      capital_of (inl k) (inr x) = inr (k ∙ x)
  IsChain-last default (p ∷ q ∷ ps) a a' e c (l, h) = (l, IsChain-last default (q ∷ ps) a a' e c h)

  latest_open-last :
      (front : List (Period F)) (a : Period F)
      → All (λ p. p.closed ≡ true) front
      → a.closed ≡ false
      → latest_open (front ++ (a ∷ [])) ≡ some a
  unfolding latest_open
  latest_open-last [] a h o = rw o refl
  latest_open-last (p ∷ ps) a (e, h) o = rw e (latest_open-last ps a h o)

  -- The open row of the books is the one that a lookup finds.
  pub get_active_period-IsBook :
      {default : F} {front : List (Period F)} {a : Period F} (s : Store F)
      → IsBook default front a s
      → get_active_period s ≡ some a
  unfolding get_active_period
  get_active_period-IsBook {front = front} {a = a} s b =
      ap latest_open b.rows ∙ latest_open-last front a b.closed b.is_open

  replace_row-last :
      (front : List (Period F)) (a a' : Period F)
      → a'.id ≡ a.id
      → All (λ p. p.id < a.id) front
      → replace_row a' (front ++ (a ∷ [])) ≡ front ++ (a' ∷ [])
  unfolding replace_row
  replace_row-last [] a a' e h = ground arith
  replace_row-last (p ∷ ps) a a' e (l, h) =
      let ne : (p.id == a'.id) ≡ false = ground arith in
      rw ne (ap (λ r. p ∷ r) (replace_row-last ps a a' e h))

module _ {F : Type 0} ⦃f : Float F⦄ (default : F) where
  next_capital-Follows :
      (p : Period F) (c : F)
      → p.ending_capital ≡ some c
      → (p.ending_capital ≡ some (next_capital default p)) ⊎ (next_capital default p ≡ default)
  unfolding next_capital
  next_capital-Follows p c e = elim (Bool-cases (f.le c nought)) [
    | inl low ↦ inr (rw (e, low) refl)
    | inr high ↦ inl (rw (e, high) refl)
  ]

  -- What the loop returns: books whose open period has not ended, and started by the day of rank `b`.
  pub record IsCurrent (b : ℕ) (today : Date) (r : Option (Period F × Store F)) : Type 0 where
    pub period : Period F
    pub store : Store F
    pub front : List (Period F)
    pub returns : r ≡ some (period, store)
    pub book : IsBook default front period store
    pub covers : date_lt period.period_end today ≡ false
    pub started : rank period.period_start ≤ b

module _ {F : Type 0} ⦃f : Float F⦄ (sql_sum : List F → Option F) (default : F) where
  -- A round keeps the books and moves the end of the open period to a later day.
  pub roll-IsBook :
      (front : List (Period F)) (a : Period F) (s : Store F)
      → IsBook default front a s
      → let (a', s') = roll sql_sum default s a in
        (front' : List (Period F)) × IsBook default front' a' s'
        × (rank a.period_end < rank a'.period_end)
        × (a'.period_start ≡ next_day a.period_end)
  unfolding roll close_period closed_row merge create_period
  roll-IsBook front a s b =
      let c = closed_row sql_sum s a in
      let start = next_day a.period_end in
      let e = next_day-IsEnd a.period_end b.end in
      (
        front ++ (c ∷ []),
        record {
          rows =
              ap (λ r. r ++ ((roll sql_sum default s a).0 ∷ []))
                (ap (replace_row c) b.rows ∙ replace_row-last front a c refl b.older);
          closed = All-append _ front (c ∷ []) b.closed (refl, tt);
          older =
              All-append (λ p. p.id < s.next_id) front (c ∷ [])
                (All-map (λ p l. omega (arith, b.fresh)) front b.older) (b.fresh, tt);
          is_open = refl;
          fresh = omega arith;
          end = bounds-IsEnd start e;
          chain =
              IsChain-snoc default front c _
                (IsChain-last default front a c refl (inl refl) b.chain)
                (record { next_start = refl; capital = next_capital-Follows default c _ refl });
        },
        omega (
          arith,
          rank-next_day a.period_end b.end.valid,
          (capital_period_bounds_contain start e.valid e.late).1,
        ),
        refl,
      )

  -- With the rank of `today` as fuel the loop comes to an end.
  pub roll_until-IsCurrent :
      (fuel l : ℕ) (today : Date) (front : List (Period F)) (a : Period F) (s : Store F)
      → IsDate today
      → rank today ≤ l
      → rank today ≤ rank a.period_end + fuel
      → rank a.period_start ≤ l
      → IsBook default front a s
      → IsCurrent default l today (roll_until sql_sum fuel default today s a)
  unfolding roll_until
  roll_until-IsCurrent zero l today front a s v t h q b =
      let c : date_lt a.period_end today ≡ false =
        ground (arith, date_lt-rank a.period_end today b.end.valid v) in
      rw (c, roll_until)
        record {
          period = a;
          store = s;
          front = front;
          returns = refl;
          book = b;
          covers = c;
          started = q;
        }
  roll_until-IsCurrent (suc fuel) l today front a s v t h q b =
      elim (Bool-cases (date_lt a.period_end today)) [
        | inl over ↦
            let (front', b', later, start) = roll-IsBook front a s b in
            let (a', s') = roll sql_sum default s a in
            let before : rank a.period_end < rank today =
              ground (arith, date_lt-rank a.period_end today b.end.valid v, over) in
            let by : rank a'.period_start ≤ rank today =
              subst (λ d. rank d ≤ rank today) (sym start)
                (next_day-first a.period_end today b.end.valid v before) in
            rw (over, roll_until)
              (roll_until-IsCurrent fuel l today front' a' s' v t (omega arith)
                (omega (arith, by, t)) b')
        | inr c ↦
            rw (c, roll_until)
              record {
                period = a;
                store = s;
                front = front;
                returns = refl;
                book = b;
                covers = c;
                started = q;
              }
      ]

module _ {F : Type 0} ⦃f : Float F⦄ (default : F) where
  -- Healing keeps the books, and leaves an open period that starts from more than nothing.
  pub heal-IsBook :
      (front : List (Period F)) (a : Period F) (s : Store F)
      → IsBook default front a s
      → let (a', s') = heal default (a, s) in
        IsBook default front a' s'
        × (a'.period_end ≡ a.period_end)
        × (a'.period_start ≡ a.period_start)
  unfolding heal merge
  heal-IsBook front a s b = elim (Bool-cases (f.le a.starting_capital nought)) [
    | inr fine ↦ rw fine (b, refl, refl)
    | inl low ↦
        let a' : Period F = record a { starting_capital = default } in
        rw low (
          record {
            rows = ap (replace_row a') b.rows ∙ replace_row-last front a a' refl b.older;
            closed = b.closed;
            older = b.older;
            is_open = b.is_open;
            fresh = b.fresh;
            end = b.end;
            chain = IsChain-last default front a a' refl (inr refl) b.chain;
          },
          refl,
          refl,
        )
  ]

  pub heal-capital :
      (a : Period F) (s : Store F)
      → f.le default nought ≡ false
      → f.le (heal default (a, s)).0.starting_capital nought ≡ false
  unfolding heal
  heal-capital a s d = elim (Bool-cases (f.le a.starting_capital nought)) [
    | inl low ↦ rw low d
    | inr fine ↦ rw fine fine
  ]
