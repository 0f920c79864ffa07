-- ===== src/Calendar/Periods.antt =====
-- The capital periods of `get_capital_period_bounds` partition the calendar.
use stocks_fno.Prelude.{
  ℕ, ◌+◌, ◌*◌, ◌≤◌, ◌<◌, ◌≡◌, arith, ltb, inl, inr, Bool-cases, ap₂, ℕ_discrete,
}
use stocks_fno.Calendar.{Date, days_in_month, date_lt, next_month, prev_month, next_day, IsDate}
use stocks_fno.Calendar.Days.{days_in_month_bounds, rank, date_lt-rank, rank-next_day}
use stocks_fno.Calendar.Expiry.{last_expiry_weekday, period_month, capital_period_bounds}
use stocks_fno.Calendar.Dte.{
  IsMonthlyExpiry, last_expiry_weekday-IsLastExpiry, last_expiry_weekday-IsMonthlyExpiry,
}

-- `d` lies between the first and the last day of the period.
abbrev pub InPeriod : Date → Date × Date → Type 0
InPeriod d p = (rank p.0 ≤ rank d) × (rank d ≤ rank p.1)

pub IsMonthlyExpiry-IsDate : (e : Date) → IsMonthlyExpiry e → IsDate e
IsMonthlyExpiry-IsDate e x =
    omega (arith, x.last.day_le, x.last.in_last_week, days_in_month_bounds e.year e.month)

-- An expiry stands in the last ten days of its month.
rank-expiry :
    (y m : ℕ)
    → let e = last_expiry_weekday y m in
      ((y * 12 + m) * 32 + 22 ≤ rank e) × (rank e ≤ (y * 12 + m) * 32 + 31)
rank-expiry y m =
    let x = last_expiry_weekday-IsLastExpiry y m in
    omega (arith, x.year_eq, x.month_eq, x.day_le, x.in_last_week, days_in_month_bounds y m)

-- Nothing lies between a day and the next.
pub rank-next_day_least :
    (e d : Date) → IsDate e → IsDate d → rank e < rank d → rank (next_day e) ≤ rank d
unfolding next_day
rank-next_day_least e d ve vd h = elim (Bool-cases (ltb e.day (days_in_month e.year e.month))) [
  | inl more ↦ rw more (omega arith)
  | inr last ↦ rw last (
      ground
        (arith, days_in_month_bounds e.year e.month, days_in_month_bounds d.year d.month, same))
]
  where
    same :
        e.year * 12 + e.month ≡ d.year * 12 + d.month
        → days_in_month e.year e.month ≡ days_in_month d.year d.month
    same h = let p : e.year ≡ d.year = omega arith in ap₂ days_in_month p (omega arith)

-- (y, m) is the month whose expiry ends the period of `d`.
pub record EndsIn (d : Date) (y m : ℕ) : Type 0 where
  pub year_pos : 2 ≤ y
  pub month_pos : 1 ≤ m
  pub month_le : m ≤ 12
  pub after : let (py, pm) = prev_month y m in rank (last_expiry_weekday py pm) < rank d
  pub until : rank d ≤ rank (last_expiry_weekday y m)

prev-next_month :
    (y m : ℕ) → 1 ≤ m → m ≤ 12 → let (y', m') = next_month y m in prev_month y' m' ≡ (y, m)
prev-next_month y m h h' = ground arith

-- The month before, as a month and as a number of months.
prev_month_lem :
    (y m : ℕ)
    → 2 ≤ y
    → 1 ≤ m
    → m ≤ 12
    → let (py, pm) = prev_month y m in
      (1 ≤ py) × (1 ≤ pm) × (pm ≤ 12) × (py * 12 + pm + 1 ≡ y * 12 + m)
prev_month_lem y m hy h h' = ground arith

next_month_lem :
    (y m : ℕ)
    → 1 ≤ m
    → m ≤ 12
    → let (ny, nm) = next_month y m in
      (y ≤ ny) × (1 ≤ nm) × (nm ≤ 12) × (y * 12 + m + 1 ≡ ny * 12 + nm)
next_month_lem y m h h' = ground arith

pub period_month-EndsIn :
    (d : Date) → IsDate d → 2 ≤ d.year → let (y, m) = period_month d in EndsIn d y m
unfolding period_month
period_month-EndsIn d v hy =
    let e = last_expiry_weekday d.year d.month in
    let ve =
      IsMonthlyExpiry-IsDate e
        (last_expiry_weekday-IsMonthlyExpiry d.year d.month v.year_pos v.month_pos v.month_le) in
    elim (Bool-cases (date_lt e d)) [
      | inl late ↦ rw late record {
        year_pos = omega (arith, next_month_lem d.year d.month v.month_pos v.month_le);
        month_pos = (next_month_lem d.year d.month v.month_pos v.month_le).1;
        month_le = (next_month_lem d.year d.month v.month_pos v.month_le).2;
        after =
            rw (prev-next_month d.year d.month v.month_pos v.month_le)
              ((date_lt-rank e d ve v).0 late);
        until =
            let (ny, nm) = next_month d.year d.month in
            omega (
              arith,
              next_month_lem d.year d.month v.month_pos v.month_le,
              rank-expiry ny nm,
              days_in_month_bounds d.year d.month,
            );
      }
      | inr early ↦ rw early record {
        year_pos = hy;
        month_pos = v.month_pos;
        month_le = v.month_le;
        after =
            let (py, pm) = prev_month d.year d.month in
            omega
              (arith, prev_month_lem d.year d.month hy v.month_pos v.month_le, rank-expiry py pm);
        until = ground (arith, date_lt-rank e d ve v);
      }
    ]

-- Every valid day from year 2 on lies in its own period.
pub capital_period_bounds_contain :
    (d : Date) → IsDate d → 2 ≤ d.year → InPeriod d (capital_period_bounds d)
unfolding capital_period_bounds
capital_period_bounds_contain d v hy =
    let (y, m) = period_month d in
    let (py, pm) = prev_month y m in
    let x = period_month-EndsIn d v hy in
    let (a, b, c, _) = prev_month_lem y m x.year_pos x.month_pos x.month_le in
    (
      rank-next_day_least (last_expiry_weekday py pm) d
          (IsMonthlyExpiry-IsDate _ (last_expiry_weekday-IsMonthlyExpiry py pm a b c)) v x.after,
      x.until,
    )

month_eq :
    (y m y' m' : ℕ)
    → 1 ≤ m
    → m ≤ 12
    → 1 ≤ m'
    → m' ≤ 12
    → y * 12 + m ≡ y' * 12 + m'
    → (y ≡ y') × (m ≡ m')
month_eq y m y' m' a b c d e = omega arith

-- Expiries stand in the order of their months.
rank-expiry_mono :
    (y m y' m' : ℕ)
    → 1 ≤ m
    → m ≤ 12
    → 1 ≤ m'
    → m' ≤ 12
    → y * 12 + m ≤ y' * 12 + m'
    → rank (last_expiry_weekday y m) ≤ rank (last_expiry_weekday y' m')
rank-expiry_mono y m y' m' a b c d h = elim (ℕ_discrete (y * 12 + m) (y' * 12 + m')) [
  | yes e ↦
      let (p, q) = month_eq y m y' m' a b c d e in
      omega (arith, ap₂ (λ i j. rank (last_expiry_weekday i j)) p q)
  | no ne ↦ omega (arith, rank-expiry y m, rank-expiry y' m')
]

EndsIn-not-lt :
    (d : Date) (y m y' m' : ℕ) → EndsIn d y m → EndsIn d y' m' → ¬ (y * 12 + m < y' * 12 + m')
EndsIn-not-lt d y m y' m' x x' h =
    let (py, pm) = prev_month y' m' in
    let (_, b, c, e) = prev_month_lem y' m' x'.year_pos x'.month_pos x'.month_le in
    omega (
      arith,
      rank-expiry_mono y m py pm x.month_pos x.month_le b c (omega arith),
      x.until,
      x'.after,
    )

-- The month that ends the period of a day is unique.
EndsIn-unique : (d : Date) (y m y' m' : ℕ) → EndsIn d y m → EndsIn d y' m' → (y ≡ y') × (m ≡ m')
EndsIn-unique d y m y' m' x x' =
    month_eq y m y' m' x.month_pos x.month_le x'.month_pos x'.month_le
      (omega (arith, EndsIn-not-lt d y m y' m' x x', EndsIn-not-lt d y' m' y m x' x))

period_month-same :
    (d d' : Date)
    → IsDate d
    → 2 ≤ d.year
    → IsDate d'
    → 2 ≤ d'.year
    → InPeriod d' (capital_period_bounds d)
    → ((period_month d').0 ≡ (period_month d).0) × ((period_month d').1 ≡ (period_month d).1)
unfolding capital_period_bounds
period_month-same d d' v hy v' hy' h =
    let (y, m) = period_month d in
    let (py, pm) = prev_month y m in
    let (y', m') = period_month d' in
    let x = period_month-EndsIn d v hy in
    let (a, b, c, _) = prev_month_lem y m x.year_pos x.month_pos x.month_le in
    let e = last_expiry_weekday py pm in
    let ve = IsMonthlyExpiry-IsDate e (last_expiry_weekday-IsMonthlyExpiry py pm a b c) in
    EndsIn-unique d' y' m' y m (period_month-EndsIn d' v' hy') (record {
      year_pos = x.year_pos;
      month_pos = x.month_pos;
      month_le = x.month_le;
      after = omega (arith, rank-next_day e ve, h.0);
      until = h.1;
    })

-- From year 2 on, two valid days of which one lies in the period of the other have the same period.
pub capital_period_bounds_same :
    (d d' : Date)
    → IsDate d
    → 2 ≤ d.year
    → IsDate d'
    → 2 ≤ d'.year
    → InPeriod d' (capital_period_bounds d)
    → capital_period_bounds d' ≡ capital_period_bounds d
unfolding capital_period_bounds
capital_period_bounds_same d d' v hy v' hy' h =
    let (p, q) = period_month-same d d' v hy v' hy' h in
    ap₂
      (λ y m.
        let (py, pm) = prev_month y m in
        (next_day (last_expiry_weekday py pm), last_expiry_weekday y m))
      p q

-- The last day of a period is a day.
pub capital_period_bounds-IsDate :
    (d : Date) → IsDate d → 2 ≤ d.year → IsDate (capital_period_bounds d).1
unfolding capital_period_bounds
capital_period_bounds-IsDate d v hy =
    let (y, m) = period_month d in
    let x = period_month-EndsIn d v hy in
    IsMonthlyExpiry-IsDate _
      (last_expiry_weekday-IsMonthlyExpiry y m (omega (arith, x.year_pos)) x.month_pos x.month_le)
