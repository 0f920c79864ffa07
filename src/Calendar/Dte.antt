-- ===== src/Calendar/Dte.antt =====
-- What the expiry functions promise: the last Tuesday of the month, and enough days to expiry.
use stocks_fno.Prelude.{
  ℕ, zero, suc, ◌+◌, ◌-◌, ◌%◌, ◌≤◌, ◌<◌, ◌≡◌, arith, ◌==◌, ltb, inl, inr, Bool-cases, sym,
  if◌then◌else◌, ap, ap₂, subst₂,
}
use stocks_fno.Int.{ℤ, pos, ltb_ℤ, ◌≤ℤ◌, int_laws}
use stocks_fno.Calendar.{Date, date, days_in_month, ordinal, weekday, next_month, prev_day, IsDate}
use stocks_fno.Calendar.Days.{days_in_month_bounds, ordinal-next_month, ordinal-same_month}
use stocks_fno.Calendar.Expiry.{
  Moment, days_until, expiry_weekday, back_to_expiry, last_expiry_weekday, next_expiry,
  near_month_expiry, entry_expiry,
}

-- The expiry that `last_expiry_weekday` finds for a month.
pub record IsLastExpiry (y m : ℕ) (e : Date) : Type 0 where
  pub year_eq : e.year ≡ y
  pub month_eq : e.month ≡ m
  pub on_weekday : weekday e ≡ expiry_weekday
  pub day_le : e.day ≤ days_in_month y m
  pub in_last_week : days_in_month y m < e.day + 7

weekday-suc : (y m d : ℕ) → 1 < d → weekday (date y m d) ≡ (weekday (date y m (d - 1)) + 1) % 7
unfolding weekday ordinal
weekday-suc y m d h = omega arith

weekday-lt : (d : Date) → weekday d < 7
unfolding weekday
weekday-lt d = omega arith

-- With `k` days left to walk back, fuel `k + 1` reaches a Tuesday.
back_to_expiry_lem :
    (fuel y m d : ℕ)
    → fuel < d
    → (weekday (date y m d) + 6) % 7 < fuel
    → let e = back_to_expiry fuel (date y m d) in
      (e.year ≡ y) × (e.month ≡ m) × (weekday e ≡ expiry_weekday) × (e.day ≤ d) × (d < e.day + fuel)
unfolding back_to_expiry prev_day
back_to_expiry_lem zero y m d h k = absurd (omega arith)
back_to_expiry_lem (suc fuel) y m d h k =
    ground (arith, weekday-lt (date y m d), weekday-suc y m d, back_to_expiry_lem fuel y m (d - 1))

-- The last Tuesday of the month: it is a Tuesday of that month, fewer than seven days before its end.
pub last_expiry_weekday-IsLastExpiry : (y m : ℕ) → IsLastExpiry y m (last_expiry_weekday y m)
unfolding last_expiry_weekday
last_expiry_weekday-IsLastExpiry y m =
    let (year_eq, month_eq, on_weekday, day_le, near) =
      back_to_expiry_lem 7 y m (days_in_month y m) (omega (arith, days_in_month_bounds y m))
        (omega arith) in
    record {
      year_eq = year_eq;
      month_eq = month_eq;
      on_weekday = on_weekday;
      day_le = day_le;
      in_last_week = near;
    }

ordinal-eta : (y m : ℕ) (e : Date) → e.year ≡ y → e.month ≡ m → ordinal e ≡ ordinal (date y m e.day)
ordinal-eta y m e p q = ap₂ (λ a b. ordinal (date a b e.day)) p q

-- The day number of an expiry, counted back from the end of its month.
ordinal-expiry :
    (y m : ℕ) (e : Date)
    → IsLastExpiry y m e
    → ordinal e + (days_in_month y m - e.day) ≡ ordinal (date y m (days_in_month y m))
ordinal-expiry y m e x = omega (
  arith,
  ordinal-eta y m e x.year_eq x.month_eq,
  ordinal-same_month y m e.day (days_in_month y m - e.day),
  ap (λ d. ordinal (date y m d)) sum,
)
  where
    sum : e.day + (days_in_month y m - e.day) ≡ days_in_month y m
    sum = omega (arith, x.day_le)

-- Between the expiries of consecutive months lie at least four weeks.
pub expiry_gap :
    (y m : ℕ) (e e' : Date)
    → 1 ≤ y
    → 1 ≤ m
    → m ≤ 12
    → IsLastExpiry y m e
    → (let (y', m') = next_month y m in IsLastExpiry y' m' e')
    → ordinal e + 28 ≤ ordinal e'
unfolding weekday
expiry_gap y m e e' hy hm hm' x x' =
    let (y', m') = next_month y m in
    omega (
      arith,
      ordinal-expiry y m e x,
      ordinal-expiry y' m' e' x',
      ordinal-next_month y m hy hm hm',
      ordinal-same_month y' m' 1 (days_in_month y' m' - 1),
      ap (λ d. ordinal (date y' m' d)) (sum y' m'),
      days_in_month_bounds y' m',
      x.in_last_week,
      x'.in_last_week,
      x.on_weekday,
      x'.on_weekday,
    )
  where
    sum : (y' m' : ℕ) → 1 + (days_in_month y' m' - 1) ≡ days_in_month y' m'
    sum y' m' = omega (arith, days_in_month_bounds y' m')

pub next_expiry-IsLastExpiry :
    (y m : ℕ) → let (y', m') = next_month y m in IsLastExpiry y' m' (next_expiry y m)
unfolding next_expiry
next_expiry-IsLastExpiry y m = elim (Bool-cases (m == 12)) [
  | inl e ↦ rw e (last_expiry_weekday-IsLastExpiry (y + 1) 1)
  | inr e ↦ rw e (last_expiry_weekday-IsLastExpiry y (m + 1))
]

-- The expiry of the next month is at least 22 days after any day of this month.
next_expiry_far : (d : Date) → IsDate d → ordinal d + 22 ≤ ordinal (next_expiry d.year d.month)
next_expiry_far d v =
    let (y', m') = next_month d.year d.month in
    let e = next_expiry d.year d.month in
    let x = next_expiry-IsLastExpiry d.year d.month in
    omega (
      arith,
      ordinal-next_month d.year d.month v.year_pos v.month_pos v.month_le,
      ordinal-same_month d.year d.month d.day (days_in_month d.year d.month - d.day),
      ap (λ k. ordinal (date d.year d.month k)) (sum (days_in_month d.year d.month) d.day v.day_le),
      ordinal-eta y' m' e x.year_eq x.month_eq,
      ordinal-same_month y' m' 1 (e.day - 1),
      ap (λ k. ordinal (date y' m' k)) (sum e.day 1 (first x)),
      days_in_month_bounds y' m',
      x.in_last_week,
    )
  where
    sum : (n k : ℕ) → k ≤ n → k + (n - k) ≡ n
    sum n k h = omega arith

    first : {y m : ℕ} {e : Date} → IsLastExpiry y m e → 1 ≤ e.day
    first {y} {m} x = omega (arith, x.in_last_week, days_in_month_bounds y m)

-- `days_until` in natural numbers: the day of `now` counts as begun when its clock is past midnight.
days_until_le :
    (e : Date) (now : Moment) (k : ℕ)
    → ordinal now.today + (if ltb 0 now.micros then 1 else 0) + k ≤ ordinal e
    → pos k ≤ℤ days_until e now
unfolding days_until
days_until_le e now k h = omega int_laws

days_until_gap :
    (e e' : Date) (now : Moment) (k n : ℕ)
    → pos k ≤ℤ days_until e now
    → ordinal e + n ≤ ordinal e'
    → pos (k + n) ≤ℤ days_until e' now
unfolding days_until
days_until_gap e e' now k n h g = omega int_laws

-- A date that is the last expiry weekday of its own month.
pub record IsMonthlyExpiry (e : Date) : Type 0 where
  pub last : IsLastExpiry e.year e.month e
  pub year_pos : 1 ≤ e.year
  pub month_pos : 1 ≤ e.month
  pub month_le : e.month ≤ 12

IsMonthlyExpiry-of :
    (y m : ℕ) (e : Date) → IsLastExpiry y m e → 1 ≤ y → 1 ≤ m → m ≤ 12 → IsMonthlyExpiry e
IsMonthlyExpiry-of y m e x hy hm hm' = record {
  last = subst₂ (λ a b. IsLastExpiry a b e) (sym x.year_eq) (sym x.month_eq) x;
  year_pos = omega (arith, x.year_eq);
  month_pos = omega (arith, x.month_eq);
  month_le = omega (arith, x.month_eq);
}

pub last_expiry_weekday-IsMonthlyExpiry :
    (y m : ℕ) → 1 ≤ y → 1 ≤ m → m ≤ 12 → IsMonthlyExpiry (last_expiry_weekday y m)
last_expiry_weekday-IsMonthlyExpiry y m hy hm hm' =
    IsMonthlyExpiry-of y m _ (last_expiry_weekday-IsLastExpiry y m) hy hm hm'

pub next_expiry-IsMonthlyExpiry :
    (y m : ℕ) → 1 ≤ y → 1 ≤ m → m ≤ 12 → IsMonthlyExpiry (next_expiry y m)
next_expiry-IsMonthlyExpiry y m hy hm hm' =
    let (y', m') = next_month y m in
    IsMonthlyExpiry-of y' m' _ (next_expiry-IsLastExpiry y m) (ground arith) (ground arith)
      (ground arith)

-- On every valid day the near-month expiry is the last Tuesday of a month, seven whole days away
-- or more.
pub near_month_expiry_lem :
    (now : Moment)
    → IsDate now.today
    → IsMonthlyExpiry (near_month_expiry now) × (pos 7 ≤ℤ days_until (near_month_expiry now) now)
unfolding near_month_expiry
near_month_expiry_lem now v =
    let y = now.today.year in
    let m = now.today.month in
    elim (Bool-cases (ltb_ℤ (days_until (last_expiry_weekday y m) now) (pos 7))) [
      | inl soon ↦ rw soon (
        next_expiry-IsMonthlyExpiry y m v.year_pos v.month_pos v.month_le,
        days_until_le (next_expiry y m) now 7 (ground (arith, next_expiry_far now.today v)),
      )
      | inr far ↦
          rw far (
            last_expiry_weekday-IsMonthlyExpiry y m v.year_pos v.month_pos v.month_le,
            ground arith,
          )
    ]

-- On every valid day, for a floor of at most 35 days, the entry expiry is the last Tuesday of a month
-- and at least `min_dte` whole days away.
pub entry_expiry_lem :
    (min_dte : ℤ) (now : Moment)
    → IsDate now.today
    → min_dte ≤ℤ pos 35
    → IsMonthlyExpiry (entry_expiry min_dte now)
      × (min_dte ≤ℤ days_until (entry_expiry min_dte now) now)
unfolding entry_expiry
entry_expiry_lem min_dte now v h =
    let e = near_month_expiry now in
    let (x, near) = near_month_expiry_lem now v in
    elim (Bool-cases (ltb_ℤ (days_until e now) min_dte)) [
      | inl soon ↦ rw soon (
        next_expiry-IsMonthlyExpiry e.year e.month x.year_pos x.month_pos x.month_le,
        omega (
          arith,
          days_until_gap e (next_expiry e.year e.month) now 7 28 near (
              expiry_gap e.year e.month e _ x.year_pos x.month_pos x.month_le x.last
                (next_expiry-IsLastExpiry e.year e.month)),
        ),
      )
      | inr far ↦ rw far (x, ground arith)
    ]
