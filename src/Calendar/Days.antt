-- ===== src/Calendar/Days.antt =====
-- Days, their order and their numbers (core/utils.py through `datetime`).
use stocks_fno.Prelude.{
  ℕ, zero, suc, ◌+◌, ◌-◌, ◌*◌, ◌/◌, ◌≤◌, ◌<◌, ◌≡◌, refl, ◌↔◌, inl, inr, true, arith, Bool-cases,
  ltb, ◌∙◌, subst, sym, ℕ_discrete, if◌then◌else◌,
}
use stocks_fno.Calendar.{
  Date, date, is_leap, days_in_month, days_before_month, ordinal, IsDate, date_lt, next_month,
  next_day,
}

-- Every month has 28 to 31 days.
pub days_in_month_bounds : (y m : ℕ) → (28 ≤ days_in_month y m) × (days_in_month y m ≤ 31)
unfolding days_in_month
days_in_month_bounds y m = ground arith

-- A number that orders dates as Python does.
abbrev pub rank : Date → ℕ
rank d = (d.year * 12 + d.month) * 32 + d.day

pub date_lt-rank : (a b : Date) → IsDate a → IsDate b → (date_lt a b ≡ true) ↔ (rank a < rank b)
unfolding date_lt
date_lt-rank a b va vb =
    ground (arith, days_in_month_bounds a.year a.month, days_in_month_bounds b.year b.month)

pub next_day-IsDate : (d : Date) → IsDate d → IsDate (next_day d)
unfolding next_day
next_day-IsDate d v =
    ground (arith, days_in_month_bounds (d.year + 1) 1, days_in_month_bounds d.year (d.month + 1))

pub rank-next_day : (d : Date) → IsDate d → rank d < rank (next_day d)
unfolding next_day
rank-next_day d v = ground (arith, days_in_month_bounds d.year d.month)

-- The next day is the first of all later days.
pub next_day-first :
    (d t : Date) → IsDate d → IsDate t → rank d < rank t → rank (next_day d) ≤ rank t
unfolding next_day
next_day-first d t v w h = elim (ℕ_discrete (d.year * 12 + d.month) (t.year * 12 + t.month)) [
  | no other ↦ ground (
    arith,
    days_in_month_bounds d.year d.month,
    days_in_month_bounds t.year t.month,
    v.month_pos,
    v.month_le,
    v.day_pos,
    v.day_le,
    w.month_pos,
    w.month_le,
    w.day_pos,
    w.day_le,
  )
  | yes same ↦
      let y : d.year ≡ t.year = omega (arith, v.month_pos, v.month_le, w.month_pos, w.month_le) in
      let m : d.month ≡ t.month = omega (arith, v.month_pos, v.month_le, w.month_pos, w.month_le) in
      let last : t.day ≤ days_in_month d.year d.month =
        subst (λ z. t.day ≤ days_in_month z d.month) (sym y)
          (subst (λ z. t.day ≤ days_in_month t.year z) (sym m) w.day_le) in
      ground (arith, last, days_in_month_bounds d.year d.month)
]

-- the days before the first of January of year `y`
abbrev days_before_year : ℕ → ℕ
days_before_year y = (y - 1) * 365 + (y - 1) / 4 - (y - 1) / 100 + (y - 1) / 400

abbrev days_in_year : ℕ → ℕ
days_in_year y = if is_leap y then 366 else 365

days_before_year-suc :
    (y : ℕ) → 1 ≤ y → days_before_year (y + 1) ≡ days_before_year y + days_in_year y
unfolding is_leap
days_before_year-suc y h = ground arith

days_before_month-suc :
    (y m : ℕ) → 1 ≤ m → days_before_month y m ≡ days_before_month y (m - 1) + days_in_month y m
unfolding days_before_month
days_before_month-suc y zero h = absurd (omega arith)
days_before_month-suc y (suc k) h = ground arith

days_before_month_end : (y : ℕ) → days_before_month y 12 ≡ days_in_year y
unfolding days_before_month days_in_month
days_before_month_end y = ground arith

days_before_month_first : (y : ℕ) → days_before_month y 0 ≡ 0
unfolding days_before_month
days_before_month_first y = refl

-- The first of the next month is the day after the last of this one.
pub ordinal-next_month :
    (y m : ℕ)
    → 1 ≤ y
    → 1 ≤ m
    → m ≤ 12
    → let (y', m') = next_month y m in
      ordinal (date y' m' 1) ≡ ordinal (date y m (days_in_month y m)) + 1
unfolding ordinal
ordinal-next_month y m hy hm hm' = ground (
  arith,
  days_before_year-suc y hy,
  days_before_month-suc y m hm,
  days_before_month_end y,
  days_before_month_first (y + 1),
)

pub ordinal-same_month : (y m d e : ℕ) → ordinal (date y m (d + e)) ≡ ordinal (date y m d) + e
unfolding ordinal
ordinal-same_month y m d e = omega arith

pub ordinal-next_day : (d : Date) → IsDate d → ordinal (next_day d) ≡ ordinal d + 1
unfolding next_day
ordinal-next_day d v = elim (Bool-cases (ltb d.day (days_in_month d.year d.month))) [
  | inl e ↦ rw e (ordinal-same_month d.year d.month d.day 1)
  | inr e ↦
      let last : d.day ≡ days_in_month d.year d.month = ground arith in
      rw e (ordinal-next_month d.year d.month v.year_pos v.month_pos v.month_le ∙ rw last)
]
