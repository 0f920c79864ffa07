-- ===== src/Calendar/Later.antt =====
-- The days after a day (core/utils.py, market_data/event_calendar.py), and how their ranks go.
use stocks_fno.Prelude.{
  ℕ, zero, suc, ◌+◌, ◌≤◌, ◌<◌, ◌≡◌, ◌↔◌, arith, inl, inr, Bool-cases, ◌==◌, ==_iff,
}
use stocks_fno.Calendar.{Date, IsDate, next_day}
use stocks_fno.Calendar.Days.{rank, next_day-IsDate, rank-next_day, days_in_month_bounds}
use stocks_fno.Calendar.Periods.{rank-next_day_least}

-- the day so many days later
abbrev pub later : ℕ → Date → Date
later zero d = d
later (suc j) d = later j (next_day d)

pub later-IsDate : (j : ℕ) (d : Date) → IsDate d → IsDate (later j d)
later-IsDate zero d v = v
later-IsDate (suc j) d v = later-IsDate j (next_day d) (next_day-IsDate d v)

pub rank-later : (j : ℕ) (d : Date) → IsDate d → rank d + j ≤ rank (later j d)
rank-later zero d v = omega arith
rank-later (suc j) d v =
    omega (arith, rank-next_day d v, rank-later j (next_day d) (next_day-IsDate d v))

-- Later days have greater ranks, and only they.
pub rank-later_iff :
    (j k : ℕ) (d : Date) → IsDate d → (rank (later k d) < rank (later j d)) ↔ (k < j)
rank-later_iff zero k d v = (λ h. omega (arith, rank-later k d v), λ h. absurd (omega arith))
rank-later_iff (suc j) zero d v = (λ h. omega arith, λ h. omega (arith, rank-later (suc j) d v))
rank-later_iff (suc j) (suc k) d v =
    let x = rank-later_iff j k (next_day d) (next_day-IsDate d v) in
    (λ h. omega (arith, x.0 h), λ h. x.1 (omega arith))

rank-injective : (a b : Date) → IsDate a → IsDate b → rank a ≡ rank b → a ≡ b
rank-injective a b va vb h =
    let p = days_in_month_bounds a.year a.month in
    let q = days_in_month_bounds b.year b.month in
    let y : a.year ≡ b.year = omega (
      arith, va.month_le, vb.month_le, va.day_le, vb.day_le, va.month_pos, vb.month_pos, va.day_pos,
      vb.day_pos,
    ) in
    let m : a.month ≡ b.month = omega (arith, va.day_le, vb.day_le, va.day_pos, vb.day_pos) in
    let d : a.day ≡ b.day = omega arith in λ i. record { year = y i; month = m i; day = d i }

-- Every day from a day on is so many days later.
pub reach :
    (fuel : ℕ) (d e : Date)
    → IsDate d
    → IsDate e
    → rank d ≤ rank e
    → rank e ≤ rank d + fuel
    → (j : ℕ) × (later j d ≡ e)
reach zero d e vd ve h b = (0, rank-injective d e vd ve (omega arith))
reach (suc fuel) d e vd ve h b = elim (Bool-cases (rank d == rank e)) [
  | inl same ↦ (0, rank-injective d e vd ve ((==_iff (rank d) (rank e)).0 same))
  | inr other ↦
      let less : rank d < rank e = ground (arith, ==_iff (rank d) (rank e)) in
      let (j, p) =
        reach fuel (next_day d) e (next_day-IsDate d vd) ve (rank-next_day_least d e vd ve less)
          (omega (arith, rank-next_day d vd)) in
      (suc j, p)
]
