-- ===== src/Float/Fixed.antt =====
-- The laws of `Float` can be met: numbers with four decimals, and NaN.
use stocks_fno.Prelude.{
  ℕ, ◌+◌, ◌*◌, ◌/◌, ◌-◌, ◌^◌, Bool, false, Option, none, some, arith, if◌then◌else◌, ◌==◌,
}
use stocks_fno.Int.{
  ℤ, pos, negsuc, ◌+ℤ◌, ◌-ℤ◌, ◌*ℤ◌, pos_part, neg_part, ltb_ℤ, leb_ℤ, eqb_ℤ, magnitude, sub_ℕ,
}
use stocks_fno.Float.{Float, IsOrdered}

-- `none` is NaN; `some n` is n / 10000
abbrev pub Fixed : Type 0
Fixed = Option ℤ

abbrev on_numbers : (ℤ → ℤ → Bool) → Fixed → Fixed → Bool
on_numbers t (some a) (some b) = t a b
on_numbers t _ _ = false

abbrev lift₂ : (ℤ → ℤ → ℤ) → Fixed → Fixed → Fixed
lift₂ op (some a) (some b) = some (op a b)
lift₂ op _ _ = none

abbrev lift₁ : (ℤ → ℤ) → Fixed → Fixed
lift₁ op (some a) = some (op a)
lift₁ op none = none

-- the magnitude is changed and the sign is kept
abbrev on_magnitude : (ℕ → ℕ) → ℤ → ℤ
on_magnitude g a = sub_ℕ (g (pos_part a)) (g (neg_part a))

abbrev quotient : Fixed → Fixed → Fixed
quotient (some a) (some b) =
    if magnitude b == 0
    then none
    else some (
        on_magnitude (λ n. n / magnitude b)
          (a *ℤ pos 10000 *ℤ (if ltb_ℤ b (pos 0) then negsuc 0 else pos 1)))
quotient _ _ = none

abbrev round_to : ℕ → ℕ → ℕ
round_to unit n = (n + unit / 2) / unit * unit

instance abbrev pub fixed_float : Float Fixed
fixed_float = record {
  lit = λ m e. some (pos (m * 10000 / 10 ^ e));
  of_int = λ n. some (n *ℤ pos 10000);
  add = lift₂ ◌+ℤ◌;
  sub = lift₂ ◌-ℤ◌;
  mul = lift₂ (λ a b. on_magnitude (λ n. n / 10000) (a *ℤ b));
  div = quotient;
  neg = lift₁ (λ a. pos 0 -ℤ a);
  abs = lift₁ (λ a. pos (magnitude a));
  round = λ a n. lift₁ (on_magnitude (round_to (10 ^ (4 - n)))) a;
  eqb = on_numbers eqb_ℤ;
  lt = on_numbers ltb_ℤ;
  le = on_numbers leb_ℤ;
}

pub Fixed-IsOrdered : IsOrdered Fixed
unfolding ◌-ℤ◌ ◌+ℤ◌
Fixed-IsOrdered = record {
  lit_num = λ m e. ground arith;
  le_refl = λ a. ground arith;
  num_left_of_le = λ a b. ground arith;
  num_right_of_le = λ a b. ground arith;
  le_trans = λ a b c. ground arith;
  le_of_lt = λ a b. ground arith;
  not-lt_of_le = λ a b. ground arith;
  le_of_not-lt = λ a b. ground arith;
  le-sub = λ a b. ground arith;
  le-add = λ a b. ground arith;
}
