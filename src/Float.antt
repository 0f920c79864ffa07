-- ===== src/Float.antt =====
-- Python's `float`, as the program uses it: the operations are an interface, with the laws that the
-- lemmas need in a record of their own, so that nothing fixes a rounding, and NaN is a value.
pub mod Fixed
use stocks_fno.Prelude.{ℕ, ◌≡◌, Bool, true, false, if◌then◌else◌}
use stocks_fno.Int.{ℤ}

pub record Float (F : Type 0) : Type 0 where
  -- the decimal literal m * 10^-e, and `float(n)` of an integer
  pub lit : ℕ → ℕ → F
  pub of_int : ℤ → F
  pub add : F → F → F
  pub sub : F → F → F
  pub mul : F → F → F
  pub div : F → F → F
  pub neg : F → F
  pub abs : F → F
  -- `round(x, n)`
  pub round : F → ℕ → F
  -- `==`, `<` and `<=`; all of them are false at NaN
  pub eqb : F → F → Bool
  pub lt : F → F → Bool
  pub le : F → F → Bool

module _ {F : Type 0} ⦃f : Float F⦄ where
  abbrev pub nought : F
  nought = f.lit 0 0

  -- Python's `max(a, b)` and `min(a, b)`: the first argument, unless the second is past it.
  unfoldable pub py_max : F → F → F
  py_max a b = if f.lt a b then b else a

  unfoldable pub py_min : F → F → F
  py_min a b = if f.lt b a then b else a

  -- The value is a number, not NaN.
  abbrev pub IsNum : F → Type 0
  IsNum a = f.eqb a a ≡ true

-- What IEEE arithmetic guarantees of the comparisons, and of one rounded subtraction.
pub record IsOrdered (F : Type 0) ⦃f : Float F⦄ : Type 0 where
  pub lit_num : (m e : ℕ) → f.eqb (f.lit m e) (f.lit m e) ≡ true
  pub le_refl : (a : F) → f.eqb a a ≡ true → f.le a a ≡ true
  pub num_left_of_le : (a b : F) → f.le a b ≡ true → f.eqb a a ≡ true
  pub num_right_of_le : (a b : F) → f.le a b ≡ true → f.eqb b b ≡ true
  pub le_trans : (a b c : F) → f.le a b ≡ true → f.le b c ≡ true → f.le a c ≡ true
  pub le_of_lt : (a b : F) → f.lt a b ≡ true → f.le a b ≡ true
  pub not-lt_of_le : (a b : F) → f.le a b ≡ true → f.lt b a ≡ false
  pub le_of_not-lt :
      (a b : F) → f.eqb a a ≡ true → f.eqb b b ≡ true → f.lt b a ≡ false → f.le a b ≡ true
  -- a difference that is a number is not negative, when the order says so
  pub le-sub :
      (a b : F)
      → f.le b a ≡ true
      → f.eqb (f.sub a b) (f.sub a b) ≡ true
      → f.le (f.lit 0 0) (f.sub a b) ≡ true
  -- nor is a rounded sum of numbers that are not
  pub le-add :
      (a b : F)
      → f.le (f.lit 0 0) a ≡ true
      → f.le (f.lit 0 0) b ≡ true
      → f.le (f.lit 0 0) (f.add a b) ≡ true
