-- ===== src/Risk/Contract.antt =====
-- `build_option_symbol` (core/utils.py): the name of an option contract. How a strike is printed is a
-- parameter.
use stocks_fno.Prelude.{
  ℕ, zero, suc, ◌+◌, ◌/◌, ◌%◌, ◌<◌, ◌≤◌, ◌≡◌, refl, sym, ap, ap₂, ◌∙◌, Bool, true, not, ◌&&◌,
  Option, List, [], ◌∷◌, String, starts_with, elem, leb, get_or, get_or_else, arith, inl, inr,
  Bool-cases, ◌==◌, ==_iff, eq_iff, str_eq,
}
use Prim.Native.String.{◌++◌ as append, char_at}
use Prim.Native.String.append
use Prim.Native.Char.{Char, code}
use text.Mathlib.TextEquality.{starts_with_iff}
use stocks_fno.Calendar.{Date}
use stocks_fno.Calendar.Expiry.{Moment, near_month_expiry}
use stocks_fno.Constants.{fno_symbols}
use stocks_fno.Risk.Underlying.{text_length, get_underlying, get_underlying_lem}

abbrev month_abbrs : List String
month_abbrs =
    "" ∷ "JAN" ∷ "FEB" ∷ "MAR" ∷ "APR" ∷ "MAY" ∷ "JUN" ∷ "JUL" ∷ "AUG" ∷ "SEP" ∷ "OCT" ∷ "NOV"
    ∷ "DEC" ∷ []

abbrev digit : ℕ → Char
digit k = char_at "0123456789" k

-- `expiry.strftime("%y")`
unfoldable pub two_digit_year : Date → String
two_digit_year d = String.◌∷◌ (digit (d.year % 100 / 10)) (String.◌∷◌ (digit (d.year % 10)) "")

module _ {F : Type 0} (strike_str : F → String) where
  -- the symbol without an expiry is that of the near month
  unfoldable pub build_option_symbol : Moment → String → F → String → Option Date → String
  unfolding two_digit_year
  build_option_symbol now symbol strike option_type expiry =
      let e = get_or_else expiry (near_month_expiry now) in
      append symbol (
        append (two_digit_year e)
          (append (get_or month_abbrs e.month "") (append (strike_str strike) option_type)))

abbrev is_digit : Char → Bool
is_digit c = leb 48 (code c) && leb (code c) 57

abbrev is_digit_free : String → Bool
is_digit_free String.[] = true
is_digit_free (String.◌∷◌ c s) = not (is_digit c) && is_digit_free s

-- whether all digits below `n` are digits
abbrev are_digits : ℕ → Bool
are_digits zero = true
are_digits (suc n) = is_digit (digit n) && are_digits n

digit-is_digit : (n k : ℕ) → are_digits n ≡ true → k < n → is_digit (digit k) ≡ true
digit-is_digit zero k e h = absurd (omega arith)
digit-is_digit (suc n) k e h = elim (Bool-cases (k == n)) [
  | inl same ↦ ap (λ j. is_digit (digit j)) ((==_iff k n).0 same) ∙ ground arith
  | inr other ↦ digit-is_digit n k (ground arith) (ground (arith, ==_iff k n))
]

head_or : Char → String → Char
head_or d String.[] = d
head_or d (String.◌∷◌ c s) = c

tail : String → String
tail String.[] = ""
tail (String.◌∷◌ c s) = s

are_digit_free : List String → Bool
are_digit_free [] = true
are_digit_free (s ∷ ss) = is_digit_free s && are_digit_free ss

listed-digit_free :
    (t : String) (ss : List String)
    → are_digit_free ss ≡ true
    → elem t ss ≡ true
    → is_digit_free t ≡ true
unfolding are_digit_free
listed-digit_free t [] h e = absurd (ground arith)
listed-digit_free t (s ∷ ss) h e = elim (Bool-cases (str_eq s t)) [
  | inl same ↦ ap is_digit_free (sym ((eq_iff s t).0 same)) ∙ ground arith
  | inr other ↦ listed-digit_free t ss (ground arith) (ground arith)
]

fno_symbols-digit_free : are_digit_free fno_symbols ≡ true
unfolding fno_symbols are_digit_free
fno_symbols-digit_free = refl

-- A text without digits that starts another one ends before the first digit there.
cut :
    (s t u r : String) (c : Char)
    → is_digit c ≡ true
    → is_digit_free t ≡ true
    → append t u ≡ append s (String.◌∷◌ c r)
    → (v : String) × (append t v ≡ s)
unfolding head_or tail
cut s String.[] u r c d n e = (s, append.nil s)
cut String.[] (String.◌∷◌ a t) u r c d n e =
    let e' : String.◌∷◌ a (append t u) ≡ String.◌∷◌ c r =
      sym (append.cons a t u) ∙ e ∙ append.nil (String.◌∷◌ c r) in
    let same : a ≡ c = ap (head_or c) e' in
    let d' : is_digit a ≡ true = ap is_digit same ∙ d in absurd (ground arith)
cut (String.◌∷◌ b s) (String.◌∷◌ a t) u r c d n e =
    let e' : String.◌∷◌ a (append t u) ≡ String.◌∷◌ b (append s (String.◌∷◌ c r)) =
      sym (append.cons a t u) ∙ e ∙ append.cons b s (String.◌∷◌ c r) in
    let (v, h) = cut s t u r c d (ground arith) (ap tail e') in
    (v, append.cons a t v ∙ ap₂ (λ x y. String.◌∷◌ x y) (ap (head_or c) e') h)

length-append : (s t : String) → text_length (append s t) ≡ text_length s + text_length t
length-append String.[] t = omega (arith, ap text_length (append.nil t))
length-append (String.◌∷◌ c s) t =
    omega (arith, ap text_length (append.cons c s t), length-append s t)

append-empty : (s : String) → append s "" ≡ s
append-empty String.[] = append.nil ""
append-empty (String.◌∷◌ c s) = append.cons c s "" ∙ ap (λ z. String.◌∷◌ c z) (append-empty s)

-- A prefix as long as the whole is the whole.
whole : (t v s : String) → append t v ≡ s → text_length s ≤ text_length t → t ≡ s
whole t String.[] s e h = sym (append-empty t) ∙ e
whole t (String.◌∷◌ c v) s e h =
    absurd (omega (arith, length-append t (String.◌∷◌ c v), ap text_length e))

-- What follows an F&O symbol does not change what is found, if it starts with a digit.
get_underlying-append :
    (symbol r : String) (c : Char)
    → elem symbol fno_symbols ≡ true
    → is_digit c ≡ true
    → get_underlying (append symbol (String.◌∷◌ c r)) ≡ symbol
get_underlying-append symbol r c m d =
    let contract = append symbol (String.◌∷◌ c r) in
    let starts : starts_with contract symbol ≡ true =
      (starts_with_iff contract symbol).1 (String.◌∷◌ c r, refl) in
    elim (get_underlying_lem contract) [
      | inl x ↦
          let (u, e) = (starts_with_iff contract (get_underlying contract)).0 x.starts in
          let free = listed-digit_free _ fno_symbols fno_symbols-digit_free x.listed in
          let (v, h) = cut symbol (get_underlying contract) u r c d free e in
          whole (get_underlying contract) v symbol h (x.longest symbol m starts)
      | inr (_, other) ↦ absurd (ground (arith, starts, other symbol m))
    ]

module _ {F : Type 0} (strike_str : F → String) where
  -- `_get_underlying` finds the symbol again of every contract name that `build_option_symbol` makes
  -- for an F&O symbol, whatever its strike, type and expiry.
  pub get_underlying-build_option_symbol :
      (now : Moment) (symbol : String) (strike : F) (option_type : String) (expiry : Option Date)
      → elem symbol fno_symbols ≡ true
      → get_underlying (build_option_symbol strike_str now symbol strike option_type expiry)
        ≡ symbol
  unfolding build_option_symbol two_digit_year
  get_underlying-build_option_symbol now symbol strike option_type expiry m =
      let e = get_or_else expiry (near_month_expiry now) in
      let rest = append (get_or month_abbrs e.month "") (append (strike_str strike) option_type) in
      let yy = String.◌∷◌ (digit (e.year % 10)) "" in
      let split : append (two_digit_year e) rest
          ≡ String.◌∷◌ (digit (e.year % 100 / 10)) (append yy rest) =
        append.cons _ yy rest in
      ap (λ z. get_underlying (append symbol z)) split
      ∙ get_underlying-append symbol (append yy rest) _ m
          (digit-is_digit 10 (e.year % 100 / 10) refl (omega arith))
