-- ===== src/Orders/Text.antt =====
-- The texts of an order: its broker tag (core/utils.py) and the case of a status.
use stocks_fno.Prelude.{
  ℕ, zero, suc, ◌-◌, ◌/◌, ◌%◌, ◌&&◌, List, [], ◌∷◌, String, ltb, leb, get_or, if◌then◌else◌,
}
use Prim.Native.String.{◌++◌ as append, char_at}
use Prim.Native.Char.{code}
use stocks_fno.Risk.Underlying.{prefix_of}

-- `str.upper()`, on the letters of ASCII
unfoldable pub upper : String → String
upper String.[] = ""
upper (String.◌∷◌ c s) =
    String.◌∷◌
      (if leb 97 (code c) && leb (code c) 122
        then char_at "ABCDEFGHIJKLMNOPQRSTUVWXYZ" (code c - 97)
        else c)
      (upper s)

abbrev digits : List String
digits = "0" ∷ "1" ∷ "2" ∷ "3" ∷ "4" ∷ "5" ∷ "6" ∷ "7" ∷ "8" ∷ "9" ∷ []

-- `str(n)` of a number with at most `fuel` digits
abbrev decimal : ℕ → ℕ → String
decimal zero n = ""
decimal (suc fuel) n =
    let rest = decimal fuel (n / 10) in
    if ltb n 10 then get_or digits n "" else append rest (get_or digits (n % 10) "")

-- `str(id)`: a key of the database is a `BigInteger`, which has at most 19 digits
unfoldable pub str_of_id : ℕ → String
str_of_id n = decimal 19 n

unfoldable pub broker_order_tag : String → String
broker_order_tag id = prefix_of 20 (append "ft" id)
