-- ===== src/Paper/Positions.antt =====
-- `PaperBroker._update_position` (paper_trading/paper_broker.py): a fill changes the position of its
-- symbol.
use stocks_fno.Prelude.{◌≡◌, refl, false, String, if◌then◌else◌, arith, get_or_else, str_eq}
use stocks_fno.Int.{ℤ, pos, ◌+ℤ◌, ◌-ℤ◌, leb_ℤ, ltb_ℤ, eqb_ℤ, magnitude, int_laws}
use stocks_fno.Dict.{Dict, lookup, insert, lookup-insert, lookup-insert_self}
use stocks_fno.Float.{Float, nought}
use stocks_fno.Risk.Validate.{Side, buy, sell}

-- the key "symbol" of a position is its key in the dict
pub record Position (F : Type 0) : Type 0 where
  pub quantity : ℤ
  pub avg_price : F

-- what a fill adds to the quantity
abbrev pub signed : Side → ℤ → ℤ
signed buy q = q
signed sell q = pos 0 -ℤ q

module _ {F : Type 0} ⦃f : Float F⦄ where
  abbrev pub flat : Position F
  flat = record { quantity = pos 0; avg_price = nought }

  unfoldable pub after_buy : Position F → ℤ → F → Position F
  after_buy p quantity price =
      let new_qty = p.quantity +ℤ quantity in
      let weighted =
        f.div (f.add (f.mul (f.of_int p.quantity) p.avg_price) (f.mul (f.of_int quantity) price))
          (f.of_int new_qty) in
      record {
        quantity = new_qty;
        avg_price =
            if leb_ℤ (pos 0) p.quantity
            then (if ltb_ℤ (pos 0) new_qty then weighted else nought)
            else if leb_ℤ (pos 0) new_qty
            then (if ltb_ℤ (pos 0) new_qty then price else nought)
            else p.avg_price;
      }

  unfoldable pub after_sell : Position F → ℤ → F → Position F
  after_sell p quantity price =
      let new_qty = p.quantity -ℤ quantity in
      let weighted =
        f.div
          (f.add (f.mul (f.of_int (pos (magnitude p.quantity))) p.avg_price)
            (f.mul (f.of_int quantity) price))
          (f.of_int (pos (magnitude new_qty))) in
      record {
        quantity = new_qty;
        avg_price =
            if leb_ℤ p.quantity (pos 0)
            then (if eqb_ℤ new_qty (pos 0) then nought else weighted)
            else if ltb_ℤ new_qty (pos 0)
            then price
            else if eqb_ℤ new_qty (pos 0)
            then nought
            else p.avg_price;
      }

  unfoldable pub after_fill : Position F → Side → ℤ → F → Position F
  unfolding after_buy after_sell
  after_fill p buy quantity price = after_buy p quantity price
  after_fill p sell quantity price = after_sell p quantity price

  unfoldable pub position_of : Dict (Position F) → String → Position F
  position_of ps symbol = get_or_else (lookup symbol ps) flat

  unfoldable pub update_position : Dict (Position F) → String → Side → ℤ → F → Dict (Position F)
  unfolding position_of
  update_position ps symbol side quantity price =
      insert symbol (after_fill (position_of ps symbol) side quantity price) ps

  after_fill-quantity :
      (p : Position F) (side : Side) (q : ℤ) (price : F)
      → (after_fill p side q price).quantity ≡ p.quantity +ℤ signed side q
  unfolding after_fill after_buy after_sell
  after_fill-quantity p buy q price = refl
  after_fill-quantity p sell q price = omega int_laws

  -- A position holds no average price while its quantity is zero.
  abbrev pub IsTidy : Position F → Type 0
  IsTidy p = p.quantity ≡ pos 0 → p.avg_price ≡ nought

  after_fill-IsTidy :
      (p : Position F) (side : Side) (q : ℤ) (price : F) → IsTidy (after_fill p side q price)
  unfolding after_fill after_buy after_sell ◌+ℤ◌ ◌-ℤ◌
  after_fill-IsTidy p buy q price = ground arith
  after_fill-IsTidy p sell q price = ground arith

  -- A fill moves the quantity of its symbol by its signed quantity and leaves every other position
  -- alone; a position that it closes is left with no average price.
  pub position_of-update_position :
      (ps : Dict (Position F)) (symbol other : String) (side : Side) (q : ℤ) (price : F)
      → let ps' = update_position ps symbol side q price in
        ((position_of ps' symbol).quantity ≡ (position_of ps symbol).quantity +ℤ signed side q)
        × IsTidy (position_of ps' symbol)
        × (str_eq symbol other ≡ false → position_of ps' other ≡ position_of ps other)
  unfolding update_position position_of
  position_of-update_position ps symbol other side q price = (
    rw (lookup-insert_self symbol (after_fill (position_of ps symbol) side q price) ps)
        (after_fill-quantity (position_of ps symbol) side q price),
    rw (lookup-insert_self symbol (after_fill (position_of ps symbol) side q price) ps)
        (after_fill-IsTidy (position_of ps symbol) side q price),
    λ e. rw (lookup-insert other symbol (after_fill (position_of ps symbol) side q price) ps, e),
  )
