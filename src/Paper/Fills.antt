-- ===== src/Paper/Fills.antt =====
-- The price model of `PaperBroker`: `_transaction_fees`, `_fill_simulation`, `_bid_ask_half_spread`
-- and the fill price of `place_order` (paper_trading/paper_broker.py). The two random draws of a
-- call are arguments.
use stocks_fno.Prelude.{Bool, if◌then◌else◌}
use stocks_fno.Int.{ℤ}
use stocks_fno.Float.{Float, nought, py_max}
use stocks_fno.Risk.Validate.{Side, is_buy}

module _ {F : Type 0} ⦃f : Float F⦄ where
  unfoldable pub transaction_fees : Side → ℤ → F → F
  transaction_fees side quantity price =
      let turnover = f.mul (f.of_int quantity) price in
      let brokerage = f.lit 20 0 in
      let stt = if is_buy side then nought else f.mul turnover (f.lit 15 4) in
      let exchange = f.mul turnover (f.lit 3553 7) in
      let sebi = f.mul turnover (f.lit 1 6) in
      let gst = f.mul (f.add (f.add brokerage exchange) sebi) (f.lit 18 2) in
      let stamp = if is_buy side then f.mul turnover (f.lit 3 5) else nought in
      f.round (f.add (f.add (f.add (f.add (f.add brokerage stt) exchange) gst) sebi) stamp) 2

  -- the probability of a rejection, and the largest extra slippage as a fraction of the price
  unfoldable pub fill_simulation : F → F × F
  fill_simulation price =
      if f.le price (f.lit 30 2)
      then (f.lit 5 2, f.lit 30 2)
      else if f.le price (f.lit 1 0)
      then (f.lit 2 2, f.lit 15 2)
      else if f.le price (f.lit 5 0)
      then (f.lit 1 2, f.lit 5 2)
      else (f.lit 5 3, nought)

  unfoldable pub bid_ask_half_spread : F → F
  bid_ask_half_spread price =
      if f.le price (f.lit 30 2)
      then f.mul price (f.lit 40 2)
      else if f.le price (f.lit 75 2)
      then f.mul price (f.lit 20 2)
      else if f.le price (f.lit 2 0)
      then f.mul price (f.lit 10 2)
      else if f.le price (f.lit 5 0)
      then f.mul price (f.lit 6 2)
      else f.mul price (f.lit 3 2)

  -- The draw of the rejection falls below its probability.
  unfoldable pub is_rejected : F → F → Bool
  is_rejected price draw = f.lt draw (fill_simulation price).0

  unfoldable pub fill_price : Side → F → F → F
  unfolding fill_simulation bid_ask_half_spread py_max
  fill_price side price draw =
      let half_spread = bid_ask_half_spread price in
      let frac = (fill_simulation price).1 in
      let extra_slip = if f.lt nought frac then f.mul (f.mul price frac) draw else nought in
      let raw =
        if is_buy side
        then f.add (f.add price half_spread) extra_slip
        else f.sub (f.sub price half_spread) extra_slip in
      f.round (py_max raw (f.lit 5 2)) 2
