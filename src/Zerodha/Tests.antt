-- ===== src/Zerodha/Tests.antt =====
-- Checks of the Zerodha orders (brokers/zerodha.py) against a broker that loses its answers.
use stocks_fno.Prelude.{
  ℕ, zero, suc, ◌+◌, ◌≤◌, ◌<◌, ◌≡◌, refl, false, Option, none, some, List, [], String, arith,
  replicate, subst, ap,
}
use stocks_fno.Int.{pos}
use stocks_fno.Float.Fixed.{Fixed, fixed_float}
use stocks_fno.Risk.Validate.{buy}
use stocks_fno.Orders.Store.{BrokerOrder, Submission, find_live, present}
use stocks_fno.Zerodha.Place.{Kite, placed, retryable, place_order}
use stocks_fno.Zerodha.Once.{IsTagged, place_order_once}

abbrev kept : BrokerOrder Fixed
kept = record {
  order_id = "k1";
  tag = some "ft7";
  status = some "OPEN";
  fill_price = none;
  average_price = none;
  filled_quantity = none;
}

-- Each order is taken, and its answer is lost. The state counts the orders that were taken.
abbrev lossy : Kite Fixed ℕ
lossy = record {
  place_order = λ p w. (retryable, suc w);
  orders = λ w. (some (replicate w kept), w);
}

abbrev order : Submission Fixed
order = record {
  symbol = "RELIANCE26DEC3000CE";
  side = buy;
  quantity = pos 500;
  price = fixed_float.lit 20 0;
  is_exit_order = false;
  strategy_name = some "ema_crossover_v1";
  product_override = none;
  client_order_id = "7";
}

lossy-lists :
    (w : ℕ) → 0 < w → (id : String) × (present (find_live "ft7" (replicate w kept)) ≡ some id)
unfolding find_live
lossy-lists zero h = absurd (omega arith)
lossy-lists (suc w) h = ("k1", refl)

abbrev list_of : Option (List (BrokerOrder Fixed)) → List (BrokerOrder Fixed)
list_of none = []
list_of (some bs) = bs

listed_eq :
    {xs ys : List (BrokerOrder Fixed)}
    → Path (Option (List (BrokerOrder Fixed))) (some xs) (some ys)
    → xs ≡ ys
listed_eq e = ap list_of e

lossy-IsTagged : IsTagged lossy "ft7" (λ w. w) (λ _. 0)
lossy-IsTagged = record {
  place_adds = λ p w. omega arith;
  place_asks = λ p w. refl;
  orders_keep = λ w. refl;
  orders_count = λ w. refl;
  orders_list = λ w bs e h.
      subst (λ q. (id : String) × (present (find_live "ft7" q) ≡ some id)) (listed_eq e)
        (lossy-lists w h);
}

place_order_once_example : (place_order lossy order 0).1 + 0 ≤ 1 + 0
unfolding stocks_fno.Orders.Text.broker_order_tag stocks_fno.Risk.Underlying.prefix_of
place_order_once_example =
    place_order_once lossy "ft7" (λ w. w) (λ _. 0) lossy-IsTagged order 0 refl refl

-- The second attempt finds the order of the first.
found_again : (place_order lossy order 0).0 ≡ placed "k1"
unfolding place_order find_live stocks_fno.Orders.Text.broker_order_tag
    stocks_fno.Risk.Underlying.prefix_of
found_again = refl

-- When the list of orders cannot be read, each attempt places an order of its own.
abbrev unreadable : Kite Fixed ℕ
unreadable = record lossy { orders = λ w. (none, w) }

placed_three_times : (place_order unreadable order 0).1 ≡ 3
unfolding place_order
placed_three_times = refl
