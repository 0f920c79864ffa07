-- ===== src/Zerodha/Place.antt =====
-- `ZerodhaBroker.place_order` and its helpers (brokers/zerodha.py). The `kiteconnect` client is a
-- parameter with a state of its own.
use stocks_fno.Prelude.{
  ℕ, zero, suc, Bool, true, false, ◌||◌, Option, none, some, List, [], ◌∷◌, String, str_eq,
  if◌then◌else◌,
}
use stocks_fno.Int.{ℤ}
use stocks_fno.Risk.Validate.{Side, named_in}
use stocks_fno.Orders.Text.{broker_order_tag}
use stocks_fno.Orders.Store.{BrokerOrder, Submission, find_live, present}

pub data Exchange : Type 0 where
  nfo nse : Exchange

pub data Product : Type 0 where
  mis nrml : Product

pub data OrderType : Type 0 where
  market limit : OrderType

-- `s.endswith(t)`
unfoldable pub ends_with : String → String → Bool
ends_with String.[] t = str_eq "" t
ends_with (String.◌∷◌ c s) t = str_eq (String.◌∷◌ c s) t || ends_with s t

unfoldable pub exchange_for : String → Exchange
unfolding ends_with
exchange_for symbol = if ends_with symbol "CE" || ends_with symbol "PE" then nfo else nse

abbrev pub intraday_product_strategies : List String
intraday_product_strategies = "ema_crossover_v1" ∷ "momentum_v1" ∷ []

-- `kite.PRODUCT_MIS` and `kite.PRODUCT_NRML` are the texts "MIS" and "NRML"
unfoldable pub product_for : Option String → Option String → Product
product_for strategy override =
    if named_in override ("MIS" ∷ [])
    then mis
    else if named_in override ("NRML" ∷ [])
    then nrml
    else if named_in strategy intraday_product_strategies
    then mis
    else nrml

-- the keywords of `kite.place_order`
pub record Params (F : Type 0) : Type 0 where
  pub exchange : Exchange
  pub tradingsymbol : String
  pub transaction_type : Side
  pub quantity : ℤ
  pub product : Product
  pub order_type : OrderType
  pub price : Option F
  pub tag : Option String

-- A call of `kite.place_order` answers with the order's id, or raises what may be tried again (a
-- network or data error) or what may not.
pub data Answer : Type 0 where
  placed : String → Answer
  retryable refused : Answer

pub record Kite (F W : Type 0) : Type 0 where
  pub place_order : Params F → W → Answer × W
  -- `none` when the call raises
  pub orders : W → Option (List (BrokerOrder F)) × W

module _ {F : Type 0} where
  abbrev pub tag_for : Submission F → Option String
  tag_for r = elim (present (some r.client_order_id)) [
    | none ↦ none
    | some id ↦ some (broker_order_tag id)
  ]

  unfoldable pub params_for : Submission F → Params F
  unfolding exchange_for product_for
  params_for r = record {
    exchange = exchange_for r.symbol;
    tradingsymbol = r.symbol;
    transaction_type = r.side;
    quantity = r.quantity;
    product = product_for r.strategy_name r.product_override;
    order_type = if r.is_exit_order then market else limit;
    price = if r.is_exit_order then none else some r.price;
    tag = tag_for r;
  }

module _ {F W : Type 0} (k : Kite F W) where
  -- `_find_order_by_tag`: a lookup that fails finds nothing
  unfoldable pub find_order_by_tag : String → W → Option String × W
  find_order_by_tag tag w =
      let (listing, w') = k.orders w in
      (elim listing [ none ↦ none | some bs ↦ find_live tag bs ], w')

  -- before a second or third attempt, an order that already carries the tag
  unfoldable pub existing : Bool → Option String → W → Option String × W
  unfolding find_order_by_tag
  existing true tag w = (none, w)
  existing false none w = (none, w)
  existing false (some tag) w = let (id, w') = find_order_by_tag tag w in (present id, w')

  -- what an answer comes to, given what a further attempt would
  abbrev pub settle : Answer → W → Answer × W → Answer × W
  settle (placed id) w later = (placed id, w)
  settle refused w later = (refused, w)
  settle retryable w later = later

  abbrev pub reuse : Option String → W → Answer × W → Answer × W
  reuse (some id) w otherwise = (placed id, w)
  reuse none w otherwise = otherwise

  -- the attempts that are left; `first` marks attempt 0, and the last error is raised when none is
  -- left
  unfoldable pub attempt : ℕ → Bool → Params F → W → Answer × W
  unfolding existing
  attempt zero first p w = (retryable, w)
  attempt (suc n) first p w =
      let (id, w₁) = existing first p.tag w in
      let (answer, w₂) = k.place_order p w₁ in reuse id w₁ (settle answer w₂ (attempt n false p w₂))

  unfoldable pub place_order : Submission F → W → Answer × W
  unfolding params_for attempt
  place_order r w = attempt 3 true (params_for r) w
