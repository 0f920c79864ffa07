-- ===== src/Monitor/Metrics.antt =====
-- The trades that `StrategyMonitor` judges (risk/strategy_monitor.py), and its two metrics.
use stocks_fno.Prelude.{
  ℕ, ◌≡◌, Bool, true, false, Option, none, some, List, [], ◌∷◌, map, reverse, String, if◌then◌else◌,
  take, ltb, ltb→lt, ◌<◌, Bool-cases, Option-cases, arith, inl, inr,
}
use stocks_fno.Dict.{Dict, lookup, insert, lookup-insert_self}
use stocks_fno.Float.{Float, nought}

-- a row of `trade_journal`, as the repository returns it
pub record Row (F : Type 0) : Type 0 where
  pub pnl : Option F
  pub exit_time : Option ℕ

pub record Trade (F : Type 0) : Type 0 where
  pub pnl : F
  pub exit_time : Option ℕ

pub record Monitor : Type 0 where
  pub rolling_window : ℕ
  pub pause_reasons : Dict (Option String)
  pub paused_at : Dict (Option String)
  pub resumed_at : Dict ℕ

unfoldable pub mark_resumed : String → ℕ → Monitor → Monitor
mark_resumed id now m = record m {
  resumed_at = insert id now m.resumed_at;
  pause_reasons = insert id none m.pause_reasons;
  paused_at = insert id none m.paused_at;
}

module _ {F : Type 0} where
  -- `[... for r in rows if r.pnl is not None]`
  unfoldable pub with_pnl : List (Row F) → List (Trade F)
  with_pnl [] = []
  with_pnl (r ∷ rs) =
      let rest = with_pnl rs in
      elim r.pnl [ none ↦ rest | some p ↦ (record { pnl = p; exit_time = r.exit_time }) ∷ rest ]

  -- `_load_recent_trades`: `rows` is what the repository answers, the strategy's rows by exit time,
  -- the latest first, or `none` when it raises; `limit` is applied by the database
  unfoldable pub load_recent_trades : Monitor → Option (List (Row F)) → List (Trade F)
  unfolding with_pnl
  load_recent_trades m none = []
  load_recent_trades m (some rows) = with_pnl (take m.rolling_window rows)

  abbrev pub exited_after : ℕ → Trade F → Bool
  exited_after t x = elim x.exit_time [ none ↦ false | some e ↦ ltb t e ]

  unfoldable pub after : ℕ → List (Trade F) → List (Trade F)
  after t [] = []
  after t (x ∷ xs) = if exited_after t x then x ∷ after t xs else after t xs

  -- `_filtered_trades`
  unfoldable pub filtered_trades : Monitor → String → Option (List (Row F)) → List (Trade F)
  unfolding load_recent_trades after
  filtered_trades m id rows =
      let trades = load_recent_trades m rows in
      elim (lookup id m.resumed_at) [ none ↦ trades | some t ↦ after t trades ]

  -- The trade has a known exit after the moment `t`.
  abbrev pub IsLater : ℕ → Trade F → Type 0
  IsLater t x = (e : ℕ) × (x.exit_time ≡ some e) × (t < e)

  -- The second list holds, in order, exactly the trades of the first with a later exit.
  pub data Remain (t : ℕ) : List (Trade F) → List (Trade F) → Type 0 where
    nothing : Remain t [] []
    stays :
        (x : Trade F) (xs ys : List (Trade F))
        → IsLater t x
        → Remain t xs ys
        → Remain t (x ∷ xs) (x ∷ ys)
    goes :
        (x : Trade F) (xs ys : List (Trade F))
        → ¬ IsLater t x
        → Remain t xs ys
        → Remain t (x ∷ xs) ys

  exited_after-IsLater : (t : ℕ) (x : Trade F) → exited_after t x ≡ true → IsLater t x
  exited_after-IsLater t x h = elim (Option-cases x.exit_time) [
    | inl e ↦ absurd (ground (arith, (rw e at h)))
    | inr (n, e) ↦ (n, e, ltb→lt t n (rw e at h))
  ]

  exited_after-not : (t : ℕ) (x : Trade F) → exited_after t x ≡ false → ¬ IsLater t x
  exited_after-not t x h (n, e, l) = absurd (ground (arith, (rw e at h), l))

  after-Remain : (t : ℕ) (xs : List (Trade F)) → Remain t xs (after t xs)
  unfolding after
  after-Remain t [] = nothing
  after-Remain t (x ∷ xs) = elim (Bool-cases (exited_after t x)) [
    | inl e ↦ rw e (stays x xs (after t xs) (exited_after-IsLater t x e) (after-Remain t xs))
    | inr e ↦ rw e (goes x xs (after t xs) (exited_after-not t x e) (after-Remain t xs))
  ]

  -- Once a strategy is resumed, the trades that count for it are, in their order, exactly those of the
  -- loaded ones that have a known exit after the moment of the resumption.
  pub resumed_trades_are_later :
      (m : Monitor) (id : String) (now : ℕ) (rows : Option (List (Row F)))
      → Remain now (load_recent_trades m rows) (filtered_trades (mark_resumed id now m) id rows)
  unfolding filtered_trades mark_resumed load_recent_trades
  resumed_trades_are_later m id now rows =
      rw (lookup-insert_self id now m.resumed_at, filtered_trades)
        (after-Remain now (load_recent_trades m rows))

module _ {F : Type 0} ⦃f : Float F⦄ where
  -- Python's `sum`, of those that pass a test
  unfoldable pub sum_if : (F → Bool) → F → List (Trade F) → F
  sum_if test acc [] = acc
  sum_if test acc (x ∷ xs) = sum_if test (if test x.pnl then f.add acc x.pnl else acc) xs

  unfoldable pub profit_factor : List (Trade F) → Option F
  unfolding sum_if
  profit_factor [] = none
  profit_factor (x ∷ xs) =
      let wins = sum_if (λ p. f.lt nought p) nought (x ∷ xs) in
      let losses = f.abs (sum_if (λ p. f.lt p nought) nought (x ∷ xs)) in
      if f.eqb losses nought then none else some (f.div wins losses)

-- the state of the drawdown loop
pub record Curve (F : Type 0) : Type 0 where
  pub cumulative : F
  pub peak : F
  pub max_dd : F

module _ {F : Type 0} ⦃f : Float F⦄ where
  abbrev pub flat_curve : Curve F
  flat_curve = record { cumulative = nought; peak = nought; max_dd = nought }

  -- one round of the loop
  unfoldable pub extend : Curve F → F → Curve F
  extend c p =
      let cumulative = f.add c.cumulative p in
      let peak = if f.lt c.peak cumulative then cumulative else c.peak in
      let dd = f.sub peak cumulative in
      record {
        cumulative = cumulative;
        peak = peak;
        max_dd = if f.lt c.max_dd dd then dd else c.max_dd;
      }

  unfoldable pub curve : Curve F → List F → Curve F
  unfolding extend
  curve c [] = c
  curve c (p ∷ ps) = curve (extend c p) ps

  -- the profits in the order of time; the trades are listed newest first
  abbrev pub chronological : List (Trade F) → List F
  chronological ts = map (λ t. t.pnl) (reverse ts)

  -- `_rolling_drawdown`
  unfoldable pub rolling_drawdown : List (Trade F) → Option F
  unfolding curve
  rolling_drawdown [] = none
  rolling_drawdown (x ∷ xs) = some (curve flat_curve (chronological (x ∷ xs))).max_dd
