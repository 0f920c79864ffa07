-- ===== src/Monitor/Drawdown.antt =====
-- The rolling drawdown bounds every drawdown on the way (risk/strategy_monitor.py).
use stocks_fno.Prelude.{
  ◌≡◌, refl, ap, ap₂, subst, true, some, List, [], ◌∷◌, ◌++◌, Bool-cases, inl, inr,
}
use stocks_fno.Float.{Float, IsOrdered, IsNum, nought, py_max}
use stocks_fno.Monitor.Metrics.{
  Trade, Curve, flat_curve, extend, curve, chronological, rolling_drawdown,
}

module _ {F : Type 0} ⦃f : Float F⦄ where
  -- how far the curve stands below its peak
  abbrev pub drawdown : Curve F → F
  drawdown c = f.sub c.peak c.cumulative

  -- Every drawdown on the way is a number.
  abbrev pub AreNums : Curve F → List F → Type 0
  AreNums c [] = Unit
  AreNums c (p ∷ ps) = IsNum (drawdown (extend c p)) × AreNums (extend c p) ps

module _ {F : Type 0} ⦃f : Float F⦄ where
  -- The sums of the first profits, of the first two and so on, from `a` on; the last of them; and the
  -- highest of them and `m`.
  abbrev pub sums : F → List F → List F
  sums a [] = []
  sums a (p ∷ ps) = f.add a p ∷ sums (f.add a p) ps

  abbrev pub total : F → List F → F
  total a [] = a
  total a (p ∷ ps) = total (f.add a p) ps

  unfoldable pub highest : F → List F → F
  unfolding py_max
  highest m [] = m
  highest m (s ∷ ss) = highest (py_max m s) ss

  -- how far the sum of all profits lies below the highest sum on the way, which is at least zero
  unfoldable pub fall : List F → F
  unfolding highest
  fall ps = f.sub (highest nought (sums nought ps)) (total nought ps)

  curve-total : (c : Curve F) (ps : List F) → (curve c ps).cumulative ≡ total c.cumulative ps
  unfolding curve extend
  curve-total c [] = refl
  curve-total c (p ∷ ps) = curve-total (extend c p) ps

  curve-highest :
      (c : Curve F) (ps : List F) → (curve c ps).peak ≡ highest c.peak (sums c.cumulative ps)
  unfolding curve extend highest py_max
  curve-highest c [] = refl
  curve-highest c (p ∷ ps) = curve-highest (extend c p) ps

  drawdown-fall : (ps : List F) → drawdown (curve flat_curve ps) ≡ fall ps
  unfolding fall
  drawdown-fall ps = ap₂ f.sub (curve-highest flat_curve ps) (curve-total flat_curve ps)

module _ {F : Type 0} ⦃f : Float F⦄ (laws : IsOrdered F) where
  extend_lem :
      (c : Curve F) (p : F)
      → IsNum c.max_dd
      → IsNum (drawdown (extend c p))
      → (f.le c.max_dd (extend c p).max_dd ≡ true)
        × (f.le (drawdown (extend c p)) (extend c p).max_dd ≡ true)
  unfolding extend
  extend_lem c p n n' = elim (Bool-cases (f.lt c.max_dd (drawdown (extend c p)))) [
    | inl e ↦ rw e (laws.le_of_lt _ _ e, laws.le_refl _ n')
    | inr e ↦ rw e (laws.le_refl _ n, laws.le_of_not-lt _ _ n' n e)
  ]

  curve_max :
      (c : Curve F) (ps : List F)
      → IsNum c.max_dd
      → AreNums c ps
      → f.le c.max_dd (curve c ps).max_dd ≡ true
  unfolding curve
  curve_max c [] n a = laws.le_refl _ n
  curve_max c (p ∷ ps) n (n', a) =
      let (up, _) = extend_lem c p n n' in
      laws.le_trans _ _ _ up (curve_max (extend c p) ps (laws.num_right_of_le _ _ up) a)

  curve_bound :
      (c : Curve F) (p : F) (xs ys : List F)
      → IsNum c.max_dd
      → AreNums c ((p ∷ xs) ++ ys)
      → f.le (drawdown (curve c (p ∷ xs))) (curve c ((p ∷ xs) ++ ys)).max_dd ≡ true
  unfolding curve
  curve_bound c p [] ys n (n', a) =
      let (up, dd) = extend_lem c p n n' in
      laws.le_trans _ _ _ dd (curve_max (extend c p) ys (laws.num_right_of_le _ _ up) a)
  curve_bound c p (q ∷ xs) ys n (n', a) =
      let (up, _) = extend_lem c p n n' in
      curve_bound (extend c p) q xs ys (laws.num_right_of_le _ _ up) a

  -- After each trade of the window, the sum of the profits so far lies below the highest of the sums
  -- so far, or below zero, by at most the reported drawdown, where the drawdowns on the way are
  -- numbers.
  pub rolling_drawdown_bounds :
      (t : Trade F) (ts : List (Trade F)) (p : F) (xs ys : List F)
      → chronological (t ∷ ts) ≡ (p ∷ xs) ++ ys
      → AreNums flat_curve ((p ∷ xs) ++ ys)
      → (d : F) × (rolling_drawdown (t ∷ ts) ≡ some d) × (f.le (fall (p ∷ xs)) d ≡ true)
  unfolding rolling_drawdown
  rolling_drawdown_bounds t ts p xs ys e a =
      let d = (curve flat_curve ((p ∷ xs) ++ ys)).max_dd in
      (
        d,
        ap (λ q. some (curve flat_curve q).max_dd) e,
        subst (λ z. f.le z d ≡ true) (drawdown-fall (p ∷ xs))
            (curve_bound flat_curve p xs ys (laws.lit_num 0 0) a),
      )
