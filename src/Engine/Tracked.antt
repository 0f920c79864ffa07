-- ===== src/Engine/Tracked.antt =====
-- The underlyings that a sync has the poller follow (live_trading/live_trading_engine.py).
use stocks_fno.Prelude.{
  ◌≡◌, ◌≢◌, get_or_else, refl, subst, ◌∙◌, true, false, not, Bool-cases, inl, inr, none, some, List,
  [], ◌∷◌, ◌++◌, ◌||◌, ◌&&◌, String, str_eq, eq_iff, elem, map, arith,
}
use stocks_fno.Dict.{Dict, lookup}
use stocks_fno.Engine.State.{Engine, add_to, discard, is_tracked}
use stocks_fno.Engine.Rebuild.{
  SingleLeg, difference, register_all, unregister_all, underlyings, has_single_leg,
  open_underlyings, sync_must_track,
}

pub elem-add_to :
    (s k : String) (ks : List String) → elem s (add_to k ks) ≡ (str_eq k s || elem s ks)
elem-add_to s k ks = elim (Bool-cases (elem k ks)) [
  | inl e ↦ elim (Bool-cases (str_eq k s)) [
    | inl c ↦ rw (e, c) (subst (λ z. elem z ks ≡ true) ((eq_iff k s).0 c) e)
    | inr c ↦ rw (e, c) refl
  ]
  | inr e ↦ rw e refl
]

elem-discard :
    (s k : String) (ks : List String) → elem s (discard k ks) ≡ (not (str_eq k s) && elem s ks)
unfolding discard
elem-discard s k [] = ground arith
elem-discard s k (j ∷ js) = ground (arith, elem-discard s k js, eq_iff j k, eq_iff j s, eq_iff k s)

elem-difference :
    (s : String) (xs ys : List String) → elem s (difference xs ys) ≡ (elem s xs && not (elem s ys))
unfolding difference
elem-difference s [] ys = refl
elem-difference s (x ∷ xs) ys = elim (Bool-cases (str_eq x s)) [
  | inl c ↦ rw ((eq_iff x s).0 c) (ground (arith, elem-difference s xs ys, eq_iff s s))
  | inr c ↦ ground (arith, elem-difference s xs ys, c)
]

elem-register_all :
    (s : String) (ss ks : List String) → elem s (register_all ss ks) ≡ (elem s ss || elem s ks)
unfolding register_all
elem-register_all s [] ks = refl
elem-register_all s (k ∷ ss) ks =
    ground (arith, elem-register_all s ss (add_to k ks), elem-add_to s k ks)

elem-unregister_all :
    (s : String) (ss ks : List String)
    → elem s (unregister_all ss ks) ≡ (not (elem s ss) && elem s ks)
unfolding unregister_all
elem-unregister_all s [] ks = refl
elem-unregister_all s (k ∷ ss) ks =
    ground (arith, elem-unregister_all s ss (discard k ks), elem-discard s k ks)

elem-append : (s : String) (xs ys : List String) → elem s (xs ++ ys) ≡ (elem s xs || elem s ys)
elem-append s [] ys = refl
elem-append s (x ∷ xs) ys = ground (arith, elem-append s xs ys)

elem-keys :
    {V : Type 0} (s : String) (d : Dict V)
    → elem s (map (λ r. r.0) d) ≡ elim (lookup s d) [ none ↦ false | some _ ↦ true ]
unfolding lookup
elem-keys s [] = refl
elem-keys s ((k, v) ∷ d) = ground (arith, elem-keys s d)

elem-underlyings :
    (u : String) (d : Dict SingleLeg) → u ≢ "" → elem u (underlyings d) ≡ has_single_leg u d
unfolding underlyings has_single_leg
elem-underlyings u [] h = refl
elem-underlyings u ((contract, info) ∷ d) h =
    let v = info.underlying in
    elim (Bool-cases (str_eq v "")) [
      | inl e ↦ rw e (ground (arith, elem-underlyings u d h, e, eq_iff v "", eq_iff v u, h))
      | inr e ↦ rw e (ground (arith, elem-underlyings u d h))
    ]

-- Whatever is registered and released on the way, the wanted ones are left.
elem-synced :
    (u : String) (wanted tracked : List String)
    → let more = register_all (difference wanted tracked) tracked in
      elem u (unregister_all (difference more wanted) more) ≡ elem u wanted
elem-synced u wanted tracked =
    let more = register_all (difference wanted tracked) tracked in
    ground (
      arith,
      elem-unregister_all u (difference more wanted) more,
      elem-difference u more wanted,
      elem-register_all u (difference wanted tracked) tracked,
      elem-difference u wanted tracked,
    )

module _ {F W : Type 0} where
  -- After a sync the poller follows a named underlying exactly where a spread, a condor or a single
  -- option on it is open, whatever the poller followed before.
  pub sync_follows_open :
      (journals : Dict SingleLeg) (e : Engine F W) (tracked : List String) (u : String)
      → u ≢ ""
      → elem u (get_or_else (sync_must_track journals e (some tracked)) [])
        ≡ (is_tracked u e || has_single_leg u journals)
  unfolding sync_must_track is_tracked
  sync_follows_open journals e tracked u h =
      elem-synced u (open_underlyings journals e) tracked
      ∙ rw
          (
            elem-append u (map (λ r. r.0) e.active_spreads ++ map (λ r. r.0) e.active_condors)
                (underlyings journals),
            elem-append u (map (λ r. r.0) e.active_spreads) (map (λ r. r.0) e.active_condors),
            elem-keys u e.active_spreads,
            elem-keys u e.active_condors,
            elem-underlyings u journals h,
          )
          refl
