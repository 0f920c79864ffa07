-- ===== src/Dict.antt =====
-- A Python `dict` with string keys, in insertion order.
use stocks_fno.Prelude.{
  ◌≡◌, refl, sym, ap, subst, subst₂, ◌≢◌, All, Bool-cases, inl, inr, get_or_else, Option, none,
  some, List, [], ◌∷◌, String, str_eq, eq_iff, arith, if◌then◌else◌,
}

abbrev pub Dict {ℓ} : Type ℓ → Type ℓ
Dict V = List (String × V)

module _ {ℓ} {V : Type ℓ} where
  -- `d.get(k)`
  unfoldable pub lookup : String → Dict V → Option V
  lookup k [] = none
  lookup k ((j, v) ∷ d) = if str_eq j k then some v else lookup k d

  -- `d[k] = v`
  unfoldable pub insert : String → V → Dict V → Dict V
  insert k v [] = (k, v) ∷ []
  insert k v ((j, w) ∷ d) = if str_eq j k then (j, v) ∷ d else (j, w) ∷ insert k v d

  -- `d.pop(k, None)`, the new dict
  unfoldable pub remove : String → Dict V → Dict V
  remove k [] = []
  remove k ((j, w) ∷ d) = if str_eq j k then remove k d else (j, w) ∷ remove k d

  pub lookup-insert :
      (j k : String) (v : V) (d : Dict V)
      → lookup j (insert k v d) ≡ (if str_eq k j then some v else lookup j d)
  unfolding lookup insert
  lookup-insert j k v [] = refl
  lookup-insert j k v ((i, w) ∷ d) =
      ground (arith, eq_iff k j, eq_iff i k, eq_iff i j, lookup-insert j k v d)

  pub lookup-remove :
      (j k : String) (d : Dict V)
      → lookup j (remove k d) ≡ (if str_eq k j then none else lookup j d)
  unfolding lookup remove
  lookup-remove j k [] = ground arith
  lookup-remove j k ((i, w) ∷ d) =
      ground (arith, eq_iff k j, eq_iff i k, eq_iff i j, lookup-remove j k d)

  pub lookup-insert_self : (k : String) (v : V) (d : Dict V) → lookup k (insert k v d) ≡ some v
  lookup-insert_self k v d = ground (arith, lookup-insert k k v d, eq_iff k k)

  pub lookup-insert_ne :
      (j k : String) (v : V) (d : Dict V) → k ≢ j → lookup j (insert k v d) ≡ lookup j d
  lookup-insert_ne j k v d h = ground (arith, lookup-insert j k v d, eq_iff k j)

  -- what holds of every entry of a dict
  pub All-insert :
      (P : String × V → Type 0) (k : String) (v : V) (d : Dict V)
      → P (k, v)
      → All P d
      → All P (insert k v d)
  unfolding insert
  All-insert P k v [] p h = (p, tt)
  All-insert P k v ((j, w) ∷ d) p (q, h) = elim (Bool-cases (str_eq j k)) [
    | inl e ↦ rw e (subst (λ i. P (i, v)) (sym ((eq_iff j k).0 e)) p, h)
    | inr e ↦ rw e (q, All-insert P k v d p h)
  ]

  pub All-remove :
      (P : String × V → Type 0) (k : String) (d : Dict V) → All P d → All P (remove k d)
  unfolding remove
  All-remove P k [] h = tt
  All-remove P k ((j, w) ∷ d) (q, h) = elim (Bool-cases (str_eq j k)) [
    | inl e ↦ rw e (All-remove P k d h)
    | inr e ↦ rw e (q, All-remove P k d h)
  ]

  pub All-lookup :
      (P : String × V → Type 0) (k : String) (v : V) (d : Dict V)
      → All P d
      → lookup k d ≡ some v
      → P (k, v)
  unfolding lookup
  All-lookup P k v [] h e = absurd (ground (arith, e))
  All-lookup P k v ((j, w) ∷ d) (q, h) e = elim (Bool-cases (str_eq j k)) [
    | inl c ↦
        let same : w ≡ v = ap (λ z. get_or_else z w) (rw c at e) in
        subst₂ (λ i u. P (i, u)) ((eq_iff j k).0 c) same q
    | inr c ↦ All-lookup P k v d h (rw c at e)
  ]
