-- ===== src/Risk/Underlying.antt =====
-- `RiskManager._get_underlying`: the longest known symbol that starts the contract's name.
use stocks_fno.Prelude.{
  ℕ, zero, suc, ◌≤◌, ◌≡◌, refl, ◌||◌, true, false, Option, none, some, List, [], ◌∷◌, String,
  starts_with, arith, leb, leb→le, All, All-map, elem, str_eq, eq_iff, subst, ap, sym, ◌∙◌,
  Option-cases, if◌then◌else◌, Bool-cases, inl, inr, ◌⊎◌,
}
use stocks_fno.Constants.{fno_symbols}

-- `len(s)` of a text
abbrev pub text_length : String → ℕ
text_length String.[] = 0
text_length (String.◌∷◌ c s) = suc (text_length s)

-- `s[:n]`
unfoldable pub prefix_of : ℕ → String → String
prefix_of zero s = ""
prefix_of (suc n) String.[] = ""
prefix_of (suc n) (String.◌∷◌ c s) = String.◌∷◌ c (prefix_of n s)

-- `sorted(symbols, key=len, reverse=True)`: longest first, symbols of one length in their order
unfoldable pub insert_by_length : String → List String → List String
insert_by_length s [] = s ∷ []
insert_by_length s (t ∷ ts) =
    if leb (text_length t) (text_length s) then s ∷ t ∷ ts else t ∷ insert_by_length s ts

unfoldable pub sort_by_length : List String → List String
unfolding insert_by_length
sort_by_length [] = []
sort_by_length (s ∷ ss) = insert_by_length s (sort_by_length ss)

-- the loop over the sorted symbols
unfoldable pub first_prefix : String → List String → Option String
first_prefix contract [] = none
first_prefix contract (s ∷ ss) = if starts_with contract s then some s else first_prefix contract ss

unfoldable pub get_underlying : String → String
get_underlying contract = elim (first_prefix contract (sort_by_length fno_symbols)) [
  | some s ↦ s
  | none ↦ prefix_of 10 contract
]

-- Lengths do not grow along the list.
abbrev IsDescending : List String → Type 0
IsDescending [] = Unit
IsDescending (s ∷ ss) = All (λ t. text_length t ≤ text_length s) ss × IsDescending ss

insert_by_length-All :
    (P : String → Type 0) (s : String) (ts : List String)
    → P s
    → All P ts
    → All P (insert_by_length s ts)
unfolding insert_by_length
insert_by_length-All P s [] p h = (p, tt)
insert_by_length-All P s (t ∷ ts) p h = elim (Bool-cases (leb (text_length t) (text_length s))) [
  | inl e ↦ rw e (p, h)
  | inr e ↦ rw e (h.0, insert_by_length-All P s ts p h.1)
]

insert_by_length-IsDescending :
    (s : String) (ts : List String) → IsDescending ts → IsDescending (insert_by_length s ts)
unfolding insert_by_length
insert_by_length-IsDescending s [] h = (tt, tt)
insert_by_length-IsDescending s (t ∷ ts) h =
    elim (Bool-cases (leb (text_length t) (text_length s))) [
      | inl e ↦ rw e ((leb→le _ _ e, All-map (λ u le. omega (arith, le, leb→le _ _ e)) ts h.0), h)
      | inr e ↦
          rw e
            (insert_by_length-All _ s ts (ground arith) h.0, insert_by_length-IsDescending s ts h.1)
    ]

sort_by_length-IsDescending : (ss : List String) → IsDescending (sort_by_length ss)
unfolding sort_by_length
sort_by_length-IsDescending [] = tt
sort_by_length-IsDescending (s ∷ ss) =
    insert_by_length-IsDescending s (sort_by_length ss) (sort_by_length-IsDescending ss)

elem-insert_by_length :
    (s t : String) (ts : List String) → elem t (insert_by_length s ts) ≡ (str_eq s t || elem t ts)
unfolding insert_by_length
elem-insert_by_length s t [] = refl
elem-insert_by_length s t (u ∷ ts) = ground (arith, elem-insert_by_length s t ts)

elem-sort_by_length : (t : String) (ss : List String) → elem t (sort_by_length ss) ≡ elem t ss
unfolding sort_by_length
elem-sort_by_length t [] = refl
elem-sort_by_length t (s ∷ ss) =
    ground (arith, elem-insert_by_length s t (sort_by_length ss), elem-sort_by_length t ss)

pub All-elem :
    (P : String → Type 0) (t : String) (ss : List String) → All P ss → elem t ss ≡ true → P t
All-elem P t [] h e = cc
All-elem P t (s ∷ ss) h e = elim (Bool-cases (str_eq s t)) [
  | inl same ↦ subst P ((eq_iff s t).0 same) h.0
  | inr other ↦ All-elem P t ss h.1 (ground arith)
]

-- What the loop finds: a symbol of the list that starts the contract, and a longest one.
pub record IsLongest (contract : String) (ss : List String) (s : String) : Type 0 where
  pub listed : elem s ss ≡ true
  pub starts : starts_with contract s ≡ true
  pub longest :
      (t : String)
      → elem t ss ≡ true
      → starts_with contract t ≡ true
      → text_length t ≤ text_length s

first_prefix-IsLongest :
    (contract : String) (ss : List String) (s : String)
    → IsDescending ss
    → first_prefix contract ss ≡ some s
    → IsLongest contract ss s
unfolding first_prefix
first_prefix-IsLongest contract [] s h e = cc
first_prefix-IsLongest contract (u ∷ ss) s h e = elim (Bool-cases (starts_with contract u)) [
  | inl starts ↦
      let same : u ≡ s = ground arith in
      subst (λ v. IsLongest contract (u ∷ ss) v) same
        (record {
          listed = ground (arith, eq_iff u u);
          starts = starts;
          longest = λ t m p. elim (Bool-cases (str_eq u t)) [
            | inl q ↦ omega (arith, ap text_length ((eq_iff u t).0 q))
            | inr q ↦ All-elem (λ t. text_length t ≤ text_length u) t ss h.0 (ground arith)
          ];
        })
  | inr other ↦
      let x = first_prefix-IsLongest contract ss s h.1 (ground arith) in
      record {
        listed = ground (arith, x.listed);
        starts = x.starts;
        longest = λ t m p. elim (Bool-cases (str_eq u t)) [
          | inl q ↦ ground (arith, ap (starts_with contract) ((eq_iff u t).0 q))
          | inr q ↦ x.longest t (ground arith) p
        ];
      }
]

first_prefix-none :
    (contract : String) (ss : List String) (t : String)
    → first_prefix contract ss ≡ none
    → elem t ss ≡ true
    → starts_with contract t ≡ false
unfolding first_prefix
first_prefix-none contract [] t e m = ground arith
first_prefix-none contract (u ∷ ss) t e m =
    ground (arith, first_prefix-none contract ss t, eq_iff u t)

-- If an F&O symbol starts the contract's name, `get_underlying` is one, and no longer symbol does;
-- otherwise it is the first ten characters of the name.
pub get_underlying_lem :
    (contract : String)
    → IsLongest contract fno_symbols (get_underlying contract)
      ⊎ ((get_underlying contract ≡ prefix_of 10 contract)
          × ((t : String) → elem t fno_symbols ≡ true → starts_with contract t ≡ false))
unfolding get_underlying
get_underlying_lem contract =
    let sorted = sort_by_length fno_symbols in
    elim (Option-cases (first_prefix contract sorted)) [
      | inl e ↦ inr (
        ground arith,
        λ t m. first_prefix-none contract sorted t e (elem-sort_by_length t fno_symbols ∙ m),
      )
      | inr (s, e) ↦
          let x =
            first_prefix-IsLongest contract sorted s (sort_by_length-IsDescending fno_symbols) e in
          let same : s ≡ get_underlying contract = ground arith in
          inl (
            subst (λ v. IsLongest contract fno_symbols v) same
              (record {
                listed = sym (elem-sort_by_length s fno_symbols) ∙ x.listed;
                starts = x.starts;
                longest = λ t m p. x.longest t (elem-sort_by_length t fno_symbols ∙ m) p;
              }))
    ]
