-- ===== src/Calendar/Events.antt =====
-- `has_event_within_days` (market_data/event_calendar.py). The calendar that `_load_calendar` returns,
-- `date.fromisoformat` and the exchange's holidays are parameters.
use stocks_fno.Prelude.{
  ℕ, zero, suc, ◌≤◌, ◌<◌, ◌≡◌, refl, ap, ◌↔◌, Bool, true, false, not, ◌&&◌, ◌||◌, Option, none,
  some, List, [], ◌∷◌, ◌++◌, String, elem, str_eq, eq_iff, starts_with, arith, inl, inr, ◌⊎◌,
  Bool-cases, Option-cases, get_or_else, if◌then◌else◌,
}
use stocks_fno.Dict.{Dict, lookup}
use stocks_fno.Calendar.{Date, IsDate, date_lt, next_day}
use stocks_fno.Calendar.Days.{rank, date_lt-rank, next_day-IsDate}
use stocks_fno.Calendar.Later.{later, later-IsDate, rank-later, rank-later_iff, reach}
use stocks_fno.Calendar.Market.{is_trading_day, add_trading_days, trading_days_after}

-- `date_str.startswith("_")`, or empty
abbrev pub is_skipped : String → Bool
is_skipped s = str_eq s "" || starts_with s "_"

-- the dates of the symbol, and those of every symbol
unfoldable pub dates_to_check : String → Dict (List String) → List String
unfolding lookup
dates_to_check symbol c = get_or_else (lookup symbol c) [] ++ get_or_else (lookup "*" c) []

module _ (is_holiday : Date → Bool) (parse : String → Option Date) where
  -- one turn of the loop: a text that is no date is passed over
  unfoldable pub is_event : Date → Date → String → Bool
  is_event today cutoff s = elim (parse s) [
    | none ↦ false
    | some d ↦ not (is_skipped s) && (not (date_lt d today) && not (date_lt cutoff d))
  ]

  unfoldable pub any_event : Date → Date → List String → Bool
  unfolding is_event
  any_event today cutoff [] = false
  any_event today cutoff (s ∷ ss) = is_event today cutoff s || any_event today cutoff ss

  -- `none` as calendar is CalendarUnavailable; `none` as answer, that the fuel ran out
  unfoldable pub has_event_within_days :
      ℕ → Option (Dict (List String)) → String → Date → ℕ → Option Bool
  unfolding any_event dates_to_check
  has_event_within_days fuel none symbol today days = some true
  has_event_within_days fuel (some c) symbol today days =
      elim (add_trading_days is_holiday fuel today days) [
        | none ↦ none
        | some cutoff ↦ some (any_event today cutoff (dates_to_check symbol c))
      ]

module _ (is_holiday : Date → Bool) where
  -- The cutoff is the day on which so many trading days have passed.
  cutoff_lem :
      (fuel : ℕ) (d : Date) (n : ℕ)
      → IsDate d
      → n ≤ trading_days_after is_holiday fuel d
      → (k : ℕ) × (add_trading_days is_holiday fuel d n ≡ some (later k d))
        × ((j : ℕ) → (j < k) ↔ (trading_days_after is_holiday j d < n))
  unfolding add_trading_days trading_days_after
  cutoff_lem fuel d zero v h =
      (0, refl, λ j. (λ a. absurd (omega arith), λ a. absurd (omega arith)))
  cutoff_lem zero d (suc n) v h = absurd (omega arith)
  cutoff_lem (suc fuel) d (suc n) v h =
      let left : ℕ = if is_trading_day is_holiday (next_day d) then n else suc n in
      let (k, e, near) = cutoff_lem fuel (next_day d) left (next_day-IsDate d v) (ground arith) in
      (suc k, e, turn k near)
    where
      turn :
          (k : ℕ)
          → ((j : ℕ)
              → (j < k) ↔ (
                  trading_days_after is_holiday j (next_day d)
                  < (if is_trading_day is_holiday (next_day d) then n else suc n)))
          → (j : ℕ) → (j < suc k) ↔ (trading_days_after is_holiday j d < suc n)
      turn k near zero = (λ a. omega arith, λ a. omega arith)
      turn k near (suc i) = ground (arith, near i)

within : (j k : ℕ) → ((i : ℕ) → j ≡ suc i → i < k) → j ≤ k
within zero k h = omega arith
within (suc i) k h = omega (arith, h i refl)

-- An event day that is near: today, or so that fewer than `n` trading days lie between.
abbrev pub IsNear : (Date → Bool) → Date → ℕ → Date → Type 0
IsNear is_holiday today n d =
    (j : ℕ) × (later j today ≡ d)
    × ((i : ℕ) → j ≡ suc i → trading_days_after is_holiday i today < n)

-- the texts that a calendar, if there is one, lists for the symbol
abbrev pub texts_of : String → Option (Dict (List String)) → List String
texts_of symbol none = []
texts_of symbol (some c) = dates_to_check symbol c

-- A text of a list that names a near event day.
pub record Announces (is_holiday : Date → Bool) (parse : String → Option Date) (today : Date)
    (n : ℕ) (ss : List String) (s : String) (d : Date) : Type 0 where
  pub listed : elem s ss ≡ true
  pub kept : is_skipped s ≡ false
  pub parsed : parse s ≡ some d
  pub near : IsNear is_holiday today n d

module _ (is_holiday : Date → Bool) (parse : String → Option Date) where
  any_event_iff :
      (today cutoff : Date) (ss : List String)
      → (any_event is_holiday parse today cutoff ss ≡ true)
        ↔ ((s : String) × (elem s ss ≡ true) × (is_event is_holiday parse today cutoff s ≡ true))
  unfolding any_event
  any_event_iff today cutoff [] = (λ h. absurd (ground arith), λ (s, m, e). absurd (ground arith))
  any_event_iff today cutoff (s ∷ ss) =
      let x = any_event_iff today cutoff ss in
      (
        λ h. elim (Bool-cases (is_event is_holiday parse today cutoff s)) [
          | inl e ↦ (s, ground (arith, eq_iff s s), e)
          | inr e ↦ let (t, m, e') = x.0 (ground arith) in (t, ground (arith, m), e')
        ],
        λ (t, m, e). elim (Bool-cases (str_eq s t)) [
          | inl same ↦
              ground (arith, e, ap (is_event is_holiday parse today cutoff) ((eq_iff s t).0 same))
          | inr other ↦ ground (arith, x.1 (t, ground (arith, m), e))
        ],
      )

  module _ (today : Date) (v : IsDate today) (k n : ℕ)
      (near : (j : ℕ) → (j < k) ↔ (trading_days_after is_holiday j today < n)) where
    in_window_iff :
        (d : Date)
        → IsDate d
        → ((not (date_lt d today) && not (date_lt (later k today) d)) ≡ true)
          ↔ IsNear is_holiday today n d
    in_window_iff d w =
        let p = date_lt-rank d today w v in
        let q = date_lt-rank (later k today) d (later-IsDate k today v) w in
        (
          λ h.
              let (j, e) = reach (rank d) today d v w (ground (arith, p)) (omega arith) in
              let y = rank-later_iff j k today v in
              let r : rank (later j today) ≡ rank d = ap rank e in
              (j, e, λ i z. (near i).0 (ground (arith, q, y.1, z, r))),
          λ (j, e, z).
              let y = rank-later_iff j k today v in
              let r : rank (later j today) ≡ rank d = ap rank e in
              let after : date_lt d today ≡ false = ground (arith, p, r, rank-later j today v) in
              let bound : j ≤ k = within j k (λ i q. (near i).1 (z i q)) in
              let before : date_lt (later k today) d ≡ false = ground (arith, q, r, y.0) in
              ground arith,
        )

    any_event-Announces :
        (ss : List String)
        → ((s : String) (d : Date) → parse s ≡ some d → IsDate d)
        → (any_event is_holiday parse today (later k today) ss ≡ true)
          ↔ ((s : String) × (d : Date) × Announces is_holiday parse today n ss s d)
    unfolding is_event
    any_event-Announces ss dates =
        let x = any_event_iff today (later k today) ss in
        (
          λ h.
              let (s, m, e) = x.0 h in
              elim (Option-cases (parse s)) [
                | inl p ↦ absurd (ground arith)
                | inr (d, p) ↦
                    let e' : (not (is_skipped s)
                          && (not (date_lt d today) && not (date_lt (later k today) d)))
                        ≡ true =
                      rw (p, is_event) at e in
                    (
                      s,
                      d,
                      record {
                        listed = m;
                        kept = ground arith;
                        parsed = p;
                        near = (in_window_iff d (dates s d p)).0 (ground arith);
                      },
                    )
              ],
          λ (s, d, a).
              let inside = (in_window_iff d (dates s d a.parsed)).1 a.near in
              x.1 (s, a.listed, rw (a.parsed, is_event) (ground (arith, inside, a.kept))),
        )

  -- With enough fuel, and dates that are valid, `has_event_within_days` answers, and it answers yes
  -- exactly if the calendar could not be loaded or a text listed for the symbol or for all symbols
  -- names an event day that is today, or a later one with fewer than `days` trading days before it.
  pub has_event_within_days_iff :
      (fuel : ℕ) (c : Option (Dict (List String))) (symbol : String) (today : Date) (days : ℕ)
      → IsDate today
      → days ≤ trading_days_after is_holiday fuel today
      → ((s : String) (d : Date) → parse s ≡ some d → IsDate d)
      → (b : Bool) × (has_event_within_days is_holiday parse fuel c symbol today days ≡ some b)
        × ((b ≡ true) ↔ (
            (c ≡ none)
            ⊎ ((s : String) × (d : Date) × Announces is_holiday parse today days
                  (texts_of symbol c)
                  s
                  d)))
  unfolding has_event_within_days
  has_event_within_days_iff fuel none symbol today days v h dates =
      (true, refl, (λ _. inl refl, λ _. refl))
  has_event_within_days_iff fuel (some l) symbol today days v h dates =
      let (k, e, near) = cutoff_lem is_holiday fuel today days v h in
      let ss = dates_to_check symbol l in
      let x = any_event-Announces today v k days near ss dates in
      (
        any_event is_holiday parse today (later k today) ss,
        rw (e, has_event_within_days) refl,
        (λ q. inr (x.0 q), λ q. elim q [ inl z ↦ absurd (ground arith) | inr a ↦ x.1 a ]),
      )
