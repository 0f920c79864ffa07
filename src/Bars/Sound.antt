-- ===== src/Bars/Sound.antt =====
-- The bars are sound: each spans its prices, and the list is bounded (core/utils.py).
use stocks_fno.Prelude.{
  ℕ, zero, suc, ◌-◌, ◌≤◌, ◌≡◌, refl, true, none, some, List, [], ◌∷◌, ◌++◌, length, drop,
  length-drop, All, All-append, Bool-cases, inl, inr, ◌⊎◌, arith,
}
use stocks_fno.Float.{Float, IsOrdered, py_max, py_min}
use stocks_fno.Bars.Update.{
  Bar, Tick, Quote, bucket_key, matches, max_bars, last_bars, start_day, extend_bar, finished_bar,
  start_bar, widen_day, update_intraday_bar, run,
}

module _ {F : Type 0} ⦃f : Float F⦄ where
  -- The low is at most the open and the close, and these are at most the high.
  pub record IsSpan (open_price high low close : F) : Type 0 where
    pub low_open : f.le low open_price ≡ true
    pub open_high : f.le open_price high ≡ true
    pub low_close : f.le low close ≡ true
    pub close_high : f.le close high ≡ true

  abbrev pub IsBar : Bar F → Type 0
  IsBar b = IsSpan b.open_price b.high b.low b.close

  -- A tick in the course of a day: the forming bar and every finished bar are sound, the forming
  -- bar lies within the range of the day, and the list of bars is bounded.
  pub record IsSound (t : Tick F) : Type 0 where
    pub bars : List (Bar F)
    pub key : ℕ
    pub o : F
    pub h : F
    pub l : F
    pub c : F
    pub day_h : F
    pub day_l : F
    pub has_bars : t.bars_today ≡ some bars
    pub has_key : t.cur_bar_key ≡ some key
    pub has_open : t.cur_bar_open ≡ some o
    pub has_high : t.cur_bar_high ≡ some h
    pub has_low : t.cur_bar_low ≡ some l
    pub has_close : t.cur_bar_close ≡ some c
    pub has_day_high : t.day_high ≡ some day_h
    pub has_day_low : t.day_low ≡ some day_l
    pub forming : IsSpan o h l c
    pub in_day : (f.le h day_h ≡ true) × (f.le day_l l ≡ true)
    pub finished : All IsBar bars
    pub bounded : length bars ≤ max_bars

module _ {F : Type 0} ⦃f : Float F⦄ (laws : IsOrdered F) where
  py_max-le :
      (a b : F)
      → f.eqb a a ≡ true
      → f.eqb b b ≡ true
      → (f.le a (py_max a b) ≡ true) × (f.le b (py_max a b) ≡ true)
  unfolding py_max
  py_max-le a b na nb = elim (Bool-cases (f.lt a b)) [
    | inl e ↦ rw e (laws.le_of_lt a b e, laws.le_refl b nb)
    | inr e ↦ rw e (laws.le_refl a na, laws.le_of_not-lt b a nb na e)
  ]

  py_min-le :
      (a b : F)
      → f.eqb a a ≡ true
      → f.eqb b b ≡ true
      → (f.le (py_min a b) a ≡ true) × (f.le (py_min a b) b ≡ true)
  unfolding py_min
  py_min-le a b na nb = elim (Bool-cases (f.lt b a)) [
    | inl e ↦ rw e (laws.le_of_lt b a e, laws.le_refl b nb)
    | inr e ↦ rw e (laws.le_refl a na, laws.le_of_not-lt a b na nb e)
  ]

  point : (p : F) → f.eqb p p ≡ true → IsSpan p p p p
  point p n = record {
    low_open = laws.le_refl p n;
    open_high = laws.le_refl p n;
    low_close = laws.le_refl p n;
    close_high = laws.le_refl p n;
  }

  widen : (o h l c p : F) → f.eqb p p ≡ true → IsSpan o h l c → IsSpan o (py_max h p) (py_min l p) p
  widen o h l c p n s =
      let nh = laws.num_right_of_le o h s.open_high in
      let nl = laws.num_left_of_le l o s.low_open in
      let (a, b) = py_max-le h p nh n in
      let (x, y) = py_min-le l p nl n in
      record {
        low_open = laws.le_trans _ l o x s.low_open;
        open_high = laws.le_trans o h _ s.open_high a;
        low_close = y;
        close_high = b;
      }

  drop-All : (P : Bar F → Type 0) (n : ℕ) (bs : List (Bar F)) → All P bs → All P (drop n bs)
  drop-All P zero bs a = a
  drop-All P (suc n) [] a = tt
  drop-All P (suc n) (b ∷ bs) (_, a) = drop-All P n bs a

  start_day-IsSound :
      (q : Quote F) (t : Tick F) → f.eqb q.ltp q.ltp ≡ true → IsSound (start_day q t)
  unfolding start_day
  start_day-IsSound q t n = record {
    bars = [];
    key = bucket_key q.now;
    o = q.ltp;
    h = q.ltp;
    l = q.ltp;
    c = q.ltp;
    day_h = q.ltp;
    day_l = q.ltp;
    has_bars = refl;
    has_key = refl;
    has_open = refl;
    has_high = refl;
    has_low = refl;
    has_close = refl;
    has_day_high = refl;
    has_day_low = refl;
    forming = point q.ltp n;
    in_day = (laws.le_refl _ n, laws.le_refl _ n);
    finished = tt;
    bounded = omega arith;
  }

  -- The wider of two ranges keeps what it holds.
  mono_max :
      (a b p : F) → f.eqb p p ≡ true → f.le a b ≡ true → f.le (py_max a p) (py_max b p) ≡ true
  unfolding py_max
  mono_max a b p n h =
      let na = laws.num_left_of_le a b h in
      let nb = laws.num_right_of_le a b h in
      let (x, y) = py_max-le b p nb n in
      elim (Bool-cases (f.lt a p)) [ inl e ↦ rw e y | inr e ↦ rw e (laws.le_trans a b _ h x) ]

  mono_min :
      (a b p : F) → f.eqb p p ≡ true → f.le a b ≡ true → f.le (py_min a p) (py_min b p) ≡ true
  unfolding py_min
  mono_min a b p n h =
      let na = laws.num_left_of_le a b h in
      let nb = laws.num_right_of_le a b h in
      let (x, y) = py_min-le a p na n in
      elim (Bool-cases (f.lt p b)) [ inl e ↦ rw e y | inr e ↦ rw e (laws.le_trans _ a b x h) ]

  extend-IsSound :
      (q : Quote F) (d : ℕ) (t : Tick F)
      → f.eqb q.ltp q.ltp ≡ true
      → IsSound t
      → IsSound (extend_bar q d (widen_day q t))
  unfolding extend_bar widen_day
  extend-IsSound q d t n s = record {
    bars = s.bars;
    key = s.key;
    o = s.o;
    h = py_max s.h q.ltp;
    l = py_min s.l q.ltp;
    c = q.ltp;
    day_h = py_max s.day_h q.ltp;
    day_l = py_min s.day_l q.ltp;
    has_bars = s.has_bars;
    has_key = s.has_key;
    has_open = s.has_open;
    has_high = rw s.has_high refl;
    has_low = rw s.has_low refl;
    has_close = refl;
    has_day_high = rw s.has_day_high refl;
    has_day_low = rw s.has_day_low refl;
    forming = widen s.o s.h s.l s.c q.ltp n s.forming;
    in_day = (mono_max s.h s.day_h q.ltp n s.in_day.0, mono_min s.day_l s.l q.ltp n s.in_day.1);
    finished = s.finished;
    bounded = s.bounded;
  }

  start_bar-IsSound :
      (q : Quote F) (d : ℕ) (t : Tick F)
      → f.eqb q.ltp q.ltp ≡ true
      → IsSound t
      → IsSound (start_bar q d (widen_day q t))
  unfolding start_bar widen_day
  start_bar-IsSound q d t n s =
      let nh = laws.num_right_of_le s.h s.day_h s.in_day.0 in
      let nl = laws.num_left_of_le s.day_l s.l s.in_day.1 in
      let b = finished_bar q.ltp t s.key in
      let all = s.bars ++ (b ∷ []) in
      record {
        bars = last_bars all;
        key = bucket_key q.now;
        o = q.ltp;
        h = q.ltp;
        l = q.ltp;
        c = q.ltp;
        day_h = py_max s.day_h q.ltp;
        day_l = py_min s.day_l q.ltp;
        has_bars = rw (s.has_key, s.has_bars) refl;
        has_key = refl;
        has_open = refl;
        has_high = refl;
        has_low = refl;
        has_close = refl;
        has_day_high = rw s.has_day_high refl;
        has_day_low = rw s.has_day_low refl;
        forming = point q.ltp n;
        in_day = ((py_max-le s.day_h q.ltp nh n).1, (py_min-le s.day_l q.ltp nl n).1);
        finished = drop-All IsBar _ all (
            All-append IsBar s.bars (b ∷ []) s.finished
              (rw (s.has_open, s.has_high, s.has_low, s.has_close) s.forming, tt));
        bounded = omega (arith, length-drop (length all - max_bars) all);
      }

  -- A price that is a number keeps a tick sound, and makes it sound on a new day.
  pub update-IsSound :
      (q : Quote F) (t : Tick F)
      → f.eqb q.ltp q.ltp ≡ true
      → (t.day_range_date ≡ none) ⊎ IsSound t
      → IsSound (update_intraday_bar q t)
  unfolding update_intraday_bar
  update-IsSound q t n (inl e) = rw e (start_day-IsSound q t n)
  update-IsSound q t n (inr s) = elim (Bool-cases (matches t.day_range_date q.now.day)) [
    | inr e ↦ rw e (start_day-IsSound q t n)
    | inl e ↦ elim (Bool-cases (matches t.cur_bar_key (bucket_key q.now))) [
      | inl e' ↦ rw (e, e') (extend-IsSound q _ t n s)
      | inr e' ↦ rw (e, e') (start_bar-IsSound q _ t n s)
    ]
  ]

  run_on-IsSound :
      (qs : List (Quote F)) (t : Tick F)
      → All (λ q. f.eqb q.ltp q.ltp ≡ true) qs
      → IsSound t
      → IsSound (run qs t)
  unfolding run
  run_on-IsSound [] t a s = s
  run_on-IsSound (q ∷ qs) t (n, a) s = run_on-IsSound qs _ a (update-IsSound q t n (inr s))

  -- After any prices that are numbers, and at least one, a tick that starts without a day is sound.
  pub run-IsSound :
      (q : Quote F) (qs : List (Quote F)) (t : Tick F)
      → t.day_range_date ≡ none
      → All (λ q. f.eqb q.ltp q.ltp ≡ true) (q ∷ qs)
      → IsSound (run (q ∷ qs) t)
  unfolding run
  run-IsSound q qs t e (n, a) = run_on-IsSound qs _ a (update-IsSound q t n (inl e))
