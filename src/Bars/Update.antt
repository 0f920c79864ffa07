-- ===== src/Bars/Update.antt =====
-- The tick dict and its update (core/utils.py). A key of the dict that is missing is `none`.
use stocks_fno.Prelude.{
  ℕ, ◌+◌, ◌-◌, ◌*◌, ◌/◌, Bool, false, Option, none, some, List, [], ◌∷◌, ◌++◌, ◌==◌, if◌then◌else◌,
  get_or_else, length, drop,
}
use stocks_fno.Float.{Float, py_max, py_min}

pub record Bar (F : Type 0) : Type 0 where
  pub date : ℕ
  pub open_price : F
  pub high : F
  pub low : F
  pub close : F
  pub volume : ℕ

pub record Tick (F : Type 0) : Type 0 where
  pub last_cum_volume : Option ℕ
  pub day_open : Option F
  pub day_high : Option F
  pub day_low : Option F
  pub day_range_date : Option ℕ
  pub bars_today : Option (List (Bar F))
  pub cur_bar_key : Option ℕ
  pub cur_bar_open : Option F
  pub cur_bar_high : Option F
  pub cur_bar_low : Option F
  pub cur_bar_close : Option F
  pub cur_bar_volume : Option ℕ

-- the time in India: the day's number, and the minutes since midnight
pub record Now : Type 0 where
  pub day : ℕ
  pub minute : ℕ

-- the price, and the day's volume so far if it is known
pub record Quote (F : Type 0) : Type 0 where
  pub now : Now
  pub ltp : F
  pub volume_traded : Option ℕ

-- The start of the five minutes. The code has it as an ISO text, which tells the same times apart.
abbrev pub bucket_key : Now → ℕ
bucket_key n = n.day * 1440 + n.minute / 5 * 5

-- `value == key`, for a value that may be missing
abbrev pub matches : Option ℕ → ℕ → Bool
matches none k = false
matches (some j) k = j == k

abbrev pub max_bars : ℕ
max_bars = 100

-- `bars[-100:]`
abbrev pub last_bars {ℓ} : {A : Type ℓ} → List A → List A
last_bars xs = drop (length xs - max_bars) xs

-- the volume since the last tick: `max(0, volume - last)`
abbrev pub volume_delta : Option ℕ → Option ℕ → ℕ
volume_delta none last = 0
volume_delta (some v) none = 0
volume_delta (some v) (some last) = v - last

abbrev pub counted : Option ℕ → Option ℕ → Option ℕ
counted none last = last
counted (some v) last = some v

module _ {F : Type 0} ⦃f : Float F⦄ where
  -- the first price of a day
  unfoldable pub start_day : Quote F → Tick F → Tick F
  start_day q t = record t {
    last_cum_volume = counted q.volume_traded t.last_cum_volume;
    day_open = some q.ltp;
    day_high = some q.ltp;
    day_low = some q.ltp;
    day_range_date = some q.now.day;
    bars_today = some [];
    cur_bar_key = some (bucket_key q.now);
    cur_bar_open = some q.ltp;
    cur_bar_high = some q.ltp;
    cur_bar_low = some q.ltp;
    cur_bar_close = some q.ltp;
    cur_bar_volume = some 0;
  }

  -- a price within the forming bar
  unfoldable pub extend_bar : Quote F → ℕ → Tick F → Tick F
  unfolding py_max py_min
  extend_bar q delta t = record t {
    cur_bar_high = some (py_max (get_or_else t.cur_bar_high q.ltp) q.ltp);
    cur_bar_low = some (py_min (get_or_else t.cur_bar_low q.ltp) q.ltp);
    cur_bar_close = some q.ltp;
    cur_bar_volume = some (get_or_else t.cur_bar_volume 0 + delta);
  }

  abbrev pub finished_bar : F → Tick F → ℕ → Bar F
  finished_bar ltp t key = record {
    date = key;
    open_price = get_or_else t.cur_bar_open ltp;
    high = get_or_else t.cur_bar_high ltp;
    low = get_or_else t.cur_bar_low ltp;
    close = get_or_else t.cur_bar_close ltp;
    volume = get_or_else t.cur_bar_volume 0;
  }

  abbrev pub with_finished : F → Tick F → Option ℕ → Option (List (Bar F))
  with_finished ltp t none = t.bars_today
  with_finished ltp t (some key) =
      some (last_bars (get_or_else t.bars_today [] ++ (finished_bar ltp t key ∷ [])))

  -- the first price of the next bar
  unfoldable pub start_bar : Quote F → ℕ → Tick F → Tick F
  start_bar q delta t = record t {
    bars_today = with_finished q.ltp t t.cur_bar_key;
    cur_bar_key = some (bucket_key q.now);
    cur_bar_open = some q.ltp;
    cur_bar_high = some q.ltp;
    cur_bar_low = some q.ltp;
    cur_bar_close = some q.ltp;
    cur_bar_volume = some delta;
  }

  unfoldable pub widen_day : Quote F → Tick F → Tick F
  unfolding py_max py_min
  widen_day q t = record t {
    last_cum_volume = counted q.volume_traded t.last_cum_volume;
    day_high = some (py_max (get_or_else t.day_high q.ltp) q.ltp);
    day_low = some (py_min (get_or_else t.day_low q.ltp) q.ltp);
  }

  unfoldable pub update_intraday_bar : Quote F → Tick F → Tick F
  unfolding start_day extend_bar start_bar widen_day
  update_intraday_bar q t =
      let delta = volume_delta q.volume_traded t.last_cum_volume in
      if matches t.day_range_date q.now.day
      then if matches t.cur_bar_key (bucket_key q.now)
        then extend_bar q delta (widen_day q t)
        else start_bar q delta (widen_day q t)
      else start_day q t

  unfoldable pub run : List (Quote F) → Tick F → Tick F
  unfolding update_intraday_bar
  run [] t = t
  run (q ∷ qs) t = run qs (update_intraday_bar q t)
