-- ===== src/Server/Trading/Indicators.antt =====
-- frontend/server.js, `/api/trading-agent`: the indicators computed from the candles, `computeRsi`,
-- `computeAtr`, `emaSeries`, `computeMacd` and `classifyTrend`. A decimal literal is the quotient of
-- two integers, which rounds to the same double.
use hikari.Prelude.{ℕ, ◌+◌, ◌-◌, Bool, ◌&&◌, List, [], ◌∷◌, map, length, drop, ltb, if◌then◌else◌}
use hikari.Prelude.Int.{pos}
use hikari.Prelude.Text.{String, ◌⊕◌}
use hikari.Prelude.Number.{Number}
use hikari.Prelude.Json.{num, str}
use hikari.Server.Http.{World}

pub record Candle (N : Type 0) : Type 0 where
  pub time : N
  pub open_price : N
  pub high : N
  pub low : N
  pub close : N
  pub volume : N

pub record Macd (N : Type 0) : Type 0 where
  pub line : N
  pub signal : N
  pub histogram : N
  pub sample_size : ℕ
  pub note : String

-- `data.slice(-count)`, for a positive count
abbrev pub last_of {ℓ} : {A : Type ℓ} → ℕ → List A → List A
last_of count xs = drop (length xs - count) xs

-- `xs[0]` and `xs[xs.length - 1]`, of a list that has one
abbrev pub first_or {ℓ} : {A : Type ℓ} → A → List A → A
first_or d [] = d
first_or d (x ∷ xs) = x

abbrev pub end_or {ℓ} : {A : Type ℓ} → A → List A → A
end_or d [] = d
end_or d (x ∷ xs) = end_or x xs

module _ {n : Number} (w : World n) where
  open n use {Num, of_ℤ, add, sub, mul, div, lt, le}

  abbrev pub int : ℕ → Num
  int k = of_ℤ (pos k)

  abbrev pub ratio : ℕ → ℕ → Num
  ratio a b = div (int a) (int b)

  -- `x === y` of two numbers: false of NaN
  abbrev pub same_num : Num → Num → Bool
  same_num x y = le x y && le y x

  -- `Number(x.toFixed(digits))`
  unfoldable pub rounded : ℕ → Num → Num
  rounded digits x = w.number_of (str (w.to_fixed x digits))

  -- The loop of `computeRsi`, from the value before: the gains and the losses.
  unfoldable pub gains_losses : Num → List Num → Num → Num → Num × Num
  gains_losses prev [] gains losses = (gains, losses)
  gains_losses prev (x ∷ xs) gains losses =
      let diff = sub x prev in
      let up = le (int 0) diff in
      gains_losses x xs (if up then add gains diff else gains)
        (if up then losses else sub losses diff)

  unfoldable pub rsi_of : Num × Num → Num
  unfolding rounded
  rsi_of (gains, losses) =
      if same_num losses (int 0)
      then int 100
      else (let rs = div (div gains (int 14)) (div losses (int 14)) in
          rounded 1 (sub (int 100) (div (int 100) (add (int 1) rs))))

  -- the loop over the last 14 values, of a list of those and the one before
  unfoldable pub rsi_window : List Num → Num
  rsi_window [] = int 50
  rsi_window (x ∷ xs) = rsi_of (gains_losses x xs (int 0) (int 0))

  unfoldable pub compute_rsi : List Num → Num
  unfolding rsi_window
  compute_rsi closes = if ltb (length closes) 15 then int 50 else rsi_window (last_of 15 closes)

  unfoldable pub true_range : Num → Candle Num → Num
  true_range close_before c =
      w.max (w.max (sub c.high c.low) (w.abs (sub c.high close_before)))
        (w.abs (sub c.low close_before))

  unfoldable pub sum_ranges : Num → List (Candle Num) → Num → Num
  sum_ranges close_before [] sum = sum
  sum_ranges close_before (c ∷ cs) sum = sum_ranges c.close cs (add sum (true_range close_before c))

  unfoldable pub atr_window : List (Candle Num) → Num
  atr_window [] = int 0
  atr_window (c ∷ cs) = div (sum_ranges c.close cs (int 0)) (int 14)

  -- The three arrays of `computeAtr` are the highs, lows and closes of the same candles.
  unfoldable pub compute_atr : List (Candle Num) → Num
  unfolding rounded atr_window
  compute_atr candles =
      if ltb (length candles) 15
      then int 0
      else rounded (if lt (int 100) (first_or (int 0) (map (λ c. c.close) candles)) then 2 else 5)
          (atr_window (last_of 15 candles))

  unfoldable pub ema_from : Num → Num → List Num → List Num
  ema_from k prev [] = []
  ema_from k prev (x ∷ xs) =
      let next = add (mul x k) (mul prev (sub (int 1) k)) in next ∷ ema_from k next xs

  -- `emaSeries`, of a list that has an element
  unfoldable pub ema_series : List Num → ℕ → List Num
  unfolding ema_from
  ema_series [] period = []
  ema_series (x ∷ xs) period = x ∷ ema_from (ratio 2 (period + 1)) x xs

  -- `data.map((_, i) => a[i] - b[i])`
  unfoldable pub differences : List Num → List Num → List Num
  differences [] bs = []
  differences (a ∷ as_) [] = []
  differences (a ∷ as_) (b ∷ bs) = sub a b ∷ differences as_ bs

  abbrev pub text_of : Num → String
  text_of x = w.show (num x)

  unfoldable pub compute_macd : List Num → Macd Num
  unfolding ema_series differences rounded
  compute_macd closes =
      let size = length closes in
      let series = differences (ema_series closes 12) (ema_series closes 26) in
      let line = end_or (int 0) series in
      let signal = end_or (int 0) (ema_series series 9) in
      if ltb size 26
      then record {
        line = int 0;
        signal = int 0;
        histogram = int 0;
        sample_size = size;
        note = "insufficient candles for a reliable MACD (need 26+)";
      }
      else record {
        line = rounded 5 line;
        signal = rounded 5 signal;
        histogram = rounded 5 (sub line signal);
        sample_size = size;
        note =
            "computed from "
            ⊕ text_of (int size)
            ⊕ " candles — EMA9 signal line is less stable than a standard 250+ candle series";
      }

  unfoldable pub sum_from : Num → List Num → Num
  sum_from acc [] = acc
  sum_from acc (x ∷ xs) = sum_from (add acc x) xs

  unfoldable pub classify_trend : List Num → String
  unfolding sum_from
  classify_trend closes =
      let sma = div (sum_from (int 0) (last_of 10 closes)) (int 10) in
      let last = end_or (int 0) closes in
      if ltb (length closes) 10
      then "INSUFFICIENT_DATA"
      else if lt (mul sma (ratio 101 100)) last
      then "UPTREND (above 10-period SMA)"
      else if lt last (mul sma (ratio 99 100))
      then "DOWNTREND (below 10-period SMA)"
      else "RANGE-BOUND (near 10-period SMA)"
