-- ===== src/Server/Trading/Desk.antt =====
-- frontend/server.js, `/api/trading-agent`: the signal, the levels of the trade and the report.
use hikari.Prelude.{ℕ, Bool, true, false, List, [], ◌∷◌, map, none, some, if◌then◌else◌}
use hikari.Prelude.Text.{String, ◌⊕◌}
use mathlib.Core.List.{foldl}
use text.Mathlib.Text.{find?}
use hikari.Prelude.Number.{Number}
use hikari.Server.Http.{World}
use hikari.Server.Trading.Indicators.{Candle, last_of, int, ratio, rounded}

pub record Signal : Type 0 where
  pub signal : String
  pub bias : String
  pub confidence : String

-- The numbers of the report.
pub record Levels (N : Type 0) : Type 0 where
  pub support : N
  pub resistance : N
  pub stop_loss : N
  pub tp1 : N
  pub tp2 : N
  pub tp3 : N

-- `signal.includes("BUY")`
unfoldable pub is_buy : String → Bool
is_buy signal = elim (find? signal "BUY") [ none ↦ false | some i ↦ true ]

unfoldable pub verdict : Signal → String
unfolding is_buy
verdict s = if is_buy s.signal then "APPROVED" else "CAUTION"

module _ {n : Number} (w : World n) where
  open n use {Num, of_ℤ, add, sub, mul, div, lt, le, min}

  abbrev pub pct : Num → String
  pct x = w.to_fixed x 0 ⊕ "%"

  abbrev above : ℕ → Num → Bool
  above k x = lt (int w k) x

  unfoldable pub signal_of : Num → Signal
  signal_of rsi =
      if above 70 rsi
      then record {
        signal = "SELL (SHORT)";
        bias = "BEARISH";
        confidence = pct (min (int w 95) (sub (add (int w 50) rsi) (int w 50)));
      }
      else if above 55 rsi
      then record {
        signal = "BUY (LONG)";
        bias = "BULLISH";
        confidence = pct (min (int w 95) (add (int w 50) (sub rsi (int w 40))));
      }
      else if above 45 rsi
      then record {
        signal = "NEUTRAL (HOLD)";
        bias = "NEUTRAL";
        confidence = pct (add (int w 50) (w.abs (sub rsi (int w 50))));
      }
      else if above 30 rsi
      then record {
        signal = "BUY (LONG)";
        bias = "BULLISH";
        confidence = pct (min (int w 95) (add (int w 50) (sub (int w 50) rsi)));
      }
      else record {
        signal = "STRONG BUY (LONG)";
        bias = "BULLISH";
        confidence = pct (min (int w 98) (add (int w 60) (sub (int w 30) rsi)));
      }

  unfoldable pub market_regime : Num → String
  market_regime rsi =
      if above 65 rsi
      then "BULLISH_EXPANSION"
      else if above 45 rsi
      then "RANGE_BOUND"
      else "BEARISH_PULLBACK"

  abbrev pub price_decimals : Num → ℕ
  price_decimals price = if above 100 price then 2 else if above 1 price then 2 else 5

  -- `Math.min(…)` and `Math.max(…)` of a list that has an element
  abbrev extreme : (Num → Num → Num) → List Num → Num
  extreme pick [] = int w 0
  extreme pick (x ∷ xs) = foldl pick x xs

  unfoldable pub levels_of : List (Candle Num) → Num → Num → Levels Num
  unfolding rounded
  levels_of candles price atr =
      let digits = price_decimals price in
      record {
        support = extreme min (last_of 14 (map (λ c. c.low) candles));
        resistance = extreme w.max (last_of 14 (map (λ c. c.high) candles));
        stop_loss = rounded w digits (sub price (mul atr (int w 2)));
        tp1 = rounded w digits (add price (mul atr (int w 2)));
        tp2 = rounded w digits (add price (mul atr (ratio w 7 2)));
        tp3 = rounded w digits (add price (mul atr (int w 5)));
      }

  -- `rrRatio`
  unfoldable pub risk_reward : Num → Num → Levels Num → String
  risk_reward price atr l =
      if above 0 atr
      then w.to_fixed (div (sub l.tp2 price) (sub price l.stop_loss)) 1 ⊕ " : 1"
      else "N/A"

  abbrev first_close : List Num → Num → Num
  first_close [] price = price
  first_close (x ∷ []) price = price
  first_close (x ∷ y ∷ xs) price = x

  unfoldable pub daily_change : List Num → Num → String
  daily_change closes price =
      let first = first_close closes price in
      let change =
        if above 0 first then mul (div (sub price first) first) (int w 100) else int w 0 in
      (if le (int w 0) change then "+" else "") ⊕ w.to_fixed change 2 ⊕ "%"
