-- ===== src/Server/Trading.antt =====
-- frontend/server.js: `/api/trading-agent`, a report on the market of a pair.
pub mod Indicators
pub mod Feed
pub mod Desk
pub mod Window
pub mod Live
use hikari.Prelude.{true, false, List, [], ◌∷◌, map, ℕ, if◌then◌else◌}
use hikari.Prelude.Text.{String, ◌⊕◌}
use hikari.Prelude.Number.{Number}
use hikari.Prelude.Json.{Json, num, str, object, array, or_else}
use hikari.Server.Http.{Request, Response, World, respond, find_param}
use Indicators.{
  Candle, Macd, int, ratio, compute_rsi, compute_atr, compute_macd, classify_trend, text_of,
}
use Feed.{Quotes, is_bare, load_quotes}
use Desk.{
  Signal, Levels, signal_of, verdict, market_regime, price_decimals, levels_of, risk_reward,
  daily_change,
}

module _ {n : Number} (w : World n) where
  open n use {Num, sub, mul, div}

  abbrev pub candle_json : Candle Num → Json Num
  candle_json c = object (
      ("time", num c.time)
      ∷ ("open", num c.open_price)
      ∷ ("high", num c.high)
      ∷ ("low", num c.low)
      ∷ ("close", num c.close)
      ∷ ("volume", num c.volume)
      ∷ [])

  abbrev pub dollars : Num → Num → String
  dollars price x = "$" ⊕ w.to_fixed x (price_decimals w price)

  abbrev percent_of : ℕ → Num → Num
  percent_of k x = mul x (ratio w k 1000)

  unfoldable pub trade_setup : Num → Num → Signal → Levels Num → Json Num
  trade_setup price atr s l = object (
      ("action", str s.signal)
      ∷ (
        "entryZone",
        str (dollars price (percent_of 998 price) ⊕ " - " ⊕ dollars price (percent_of 1002 price)),
      )
      ∷ ("entryPrice", num price)
      ∷ ("stopLoss", num l.stop_loss)
      ∷ ("stopLossFormatted", str (dollars price l.stop_loss))
      ∷ ("takeProfit1", num l.tp1)
      ∷ ("takeProfit1Formatted", str (dollars price l.tp1))
      ∷ ("takeProfit2", num l.tp2)
      ∷ ("takeProfit2Formatted", str (dollars price l.tp2))
      ∷ ("takeProfit3", num l.tp3)
      ∷ ("takeProfit3Formatted", str (dollars price l.tp3))
      ∷ ("riskRewardRatio", str (risk_reward w price atr l))
      ∷ ("approvedAllocationPercent", str "7.50% Margin")
      ∷ [])

  unfoldable pub technical_json :
      String → List Num → Num → Num → Num → Signal → Levels Num → Json Num
  technical_json timeframe closes price rsi atr s l =
      let macd = compute_macd w closes in
      object (
        ("bias", str s.bias)
        ∷ ("confidence", num (div (w.parse_float (str s.confidence)) (int w 100)))
        ∷ ("rsi", num rsi)
        ∷ ("atr", num atr)
        ∷ ("macd", num macd.line)
        ∷ ("macdSignal", num macd.signal)
        ∷ ("macdHistogram", num macd.histogram)
        ∷ ("macdNote", str macd.note)
        ∷ ("chartPattern", str (classify_trend w closes))
        ∷ ("supportLevel", str (dollars price l.support))
        ∷ ("resistanceLevel", str (dollars price l.resistance))
        ∷ (
          "summary",
          str (
              "Live indicators on "
              ⊕ w.to_upper timeframe
              ⊕ ": RSI "
              ⊕ text_of w rsi
              ⊕ ", ATR "
              ⊕ text_of w atr
              ⊕ ", MACD "
              ⊕ text_of w macd.line
              ⊕ ". Support "
              ⊕ dollars price l.support
              ⊕ ", Resistance "
              ⊕ dollars price l.resistance
              ⊕ "."),
        )
        ∷ [])

  unfoldable pub risk_json : Num → Num → Num → Signal → Levels Num → Json Num
  risk_json price rsi atr s l = object (
      ("verdict", str (verdict s))
      ∷ ("riskRewardRatio", str (risk_reward w price atr l))
      ∷ (
        "maxDrawdownRisk",
        str (w.to_fixed (mul (div (sub price l.stop_loss) price) (int w 100)) 1 ⊕ "% of Position"),
      )
      ∷ (
        "summary",
        str (
            "Risk assessment based on live ATR ("
            ⊕ text_of w atr
            ⊕ ") and RSI ("
            ⊕ text_of w rsi
            ⊕ ")."),
      )
      ∷ [])

  unfoldable pub trading_report : String → String → Quotes Num → Response Num
  unfolding trade_setup technical_json risk_json
  trading_report pair timeframe q =
      let price = q.current_price in
      let closes = map (λ c. c.close) q.candles in
      let rsi = compute_rsi w closes in
      let atr = compute_atr w q.candles in
      let s = signal_of w rsi in
      let l = levels_of w q.candles price atr in
      respond 200 (
        object (
          ("timestamp", str w.iso_now)
          ∷ ("framework", str "Hikari Multi-Agent Autonomous Trading Desk Architecture")
          ∷ ("targetAsset", str pair)
          ∷ ("timeframe", str (w.to_upper timeframe))
          ∷ ("currentPrice", num price)
          ∷ ("priceFormatted", str (dollars price price))
          ∷ ("dailyChange", str (daily_change w closes price))
          ∷ ("marketRegime", str (market_regime w rsi))
          ∷ ("consensusDecision", str s.signal)
          ∷ ("confidenceScore", str s.confidence)
          ∷ ("tradeSetup", trade_setup price atr s l)
          ∷ (
            "analysts",
            object (
                ("technical", technical_json timeframe closes price rsi atr s l)
                ∷ ("riskCommittee", risk_json price rsi atr s l)
                ∷ []),
          )
          ∷ ("candles", array (map candle_json q.candles))
          ∷ ("dataSource", str q.data_source)
          ∷ (
            "disclaimer",
            str "Algorithmic analysis based on live market data. Not financial advice.",
          )
          ∷ []))

  unfoldable pub no_market : String → Response Num
  no_market pair = respond 503 (
      object (
        (
          "error",
          str (
              "No live market data available for " ⊕ pair ⊕ ". Horizon or price feed unreachable."),
        )
        ∷ ("dataSource", str "NONE")
        ∷ ("targetAsset", str pair)
        ∷ []))

  abbrev pub param_or : String → String → Request → String
  param_or name other req = w.show (or_else n (find_param name req.query) (str other))

  unfoldable pub trading_agent : Request → Response Num
  trading_agent req =
      let pair = w.to_upper (param_or "pair" "XLM/USDC" req) in
      let timeframe = param_or "timeframe" "1h" req in
      let q = load_quotes w pair timeframe in
      if is_bare w q then no_market pair else trading_report pair timeframe q
