-- ===== src/Server/Trading/Feed.antt =====
-- frontend/server.js, `/api/trading-agent`: the candles and the price, from Horizon or CoinGecko.
use hikari.Prelude.{Bool, true, ◌||◌, List, [], ◌∷◌, map, Option, none, some, if◌then◌else◌}
use mathlib.Core.List.{reverse}
use hikari.Prelude.Text.{String, ◌⊕◌, ◌==◌, is_empty}
use hikari.Prelude.Number.{Number}
use hikari.Prelude.Except.{Except, ok, thrown}
use hikari.Prelude.Json.{str, is_nonzero}
use hikari.Server.Services.{Trade, Ohlc}
use hikari.Server.Http.{World}
use hikari.Server.Trading.Indicators.{Candle, int, same_num, end_or}

-- `candles`, `currentPrice` and `dataSource`
pub record Quotes (N : Type 0) : Type 0 where
  pub candles : List (Candle N)
  pub current_price : N
  pub data_source : String

-- `v || other` of `process.env.NAME`
abbrev pub env_or : Option String → String → String
env_or none other = other
env_or (some v) other = if is_empty v then other else v

-- `geckoMap[rawPair]`
unfoldable pub gecko_id : String → Option String
gecko_id pair =
    if pair == "BTC/USDT"
    then some "bitcoin"
    else if pair == "ETH/USDC"
    then some "ethereum"
    else if pair == "SOL/USDC"
    then some "solana"
    else none

module _ {n : Number} (w : World n) where
  open n use {Num, of_ℤ, div, floor}

  -- `resolutionMap[timeframe] || 3600000`, as it stands in the URL
  unfoldable pub resolution : String → String
  resolution timeframe =
      if timeframe == "15m"
      then "900000"
      else if timeframe == "1h"
      then "3600000"
      else if timeframe == "4h"
      then "14400000"
      else if timeframe == "1d"
      then "86400000"
      else elim (w.inherited timeframe) [ none ↦ "3600000" | some (member, text) ↦ text ]

  abbrev pub no_quotes : Quotes Num
  no_quotes = record { candles = []; current_price = int w 0; data_source = "NONE" }

  -- `x || 0`, which turns NaN into 0 too
  abbrev pub or_zero : Num → Num
  or_zero x = if is_nonzero n x then x else int w 0

  unfoldable pub trade_candle : Trade → Candle Num
  trade_candle r = record {
    time = floor (div (w.time_of r.timestamp) (int w 1000));
    open_price = w.parse_float (str r.open_price);
    high = w.parse_float (str r.high);
    low = w.parse_float (str r.low);
    close = w.parse_float (str r.close);
    volume = or_zero (w.parse_int r.base_volume);
  }

  unfoldable pub ohlc_candle : Ohlc Num → Candle Num
  ohlc_candle d = record {
    time = floor (div d.time (int w 1000));
    open_price = d.open_price;
    high = d.high;
    low = d.low;
    close = d.close;
    volume = int w 0;
  }

  -- `records` of an answer, oldest first
  abbrev pub oldest_first : Option (List Trade) → List Trade
  oldest_first none = []
  oldest_first (some rs) = reverse rs

  unfoldable pub with_candles : List (Candle Num) → Quotes Num → Quotes Num
  with_candles [] q = record q { candles = [] }
  with_candles (c ∷ cs) q = record {
    candles = c ∷ cs;
    current_price = (end_or c cs).close;
    data_source = "LIVE_HORIZON";
  }

  -- the first `try`: a failed request leaves the quotes
  unfoldable pub from_horizon : String → Quotes Num → Quotes Num
  unfolding trade_candle with_candles
  from_horizon url q = elim (w.services.market.trade_aggregations url) [
    | thrown e ↦ q
    | ok none ↦ q
    | ok (some records) ↦ with_candles (map trade_candle (oldest_first records)) q
  ]

  abbrev pub with_price : Option (Option Num) → Quotes Num → Quotes Num
  with_price none q = q
  with_price (some none) q = record q { current_price = int w 0; data_source = "LIVE_COINGECKO" }
  with_price (some (some usd)) q = record q {
    current_price = or_zero usd;
    data_source = "LIVE_COINGECKO";
  }

  abbrev pub with_ohlc : Except (Option (List (Ohlc Num))) → Quotes Num → Quotes Num
  with_ohlc (thrown e) q = q
  with_ohlc (ok none) q = q
  with_ohlc (ok (some ds)) q = record q { candles = map ohlc_candle ds }

  -- the `try` over CoinGecko's two answers; what the first gave stays if the second fails
  unfoldable pub from_gecko : String → Quotes Num → Quotes Num
  unfolding ohlc_candle
  from_gecko id q =
      let price =
        w.services.market.simple_price
          ("https://api.coingecko.com/api/v3/simple/price?ids=" ⊕ id
            ⊕ "&vs_currencies=usd&include_24hr_change=true")
          id in
      let candles =
        w.services.market.ohlc
          ("https://api.coingecko.com/api/v3/coins/" ⊕ id ⊕ "/ohlc?vs_currency=usd&days=1") in
      elim price [ thrown e ↦ q | ok answer ↦ with_ohlc candles (with_price answer q) ]

  -- `candles.length === 0 || currentPrice === 0`
  abbrev pub is_bare : Quotes Num → Bool
  is_bare q = elim q.candles [ [] ↦ true | c ∷ cs ↦ same_num w q.current_price (int w 0) ]

  abbrev pub usdc_issuer : String
  usdc_issuer = "GBBD47IF6LWK7P7MDEVSCWR7DPUWV3NY3DTQEVFL4NAT4AQH3ZLLFLA5"

  unfoldable pub horizon_url : String → String
  unfolding resolution
  horizon_url timeframe =
      env_or (w.services.env "HORIZON_URL") "https://horizon-testnet.stellar.org"
      ⊕ "/trade_aggregations?base_asset_type=native&counter_asset_type=credit_alphanum4&counter_asset_code=USDC&counter_asset_issuer="
      ⊕ usdc_issuer
      ⊕ "&resolution="
      ⊕ resolution timeframe
      ⊕ "&limit=25&order=desc"

  unfoldable pub load_quotes : String → String → Quotes Num
  load_quotes pair timeframe =
      let traded = from_horizon (horizon_url timeframe) no_quotes in
      if pair == "XLM/USDC" || pair == "XLM/USD"
      then (if is_bare traded then from_gecko "stellar" traded else traded)
      else elim (gecko_id pair) [ none ↦ no_quotes | some id ↦ from_gecko id no_quotes ]
