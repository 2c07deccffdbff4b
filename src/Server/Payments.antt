-- ===== src/Server/Payments.antt =====
-- frontend/server.js: `/api/x402-query`, the volatility of the closes and a paid query.
use hikari.Prelude.{◌||◌, List, [], ◌∷◌, map, length, Option, none, some, ltb, if◌then◌else◌}
use hikari.Prelude.Text.{String, ◌⊕◌, is_empty}
use hikari.Prelude.Number.{Number}
use hikari.Prelude.Except.{ok, thrown, ◌>>=◌}
use hikari.Prelude.Json.{Json, num, str, object}
use hikari.Server.Services.{Trade}
use hikari.Server.Http.{Response, World, respond, property}
use hikari.Server.Trading.Indicators.{int, ratio, rounded, sum_from}
use hikari.Server.Trading.Feed.{env_or}

abbrev pub payment_issuer : String
payment_issuer = "CBIELTK6YBZJU5UP2WWQEUCYKLPU6AUNZ2BQ4WWFEIE3USCIHMXQDAMA"

module _ {n : Number} (w : World n) where
  open n use {Num, add, sub, mul, div, lt, min}

  -- `closes`: the prices that are above 0, which NaN is not
  unfoldable pub positive_closes : List Trade → List Num
  positive_closes [] = []
  positive_closes (r ∷ rs) =
      let price = w.parse_float (str r.close) in
      if lt (int w 0) price then price ∷ positive_closes rs else positive_closes rs

  abbrev count : List Num → Num
  count xs = int w (length xs)

  -- the sum of the squared distances from the mean
  abbrev spread : Num → List Num → Num
  spread mean xs = sum_from w (int w 0) (map (λ x. w.pow (sub x mean) (int w 2)) xs)

  -- the yearly volatility of hourly closes in percent, between 5 and 100
  unfoldable pub annualized_volatility : List Num → Num
  unfolding sum_from rounded
  annualized_volatility closes =
      let mean = div (sum_from w (int w 0) closes) (count closes) in
      let variance = div (spread mean closes) (sub (count closes) (int w 1)) in
      let yearly =
        mul (mul (div (w.sqrt variance) mean) (w.sqrt (mul (int w 365) (int w 24)))) (int w 100) in
      rounded w 1 (min (int w 100) (w.max (int w 5) yearly))

  -- the index of the closes of the records, 24.5 where there are too few
  unfoldable pub volatility_of : List Trade → Num
  unfolding positive_closes annualized_volatility
  volatility_of records =
      let closes = positive_closes records in
      if ltb (length closes) 2 then ratio w 49 2 else annualized_volatility closes

  abbrev pub or_none : Option (List Trade) → List Trade
  or_none none = []
  or_none (some rs) = rs

  unfoldable pub volatility_index : Num
  unfolding volatility_of
  volatility_index =
      let url =
        env_or (w.services.env "HORIZON_URL") "https://horizon-testnet.stellar.org"
        ⊕ "/trade_aggregations?base_asset_type=native&counter_asset_type=credit_alphanum4&counter_asset_code=USDC&counter_asset_issuer="
        ⊕ payment_issuer
        ⊕ "&resolution=3600000&limit=24&order=desc" in
      elim (w.services.market.trade_aggregations url) [
        | thrown e ↦ ratio w 49 2
        | ok none ↦ ratio w 49 2
        | ok (some records) ↦ volatility_of (or_none records)
      ]

  abbrev protocol : Json Num
  protocol = str "x402 (HTTP 402 + Stellar USDC SAC)"

  abbrev pub oracle_data : Json Num
  oracle_data = object (
      ("volatilityIndex", num volatility_index)
      ∷ ("projectedSlippageBps", num (int w 18))
      ∷ ("recommendationConfidence", num (ratio w 95 100))
      ∷ ("timestamp", num w.now_ms)
      ∷ [])

  unfoldable pub not_configured : Response Num
  not_configured = respond 200 (
      object (
        ("status", str "NOT_CONFIGURED")
        ∷ (
          "error",
          str
              "x402 micropayments facilitator not configured. Set X402_FACILITATOR_URL and X402_PAYER_SECRET.",
        )
        ∷ ("protocol", protocol)
        ∷ ("asset", str payment_issuer)
        ∷ ("costUsdc", str "0.001")
        ∷ ("data", oracle_data)
        ∷ []))

  unfoldable pub paid : Json Num → Response Num
  paid proof = respond 200 (
      object (
        ("status", str "PAID_ACCESS_GRANTED")
        ∷ ("paymentProof", proof)
        ∷ ("service", str "StellarRiskOracle /v1/volatility-feed")
        ∷ ("protocol", protocol)
        ∷ ("asset", str payment_issuer)
        ∷ ("costUsdc", str "0.001")
        ∷ ("data", oracle_data)
        ∷ []))

  unfoldable pub payment_failed : String → Response Num
  payment_failed message = respond 502 (
      object (
        ("status", str "PAYMENT_FAILED")
        ∷ ("error", str message)
        ∷ ("protocol", protocol)
        ∷ (
          "data",
          object (("volatilityIndex", num volatility_index) ∷ ("timestamp", num w.now_ms) ∷ []),
        )
        ∷ []))

  unfoldable pub pay : String → String → Response Num
  pay url secret =
      elim (w.services.execute_x402_micropayment url secret "0.001" >>= property w "txHash") [
        | thrown e ↦ payment_failed e
        | ok proof ↦ paid proof
      ]

  unfoldable pub x402_query : Response Num
  x402_query =
      let url = env_or (w.services.env "X402_FACILITATOR_URL") "" in
      let secret = env_or (w.services.env "X402_PAYER_SECRET") "" in
      if is_empty url || is_empty secret then not_configured else pay url secret
