-- ===== src/Server/Trading/Live.antt =====
-- Where the quotes of `/api/trading-agent` come from, and what the report says of them.
use hikari.Prelude.{
  ◌≡◌, ◌≢◌, ◌⊎◌, refl, true, false, [], ◌∷◌, map, arith, sym, ◌∙◌, Bool-cases, Option, Option-cases,
  inl, inr, ◌||◌, some, none, List,
}
use mathlib.Core.Bool.{false≢true}
use hikari.Prelude.Text.{String, ◌⊕◌, ◌==◌}
use hikari.Prelude.Number.{Number}
use hikari.Prelude.Except.{Except, ok, thrown, Except-cases}
use hikari.Prelude.Json.{Json, get, field_of, str, num, array}
use hikari.Server.Services.{Trade, Ohlc}
use hikari.Server.Http.{Request, Response, json, World}
use hikari.Server.Trading.Indicators.{Candle, int, same_num, end_or}
use hikari.Server.Trading.Feed.{
  Quotes, is_bare, no_quotes, with_candles, trade_candle, oldest_first, or_zero, with_price,
  with_ohlc, from_horizon, from_gecko, gecko_id, horizon_url, load_quotes,
}
use hikari.Server.Trading.{trading_agent, param_or, no_market, trading_report, candle_json}

-- the address of CoinGecko's price of a coin
abbrev pub price_url : String → String
price_url id =
    "https://api.coingecko.com/api/v3/simple/price?ids=" ⊕ id
    ⊕ "&vs_currencies=usd&include_24hr_change=true"

abbrev ohlc_url : String → String
ohlc_url id = "https://api.coingecko.com/api/v3/coins/" ⊕ id ⊕ "/ohlc?vs_currency=usd&days=1"

-- What an answer holds under a name.
abbrev pub answered : {N : Type 0} → String → Response N → Json N
answered name r = elim r.body [ json v ↦ get name v | _ ↦ Json.undefined ]

module _ {n : Number} (w : World n) where
  open n use {Num}

  -- The price is the close of the latest trade candle that Horizon gave, and is marked so.
  abbrev pub FromHorizon : String → Quotes Num → Type 0
  FromHorizon url q =
      (records : Option (List Trade)) × (c : Candle Num) × (cs : List (Candle Num))
      × (w.services.market.trade_aggregations url ≡ ok (some records))
      × (map (trade_candle w) (oldest_first w records) ≡ c ∷ cs)
      × (q.candles ≡ c ∷ cs)
      × (q.current_price ≡ (end_or c cs).close)
      × (q.data_source ≡ "LIVE_HORIZON")

  -- The price is the one that CoinGecko gave, and is marked so.
  abbrev pub FromGecko : Quotes Num → Type 0
  FromGecko q =
      (id : String) × (usd : Num) × (w.services.market.simple_price (price_url id) id
        ≡ ok (some (some usd)))
      × (q.current_price ≡ or_zero w usd)
      × (q.data_source ≡ "LIVE_COINGECKO")

  abbrev HorizonOr : String → Quotes Num → Type 0
  HorizonOr url q = (same_num w q.current_price (int w 0) ≡ true) ⊎ FromHorizon url q

  -- Quotes whose price was never set have the price 0; all others name their source.
  abbrev HasSource : String → Quotes Num → Type 0
  HasSource url q = (same_num w q.current_price (int w 0) ≡ true) ⊎ FromHorizon url q ⊎ FromGecko q

module _ {n : Number} (w : World n) (zero_le : n.le (int w 0) (int w 0) ≡ true) where
  open n use {Num}

  zero_price : same_num w (int w 0) (int w 0) ≡ true
  zero_price = ground (arith, zero_le)

  with_candles-source :
      (url : String) (records : Option (List Trade)) (cs : List (Candle Num))
      → w.services.market.trade_aggregations url ≡ ok (some records)
      → map (trade_candle w) (oldest_first w records) ≡ cs
      → HorizonOr w url (with_candles w cs (no_quotes w))
  unfolding with_candles
  with_candles-source url records [] answer made = inl zero_price
  with_candles-source url records (c ∷ cs) answer made =
      inr (records, c, cs, answer, made, refl, refl, refl)

  horizon_fails :
      (url e : String)
      → w.services.market.trade_aggregations url ≡ thrown e
      → from_horizon w url (no_quotes w) ≡ no_quotes w
  unfolding from_horizon
  horizon_fails url e failed = rw (failed, from_horizon) refl

  horizon_refuses :
      (url : String)
      → w.services.market.trade_aggregations url ≡ ok none
      → from_horizon w url (no_quotes w) ≡ no_quotes w
  unfolding from_horizon
  horizon_refuses url refused = rw (refused, from_horizon) refl

  horizon_reads :
      (url : String) (records : Option (List Trade))
      → w.services.market.trade_aggregations url ≡ ok (some records)
      → from_horizon w url (no_quotes w)
        ≡ with_candles w (map (trade_candle w) (oldest_first w records)) (no_quotes w)
  unfolding from_horizon
  horizon_reads url records read = rw (read, from_horizon) refl

  from_horizon-source : (url : String) → HorizonOr w url (from_horizon w url (no_quotes w))
  from_horizon-source url = elim (Except-cases (w.services.market.trade_aggregations url)) [
    | inr (e, failed) ↦ rw (horizon_fails url e failed) (inl zero_price)
    | inl (none, given) ↦ rw (horizon_refuses url given) (inl zero_price)
    | inl (some records, given) ↦
        rw (horizon_reads url records given) (with_candles-source url records _ given refl)
  ]

  -- The candles change neither the price nor its source.
  with_ohlc-HasSource :
      (url : String) (q : Quotes Num) (candles : Except (Option (List (Ohlc Num))))
      → (same_num w q.current_price (int w 0) ≡ true) ⊎ FromGecko w q
      → HasSource w url (with_ohlc w candles q)
  with_ohlc-HasSource url q (thrown e) (inl unpriced) = inl unpriced
  with_ohlc-HasSource url q (thrown e) (inr gecko) = inr (inr gecko)
  with_ohlc-HasSource url q (ok none) (inl unpriced) = inl unpriced
  with_ohlc-HasSource url q (ok none) (inr gecko) = inr (inr gecko)
  with_ohlc-HasSource url q (ok (some ds)) (inl unpriced) = inl unpriced
  with_ohlc-HasSource url q (ok (some ds)) (inr gecko) = inr (inr gecko)

  with_price-source :
      (id : String) (q : Quotes Num) (answer : Option (Option Num))
      → w.services.market.simple_price (price_url id) id ≡ ok answer
      → same_num w q.current_price (int w 0) ≡ true
      → (same_num w (with_price w answer q).current_price (int w 0) ≡ true)
        ⊎ FromGecko w (with_price w answer q)
  with_price-source id q none given unpriced = inl unpriced
  with_price-source id q (some none) given unpriced = inl zero_price
  with_price-source id q (some (some usd)) given unpriced = inr (id, usd, given, refl, refl)

  gecko_fails :
      (id e : String) (q : Quotes Num)
      → w.services.market.simple_price (price_url id) id ≡ thrown e
      → from_gecko w id q ≡ q
  unfolding from_gecko
  gecko_fails id e q failed = rw (failed, from_gecko) refl

  gecko_answers :
      (id : String) (q : Quotes Num) (answer : Option (Option Num))
      → w.services.market.simple_price (price_url id) id ≡ ok answer
      → (candles : Except (Option (List (Ohlc Num)))) × (from_gecko w id q
          ≡ with_ohlc w candles (with_price w answer q))
  unfolding from_gecko
  gecko_answers id q answer given =
      (w.services.market.ohlc (ohlc_url id), rw (given, from_gecko) refl)

  -- CoinGecko is asked where there is no price yet.
  from_gecko-HasSource :
      (url id : String) (q : Quotes Num)
      → same_num w q.current_price (int w 0) ≡ true
      → HasSource w url (from_gecko w id q)
  from_gecko-HasSource url id q unpriced =
      elim (Except-cases (w.services.market.simple_price (price_url id) id)) [
        | inr (e, failed) ↦ rw (gecko_fails id e q failed) (inl unpriced)
        | inl (answer, given) ↦
            let (candles, whole) = gecko_answers id q answer given in
            rw whole
              (with_ohlc-HasSource url _ candles (with_price-source id q answer given unpriced))
      ]

  bare-unpriced :
      (url : String) (q : Quotes Num)
      → HorizonOr w url q
      → is_bare w q ≡ true
      → same_num w q.current_price (int w 0) ≡ true
  bare-unpriced url q (inl unpriced) bare = unpriced
  bare-unpriced url q (inr (records, c, cs, read, made, held, price, named)) bare = rw held at bare

  load_quotes-HasSource :
      (pair timeframe : String)
      → HasSource w (horizon_url w timeframe) (load_quotes w pair timeframe)
  unfolding load_quotes
  load_quotes-HasSource pair timeframe =
      let url = horizon_url w timeframe in
      let traded = from_horizon w url (no_quotes w) in
      elim (Bool-cases (pair == "XLM/USDC" || pair == "XLM/USD")) [
        | inl stellar ↦ elim (Bool-cases (is_bare w traded)) [
          | inl bare ↦
              rw (stellar, bare)
                (from_gecko-HasSource url "stellar" traded
                  (bare-unpriced url traded (from_horizon-source url) bare))
          | inr full ↦
              rw (stellar, full)
                (elim (from_horizon-source url) [
                  | inl unpriced ↦ inl unpriced
                  | inr horizon ↦ inr (inl horizon)
                ])
        ]
        | inr other ↦ rw other (elim (Option-cases (gecko_id pair)) [
          | inl unknown ↦ rw unknown (inl zero_price)
          | inr (id, known) ↦ rw known (from_gecko-HasSource url id (no_quotes w) zero_price)
        ])
      ]

  unpriced-bare :
      (q : Quotes Num) → same_num w q.current_price (int w 0) ≡ true → is_bare w q ≡ true
  unpriced-bare q unpriced = ground (arith, unpriced)

  priced :
      (url : String) (q : Quotes Num)
      → HasSource w url q
      → is_bare w q ≡ false
      → (q.candles ≢ []) × (FromHorizon w url q ⊎ FromGecko w q)
  priced url q (inl unpriced) full = absurd (false≢true (sym full ∙ unpriced-bare q unpriced))
  priced url q (inr source) full = (λ e. ground arith, source)

  -- A request is either answered with 503, or with 200 and a report that shows the candles, the price and the
  -- source of the quotes. There is a candle then, and the source that is named is the one that gave
  -- the price: Horizon, whose latest trade candle closed at it, or CoinGecko, whose answer it is.
  pub report_is_live :
      (req : Request)
      → let timeframe = param_or w "timeframe" "1h" req in
        let q = load_quotes w (w.to_upper (param_or w "pair" "XLM/USDC" req)) timeframe in
        let a = trading_agent w req in
        ((a.status ≡ 200)
          × (answered "dataSource" a ≡ str q.data_source)
          × (answered "currentPrice" a ≡ num q.current_price)
          × (answered "candles" a ≡ array (map (candle_json w) q.candles))
          × (q.candles ≢ [])
          × (FromHorizon w (horizon_url w timeframe) q ⊎ FromGecko w q))
        ⊎ ((a.status ≡ 503) × (answered "dataSource" a ≡ str "NONE"))
  unfolding trading_agent get field_of
  report_is_live req =
      let timeframe = param_or w "timeframe" "1h" req in
      let pair = w.to_upper (param_or w "pair" "XLM/USDC" req) in
      let q = load_quotes w pair timeframe in
      elim (Bool-cases (is_bare w q)) [
        | inl bare ↦ inr (rw bare (unfold no_market in (refl, refl)))
        | inr full ↦
            let (some_, source) =
              priced (horizon_url w timeframe) q (load_quotes-HasSource pair timeframe) full in
            inl (rw full (unfold trading_report in (refl, refl, refl, refl, some_, source)))
      ]
