-- ===== src/Server/Tests/Market.antt =====
-- Governance and the trading report at concrete inputs.
use hikari.Prelude.{ℕ, zero, suc, ◌≡◌, ◌≢◌, ◌⊎◌, refl, true, List, [], ◌∷◌, replicate, map, some}
use hikari.Prelude.Int.{ℤ, pos, ◌*ℤ◌, ◌-ℤ◌}
use hikari.Prelude.Number.{fixed_point}
use hikari.Prelude.Json.{Json, object, num, str, array, get, field_of}
use hikari.Prelude.Except.{ok, thrown}
use hikari.Server.Http.{Request, World}
use hikari.Server.Trading.{trading_agent, param_or, candle_json}
use hikari.Server.Trading.Indicators.{int, last_of}
use hikari.Server.Trading.Feed.{load_quotes, horizon_url}
use hikari.Server.Trading.Window.{Rises, RisesAll}
use hikari.Server.Trading.Live.{answered, FromHorizon, FromGecko, report_is_live}
use hikari.Server.Tests.Surroundings.{world}

abbrev ballot : Json ℤ
ballot =
    object (("voteType", str "Abstain") ∷ ("voter", str "GA") ∷ ("proposalId", num (pos 3)) ∷ [])

ballot_choice : get "voteType" ballot ≡ str "Abstain"
unfolding get field_of
ballot_choice = refl

zero_le : fixed_point.le (int world 0) (int world 0) ≡ true
unfolding ◌*ℤ◌
zero_le = refl

-- Fifteen closes that stay at 2, after a fall from 9.
abbrev steady : List ℤ
steady = replicate 15 (pos 20000)

flat-Rises : (k : ℕ) → Rises world (pos 20000) (replicate k (pos 20000))
unfolding ◌*ℤ◌ ◌-ℤ◌
flat-Rises zero = _
flat-Rises (suc k) = (refl, flat-Rises k)

steady-RisesAll : RisesAll world (last_of 15 (pos 90000 ∷ steady))
steady-RisesAll = flat-Rises 14

abbrev agent_request : Request
agent_request = record {
  method = "GET";
  pathname = "/api/trading-agent";
  query = ("pair", "XLM/USDC") ∷ [];
  body = "";
  client_ip = "10.0.0.1";
  user_agent = "test";
}

-- Horizon cannot be reached; CoinGecko gives the price 2 and one candle.
abbrev live_world : World fixed_point
live_world =
    let services = world.services in
    record world {
      services = record services {
        market = record {
          trade_aggregations = λ url. thrown "unreachable";
          simple_price = λ url id. ok (some (some (pos 20000)));
          ohlc = λ url. ok (
              some (
                record {
                  time = pos 0;
                  open_price = pos 20000;
                  high = pos 20000;
                  low = pos 20000;
                  close = pos 20000;
                }
                ∷ []));
        };
      };
    }

report_is_live_example :
    let timeframe = param_or live_world "timeframe" "1h" agent_request in
    let q =
      load_quotes live_world
        (live_world.to_upper (param_or live_world "pair" "XLM/USDC" agent_request))
        timeframe in
    let a = trading_agent live_world agent_request in
    ((a.status ≡ 200)
      × (answered "dataSource" a ≡ str q.data_source)
      × (answered "currentPrice" a ≡ num q.current_price)
      × (answered "candles" a ≡ array (map (candle_json live_world) q.candles))
      × (q.candles ≢ [])
      × (FromHorizon live_world (horizon_url live_world timeframe) q ⊎ FromGecko live_world q))
    ⊎ ((a.status ≡ 503) × (answered "dataSource" a ≡ str "NONE"))
report_is_live_example = report_is_live live_world zero_le agent_request
