-- ===== src/Server/Services.antt =====
-- frontend/server.js: the services that the server calls over the network or loads at run time, as
-- the code uses their results. A call that fails in any way is `thrown`.
use hikari.Prelude.{Option, List}
use hikari.Prelude.Text.{String}
use hikari.Prelude.Except.{Except}
use hikari.Prelude.Json.{Json, Fields}

-- A record of Horizon's trade aggregations: its fields are texts.
pub record Trade : Type 0 where
  pub timestamp : String
  pub open_price : String
  pub high : String
  pub low : String
  pub close : String
  pub base_volume : String

-- A candle of CoinGecko's `ohlc`: five numbers.
pub record Ohlc (N : Type 0) : Type 0 where
  pub time : N
  pub open_price : N
  pub high : N
  pub low : N
  pub close : N

-- Each answer is `none` where the status is not one of success. `records` is what stands at
-- `_embedded?.records`, `usd` what stands at `[id]?.usd`.
pub record Market (N : Type 0) : Type 0 where
  pub trade_aggregations : String → Except (Option (Option (List Trade)))
  pub simple_price : String → String → Except (Option (Option N))
  pub ohlc : String → Except (Option (List (Ohlc N)))

pub record PointsEngine (N : Type 0) : Type 0 where
  pub get_user_profile : String → N → String → Except (Fields N)
  pub get_leaderboard : Except (Json N)

pub record SocialGateway (N : Type 0) : Type 0 where
  pub get_status : Except (Json N)
  pub get_feed : Except (Json N)
  pub get_leaderboard : Except (Json N)

-- `new HikariSolvencyEngine(reserves, ledger, [])`
pub record SolvencyEngine (N : Type 0) : Type 0 where
  pub generate_solvency_report : Except (Json N)
  pub get_inclusion_proof : String → Except (Json N)

pub record Services (N : Type 0) : Type 0 where
  -- `process.env`
  pub env : String → Option String
  pub market : Market N
  -- each of these loads a module, which may fail
  pub points_engine : Except (PointsEngine N)
  pub social_gateway : Except (SocialGateway N)
  pub solvency_engine : Except (N → Json N → Except (SolvencyEngine N))
  pub telegram_bot : Except (Json N → Json N → Except (Json N))
  pub execute_x402_micropayment : String → String → String → Except (Json N)
  -- the answer of a Horizon server's root
  pub horizon_root : String → Except (Json N)
