-- ===== src/Server/Router.antt =====
-- frontend/server.js: `handleRequest`, the tests of the method and the path in their order, and the
-- handlers behind them. A URL that cannot be parsed raises before them. `thrown` is an error that
-- no handler catches, after which no response is sent.
pub mod Routing
pub mod Frame
use hikari.Prelude.{Bool, true, false, ◌&&◌, ◌||◌, List, [], ◌∷◌, Option, none, some, if◌then◌else◌}
use hikari.Prelude.Text.{String, ◌==◌, starts_with}
use hikari.Prelude.Number.{Number}
use hikari.Prelude.Except.{Except, ok, thrown}
use hikari.Auth.Types as Auth
use hikari.Database.Types as Db
use hikari.Server.Http.{Request, Response, FileState, World, empty}
use hikari.Server.Replies.{State}
use hikari.Server.Sessions.{issue_challenge, verify_login, security_logs}
use hikari.Server.Transactions.{token_balance, build_deposit, build_withdraw}
use hikari.Server.Tickets.{withdrawal_tickets}
use hikari.Server.Telemetry.{telemetry}
use hikari.Server.Contracts.{contracts, submit_tx}
use hikari.Server.Yield.{yield_routes}
use hikari.Server.Trading.{trading_agent}
use hikari.Server.Governance.{governance_proposals}
use hikari.Server.Voting.{governance_vote}
use hikari.Server.Breaker.{simulate_shock, reset_circuit_breaker, trigger_cycle}
use hikari.Server.Payments.{x402_query}
use hikari.Server.Insights.{
  health, points, leaderboard, social_status, social_feed, social_leaderboard, solvency_proof,
  telegram_command,
}
use hikari.Server.Users.{
  db_health, get_profile, put_profile, user_portfolio, user_history, deposit_record,
}
use hikari.Server.Static.{Files, static_file}

pub data Route : Type 0 where
  preflight health_check balance_query deposit_build withdraw_build tickets_query submission : Route
  telemetry_query contracts_query yield_query trading_query proposals_query vote : Route
  cycle_trigger shock breaker_reset paid_query points_query leaderboard_query : Route
  social_status_query social_feed_query social_leaderboard_query solvency_query telegram : Route
  db_health_query challenge login profile_query profile_update portfolio_query : Route
  history_query deposit_booking logs_query public_file : Route

-- What a request's path must be.
pub data Pattern : Type 0 where
  exactly below : String → Pattern

-- The methods that a handler takes.
pub data Methods : Type 0 where
  any : Methods
  only : String → Methods
  either : String → String → Methods

abbrev pub fits : Pattern → String → Bool
fits (exactly s) path = path == s
fits (below s) path = starts_with s path

abbrev pub takes : Methods → String → Bool
takes any m = true
takes (only s) m = m == s
takes (either s t) m = (m == s) || (m == t)

-- `if (pathname === … && req.method === …)`, one after the other
abbrev pub table : List (Pattern × Methods × Route)
table =
    (exactly "/api/health", any, health_check)
    ∷ (exactly "/api/token-balance", any, balance_query)
    ∷ (exactly "/api/build-deposit", only "POST", deposit_build)
    ∷ (exactly "/api/build-withdraw", only "POST", withdraw_build)
    ∷ (exactly "/api/withdrawal-tickets", any, tickets_query)
    ∷ (exactly "/api/submit-tx", only "POST", submission)
    ∷ (exactly "/api/telemetry", any, telemetry_query)
    ∷ (exactly "/api/contracts", any, contracts_query)
    ∷ (exactly "/api/yield-routes", any, yield_query)
    ∷ (exactly "/api/trading-agent", any, trading_query)
    ∷ (exactly "/api/governance/proposals", any, proposals_query)
    ∷ (exactly "/api/governance/vote", only "POST", vote)
    ∷ (exactly "/api/trigger-cycle", only "POST", cycle_trigger)
    ∷ (exactly "/api/simulate-shock", only "POST", shock)
    ∷ (exactly "/api/reset-circuit-breaker", only "POST", breaker_reset)
    ∷ (exactly "/api/x402-query", only "POST", paid_query)
    ∷ (below "/api/points", any, points_query)
    ∷ (exactly "/api/leaderboard", any, leaderboard_query)
    ∷ (exactly "/api/v1/social/status", any, social_status_query)
    ∷ (exactly "/api/v1/social/feed", any, social_feed_query)
    ∷ (exactly "/api/v1/social/leaderboard", any, social_leaderboard_query)
    ∷ (exactly "/api/v1/solvency/proof", any, solvency_query)
    ∷ (exactly "/api/v1/telegram/command", only "POST", telegram)
    ∷ (exactly "/api/v1/db/health", any, db_health_query)
    ∷ (exactly "/api/v1/auth/challenge", only "POST", challenge)
    ∷ (exactly "/api/v1/auth/verify", only "POST", login)
    ∷ (exactly "/api/v1/user/profile", only "GET", profile_query)
    ∷ (exactly "/api/v1/user/profile", either "PUT" "POST", profile_update)
    ∷ (exactly "/api/v1/user/portfolio", only "GET", portfolio_query)
    ∷ (exactly "/api/v1/user/history", only "GET", history_query)
    ∷ (exactly "/api/v1/user/deposit-record", only "POST", deposit_booking)
    ∷ (exactly "/api/v1/security/logs", only "GET", logs_query)
    ∷ []

-- The first test that holds; a request that fits none is one for a file.
unfoldable pub first_match : List (Pattern × Methods × Route) → String → String → Route
first_match [] method path = public_file
first_match ((p, ms, r) ∷ ts) method path =
    let rest = first_match ts method path in if fits p path && takes ms method then r else rest

unfoldable pub route_of : Request → Route
route_of req =
    if req.method == "OPTIONS" then preflight else first_match table req.method req.pathname

-- What a request finds around the server: its hosts, its files, and what it draws.
pub record Surroundings (n : Number) : Type 1 where
  pub auth_host : Auth.Host
  pub db_host : Db.Host n.Num
  pub world : World n
  pub files : Files
  pub auth_draw : Auth.Draw
  pub db_draw : Db.Draw
  -- whether telemetry_data.json can be written
  pub can_write : Bool
  -- the output of a run of the daemon, and the file that it leaves
  pub cycle_stdout : String
  pub cycle_file : FileState n.Num

-- `res.setHeader`, before any test
abbrev pub common_headers : List (String × String)
common_headers =
    ("Access-Control-Allow-Origin", "*")
    ∷ ("Access-Control-Allow-Methods", "GET, POST, OPTIONS, PUT, DELETE")
    ∷ ("Access-Control-Allow-Headers", "Content-Type, Authorization, X-Requested-With")
    ∷ ("Cache-Control", "no-cache, no-store, must-revalidate")
    ∷ []

pub record Reply (N : Type 0) : Type 0 where
  pub headers : List (String × String)
  pub response : Response N

abbrev pub reply : {N : Type 0} → Except (Response N) → Except (Reply N)
reply (ok r) = ok (record { headers = common_headers; response = r })
reply (thrown e) = thrown e

module _ {n : Number} (s : Surroundings n) where
  open n use {Num}

  abbrev with_file :
      State Num → FileState Num × Except (Response Num) → State Num × Except (Response Num)
  with_file st (f, r) = (record st { telemetry_file = f }, r)

  abbrev answering : State Num × Response Num → State Num × Except (Response Num)
  answering (st, r) = (st, ok r)

  -- The handler of a route, on the state.
  unfoldable pub perform : Route → State Num → Request → State Num × Except (Response Num)
  perform preflight st req = (st, ok (record { status = 204; content_type = ""; body = empty }))
  perform health_check st req = (st, ok (health s.world))
  perform balance_query st req = (st, ok (token_balance s.world req))
  perform deposit_build st req = (st, ok (build_deposit s.world req))
  perform withdraw_build st req = (st, ok (build_withdraw s.world req))
  perform tickets_query st req = (st, ok (withdrawal_tickets s.world req))
  perform submission st req = (st, ok (submit_tx s.world req))
  perform telemetry_query st req = (st, telemetry s.world)
  perform contracts_query st req = (st, contracts s.world)
  perform yield_query st req = (st, yield_routes s.world)
  perform trading_query st req = (st, ok (trading_agent s.world req))
  perform proposals_query st req = (st, governance_proposals s.world)
  perform vote st req = (st, ok (governance_vote s.world req))
  perform cycle_trigger st req = (
    record st { telemetry_file = s.cycle_file },
    ok (trigger_cycle s.world s.cycle_stdout s.cycle_file),
  )
  perform shock st req = with_file st (simulate_shock s.world s.can_write st.telemetry_file)
  perform breaker_reset st req =
      with_file st (reset_circuit_breaker s.world s.can_write st.telemetry_file)
  perform paid_query st req = (st, ok (x402_query s.world))
  perform points_query st req = (st, ok (points s.world req))
  perform leaderboard_query st req = (st, ok (leaderboard s.world))
  perform social_status_query st req = (st, social_status s.world)
  perform social_feed_query st req = (st, social_feed s.world)
  perform social_leaderboard_query st req = (st, social_leaderboard s.world)
  perform solvency_query st req = (st, ok (solvency_proof s.world req))
  perform telegram st req = (st, ok (telegram_command s.world req))
  perform db_health_query st req = (st, ok (db_health n s.db_host st s.db_draw.now))
  perform challenge st req = answering (issue_challenge s.auth_host s.world st req s.auth_draw)
  perform login st req = answering (verify_login s.auth_host s.world st req s.auth_draw s.db_draw)
  perform profile_query st req = get_profile s.db_host s.world st req s.db_draw
  perform profile_update st req = answering (put_profile s.db_host s.world st req s.db_draw)
  perform portfolio_query st req = (st, ok (user_portfolio s.db_host s.world st req s.db_draw))
  perform history_query st req = (st, ok (user_history s.db_host s.world st req))
  perform deposit_booking st req = answering (deposit_record s.db_host s.world st req s.db_draw)
  perform logs_query st req = (st, ok (security_logs n st))
  perform public_file st req = (st, ok (static_file s.files req))

  -- `handleRequest`
  unfoldable pub handle_request : State Num → Request → State Num × Except (Reply Num)
  handle_request st req = let (st', r) = perform (route_of req) st req in (st', reply r)
