-- ===== src/Engine/Keeper.antt =====
-- engine/src/agents/keeper_bot.ts: the oracle telemetry and the keeper's cycle. The clock stands still within a
-- cycle.
pub mod Cycle
use hikari.Prelude.{
  ℕ, suc, ◌+◌, ◌*◌, Bool, true, false, not, ◌&&◌, ◌||◌, List, [], ◌∷◌, Option, none, some,
  if◌then◌else◌,
}
use hikari.Prelude.Int.{ℤ, pos, ltb_ℤ, leb_ℤ, eq_ℤ, ◌+ℤ◌, ◌-ℤ◌, ◌*ℤ◌, quot, div_by}
use hikari.Prelude.Number.{Number}
use hikari.Prelude.Except.{Except, ok, thrown, or_throw, ◌>>=◌}
use hikari.Prelude.Text.{String, ◌⊕◌, is_empty}
use hikari.Engine.Types.{
  ActionProposal, ProtocolState, PolicyEvaluation, RiskMetrics, RiskEvaluationResult,
  OracleTelemetryPayload, ArbitrageOpportunity, KeeperConfig, KeeperCycleResult, allocate,
}
use hikari.Engine.Policy.{PolicyVerifier, evaluate_proposal}
use hikari.Engine.Audit.{AuditLogger, Payload, log_decision}
use hikari.Engine.Rebalance.{get_or_zero}
use hikari.Engine.Risk.{RiskEngine, evaluate_risk}
use hikari.Engine.Drift.{quotient, RebalanceCheck, evaluate_rebalance}
use hikari.Engine.Arbitrage.{scan_mev_opportunities}

-- What the canonical text of the telemetry holds.
pub record TelemetryText : Type 0 where
  pub nav : ℤ
  pub apr : ℤ
  pub reserves : ℤ
  pub ratio : ℤ
  pub bunker : Bool

-- SHA-256, JSON.stringify of the two records that are hashed, and numbers in templates.
pub record Host : Type 0 where
  pub hash : String → String
  pub stringify : Payload → String
  pub stringify_telemetry : TelemetryText → String
  pub show : ℤ → String
  pub percent : ℤ → String

unfoldable pub compute_oracle_telemetry : Host → ProtocolState → ℤ → Bool → OracleTelemetryPayload
compute_oracle_telemetry host state blended_apr_bps bunker_active =
    let total = state.total_assets_stroops in
    let ratio =
      if ltb_ℤ (pos 0) total
      then quotient (state.idle_assets_stroops *ℤ pos 10000) total
      else pos 2280 in
    let nav : ℤ = pos 10_428_000 in
    record {
      nav_stroops = nav;
      apr_bps = blended_apr_bps;
      total_reserves_stroops = state.allocated_assets_stroops;
      liquid_reserve_ratio_bps = ratio;
      bunker_active = bunker_active;
      proof_hash = host.hash (
          host.stringify_telemetry (record {
            nav = nav;
            apr = blended_apr_bps;
            reserves = state.allocated_assets_stroops;
            ratio = ratio;
            bunker = bunker_active;
          }));
    }

-- The keeper with the components that it calls.
pub record KeeperBot (N : Type 0) : Type 0 where
  pub cycle_count : ℕ
  pub config : KeeperConfig N
  pub policy_verifier : PolicyVerifier
  pub risk_engine : RiskEngine
  pub audit_logger : AuditLogger

-- What step 2 of a cycle gives.
pub record Rebalancing (N : Type 0) : Type 0 where
  pub bot : KeeperBot N
  pub rebalanced : Bool
  pub proposal : Option ActionProposal
  pub evaluation : Option PolicyEvaluation

module _ {N : Type 0} (host : Host) (now : ℕ) (state : ProtocolState) where
  -- the policy's evaluation of a proposal, and the log of one that it approves
  unfoldable pub submit : ActionProposal → KeeperBot N → Rebalancing N
  submit p bot =
      let (verifier, e) = evaluate_proposal host.show now p state bot.policy_verifier in
      record {
        bot = record bot {
          policy_verifier = verifier;
          audit_logger =
              if e.approved
              then (log_decision host.hash host.stringify now p e bot.audit_logger).0
              else bot.audit_logger;
        };
        rebalanced = e.approved;
        proposal = some p;
        evaluation = some e;
      }

  -- what follows the check of the drift
  unfoldable pub submit_if_any : Option ActionProposal → KeeperBot N → Rebalancing N
  unfolding submit
  submit_if_any none bot = record {
    bot = bot;
    rebalanced = false;
    proposal = none;
    evaluation = none;
  }
  submit_if_any (some p) bot = submit p bot

  -- 2. Rebalancing Evaluation
  unfoldable pub rebalance : Bool → KeeperBot N → Rebalancing N
  unfolding submit_if_any evaluate_rebalance
  rebalance true bot = record { bot = bot; rebalanced = false; proposal = none; evaluation = none }
  rebalance false bot =
      let (cycles, check) = evaluate_rebalance host.show now bot.config state bot.cycle_count in
      submit_if_any check.proposal (record bot { cycle_count = cycles })

module _ (n : Number) (abs : Number.Num n → Number.Num n) (host : Host) where
  open n use {Num}

  -- 3. MEV Arbitrage Execution
  unfoldable pub arbitrage :
      Bool → KeeperConfig Num → List (String × Num) → Except (Option (ArbitrageOpportunity Num))
  unfolding scan_mev_opportunities
  arbitrage true config venue_prices = ok none
  arbitrage false config venue_prices = scan_mev_opportunities n abs config venue_prices

  abbrev pub profitable : Option (ArbitrageOpportunity Num) → Bool
  profitable none = false
  profitable (some o) = ltb_ℤ (pos 0) o.expected_profit_stroops

  abbrev pub profit_of : Option (ArbitrageOpportunity Num) → Option ℤ
  profit_of none = none
  profit_of (some o) =
      if ltb_ℤ (pos 0) o.expected_profit_stroops then some o.expected_profit_stroops else none

  -- the steps 2 to 4 of a cycle, after the risk is evaluated
  unfoldable pub act_on_risk :
      ℕ
      → ProtocolState
      → List (String × Num)
      → ℤ
      → RiskEvaluationResult
      → Bool
      → KeeperBot Num
      → KeeperBot Num × Except (KeeperCycleResult Num)
  unfolding rebalance arbitrage compute_oracle_telemetry
  act_on_risk now state venue_prices blended_apr_bps risk bunker bot =
      let done = rebalance host now state bunker bot in
      (
        done.bot,
        arbitrage bunker bot.config venue_prices >>= λ found. ok (record {
          cycle_id = bot.cycle_count;
          timestamp = now;
          rebalanced = done.rebalanced;
          rebalance_proposal = done.proposal;
          evaluation = done.evaluation;
          arbitrage_executed = profitable found;
          arbitrage_opportunity = found;
          arbitrage_profit_stroops = profit_of found;
          oracle_payload = compute_oracle_telemetry host state blended_apr_bps bunker;
          bunker_active = bunker;
          risk_evaluation = risk;
        }),
      )

  -- The keeper's new state, and the result or the error that the scan raises.
  unfoldable pub run_keeper_cycle :
      ℕ
      → ProtocolState
      → RiskMetrics
      → List (String × Num)
      → ℤ
      → KeeperBot Num
      → KeeperBot Num × Except (KeeperCycleResult Num)
  unfolding act_on_risk
  run_keeper_cycle now state metrics venue_prices blended_apr_bps bot =
      let (risk_engine, risk) =
        evaluate_risk host.percent host.show state metrics bot.risk_engine in
      act_on_risk now state venue_prices blended_apr_bps risk
        (risk.triggers_bunker_mode || risk.triggers_gate_seal)
        (record bot { cycle_count = suc bot.cycle_count; risk_engine = risk_engine })
