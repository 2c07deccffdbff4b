-- ===== src/Engine/Types.antt =====
-- engine/src/types.ts: the data that the engine's components exchange. A set is the list of its members,
-- a map the list of its entries. Counts of basis points, percentages and times are integers.
use hikari.Prelude.{ℕ, Bool, List, Option}
use hikari.Prelude.Int.{ℤ}
use hikari.Prelude.Text.{String}

pub data ActionType : Type 0 where
  allocate deallocate harvest emergency_exit : ActionType

pub record ActionProposal : Type 0 where
  pub id : String
  pub timestamp : ℕ
  pub proposer_agent : String
  pub action_type : ActionType
  pub target_strategy : String
  pub amount_stroops : ℤ
  pub expected_yield_bps : ℤ
  pub max_slippage_bps : ℤ
  pub rationale : String

pub record ProtocolState : Type 0 where
  pub vault_address : String
  pub total_assets_stroops : ℤ
  pub idle_assets_stroops : ℤ
  pub allocated_assets_stroops : ℤ
  pub strategy_allocations : List (String × ℤ)

pub record PolicyRules : Type 0 where
  pub allowed_agents : List String
  pub allowed_strategies : List String
  pub max_transaction_size_stroops : ℤ
  pub daily_spend_cap_stroops : ℤ
  pub max_slippage_bps : ℤ
  pub min_idle_reserve_percentage : ℤ
  pub human_approval_threshold_stroops : ℤ

pub record PolicyEvaluation : Type 0 where
  pub approved : Bool
  pub requires_human_approval : Bool
  pub violations : List String
  pub notes : List String

pub record AuditLogEntry : Type 0 where
  pub sequence : ℕ
  pub timestamp : ℕ
  pub previous_hash : String
  pub proposal_id : String
  pub evaluation : PolicyEvaluation
  pub entry_hash : String

pub record RiskMetrics : Type 0 where
  pub current_drawdown_bps : ℤ
  pub portfolio_volatility : ℤ
  pub collateral_health_bps : ℤ
  pub oracle_freshness_seconds : ℤ
  pub is_depeg_detected : Bool

pub data RecommendedAction : Type 0 where
  normal reduce_risk trigger_gate_seal engage_bunker_mode : RecommendedAction

pub record RiskEvaluationResult : Type 0 where
  pub healthy : Bool
  pub triggers_gate_seal : Bool
  pub triggers_bunker_mode : Bool
  pub suggested_haircut_bps : ℤ
  pub warnings : List String
  pub recommended_action : RecommendedAction

pub record OracleTelemetryPayload : Type 0 where
  pub nav_stroops : ℤ
  pub apr_bps : ℤ
  pub total_reserves_stroops : ℤ
  pub liquid_reserve_ratio_bps : ℤ
  pub bunker_active : Bool
  pub proof_hash : String

-- `N` stands for the numbers that need not be integers.
pub record ArbitrageOpportunity (N : Type 0) : Type 0 where
  pub venue_a : String
  pub venue_b : String
  pub spread_bps : N
  pub expected_profit_stroops : ℤ
  pub execution_route : String

pub record KeeperConfig (N : Type 0) : Type 0 where
  pub vault_address : String
  pub oracle_address : String
  pub keeper_account : String
  pub min_reserve_ratio_percentage : ℤ
  pub rebalance_threshold_bps : ℤ
  pub mev_min_spread_bps : N
  -- each weight times 10000, rounded down
  pub target_allocations : List (String × ℤ)

pub record KeeperCycleResult (N : Type 0) : Type 0 where
  pub cycle_id : ℕ
  pub timestamp : ℕ
  pub rebalanced : Bool
  pub rebalance_proposal : Option ActionProposal
  pub evaluation : Option PolicyEvaluation
  pub arbitrage_executed : Bool
  pub arbitrage_opportunity : Option (ArbitrageOpportunity N)
  pub arbitrage_profit_stroops : Option ℤ
  pub oracle_payload : OracleTelemetryPayload
  pub bunker_active : Bool
  pub risk_evaluation : RiskEvaluationResult
