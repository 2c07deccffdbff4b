-- ===== src/Engine/Drift.antt =====
-- engine/src/agents/keeper_bot.ts: `evaluateRebalance`. A config's weight is taken times 10000, rounded down.
pub mod Reserve
use hikari.Prelude.{
  ℕ, suc, ◌+◌, ◌*◌, Bool, true, false, not, ◌&&◌, ◌||◌, List, [], ◌∷◌, Option, none, some,
  if◌then◌else◌,
}
use hikari.Prelude.Int.{ℤ, pos, ltb_ℤ, leb_ℤ, eq_ℤ, ◌+ℤ◌, ◌-ℤ◌, ◌*ℤ◌, quot, div_by}
use hikari.Prelude.Number.{Number}
use hikari.Prelude.Except.{Except, ok, thrown, or_throw, ◌>>=◌}
use hikari.Prelude.Text.{String, ◌⊕◌, is_empty}
use hikari.Engine.Types.{
  ActionProposal, ProtocolState, PolicyEvaluation, RiskMetrics, RiskEvaluationResult,
  OracleTelemetryPayload, ArbitrageOpportunity, KeeperConfig, KeeperCycleResult, allocate,
}
use hikari.Engine.Policy.{PolicyVerifier, evaluate_proposal}
use hikari.Engine.Audit.{AuditLogger, Payload, log_decision}
use hikari.Engine.Rebalance.{get_or_zero}
use hikari.Engine.Risk.{RiskEngine, evaluate_risk}

-- BigInt `/` by a divisor that is not zero.
abbrev pub quotient : ℤ → ℤ → ℤ
quotient a b = elim (quot a b) [ none ↦ pos 0 | some q ↦ q ]

-- The loop over the target weights: the largest drift, its strategy and half of it in stroops.
pub record Drift : Type 0 where
  pub max_drift_bps : ℤ
  pub strategy : Option String
  pub amount : ℤ

unfoldable pub drift_step : ProtocolState → String → ℤ → Drift → Drift
drift_step state strategy target_bps d =
    let total = state.total_assets_stroops in
    let current_bps =
      quotient (get_or_zero strategy state.strategy_allocations *ℤ pos 10000) total in
    let diff = target_bps -ℤ current_bps in
    if ltb_ℤ d.max_drift_bps diff
    then record {
      max_drift_bps = diff;
      strategy = some strategy;
      amount = div_by (total *ℤ diff) 20000;
    }
    else d

unfoldable pub max_drift : ProtocolState → List (String × ℤ) → Drift → Drift
unfolding drift_step
max_drift state [] d = d
max_drift state ((strategy, target_bps) ∷ rest) d =
    max_drift state rest (drift_step state strategy target_bps d)

pub record RebalanceCheck : Type 0 where
  pub proposal : Option ActionProposal
  pub drift_bps : ℤ
  pub target_strategy : Option String

-- `strategy && …`, of a text or undefined
abbrev pub truthy : Option String → Bool
truthy none = false
truthy (some s) = not (is_empty s)

abbrev pub text_or_empty : Option String → String
text_or_empty none = ""
text_or_empty (some s) = s

abbrev no_proposal : ℤ → RebalanceCheck
no_proposal drift = record { proposal = none; drift_bps = drift; target_strategy = none }

module _ {N : Type 0} (config : KeeperConfig N) (state : ProtocolState) where
  -- the reserve that a rebalancing keeps
  abbrev pub min_required_reserve : ℤ
  min_required_reserve =
      div_by (state.total_assets_stroops *ℤ config.min_reserve_ratio_percentage) 100

  abbrev pub allocatable_idle : ℤ
  allocatable_idle =
      if ltb_ℤ min_required_reserve state.idle_assets_stroops
      then state.idle_assets_stroops -ℤ min_required_reserve
      else pos 0

  abbrev pub final_amount : Drift → ℤ
  final_amount d = if ltb_ℤ allocatable_idle d.amount then allocatable_idle else d.amount

  abbrev pub drift_of : Drift
  drift_of =
      max_drift state config.target_allocations
        (record { max_drift_bps = pos 0; strategy = none; amount = pos 0 })

module _ {N : Type 0} (show : ℤ → String) (now : ℕ) (config : KeeperConfig N)
    (state : ProtocolState) where
  abbrev pub rebalance_of : Drift → ℕ → ActionProposal
  rebalance_of d cycle = record {
    id = "hikari_rebalance_" ⊕ show (pos now) ⊕ "_" ⊕ show (pos cycle);
    timestamp = now;
    proposer_agent = config.keeper_account;
    action_type = allocate;
    target_strategy = text_or_empty d.strategy;
    amount_stroops = final_amount config state d;
    expected_yield_bps = pos 1240;
    max_slippage_bps = pos 50;
    rationale =
        "Autonomous keeper rebalancing: drift of "
        ⊕ show d.max_drift_bps
        ⊕ " bps detected in "
        ⊕ text_or_empty d.strategy
        ⊕ ". Rebalancing to maintain target weight.";
  }

  -- The number of cycles goes up with each proposal.
  unfoldable pub evaluate_rebalance : ℕ → ℕ × RebalanceCheck
  unfolding max_drift
  evaluate_rebalance cycle_count =
      let total = state.total_assets_stroops in
      let d = drift_of config state in
      if eq_ℤ total (pos 0)
      then (cycle_count, no_proposal (pos 0))
      else if ltb_ℤ (quotient (state.idle_assets_stroops *ℤ pos 100) total)
          config.min_reserve_ratio_percentage
      then (cycle_count, no_proposal (pos 0))
      else if (leb_ℤ config.rebalance_threshold_bps d.max_drift_bps && truthy d.strategy)
          && ltb_ℤ (pos 0) (final_amount config state d)
      then (
        suc cycle_count,
        record {
          proposal = some (rebalance_of d (suc cycle_count));
          drift_bps = d.max_drift_bps;
          target_strategy = d.strategy;
        },
      )
      else (cycle_count, no_proposal d.max_drift_bps)
