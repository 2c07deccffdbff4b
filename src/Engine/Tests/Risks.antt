-- ===== src/Engine/Tests/Risks.antt =====
-- engine/src/risk_engine.ts and agents/reputation.ts: the theorems at concrete inputs.
use hikari.Prelude.{
  ◌/◌, if◌then◌else◌, ltb, ℕ, ◌+◌, ◌-◌, ◌*◌, ◌≤◌, ◌<◌, ◌≡◌, ◌↔◌, refl, true, false, [], ◌∷◌, some,
}
use hikari.Prelude.Int.{ℤ, pos, ◌≤ℤ◌, ◌*ℤ◌, div_by, quot}
use hikari.Prelude.Number.{fixed_point}
use hikari.Prelude.Dict.{Dict, insert, lookup}
use hikari.Engine.Types.{RiskMetrics, normal, trigger_gate_seal, engage_bunker_mode}
use hikari.Engine.Risk.{
  default_risk_thresholds, new_risk_engine, calculate_drawdown_bps, evaluate_risk,
}
use hikari.Engine.Risk.Drawdown.{update_all, calculate_drawdown_bps-update_all}
use hikari.Engine.Risk.Breakers.{IsCritical, IsSevere, IsCalm, drawdown, evaluate_risk_lem}
use hikari.Engine.Reputation.{
  active, AgentPerformanceRecord, new_agent_reputation_engine, is_agent_eligible,
}
use hikari.Engine.Reputation.Standing.{IsConsistent, created, Reachable-IsConsistent}
use hikari.Engine.Tests.{show, vault_state}

calculate_drawdown_bps-update_all_example :
    (let e = update_all (pos 1000 ∷ pos 800 ∷ []) (new_risk_engine default_risk_thresholds) in
      let top : ℕ = 1000 in
      (b : ℕ) × (calculate_drawdown_bps (pos 700) e ≡ pos b)
      × (b ≡ (if ltb 700 top then (top - 700) * 10000 / top else 0))
      × (b ≤ 10000)
      × (b * top ≤ (top - 700) * 10000)
      × ((top - 700) * 10000 ≤ b * top + (top - 1)))
calculate_drawdown_bps-update_all_example =
    calculate_drawdown_bps-update_all default_risk_thresholds (pos 1000 ∷ pos 800 ∷ []) 700

abbrev metrics : RiskMetrics
metrics = record {
  current_drawdown_bps = pos 1600;
  portfolio_volatility = pos 20;
  collateral_health_bps = pos 13000;
  oracle_freshness_seconds = pos 10;
  is_depeg_detected = false;
}

evaluate_risk_lem_example :
    (let e = new_risk_engine default_risk_thresholds in
      let r = (evaluate_risk show show vault_state metrics e).1 in
      let d = drawdown show show vault_state metrics e in
      ((r.triggers_gate_seal ≡ true) ↔ IsCritical default_risk_thresholds d metrics)
      × ((r.triggers_bunker_mode ≡ true) ↔ IsSevere default_risk_thresholds d metrics)
      × ((r.healthy ≡ true) ↔ IsCalm default_risk_thresholds d metrics)
      × ((r.recommended_action ≡ trigger_gate_seal) ↔ (r.triggers_gate_seal ≡ true))
      × ((r.recommended_action ≡ engage_bunker_mode)
          ↔ ((r.triggers_gate_seal ≡ false) × (r.triggers_bunker_mode ≡ true)))
      × ((r.recommended_action ≡ normal) ↔ ((r.healthy ≡ true) × (pos 20 ≤ℤ pos 80))))
evaluate_risk_lem_example =
    evaluate_risk_lem show show vault_state metrics (new_risk_engine default_risk_thresholds)

abbrev agents : Dict (AgentPerformanceRecord ℤ)
agents = new_agent_reputation_engine fixed_point 1000

abbrev keep : ℤ → ℤ
keep x = x

abbrev first : ℤ → ℤ → ℤ
first x y = x

abbrev market_agent : AgentPerformanceRecord ℤ
market_agent = record {
  agent_id = "MarketAgent";
  role = "Market Surveillance & Volatility Monitoring";
  total_proposals_submitted = 0;
  proposals_approved = 0;
  proposals_rejected = 0;
  cumulative_alpha_generated_bps = pos 0;
  average_execution_slippage_bps = pos 12000;
  sharpe_ratio = pos 21000;
  consecutive_rejections = 0;
  status = active;
  last_cycle_timestamp = 1000;
}

market_agent_known : lookup "MarketAgent" agents ≡ some market_agent
unfolding lookup insert new_agent_reputation_engine ◌*ℤ◌ div_by quot
market_agent_known = refl

Reachable-IsConsistent_example :
    IsConsistent market_agent
    × ((is_agent_eligible fixed_point "MarketAgent" agents ≡ true) ↔ (0 < 5))
Reachable-IsConsistent_example =
    Reachable-IsConsistent fixed_point keep first agents "MarketAgent" market_agent
      (created 1000 refl) market_agent_known
