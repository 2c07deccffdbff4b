-- ===== src/Engine/Tests/Keepers.antt =====
-- engine/src/agents/keeper_bot.ts: the theorems at concrete inputs.
use hikari.Prelude.{◌≡◌, refl, Bool, true, false, ◌||◌, [], ◌∷◌, none, some, arith}
use hikari.Prelude.Int.{ℤ, pos, ◌+ℤ◌, ◌-ℤ◌, ◌*ℤ◌, div_by, quot}
use hikari.Prelude.Number.{fixed_point}
use hikari.Prelude.Except.{ok}
use hikari.Prelude.Dict.{lookup}
use hikari.Engine.Types.{
  ActionProposal, PolicyEvaluation, ProtocolState, RiskMetrics, KeeperConfig, KeeperCycleResult,
}
use hikari.Engine.Policy.{new_policy_verifier, evaluate_proposal}
use hikari.Engine.Audit.{new_audit_logger}
use hikari.Engine.Risk.{default_risk_thresholds, new_risk_engine, evaluate_risk}
use hikari.Engine.Drift.{min_required_reserve, drift_of, rebalance_of, evaluate_rebalance}
use hikari.Engine.Keeper.{compute_oracle_telemetry, Host, KeeperBot, run_keeper_cycle}
use hikari.Engine.Drift.Reserve.{evaluate_rebalance-refused}
use hikari.Engine.Keeper.Cycle.{Executed, run_keeper_cycle-Executed}
use hikari.Engine.Tests.{bracket, show, keeper_rules, vault_state}

abbrev host : Host
host = record {
  hash = bracket;
  stringify = λ x. x.proposal_id;
  stringify_telemetry = λ x. "telemetry";
  show = show;
  percent = show;
}

abbrev config : KeeperConfig ℤ
config = record {
  vault_address = "vault";
  oracle_address = "oracle";
  keeper_account = "keeper";
  min_reserve_ratio_percentage = pos 15;
  rebalance_threshold_bps = pos 500;
  mev_min_spread_bps = pos 150000;
  target_allocations = ("Blend", pos 9000) ∷ [];
}

-- 2001 stroops, of which 400 are idle: 15 percent are 300.15.
abbrev odd_state : ProtocolState
odd_state = record vault_state { total_assets_stroops = pos 2001; idle_assets_stroops = pos 400 }

abbrev proposed : ProtocolState → ActionProposal
proposed state = rebalance_of show 50 config state (drift_of config state) 1

proposed_half :
    (evaluate_rebalance show 50 config vault_state 0).1.proposal ≡ some (proposed vault_state)
unfolding evaluate_rebalance lookup ◌+ℤ◌ ◌-ℤ◌ ◌*ℤ◌ div_by quot
proposed_half = refl

proposed_all :
    (evaluate_rebalance show 50 config odd_state 0).1.proposal ≡ some (proposed odd_state)
unfolding evaluate_rebalance lookup ◌+ℤ◌ ◌-ℤ◌ ◌*ℤ◌ div_by quot
proposed_all = refl

all_above_reserve :
    (proposed odd_state).amount_stroops +ℤ min_required_reserve config odd_state ≡ pos 400
unfolding evaluate_rebalance lookup ◌+ℤ◌ ◌-ℤ◌ ◌*ℤ◌ div_by quot
all_above_reserve = refl

rules_minimum : (new_policy_verifier 0 keeper_rules).rules.min_idle_reserve_percentage ≡ pos 15
unfolding new_policy_verifier
rules_minimum = refl

evaluate_rebalance-refused_example :
    (evaluate_proposal show 50
      (proposed odd_state)
      odd_state
      (new_policy_verifier 0 keeper_rules)).1.approved
    ≡ false
evaluate_rebalance-refused_example =
    evaluate_rebalance-refused show 50 config odd_state 0 2001 15 (proposed odd_state)
      (new_policy_verifier 0 keeper_rules) proposed_all all_above_reserve refl refl rules_minimum
      (omega arith)

abbrev bot : KeeperBot ℤ
bot = record {
  cycle_count = 0;
  config = config;
  policy_verifier = new_policy_verifier 0 keeper_rules;
  risk_engine = new_risk_engine default_risk_thresholds;
  audit_logger = new_audit_logger;
}

abbrev metrics : Bool → RiskMetrics
metrics depeg = record {
  current_drawdown_bps = pos 0;
  portfolio_volatility = pos 20;
  collateral_health_bps = pos 13000;
  oracle_freshness_seconds = pos 10;
  is_depeg_detected = depeg;
}

abbrev keep : ℤ → ℤ
keep x = x

depeg_halts :
    (let risk = (evaluate_risk show show vault_state (metrics true) bot.risk_engine).1 in
      risk.triggers_bunker_mode || risk.triggers_gate_seal)
    ≡ true
unfolding evaluate_risk ◌-ℤ◌ ◌*ℤ◌ div_by
depeg_halts = refl

abbrev second : ActionProposal
second = rebalance_of show 50 config vault_state (drift_of config vault_state) 2

abbrev evaluated : PolicyEvaluation
evaluated = (evaluate_proposal show 50 second vault_state (new_policy_verifier 0 keeper_rules)).1

abbrev result : KeeperCycleResult ℤ
result = record {
  cycle_id = 1;
  timestamp = 50;
  rebalanced = true;
  rebalance_proposal = some second;
  evaluation = some evaluated;
  arbitrage_executed = false;
  arbitrage_opportunity = none;
  arbitrage_profit_stroops = none;
  oracle_payload = compute_oracle_telemetry host vault_state (pos 1240) false;
  bunker_active = false;
  risk_evaluation = (evaluate_risk show show vault_state (metrics false) bot.risk_engine).1;
}

cycle_gives :
    (run_keeper_cycle fixed_point keep host 50 vault_state (metrics false) [] (pos 1240) bot).1
    ≡ ok result
unfolding run_keeper_cycle evaluate_proposal evaluate_risk new_policy_verifier lookup ◌+ℤ◌ ◌-ℤ◌ ◌*ℤ◌
    div_by quot
cycle_gives = refl

run_keeper_cycle-Executed_example :
    (let cycle =
        run_keeper_cycle fixed_point keep host 50 vault_state (metrics false) [] (pos 1240) bot in
      (p : ActionProposal) × (e : PolicyEvaluation) × (some second ≡ some p)
      × (some evaluated ≡ some e)
      × (false ≡ false)
      × Executed host 50 vault_state config bot.policy_verifier bot.audit_logger
          cycle.0.audit_logger p e)
run_keeper_cycle-Executed_example =
    run_keeper_cycle-Executed fixed_point keep host 50 vault_state (metrics false) [] (pos 1240) bot
      result cycle_gives refl
