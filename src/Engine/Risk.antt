-- ===== src/Engine/Risk.antt =====
-- engine/src/risk_engine.ts: drawdown from the highest assets seen, and the circuit breakers. `percent` stands
-- for a number of basis points over 100 in a template, `show` for an integer in one.
pub mod Drawdown
pub mod Breakers
use hikari.Prelude.{ℕ, ◌+◌, ◌*◌, Bool, true, false, ◌&&◌, ◌||◌, List, [], ◌∷◌, ◌++◌, if◌then◌else◌}
use hikari.Prelude.Int.{ℤ, pos, pos_part, ltb_ℤ, leb_ℤ, ◌+ℤ◌, ◌-ℤ◌, ◌*ℤ◌, div_by}
use hikari.Prelude.Text.{String, ◌⊕◌}
use hikari.Engine.Types.{
  ProtocolState, RiskMetrics, RiskEvaluationResult, RecommendedAction, normal, reduce_risk,
  trigger_gate_seal, engage_bunker_mode,
}
use hikari.Engine.Policy.{no_violation}

pub record RiskThresholds : Type 0 where
  pub max_drawdown_bps : ℤ
  pub bunker_drawdown_bps : ℤ
  pub min_collateral_health_bps : ℤ
  pub max_volatility_index : ℤ
  pub max_oracle_lag_seconds : ℤ

abbrev pub default_risk_thresholds : RiskThresholds
default_risk_thresholds = record {
  max_drawdown_bps = pos 1500;
  bunker_drawdown_bps = pos 1000;
  min_collateral_health_bps = pos 11500;
  max_volatility_index = pos 80;
  max_oracle_lag_seconds = pos 300;
}

pub record RiskEngine : Type 0 where
  pub thresholds : RiskThresholds
  pub peak_value_stroops : ℤ

abbrev pub new_risk_engine : RiskThresholds → RiskEngine
new_risk_engine thresholds = record { thresholds = thresholds; peak_value_stroops = pos 0 }

abbrev pub max : ℤ → ℤ → ℤ
max a b = if ltb_ℤ a b then b else a

abbrev pub min : ℤ → ℤ → ℤ
min a b = if ltb_ℤ b a then b else a

unfoldable pub update_peak_value : ℤ → RiskEngine → RiskEngine
update_peak_value total_assets_stroops e =
    if ltb_ℤ e.peak_value_stroops total_assets_stroops
    then record e { peak_value_stroops = total_assets_stroops }
    else e

unfoldable pub calculate_drawdown_bps : ℤ → RiskEngine → ℤ
calculate_drawdown_bps current e =
    if leb_ℤ e.peak_value_stroops (pos 0) || leb_ℤ e.peak_value_stroops current
    then pos 0
    else div_by ((e.peak_value_stroops -ℤ current) *ℤ pos 10000) (pos_part e.peak_value_stroops)

-- the drawdown that the breakers go by
unfoldable pub effective_drawdown : ℤ → RiskMetrics → RiskEngine → ℤ
unfolding calculate_drawdown_bps
effective_drawdown current metrics e =
    max metrics.current_drawdown_bps (calculate_drawdown_bps current e)

-- the haircut of the drawdown alone
unfoldable pub drawdown_haircut : RiskThresholds → ℤ → ℤ
drawdown_haircut t drawdown =
    if leb_ℤ t.max_drawdown_bps drawdown
    then min (pos 2500) drawdown
    else if leb_ℤ t.bunker_drawdown_bps drawdown
    then min (pos 1500) drawdown
    else pos 0

module _ (percent : ℤ → String) (show : ℤ → String) where
  unfoldable pub risk_warnings : RiskThresholds → ℤ → RiskMetrics → List String
  risk_warnings t drawdown m =
      (if leb_ℤ t.max_drawdown_bps drawdown
        then ("Critical drawdown: "
            ⊕ percent drawdown
            ⊕ "% exceeds GateSeal threshold "
            ⊕ percent t.max_drawdown_bps
            ⊕ "%")
          ∷ []
        else if leb_ℤ t.bunker_drawdown_bps drawdown
        then ("Severe drawdown: " ⊕ percent drawdown ⊕ "% triggers Bunker Mode queue protection")
          ∷ []
        else [])
      ++ ((if ltb_ℤ m.collateral_health_bps t.min_collateral_health_bps
            then ("Collateral health ratio "
                ⊕ percent m.collateral_health_bps
                ⊕ "% is below safety limit "
                ⊕ percent t.min_collateral_health_bps
                ⊕ "%")
              ∷ (if ltb_ℤ m.collateral_health_bps (pos 10500)
                  then "Imminent liquidation risk detected; triggering GateSeal emergency halt" ∷ []
                  else [])
            else [])
          ++ ((if ltb_ℤ t.max_oracle_lag_seconds m.oracle_freshness_seconds
                then ("Oracle feed stale: lag of "
                    ⊕ show m.oracle_freshness_seconds
                    ⊕ "s exceeds limit "
                    ⊕ show t.max_oracle_lag_seconds
                    ⊕ "s")
                  ∷ []
                else [])
              ++ (if m.is_depeg_detected
                  then "Asset depeg detected in strategy pools; locking instant redemptions via Bunker Mode"
                    ∷ []
                  else [])))

  unfoldable pub evaluate_risk :
      ProtocolState → RiskMetrics → RiskEngine → RiskEngine × RiskEvaluationResult
  unfolding update_peak_value effective_drawdown drawdown_haircut risk_warnings
  evaluate_risk state m e =
      let e = update_peak_value state.total_assets_stroops e in
      let t = e.thresholds in
      let drawdown = effective_drawdown state.total_assets_stroops m e in
      let warnings = risk_warnings t drawdown m in
      let gate_seal =
        leb_ℤ t.max_drawdown_bps drawdown
        || (ltb_ℤ m.collateral_health_bps t.min_collateral_health_bps
            && ltb_ℤ m.collateral_health_bps (pos 10500)) in
      let bunker =
        leb_ℤ t.max_drawdown_bps drawdown
        || leb_ℤ t.bunker_drawdown_bps drawdown
        || m.is_depeg_detected in
      let haircut = drawdown_haircut t drawdown in
      (
        e,
        record {
          healthy = no_violation warnings;
          triggers_gate_seal = gate_seal;
          triggers_bunker_mode = bunker;
          suggested_haircut_bps = if m.is_depeg_detected then max haircut (pos 1000) else haircut;
          warnings = warnings;
          recommended_action =
              if gate_seal
              then trigger_gate_seal
              else if bunker
              then engage_bunker_mode
              else if ltb_ℤ t.max_volatility_index m.portfolio_volatility
                  || (if no_violation warnings then false else true)
              then reduce_risk
              else normal;
        },
      )
