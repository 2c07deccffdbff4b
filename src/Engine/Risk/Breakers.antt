-- ===== src/Engine/Risk/Breakers.antt =====
-- engine/src/risk_engine.ts: which breakers a risk evaluation trips.
use hikari.Prelude.{
  ◌≡◌, ◌↔◌, ◌⊎◌, refl, inl, inr, Bool-cases, true, false, ◌||◌, if◌then◌else◌, arith,
}
use hikari.Prelude.Int.{ℤ, pos, ltb_ℤ, ◌≤ℤ◌}
use hikari.Prelude.Text.{String}
use hikari.Engine.Types.{
  ProtocolState, RiskMetrics, RiskEvaluationResult, normal, reduce_risk, trigger_gate_seal,
  engage_bunker_mode,
}
use hikari.Engine.Policy.{no_violation}
use hikari.Engine.Risk.{
  RiskEngine, RiskThresholds, update_peak_value, effective_drawdown, risk_warnings, evaluate_risk,
}

-- The drawdown is past its limit, or the collateral below its own limit and 105%.
abbrev pub IsCritical : RiskThresholds → ℤ → RiskMetrics → Type 0
IsCritical t drawdown m =
    (t.max_drawdown_bps ≤ℤ drawdown)
    ⊎ ((ltb_ℤ m.collateral_health_bps t.min_collateral_health_bps ≡ true)
        × (ltb_ℤ m.collateral_health_bps (pos 10500) ≡ true))

-- The drawdown is past one of its limits, or an asset has lost its peg.
abbrev pub IsSevere : RiskThresholds → ℤ → RiskMetrics → Type 0
IsSevere t drawdown m =
    (t.max_drawdown_bps ≤ℤ drawdown)
    ⊎ (t.bunker_drawdown_bps ≤ℤ drawdown)
    ⊎ (m.is_depeg_detected ≡ true)

-- No limit is passed, but that of the volatility perhaps.
pub record IsCalm (t : RiskThresholds) (drawdown : ℤ) (m : RiskMetrics) : Type 0 where
  pub below_max : ltb_ℤ drawdown t.max_drawdown_bps ≡ true
  pub below_bunker : ltb_ℤ drawdown t.bunker_drawdown_bps ≡ true
  pub collateral : t.min_collateral_health_bps ≤ℤ m.collateral_health_bps
  pub oracle : m.oracle_freshness_seconds ≤ℤ t.max_oracle_lag_seconds
  pub pegged : m.is_depeg_detected ≡ false

module _ (percent : ℤ → String) (show : ℤ → String) where
  IsCalm-iff :
      (t : RiskThresholds) (d : ℤ) (m : RiskMetrics)
      → (no_violation (risk_warnings percent show t d m) ≡ true) ↔ IsCalm t d m
  unfolding risk_warnings
  IsCalm-iff t d m = (λ h. ground arith, λ h. ground arith)

  module _ (state : ProtocolState) (m : RiskMetrics) (e : RiskEngine) where
    abbrev result : RiskEvaluationResult
    result = (evaluate_risk percent show state m e).1

    -- the drawdown that the evaluation goes by, after the peak is updated
    abbrev pub drawdown : ℤ
    drawdown =
        effective_drawdown state.total_assets_stroops m
          (update_peak_value state.total_assets_stroops e)

    thresholds_kept : (update_peak_value state.total_assets_stroops e).thresholds ≡ e.thresholds
    unfolding update_peak_value
    thresholds_kept = ground arith

    seals_iff : (result.triggers_gate_seal ≡ true) ↔ IsCritical e.thresholds drawdown m
    unfolding evaluate_risk
    seals_iff = rw thresholds_kept (λ h. ground arith, λ h. ground arith)

    bunkers_iff : (result.triggers_bunker_mode ≡ true) ↔ IsSevere e.thresholds drawdown m
    unfolding evaluate_risk
    bunkers_iff = rw thresholds_kept (λ h. ground arith, λ h. ground arith)

    healthy_iff : (result.healthy ≡ true) ↔ IsCalm e.thresholds drawdown m
    unfolding evaluate_risk
    healthy_iff = rw thresholds_kept (IsCalm-iff e.thresholds drawdown m)

    action_of : result.recommended_action ≡ (
        if result.triggers_gate_seal
        then trigger_gate_seal
        else if result.triggers_bunker_mode
        then engage_bunker_mode
        else if ltb_ℤ e.thresholds.max_volatility_index m.portfolio_volatility
            || (if result.healthy then false else true)
        then reduce_risk
        else normal)
    unfolding evaluate_risk
    action_of = rw thresholds_kept refl

    calm_untripped :
        result.healthy ≡ true
        → (result.triggers_gate_seal ≡ false) × (result.triggers_bunker_mode ≡ false)
    calm_untripped h =
        let calm = healthy_iff.0 h in
        (
          elim (Bool-cases result.triggers_gate_seal) [
            | inl on ↦ let critical = seals_iff.0 on in absurd (ground (arith, critical, calm))
            | inr off ↦ off
          ],
          elim (Bool-cases result.triggers_bunker_mode) [
            | inl on ↦ let severe = bunkers_iff.0 on in absurd (ground (arith, severe, calm))
            | inr off ↦ off
          ],
        )

    -- evaluateRisk, after it has updated the peak: the gate seal trips exactly in a critical state (drawdown at its
    -- limit, or collateral below its limit and 105%), the bunker mode exactly in a severe one (drawdown at one of
    -- its limits, or a depeg), and the result is healthy exactly when no limit but that of the volatility is passed.
    -- TRIGGER_GATE_SEAL is recommended exactly when the seal trips, ENGAGE_BUNKER_MODE exactly when only the
    -- bunker does, NORMAL exactly when the result is healthy and the volatility within its limit.
    pub evaluate_risk_lem :
        ((result.triggers_gate_seal ≡ true) ↔ IsCritical e.thresholds drawdown m)
        × ((result.triggers_bunker_mode ≡ true) ↔ IsSevere e.thresholds drawdown m)
        × ((result.healthy ≡ true) ↔ IsCalm e.thresholds drawdown m)
        × ((result.recommended_action ≡ trigger_gate_seal) ↔ (result.triggers_gate_seal ≡ true))
        × ((result.recommended_action ≡ engage_bunker_mode)
            ↔ ((result.triggers_gate_seal ≡ false) × (result.triggers_bunker_mode ≡ true)))
        × ((result.recommended_action ≡ normal) ↔ (
            (result.healthy ≡ true)
            × (m.portfolio_volatility ≤ℤ e.thresholds.max_volatility_index)))
    evaluate_risk_lem = (
      seals_iff,
      bunkers_iff,
      healthy_iff,
      (λ h. ground (arith, action_of), λ h. ground (arith, action_of)),
      (λ h. ground (arith, action_of), λ h. ground (arith, action_of)),
      (λ h. ground (arith, action_of), λ h. ground (arith, action_of, calm_untripped h.0)),
    )
