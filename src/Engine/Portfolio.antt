-- ===== src/Engine/Portfolio.antt =====
-- engine/src/portfolio_risk.ts: the value at risk of the portfolio and the advice drawn from it. Numbers are those
-- of the parameter `n`; `sqrt`, `two_decimals` and `show` stand for `Math.sqrt`, `Number(x.toFixed(2))` and a
-- number in a template.
use hikari.Prelude.{ℕ, Bool, ◌&&◌, ◌||◌, if◌then◌else◌}
use hikari.Prelude.Int.{pos}
use hikari.Prelude.Number.{Number}
use hikari.Prelude.Text.{String, ◌⊕◌}

pub data DeRisking : Type 0 where
  nominal trim_amm full_defensive_lending : DeRisking

pub record PortfolioRiskAssessment (N : Type 0) : Type 0 where
  pub timestamp : ℕ
  pub parametric_var95_pct : N
  pub parametric_var99_pct : N
  pub correlation_phoenix_soroswap : N
  pub aggregate_volatility_annualized : N
  pub de_risking_recommendation : DeRisking
  pub rationale : String

-- the advice, where the Boolean tests are whether the risk is critical and whether it is elevated
abbrev recommend : Bool → Bool → DeRisking
recommend critical elevated =
    if critical then full_defensive_lending else if elevated then trim_amm else nominal

module _ (n : Number) (sqrt two_decimals : Number.Num n → Number.Num n)
    (show : Number.Num n → String) where
  open n use {Num, of_ℤ, add, mul, div, lt}

  abbrev thousandths : ℕ → Num
  thousandths k = div (of_ℤ (pos k)) (of_ℤ (pos 1000))

  -- the value at risk over one day, at this many standard deviations
  unfoldable pub value_at_risk : Num → Num → Num
  value_at_risk volatility z =
      let horizon = sqrt (div (of_ℤ (pos 1)) (of_ℤ (pos 365))) in
      two_decimals (mul (mul (mul volatility z) horizon) (of_ℤ (pos 100)))

  abbrev explain : DeRisking → Num → Num → Num → String
  explain nominal v95 v99 correlation =
      "Portfolio volatility within normal statistical tolerance boundaries."
  explain trim_amm v95 v99 correlation =
      "Elevated risk: 1-Day 95% VaR is "
      ⊕ show v95
      ⊕ "%. Trimming AMM LP allocations to expand liquid reserve buffer."
  explain full_defensive_lending v95 v99 correlation =
      "Critical risk detected: 1-Day 99% VaR is "
      ⊕ show v99
      ⊕ "% and DEX correlation is "
      ⊕ show correlation
      ⊕ ". Re-routing AMM capital into Blend over-collateralized lending."

  unfoldable pub evaluate_portfolio_risk : Num → Num → Num → ℕ → PortfolioRiskAssessment Num
  unfolding value_at_risk
  evaluate_portfolio_risk volatility amm_weight correlation now =
      let effective = mul volatility (add (thousandths 600) (mul (thousandths 400) amm_weight)) in
      let v95 = value_at_risk effective (thousandths 1645) in
      let v99 = value_at_risk effective (thousandths 2326) in
      let critical =
        lt (of_ℤ (pos 10)) v99
        || (lt (thousandths 850) correlation && lt (thousandths 350) amm_weight) in
      let elevated = lt (of_ℤ (pos 5)) v95 || lt (thousandths 400) amm_weight in
      let advice = recommend critical elevated in
      record {
        timestamp = now;
        parametric_var95_pct = v95;
        parametric_var99_pct = v99;
        correlation_phoenix_soroswap = correlation;
        aggregate_volatility_annualized = volatility;
        de_risking_recommendation = advice;
        rationale = explain advice v95 v99 correlation;
      }
