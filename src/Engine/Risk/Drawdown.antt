-- ===== src/Engine/Risk/Drawdown.antt =====
-- engine/src/risk_engine.ts: the peak is the highest value seen, and the drawdown is its loss in basis points.
use native.Mathlib.Nat.{div-le_of_le-mul}
use hikari.Prelude.{
  ℕ, ◌+◌, ◌-◌, ◌*◌, ◌/◌, ◌≤◌, ◌<◌, ◌≡◌, refl, inl, inr, Bool-cases, List, [], ◌∷◌, ap, ◌∙◌, ltb,
  if◌then◌else◌, ltb→lt, arith,
}
use hikari.Prelude.Int.{ℤ, pos, pos_part, ◌≤ℤ◌, nonneg→pos, pos--ℤ, pos-*ℤ, div_by-pos}
use hikari.Engine.Risk.{
  RiskEngine, RiskThresholds, new_risk_engine, max, update_peak_value, calculate_drawdown_bps,
}

-- the engine after updates by these totals, and the highest of them, 0 included
abbrev pub update_all : List ℤ → RiskEngine → RiskEngine
update_all [] e = e
update_all (total ∷ totals) e = update_all totals (update_peak_value total e)

abbrev pub highest : ℤ → List ℤ → ℤ
highest top [] = top
highest top (total ∷ totals) = highest (max top total) totals

drawdown_pos :
    (peak current : ℕ)
    → current < peak
    → (let bps = (peak - current) * 10000 / peak in
        (bps * peak ≤ (peak - current) * 10000)
        × ((peak - current) * 10000 ≤ bps * peak + (peak - 1))
        × (bps ≤ 10000))
drawdown_pos peak current h = (grind arith, grind arith, div-le_of_le-mul peak (omega arith))

update_all_peak :
    (totals : List ℤ) (e : RiskEngine)
    → (update_all totals e).peak_value_stroops ≡ highest e.peak_value_stroops totals
unfolding update_peak_value
update_all_peak [] e = refl
update_all_peak (total ∷ totals) e =
    update_all_peak totals (update_peak_value total e)
    ∙ ap (λ top. highest top totals) (ground arith)

highest-nonneg : (top : ℤ) (totals : List ℤ) → pos 0 ≤ℤ top → pos 0 ≤ℤ highest top totals
highest-nonneg top [] h = h
highest-nonneg top (total ∷ totals) h = highest-nonneg (max top total) totals (ground arith)

drawdown_of :
    (e : RiskEngine) (peak current : ℕ)
    → e.peak_value_stroops ≡ pos peak
    → (b : ℕ) × (calculate_drawdown_bps (pos current) e ≡ pos b)
      × (b ≡ (if ltb current peak then (peak - current) * 10000 / peak else 0))
      × (b ≤ 10000)
      × (b * peak ≤ (peak - current) * 10000)
      × ((peak - current) * 10000 ≤ b * peak + (peak - 1))
unfolding calculate_drawdown_bps
drawdown_of e peak current same = elim (Bool-cases (ltb current peak)) [
  | inl below ↦
      let h = ltb→lt current peak below in
      let facts = drawdown_pos peak current h in
      (
        (peak - current) * 10000 / peak,
        rw
            (
              same,
              pos--ℤ peak current (omega (arith, h)),
              pos-*ℤ (peak - current) 10000,
              div_by-pos ((peak - current) * 10000) peak,
            )
            (ground arith),
        rw below refl,
        facts.2,
        facts.0,
        facts.1,
      )
  | inr reached ↦
      (0, rw same (ground arith), rw reached refl, omega arith, omega arith, ground arith)
]

-- After any totals, the drawdown of a current total that is not negative is a number b of basis points, from 0
-- to 10000. Where the current total is below the highest one, 0 included, b is the loss from the highest,
-- in parts of 10000 of it, rounded down. Otherwise b is 0.
pub calculate_drawdown_bps-update_all :
    (t : RiskThresholds) (totals : List ℤ) (current : ℕ)
    → (let e = update_all totals (new_risk_engine t) in
        let top = pos_part (highest (pos 0) totals) in
        (b : ℕ) × (calculate_drawdown_bps (pos current) e ≡ pos b)
        × (b ≡ (if ltb current top then (top - current) * 10000 / top else 0))
        × (b ≤ 10000)
        × (b * top ≤ (top - current) * 10000)
        × ((top - current) * 10000 ≤ b * top + (top - 1)))
calculate_drawdown_bps-update_all t totals current =
    let (n, nonneg) =
      nonneg→pos (highest (pos 0) totals) (highest-nonneg (pos 0) totals (omega arith)) in
    rw nonneg (
      drawdown_of (update_all totals (new_risk_engine t)) n current
        (update_all_peak totals (new_risk_engine t) ∙ nonneg))
