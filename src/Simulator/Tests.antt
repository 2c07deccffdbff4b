-- ===== src/Simulator/Tests.antt =====
-- Runs of the simulator on the fixed-point instance.
mod FixedPoint
use hikari.Prelude.{
  ℕ, ◌+◌, ◌-◌, ◌*◌, ◌/◌, ◌≤◌, ◌<◌, ◌≡◌, ◌↔◌, ◌⊎◌, refl, Bool, true, false, Option, none, some,
  arith,
}
use hikari.Prelude.Int.{ℤ, pos, ◌+ℤ◌, ◌-ℤ◌, ◌*ℤ◌, ◌≤ℤ◌, quot, div_by}
use hikari.Prelude.Number.{fixed_point}
use hikari.Simulator.{
  apply_yield_and_mev, add_mev_boost, accrue_yield, assess_fee, raise_peak, ProtocolSimulator,
  constructor_state, get_nav, deposit, redeem, rebalance_allocations, after_haircut,
  apply_risk_rules, verify_invariants, violates_balance, violates_nav, violates_reserve,
  auto_unseal, simulate_market_shock, pay_out,
}
use hikari.Simulator.Run.{
  run_rounds, for_epochs, when_due, steady_yield, volatility, crisis, recovery,
}
use hikari.Simulator.Accounting.{IsBalanced}
use hikari.Simulator.Pricing.{minted, worth, deposit_keeps_price, redeem_keeps_price}
use hikari.Simulator.Reserve.{rebalance_reserve}
use hikari.Simulator.Crisis.{IsExact, apply_risk_rules_lem, after_haircut_lem, seal_until_expiry}
use hikari.Simulator.Run.Balance.{run_rounds-IsBalanced}
use FixedPoint.{fixed_point-IsExact}

abbrev start : ProtocolSimulator ℤ
start = constructor_state fixed_point

-- a bunker haircut of 16.5%
abbrev in_bunker : ProtocolSimulator ℤ
in_bunker = record start { is_bunker_mode = true; haircut_bps = pos 16_500_000 }

bunker_bps : fixed_point.to_ℤ in_bunker.haircut_bps ≡ some (pos 1650)
unfolding div_by
bunker_bps = refl

deposit_keeps_price_example :
    let m = 50_000_000_000 * 1_000_000_001_000 / 1_000_000_000_001 in
    (s' : ProtocolSimulator ℤ) × (deposit fixed_point start (pos 50_000_000_000) ≡ some (s', pos m))
    × (s'.total_assets ≡ pos 1_050_000_000_000)
    × (s'.idle_assets ≡ pos 250_000_000_000 +ℤ pos 50_000_000_000)
    × (s'.total_shares ≡ pos (1_000_000_000_000 + m))
    × (1_000_000_000_001 * (1_000_000_000_000 + m + 1000) ≤ 1_050_000_000_001 * 1_000_000_001_000)
unfolding constructor_state
deposit_keeps_price_example =
    deposit_keeps_price fixed_point start 1_000_000_000_000 1_000_000_000_000 refl refl
      50_000_000_000

abbrev shares_worth : ℕ
shares_worth = worth 1_000_000_000_000 1_000_000_000_000 20_000_000_000

abbrev paid_out : ℕ
paid_out = shares_worth - shares_worth * 1650 / 10000

redeem_keeps_price_example :
    (s' : ProtocolSimulator ℤ) × (redeem fixed_point in_bunker (pos 20_000_000_000)
      ≡ some (s', pos paid_out))
    × (paid_out ≤ 1_000_000_000_000)
    × (s'.total_assets ≡ pos (1_000_000_000_000 - paid_out))
    × (s'.total_shares ≡ pos (1_000_000_000_000 - 20_000_000_000))
    × (1_000_000_000_001 * (1_000_000_000_000 - 20_000_000_000 + 1000)
        ≤ (1_000_000_000_000 - paid_out + 1) * 1_000_000_001_000)
unfolding constructor_state ◌*ℤ◌
redeem_keeps_price_example =
    redeem_keeps_price fixed_point in_bunker 1_000_000_000_000 1_000_000_000_000 refl refl
      20_000_000_000 250_000_000_000 750_000_000_000 1650 (omega arith) refl refl refl bunker_bps
      (omega arith)

rebalance_reserve_example :
    let s' = rebalance_allocations fixed_point start in
    (s'.total_assets ≡ pos 1_000_000_000_000)
    × IsBalanced s'
    × (pos (1_000_000_000_000 * 15 / 100) ≤ℤ s'.idle_assets)
    × (s'.idle_assets ≤ℤ pos (1_000_000_000_000 * 20 / 100))
unfolding constructor_state
rebalance_reserve_example =
    rebalance_reserve fixed_point start 1_000_000_000_000 250_000_000_000 750_000_000_000 refl refl
      refl refl refl

-- a drawdown of 16.5%
abbrev after_shock : ProtocolSimulator ℤ
after_shock = apply_risk_rules fixed_point start (fixed_point.floor (pos 16_500_000))

abbrev Severe : ProtocolSimulator ℤ → Type 0
Severe s' =
    (fixed_point.le (fixed_point.of_ℤ (pos 1500)) (fixed_point.floor (pos 16_500_000)) ≡ true)
    × (s'.is_gate_sealed ≡ true)
    × (s'.seal_expiration_epoch ≡ start.stats.epochs_run + 50)
    × (s'.is_bunker_mode ≡ true)
    × ((k : ℕ) × (fixed_point.to_ℤ s'.haircut_bps ≡ some (pos k)) × (1500 ≤ k) × (k ≤ 2500))

abbrev Moderate : ProtocolSimulator ℤ → Type 0
Moderate s' =
    (fixed_point.le (fixed_point.of_ℤ (pos 1500)) (fixed_point.floor (pos 16_500_000)) ≡ false)
    × (fixed_point.le (fixed_point.of_ℤ (pos 1000)) (fixed_point.floor (pos 16_500_000)) ≡ true)
    × (s'.is_gate_sealed ≡ start.is_gate_sealed)
    × (s'.is_bunker_mode ≡ true)
    × ((k : ℕ) × (fixed_point.to_ℤ s'.haircut_bps ≡ some (pos k)) × (1000 ≤ k) × (k ≤ 1500))

abbrev Calm : ProtocolSimulator ℤ → Type 0
Calm s' =
    (fixed_point.le (fixed_point.of_ℤ (pos 1500)) (fixed_point.floor (pos 16_500_000)) ≡ false)
    × (fixed_point.le (fixed_point.of_ℤ (pos 1000)) (fixed_point.floor (pos 16_500_000)) ≡ false)
    × (s' ≡ start)

abbrev sealed : ProtocolSimulator ℤ
sealed = record start { is_gate_sealed = true; is_bunker_mode = true; seal_expiration_epoch = 250 }

verified : verify_invariants fixed_point sealed 249 ≡ some sealed
unfolding verify_invariants get_nav violates_nav violates_reserve violates_balance auto_unseal
    constructor_state quot div_by ◌+ℤ◌ ◌*ℤ◌ ◌-ℤ◌
verified = refl

abbrev or_start : Option (ProtocolSimulator ℤ) → ProtocolSimulator ℤ
or_start none = start
or_start (some s) = s

-- one epoch of each regime
abbrev short_run : Option (ProtocolSimulator ℤ)
short_run = run_rounds fixed_point 1 1 1 1 start

completed : short_run ≡ some (or_start short_run)
unfolding run_rounds for_epochs when_due steady_yield volatility crisis recovery apply_yield_and_mev
    get_nav quot ◌+ℤ◌ add_mev_boost accrue_yield constructor_state assess_fee ◌*ℤ◌ ◌-ℤ◌
    verify_invariants rebalance_allocations raise_peak auto_unseal deposit redeem after_haircut
    div_by apply_risk_rules pay_out simulate_market_shock violates_balance violates_nav
    violates_reserve
completed = refl

run_rounds-IsBalanced_example :
    IsBalanced (or_start short_run) × (violates_balance fixed_point (or_start short_run) ≡ false)
unfolding constructor_state ◌+ℤ◌
run_rounds-IsBalanced_example = run_rounds-IsBalanced fixed_point 1 1 1 1 start refl completed
