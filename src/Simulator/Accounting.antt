-- ===== src/Simulator/Accounting.antt =====
-- The books of the simulator: the assets are those at hand and those in the strategies.
use hikari.Prelude.{ℕ, ◌≡◌, some}
use hikari.Prelude.Int.{ℤ, ◌+ℤ◌, int_laws}
use hikari.Prelude.Number.{Number}
use hikari.Simulator.{
  ProtocolSimulator, deposit, redeem, rebalance_allocations, accrue_yield, add_mev_boost,
  assess_fee, raise_peak, apply_yield_and_mev, apply_risk_rules, simulate_market_shock, auto_unseal,
  verify_invariants,
}

abbrev pub IsBalanced : {Num : Type 0} → ProtocolSimulator Num → Type 0
IsBalanced s = s.total_assets ≡ s.idle_assets +ℤ s.allocated_assets

module _ (n : Number) where
  open n use {Num}

  pub deposit-IsBalanced :
      (s : ProtocolSimulator Num) (a : ℤ) {s' : ProtocolSimulator Num} {minted : ℤ}
      → IsBalanced s
      → deposit n s a ≡ some (s', minted)
      → IsBalanced s'
  unfolding deposit
  deposit-IsBalanced s a b e = grind int_laws

  pub redeem-IsBalanced :
      (s : ProtocolSimulator Num) (a : ℤ) {s' : ProtocolSimulator Num} {paid : ℤ}
      → redeem n s a ≡ some (s', paid)
      → IsBalanced s'
  unfolding redeem
  redeem-IsBalanced s a e = grind int_laws

  pub rebalance_allocations-IsBalanced :
      (s : ProtocolSimulator Num) → IsBalanced s → IsBalanced (rebalance_allocations n s)
  unfolding rebalance_allocations
  rebalance_allocations-IsBalanced s b = grind int_laws

  pub apply_yield_and_mev-IsBalanced :
      (s : ProtocolSimulator Num) (y m : ℤ) {s' : ProtocolSimulator Num}
      → IsBalanced s
      → apply_yield_and_mev n s y m ≡ some s'
      → IsBalanced s'
  unfolding apply_yield_and_mev accrue_yield add_mev_boost assess_fee raise_peak
  apply_yield_and_mev-IsBalanced s y m b e = grind int_laws

  pub simulate_market_shock-IsBalanced :
      (s : ProtocolSimulator Num) (drop : ℤ) {s' : ProtocolSimulator Num}
      → simulate_market_shock n s drop ≡ some s'
      → IsBalanced s'
  unfolding simulate_market_shock apply_risk_rules
  simulate_market_shock-IsBalanced s drop e = grind int_laws

  pub verify_invariants-IsBalanced :
      (s : ProtocolSimulator Num) (epoch : ℕ) {s' : ProtocolSimulator Num}
      → IsBalanced s
      → verify_invariants n s epoch ≡ some s'
      → IsBalanced s'
  unfolding verify_invariants auto_unseal
  verify_invariants-IsBalanced s epoch b e = grind int_laws
