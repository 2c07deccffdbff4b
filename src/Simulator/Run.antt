-- ===== src/Simulator/Run.antt =====
-- scripts/simulate_stress_test.js, `runStressTest`: the four market regimes over 365 epochs.
pub mod Balance
use hikari.Prelude.{ℕ, zero, suc, ◌+◌, ◌%◌, Bool, Option, none, some, ◌==◌, if◌then◌else◌}
use hikari.Prelude.Int.{pos}
use hikari.Prelude.Number.{Number}
use hikari.Simulator.{
  ProtocolSimulator, ◌>>=◌, constructor_state, get_nav, deposit, redeem, rebalance_allocations,
  apply_yield_and_mev, simulate_market_shock, verify_invariants,
}

-- A call whose result is dropped, made if the test holds.
unfoldable pub when_due {ℓ} : {S R : Type ℓ} → Bool → (S → Option (S × R)) → S → Option S
when_due b call s = if b then (do (s', _) ← call s; some s') else some s

-- `for (let epoch = first; …; epoch++)`, by the rounds left.
unfoldable pub for_epochs {ℓ} : {S : Type ℓ} → (ℕ → S → Option S) → ℕ → ℕ → S → Option S
for_epochs body epoch zero s = some s
for_epochs body epoch (suc rounds) s = body epoch s >>= λ s'. for_epochs body (epoch + 1) rounds s'

module _ (n : Number) where
  open n use {Num}

  abbrev at_epoch : ℕ → ProtocolSimulator Num → ProtocolSimulator Num
  at_epoch epoch s =
      let stats' = s.stats in record s { stats = record stats' { epochs_run = epoch } }

  unfoldable pub steady_yield : ℕ → ProtocolSimulator Num → Option (ProtocolSimulator Num)
  steady_yield epoch s = do
    funded ← when_due (epoch % 5 == 0) (λ t. deposit n t (pos 50_000_000_000)) (at_epoch epoch s)
    paid ← when_due (epoch % 12 == 0) (λ t. redeem n t (pos 20_000_000_000)) funded
    accrued ← apply_yield_and_mev n paid (pos 2) (pos 500_000_000)
    verify_invariants n (rebalance_allocations n accrued) epoch

  unfoldable pub volatility : ℕ → ProtocolSimulator Num → Option (ProtocolSimulator Num)
  volatility epoch s = do
    funded ← when_due (epoch % 3 == 0) (λ t. deposit n t (pos 100_000_000_000)) (at_epoch epoch s)
    accrued ← apply_yield_and_mev n funded (pos 3) (pos 3_500_000_000)
    verify_invariants n (rebalance_allocations n accrued) epoch

  unfoldable pub crisis : ℕ → ProtocolSimulator Num → Option (ProtocolSimulator Num)
  crisis epoch s = do
    paid ← when_due (epoch % 2 == 0) (λ t. redeem n t (pos 50_000_000_000)) (at_epoch epoch s)
    accrued ← apply_yield_and_mev n paid (pos 1) (pos 0)
    verify_invariants n accrued epoch

  unfoldable pub recovery : ℕ → ProtocolSimulator Num → Option (ProtocolSimulator Num)
  recovery epoch s = do
    accrued ←
        apply_yield_and_mev n (rebalance_allocations n (at_epoch epoch s)) (pos 2) (pos 800_000_000)
    funded ← when_due (epoch % 10 == 0) (λ t. deposit n t (pos 80_000_000_000)) accrued
    verify_invariants n funded epoch

  -- The four regimes in turn, from a given state, by the numbers of rounds of their loops; the shock
  -- comes before epoch 201.
  unfoldable pub run_rounds : ℕ → ℕ → ℕ → ℕ → ProtocolSimulator Num → Option (ProtocolSimulator Num)
  run_rounds i j k l s = do
    steady ← for_epochs steady_yield 1 i s
    volatile ← for_epochs volatility 101 j steady
    shocked ← simulate_market_shock n volatile (pos 22)
    settled ← for_epochs crisis 201 k shocked
    for_epochs recovery 251 l settled

  -- the loops of the script
  abbrev pub run_regimes : ProtocolSimulator Num → Option (ProtocolSimulator Num)
  run_regimes = run_rounds 100 100 50 115

  -- The exit status of the script; a raised error is logged, and the process then ends with 0.
  unfoldable pub run_stress_test : ℕ
  run_stress_test = elim (do s ← run_regimes (constructor_state n); _ ← get_nav n s; some s) [
    | none ↦ 0
    | some s ↦ if s.invariant_violations == 0 then 0 else 1
  ]
