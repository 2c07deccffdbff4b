-- ===== src/Simulator/Run/Balance.antt =====
-- The books through a whole run of the stress test.
use hikari.Prelude.{
  ℕ, zero, suc, ◌+◌, ◌≡◌, refl, Bool, true, false, Option, none, some, Option-cases, inl, inr,
}
use hikari.Prelude.Int.{ℤ, int_laws}
use hikari.Prelude.Number.{Number}
use hikari.Simulator.{
  ProtocolSimulator, ◌>>=◌, deposit, redeem, rebalance_allocations, simulate_market_shock,
  violates_balance, apply_yield_and_mev, verify_invariants,
}
use hikari.Simulator.Run.{
  when_due, for_epochs, at_epoch, steady_yield, volatility, crisis, recovery, run_rounds,
}
use hikari.Simulator.Accounting.{
  IsBalanced, deposit-IsBalanced, redeem-IsBalanced, rebalance_allocations-IsBalanced,
  apply_yield_and_mev-IsBalanced, simulate_market_shock-IsBalanced, verify_invariants-IsBalanced,
}

-- A predicate of every state that is reached; nothing is asked where an error was raised.
data Holds {S : Type 0} (P : S → Type 0) : Option S → Type 0 where
  raised : Holds P none
  reached : {s : S} → P s → Holds P (some s)

reached_state : {S : Type 0} {P : S → Type 0} (s : S) → Holds P (some s) → P s
reached_state s (reached p) = p

>>=-Holds :
    {S : Type 0} (P : S → Type 0) (m : Option S) (f : S → Option S)
    → Holds P m
    → ((s : S) → P s → Holds P (f s))
    → Holds P (m >>= f)
>>=-Holds P none f h k = raised
>>=-Holds P (some s) f (reached h) k = k s h

for_epochs-Holds :
    {S : Type 0} (P : S → Type 0) (body : ℕ → S → Option S)
    → ((epoch : ℕ) (s : S) → P s → Holds P (body epoch s))
    → (rounds epoch : ℕ) (s : S) → P s
    → Holds P (for_epochs body epoch rounds s)
unfolding for_epochs
for_epochs-Holds P body keep zero epoch s h = reached h
for_epochs-Holds P body keep (suc rounds) epoch s h =
    >>=-Holds P (body epoch s) _ (keep epoch s h)
      λ s' h'. for_epochs-Holds P body keep rounds (epoch + 1) s' h'

of_equation :
    {S : Type 0} (P : S → Type 0) (m : Option S) → ((s : S) → m ≡ some s → P s) → Holds P m
of_equation P none f = raised
of_equation P (some s) f = reached (f s refl)

module _ (n : Number) where
  open n use {Num}

  abbrev Balanced : Option (ProtocolSimulator Num) → Type 0
  Balanced = Holds IsBalanced

  deposit_due :
      (b : Bool) (a : ℤ) (s : ProtocolSimulator Num)
      → IsBalanced s
      → Balanced (when_due b (λ t. deposit n t a) s)
  unfolding when_due
  deposit_due true a s h = elim (Option-cases (deposit n s a)) [
    | inl failed ↦ rw (failed, ◌>>=◌) raised
    | inr ((s', m), e) ↦ rw (e, ◌>>=◌) (reached (deposit-IsBalanced n s a h e))
  ]
  deposit_due false a s h = reached h

  redeem_due :
      (b : Bool) (a : ℤ) (s : ProtocolSimulator Num)
      → IsBalanced s
      → Balanced (when_due b (λ t. redeem n t a) s)
  unfolding when_due
  redeem_due true a s h = elim (Option-cases (redeem n s a)) [
    | inl failed ↦ rw (failed, ◌>>=◌) raised
    | inr ((s', m), e) ↦ rw (e, ◌>>=◌) (reached (redeem-IsBalanced n s a e))
  ]
  redeem_due false a s h = reached h

  accrual :
      (s : ProtocolSimulator Num) (y m : ℤ) → IsBalanced s → Balanced (apply_yield_and_mev n s y m)
  accrual s y m h = of_equation IsBalanced _ λ s' e. apply_yield_and_mev-IsBalanced n s y m h e

  verification :
      (s : ProtocolSimulator Num) (epoch : ℕ)
      → IsBalanced s
      → Balanced (verify_invariants n s epoch)
  verification s epoch h =
      of_equation IsBalanced _ λ s' e. verify_invariants-IsBalanced n s epoch h e

  shock : (s : ProtocolSimulator Num) (drop : ℤ) → Balanced (simulate_market_shock n s drop)
  shock s drop = of_equation IsBalanced _ λ s' e. simulate_market_shock-IsBalanced n s drop e

  verified_rebalance :
      (epoch : ℕ) (s : ProtocolSimulator Num)
      → IsBalanced s
      → Balanced (verify_invariants n (rebalance_allocations n s) epoch)
  verified_rebalance epoch s h = verification _ epoch (rebalance_allocations-IsBalanced n s h)

  steady_yield-Balanced :
      (epoch : ℕ) (s : ProtocolSimulator Num) → IsBalanced s → Balanced (steady_yield n epoch s)
  unfolding steady_yield
  steady_yield-Balanced epoch s h =
      >>=-Holds IsBalanced _ _ (deposit_due _ _ (at_epoch n epoch s) h) λ funded h_one.
        >>=-Holds IsBalanced _ _ (redeem_due _ _ funded h_one)
          λ paid h_two. >>=-Holds IsBalanced _ _ (accrual paid _ _ h_two) (verified_rebalance epoch)

  volatility-Balanced :
      (epoch : ℕ) (s : ProtocolSimulator Num) → IsBalanced s → Balanced (volatility n epoch s)
  unfolding volatility
  volatility-Balanced epoch s h =
      >>=-Holds IsBalanced _ _ (deposit_due _ _ (at_epoch n epoch s) h) λ funded h_one.
        >>=-Holds IsBalanced _ _ (accrual funded _ _ h_one) (verified_rebalance epoch)

  crisis-Balanced :
      (epoch : ℕ) (s : ProtocolSimulator Num) → IsBalanced s → Balanced (crisis n epoch s)
  unfolding crisis
  crisis-Balanced epoch s h =
      >>=-Holds IsBalanced _ _ (redeem_due _ _ (at_epoch n epoch s) h) λ paid h_one.
        >>=-Holds IsBalanced _ _ (accrual paid _ _ h_one) λ accrued. verification accrued epoch

  recovery-Balanced :
      (epoch : ℕ) (s : ProtocolSimulator Num) → IsBalanced s → Balanced (recovery n epoch s)
  unfolding recovery
  recovery-Balanced epoch s h =
      >>=-Holds IsBalanced _ _
        (accrual _ _ _ (rebalance_allocations-IsBalanced n (at_epoch n epoch s) h))
        λ accrued h_one.
          >>=-Holds IsBalanced _ _ (deposit_due _ _ accrued h_one)
            λ funded. verification funded epoch

  run-Balanced :
      (i j k l : ℕ) (s : ProtocolSimulator Num) → IsBalanced s → Balanced (run_rounds n i j k l s)
  unfolding run_rounds
  run-Balanced i j k l s h =
      >>=-Holds IsBalanced _ _ (for_epochs-Holds IsBalanced _ steady_yield-Balanced _ _ s h)
        λ steady h_one.
          >>=-Holds IsBalanced _ _
            (for_epochs-Holds IsBalanced _ volatility-Balanced _ _ steady h_one)
            λ volatile h_two. >>=-Holds IsBalanced _ _ (shock volatile _) λ shocked h_three.
              >>=-Holds IsBalanced _ _
                (for_epochs-Holds IsBalanced _ crisis-Balanced _ _ shocked h_three)
                λ settled h_four. for_epochs-Holds IsBalanced _ recovery-Balanced _ _ settled h_four

  -- A run of the four regimes, with any numbers of epochs (the script's are 100, 100, 50 and 115),
  -- that starts with balanced books and raises no error ends with balanced books, and the balance
  -- check of `verifyInvariants` passes there.
  pub run_rounds-IsBalanced :
      (i j k l : ℕ) (s : ProtocolSimulator Num) {s' : ProtocolSimulator Num}
      → IsBalanced s
      → run_rounds n i j k l s ≡ some s'
      → IsBalanced s' × (violates_balance n s' ≡ false)
  unfolding violates_balance
  run_rounds-IsBalanced i j k l s {s'} h e =
      let balanced : IsBalanced s' = reached_state s' (rw e at (run-Balanced i j k l s h)) in
      (balanced, grind (int_laws, balanced))
