-- ===== src/Simulator/Reserve.antt =====
-- The idle reserve of the simulator under `rebalanceAllocations`.
use hikari.Prelude.{ℕ, ◌+◌, ◌*◌, ◌/◌, ◌≡◌, true, false, arith}
use hikari.Prelude.Int.{pos, ◌*ℤ◌, ◌≤ℤ◌, div_by, pos-*ℤ, div_by-pos, int_laws}
use hikari.Prelude.Number.{Number}
use hikari.Simulator.{ProtocolSimulator, rebalance_allocations}
use hikari.Simulator.Accounting.{IsBalanced}

percent_of : (a k : ℕ) → div_by (pos a *ℤ pos k) 100 ≡ pos (a * k / 100)
percent_of a k = simp (pos-*ℤ, div_by-pos)

-- Of books that balance with no negative amount, a rebalance in a state that is not sealed leaves
-- the total and its balance alone, and an idle reserve between 15% and 20% of the total.
pub rebalance_reserve :
    (n : Number) (s : ProtocolSimulator (Number.Num n)) (a i l : ℕ)
    → s.is_gate_sealed ≡ false
    → s.total_assets ≡ pos a
    → s.idle_assets ≡ pos i
    → s.allocated_assets ≡ pos l
    → a ≡ i + l
    → let s' = rebalance_allocations n s in
      (s'.total_assets ≡ pos a)
      × IsBalanced s'
      × (pos (a * 15 / 100) ≤ℤ s'.idle_assets)
      × (s'.idle_assets ≤ℤ pos (a * 20 / 100))
unfolding rebalance_allocations
rebalance_reserve n s a i l sealed total idle allocated split =
    grind (int_laws, percent_of a 20, percent_of a 15)

-- While the gate is sealed a rebalance changes nothing.
pub rebalance_sealed :
    (n : Number) (s : ProtocolSimulator (Number.Num n))
    → s.is_gate_sealed ≡ true
    → rebalance_allocations n s ≡ s
unfolding rebalance_allocations
rebalance_sealed n s sealed = ground arith
