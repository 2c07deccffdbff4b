-- ===== src/Simulator/Crisis.antt =====
-- The circuit breaker of the simulator: when a market shock seals the gate, the haircut that it
-- sets, and when the seal is lifted.
use hikari.Prelude.{
  ℕ, ◌+◌, ◌-◌, ◌*◌, ◌/◌, ◌≤◌, ◌<◌, ◌≡◌, ap, ◌&&◌, ◌↔◌, ◌⊎◌, inl, inr, refl, true, false, some,
  arith, Bool-cases,
}
use hikari.Prelude.Int.{pos, div_by-pos, pos--ℤ, pos-*ℤ}
use hikari.Prelude.Number.{Number}
use hikari.Simulator.{
  ProtocolSimulator, ◌>>=◌, after_haircut, apply_risk_rules, auto_unseal, verify_invariants,
}

-- What the thresholds rely on: integers below 2^53 are exact, `Math.floor` of what lies between two
-- of them is an integer, and a value that compares is not NaN.
pub record IsExact (n : Number) : Type 0 where
  pub to_ℤ-of_ℤ : (k : ℕ) → k ≤ 10000 → n.to_ℤ (n.of_ℤ (pos k)) ≡ some (pos k)
  pub floor_integral :
      (x : n.Num) (a b : ℕ)
      → n.le (n.of_ℤ (pos a)) (n.floor x) ≡ true
      → n.lt (n.floor x) (n.of_ℤ (pos b)) ≡ true
      → (k : ℕ) × (n.to_ℤ (n.floor x) ≡ some (pos k)) × (a ≤ k) × (k < b)
  pub le_or_lt :
      (x y : n.Num) (a : ℕ) → n.le (n.of_ℤ (pos a)) x ≡ true → (n.le y x ≡ true) ⊎ (n.lt x y ≡ true)
  pub min_left : (x y : n.Num) → n.le x y ≡ true → n.min x y ≡ x
  pub min_right : (x y : n.Num) → n.lt y x ≡ true → n.min x y ≡ y

module _ (n : Number) (exact : IsExact n) where
  open n use {Num, of_ℤ, to_ℤ, floor, lt, le, min}

  capped :
      (x : Num) (a b : ℕ)
      → b ≤ 10000
      → a ≤ b
      → le (of_ℤ (pos a)) (floor x) ≡ true
      → (k : ℕ) × (to_ℤ (min (of_ℤ (pos b)) (floor x)) ≡ some (pos k)) × (a ≤ k) × (k ≤ b)
  capped x a b small ab above = elim (exact.le_or_lt (floor x) (of_ℤ (pos b)) a above) [
    | inl over ↦ (b, rw (exact.min_left _ _ over) (exact.to_ℤ-of_ℤ b small), ab, omega arith)
    | inr under ↦
        let (k, value, low, high) = exact.floor_integral x a b above under in
        (k, rw (exact.min_right _ _ under) value, low, omega arith)
  ]

  -- From a drawdown of 15% the rules seal the gate for 50 epochs and set a bunker haircut of 15% to
  -- 25%; from 10% they set a bunker haircut of 10% to 15% and leave the seal as it is; below that,
  -- or where the drawdown is no number, they change nothing.
  pub apply_risk_rules_lem :
      (s : ProtocolSimulator Num) (x : Num)
      → let s' = apply_risk_rules n s (floor x) in
        ((le (of_ℤ (pos 1500)) (floor x) ≡ true)
          × (s'.is_gate_sealed ≡ true)
          × (s'.seal_expiration_epoch ≡ s.stats.epochs_run + 50)
          × (s'.is_bunker_mode ≡ true)
          × ((k : ℕ) × (to_ℤ s'.haircut_bps ≡ some (pos k)) × (1500 ≤ k) × (k ≤ 2500)))
        ⊎ ((le (of_ℤ (pos 1500)) (floor x) ≡ false)
            × (le (of_ℤ (pos 1000)) (floor x) ≡ true)
            × (s'.is_gate_sealed ≡ s.is_gate_sealed)
            × (s'.is_bunker_mode ≡ true)
            × ((k : ℕ) × (to_ℤ s'.haircut_bps ≡ some (pos k)) × (1000 ≤ k) × (k ≤ 1500)))
        ⊎ ((le (of_ℤ (pos 1500)) (floor x) ≡ false)
            × (le (of_ℤ (pos 1000)) (floor x) ≡ false)
            × (s' ≡ s))
  unfolding apply_risk_rules
  apply_risk_rules_lem s x = elim (Bool-cases (le (of_ℤ (pos 1500)) (floor x))) [
    | inl severe ↦
        rw severe
          (inl (refl, refl, refl, refl, capped x 1500 2500 (omega arith) (omega arith) severe))
    | inr mild ↦ elim (Bool-cases (le (of_ℤ (pos 1000)) (floor x))) [
      | inl moderate ↦
          rw (mild, moderate)
            (inr (
              inl
                (refl, refl, refl, refl, capped x 1000 1500 (omega arith) (omega arith) moderate)))
      | inr calm ↦ rw (mild, calm) (inr (inr (refl, refl, refl)))
    ]
  ]

pub cut-le : (v k : ℕ) → k ≤ 10000 → v * k / 10000 ≤ v
cut-le v k small = grind arith

cut-rest : (v k : ℕ) → k ≤ 10000 → v * (10000 - k) ≤ (v - v * k / 10000) * 10000
cut-rest v k small = grind arith

-- A payment is cut only in bunker mode, and then by the haircut's share, rounded down: the payment
-- that is left is no more than what the shares are worth.
pub after_haircut_lem :
    (n : Number) (s : ProtocolSimulator (Number.Num n)) (k v : ℕ)
    → n.to_ℤ s.haircut_bps ≡ some (pos k)
    → k ≤ 10000
    → (h : ℕ) × (after_haircut n s (pos v) ≡ some (pos h))
      × (h ≤ v)
      × (v * (10000 - k) ≤ h * 10000)
      × ((s.is_bunker_mode ≡ false) → h ≡ v)
unfolding after_haircut
after_haircut_lem n s k v bps small =
    elim (Bool-cases (s.is_bunker_mode && n.lt (n.of_ℤ (pos 0)) s.haircut_bps)) [
      | inl cut ↦ (
        v - v * k / 10000,
        rw (cut, bps, ◌>>=◌, pos-*ℤ, div_by-pos) (ap some (pos--ℤ v _ (cut-le v k small))),
        omega arith,
        cut-rest v k small,
        ground arith,
      )
      | inr whole ↦ (v, rw whole, omega arith, grind arith, λ _. refl)
    ]

-- A sealed gate stays sealed as long as the epoch is before the expiry that the shock set, and a
-- check at any later epoch unseals it and ends bunker mode.
pub seal_until_expiry :
    (n : Number) (s : ProtocolSimulator (Number.Num n)) (epoch : ℕ)
    {s' : ProtocolSimulator (Number.Num n)}
    → s.is_gate_sealed ≡ true
    → verify_invariants n s epoch ≡ some s'
    → ((s'.is_gate_sealed ≡ true) ↔ (epoch < s.seal_expiration_epoch))
      × ((s'.is_gate_sealed ≡ false) → s'.is_bunker_mode ≡ false)
unfolding verify_invariants auto_unseal
seal_until_expiry n s epoch sealed e = ground arith
