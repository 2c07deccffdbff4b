-- ===== src/Simulator/Tests/FixedPoint.antt =====
-- The fixed-point numbers of the tests meet what the thresholds rely on.
use hikari.Prelude.{ℕ, ◌*◌, ◌/◌, ◌≤◌, ◌<◌, ◌≡◌, true, some, arith}
use hikari.Prelude.Int.{ℤ, pos, negsuc, pos_part, neg_part, div_by-pos, pos-*ℤ}
use hikari.Prelude.Number.{fixed_point}
use hikari.Simulator.Crisis.{IsExact}
open fixed_point use {of_ℤ, to_ℤ, floor, lt, le, min}

of_ℤ-pos : (k : ℕ) → of_ℤ (pos k) ≡ pos (k * 10000)
of_ℤ-pos k = pos-*ℤ k 10000

to_ℤ-pos : (k : ℕ) → to_ℤ (pos (k * 10000)) ≡ some (pos k)
to_ℤ-pos k = grind (arith, div_by-pos)

floor-pos : (m : ℕ) → floor (pos m) ≡ pos (m / 10000 * 10000)
floor-pos m = grind arith

floor_negative : (m : ℕ) → pos_part (floor (negsuc m)) < neg_part (floor (negsuc m))
floor_negative m = grind arith

floor_integral_lem :
    (x : ℤ) (a b : ℕ)
    → le (of_ℤ (pos a)) (floor x) ≡ true
    → lt (floor x) (of_ℤ (pos b)) ≡ true
    → (k : ℕ) × (to_ℤ (floor x) ≡ some (pos k)) × (a ≤ k) × (k < b)
floor_integral_lem (pos m) a b low high =
    let low' = rw (of_ℤ-pos a, floor-pos m) at low in
    let high' = rw (of_ℤ-pos b, floor-pos m) at high in
    (
      m / 10000,
      rw (floor-pos m) (to_ℤ-pos (m / 10000)),
      ground (arith, low'),
      ground (arith, high'),
    )
floor_integral_lem (negsuc m) a b low high =
    let low' = rw (of_ℤ-pos a) at low in absurd (ground (arith, low', floor_negative m))

pub fixed_point-IsExact : IsExact fixed_point
fixed_point-IsExact = record {
  to_ℤ-of_ℤ = λ k small. rw (of_ℤ-pos k) (to_ℤ-pos k);
  floor_integral = floor_integral_lem;
  le_or_lt = λ x y a h. grind arith;
  min_left = λ x y h. grind arith;
  min_right = λ x y h. grind arith;
}
