-- ===== src/Fuzz/Checks.antt =====
-- Which checks of the harness can fail.
use hikari.Prelude.{
  ℕ, ◌≤◌, ◌≡◌, refl, Bool, true, false, List, [], ◌∷◌, arith, Bool-cases, inl, inr, ◌⊎◌, ltb, leb,
  if◌then◌else◌,
}
use hikari.Prelude.Int.{ℤ}
use hikari.Prelude.Number.{Number}
use hikari.Fuzz.{
  Failure, zero_shares, nav_decreased, range_error, Outcome, done, failed, Draw, Vault,
  check_inflation, check_nav, check_mark, check_haircut, check_veto, charge_fee, iteration,
  run_fuzz_suite, calculate_haircut_bps, int, ratio, post_harvest, calculate_nav,
}

-- What the harness relies on of doubles: comparisons, and small integers.
pub record Laws (n : Number) : Type 0 where
  pub le_not_lt : (a b : n.Num) → n.le a b ≡ true → n.lt b a ≡ false
  pub lt_int : (j k : ℕ) → j ≤ 3499 → k ≤ 3499 → n.lt (int n j) (int n k) ≡ ltb j k
  pub le_int : (j k : ℕ) → j ≤ 3499 → k ≤ 3499 → n.le (int n j) (int n k) ≡ leb j k
  pub cap : (x : n.Num) → n.le (int n 2500) x ≡ true → n.min (int n 2500) x ≡ int n 2500
  -- d * 10000 / 1500 is at least 10000
  pub scaled :
      (d : ℕ)
      → 1500 ≤ d
      → d ≤ 3499
      → n.le (int n 2500) (n.floor (n.div (n.mul (int n d) (int n 10000)) (int n 1500))) ≡ true

Outcome-cases {ℓ} :
    {A : Type ℓ} (o : Outcome A) → ((a : A) × (o ≡ done a)) ⊎ ((e : Failure) × (o ≡ failed e))
Outcome-cases (done a) = inl (a, refl)
Outcome-cases (failed e) = inr (e, refl)

-- The failures that a run can end with.
abbrev pub CanEnd : Failure → Type 0
CanEnd e = (e ≡ zero_shares) ⊎ (e ≡ nav_decreased) ⊎ (e ≡ range_error)

module _ (n : Number) (laws : Laws n) where
  open n use {Num}

  haircut_flat :
      (d : ℕ)
      → d ≤ 3499
      → calculate_haircut_bps n (int n d) ≡ (if ltb d 1500 then int n 0 else int n 2500)
  unfolding calculate_haircut_bps
  haircut_flat d low = elim (Bool-cases (ltb d 1500)) [
    | inl small ↦ rw (laws.lt_int d 1500 low (omega arith), small) refl
    | inr large ↦
        rw (laws.lt_int d 1500 low (omega arith), large)
          (laws.cap _ (laws.scaled d (ground arith) low))
  ]

  check_veto-passes : (d : Draw) → check_veto n d ≡ done tt
  unfolding check_veto
  check_veto-passes d = ground arith

  check_mark-passes : (nav mark : Num) → check_mark n nav mark ≡ done tt
  unfolding check_mark
  check_mark-passes nav mark =
      let down = n.mul nav (ratio n 95 100) in
      let order = laws.le_not_lt down mark in
      elim (Bool-cases (n.le down mark)) [
        | inl below ↦ rw (below, order below) refl
        | inr above ↦ rw above refl
      ]

  check_haircut-passes :
      (d : Draw) → d.drawdown_bps ≤ 3499 → (b : Bool) × (check_haircut n d ≡ done b)
  unfolding check_haircut
  check_haircut-passes d low =
      let flat = haircut_flat d.drawdown_bps low in
      let reached = laws.le_int 1500 d.drawdown_bps (omega arith) low in
      let positive = laws.le_int 2500 0 (omega arith) (omega arith) in
      let bounded = laws.lt_int 2500 2500 (omega arith) (omega arith) in
      elim (Bool-cases (ltb d.drawdown_bps 1500)) [
        | inl small ↦
            let below : leb 1500 d.drawdown_bps ≡ false = ground arith in
            (false, rw (reached, below) refl)
        | inr large ↦
            let above : leb 1500 d.drawdown_bps ≡ true = ground arith in
            (true, rw (reached, above, flat, large, positive, bounded) refl)
      ]

  check_inflation-CanEnd :
      (s : Vault Num) (d : Draw) (e : Failure) → check_inflation n s d ≡ failed e → CanEnd e
  unfolding check_inflation
  check_inflation-CanEnd s d e h = ground (arith, h)

  check_nav-CanEnd :
      (s : Vault Num) (d : Draw) (e : Failure) → check_nav n s d ≡ failed e → CanEnd e
  unfolding check_nav
  check_nav-CanEnd s d e h = ground (arith, h)

  charge_fee-CanEnd :
      (assets : ℤ) (nav mark : Num) (e : Failure)
      → charge_fee n assets nav mark ≡ failed e
      → CanEnd e
  unfolding charge_fee
  charge_fee-CanEnd assets nav mark e h = ground (arith, h)

  iteration-CanEnd :
      (s : Vault Num) (d : Draw) (e : Failure)
      → d.drawdown_bps ≤ 3499
      → iteration n s d ≡ failed e
      → CanEnd e
  unfolding iteration
  iteration-CanEnd s d e low h =
      let assets = post_harvest n s d in
      let nav = calculate_nav n assets s.total_shares in
      let first = check_inflation-CanEnd s d e in
      let second = check_nav-CanEnd s d e in
      let third = charge_fee-CanEnd assets nav s.hwm_nav e in
      let (counts, fourth) = check_haircut-passes d low in
      let sixth = check_veto-passes d in
      elim (Outcome-cases (charge_fee n assets nav s.hwm_nav)) [
        | inl (fee, charged) ↦
            let passed = check_mark-passes nav fee.1 in
            ground (arith, first, second, charged, passed, fourth, sixth, h)
        | inr (x, stopped) ↦ ground (arith, first, second, third, stopped, h)
      ]

  -- `Math.floor(Math.random() * 3500)` is at most 3499.
  abbrev pub AllDrawn : List Draw → Type 0
  AllDrawn [] = Unit {0}
  AllDrawn (d ∷ ds) = (d.drawdown_bps ≤ 3499) × AllDrawn ds

  -- Where doubles compare as the laws say, a run of the harness on any draws, from any vault, can only
  -- end early with a depositor's zero shares, a price that a harvest lowered, or a RangeError: the checks
  -- of the high-water mark, of the haircut's bounds and of the veto never fail.
  pub run_fuzz_suite-CanEnd :
      (ds : List Draw) (s : Vault Num) (e : Failure)
      → AllDrawn ds
      → run_fuzz_suite n ds s ≡ failed e
      → CanEnd e
  unfolding run_fuzz_suite
  run_fuzz_suite-CanEnd [] s e drawn h = absurd (ground (arith, h))
  run_fuzz_suite-CanEnd (d ∷ ds) s e (low, drawn) h = elim (Outcome-cases (iteration n s d)) [
    | inl (s', went) ↦ run_fuzz_suite-CanEnd ds s' e drawn (rw (went, run_fuzz_suite) at h)
    | inr (x, stopped) ↦ iteration-CanEnd s d e low (ground (arith, stopped, h))
  ]
