-- ===== src/Fuzz/Tests.antt =====
-- Concrete runs of the fuzzing harness.
use hikari.Prelude.{ℕ, ◌+◌, ◌*◌, ◌/◌, ◌≤◌, ◌≡◌, refl, true, [], ◌∷◌, arith}
use hikari.Prelude.Int.{ℤ, pos, ◌*ℤ◌, ◌+ℤ◌, pos-*ℤ, div_by, div_by-pos, quot, ◌-ℤ◌}
use hikari.Prelude.Number.{fixed_point}
use hikari.Fuzz.{
  failed, zero_shares, Draw, Vault, int, run_fuzz_suite, iteration, check_inflation,
  calculate_shares_to_mint,
}
use hikari.Fuzz.{
  done, charge_fee, post_harvest, calculate_nav, check_nav, check_mark, check_haircut, allocate,
  check_veto, calculate_haircut_bps,
}
use hikari.Fuzz.Minting.{IsDue, deposited, minted_after, iteration_keeps_price}
use hikari.Fuzz.Checks.{Laws, CanEnd, run_fuzz_suite-CanEnd}

scaled_fixed :
    (d : ℕ)
    → 1500 ≤ d
    → fixed_point.le (int fixed_point 2500) (
        fixed_point.floor (
          fixed_point.div
            (fixed_point.mul (int fixed_point d) (int fixed_point 10000))
            (int fixed_point 1500)))
      ≡ true
unfolding quot
scaled_fixed d large =
    let big : 25000000 ≤ d * 10000 * 100000000 / 10000 * 10000 / 15000000 / 10000 * 10000 =
      omega arith in
    simp (pos-*ℤ, div_by-pos) (ground (arith, big))

fixed_point-Laws : Laws fixed_point
unfolding ◌*ℤ◌ div_by quot
fixed_point-Laws = record {
  le_not_lt = λ a b h. ground (arith, h);
  lt_int = λ j k _ _. ground arith;
  le_int = λ j k _ _. ground arith;
  cap = λ x h. ground (arith, h);
  scaled = λ d large low. scaled_fixed d large;
}

abbrev draw : Draw
draw = record {
  attack = 0;
  donation = 0;
  normal = 0;
  yield_bps = 9;
  drawdown_bps = 2000;
  allocation = 10;
  deposit = 0;
  for_votes = 0;
  against_votes = 5;
  veto_votes = 400;
}

-- Assets against which a small deposit mints nothing.
abbrev rich : Vault ℤ
rich = record {
  total_assets = pos 1_000_000_000_000_000_000;
  total_shares = pos 0;
  idle_assets = pos 0;
  hwm_nav = pos 10000;
  inflation_attempts_checked = 0;
  bunker_scenarios_checked = 0;
  hwm_scenarios_checked = 0;
  reserve_floor_checks = 0;
  veto_scenarios_checked = 0;
}

rich_fails : run_fuzz_suite fixed_point (draw ∷ []) rich ≡ failed zero_shares
unfolding run_fuzz_suite iteration check_inflation calculate_shares_to_mint quot div_by ◌*ℤ◌ ◌+ℤ◌
rich_fails = refl

run_fuzz_suite-CanEnd_example : CanEnd zero_shares
run_fuzz_suite-CanEnd_example =
    run_fuzz_suite-CanEnd fixed_point fixed_point-Laws (draw ∷ []) rich zero_shares (omega arith, _)
      rich_fails

-- A vault at a price of 1.
abbrev vault : Vault ℤ
vault = record rich {
  total_assets = pos 1_000_000_000_000;
  total_shares = pos 1_000_000_000_000;
  idle_assets = pos 250_000_000_000;
}

-- The vault after the draw.
abbrev later : Vault ℤ
later = record {
  total_assets = pos 1_005_954_955_000;
  total_shares = pos 1_004_970_401_487;
  idle_assets = pos 254_900_000_000;
  hwm_nav = pos 10009;
  inflation_attempts_checked = 1;
  bunker_scenarios_checked = 1;
  hwm_scenarios_checked = 1;
  reserve_floor_checks = 1;
  veto_scenarios_checked = 1;
}

passes : iteration fixed_point vault draw ≡ done later
unfolding iteration check_inflation check_nav charge_fee check_mark check_haircut allocate
    check_veto calculate_haircut_bps calculate_nav calculate_shares_to_mint quot div_by ◌*ℤ◌ ◌+ℤ◌
    ◌-ℤ◌
passes = refl

charged :
    charge_fee fixed_point
      (post_harvest fixed_point vault draw)
      (calculate_nav fixed_point (post_harvest fixed_point vault draw) vault.total_shares)
      vault.hwm_nav
    ≡ done (pos 45_045_000, pos 10009)
unfolding charge_fee calculate_nav quot div_by ◌*ℤ◌ ◌+ℤ◌ ◌-ℤ◌
charged = refl

books : post_harvest fixed_point vault draw -ℤ pos 45_045_000 ≡ pos 1_000_954_955_000
unfolding div_by ◌*ℤ◌ ◌+ℤ◌ ◌-ℤ◌
books = refl

iteration_keeps_price_example :
    let x = deposited draw in
    let m = minted_after 1_000_954_955_000 1_000_000_000_000 x in
    IsDue fixed_point vault later draw (pos 45_045_000) (pos 10009)
    × (later.hwm_nav ≡ pos 10009)
    × (later.total_assets ≡ pos (1_000_954_955_000 + x))
    × (later.total_shares ≡ pos (1_000_000_000_000 + m))
    × (m ≤ x * (1_000_000_000_000 + 1000) / (1_000_954_955_000 + 1))
    × ((1_000_954_955_000 + 1) * (1_000_000_000_000 + m + 1000)
        ≤ (1_000_954_955_000 + x + 1) * (1_000_000_000_000 + 1000))
iteration_keeps_price_example =
    iteration_keeps_price fixed_point vault later draw (pos 45_045_000) (pos 10009)
      1_000_954_955_000 1_000_000_000_000 charged books refl passes
