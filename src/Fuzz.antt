-- ===== src/Fuzz.antt =====
-- scripts/run_fuzz_tests.js: the fuzzing harness of the vault's invariants. BigInt amounts are integers,
-- Number values those of the parameter `n`. What `Math.random` gives is the argument `Draw`.
pub mod Checks
pub mod Minting
mod Tests
use hikari.Prelude.{
  ℕ, ◌+◌, Bool, true, false, not, ◌&&◌, List, [], ◌∷◌, Option, none, some, if◌then◌else◌,
}
use hikari.Prelude.Int.{ℤ, pos, leb_ℤ, eq_ℤ, ◌+ℤ◌, ◌-ℤ◌, ◌*ℤ◌, div_by, quot}
use hikari.Prelude.Number.{Number}

abbrev pub virtual_shares : ℤ
virtual_shares = pos 1000

abbrev pub virtual_assets : ℤ
virtual_assets = pos 1

abbrev pub stroops_per_xlm : ℤ
stroops_per_xlm = pos 10_000_000

-- The checks that end the run, and the RangeError of BigInt.
pub data Failure : Type 0 where
  zero_shares nav_decreased fee_below_mark haircut_bounds veto_executed range_error : Failure

pub data Outcome {ℓ} (A : Type ℓ) : Type ℓ where
  done : A → Outcome A
  failed : Failure → Outcome A

infixl 5 ◌>>=◌
abbrev pub ◌>>=◌ {ℓ κ} : {A : Type ℓ} {B : Type κ} → Outcome A → (A → Outcome B) → Outcome B
failed e >>= f = failed e
done a >>= f = f a

-- a value that BigInt gives, or its RangeError
abbrev pub or_raise {ℓ} : {A : Type ℓ} → Option A → Outcome A
or_raise none = failed range_error
or_raise (some a) = done a

-- `if (bad) throw …`
abbrev pub check : Bool → Failure → Outcome (Unit {0})
check bad e = if bad then failed e else done tt

-- The random integers of an iteration, each `Math.floor(Math.random() * k)` before its offset.
pub record Draw : Type 0 where
  pub attack : ℕ
  pub donation : ℕ
  pub normal : ℕ
  pub yield_bps : ℕ
  pub drawdown_bps : ℕ
  pub allocation : ℕ
  pub deposit : ℕ
  pub for_votes : ℕ
  pub against_votes : ℕ
  pub veto_votes : ℕ

-- The vault of the harness, and its counters.
pub record Vault (Num : Type 0) : Type 0 where
  pub total_assets : ℤ
  pub total_shares : ℤ
  pub idle_assets : ℤ
  pub hwm_nav : Num
  pub inflation_attempts_checked : ℕ
  pub bunker_scenarios_checked : ℕ
  pub hwm_scenarios_checked : ℕ
  pub reserve_floor_checks : ℕ
  pub veto_scenarios_checked : ℕ

unfoldable pub calculate_shares_to_mint : ℤ → ℤ → ℤ → Option ℤ
calculate_shares_to_mint deposit total_assets total_shares =
    quot (deposit *ℤ (total_shares +ℤ virtual_shares)) (total_assets +ℤ virtual_assets)

module _ (n : Number) where
  open n use {Num, of_ℤ, to_ℤ, add, sub, mul, div, floor, lt, le, min}

  abbrev pub int : ℕ → Num
  int k = of_ℤ (pos k)

  abbrev pub ratio : ℕ → ℕ → Num
  ratio a b = div (int a) (int b)

  unfoldable pub calculate_nav : ℤ → ℤ → Num
  calculate_nav total_assets total_shares =
      if eq_ℤ total_shares (pos 0)
      then int 1
      else div (of_ℤ (total_assets +ℤ virtual_assets)) (of_ℤ (total_shares +ℤ virtual_shares))

  unfoldable pub calculate_haircut_bps : Num → Num
  calculate_haircut_bps drawdown =
      if lt drawdown (int 1500)
      then int 0
      else min (int 2500) (floor (div (mul drawdown (int 10000)) (int 1500)))

  unfoldable pub initial_vault : Vault Num
  initial_vault = record {
    total_assets = pos 100_000 *ℤ stroops_per_xlm;
    total_shares = pos 100_000 *ℤ stroops_per_xlm;
    idle_assets = pos 25_000 *ℤ stroops_per_xlm;
    hwm_nav = int 1;
    inflation_attempts_checked = 0;
    bunker_scenarios_checked = 0;
    hwm_scenarios_checked = 0;
    reserve_floor_checks = 0;
    veto_scenarios_checked = 0;
  }

  -- Property 1: the shares of a depositor after an attack and a donation
  unfoldable pub check_inflation : Vault Num → Draw → Outcome (Unit {0})
  check_inflation s d = do
    let attack = pos (d.attack + 1)
    let donation = pos (d.donation + 1) *ℤ stroops_per_xlm
    minted ← or_raise (calculate_shares_to_mint attack s.total_assets s.total_shares)
    shares ← or_raise (
        calculate_shares_to_mint (pos (d.normal + 1) *ℤ stroops_per_xlm)
          (s.total_assets +ℤ attack +ℤ donation) (s.total_shares +ℤ minted))
    check (leb_ℤ shares (pos 0)) zero_shares

  abbrev pub post_harvest : Vault Num → Draw → ℤ
  post_harvest s d = s.total_assets +ℤ div_by (s.total_assets *ℤ pos (d.yield_bps + 1)) 10000

  -- Property 2: the price after a harvest
  unfoldable pub check_nav : Vault Num → Draw → Outcome (Unit {0})
  check_nav s d =
      check
        (lt (calculate_nav (post_harvest s d) s.total_shares)
          (sub (calculate_nav s.total_assets s.total_shares) (ratio 1 1_000_000)))
        nav_decreased

  -- Property 3: the fee above the high-water mark, (fee, mark)
  unfoldable pub charge_fee : ℤ → Num → Num → Outcome (ℤ × Num)
  charge_fee assets nav mark =
      if lt mark nav
      then (do
        fee ← or_raise (to_ℤ (floor (mul (mul (of_ℤ assets) (sub nav mark)) (ratio 5 100))))
        done (fee, nav))
      else done (pos 0, mark)

  unfoldable pub check_mark : Num → Num → Outcome (Unit {0})
  check_mark nav mark =
      let down = mul nav (ratio 95 100) in
      let invalid_fee = if lt mark down then pos 1 else pos 0 in
      check (le down mark && not (eq_ℤ invalid_fee (pos 0))) fee_below_mark

  -- Property 4: the haircut of a drawdown, and whether the scenario counts
  unfoldable pub check_haircut : Draw → Outcome Bool
  check_haircut d =
      let drawdown = int d.drawdown_bps in
      let haircut = calculate_haircut_bps drawdown in
      if le (int 1500) drawdown
      then (if le haircut (int 0)
          then failed haircut_bounds
          else if lt (int 2500) haircut
          then failed haircut_bounds
          else done true)
      else done false

  -- Property 5: the idle assets after an allocation that the reserve permits, and whether it counts
  unfoldable pub allocate : Vault Num → Draw → ℤ × Bool
  allocate s d =
      let candidate = pos d.allocation *ℤ stroops_per_xlm in
      let after = div (of_ℤ (s.idle_assets -ℤ candidate)) (of_ℤ s.total_assets) in
      if le (ratio 15 100) after
      then (s.idle_assets -ℤ candidate, true)
      else (s.idle_assets, lt after (ratio 15 100))

  -- Property 6: a vetoed proposal that could be executed
  unfoldable pub check_veto : Draw → Outcome (Unit {0})
  check_veto d =
      let for_votes = int (d.for_votes + 1000) in
      let veto_ratio = div (int d.veto_votes) (add for_votes (int d.against_votes)) in
      let is_vetoed = le (ratio 334 1000) veto_ratio in
      let can_execute = not is_vetoed && lt (int d.against_votes) for_votes in
      check (is_vetoed && can_execute) veto_executed

  abbrev pub counted : ℕ → Bool → ℕ
  counted k true = k + 1
  counted k false = k

  -- One iteration of the loop.
  unfoldable pub iteration : Vault Num → Draw → Outcome (Vault Num)
  iteration s d = do
    fair ← check_inflation s d
    grown ← check_nav s d
    let assets = post_harvest s d
    let nav = calculate_nav assets s.total_shares
    fee ← charge_fee assets nav s.hwm_nav
    marked ← check_mark nav fee.1
    bunker ← check_haircut d
    let reserve = allocate s d
    let deposit = pos (d.deposit + 500) *ℤ stroops_per_xlm
    let total = assets -ℤ fee.0 +ℤ deposit
    minted ← or_raise (calculate_shares_to_mint deposit total s.total_shares)
    voted ← check_veto d
    done (record {
      total_assets = total;
      total_shares = s.total_shares +ℤ minted;
      idle_assets = reserve.0 +ℤ deposit;
      hwm_nav = fee.1;
      inflation_attempts_checked = s.inflation_attempts_checked + 1;
      bunker_scenarios_checked = counted s.bunker_scenarios_checked bunker;
      hwm_scenarios_checked = s.hwm_scenarios_checked + 1;
      reserve_floor_checks = counted s.reserve_floor_checks reserve.1;
      veto_scenarios_checked = s.veto_scenarios_checked + 1;
    })

  -- The loop of `runFuzzSuite`: an iteration for each draw.
  unfoldable pub run_fuzz_suite : List Draw → Vault Num → Outcome (Vault Num)
  run_fuzz_suite [] s = done s
  run_fuzz_suite (d ∷ ds) s = iteration s d >>= λ s'. run_fuzz_suite ds s'
