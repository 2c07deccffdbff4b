-- ===== src/Simulator.antt =====
-- scripts/simulate_stress_test.js: the vault simulator behind the stress test. BigInt amounts are
-- integers; Number values are those of the parameter `n`; counters and epochs are naturals. `none`
-- is a RangeError, which ends the script.
pub mod Run
pub mod Accounting
pub mod Reserve
pub mod Crisis
pub mod Pricing
mod Tests
use hikari.Prelude.{ℕ, ◌+◌, Bool, true, false, not, ◌&&◌, Option, none, some, leb, if◌then◌else◌}
use hikari.Prelude.Int.{ℤ, pos, ltb_ℤ, leb_ℤ, eq_ℤ, ◌+ℤ◌, ◌-ℤ◌, ◌*ℤ◌, div_by, quot}
use hikari.Prelude.Number.{Number}

infixl 5 ◌>>=◌
abbrev pub ◌>>=◌ {ℓ κ} : {A : Type ℓ} {B : Type κ} → Option A → (A → Option B) → Option B
none >>= f = none
some a >>= f = f a

pub record Stats (Num : Type 0) : Type 0 where
  pub epochs_run : ℕ
  pub max_drawdown_bps : Num
  pub mev_bundles_executed : ℕ
  pub bunker_mode_activations : ℕ
  pub gate_seal_trips : ℕ

pub record ProtocolSimulator (Num : Type 0) : Type 0 where
  pub total_assets : ℤ
  pub total_shares : ℤ
  pub idle_assets : ℤ
  pub allocated_assets : ℤ
  pub peak_nav : Num
  pub hwm_nav : Num
  pub total_fees_captured : ℤ
  pub total_mev_boost : ℤ
  pub is_gate_sealed : Bool
  pub seal_expiration_epoch : ℕ
  pub is_bunker_mode : Bool
  pub haircut_bps : Num
  pub invariant_violations : ℕ
  pub stats : Stats Num

abbrev pub virtual_assets : ℤ
virtual_assets = pos 1

abbrev pub virtual_shares : ℤ
virtual_shares = pos 1000

-- The split of a payment between the idle reserve and the strategies: (idle, allocated) afterwards.
unfoldable pub pay_out : ℤ → ℤ → ℤ → ℤ × ℤ
pay_out idle allocated nominal =
    if leb_ℤ nominal idle
    then (idle -ℤ nominal, allocated)
    else let needed = nominal -ℤ idle in
      (pos 0, if ltb_ℤ needed allocated then allocated -ℤ needed else pos 0)

module _ (n : Number) where
  open n use {Num, of_ℤ, to_ℤ, sub, mul, div, floor, lt, le, min}

  unfoldable pub constructor_state : ProtocolSimulator Num
  constructor_state = record {
    total_assets = pos 1_000_000_000_000;
    total_shares = pos 1_000_000_000_000;
    idle_assets = pos 250_000_000_000;
    allocated_assets = pos 750_000_000_000;
    peak_nav = of_ℤ (pos 1);
    hwm_nav = of_ℤ (pos 1);
    total_fees_captured = pos 0;
    total_mev_boost = pos 0;
    is_gate_sealed = false;
    seal_expiration_epoch = 0;
    is_bunker_mode = false;
    haircut_bps = of_ℤ (pos 0);
    invariant_violations = 0;
    stats = record {
      epochs_run = 0;
      max_drawdown_bps = of_ℤ (pos 0);
      mev_bundles_executed = 0;
      bunker_mode_activations = 0;
      gate_seal_trips = 0;
    };
  }

  unfoldable pub get_nav : ProtocolSimulator Num → Option Num
  get_nav s = do
    let v_assets = s.total_assets +ℤ virtual_assets
    let v_shares = s.total_shares +ℤ virtual_shares
    scaled ← quot (v_assets *ℤ pos 10000) v_shares
    some (div (of_ℤ scaled) (of_ℤ (pos 10000)))

  unfoldable pub deposit : ProtocolSimulator Num → ℤ → Option (ProtocolSimulator Num × ℤ)
  deposit s assets = do
    let v_assets = s.total_assets +ℤ virtual_assets
    let v_shares = s.total_shares +ℤ virtual_shares
    shares_to_mint ← quot (assets *ℤ v_shares) v_assets
    some (
      record s {
        total_assets = s.total_assets +ℤ assets;
        idle_assets = s.idle_assets +ℤ assets;
        total_shares = s.total_shares +ℤ shares_to_mint;
      },
      shares_to_mint,
    )

  -- the bunker-mode deduction of `redeem`
  unfoldable pub after_haircut : ProtocolSimulator Num → ℤ → Option ℤ
  after_haircut s nominal =
      if s.is_bunker_mode && lt (of_ℤ (pos 0)) s.haircut_bps
      then (do bps ← to_ℤ s.haircut_bps; some (nominal -ℤ div_by (nominal *ℤ bps) 10000))
      else some nominal

  unfoldable pub redeem : ProtocolSimulator Num → ℤ → Option (ProtocolSimulator Num × ℤ)
  redeem s shares = do
    let v_assets = s.total_assets +ℤ virtual_assets
    let v_shares = s.total_shares +ℤ virtual_shares
    gross ← quot (shares *ℤ v_assets) v_shares
    nominal ← after_haircut s gross
    let split = pay_out s.idle_assets s.allocated_assets nominal
    some (
      record s {
        idle_assets = split.0;
        allocated_assets = split.1;
        total_assets = split.0 +ℤ split.1;
        total_shares = s.total_shares -ℤ shares;
      },
      nominal,
    )

  unfoldable pub rebalance_allocations : ProtocolSimulator Num → ProtocolSimulator Num
  rebalance_allocations s =
      let target_idle = div_by (s.total_assets *ℤ pos 20) 100 in
      let surplus = s.idle_assets -ℤ target_idle in
      let deficit = target_idle -ℤ s.idle_assets in
      if s.is_gate_sealed
      then s
      else if ltb_ℤ target_idle s.idle_assets
      then record s {
        idle_assets = s.idle_assets -ℤ surplus;
        allocated_assets = s.allocated_assets +ℤ surplus;
      }
      else if ltb_ℤ s.idle_assets (div_by (s.total_assets *ℤ pos 15) 100)
      then (if leb_ℤ deficit s.allocated_assets
          then record s {
            allocated_assets = s.allocated_assets -ℤ deficit;
            idle_assets = s.idle_assets +ℤ deficit;
          }
          else s)
      else s

  -- step 1 of `applyYieldAndMev`: the strategies' yield
  unfoldable pub accrue_yield : ProtocolSimulator Num → ℤ → ProtocolSimulator Num
  accrue_yield s yield_bps =
      let yield_earned = div_by (s.allocated_assets *ℤ yield_bps) 10000 in
      record s {
        allocated_assets = s.allocated_assets +ℤ yield_earned;
        total_assets = s.total_assets +ℤ yield_earned;
      }

  -- step 2: the MEV boost
  unfoldable pub add_mev_boost : ProtocolSimulator Num → ℤ → ProtocolSimulator Num
  add_mev_boost s boost =
      if ltb_ℤ (pos 0) boost
      then (let stats' = s.stats in
          record s {
            total_assets = s.total_assets +ℤ boost;
            idle_assets = s.idle_assets +ℤ boost;
            total_mev_boost = s.total_mev_boost +ℤ boost;
            stats = record stats' { mev_bundles_executed = stats'.mev_bundles_executed + 1 };
          })
      else s

  -- step 3: the fee above the high-water mark, for the current NAV
  unfoldable pub assess_fee : ProtocolSimulator Num → Num → Option (ProtocolSimulator Num)
  assess_fee s current_nav =
      if lt s.hwm_nav current_nav
      then (do
        let profit_nav = sub current_nav s.hwm_nav
        units ← to_ℤ (floor (mul profit_nav (of_ℤ (pos 1000))))
        let fee = div_by (s.total_assets *ℤ units) 100000
        some (
            if ltb_ℤ (pos 0) fee
            then record s {
              total_fees_captured = s.total_fees_captured +ℤ fee;
              hwm_nav = current_nav;
            }
            else s))
      else some s

  unfoldable pub raise_peak : ProtocolSimulator Num → Num → ProtocolSimulator Num
  raise_peak s current_nav =
      if lt s.peak_nav current_nav then record s { peak_nav = current_nav } else s

  unfoldable pub apply_yield_and_mev :
      ProtocolSimulator Num → ℤ → ℤ → Option (ProtocolSimulator Num)
  apply_yield_and_mev s yield_bps mev_boost = do
    let boosted = add_mev_boost (accrue_yield s yield_bps) mev_boost
    current_nav ← get_nav boosted
    charged ← assess_fee boosted current_nav
    some (raise_peak charged current_nav)

  -- the RiskEngine rules at the end of `simulateMarketShock`
  unfoldable pub apply_risk_rules : ProtocolSimulator Num → Num → ProtocolSimulator Num
  apply_risk_rules s drawdown_bps =
      let stats' = s.stats in
      if le (of_ℤ (pos 1500)) drawdown_bps
      then record s {
        is_gate_sealed = true;
        seal_expiration_epoch = stats'.epochs_run + 50;
        is_bunker_mode = true;
        haircut_bps = min (of_ℤ (pos 2500)) drawdown_bps;
        stats = record stats' {
          gate_seal_trips = stats'.gate_seal_trips + 1;
          bunker_mode_activations = stats'.bunker_mode_activations + 1;
        };
      }
      else if le (of_ℤ (pos 1000)) drawdown_bps
      then record s {
        is_bunker_mode = true;
        haircut_bps = min (of_ℤ (pos 1500)) drawdown_bps;
        stats = record stats' { bunker_mode_activations = stats'.bunker_mode_activations + 1 };
      }
      else s

  unfoldable pub simulate_market_shock : ProtocolSimulator Num → ℤ → Option (ProtocolSimulator Num)
  simulate_market_shock s drop_percentage = do
    let loss = div_by (s.allocated_assets *ℤ drop_percentage) 100
    let allocated = s.allocated_assets -ℤ loss
    let hit = record s { allocated_assets = allocated; total_assets = s.idle_assets +ℤ allocated }
    current_nav ← get_nav hit
    let drawdown_bps =
        floor (mul (div (sub hit.peak_nav current_nav) hit.peak_nav) (of_ℤ (pos 10000)))
    let stats' = hit.stats
    let noted =
        if lt stats'.max_drawdown_bps drawdown_bps
        then record hit { stats = record stats' { max_drawdown_bps = drawdown_bps } }
        else hit
    some (apply_risk_rules noted drawdown_bps)

  -- the three checks of `verifyInvariants` that count a violation
  violates_nav : ProtocolSimulator Num → Num → Bool
  violates_nav s nav = lt nav (div (of_ℤ (pos 999)) (of_ℤ (pos 1000))) && not s.is_bunker_mode

  unfoldable pub violates_reserve : ProtocolSimulator Num → Option Bool
  violates_reserve s =
      if not s.is_gate_sealed && not s.is_bunker_mode
      then (do
        reserve_pct ← quot (s.idle_assets *ℤ pos 100) s.total_assets
        some (lt (of_ℤ reserve_pct) (of_ℤ (pos 14))))
      else some false

  unfoldable pub violates_balance : ProtocolSimulator Num → Bool
  violates_balance s = not (eq_ℤ s.total_assets (s.idle_assets +ℤ s.allocated_assets))

  abbrev pub count_violation : Bool → ProtocolSimulator Num → ProtocolSimulator Num
  count_violation b s = record s {
    invariant_violations = if b then s.invariant_violations + 1 else s.invariant_violations;
  }

  unfoldable pub auto_unseal : ℕ → ProtocolSimulator Num → ProtocolSimulator Num
  auto_unseal epoch s =
      if s.is_gate_sealed && leb s.seal_expiration_epoch epoch
      then record s { is_gate_sealed = false; is_bunker_mode = false; haircut_bps = of_ℤ (pos 0) }
      else s

  unfoldable pub verify_invariants : ProtocolSimulator Num → ℕ → Option (ProtocolSimulator Num)
  unfolding violates_nav violates_reserve violates_balance
  verify_invariants s epoch = do
    nav ← get_nav s
    let after_nav = count_violation (violates_nav s nav) s
    low ← violates_reserve after_nav
    let after_reserve = count_violation low after_nav
    let after_balance = count_violation (violates_balance after_reserve) after_reserve
    some (auto_unseal epoch after_balance)
