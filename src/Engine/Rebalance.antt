-- ===== src/Engine/Rebalance.antt =====
-- engine/src/policy_engine.ts: the limits on a rebalancing. `lower` stands for `toLowerCase` and `show` for an
-- integer in a template. Basis points are integers; a Map keeps its entries in the order of insertion.

pub mod Limits
use hikari.Prelude.{
  ℕ, ◌+◌, Bool, true, false, ◌||◌, List, [], ◌∷◌, Option, none, some, if◌then◌else◌,
}
use hikari.Prelude.Int.{ℤ, pos, pos_part, neg_part, ltb_ℤ, eq_ℤ, ◌+ℤ◌, ◌-ℤ◌}
use hikari.Prelude.Dict.{Dict, lookup}
use hikari.Prelude.Except.{Except, ok, thrown, ◌>>=◌}
use Prim.Native.String
use hikari.Prelude.Text.{String, ◌⊕◌, ◌==◌, starts_with}
use hikari.Engine.Policy.{has}

abbrev pub max_rebalance_delta_bps : ℤ
max_rebalance_delta_bps = pos 1500

abbrev pub max_slippage_bps : ℤ
max_slippage_bps = pos 50

abbrev pub min_idle_cash_bps : ℤ
min_idle_cash_bps = pos 1000

pub record RebalanceProposal : Type 0 where
  pub vault_address : String
  pub allocations : Dict ℤ
  pub estimated_slippage_bps : ℤ

-- `s.includes(part)`
unfoldable pub contains : String → String → Bool
contains part String.[] = starts_with String.[] part
contains part (String.◌∷◌ c s) =
    let later = contains part s in if starts_with (String.◌∷◌ c s) part then true else later

-- `Math.abs(z)`
abbrev pub abs : ℤ → ℤ
abs z = pos (pos_part z + neg_part z)

-- `m.get(key) || 0`
abbrev pub get_or_zero : String → Dict ℤ → ℤ
get_or_zero key m = elim (lookup key m) [ none ↦ pos 0 | some bps ↦ bps ]

infixl 5 ◌>>◌
abbrev pub ◌>>◌ : {A : Type 0} → Except (Unit {0}) → Except A → Except A
m >> k = m >>= λ _. k

-- `if (bad) throw new Error(message)`
abbrev pub refuse_if : Bool → String → Except (Unit {0})
refuse_if bad message = if bad then thrown message else ok tt

-- `totalBps += bps`, over the entries
add_bps : ℤ → Dict ℤ → ℤ
add_bps total [] = total
add_bps total ((strategy, bps) ∷ rest) = add_bps (total +ℤ bps) rest

unfoldable pub sum_bps : Dict ℤ → ℤ
unfolding add_bps
sum_bps allocations = add_bps (pos 0) allocations

-- `idleKeys.reduce((acc, k) => acc + (allocations.get(k) || 0), 0)`
add_idle : Dict ℤ → ℤ → List String → ℤ
add_idle allocations acc [] = acc
add_idle allocations acc (k ∷ keys) = add_idle allocations (acc +ℤ get_or_zero k allocations) keys

unfoldable pub total_idle : Dict ℤ → List String → ℤ
unfolding add_idle
total_idle allocations keys = add_idle allocations (pos 0) keys

unfoldable pub check_allowlist : List String → Dict ℤ → Except (Unit {0})
unfolding has
check_allowlist allowlist [] = ok tt
check_allowlist allowlist ((strategy, bps) ∷ rest) =
    let later = check_allowlist allowlist rest in
    if has allowlist strategy
    then later
    else thrown ("Security Exception: Strategy " ⊕ strategy ⊕ " is not allowlisted!")

module _ (show : ℤ → String) where
  unfoldable pub check_velocity : Dict ℤ → Dict ℤ → Except (Unit {0})
  check_velocity current [] = ok tt
  check_velocity current ((strategy, target_bps) ∷ rest) =
      let later = check_velocity current rest in
      let delta = abs (target_bps -ℤ get_or_zero strategy current) in
      if ltb_ℤ max_rebalance_delta_bps delta
      then thrown (
          "Velocity Violation: Shift in "
          ⊕ strategy
          ⊕ " of "
          ⊕ show delta
          ⊕ " bps exceeds 15% limit")
      else later

module _ (lower : String → String) where
  unfoldable pub is_idle_key : String → String → Bool
  unfolding contains
  is_idle_key vault_address k =
      (lower k == "idle") || (k == vault_address) || contains "idle" (lower k)

  -- `Array.from(allocations.keys()).filter(…)`
  unfoldable pub idle_keys : String → Dict ℤ → List String
  unfolding is_idle_key
  idle_keys vault_address [] = []
  idle_keys vault_address ((k, bps) ∷ rest) =
      let later = idle_keys vault_address rest in
      if is_idle_key vault_address k then k ∷ later else later

module _ (lower : String → String) (show : ℤ → String) where
  unfoldable pub check_idle_keys : Dict ℤ → List String → Except (Unit {0})
  unfolding total_idle
  check_idle_keys allocations [] = ok tt
  check_idle_keys allocations (k ∷ keys) =
      let idle = total_idle allocations (k ∷ keys) in
      refuse_if (ltb_ℤ idle min_idle_cash_bps) (
        "Liquidity Violation: Idle cash buffer "
        ⊕ show idle
        ⊕ " bps is below minimum "
        ⊕ show min_idle_cash_bps
        ⊕ " bps (10%)")

  unfoldable pub check_idle : RebalanceProposal → Except (Unit {0})
  unfolding idle_keys check_idle_keys
  check_idle p = check_idle_keys p.allocations (idle_keys lower p.vault_address p.allocations)

  unfoldable pub validate_proposal : List String → Dict ℤ → RebalanceProposal → Except Bool
  unfolding check_allowlist check_velocity check_idle sum_bps
  validate_proposal allowlist current p = do
    check_allowlist allowlist p.allocations
    refuse_if (ltb_ℤ max_slippage_bps p.estimated_slippage_bps)
        ("Risk Violation: Slippage " ⊕ show p.estimated_slippage_bps ⊕ " bps exceeds max limit")
    check_velocity show current p.allocations
    check_idle p
    refuse_if (if eq_ℤ (sum_bps p.allocations) (pos 10000) then false else true)
        ("Math Error: Allocations must sum to 10000 bps (got " ⊕ show (sum_bps p.allocations) ⊕ ")")
    ok true
