-- ===== src/Solvency.antt =====
-- services/automation/src/merkle-solvency.ts: the proof-of-solvency engine, a Merkle tree over the
-- depositors' liabilities. `hash` stands for SHA-256 in hexadecimal, `lower` for `toLowerCase`, `show` for
-- a number in a template, `round` for `Math.round` and `two_decimals` for `parseFloat(x.toFixed(2))`.
pub mod Proofs
pub mod Inclusion
mod Tests
use mathlib.Core.WellFounded.{Acc}
use mathlib.Core.Logic.{dite}
use native.Mathlib.Decide.{dec_lt}
use hikari.Prelude.{
  ℕ, suc, ◌+◌, ◌-◌, ◌/◌, ◌%◌, ◌<◌, Bool, true, false, List, [], ◌∷◌, if◌then◌else◌, map, length,
  ltb, leb, ◌==◌ as nat_eq, get_or, Option, none, some,
}
use hikari.Prelude.Int.{pos}
use hikari.Prelude.Number.{Number}
use hikari.Prelude.Text.{String, ◌⊕◌, ◌==◌, is_empty}
use hikari.Engine.Levels.{◌⊏◌, levels_end, undefined, next_level, next_level-⊏}

pub record Host (n : Number) : Type 0 where
  pub hash : String → String
  pub lower : String → String
  pub show : Number.Num n → String
  pub round : Number.Num n → Number.Num n
  pub two_decimals : Number.Num n → Number.Num n

pub record DepositorLiability (N : Type 0) : Type 0 where
  pub address : String
  pub shares : String
  pub underlying_value_xlm : N

pub data RegistryStatus : Type 0 where
  real empty_not_yet_tracked : RegistryStatus

pub record SolvencyReport (N : Type 0) : Type 0 where
  pub timestamp : String
  pub verified_ledger : ℕ
  pub merkle_root : String
  pub total_liabilities_xlm : N
  pub total_audited_reserves_xlm : N
  pub surplus_buffer_xlm : N
  pub reserve_ratio_percent : Option N
  pub is_fully_solvent : Bool
  pub leaf_count : ℕ
  pub depositor_registry_status : RegistryStatus

pub data Position : Type 0 where
  left right : Position

pub record ProofStep : Type 0 where
  pub position : Position
  pub hash : String

pub record SolvencyInclusionProof (N : Type 0) : Type 0 where
  pub address : String
  pub shares : String
  pub underlying_value_xlm : N
  pub leaf_hash : String
  pub merkle_root : String
  pub proof : List ProofStep
  pub is_verified : Bool

-- The engine's fields.
pub record Engine (N : Type 0) : Type 0 where
  pub depositors : List (DepositorLiability N)
  pub audited_reserves_xlm : N
  pub verified_ledger : ℕ

pub record MerkleTree : Type 0 where
  pub root : String
  pub leaves : List String
  pub tree : List (List String)

-- the entry that the loop of `getInclusionProof` pushes for one level
unfoldable pub proof_step : List String → ℕ → ProofStep
proof_step level index =
    let is_right = nat_eq (index % 2) 1 in
    let sibling_index = if is_right then index - 1 else index + 1 in
    if ltb sibling_index (length level)
    then record {
      position = if is_right then left else right;
      hash = get_or level sibling_index undefined;
    }
    else record { position = right; hash = get_or level index undefined }

-- for (let level = 0; level < tree.length - 1; level++)
unfoldable pub proof_steps : List (List String) → ℕ → List ProofStep
proof_steps [] index = []
proof_steps (level ∷ []) index = []
proof_steps (level ∷ above ∷ rest) index =
    proof_step level index ∷ proof_steps (above ∷ rest) (index / 2)

module _ (hash : String → String) where
  -- The loop of `computeMerkleTree`: the last level, and the levels that it pushes.
  unfoldable pub grow : (level : List String) → Acc ◌⊏◌ level → List String × List (List String)
  grow level (Acc.intro _ above) =
      dite (dec_lt 1 (length level))
        (λ more.
          let upper = next_level hash level in
          let (last, pushed) = grow upper (above upper (next_level-⊏ hash level more)) in
          (last, upper ∷ pushed))
        (λ _. (level, []))

  unfoldable pub include_up : String → List ProofStep → String
  include_up current [] = current
  include_up current (step ∷ proof) =
      include_up
        (elim step.position [
          | left ↦ hash (step.hash ⊕ current)
          | right ↦ hash (current ⊕ step.hash)
        ])
        proof

  unfoldable pub verify_inclusion : String → List ProofStep → String → Bool
  unfolding include_up
  verify_inclusion leaf_hash proof expected_root = include_up leaf_hash proof == expected_root

module _ (n : Number) (host : Host n) where
  open n use {Num, of_ℤ, add, sub, mul, div, lt, le}
  open host use {hash, lower, show, round, two_decimals}

  unfoldable pub get_leaf_hash : DepositorLiability Num → String
  get_leaf_hash d = hash (d.address ⊕ ":" ⊕ d.shares ⊕ ":" ⊕ show d.underlying_value_xlm)

  unfoldable pub compute_merkle_tree : Engine Num → MerkleTree
  unfolding grow
  compute_merkle_tree e =
      let leaves = map get_leaf_hash e.depositors in
      let grown = grow hash leaves (levels_end leaves) in
      let top = get_or grown.0 0 "" in
      record {
        root = if is_empty top then hash "EMPTY_TREE" else top;
        leaves = leaves;
        tree = leaves ∷ grown.1;
      }

  abbrev pub total_liabilities : Num → List (DepositorLiability Num) → Num
  total_liabilities sum [] = sum
  total_liabilities sum (d ∷ rest) = total_liabilities (add sum d.underlying_value_xlm) rest

  unfoldable pub generate_solvency_report : String → Engine Num → SolvencyReport Num
  unfolding compute_merkle_tree
  generate_solvency_report now e =
      let tree = compute_merkle_tree e in
      let total = total_liabilities (of_ℤ (pos 0)) e.depositors in
      record {
        timestamp = now;
        verified_ledger = e.verified_ledger;
        merkle_root = tree.root;
        total_liabilities_xlm = round total;
        total_audited_reserves_xlm = e.audited_reserves_xlm;
        surplus_buffer_xlm = round (sub e.audited_reserves_xlm total);
        reserve_ratio_percent =
            if lt (of_ℤ (pos 0)) total
            then some (two_decimals (mul (div e.audited_reserves_xlm total) (of_ℤ (pos 100))))
            else none;
        is_fully_solvent = le total e.audited_reserves_xlm;
        leaf_count = length tree.leaves;
        depositor_registry_status =
            if ltb 0 (length e.depositors) then real else empty_not_yet_tracked;
      }

  -- `findIndex`, with the depositor found
  unfoldable pub find_depositor :
      String → ℕ → List (DepositorLiability Num) → Option (ℕ × DepositorLiability Num)
  find_depositor target index [] = none
  find_depositor target index (d ∷ rest) =
      let later = find_depositor target (suc index) rest in
      if lower d.address == lower target then some (index, d) else later

  unfoldable pub inclusion_proof_of :
      Engine Num → ℕ → DepositorLiability Num → SolvencyInclusionProof Num
  unfolding compute_merkle_tree proof_steps verify_inclusion
  inclusion_proof_of e index d =
      let tree = compute_merkle_tree e in
      let proof = proof_steps tree.tree index in
      record {
        address = d.address;
        shares = d.shares;
        underlying_value_xlm = d.underlying_value_xlm;
        leaf_hash = get_leaf_hash d;
        merkle_root = tree.root;
        proof = proof;
        is_verified = verify_inclusion hash (get_leaf_hash d) proof tree.root;
      }

  unfoldable pub get_inclusion_proof : Engine Num → String → Option (SolvencyInclusionProof Num)
  unfolding find_depositor inclusion_proof_of
  get_inclusion_proof e target_address = elim (find_depositor target_address 0 e.depositors) [
    | none ↦ none
    | some (index, d) ↦ some (inclusion_proof_of e index d)
  ]
