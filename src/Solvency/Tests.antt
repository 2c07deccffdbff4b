-- ===== src/Solvency/Tests.antt =====
-- services/automation/src/merkle-solvency.ts: two depositors.
use hikari.Prelude.{◌≡◌, refl, List, [], ◌∷◌, map, some, true, arith}
use hikari.Prelude.Int.{ℤ, pos}
use hikari.Prelude.Number.{fixed_point}
use hikari.Prelude.Text.{String, ◌==◌}
use hikari.Engine.Types.{AuditLogEntry}
use native.Mathlib.Decide.{dec_lt}
use hikari.Engine.Levels.{levels_end, next_level}
use hikari.Engine.Merkle.{build_merkle_tree, generate_proof}
use hikari.Engine.Tests.{bracket, log_entry}
use hikari.Solvency.{
  Host, DepositorLiability, Engine, SolvencyInclusionProof, get_leaf_hash, compute_merkle_tree,
  get_inclusion_proof, proof_steps,
}
use hikari.Solvency.Proofs.{step_hash}
use hikari.Solvency.Inclusion.{get_inclusion_proof-verified, build_merkle_tree-compute_merkle_tree}

abbrev host : Host fixed_point
host = record {
  hash = bracket;
  lower = λ s. s;
  show = λ x. "5";
  round = λ x. x;
  two_decimals = λ x. x;
}

abbrev depositor : String → DepositorLiability ℤ
depositor a = record { address = a; shares = "7"; underlying_value_xlm = pos 50000 }

abbrev engine : Engine ℤ
engine = record {
  depositors = depositor "GA" ∷ depositor "GB" ∷ [];
  audited_reserves_xlm = pos 120000;
  verified_ledger = 99;
}

root_test : (compute_merkle_tree fixed_point host engine).root ≡ "((GA:7:5)(GB:7:5))"
unfolding compute_merkle_tree get_leaf_hash levels_end dec_lt next_level
root_test = refl

get_inclusion_proof-verified_example :
    (p : SolvencyInclusionProof ℤ) × (get_inclusion_proof fixed_point host engine "GB" ≡ some p)
    × ((p.address == "GB") ≡ true)
    × (p.merkle_root ≡ (compute_merkle_tree fixed_point host engine).root)
    × (p.is_verified ≡ true)
get_inclusion_proof-verified_example =
    get_inclusion_proof-verified fixed_point host (λ s. refl) engine 1 (depositor "GB") refl

abbrev entries : List AuditLogEntry
entries = log_entry 1 "(GA:7:5)" ∷ log_entry 2 "(GB:7:5)" ∷ []

leaves_agree :
    map (λ (x : AuditLogEntry). x.entry_hash) entries
    ≡ map (get_leaf_hash fixed_point host) engine.depositors
unfolding get_leaf_hash
leaves_agree = refl

build_merkle_tree-compute_merkle_tree_example :
    ((build_merkle_tree bracket entries).root ≡ (compute_merkle_tree fixed_point host engine).root)
    × (generate_proof bracket (build_merkle_tree bracket entries).leaves (pos 1)
        ≡ map step_hash (proof_steps (compute_merkle_tree fixed_point host engine).tree 1))
build_merkle_tree-compute_merkle_tree_example =
    build_merkle_tree-compute_merkle_tree fixed_point host (λ s. refl) engine entries 1 leaves_agree
      (omega arith)
