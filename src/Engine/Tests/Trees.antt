-- ===== src/Engine/Tests/Trees.antt =====
-- engine/src/cryptographic_verifier.ts: a tree of three entries.
use hikari.Prelude.{◌^◌, ◌≤◌, ◌<◌, ◌≡◌, refl, [], ◌∷◌, map, true, length, arith}
use hikari.Prelude.Int.{pos}
use native.Mathlib.Decide.{dec_lt}
use hikari.Engine.Levels.{levels_end, next_level, sibling}
use hikari.Engine.Merkle.{build_merkle_tree, generate_proof, verify_proof}
use hikari.Engine.Merkle.Proofs.{entry_hash, verify_proof-generate_proof, length-generate_proof}
use hikari.Engine.Tests.{bracket, log_entry, three_entries}

three_root : (build_merkle_tree bracket three_entries).root ≡ "((ab)(cc))"
unfolding build_merkle_tree levels_end dec_lt next_level
three_root = refl

three_proof : generate_proof bracket (map entry_hash three_entries) (pos 2) ≡ "c" ∷ "(ab)" ∷ []
unfolding generate_proof levels_end dec_lt sibling next_level
three_proof = refl

verify_proof-generate_proof_example :
    (let tree = build_merkle_tree bracket three_entries in
      verify_proof bracket "c" (generate_proof bracket tree.leaves (pos 2)) tree.root 2)
    ≡ true
verify_proof-generate_proof_example =
    verify_proof-generate_proof bracket three_entries 2 (log_entry 3 "c") refl

length-generate_proof_example :
    (let rounds = length (generate_proof bracket (map entry_hash three_entries) (pos 2)) in
      (3 ≤ 2 ^ rounds) × (2 ^ rounds < 6))
length-generate_proof_example =
    length-generate_proof bracket (map entry_hash three_entries) 2 (omega arith)
