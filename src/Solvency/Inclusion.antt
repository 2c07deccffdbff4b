-- ===== src/Solvency/Inclusion.antt =====
-- services/automation/src/merkle-solvency.ts: what a depositor gets from `getInclusionProof`, and that the
-- tree is the one of engine/src/cryptographic_verifier.ts.
use hikari.Prelude.{
  ℕ, zero, suc, ◌+◌, ◌<◌, ◌≡◌, refl, Bool-cases, inl, inr, true, false, List, [], ◌∷◌, map, some,
  length, get_or, get_elem?, length-map, lt→ltb, arith,
}
use hikari.Prelude.Int.{pos}
use hikari.Prelude.Number.{Number}
use hikari.Prelude.Text.{String, ◌==◌, is_empty, eq_refl}
use hikari.Engine.Types.{AuditLogEntry}
use hikari.Engine.Levels.{levels_end, undefined}
use hikari.Engine.Merkle.{climb, siblings, build_merkle_tree, generate_proof}
use hikari.Engine.Merkle.Proofs.{entry_hash}
use hikari.Solvency.{
  Host, DepositorLiability, Engine, SolvencyInclusionProof, proof_steps, grow, verify_inclusion,
  get_leaf_hash, compute_merkle_tree, find_depositor, inclusion_proof_of, get_inclusion_proof,
}
use hikari.Solvency.Proofs.{
  step_hash, Hashes, include_up-proof_steps, climb-grow, siblings-grow, grow_top,
}

module _ (n : Number) (host : Host n) where
  open n use {Num}
  open host use {hash, lower}

  find_depositor-listed :
      (ds : List (DepositorLiability Num)) (i k : ℕ) (d : DepositorLiability Num)
      → get_elem? ds i ≡ some d
      → (j : ℕ) × (found : DepositorLiability Num) × (find_depositor n host d.address k ds
          ≡ some (k + j, found))
        × (get_elem? ds j ≡ some found)
        × ((lower found.address == lower d.address) ≡ true)
  unfolding find_depositor
  find_depositor-listed [] i k d at = cc
  find_depositor-listed (x ∷ ds) zero k d at =
      let same = eq_refl (lower d.address) in
      let own : x ≡ d = cc in (0, x, rw (own, same) (ground arith), refl, rw own same)
  find_depositor-listed (x ∷ ds) (suc i) k d at =
      let (j, found, finds, there, same_later) = find_depositor-listed ds i (suc k) d at in
      elim (Bool-cases (lower x.address == lower d.address)) [
        | inl same ↦ (0, x, rw same (ground arith), refl, same)
        | inr other ↦ (suc j, found, rw (other, finds) (ground arith), there, same_later)
      ]

  leaf-listed :
      (ds : List (DepositorLiability Num)) (i : ℕ) {d : DepositorLiability Num}
      → get_elem? ds i ≡ some d
      → (i < length (map (get_leaf_hash n host) ds))
        × (get_or (map (get_leaf_hash n host) ds) i undefined ≡ get_leaf_hash n host d)
  leaf-listed [] i at = cc
  leaf-listed (x ∷ ds) zero at = (omega arith, cc)
  leaf-listed (x ∷ ds) (suc i) at =
      let rest = leaf-listed ds i at in (omega (arith, rest.0), rest.1)

  tree_of :
      (e : Engine Num)
      → (compute_merkle_tree n host e).tree ≡ (
          let leaves = map (get_leaf_hash n host) e.depositors in
          leaves ∷ (grow hash leaves (levels_end leaves)).1)
  unfolding compute_merkle_tree
  tree_of e = refl

  build-root :
      (x : AuditLogEntry) (entries : List AuditLogEntry)
      → (build_merkle_tree hash (x ∷ entries)).root ≡ (
          let leaves = map entry_hash (x ∷ entries) in
          get_or (climb hash leaves (levels_end leaves)) 0 undefined)
  unfolding build_merkle_tree
  build-root x entries = refl

  build-leaves :
      (x : AuditLogEntry) (entries : List AuditLogEntry)
      → (build_merkle_tree hash (x ∷ entries)).leaves ≡ map entry_hash (x ∷ entries)
  unfolding build_merkle_tree
  build-leaves x entries = refl

  generate-inside :
      (leaves : List String) (i : ℕ)
      → i < length leaves
      → generate_proof hash leaves (pos i) ≡ siblings hash leaves (levels_end leaves) i
  unfolding generate_proof
  generate-inside leaves i h = rw (lt→ltb i (length leaves) h)

  module _ (full : (s : String) → is_empty (hash s) ≡ false) where
    leaf-Hashes : (ds : List (DepositorLiability Num)) → Hashes (map (get_leaf_hash n host) ds)
    unfolding get_leaf_hash
    leaf-Hashes [] = tt
    leaf-Hashes (d ∷ ds) = (full _, leaf-Hashes ds)

    -- The root is the one hash of the last level.
    compute_merkle_tree-root :
        (e : Engine Num)
        → (let leaves = map (get_leaf_hash n host) e.depositors in
            0 < length leaves
            → (compute_merkle_tree n host e).root
              ≡ get_or (grow hash leaves (levels_end leaves)).0 0 undefined)
    unfolding compute_merkle_tree
    compute_merkle_tree-root e some_leaf =
        let leaves = map (get_leaf_hash n host) e.depositors in
        let (top, last, whole) =
          grow_top hash full leaves (levels_end leaves) some_leaf (leaf-Hashes e.depositors) in
        rw (last, whole)

    is_verified_listed :
        (e : Engine Num) (j : ℕ) (found : DepositorLiability Num)
        → get_elem? e.depositors j ≡ some found
        → (inclusion_proof_of n host e j found).is_verified ≡ true
    unfolding inclusion_proof_of verify_inclusion
    is_verified_listed e j found there =
        let leaves = map (get_leaf_hash n host) e.depositors in
        let (inside, own) = leaf-listed e.depositors j there in
        rw
          (
            compute_merkle_tree-root e (omega arith),
            ← own,
            tree_of e,
            include_up-proof_steps hash leaves (levels_end leaves) j inside,
          )
          (eq_refl _)

    -- If no hash is the empty text, getInclusionProof gives every listed depositor's address a proof: it
    -- stands under the tree's root, for a depositor whose address differs in case at most, and it is verified.
    pub get_inclusion_proof-verified :
        (e : Engine Num) (i : ℕ) (d : DepositorLiability Num)
        → get_elem? e.depositors i ≡ some d
        → (p : SolvencyInclusionProof Num) × (get_inclusion_proof n host e d.address ≡ some p)
          × ((lower p.address == lower d.address) ≡ true)
          × (p.merkle_root ≡ (compute_merkle_tree n host e).root)
          × (p.is_verified ≡ true)
    unfolding get_inclusion_proof
    get_inclusion_proof-verified e i d at =
        let (j, found, finds, there, same) = find_depositor-listed e.depositors i 0 d at in
        (
          inclusion_proof_of n host e j found,
          ground (arith, finds),
          unfold inclusion_proof_of in same,
          unfold inclusion_proof_of in refl,
          is_verified_listed e j found there,
        )

    -- Over audit entries with the depositors' leaf hashes, if no hash is the empty text: buildMerkleTree of
    -- the policy engine has the root of computeMerkleTree, and for the index of an entry generateProof gives
    -- the hashes of the steps that getInclusionProof pushes.
    pub build_merkle_tree-compute_merkle_tree :
        (e : Engine Num) (entries : List AuditLogEntry) (i : ℕ)
        → map entry_hash entries ≡ map (get_leaf_hash n host) e.depositors
        → i < length entries
        → ((build_merkle_tree hash entries).root ≡ (compute_merkle_tree n host e).root)
          × (generate_proof hash (build_merkle_tree hash entries).leaves (pos i)
              ≡ map step_hash (proof_steps (compute_merkle_tree n host e).tree i))
    build_merkle_tree-compute_merkle_tree e [] i same inside = absurd (omega arith)
    build_merkle_tree-compute_merkle_tree e (x ∷ entries) i same inside =
        let leaves = map (get_leaf_hash n host) e.depositors in
        let counted : length leaves ≡ length (x ∷ entries) =
          rw (← same) (length-map (x ∷ entries) entry_hash) in
        let within : i < length leaves = omega arith in
        (
          rw (
            build-root x entries,
            same,
            compute_merkle_tree-root e (omega arith),
            climb-grow hash leaves (levels_end leaves),
          ),
          rw (
            build-leaves x entries,
            same,
            tree_of e,
            generate-inside leaves i within,
            siblings-grow hash leaves (levels_end leaves) i within,
          ),
        )
