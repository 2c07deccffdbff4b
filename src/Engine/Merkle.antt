-- ===== src/Engine/Merkle.antt =====
-- engine/src/cryptographic_verifier.ts: the Merkle tree over the entries of the audit log, and proofs
-- that an entry is in it. `hash` stands for SHA-256 in hexadecimal. An index is an integer.
pub mod Proofs
use mathlib.Core.WellFounded.{Acc}
use mathlib.Core.Logic.{dite}
use native.Mathlib.Decide.{dec_lt}
use hikari.Prelude.{ℕ, ◌/◌, ◌<◌, Bool, List, [], ◌∷◌, if◌then◌else◌, map, length, ltb, get_or}
use hikari.Prelude.Int.{ℤ, pos, negsuc}
use hikari.Prelude.Text.{◌⊕◌, String, ◌⊕◌, ◌==◌}
use hikari.Engine.Types.{ActionProposal, AuditLogEntry}
use hikari.Engine.Levels.{◌⊏◌, levels_end, undefined, sibling, next_level, next_level-⊏, combine}

module _ (hash : String → String) where
  -- while (currentLevel.length > 1) currentLevel = nextLevel
  unfoldable pub climb : (level : List String) → Acc ◌⊏◌ level → List String
  climb level (Acc.intro _ above) =
      dite (dec_lt 1 (length level))
        (λ more.
          climb (next_level hash level)
            (above (next_level hash level) (next_level-⊏ hash level more)))
        (λ _. level)

  pub record Tree : Type 0 where
    pub root : String
    pub leaves : List String

  unfoldable pub build_merkle_tree : List AuditLogEntry → Tree
  unfolding climb
  build_merkle_tree [] = record { root = hash "EMPTY_TREE"; leaves = [] }
  build_merkle_tree (e ∷ entries) =
      let leaves = map (λ (x : AuditLogEntry). x.entry_hash) (e ∷ entries) in
      record { root = get_or (climb leaves (levels_end leaves)) 0 undefined; leaves = leaves }

  -- the loop of `generateProof`: the neighbours' hashes, from the leaves up
  unfoldable pub siblings : (level : List String) → Acc ◌⊏◌ level → ℕ → List String
  siblings level (Acc.intro _ above) index =
      dite (dec_lt 1 (length level))
        (λ more.
          sibling level index
          ∷ siblings (next_level hash level)
              (above (next_level hash level) (next_level-⊏ hash level more)) (index / 2))
        (λ _. [])

  unfoldable pub generate_proof : List String → ℤ → List String
  unfolding siblings
  generate_proof leaves (negsuc n) = []
  generate_proof leaves (pos target) =
      if ltb target (length leaves) then siblings leaves (levels_end leaves) target else []

  -- the loop of `verifyProof`
  unfoldable pub fold_up : String → ℕ → List String → String
  fold_up current index [] = current
  fold_up current index (other ∷ proof) =
      fold_up (combine hash index current other) (index / 2) proof

  unfoldable pub verify_proof : String → List String → String → ℕ → Bool
  unfolding fold_up
  verify_proof leaf proof root leaf_index = fold_up leaf leaf_index proof == root

  -- `show` is an integer in a template.
  unfoldable pub compute_proposal_commitment : (ℤ → String) → ActionProposal → String
  compute_proposal_commitment show p = hash (
      p.id
      ⊕ ":"
      ⊕ p.proposer_agent
      ⊕ ":"
      ⊕ p.target_strategy
      ⊕ ":"
      ⊕ show p.amount_stroops
      ⊕ ":"
      ⊕ show p.expected_yield_bps
      ⊕ ":"
      ⊕ show p.max_slippage_bps
      ⊕ ":"
      ⊕ show (pos p.timestamp))
