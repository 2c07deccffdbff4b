-- ===== src/Engine/Merkle/Proofs.antt =====
-- engine/src/cryptographic_verifier.ts: every entry of a tree has a proof that the tree's root accepts.
use mathlib.Core.WellFounded.{Acc}
use mathlib.Core.Logic.{dif_pos, dif_neg}
use native.Mathlib.Bridge.{le_prop}
use native.Mathlib.Decide.{dec_lt}
use hikari.Prelude.{
  ℕ, zero, suc, ◌+◌, ◌*◌, ◌/◌, ◌≤◌, ◌<◌, ◌^◌, ◌≡◌, ◌⊎◌, inr, refl, ap, true, List, [], ◌∷◌, map,
  some, length, get_or, get_elem?, lt→ltb, arith,
}
use hikari.Prelude.Int.{pos}
use hikari.Prelude.Text.{String, eq_refl}
use hikari.Engine.Types.{AuditLogEntry}
use hikari.Engine.Levels.{
  ◌⊏◌, levels_end, undefined, sibling, next_level, next_level-⊏, get_or-next_level,
  length-next_level,
}
use hikari.Engine.Merkle.{climb, build_merkle_tree, siblings, generate_proof, fold_up, verify_proof}

two-pow-suc : (k : ℕ) → 2 ^ suc k ≡ 2 * 2 ^ k
two-pow-suc k = omega arith

abbrev pub entry_hash : AuditLogEntry → String
entry_hash e = e.entry_hash

module _ (hash : String → String) where
  module _ (level : List String) (above : (y : List String) → y ⊏ level → Acc ◌⊏◌ y) where
    pub climb_more :
        (more : 1 < length level)
        → climb hash level (Acc.intro level above)
          ≡ climb hash
              (next_level hash level)
              (above (next_level hash level) (next_level-⊏ hash level more))
    unfolding climb
    climb_more more = dif_pos (dec_lt 1 (length level)) le_prop more _ _

    pub climb_one : ¬ (1 < length level) → climb hash level (Acc.intro level above) ≡ level
    unfolding climb
    climb_one one = dif_neg (dec_lt 1 (length level)) one _ _

    pub siblings_more :
        (i : ℕ) (more : 1 < length level)
        → siblings hash level (Acc.intro level above) i
          ≡ sibling level i
            ∷ siblings hash
                (next_level hash level)
                (above (next_level hash level) (next_level-⊏ hash level more))
                (i / 2)
    unfolding siblings
    siblings_more i more = dif_pos (dec_lt 1 (length level)) le_prop more _ _

    pub siblings_one :
        (i : ℕ) → ¬ (1 < length level) → siblings hash level (Acc.intro level above) i ≡ []
    unfolding siblings
    siblings_one i one = dif_neg (dec_lt 1 (length level)) one _ _

  -- The neighbours of a hash lead from it to the root.
  pub fold_up-siblings :
      (level : List String) (w : Acc ◌⊏◌ level) (i : ℕ)
      → i < length level
      → fold_up hash (get_or level i undefined) i (siblings hash level w i)
        ≡ get_or (climb hash level w) 0 undefined
  unfolding fold_up
  fold_up-siblings level (Acc.intro _ above) i h = elim (dec_lt 1 (length level)) [
    | no one ↦
        rw (siblings_one level above i one, climb_one level above one)
          (ap (λ k. get_or level k undefined) (omega arith))
    | yes more ↦
        let smaller = next_level-⊏ hash level more in
        rw
          (
            siblings_more level above i more,
            climb_more level above more,
            fold_up,
            ← get_or-next_level hash level i h,
          )
          (fold_up-siblings (next_level hash level) (above _ smaller) (i / 2)
            (omega (arith, length-next_level hash level)))
  ]

  -- A proof has as many hashes as it takes to halve the number of leaves, rounded up, down to one.
  pub length-siblings :
      (level : List String) (w : Acc ◌⊏◌ level) (i : ℕ)
      → 0 < length level
      → (length level ≤ 2 ^ length (siblings hash level w i))
        × ((2 ^ length (siblings hash level w i) + 2 ≤ 2 * length level)
            ⊎ (2 ^ length (siblings hash level w i) ≡ 1))
  length-siblings level (Acc.intro _ above) i h = elim (dec_lt 1 (length level)) [
    | no one ↦ rw (siblings_one level above i one) (omega arith, inr refl)
    | yes more ↦
        let upper = next_level hash level in
        let half = length-next_level hash level in
        let rest = siblings hash upper (above upper (next_level-⊏ hash level more)) (i / 2) in
        let step =
          length-siblings upper (above upper (next_level-⊏ hash level more)) (i / 2)
            (omega (arith, half)) in
        rw (siblings_more level above i more)
          (ground (arith, half, step, two-pow-suc (length rest)))
  ]

  get_elem?-get_or :
      (entries : List AuditLogEntry) (i : ℕ) {e : AuditLogEntry}
      → get_elem? entries i ≡ some e
      → (i < length (map entry_hash entries))
        × (get_or (map entry_hash entries) i undefined ≡ e.entry_hash)
  get_elem?-get_or [] i at = cc
  get_elem?-get_or (x ∷ entries) zero at = (omega arith, cc)
  get_elem?-get_or (x ∷ entries) (suc i) at =
      let rest = get_elem?-get_or entries i at in (omega (arith, rest.0), rest.1)

  -- For every entry of a log, at its index, the proof that generateProof makes from the tree's leaves is
  -- accepted by verifyProof against the tree's root.
  pub verify_proof-generate_proof :
      (entries : List AuditLogEntry) (i : ℕ) (e : AuditLogEntry)
      → get_elem? entries i ≡ some e
      → (let tree = build_merkle_tree hash entries in
          verify_proof hash e.entry_hash (generate_proof hash tree.leaves (pos i)) tree.root i)
        ≡ true
  unfolding build_merkle_tree generate_proof verify_proof
  verify_proof-generate_proof [] i e at = cc
  verify_proof-generate_proof (x ∷ entries) i e at =
      let leaves = map entry_hash (x ∷ entries) in
      let (inside, own) = get_elem?-get_or (x ∷ entries) i at in
      rw
        (
          lt→ltb i (length leaves) inside,
          ← own,
          fold_up-siblings leaves (levels_end leaves) i inside,
        )
        (eq_refl _)

  -- A proof for a leaf of a tree with n leaves has k hashes, where 2 ^ k is at least n and less than 2 * n:
  -- the loop of generateProof goes round as often as n can be halved, rounding up, before one is left.
  pub length-generate_proof :
      (leaves : List String) (i : ℕ)
      → i < length leaves
      → (let rounds = length (generate_proof hash leaves (pos i)) in
          (length leaves ≤ 2 ^ rounds) × (2 ^ rounds < 2 * length leaves))
  unfolding generate_proof
  length-generate_proof leaves i inside =
      rw (lt→ltb i (length leaves) inside)
        (ground (arith, length-siblings leaves (levels_end leaves) i (omega arith)))
