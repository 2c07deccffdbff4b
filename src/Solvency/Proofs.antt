-- ===== src/Solvency/Proofs.antt =====
-- services/automation/src/merkle-solvency.ts: the inclusion proofs of listed depositors verify, and the
-- tree and the proofs are those of engine/src/cryptographic_verifier.ts over the same leaves.
use mathlib.Core.WellFounded.{Acc}
use mathlib.Core.Logic.{dif_pos, dif_neg}
use native.Mathlib.Bridge.{le_prop}
use native.Mathlib.Decide.{dec_lt}
use hikari.Prelude.{ℕ, ◌/◌, ◌<◌, ◌≡◌, refl, ap, false, List, [], ◌∷◌, map, length, get_or, arith}
use hikari.Prelude.Text.{String, is_empty}
use hikari.Engine.Levels.{
  ◌⊏◌, undefined, sibling, next_level, next_level-⊏, combine, get_or-next_level, length-next_level,
}
use hikari.Engine.Merkle.{climb, siblings}
use hikari.Engine.Merkle.Proofs.{climb_more, climb_one, siblings_more, siblings_one}
use hikari.Solvency.{ProofStep, proof_step, proof_steps, grow, include_up}

abbrev pub step_hash : ProofStep → String
step_hash s = s.hash

proof_step-sibling :
    (level : List String) (i : ℕ) → i < length level → (proof_step level i).hash ≡ sibling level i
unfolding proof_step sibling
proof_step-sibling level i h = ground arith

module _ (hash : String → String) where
  -- One step of an inclusion proof combines as the level above does.
  include_up-cons :
      (level : List String) (i : ℕ) (current : String) (rest : List ProofStep)
      → i < length level
      → include_up hash current (proof_step level i ∷ rest)
        ≡ include_up hash (combine hash i current (sibling level i)) rest
  unfolding include_up proof_step sibling combine
  include_up-cons level i current rest h = ground arith

  module _ (level : List String) (above : (y : List String) → y ⊏ level → Acc ◌⊏◌ y) where
    grow_more :
        (more : 1 < length level)
        → grow hash level (Acc.intro level above) ≡ (
            let upper = next_level hash level in
            let grown = grow hash upper (above upper (next_level-⊏ hash level more)) in
            (grown.0, upper ∷ grown.1))
    unfolding grow
    grow_more more = dif_pos (dec_lt 1 (length level)) le_prop more _ _

    grow_one : ¬ (1 < length level) → grow hash level (Acc.intro level above) ≡ (level, [])
    unfolding grow
    grow_one one = dif_neg (dec_lt 1 (length level)) one _ _

  -- The steps for a hash lead from it to the root.
  pub include_up-proof_steps :
      (level : List String) (w : Acc ◌⊏◌ level) (i : ℕ)
      → i < length level
      → include_up hash (get_or level i undefined) (proof_steps (level ∷ (grow hash level w).1) i)
        ≡ get_or (grow hash level w).0 0 undefined
  unfolding proof_steps
  include_up-proof_steps level (Acc.intro _ above) i h = elim (dec_lt 1 (length level)) [
    | no one ↦
        rw (grow_one level above one)
          (unfold include_up in ap (λ k. get_or level k undefined) (omega arith))
    | yes more ↦
        let upper = next_level hash level in
        rw
          (
            grow_more level above more,
            include_up-cons level i (get_or level i undefined) _ h,
            ← get_or-next_level hash level i h,
          )
          (include_up-proof_steps upper (above upper (next_level-⊏ hash level more)) (i / 2)
            (omega (arith, length-next_level hash level)))
  ]

  -- Both files' loops over the levels end at the same level.
  pub climb-grow :
      (level : List String) (w : Acc ◌⊏◌ level) → climb hash level w ≡ (grow hash level w).0
  climb-grow level (Acc.intro _ above) = elim (dec_lt 1 (length level)) [
    | no one ↦ rw (climb_one hash level above one, grow_one level above one)
    | yes more ↦
        rw (climb_more hash level above more, grow_more level above more)
          (climb-grow (next_level hash level)
            (above (next_level hash level) (next_level-⊏ hash level more)))
  ]

  -- They list the same neighbours.
  pub siblings-grow :
      (level : List String) (w : Acc ◌⊏◌ level) (i : ℕ)
      → i < length level
      → map step_hash (proof_steps (level ∷ (grow hash level w).1) i) ≡ siblings hash level w i
  unfolding proof_steps
  siblings-grow level (Acc.intro _ above) i h = elim (dec_lt 1 (length level)) [
    | no one ↦ rw (siblings_one hash level above i one, grow_one level above one)
    | yes more ↦
        rw
          (
            siblings_more hash level above i more,
            grow_more level above more,
            proof_steps,
            map,
            proof_step-sibling level i h,
          )
          (ap (λ rest. sibling level i ∷ rest)
            (siblings-grow (next_level hash level)
              (above (next_level hash level) (next_level-⊏ hash level more)) (i / 2)
              (omega (arith, length-next_level hash level))))
  ]

abbrev pub Hashes : List String → Type 0
Hashes [] = Unit {0}
Hashes (h ∷ hs) = (is_empty h ≡ false) × Hashes hs

module _ (hash : String → String) (full : (s : String) → is_empty (hash s) ≡ false) where
  next_level-Hashes : (level : List String) → Hashes (next_level hash level)
  unfolding next_level
  next_level-Hashes [] = tt
  next_level-Hashes (a ∷ []) = (full _, tt)
  next_level-Hashes (a ∷ b ∷ rest) = (full _, next_level-Hashes rest)

  one_hash :
      (level : List String)
      → 0 < length level
      → ¬ (1 < length level)
      → Hashes level
      → (top : String) × (level ≡ top ∷ []) × (is_empty top ≡ false)
  one_hash [] some_hash one hashes = absurd (omega arith)
  one_hash (top ∷ []) some_hash one hashes = (top, refl, hashes.0)
  one_hash (a ∷ b ∷ rest) some_hash one hashes = absurd (omega arith)

  -- The last level holds one hash, the root.
  pub grow_top :
      (level : List String) (w : Acc ◌⊏◌ level)
      → 0 < length level
      → Hashes level
      → (top : String) × ((grow hash level w).0 ≡ top ∷ []) × (is_empty top ≡ false)
  grow_top level (Acc.intro _ above) some_hash hashes = elim (dec_lt 1 (length level)) [
    | no one ↦ rw (grow_one hash level above one) (one_hash level some_hash one hashes)
    | yes more ↦ rw (grow_more hash level above more) (
        grow_top (next_level hash level)
          (above (next_level hash level) (next_level-⊏ hash level more))
          (omega (arith, length-next_level hash level)) (next_level-Hashes level))
  ]
