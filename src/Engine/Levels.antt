-- ===== src/Engine/Levels.antt =====
-- engine/src/cryptographic_verifier.ts and services/automation/src/merkle-solvency.ts: one level of a
-- SHA-256 Merkle tree and the level above it. Both files hold the same inner loop. The loops over the
-- levels go on while a level has more than one hash; they recur on the level's length, with no fuel.
use mathlib.Core.WellFounded.{Acc}
use hikari.Prelude.{
  ℕ, zero, suc, ◌+◌, ◌-◌, ◌/◌, ◌%◌, ◌<◌, ◌≡◌, refl, List, [], ◌∷◌, ◌==◌, ltb, if◌then◌else◌, length,
  get_or, arith,
}
use hikari.Prelude.Text.{String, ◌⊕◌}

-- A level has fewer hashes than another.
infix 50 ◌⊏◌
abbrev pub ◌⊏◌ : List String → List String → Type 0
a ⊏ b = length a < length b

acc_below : (k : ℕ) (level : List String) → length level < k → Acc ◌⊏◌ level
acc_below zero level h = elim h [ ]
acc_below (suc k) level h = Acc.intro level (λ above short. acc_below k above (omega arith))

unfoldable pub levels_end : (level : List String) → Acc ◌⊏◌ level
unfolding acc_below
levels_end level = acc_below (suc (length level)) level (omega arith)

-- What a read out of range gives; no reachable read is out of range.
abbrev pub undefined : String
undefined = "undefined"

-- The index of the neighbour that a hash is combined with.
abbrev pub pair_index : ℕ → ℕ
pair_index index = if index % 2 == 0 then index + 1 else index - 1

-- The neighbour's hash, or the hash itself where there is no neighbour.
unfoldable pub sibling : List String → ℕ → String
sibling level index =
    if ltb (pair_index index) (length level)
    then get_or level (pair_index index) undefined
    else get_or level index undefined

pair_index-suc : (i : ℕ) → pair_index (suc (suc i)) ≡ suc (suc (pair_index i))
pair_index-suc i = ground arith

half-suc : (i : ℕ) → suc (suc i) / 2 ≡ suc (i / 2)
half-suc i = omega arith

mod-suc : (i : ℕ) → suc (suc i) % 2 ≡ i % 2
mod-suc i = omega arith

sibling-cons :
    (left right : String) (rest : List String) (i : ℕ)
    → sibling (left ∷ right ∷ rest) (suc (suc i)) ≡ sibling rest i
unfolding sibling
sibling-cons left right rest i = rw (pair_index-suc i) (ground arith)

module _ (hash : String → String) where
  -- for (let i = 0; i < currentLevel.length; i += 2): a last hash without a partner is paired with itself
  unfoldable pub next_level : List String → List String
  next_level [] = []
  next_level (left ∷ []) = hash (left ⊕ left) ∷ []
  next_level (left ∷ right ∷ rest) = hash (left ⊕ right) ∷ next_level rest

  -- The level above has half the hashes, rounded up.
  pub length-next_level : (level : List String) → length (next_level level) ≡ (length level + 1) / 2
  unfolding next_level
  length-next_level [] = omega arith
  length-next_level (left ∷ []) = omega arith
  length-next_level (left ∷ right ∷ rest) = omega (arith, length-next_level rest)

  pub next_level-⊏ : (level : List String) → 1 < length level → next_level level ⊏ level
  next_level-⊏ level h = omega (arith, length-next_level level)

  -- a hash combined with its neighbour's, in the order of their indices
  unfoldable pub combine : ℕ → String → String → String
  combine index current other =
      if index % 2 == 0 then hash (current ⊕ other) else hash (other ⊕ current)

  combine-suc : (i : ℕ) (a b : String) → combine (suc (suc i)) a b ≡ combine i a b
  unfolding combine
  combine-suc i a b = ground (arith, mod-suc i)

  -- The hash above index i combines the hash at i with its neighbour's.
  pub get_or-next_level :
      (level : List String) (i : ℕ)
      → i < length level
      → get_or (next_level level) (i / 2) undefined
        ≡ combine i (get_or level i undefined) (sibling level i)
  unfolding next_level
  get_or-next_level [] i h = elim h [ ]
  get_or-next_level (left ∷ []) zero h = unfold combine in unfold sibling in refl
  get_or-next_level (left ∷ []) (suc i) h = absurd (omega arith)
  get_or-next_level (left ∷ right ∷ rest) zero h = unfold combine in unfold sibling in ground arith
  get_or-next_level (left ∷ right ∷ rest) (suc zero) h =
      unfold combine in unfold sibling in ground arith
  get_or-next_level (left ∷ right ∷ rest) (suc (suc i)) h =
      rw (half-suc i, combine-suc i _ _, sibling-cons left right rest i)
        (get_or-next_level rest i (omega arith))
