-- ===== src/Prelude/Text.antt =====
-- Text as JavaScript sees it: templates, `split`, and lengths in UTF-16 units.
pub mod Splitting
use Prim.Native.Char.{code}
use Prim.Native.String
use Prim.Native.String.{String, [], ◌∷◌}
use hikari.Prelude.{ℕ, zero, suc, ◌+◌, Bool, true, false, List, ltb, ◌==◌ as nat_eq, if◌then◌else◌}
pub use Prim.Native.String.{String}
pub use text.Mathlib.Text.{◌==◌, starts_with}
pub use text.Mathlib.TextEquality.{eq_iff}
pub use text.Mathlib.TextPositions.{eq_refl}

infixr 65 ◌⊕◌
-- `a + b`
abbrev pub ◌⊕◌ : String → String → String
a ⊕ b = String.◌++◌ a b

-- `s.length`
unfoldable pub utf16_length : String → ℕ
utf16_length [] = 0
utf16_length (c ∷ s) = (if ltb (code c) 65536 then 1 else 2) + utf16_length s

-- `!s` of a text
abbrev pub is_empty : String → Bool
is_empty [] = true
is_empty (c ∷ s) = false

-- Some character has this code: `s.includes(…)` for one character.
unfoldable pub includes : ℕ → String → Bool
includes sep [] = false
includes sep (c ∷ s) = let rest = includes sep s in if nat_eq (code c) sep then true else rest

split_from : ℕ → String → String → List String
split_from sep cur [] = List.◌∷◌ cur List.[]
split_from sep cur (c ∷ s) =
    let closed = List.◌∷◌ cur (split_from sep "" s) in
    let longer = split_from sep (cur ⊕ (c ∷ [])) s in if nat_eq (code c) sep then closed else longer

-- `s.split(…)` at one character
unfoldable pub split : ℕ → String → List String
unfolding split_from
split sep s = split_from sep "" s

-- `s.slice(0, n)` of a text whose characters are single units
unfoldable pub take_chars : ℕ → String → String
take_chars zero s = ""
take_chars (suc n) [] = ""
take_chars (suc n) (c ∷ s) = c ∷ take_chars n s
