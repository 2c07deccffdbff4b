-- ===== src/Prelude/Text/Splitting.antt =====
-- `split` undoes joining by a separator that the parts do not hold.
use Prim.Native.Char.{Char, code}
use Prim.Native.String.{String, [], ◌∷◌}
use text.Mathlib.TextLemmas.{nil-append, cons-append, append-nil, append_assoc}
use hikari.Prelude.{ℕ, ◌≡◌, ap, ◌∙◌, true, false, List, arith, Bool-cases, inl, inr, ◌==◌ as nat_eq}
use hikari.Prelude.Text.{◌⊕◌, includes, split_from, split}

shift : (cur a : String) (x : Char) → (cur ⊕ (x ∷ [])) ⊕ a ≡ cur ⊕ (x ∷ a)
shift cur a x =
    append_assoc cur (x ∷ []) a ∙ ap (◌⊕◌ cur) (cons-append x [] a ∙ ap (◌∷◌ x) (nil-append a))

includes_parts :
    (sep : ℕ) (x : Char) (a : String)
    → includes sep (x ∷ a) ≡ false
    → (nat_eq (code x) sep ≡ false) × (includes sep a ≡ false)
unfolding includes
includes_parts sep x a absent = elim (Bool-cases (nat_eq (code x) sep)) [
  | inl here ↦ cc (rw (here, includes) at absent)
  | inr other ↦ (other, rw (other, includes) at absent)
]

split_from_apart :
    (sep : ℕ) (cur a b : String) (c : Char)
    → code c ≡ sep
    → includes sep a ≡ false
    → split_from sep cur (a ⊕ (c ∷ b)) ≡ List.◌∷◌ (cur ⊕ a) (split sep b)
unfolding split_from split includes
split_from_apart sep cur [] b c same absent = rw (nil-append, append-nil) (ground arith)
split_from_apart sep cur (x ∷ a) b c same absent =
    let (other, rest) = includes_parts sep x a absent in
    rw cons-append (
      rw (other, split_from)
        (split_from_apart sep (cur ⊕ (x ∷ [])) a b c same rest
          ∙ ap (λ h. List.◌∷◌ h (split sep b)) (shift cur a x)))

split_from_whole :
    (sep : ℕ) (cur a : String)
    → includes sep a ≡ false
    → split_from sep cur a ≡ List.◌∷◌ (cur ⊕ a) List.[]
unfolding split_from includes
split_from_whole sep cur [] absent = rw append-nil
split_from_whole sep cur (x ∷ a) absent =
    let (other, rest) = includes_parts sep x a absent in
    rw (other, split_from)
      (split_from_whole sep (cur ⊕ (x ∷ [])) a rest
        ∙ ap (λ (h : String). List.◌∷◌ h List.[]) (shift cur a x))

pub includes-append_sep :
    (sep : ℕ) (a b : String) (c : Char) → code c ≡ sep → includes sep (a ⊕ (c ∷ b)) ≡ true
unfolding includes
includes-append_sep sep [] b c same = rw nil-append (ground arith)
includes-append_sep sep (x ∷ a) b c same =
    rw cons-append (ground (arith, includes-append_sep sep a b c same))

pub split_apart :
    (sep : ℕ) (a b : String) (c : Char)
    → code c ≡ sep
    → includes sep a ≡ false
    → split sep (a ⊕ (c ∷ b)) ≡ List.◌∷◌ a (split sep b)
unfolding split
split_apart sep a b c same absent =
    split_from_apart sep "" a b c same absent
    ∙ ap (λ h. List.◌∷◌ h (split_from sep "" b)) (nil-append a)

pub split_whole : (sep : ℕ) (a : String) → includes sep a ≡ false → split sep a ≡ List.◌∷◌ a List.[]
unfolding split
split_whole sep a absent =
    split_from_whole sep "" a absent ∙ ap (λ (h : String). List.◌∷◌ h List.[]) (nil-append a)
