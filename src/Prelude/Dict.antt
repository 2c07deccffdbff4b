-- ===== src/Prelude/Dict.antt =====
-- A JavaScript Map or Set with text keys, in insertion order.
use Prim.Native.String.{String}
use text.Mathlib.Text.{◌==◌}
use text.Mathlib.TextEquality.{eq_iff}
use hikari.Prelude.{
  ◌≡◌, refl, Bool, true, false, Option, none, some, List, [], ◌∷◌, arith, if◌then◌else◌,
}

abbrev pub Dict {ℓ} : Type ℓ → Type ℓ
Dict V = List (String × V)

module _ {ℓ} {V : Type ℓ} where
  -- `m.delete(key)`
  unfoldable pub erase : String → Dict V → Dict V
  erase key [] = []
  erase key ((name, value) ∷ rest) =
      let erased = erase key rest in if name == key then erased else (name, value) ∷ erased

  -- `m.set(key, value)`: a key that is there keeps its place.
  unfoldable pub insert : String → V → Dict V → Dict V
  insert key new [] = (key, new) ∷ []
  insert key new ((name, value) ∷ rest) =
      let inserted = insert key new rest in
      if name == key then (key, new) ∷ rest else (name, value) ∷ inserted

  -- `m.get(key)`
  unfoldable pub lookup : String → Dict V → Option V
  lookup key [] = none
  lookup key ((name, value) ∷ rest) =
      let found = lookup key rest in if name == key then some value else found

  -- `m.has(key)`
  abbrev pub has : String → Dict V → Bool
  has key m = elim (lookup key m) [ none ↦ false | some _ ↦ true ]

  pub lookup-erase :
      (key other : String) (m : Dict V)
      → lookup other (erase key m) ≡ (if key == other then none else lookup other m)
  unfolding lookup erase
  lookup-erase key other [] = ground arith
  lookup-erase key other ((name, value) ∷ rest) =
      ground
        (arith, eq_iff key other, eq_iff name key, eq_iff name other, lookup-erase key other rest)

  pub lookup-insert :
      (key other : String) (new : V) (m : Dict V)
      → lookup other (insert key new m) ≡ (if key == other then some new else lookup other m)
  unfolding lookup insert
  lookup-insert key other new [] = refl
  lookup-insert key other new ((name, value) ∷ rest) =
      let later = lookup-insert key other new rest in
      ground (arith, eq_iff key other, eq_iff name key, eq_iff name other, later)

  pub has-insert_self : (k : String) (v : V) (m : Dict V) → has k (insert k v m) ≡ true
  has-insert_self k v m = ground (arith, lookup-insert k k v m, eq_iff k k)

  pub has-insert :
      (k j : String) (v : V) (m : Dict V) → has j m ≡ true → has j (insert k v m) ≡ true
  has-insert k j v m h = ground (arith, lookup-insert k j v m)

-- `s.add(k)` on a Set, which is a Map to no value.
abbrev pub add_key : String → Dict (Unit {0}) → Dict (Unit {0})
add_key k s = insert k tt s
