-- ===== src/Prelude/Json.antt =====
-- Values of JavaScript as `JSON` carries them, over the type of numbers.
use hikari.Prelude.{Bool, true, false, List, [], ◌∷◌, not, ◌||◌, if◌then◌else◌}
use hikari.Prelude.Int.{pos}
use hikari.Prelude.Text.{String, ◌==◌, is_empty}
use hikari.Prelude.Number.{Number}

mutual
  pub data Json (N : Type 0) : Type 0 where
    undefined : Json N
    null : Json N
    bool : Bool → Json N
    num : N → Json N
    str : String → Json N
    arr : Elems N → Json N
    obj : Fields N → Json N

  pub data Elems (N : Type 0) : Type 0 where
    nil : Elems N
    cons : Json N → Elems N → Elems N

  pub data Fields (N : Type 0) : Type 0 where
    end : Fields N
    field : String → Json N → Fields N → Fields N

module _ {N : Type 0} where
  abbrev pub elems : List (Json N) → Elems N
  elems [] = nil
  elems (x ∷ xs) = cons x (elems xs)

  abbrev pub fields : List (String × Json N) → Fields N
  fields [] = end
  fields ((k, v) ∷ fs) = field k v (fields fs)

  -- `[…]` and `{ … }`
  abbrev pub array : List (Json N) → Json N
  array xs = arr (elems xs)

  abbrev pub object : List (String × Json N) → Json N
  object fs = obj (fields fs)

  unfoldable pub field_of : String → Fields N → Json N
  field_of k end = undefined
  field_of k (field j v fs) = if j == k then v else field_of k fs

  -- `v.k` where v is neither null nor undefined, and `v?.k` of any v
  unfoldable pub get : String → Json N → Json N
  unfolding field_of
  get k (obj fs) = field_of k fs
  get k _ = undefined

  -- `v.k = x` on an object, in place if the field is there
  unfoldable pub put_field : String → Json N → Fields N → Fields N
  put_field k x end = field k x end
  put_field k x (field j v fs) = if j == k then field k x fs else field j v (put_field k x fs)

  -- `null` and `undefined`
  abbrev pub is_nullish : Json N → Bool
  is_nullish undefined = true
  is_nullish null = true
  is_nullish _ = false

  -- `a ?? b`
  abbrev pub if_nullish : Json N → Json N → Json N
  if_nullish a b = if is_nullish a then b else a

module _ (n : Number) where
  open n use {Num, of_ℤ, lt}

  abbrev pub is_nonzero : Num → Bool
  is_nonzero x = lt x (of_ℤ (pos 0)) || lt (of_ℤ (pos 0)) x

  -- Conversion to a Boolean: 0, NaN, "", null, undefined and false are false.
  unfoldable pub truthy : Json Num → Bool
  truthy undefined = false
  truthy null = false
  truthy (bool b) = b
  truthy (num x) = is_nonzero x
  truthy (str s) = not (is_empty s)
  truthy (arr xs) = true
  truthy (obj fs) = true

  -- `a || b`
  unfoldable pub or_else : Json Num → Json Num → Json Num
  unfolding truthy
  or_else a b = if truthy a then a else b
