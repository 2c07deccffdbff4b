-- ===== src/Prelude/Number.antt =====
-- JavaScript's Number, the double-precision arithmetic of the host: an argument of every definition
-- that uses it.
use hikari.Prelude.{◌+◌, ◌*◌, ◌/◌, ◌%◌, Bool, ◌==◌, ◌&&◌, Option, none, some, if◌then◌else◌}
use hikari.Prelude.Int.{
  ℤ, pos, pos_part, neg_part, ltb_ℤ, leb_ℤ, ◌+ℤ◌, ◌-ℤ◌, ◌*ℤ◌, div_by, quot, sub_ℕ,
}

pub record Number : Type 1 where
  pub Num : Type 0
  -- `Number(n)` of a BigInt, and the integer literals
  pub of_ℤ : ℤ → Num
  -- `BigInt(x)`; it raises (`none`) unless x is an integer
  pub to_ℤ : Num → Option ℤ
  pub add : Num → Num → Num
  pub sub : Num → Num → Num
  pub mul : Num → Num → Num
  pub div : Num → Num → Num
  pub floor : Num → Num
  -- `<` and `<=`; both are false of NaN
  pub lt : Num → Num → Bool
  pub le : Num → Num → Bool
  pub min : Num → Num → Num

-- Four decimals, held as a multiple of 1/10000: an instance for tests.
abbrev pub fixed_div : ℤ → ℤ → ℤ
fixed_div a b = elim (quot (a *ℤ pos 10000) b) [ none ↦ pos 0 | some q ↦ q ]

abbrev pub fixed_point : Number
fixed_point = record {
  Num = ℤ;
  of_ℤ = λ n. n *ℤ pos 10000;
  to_ℤ = λ x.
      if pos_part x % 10000 == 0 && neg_part x % 10000 == 0 then some (div_by x 10000) else none;
  add = ◌+ℤ◌;
  sub = ◌-ℤ◌;
  mul = λ a b. div_by (a *ℤ b) 10000;
  div = fixed_div;
  floor = λ x. sub_ℕ (pos_part x / 10000 * 10000) ((neg_part x + 9999) / 10000 * 10000);
  lt = ltb_ℤ;
  le = leb_ℤ;
  min = λ a b. if ltb_ℤ b a then b else a;
}
