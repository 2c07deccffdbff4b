-- ===== src/Database/Keyed.antt =====
-- services/database/src/db-client.ts: every record of a table stands under its own address, and no key
-- stands twice. The methods keep it so.
pub mod Rows
pub mod Calls
use hikari.Prelude.{
  ◌≡◌, refl, sym, ap, ◌∙◌, true, false, List, [], ◌∷◌, ◌++◌, Option, none, some, arith, Bool-cases,
  Option-cases, inl, inr, if◌then◌else◌,
}
use mathlib.Core.Bool.{false≢true}
use hikari.Prelude.Text.{String, ◌==◌, eq_iff}
use hikari.Prelude.Dict.{Dict, lookup, insert, lookup-insert}
use hikari.Database.Types.{UserProfile, UserPortfolio, UserTransaction, UserLoyalty, Database}
use hikari.Database.Storage.{or_empty}

module _ {V : Type 0} (P : String → V → Type 0) where
  -- Each value fits its key, which stands once.
  abbrev pub Keyed : Dict V → Type 0
  Keyed [] = Unit {0}
  Keyed ((k, v) ∷ m) = P k v × (lookup k m ≡ none) × Keyed m

  pub Keyed-lookup : (k : String) (v : V) (m : Dict V) → Keyed m → lookup k m ≡ some v → P k v
  unfolding lookup
  Keyed-lookup k v [] h e = cc
  Keyed-lookup k v ((j, x) ∷ m) (fits, once, rest) e = elim (Bool-cases (j == k)) [
    | inl same ↦
        let at_k : j ≡ k = (eq_iff j k).0 same in
        let value : x ≡ v = ground (arith, e, same) in rw (sym at_k, sym value) fits
    | inr other ↦ Keyed-lookup k v m rest (ground (arith, e, other))
  ]

  pub Keyed-insert : (k : String) (v : V) (m : Dict V) → P k v → Keyed m → Keyed (insert k v m)
  unfolding insert lookup
  Keyed-insert k v [] new h = (new, refl, _)
  Keyed-insert k v ((j, x) ∷ m) new (fits, once, rest) = elim (Bool-cases (j == k)) [
    | inl same ↦ let at_k : j ≡ k = (eq_iff j k).0 same in rw same (new, rw (sym at_k) once, rest)
    | inr other ↦
        let still : lookup j (insert k v m) ≡ none =
          ground (arith, lookup-insert k j v m, eq_iff k j, eq_iff j k, once, other) in
        rw other (fits, still, Keyed-insert k v m new rest)
  ]

-- All elements have it.
abbrev pub AllOf : {A : Type 0} → (A → Type 0) → List A → Type 0
AllOf P [] = Unit {0}
AllOf P (x ∷ xs) = P x × AllOf P xs

-- The invariant of the four tables.
pub record WellKeyed {N : Type 0} (db : Database N) : Type 0 where
  pub users : Keyed (λ k (u : UserProfile N). u.stellar_address ≡ k) db.users_table
  pub portfolios :
      Keyed
        (λ k (m : Dict UserPortfolio).
          Keyed (λ v (p : UserPortfolio). (p.user_address ≡ k) × (p.vault_type ≡ v)) m)
        db.portfolios_table
  pub transactions :
      Keyed
        (λ k (xs : List (UserTransaction N)). AllOf (λ t. t.user_address ≡ k) xs)
        db.transactions_table
  pub loyalties : Keyed (λ k (l : UserLoyalty N). l.user_address ≡ k) db.loyalty_table
